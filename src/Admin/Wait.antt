-- ===== src/Admin/Wait.antt =====
-- The wait for the port of the broker ends, and with the right answer.
use synthia_mqtt.Prelude.{
  ℕ, zero, suc, ◌+◌, ◌*◌, ◌≤◌, ◌<◌, ◌≡◌, refl, ap, ◌↔◌, String, Bool, true, false, Option, some,
  ltb, inl, inr, Bool-cases, arith,
}
use synthia_mqtt.Json.{ℤ}
use synthia_mqtt.Admin.{Port, wait_from, wait_for_port}

-- `time.sleep(0.2)` between two attempts takes that long at least.
abbrev pub Pauses : Port → Type 0
Pauses port = (n : ℕ) → port.clock n + 200000 ≤ port.clock (suc n)

module _ (port : Port) (host : String) (number : ℤ) (deadline : ℕ) (pauses : Pauses port) where
  -- An attempt from the n-th on that starts before the deadline and connects.
  abbrev pub Connects : ℕ → Type 0
  Connects n = (m : ℕ) × (n ≤ m) × (port.clock m < deadline) × (port.connects host number m ≡ true)

  later_clock : (n m : ℕ) → n ≤ m → port.clock n ≤ port.clock m
  later_clock n zero h = let same : n ≡ 0 = omega (arith, h) in rw same (omega arith)
  later_clock n (suc m) h = elim (Bool-cases (ltb n (suc m))) [
    | inl less ↦ omega (arith, pauses m, later_clock n m (ground (arith, less)))
    | inr last ↦ let same : n ≡ suc m = ground (arith, last, h) in rw same (omega arith)
  ]

  too_late : (n : ℕ) → deadline ≤ port.clock n → Connects n → ⊥
  too_late n late (m, after, early, connected) = omega (arith, later_clock n m after, late, early)

  -- The first attempt connects, or a later one does.
  connected_next : (n : ℕ) → port.connects host number n ≡ false → Connects n → Connects (suc n)
  connected_next n failed (m, after, early, connected) = elim (Bool-cases (ltb n m)) [
    | inl less ↦ (m, ground (arith, less), early, connected)
    | inr same ↦
        let e : m ≡ n = ground (arith, same, after) in cc (ap (port.connects host number) e)
  ]

  -- The answer of the loop from the n-th attempt on.
  abbrev Answers : Option Bool → ℕ → Type 0
  Answers r n = (b : Bool) × (r ≡ some b) × (b ≡ true → Connects n) × (Connects n → b ≡ true)

  ended_late :
      (fuel n : ℕ)
      → ltb (port.clock n) deadline ≡ false
      → Answers (wait_from port host number deadline (suc fuel) n) n
  unfolding wait_from
  ended_late fuel n late =
      (false, rw late, λ e. cc, λ c. absurd (too_late n (ground (arith, late)) c))

  wait_from_ends :
      (fuel n : ℕ)
      → deadline ≤ port.clock n + 200000 * fuel
      → Answers (wait_from port host number deadline (suc fuel) n) n
  unfolding wait_from
  wait_from_ends zero n h = ended_late zero n (ground (arith, h))
  wait_from_ends (suc fuel) n h = elim (Bool-cases (ltb (port.clock n) deadline)) [
    | inr late ↦ ended_late (suc fuel) n late
    | inl early ↦ elim (Bool-cases (port.connects host number n)) [
      | inl connected ↦ (
        true,
        rw (early, connected),
        λ e. (n, omega arith, ground (arith, early), connected),
        λ c. refl,
      )
      | inr failed ↦
          let (b, ends, sound, complete) =
            wait_from_ends fuel (suc n) (omega (arith, h, pauses n)) in
          (
            b,
            rw (early, failed) ends,
            λ e.
                (let (m, after, early', connected) = sound e in
                  (m, omega (arith, after), early', connected)),
            λ c. complete (connected_next n failed c),
          )
    ]
  ]

-- If the pauses are as long as they are asked for, the wait for the port ends within its fuel, and
-- finds the broker ready exactly when an attempt that starts within 20 seconds connects.
pub wait_for_port_iff :
    (port : Port) (host : String) (number : ℤ) (now : ℕ)
    → Pauses port
    → now ≤ port.clock 0
    → (b : Bool) × (wait_for_port port host number now ≡ some b)
      × ((b ≡ true)
          ↔ ((m : ℕ) × (port.clock m < now + 20000000) × (port.connects host number m ≡ true)))
unfolding wait_for_port
wait_for_port_iff port host number now pauses begun =
    let (b, ends, sound, complete) =
      wait_from_ends port host number (now + 20000000) pauses 100 0 (omega (arith, begun)) in
    (
      b,
      ends,
      (
        λ e. (let (m, after, early, connected) = sound e in (m, early, connected)),
        λ (m, early, connected). complete (m, omega arith, early, connected),
      ),
    )
