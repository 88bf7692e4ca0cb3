-- ===== src/Metrics/Table.antt =====
-- The table of counts that the metrics keep for each addon, and the sums over it.
use synthia_mqtt.Prelude.{
  ℕ, ◌+◌, ◌≡◌, ◌||◌, is_some, refl, sym, ap, ◌∙◌, String, Bool, ◌&&◌, some, List, [], ◌∷◌, map,
  keep, any, length, ◌==◌, eq_iff, if◌then◌else◌, Dict, lookup, insert, lookup-insert, arith,
}
use synthia_mqtt.Prelude.Sorting.{place, sort_by}
use synthia_mqtt.Traces.{Outcome, success, denied, error, TraceRecord}
use synthia_mqtt.Metrics.{
  Counts, no_counts, count_outcome, has_outcome, addon_of_trace, counts_of, count_trace, tally,
}

-- The attempts of an addon with an outcome.
abbrev pub of_addon : String → Outcome → TraceRecord → Bool
of_addon addon_id outcome t = addon_of_trace t == addon_id && has_outcome outcome t

abbrev pub concerns : String → TraceRecord → Bool
concerns addon_id t = addon_of_trace t == addon_id

abbrev pub expected : String → List TraceRecord → Counts
expected addon_id ts = record {
  success = length (keep (of_addon addon_id success) ts);
  denied = length (keep (of_addon addon_id denied) ts);
  error = length (keep (of_addon addon_id error) ts);
}

abbrev pub plus : Counts → Counts → Counts
plus a b = record {
  success = a.success + b.success;
  denied = a.denied + b.denied;
  error = a.error + b.error;
}

plus_none : (c : Counts) → plus c no_counts ≡ c
plus_none c = ground arith

pub plus_first : (c : Counts) → plus no_counts c ≡ c
plus_first c = ground arith

-- One more attempt, of this addon or of another.
expected-cons :
    (addon_id : String) (t : TraceRecord) (ts : List TraceRecord) (c : Counts)
    → plus c (expected addon_id (t ∷ ts))
      ≡ plus (if concerns addon_id t then count_outcome t.outcome c else c) (expected addon_id ts)
expected-cons addon_id t ts c = ground arith

lookup-count_trace :
    (addon_id : String) (t : TraceRecord) (per_addon : Dict Counts)
    → lookup addon_id (count_trace t per_addon) ≡ (
        if concerns addon_id t
        then some (count_outcome t.outcome (counts_of addon_id per_addon))
        else lookup addon_id per_addon)
unfolding count_trace
lookup-count_trace addon_id t per_addon = ground (
  arith,
  lookup-insert (addon_of_trace t) addon_id
      (count_outcome t.outcome (counts_of (addon_of_trace t) per_addon)) per_addon,
  eq_iff (addon_of_trace t) addon_id,
)

counts_of-count_trace :
    (addon_id : String) (t : TraceRecord) (per_addon : Dict Counts)
    → counts_of addon_id (count_trace t per_addon) ≡ (
        if concerns addon_id t
        then count_outcome t.outcome (counts_of addon_id per_addon)
        else counts_of addon_id per_addon)
unfolding counts_of
counts_of-count_trace addon_id t per_addon = ground (arith, lookup-count_trace addon_id t per_addon)

pub counts_of-tally :
    (addon_id : String) (per_addon : Dict Counts) (ts : List TraceRecord)
    → counts_of addon_id (tally per_addon ts)
      ≡ plus (counts_of addon_id per_addon) (expected addon_id ts)
unfolding tally
counts_of-tally addon_id per_addon [] = sym (plus_none (counts_of addon_id per_addon))
counts_of-tally addon_id per_addon (t ∷ ts) =
    counts_of-tally addon_id (count_trace t per_addon) ts
    ∙ ap (λ c. plus c (expected addon_id ts)) (counts_of-count_trace addon_id t per_addon)
    ∙ sym (expected-cons addon_id t ts (counts_of addon_id per_addon))

pub some-tally :
    (addon_id : String) (per_addon : Dict Counts) (ts : List TraceRecord)
    → is_some (lookup addon_id (tally per_addon ts))
      ≡ (is_some (lookup addon_id per_addon) || any (concerns addon_id) ts)
unfolding tally
some-tally addon_id per_addon [] = ground arith
some-tally addon_id per_addon (t ∷ ts) = ground (
  arith,
  some-tally addon_id (count_trace t per_addon) ts,
  lookup-count_trace addon_id t per_addon,
)

-- The sum of a field over the rows.
abbrev pub total {ℓ} : {A : Type ℓ} → (A → ℕ) → List A → ℕ
total f [] = 0
total f (x ∷ xs) = f x + total f xs

pub total-map {ℓ κ} :
    {A : Type ℓ} {B : Type κ} (f : B → ℕ) (g : A → B) (xs : List A)
    → total f (map g xs) ≡ total (λ x. f (g x)) xs
total-map f g [] = refl
total-map f g (x ∷ xs) = ap (λ n. f (g x) + n) (total-map f g xs)

module _ {ℓ} {A : Type ℓ} (key : A → String) (f : A → ℕ) where
  total-place : (x : A) (xs : List A) → total f (place key x xs) ≡ f x + total f xs
  unfolding place
  total-place x [] = refl
  total-place x (y ∷ ys) = ground (arith, total-place x ys)

  pub total-sort_by : (xs : List A) → total f (sort_by key xs) ≡ total f xs
  unfolding sort_by
  total-sort_by [] = refl
  total-sort_by (x ∷ xs) = omega (arith, total-place x (sort_by key xs), total-sort_by xs)

module _ (field_of : Counts → ℕ) (zero_there : field_of no_counts ≡ 0) where
  total-insert :
      (k : String) (c : Counts) (d : Dict Counts)
      → total (λ (e : String × Counts). field_of e.1) (insert k c d) + field_of (counts_of k d)
        ≡ total (λ (e : String × Counts). field_of e.1) d + field_of c
  unfolding insert counts_of lookup
  total-insert k c [] = omega (arith, zero_there)
  total-insert k c ((j, v) ∷ d) = ground (arith, total-insert k c d)

  module _ (p : TraceRecord → Bool)
      (counts_one : (t : TraceRecord) (c : Counts)
        → field_of (count_outcome t.outcome c) ≡ field_of c + (if p t then 1 else 0)) where
    total-count_trace :
        (t : TraceRecord) (d : Dict Counts)
        → total (λ (e : String × Counts). field_of e.1) (count_trace t d)
          ≡ total (λ (e : String × Counts). field_of e.1) d + (if p t then 1 else 0)
    unfolding count_trace
    total-count_trace t d = omega (
      arith,
      total-insert (addon_of_trace t) (count_outcome t.outcome (counts_of (addon_of_trace t) d)) d,
      counts_one t (counts_of (addon_of_trace t) d),
    )

    pub total-tally :
        (d : Dict Counts) (ts : List TraceRecord)
        → total (λ (e : String × Counts). field_of e.1) (tally d ts)
          ≡ total (λ (e : String × Counts). field_of e.1) d + length (keep p ts)
    unfolding tally
    total-tally d [] = omega arith
    total-tally d (t ∷ ts) = ground (arith, total-tally (count_trace t d) ts, total-count_trace t d)
