-- ===== src/Traces/Bounds.antt =====
-- The size of the log, and the place of the latest record in it.
use mathlib.Core.List.{reverse, reverse_aux, reverse-append}
use synthia_mqtt.Prelude.{
  ℕ, zero, suc, ◌-◌, ◌≤◌, ◌<◌, ◌≡◌, refl, ap, ◌∙◌, List, [], ◌∷◌, ◌++◌, arith, take, length,
  length-drop,
}
use synthia_mqtt.Json.{ℤ, pos, negsuc}
use synthia_mqtt.Traces.{
  TraceRequest, TraceRecord, Entry, valid, invalid, no_object, TraceFile, entries, capacity,
  only_objects, load_all, newest, append, bounded_limit, collect, list_recent,
}
use synthia_mqtt.Traces.Recent.{reverse-newest}

length-newest : {A : Type 0} (n : ℕ) (xs : List A) → length (newest n xs) ≤ n
unfolding newest
length-newest n xs = ground (arith, length-drop (length xs - n) xs)

reverse_aux-objects :
    (xs ys : List Entry)
    → reverse_aux (only_objects xs) (only_objects ys) ≡ only_objects (reverse_aux xs ys)
unfolding only_objects
reverse_aux-objects [] ys = refl
reverse_aux-objects (valid r ∷ xs) ys = reverse_aux-objects xs (valid r ∷ ys)
reverse_aux-objects (invalid ∷ xs) ys = reverse_aux-objects xs (invalid ∷ ys)
reverse_aux-objects (no_object ∷ xs) ys = reverse_aux-objects xs (no_object ∷ ys)

suc_sub_one : (n : ℕ) → suc n - 1 ≡ n
suc_sub_one n = omega arith

-- The records that are collected when the first entry is a valid one.
abbrev first_and : TraceRecord → ℕ → ℕ → List Entry → List TraceRecord
first_and r c n rest = r ∷ collect (n - 1) (only_objects (take (c - 1) rest))

collect_first :
    (c n : ℕ) (r : TraceRecord) (rest : List Entry)
    → 0 < c
    → 0 < n
    → collect n (only_objects (take c (valid r ∷ rest))) ≡ first_and r c n rest
unfolding collect only_objects
collect_first zero n r rest h k = absurd (omega arith)
collect_first (suc c) zero r rest h k = absurd (omega arith)
collect_first (suc c) (suc n) r rest h k = rw (suc_sub_one n, suc_sub_one c)

capacity_pos : (m : ℕ) → 0 < capacity m
unfolding capacity
capacity_pos m = ground arith

bounded_limit_pos : (m : ℕ) (limit : ℤ) → 0 < bounded_limit m limit
unfolding bounded_limit
bounded_limit_pos m (negsuc n) = omega arith
bounded_limit_pos m (pos zero) = omega arith
bounded_limit_pos m (pos (suc n)) = ground arith

abbrev pub stored : TraceFile → ℕ
stored (entries items) = length items
stored _ = 0

-- Whatever the file held before, after an attempt was recorded it has at most as many entries as
-- the capacity, and the attempt is the first of the recent records.
pub append_bounds :
    (max_entries now : ℕ) (request : TraceRequest) (file : TraceFile) (limit : ℤ)
    → (stored (append max_entries now request file) ≤ capacity max_entries)
      × ((older : List TraceRecord) × (list_recent max_entries limit
              (append max_entries now request file)
            ≡ record { timestamp = now; request = request } ∷ older))
unfolding append list_recent load_all
append_bounds m now request file limit =
    let r : TraceRecord = record { timestamp = now; request = request } in
    let cap = capacity m in
    let n = bounded_limit m limit in
    let all_items = load_all file ++ (valid r ∷ []) in
    (
      length-newest cap all_items,
      (
        collect (n - 1) (only_objects (take (cap - 1) (reverse (load_all file)))),
        ap (collect n) (reverse_aux-objects (newest cap all_items) [])
            ∙ ap (λ t. collect n (only_objects t))
                (reverse-newest cap all_items
                  ∙ ap (take cap) (reverse-append (load_all file) (valid r ∷ [])))
            ∙ collect_first cap n r (reverse (load_all file)) (capacity_pos m)
                (bounded_limit_pos m limit),
      ),
    )
