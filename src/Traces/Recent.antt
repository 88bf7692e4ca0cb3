-- ===== src/Traces/Recent.antt =====
-- The log against the list of all records.
use mathlib.Core.List.{reverse, reverse_aux, reverse-append, map-append}
use synthia_mqtt.Prelude.{
  ℕ, zero, suc, ◌+◌, ◌-◌, ◌≤◌, ◌<◌, ◌≡◌, refl, ap, sym, ◌∙◌, List, [], ◌∷◌, ◌++◌, map, arith, take,
  drop, length, length-drop, length-map, ltb, inl, inr, Bool-cases,
}
use synthia_mqtt.Json.{ℤ, pos, negsuc}
use synthia_mqtt.Traces.{
  TraceRecord, valid, TraceFile, capacity, only_objects, load_all, newest, append, append_all,
  bounded_limit, collect, list_recent,
}

module _ {A : Type 0} where
  take_all : (n : ℕ) (xs : List A) → length xs ≤ n → take n xs ≡ xs
  take_all zero [] h = refl
  take_all zero (x ∷ xs) h = absurd (omega arith)
  take_all (suc n) [] h = refl
  take_all (suc n) (x ∷ xs) h = ap (λ r. x ∷ r) (take_all n xs (omega arith))

  take-append : (n : ℕ) (xs ys : List A) → length xs ≡ n → take n (xs ++ ys) ≡ xs
  take-append zero [] ys h = refl
  take-append zero (x ∷ xs) ys h = absurd (omega arith)
  take-append (suc n) [] ys h = absurd (omega arith)
  take-append (suc n) (x ∷ xs) ys h = ap (λ r. x ∷ r) (take-append n xs ys (omega arith))

  take-take : (m n : ℕ) (xs : List A) → m ≤ n → take m (take n xs) ≡ take m xs
  take-take zero n xs h = refl
  take-take (suc m) zero xs h = absurd (omega arith)
  take-take (suc m) (suc n) [] h = refl
  take-take (suc m) (suc n) (x ∷ xs) h = ap (λ r. x ∷ r) (take-take m n xs (omega arith))

  take-drop : (n : ℕ) (xs : List A) → take n xs ++ drop n xs ≡ xs
  take-drop zero xs = refl
  take-drop (suc n) [] = refl
  take-drop (suc n) (x ∷ xs) = ap (λ r. x ∷ r) (take-drop n xs)

  length-reverse_aux : (xs ys : List A) → length (reverse_aux xs ys) ≡ length xs + length ys
  length-reverse_aux [] ys = omega arith
  length-reverse_aux (x ∷ xs) ys = omega (arith, length-reverse_aux xs (x ∷ ys))

  length-reverse : (xs : List A) → length (reverse xs) ≡ length xs
  length-reverse xs = omega (arith, length-reverse_aux xs [])

  reverse-drop :
      (n : ℕ) (xs : List A)
      → n < length xs
      → reverse (drop (length xs - n) xs) ≡ take n (reverse xs)
  reverse-drop n xs h =
      let k = length xs - n in
      sym (
        take-append n (reverse (drop k xs)) (reverse (take k xs))
          (omega (arith, length-reverse (drop k xs), length-drop k xs)))
      ∙ ap (take n) (sym (reverse-append (take k xs) (drop k xs)))
      ∙ ap (λ t. take n (reverse t)) (take-drop k xs)

  -- The newest items, seen from the end.
  pub reverse-newest : (n : ℕ) (items : List A) → reverse (newest n items) ≡ take n (reverse items)
  unfolding newest
  reverse-newest n items = elim (Bool-cases (ltb n (length items))) [
    | inl more ↦ rw more (reverse-drop n items (ground arith))
    | inr fits ↦ rw fits (sym (take_all n (reverse items) (ground (arith, length-reverse items))))
  ]

module _ {A B : Type 0} (f : A → B) where
  map-reverse_aux : (xs ys : List A) → map f (reverse_aux xs ys) ≡ reverse_aux (map f xs) (map f ys)
  map-reverse_aux [] ys = refl
  map-reverse_aux (x ∷ xs) ys = map-reverse_aux xs (x ∷ ys)

  drop-map : (n : ℕ) (xs : List A) → drop n (map f xs) ≡ map f (drop n xs)
  drop-map zero xs = refl
  drop-map (suc n) [] = refl
  drop-map (suc n) (x ∷ xs) = drop-map n xs

  newest-map : (n : ℕ) (xs : List A) → newest n (map f xs) ≡ map f (newest n xs)
  unfolding newest
  newest-map n xs = elim (Bool-cases (ltb n (length xs))) [
    | inl more ↦ rw (length-map f xs, more) (drop-map (length xs - n) xs)
    | inr fits ↦ rw (length-map f xs, fits)
  ]

only_objects_of_valid : (rs : List TraceRecord) → only_objects (map valid rs) ≡ map valid rs
unfolding only_objects
only_objects_of_valid [] = refl
only_objects_of_valid (r ∷ rs) = ap (λ t. valid r ∷ t) (only_objects_of_valid rs)

collect_of_valid : (n : ℕ) (rs : List TraceRecord) → collect n (map valid rs) ≡ take n rs
unfolding collect
collect_of_valid zero rs = refl
collect_of_valid (suc n) [] = refl
collect_of_valid (suc n) (r ∷ rs) = ap (λ t. r ∷ t) (collect_of_valid n rs)

pub bounded_limit_le :
    (max_entries : ℕ) (limit : ℤ) → bounded_limit max_entries limit ≤ capacity max_entries
unfolding bounded_limit
bounded_limit_le m (negsuc n) = ground arith
bounded_limit_le m (pos zero) = ground arith
bounded_limit_le m (pos (suc n)) = ground arith

-- The file holds valid records, which are the newest that fit of those given, newest first.
record Holds (max_entries : ℕ) (newest_first : List TraceRecord) (file : TraceFile) : Type 0 where
  held : List TraceRecord
  loaded : load_all file ≡ map valid held
  order : reverse held ≡ take (capacity max_entries) newest_first

take-cons-take :
    (n : ℕ) (r : TraceRecord) (rs : List TraceRecord) → take n (r ∷ take n rs) ≡ take n (r ∷ rs)
take-cons-take zero r rs = refl
take-cons-take (suc n) r rs = ap (λ t. r ∷ t) (take-take n (suc n) rs (omega arith))

append-Holds :
    (max_entries : ℕ) (rs : List TraceRecord) (r : TraceRecord) (file : TraceFile)
    → Holds max_entries rs file
    → Holds max_entries (r ∷ rs) (append max_entries r.timestamp r.request file)
unfolding append load_all
append-Holds m rs r file h =
    let cap = capacity m in
    record {
      held = newest cap (h.held ++ (r ∷ []));
      loaded =
          ap only_objects (
            ap (newest cap)
              (ap (λ t. t ++ (valid r ∷ [])) h.loaded ∙ sym (map-append valid h.held (r ∷ [])))
            ∙ newest-map valid cap (h.held ++ (r ∷ [])))
          ∙ only_objects_of_valid (newest cap (h.held ++ (r ∷ [])));
      order =
          reverse-newest cap (h.held ++ (r ∷ []))
          ∙ ap (take cap) (reverse-append h.held (r ∷ []))
          ∙ ap (λ t. take cap (r ∷ t)) h.order
          ∙ take-cons-take cap r rs;
    }

append_all-Holds :
    (max_entries : ℕ) (later earlier : List TraceRecord) (file : TraceFile)
    → Holds max_entries earlier file
    → Holds max_entries (reverse_aux later earlier) (append_all max_entries later file)
unfolding append_all
append_all-Holds m [] earlier file h = h
append_all-Holds m (r ∷ later) earlier file h =
    append_all-Holds m later (r ∷ earlier) (append m r.timestamp r.request file)
      (append-Holds m earlier r file h)

list_recent-Holds :
    (max_entries : ℕ) (rs : List TraceRecord) (limit : ℤ) (file : TraceFile)
    → Holds max_entries rs file
    → list_recent max_entries limit file ≡ take (bounded_limit max_entries limit) rs
unfolding list_recent
list_recent-Holds m rs limit file h =
    let n = bounded_limit m limit in
    ap (λ t. collect n (reverse t)) h.loaded
    ∙ ap (collect n) (sym (map-reverse_aux valid h.held []))
    ∙ collect_of_valid n (reverse h.held)
    ∙ ap (take n) h.order
    ∙ take-take n (capacity m) rs (bounded_limit_le m limit)

take-nil : (n : ℕ) → [] ≡ take {A = TraceRecord} n []
take-nil zero = refl
take-nil (suc n) = refl

Holds-empty : (max_entries : ℕ) (file : TraceFile) → load_all file ≡ [] → Holds max_entries [] file
unfolding load_all
Holds-empty m file e = record { held = []; loaded = e; order = take-nil (capacity m) }

-- After any attempts were recorded in a file that held no records, the recent records are the
-- newest of them in reverse order, as many as the limit and the capacity allow.
pub list_recent-append_all :
    (max_entries : ℕ) (rs : List TraceRecord) (limit : ℤ) (file : TraceFile)
    → load_all file ≡ []
    → list_recent max_entries limit (append_all max_entries rs file)
      ≡ take (bounded_limit max_entries limit) (reverse rs)
list_recent-append_all m rs limit file e =
    list_recent-Holds m (reverse rs) limit (append_all m rs file)
      (append_all-Holds m rs [] file (Holds-empty m file e))
