-- ===== src/Prelude/Text.antt =====
-- Python's text methods, by recursion over the code points of a text.
pub mod Laws
pub mod Lines
use Prim.Native.Nat.{ℕ, zero, suc, ◌-◌, ◌*◌}
use Prim.Native.Char.{Char, code}
use Prim.Native.String.{String, [], ◌∷◌, ◌++◌ as ◌<>◌, char_at}
use mathlib.Core.Bool.{Bool, true, false, not, ◌&&◌, ◌||◌}
use mathlib.Core.List.{List, [], ◌∷◌}
use text.Mathlib.Text.{◌==◌}
use synthia_mqtt.Prelude.Tests.{leb, eqb, if◌then◌else◌}

-- The white space that `str.strip` removes and `str.split` splits at.
unfoldable pub is_space : Char → Bool
is_space ch =
    let c = code ch in
    (leb 9 c && leb c 13)
    || (leb 28 c && leb c 32)
    || eqb c 0x85
    || eqb c 0xa0
    || eqb c 0x1680
    || (leb 0x2000 c && leb c 0x200a)
    || eqb c 0x2028
    || eqb c 0x2029
    || eqb c 0x202f
    || eqb c 0x205f
    || eqb c 0x3000

unfoldable pub lstrip : String → String
lstrip [] = []
lstrip (c ∷ s) = if is_space c then lstrip s else c ∷ s

unfoldable pub rstrip : String → String
rstrip [] = []
rstrip (c ∷ s) = let rest = rstrip s in if is_space c && rest == "" then [] else c ∷ rest

-- `s.strip()`
unfoldable pub strip : String → String
unfolding lstrip rstrip
strip s = rstrip (lstrip s)

-- `s.startswith(prefix)`
unfoldable pub starts_with : String → String → Bool
starts_with s [] = true
starts_with [] (c ∷ prefix) = false
starts_with (d ∷ s) (c ∷ prefix) = eqb (code d) (code c) && starts_with s prefix

-- `sub in s`
unfoldable pub has_infix : String → String → Bool
unfolding starts_with
has_infix [] sub = sub == ""
has_infix (c ∷ s) sub = starts_with (c ∷ s) sub || has_infix s sub

push_head : Char → List String → List String
push_head c [] = (c ∷ []) ∷ []
push_head c (x ∷ xs) = (c ∷ x) ∷ xs

-- `s.split(sep)` at a separator of one character, given by its code point.
unfoldable pub split_on : ℕ → String → List String
unfolding push_head
split_on sep [] = "" ∷ []
split_on sep (c ∷ s) =
    let rest = split_on sep s in if eqb (code c) sep then "" ∷ rest else push_head c rest

-- The code points at which `str.splitlines` ends a line.
unfoldable pub is_line_end : Char → Bool
is_line_end ch =
    let c = code ch in
    (leb 10 c && leb c 13) || (leb 28 c && leb c 30) || eqb c 0x85 || eqb c 0x2028 || eqb c 0x2029

-- A line feed right after a carriage return ends no further line.
lines_after : Bool → String → List String
unfolding push_head is_line_end
lines_after after_cr [] = []
lines_after after_cr (c ∷ s) =
    let more = lines_after (eqb (code c) 13) s in
    if after_cr && eqb (code c) 10
    then more
    else if is_line_end c
    then "" ∷ more
    else push_head c more

-- `s.splitlines()`
unfoldable pub split_lines : String → List String
unfolding lines_after
split_lines s = lines_after false s

-- `s[n:]`
unfoldable pub drop_text : ℕ → String → String
drop_text zero s = s
drop_text (suc n) [] = []
drop_text (suc n) (c ∷ s) = drop_text n s

-- `s[:n]`
unfoldable pub take_text : ℕ → String → String
take_text zero s = []
take_text (suc n) [] = []
take_text (suc n) (c ∷ s) = c ∷ take_text n s

-- `s.rstrip(c)` for one character, given by its code point.
unfoldable pub rstrip_char : ℕ → String → String
rstrip_char k [] = []
rstrip_char k (c ∷ s) =
    let rest = rstrip_char k s in if eqb (code c) k && rest == "" then [] else c ∷ rest

-- `sep.join(parts)`
unfoldable pub join : String → List String → String
join sep [] = ""
join sep (x ∷ []) = x
join sep (x ∷ y ∷ xs) = x <> (sep <> join sep (y ∷ xs))

-- `c.lower()` for one character, for ASCII and Latin-1, and for the two other characters whose
-- lower case holds an ASCII letter, the Kelvin sign and the dotted capital I. Other letters stay.
unfoldable pub lower_char : Char → String
lower_char ch =
    let c = code ch in
    if leb b'A' c && leb c b'Z'
    then char_at "abcdefghijklmnopqrstuvwxyz" (c - b'A') ∷ []
    else if leb 0xc0 c && leb c 0xde && not (eqb c 0xd7)
    then char_at "àáâãäåæçèéêëìíîïðñòóôõö÷øùúûüýþ" ((c - 0xc0) * 2) ∷ []
    else if eqb c 0x212a
    then "k"
    else if eqb c 0x130
    then "i̇"
    else ch ∷ []

-- `s.lower()`
unfoldable pub lower : String → String
unfolding lower_char
lower [] = []
lower (c ∷ s) = lower_char c <> lower s

-- `s.split()`: the parts between runs of white space, none of them empty.
split_words_from : String → String → List String
unfolding is_space
split_words_from cur [] = if cur == "" then [] else cur ∷ []
split_words_from cur (c ∷ s) =
    let rest = split_words_from (if is_space c then "" else cur <> (c ∷ [])) s in
    if is_space c && not (cur == "") then cur ∷ rest else rest

unfoldable pub split_words : String → List String
unfolding split_words_from
split_words s = split_words_from "" s

-- A star for every character but the last one.
unfoldable pub mask_but_last : String → String
mask_but_last [] = []
mask_but_last (c ∷ []) = c ∷ []
mask_but_last (c ∷ d ∷ s) = "*" <> mask_but_last (d ∷ s)

-- The first and the last character of a text of three or more, and stars for the others.
unfoldable pub mask_text : String → String
unfolding mask_but_last
mask_text [] = []
mask_text (a ∷ []) = "*"
mask_text (a ∷ b ∷ []) = "**"
mask_text (a ∷ b ∷ c ∷ s) = a ∷ mask_but_last (b ∷ c ∷ s)
