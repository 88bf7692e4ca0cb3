-- ===== src/Prelude/Text/Lines.antt =====
-- The lines of a text that was joined from lines.
use Prim.Native.String.{String, [], ◌∷◌, ◌++◌ as ◌<>◌}
use mathlib.Core.Path.{◌≡◌, refl, sym, ap, ◌∙◌}
use mathlib.Core.Bool.{false}
use mathlib.Core.List.{List}
use native.Mathlib.Omega.{arith}
use Prim.Native.Char.{Char, code}
use text.Mathlib.TextLemmas.{cons-append, nil-append, append-nil, append_assoc}
use synthia_mqtt.Prelude.Tests.{eqb}
use synthia_mqtt.Prelude.Text.{is_line_end, lines_after, split_lines, join}

-- A text without line ends.
abbrev pub IsLine : String → Type 0
IsLine [] = Unit
IsLine (c ∷ s) = (is_line_end c ≡ false) × IsLine s

no_return : (c : Char) → is_line_end c ≡ false → eqb (code c) 13 ≡ false
unfolding is_line_end
no_return c h = ground arith

lines_after-line :
    (line s : String)
    → IsLine line
    → lines_after false (line <> ("\n" <> s)) ≡ List.◌∷◌ line (lines_after false s)
unfolding lines_after is_line_end
lines_after-line [] s h = rw (nil-append ("\n" <> s), cons-append "\n" [] s, nil-append s) refl
lines_after-line (c ∷ line) s h =
    rw (cons-append c line ("\n" <> s), h.0, no_return c h.0, lines_after-line line s h.1) refl

-- The text of a file with these lines.
abbrev pub file_text : List String → String
file_text List.[] = ""
file_text (List.◌∷◌ line rest) = line <> ("\n" <> file_text rest)

abbrev pub AllLines : List String → Type 0
AllLines List.[] = Unit
AllLines (List.◌∷◌ line rest) = IsLine line × AllLines rest

pub split_lines-file_text :
    (lines : List String) → AllLines lines → split_lines (file_text lines) ≡ lines
unfolding split_lines lines_after
split_lines-file_text List.[] h = refl
split_lines-file_text (List.◌∷◌ line rest) h =
    lines_after-line line (file_text rest) h.0 ∙ ap (List.◌∷◌ line) (split_lines-file_text rest h.1)

pub join-file_text :
    (line : String) (rest : List String)
    → join "\n" (List.◌∷◌ line rest) <> "\n" ≡ file_text (List.◌∷◌ line rest)
unfolding join
join-file_text line List.[] = ap (λ s. line <> s) (sym (append-nil "\n"))
join-file_text line (List.◌∷◌ next rest) =
    append_assoc line ("\n" <> join "\n" (List.◌∷◌ next rest)) "\n"
    ∙ ap (λ s. line <> s)
        (append_assoc "\n" (join "\n" (List.◌∷◌ next rest)) "\n"
          ∙ ap (λ s. "\n" <> s) (join-file_text next rest))
