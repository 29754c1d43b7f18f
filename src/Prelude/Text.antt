-- ===== src/Prelude/Text.antt =====
-- Texts as the list of the bytes of their UTF-8 encoding, with the searches of the standard library.
use Prim.Native.Nat.{ℕ, suc, ◌/◌, ◌^◌}
use mathlib.Core.Bool.{Bool, true, false, ◌&&◌}
use mathlib.Core.List.{List, [], ◌∷◌}
use mathlib.Core.Option.{Option, none, some}
use herbert_rs.Prelude.Lists.{drop}
use herbert_rs.Prelude.Tests.{◌==◌, if◌then◌else◌}

abbrev pub Text : Type 0
Text = List ℕ

unfoldable pub starts_with : Text → Text → Bool
starts_with [] text = true
starts_with (p ∷ pat) [] = false
starts_with (p ∷ pat) (c ∷ text) = p == c && starts_with pat text

-- `text.find(pat)`, the offset counted from `i`
unfoldable pub find_from : ℕ → Text → Text → Option ℕ
find_from i pat [] = if starts_with pat [] then some i else none
find_from i pat (c ∷ text) =
    let later = find_from (suc i) pat text in if starts_with pat (c ∷ text) then some i else later

unfoldable pub find : Text → Text → Option ℕ
find pat text = find_from 0 pat text

unfoldable pub contains : Text → Text → Bool
contains pat [] = starts_with pat []
contains pat (c ∷ text) =
    let later = contains pat text in if starts_with pat (c ∷ text) then true else later

-- A byte `10xxxxxx` continues a character.
abbrev pub continues : Text → Bool
continues [] = false
continues (c ∷ text) = c / 2 ^ 6 == 2

-- `&text[i..]` panics if `i` is not at the start of a character, for an `i` within the text.
unfoldable pub str_from : Text → ℕ → Option Text
str_from text i = if continues (drop i text) then none else some (drop i text)
