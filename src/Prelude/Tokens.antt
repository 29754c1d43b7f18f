-- ===== src/Prelude/Tokens.antt =====
-- Sequences of token ids: equality and emptiness as the code tests them.
use Prim.Native.Nat.{ℕ}
use mathlib.Core.Path.{◌≡◌, refl}
use mathlib.Core.Bool.{Bool, true, false, ◌&&◌}
use mathlib.Core.List.{List, [], ◌∷◌}
use native.Mathlib.Omega.{arith}
use herbert_rs.Prelude.Tests.{◌==◌, ==_refl}

abbrev pub is_empty {ℓ} : {A : Type ℓ} → List A → Bool
is_empty [] = true
is_empty (x ∷ xs) = false

unfoldable pub tokens_eq : List ℕ → List ℕ → Bool
tokens_eq [] [] = true
tokens_eq (x ∷ xs) (y ∷ ys) = x == y && tokens_eq xs ys
tokens_eq [] (y ∷ ys) = false
tokens_eq (x ∷ xs) [] = false

pub tokens_eq_sound : (xs ys : List ℕ) → tokens_eq xs ys ≡ true → xs ≡ ys
unfolding tokens_eq
tokens_eq_sound [] [] h = refl
tokens_eq_sound (x ∷ xs) (y ∷ ys) h = ground (arith, tokens_eq_sound xs ys)
tokens_eq_sound [] (y ∷ ys) h = cc
tokens_eq_sound (x ∷ xs) [] h = cc

pub tokens_eq_refl : (xs : List ℕ) → tokens_eq xs xs ≡ true
unfolding tokens_eq
tokens_eq_refl [] = refl
tokens_eq_refl (x ∷ xs) = rw (==_refl x, tokens_eq_refl xs)
