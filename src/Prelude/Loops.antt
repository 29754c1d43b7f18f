-- ===== src/Prelude/Loops.antt =====
-- Results that can panic, counted loops, and one rule for both.
use Prim.Native.Nat.{ℕ, zero, suc, ◌+◌, ◌-◌, ◌≤◌, ◌<◌, ◌/◌}
use mathlib.Core.Path.{◌≡◌, refl, subst}
use mathlib.Core.Bool.{◌&&◌}
use mathlib.Core.List.{List, [], ◌∷◌, ◌++◌, map}
use mathlib.Core.Option.{Option, none, some}
use native.Mathlib.Omega.{arith}
use herbert_rs.Prelude.Tests.{ltb, lt→ltb, leb, le→leb, ◌==◌, if◌then◌else◌}
use herbert_rs.Prelude.Lists.{All, length, take, drop, set, length-take, length-drop}

-- `none` is a panic.
infixl 5 ◌>>=◌
abbrev pub ◌>>=◌ {ℓ κ} : {A : Type ℓ} {B : Type κ} → Option A → (A → Option B) → Option B
none >>= f = none
some a >>= f = f a

-- `a / b` panics at `b == 0`.
unfoldable pub checked_div : ℕ → ℕ → Option ℕ
checked_div a b = if b == 0 then none else some (a / b)

pub checked_div_pos : (a b : ℕ) → 0 < b → checked_div a b ≡ some (a / b)
unfolding checked_div
checked_div_pos a b h = ground arith

module _ {ℓ} {A : Type ℓ} where
  -- `&xs[a..b]`
  unfoldable pub slice : List A → ℕ → ℕ → Option (List A)
  slice xs a b = if leb a b && leb b (length xs) then some (take (b - a) (drop a xs)) else none

  pub slice_lem :
      (xs : List A) (a b : ℕ)
      → a ≤ b
      → b ≤ length xs
      → slice xs a b ≡ some (take (b - a) (drop a xs))
  unfolding slice
  slice_lem xs a b h k = rw (le→leb a b h, le→leb b (length xs) k)

  -- `xs[i] = v`
  unfoldable pub write_at : List A → ℕ → A → Option (List A)
  write_at xs i v = if ltb i (length xs) then some (set xs i v) else none

  -- `xs.copy_within(a..b, d)`
  unfoldable pub copy_within : List A → ℕ → ℕ → ℕ → Option (List A)
  copy_within xs a b d =
      if leb a b && leb b (length xs) && leb (d + (b - a)) (length xs)
      then some (take d xs ++ (take (b - a) (drop a xs) ++ drop (d + (b - a)) xs))
      else none

  pub copy_within_lem :
      (xs : List A) (a b d : ℕ)
      → a ≤ b
      → b ≤ length xs
      → d + (b - a) ≤ length xs
      → copy_within xs a b d
        ≡ some (take d xs ++ (take (b - a) (drop a xs) ++ drop (d + (b - a)) xs))
  unfolding copy_within
  copy_within_lem xs a b d h k l =
      rw (le→leb a b h, le→leb b (length xs) k, le→leb (d + (b - a)) (length xs) l)

  -- `heads[h].extend(xs)`
  unfoldable pub extend_at : List (List A) → ℕ → List A → Option (List (List A))
  extend_at [] h xs = none
  extend_at (v ∷ vs) zero xs = some ((v ++ xs) ∷ vs)
  extend_at (v ∷ vs) (suc h) xs = extend_at vs h xs >>= λ r. some (v ∷ r)

module _ {ℓ} {A : Type ℓ} where
  pub write_at_lem :
      (xs : List A) (i : ℕ) (v : A) → i < length xs → write_at xs i v ≡ some (set xs i v)
  unfolding write_at
  write_at_lem xs i v h = rw (lt→ltb i (length xs) h)

-- `for i in start..start + n`
unfoldable pub for_range {ℓ} : {S : Type ℓ} → ℕ → ℕ → (ℕ → S → Option S) → S → Option S
for_range zero i body s = some s
for_range (suc n) i body s = body i s >>= for_range n (suc i) body

-- A body that keeps an invariant and never panics gives a loop that does the same.
pub for_range_inv {ℓ κ} :
    {S : Type ℓ} (P : ℕ → S → Type κ) (body : ℕ → S → Option S) (n i last : ℕ) (s : S)
    → i + n ≡ last
    → ((j : ℕ) (t : S) → i ≤ j → j < last → P j t → (u : S) × (body j t ≡ some u) × P (suc j) u)
    → P i s
    → (u : S) × (for_range n i body s ≡ some u) × P last u
unfolding for_range
for_range_inv P body zero i last s e keep h = (s, refl, subst (λ k. P k s) (omega arith) h)
for_range_inv P body (suc n) i last s e keep h =
    let (u, run, inv) = keep i s (omega arith) (omega arith) h in
    let (w, rest, done) =
      for_range_inv P body n (suc i) last u (omega arith)
        (λ j t lo hi p. keep j t (omega arith) hi p) inv in
    (w, rw run rest, done)

module _ {ℓ} {A : Type ℓ} where
  -- A slice in range does not panic, and has the length that its bounds say.
  pub slice-some :
      (xs : List A) (a b : ℕ)
      → a ≤ b
      → b ≤ length xs
      → (ys : List A) × (slice xs a b ≡ some ys) × (length ys ≡ b - a)
  slice-some xs a b h k = (
    take (b - a) (drop a xs),
    slice_lem xs a b h k,
    omega (arith, length-take (b - a) (drop a xs), length-drop a xs),
  )

-- `for x in xs { … }` over a vector of which every element is replaced.
unfoldable pub map_all {ℓ κ} : {A : Type ℓ} {B : Type κ} → (A → Option B) → List A → Option (List B)
map_all g [] = some []
map_all g (x ∷ xs) = do y ← g x; ys ← map_all g xs; some (y ∷ ys)

pub map_all_lem {ℓ κ} :
    {A : Type ℓ} {B : Type κ} (g : A → Option B) (h : A → B) (xs : List A)
    → All (λ x. g x ≡ some (h x)) xs
    → map_all g xs ≡ some (map h xs)
unfolding map_all
map_all_lem g h [] all = refl
map_all_lem g h (x ∷ xs) all = rw (all.0, map_all_lem g h xs all.1) refl
