-- ===== src/Kv/Store/Growth.antt =====
-- How the vectors of a KV layer grow: each by whole positions at its end, one head after the other.
use herbert_rs.Prelude.{
  ℕ, zero, suc, ◌+◌, ◌*◌, ◌≤◌, ◌<◌, ◌≡◌, ◌≢◌, refl, ap, ap₂, ◌∙◌, sym, some, List, [], ◌∷◌, ◌++◌,
  length, take, All, ltb, if◌then◌else◌, arith, extend_at, length-append, take-length,
}
use herbert_rs.Kv.{truncate_all}

module _ {A : Type 0} where
  -- `y` is `x` with `n` elements more at its end.
  abbrev pub Extends : ℕ → List A → List A → Type 0
  Extends n x y = (take (length x) y ≡ x) × (length y ≡ length x + n)

  -- `ys` are the vectors `xs`, the one at `i` with `g i` elements more at its end.
  abbrev pub GrownBy : (ℕ → ℕ) → List (List A) → List (List A) → Type 0
  GrownBy g [] [] = Unit
  GrownBy g (x ∷ xs) (y ∷ ys) = Extends (g 0) x y × GrownBy (λ i. g (suc i)) xs ys
  GrownBy g [] (y ∷ ys) = ⊥
  GrownBy g (x ∷ xs) [] = ⊥

  pub GrownBy-refl : (xs : List (List A)) → GrownBy (λ i. 0) xs xs
  GrownBy-refl [] = tt
  GrownBy-refl (x ∷ xs) = ((take-length x, omega arith), GrownBy-refl xs)

  pub GrownBy-ext :
      (g g' : ℕ → ℕ) (xs ys : List (List A))
      → ((i : ℕ) → i < length xs → g i ≡ g' i)
      → GrownBy g xs ys
      → GrownBy g' xs ys
  GrownBy-ext g g' [] [] e h = tt
  GrownBy-ext g g' (x ∷ xs) (y ∷ ys) e h = (
    (h.0.0, omega (arith, h.0.1, e 0 (omega arith))),
    GrownBy-ext (λ i. g (suc i)) (λ i. g' (suc i)) xs ys (λ i lt. e (suc i) (omega arith)) h.1,
  )
  GrownBy-ext g g' [] (y ∷ ys) e h = absurd h
  GrownBy-ext g g' (x ∷ xs) [] e h = absurd h

  pub GrownBy-length : (g : ℕ → ℕ) (xs ys : List (List A)) → GrownBy g xs ys → length ys ≡ length xs
  GrownBy-length g [] [] h = refl
  GrownBy-length g (x ∷ xs) (y ∷ ys) h = ap suc (GrownBy-length (λ i. g (suc i)) xs ys h.1)
  GrownBy-length g [] (y ∷ ys) h = absurd h
  GrownBy-length g (x ∷ xs) [] h = absurd h

  take-append-le : (n : ℕ) (y e : List A) → n ≤ length y → take n (y ++ e) ≡ take n y
  take-append-le zero y e h = refl
  take-append-le (suc n) [] e h = elim h [ ]
  take-append-le (suc n) (x ∷ y) e h = ap (◌∷◌ x) (take-append-le n y e (omega arith))

  Extends-append : (n : ℕ) (x y e : List A) → Extends n x y → Extends (n + length e) x (y ++ e)
  Extends-append n x y e h = (
    take-append-le (length x) y e (omega (arith, h.1)) ∙ h.0,
    omega (arith, length-append y e, h.1),
  )

  -- `extend_at` adds to the growth of one vector, and does not panic while there is such a vector.
  pub extend_at-GrownBy :
      (g g' : ℕ → ℕ) (xs ys : List (List A)) (h : ℕ) (e : List A)
      → h < length xs
      → g' h ≡ g h + length e
      → ((i : ℕ) → i ≢ h → g' i ≡ g i)
      → GrownBy g xs ys
      → (zs : List (List A)) × (extend_at ys h e ≡ some zs) × GrownBy g' xs zs
  unfolding extend_at
  extend_at-GrownBy g g' [] ys h e lt here other gr = elim lt [ ]
  extend_at-GrownBy g g' (x ∷ xs) [] h e lt here other gr = absurd gr
  extend_at-GrownBy g g' (x ∷ xs) (y ∷ ys) zero e lt here other gr = (
    (y ++ e) ∷ ys,
    refl,
    (
      rw here (Extends-append (g 0) x y e gr.0),
      GrownBy-ext (λ i. g (suc i)) (λ i. g' (suc i)) xs ys
          (λ i lt'. sym (other (suc i) (omega arith))) gr.1,
    ),
  )
  extend_at-GrownBy g g' (x ∷ xs) (y ∷ ys) (suc h) e lt here other gr =
      let (zs, run, gr') =
        extend_at-GrownBy (λ i. g (suc i)) (λ i. g' (suc i)) xs ys h e (omega arith) here
          (λ i ne. other (suc i) (omega arith)) gr.1 in
      (y ∷ zs, rw run refl, (rw (other 0 (omega arith)) gr.0, gr'))

  -- Every vector holds `m` elements.
  abbrev pub AllLength : ℕ → List (List A) → Type 0
  AllLength m = All (λ v. length v ≡ m)

  -- Truncation to the old length takes the growth back.
  pub truncate_all-GrownBy :
      (g : ℕ → ℕ) (m : ℕ) (xs ys : List (List A))
      → AllLength m xs
      → GrownBy g xs ys
      → truncate_all m ys ≡ xs
  truncate_all-GrownBy g m [] [] all gr = refl
  truncate_all-GrownBy g m (x ∷ xs) (y ∷ ys) all gr =
      ap₂ ◌∷◌ (rw (← all.0) gr.0.0) (truncate_all-GrownBy (λ i. g (suc i)) m xs ys all.1 gr.1)
  truncate_all-GrownBy g m [] (y ∷ ys) all gr = absurd gr
  truncate_all-GrownBy g m (x ∷ xs) [] all gr = absurd gr

  pub AllLength-GrownBy :
      (n m : ℕ) (xs ys : List (List A))
      → AllLength m xs
      → GrownBy (λ i. n) xs ys
      → AllLength (m + n) ys
  AllLength-GrownBy n m [] [] all gr = tt
  AllLength-GrownBy n m (x ∷ xs) (y ∷ ys) all gr =
      (omega (arith, all.0, gr.0.1), AllLength-GrownBy n m xs ys all.1 gr.1)
  AllLength-GrownBy n m [] (y ∷ ys) all gr = absurd gr
  AllLength-GrownBy n m (x ∷ xs) [] all gr = absurd gr

-- What head `i` has grown by when `pos` positions are written, and the heads below `h` of one more.
abbrev pub grown : ℕ → ℕ → ℕ → ℕ → ℕ
grown stride pos h i = if ltb i h then pos * stride + stride else pos * stride

pub grown_here : (stride pos h : ℕ) → grown stride pos (suc h) h ≡ grown stride pos h h + stride
grown_here stride pos h = ground arith

pub grown_other : (stride pos h i : ℕ) → i ≢ h → grown stride pos (suc h) i ≡ grown stride pos h i
grown_other stride pos h i ne = ground arith

-- A whole row of heads is a position.
pub grown_row : (stride pos h i : ℕ) → i < h → grown stride pos h i ≡ grown stride (suc pos) 0 i
grown_row stride pos h i lt = ground (arith, the_product)
  where
    the_product : suc pos * stride ≡ pos * stride + stride
    the_product = omega arith

pub grown_none : (stride i : ℕ) → grown stride 0 0 i ≡ 0
grown_none stride i = ground arith
