-- ===== src/SharedCache/SwapRemove.antt =====
-- `Vec::swap_remove` as `evict_lru` uses it: what it takes out and what it leaves.
use mathlib.Core.List.{Perm, perm_append_singleton}
use mathlib.Core.List.Perm
use mathlib.Core.Option.{some-injective}
use herbert_rs.Prelude.{
  ℕ, zero, suc, ◌-◌, ◌≡◌, refl, ap, ◌∙◌, sym, subst, Option, some, List, [], ◌∷◌, ◌++◌, length,
  take, set, get_elem?, All, arith, ◌>>=◌, length-append,
}
use herbert_rs.SharedCache.{swap_remove}

module _ {ℓ} {A : Type ℓ} where
  -- `rest` is `xs` without one `x`, the last element having taken its place.
  pub data Removes (x : A) : List A → List A → Type ℓ where
    single : Removes x (x ∷ []) []
    head : (ys mid : List A) (last : A) → ys ≡ mid ++ (last ∷ []) → Removes x (x ∷ ys) (last ∷ mid)
    skip : (y : A) (xs rest : List A) → Removes x xs rest → Removes x (y ∷ xs) (y ∷ rest)

  last_of :
      (z : A) (zs : List A)
      → (mid : List A) × (last : A) × ((z ∷ zs) ≡ mid ++ (last ∷ []))
        × (get_elem? (z ∷ zs) (length zs) ≡ some last)
        × (take (length zs) (z ∷ zs) ≡ mid)
  last_of z [] = ([], z, refl, refl, refl)
  last_of z (y ∷ ys) =
      let (mid, last, split, at, front) = last_of y ys in
      (z ∷ mid, last, ap (◌∷◌ z) split, at, ap (◌∷◌ z) front)

  -- `swap_remove` on a list of length `suc n`.
  abbrev swap_out : ℕ → List A → ℕ → Option (A × List A)
  swap_out n xs i =
      get_elem? xs n >>= λ last. get_elem? xs i >>= λ x. some (x, take n (set xs i last))

  swap_out-Removes :
      (n : ℕ) (xs : List A) (i : ℕ) (x : A)
      → length xs ≡ suc n
      → get_elem? xs i ≡ some x
      → (last : A) × (get_elem? xs n ≡ some last) × Removes x xs (take n (set xs i last))
  swap_out-Removes n [] i x e h = cc
  swap_out-Removes zero (y ∷ []) zero x e h =
      (y, refl, subst (λ w. Removes w (y ∷ []) []) (some-injective y x h) Removes.single)
  swap_out-Removes zero (y ∷ []) (suc i) x e h = cc
  swap_out-Removes zero (y ∷ z ∷ zs) i x e h = absurd (omega arith)
  swap_out-Removes (suc n) (y ∷ []) i x e h = absurd (omega arith)
  swap_out-Removes (suc n) (y ∷ z ∷ zs) zero x e h =
      let (mid, last, split, at, front) = last_of z zs in
      let m : length zs ≡ n = omega arith in
      (
        last,
        subst (λ k. get_elem? (z ∷ zs) k ≡ some last) m at,
        subst (λ w. Removes w (y ∷ z ∷ zs) (last ∷ take n (z ∷ zs))) (some-injective y x h)
            (subst (λ t. Removes y (y ∷ z ∷ zs) (last ∷ t))
              (sym front ∙ ap (λ k. take k (z ∷ zs)) m) (Removes.head (z ∷ zs) mid last split)),
      )
  swap_out-Removes (suc n) (y ∷ z ∷ zs) (suc i) x e h =
      let (last, at, r) = swap_out-Removes n (z ∷ zs) i x (omega arith) h in
      (last, at, Removes.skip y (z ∷ zs) _ r)

  pub swap_remove-Removes :
      (xs : List A) (i : ℕ) (x : A)
      → get_elem? xs i ≡ some x
      → (rest : List A) × (swap_remove xs i ≡ some (x, rest)) × Removes x xs rest
  unfolding swap_remove
  swap_remove-Removes [] i x h = cc
  swap_remove-Removes (y ∷ ys) i x h =
      let n = length (y ∷ ys) - 1 in
      let (last, at, r) = swap_out-Removes n (y ∷ ys) i x (omega arith) h in
      (take n (set (y ∷ ys) i last), rw (at, h), r)

  pub Removes-perm : {x : A} {xs rest : List A} → Removes x xs rest → Perm (x ∷ rest) xs
  Removes-perm single = Perm.refl _
  Removes-perm (head ys mid last split) =
      rw split (Perm.cons _ (Perm.symm (perm_append_singleton last mid)))
  Removes-perm (skip y xs rest r) = Perm.trans (Perm.swap y _ rest) (Perm.cons y (Removes-perm r))

  pub Removes-All {κ} :
      (P : A → Type κ) {x : A} {xs rest : List A} → Removes x xs rest → All P xs → P x × All P rest
  Removes-All P single h = (h.0, tt)
  Removes-All P (head ys mid last split) h = (h.0, All_rotate mid last (rw split at h.1))
    where
      All_rotate : (zs : List A) (z : A) → All P (zs ++ (z ∷ [])) → P z × All P zs
      All_rotate [] z k = k
      All_rotate (w ∷ zs) z k = let (a, b) = All_rotate zs z k.1 in (a, (k.0, b))
  Removes-All P (skip y xs rest r) h = let (a, b) = Removes-All P r h.1 in (a, (h.0, b))

  pub Removes-length :
      {x : A} {xs rest : List A} → Removes x xs rest → length xs ≡ suc (length rest)
  Removes-length single = refl
  Removes-length (head ys mid last split) =
      omega (arith, ap length split, length-append mid (last ∷ []))
  Removes-length (skip y xs rest r) = ap suc (Removes-length r)
