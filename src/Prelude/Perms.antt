-- ===== src/Prelude/Perms.antt =====
-- Properties of all elements, and distinctness, do not depend on the order of a list.
use mathlib.Core.List.{List, [], ◌∷◌, Perm, Permᴰ}
use mathlib.Core.Logic.{◌≢◌, ∥∥₁_elim}
use mathlib.Core.HLevel.{×_prop, Π_prop, ⊥_prop}
use mathlib.Core.Path.{◌≡◌, refl, sym, subst, ◌∙◌}
use Prim.Native.Nat.{suc}
use mathlib.Core.Path.{ap}
use native.Mathlib.Nat.{ℕ_set}
use herbert_rs.Prelude.Lists.{All, length}

module _ {A : Type 0} where
  pub All-prop : (P : A → Type 0) → ((x : A) → IsProp (P x)) → (xs : List A) → IsProp (All P xs)
  All-prop P h [] = hlevel
  All-prop P h (x ∷ xs) = ×_prop (h x) (All-prop P h xs)

  All-Permᴰ : (P : A → Type 0) {xs ys : List A} → Permᴰ xs ys → All P xs → All P ys
  All-Permᴰ P Permᴰ.nil h = tt
  All-Permᴰ P (Permᴰ.cons e p) h = (subst P e h.0, All-Permᴰ P p h.1)
  All-Permᴰ P (Permᴰ.swap e e') h = (subst P e' h.1.0, (subst P e h.0, h.1.1))
  All-Permᴰ P (Permᴰ.trans p q) h = All-Permᴰ P q (All-Permᴰ P p h)

  pub All-Perm :
      (P : A → Type 0) {xs ys : List A}
      → ((x : A) → IsProp (P x))
      → Perm xs ys
      → All P xs
      → All P ys
  All-Perm P {ys} h p all = ∥∥₁_elim p (All-prop P h ys) (λ d. All-Permᴰ P d all)

  -- No element twice.
  abbrev pub Distinct : List A → Type 0
  Distinct [] = Unit
  Distinct (x ∷ xs) = All (λ y. y ≢ x) xs × Distinct xs

  Distinct-prop : (xs : List A) → IsProp (Distinct xs)
  Distinct-prop [] = hlevel
  Distinct-prop (x ∷ xs) =
      ×_prop (All-prop (λ y. y ≢ x) (λ y. Π_prop (λ e. ⊥_prop)) xs) (Distinct-prop xs)

  Distinct-Permᴰ : {xs ys : List A} → Permᴰ xs ys → Distinct xs → Distinct ys
  Distinct-Permᴰ Permᴰ.nil h = tt
  Distinct-Permᴰ (Permᴰ.cons {l₂ = ys} e p) h =
      (subst (λ b. All (λ y. y ≢ b) ys) e (All-Permᴰ (λ y. y ≢ _) p h.0), Distinct-Permᴰ p h.1)
  Distinct-Permᴰ (Permᴰ.swap {l = l} e e') h = (
    ((λ q. h.0.0 (e' ∙ sym q ∙ sym e)), subst (λ b. All (λ y. y ≢ b) l) e' h.1.0),
    (subst (λ b. All (λ y. y ≢ b) l) e h.0.1, h.1.1),
  )
  Distinct-Permᴰ (Permᴰ.trans p q) h = Distinct-Permᴰ q (Distinct-Permᴰ p h)

  pub Distinct-Perm : {xs ys : List A} → Perm xs ys → Distinct xs → Distinct ys
  Distinct-Perm {ys} p all = ∥∥₁_elim p (Distinct-prop ys) (λ d. Distinct-Permᴰ d all)

  length-Permᴰ : {xs ys : List A} → Permᴰ xs ys → length xs ≡ length ys
  length-Permᴰ Permᴰ.nil = refl
  length-Permᴰ (Permᴰ.cons e p) = ap suc (length-Permᴰ p)
  length-Permᴰ (Permᴰ.swap e e') = refl
  length-Permᴰ (Permᴰ.trans p q) = length-Permᴰ p ∙ length-Permᴰ q

  pub length-Perm : {xs ys : List A} → Perm xs ys → length xs ≡ length ys
  length-Perm {xs} {ys} p = ∥∥₁_elim p (ℕ_set (length xs) (length ys)) (λ d. length-Permᴰ d)
