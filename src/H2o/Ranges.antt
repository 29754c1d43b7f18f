-- ===== src/H2o/Ranges.antt =====
-- Ranges of positions and the sort by position of `select_kept` in crates/backends/backend_common/src/h2o.rs.
use herbert_rs.Prelude.{
  ℕ, zero, suc, ◌+◌, ◌^◌, ◌≤◌, ◌<◌, ◌≡◌, ◌≢◌, refl, ap, ◌∙◌, some, List, [], ◌∷◌, ◌++◌, map, length,
  take, All, arith, get_elem?-lt, leb, Bool-cases, inl, inr, leb→le, leb-false,
}
use herbert_rs.Prelude.Perms.{Distinct}
use herbert_rs.Kv.Store.{tabulate}
use herbert_rs.H2o.{as_u32, score_range, insert_by_position, sort_by_position}
use herbert_rs.H2o.Rows.{Ascends, Ascends-le}

-- Ranges of positions.
pub range_Ascends :
    (n start : ℕ) → start + n < 2 ^ 32 → Ascends start (tabulate n start as_u32) (start + n)
unfolding tabulate
range_Ascends zero start h = tt
range_Ascends (suc n) start h = (
  omega arith,
  omega arith,
  rw (small start (omega arith), sum) (range_Ascends n (suc start) (omega arith)),
)
  where
    small : (i : ℕ) → i < 2 ^ 32 → as_u32 i ≡ i
    small i lt = omega arith

    sum : start + suc n ≡ suc start + n
    sum = omega arith

pub length-range : (n start : ℕ) → length (tabulate n start as_u32) ≡ n
unfolding tabulate
length-range zero start = refl
length-range (suc n) start = ap suc (length-range n (suc start))

pub Ascends-append :
    (lo mid hi : ℕ) (xs ys : List ℕ)
    → mid ≤ hi
    → lo ≤ mid
    → Ascends lo xs mid
    → Ascends mid ys hi
    → Ascends lo (xs ++ ys) hi
Ascends-append lo mid hi [] ys le le' h k = Ascends-le mid lo hi ys le' k
Ascends-append lo mid hi (x ∷ xs) ys le le' h k =
    (h.0, omega (arith, h.1), Ascends-append (suc x) mid hi xs ys le (h.1) h.2 k)

-- Positions between two bounds.
abbrev pub Between : ℕ → ℕ → ℕ → Type 0
Between lo hi p = (lo ≤ p) × (p < hi)

pub Ascends-Between : (lo hi : ℕ) (xs : List ℕ) → Ascends lo xs hi → All (Between lo hi) xs
Ascends-Between lo hi [] h = tt
Ascends-Between lo hi (x ∷ xs) h = ((h.0, h.1), wider xs (Ascends-Between (suc x) hi xs h.2))
  where
    wider : (ys : List ℕ) → All (Between (suc x) hi) ys → All (Between lo hi) ys
    wider [] k = tt
    wider (y ∷ ys) k = ((omega (arith, k.0.0, h.0), k.0.1), wider ys k.1)

pub Ascends-Distinct : (lo hi : ℕ) (xs : List ℕ) → Ascends lo xs hi → Distinct xs
Ascends-Distinct lo hi [] h = tt
Ascends-Distinct lo hi (x ∷ xs) h =
    (apart xs (Ascends-Between (suc x) hi xs h.2), Ascends-Distinct (suc x) hi xs h.2)
  where
    apart : (ys : List ℕ) → All (Between (suc x) hi) ys → All (λ y. y ≢ x) ys
    apart [] k = tt
    apart (y ∷ ys) k = (omega (arith, k.0.0), apart ys k.1)

module _ {F : Type 0} where
  abbrev pub positions : List (ℕ × F) → List ℕ
  positions = map (λ (e : ℕ × F). e.0)

  -- The scores of a range are read without a panic.
  pub score_range_lem :
      (scores : List F) (start n : ℕ)
      → start + n ≤ length scores
      → (sc : List (ℕ × F)) × (score_range scores start n ≡ some sc)
        × (positions sc ≡ tabulate n start as_u32)
  unfolding score_range tabulate
  score_range_lem scores start zero h = ([], refl, refl)
  score_range_lem scores start (suc n) h =
      let (x, at) = get_elem?-lt scores start (omega arith) in
      let (rest, run, same) = score_range_lem scores (suc start) n (omega arith) in
      ((as_u32 start, x) ∷ rest, rw (at, run) refl, ap (◌∷◌ (as_u32 start)) same)

  insert-Ascends :
      (lo hi : ℕ) (x : ℕ × F) (ys : List (ℕ × F))
      → Between lo hi x.0
      → All (λ y. y ≢ x.0) (positions ys)
      → Ascends lo (positions ys) hi
      → Ascends lo (positions (insert_by_position x ys)) hi
  unfolding insert_by_position
  insert-Ascends lo hi x [] b apart h = (b.0, b.1, tt)
  insert-Ascends lo hi x (y ∷ ys) b apart h = elim (Bool-cases (leb x.0 y.0)) [
    | inl first ↦ rw first (b.0, b.1, (omega (arith, leb→le x.0 y.0 first, apart.0), h.1, h.2))
    | inr later ↦
        rw later
          (h.0, h.1, insert-Ascends (suc y.0) hi x ys (leb-false x.0 y.0 later, b.1) apart.1 h.2)
  ]

  All-insert :
      (P : ℕ → Type 0) (x : ℕ × F) (ys : List (ℕ × F))
      → P x.0
      → All P (positions ys)
      → All P (positions (insert_by_position x ys))
  unfolding insert_by_position
  All-insert P x [] p h = (p, tt)
  All-insert P x (y ∷ ys) p h = elim (Bool-cases (leb x.0 y.0)) [
    | inl first ↦ rw first (p, h)
    | inr later ↦ rw later (h.0, All-insert P x ys p h.1)
  ]

  All-sort :
      (P : ℕ → Type 0) (xs : List (ℕ × F))
      → All P (positions xs)
      → All P (positions (sort_by_position xs))
  unfolding sort_by_position
  All-sort P [] h = tt
  All-sort P (x ∷ xs) h = All-insert P x (sort_by_position xs) h.0 (All-sort P xs h.1)

  -- Sorting distinct positions between two bounds makes them ascend.
  pub sort-Ascends :
      (lo hi : ℕ) (xs : List (ℕ × F))
      → All (Between lo hi) (positions xs)
      → Distinct (positions xs)
      → Ascends lo (positions (sort_by_position xs)) hi
  unfolding sort_by_position
  sort-Ascends lo hi [] b d = tt
  sort-Ascends lo hi (x ∷ xs) b d =
      insert-Ascends lo hi x (sort_by_position xs) b.0 (All-sort (λ y. y ≢ x.0) xs d.0)
        (sort-Ascends lo hi xs b.1 d.1)

  length-insert :
      (x : ℕ × F) (ys : List (ℕ × F)) → length (insert_by_position x ys) ≡ suc (length ys)
  unfolding insert_by_position
  length-insert x [] = refl
  length-insert x (y ∷ ys) = ground (arith, length-insert x ys)

  pub length-sort : (xs : List (ℕ × F)) → length (sort_by_position xs) ≡ length xs
  unfolding sort_by_position
  length-sort [] = refl
  length-sort (x ∷ xs) = length-insert x (sort_by_position xs) ∙ ap suc (length-sort xs)

  pub All-take :
      (P : ℕ → Type 0) (n : ℕ) (xs : List (ℕ × F))
      → All P (positions xs)
      → All P (positions (take n xs))
  All-take P zero xs h = tt
  All-take P (suc n) [] h = tt
  All-take P (suc n) (x ∷ xs) h = (h.0, All-take P n xs h.1)

  pub Distinct-take :
      (n : ℕ) (xs : List (ℕ × F)) → Distinct (positions xs) → Distinct (positions (take n xs))
  Distinct-take zero xs h = tt
  Distinct-take (suc n) [] h = tt
  Distinct-take (suc n) (x ∷ xs) h = (All-take (λ y. y ≢ x.0) n xs h.0, Distinct-take n xs h.1)
