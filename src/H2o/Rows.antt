-- ===== src/H2o/Rows.antt =====
-- The in-place loops of `compact` (crates/backends/backend_common/src/h2o.rs) on one vector.
use herbert_rs.Prelude.{
  ℕ, zero, suc, ◌+◌, ◌-◌, ◌*◌, ◌≤◌, ◌<◌, ◌≡◌, refl, ap, ap₂, ◌∙◌, sym, subst, some, List, [], ◌∷◌,
  ◌++◌, length, take, drop, set, get_elem?, arith, ◌>>=◌, ◌==◌, ==_iff, Bool-cases, inl, inr,
  copy_within, copy_within_lem, write_at, write_at_lem, take-append, drop-append, take-append-add,
  drop-append-add, take-add, drop-add, length-take, length-drop, length-append, append-nil,
  append_assoc, get_elem?-lt,
}
use herbert_rs.H2o.{move_rows, compact_rows, move_scales, compact_scales}

-- The rows at the kept positions, one after the other.
abbrev pub gather : {A : Type 0} → ℕ → List ℕ → List A → List A
gather width [] v = []
gather width (p ∷ kept) v = take width (drop (p * width) v) ++ gather width kept v

-- The positions ascend, from `lo` on and below `hi`.
abbrev pub Ascends : ℕ → List ℕ → ℕ → Type 0
Ascends lo [] hi = Unit
Ascends lo (p ∷ kept) hi = (lo ≤ p) × (p < hi) × Ascends (suc p) kept hi

pub Ascends-le :
    (lo lo' hi : ℕ) (kept : List ℕ) → lo' ≤ lo → Ascends lo kept hi → Ascends lo' kept hi
Ascends-le lo lo' hi [] le h = tt
Ascends-le lo lo' hi (p ∷ kept) le h = (omega (arith, h.0), h.1, h.2)

-- The row at `p` lies in a vector of `n` rows.
row_fits : (p n width len : ℕ) → p < n → n * width ≤ len → p * width + width ≤ len
row_fits p n width len lt le = omega (arith, above)
  where
    above : suc p * width ≤ n * width
    above = grind arith

module _ {A : Type 0} where
  -- `row` written over the elements of `v` from `d` on.
  overwrite : (v : List A) (d : ℕ) (row : List A) → List A
  overwrite v d row = take d v ++ (row ++ drop (d + length row) v)

  module _ (v : List A) (d : ℕ) (row : List A) (fits : d + length row ≤ length v) where
    front : length (take d v) ≡ d
    front = omega (arith, length-take d v)

    take-overwrite : take (d + length row) (overwrite v d row) ≡ take d v ++ row
    unfolding overwrite
    take-overwrite =
        ap (λ n. take (n + length row) (take d v ++ (row ++ drop (d + length row) v))) (sym front)
        ∙ take-append-add (take d v) (row ++ drop (d + length row) v) (length row)
        ∙ ap (◌++◌ (take d v)) (take-append row (drop (d + length row) v))

    drop-overwrite : drop (d + length row) (overwrite v d row) ≡ drop (d + length row) v
    unfolding overwrite
    drop-overwrite =
        ap (λ n. drop (n + length row) (take d v ++ (row ++ drop (d + length row) v))) (sym front)
        ∙ drop-append-add (take d v) (row ++ drop (d + length row) v) (length row)
        ∙ drop-append row (drop (d + length row) v)

    length-overwrite : length (overwrite v d row) ≡ length v
    unfolding overwrite
    length-overwrite = omega (
      arith,
      front,
      length-append (take d v) (row ++ drop (d + length row) v),
      length-append row (drop (d + length row) v),
      length-drop (d + length row) v,
    )

  -- `w` is `v0` with the rows `done` moved to its front; what stands behind them is as it was.
  pub record Moved (v0 : List A) (d : ℕ) (done w : List A) : Type 0 where
    pub front_done : take d w ≡ done
    pub back_kept : drop d w ≡ drop d v0
    pub same_length : length w ≡ length v0

  -- A row further back is still the old one.
  row_kept : (v0 w done : List A) (d n : ℕ) → Moved v0 d done w → drop (d + n) w ≡ drop (d + n) v0
  row_kept v0 w done d n m = drop-add d n w ∙ ap (drop n) m.back_kept ∙ sym (drop-add d n v0)

  move_front :
      (v0 w done : List A) (d width : ℕ)
      → Moved v0 d done w
      → Moved v0 (d + width) (done ++ take width (drop d v0)) w
  move_front v0 w done d width m = record {
    front_done = take-add d width w ∙ ap₂ ◌++◌ m.front_done (ap (take width) m.back_kept);
    back_kept = row_kept v0 w done d width m;
    same_length = m.same_length;
  }

  move_over :
      (v0 w done row : List A) (d : ℕ)
      → d + length row ≤ length v0
      → Moved v0 d done w
      → Moved v0 (d + length row) (done ++ row) (overwrite w d row)
  move_over v0 w done row d fits m =
      let fits' : d + length row ≤ length w = omega (arith, m.same_length) in
      record {
        front_done = take-overwrite w d row fits' ∙ ap (λ t. t ++ row) m.front_done;
        back_kept = drop-overwrite w d row fits' ∙ row_kept v0 w done d (length row) m;
        same_length = length-overwrite w d row fits' ∙ m.same_length;
      }

  length-row :
      (v : List A) (a width : ℕ) → a + width ≤ length v → length (take width (drop a v)) ≡ width
  length-row v a width h = omega (arith, length-take width (drop a v), length-drop a v)

  copy_row :
      (v : List A) (a width d : ℕ)
      → a + width ≤ length v
      → d + width ≤ length v
      → copy_within v a (a + width) d ≡ some (overwrite v d (take width (drop a v)))
  unfolding overwrite
  copy_row v a width d h k =
      let size : a + width - a ≡ width = omega arith in
      copy_within_lem v a (a + width) d (omega arith) h (omega arith)
      ∙ ap (λ n. some (take d v ++ (take n (drop a v) ++ drop (d + n) v))) size
      ∙ ap (λ n. some (take d v ++ (take width (drop a v) ++ drop (d + n) v)))
          (sym (length-row v a width h))

  -- The loop never panics on ascending positions, and moves their rows of the old vector to the front.
  move_rows-Moved :
      (width n j : ℕ) (kept : List ℕ) (v0 w done : List A)
      → Ascends j kept n
      → n * width ≤ length v0
      → Moved v0 (j * width) done w
      → (u : List A) × (move_rows width j kept w ≡ some u)
        × (take ((j + length kept) * width) u ≡ done ++ gather width kept v0)
  unfolding move_rows
  move_rows-Moved width n j [] v0 w done asc room m =
      (w, refl, ap (λ t. take t w) (omega arith) ∙ m.front_done ∙ sym (append-nil done))
  move_rows-Moved width n j (p ∷ kept) v0 w done asc room m = elim (Bool-cases (p == j)) [
    | inl stays ↦
        let p_is_j = (==_iff p j).0 stays in
        let (u, run, all) =
          move_rows-Moved width n (suc j) kept v0 w (done ++ take width (drop (j * width) v0))
            (Ascends-le (suc p) (suc j) n kept (omega arith) asc.2) room
            (subst (λ t. Moved v0 t (done ++ take width (drop (j * width) v0)) w) (next j)
              (move_front v0 w done (j * width) width m)) in
        (
          u,
          rw stays run,
          count u
              ∙ all
              ∙ ap (λ t. (done ++ take width (drop (t * width) v0)) ++ gather width kept v0)
                  (sym p_is_j)
              ∙ append_assoc done (take width (drop (p * width) v0)) (gather width kept v0),
        )
    | inr moves ↦
        let row = take width (drop (p * width) w) in
        let old : row ≡ take width (drop (p * width) v0) = old_row in
        let size =
          length-row w (p * width) width
            (omega (arith, row_fits p n width (length v0) asc.1 room, m.same_length)) in
        let over =
          move_over v0 w done row (j * width)
            (omega (arith, size, row_fits j n width (length v0) (omega (arith, asc.0, asc.1)) room))
            m in
        let (u, run, all) =
          move_rows-Moved width n (suc j) kept v0 (overwrite w (j * width) row) (done ++ row)
            (Ascends-le (suc p) (suc j) n kept (omega (arith, asc.0)) asc.2) room
            (subst (λ t. Moved v0 t (done ++ row) (overwrite w (j * width) row))
              (ap (λ s. j * width + s) size ∙ next j) over) in
        (
          u,
          rw
              (
                moves,
                copy_row w (p * width) width (j * width)
                    (omega (arith, row_fits p n width (length v0) asc.1 room, m.same_length))
                    (omega (
                      arith,
                      row_fits j n width (length v0) (omega (arith, asc.0, asc.1)) room,
                      m.same_length,
                    )),
              )
              run,
          count u
              ∙ all
              ∙ ap (λ t. (done ++ t) ++ gather width kept v0) old
              ∙ append_assoc done (take width (drop (p * width) v0)) (gather width kept v0),
        )
  ]
    where
      next : (j : ℕ) → j * width + width ≡ suc j * width
      next j = omega arith

      count :
          (u : List A)
          → take ((j + length (p ∷ kept)) * width) u ≡ take ((suc j + length kept) * width) u
      count u = ap (λ t. take (t * width) u) (omega arith)

      old_row : take width (drop (p * width) w) ≡ take width (drop (p * width) v0)
      old_row =
          let d : j * width + (p - j) * width ≡ p * width = split (p - j) (omega (arith, asc.0)) in
          ap (take width) (
            ap (λ t. drop t w) (sym d)
            ∙ row_kept v0 w done (j * width) ((p - j) * width) m
            ∙ ap (λ t. drop t v0) d)
        where
          split : (d : ℕ) → j + d ≡ p → j * width + d * width ≡ p * width
          split d e = rw (← e) (omega arith)

  -- Compacting a vector of `n` rows in place gives the kept rows in order, and nothing else.
  pub compact_rows-gather :
      (width n : ℕ) (kept : List ℕ) (v : List A)
      → Ascends 0 kept n
      → n * width ≤ length v
      → compact_rows width kept v ≡ some (gather width kept v)
  unfolding compact_rows
  compact_rows-gather width n kept v asc room =
      let (u, run, all) = move_rows-Moved width n 0 kept v v [] asc room (start width) in
      rw run (ap some (ap (λ t. take (t * width) u) (omega arith) ∙ all))
    where
      start : (width : ℕ) → Moved v (0 * width) [] v
      start width =
          rw (zero_rows width) (record { front_done = refl; back_kept = refl; same_length = refl })
        where
          zero_rows : (width : ℕ) → 0 * width ≡ 0
          zero_rows width = omega arith

  written :
      (w : List A) (j : ℕ) (x : A)
      → take j w ++ ((x ∷ []) ++ drop (suc j) w) ≡ overwrite w j (x ∷ [])
  unfolding overwrite
  written w j x = ap (λ t. take j w ++ ((x ∷ []) ++ drop t w)) (after j)
    where
      after : (j : ℕ) → suc j ≡ j + 1
      after j = omega arith

  set-split :
      (w : List A) (j : ℕ) (x : A)
      → j < length w
      → set w j x ≡ take j w ++ ((x ∷ []) ++ drop (suc j) w)
  set-split [] j x h = elim h [ ]
  set-split (y ∷ w) zero x h = refl
  set-split (y ∷ w) (suc j) x h = ap (◌∷◌ y) (set-split w j x (omega arith))

  row-one : (w : List A) (p : ℕ) (x : A) → get_elem? w p ≡ some x → take 1 (drop p w) ≡ x ∷ []
  row-one [] p x h = cc
  row-one (y ∷ w) zero x h = ground arith
  row-one (y ∷ w) (suc p) x h = row-one w p x h

  -- A scale is moved as a row of one element is.
  move_scale :
      (w : List A) (p j n : ℕ)
      → p < length w
      → j < length w
      → (get_elem? w p >>= λ x. write_at w j x) ≡ copy_within w (p * 1) (p * 1 + 1) (j * 1)
  move_scale w p j n lt lt' =
      let (x, at) = get_elem?-lt w p lt in
      let one : p * 1 ≡ p = omega arith in
      let one' : j * 1 ≡ j = omega arith in
      rw
        (
          at,
          write_at_lem w j x lt',
          one,
          one',
          copy_row w p 1 j (omega arith) (omega arith),
          row-one w p x at,
        )
        (ap some (set-split w j x lt' ∙ written w j x))

  move_scales-rows :
      (n j : ℕ) (kept : List ℕ) (w : List A)
      → Ascends j kept n
      → n ≤ length w
      → move_scales j kept w ≡ move_rows 1 j kept w
  unfolding move_scales move_rows
  move_scales-rows n j [] w asc room = refl
  move_scales-rows n j (p ∷ kept) w asc room = elim (Bool-cases (p == j)) [
    | inl stays ↦ rw stays (
        move_scales-rows n (suc j) kept w
          (Ascends-le (suc p) (suc j) n kept (omega (arith, asc.0)) asc.2) room)
    | inr moves ↦
        let row = take 1 (drop (p * 1) w) in
        let fit = in_rows p asc.1 in
        let fit' = in_rows j (omega (arith, asc.0, asc.1)) in
        let copied = copy_row w (p * 1) 1 (j * 1) fit fit' in
        let size = length-row w (p * 1) 1 fit in
        rw (moves, move_scale w p j n (omega (arith, asc.1)) (omega (arith, asc.0, asc.1)), copied)
          (move_scales-rows n (suc j) kept (overwrite w (j * 1) row)
            (Ascends-le (suc p) (suc j) n kept (omega (arith, asc.0)) asc.2)
            (omega (arith, length-overwrite w (j * 1) row (omega (arith, size, fit')))))
  ]
    where
      in_rows : (i : ℕ) → i < n → i * 1 + 1 ≤ length w
      in_rows i lt = omega arith

  pub compact_scales-gather :
      (n : ℕ) (kept : List ℕ) (v : List A)
      → Ascends 0 kept n
      → n ≤ length v
      → compact_scales kept v ≡ some (gather 1 kept v)
  unfolding compact_scales compact_rows
  compact_scales-gather n kept v asc room =
      rw (move_scales-rows n 0 kept v asc room)
        (ap (λ t. move_rows 1 0 kept v >>= λ w. some (take t w)) (one_row (length kept)) ∙ rows)
    where
      one_row : (k : ℕ) → k ≡ k * 1
      one_row k = omega arith

      rows :
          (move_rows 1 0 kept v >>= λ w. some (take (length kept * 1) w)) ≡ some (gather 1 kept v)
      rows = compact_rows-gather 1 n kept v asc (omega arith)
