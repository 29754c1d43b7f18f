-- ===== src/Positions/Layout.antt =====
-- The loop of `build_vl_position_ids` (crates/backends/backend_common/src/position_ids.rs) against a layout by images.
use herbert_rs.Prelude.{
  ℕ, zero, suc, ◌+◌, ◌-◌, ◌^◌, ◌≤◌, ◌<◌, ◌≡◌, refl, ap, ap₂, subst, ◌∙◌, true, false, some, List,
  [], ◌∷◌, ◌++◌, length, ltb, ◌==◌, ==_iff, arith, append-nil,
}
use herbert_rs.Kv.Store.{tabulate}
use herbert_rs.H2o.{as_u32}
use herbert_rs.Positions.{
  Position3D, text, ImageInfo, num_tokens, end_idx, push_rows, vl_loop, build_vl_position_ids,
  build_text_position_ids,
}

-- Text between the images is numbered on, as if the images were not there.
abbrev pub laid_out : ℕ → List ImageInfo → ℕ → ℕ → List Position3D
laid_out total [] from text_pos = tabulate (total - from) text_pos text
laid_out total (img ∷ images) from text_pos =
    tabulate (img.start_idx - from) text_pos text
    ++ (push_rows img.grid_h 0 img.grid_w
        ++ laid_out total images (end_idx img) (text_pos + (img.start_idx - from)))

-- The images follow one another within the sequence, and each has a token.
abbrev pub Placed : ℕ → ℕ → List ImageInfo → Type 0
Placed total from [] = from ≤ total
Placed total from (img ∷ images) =
    (from ≤ img.start_idx) × (0 < num_tokens img) × Placed total (end_idx img) images

Placed-le : (total from : ℕ) (images : List ImageInfo) → Placed total from images → from ≤ total
unfolding end_idx
Placed-le total from [] h = h
Placed-le total from (img ∷ images) h = omega (arith, h.0, Placed-le total (end_idx img) images h.2)

-- The rounds of the loop.
round_done :
    (fuel total idx : ℕ) (images : List ImageInfo) (tp : ℕ)
    → ltb idx total ≡ false
    → vl_loop (suc fuel) total idx images tp ≡ some []
unfolding vl_loop
round_done fuel total idx [] tp h = rw h refl
round_done fuel total idx (img ∷ images) tp h = rw h refl

round_image :
    (fuel total idx : ℕ) (img : ImageInfo) (images : List ImageInfo) (tp : ℕ)
    (rest : List Position3D)
    → ltb idx total ≡ true
    → idx ≡ img.start_idx
    → vl_loop fuel total (idx + num_tokens img) images tp ≡ some rest
    → vl_loop (suc fuel) total idx (img ∷ images) tp
      ≡ some (push_rows img.grid_h 0 img.grid_w ++ rest)
unfolding vl_loop
round_image fuel total idx img images tp rest h e run =
    rw (h, (==_iff idx img.start_idx).1 e, run) refl

-- At a text token: no image starts here.
abbrev IsText : ℕ → List ImageInfo → Type 0
IsText idx [] = Unit
IsText idx (img ∷ images) = (idx == img.start_idx) ≡ false

round_text :
    (fuel total idx : ℕ) (images : List ImageInfo) (tp : ℕ) (rest : List Position3D)
    → ltb idx total ≡ true
    → IsText idx images
    → vl_loop fuel total (idx + 1) images (as_u32 (tp + 1)) ≡ some rest
    → vl_loop (suc fuel) total idx images tp ≡ some (text tp ∷ rest)
unfolding vl_loop
round_text fuel total idx [] tp rest h here run = rw (h, run) refl
round_text fuel total idx (img ∷ images) tp rest h here run = rw (h, here, run) refl

-- `gap` text tokens, and then what follows.
text_run :
    (gap fuel total idx : ℕ) (images : List ImageInfo) (tp : ℕ) (rest : List Position3D)
    → idx + gap ≤ total
    → tp + gap < 2 ^ 32
    → ((k : ℕ) → k < gap → IsText (idx + k) images)
    → vl_loop fuel total (idx + gap) images (tp + gap) ≡ some rest
    → vl_loop (gap + fuel) total idx images tp ≡ some (tabulate gap tp text ++ rest)
unfolding tabulate
text_run zero fuel total idx images tp rest room small texts run =
    subst (λ i. vl_loop i total idx images tp ≡ some rest) (from_zero fuel)
      (subst (λ i. vl_loop fuel total i images tp ≡ some rest) (to_zero idx)
        (subst (λ i. vl_loop fuel total (idx + 0) images i ≡ some rest) (to_zero tp) run))
  where
    from_zero : (n : ℕ) → n ≡ 0 + n
    from_zero n = omega arith

    to_zero : (n : ℕ) → n + 0 ≡ n
    to_zero n = omega arith
text_run (suc gap) fuel total idx images tp rest room small texts run =
    subst
      (λ i. vl_loop i total idx images tp ≡ some (text tp ∷ (tabulate gap (suc tp) text ++ rest)))
      (fuel_suc gap fuel)
      (round_text (gap + fuel) total idx images tp (tabulate gap (suc tp) text ++ rest) more
        (subst (λ i. IsText i images) (omega arith) (texts 0 (omega arith)))
        (subst
          (λ i.
            vl_loop (gap + fuel) total (idx + 1) images i
            ≡ some (tabulate gap (suc tp) text ++ rest))
          next
          (text_run gap fuel total (idx + 1) images (suc tp) rest (omega arith) (omega arith)
            (λ k lt. subst (λ i. IsText i images) (omega arith) (texts (suc k) (omega arith)))
            (subst (λ i. vl_loop fuel total i images (suc tp + gap) ≡ some rest) (omega arith)
              (subst (λ i. vl_loop fuel total (idx + suc gap) images i ≡ some rest) (omega arith)
                run)))))
  where
    fuel_suc : (gap fuel : ℕ) → suc (gap + fuel) ≡ suc gap + fuel
    fuel_suc gap fuel = omega arith

    more : ltb idx total ≡ true
    more = ground arith

    next : suc tp ≡ as_u32 (tp + 1)
    next = omega arith

-- The number of rounds that are enough.
abbrev rounds : ℕ → ℕ → List ImageInfo → ℕ
rounds total from images = suc ((total - from) + length images)

loop-laid_out :
    (total : ℕ) (images : List ImageInfo) (from tp extra : ℕ)
    → total < 2 ^ 32
    → tp ≤ from
    → Placed total from images
    → vl_loop (rounds total from images + extra) total from images tp
      ≡ some (laid_out total images from tp)
unfolding end_idx
loop-laid_out total [] from tp extra small le h =
    subst (λ i. vl_loop i total from [] tp ≡ some (tabulate (total - from) tp text))
      (shape total from extra)
      (text_run (total - from) (suc extra) total from [] tp [] (omega arith) (omega arith)
          (λ k lt. tt)
          (round_done extra total (from + (total - from)) [] (tp + (total - from))
            (at_end total from h))
        ∙ ap some (append-nil (tabulate (total - from) tp text)))
  where
    shape : (total from extra : ℕ) → (total - from) + suc extra ≡ suc ((total - from) + 0) + extra
    shape total from extra = omega arith

    at_end : (total from : ℕ) → from ≤ total → ltb (from + (total - from)) total ≡ false
    at_end total from le = ground arith
loop-laid_out total (img ∷ images) from tp extra small le (before, tokens, placed) =
    let gap = img.start_idx - from in
    let whole = Placed-le total (end_idx img) images placed in
    subst
      (λ i. vl_loop i total from (img ∷ images) tp ≡ some (laid_out total (img ∷ images) from tp))
      (shape whole)
      (text_run gap (suc (rounds total (end_idx img) images + (num_tokens img + extra))) total from
        (img ∷ images) tp
        (push_rows img.grid_h 0 img.grid_w ++ laid_out total images (end_idx img) (tp + gap))
        (omega (arith, ends, whole)) (omega (arith, ends, whole)) (λ k lt. not_yet k lt)
        (round_image (rounds total (end_idx img) images + (num_tokens img + extra)) total
          (from + gap) img images (tp + gap) (laid_out total images (end_idx img) (tp + gap))
          (here whole) (omega arith)
          (subst
            (λ i.
              vl_loop (rounds total (end_idx img) images + (num_tokens img + extra)) total i images
                (tp + gap)
              ≡ some (laid_out total images (end_idx img) (tp + gap)))
            (omega (arith, ends))
            (loop-laid_out total images (end_idx img) (tp + gap) (num_tokens img + extra) small
              (omega (arith, ends)) placed))))
  where
    ends : end_idx img ≡ img.start_idx + num_tokens img
    ends = refl

    not_yet : (k : ℕ) → k < img.start_idx - from → (from + k == img.start_idx) ≡ false
    not_yet k lt = ground arith

    here : end_idx img ≤ total → ltb (from + (img.start_idx - from)) total ≡ true
    here whole = ground (arith, ends)

    shape :
        end_idx img ≤ total
        → (img.start_idx - from)
            + suc (rounds total (end_idx img) images + (num_tokens img + extra))
          ≡ rounds total from (img ∷ images) + extra
    shape whole = omega (arith, ends)

tabulate-as_u32 :
    (n start : ℕ)
    → start + n < 2 ^ 32
    → tabulate n start text ≡ tabulate n start (λ i. text (as_u32 i))
unfolding tabulate
tabulate-as_u32 zero start lt = refl
tabulate-as_u32 (suc n) start lt =
    ap₂ ◌∷◌ (ap text (small_id start (omega arith))) (tabulate-as_u32 n (suc start) (omega arith))
  where
    small_id : (i : ℕ) → i < 2 ^ 32 → i ≡ as_u32 i
    small_id i h = omega arith

pub build_vl_position_ids-laid_out :
    (total : ℕ) (images : List ImageInfo)
    → total < 2 ^ 32
    → Placed total 0 images
    → build_vl_position_ids total images ≡ some (laid_out total images 0 0)
unfolding build_vl_position_ids
build_vl_position_ids-laid_out total images small placed =
    subst (λ i. vl_loop i total 0 images 0 ≡ some (laid_out total images 0 0)) (omega arith)
      (loop-laid_out total images 0 0 0 small (omega arith) placed)

-- Without images these are the positions of a text-only sequence.
pub build_vl_position_ids-text :
    (total : ℕ)
    → total < 2 ^ 32
    → build_vl_position_ids total [] ≡ some (build_text_position_ids total)
unfolding build_text_position_ids
build_vl_position_ids-text total small =
    build_vl_position_ids-laid_out total [] small (omega arith)
    ∙ ap (λ n. some (tabulate n 0 text)) (whole total)
    ∙ ap some (tabulate-as_u32 total 0 (omega arith))
  where
    whole : (n : ℕ) → n - 0 ≡ n
    whole n = omega arith
