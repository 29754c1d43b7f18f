-- ===== src/Positions/Tests.antt =====
-- Positions of a small sequence, and the theorems at it.
use herbert_rs.Prelude.{◌≡◌, refl, some, List, [], ◌∷◌, arith}
use herbert_rs.Kv.Store.{tabulate}
use herbert_rs.Positions.{
  text, image, ImageInfo, num_tokens, end_idx, push_rows, vl_loop, build_vl_position_ids,
  build_text_position_ids,
}
use herbert_rs.Positions.Layout.{build_vl_position_ids-text}

program : Unit {0}
unfolding tabulate num_tokens end_idx push_rows vl_loop build_vl_position_ids
program = tt

-- A picture of one row and two columns behind two tokens of text.
abbrev images : List ImageInfo
images = record { start_idx = 2; grid_h = 1; grid_w = 2 } ∷ []

placed_text :
    build_vl_position_ids 5 images ≡ some (text 0 ∷ text 1 ∷ image 0 0 ∷ image 0 1 ∷ text 2 ∷ [])
unfolding program
placed_text = refl

build_vl_position_ids-text_example : build_vl_position_ids 4 [] ≡ some (build_text_position_ids 4)
build_vl_position_ids-text_example = build_vl_position_ids-text 4 (omega arith)
