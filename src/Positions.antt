-- ===== src/Positions.antt =====
-- crates/backends/backend_common/src/position_ids.rs: the positions of the tokens of a sequence with images.
-- The loop is on fuel, and `none` is running out of it; the next image is the first of the list.
pub mod Layout
mod Tests
use herbert_rs.Prelude.{
  ℕ, zero, suc, ◌+◌, ◌*◌, ◌%◌, ◌^◌, Bool, true, false, Option, none, some, List, [], ◌∷◌, ◌++◌,
  length, ltb, ◌==◌, ◌>>=◌,
}
use herbert_rs.Kv.Store.{tabulate}
use herbert_rs.H2o.{as_u32}

pub record Position3D : Type 0 where
  pub t : ℕ
  pub h : ℕ
  pub w : ℕ

abbrev pub text : ℕ → Position3D
text pos = record { t = pos; h = pos; w = pos }

abbrev pub image : ℕ → ℕ → Position3D
image row col = record { t = 0; h = row; w = col }

pub record ImageInfo : Type 0 where
  pub start_idx : ℕ
  pub grid_h : ℕ
  pub grid_w : ℕ

unfoldable pub num_tokens : ImageInfo → ℕ
num_tokens img = img.grid_h * img.grid_w

unfoldable pub end_idx : ImageInfo → ℕ
end_idx img = img.start_idx + num_tokens img

-- The rows from `row` on, `n` of them.
unfoldable pub push_rows : ℕ → ℕ → ℕ → List Position3D
push_rows zero row grid_w = []
push_rows (suc n) row grid_w =
    tabulate grid_w 0 (λ col. image (as_u32 row) (as_u32 col)) ++ push_rows n (suc row) grid_w

-- An `if` that runs one branch only.
abbrev pub branch : {A : Type 0} → Bool → (Unit {0} → A) → (Unit {0} → A) → A
branch true yes_branch no_branch = yes_branch tt
branch false yes_branch no_branch = no_branch tt

unfoldable pub vl_loop : ℕ → ℕ → ℕ → List ImageInfo → ℕ → Option (List Position3D)
vl_loop zero total_len token_idx images text_pos = none
vl_loop (suc fuel) total_len token_idx [] text_pos =
    branch (ltb token_idx total_len)
      (λ _. vl_loop fuel total_len (token_idx + 1) [] (as_u32 (text_pos + 1)) >>= λ rest.
        some (text text_pos ∷ rest))
      (λ _. some [])
vl_loop (suc fuel) total_len token_idx (img ∷ images) text_pos =
    branch (ltb token_idx total_len)
      (λ _.
        branch (token_idx == img.start_idx)
          (λ _. vl_loop fuel total_len (token_idx + num_tokens img) images text_pos >>= λ rest.
            some (push_rows img.grid_h 0 img.grid_w ++ rest))
          (λ _.
            vl_loop fuel total_len (token_idx + 1) (img ∷ images) (as_u32 (text_pos + 1))
            >>= λ rest. some (text text_pos ∷ rest)))
      (λ _. some [])

-- A round places a token or takes an image.
unfoldable pub build_vl_position_ids : ℕ → List ImageInfo → Option (List Position3D)
build_vl_position_ids total_len images =
    vl_loop (suc (total_len + length images)) total_len 0 images 0

unfoldable pub build_text_position_ids : ℕ → List Position3D
build_text_position_ids seq_len = tabulate seq_len 0 (λ i. text (as_u32 i))
