-- ===== src/Repetition.antt =====
-- `StopReason` and `detect_repetition_loop` of crates/core/src/decode_utils.rs. No slice is out of
-- range, since `need <= len`, so none is written as a panic.
pub mod Detected
mod Tests
use herbert_rs.Prelude.{
  ℕ, zero, suc, ◌+◌, ◌-◌, ◌*◌, Bool, true, false, ◌&&◌, Option, none, some, List, length, take,
  drop, ltb, if◌then◌else◌,
}
use herbert_rs.Prelude.Tokens.{tokens_eq}

pub data StopReason : Type 0 where
  eos im_end max_tokens repetition_loop : StopReason

abbrev pub min_pat : ℕ
min_pat = 6

abbrev pub max_pat : ℕ
max_pat = 100

abbrev pub reps : ℕ
reps = 3

-- `tokens[from..from + pat_len]`
unfoldable pub block : List ℕ → ℕ → ℕ → List ℕ
block tokens from pat_len = take pat_len (drop from tokens)

-- `(r..r + n).all(|r| block r == block 0)`, `base` being the place of block 0
unfoldable pub blocks_repeat : List ℕ → ℕ → ℕ → ℕ → ℕ → Bool
blocks_repeat tokens base pat_len r zero = true
blocks_repeat tokens base pat_len r (suc n) =
    tokens_eq (block tokens (base + r * pat_len) pat_len) (block tokens base pat_len)
    && blocks_repeat tokens base pat_len (suc r) n

unfoldable pub repeats : List ℕ → ℕ → Bool
repeats tokens pat_len =
    let need = pat_len * reps in
    if ltb (length tokens) need
    then false
    else blocks_repeat tokens (length tokens - need) pat_len 1 (reps - 1)

-- `for pat_len in pat_len..pat_len + n`
unfoldable pub detect_from : ℕ → ℕ → List ℕ → Option ℕ
detect_from zero pat_len tokens = none
detect_from (suc n) pat_len tokens =
    let rest = detect_from n (suc pat_len) tokens in
    if repeats tokens pat_len then some pat_len else rest

unfoldable pub detect_repetition_loop : List ℕ → Option ℕ
detect_repetition_loop tokens = detect_from (suc max_pat - min_pat) min_pat tokens
