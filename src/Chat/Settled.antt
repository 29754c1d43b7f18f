-- ===== src/Chat/Settled.antt =====
-- Printing in `run_decode_loop` of crates/cli/src/chat.rs: one more text, and the end.
use herbert_rs.Prelude.{
  ℕ, zero, suc, ◌-◌, ◌≤◌, ◌≡◌, refl, sym, ap, ◌∙◌, inl, inr, Bool, true, false, ◌||◌, Option, some,
  List, [], ◌∷◌, ◌++◌, length, take, drop, take-append-drop, take-add, ltb, le→leb, ltb-false, ◌==◌,
  arith, Bool-cases,
}
use herbert_rs.Prelude.Tokens.{tokens_eq_refl}
use herbert_rs.Prelude.Text.{Text, continues, str_from}
use herbert_rs.Chat.{
  ChatConfig, safe_len, is_char_boundary, str_slice, same_start, Printer, print_from, show_new,
  show_text, flush, opens_call, first_shown,
}
use herbert_rs.Chat.Safe.{
  safe_len-le, safe_len_rest, safe_len-boundary, safe_len_grows, all_fffd_starts,
}

-- The tokenizer decodes all tokens, and one more token changes nothing of the text but U+FFFD at its
-- end, which more bytes may complete to a character; the settled text is followed by a character.
pub record Streams (decode : List ℕ → Bool → Option Text) (skip : Bool) : Type 0 where
  pub text : List ℕ → Text
  pub total : (tokens : List ℕ) → decode tokens skip ≡ some (text tokens)
  pub longer :
      (tokens : List ℕ) (t : ℕ) → safe_len (text tokens) ≤ length (text (tokens ++ (t ∷ [])))
  pub settled :
      (tokens : List ℕ) (t : ℕ)
      → take (safe_len (text tokens)) (text (tokens ++ (t ∷ [])))
        ≡ take (safe_len (text tokens)) (text tokens)
  pub whole :
      (tokens : List ℕ) (t : ℕ)
      → continues (drop (safe_len (text tokens)) (text (tokens ++ (t ∷ [])))) ≡ false

-- The printer that has printed all that is settled of a text.
abbrev pub printer : Text → Printer
printer full = record {
  stdout = take (safe_len full) full;
  muted = false;
  printed_len = safe_len full;
  prev_full = full;
}

slice_to_safe :
    (full : Text) (n : ℕ)
    → n ≤ safe_len full
    → is_char_boundary full n ≡ true
    → str_slice full n (safe_len full) ≡ some (take (safe_len full - n) (drop n full))
unfolding str_slice
slice_to_safe full n le h = rw (le→leb _ _ le, h, safe_len-boundary full) refl

pub flush_all :
    (full : Text) → flush (printer full) ≡ some (record (printer full) { stdout = full })
unfolding flush str_from
flush_all full = elim (Bool-cases (ltb (safe_len full) (length full))) [
  | inl e ↦
      rw
        (
          e,
          all_fffd_starts (drop (safe_len full) full) (safe_len_rest full),
          take-append-drop (safe_len full) full,
        )
        refl
  | inr e ↦ rw e (
      ap (λ t. some (record (printer full) { stdout = t }))
        (take_whole full (safe_len full) (ltb-false _ _ e)))
]
  where
    take_whole : (xs : Text) (n : ℕ) → length xs ≤ n → take n xs ≡ xs
    take_whole [] zero h = refl
    take_whole [] (suc n) h = refl
    take_whole (x ∷ xs) zero h = absurd (omega arith)
    take_whole (x ∷ xs) (suc n) h = ap (◌∷◌ x) (take_whole xs n (omega arith))

at_start : (t : Text) → is_char_boundary t 0 ≡ true
unfolding is_char_boundary
at_start t = refl

boundary_here :
    (f : Text) (n : ℕ) → n ≤ length f → continues (drop n f) ≡ false → is_char_boundary f n ≡ true
unfolding is_char_boundary
boundary_here f n long starts = rw (le→leb _ _ long, starts) (or_true (n == 0))
  where
    or_true : (b : Bool) → (b || true) ≡ true
    or_true true = refl
    or_true false = refl

starts_alike :
    (s f : Text)
    → safe_len s ≤ length f
    → take (safe_len s) f ≡ take (safe_len s) s
    → same_start f s (safe_len s) ≡ true
unfolding same_start
starts_alike s f long same =
    rw (le→leb _ _ long, le→leb _ _ (safe_len-le s), same) (tokens_eq_refl (take (safe_len s) s))

print_from_settled :
    (s f : Text)
    → safe_len s ≤ length f
    → take (safe_len s) f ≡ take (safe_len s) s
    → continues (drop (safe_len s) f) ≡ false
    → print_from (printer s) f ≡ safe_len s
unfolding print_from
print_from_settled s f long same starts =
    rw (boundary_here f (safe_len s) long starts, starts_alike s f long same) refl

-- The next text is printed as far as it is settled.
pub show_next :
    (s f : Text)
    → safe_len s ≤ length f
    → take (safe_len s) f ≡ take (safe_len s) s
    → continues (drop (safe_len s) f) ≡ false
    → show_text (printer s) f ≡ some (printer f)
unfolding show_text show_new
show_next s f long same starts =
    rw (print_from_settled s f long same starts)
      (elim (Bool-cases (ltb (safe_len s) (safe_len f))) [
        | inl e ↦
            rw (e, slice_to_safe f (safe_len s) more (boundary_here f (safe_len s) long starts))
              (printed joined)
        | inr e ↦
            rw e (printed (sym same ∙ ap (λ n. take n f) (omega (arith, ltb-false _ _ e, more))))
      ])
  where
    more : safe_len s ≤ safe_len f
    more = safe_len_grows s f long same starts

    joined :
        take (safe_len s) s ++ take (safe_len f - safe_len s) (drop (safe_len s) f)
        ≡ take (safe_len f) f
    joined =
        ap (λ t. t ++ take (safe_len f - safe_len s) (drop (safe_len s) f)) (sym same)
        ∙ sym (take-add (safe_len s) (safe_len f - safe_len s) f)
        ∙ ap (λ n. take n f) (omega (arith, more))

    printed :
        {t : Text}
        → t ≡ take (safe_len f) f
        → some (record (printer f) { stdout = t }) ≡ some (printer f)
    printed e = ap (λ t. some (record (printer f) { stdout = t })) e

pub first_text :
    (cfg : ChatConfig) (decode : List ℕ → Bool → Option Text) {G : Type 0}
    (next : G → ℕ → Option (G × ℕ)) (first : ℕ) (full : Text)
    → opens_call cfg first ≡ false
    → first_shown cfg decode next first full ≡ some (printer full)
unfolding first_shown
first_text cfg decode next first full quiet =
    let none_off : safe_len full - 0 ≡ safe_len full = omega arith in
    rw (quiet, slice_to_safe full 0 (omega arith) (at_start full), none_off) refl
