-- ===== src/Chat/Safe.antt =====
-- `safe_len` of crates/cli/src/chat.rs: how far a text is settled.
use herbert_rs.Prelude.{
  ℕ, zero, suc, ◌≤◌, ◌≡◌, refl, sym, ◌∙◌, inl, inr, Bool, true, false, ◌&&◌, ◌||◌, [], ◌∷◌, length,
  take, drop, le→leb, ◌==◌, arith, Bool-cases,
}
use herbert_rs.Prelude.Text.{Text, continues}
use herbert_rs.Chat.{all_fffd, safe_len, is_char_boundary}

pub safe_len-le : (s : Text) → safe_len s ≤ length s
unfolding safe_len
safe_len-le [] = omega arith
safe_len-le (c ∷ cs) = ground (arith, safe_len-le cs)

all_fffd_nil : all_fffd [] ≡ true
unfolding all_fffd
all_fffd_nil = refl

-- Behind it there is nothing but U+FFFD.
pub safe_len_rest : (s : Text) → all_fffd (drop (safe_len s) s) ≡ true
unfolding safe_len
safe_len_rest [] = all_fffd_nil
safe_len_rest (c ∷ cs) = elim (Bool-cases (all_fffd (c ∷ cs))) [
  | inl e ↦ rw e e
  | inr e ↦ rw e (safe_len_rest cs)
]

pub all_fffd_starts : (s : Text) → all_fffd s ≡ true → continues s ≡ false
unfolding all_fffd
all_fffd_starts [] h = refl
all_fffd_starts (a ∷ []) h = cc
all_fffd_starts (a ∷ (b ∷ [])) h = cc
all_fffd_starts (a ∷ (b ∷ (c ∷ rest))) h = ground (arith, h)

pub safe_len-boundary : (s : Text) → is_char_boundary s (safe_len s) ≡ true
unfolding is_char_boundary
safe_len-boundary s =
    rw (all_fffd_starts (drop (safe_len s) s) (safe_len_rest s), le→leb _ _ (safe_len-le s))
      (or_true (safe_len s == 0))
  where
    or_true : (b : Bool) → (b || true) ≡ true
    or_true true = refl
    or_true false = refl

four :
    (p q r t : Bool) → (p && q && r && t) ≡ true → (p ≡ true) × (q ≡ true) × (r ≡ true) × (t ≡ true)
four p q r t h = ground arith

tail_eq : {a b : ℕ} {s t : Text} → (a ∷ s) ≡ (b ∷ t) → s ≡ t
tail_eq h = cc

head_eq : {a b : ℕ} {s t : Text} → (a ∷ s) ≡ (b ∷ t) → a ≡ b
head_eq h = cc

-- A text of U+FFFD alone, up to a character's start, is one of U+FFFD in another that begins alike and
-- goes on so.
all_fffd_both :
    (n : ℕ) (f s : Text)
    → all_fffd f ≡ true
    → n ≤ length f
    → n ≤ length s
    → take n f ≡ take n s
    → continues (drop n f) ≡ false
    → all_fffd (drop n s) ≡ true
    → all_fffd s ≡ true
unfolding all_fffd
all_fffd_both zero f s all lf ls same starts rest = rest
all_fffd_both (suc n) [] s all lf ls same starts rest = absurd (omega arith)
all_fffd_both (suc n) (a ∷ []) s all lf ls same starts rest = cc
all_fffd_both (suc n) (a ∷ (b ∷ [])) s all lf ls same starts rest = cc
all_fffd_both (suc zero) (a ∷ (b ∷ (c ∷ f))) s all lf ls same starts rest =
    absurd (ground (arith, all, starts))
all_fffd_both (suc (suc zero)) (a ∷ (b ∷ (c ∷ f))) s all lf ls same starts rest =
    absurd (ground (arith, all, starts))
all_fffd_both (suc (suc (suc n))) (a ∷ (b ∷ (c ∷ f))) [] all lf ls same starts rest =
    absurd (omega arith)
all_fffd_both (suc (suc (suc n))) (a ∷ (b ∷ (c ∷ f))) (x ∷ []) all lf ls same starts rest =
    absurd (omega arith)
all_fffd_both (suc (suc (suc n))) (a ∷ (b ∷ (c ∷ f))) (x ∷ (y ∷ [])) all lf ls same starts rest =
    absurd (omega arith)
all_fffd_both (suc (suc (suc n))) (a ∷ (b ∷ (c ∷ f))) (x ∷ (y ∷ (z ∷ s))) all lf ls same starts
      rest =
    let (p, q, r, t) = four (a == 0xef) (b == 0xbf) (c == 0xbd) (all_fffd f) all in
    let tail =
      all_fffd_both n f s t (omega arith) (omega arith) (tail_eq (tail_eq (tail_eq same))) starts
        rest in
    rw
      (
        sym (head_eq same),
        sym (head_eq (tail_eq same)),
        sym (head_eq (tail_eq (tail_eq same))),
        p,
        q,
        r,
      )
      tail

pub safe_len_grows :
    (s f : Text)
    → safe_len s ≤ length f
    → take (safe_len s) f ≡ take (safe_len s) s
    → continues (drop (safe_len s) f) ≡ false
    → safe_len s ≤ safe_len f
unfolding safe_len
safe_len_grows [] f long same starts = omega arith
safe_len_grows (c ∷ cs) [] long same starts = elim (Bool-cases (all_fffd (c ∷ cs))) [
  | inl e ↦ rw e (omega arith)
  | inr e ↦ absurd (omega (arith, rw e at long))
]
safe_len_grows (c ∷ cs) (d ∷ ds) long same starts = elim (Bool-cases (all_fffd (c ∷ cs))) [
  | inl e ↦ rw e (omega arith)
  | inr e ↦ elim (Bool-cases (all_fffd (d ∷ ds))) [
    | inl f ↦ absurd (
        clash (
          sym (
            all_fffd_both (suc (safe_len cs)) (d ∷ ds) (c ∷ cs) f (rw e at long)
              (omega (arith, safe_len-le cs)) (rw e at same) (rw e at starts) (safe_len_rest cs))
          ∙ e))
    | inr f ↦
        rw (e, f)
          (let rest =
              safe_len_grows cs ds (omega (arith, rw e at long)) (tail_eq (rw e at same))
                (rw e at starts) in
            omega (arith, rest))
  ]
]
  where
    clash : ¬ (true ≡ false)
    clash h = cc
