-- ===== src/Repetition/Detected.antt =====
-- What `detect_repetition_loop` (crates/core/src/decode_utils.rs) detects.
use herbert_rs.Prelude.{
  ℕ, zero, suc, ◌+◌, ◌-◌, ◌*◌, ◌≤◌, ◌<◌, ◌≡◌, ◌≢◌, refl, ap, ap₂, sym, ◌∙◌, subst, Bool, true,
  false, ◌&&◌, Option, none, some, List, [], ◌++◌, length, take, drop, arith, ltb, ◌==◌, ==_iff,
  append-nil, Bool-cases, inl, inr, drop-add, take-append, drop-append, take-append-drop,
  drop-append-add, length-append, length-drop, length-take, take_of_length-le,
}
use herbert_rs.Prelude.Tokens.{tokens_eq, tokens_eq_sound, tokens_eq_refl}
use herbert_rs.Repetition.{block, blocks_repeat, repeats, detect_from, detect_repetition_loop}

-- The tokens end in a pattern of `pat_len` tokens, three times.
pub record Loops (tokens : List ℕ) (pat_len : ℕ) : Type 0 where
  pub before : List ℕ
  pub pattern : List ℕ
  pub pattern_length : length pattern ≡ pat_len
  pub splits : tokens ≡ before ++ (pattern ++ (pattern ++ pattern))

and-true : (a b : Bool) → (a && b) ≡ true → (a ≡ true) × (b ≡ true)
and-true true b h = (refl, h)
and-true false b h = cc

three_blocks :
    (xs : List ℕ) (p : ℕ)
    → length xs ≡ p * 3
    → xs ≡ take p xs ++ (take p (drop p xs) ++ take p (drop (2 * p) xs))
three_blocks xs p len =
    sym (take-append-drop p xs)
    ∙ ap (◌++◌ (take p xs)) (
        sym (take-append-drop p (drop p xs))
        ∙ ap (◌++◌ (take p (drop p xs))) (
            sym (drop-add p p xs)
            ∙ sym (take_of_length-le p (drop (p + p) xs) (omega (arith, length-drop (p + p) xs)))
            ∙ ap (λ n. take p (drop n xs)) (double p)))
  where
    double : (p : ℕ) → p + p ≡ 2 * p
    double p = omega arith

repeats-Loops :
    (tokens : List ℕ) (pat_len : ℕ) → repeats tokens pat_len ≡ true → Loops tokens pat_len
unfolding repeats blocks_repeat block
repeats-Loops tokens p h = elim (Bool-cases (ltb (length tokens) (p * 3))) [
  | inl short ↦ absurd (impossible (sym (rw short at h)))
  | inr long ↦
      let all = rw long at h in
      let first = and-true _ _ all in
      let second = and-true _ _ first.1 in
      let base = length tokens - p * 3 in
      let xs = drop base tokens in
      let room : length xs ≡ p * 3 = size long in
      record {
        before = take base tokens;
        pattern = take p xs;
        pattern_length = omega (arith, length-take p xs, room);
        splits =
            sym (take-append-drop base tokens)
            ∙ ap (◌++◌ (take base tokens)) (
                three_blocks xs p room
                ∙ ap (λ t. take p xs ++ t)
                    (ap₂ ◌++◌
                      (ap (take p) (sym (drop-add base p tokens))
                        ∙ ap (λ n. take p (drop (base + n) tokens)) (once p)
                        ∙ tokens_eq_sound _ _ first.0)
                      (ap (take p) (sym (drop-add base (2 * p) tokens))
                        ∙ tokens_eq_sound _ _ second.0)));
      }
]
  where
    impossible : true ≡ false → ⊥
    impossible e = cc

    once : (p : ℕ) → p ≡ 1 * p
    once p = omega arith

    size :
        ltb (length tokens) (p * 3) ≡ false → length (drop (length tokens - p * 3) tokens) ≡ p * 3
    size long = omega (arith, length-drop (length tokens - p * 3) tokens, not_short long)
      where
        not_short : ltb (length tokens) (p * 3) ≡ false → p * 3 ≤ length tokens
        not_short long = ground arith

-- Past `before`, and past copies of the pattern.
block-pattern :
    (before x rest : List ℕ) (tokens : List ℕ) (from : ℕ)
    → drop from tokens ≡ x ++ rest
    → block tokens from (length x) ≡ x
unfolding block
block-pattern before x rest tokens from e = ap (take (length x)) e ∙ take-append x rest

Loops-repeats :
    (tokens : List ℕ) (pat_len : ℕ) → Loops tokens pat_len → repeats tokens pat_len ≡ true
unfolding repeats blocks_repeat
Loops-repeats tokens p l = subst (λ n. repeats_at n ≡ true) l.pattern_length whole
  where
    repeats_at : ℕ → Bool
    repeats_at n = repeats tokens n

    b : List ℕ
    b = l.before

    x : List ℕ
    x = l.pattern

    total : length tokens ≡ length b + length x * 3
    total =
        ap length l.splits
        ∙ (omega
            (arith, length-append b (x ++ (x ++ x)), length-append x (x ++ x), length-append x x))

    base : length tokens - length x * 3 ≡ length b
    base = omega (arith, total)

    long : ltb (length tokens) (length x * 3) ≡ false
    long = ground (arith, total)

    first : drop (length b) tokens ≡ x ++ (x ++ x)
    first = ap (drop (length b)) l.splits ∙ drop-append b (x ++ (x ++ x))

    second : drop (length b + 1 * length x) tokens ≡ x ++ x
    second =
        ap (drop (length b + 1 * length x)) l.splits
        ∙ drop-append-add b (x ++ (x ++ x)) (1 * length x)
        ∙ ap (λ n. drop n (x ++ (x ++ x))) (once (length x))
        ∙ drop-append x (x ++ x)
      where
        once : (n : ℕ) → 1 * n ≡ n
        once n = omega arith

    third : drop (length b + 2 * length x) tokens ≡ x ++ []
    third =
        ap (drop (length b + 2 * length x)) l.splits
        ∙ drop-append-add b (x ++ (x ++ x)) (2 * length x)
        ∙ ap (λ n. drop n (x ++ (x ++ x))) (twice (length x))
        ∙ drop-append-add x (x ++ x) (length x)
        ∙ drop-append x x
        ∙ sym (append-nil x)
      where
        twice : (n : ℕ) → 2 * n ≡ n + n
        twice n = omega arith

    same : (u v : List ℕ) → u ≡ x → v ≡ x → tokens_eq u v ≡ true
    same u v e e' = rw (e, e') (tokens_eq_refl x)

    whole : repeats_at (length x) ≡ true
    whole =
        rw
          (
            long,
            base,
            same _ _ (block-pattern b x x tokens (length b + 1 * length x) second)
                (block-pattern b x (x ++ x) tokens (length b) first),
            same _ _ (block-pattern b x [] tokens (length b + 2 * length x) third)
                (block-pattern b x (x ++ x) tokens (length b) first),
          )
          refl

-- The shortest pattern of a length in a range, if there is one.
abbrev pub Shortest : List ℕ → ℕ → ℕ → Option ℕ → Type 0
Shortest tokens lo hi none = (p : ℕ) → lo ≤ p → p < hi → ¬ (Loops tokens p)
Shortest tokens lo hi (some p) =
    (lo ≤ p) × (p < hi) × Loops tokens p × ((q : ℕ) → lo ≤ q → q < p → ¬ (Loops tokens q))

not_here : (tokens : List ℕ) (p : ℕ) → repeats tokens p ≡ false → ¬ (Loops tokens p)
not_here tokens p fails l = cc (sym fails ∙ Loops-repeats tokens p l)

extend_range :
    (tokens : List ℕ) (lo hi : ℕ) (o : Option ℕ)
    → ¬ (Loops tokens lo)
    → Shortest tokens (suc lo) hi o
    → Shortest tokens lo hi o
extend_range tokens lo hi none fails h = λ p le lt l. elim (Bool-cases (p == lo)) [
  | inl at ↦ fails (subst (Loops tokens) ((==_iff p lo).0 at) l)
  | inr past ↦ h p (omega (arith, apart p lo past)) lt l
]
  where
    apart : (p lo : ℕ) → (p == lo) ≡ false → p ≢ lo
    apart p lo past = ground arith
extend_range tokens lo hi (some p) fails h = (
  omega (arith, h.0),
  h.1,
  h.2,
  (λ q le lt l. elim (Bool-cases (q == lo)) [
    | inl at ↦ fails (subst (Loops tokens) ((==_iff q lo).0 at) l)
    | inr past ↦ h.3 q (omega (arith, apart q lo past)) lt l
  ]),
)
  where
    apart : (p lo : ℕ) → (p == lo) ≡ false → p ≢ lo
    apart p lo past = ground arith

detect_from-Shortest :
    (n lo hi : ℕ) (tokens : List ℕ) → lo + n ≡ hi → Shortest tokens lo hi (detect_from n lo tokens)
unfolding detect_from
detect_from-Shortest zero lo hi tokens e = λ p le lt l. omega arith
detect_from-Shortest (suc n) lo hi tokens e = elim (Bool-cases (repeats tokens lo)) [
  | inl here ↦
      rw here (omega arith, omega arith, repeats-Loops tokens lo here, (λ q le lt l. omega arith))
  | inr later ↦ rw later (
      extend_range tokens lo hi (detect_from n (suc lo) tokens) (not_here tokens lo later)
        (detect_from-Shortest n (suc lo) hi tokens (omega arith)))
]

-- The detection answers with the length, between 6 and 100, of the shortest pattern that the tokens end in
-- three times in a row, and with nothing exactly if there is no such pattern.
pub detect_repetition_loop-Shortest :
    (tokens : List ℕ) → Shortest tokens 6 101 (detect_repetition_loop tokens)
unfolding detect_repetition_loop
detect_repetition_loop-Shortest tokens = detect_from-Shortest 95 6 101 tokens refl
