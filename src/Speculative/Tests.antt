-- ===== src/Speculative/Tests.antt =====
-- Runs of a speculative step, and its theorems at them.
use herbert_rs.Prelude.{
  ℕ, ◌<◌, ◌≡◌, refl, some, List, [], ◌∷◌, ◌++◌, map, length, take, All, arith, ◌>>=◌,
}
use herbert_rs.Floats.Bits.{bit_floats}
use herbert_rs.Sampler.{xorshift64, next_f32}
use herbert_rs.Speculative.{
  Backend, SpeculativeDecoder, SpecStepStats, softmax, pick_from, or_last, sample_from_probs,
  residual, resample_from_residual, accept_prob, accept_loop, bonus, draft_loop, step,
}
use herbert_rs.Speculative.Accept.{Produced, accept-Produced}
use herbert_rs.Speculative.Rollback.{Keeps, Stepped, step-Stepped}

program : Unit {0}
unfolding xorshift64 next_f32 softmax pick_from or_last sample_from_probs residual
    resample_from_residual accept_prob accept_loop bonus draft_loop step
program = tt

-- A backend whose state is the list of the tokens in its cache, and which always answers with token 1.
abbrev some_logits : List ℕ
some_logits = 5 ∷ 9 ∷ []

abbrev echo : Backend ℕ
echo = record {
  State = List ℕ;
  kv_seq_len = λ s. some (length s);
  decode_next = λ s tok. some (s ++ (tok ∷ []), 1, some (5 ∷ 9 ∷ []));
  verify_draft = λ s toks. some (s ++ toks, map (λ t. some_logits) toks);
  truncate_kv = λ s n. some (take n s);
}

length-map : (toks : List ℕ) → length (map (λ (t : ℕ). some_logits) toks) ≡ length toks
length-map [] = refl
length-map (x ∷ toks) = omega (arith, length-map toks)

All-nonempty :
    (toks : List ℕ) → All (λ (l : List ℕ). 0 < length l) (map (λ (t : ℕ). some_logits) toks)
All-nonempty [] = tt
All-nonempty (x ∷ toks) = (omega arith, All-nonempty toks)

echo_keeps : Keeps bit_floats echo (λ s. s)
echo_keeps = record {
  kv_seq_len_lem = λ s. refl;
  decode_next_lem = λ s tok. (s ++ (tok ∷ []), 1, 5 ∷ 9 ∷ [], refl, refl, omega arith);
  verify_draft_lem = λ s toks.
      (s ++ toks, map (λ t. some_logits) toks, refl, refl, length-map toks, All-nonempty toks);
  truncate_kv_lem = λ s n. (take n s, refl, refl);
}

abbrev decoder : SpeculativeDecoder
decoder = record {
  draft_k = 3;
  rng_state = 0xdeadbeef;
  total_accepted = 0;
  total_steps = 0;
  total_produced = 0;
}

accept-Produced_example :
    (accepted : ℕ) × (final_tokens : List ℕ) × (rng' : ℕ) × ((accept_loop bit_floats 1
          (1 ∷ [])
          ((5 ∷ 9 ∷ []) ∷ (5 ∷ 9 ∷ []) ∷ [])
          ((5 ∷ 9 ∷ []) ∷ [])
          7
        >>= bonus bit_floats 1 ((5 ∷ 9 ∷ []) ∷ (5 ∷ 9 ∷ []) ∷ []))
      ≡ some (accepted, final_tokens, rng'))
    × Produced (1 ∷ []) accepted final_tokens
accept-Produced_example =
    accept-Produced bit_floats 1 (1 ∷ []) ((5 ∷ 9 ∷ []) ∷ (5 ∷ 9 ∷ []) ∷ []) ((5 ∷ 9 ∷ []) ∷ []) 7
      (omega arith) (omega arith) (omega arith, (omega arith, tt)) (omega arith, tt)

step-Stepped_example :
    (self' : SpeculativeDecoder) × (d' : List ℕ) × (t' : List ℕ) × (stats : SpecStepStats) × (step
        bit_floats echo echo 1 decoder
        (4 ∷ 5 ∷ [])
        (4 ∷ 5 ∷ [])
        6
      ≡ some (self', d', t', stats))
    × Stepped bit_floats echo echo
        (λ s. s)
        (λ s. s)
        echo_keeps
        echo_keeps
        decoder
        self'
        (4 ∷ 5 ∷ [])
        d'
        (4 ∷ 5 ∷ [])
        t'
        6
        stats
step-Stepped_example =
    step-Stepped bit_floats echo echo (λ s. s) (λ s. s) echo_keeps echo_keeps 1 decoder (4 ∷ 5 ∷ [])
      (4 ∷ 5 ∷ []) 6
