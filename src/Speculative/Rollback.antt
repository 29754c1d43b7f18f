-- ===== src/Speculative/Rollback.antt =====
-- The rollback of `SpeculativeDecoder::step` (crates/backends/backend_common/src/speculative.rs), against
-- backends whose KV cache is the list of the tokens it holds.
use herbert_rs.Prelude.{
  ℕ, zero, suc, ◌+◌, ◌<◌, ◌≡◌, refl, ap, sym, subst, ◌∙◌, false, some, List, [], ◌∷◌, ◌++◌, length,
  take, arith, ltb, append_assoc, append-nil, take-append-add, All,
}
use herbert_rs.Floats.{Floats}
use herbert_rs.Speculative.{Backend, SpeculativeDecoder, SpecStepStats, draft_loop, bonus, step}
use herbert_rs.Speculative.Accept.{Produced, accept_run}

module _ (f : Floats) where
  open f use {F}

  -- The documented behaviour of a backend: `tokens` are those its cache holds, `decode_next` adds one and
  -- gives logits, `verify_draft` adds all it is given and gives logits for each, `truncate_kv` keeps a prefix
  -- of the cache, all of it if it is not longer.
  pub record Keeps (b : Backend F) (tokens : b.State → List ℕ) : Type 0 where
    pub kv_seq_len_lem : (s : b.State) → b.kv_seq_len s ≡ some (length (tokens s))
    pub decode_next_lem :
        (s : b.State) (tok : ℕ)
        → (s' : b.State) × (tok' : ℕ) × (logits : List F) × (b.decode_next s tok
            ≡ some (s', tok', some logits))
          × (tokens s' ≡ tokens s ++ (tok ∷ []))
          × (0 < length logits)
    pub verify_draft_lem :
        (s : b.State) (toks : List ℕ)
        → (s' : b.State) × (ls : List (List F)) × (b.verify_draft s toks ≡ some (s', ls))
          × (tokens s' ≡ tokens s ++ toks)
          × (length ls ≡ length toks)
          × All (λ (l : List F). 0 < length l) ls
    pub truncate_kv_lem :
        (s : b.State) (n : ℕ)
        → (s' : b.State) × (b.truncate_kv s n ≡ some s') × (tokens s' ≡ take n (tokens s))

  module _ (draft target : Backend F) (draft_tokens_of : draft.State → List ℕ)
      (target_tokens_of : target.State → List ℕ) (dk : Keeps draft draft_tokens_of)
      (tk : Keeps target target_tokens_of) where
    -- The first `k` of the token it was given and the drafted ones are in the draft cache.
    draft_loop_lem :
        (k : ℕ) (s : draft.State) (tok : ℕ)
        → (s' : draft.State) × (toks : List ℕ) × (ls : List (List F)) × (draft_loop f draft target k
              s tok
            ≡ some (s', toks, ls))
          × (draft_tokens_of s' ≡ draft_tokens_of s ++ take k (tok ∷ toks))
          × (length toks ≡ k)
          × (length ls ≡ k)
          × All (λ (l : List F). 0 < length l) ls
    unfolding draft_loop
    draft_loop_lem zero s tok = (s, [], [], refl, sym (append-nil _), refl, refl, tt)
    draft_loop_lem (suc k) s tok =
        let (s', tok', logits, run, kept, nonempty) = dk.decode_next_lem s tok in
        let (s'', toks, ls, run', kept', count, count', all) = draft_loop_lem k s' tok' in
        (
          s'',
          tok' ∷ toks,
          logits ∷ ls,
          rw (run, run') refl,
          kept'
              ∙ ap (λ t. t ++ take k (tok' ∷ toks)) kept
              ∙ append_assoc (draft_tokens_of s) (tok ∷ []) (take k (tok' ∷ toks)),
          ap suc count,
          ap suc count',
          (nonempty, all),
        )

    -- What a step leaves.
    pub record Stepped (self self' : SpeculativeDecoder) (d d' : draft.State) (t t' : target.State)
        (current_token : ℕ) (stats : SpecStepStats) : Type 0 where
      pub drafted : length stats.draft_tokens ≡ self.draft_k
      pub produced_tokens : Produced stats.draft_tokens stats.accepted stats.final_tokens
      pub counted : stats.produced ≡ stats.accepted + 1
      -- the target cache has the current token and the accepted ones
      pub target_kept :
          target_tokens_of t'
          ≡ target_tokens_of t ++ (current_token ∷ take stats.accepted stats.draft_tokens)
      -- and the draft cache too, but for the last draft token if it is accepted
      pub draft_kept :
          draft_tokens_of d'
          ≡ draft_tokens_of d
            ++ (take (stats.accepted + 1) (take self.draft_k (current_token ∷ stats.draft_tokens)))
      pub total_accepted_sum : self'.total_accepted ≡ self.total_accepted + stats.accepted
      pub total_produced_sum : self'.total_produced ≡ self.total_produced + stats.produced

    kept_prefix :
        (start xs : List ℕ) (n : ℕ)
        → take (length start + 1 + n) (start ++ xs) ≡ start ++ take (n + 1) xs
    kept_prefix start xs n =
        ap (λ m. take m (start ++ xs)) (regroup (length start) n) ∙ take-append-add start xs (n + 1)
      where
        regroup : (a n : ℕ) → a + 1 + n ≡ a + (n + 1)
        regroup a n = omega arith

    -- Against backends that behave as `Keeps` says, a step with any arithmetic does not fail. It produces one
    -- token more than it accepts, at most as many as were drafted; the target cache then holds what it held,
    -- the current token and the accepted tokens, and the statistics count them. The draft cache holds the same
    -- tokens, except that it never has the last of the drafted tokens, not even if all are accepted.
    pub step-Stepped :
        (tiny : F) (self : SpeculativeDecoder) (d : draft.State) (t : target.State)
        (current_token : ℕ)
        → (self' : SpeculativeDecoder) × (d' : draft.State) × (t' : target.State)
          × (stats : SpecStepStats) × (step f draft target tiny self d t current_token
              ≡ some (self', d', t', stats))
          × Stepped self self' d d' t t' current_token stats
    unfolding step
    step-Stepped tiny self d t current_token =
        let k = self.draft_k in
        let (d1, toks, ls, d_run, d_kept, d_count, l_count, d_all) =
          draft_loop_lem k d current_token in
        let (t1, tls, t_run, t_kept, t_count, t_all) =
          tk.verify_draft_lem t (current_token ∷ toks) in
        let (looped, l_run, accepted, final_tokens, rng, b_run, made) =
          accept_run f tiny toks tls ls self.rng_state (omega (arith, t_count))
            (omega (arith, d_count, l_count)) t_all d_all in
        let (d2, d_cut, d_end) =
          dk.truncate_kv_lem d1 (length (draft_tokens_of d) + 1 + accepted) in
        let (t2, t_cut, t_end) =
          tk.truncate_kv_lem t1 (length (target_tokens_of t) + 1 + accepted) in
        let b_run' =
          subst (λ n. bonus f n tls looped ≡ some (accepted, final_tokens, rng)) d_count b_run in
        (
          record self {
            rng_state = rng;
            total_accepted = self.total_accepted + accepted;
            total_steps = self.total_steps + 1;
            total_produced = self.total_produced + length final_tokens;
          },
          d2,
          t2,
          record {
            accepted = accepted;
            produced = length final_tokens;
            draft_tokens = toks;
            final_tokens = final_tokens;
          },
          rw
              (
                dk.kv_seq_len_lem d,
                tk.kv_seq_len_lem t,
                d_run,
                t_run,
                enough k toks tls d_count t_count,
                l_run,
                b_run',
                d_cut,
                t_cut,
              )
              refl,
          record {
            drafted = d_count;
            produced_tokens = made;
            counted = made.one_more;
            target_kept =
                t_end
                ∙ ap (take (length (target_tokens_of t) + 1 + accepted)) t_kept
                ∙ kept_prefix (target_tokens_of t) (current_token ∷ toks) accepted
                ∙ ap (λ m. target_tokens_of t ++ take m (current_token ∷ toks)) (after accepted);
            draft_kept =
                d_end
                ∙ ap (take (length (draft_tokens_of d) + 1 + accepted)) d_kept
                ∙ kept_prefix (draft_tokens_of d) (take k (current_token ∷ toks)) accepted;
            total_accepted_sum = refl;
            total_produced_sum = refl;
          },
        )
      where
        after : (n : ℕ) → n + 1 ≡ suc n
        after n = omega arith

        enough :
            (k : ℕ) (toks : List ℕ) (tls : List (List F))
            → length toks ≡ k
            → length tls ≡ length (current_token ∷ toks)
            → ltb (length tls) (k + 1) ≡ false
        enough k toks tls c c' = ground arith
