-- ===== src/SharedCache/Lookup.antt =====
-- `lookup` of crates/backends/backend_common/src/shared_prefix_cache.rs: which entry it finds.
use native.Mathlib.Nat.{zero-add}
use herbert_rs.Prelude.{
  map, ℕ, zero, suc, ◌+◌, ◌≤◌, ◌<◌, ◌≡◌, refl, ap, inl, inr, ◌&&◌, ◌||◌, Bool, true, false, not,
  Option, none, some, List, [], ◌∷◌, length, take, set, get_elem?, All, ltb, leb, ◌==◌,
  if◌then◌else◌, arith, length-take, Bool-cases,
}
use herbert_rs.Prelude.Tokens.{tokens_eq, tokens_eq_sound, tokens_eq_refl}
use herbert_rs.Kv.{KvStoreSnapshot}
use herbert_rs.SharedCache.{PrefixEntry, SharedPrefixCache, scan, lookup, finish_lookup, add_size}

module _ {F : Type 0} where
  -- The entry's tokens are a prefix of `tokens`.
  abbrev pub Matches : List ℕ → PrefixEntry F → Type 0
  Matches tokens e = take (length e.tokens) tokens ≡ e.tokens

  -- What a scan that started with `best` at position `i` has found when it ends with `found`.
  pub data Scanned (tokens : List ℕ) (i : ℕ) (best : Option ℕ × ℕ) (es : List (PrefixEntry F))
      : Option ℕ × ℕ → Type 0 where
    kept :
        (found : Option ℕ × ℕ)
        → found ≡ best
        → All (λ e. Matches tokens e → length e.tokens ≤ best.1) es
        → Scanned tokens i best es found
    better :
        (found : Option ℕ × ℕ) (j : ℕ) (e : PrefixEntry F)
        → found ≡ (some (i + j), length e.tokens)
        → get_elem? es j ≡ some e
        → Matches tokens e
        → best.1 < length e.tokens
        → All (λ e'. Matches tokens e' → length e'.tokens ≤ length e.tokens) es
        → All (λ e'. Matches tokens e' → length e'.tokens < length e.tokens) (take j es)
        → Scanned tokens i best es found

  All-weaken :
      {P Q : PrefixEntry F → Type 0} (es : List (PrefixEntry F))
      → ((e : PrefixEntry F) → P e → Q e)
      → All P es
      → All Q es
  All-weaken [] h p = tt
  All-weaken (e ∷ es) h p = (h e p.0, All-weaken es h p.1)

  module _ (hash : List ℕ → ℕ) where
    -- The stored hashes are those of the stored tokens.
    abbrev pub HashValid : List (PrefixEntry F) → Type 0
    HashValid = All (λ e. e.token_hash ≡ hash e.tokens)

    -- The tests of one round, together.
    abbrev improves : List ℕ → ℕ → PrefixEntry F → Bool
    improves tokens best e =
        not (leb (length e.tokens) best || ltb (length tokens) (length e.tokens))
        && hash (take (length e.tokens) tokens) == e.token_hash
        && tokens_eq (take (length e.tokens) tokens) e.tokens

    improves-true :
        (tokens : List ℕ) (best : ℕ) (e : PrefixEntry F)
        → improves tokens best e ≡ true
        → Matches tokens e × (best < length e.tokens)
    improves-true tokens best e h = (tokens_eq_sound _ _ (ground arith), ground arith)

    improves-false :
        (tokens : List ℕ) (best : ℕ) (e : PrefixEntry F)
        → e.token_hash ≡ hash e.tokens
        → improves tokens best e ≡ false
        → Matches tokens e
        → length e.tokens ≤ best
    improves-false tokens best e v h m = ground (
      arith,
      ap (λ t. tokens_eq t e.tokens) m,
      tokens_eq_refl e.tokens,
      ap hash m,
      ap length m,
      length-take (length e.tokens) tokens,
    )

    scan_step :
        (tokens : List ℕ) (i : ℕ) (best : Option ℕ × ℕ) (e : PrefixEntry F)
        (es : List (PrefixEntry F))
        → scan hash tokens i best (e ∷ es)
          ≡ scan hash tokens
              (suc i)
              (if improves tokens best.1 e then (some i, length e.tokens) else best)
              es
    unfolding scan
    scan_step tokens i best e es = ap (λ b. scan hash tokens (suc i) b es) (ground arith)

    -- A scan that goes on from a better entry, and one that goes on as before.
    from_better :
        (tokens : List ℕ) (i : ℕ) (best : Option ℕ × ℕ) (e : PrefixEntry F)
        (es : List (PrefixEntry F)) (found : Option ℕ × ℕ)
        → Matches tokens e
        → best.1 < length e.tokens
        → Scanned tokens (suc i) (some i, length e.tokens) es found
        → Scanned tokens i best (e ∷ es) found
    from_better tokens i best e es found m lt (Scanned.kept _ eq all) =
        Scanned.better found 0 e (ground arith) refl m lt ((λ _. omega arith), all) tt
    from_better tokens i best e es found m lt (Scanned.better _ j e' eq at m' lt' all first) =
        Scanned.better found (suc j) e' (ground arith) at m' (omega arith) ((λ _. omega arith), all)
          ((λ _. lt'), first)

    from_kept :
        (tokens : List ℕ) (i : ℕ) (best : Option ℕ × ℕ) (e : PrefixEntry F)
        (es : List (PrefixEntry F)) (found : Option ℕ × ℕ)
        → (Matches tokens e → length e.tokens ≤ best.1)
        → Scanned tokens (suc i) best es found
        → Scanned tokens i best (e ∷ es) found
    from_kept tokens i best e es found no_gain (Scanned.kept _ eq all) =
        Scanned.kept found eq (no_gain, all)
    from_kept tokens i best e es found no_gain (Scanned.better _ j e' eq at m' lt' all first) =
        Scanned.better found (suc j) e' (ground arith) at m' lt'
          ((λ m. omega (arith, no_gain m)), all) ((λ m. omega (arith, no_gain m)), first)

    pub scan_lem :
        (tokens : List ℕ) (i : ℕ) (best : Option ℕ × ℕ) (es : List (PrefixEntry F))
        → HashValid es
        → Scanned tokens i best es (scan hash tokens i best es)
    unfolding scan
    scan_lem tokens i best [] v = Scanned.kept best refl tt
    scan_lem tokens i best (e ∷ es) v = elim (Bool-cases (improves tokens best.1 e)) [
      | inl gain ↦
          let (m, lt) = improves-true tokens best.1 e gain in
          rw (scan_step tokens i best e es, gain)
            (from_better tokens i best e es _ m lt
              (scan_lem tokens (suc i) (some i, length e.tokens) es v.1))
      | inr no_gain ↦
          rw (scan_step tokens i best e es, no_gain)
            (from_kept tokens i best e es _ (improves-false tokens best.1 e v.0 no_gain)
              (scan_lem tokens (suc i) best es v.1))
    ]

    -- What `lookup` promises of its answer: a miss means that no entry is a prefix of the tokens, a
    -- hit is the snapshot of an entry that is one, and no longer one is cached.
    pub data Answer (c : SharedPrefixCache F) (tokens : List ℕ)
        : Option (ℕ × KvStoreSnapshot F) → Type 0 where
      miss : All (λ e. Matches tokens e → length e.tokens ≡ 0) c.entries → Answer c tokens none
      hit :
          (i : ℕ) (e : PrefixEntry F)
          → get_elem? c.entries i ≡ some e
          → Matches tokens e
          → 0 < length e.tokens
          → All (λ e'. Matches tokens e' → length e'.tokens ≤ length e.tokens) c.entries
          → All (λ e'. Matches tokens e' → length e'.tokens < length e.tokens) (take i c.entries)
          → Answer c tokens (some (length e.tokens, e.snapshot))

    -- What is stored, without the times of access.
    abbrev pub content : PrefixEntry F → List ℕ × KvStoreSnapshot F × ℕ
    content e = (e.tokens, e.snapshot, e.memory_bytes)

    content-touch :
        (es : List (PrefixEntry F)) (i clock : ℕ) (e : PrefixEntry F)
        → get_elem? es i ≡ some e
        → map content (set es i (record e { last_access = clock })) ≡ map content es
    content-touch [] i clock e h = cc
    content-touch (x ∷ es) zero clock e h = ground arith
    content-touch (x ∷ es) (suc i) clock e h = ap (◌∷◌ (content x)) (content-touch es i clock e h)

    no_match_nil : (es : List (PrefixEntry F)) → All (λ e. Matches [] e → length e.tokens ≡ 0) es
    no_match_nil [] = tt
    no_match_nil (e ∷ es) = (
      (λ m. ground (arith, ap length m, length-take {A = ℕ} (length e.tokens) [])),
      no_match_nil es,
    )

    abbrev Promises :
        SharedPrefixCache F
        → List ℕ
        → Option (SharedPrefixCache F × Option (ℕ × KvStoreSnapshot F))
        → Type 0
    Promises c tokens out =
        (c' : SharedPrefixCache F) × (answer : Option (ℕ × KvStoreSnapshot F)) × (out
          ≡ some (c', answer))
        × Answer c tokens answer
        × (map content c'.entries ≡ map content c.entries)
        × (c'.total_memory ≡ c.total_memory)
        × (c'.max_memory_bytes ≡ c.max_memory_bytes)

    finish_lookup_lem :
        (c : SharedPrefixCache F) (tokens : List ℕ) (clock : ℕ) (found : Option ℕ × ℕ)
        → Scanned tokens 0 (none, 0) c.entries found
        → Promises c tokens (finish_lookup c clock found)
    unfolding finish_lookup
    finish_lookup_lem c tokens clock found (Scanned.kept _ eq all) = rw eq (
      record c { access_clock = clock },
      none,
      refl,
      Answer.miss (All-weaken c.entries (λ e h m. omega (arith, h m)) all),
      refl,
      refl,
      refl,
    )
    finish_lookup_lem c tokens clock found (Scanned.better _ j e eq at m lt all first) =
        let entries = set c.entries j (record e { last_access = clock }) in
        rw (eq, zero-add, at)
          (
            record c { access_clock = clock; entries = entries },
            some (length e.tokens, e.snapshot),
            refl,
            Answer.hit j e at m lt all first,
            content-touch c.entries j clock e at,
            refl,
            refl,
          )

    -- In a cache whose stored hashes belong to the stored tokens, `lookup` never panics and answers
    -- with the longest cached prefix of the tokens, or with a miss if no entry is one. It changes
    -- no stored tokens, snapshot or size.
    pub lookup_longest :
        (c : SharedPrefixCache F) (tokens : List ℕ)
        → HashValid c.entries
        → (c' : SharedPrefixCache F) × (answer : Option (ℕ × KvStoreSnapshot F)) × (lookup hash c
              tokens
            ≡ some (c', answer))
          × Answer c tokens answer
          × (map content c'.entries ≡ map content c.entries)
          × (c'.total_memory ≡ c.total_memory)
          × (c'.max_memory_bytes ≡ c.max_memory_bytes)
    unfolding lookup
    lookup_longest c [] v = (c, none, refl, Answer.miss (no_match_nil c.entries), refl, refl, refl)
    lookup_longest c (t ∷ ts) v =
        finish_lookup_lem c (t ∷ ts) (add_size c.access_clock 1)
          (scan hash (t ∷ ts) 0 (none, 0) c.entries) (scan_lem (t ∷ ts) 0 (none, 0) c.entries v)
