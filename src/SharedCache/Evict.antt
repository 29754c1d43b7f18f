-- ===== src/SharedCache/Evict.antt =====
-- `evict_lru` of crates/backends/backend_common/src/shared_prefix_cache.rs: its loop, the entries that
-- it takes out, and the total.
use mathlib.Core.List.{Perm}
use mathlib.Core.List.Perm
use mathlib.Core.Option.{some-injective}
use herbert_rs.Prelude.{
  append-nil, ℕ, zero, suc, ◌+◌, ◌-◌, ◌^◌, ◌≤◌, ◌<◌, ◌≡◌, refl, ap, subst, ◌∙◌, ◌⊎◌, inl, inr, ◌&&◌,
  Bool, true, false, not, some, List, [], ◌∷◌, ◌++◌, length, get_elem?, All, ltb, leb, arith,
  Bool-cases, ltb→lt, ltb-false,
}
use herbert_rs.Prelude.Tokens.{is_empty}
use herbert_rs.SharedCache.{
  PrefixEntry, SharedPrefixCache, add_size, min_from, lru_index, evict_one, evict_loop, evict_lru,
}
use herbert_rs.SharedCache.SwapRemove.{
  Removes, single, head, skip, swap_remove-Removes, Removes-perm, Removes-All, Removes-length,
}

module _ {F : Type 0} where
  abbrev pub sum_memory : List (PrefixEntry F) → ℕ
  sum_memory [] = 0
  sum_memory (e ∷ es) = e.memory_bytes + sum_memory es

  pub sum_memory-append :
      (xs ys : List (PrefixEntry F)) → sum_memory (xs ++ ys) ≡ sum_memory xs + sum_memory ys
  sum_memory-append [] ys = omega arith
  sum_memory-append (x ∷ xs) ys = omega (arith, sum_memory-append xs ys)

  sum_memory-Removes :
      {x : PrefixEntry F} {xs rest : List (PrefixEntry F)}
      → Removes x xs rest
      → x.memory_bytes + sum_memory rest ≡ sum_memory xs
  sum_memory-Removes single = refl
  sum_memory-Removes {x} (head ys mid last split) =
      omega (arith, ap sum_memory split, sum_memory-append mid (last ∷ []))
  sum_memory-Removes (skip y xs rest r) = omega (arith, sum_memory-Removes r)

  -- `min_by_key` ends at an entry of the list, and none was accessed earlier.
  data Oldest (best : ℕ × ℕ) (i : ℕ) (es : List (PrefixEntry F)) : ℕ × ℕ → Type 0 where
    stays : (r : ℕ × ℕ) → r ≡ best → All (λ k. best.1 ≤ k.last_access) es → Oldest best i es r
    moves :
        (r : ℕ × ℕ) (j : ℕ) (e : PrefixEntry F)
        → r ≡ (i + j, e.last_access)
        → get_elem? es j ≡ some e
        → e.last_access < best.1
        → All (λ k. e.last_access ≤ k.last_access) es
        → Oldest best i es r

  All-le :
      (m n : ℕ) (es : List (PrefixEntry F))
      → m ≤ n
      → All (λ k. n ≤ k.last_access) es
      → All (λ k. m ≤ k.last_access) es
  All-le m n [] le h = tt
  All-le m n (e ∷ es) le h = (omega (arith, h.0), All-le m n es le h.1)

  Oldest-older :
      (best : ℕ × ℕ) (i : ℕ) (e : PrefixEntry F) (es : List (PrefixEntry F)) (r : ℕ × ℕ)
      → e.last_access < best.1
      → Oldest (i, e.last_access) (suc i) es r
      → Oldest best i (e ∷ es) r
  Oldest-older best i e es r lt (Oldest.stays _ eq all) =
      Oldest.moves r 0 e (ground arith) refl lt (omega arith, all)
  Oldest-older best i e es r lt (Oldest.moves _ j x eq at lt' all) =
      Oldest.moves r (suc j) x (ground arith) at (omega arith) (omega arith, all)

  Oldest-newer :
      (best : ℕ × ℕ) (i : ℕ) (e : PrefixEntry F) (es : List (PrefixEntry F)) (r : ℕ × ℕ)
      → best.1 ≤ e.last_access
      → Oldest best (suc i) es r
      → Oldest best i (e ∷ es) r
  Oldest-newer best i e es r le (Oldest.stays _ eq all) = Oldest.stays r eq (le, all)
  Oldest-newer best i e es r le (Oldest.moves _ j x eq at lt all) =
      Oldest.moves r (suc j) x (ground arith) at lt (omega arith, all)

  min_from-Oldest :
      (best : ℕ × ℕ) (i : ℕ) (es : List (PrefixEntry F)) → Oldest best i es (min_from best i es)
  unfolding min_from
  min_from-Oldest best i [] = Oldest.stays best refl tt
  min_from-Oldest best i (e ∷ es) = elim (Bool-cases (ltb e.last_access best.1)) [
    | inl older ↦ rw older (
        Oldest-older best i e es _ (ltb→lt _ _ older)
          (min_from-Oldest (i, e.last_access) (suc i) es))
    | inr newer ↦
        rw newer
          (Oldest-newer best i e es _ (ltb-false _ _ newer) (min_from-Oldest best (suc i) es))
  ]

  -- What one round of the loop does.
  pub record Evicts (c c' : SharedPrefixCache F) (e : PrefixEntry F) : Type 0 where
    pub removes : Removes e c.entries c'.entries
    pub oldest : All (λ k. e.last_access ≤ k.last_access) c.entries
    pub memory : c'.total_memory ≡ c.total_memory - e.memory_bytes
    pub limit : c'.max_memory_bytes ≡ c.max_memory_bytes
    pub clock : c'.access_clock ≡ c.access_clock

  abbrev IsOldest : List (PrefixEntry F) → ℕ → PrefixEntry F → Type 0
  IsOldest es i x = (get_elem? es i ≡ some x) × All (λ k. x.last_access ≤ k.last_access) es

  lru_index-Oldest :
      (e : PrefixEntry F) (es : List (PrefixEntry F)) (r : ℕ × ℕ)
      → Oldest (0, e.last_access) 1 es r
      → (x : PrefixEntry F) × IsOldest (e ∷ es) r.0 x
  lru_index-Oldest e es r (Oldest.stays _ eq all) = (e, rw eq (refl, (omega arith, all)))
  lru_index-Oldest e es r (Oldest.moves _ j x eq at lt all) =
      (x, subst (λ k. IsOldest (e ∷ es) k x) r0 (at, (omega arith, all)))
    where
      r0 : suc j ≡ r.0
      r0 = omega (arith, ap (λ (t : ℕ × ℕ). t.0) eq)

  lru_index_lem :
      (e : PrefixEntry F) (es : List (PrefixEntry F))
      → (i : ℕ) × (x : PrefixEntry F) × (lru_index (e ∷ es) ≡ some i) × IsOldest (e ∷ es) i x
  unfolding lru_index
  lru_index_lem e es =
      let (x, old) = lru_index-Oldest e es _ (min_from-Oldest (0, e.last_access) 1 es) in
      ((min_from (0, e.last_access) 1 es).0, x, refl, old)

  -- A round never panics on a cache with entries.
  evict_from :
      (c : SharedPrefixCache F) (es : List (PrefixEntry F))
      → c.entries ≡ es
      → is_empty es ≡ false
      → (c' : SharedPrefixCache F) × (e : PrefixEntry F) × (evict_one c ≡ some c') × Evicts c c' e
  unfolding evict_one
  evict_from c [] ce ne = cc
  evict_from c (e ∷ es) ce ne =
      let (i, x, found, old) = lru_index_lem e es in
      let (rest, taken, removes) = swap_remove-Removes (e ∷ es) i x old.0 in
      (
        record c { entries = rest; total_memory = c.total_memory - x.memory_bytes },
        x,
        rw (ce, found, taken),
        record {
          removes = rw ce removes;
          oldest = rw ce old.1;
          memory = refl;
          limit = refl;
          clock = refl;
        },
      )

  -- What the loop has done when it ends, `evicted` being what it has taken out.
  pub record Evicted (c c' : SharedPrefixCache F) (needed : ℕ) (evicted : List (PrefixEntry F))
      : Type 0 where
    pub perm : Perm (evicted ++ c'.entries) c.entries
    pub oldest : All (λ e. All (λ k. e.last_access ≤ k.last_access) c'.entries) evicted
    pub memory : c'.total_memory ≡ sum_memory c'.entries
    pub bound : sum_memory c'.entries ≤ sum_memory c.entries
    pub room : (c'.total_memory + needed ≤ c.max_memory_bytes) ⊎ (c'.entries ≡ [])
    pub limit : c'.max_memory_bytes ≡ c.max_memory_bytes
    pub clock : c'.access_clock ≡ c.access_clock

  -- The test of the loop.
  abbrev is_over : SharedPrefixCache F → ℕ → Bool
  is_over c needed =
      ltb c.max_memory_bytes (add_size c.total_memory needed) && not (is_empty c.entries)

  over-is_empty :
      (c : SharedPrefixCache F) (needed : ℕ) → is_over c needed ≡ true → is_empty c.entries ≡ false
  over-is_empty c needed h = ground arith

  empty_of : (es : List (PrefixEntry F)) → is_empty es ≡ true → es ≡ []
  empty_of [] h = refl
  empty_of (e ∷ es) h = cc

  -- A loop that stops at once has made room, or there is nothing to take out.
  Evicted-none :
      (c : SharedPrefixCache F) (needed : ℕ)
      → c.total_memory ≡ sum_memory c.entries
      → sum_memory c.entries + needed < 2 ^ 64
      → is_over c needed ≡ false
      → Evicted c c needed []
  Evicted-none c needed total small fits = record {
    perm = Perm.refl _;
    oldest = tt;
    memory = total;
    bound = omega arith;
    room = elim (Bool-cases (is_empty c.entries)) [
      | inl none_left ↦ inr (empty_of c.entries none_left)
      | inr some_left ↦ inl (ground arith)
    ];
    limit = refl;
    clock = refl;
  }

  -- Everything a loop keeps was there before it.
  evict_loop-All :
      (P : PrefixEntry F → Type 0) (fuel needed : ℕ) (c c' : SharedPrefixCache F)
      → evict_loop fuel needed c ≡ some c'
      → All P c.entries
      → All P c'.entries
  unfolding evict_loop
  evict_loop-All P zero needed c c' run h = cc
  evict_loop-All P (suc fuel) needed c c' run h = elim (Bool-cases (is_over c needed)) [
    | inl over ↦
        let (d, e, step, one) = evict_from c c.entries refl (over-is_empty c needed over) in
        evict_loop-All P fuel needed d c' (rw (over, step) at run) (Removes-All P one.removes h).1
    | inr fits ↦
        subst (λ (x : SharedPrefixCache F). All P x.entries) (some-injective c c' (rw fits at run))
          h
  ]

  -- One round, and a loop after it.
  Evicted-after :
      (c d c' : SharedPrefixCache F) (needed : ℕ) (e : PrefixEntry F)
      (evicted : List (PrefixEntry F))
      → Evicts c d e
      → Evicted d c' needed evicted
      → All (λ k. e.last_access ≤ k.last_access) c'.entries
      → Evicted c c' needed (e ∷ evicted)
  Evicted-after c d c' needed e evicted one rest older = record {
    perm = Perm.trans (Perm.cons e rest.perm) (Removes-perm one.removes);
    oldest = (older, rest.oldest);
    memory = rest.memory;
    bound = omega (arith, rest.bound, sum_memory-Removes one.removes);
    room = rw (← one.limit) rest.room;
    limit = rest.limit ∙ one.limit;
    clock = rest.clock ∙ one.clock;
  }

  pub evict_loop-Evicted :
      (fuel needed : ℕ) (c : SharedPrefixCache F)
      → length c.entries < fuel
      → c.total_memory ≡ sum_memory c.entries
      → sum_memory c.entries + needed < 2 ^ 64
      → (c' : SharedPrefixCache F) × (evicted : List (PrefixEntry F)) × (evict_loop fuel needed c
          ≡ some c')
        × Evicted c c' needed evicted
  unfolding evict_loop
  evict_loop-Evicted zero needed c enough total small = elim enough [ ]
  evict_loop-Evicted (suc fuel) needed c enough total small = elim (Bool-cases (is_over c needed)) [
    | inl over ↦
        let (d, e, step, one) = evict_from c c.entries refl (over-is_empty c needed over) in
        let (c', evicted, run, done) =
          evict_loop-Evicted fuel needed d (omega (arith, Removes-length one.removes))
            (omega (arith, one.memory, sum_memory-Removes one.removes))
            (omega (arith, sum_memory-Removes one.removes)) in
        (
          c',
          e ∷ evicted,
          rw (over, step) run,
          Evicted-after c d c' needed e evicted one done (
              evict_loop-All (λ k. e.last_access ≤ k.last_access) fuel needed d c' run
                (Removes-All (λ k. e.last_access ≤ k.last_access) one.removes one.oldest).1),
        )
    | inr fits ↦ (c, [], rw fits, Evicted-none c needed total small fits)
  ]

  -- The cache without its entries.
  abbrev cleared : SharedPrefixCache F → SharedPrefixCache F
  cleared c = record c { entries = []; total_memory = 0 }

  All-older_than_none :
      (es : List (PrefixEntry F))
      → All
          (λ (e : PrefixEntry F). All (λ (k : PrefixEntry F). e.last_access ≤ k.last_access) [])
          es
  All-older_than_none [] = tt
  All-older_than_none (e ∷ es) = (tt, All-older_than_none es)

  cleared-Evicted : (c : SharedPrefixCache F) (needed : ℕ) → Evicted c (cleared c) needed c.entries
  cleared-Evicted c needed = record {
    perm = rw append-nil (Perm.refl _);
    oldest = All-older_than_none c.entries;
    memory = refl;
    bound = omega arith;
    room = inr refl;
    limit = refl;
    clock = refl;
  }

  -- What an eviction keeps was there before it.
  pub evict_lru-All :
      (P : PrefixEntry F → Type 0) (c c' : SharedPrefixCache F) (needed : ℕ)
      → evict_lru c needed ≡ some c'
      → All P c.entries
      → All P c'.entries
  unfolding evict_lru
  evict_lru-All P c c' needed run h = elim (Bool-cases (leb c.max_memory_bytes needed)) [
    | inl all ↦ elim (Bool-cases (is_empty c.entries)) [
      | inl bare ↦
          subst (λ (x : SharedPrefixCache F). All P x.entries)
            (some-injective c c' (rw (all, bare) at run)) h
      | inr full ↦
          subst (λ (x : SharedPrefixCache F). All P x.entries)
            (some-injective (cleared c) c' (rw (all, full) at run)) tt
    ]
    | inr part ↦ evict_loop-All P (suc (length c.entries)) needed c c' (rw part at run) h
  ]

  -- `evict_lru` never panics and its loop ends. It leaves a cache with room for the new entry within
  -- the budget, or an empty one; it takes out some entries and keeps the others, none of which was
  -- used before one that it took out; and the recorded total stays the sum of what is stored.
  pub evict_lru-Evicted :
      (c : SharedPrefixCache F) (needed : ℕ)
      → c.total_memory ≡ sum_memory c.entries
      → sum_memory c.entries + needed < 2 ^ 64
      → (c' : SharedPrefixCache F) × (evicted : List (PrefixEntry F)) × (evict_lru c needed
          ≡ some c')
        × Evicted c c' needed evicted
  unfolding evict_lru
  evict_lru-Evicted c needed total small = elim (Bool-cases (leb c.max_memory_bytes needed)) [
    | inl all ↦ elim (Bool-cases (is_empty c.entries)) [
      | inl bare ↦ (c, [], rw (all, bare), Evicted-none c needed total small (ground arith))
      | inr full ↦ (cleared c, c.entries, rw (all, full), cleared-Evicted c needed)
    ]
    | inr part ↦
        rw part (evict_loop-Evicted (suc (length c.entries)) needed c (omega arith) total small)
  ]
