-- ===== src/SharedCache/Insert.antt =====
-- `insert` of crates/backends/backend_common/src/shared_prefix_cache.rs: the invariant of the cache,
-- its budget, and what a lookup finds after an insertion.
use native.Mathlib.Nat.{zero-add}
use mathlib.Core.Option.{some-injective}
use herbert_rs.Prelude.{
  ℕ, zero, suc, ◌+◌, ◌-◌, ◌^◌, ◌≤◌, ◌<◌, ◌≡◌, ◌≢◌, refl, ap, ◌∙◌, ◌⊎◌, inl, inr, true, false,
  Option, none, some, List, [], ◌∷◌, ◌++◌, take, set, length, get_elem?, All, ◌==◌, arith,
  Bool-cases, All-append, All-get_elem?,
}
use herbert_rs.Prelude.Tokens.{tokens_eq, tokens_eq_sound, tokens_eq_refl}
use herbert_rs.Kv.{KvStore, KvStoreSnapshot}
use herbert_rs.Kv.Store.{snapshot}
use herbert_rs.Kv.Snapshot.{memory_bytes}
use herbert_rs.SharedCache.{
  PrefixEntry, SharedPrefixCache, add_size, same_tokens, position, insert_new, update_at, insert,
}
use herbert_rs.SharedCache.Evict.{sum_memory, sum_memory-append, evict_lru-Evicted, evict_lru-All}
use herbert_rs.SharedCache.Lookup.{HashValid}

module _ {F : Type 0} (hash : List ℕ → ℕ) where
  -- What holds of one entry of a cache whose clock shows `clock`.
  pub record EntryValid (clock : ℕ) (e : PrefixEntry F) : Type 0 where
    pub hashed : e.token_hash ≡ hash e.tokens
    pub nonempty : 0 < length e.tokens
    pub sized : e.memory_bytes ≡ memory_bytes e.snapshot
    pub accessed : e.last_access ≤ clock

  pub record IsValid (c : SharedPrefixCache F) : Type 0 where
    pub entries_valid : All (EntryValid c.access_clock) c.entries
    pub total : c.total_memory ≡ sum_memory c.entries

  pub IsValid-HashValid :
      (clock : ℕ) (es : List (PrefixEntry F)) → All (EntryValid clock) es → HashValid hash es
  IsValid-HashValid clock [] h = tt
  IsValid-HashValid clock (e ∷ es) h = (h.0.hashed, IsValid-HashValid clock es h.1)

  All-later :
      (s t : ℕ) (es : List (PrefixEntry F)) → s ≤ t → All (EntryValid s) es → All (EntryValid t) es
  All-later s t [] le h = tt
  All-later s t (e ∷ es) le h = (
    record {
      hashed = h.0.hashed;
      nonempty = h.0.nonempty;
      sized = h.0.sized;
      accessed = omega (arith, h.0.accessed);
    },
    All-later s t es le h.1,
  )

  -- A write keeps a property of every entry, and moves the sum by the difference.
  All-set {κ} :
      (P : PrefixEntry F → Type κ) (es : List (PrefixEntry F)) (i : ℕ) (e' : PrefixEntry F)
      → All P es
      → P e'
      → All P (set es i e')
  All-set P [] i e' h k = tt
  All-set P (e ∷ es) zero e' h k = (k, h.1)
  All-set P (e ∷ es) (suc i) e' h k = (h.0, All-set P es i e' h.1 k)

  pub sum_memory-set :
      (es : List (PrefixEntry F)) (i : ℕ) (e e' : PrefixEntry F)
      → get_elem? es i ≡ some e
      → sum_memory (set es i e') + e.memory_bytes ≡ sum_memory es + e'.memory_bytes
  sum_memory-set [] i e e' h = cc
  sum_memory-set (x ∷ es) zero e e' h = ground arith
  sum_memory-set (x ∷ es) (suc i) e e' h = omega (arith, sum_memory-set es i e e' h)

  pub memory-le :
      (es : List (PrefixEntry F)) (i : ℕ) (e : PrefixEntry F)
      → get_elem? es i ≡ some e
      → e.memory_bytes ≤ sum_memory es
  memory-le [] i e h = cc
  memory-le (x ∷ es) zero e h = ground arith
  memory-le (x ∷ es) (suc i) e h = omega (arith, memory-le es i e h)

  -- `position` finds the first entry with the tokens.
  pub same_tokens_sound :
      (tokens : List ℕ) (e : PrefixEntry F) → same_tokens hash tokens e ≡ true → e.tokens ≡ tokens
  unfolding same_tokens
  same_tokens_sound tokens e h = tokens_eq_sound e.tokens tokens (ground arith)

  pub same_tokens_complete :
      (tokens : List ℕ) (e : PrefixEntry F)
      → e.token_hash ≡ hash e.tokens
      → e.tokens ≡ tokens
      → same_tokens hash tokens e ≡ true
  unfolding same_tokens
  same_tokens_complete tokens e v h =
      ground (arith, ap length h, ap hash h, ap (tokens_eq e.tokens) h, tokens_eq_refl e.tokens)

  data Found (tokens : List ℕ) (i : ℕ) (es : List (PrefixEntry F)) : Option ℕ → Type 0 where
    absent : All (λ e. e.tokens ≢ tokens) es → Found tokens i es none
    present :
        (r : Option ℕ) (j : ℕ) (e : PrefixEntry F)
        → r ≡ some (i + j)
        → get_elem? es j ≡ some e
        → e.tokens ≡ tokens
        → All (λ e'. e'.tokens ≢ tokens) (take j es)
        → Found tokens i es r

  Found-later :
      (tokens : List ℕ) (i : ℕ) (e : PrefixEntry F) (es : List (PrefixEntry F)) (r : Option ℕ)
      → e.tokens ≢ tokens
      → Found tokens (suc i) es r
      → Found tokens i (e ∷ es) r
  Found-later tokens i e es r ne (Found.absent all) = Found.absent (ne, all)
  Found-later tokens i e es r ne (Found.present _ j x eq at same first) =
      Found.present r (suc j) x (eq ∙ ap some shifted) at same (ne, first)
    where
      shifted : suc i + j ≡ i + suc j
      shifted = omega arith

  position-Found :
      (tokens : List ℕ) (i : ℕ) (es : List (PrefixEntry F))
      → HashValid hash es
      → Found tokens i es (position hash tokens i es)
  unfolding position
  position-Found tokens i [] v = Found.absent tt
  position-Found tokens i (e ∷ es) v = elim (Bool-cases (same_tokens hash tokens e)) [
    | inl same ↦
        rw same
          (Found.present (some i) 0 e (ground arith) refl (same_tokens_sound tokens e same) tt)
    | inr other ↦ rw other (
        Found-later tokens i e es _ (λ q. cc (same_tokens_complete tokens e v.0 q))
          (position-Found tokens (suc i) es v.1))
  ]

  abbrev entry_of : SharedPrefixCache F → List ℕ → KvStoreSnapshot F → PrefixEntry F
  entry_of c tokens snap = record {
    tokens = tokens;
    token_hash = hash tokens;
    snapshot = snap;
    memory_bytes = memory_bytes snap;
    last_access = c.access_clock;
  }

  -- What `insert` promises of the cache that it returns.
  pub record Inserted (c c' : SharedPrefixCache F) (tokens : List ℕ) (snap : KvStoreSnapshot F)
      : Type 0 where
    pub valid : IsValid c'
    pub stored :
        (j : ℕ) × (e : PrefixEntry F) × (get_elem? c'.entries j ≡ some e)
        × (e.tokens ≡ tokens)
        × (e.snapshot ≡ snap)
        × All (λ e'. e'.tokens ≢ tokens) (take j c'.entries)
    pub budget :
        All (λ e. e.tokens ≢ tokens) c.entries
        → (c'.total_memory ≤ c.max_memory_bytes) ⊎ (length c'.entries ≡ 1)
    pub limit : c'.max_memory_bytes ≡ c.max_memory_bytes

  get_elem?-length :
      (es : List (PrefixEntry F)) (e : PrefixEntry F)
      → get_elem? (es ++ (e ∷ [])) (length es) ≡ some e
  get_elem?-length [] e = refl
  get_elem?-length (x ∷ es) e = get_elem?-length es e

  take-length-append :
      (es : List (PrefixEntry F)) (e : PrefixEntry F) → take (length es) (es ++ (e ∷ [])) ≡ es
  take-length-append [] e = refl
  take-length-append (x ∷ es) e = ap (◌∷◌ x) (take-length-append es e)

  room_after :
      (total limit mem : ℕ) (es : List (PrefixEntry F)) (e : PrefixEntry F)
      → (total + mem ≤ limit) ⊎ (es ≡ [])
      → (add_size total mem ≤ limit) ⊎ (length (es ++ (e ∷ [])) ≡ 1)
  room_after total limit mem es e (inl fits) = inl (omega arith)
  room_after total limit mem es e (inr none_left) = inr (rw none_left refl)

  -- Inserting tokens that the cache does not hold.
  insert_new_lem :
      (c : SharedPrefixCache F) (tokens : List ℕ) (snap : KvStoreSnapshot F)
      → IsValid c
      → 0 < length tokens
      → All (λ e. e.tokens ≢ tokens) c.entries
      → sum_memory c.entries + memory_bytes snap < 2 ^ 64
      → (c' : SharedPrefixCache F) × (insert_new hash c tokens snap (memory_bytes snap) ≡ some c')
        × Inserted c c' tokens snap
  unfolding insert_new
  insert_new_lem c tokens snap v pos fresh small =
      let (d, evicted, run, ev) = evict_lru-Evicted c (memory_bytes snap) v.total small in
      let e = entry_of c tokens snap in
      (
        record d {
          entries = d.entries ++ (e ∷ []);
          total_memory = add_size d.total_memory (memory_bytes snap);
        },
        rw run refl,
        record {
          valid = record {
            entries_valid = rw ev.clock (
                All-append (EntryValid c.access_clock) d.entries (e ∷ [])
                  (evict_lru-All (EntryValid c.access_clock) c d (memory_bytes snap) run
                    v.entries_valid)
                  (
                    record { hashed = refl; nonempty = pos; sized = refl; accessed = omega arith },
                    tt,
                  ));
            total = omega (arith, ev.memory, ev.bound, sum_memory-append d.entries (e ∷ []));
          };
          stored = (
            length d.entries,
            e,
            get_elem?-length d.entries e,
            refl,
            refl,
            rw (take-length-append d.entries e)
                (evict_lru-All (λ x. x.tokens ≢ tokens) c d (memory_bytes snap) run fresh),
          );
          budget = λ _.
              room_after d.total_memory c.max_memory_bytes (memory_bytes snap) d.entries e ev.room;
          limit = ev.limit;
        },
      )

  take-set :
      (es : List (PrefixEntry F)) (j : ℕ) (e : PrefixEntry F) → take j (set es j e) ≡ take j es
  take-set [] zero e = refl
  take-set [] (suc j) e = refl
  take-set (x ∷ es) zero e = refl
  take-set (x ∷ es) (suc j) e = ap (◌∷◌ x) (take-set es j e)

  get_elem?-set :
      (es : List (PrefixEntry F)) (j : ℕ) (x e : PrefixEntry F)
      → get_elem? es j ≡ some x
      → get_elem? (set es j e) j ≡ some e
  get_elem?-set [] j x e h = cc
  get_elem?-set (y ∷ es) zero x e h = refl
  get_elem?-set (y ∷ es) (suc j) x e h = get_elem?-set es j x e h

  not_absent :
      (tokens : List ℕ) (es : List (PrefixEntry F)) (j : ℕ) (e : PrefixEntry F)
      → get_elem? es j ≡ some e
      → e.tokens ≡ tokens
      → ¬ All (λ e'. e'.tokens ≢ tokens) es
  not_absent tokens [] j e at same none_same = cc
  not_absent tokens (x ∷ es) zero e at same none_same =
      none_same.0 (ap (λ (o : PrefixEntry F). o.tokens) (some-injective x e at) ∙ same)
  not_absent tokens (x ∷ es) (suc j) e at same none_same =
      not_absent tokens es j e at same none_same.1

  -- Inserting tokens that the cache holds.
  update_at_lem :
      (c : SharedPrefixCache F) (tokens : List ℕ) (snap : KvStoreSnapshot F) (j : ℕ)
      (e : PrefixEntry F)
      → IsValid c
      → get_elem? c.entries j ≡ some e
      → e.tokens ≡ tokens
      → 0 < length tokens
      → All (λ e'. e'.tokens ≢ tokens) (take j c.entries)
      → sum_memory c.entries + memory_bytes snap < 2 ^ 64
      → (c' : SharedPrefixCache F) × (update_at c j snap (memory_bytes snap) ≡ some c')
        × Inserted c c' tokens snap
  unfolding update_at
  update_at_lem c tokens snap j e v at same pos first small =
      let mem = memory_bytes snap in
      let e' = record e { snapshot = snap; memory_bytes = mem; last_access = c.access_clock } in
      let c' = record c {
        entries = set c.entries j e';
        total_memory = add_size (c.total_memory - e.memory_bytes) mem;
      } in
      let old = All-get_elem? (EntryValid c.access_clock) c.entries j v.entries_valid at in
      (
        c',
        rw at refl,
        record {
          valid = record {
            entries_valid =
                All-set (EntryValid c.access_clock) c.entries j e' v.entries_valid (record {
                  hashed = old.hashed;
                  nonempty = old.nonempty;
                  sized = refl;
                  accessed = omega arith;
                });
            total =
                omega
                  (arith, v.total, sum_memory-set c.entries j e e' at, memory-le c.entries j e at);
          };
          stored = (
            j,
            e',
            get_elem?-set c.entries j e e' at,
            same,
            refl,
            rw (take-set c.entries j e') first,
          );
          budget = λ absent. absurd (not_absent tokens c.entries j e at same absent);
          limit = refl;
        },
      )

  -- The cache when the clock has moved.
  abbrev ticked : SharedPrefixCache F → SharedPrefixCache F
  ticked c = record c { access_clock = add_size c.access_clock 1 }

  ticked-IsValid :
      (c : SharedPrefixCache F) → IsValid c → c.access_clock + 1 < 2 ^ 64 → IsValid (ticked c)
  ticked-IsValid c v h = record {
    entries_valid =
        All-later c.access_clock (add_size c.access_clock 1) c.entries (omega arith)
          v.entries_valid;
    total = v.total;
  }

  ticked-Inserted :
      {c c' : SharedPrefixCache F} {tokens : List ℕ} {snap : KvStoreSnapshot F}
      → Inserted (ticked c) c' tokens snap
      → Inserted c c' tokens snap
  ticked-Inserted i = record {
    valid = i.valid;
    stored = i.stored;
    budget = i.budget;
    limit = i.limit;
  }

  -- The two ways of `insert`, chosen by what `position` found.
  abbrev insert_by :
      SharedPrefixCache F → List ℕ → KvStoreSnapshot F → Option ℕ → Option (SharedPrefixCache F)
  insert_by c tokens snap r = elim r [
    | some idx ↦ update_at c idx snap (memory_bytes snap)
    | none ↦ insert_new hash c tokens snap (memory_bytes snap)
  ]

  insert_by_lem :
      (c : SharedPrefixCache F) (tokens : List ℕ) (snap : KvStoreSnapshot F) (r : Option ℕ)
      → Found tokens 0 c.entries r
      → IsValid c
      → 0 < length tokens
      → sum_memory c.entries + memory_bytes snap < 2 ^ 64
      → (c' : SharedPrefixCache F) × (insert_by c tokens snap r ≡ some c')
        × Inserted c c' tokens snap
  insert_by_lem c tokens snap r (Found.absent fresh) v pos small =
      insert_new_lem c tokens snap v pos fresh small
  insert_by_lem c tokens snap r (Found.present _ j e eq at same first) v pos small =
      rw (eq, zero-add) (update_at_lem c tokens snap j e v at same pos first small)

  -- A valid cache takes in tokens and the snapshot of their KV store without a panic, and stays
  -- valid; the first entry with the tokens holds that snapshot; and if the tokens were new, the
  -- cache is within its budget, or the new entry is alone in it. The sums and the clock must not
  -- reach 2 ^ 64.
  pub insert-Inserted :
      (c : SharedPrefixCache F) (tokens : List ℕ) (kv : KvStore F)
      → IsValid c
      → 0 < length tokens
      → 0 < c.max_memory_bytes
      → sum_memory c.entries + memory_bytes (snapshot kv) < 2 ^ 64
      → c.access_clock + 1 < 2 ^ 64
      → (c' : SharedPrefixCache F) × (insert hash c tokens kv ≡ some c')
        × Inserted c c' tokens (snapshot kv)
  unfolding insert
  insert-Inserted c [] kv v pos on small clock = elim pos [ ]
  insert-Inserted c (t ∷ ts) kv v pos on small clock =
      let tokens = t ∷ ts in
      let found =
        position-Found tokens 0 c.entries
          (IsValid-HashValid c.access_clock c.entries v.entries_valid) in
      let (c', run, done) =
        insert_by_lem (ticked c) tokens (snapshot kv) (position hash tokens 0 c.entries) found
          (ticked-IsValid c v clock) pos small in
      (c', rw (positive on) run, ticked-Inserted done)
    where
      positive : {n : ℕ} → 0 < n → (n == 0) ≡ false
      positive h = ground arith
