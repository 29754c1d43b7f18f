-- ===== src/SharedCache.antt =====
-- crates/backends/backend_common/src/shared_prefix_cache.rs: the in-memory prefix cache. A call
-- takes the state that the mutex guards and returns the new one; a call holds the lock throughout,
-- so calls follow one another. `none` is a panic. Log lines are left out.
--
-- `hash` stands for `hash_tokens`, the standard library's `DefaultHasher` over the tokens, of which
-- the code uses only that equal tokens have equal hashes. Additions wrap at 2 ^ 64.
pub mod Lookup
pub mod SwapRemove
pub mod Evict
pub mod Insert
pub mod Hits
pub mod Replace
mod Tests
use herbert_rs.Prelude.{
  ℕ, zero, suc, ◌+◌, ◌-◌, ◌%◌, ◌^◌, Bool, true, false, ◌&&◌, ◌||◌, not, Option, none, some, List,
  [], ◌∷◌, ◌++◌, length, take, set, get_elem?, ltb, leb, ◌==◌, if◌then◌else◌, ◌>>=◌,
}
use herbert_rs.Prelude.Tokens.{tokens_eq, is_empty}
use herbert_rs.Kv.{KvStore, KvStoreSnapshot}
use herbert_rs.Kv.Store.{snapshot}
use herbert_rs.Kv.Snapshot.{memory_bytes}

-- `usize` and `u64` addition.
abbrev pub add_size : ℕ → ℕ → ℕ
add_size a b = (a + b) % 2 ^ 64

pub record PrefixEntry (F : Type 0) : Type 0 where
  pub tokens : List ℕ
  pub token_hash : ℕ
  pub snapshot : KvStoreSnapshot F
  pub memory_bytes : ℕ
  pub last_access : ℕ

pub record SharedPrefixCache (F : Type 0) : Type 0 where
  pub entries : List (PrefixEntry F)
  pub total_memory : ℕ
  pub access_clock : ℕ
  pub max_memory_bytes : ℕ

unfoldable pub new : {F : Type 0} → ℕ → SharedPrefixCache F
new max_memory_bytes = record {
  entries = [];
  total_memory = 0;
  access_clock = 0;
  max_memory_bytes = max_memory_bytes;
}

-- `v.swap_remove(i)`: the element at `i`, and the list with the last element in its place.
unfoldable pub swap_remove {ℓ} : {A : Type ℓ} → List A → ℕ → Option (A × List A)
swap_remove xs i = do
  last ← get_elem? xs (length xs - 1)
  x ← get_elem? xs i
  some (x, take (length xs - 1) (set xs i last))

module _ {F : Type 0} where
  -- The fold of `min_by_key`: the first of the smallest. `best` is the position and key so far.
  unfoldable pub min_from : ℕ × ℕ → ℕ → List (PrefixEntry F) → ℕ × ℕ
  min_from best i [] = best
  min_from best i (e ∷ es) =
      min_from (if ltb e.last_access best.1 then (i, e.last_access) else best) (suc i) es

  unfoldable pub lru_index : List (PrefixEntry F) → Option ℕ
  lru_index [] = none
  lru_index (e ∷ es) = some (min_from (0, e.last_access) 1 es).0

  -- The body of the loop of `evict_lru`.
  unfoldable pub evict_one : SharedPrefixCache F → Option (SharedPrefixCache F)
  evict_one c = do
    lru_idx ← lru_index c.entries
    (evicted, entries) ← swap_remove c.entries lru_idx
    some (record c { entries = entries; total_memory = c.total_memory - evicted.memory_bytes })

  -- The loop, on fuel.
  unfoldable pub evict_loop : ℕ → ℕ → SharedPrefixCache F → Option (SharedPrefixCache F)
  evict_loop zero needed_bytes c = none
  evict_loop (suc fuel) needed_bytes c =
      if ltb c.max_memory_bytes (add_size c.total_memory needed_bytes) && not (is_empty c.entries)
      then evict_one c >>= evict_loop fuel needed_bytes
      else some c

  unfoldable pub evict_lru : SharedPrefixCache F → ℕ → Option (SharedPrefixCache F)
  evict_lru c needed_bytes =
      if leb c.max_memory_bytes needed_bytes
      then some (if is_empty c.entries then c else record c { entries = []; total_memory = 0 })
      else evict_loop (suc (length c.entries)) needed_bytes c

  -- What `lookup` does with the `best_idx` and `best_len` of its loop.
  unfoldable pub finish_lookup :
      SharedPrefixCache F
      → ℕ
      → Option ℕ × ℕ
      → Option (SharedPrefixCache F × Option (ℕ × KvStoreSnapshot F))
  finish_lookup c clock best = elim best.0 [
    | none ↦ some (record c { access_clock = clock }, none)
    | some idx ↦ do
      e ← get_elem? c.entries idx
      let entries = set c.entries idx (record e { last_access = clock })
      some (record c { access_clock = clock; entries = entries }, some (best.1, e.snapshot))
  ]

  unfoldable pub update_at :
      SharedPrefixCache F → ℕ → KvStoreSnapshot F → ℕ → Option (SharedPrefixCache F)
  update_at c idx snap mem = do
    e ← get_elem? c.entries idx
    let e' = record e { snapshot = snap; memory_bytes = mem; last_access = c.access_clock }
    some (record c {
      entries = set c.entries idx e';
      total_memory = add_size (c.total_memory - e.memory_bytes) mem;
    })

  module _ (hash : List ℕ → ℕ) where
    -- The loop of `lookup` over the entries from position `i` on.
    unfoldable pub scan : List ℕ → ℕ → Option ℕ × ℕ → List (PrefixEntry F) → Option ℕ × ℕ
    scan tokens i best [] = best
    scan tokens i best (e ∷ es) =
        let elen = length e.tokens in
        scan tokens (suc i)
          (if leb elen best.1 || ltb (length tokens) elen
            then best
            else if not (hash (take elen tokens) == e.token_hash)
            then best
            else if tokens_eq (take elen tokens) e.tokens
            then (some i, elen)
            else best)
          es

    unfoldable pub lookup :
        SharedPrefixCache F → List ℕ → Option (SharedPrefixCache F × Option (ℕ × KvStoreSnapshot F))
    unfolding finish_lookup
    lookup c tokens =
        if is_empty tokens
        then some (c, none)
        else finish_lookup c (add_size c.access_clock 1) (scan tokens 0 (none, 0) c.entries)

    -- The closure of `position`.
    unfoldable pub same_tokens : List ℕ → PrefixEntry F → Bool
    same_tokens tokens e =
        length e.tokens == length tokens && e.token_hash == hash tokens && tokens_eq e.tokens tokens

    unfoldable pub position : List ℕ → ℕ → List (PrefixEntry F) → Option ℕ
    position tokens i [] = none
    position tokens i (e ∷ es) =
        let rest = position tokens (suc i) es in if same_tokens tokens e then some i else rest

    unfoldable pub insert_new :
        SharedPrefixCache F → List ℕ → KvStoreSnapshot F → ℕ → Option (SharedPrefixCache F)
    insert_new c tokens snap mem = do
      c' ← evict_lru c mem
      let entry : PrefixEntry F = record {
        tokens = tokens;
        token_hash = hash tokens;
        snapshot = snap;
        memory_bytes = mem;
        last_access = c.access_clock;
      }
      some (record c' {
        entries = c'.entries ++ (entry ∷ []);
        total_memory = add_size c'.total_memory mem;
      })

    unfoldable pub insert : SharedPrefixCache F → List ℕ → KvStore F → Option (SharedPrefixCache F)
    insert c tokens kv_store =
        if is_empty tokens || c.max_memory_bytes == 0
        then some c
        else (let snap = snapshot kv_store in
            let mem = memory_bytes snap in
            let ticked = record c { access_clock = add_size c.access_clock 1 } in
            elim (position tokens 0 c.entries) [
              | some idx ↦ update_at ticked idx snap mem
              | none ↦ insert_new ticked tokens snap mem
            ])

  unfoldable pub len : SharedPrefixCache F → ℕ
  len c = length c.entries

  unfoldable pub is_empty_cache : SharedPrefixCache F → Bool
  is_empty_cache c = len c == 0
