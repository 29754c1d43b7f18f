-- ===== src/SharedCache/Tests.antt =====
-- Runs of the in-memory prefix cache, and its theorems at them.
use mathlib.Core.List.{map}
use herbert_rs.Prelude.{ℕ, ◌*◌, ◌++◌, ◌≡◌, refl, false, Option, some, List, [], ◌∷◌, length, arith}
use herbert_rs.Prelude.Tokens.{tokens_eq}
use herbert_rs.Kv.{
  KvStore, KvStoreSnapshot, KvLayerData, KvQuantType, sum_bytes, layer_bytes, layers_bytes,
}
use herbert_rs.Kv.Store.{snapshot}
use herbert_rs.Kv.Snapshot.{memory_bytes}
use herbert_rs.SharedCache.{
  PrefixEntry, SharedPrefixCache, new, swap_remove, min_from, lru_index, evict_one, evict_loop,
  evict_lru, finish_lookup, scan, lookup, same_tokens, position, insert_new, update_at, insert,
}
use herbert_rs.SharedCache.Evict.{Evicted, evict_lru-Evicted}
use herbert_rs.SharedCache.Lookup.{Answer, content, lookup_longest}
use herbert_rs.SharedCache.Insert.{IsValid, Inserted, insert-Inserted}
use herbert_rs.SharedCache.Hits.{lookup-insert}

program : Unit {0}
unfolding tokens_eq sum_bytes layer_bytes layers_bytes snapshot memory_bytes new swap_remove
    min_from lru_index evict_one evict_loop evict_lru finish_lookup scan lookup same_tokens position
    insert_new update_at insert
program = tt

-- Every two sequences collide, so that only the full comparison tells them apart.
abbrev hash : List ℕ → ℕ
hash tokens = 7

-- One head of one layer, of dimension 1, in bf16.
abbrev store : List ℕ → KvStore ℕ
store ks = record {
  kv_quant = KvQuantType.bf16;
  layer_data = KvLayerData.bf16 (ks ∷ []) (ks ∷ []) ∷ [];
  keys = ks ∷ [];
  values = ks ∷ [];
  num_kv_heads = 1;
  head_dim = 1;
  seq_len = 2;
  kv_dim = 1;
  text_pos = 0;
  conv_cache = [];
  deltanet_recurrent = [];
  deltanet_conv = [];
  bidirectional = false;
}

abbrev entry : List ℕ → List ℕ → ℕ → PrefixEntry ℕ
entry tokens ks clock = record {
  tokens = tokens;
  token_hash = 7;
  snapshot = record {
    kv_quant = KvQuantType.bf16;
    layer_data = KvLayerData.bf16 (ks ∷ []) (ks ∷ []) ∷ [];
    keys = ks ∷ [];
    values = ks ∷ [];
    num_kv_heads = 1;
    head_dim = 1;
    seq_len = 2;
    kv_dim = 1;
  };
  memory_bytes = 8 * length ks;
  last_access = clock;
}

-- Two entries of 16 bytes in a cache of 40.
abbrev two : SharedPrefixCache ℕ
two = record {
  entries = entry (1 ∷ 2 ∷ []) (5 ∷ 6 ∷ []) 2 ∷ entry (1 ∷ 2 ∷ 3 ∷ []) (7 ∷ 8 ∷ []) 1 ∷ [];
  total_memory = 32;
  access_clock = 2;
  max_memory_bytes = 40;
}

two-IsValid : IsValid hash two
unfolding program
two-IsValid = record {
  entries_valid = (
    record { hashed = refl; nonempty = omega arith; sized = refl; accessed = omega arith },
    (record { hashed = refl; nonempty = omega arith; sized = refl; accessed = omega arith }, tt),
  );
  total = refl;
}

-- The longer of two prefixes is found, and a third entry takes the place of the older one.
longest :
    (lookup hash two (1 ∷ 2 ∷ 3 ∷ 4 ∷ [])
      ≡ some (
        record two {
          access_clock = 3;
          entries = entry (1 ∷ 2 ∷ []) (5 ∷ 6 ∷ []) 2 ∷ entry (1 ∷ 2 ∷ 3 ∷ []) (7 ∷ 8 ∷ []) 3 ∷ [];
        },
        some (3, (entry (1 ∷ 2 ∷ 3 ∷ []) (7 ∷ 8 ∷ []) 1).snapshot),
      ))
unfolding program
longest = refl

fitting :
    insert hash two (9 ∷ []) (store (1 ∷ []))
    ≡ some (record two {
      access_clock = 3;
      total_memory = 40;
      entries = two.entries ++ (entry (9 ∷ []) (1 ∷ []) 3 ∷ []);
    })
unfolding program
fitting = refl

evicting :
    insert hash two (9 ∷ []) (store (1 ∷ 2 ∷ []))
    ≡ some (record two {
      access_clock = 3;
      entries = entry (1 ∷ 2 ∷ []) (5 ∷ 6 ∷ []) 2 ∷ entry (9 ∷ []) (1 ∷ 2 ∷ []) 3 ∷ [];
    })
unfolding program
evicting = refl

lookup_longest_example :
    (c' : SharedPrefixCache ℕ) × (answer : Option (ℕ × KvStoreSnapshot ℕ)) × (lookup hash two
        (1 ∷ 2 ∷ 3 ∷ 4 ∷ [])
      ≡ some (c', answer))
    × Answer hash two (1 ∷ 2 ∷ 3 ∷ 4 ∷ []) answer
    × (map (content hash) c'.entries ≡ map (content hash) two.entries)
    × (c'.total_memory ≡ two.total_memory)
    × (c'.max_memory_bytes ≡ two.max_memory_bytes)
lookup_longest_example = lookup_longest hash two (1 ∷ 2 ∷ 3 ∷ 4 ∷ []) (refl, (refl, tt))

evict_lru-Evicted_example :
    (c' : SharedPrefixCache ℕ) × (evicted : List (PrefixEntry ℕ)) × (evict_lru two 20 ≡ some c')
    × Evicted two c' 20 evicted
evict_lru-Evicted_example = evict_lru-Evicted two 20 refl (omega arith)

insert-Inserted_example :
    (c' : SharedPrefixCache ℕ) × (insert hash two (9 ∷ []) (store (1 ∷ 2 ∷ [])) ≡ some c')
    × Inserted hash two c' (9 ∷ []) (snapshot (store (1 ∷ 2 ∷ [])))
unfolding program
insert-Inserted_example =
    insert-Inserted hash two (9 ∷ []) (store (1 ∷ 2 ∷ [])) two-IsValid (omega arith) (omega arith)
      (omega arith) (omega arith)

lookup-insert_example :
    (c' c'' : SharedPrefixCache ℕ) × (insert hash two (9 ∷ []) (store (1 ∷ 2 ∷ [])) ≡ some c')
    × (lookup hash c' (9 ∷ []) ≡ some (c'', some (1, snapshot (store (1 ∷ 2 ∷ [])))))
unfolding program
lookup-insert_example =
    lookup-insert hash two (9 ∷ []) (store (1 ∷ 2 ∷ [])) two-IsValid (omega arith) (omega arith)
      (omega arith) (omega arith)
