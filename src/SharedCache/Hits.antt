-- ===== src/SharedCache/Hits.antt =====
-- Insertions and lookups of crates/backends/backend_common/src/shared_prefix_cache.rs together.
use mathlib.Core.Option.{some-injective}
use herbert_rs.Prelude.{
  ℕ, ◌+◌, ◌^◌, ◌≤◌, ◌<◌, ◌≡◌, ◌≢◌, refl, ap, ap₂, ◌∙◌, sym, inl, inr, Option, some, List, take,
  length, get_elem?, All, ltb, arith, Bool-cases, ltb→lt, ltb-false, take-length, take_of_length-le,
  All-get_elem?, get_elem?-take,
}
use herbert_rs.Kv.{KvStore, KvStoreSnapshot}
use herbert_rs.Kv.Store.{snapshot}
use herbert_rs.Kv.Snapshot.{memory_bytes}
use herbert_rs.SharedCache.{PrefixEntry, SharedPrefixCache, lookup, insert}
use herbert_rs.SharedCache.Evict.{sum_memory}
use herbert_rs.SharedCache.Lookup.{Matches, Answer, lookup_longest}
use herbert_rs.SharedCache.Insert.{IsValid, IsValid-HashValid, insert-Inserted}

module _ {F : Type 0} (hash : List ℕ → ℕ) where
  -- The first entry with the tokens is at `j`, and is `e`.
  abbrev pub FirstAt : SharedPrefixCache F → List ℕ → ℕ → PrefixEntry F → Type 0
  FirstAt c tokens j e =
      (get_elem? c.entries j ≡ some e)
      × (e.tokens ≡ tokens)
      × All (λ (x : PrefixEntry F). x.tokens ≢ tokens) (take j c.entries)

  -- A match at least as long as the tokens is the tokens.
  full_match :
      (tokens : List ℕ) (x : PrefixEntry F)
      → Matches tokens x
      → length tokens ≤ length x.tokens
      → x.tokens ≡ tokens
  full_match tokens x m le = sym m ∙ take_of_length-le (length x.tokens) tokens le

  self_match : (tokens : List ℕ) (e : PrefixEntry F) → e.tokens ≡ tokens → Matches tokens e
  self_match tokens e same = rw (same) (take-length tokens)

  same_place :
      (es : List (PrefixEntry F)) (tokens : List ℕ) (i j : ℕ) (x e : PrefixEntry F)
      → get_elem? es i ≡ some x
      → get_elem? es j ≡ some e
      → x.tokens ≡ tokens
      → e.tokens ≡ tokens
      → All (λ (y : PrefixEntry F). y.tokens ≢ tokens) (take j es)
      → All
          (λ (y : PrefixEntry F). Matches tokens y → length y.tokens < length x.tokens)
          (take i es)
      → x ≡ e
  same_place es tokens i j x e at_i at_j same_x same_e first_j first_i =
      elim (Bool-cases (ltb i j)) [
        | inl before ↦ absurd (
            All-get_elem? (λ (y : PrefixEntry F). y.tokens ≢ tokens) (take j es) i first_j
              (get_elem?-take j es i (ltb→lt i j before) ∙ at_i) same_x)
        | inr not_before ↦ elim (Bool-cases (ltb j i)) [
          | inl after ↦ absurd (
              omega (
                arith,
                All-get_elem?
                    (λ (y : PrefixEntry F). Matches tokens y → length y.tokens < length x.tokens)
                    (take i es) j first_i (get_elem?-take i es j (ltb→lt j i after) ∙ at_j)
                    (self_match tokens e same_e),
                ap (λ (t : List ℕ). length t) same_x,
                ap (λ (t : List ℕ). length t) same_e,
              ))
          | inr not_after ↦ some-injective x e (
              sym at_i
              ∙ ap (get_elem? es) (omega (arith, ltb-false i j not_before, ltb-false j i not_after))
              ∙ at_j)
        ]
      ]

  Answer-FirstAt :
      (c : SharedPrefixCache F) (tokens : List ℕ) (j : ℕ) (e : PrefixEntry F)
      (answer : Option (ℕ × KvStoreSnapshot F))
      → 0 < length tokens
      → FirstAt c tokens j e
      → Answer hash c tokens answer
      → answer ≡ some (length tokens, e.snapshot)
  Answer-FirstAt c tokens j e answer pos (at, same, first) (Answer.miss all) = absurd (
      omega (
        arith,
        All-get_elem? (λ (y : PrefixEntry F). Matches tokens y → length y.tokens ≡ 0) c.entries j
            all at (self_match tokens e same),
        ap (λ (t : List ℕ). length t) same,
      ))
  Answer-FirstAt c tokens j e answer pos (at, same, first) (Answer.hit i x at_i m lt all first_i) =
      let le =
        All-get_elem? (λ (y : PrefixEntry F). Matches tokens y → length y.tokens ≤ length x.tokens)
          c.entries j all at (self_match tokens e same) in
      let same_x = full_match tokens x m (omega (arith, le, ap (λ (t : List ℕ). length t) same)) in
      let one = same_place c.entries tokens i j x e at_i at same_x same first first_i in
      ap₂ (λ (n : ℕ) (s : KvStoreSnapshot F). some (n, s)) (ap (λ (t : List ℕ). length t) same_x)
        (ap (λ (y : PrefixEntry F). y.snapshot) one)

  -- After an insertion into a valid cache that is switched on, a lookup of the same tokens is a hit on
  -- all of them and returns the snapshot of the store that was inserted. The sums and the clock must
  -- not reach 2 ^ 64.
  pub lookup-insert :
      (c : SharedPrefixCache F) (tokens : List ℕ) (kv : KvStore F)
      → IsValid hash c
      → 0 < length tokens
      → 0 < c.max_memory_bytes
      → sum_memory c.entries + memory_bytes (snapshot kv) < 2 ^ 64
      → c.access_clock + 1 < 2 ^ 64
      → (c' c'' : SharedPrefixCache F) × (insert hash c tokens kv ≡ some c')
        × (lookup hash c' tokens ≡ some (c'', some (length tokens, snapshot kv)))
  lookup-insert c tokens kv v pos on small clock =
      let (c', run, done) = insert-Inserted hash c tokens kv v pos on small clock in
      let (j, e, at, same, held, first) = done.stored in
      let (c'', answer, found, promise, _, _, _) =
        lookup_longest hash c' tokens
          (IsValid-HashValid hash c'.access_clock c'.entries done.valid.entries_valid) in
      let exact = Answer-FirstAt c' tokens j e answer pos (at, same, first) promise in
      (c', c'', run, rw (found, exact, held) refl)
