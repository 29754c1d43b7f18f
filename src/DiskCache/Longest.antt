-- ===== src/DiskCache/Longest.antt =====
-- `lookup` of crates/backends/backend_common/src/prefix_cache.rs, over an index in descending order of length.
use herbert_rs.Prelude.{
  ℕ, ◌+◌, ◌≤◌, ◌≡◌, refl, sym, ◌∙◌, inl, inr, true, false, Option, none, some, List, [], ◌∷◌,
  length, take, All, arith, ltb, ltb→lt, ltb-false, leb, leb→le, leb-false, ◌==◌, ==_iff,
  Bool-cases,
}
use herbert_rs.Prelude.Text.{Text}
use herbert_rs.DiskCache.Index.{IndexEntry, PrefixCache, Files, exists_file, insert_desc, sort_desc}
use herbert_rs.DiskCache.{lookup_from, lookup}

-- Longest first.
abbrev pub Descends : List IndexEntry → Type 0
Descends [] = Unit
Descends (e ∷ es) = All (λ x. x.prefix_len ≤ e.prefix_len) es × Descends es

All-insert_desc :
    (P : IndexEntry → Type 0) (e : IndexEntry) (es : List IndexEntry)
    → P e
    → All P es
    → All P (insert_desc e es)
unfolding insert_desc
All-insert_desc P e [] p h = (p, tt)
All-insert_desc P e (x ∷ xs) p h = elim (Bool-cases (leb x.prefix_len e.prefix_len)) [
  | inl first ↦ rw first (p, h)
  | inr later ↦ rw later (h.0, All-insert_desc P e xs p h.1)
]

insert_desc-Descends :
    (e : IndexEntry) (es : List IndexEntry) → Descends es → Descends (insert_desc e es)
unfolding insert_desc
insert_desc-Descends e [] h = (tt, tt)
insert_desc-Descends e (x ∷ xs) h = elim (Bool-cases (leb x.prefix_len e.prefix_len)) [
  | inl first ↦ rw first (
    (
      leb→le x.prefix_len e.prefix_len first,
      shorter e.prefix_len x xs (leb→le x.prefix_len e.prefix_len first) h.0,
    ),
    h,
  )
  | inr later ↦ rw later (
    All-insert_desc (λ y. y.prefix_len ≤ x.prefix_len) e xs
        (omega (arith, leb-false x.prefix_len e.prefix_len later)) h.0,
    insert_desc-Descends e xs h.1,
  )
]
  where
    shorter :
        (n : ℕ) (x : IndexEntry) (xs : List IndexEntry)
        → x.prefix_len ≤ n
        → All (λ y. y.prefix_len ≤ x.prefix_len) xs
        → All (λ (y : IndexEntry). y.prefix_len ≤ n) xs
    shorter n x [] le k = tt
    shorter n x (y ∷ ys) le k = (omega (arith, k.0), shorter n x ys le k.1)

-- The index is in this order after every sort.
pub sort_desc-Descends : (es : List IndexEntry) → Descends (sort_desc es)
unfolding sort_desc
sort_desc-Descends [] = tt
sort_desc-Descends (e ∷ es) = insert_desc-Descends e (sort_desc es) (sort_desc-Descends es)

module _ (hash : List ℕ → ℕ) where
  -- An entry that a lookup may answer with: not longer than the tokens, of their hash, and with its file.
  pub record Matches (fs : Files) (tokens : List ℕ) (e : IndexEntry) : Type 0 where
    pub short : e.prefix_len ≤ length tokens
    pub same_hash : hash (take e.prefix_len tokens) ≡ e.token_hash
    pub there : exists_file fs e.file_name ≡ true

  -- The hit is on a longest entry that matches; on a miss none matches.
  abbrev pub Hit : Files → List ℕ → List IndexEntry → Option (ℕ × Text) → Type 0
  Hit fs tokens es none = All (λ e. ¬ (Matches fs tokens e)) es
  Hit fs tokens es (some (len, name)) =
      (e : IndexEntry) × Matches fs tokens e
      × (e.prefix_len ≡ len)
      × (e.file_name ≡ name)
      × All (λ x. Matches fs tokens x → x.prefix_len ≤ len) es

  skip :
      (fs : Files) (tokens : List ℕ) (e : IndexEntry) (es : List IndexEntry)
      (hit : Option (ℕ × Text))
      → ¬ (Matches fs tokens e)
      → Hit fs tokens es hit
      → Hit fs tokens (e ∷ es) hit
  skip fs tokens e es none fails h = (fails, h)
  skip fs tokens e es (some hit) fails (x, m, len, name, all) =
      (x, m, len, name, ((λ k. absurd (fails k)), all))

  lookup_from-Hit :
      (clock : ℕ) (fs : Files) (tokens : List ℕ) (es : List IndexEntry)
      → Descends es
      → Hit fs tokens es (lookup_from hash clock fs tokens es).1
  unfolding lookup_from
  lookup_from-Hit clock fs tokens [] d = tt
  lookup_from-Hit clock fs tokens (e ∷ es) d =
      let rest = lookup_from-Hit clock fs tokens es d.1 in
      elim (Bool-cases (ltb (length tokens) e.prefix_len)) [
        | inl long ↦
            rw long (skip fs tokens e es _ (λ m. omega (arith, m.short, ltb→lt _ _ long)) rest)
        | inr short ↦ elim (Bool-cases (hash (take e.prefix_len tokens) == e.token_hash)) [
          | inr other ↦
              rw (short, other)
                (skip fs tokens e es _ (λ m. clash (sym ((==_iff _ _).1 m.same_hash) ∙ other)) rest)
          | inl same ↦ elim (Bool-cases (exists_file fs e.file_name)) [
            | inr gone ↦
                rw (short, same, gone)
                  (skip fs tokens e es _ (λ m. clash (sym m.there ∙ gone)) rest)
            | inl there ↦
                rw (short, same, there)
                  (
                    e,
                    record {
                      short = ltb-false _ _ short;
                      same_hash = (==_iff _ _).0 same;
                      there = there;
                    },
                    refl,
                    refl,
                    ((λ m. omega arith), later e.prefix_len es d.0),
                  )
          ]
        ]
      ]
    where
      clash : true ≡ false → ⊥
      clash k = cc

      later :
          (n : ℕ) (xs : List IndexEntry)
          → All (λ x. x.prefix_len ≤ n) xs
          → All (λ x. Matches fs tokens x → x.prefix_len ≤ n) xs
      later n [] k = tt
      later n (x ∷ xs) k = ((λ m. k.0), later n xs k.1)

  -- Over an index in descending order, which every sort makes, and for at least the least number of tokens, a lookup
  -- answers with a longest entry that is not longer than the tokens, has the hash of as many of them, and has its
  -- file; and with a miss if there is no such entry.
  pub lookup-Hit :
      (c : PrefixCache) (fs : Files) (tokens : List ℕ)
      → Descends c.index
      → c.config.min_prefix_len ≤ length tokens
      → Hit fs tokens c.index (lookup hash c fs tokens).1
  unfolding lookup
  lookup-Hit c fs tokens d enough =
      rw (long_enough) (lookup_from-Hit (c.access_clock + 1) fs tokens c.index d)
    where
      long_enough : ltb (length tokens) c.config.min_prefix_len ≡ false
      long_enough = ground arith
