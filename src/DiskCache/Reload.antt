-- ===== src/DiskCache/Reload.antt =====
-- The keys and values in a cache file of crates/backends/backend_common/src/prefix_cache.rs, written and read.
use herbert_rs.Prelude.{
  ℕ, zero, suc, ◌/◌, ◌%◌, ◌^◌, ◌≤◌, ◌<◌, ◌≡◌, refl, ap, subst, some, List, [], ◌∷◌, ◌++◌, map,
  length, take, length-take, All, arith, le→ltb, le→leb, append_assoc,
}
use herbert_rs.DiskCache.Format.{
  to_le_bytes, from_le_bytes, u16_bytes, one_layer_bytes, all_layer_bytes, read_u16s, read_layers,
}

-- The elements are `u16`s.
abbrev pub Words : List ℕ → Type 0
Words = All (λ x. x < 2 ^ 16)

two_bytes : (x : ℕ) → x < 2 ^ 16 → from_le_bytes (x % 256 ∷ x / 256 % 256 ∷ []) ≡ x
unfolding from_le_bytes
two_bytes x lt = omega arith

read_u16s-u16_bytes :
    (xs rest : List ℕ) → Words xs → read_u16s (length xs) (u16_bytes xs ++ rest) ≡ some (xs, rest)
unfolding read_u16s u16_bytes to_le_bytes
read_u16s-u16_bytes [] rest h = refl
read_u16s-u16_bytes (x ∷ xs) rest h =
    rw (read_u16s-u16_bytes xs rest h.1) (ap (λ y. some (y ∷ xs, rest)) (two_bytes x h.0))

-- A layer with at least `elems` keys and as many values.
pub record HoldsElems (elems : ℕ) (ks vs : List ℕ) : Type 0 where
  pub keys_enough : elems ≤ length ks
  pub values_enough : elems ≤ length vs
  pub keys_words : Words ks
  pub values_words : Words vs

abbrev pub AllHold : ℕ → List (List ℕ) → List (List ℕ) → Type 0
AllHold elems [] [] = Unit
AllHold elems (ks ∷ keys) (vs ∷ values) = HoldsElems elems ks vs × AllHold elems keys values
AllHold elems (ks ∷ keys) [] = ⊥
AllHold elems [] (vs ∷ values) = ⊥

Words-take : (n : ℕ) (xs : List ℕ) → Words xs → Words (take n xs)
Words-take zero xs h = tt
Words-take (suc n) [] h = tt
Words-take (suc n) (x ∷ xs) h = (h.0, Words-take n xs h.1)

read_front :
    (elems : ℕ) (xs rest : List ℕ)
    → elems ≤ length xs
    → Words xs
    → read_u16s elems (u16_bytes (take elems xs) ++ rest) ≡ some (take elems xs, rest)
read_front elems xs rest le h =
    subst (λ n. read_u16s n (u16_bytes (take elems xs) ++ rest) ≡ some (take elems xs, rest))
      (omega (arith, length-take elems xs))
      (read_u16s-u16_bytes (take elems xs) rest (Words-take elems xs h))

-- If each layer holds at least `elems` `u16`s of keys and of values, all layers are written without a panic, and
-- reading the bytes gives the first `elems` keys and values of every layer.
pub read_layers-all_layer_bytes :
    (elems : ℕ) (keys values : List (List ℕ))
    → AllHold elems keys values
    → (bytes : List ℕ) × (all_layer_bytes (length keys) elems keys values ≡ some bytes)
      × (read_layers (length keys) elems bytes
          ≡ some (map (take elems) keys, map (take elems) values))
unfolding read_layers all_layer_bytes one_layer_bytes
read_layers-all_layer_bytes elems [] [] h = ([], refl, refl)
read_layers-all_layer_bytes elems (ks ∷ keys) (vs ∷ values) h =
    let (bytes, run, back) = read_layers-all_layer_bytes elems keys values h.1 in
    let kb = u16_bytes (take elems ks) in
    let vb = u16_bytes (take elems vs) in
    (
      (kb ++ vb) ++ bytes,
      rw (le→leb elems (length ks) h.0.keys_enough, le→ltb (length vs) elems h.0.values_enough, run)
          refl,
      rw
          (
            append_assoc kb vb bytes,
            read_front elems ks (vb ++ bytes) h.0.keys_enough h.0.keys_words,
            read_front elems vs bytes h.0.values_enough h.0.values_words,
            back,
          )
          refl,
    )
read_layers-all_layer_bytes elems (ks ∷ keys) [] h = absurd h
read_layers-all_layer_bytes elems [] (vs ∷ values) h = absurd h
