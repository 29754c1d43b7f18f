-- ===== src/Kv/Quant/Packing.antt =====
-- `pack_i4_group` and `unpack_i4_group` of crates/backends/backend_common/src/kv_cache.rs.
use Prim.Native.Nat.{bit_or}
use herbert_rs.Prelude.{
  ℕ, zero, suc, ◌+◌, ◌-◌, ◌*◌, ◌/◌, ◌%◌, ◌^◌, ◌≤◌, ◌<◌, ◌≡◌, ◌≢◌, refl, ap, ◌∙◌, ◌⊎◌, inl, inr,
  Bool, true, ◌&&◌, some, List, length, get_elem?, get_or, set, length-set, get_elem?-set_self,
  get_elem?-set_ne, get_elem?-eq-get_or, ◌==◌, ltb, Bool-cases, ltb→lt, ltb-false, arith,
  for_range_inv, write_at_lem,
}
use herbert_rs.Prelude.Int.{sub_ℕ}
use herbert_rs.Floats.{Floats}
use herbert_rs.Kv.Quant.{
  quantize_i4, pack_byte, pack_i4_group, low_value, high_value, unpack_i4_group,
}

-- Every pair of nibbles is checked by evaluation.
holds_below : ℕ → (ℕ → Bool) → Bool
holds_below zero p = true
holds_below (suc n) p = p n && holds_below n p

holds_below_sound : (n : ℕ) (p : ℕ → Bool) (x : ℕ) → holds_below n p ≡ true → x < n → p x ≡ true
unfolding holds_below
holds_below_sound zero p x h lt = elim lt [ ]
holds_below_sound (suc n) p x h lt = ground (arith, holds_below_sound n p x)

abbrev nibbles_back : ℕ → Bool
nibbles_back x =
    bit_or (x % 16) (x / 16 * 2 ^ 4 % 2 ^ 8) % 2 ^ 4 == x % 16
    && bit_or (x % 16) (x / 16 * 2 ^ 4 % 2 ^ 8) / 2 ^ 4 == x / 16

nibbles_table : holds_below 256 nibbles_back ≡ true
unfolding holds_below
nibbles_table = refl

pack_byte_nibbles :
    (lo hi : ℕ)
    → lo < 16
    → hi < 16
    → (pack_byte lo hi % 2 ^ 4 ≡ lo) × (pack_byte lo hi / 2 ^ 4 ≡ hi)
unfolding pack_byte
pack_byte_nibbles lo hi h k =
    let x = hi * 16 + lo in
    let low : x % 16 ≡ lo = omega arith in
    let high : x / 16 ≡ hi = omega arith in
    let both = holds_below_sound 256 nibbles_back x nibbles_table (omega arith) in
    rw (low, high) at (back x both)
  where
    back :
        (x : ℕ)
        → nibbles_back x ≡ true
        → (bit_or (x % 16) (x / 16 * 2 ^ 4 % 2 ^ 8) % 2 ^ 4 ≡ x % 16)
          × (bit_or (x % 16) (x / 16 * 2 ^ 4 % 2 ^ 8) / 2 ^ 4 ≡ x / 16)
    back x h = ground arith

module _ (f : Floats) where
  open f use {F, lit, of_int, mul, neg, clamp, to_i8}

  -- What the code relies on: a value clamped to [-8, 7] casts to an `i8` of that range. (A NaN casts
  -- to 0.)
  abbrev pub ClampCasts : Type 0
  ClampCasts =
      (x : F)
      → (to_i8 (clamp x (neg (lit 8)) (lit 7)) < 8)
        ⊎ ((248 ≤ to_i8 (clamp x (neg (lit 8)) (lit 7)))
            × (to_i8 (clamp x (neg (lit 8)) (lit 7)) < 256))

  quantize_i4-lt : ClampCasts → (x scale : F) → quantize_i4 f x scale < 16
  unfolding quantize_i4
  quantize_i4-lt casts x scale = omega (arith, casts (f.round (f.div x scale)))

  -- The code of element `i` of the group.
  abbrev pub nibble : List F → F → ℕ → ℕ
  nibble src scale i = quantize_i4 f (get_or src i (lit 0)) scale

  abbrev pub Packed : List F → F → ℕ → ℕ → List ℕ → Type 0
  Packed src scale n j d =
      (length d ≡ n)
      × ((i : ℕ)
          → i < j
          → get_elem? d i ≡ some (pack_byte (nibble src scale i) (nibble src scale (i + 16))))

  -- One write adds one byte to those that are right.
  write-Packed :
      (src : List F) (scale : F) (n j : ℕ) (d : List ℕ)
      → j < n
      → Packed src scale n j d
      → Packed src scale n
          (suc j)
          (set d j (pack_byte (nibble src scale j) (nibble src scale (j + 16))))
  write-Packed src scale n j d lt h =
      let byte = λ (i : ℕ). pack_byte (nibble src scale i) (nibble src scale (i + 16)) in
      (
        length-set d j (byte j) ∙ h.0,
        λ i below. elim (Bool-cases (ltb i j)) [
          | inl old ↦
              get_elem?-set_ne d (byte j) (omega (arith, ltb→lt i j old)) ∙ h.1 i (ltb→lt i j old)
          | inr new ↦ at_end (byte) i (omega (arith, ltb-false i j new))
        ],
      )
    where
      at_end : (byte : ℕ → ℕ) (i : ℕ) → i ≡ j → get_elem? (set d j (byte j)) i ≡ some (byte i)
      at_end byte i e = rw e (get_elem?-set_self d j (byte j) (omega (arith, h.0)))

  -- A group of 32 packs into 16 bytes without a panic, byte `i` holding elements `i` and `i + 16`.
  pub pack_i4_group_lem :
      (src : List F) (scale : F) (dst : List ℕ)
      → 32 ≤ length src
      → 16 ≤ length dst
      → (packed : List ℕ) × (pack_i4_group f src scale dst ≡ some packed)
        × Packed src scale (length dst) 16 packed
  unfolding pack_i4_group
  pack_i4_group_lem src scale dst full room =
      for_range_inv (Packed src scale (length dst)) _ 16 0 16 dst refl
        (λ j d lo hi h. (
          set d j (pack_byte (nibble src scale j) (nibble src scale (j + 16))),
          rw
              (
                get_elem?-eq-get_or src j (lit 0) (omega arith),
                get_elem?-eq-get_or src (j + 16) (lit 0) (omega arith),
                write_at_lem d j _ (omega (arith, h.0)),
              )
              refl,
          write-Packed src scale (length dst) j d (omega arith) h,
        ))
        (refl, λ i below. absurd (omega arith))

  -- The number that element `i` of the group is read back as.
  abbrev pub value : List F → F → ℕ → F
  value src scale i = mul (of_int (sub_ℕ (nibble src scale i) 8)) scale

  halves :
      ClampCasts
      → (src : List F) (scale : F) (i : ℕ)
      → (low_value f (pack_byte (nibble src scale i) (nibble src scale (i + 16))) scale
          ≡ value src scale i)
        × (high_value f (pack_byte (nibble src scale i) (nibble src scale (i + 16))) scale
            ≡ value src scale (i + 16))
  unfolding low_value high_value
  halves casts src scale i =
      let back =
        pack_byte_nibbles (nibble src scale i) (nibble src scale (i + 16))
          (quantize_i4-lt casts _ scale) (quantize_i4-lt casts _ scale) in
      (
        ap (λ (n : ℕ). mul (of_int (sub_ℕ n 8)) scale) back.0,
        ap (λ (n : ℕ). mul (of_int (sub_ℕ n 8)) scale) back.1,
      )

  abbrev Unpacked : List F → F → ℕ → ℕ → List F → Type 0
  Unpacked src scale n j d =
      (length d ≡ n)
      × ((i : ℕ)
          → i < j
          → (get_elem? d i ≡ some (value src scale i))
            × (get_elem? d (i + 16) ≡ some (value src scale (i + 16))))

  abbrev write_both : List F → F → ℕ → List F → List F
  write_both src scale j d = set (set d j (value src scale j)) (j + 16) (value src scale (j + 16))

  write-Unpacked :
      (src : List F) (scale : F) (n j : ℕ) (d : List F)
      → j < 16
      → 32 ≤ n
      → Unpacked src scale n j d
      → Unpacked src scale n (suc j) (write_both src scale j d)
  write-Unpacked src scale n j d lt room h = (
    length-set (set d j (v j)) (j + 16) (v (j + 16)) ∙ length-set d j (v j) ∙ h.0,
    λ i below. elim (Bool-cases (ltb i j)) [
      | inl old ↦ (
        keep i (omega (arith, ltb→lt i j old)) (omega arith) ∙ (h.1 i (ltb→lt i j old)).0,
        keep (i + 16) (omega (arith, ltb→lt i j old)) (omega (arith, ltb→lt i j old))
            ∙ (h.1 i (ltb→lt i j old)).1,
      )
      | inr new ↦ at_end i (omega (arith, ltb-false i j new))
    ],
  )
    where
      v : ℕ → F
      v = value src scale

      keep : (i : ℕ) → j ≢ i → j + 16 ≢ i → get_elem? (write_both src scale j d) i ≡ get_elem? d i
      keep i ne ne' =
          get_elem?-set_ne (set d j (v j)) (v (j + 16)) ne' ∙ get_elem?-set_ne d (v j) ne

      at_end :
          (i : ℕ)
          → i ≡ j
          → (get_elem? (write_both src scale j d) i ≡ some (v i))
            × (get_elem? (write_both src scale j d) (i + 16) ≡ some (v (i + 16)))
      at_end i e = rw e (
        get_elem?-set_ne (set d j (v j)) (v (j + 16)) (omega arith)
            ∙ get_elem?-set_self d j (v j) (omega (arith, h.0)),
        get_elem?-set_self (set d j (v j)) (j + 16) (v (j + 16))
            (omega (arith, h.0, length-set d j (v j))),
      )

  unpack_i4_group_lem :
      ClampCasts
      → (src : List F) (scale : F) (n : ℕ) (packed : List ℕ) (dst : List F) → 16 ≤ n
      → 32 ≤ length dst
      → Packed src scale n 16 packed
      → (vals : List F) × (unpack_i4_group f packed scale dst ≡ some vals)
        × Unpacked src scale (length dst) 16 vals
  unfolding unpack_i4_group
  unpack_i4_group_lem casts src scale n packed dst full room p =
      for_range_inv (Unpacked src scale (length dst)) _ 16 0 16 dst refl
        (λ j d lo hi h.
          let byte = pack_byte (nibble src scale j) (nibble src scale (j + 16)) in
          let low = low_value f byte scale in
          let high = high_value f byte scale in
          (
            write_both src scale j d,
            rw
                (
                  p.1 j hi,
                  write_at_lem d j low (omega (arith, h.0)),
                  write_at_lem (set d j low) (j + 16) high (omega (arith, h.0, length-set d j low)),
                  (halves casts src scale j).0,
                  (halves casts src scale j).1,
                )
                refl,
            write-Unpacked src scale (length dst) j d hi room h,
          ))
        (refl, λ i below. absurd (omega arith))

  -- A group of 32 packs and unpacks without a panic, and element `i` comes back as its code, less 8,
  -- times the scale: no two elements disturb one another in the half-split layout.
  pub unpack-pack :
      ClampCasts
      → (src : List F) (scale : F) (dst : List ℕ) (out : List F) → 32 ≤ length src
      → 16 ≤ length dst
      → 32 ≤ length out
      → (packed : List ℕ) × (vals : List F) × (pack_i4_group f src scale dst ≡ some packed)
        × (unpack_i4_group f packed scale out ≡ some vals)
        × (length vals ≡ length out)
        × ((i : ℕ) → i < 32 → get_elem? vals i ≡ some (value src scale i))
  unpack-pack casts src scale dst out full room wide =
      let (packed, run, p) = pack_i4_group_lem src scale dst full room in
      let (vals, back, u) =
        unpack_i4_group_lem casts src scale (length dst) packed out room wide p in
      (
        packed,
        vals,
        run,
        back,
        u.0,
        λ i lt. elim (Bool-cases (ltb i 16)) [
          | inl low ↦ (u.1 i (ltb→lt i 16 low)).0
          | inr high ↦ upper vals u.1 i lt (ltb-false i 16 high)
        ],
      )
    where
      upper :
          (vals : List F)
          → ((i : ℕ)
              → i < 16
              → (get_elem? vals i ≡ some (value src scale i))
                × (get_elem? vals (i + 16) ≡ some (value src scale (i + 16))))
          → (i : ℕ) → i < 32
          → 16 ≤ i
          → get_elem? vals i ≡ some (value src scale i)
      upper vals all i lt ge =
          let e : i - 16 + 16 ≡ i = omega arith in rw e at ((all (i - 16) (omega arith)).1)
