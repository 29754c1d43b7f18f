-- ===== src/Topology/Printed.antt =====
-- `parse_cpu_list` of crates/backends/backend_common/src/topology.rs against the lists that the kernel
-- prints: numbers and ranges, parted by commas.
use mathlib.Core.Option.{some-injective}
use herbert_rs.Prelude.{
  ℕ, zero, suc, ◌+◌, ◌-◌, ◌*◌, ◌/◌, ◌%◌, ◌^◌, ◌≤◌, ◌<◌, ◌≡◌, refl, ap, ◌∙◌, inl, inr, Bool, true,
  false, ◌&&◌, none, some, List, [], ◌∷◌, ◌++◌, All, All-append, All_imp, ltb, leb, ltb→lt,
  ltb-false, ◌==◌, if◌then◌else◌, arith, Bool-cases,
}
use herbert_rs.Prelude.Tokens.{is_empty}
use herbert_rs.Prelude.Text.{Text}
use herbert_rs.Topology.{
  is_whitespace, trim_start, trim_end, trim, split, split_once, parse_digits, without_sign,
  parse_usize, count_from, push_part, parse_parts, parse_cpu_list,
}

-- A number in decimal, on fuel.
abbrev pub print_digits : ℕ → ℕ → Text
print_digits zero n = []
print_digits (suc fuel) n =
    (if ltb n 10 then [] else print_digits fuel (n / 10)) ++ ((48 + n % 10) ∷ [])

abbrev pub print_number : ℕ → Text
print_number n = print_digits (suc n) n

pub data CpuRange : Type 0 where
  single : ℕ → CpuRange
  span : (first last : ℕ) → CpuRange

abbrev pub print_range : CpuRange → Text
print_range (CpuRange.single n) = print_number n
print_range (CpuRange.span a b) = print_number a ++ (45 ∷ print_number b)

-- The text of a range and those behind it.
abbrev pub print_ranges : CpuRange → List CpuRange → Text
print_ranges r [] = print_range r
print_ranges r (s ∷ rs) = print_range r ++ (44 ∷ print_ranges s rs)

abbrev pub expand : CpuRange → List ℕ
expand (CpuRange.single n) = n ∷ []
expand (CpuRange.span a b) = count_from a (suc b - a)

abbrev pub expand_all : List CpuRange → List ℕ
expand_all [] = []
expand_all (r ∷ rs) = expand r ++ expand_all rs

abbrev pub Fits : CpuRange → Type 0
Fits (CpuRange.single n) = n < 2 ^ 64
Fits (CpuRange.span a b) = (a < 2 ^ 64) × (b < 2 ^ 64)

abbrev IsDigit : ℕ → Type 0
IsDigit c = (48 ≤ c) × (c ≤ 57)

digits-IsDigit : (fuel n : ℕ) → All IsDigit (print_digits fuel n)
digits-IsDigit zero n = tt
digits-IsDigit (suc fuel) n =
    All-append IsDigit (if ltb n 10 then [] else print_digits fuel (n / 10)) _
      (front (ltb n 10) (print_digits fuel (n / 10)) (digits-IsDigit fuel (n / 10)))
      ((omega arith, omega arith), tt)
  where
    front : (b : Bool) (ds : Text) → All IsDigit ds → All IsDigit (if b then [] else ds)
    front true ds h = tt
    front false ds h = h

-- Reading on behind a text of digits that was read.
parse_digits-append :
    (value : ℕ) (xs ys : Text) (v : ℕ)
    → parse_digits value xs ≡ some v
    → parse_digits value (xs ++ ys) ≡ parse_digits v ys
unfolding parse_digits
parse_digits-append value [] ys v h = ap (λ k. parse_digits k ys) (some-injective value v h)
parse_digits-append value (x ∷ xs) ys v h =
    elim (Bool-cases (leb 48 x && leb x 57 && ltb (value * 10 + (x - 48)) (2 ^ 64))) [
      | inl e ↦ rw e (parse_digits-append (value * 10 + (x - 48)) xs ys v (rw e at h))
      | inr e ↦ cc (rw e at h)
    ]

parse_digit :
    (v d : ℕ) → d < 10 → v * 10 + d < 2 ^ 64 → parse_digits v ((48 + d) ∷ []) ≡ some (v * 10 + d)
unfolding parse_digits
parse_digit v d small fits = ground arith

parse-print : (fuel n : ℕ) → n < fuel → n < 2 ^ 64 → parse_digits 0 (print_digits fuel n) ≡ some n
parse-print zero n h fits = absurd (omega arith)
parse-print (suc fuel) n h fits = elim (Bool-cases (ltb n 10)) [
  | inl e ↦
      rw e
        (parse_digit 0 (n % 10) (omega arith) (omega arith) ∙ ap some (omega (arith, ltb→lt _ _ e)))
  | inr e ↦ rw e (
      parse_digits-append 0 (print_digits fuel (n / 10)) ((48 + n % 10) ∷ []) (n / 10)
        (parse-print fuel (n / 10) (omega (arith, ltb-false _ _ e)) (omega arith))
      ∙ parse_digit (n / 10) (n % 10) (omega arith) (omega arith)
      ∙ ap some (omega arith))
]

digits_first : (s : Text) → All IsDigit s → without_sign s ≡ s
digits_first [] h = refl
digits_first (c ∷ []) h = refl
digits_first (c ∷ (d ∷ ds)) h = ground arith

not_empty : (xs : Text) (c : ℕ) → is_empty (xs ++ (c ∷ [])) ≡ false
not_empty [] c = refl
not_empty (x ∷ xs) c = refl

parse_usize-print_number : (n : ℕ) → n < 2 ^ 64 → parse_usize (print_number n) ≡ some n
unfolding parse_usize
parse_usize-print_number n fits =
    rw
      (
        not_empty (if ltb n 10 then [] else print_digits n (n / 10)) (48 + n % 10),
        digits_first (print_number n) (digits-IsDigit (suc n) n),
      )
      (parse-print (suc n) n (omega arith) fits)

-- The characters of a range: no comma, no space.
abbrev IsPlain : ℕ → Type 0
IsPlain c = (45 ≤ c) × (c ≤ 57)

number-IsPlain : (n : ℕ) → All IsPlain (print_number n)
number-IsPlain n =
    All_imp IsDigit IsPlain (print_number n) (λ c h. (omega (arith, h.0), h.1))
      (digits-IsDigit (suc n) n)

range-IsPlain : (r : CpuRange) → All IsPlain (print_range r)
range-IsPlain (CpuRange.single n) = number-IsPlain n
range-IsPlain (CpuRange.span a b) =
    All-append IsPlain (print_number a) _ (number-IsPlain a)
      ((omega arith, omega arith), number-IsPlain b)

plain_space : (c : ℕ) → IsPlain c → is_whitespace c ≡ false
unfolding is_whitespace
plain_space c h = ground (arith, h)

trim_start_plain : (s : Text) → All IsPlain s → trim_start s ≡ s
unfolding trim_start
trim_start_plain [] h = refl
trim_start_plain (c ∷ cs) h = rw (plain_space c h.0) refl

trim_end_plain : (s : Text) → All IsPlain s → trim_end s ≡ s
unfolding trim_end
trim_end_plain [] h = refl
trim_end_plain (c ∷ cs) h = rw (plain_space c h.0) (ap (◌∷◌ c) (trim_end_plain cs h.1))

trim_plain : (s : Text) → All IsPlain s → trim s ≡ s
unfolding trim
trim_plain s h = rw (trim_start_plain s h) (trim_end_plain s h)

plain_comma : (c : ℕ) → IsPlain c → (c == 44) ≡ false
plain_comma c h = ground (arith, h)

digit_dash : (c : ℕ) → IsDigit c → (c == 45) ≡ false
digit_dash c h = ground (arith, h)

split_part : (p rest : Text) → All IsPlain p → split 44 (p ++ (44 ∷ rest)) ≡ p ∷ split 44 rest
unfolding split
split_part [] rest h = refl
split_part (c ∷ cs) rest h = rw (plain_comma c h.0, split_part cs rest h.1) refl

split_last : (p : Text) → All IsPlain p → split 44 p ≡ p ∷ []
unfolding split
split_last [] h = refl
split_last (c ∷ cs) h = rw (plain_comma c h.0, split_last cs h.1) refl

split_once_digits : (s : Text) → All IsDigit s → split_once 45 s ≡ none
unfolding split_once
split_once_digits [] h = refl
split_once_digits (c ∷ cs) h = rw (split_once_digits cs h.1, digit_dash c h.0) refl

split_once_dash :
    (s rest : Text) → All IsDigit s → split_once 45 (s ++ (45 ∷ rest)) ≡ some (s, rest)
unfolding split_once
split_once_dash [] rest h = refl
split_once_dash (c ∷ cs) rest h = rw (split_once_dash cs rest h.1, digit_dash c h.0) refl

part_lem :
    (r : CpuRange)
    → Fits r
    → push_part (trim (print_range r)) (split_once 45 (trim (print_range r))) ≡ expand r
part_lem (CpuRange.single n) fits =
    rw
      (
        trim_plain (print_number n) (number-IsPlain n),
        split_once_digits (print_number n) (digits-IsDigit (suc n) n),
        parse_usize-print_number n fits,
      )
      refl
part_lem (CpuRange.span a b) fits =
    rw
      (
        trim_plain (print_range (CpuRange.span a b)) (range-IsPlain (CpuRange.span a b)),
        split_once_dash (print_number a) (print_number b) (digits-IsDigit (suc a) a),
        parse_usize-print_number a fits.0,
        parse_usize-print_number b fits.1,
      )
      refl

parts_lem :
    (r : CpuRange) (rs : List CpuRange)
    → Fits r
    → All Fits rs
    → parse_parts (split 44 (print_ranges r rs)) ≡ expand r ++ expand_all rs
unfolding parse_parts
parts_lem r [] h all = rw (split_last (print_range r) (range-IsPlain r), part_lem r h) refl
parts_lem r (q ∷ qs) h all =
    rw (split_part (print_range r) (print_ranges q qs) (range-IsPlain r), part_lem r h)
      (ap (◌++◌ (expand r)) (parts_lem q qs all.0 all.1))

-- A list of CPUs is read back as it was printed: from numbers and ranges below 2 ^ 64, in decimal with
-- commas between them, `parse_cpu_list` gets the numbers, and all numbers of each range, in order.
pub parse_cpu_list-print_ranges :
    (r : CpuRange) (rs : List CpuRange)
    → Fits r
    → All Fits rs
    → parse_cpu_list (print_ranges r rs) ≡ expand r ++ expand_all rs
unfolding parse_cpu_list
parse_cpu_list-print_ranges r rs h all = parts_lem r rs h all
