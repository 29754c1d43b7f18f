-- ===== src/Topology.antt =====
-- crates/backends/backend_common/src/topology.rs: the lists of CPUs that the kernel prints, and the
-- order in which the workers of the pool are pinned to the cores. The names in a directory and the
-- contents of the files are arguments; a string is the list of its characters.
pub mod Cores
pub mod Spread
pub mod Printed
mod Tests
use herbert_rs.Prelude.{
  ℕ, zero, suc, ◌+◌, ◌-◌, ◌*◌, ◌/◌, ◌^◌, max, min, Bool, true, false, not, ◌&&◌, ◌||◌, Option, none,
  some, List, [], ◌∷◌, ◌++◌, map, length, get_elem?, ltb, leb, ◌==◌, if◌then◌else◌, ◌>>=◌,
}
use herbert_rs.Prelude.Tokens.{is_empty}
use herbert_rs.Prelude.Text.{Text}

-- `char::is_whitespace`
unfoldable pub is_whitespace : ℕ → Bool
is_whitespace c =
    (leb 0x9 c && leb c 0xd)
    || c == 0x20
    || c == 0x85
    || c == 0xa0
    || c == 0x1680
    || (leb 0x2000 c && leb c 0x200a)
    || c == 0x2028
    || c == 0x2029
    || c == 0x202f
    || c == 0x205f
    || c == 0x3000

unfoldable pub trim_start : Text → Text
trim_start [] = []
trim_start (c ∷ cs) = if is_whitespace c then trim_start cs else c ∷ cs

unfoldable pub trim_end : Text → Text
trim_end [] = []
trim_end (c ∷ cs) =
    let rest = trim_end cs in if is_whitespace c && is_empty rest then [] else c ∷ rest

unfoldable pub trim : Text → Text
trim s = trim_end (trim_start s)

-- The first part gets one more character.
abbrev pub with_first : ℕ → List Text → List Text
with_first c [] = (c ∷ []) ∷ []
with_first c (p ∷ ps) = (c ∷ p) ∷ ps

-- `str::split`
unfoldable pub split : ℕ → Text → List Text
split sep [] = [] ∷ []
split sep (c ∷ cs) = if c == sep then [] ∷ split sep cs else with_first c (split sep cs)

-- `str::split_once`
unfoldable pub split_once : ℕ → Text → Option (Text × Text)
split_once sep [] = none
split_once sep (c ∷ cs) =
    let rest = split_once sep cs in
    if c == sep then some ([], cs) else (rest >>= λ r. some (c ∷ r.0, r.1))

-- `parse::<usize>()`: digits behind an optional sign, of a value that fits.
unfoldable pub parse_digits : ℕ → Text → Option ℕ
parse_digits value [] = some value
parse_digits value (c ∷ cs) =
    let next = value * 10 + (c - 48) in
    let rest = parse_digits next cs in
    if leb 48 c && leb c 57 && ltb next (2 ^ 64) then rest else none

abbrev pub without_sign : Text → Text
without_sign [] = []
without_sign (c ∷ []) = c ∷ []
without_sign (c ∷ (d ∷ ds)) = if c == 43 then d ∷ ds else c ∷ (d ∷ ds)

unfoldable pub parse_usize : Text → Option ℕ
parse_usize s = if is_empty s then none else parse_digits 0 (without_sign s)

-- `n` numbers from `i` on
unfoldable pub count_from : ℕ → ℕ → List ℕ
count_from i zero = []
count_from i (suc n) = i ∷ count_from (suc i) n

-- `for i in start..=end { result.push(i) }`, if both are numbers
abbrev pub push_range : Option ℕ → Option ℕ → List ℕ
push_range (some start) (some end) = count_from start (suc end - start)
push_range (some start) none = []
push_range none end = []

abbrev pub push_number : Option ℕ → List ℕ
push_number none = []
push_number (some n) = n ∷ []

abbrev pub push_part : Text → Option (Text × Text) → List ℕ
push_part part none = push_number (parse_usize part)
push_part part (some (start, end)) = push_range (parse_usize start) (parse_usize end)

unfoldable pub parse_parts : List Text → List ℕ
parse_parts [] = []
parse_parts (p ∷ ps) = push_part (trim p) (split_once 45 (trim p)) ++ parse_parts ps

unfoldable pub parse_cpu_list : Text → List ℕ
parse_cpu_list s = parse_parts (split 44 s)
