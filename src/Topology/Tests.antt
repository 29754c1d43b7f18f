-- ===== src/Topology/Tests.antt =====
-- A machine of four cores, two for each L3 cache, each core two CPUs; and the theorems at it.
use mathlib.Core.List.{Perm}
use herbert_rs.Prelude.{
  ℕ, ◌+◌, ◌≡◌, refl, ltb, Option, none, some, List, [], ◌∷◌, ◌++◌, map, if◌then◌else◌, arith,
}
use herbert_rs.Prelude.Text.{Text}
use herbert_rs.Topology.{
  is_whitespace, trim_start, trim_end, trim, split, split_once, parse_digits, parse_usize,
  count_from, parse_parts, parse_cpu_list,
}
use herbert_rs.Topology.Cores.{
  insert_sorted, sort_numbers, strip_prefix, cpu_number, cpu_numbers, cpu_ids, min_of, has,
  choose_core, physical_cores, physical_core_ids_sequential, lex_ltb, push_group, insert_group,
  sort_groups, max_len, slot_row, round_robin, group_cores, spread, physical_core_ids_ccd_aware,
  physical_core_ids_linux, count_nodes, detect_topology,
}
use herbert_rs.Topology.Spread.{physical_core_ids-Perm}
use herbert_rs.Topology.Printed.{single, span, print_ranges, parse_cpu_list-print_ranges}

program : Unit {0}
unfolding is_whitespace trim_start trim_end trim split split_once parse_digits parse_usize
    count_from parse_parts parse_cpu_list insert_sorted sort_numbers strip_prefix cpu_number
    cpu_numbers cpu_ids min_of has choose_core physical_cores physical_core_ids_sequential lex_ltb
    push_group insert_group sort_groups max_len slot_row round_robin group_cores spread
    physical_core_ids_ccd_aware physical_core_ids_linux count_nodes detect_topology
program = tt

-- "cpu" and a digit
abbrev cpu_name : ℕ → Text
cpu_name n = 99 ∷ 112 ∷ 117 ∷ (48 + n) ∷ []

-- The directory, with a file that is no CPU.
abbrev names : List Text
names = map cpu_name (3 ∷ 0 ∷ 5 ∷ 1 ∷ 7 ∷ 2 ∷ 4 ∷ 6 ∷ []) ++ ((99 ∷ 112 ∷ 117 ∷ 105 ∷ []) ∷ [])

-- "n,m\n" of a CPU below 4 and the one four above it
abbrev siblings : ℕ → Option Text
siblings n = some ((48 + n) ∷ 44 ∷ (52 + n) ∷ 10 ∷ [])

abbrev read_siblings : ℕ → Option Text
read_siblings n = if ltb n 4 then siblings n else none

-- "0-1,4-5" and "2-3,6-7"
abbrev read_l3 : ℕ → Option Text
read_l3 n =
    if ltb n 2
    then some (48 ∷ 45 ∷ 49 ∷ 44 ∷ 52 ∷ 45 ∷ 53 ∷ [])
    else some (50 ∷ 45 ∷ 51 ∷ 44 ∷ 54 ∷ 45 ∷ 55 ∷ [])

spread_cores : physical_core_ids_linux read_siblings read_l3 (some names) ≡ 0 ∷ 2 ∷ 1 ∷ 3 ∷ []
unfolding program
spread_cores = refl

one_cache :
    physical_core_ids_linux read_siblings (λ n. some (48 ∷ 45 ∷ 55 ∷ [])) (some names)
    ≡ 0 ∷ 1 ∷ 2 ∷ 3 ∷ []
unfolding program
one_cache = refl

no_directory : detect_topology none (some 8) ≡ record { num_numa_nodes = 1; cores_per_node = 8 }
unfolding program
no_directory = refl

physical_core_ids-Perm_example :
    Perm (physical_core_ids_linux read_siblings read_l3 (some names)) (0 ∷ 1 ∷ 2 ∷ 3 ∷ [])
unfolding program
physical_core_ids-Perm_example = physical_core_ids-Perm read_siblings read_l3 names

parse_cpu_list-print_ranges_example :
    parse_cpu_list (print_ranges (span 0 3) (single 64 ∷ span 8 11 ∷ []))
    ≡ 0 ∷ 1 ∷ 2 ∷ 3 ∷ 64 ∷ 8 ∷ 9 ∷ 10 ∷ 11 ∷ []
unfolding program
parse_cpu_list-print_ranges_example =
    parse_cpu_list-print_ranges (span 0 3) (single 64 ∷ span 8 11 ∷ []) (omega arith, omega arith)
      (omega arith, ((omega arith, omega arith), tt))
