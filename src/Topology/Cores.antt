-- ===== src/Topology/Cores.antt =====
-- `physical_core_ids` of crates/backends/backend_common/src/topology.rs. The files of a CPU are given by
-- its number; `none` is a file that cannot be read, as of a directory.
use herbert_rs.Prelude.{
  ℕ, zero, suc, ◌+◌, max, min, Bool, true, false, not, ◌&&◌, ◌||◌, Option, none, some, List, [],
  ◌∷◌, ◌++◌, map, length, get_elem?, ltb, leb, ◌==◌, if◌then◌else◌, ◌>>=◌, ◌/◌,
}
use herbert_rs.Prelude.Tokens.{is_empty}
use herbert_rs.Prelude.Text.{Text}
use herbert_rs.Topology.{trim, parse_usize, parse_cpu_list}

-- `sort_unstable` on numbers.
unfoldable pub insert_sorted : ℕ → List ℕ → List ℕ
insert_sorted n [] = n ∷ []
insert_sorted n (m ∷ ms) = if leb n m then n ∷ (m ∷ ms) else m ∷ insert_sorted n ms

unfoldable pub sort_numbers : List ℕ → List ℕ
sort_numbers [] = []
sort_numbers (n ∷ ns) = insert_sorted n (sort_numbers ns)

-- `name.strip_prefix(prefix)`
unfoldable pub strip_prefix : Text → Text → Option Text
strip_prefix [] name = some name
strip_prefix (p ∷ ps) [] = none
strip_prefix (p ∷ ps) (c ∷ cs) = let rest = strip_prefix ps cs in if p == c then rest else none

-- The number in a name `cpu…`.
unfoldable pub cpu_number : Text → Option ℕ
cpu_number name = strip_prefix (99 ∷ 112 ∷ 117 ∷ []) name >>= parse_usize

abbrev pub keep_some : Option ℕ → List ℕ → List ℕ
keep_some none ns = ns
keep_some (some n) ns = n ∷ ns

unfoldable pub cpu_numbers : List Text → List ℕ
cpu_numbers [] = []
cpu_numbers (name ∷ names) = keep_some (cpu_number name) (cpu_numbers names)

unfoldable pub cpu_ids : List Text → List ℕ
cpu_ids names = sort_numbers (cpu_numbers names)

unfoldable pub min_of : ℕ → List ℕ → ℕ
min_of n [] = n
min_of n (m ∷ ms) = min_of (min n m) ms

unfoldable pub has : ℕ → List ℕ → Bool
has n [] = false
has n (m ∷ ms) = n == m || has n ms

-- The siblings of a CPU, if its file can be read.
abbrev pub siblings_in : Option Text → List ℕ
siblings_in none = []
siblings_in (some s) = parse_cpu_list (trim s)

-- A CPU with the siblings that it lists: it stands for a new core, or is passed over.
unfoldable pub choose_core : List ℕ → List ℕ → (List ℕ → List ℕ) → ℕ → List ℕ
choose_core [] seen select cpu = select seen
choose_core (s ∷ ss) seen select cpu =
    if has (min_of s ss) seen then select seen else cpu ∷ select (min_of s ss ∷ seen)

module _ (read_siblings : ℕ → Option Text) where
  -- The loop over the CPUs: the first of every core, in their order.
  unfoldable pub physical_cores : List ℕ → List ℕ → List ℕ
  physical_cores [] seen = []
  physical_cores (cpu ∷ cpus) seen =
      choose_core (siblings_in (read_siblings cpu)) seen (physical_cores cpus) cpu

  unfoldable pub physical_core_ids_sequential : Option (List Text) → List ℕ
  physical_core_ids_sequential none = []
  physical_core_ids_sequential (some names) = sort_numbers (physical_cores (cpu_ids names) [])

-- The CPUs that share the L3 cache.
abbrev pub l3_key : ℕ → Option Text → List ℕ
l3_key cpu none = cpu ∷ []
l3_key cpu (some s) = sort_numbers (parse_cpu_list (trim s))

-- The order of the keys of the `BTreeMap`.
unfoldable pub lex_ltb : List ℕ → List ℕ → Bool
lex_ltb [] [] = false
lex_ltb [] (m ∷ ms) = true
lex_ltb (n ∷ ns) [] = false
lex_ltb (n ∷ ns) (m ∷ ms) = ltb n m || (n == m && lex_ltb ns ms)

-- `ccd_groups.entry(key).or_default().push(cpu)`, in the order of the keys.
unfoldable pub push_group : List ℕ → ℕ → List (List ℕ × List ℕ) → List (List ℕ × List ℕ)
push_group key cpu [] = (key, cpu ∷ []) ∷ []
push_group key cpu (g ∷ gs) =
    if lex_ltb key g.0
    then (key, cpu ∷ []) ∷ (g ∷ gs)
    else (if lex_ltb g.0 key then g ∷ push_group key cpu gs else (g.0, g.1 ++ (cpu ∷ [])) ∷ gs)

abbrev pub first_or_zero : List ℕ → ℕ
first_or_zero [] = 0
first_or_zero (n ∷ ns) = n

-- `sort_by_key`, which keeps the order of equal keys.
unfoldable pub insert_group : List ℕ → List (List ℕ) → List (List ℕ)
insert_group g [] = g ∷ []
insert_group g (h ∷ hs) =
    if leb (first_or_zero g) (first_or_zero h) then g ∷ (h ∷ hs) else h ∷ insert_group g hs

unfoldable pub sort_groups : List (List ℕ) → List (List ℕ)
sort_groups [] = []
sort_groups (g ∷ gs) = insert_group g (sort_groups gs)

unfoldable pub max_len : List (List ℕ) → ℕ
max_len [] = 0
max_len (g ∷ gs) = max (length g) (max_len gs)

-- One slot of every group that has it.
unfoldable pub slot_row : ℕ → List (List ℕ) → List ℕ
slot_row slot [] = []
slot_row slot (g ∷ gs) = keep_some (get_elem? g slot) (slot_row slot gs)

-- `n` slots, from `slot` on
unfoldable pub round_robin : ℕ → ℕ → List (List ℕ) → List ℕ
round_robin zero slot gs = []
round_robin (suc n) slot gs = slot_row slot gs ++ round_robin n (suc slot) gs

module _ (read_l3 : ℕ → Option Text) where
  unfoldable pub group_cores : List ℕ → List (List ℕ × List ℕ) → List (List ℕ × List ℕ)
  group_cores [] groups = groups
  group_cores (cpu ∷ cpus) groups =
      group_cores cpus (push_group (l3_key cpu (read_l3 cpu)) cpu groups)

unfoldable pub spread : List (List ℕ × List ℕ) → List ℕ
spread groups =
    if leb (length groups) 1
    then []
    else (let ccds = sort_groups (map (λ g. g.1) groups) in round_robin (max_len ccds) 0 ccds)

module _ (read_siblings read_l3 : ℕ → Option Text) where
  unfoldable pub physical_core_ids_ccd_aware : Option (List Text) → List ℕ
  physical_core_ids_ccd_aware none = []
  physical_core_ids_ccd_aware (some names) =
      let cores = physical_cores read_siblings (cpu_ids names) [] in
      if is_empty cores then [] else spread (group_cores read_l3 cores [])

  unfoldable pub physical_core_ids_linux : Option (List Text) → List ℕ
  physical_core_ids_linux names =
      let ccd_result = physical_core_ids_ccd_aware names in
      if not (is_empty ccd_result)
      then ccd_result
      else physical_core_ids_sequential read_siblings names

pub record Topology : Type 0 where
  pub num_numa_nodes : ℕ
  pub cores_per_node : ℕ

abbrev pub is_some : Option ℕ → Bool
is_some none = false
is_some (some n) = true

-- The directories `node0`, `node1`, …
unfoldable pub count_nodes : List Text → ℕ
count_nodes [] = 0
count_nodes (name ∷ names) =
    (if is_some (strip_prefix (110 ∷ 111 ∷ 100 ∷ 101 ∷ []) name >>= parse_usize) then 1 else 0)
    + count_nodes names

abbrev pub nodes_of : Option (List Text) → ℕ
nodes_of none = 0
nodes_of (some names) = count_nodes names

abbrev pub get_total : Option ℕ → ℕ
get_total none = 1
get_total (some n) = n

-- `detect_topology_linux`, with `available_parallelism()`.
unfoldable pub detect_topology : Option (List Text) → Option ℕ → Topology
detect_topology names parallelism =
    let total_cores = get_total parallelism in
    if ltb 0 (nodes_of names)
    then record { num_numa_nodes = nodes_of names; cores_per_node = total_cores / nodes_of names }
    else record { num_numa_nodes = 1; cores_per_node = total_cores }
