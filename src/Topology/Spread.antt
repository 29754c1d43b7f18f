-- ===== src/Topology/Spread.antt =====
-- `physical_core_ids` of crates/backends/backend_common/src/topology.rs: the order of the cores loses and
-- doubles none.
use mathlib.Core.List.{Perm, perm_append_comm, perm_middle, append_assoc}
use mathlib.Core.List.Perm
use herbert_rs.Prelude.{
  ℕ, zero, suc, ◌+◌, ◌≤◌, ◌≡◌, refl, sym, ap, subst, ◌∙◌, ◌⊎◌, inl, inr, true, false, Option, none,
  some, List, [], ◌∷◌, ◌++◌, append-nil, map, length, drop, get_elem?, leb, arith, Bool-cases,
}
use herbert_rs.Prelude.Tokens.{is_empty}
use herbert_rs.Prelude.Text.{Text}
use herbert_rs.Topology.Cores.{
  insert_sorted, sort_numbers, cpu_ids, physical_cores, physical_core_ids_sequential, lex_ltb,
  keep_some, push_group, insert_group, sort_groups, max_len, slot_row, round_robin, group_cores,
  spread, physical_core_ids_ccd_aware, physical_core_ids_linux, first_or_zero,
}

insert_sorted-Perm : (n : ℕ) (ns : List ℕ) → Perm (insert_sorted n ns) (n ∷ ns)
unfolding insert_sorted
insert_sorted-Perm n [] = Perm.refl _
insert_sorted-Perm n (m ∷ ms) = elim (Bool-cases (leb n m)) [
  | inl e ↦ rw e (Perm.refl _)
  | inr e ↦ rw e (Perm.trans (Perm.cons m (insert_sorted-Perm n ms)) (Perm.swap n m ms))
]

sort_numbers-Perm : (ns : List ℕ) → Perm (sort_numbers ns) ns
unfolding sort_numbers
sort_numbers-Perm [] = Perm.refl _
sort_numbers-Perm (n ∷ ns) =
    Perm.trans (insert_sorted-Perm n (sort_numbers ns)) (Perm.cons n (sort_numbers-Perm ns))

abbrev concat : List (List ℕ) → List ℕ
concat [] = []
concat (g ∷ gs) = g ++ concat gs

-- One of three parts moves to the front.
swap_parts : (xs ys zs : List ℕ) → Perm (xs ++ (ys ++ zs)) (ys ++ (xs ++ zs))
swap_parts xs ys zs =
    subst (λ l. Perm l (ys ++ (xs ++ zs))) (append_assoc xs ys zs)
      (subst (Perm ((xs ++ ys) ++ zs)) (append_assoc ys xs zs)
        (Perm.append_right zs (perm_append_comm xs ys)))

push_group-Perm :
    (key : List ℕ) (cpu : ℕ) (gs : List (List ℕ × List ℕ))
    → Perm (concat (map (λ g. g.1) (push_group key cpu gs))) (cpu ∷ concat (map (λ g. g.1) gs))
unfolding push_group
push_group-Perm key cpu [] = Perm.refl _
push_group-Perm key cpu (g ∷ gs) = elim (Bool-cases (lex_ltb key g.0)) [
  | inl e ↦ rw e (Perm.refl _)
  | inr e ↦ elim (Bool-cases (lex_ltb g.0 key)) [
    | inl f ↦
        rw (e, f)
          (Perm.trans (Perm.append_left g.1 (push_group-Perm key cpu gs))
            (perm_middle g.1 (concat (map (λ h. h.1) gs))))
    | inr f ↦
        rw (e, f)
          (Perm.append_right (concat (map (λ h. h.1) gs)) (
            Perm.trans (perm_middle g.1 [])
              (Perm.cons cpu (subst (λ l. Perm l g.1) (sym (append-nil g.1)) (Perm.refl _)))))
  ]
]

group_cores-Perm :
    (read_l3 : ℕ → Option Text) (cpus : List ℕ) (gs : List (List ℕ × List ℕ))
    → Perm
        (concat (map (λ g. g.1) (group_cores read_l3 cpus gs)))
        (cpus ++ concat (map (λ g. g.1) gs))
unfolding group_cores
group_cores-Perm read_l3 [] gs = Perm.refl _
group_cores-Perm read_l3 (cpu ∷ cpus) gs = Perm.trans (group_cores-Perm read_l3 cpus _) (
    Perm.trans (Perm.append_left cpus (push_group-Perm _ cpu gs))
      (perm_middle cpus (concat (map (λ g. g.1) gs))))

insert_group-Perm :
    (g : List ℕ) (gs : List (List ℕ)) → Perm (concat (insert_group g gs)) (g ++ concat gs)
unfolding insert_group
insert_group-Perm g [] = Perm.refl _
insert_group-Perm g (h ∷ hs) = elim (Bool-cases (leb (first_or_zero g) (first_or_zero h))) [
  | inl e ↦ rw e (Perm.refl _)
  | inr e ↦
      rw e (Perm.trans (Perm.append_left h (insert_group-Perm g hs)) (swap_parts h g (concat hs)))
]

sort_groups-Perm : (gs : List (List ℕ)) → Perm (concat (sort_groups gs)) (concat gs)
unfolding sort_groups
sort_groups-Perm [] = Perm.refl _
sort_groups-Perm (g ∷ gs) =
    Perm.trans (insert_group-Perm g (sort_groups gs)) (Perm.append_left g (sort_groups-Perm gs))

drop_slot : (g : List ℕ) (slot : ℕ) → drop slot g ≡ keep_some (get_elem? g slot) (drop (suc slot) g)
drop_slot [] zero = refl
drop_slot [] (suc slot) = refl
drop_slot (n ∷ ns) zero = refl
drop_slot (n ∷ ns) (suc slot) = drop_slot ns slot

-- The next core of one group goes in front of the row.
keep_front :
    (o : Option ℕ) (row d rest all : List ℕ)
    → Perm (row ++ rest) all
    → Perm (keep_some o row ++ (d ++ rest)) (keep_some o d ++ all)
keep_front none row d rest all p = Perm.trans (swap_parts row d rest) (Perm.append_left d p)
keep_front (some n) row d rest all p =
    Perm.cons n (Perm.trans (swap_parts row d rest) (Perm.append_left d p))

slot_row-Perm :
    (slot : ℕ) (gs : List (List ℕ))
    → Perm (slot_row slot gs ++ concat (map (drop (suc slot)) gs)) (concat (map (drop slot) gs))
unfolding slot_row
slot_row-Perm slot [] = Perm.refl _
slot_row-Perm slot (g ∷ gs) =
    subst
      (λ d.
        Perm
          (keep_some (get_elem? g slot) (slot_row slot gs)
            ++ (drop (suc slot) g ++ concat (map (drop (suc slot)) gs)))
          (d ++ concat (map (drop slot) gs)))
      (sym (drop_slot g slot))
      (keep_front (get_elem? g slot) (slot_row slot gs) (drop (suc slot) g) _ _
        (slot_row-Perm slot gs))

drop_all : (g : List ℕ) (n : ℕ) → length g ≤ n → drop n g ≡ []
drop_all [] zero h = refl
drop_all [] (suc n) h = refl
drop_all (x ∷ xs) zero h = absurd (omega arith)
drop_all (x ∷ xs) (suc n) h = drop_all xs n (omega arith)

concat_done : (n : ℕ) (gs : List (List ℕ)) → max_len gs ≤ n → concat (map (drop n) gs) ≡ []
unfolding max_len
concat_done n [] h = refl
concat_done n (g ∷ gs) h = rw (drop_all g n (omega arith), concat_done n gs (omega arith)) refl

round_robin-Perm :
    (n slot : ℕ) (gs : List (List ℕ))
    → max_len gs ≤ slot + n
    → Perm (round_robin n slot gs) (concat (map (drop slot) gs))
unfolding round_robin
round_robin-Perm zero slot gs h = rw (concat_done slot gs (omega arith)) (Perm.refl _)
round_robin-Perm (suc n) slot gs h =
    Perm.trans
      (Perm.append_left (slot_row slot gs) (round_robin-Perm n (suc slot) gs (omega arith)))
      (slot_row-Perm slot gs)

drop_none : (gs : List (List ℕ)) → map (drop 0) gs ≡ gs
drop_none [] = refl
drop_none (g ∷ gs) = ap (◌∷◌ g) (drop_none gs)

-- Spread over the groups, or given up.
spread-Perm :
    (groups : List (List ℕ × List ℕ))
    → (spread groups ≡ []) ⊎ Perm (spread groups) (concat (map (λ g. g.1) groups))
unfolding spread
spread-Perm groups = elim (Bool-cases (leb (length groups) 1)) [
  | inl e ↦ inl (rw e refl)
  | inr e ↦ inr (
      rw e (
        let ccds = sort_groups (map (λ g. g.1) groups) in
        Perm.trans
          (subst (λ gs. Perm (round_robin (max_len ccds) 0 ccds) (concat gs)) (drop_none ccds)
            (round_robin-Perm (max_len ccds) 0 ccds (omega arith)))
          (sort_groups-Perm (map (λ g. g.1) groups))))
]

abbrev pub names_or_none : Option (List Text) → List Text
names_or_none none = []
names_or_none (some names) = names

module _ (read_siblings read_l3 : ℕ → Option Text) where
  ccd_aware-Perm :
      (names : List Text)
      → let result = physical_core_ids_ccd_aware read_siblings read_l3 (some names) in
        (result ≡ []) ⊎ Perm result (physical_cores read_siblings (cpu_ids names) [])
  unfolding physical_core_ids_ccd_aware
  ccd_aware-Perm names =
      elim (Bool-cases (is_empty (physical_cores read_siblings (cpu_ids names) []))) [
        | inl e ↦ inl (rw e refl)
        | inr e ↦ rw e (elim (spread-Perm (group_cores read_l3 cores [])) [
          | inl nothing ↦ inl nothing
          | inr p ↦
              inr (
                Perm.trans p
                  (subst (Perm _) (append-nil cores) (group_cores-Perm read_l3 cores [])))
        ])
      ]
    where
      cores : List ℕ
      cores = physical_cores read_siblings (cpu_ids names) []

  sequential-Perm :
      (names : List Text)
      → Perm
          (physical_core_ids_sequential read_siblings (some names))
          (physical_cores read_siblings (cpu_ids names) [])
  unfolding physical_core_ids_sequential
  sequential-Perm names = sort_numbers-Perm _

  -- The order of the cores that workers are pinned to, spread over the groups that share a cache or
  -- sequential, is a permutation of the CPUs that the scan of the siblings chooses.
  pub physical_core_ids-Perm :
      (names : List Text)
      → Perm
          (physical_core_ids_linux read_siblings read_l3 (some names))
          (physical_cores read_siblings (cpu_ids names) [])
  unfolding physical_core_ids_linux
  physical_core_ids-Perm names =
      elim (Bool-cases
        (is_empty (physical_core_ids_ccd_aware read_siblings read_l3 (some names)))) [
          | inl e ↦ rw e (sequential-Perm names)
          | inr e ↦ rw e (elim (ccd_aware-Perm names) [
            | inl nothing ↦ absurd (clash (sym (ap is_empty nothing) ∙ e))
            | inr p ↦ p
          ])
        ]
    where
      clash : ¬ (true ≡ false)
      clash h = cc
