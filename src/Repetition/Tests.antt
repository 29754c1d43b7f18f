-- ===== src/Repetition/Tests.antt =====
-- Runs of the detection, and its theorem at them.
use herbert_rs.Prelude.{ℕ, ◌≡◌, refl, none, some, List, [], ◌∷◌, ◌++◌}
use herbert_rs.Prelude.Tokens.{tokens_eq}
use herbert_rs.Repetition.{block, blocks_repeat, repeats, detect_from, detect_repetition_loop}
use herbert_rs.Repetition.Detected.{Shortest, detect_repetition_loop-Shortest}

program : Unit {0}
unfolding tokens_eq block blocks_repeat repeats detect_from detect_repetition_loop
program = tt

abbrev pattern : List ℕ
pattern = 1 ∷ 2 ∷ 3 ∷ 4 ∷ 5 ∷ 6 ∷ 7 ∷ []

looping : detect_repetition_loop (9 ∷ pattern ++ (pattern ++ pattern)) ≡ some 7
unfolding program
looping = refl

twice : detect_repetition_loop (9 ∷ pattern ++ pattern) ≡ none
unfolding program
twice = refl

detect_repetition_loop-Shortest_example :
    Shortest
      (9 ∷ pattern ++ (pattern ++ pattern))
      6
      101
      (detect_repetition_loop (9 ∷ pattern ++ (pattern ++ pattern)))
detect_repetition_loop-Shortest_example =
    detect_repetition_loop-Shortest (9 ∷ pattern ++ (pattern ++ pattern))
