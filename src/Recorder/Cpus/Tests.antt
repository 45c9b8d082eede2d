-- ===== src/Recorder/Cpus/Tests.antt =====
-- The text `0-2,5`, and the theorem on it.
use matching_machine.Prelude.{◌≡◌, refl, none, some, [], ◌∷◌, map, All}
use matching_machine.Recorder.Cpus.{int, cpu_list}
use matching_machine.Recorder.Cpus.Printed.{
  Part, one_cpu, between, IsPart, printed, join, all_meant, cpu_list-join,
}

cpu_list-text : cpu_list (48 ∷ 45 ∷ 50 ∷ 44 ∷ 53 ∷ []) ≡ some (0 ∷ 1 ∷ 2 ∷ 5 ∷ [])
unfolding cpu_list
cpu_list-text = refl

cpu_list-word : cpu_list (97 ∷ []) ≡ none
unfolding cpu_list
cpu_list-word = refl

abbrev first_three : Part
first_three = between (48 ∷ [], 0) (50 ∷ [], 2)

abbrev sixth : Part
sixth = one_cpu (53 ∷ [], 5)

parts-IsPart : All IsPart (first_three ∷ sixth ∷ [])
unfolding int
parts-IsPart = ((refl, refl), (refl, tt))

cpu_list-join_example :
    cpu_list (join (printed first_three) (map printed (sixth ∷ [])))
    ≡ some (all_meant (first_three ∷ sixth ∷ []))
cpu_list-join_example = cpu_list-join first_three (sixth ∷ []) parts-IsPart
