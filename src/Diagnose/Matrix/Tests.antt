-- ===== src/Diagnose/Matrix/Tests.antt =====
-- A matrix of two conditions, and each theorem at it.
use matching_machine.Effects.{ok, raise}
use matching_machine.Effects.Checks.{Holds}
use matching_machine.Prelude.{◌≡◌, ◌≢◌, refl, List, [], ◌∷◌, ◌++◌, length, map}
use matching_machine.Diagnose.Matrix.{
  Text, Entry, entries, Condition, duplicate_name, controlled_argument, benchmark_option,
  load_matrix, is_name, is_controlled, no_nul, same_text, is_env_name,
}
use matching_machine.Diagnose.Matrix.Valid.{AreConditions, load_matrix-AreConditions}
use matching_machine.Diagnose.Matrix.Accepts.{written, resolved, load_matrix-written}

-- `build/` and the name.
abbrev resolve : Text → Text
resolve t = 98 ∷ 47 ∷ t

-- A condition of a name, with the argument `--x` and the environment `A=1`.
abbrev condition : Text → Text → Condition
condition name argument = record {
  name = name;
  binary = 98 ∷ 49 ∷ [];
  filter = 46 ∷ [];
  prefix = [];
  args = argument ∷ [];
  env = (65 ∷ [], 49 ∷ []) ∷ [];
}

abbrev plain_argument : Text
plain_argument = 45 ∷ 45 ∷ 120 ∷ []

abbrev two : List Condition
two = condition (97 ∷ 49 ∷ []) plain_argument ∷ condition (97 ∷ 45 ∷ []) plain_argument ∷ []

-- The same name twice, and `--benchmark_out=f`.
load_matrix-twice :
    load_matrix resolve (
      entries (
        map written (condition (97 ∷ []) plain_argument ∷ condition (97 ∷ []) plain_argument ∷ [])))
    ≡ raise duplicate_name
unfolding load_matrix
load_matrix-twice = refl

load_matrix-controlled :
    load_matrix resolve (
      entries (
        map written
          (condition (97 ∷ []) (benchmark_option ++ 111 ∷ 117 ∷ 116 ∷ 61 ∷ 102 ∷ []) ∷ [])))
    ≡ raise controlled_argument
unfolding load_matrix
load_matrix-controlled = refl

two_ne_nil : two ≢ []
two_ne_nil e = cc

abbrev identity : Text → Text
identity t = t

two-AreConditions : AreConditions identity [] two
unfolding is_name is_controlled no_nul same_text is_env_name
two-AreConditions = (
  (
    (refl, refl),
    (98 ∷ 49 ∷ [], refl, (refl, refl)),
    (refl, refl),
    tt,
    ((refl, tt), refl),
    ((refl, refl), tt),
  ),
  (
    (
      (refl, refl),
      (98 ∷ 49 ∷ [], refl, (refl, refl)),
      (refl, refl),
      tt,
      ((refl, tt), refl),
      ((refl, refl), tt),
    ),
    tt,
  ),
)

load_matrix-AreConditions_example :
    Holds
      (λ cs.
        (es : List Entry) × (entries (map written two) ≡ entries es)
        × (es ≢ [])
        × AreConditions resolve [] cs
        × (length cs ≡ length es))
      (load_matrix resolve (entries (map written two)))
load_matrix-AreConditions_example = load_matrix-AreConditions resolve (entries (map written two))

load_matrix-written_example :
    load_matrix resolve (entries (map written two)) ≡ ok (map (resolved resolve) two)
load_matrix-written_example = load_matrix-written resolve two two_ne_nil two-AreConditions
