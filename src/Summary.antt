-- ===== src/Summary.antt =====
-- `summarize` of scripts/report/diagnose_report.py: it checks a recorded study and groups its times;
-- its tables are in the child modules. Names and paths are only compared, so numbers stand for them.
pub mod Groups
pub mod Complete
pub mod Grouping
pub mod Telemetry
pub mod Scores
pub mod Tables
pub mod Layout
mod Tests
use matching_machine.Effects.{Result, ok, raise}
use matching_machine.Prelude.{
  ℕ, zero, suc, ◌+◌, ◌-◌, Bool, true, false, ◌&&◌, ◌||◌, not, Option, none, some, List, [], ◌∷◌,
  ◌++◌, ◌==◌, map, any, all, leb, ltb, if◌then◌else◌, length, set_eq,
}

-- `launch_key`: session, block, condition and binary.
pub record Key : Type 0 where
  pub session : ℕ
  pub block : ℕ
  pub condition : ℕ
  pub binary : ℕ

abbrev pub same_key : Key → Key → Bool
same_key k l =
    k.session == l.session
    && k.block == l.block
    && k.condition == l.condition
    && k.binary == l.binary

pub record LaunchRow : Type 0 where
  pub key : Key
  pub exit_status : ℕ

-- A row of samples.csv; `F` are its times.
pub record Sample (F : Type 0) : Type 0 where
  pub key : Key
  pub benchmark : ℕ
  pub warmup : ℕ
  pub repetition : ℕ
  pub time : F

-- A value of `design` in env.json: `other` is no whole number of at least zero.
pub data Count : Type 0 where
  absent other : Count
  whole : ℕ → Count

pub record Environment : Type 0 where
  -- `none` where it is not recorded
  pub complete : Option Bool
  pub repetitions : Count
  pub warmup : Count

-- The messages of the `ValueError`s.
pub data Fault : Type 0 where
  incomplete_study invalid_repetitions duplicate_launches no_measurements failed_launch : Fault
  no_launch duplicate_repetition invalid_time incomplete_repetitions no_samples : Fault

-- The repetitions of a benchmark in a launch: a dictionary from their numbers to their times.
pub record Group (F : Type 0) : Type 0 where
  pub key : Key
  pub benchmark : ℕ
  pub times : List (ℕ × F)

abbrev pub or_default : ℕ → Count → Option ℕ
or_default d absent = some d
or_default d other = none
or_default d (whole n) = some n

abbrev pub numbers : {F : Type 0} → List (ℕ × F) → List ℕ
numbers times = map (λ t. t.0) times

-- `n` numbers from `first` on
unfoldable pub range_from : ℕ → ℕ → List ℕ
range_from first zero = []
range_from first (suc n) = first ∷ range_from (suc first) n

-- `expected` and `warmup`, with their check
unfoldable pub bounds_of : Option ℕ → Option ℕ → Result Fault (ℕ × ℕ)
bounds_of (some expected) (some warmup) =
    if ltb warmup expected then ok (expected, warmup) else raise invalid_repetitions
bounds_of _ _ = raise invalid_repetitions

unfoldable pub has_key : List LaunchRow → Key → Bool
has_key [] k = false
has_key (r ∷ rows) k = same_key r.key k || has_key rows k

-- `len(launch_records) != len(launches)`
unfoldable pub has_duplicates : List LaunchRow → Bool
unfolding has_key
has_duplicates [] = false
has_duplicates (r ∷ rows) = has_key rows r.key || has_duplicates rows

abbrev pub is_false : Option Bool → Bool
is_false (some false) = true
is_false _ = false

module _ {F : Type 0} where
  abbrev pub is_group : Key → ℕ → Group F → Bool
  is_group key benchmark g = same_key g.key key && g.benchmark == benchmark

  -- `group[index] = value` in the default dictionary; `none` is a repetition that is there already.
  unfoldable pub put_time : Key → ℕ → ℕ → F → List (Group F) → Option (List (Group F))
  put_time key benchmark index time [] =
      some (record { key = key; benchmark = benchmark; times = (index, time) ∷ [] } ∷ [])
  put_time key benchmark index time (g ∷ groups) =
      let rest = put_time key benchmark index time groups in
      if is_group key benchmark g
      then (if any (λ n. n == index) (numbers g.times)
          then none
          else some (record g { times = g.times ++ (index, time) ∷ [] } ∷ groups))
      else elim rest [ none ↦ none | some groups' ↦ some (g ∷ groups') ]

  -- One turn of the loop over the samples. `is_time` is `0 < value < float("inf")`.
  unfoldable pub add_sample :
      (F → Bool) → List LaunchRow → Sample F → List (Group F) → Result Fault (List (Group F))
  unfolding put_time has_key
  add_sample is_time launches s groups =
      if not (has_key launches s.key)
      then raise no_launch
      else (if not (s.warmup == 0)
          then ok groups
          else elim (put_time s.key s.benchmark s.repetition s.time groups) [
            | none ↦ raise duplicate_repetition
            | some groups' ↦ if is_time s.time then ok groups' else raise invalid_time
          ])

  unfoldable pub add_samples :
      (F → Bool) → List LaunchRow → List (Sample F) → List (Group F) → Result Fault (List (Group F))
  unfolding add_sample
  add_samples is_time launches [] groups = ok groups
  add_samples is_time launches (s ∷ samples) groups = elim (add_sample is_time launches s groups) [
    | ok groups' ↦ add_samples is_time launches samples groups'
    | raise e ↦ raise e
  ]

  unfoldable pub is_full : (expected warmup : ℕ) → Group F → Bool
  unfolding range_from
  is_full expected warmup g = set_eq (numbers g.times) (range_from warmup (expected - warmup))

  unfoldable pub has_samples : List (Group F) → LaunchRow → Bool
  has_samples groups r = any (λ g. same_key r.key g.key) groups

  -- The checks of the groups, and the launches without samples.
  unfoldable pub check_groups :
      (expected warmup : ℕ) → List LaunchRow → List (Group F) → Result Fault (List (Group F))
  unfolding is_full has_samples
  check_groups expected warmup launches groups =
      if not (all (is_full expected warmup) groups)
      then raise incomplete_repetitions
      else (if all (has_samples groups) launches then ok groups else raise no_samples)

  -- The checks of the launches.
  unfoldable pub check_launches : List (Sample F) → List LaunchRow → Option Fault
  unfolding has_duplicates
  check_launches samples launches =
      if has_duplicates launches
      then some duplicate_launches
      else (if length samples == 0 || length launches == 0
          then some no_measurements
          else (if any (λ r. not (r.exit_status == 0)) launches then some failed_launch else none))

  unfoldable pub group_samples :
      (F → Bool)
      → (expected warmup : ℕ) → List (Sample F)
      → List LaunchRow
      → Result Fault (List (Group F))
  unfolding check_launches add_samples check_groups
  group_samples is_time expected warmup samples launches = elim (check_launches samples launches) [
    | some e ↦ raise e
    | none ↦ elim (add_samples is_time launches samples []) [
      | raise e ↦ raise e
      | ok groups ↦ check_groups expected warmup launches groups
    ]
  ]

  unfoldable pub summarize :
      (F → Bool) → Environment → List (Sample F) → List LaunchRow → Result Fault (List (Group F))
  unfolding bounds_of group_samples
  summarize is_time env samples launches =
      if is_false env.complete
      then raise incomplete_study
      else elim (bounds_of (or_default 5 env.repetitions) (or_default 0 env.warmup)) [
        | raise e ↦ raise e
        | ok (expected, warmup) ↦ group_samples is_time expected warmup samples launches
      ]
