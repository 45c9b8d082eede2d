-- ===== src/Summary/Layout/Tests.antt =====
-- The layout logs of two launches, and the theorem on the files.
use matching_machine.Effects.{ok, raise}
use matching_machine.Effects.Checks.{Holds}
use matching_machine.Prelude.{
  ℕ, ◌≡◌, refl, true, some, List, [], ◌∷◌, ◌++◌, ◌==◌, if◌then◌else◌, All,
}
use matching_machine.Summary.{LaunchRow}
use matching_machine.Summary.Layout.{
  Kind, log, command, other_kind, Member, File, conflicting_copies, no_single_launch, Reader,
  Observation, raw_files, layout_observations,
}
use matching_machine.Summary.Layout.Files.{IsKept, raw_files-IsKept}

abbrev member : ℕ → Kind → ℕ → Member
member stem kind content = record { stem = stem; kind = kind; is_file = true; content = content }

-- The archive holds launch 1 and the directory both; a note is left out.
abbrev archive : List Member
archive = member 1 log 100 ∷ member 1 command 7 ∷ []

abbrev raw : List Member
raw = member 1 log 100 ∷ member 2 log 130 ∷ member 2 command 7 ∷ member 3 other_kind 9 ∷ []

abbrev file : ℕ → Kind → ℕ → File
file stem kind content = record { stem = stem; kind = kind; content = content }

abbrev files : List File
files = file 1 log 100 ∷ file 1 command 7 ∷ file 2 log 130 ∷ file 2 command 7 ∷ []

raw_files-both : raw_files archive raw ≡ ok files
unfolding raw_files
raw_files-both = refl

raw_files-conflict : raw_files archive (member 1 log 101 ∷ []) ≡ raise conflicting_copies
unfolding raw_files
raw_files-conflict = refl

-- A log's content is the address that it prints.
abbrev reader : Reader
reader = record {
  lines_of = λ n.
      record { address = some n; mod64 = some (if n == 100 then 36 else 2); mod4096 = some n } ∷ [];
  metadata_of = λ n. record { complete = true; condition = n };
  identity_of = λ stem. some (1, stem);
}

abbrev launch_row : ℕ → LaunchRow
launch_row block = record {
  key = record { session = 1; block = block; condition = 7; binary = 4 };
  exit_status = 0;
}

abbrev launches : List LaunchRow
launches = launch_row 1 ∷ launch_row 2 ∷ []

abbrev observation : ℕ → ℕ → ℕ → Observation
observation block address residue = record {
  key = record { session = 1; block = block; condition = 7; binary = 4 };
  address = address ∷ [];
  mod64 = residue ∷ [];
  mod4096 = address ∷ [];
}

layout_observations-files :
    layout_observations reader launches files ≡ ok (observation 2 130 2 ∷ observation 1 100 36 ∷ [])
unfolding layout_observations
layout_observations-files = refl

layout_observations-unknown :
    layout_observations reader (launch_row 1 ∷ []) files ≡ raise no_single_launch
unfolding layout_observations
layout_observations-unknown = refl

raw_files-IsKept_example : Holds (λ out. All (IsKept out) (archive ++ raw)) (raw_files archive raw)
raw_files-IsKept_example = raw_files-IsKept archive raw
