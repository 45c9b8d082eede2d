-- ===== src/Summary/Layout.antt =====
-- `raw_files` and the observations of `layout_rows` in scripts/report/diagnose_report.py. File names
-- and contents are numbers; what the regular expressions and the JSON parser find in them is a
-- parameter.
pub mod Files
pub mod Lines
pub mod Observed
pub mod Table
mod Tests
use matching_machine.Effects.{Result, ok, raise}
use matching_machine.Prelude.{
  ℕ, ◌+◌, ◌%◌, Bool, true, false, ◌&&◌, ◌||◌, not, Option, none, some, List, [], ◌∷◌, ◌++◌, ◌==◌,
  if◌then◌else◌, length, select, any,
}
use matching_machine.Summary.{Key, same_key, LaunchRow}

pub data Kind : Type 0 where
  log command other_kind : Kind

-- A member of the archive or an entry of the directory, by the base name of its path.
pub record Member : Type 0 where
  pub stem : ℕ
  pub kind : Kind
  pub is_file : Bool
  pub content : ℕ

-- A file that is kept.
pub record File : Type 0 where
  pub stem : ℕ
  pub kind : Kind
  pub content : ℕ

pub data Fault : Type 0 where
  conflicting_copies no_metadata incomplete_launch unrecognized_name no_single_launch : Fault
  several_logs missing_field inconsistent_residues : Fault

abbrev pub same_kind : Kind → Kind → Bool
same_kind log log = true
same_kind command command = true
same_kind other_kind other_kind = true
same_kind _ _ = false

abbrev pub is_wanted : Kind → Bool
is_wanted other_kind = false
is_wanted _ = true

-- `files.get(name)`
unfoldable pub find_file : ℕ → Kind → List File → Option ℕ
find_file stem kind [] = none
find_file stem kind (f ∷ files) =
    if f.stem == stem && same_kind f.kind kind then some f.content else find_file stem kind files

-- `keep`; a copy with the same content changes nothing.
unfoldable pub keep_with : Member → List File → Option ℕ → Result Fault (List File)
keep_with m files none =
    ok (files ++ record { stem = m.stem; kind = m.kind; content = m.content } ∷ [])
keep_with m files (some content) =
    if content == m.content then ok files else raise conflicting_copies

unfoldable pub keep : Member → List File → Result Fault (List File)
unfolding keep_with find_file
keep m files = keep_with m files (find_file m.stem m.kind files)

-- The members of the archive, then the entries of the directory.
unfoldable pub keep_all : List Member → List File → Result Fault (List File)
unfolding keep
keep_all [] files = ok files
keep_all (m ∷ members) files =
    if m.is_file && is_wanted m.kind
    then elim (keep m files) [ raise e ↦ raise e | ok files' ↦ keep_all members files' ]
    else keep_all members files

unfoldable pub raw_files : (archive raw : List Member) → Result Fault (List File)
unfolding keep_all
raw_files archive raw = keep_all (archive ++ raw) []

-- The fields of a layout line; `none` is a field that is missing.
pub record Line : Type 0 where
  pub address : Option ℕ
  pub mod64 : Option ℕ
  pub mod4096 : Option ℕ

pub record Metadata : Type 0 where
  pub complete : Bool
  pub condition : ℕ

-- What is read in a file: the layout lines of a log, the metadata of a command, and the session and the
-- block in a stem.
pub record Reader : Type 0 where
  pub lines_of : ℕ → List Line
  pub metadata_of : ℕ → Metadata
  pub identity_of : ℕ → Option (ℕ × ℕ)

-- The addresses of a launch with their residues, in the order of the lines.
pub record Observation : Type 0 where
  pub key : Key
  pub address : List ℕ
  pub mod64 : List ℕ
  pub mod4096 : List ℕ

-- One line, added to what was seen.
unfoldable pub add_residues : (address mod64 mod4096 : ℕ) → Observation → Result Fault Observation
add_residues x m n v =
    if not (x % 64 == m) || not (x % 4096 == n)
    then raise inconsistent_residues
    else ok (record v {
      address = v.address ++ x ∷ [];
      mod64 = v.mod64 ++ m ∷ [];
      mod4096 = v.mod4096 ++ n ∷ [];
    })

unfoldable pub add_fields : Option ℕ → Option ℕ → Option ℕ → Observation → Result Fault Observation
unfolding add_residues
add_fields (some x) (some m) (some n) v = add_residues x m n v
add_fields _ _ _ v = raise missing_field

unfoldable pub add_lines : List Line → Observation → Result Fault Observation
unfolding add_fields
add_lines [] v = ok v
add_lines (l ∷ lines) v = elim (add_fields l.address l.mod64 l.mod4096 v) [
  | raise e ↦ raise e
  | ok v' ↦ add_lines lines v'
]

-- `key[:3] == (session, block, condition)`
abbrev pub is_match : ℕ × ℕ → ℕ → LaunchRow → Bool
is_match (session, block) condition r =
    r.key.session == session && r.key.block == block && r.key.condition == condition

-- The only launch that matches.
unfoldable pub only : List LaunchRow → Result Fault Key
only [] = raise no_single_launch
only (r ∷ []) = ok r.key
only (r ∷ s ∷ rows) = raise no_single_launch

-- The source searches the keys of the dictionary `by_key`; `summarize` has refused launches of the same
-- key before, so the launches stand for them.
unfoldable pub identify : List LaunchRow → Option (ℕ × ℕ) → ℕ → Result Fault Key
unfolding only
identify launches none condition = raise unrecognized_name
identify launches (some identity) condition = only (select (is_match identity condition) launches)

-- The metadata of a log, where there is a file of it.
unfoldable pub complete_metadata : Reader → Option ℕ → Result Fault Metadata
complete_metadata reader none = raise no_metadata
complete_metadata reader (some content) =
    let m = reader.metadata_of content in if m.complete then ok m else raise incomplete_launch

unfoldable pub find_launch : Reader → List LaunchRow → List File → ℕ → Result Fault Key
unfolding complete_metadata identify find_file
find_launch reader launches files stem =
    elim (complete_metadata reader (find_file stem command files)) [
      | raise e ↦ raise e
      | ok m ↦ identify launches (reader.identity_of stem) m.condition
    ]

unfoldable pub observe : List Line → List Observation → Key → Result Fault (List Observation)
unfolding add_lines
observe lines observations key =
    if any (λ v. same_key v.key key) observations
    then raise several_logs
    else elim (add_lines lines (record { key = key; address = []; mod64 = []; mod4096 = [] })) [
      | raise e ↦ raise e
      | ok v ↦ ok (v ∷ observations)
    ]

-- One turn of the loop over the files.
unfoldable pub read_log :
    Reader → List LaunchRow → List File → File → List Observation → Result Fault (List Observation)
unfolding find_launch observe
read_log reader launches files f observations =
    let lines = reader.lines_of f.content in
    if not (same_kind f.kind log) || length lines == 0
    then ok observations
    else elim (find_launch reader launches files f.stem) [
      | raise e ↦ raise e
      | ok key ↦ observe lines observations key
    ]

unfoldable pub read_logs :
    Reader
    → List LaunchRow
    → (all left : List File) → List Observation
    → Result Fault (List Observation)
unfolding read_log
read_logs reader launches all [] observations = ok observations
read_logs reader launches all (f ∷ left) observations =
    elim (read_log reader launches all f observations) [
      | raise e ↦ raise e
      | ok observations' ↦ read_logs reader launches all left observations'
    ]

-- The observations of `layout_rows`, the last one first.
unfoldable pub layout_observations :
    Reader → List LaunchRow → List File → Result Fault (List Observation)
unfolding read_logs
layout_observations reader launches files = read_logs reader launches files files []
