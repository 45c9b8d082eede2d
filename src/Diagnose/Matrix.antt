-- ===== src/Diagnose/Matrix.antt =====
-- `load_matrix` of scripts/record/bench_diagnose.py, from the value that the JSON parser gives. Texts
-- are lists of code points.
pub mod Valid
pub mod Accepts
mod Tests
use matching_machine.Effects.{Result, ok, raise}
use matching_machine.Prelude.{
  ℕ, ◌+◌, Bool, true, false, ◌&&◌, ◌||◌, not, Option, none, some, List, [], ◌∷◌, ◌++◌, ◌==◌, leb,
  any, all, contains, if◌then◌else◌, length,
}

abbrev pub Text : Type 0
Text = List ℕ

-- A value inside of a list or an object: a text or anything else.
pub data Item : Type 0 where
  text : Text → Item
  other_item : Item

-- The value of a field, with what the checks tell apart.
pub data Value : Type 0 where
  plain : Item → Value
  items : List Item → Value
  fields : List (Text × Item) → Value

-- An element of the matrix: an object by its six fields, and whether it has another one, or no object.
pub record Object : Type 0 where
  pub name : Option Value
  pub binary : Option Value
  pub filter : Option Value
  pub prefix : Option Value
  pub args : Option Value
  pub env : Option Value
  pub has_unknown : Bool

pub data Entry : Type 0 where
  object : Object → Entry
  no_object : Entry

pub data Json : Type 0 where
  entries : List Entry → Json
  no_list : Json

-- A condition as the study uses it.
pub record Condition : Type 0 where
  pub name : Text
  pub binary : Text
  pub filter : Text
  pub prefix : List Text
  pub args : List Text
  pub env : List (Text × Text)

-- The messages of the `ValueError`s.
pub data Fault : Type 0 where
  no_matrix not_an_object unknown_fields bad_name duplicate_name bad_text bad_list : Fault
  controlled_argument bad_env : Fault

unfoldable pub same_text : Text → Text → Bool
same_text [] [] = true
same_text [] (d ∷ t) = false
same_text (c ∷ s) [] = false
same_text (c ∷ s) (d ∷ t) = c == d && same_text s t

-- `[A-Za-z0-9]`
unfoldable pub is_alnum : ℕ → Bool
is_alnum c = (leb 65 c && leb c 90) || (leb 97 c && leb c 122) || (leb 48 c && leb c 57)

-- `[A-Za-z0-9_-]`
unfoldable pub is_name_char : ℕ → Bool
unfolding is_alnum
is_name_char c = is_alnum c || c == 95 || c == 45

unfoldable pub is_name : Text → Bool
unfolding is_alnum is_name_char
is_name [] = false
is_name (c ∷ t) = is_alnum c && all is_name_char t

-- `"\0" not in …`
unfoldable pub no_nul : Text → Bool
no_nul t = not (contains t 0)

-- `arg.split("=", 1)[0]`
unfoldable pub option_of : Text → Text
option_of [] = []
option_of (c ∷ t) = if c == 61 then [] else c ∷ option_of t

-- `--benchmark_`
abbrev pub benchmark_option : Text
benchmark_option = 45 ∷ 45 ∷ 98 ∷ 101 ∷ 110 ∷ 99 ∷ 104 ∷ 109 ∷ 97 ∷ 114 ∷ 107 ∷ 95 ∷ []

-- The options that the recorder controls: filter, repetitions, out, out_format,
-- report_aggregates_only and list_tests.
abbrev pub controlled : List Text
controlled =
    (benchmark_option ++ 102 ∷ 105 ∷ 108 ∷ 116 ∷ 101 ∷ 114 ∷ [])
    ∷ (benchmark_option ++ 114 ∷ 101 ∷ 112 ∷ 101 ∷ 116 ∷ 105 ∷ 116 ∷ 105 ∷ 111 ∷ 110 ∷ 115 ∷ [])
    ∷ (benchmark_option ++ 111 ∷ 117 ∷ 116 ∷ [])
    ∷ (benchmark_option ++ 111 ∷ 117 ∷ 116 ∷ 95 ∷ 102 ∷ 111 ∷ 114 ∷ 109 ∷ 97 ∷ 116 ∷ [])
    ∷ (benchmark_option
        ++ 114 ∷ 101 ∷ 112 ∷ 111 ∷ 114 ∷ 116 ∷ 95 ∷ 97 ∷ 103 ∷ 103 ∷ 114 ∷ 101 ∷ 103 ∷ 97 ∷ 116
          ∷ 101 ∷ 115 ∷ 95 ∷ 111 ∷ 110 ∷ 108 ∷ 121 ∷ [])
    ∷ (benchmark_option ++ 108 ∷ 105 ∷ 115 ∷ 116 ∷ 95 ∷ 116 ∷ 101 ∷ 115 ∷ 116 ∷ 115 ∷ [])
    ∷ []

unfoldable pub is_controlled : Text → Bool
unfolding same_text option_of
is_controlled arg = any (same_text (option_of arg)) controlled

-- `name`: a text that the pattern matches, not seen before.
unfoldable pub name_of : List Text → Option Value → Result Fault Text
unfolding is_name same_text
name_of names (some (plain (text t))) =
    if not (is_name t)
    then raise bad_name
    else (if any (same_text t) names then raise duplicate_name else ok t)
name_of names _ = raise bad_name

-- `binary` and `filter`: a text that is not empty and has no NUL.
unfoldable pub text_of : Option Value → Result Fault Text
unfolding no_nul
text_of (some (plain (text t))) = if length t == 0 || not (no_nul t) then raise bad_text else ok t
text_of _ = raise bad_text

unfoldable pub texts_of : List Item → Result Fault (List Text)
unfolding no_nul
texts_of [] = ok []
texts_of (other_item ∷ is) = raise bad_list
texts_of (text t ∷ is) =
    let rest = texts_of is in
    if no_nul t then elim rest [ raise e ↦ raise e | ok ts ↦ ok (t ∷ ts) ] else raise bad_list

-- `prefix` and `args`: a list of texts without NUL; an empty one where there is none.
unfoldable pub list_of : Option Value → Result Fault (List Text)
unfolding texts_of
list_of none = ok []
list_of (some (items is)) = texts_of is
list_of (some (plain i)) = raise bad_list
list_of (some (fields fs)) = raise bad_list

-- The loop over `args`.
unfoldable pub check_args : List Text → Result Fault (List Text)
unfolding is_controlled
check_args args = if any is_controlled args then raise controlled_argument else ok args

-- A name of the environment: not empty, without `=` and NUL.
unfoldable pub is_env_name : Text → Bool
unfolding no_nul
is_env_name k = not (length k == 0) && not (contains k 61) && no_nul k

unfoldable pub pairs_of : List (Text × Item) → Result Fault (List (Text × Text))
unfolding is_env_name no_nul
pairs_of [] = ok []
pairs_of ((k, other_item) ∷ fs) = raise bad_env
pairs_of ((k, text v) ∷ fs) =
    let rest = pairs_of fs in
    if is_env_name k && no_nul v
    then elim rest [ raise e ↦ raise e | ok ps ↦ ok ((k, v) ∷ ps) ]
    else raise bad_env

unfoldable pub env_of : Option Value → Result Fault (List (Text × Text))
unfolding pairs_of
env_of none = ok []
env_of (some (fields fs)) = pairs_of fs
env_of (some (plain i)) = raise bad_env
env_of (some (items is)) = raise bad_env

infixl 5 ◌>>=◌
abbrev pub ◌>>=◌ : {A B : Type 0} → Result Fault A → (A → Result Fault B) → Result Fault B
ok a >>= f = f a
raise e >>= f = raise e

-- `resolve` is the path that `pathlib` makes of a binary's name in the build or in the root directory.
module _ (resolve : Text → Text) where
  unfoldable pub load_object : List Text → Object → Result Fault Condition
  unfolding name_of text_of list_of check_args env_of
  load_object names o = if o.has_unknown then raise unknown_fields else (do
    name ← name_of names o.name
    binary ← text_of o.binary
    filter ← text_of o.filter
    prefix ← list_of o.prefix
    texts ← list_of o.args
    args ← check_args texts
    env ← env_of o.env
    ok (record {
      name = name;
      binary = resolve binary;
      filter = filter;
      prefix = prefix;
      args = args;
      env = env;
    }))

  -- The loop over the matrix, with the names seen so far.
  unfoldable pub load_entries : List Text → List Entry → Result Fault (List Condition)
  unfolding load_object
  load_entries names [] = ok []
  load_entries names (no_object ∷ es) = raise not_an_object
  load_entries names (object o ∷ es) = do
    c ← load_object names o
    cs ← load_entries (c.name ∷ names) es
    ok (c ∷ cs)

  unfoldable pub load_matrix : Json → Result Fault (List Condition)
  unfolding load_entries
  load_matrix no_list = raise no_matrix
  load_matrix (entries []) = raise no_matrix
  load_matrix (entries (e ∷ es)) = load_entries [] (e ∷ es)
