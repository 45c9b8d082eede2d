-- ===== src/Diagnose/Matrix/Valid.antt =====
-- The matrix that `load_matrix` accepts.
use matching_machine.Effects.{Result, ok, raise}
use matching_machine.Effects.Checks.{Holds, Holds-imp}
use matching_machine.Prelude.{
  suc, ◌≡◌, ◌≢◌, refl, ap, true, false, Option, none, some, List, [], ◌∷◌, ◌==◌, any, length, All,
  arith, Bool-cases, inl, inr,
}
use matching_machine.Diagnose.Matrix.{
  Text, Item, text, other_item, Value, plain, items, fields, Object, Entry, object, no_object, Json,
  entries, no_list, Condition, Fault, same_text, is_name, no_nul, is_controlled, name_of, text_of,
  texts_of, list_of, check_args, is_env_name, pairs_of, env_of, ◌>>=◌, load_object, load_entries,
  load_matrix,
}

Holds-bind :
    {A B : Type 0} (P : A → Type 0) (Q : B → Type 0) (r : Result Fault A) (f : A → Result Fault B)
    → Holds P r
    → ((a : A) → P a → Holds Q (f a))
    → Holds Q (r >>= f)
Holds-bind P Q (ok a) f h g = g a h
Holds-bind P Q (raise x) f h g = tt

abbrev pub IsFresh : List Text → Text → Type 0
IsFresh names t = (is_name t ≡ true) × (any (same_text t) names ≡ false)

abbrev pub IsText : Text → Type 0
IsText t = ((length t == 0) ≡ false) × (no_nul t ≡ true)

abbrev pub IsEnv : Text × Text → Type 0
IsEnv (k, v) = (is_env_name k ≡ true) × (no_nul v ≡ true)

abbrev pub AreClean : List Text → Type 0
AreClean ts = All (λ t. no_nul t ≡ true) ts

name_of-IsFresh : (names : List Text) (v : Option Value) → Holds (IsFresh names) (name_of names v)
unfolding name_of
name_of-IsFresh names none = tt
name_of-IsFresh names (some (items is)) = tt
name_of-IsFresh names (some (fields fs)) = tt
name_of-IsFresh names (some (plain other_item)) = tt
name_of-IsFresh names (some (plain (text t))) = ground arith

text_of-IsText : (v : Option Value) → Holds IsText (text_of v)
unfolding text_of
text_of-IsText none = tt
text_of-IsText (some (items is)) = tt
text_of-IsText (some (fields fs)) = tt
text_of-IsText (some (plain other_item)) = tt
text_of-IsText (some (plain (text t))) = ground arith

texts_of-AreClean : (is : List Item) → Holds AreClean (texts_of is)
unfolding texts_of
texts_of-AreClean [] = tt
texts_of-AreClean (other_item ∷ is) = tt
texts_of-AreClean (text t ∷ is) = ground (arith, texts_of-AreClean is)

list_of-AreClean : (v : Option Value) → Holds AreClean (list_of v)
unfolding list_of
list_of-AreClean none = tt
list_of-AreClean (some (items is)) = texts_of-AreClean is
list_of-AreClean (some (plain i)) = tt
list_of-AreClean (some (fields fs)) = tt

abbrev pub AreFree : List Text → Type 0
AreFree ts = AreClean ts × (any is_controlled ts ≡ false)

check_args-AreFree : (ts : List Text) → AreClean ts → Holds AreFree (check_args ts)
unfolding check_args
check_args-AreFree ts h = elim (Bool-cases (any is_controlled ts)) [
  | inl e ↦ rw e tt
  | inr e ↦ rw e (h, e)
]

pairs_of-IsEnv : (fs : List (Text × Item)) → Holds (All IsEnv) (pairs_of fs)
unfolding pairs_of
pairs_of-IsEnv [] = tt
pairs_of-IsEnv ((k, other_item) ∷ fs) = tt
pairs_of-IsEnv ((k, text v) ∷ fs) = ground (arith, pairs_of-IsEnv fs)

env_of-IsEnv : (v : Option Value) → Holds (All IsEnv) (env_of v)
unfolding env_of
env_of-IsEnv none = tt
env_of-IsEnv (some (fields fs)) = pairs_of-IsEnv fs
env_of-IsEnv (some (plain i)) = tt
env_of-IsEnv (some (items is)) = tt

module _ (resolve : Text → Text) where
  -- A condition that can be run: a valid name that was not seen before, the path of a binary, a filter,
  -- texts without NUL, no argument that the recorder controls, and a valid environment.
  abbrev pub IsCondition : List Text → Condition → Type 0
  IsCondition names c =
      IsFresh names c.name
      × ((b : Text) × (c.binary ≡ resolve b) × IsText b)
      × IsText c.filter
      × AreClean c.prefix
      × AreFree c.args
      × All IsEnv c.env

  load_object-IsCondition :
      (names : List Text) (o : Object) → Holds (IsCondition names) (load_object resolve names o)
  unfolding load_object
  load_object-IsCondition names o = elim (Bool-cases o.has_unknown) [
    | inl e ↦ rw e tt
    | inr e ↦ rw e (
        Holds-bind (IsFresh names) _ _ _ (name_of-IsFresh names o.name) λ name h1.
          Holds-bind IsText _ _ _ (text_of-IsText o.binary) λ binary h2.
            Holds-bind IsText _ _ _ (text_of-IsText o.filter) λ filter h3.
              Holds-bind AreClean _ _ _ (list_of-AreClean o.prefix) λ prefix h4.
                Holds-bind AreClean _ _ _ (list_of-AreClean o.args) λ texts h5.
                  Holds-bind AreFree _ _ _ (check_args-AreFree texts h5) λ args h6.
                    Holds-bind (All IsEnv) _ _ _ (env_of-IsEnv o.env)
                      λ env h7. (h1, (binary, refl, h2), h3, h4, h6, h7))
  ]

  -- The conditions are valid, each with a name that none before it has.
  abbrev pub AreConditions : List Text → List Condition → Type 0
  AreConditions names [] = Unit
  AreConditions names (c ∷ cs) = IsCondition names c × AreConditions (c.name ∷ names) cs

  load_entries-AreConditions :
      (names : List Text) (es : List Entry)
      → Holds
          (λ cs. AreConditions names cs × (length cs ≡ length es))
          (load_entries resolve names es)
  unfolding load_entries
  load_entries-AreConditions names [] = (tt, refl)
  load_entries-AreConditions names (no_object ∷ es) = tt
  load_entries-AreConditions names (object o ∷ es) =
      Holds-bind (IsCondition names) _ _ _ (load_object-IsCondition names o) λ c h.
        Holds-bind (λ cs. AreConditions (c.name ∷ names) cs × (length cs ≡ length es)) _ _ _
          (load_entries-AreConditions (c.name ∷ names) es) λ cs r. ((h, r.0), ap suc r.1)

  -- If `load_matrix` accepts a value, this is a list that is not empty, and there is one condition for
  -- each element of the list. Each condition has a valid name that no condition before it has, the
  -- path of a binary, a filter, and texts without NUL; none of its arguments is controlled by the
  -- recorder, and its environment has valid names.
  pub load_matrix-AreConditions :
      (json : Json)
      → Holds
          (λ cs.
            (es : List Entry) × (json ≡ entries es)
            × (es ≢ [])
            × AreConditions [] cs
            × (length cs ≡ length es))
          (load_matrix resolve json)
  unfolding load_matrix
  load_matrix-AreConditions no_list = tt
  load_matrix-AreConditions (entries []) = tt
  load_matrix-AreConditions (entries (e ∷ es)) =
      let entries_of : List Entry = e ∷ es in
      Holds-imp (λ cs. AreConditions [] cs × (length cs ≡ length entries_of)) _
        (load_entries resolve [] entries_of) (λ cs h. (entries_of, refl, (λ q. cc), h.0, h.1))
        (load_entries-AreConditions [] entries_of)
