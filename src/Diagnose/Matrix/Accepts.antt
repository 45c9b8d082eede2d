-- ===== src/Diagnose/Matrix/Accepts.antt =====
-- Every valid matrix is accepted by `load_matrix`, and means what it says.
use matching_machine.Effects.{Result, ok}
use matching_machine.Prelude.{◌≡◌, ◌≢◌, refl, false, some, List, [], ◌∷◌, any, All, arith, map}
use matching_machine.Diagnose.Matrix.{
  Text, text, plain, items, fields, Entry, object, entries, Condition, Fault, is_controlled,
  name_of, text_of, texts_of, list_of, check_args, pairs_of, env_of, ◌>>=◌, load_object,
  load_entries, load_matrix,
}
use matching_machine.Diagnose.Matrix.Valid.{IsFresh, IsText, IsEnv, AreClean, AreConditions}

-- A condition as it is written in the file, each field given.
abbrev pub written : Condition → Entry
written c = object (record {
  name = some (plain (text c.name));
  binary = some (plain (text c.binary));
  filter = some (plain (text c.filter));
  prefix = some (items (map text c.prefix));
  args = some (items (map text c.args));
  env = some (fields (map (λ f. (f.0, text f.1)) c.env));
  has_unknown = false;
})

bind_ok :
    {A B : Type 0} (r : Result Fault A) (f : A → Result Fault B) (a : A) (b : Result Fault B)
    → r ≡ ok a
    → f a ≡ b
    → r >>= f ≡ b
bind_ok r f a b e g = rw e g

texts_of-map : (ts : List Text) → AreClean ts → texts_of (map text ts) ≡ ok ts
unfolding texts_of
texts_of-map [] h = refl
texts_of-map (t ∷ ts) h = ground (arith, texts_of-map ts h.1)

pairs_of-map :
    (ps : List (Text × Text)) → All IsEnv ps → pairs_of (map (λ f. (f.0, text f.1)) ps) ≡ ok ps
unfolding pairs_of
pairs_of-map [] h = refl
pairs_of-map ((k, v) ∷ ps) h = ground (arith, pairs_of-map ps h.1)

name_of-ok :
    (names : List Text) (t : Text) → IsFresh names t → name_of names (some (plain (text t))) ≡ ok t
unfolding name_of
name_of-ok names t h = ground arith

text_of-ok : (t : Text) → IsText t → text_of (some (plain (text t))) ≡ ok t
unfolding text_of
text_of-ok t h = ground arith

check_args-ok : (ts : List Text) → any is_controlled ts ≡ false → check_args ts ≡ ok ts
unfolding check_args
check_args-ok ts h = rw h refl

module _ (resolve : Text → Text) where
  abbrev pub resolved : Condition → Condition
  resolved c = record c { binary = resolve c.binary }

  load_entries-written :
      (names : List Text) (cs : List Condition)
      → AreConditions (λ t. t) names cs
      → load_entries resolve names (map written cs) ≡ ok (map resolved cs)
  unfolding load_entries load_object list_of env_of
  load_entries-written names [] h = refl
  load_entries-written names (c ∷ cs) ((fresh, (b, same, is), filter, prefix, args, env), h) =
      let binary : IsText c.binary = rw same is in
      bind_ok _ _ (resolved c) _
        (bind_ok _ _ c.name _ (name_of-ok names c.name fresh) (
          bind_ok _ _ c.binary _ (text_of-ok c.binary binary) (
            bind_ok _ _ c.filter _ (text_of-ok c.filter filter) (
              bind_ok _ _ c.prefix _ (texts_of-map c.prefix prefix) (
                bind_ok _ _ c.args _ (texts_of-map c.args args.0) (
                  bind_ok _ _ c.args _ (check_args-ok c.args args.1)
                    (bind_ok _ _ c.env _ (pairs_of-map c.env env) refl)))))))
        (bind_ok _ _ (map resolved cs) _ (load_entries-written (c.name ∷ names) cs h) refl)

  -- Conditions of which there is at least one, each valid and with a name that none before it has, are
  -- read back from the way they are written, with the path of the binary resolved.
  pub load_matrix-written :
      (cs : List Condition)
      → cs ≢ []
      → AreConditions (λ t. t) [] cs
      → load_matrix resolve (entries (map written cs)) ≡ ok (map resolved cs)
  unfolding load_matrix
  load_matrix-written [] ne h = absurd (ne refl)
  load_matrix-written (c ∷ cs) ne h = load_entries-written [] (c ∷ cs) h
