-- ===== src/Summary/Grouping.antt =====
-- The default dictionaries of lists in scripts/report/diagnose_report.py: rows grouped under a key.
pub mod Laws
use matching_machine.Prelude.{ℕ, ◌+◌, ◌≡◌, Bool, true, List, [], ◌∷◌, ◌++◌, length, if◌then◌else◌}

-- Keys that are compared.
pub record Keys (K : Type 0) : Type 0 where
  pub same : K → K → Bool
  pub same_eq : (k l : K) → same k l ≡ true → k ≡ l
  pub same_self : (k : K) → same k k ≡ true

abbrev pub Groups : (K A : Type 0) → Type 0
Groups K A = List (K × List A)

module _ {K A : Type 0} ⦃keys : Keys K⦄ where
  -- `grouped[key].append(x)`
  unfoldable pub add_to : K → A → Groups K A → Groups K A
  add_to k x [] = (k, x ∷ []) ∷ []
  add_to k x ((l, xs) ∷ groups) =
      let rest = add_to k x groups in
      if keys.same l k then (l, xs ++ x ∷ []) ∷ groups else (l, xs) ∷ rest

module _ {R K A : Type 0} ⦃keys : Keys K⦄ (key : R → K) (value : R → A) where
  -- The loop over the rows.
  unfoldable pub group_all : List R → Groups K A → Groups K A
  group_all [] groups = groups
  group_all (r ∷ rows) groups = group_all rows (add_to (key r) (value r) groups)
