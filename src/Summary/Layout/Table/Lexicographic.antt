-- ===== src/Summary/Layout/Table/Lexicographic.antt =====
-- Python's order of lists and tuples: by the first elements that differ.
use matching_machine.Prelude.{
  ◌≡◌, ◌⊎◌, inl, inr, refl, Bool, true, false, ◌&&◌, ◌||◌, List, [], ◌∷◌, arith,
}
use matching_machine.Report.Floats.{Order, lt, eqv}

module _ {F : Type 0} ⦃o : Order F⦄ where
  abbrev pub le_list : List F → List F → Bool
  le_list [] ys = true
  le_list (x ∷ xs) [] = false
  le_list (x ∷ xs) (y ∷ ys) = lt x y || (eqv x y && le_list xs ys)

  pub le_list_total : (xs ys : List F) → (le_list xs ys ≡ true) ⊎ (le_list ys xs ≡ true)
  le_list_total [] ys = inl refl
  le_list_total (x ∷ xs) [] = inr refl
  le_list_total (x ∷ xs) (y ∷ ys) = ground (arith, o.le_total x y, le_list_total xs ys)

  pub le_list_trans :
      (xs ys zs : List F) → le_list xs ys ≡ true → le_list ys zs ≡ true → le_list xs zs ≡ true
  le_list_trans [] ys zs p q = refl
  le_list_trans (x ∷ xs) [] zs p q = cc
  le_list_trans (x ∷ xs) (y ∷ ys) [] p q = cc
  le_list_trans (x ∷ xs) (y ∷ ys) (z ∷ zs) p q = ground (
    arith,
    o.le_trans x y z,
    o.le_trans z y x,
    o.le_trans y z x,
    o.le_trans z x y,
    o.le_trans x z y,
    o.le_trans y x z,
    o.le_total x y,
    o.le_total y z,
    o.le_total x z,
    le_list_trans xs ys zs,
  )

  instance abbrev pub list_order : Order (List F)
  list_order = record { le = le_list; le_total = le_list_total; le_trans = le_list_trans }
