-- ===== src/Report/Sort.antt =====
-- Python's stable `sorted(…, key=…)` on the entries of a numbered list, and what every sort keeps.
use matching_machine.Prelude.{
  suc, ◌≡◌, refl, inl, inr, Bool, true, List, [], ◌∷◌, arith, if◌then◌else◌, length, All, All-map,
  count, Bool-cases,
}
use matching_machine.Report.Floats.{Order, le}

-- `sorted`: an element goes in front of the first that is not below it.
module _ {A F : Type 0} ⦃o : Order F⦄ (key : A → F) where
  unfoldable pub insert_sorted : A → List A → List A
  insert_sorted x [] = x ∷ []
  insert_sorted x (y ∷ ys) = if le (key x) (key y) then x ∷ y ∷ ys else y ∷ insert_sorted x ys

  unfoldable pub sorted : List A → List A
  unfolding insert_sorted
  sorted [] = []
  sorted (x ∷ xs) = insert_sorted x (sorted xs)

  abbrev pub IsSorted : List A → Type 0
  IsSorted [] = Unit
  IsSorted (x ∷ xs) = All (λ y. le (key x) (key y) ≡ true) xs × IsSorted xs

  pub All-insert_sorted :
      (P : A → Type 0) (x : A) (ys : List A) → P x → All P ys → All P (insert_sorted x ys)
  unfolding insert_sorted
  All-insert_sorted P x [] h hs = (h, tt)
  All-insert_sorted P x (y ∷ ys) h hs = elim (Bool-cases (le (key x) (key y))) [
    | inl e ↦ rw (e, insert_sorted) (h, hs)
    | inr e ↦ rw (e, insert_sorted) (hs.0, All-insert_sorted P x ys h hs.1)
  ]

  pub All-sorted : (P : A → Type 0) (xs : List A) → All P xs → All P (sorted xs)
  unfolding sorted
  All-sorted P [] h = tt
  All-sorted P (x ∷ xs) h = All-insert_sorted P x (sorted xs) h.0 (All-sorted P xs h.1)

  All-of_insert_sorted :
      (P : A → Type 0) (x : A) (ys : List A) → All P (insert_sorted x ys) → P x × All P ys
  unfolding insert_sorted
  All-of_insert_sorted P x [] h = (h.0, tt)
  All-of_insert_sorted P x (y ∷ ys) h = elim (Bool-cases (le (key x) (key y))) [
    | inl e ↦ rw (e, insert_sorted) at h
    | inr e ↦
        let h' : P y × All P (insert_sorted x ys) = rw (e, insert_sorted) at h in
        let (hx, hys) = All-of_insert_sorted P x ys h'.1 in (hx, (h'.0, hys))
  ]

  pub All-of_sorted : (P : A → Type 0) (xs : List A) → All P (sorted xs) → All P xs
  unfolding sorted
  All-of_sorted P [] h = tt
  All-of_sorted P (x ∷ xs) h =
      let (hx, hxs) = All-of_insert_sorted P x (sorted xs) h in (hx, All-of_sorted P xs hxs)

  insert_sorted-IsSorted : (x : A) (ys : List A) → IsSorted ys → IsSorted (insert_sorted x ys)
  unfolding insert_sorted
  insert_sorted-IsSorted x [] h = (tt, tt)
  insert_sorted-IsSorted x (y ∷ ys) h = elim (Bool-cases (le (key x) (key y))) [
    | inl e ↦
        rw (e, insert_sorted) ((e, All-map ys (λ z. o.le_trans (key x) (key y) (key z) e) h.0), h)
    | inr e ↦
        rw (e, insert_sorted)
          (
            All-insert_sorted (λ z. le (key y) (key z) ≡ true) x ys
                (ground (arith, o.le_total (key x) (key y))) h.0,
            insert_sorted-IsSorted x ys h.1,
          )
  ]

  pub sorted-IsSorted : (xs : List A) → IsSorted (sorted xs)
  unfolding sorted
  sorted-IsSorted [] = tt
  sorted-IsSorted (x ∷ xs) = insert_sorted-IsSorted x (sorted xs) (sorted-IsSorted xs)

  count-insert_sorted :
      (p : A → Bool) (x : A) (ys : List A) → count p (insert_sorted x ys) ≡ count p (x ∷ ys)
  unfolding insert_sorted
  count-insert_sorted p x [] = refl
  count-insert_sorted p x (y ∷ ys) = ground (arith, count-insert_sorted p x ys)

  pub count-sorted : (p : A → Bool) (xs : List A) → count p (sorted xs) ≡ count p xs
  unfolding sorted
  count-sorted p [] = refl
  count-sorted p (x ∷ xs) = ground (arith, count-insert_sorted p x (sorted xs), count-sorted p xs)

  length-insert_sorted : (x : A) (ys : List A) → length (insert_sorted x ys) ≡ suc (length ys)
  unfolding insert_sorted
  length-insert_sorted x [] = refl
  length-insert_sorted x (y ∷ ys) = ground (arith, length-insert_sorted x ys)

  pub length-sorted : (xs : List A) → length (sorted xs) ≡ length xs
  unfolding sorted
  length-sorted [] = refl
  length-sorted (x ∷ xs) = ground (arith, length-insert_sorted x (sorted xs), length-sorted xs)
