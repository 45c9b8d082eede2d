-- ===== src/Diagnose/Study/Blocks.antt =====
-- Launches that are blocks of all conditions, one block behind the other.
use mathlib.Core.List.{append_assoc}
use matching_machine.Prelude.{
  ℕ, zero, suc, ◌+◌, ◌%◌, ◌≡◌, ◌∙◌, refl, sym, ap, subst, Bool, List, [], ◌∷◌, ◌++◌, arith, length,
  take, drop, count, count-append,
}
use matching_machine.Recorder.Schedule.{rotation}

module _ {C : Type 0} where
  take-append_drop : (k : ℕ) (xs : List C) → take k xs ++ drop k xs ≡ xs
  take-append_drop zero xs = refl
  take-append_drop (suc k) [] = refl
  take-append_drop (suc k) (x ∷ xs) = ap (◌∷◌ x) (take-append_drop k xs)

  pub count-rotation :
      (p : C → Bool) (xs : List C) (index : ℕ) → count p (rotation xs index) ≡ count p xs
  unfolding rotation
  count-rotation p xs index =
      let k = index % length xs in
      let whole = ap (count p) (take-append_drop k xs) in
      omega (
        arith,
        count-append p (drop k xs) (take k xs),
        count-append p (take k xs) (drop k xs),
        whole,
      )

  -- The launches of `n` blocks, one block behind the other.
  abbrev pub AreBlocks : List C → ℕ → List C → Type 0
  AreBlocks matrix zero launches = launches ≡ []
  AreBlocks matrix (suc n) launches =
      (block rest : List C) × (launches ≡ block ++ rest)
      × ((p : C → Bool) → count p block ≡ count p matrix)
      × AreBlocks matrix n rest

  pub AreBlocks-append :
      (matrix : List C) (n m : ℕ) (xs ys : List C)
      → AreBlocks matrix n xs
      → AreBlocks matrix m ys
      → AreBlocks matrix (n + m) (xs ++ ys)
  AreBlocks-append matrix zero m xs ys h k =
      let e : m ≡ 0 + m = omega arith in
      subst (AreBlocks matrix (0 + m)) (ap (λ zs. zs ++ ys) (sym h))
        (subst (λ n. AreBlocks matrix n ys) e k)
  AreBlocks-append matrix (suc n) m xs ys (block, rest, e, same, h) k =
      let next : suc (n + m) ≡ suc n + m = omega arith in
      let whole = ap (λ zs. zs ++ ys) e ∙ append_assoc block rest ys in
      subst (λ l. AreBlocks matrix l (xs ++ ys)) next
        (block, rest ++ ys, whole, same, AreBlocks-append matrix n m rest ys h k)
