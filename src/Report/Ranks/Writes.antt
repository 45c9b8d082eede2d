-- ===== src/Report/Ranks/Writes.antt =====
-- What the inner loop of `ranks` writes, and where.
use matching_machine.Prelude.{
  ℕ, ◌<◌, ◌≡◌, ◌≢◌, refl, sym, ◌∙◌, inl, inr, List, [], ◌∷◌, ◌++◌, some, arith, ◌==◌, length,
  length-set, get_elem?, get_elem?-set_self, get_elem?-set_ne, set, All, All-map, All-of_append,
  Bool-cases,
}
use matching_machine.Report.Floats.{lt}
use matching_machine.Report.Ranks.{Entries, write_all}

abbrev pub IsAbsent : {F : Type 0} → ℕ → Entries F → Type 0
IsAbsent k es = All (λ e. k ≢ e.0) es

abbrev pub AreDistinct : {F : Type 0} → Entries F → Type 0
AreDistinct [] = Unit
AreDistinct (e ∷ es) = IsAbsent e.0 es × AreDistinct es

module _ {F : Type 0} where
  pub AreDistinct-append :
      (xs ys : Entries F) → AreDistinct (xs ++ ys) → AreDistinct ys × All (λ x. IsAbsent x.0 ys) xs
  AreDistinct-append [] ys h = (h, tt)
  AreDistinct-append (x ∷ xs) ys h =
      let (distinct, apart) = AreDistinct-append xs ys h.1 in
      (distinct, ((All-of_append (λ e. x.0 ≢ e.0) xs ys h.0).1, apart))

  pub write_all-absent :
      (k r : ℕ) (es : Entries F) (out : List ℕ)
      → IsAbsent k es
      → get_elem? (write_all es r out) k ≡ get_elem? out k
  unfolding write_all
  write_all-absent k r [] out h = refl
  write_all-absent k r (e ∷ es) out h =
      write_all-absent k r es (set out e.0 r) h.1 ∙ get_elem?-set_ne out e.0 k r (λ q. h.0 (sym q))

  pub length-write_all :
      (r : ℕ) (es : Entries F) (out : List ℕ) → length (write_all es r out) ≡ length out
  unfolding write_all
  length-write_all r [] out = refl
  length-write_all r (e ∷ es) out = length-write_all r es (set out e.0 r) ∙ length-set out e.0 r

  write_all-keeps :
      (k r : ℕ) (es : Entries F) (out : List ℕ)
      → k < length out
      → get_elem? out k ≡ some r
      → get_elem? (write_all es r out) k ≡ some r
  unfolding write_all
  write_all-keeps k r [] out lt h = h
  write_all-keeps k r (e ∷ es) out lt h =
      write_all-keeps k r es (set out e.0 r) (omega (arith, length-set out e.0 r))
        (elim (Bool-cases (e.0 == k)) [
          | inl q ↦ let q' : e.0 ≡ k = ground arith in rw q' (get_elem?-set_self out k r lt)
          | inr q ↦ get_elem?-set_ne out e.0 k r (ground arith) ∙ h
        ])

  pub write_all-writes :
      (r : ℕ) (es : Entries F) (out : List ℕ)
      → All (λ e. e.0 < length out) es
      → All (λ e. get_elem? (write_all es r out) e.0 ≡ some r) es
  unfolding write_all
  write_all-writes r [] out h = tt
  write_all-writes r (e ∷ es) out h = (
    write_all-keeps e.0 r es (set out e.0 r) (omega (arith, length-set out e.0 r, h.0))
        (get_elem?-set_self out e.0 r h.0),
    write_all-writes r es (set out e.0 r)
        (All-map es (λ x p. omega (arith, length-set out e.0 r, p)) h.1),
  )
