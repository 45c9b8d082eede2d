-- ===== src/Recorder/Schedule/Balance.antt =====
-- The rotations are balanced: over as many consecutive rounds as there are items, every item takes
-- every position once.
use native.Mathlib.Decide.{dec_lt}
use native.Mathlib.Nat.{mod-eq_of_lt, mod-eq-sub-mod, mod-lt, mod-add-mod}
use matching_machine.Prelude.{
  ℕ, zero, suc, ◌+◌, ◌-◌, ◌%◌, ◌≤◌, ◌<◌, ◌≡◌, refl, sym, ◌∙◌, ap, ◌⊎◌, inl, inr, List, [], ◌∷◌,
  ◌++◌, arith, leb, if◌then◌else◌, length, length-drop, take, drop, get_elem?,
}
use matching_machine.Recorder.Schedule.{rotation}

module _ {A : Type 0} where
  get_elem?-append_left :
      (xs ys : List A) (i : ℕ) → i < length xs → get_elem? (xs ++ ys) i ≡ get_elem? xs i
  get_elem?-append_left [] ys i h = elim h [ ]
  get_elem?-append_left (x ∷ xs) ys zero h = refl
  get_elem?-append_left (x ∷ xs) ys (suc i) h = get_elem?-append_left xs ys i (omega arith)

  get_elem?-append_right :
      (xs ys : List A) (i : ℕ) → get_elem? (xs ++ ys) (length xs + i) ≡ get_elem? ys i
  get_elem?-append_right [] ys i = ap (get_elem? ys) (omega arith)
  get_elem?-append_right (x ∷ xs) ys i =
      let e : suc (length xs) + i ≡ suc (length xs + i) = omega arith in
      ap (get_elem? (x ∷ xs ++ ys)) e ∙ get_elem?-append_right xs ys i

  get_elem?-drop : (k : ℕ) (xs : List A) (i : ℕ) → get_elem? (drop k xs) i ≡ get_elem? xs (k + i)
  get_elem?-drop zero xs i = ap (get_elem? xs) (omega arith)
  get_elem?-drop (suc k) [] i = refl
  get_elem?-drop (suc k) (x ∷ xs) i =
      let e : suc k + i ≡ suc (k + i) = omega arith in
      get_elem?-drop k xs i ∙ ap (get_elem? (x ∷ xs)) (sym e)

  get_elem?-take : (k : ℕ) (xs : List A) (i : ℕ) → i < k → get_elem? (take k xs) i ≡ get_elem? xs i
  get_elem?-take zero xs i h = elim h [ ]
  get_elem?-take (suc k) [] i h = refl
  get_elem?-take (suc k) (x ∷ xs) zero h = refl
  get_elem?-take (suc k) (x ∷ xs) (suc i) h = get_elem?-take k xs i (omega arith)

mod_cases : (x n : ℕ) → x < n + n → 0 < n → ((x % n ≡ x) × (x < n)) ⊎ ((x % n ≡ x - n) × (n ≤ x))
mod_cases x n h p = elim (dec_lt x n) [
  | yes l ↦ inl (mod-eq_of_lt l, l)
  | no g ↦
      let q : n ≤ x = omega arith in
      let r : x - n < n = omega arith in inr (mod-eq-sub-mod q ∙ mod-eq_of_lt r, q)
]

module _ {A : Type 0} (xs : List A) where
  pub rotation-get_elem? :
      (index p : ℕ)
      → p < length xs
      → get_elem? (rotation xs index) p ≡ get_elem? xs ((index + p) % length xs)
  unfolding rotation
  rotation-get_elem? index p h =
      let n = length xs in
      let k = index % n in
      let inside : k < n = mod-lt index (omega arith) in
      let start : (index + p) % n ≡ (k + p) % n = sym (mod-add-mod index n p) in
      elim (mod_cases (k + p) n (omega arith) (omega arith)) [
        | inl (e, l) ↦
            get_elem?-append_left (drop k xs) (take k xs) p (omega (arith, length-drop k xs))
            ∙ get_elem?-drop k xs p
            ∙ ap (get_elem? xs) (sym (start ∙ e))
        | inr (e, g) ↦
            let at_p : p ≡ length (drop k xs) + (k + p - n) = omega (arith, length-drop k xs) in
            ap (get_elem? (drop k xs ++ take k xs)) at_p
            ∙ get_elem?-append_right (drop k xs) (take k xs) (k + p - n)
            ∙ get_elem?-take k xs (k + p - n) (omega arith)
            ∙ ap (get_elem? xs) (sym (start ∙ e))
      ]

  -- The round, counted from `index`, in which the item at `b` stands at `p`.
  turn : (index p b : ℕ) → ℕ
  turn index p b = let c = (index + p) % length xs in if leb c b then b - c else b + length xs - c

  turn_lem :
      (index p b : ℕ)
      → b < length xs
      → (turn index p b < length xs) × ((index + turn index p b + p) % length xs ≡ b)
  unfolding turn
  turn_lem index p b h =
      let n = length xs in
      let c = (index + p) % n in
      let r = turn index p b in
      let inside : c < n = mod-lt (index + p) (omega arith) in
      let moved : (index + r + p) % n ≡ (c + r) % n =
        ap (λ m. m % n) (omega arith) ∙ sym (mod-add-mod (index + p) n r) in
      let below : r < n = ground arith in
      elim (mod_cases (c + r) n (omega arith) (omega arith)) [
        | inl (e, l) ↦ (below, moved ∙ e ∙ ground arith)
        | inr (e, g) ↦ (below, moved ∙ e ∙ ground arith)
      ]

  turn_unique :
      (index p r r' : ℕ)
      → r < length xs
      → r' < length xs
      → (index + r + p) % length xs ≡ (index + r' + p) % length xs
      → r ≡ r'
  turn_unique index p r r' h h' e =
      let n = length xs in
      let c = (index + p) % n in
      let inside : c < n = mod-lt (index + p) (omega arith) in
      let moved : (m : ℕ) → (index + m + p) % n ≡ (c + m) % n =
        λ m. ap (λ k. k % n) (omega arith) ∙ sym (mod-add-mod (index + p) n m) in
      let same : (c + r) % n ≡ (c + r') % n = sym (moved r) ∙ e ∙ moved r' in
      elim (mod_cases (c + r) n (omega arith) (omega arith)) [
        | inl (q, l) ↦ elim (mod_cases (c + r') n (omega arith) (omega arith)) [
          | inl (q', l') ↦ omega (arith, q, q', same)
          | inr (q', l') ↦ omega (arith, q, q', same)
        ]
        | inr (q, l) ↦ elim (mod_cases (c + r') n (omega arith) (omega arith)) [
          | inl (q', l') ↦ omega (arith, q, q', same)
          | inr (q', l') ↦ omega (arith, q, q', same)
        ]
      ]

  -- In as many consecutive rotations as a list has elements, from any index on, each element
  -- stands at each position in exactly one of them.
  pub rotation-balanced :
      (index p b : ℕ)
      → p < length xs
      → b < length xs
      → (r : ℕ) × (r < length xs)
        × (get_elem? (rotation xs (index + r)) p ≡ get_elem? xs b)
        × ((r' : ℕ) → r' < length xs → (index + r' + p) % length xs ≡ b → r' ≡ r)
  rotation-balanced index p b hp hb =
      let (below, there) = turn_lem index p b hb in
      (
        turn index p b,
        below,
        rotation-get_elem? (index + turn index p b) p hp ∙ ap (get_elem? xs) there,
        λ r' h e. turn_unique index p r' (turn index p b) h below (e ∙ sym there),
      )
