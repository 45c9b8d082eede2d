-- ===== src/Engine/Ring/Window.antt =====
-- The slots between two indices of the ring, in order, as a list.
use native.Mathlib.Nat.{mod-eq_of_lt, mod_self}
use matching_machine.Prelude.{
  ℕ, zero, suc, ◌+◌, ◌-◌, ◌≤◌, ◌<◌, ◌≡◌, ◌≢◌, refl, ap, List, [], ◌∷◌, ◌++◌, arith, ◌==◌, leb,
  if◌then◌else◌, length, Bool-cases, inl, inr,
}
use matching_machine.Engine.Ring.{next, write}

-- How many slots lie from `head` up to `tail`.
abbrev pub dist : ℕ → ℕ → ℕ → ℕ
dist capacity head tail = if leb head tail then tail - head else tail + capacity - head

pub next_lem : (c i : ℕ) → i < c → next c i ≡ (if i + 1 == c then 0 else i + 1)
unfolding next
next_lem c i h = elim (Bool-cases (i + 1 == c)) [
  | inl e ↦ let q : i + 1 ≡ c = ground arith in rw (e, q) (mod_self c)
  | inr e ↦ let lt : i + 1 < c = ground arith in rw e (mod-eq_of_lt lt)
]

pub next-lt : (c i : ℕ) → i < c → next c i < c
next-lt c i h = ground (arith, next_lem c i h)

pub next_inj : (c i j : ℕ) → i < c → j < c → next c i ≡ next c j → i ≡ j
next_inj c i j hi hj e = ground (arith, next_lem c i hi, next_lem c j hj)

pub dist-lt : (c i j : ℕ) → i < c → j < c → dist c i j < c
dist-lt c i j hi hj = ground arith

pub dist-next_head : (c i j : ℕ) → i < c → j < c → i ≢ j → dist c i j ≡ suc (dist c (next c i) j)
dist-next_head c i j hi hj ne = ground (arith, next_lem c i hi)

pub dist-next_tail :
    (c i j : ℕ) → i < c → j < c → next c j ≢ i → dist c i (next c j) ≡ suc (dist c i j)
dist-next_tail c i j hi hj ne = ground (arith, next_lem c j hj)

pub dist_self : (c i : ℕ) → dist c i i ≡ 0
dist_self c i = ground arith

pub dist_full : (c i j : ℕ) → i < c → j < c → next c j ≡ i → dist c i j ≡ c - 1
dist_full c i j hi hj e = ground (arith, next_lem c j hj)

module _ {A : Type 0} (c : ℕ) where
  -- `n` elements from index `i` on.
  unfoldable pub window : (ℕ → A) → ℕ → ℕ → List A
  window buffer i zero = []
  window buffer i (suc n) = buffer i ∷ window buffer (next c i) n

  pub length-window : (buffer : ℕ → A) (i n : ℕ) → length (window buffer i n) ≡ n
  unfolding window
  length-window buffer i zero = refl
  length-window buffer i (suc n) = ap suc (length-window buffer (next c i) n)

  -- Writing behind the window leaves it as it is.
  pub window-write :
      (buffer : ℕ → A) (item : A) (i j n : ℕ)
      → i < c
      → j < c
      → n ≤ dist c i j
      → window (write buffer j item) i n ≡ window buffer i n
  unfolding window
  window-write buffer item i j zero hi hj h = refl
  window-write buffer item i j (suc n) hi hj h =
      let ne : i ≢ j = λ e. ground arith in
      let rest =
        window-write buffer item (next c i) j n (next-lt c i hi) hj
          (omega (arith, dist-next_head c i j hi hj ne)) in
      ground (arith, rest)

  -- One slot more at the end.
  pub window_snoc :
      (buffer : ℕ → A) (i j n : ℕ)
      → i < c
      → j < c
      → dist c i j ≡ n
      → window buffer i (suc n) ≡ window buffer i n ++ buffer j ∷ []
  unfolding window
  window_snoc buffer i j zero hi hj e = let q : i ≡ j = ground arith in rw q
  window_snoc buffer i j (suc n) hi hj e =
      let ne : i ≢ j = λ q. ground arith in
      let rest =
        window_snoc buffer (next c i) j n (next-lt c i hi) hj
          (omega (arith, dist-next_head c i j hi hj ne)) in
      ap (λ (xs : List A). buffer i ∷ xs) rest
