-- ===== src/Engine/Ring/Size.antt =====
-- `size()` and `empty()` tell the elements in the ring.
use native.Mathlib.Nat.{mod-eq_of_lt, mod-eq-sub-mod, add-mul-mod_self_left, le-add_right}
use matching_machine.Prelude.{
  ℕ, ◌+◌, ◌-◌, ◌*◌, ◌%◌, ◌^◌, ◌≤◌, ◌<◌, ◌≡◌, refl, sym, ◌∙◌, length, arith, leb, ◌==◌, Bool-cases,
  inl, inr,
}
use matching_machine.Engine.Ring.{Ring, size, empty}
use matching_machine.Engine.Ring.Window.{dist}
use matching_machine.Engine.Ring.Invariant.{IsValid, queue}
use matching_machine.Engine.Ring.Refines.{length-queue}

-- A difference that wraps at the width of the word, under the mask.
masked :
    (word c k i j : ℕ) → word ≡ c + c * k → i < c → j < c → (j + word - i) % word % c ≡ dist c i j
masked word c k i j e hi hj = elim (Bool-cases (leb i j)) [
  | inl le ↦
      let at : i ≤ j = ground arith in
      let far : word ≤ j + word - i = omega arith in
      let back : j + word - i - word ≡ j - i = omega arith in
      let fits : j - i < word = omega (arith, le-add_right c (c * k)) in
      let near : j - i < c = omega arith in
      rw (le, mod-eq-sub-mod far, back, mod-eq_of_lt fits, mod-eq_of_lt near) refl
  | inr gt ↦
      let at : j < i = ground arith in
      let fits : j + word - i < word = omega arith in
      let again : j + word - i ≡ (j + c - i) + c * k = omega arith in
      let near : j + c - i < c = omega arith in
      rw (gt, mod-eq_of_lt fits, again, add-mul-mod_self_left (j + c - i) c k, mod-eq_of_lt near)
        refl
]

module _ {A : Type 0} where
  -- In a valid ring whose capacity divides 2 ^ 64, as a power of two does, `size()` is how many
  -- elements are in it, and `empty()` tells whether there are none.
  pub size-queue :
      (s : Ring A) (k : ℕ)
      → IsValid s
      → 2 ^ 64 ≡ s.capacity + s.capacity * k
      → (size s ≡ length (queue s)) × (empty s ≡ (length (queue s) == 0))
  unfolding size empty
  size-queue s k v e =
      let measured = length-queue s in
      (
        masked (2 ^ 64) s.capacity k s.head s.tail e v.head_in v.tail_in ∙ sym measured,
        rw measured (ground (arith, v.head_in, v.tail_in)),
      )
