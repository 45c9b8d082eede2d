-- ===== src/Report/Floats.antt =====
-- The floating-point numbers that a study holds, as an interface. Its numbers are finite, so their
-- order is total; `-0.0` and `0.0` are equal and not the same, so it is not antisymmetric.
use matching_machine.Prelude.{ℕ, ◌+◌, ◌-◌, ◌*◌, ◌/◌, ◌≡◌, ◌⊎◌, Bool, true, ◌&&◌, not, arith, leb}

pub record Order (F : Type 0) : Type 0 where
  pub le : F → F → Bool
  pub le_total : (a b : F) → (le a b ≡ true) ⊎ (le b a ≡ true)
  pub le_trans : (a b c : F) → le a b ≡ true → le b c ≡ true → le a c ≡ true

module _ {F : Type 0} ⦃o : Order F⦄ where
  -- `a <= b`, `a < b` and `a == b`
  abbrev pub le : F → F → Bool
  le = o.le

  abbrev pub lt : F → F → Bool
  lt a b = not (o.le b a)

  abbrev pub eqv : F → F → Bool
  eqv a b = o.le a b && o.le b a

  pub le_refl : (a : F) → o.le a a ≡ true
  le_refl a = ground (arith, o.le_total a a)

pub leb_total : (a b : ℕ) → (leb a b ≡ true) ⊎ (leb b a ≡ true)
leb_total a b = ground arith

pub leb_trans : (a b c : ℕ) → leb a b ≡ true → leb b c ≡ true → leb a c ≡ true
leb_trans a b c p q = ground arith

-- Whole numbers meet the assumptions.
instance abbrev pub nat_order : Order ℕ
nat_order = record { le = leb; le_total = leb_total; le_trans = leb_trans }

-- The arithmetic of the statistics, with what the theorems use of it: the mean of two numbers, as
-- `(a + b) / 2`, lies between them.
pub record Arith (F : Type 0) ⦃o : Order F⦄ : Type 0 where
  pub add : F → F → F
  pub sub : F → F → F
  pub mul : F → F → F
  pub div : F → F → F
  pub of_ℕ : ℕ → F
  pub mean_ge : (a b : F) → o.le a b ≡ true → o.le a (div (add a b) (of_ℕ 2)) ≡ true
  pub mean_le : (a b : F) → o.le a b ≡ true → o.le (div (add a b) (of_ℕ 2)) b ≡ true

pub nat_mean_ge : (a b : ℕ) → leb a b ≡ true → leb a ((a + b) / 2) ≡ true
nat_mean_ge a b h = ground arith

pub nat_mean_le : (a b : ℕ) → leb a b ≡ true → leb ((a + b) / 2) b ≡ true
nat_mean_le a b h = ground arith

-- Whole numbers with a division that rounds down.
instance abbrev pub nat_arith : Arith ℕ
nat_arith = record {
  add = ◌+◌;
  sub = ◌-◌;
  mul = ◌*◌;
  div = ◌/◌;
  of_ℕ = λ n. n;
  mean_ge = nat_mean_ge;
  mean_le = nat_mean_le;
}
