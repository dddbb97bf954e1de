-- ===== src/Common/Float.antt =====
-- Go's float64, whose values the model does not fix: a type with the operations that the program
-- uses. A literal n/d is the correctly rounded quotient, as Go converts a constant.
use Prim.Native.Nat.{ℕ}
use mathlib.Core.Path.{◌≡◌}
use mathlib.Core.Logic.{◌⊎◌}
use mathlib.Core.Bool.{Bool, true, false, not}

pub record Float64 (F : Type 0) : Type 0 where
  pub add : F → F → F
  pub sub : F → F → F
  pub mul : F → F → F
  pub div : F → F → F
  -- `a < b`, `a <= b`, `a == b`: false where an operand is NaN
  pub lt : F → F → Bool
  pub le : F → F → Bool
  pub eq : F → F → Bool
  pub is_nan : F → Bool
  -- float64(n) and uint64(f)
  pub of_uint64 : ℕ → F
  pub to_uint64 : F → ℕ

module _ {F : Type 0} ⦃fl : Float64 F⦄ where
  abbrev pub float : ℕ → F
  float n = fl.of_uint64 n

  abbrev pub decimal_literal : ℕ → ℕ → F
  decimal_literal n d = fl.div (fl.of_uint64 n) (fl.of_uint64 d)

-- What IEEE 754 says of the order.
pub record IeeeOrder {F : Type 0} (fl : Float64 F) : Type 0 where
  pub lt_irrefl : (a : F) → fl.lt a a ≡ false
  pub lt_trans : (a b c : F) → fl.lt a b ≡ true → fl.lt b c ≡ true → fl.lt a c ≡ true
  pub lt_cotrans :
      (a b c : F) → fl.is_nan b ≡ false → fl.lt a c ≡ true → (fl.lt a b ≡ true) ⊎ (fl.lt b c ≡ true)
  pub lt_le_trans : (a b c : F) → fl.lt a b ≡ true → fl.le b c ≡ true → fl.lt a c ≡ true
  pub le_iff : (a b : F) → fl.is_nan a ≡ false → fl.is_nan b ≡ false → fl.le a b ≡ not (fl.lt b a)
