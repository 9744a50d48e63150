-- ===== src/Go/Float.antt =====
-- Go's float64, as the bit pattern that it is. Comparisons are read off the bits (IEEE 754);
-- the rounding operations of the hardware and of package math are the parameter `Arith`.
use ctf_koth_evals_template.Prelude.{
  ℕ, ◌+◌, ◌-◌, ◌%◌, ◌^◌, ◌≤◌, ◌<◌, ◌≡◌, Bool, true, false, not, ◌&&◌, arith, ltb, leb, ◌==◌,
  if◌then◌else◌,
}

pub record Float : Type 0 where
  pub bits : ℕ

abbrev pub sign_bit : ℕ
sign_bit = 2 ^ 63

abbrev pub infinity_bits : ℕ
infinity_bits = 0x7ff0000000000000

-- All but the sign.
abbrev pub magnitude : Float → ℕ
magnitude f = f.bits % sign_bit

abbrev pub is_negative : Float → Bool
is_negative f = leb sign_bit f.bits

-- The exponent is all ones and the fraction is not zero.
unfoldable pub is_nan : Float → Bool
is_nan f = ltb infinity_bits (magnitude f)

-- A number that orders the values: both zeros fall on 2 ^ 63.
unfoldable pub order_key : Float → ℕ
order_key f = if is_negative f then sign_bit - magnitude f else sign_bit + magnitude f

-- `a < b`: false where one side is not a number.
unfoldable pub float_lt : Float → Float → Bool
unfolding is_nan order_key
float_lt a b = not (is_nan a) && (not (is_nan b) && ltb (order_key a) (order_key b))

-- `a == b`: the zeros are equal, and NaN is equal to nothing.
unfoldable pub float_eq : Float → Float → Bool
unfolding is_nan order_key
float_eq a b = not (is_nan a) && (not (is_nan b) && (order_key a == order_key b))

abbrev pub zero_float : Float
zero_float = record { bits = 0 }

-- math.NaN()
abbrev pub nan : Float
nan = record { bits = 0x7ff8000000000001 }

-- Arithmetic that rounds: + - * / on float64, a conversion from int, math.Sqrt, math.Abs, math.Erfc.
pub record Arith : Type 0 where
  pub add : Float → Float → Float
  pub sub : Float → Float → Float
  pub mul : Float → Float → Float
  pub div : Float → Float → Float
  pub of_int : ℕ → Float
  pub sqrt : Float → Float
  pub abs : Float → Float
  pub erfc : Float → Float

abbrev pub IsNumber : Float → Type 0
IsNumber f = is_nan f ≡ false

pub float_lt_irrefl : (a : Float) → float_lt a a ≡ false
unfolding float_lt
float_lt_irrefl a = ground arith

pub float_lt_trans :
    (a b c : Float) → float_lt a b ≡ true → float_lt b c ≡ true → float_lt a c ≡ true
unfolding float_lt
float_lt_trans a b c h k = ground arith

-- Between numbers, `<` is the order of the keys.
pub float_lt_key : (a b : Float) → float_lt a b ≡ true → order_key a < order_key b
unfolding float_lt
float_lt_key a b h = ground arith

pub float_lt_of_key :
    (a b : Float) → IsNumber a → IsNumber b → order_key a < order_key b → float_lt a b ≡ true
unfolding float_lt
float_lt_of_key a b h k l = ground arith

pub key_le_of_not_lt :
    (a b : Float) → IsNumber a → IsNumber b → float_lt a b ≡ false → order_key b ≤ order_key a
unfolding float_lt
key_le_of_not_lt a b h k l = ground arith

pub float_eq_key :
    (a b : Float) → IsNumber a → IsNumber b → float_eq a b ≡ (order_key a == order_key b)
unfolding float_eq
float_eq_key a b h k = ground arith
