-- ===== src/Math/Operators.antt =====
-- The arithmetic operators of src/builtins/sli_math.cpp, with the bodies in src/builtins/sli_op_bodies.h.
-- The operations on doubles are parameters, on the bits of the doubles.
use sli.Prelude.{
  ℕ, zero, suc, ◌-◌, ◌/◌, ◌%◌, ◌^◌, Bool, true, false, ◌&&◌, ◌∷◌, drop, if◌then◌else◌,
}
use sli.Prelude.Int.{ℤ, pos, negsuc, ◌+ℤ◌, ◌-ℤ◌, ◌*ℤ◌, ltb_ℤ}
use sli.Stack.Token.{SliTypeid, Token}
use sli.Control.Interp.{
  Interp, Effect, finished, raising, ErrorName, argument_type_error, range_check_error,
  division_by_zero, is_of_type, is_zero, require_load, require_type, at_pick,
}
use sli.Control.Unwind.{same_word}
use sli.Interpreter.Exhausted.{is_long}

-- Arithmetic on doubles, which the machine does.
pub record Doubles : Type 0 where
  pub of_long : ℤ → ℤ
  pub add : ℤ → ℤ → ℤ
  pub sub : ℤ → ℤ → ℤ
  pub mul : ℤ → ℤ → ℤ
  pub div : ℤ → ℤ → ℤ
  pub less : ℤ → ℤ → Bool
  pub is_nought : ℤ → Bool

-- A number, or the error that is raised.
pub data Numeric : Type 0 where
  value : ℤ → Numeric
  error : ErrorName → Numeric

-- The builtins that test for overflow.
abbrev pub checked : ℤ → Numeric
checked n = if is_long n then value n else error range_check_error

abbrev pub long_min : ℤ
long_min = negsuc (2 ^ 63 - 1)

unfoldable pub checked_add : ℤ → ℤ → Numeric
checked_add a b = checked (a +ℤ b)

unfoldable pub checked_sub : ℤ → ℤ → Numeric
checked_sub a b = checked (a -ℤ b)

unfoldable pub checked_mul : ℤ → ℤ → Numeric
checked_mul a b = checked (a *ℤ b)

abbrev pub minus : ℕ → ℤ
minus zero = pos 0
minus (suc n) = negsuc n

-- `-a`
abbrev pub negated : ℤ → ℤ
negated (pos n) = minus n
negated (negsuc n) = pos (suc n)

unfoldable pub checked_neg : ℤ → Numeric
checked_neg a = if same_word a long_min then error range_check_error else value (negated a)

unfoldable pub checked_abs : ℤ → Numeric
checked_abs a =
    if same_word a long_min
    then error range_check_error
    else value (if ltb_ℤ a (pos 0) then negated a else a)

-- `a / b` and `a % b`, which go towards zero, for a divisor other than 0.
unfoldable pub quotient : ℤ → ℤ → ℤ
quotient (pos m) (pos n) = pos (m / n)
quotient (pos m) (negsuc n) = minus (m / suc n)
quotient (negsuc m) (pos n) = minus (suc m / n)
quotient (negsuc m) (negsuc n) = pos (suc m / suc n)

unfoldable pub remainder : ℤ → ℤ → ℤ
remainder (pos m) (pos n) = pos (m % n)
remainder (pos m) (negsuc n) = pos (m % suc n)
remainder (negsuc m) (pos n) = minus (suc m % n)
remainder (negsuc m) (negsuc n) = minus (suc m % suc n)

-- The tests before a division.
abbrev pub divided : (ℤ → ℤ → ℤ) → ℤ → ℤ → Numeric
divided f a b =
    if is_zero b
    then error division_by_zero
    else if same_word a long_min && same_word b (negsuc 0)
    then error range_check_error
    else value (f a b)

-- What an operator leaves in the place of its two operands.
pub data Settled : Type 0 where
  settled : Token → Settled
  refused : ErrorName → Settled

abbrev pub put_into : Token → Numeric → Settled
put_into a (value n) = settled (record a { data_ = n })
put_into a (error e) = refused e

-- The arms of an operator on integers and doubles.
pub record Arms : Type 0 where
  pub ii : ℤ → ℤ → Numeric
  pub dd : ℤ → ℤ → Numeric
  pub di : ℤ → ℤ → Numeric
  pub id : ℤ → ℤ → Numeric

abbrev pub is_int : Token → Bool
is_int x = is_of_type SliTypeid.integertype x

abbrev pub is_double : Token → Bool
is_double x = is_of_type SliTypeid.doubletype x

unfoldable pub by_types : Arms → Token → Token → Settled
by_types f a b =
    if is_int a && is_int b
    then put_into a (f.ii a.data_ b.data_)
    else if is_double a && is_double b
    then put_into a (f.dd a.data_ b.data_)
    else if is_double a && is_int b
    then put_into a (f.di a.data_ b.data_)
    else if is_int a && is_double b
    then put_into (record a { type = b.type }) (f.id a.data_ b.data_)
    else refused argument_type_error

-- The arms that come from one function on doubles.
abbrev pub promoted : Doubles → (ℤ → ℤ → Numeric) → (ℤ → ℤ → ℤ) → Arms
promoted d ints f = record {
  ii = ints;
  dd = λ a b. value (f a b);
  di = λ a b. value (f a (d.of_long b));
  id = λ a b. value (f (d.of_long a) b);
}

abbrev pub unless_nought : Bool → ℤ → Numeric
unless_nought true v = error division_by_zero
unless_nought false v = value v

abbrev pub div_arms : Doubles → Arms
div_arms d = record {
  ii = divided quotient;
  dd = λ a b. unless_nought (d.is_nought b) (d.div a b);
  di = λ a b. unless_nought (is_zero b) (d.div a (d.of_long b));
  id = λ a b. unless_nought (d.is_nought b) (d.div (d.of_long a) b);
}

abbrev pub pick_value : Bool → ℤ → ℤ → ℤ
pick_value b x y = if b then x else y

abbrev pub settle : Interp → Settled → Effect
settle i (settled t) = finished (record i { ostack = t ∷ drop 2 i.ostack })
settle i (refused e) = raising e i

unfoldable pub binary : (Token → Token → Settled) → Interp → Effect
binary f i = require_load 2 i (at_pick 1 i (λ a. at_pick 0 i (λ b. settle i (f a b))))

abbrev pub settle_one : Interp → Settled → Effect
settle_one i (settled t) = finished (record i { ostack = t ∷ drop 1 i.ostack })
settle_one i (refused e) = raising e i

unfoldable pub unary : (ℤ → Numeric) → Interp → Effect
unary f i = require_load 1 i (
    require_type 0 SliTypeid.integertype i
      (at_pick 0 i (λ a. settle_one i (put_into a (f a.data_)))))

pub data Operation : Type 0 where
  add_ii add sub mul div mod_ii max min abs_i neg_i : Operation

-- The operators. `add_ii` and `mod_ii` leave the test of the types to a trie.
unfoldable pub calculate : Doubles → Operation → Interp → Effect
calculate d add_ii i = binary (λ a b. put_into a (checked_add a.data_ b.data_)) i
calculate d add i = binary (by_types (promoted d checked_add d.add)) i
calculate d sub i = binary (by_types (promoted d checked_sub d.sub)) i
calculate d mul i = binary (by_types (promoted d checked_mul d.mul)) i
calculate d div i = binary (by_types (div_arms d)) i
calculate d mod_ii i = binary (λ a b. put_into a (divided remainder a.data_ b.data_)) i
calculate d max i =
    binary
      (by_types (
        promoted d (λ x y. value (pick_value (ltb_ℤ y x) x y))
          (λ x y. pick_value (d.less y x) x y)))
      i
calculate d min i =
    binary
      (by_types (
        promoted d (λ x y. value (pick_value (ltb_ℤ x y) x y))
          (λ x y. pick_value (d.less x y) x y)))
      i
calculate d abs_i i = unary checked_abs i
calculate d neg_i i = unary checked_neg i
