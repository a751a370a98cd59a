-- ===== src/Math/Integers.antt =====
-- The integers that the operators compute are values of a `long`.
use native.Mathlib.Nat.{div-le_self, mod-le}
use sli.Prelude.{
  ℕ, zero, suc, ◌/◌, ◌%◌, ◌^◌, ◌≤◌, ◌<◌, ◌≡◌, refl, Bool, true, false, ◌&&◌, arith, Bool-cases, inl,
  inr,
}
use sli.Prelude.Int.{ℤ, pos, negsuc, ◌+ℤ◌, ◌-ℤ◌, ◌*ℤ◌, ltb_ℤ}
use sli.Control.Interp.{is_zero}
use sli.Control.Unwind.{same_word}
use sli.Interpreter.Exhausted.{is_long}
use sli.Math.Operators.{
  Numeric, value, error, checked, long_min, checked_add, checked_sub, checked_mul, minus, negated,
  checked_neg, checked_abs, quotient, remainder, divided, pick_value,
}

-- The number is a `long`, where there is one.
abbrev pub IsLongNumber : Numeric → Type 0
IsLongNumber (value n) = is_long n ≡ true
IsLongNumber (error e) = Unit {0}

pub checked-IsLongNumber : (n : ℤ) → IsLongNumber (checked n)
checked-IsLongNumber n = elim (Bool-cases (is_long n)) [ inl e ↦ rw e e | inr e ↦ rw e tt ]

pub checked_add-IsLongNumber : (a b : ℤ) → IsLongNumber (checked_add a b)
unfolding checked_add
checked_add-IsLongNumber a b = checked-IsLongNumber (a +ℤ b)

pub checked_sub-IsLongNumber : (a b : ℤ) → IsLongNumber (checked_sub a b)
unfolding checked_sub
checked_sub-IsLongNumber a b = checked-IsLongNumber (a -ℤ b)

pub checked_mul-IsLongNumber : (a b : ℤ) → IsLongNumber (checked_mul a b)
unfolding checked_mul
checked_mul-IsLongNumber a b = checked-IsLongNumber (a *ℤ b)

-- A number without a sign that is below 2 ^ 63, and one with a sign up to that.
minus-long : (n : ℕ) → n ≤ 2 ^ 63 → is_long (minus n) ≡ true
minus-long zero h = refl
minus-long (suc n) h = ground arith

negated-long :
    (a : ℤ) → is_long a ≡ true → same_word a long_min ≡ false → is_long (negated a) ≡ true
negated-long (pos n) h d = minus-long n (ground arith)
negated-long (negsuc n) h d = ground arith

pub checked_neg-IsLongNumber : (a : ℤ) → is_long a ≡ true → IsLongNumber (checked_neg a)
unfolding checked_neg
checked_neg-IsLongNumber a h = elim (Bool-cases (same_word a long_min)) [
  | inl e ↦ rw e tt
  | inr e ↦ rw e (negated-long a h e)
]

pick_value-long :
    (b : Bool) (x y : ℤ) → is_long x ≡ true → is_long y ≡ true → is_long (pick_value b x y) ≡ true
pick_value-long true x y h k = h
pick_value-long false x y h k = k

pub pick_value-IsLongNumber :
    (b : Bool) (x y : ℤ)
    → is_long x ≡ true
    → is_long y ≡ true
    → IsLongNumber (value (pick_value b x y))
pick_value-IsLongNumber b x y h k = pick_value-long b x y h k

pub checked_abs-IsLongNumber : (a : ℤ) → is_long a ≡ true → IsLongNumber (checked_abs a)
unfolding checked_abs
checked_abs-IsLongNumber a h = elim (Bool-cases (same_word a long_min)) [
  | inl e ↦ rw e tt
  | inr e ↦ rw e (pick_value-long (ltb_ℤ a (pos 0)) (negated a) a (negated-long a h e) h)
]

half_below : (m n : ℕ) → m ≤ 2 ^ 63 → m / suc (suc n) < 2 ^ 63
half_below m n h = grind (arith, div-le_self m (suc (suc n)))

quotient-long :
    (a b : ℤ)
    → is_long a ≡ true
    → (same_word a long_min && same_word b (negsuc 0)) ≡ false
    → is_long (quotient a b) ≡ true
unfolding quotient
quotient-long (pos m) (pos n) h d = ground (arith, div-le_self m n)
quotient-long (pos m) (negsuc n) h d =
    minus-long (m / suc n) (ground (arith, div-le_self m (suc n)))
quotient-long (negsuc m) (pos n) h d =
    minus-long (suc m / n) (ground (arith, div-le_self (suc m) n))
quotient-long (negsuc m) (negsuc zero) h d = ground arith
quotient-long (negsuc m) (negsuc (suc n)) h d = ground (arith, half_below (suc m) n)

remainder-long : (a b : ℤ) → is_long a ≡ true → is_long (remainder a b) ≡ true
unfolding remainder
remainder-long (pos m) (pos n) h = ground (arith, mod-le m n)
remainder-long (pos m) (negsuc n) h = ground (arith, mod-le m (suc n))
remainder-long (negsuc m) (pos n) h = minus-long (suc m % n) (ground (arith, mod-le (suc m) n))
remainder-long (negsuc m) (negsuc n) h =
    minus-long (suc m % suc n) (ground (arith, mod-le (suc m) (suc n)))

divided-long :
    (f : ℤ → ℤ → ℤ) (a b : ℤ)
    → ((same_word a long_min && same_word b (negsuc 0)) ≡ false → is_long (f a b) ≡ true)
    → IsLongNumber (divided f a b)
divided-long f a b h = elim (Bool-cases (is_zero b)) [
  | inl e ↦ rw e tt
  | inr e ↦ elim (Bool-cases (same_word a long_min && same_word b (negsuc 0))) [
    | inl d ↦ rw (e, d) tt
    | inr d ↦ rw (e, d) (h d)
  ]
]

pub quotient-IsLongNumber : (a b : ℤ) → is_long a ≡ true → IsLongNumber (divided quotient a b)
quotient-IsLongNumber a b h = divided-long quotient a b (quotient-long a b h)

pub remainder-IsLongNumber : (a b : ℤ) → is_long a ≡ true → IsLongNumber (divided remainder a b)
remainder-IsLongNumber a b h = divided-long remainder a b (λ d. remainder-long a b h)
