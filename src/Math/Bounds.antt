-- ===== src/Math/Bounds.antt =====
-- What each arithmetic operator does to the operand stack, on all operands.
use mathlib.Core.Path.{subst}
use sli.Prelude.{
  ℕ, zero, suc, ◌≤◌, ◌<◌, ◌≡◌, refl, Bool, true, false, ◌&&◌, some, List, [], ◌∷◌, length,
  length-drop, drop, ltb, get_elem?, get_elem?-lt, arith, Bool-cases, inl, inr,
}
use sli.Prelude.Int.{ℤ, ltb_ℤ}
use sli.Stack.Token.{Token}
use sli.Trie.TypeNode.{tag_of}
use sli.Control.Interp.{
  Interp, Effect, finished, raising, thrown, broken, is_of_type, require_load, require_type,
  at_pick,
}
use sli.Interpreter.Exhausted.{is_long}
use sli.Math.Operators.{
  Doubles, Numeric, value, error, Settled, settled, refused, put_into, Arms, is_int, is_double,
  by_types, div_arms, settle, binary, settle_one, unary, Operation, calculate, divided, remainder,
}
use sli.Math.Integers.{
  IsLongNumber, checked_add-IsLongNumber, checked_sub-IsLongNumber, checked_mul-IsLongNumber,
  checked_neg-IsLongNumber, checked_abs-IsLongNumber, pick_value-IsLongNumber,
  quotient-IsLongNumber, remainder-IsLongNumber,
}

-- An integer token has a value of a `long`.
abbrev pub IsLongToken : Token → Type 0
IsLongToken t = is_int t ≡ true → is_long t.data_ ≡ true

abbrev pub AreLong : List Token → Type 0
AreLong [] = Unit {0}
AreLong (t ∷ st) = IsLongToken t × AreLong st

-- An operator has left integers of a `long` on a stack that is no longer than before, and the
-- execution stack as it was; or it has raised an error or thrown an exception and changed nothing.
abbrev pub IsBounded : Interp → Effect → Type 0
IsBounded i (finished j) =
    AreLong j.ostack × (length j.ostack ≤ length i.ostack) × (j.estack ≡ i.estack)
IsBounded i (raising e j) = j ≡ i
IsBounded i (thrown e j) = j ≡ i
IsBounded i broken = ⊥

abbrev IsLongSettled : Settled → Type 0
IsLongSettled (settled t) = IsLongToken t
IsLongSettled (refused e) = Unit {0}

put_into-int : (a : Token) (n : Numeric) → IsLongNumber n → IsLongSettled (put_into a n)
put_into-int a (value n) h = λ e. h
put_into-int a (error e) h = tt

double-not_int : (a : Token) → is_double a ≡ true → is_int a ≡ false
unfolding is_of_type tag_of
double-not_int a h = ground (arith, h)

put_into-double : (a : Token) (n : Numeric) → is_int a ≡ false → IsLongSettled (put_into a n)
unfolding is_of_type
put_into-double a (value n) h = λ e. absurd (cc (e, h))
put_into-double a (error e) h = tt

left : (x y : Bool) → (x && y) ≡ true → x ≡ true
left true y h = refl
left false y h = h

right : (x y : Bool) → (x && y) ≡ true → y ≡ true
right true y h = h
right false y h = absurd (cc h)

retyped-double : (a b : Token) → is_double b ≡ true → is_int (record a { type = b.type }) ≡ false
unfolding is_of_type tag_of
retyped-double a b h = ground (arith, h)

by_types-IsLongSettled :
    (f : Arms) (a b : Token)
    → ((is_long a.data_ ≡ true) → (is_long b.data_ ≡ true) → IsLongNumber (f.ii a.data_ b.data_))
    → IsLongToken a
    → IsLongToken b
    → IsLongSettled (by_types f a b)
unfolding by_types
by_types-IsLongSettled f a b h ha hb = elim (Bool-cases (is_int a && is_int b)) [
  | inl e ↦ rw e (
      put_into-int a (f.ii a.data_ b.data_)
        (h (ha (left (is_int a) (is_int b) e)) (hb (right (is_int a) (is_int b) e))))
  | inr e ↦ elim (Bool-cases (is_double a && is_double b)) [
    | inl e2 ↦
        rw (e, e2)
          (put_into-double a (f.dd a.data_ b.data_)
            (double-not_int a (left (is_double a) (is_double b) e2)))
    | inr e2 ↦ elim (Bool-cases (is_double a && is_int b)) [
      | inl e3 ↦
          rw (e, e2, e3)
            (put_into-double a (f.di a.data_ b.data_)
              (double-not_int a (left (is_double a) (is_int b) e3)))
      | inr e3 ↦ elim (Bool-cases (is_int a && is_double b)) [
        | inl e4 ↦
            rw (e, e2, e3, e4)
              (put_into-double (record a { type = b.type }) (f.id a.data_ b.data_)
                (retyped-double a b (right (is_int a) (is_double b) e4)))
        | inr e4 ↦ rw (e, e2, e3, e4) tt
      ]
    ]
  ]
]

AreLong-drop : (n : ℕ) (st : List Token) → AreLong st → AreLong (drop n st)
AreLong-drop zero st h = h
AreLong-drop (suc n) [] h = h
AreLong-drop (suc n) (t ∷ st) (_, h) = AreLong-drop n st h

picked-IsLongToken :
    (n : ℕ) (st : List Token) (t : Token) → AreLong st → get_elem? st n ≡ some t → IsLongToken t
picked-IsLongToken n [] t h e = absurd (cc e)
picked-IsLongToken zero (x ∷ st) t (hx, h) e = let p : x ≡ t = cc e in subst IsLongToken p hx
picked-IsLongToken (suc n) (x ∷ st) t (hx, h) e = picked-IsLongToken n st t h e

require_load-IsBounded :
    (n : ℕ) (i : Interp) (rest : Effect)
    → (ltb (length i.ostack) n ≡ false → IsBounded i rest)
    → IsBounded i (require_load n i rest)
unfolding require_load
require_load-IsBounded n i rest h = elim (Bool-cases (ltb (length i.ostack) n)) [
  | inl e ↦ rw e refl
  | inr e ↦ rw e (h e)
]

picked :
    (st : List Token) (n m : ℕ)
    → n < m
    → ltb (length st) m ≡ false
    → (t : Token) × (get_elem? st n ≡ some t)
picked st n m h l = let (t, e, _) = get_elem?-lt st n (ground (arith, h, l)) in (t, e)

at_pick-IsBounded :
    (n m : ℕ) (i : Interp) (rest : Token → Effect)
    → n < m
    → ltb (length i.ostack) m ≡ false
    → ((t : Token) → get_elem? i.ostack n ≡ some t → IsBounded i (rest t))
    → IsBounded i (at_pick n i rest)
unfolding at_pick
at_pick-IsBounded n m i rest h l k = let (t, e) = picked i.ostack n m h l in rw e (k t e)

settle-IsBounded :
    (i : Interp) (r : Settled)
    → ltb (length i.ostack) 2 ≡ false
    → AreLong i.ostack
    → IsLongSettled r
    → IsBounded i (settle i r)
settle-IsBounded i (settled t) l h k = (
  (k, AreLong-drop 2 i.ostack h),
  let e = length-drop 2 i.ostack in
      let m : 2 ≤ length i.ostack = ground (arith, l) in omega (arith, e, m),
  refl,
)
settle-IsBounded i (refused e) l h k = refl

settle_one-IsBounded :
    (i : Interp) (r : Settled)
    → ltb (length i.ostack) 1 ≡ false
    → AreLong i.ostack
    → IsLongSettled r
    → IsBounded i (settle_one i r)
settle_one-IsBounded i (settled t) l h k = (
  (k, AreLong-drop 1 i.ostack h),
  let e = length-drop 1 i.ostack in
      let m : 1 ≤ length i.ostack = ground (arith, l) in omega (arith, e, m),
  refl,
)
settle_one-IsBounded i (refused e) l h k = refl

binary-IsBounded :
    (f : Token → Token → Settled) (i : Interp)
    → AreLong i.ostack
    → ((a b : Token) → IsLongToken a → IsLongToken b → IsLongSettled (f a b))
    → IsBounded i (binary f i)
unfolding binary
binary-IsBounded f i h k = require_load-IsBounded 2 i _ (λ l.
    at_pick-IsBounded 1 2 i _ (omega arith) l (λ a p.
      at_pick-IsBounded 0 2 i _ (omega arith) l (λ b q.
        settle-IsBounded i (f a b) l h
          (k a b (picked-IsLongToken 1 i.ostack a h p) (picked-IsLongToken 0 i.ostack b h q)))))

unary-IsBounded :
    (f : ℤ → Numeric) (i : Interp)
    → AreLong i.ostack
    → ((a : ℤ) → is_long a ≡ true → IsLongNumber (f a))
    → IsBounded i (unary f i)
unfolding unary require_type
unary-IsBounded f i h k = require_load-IsBounded 1 i _ (λ l.
    at_pick-IsBounded 0 1 i _ (omega arith) l (λ a p. elim (Bool-cases (is_int a)) [
      | inl e ↦ rw e (
          at_pick-IsBounded 0 1 i _ (omega arith) l (λ b q.
            let w : a ≡ b = cc (p, q) in
            settle_one-IsBounded i (put_into b (f b.data_)) l h (
              put_into-int b (f b.data_) (
                k b.data_
                  (picked-IsLongToken 0 i.ostack b h q (subst (λ x. is_int x ≡ true) w e))))))
      | inr e ↦ rw e refl
    ]))

module _ (d : Doubles) (i : Interp) (h : AreLong i.ostack) where
  typed-IsBounded :
      (f : Arms)
      → ((a b : ℤ) → is_long a ≡ true → is_long b ≡ true → IsLongNumber (f.ii a b))
      → IsBounded i (binary (by_types f) i)
  typed-IsBounded f k =
      binary-IsBounded (by_types f) i h
        (λ a b ha hb. by_types-IsLongSettled f a b (k a.data_ b.data_) ha hb)

remainder-IsLongSettled :
    (a b : Token) → IsLongToken a → IsLongSettled (put_into a (divided remainder a.data_ b.data_))
remainder-IsLongSettled a b ha = elim (Bool-cases (is_int a)) [
  | inl e ↦
      put_into-int a (divided remainder a.data_ b.data_)
        (remainder-IsLongNumber a.data_ b.data_ (ha e))
  | inr e ↦ put_into-double a (divided remainder a.data_ b.data_) e
]

-- On a stack whose integers are values of a `long`, each arithmetic operator, whatever its operands, is
-- done, and leaves integers of a `long`, a stack that is no longer, and the execution stack as it was;
-- or it has raised an error or thrown an exception and changed nothing. It never reads outside of the
-- stack.
pub calculate-IsBounded :
    (d : Doubles) (op : Operation) (i : Interp) → AreLong i.ostack → IsBounded i (calculate d op i)
unfolding calculate
calculate-IsBounded d Operation.add_ii i h =
    binary-IsBounded _ i h
      (λ a b ha hb. put_into-int a _ (checked_add-IsLongNumber a.data_ b.data_))
calculate-IsBounded d Operation.add i h =
    typed-IsBounded d i h _ (λ a b ha hb. checked_add-IsLongNumber a b)
calculate-IsBounded d Operation.sub i h =
    typed-IsBounded d i h _ (λ a b ha hb. checked_sub-IsLongNumber a b)
calculate-IsBounded d Operation.mul i h =
    typed-IsBounded d i h _ (λ a b ha hb. checked_mul-IsLongNumber a b)
calculate-IsBounded d Operation.div i h =
    typed-IsBounded d i h (div_arms d) (λ a b ha hb. quotient-IsLongNumber a b ha)
calculate-IsBounded d Operation.mod_ii i h =
    binary-IsBounded _ i h (λ a b ha hb. remainder-IsLongSettled a b ha)
calculate-IsBounded d Operation.max i h =
    typed-IsBounded d i h _ (λ a b ha hb. pick_value-IsLongNumber (ltb_ℤ b a) a b ha hb)
calculate-IsBounded d Operation.min i h =
    typed-IsBounded d i h _ (λ a b ha hb. pick_value-IsLongNumber (ltb_ℤ a b) a b ha hb)
calculate-IsBounded d Operation.abs_i i h = unary-IsBounded _ i h checked_abs-IsLongNumber
calculate-IsBounded d Operation.neg_i i h = unary-IsBounded _ i h checked_neg-IsLongNumber
