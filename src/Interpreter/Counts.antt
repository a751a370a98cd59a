-- ===== src/Interpreter/Counts.antt =====
-- How often the loop `for` goes round.
use sli.Prelude.{
  ℕ, zero, suc, ◌+◌, ◌^◌, ◌≤◌, ◌<◌, ◌≡◌, refl, true, false, arith, ltb→lt, Bool-cases, inl, inr,
}
use sli.Prelude.Int.{ℤ, pos, negsuc, ◌+ℤ◌, ltb_ℤ, int_laws, ◌≤ℤ◌, ◌<ℤ◌, pos_part, neg_part}
use sli.Interpreter.Exhausted.{continues_for, is_long}

-- The counter has `k` values from `c` on that are up to the limit, and the next one is above it.
abbrev pub ValuesUpTo : ℤ → ℤ → ℕ → ℤ → Type 0
ValuesUpTo limit increment zero c = limit <ℤ c
ValuesUpTo limit increment (suc k) c = (c ≤ℤ limit) × ValuesUpTo limit increment k (c +ℤ increment)

-- The handler goes on for `k` rounds from the counter `c` on, and the counter stays a `long`.
abbrev pub Counts : ℤ → ℤ → ℕ → ℤ → Type 0
Counts limit increment zero c = continues_for c limit increment ≡ false
Counts limit increment (suc k) c =
    (continues_for c limit increment ≡ true)
    × (is_long (c +ℤ increment) ≡ true)
    × Counts limit increment k (c +ℤ increment)

is_long_parts : (a : ℤ) → pos_part a < 2 ^ 63 → neg_part a ≤ 2 ^ 63 → is_long a ≡ true
is_long_parts (pos n) h k = ground arith
is_long_parts (negsuc n) h k = ground arith

parts_of_long : (a : ℤ) → is_long a ≡ true → (pos_part a < 2 ^ 63) × (neg_part a ≤ 2 ^ 63)
parts_of_long (pos n) h = (ground arith, omega arith)
parts_of_long (negsuc n) h = (omega arith, ground arith)

pos_part_mono : (a b : ℤ) → a ≤ℤ b → pos_part a ≤ pos_part b
pos_part_mono (pos m) (pos n) h = omega arith
pos_part_mono (pos m) (negsuc n) h = omega arith
pos_part_mono (negsuc m) b h = omega arith

neg_part_mono : (a b : ℤ) → a ≤ℤ b → neg_part b ≤ neg_part a
neg_part_mono a (pos n) h = omega arith
neg_part_mono (pos m) (negsuc n) h = omega arith
neg_part_mono (negsuc m) (negsuc n) h = omega arith

sum_is_long :
    (limit c increment : ℤ)
    → is_long c ≡ true
    → is_long (limit +ℤ increment) ≡ true
    → ltb_ℤ (pos 0) increment ≡ true
    → ltb_ℤ limit c ≡ false
    → is_long (c +ℤ increment) ≡ true
sum_is_long limit c increment hc hl hi h =
    let (a, b) = parts_of_long c hc in
    let (d, e) = parts_of_long (limit +ℤ increment) hl in
    let p =
      ltb→lt (pos_part (pos 0) + neg_part increment) (pos_part increment + neg_part (pos 0)) hi in
    let q : pos_part c + neg_part limit ≤ pos_part limit + neg_part c = ground arith in
    let u = pos_part_mono (c +ℤ increment) (limit +ℤ increment) (omega (int_laws, q)) in
    let v = neg_part_mono c (c +ℤ increment) (omega (int_laws, p)) in
    is_long_parts (c +ℤ increment) (omega (arith, u, d)) (omega (arith, v, b))

stops :
    (limit increment c : ℤ)
    → ltb_ℤ (pos 0) increment ≡ true
    → ltb_ℤ limit c ≡ true
    → continues_for c limit increment ≡ false
stops limit increment c h e =
    let d : ltb_ℤ increment (pos 0) ≡ false = ground arith in rw (h, e, d) refl

goes :
    (limit increment c : ℤ)
    → ltb_ℤ (pos 0) increment ≡ true
    → ltb_ℤ limit c ≡ false
    → continues_for c limit increment ≡ true
goes limit increment c h e = rw (h, e) refl

-- A loop with a positive increment ends behind the last value up to the limit, when the limit and one
-- increment are a `long`.
pub Counts-total :
    (limit increment : ℤ)
    → is_long (limit +ℤ increment) ≡ true
    → ltb_ℤ (pos 0) increment ≡ true
    → (n : ℕ) (c : ℤ) → is_long c ≡ true
    → pos_part limit + neg_part c < n + (pos_part c + neg_part limit)
    → (k : ℕ) × Counts limit increment k c × ValuesUpTo limit increment k c
Counts-total limit increment hl hi zero c hc m =
    (zero, stops limit increment c hi (ground arith), omega (arith, m))
Counts-total limit increment hl hi (suc n) c hc m = elim (Bool-cases (ltb_ℤ limit c)) [
  | inl e ↦ (zero, stops limit increment c hi e, ground (arith, e))
  | inr e ↦
      let p =
        ltb→lt (pos_part (pos 0) + neg_part increment) (pos_part increment + neg_part (pos 0)) hi in
      let long = sum_is_long limit c increment hc hl hi e in
      let (k, h, u) =
        Counts-total limit increment hl hi n (c +ℤ increment) long (omega (int_laws, p, m)) in
      (suc k, (goes limit increment c hi e, long, h), (ground (arith, e), u))
]
