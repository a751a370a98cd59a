-- ===== src/Math/Orders.antt =====
-- The order of strings that the comparisons use, and the bits of the logical operators.
use sli.Prelude.{
  ◌<◌, ◌≡◌, refl, sym, ◌⊎◌, ap, Bool, true, false, not, List, [], ◌∷◌, ltb, Bool-cases, inl, inr,
  arith,
}
use sli.Prelude.Int.{ℤ, pos, negsuc}
use sli.Math.Comparisons.{unsigned_char, string_less, gt, lt, geq, leq, compare_string}

-- A `char` with a sign.
abbrev pub IsChar : ℤ → Type 0
IsChar (pos n) = n < 128
IsChar (negsuc n) = n < 128

abbrev pub AreChars : List ℤ → Type 0
AreChars [] = Unit {0}
AreChars (c ∷ s) = IsChar c × AreChars s

unsigned_char-equal : (c d : ℤ) → IsChar c → IsChar d → unsigned_char c ≡ unsigned_char d → c ≡ d
unfolding unsigned_char
unsigned_char-equal (pos m) (pos n) hc hd e = ap pos e
unsigned_char-equal (pos m) (negsuc n) hc hd e = absurd (omega (arith, hc, hd, e))
unsigned_char-equal (negsuc m) (pos n) hc hd e = absurd (omega (arith, hc, hd, e))
unsigned_char-equal (negsuc m) (negsuc n) hc hd e =
    ap negsuc {x = m} {y = n} (omega (arith, hc, hd, e))

string_less-irreflexive : (s : List ℤ) → string_less s s ≡ false
unfolding string_less
string_less-irreflexive [] = refl
string_less-irreflexive (c ∷ s) =
    let e : ltb (unsigned_char c) (unsigned_char c) ≡ false = ground arith in
    rw e (string_less-irreflexive s)

string_less-asymmetric : (s t : List ℤ) → string_less s t ≡ true → string_less t s ≡ false
unfolding string_less
string_less-asymmetric [] [] h = refl
string_less-asymmetric [] (d ∷ t) h = refl
string_less-asymmetric (c ∷ s) [] h = absurd (cc h)
string_less-asymmetric (c ∷ s) (d ∷ t) h =
    let r = string_less-asymmetric s t in ground (arith, r, h)

string_less-connected :
    (s t : List ℤ)
    → AreChars s
    → AreChars t
    → string_less s t ≡ false
    → string_less t s ≡ false
    → s ≡ t
unfolding string_less
string_less-connected [] [] hs ht h k = refl
string_less-connected [] (d ∷ t) hs ht h k = absurd (cc h)
string_less-connected (c ∷ s) [] hs ht h k = absurd (cc k)
string_less-connected (c ∷ s) (d ∷ t) (hc, hs) (hd, ht) h k =
    let e : unsigned_char c ≡ unsigned_char d = ground (arith, h, k) in
    let x : string_less s t ≡ false = ground (arith, h, e) in
    let y : string_less t s ≡ false = ground (arith, k, e) in
    let p = unsigned_char-equal c d hc hd e in
    let q = string_less-connected s t hs ht x y in cc (p, q)

string_less_trans :
    (s t u : List ℤ) → string_less s t ≡ true → string_less t u ≡ true → string_less s u ≡ true
unfolding string_less
string_less_trans s t [] h k = absurd (cc k)
string_less_trans s [] (f ∷ u) h k = absurd (cc h)
string_less_trans [] (d ∷ t) (f ∷ u) h k = refl
string_less_trans (c ∷ s) (d ∷ t) (f ∷ u) h k =
    let r = string_less_trans s t u in ground (arith, r, h, k)

string_less-negatively_transitive :
    (s t u : List ℤ)
    → AreChars t
    → AreChars u
    → string_less t s ≡ false
    → string_less u t ≡ false
    → string_less u s ≡ false
string_less-negatively_transitive s t u ht hu h k = elim (Bool-cases (string_less u s)) [
  | inr e ↦ e
  | inl e ↦ elim (Bool-cases (string_less t u)) [
    | inl f ↦ absurd (let r = string_less_trans t u s f e in cc (r, h))
    | inr f ↦ let q = string_less-connected t u ht hu f k in cc (q, h)
  ]
]

not-not : (b : Bool) → not (not b) ≡ b
not-not true = refl
not-not false = refl

-- On strings of characters, leq is a total order: a string is below itself, one of two strings is below
-- the other, two strings below each other are equal, and leq goes on over a string between; and geq is
-- leq with the strings exchanged, lt is the opposite of geq, and gt is the opposite of leq.
pub compare_string-IsTotalOrder :
    (s t u : List ℤ)
    → AreChars s
    → AreChars t
    → AreChars u
    → (compare_string leq s s ≡ true)
      × ((compare_string leq s t ≡ true) ⊎ (compare_string leq t s ≡ true))
      × (compare_string leq s t ≡ true → compare_string leq t s ≡ true → s ≡ t)
      × (compare_string leq s t ≡ true
          → compare_string leq t u ≡ true
          → compare_string leq s u ≡ true)
      × (compare_string geq s t ≡ compare_string leq t s)
      × (compare_string lt s t ≡ not (compare_string geq s t))
      × (compare_string gt s t ≡ not (compare_string leq s t))
unfolding compare_string
compare_string-IsTotalOrder s t u hs ht hu = (
  ap not (string_less-irreflexive s),
  elim (Bool-cases (string_less s t)) [
    | inl e ↦ inl (ap not (string_less-asymmetric s t e))
    | inr e ↦ inr (ap not e)
  ],
  (λ h k. string_less-connected s t hs ht (ground (arith, k)) (ground (arith, h))),
  (λ h k.
      ap not
        (string_less-negatively_transitive s t u ht hu (ground (arith, h)) (ground (arith, k)))),
  refl,
  sym (not-not (string_less s t)),
  sym (not-not (string_less t s)),
)
