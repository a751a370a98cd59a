-- ===== src/Scanner/Zeros.antt =====
-- The literals 0 and -0: the automaton waits in `nullst`, and no digit is kept.
use sli.Prelude.{
  ℕ, ◌+◌, ◌≡◌, refl, ap, ◌∙◌, Bool, true, false, some, List, [], ◌∷◌, ◌++◌, arith, Bool-cases, inl,
  inr, ◌==◌,
}
use sli.Prelude.Int.{pos}
use sli.Scanner.States.{ScanStates, Codes}
use sli.Scanner.Charcode.{code}
use sli.Scanner.Trans.{trans}
use sli.Scanner.Lexeme.{integertype, strtoll}
use sli.Scanner.Scan.{Scanner, Scan, act, round, advance, begin, after, endoln, scan_loop, scan}
use sli.Scanner.Bytes.{delimits, resume, seen-delimiter}
use sli.Scanner.Digits.{reading}
use sli.Scanner.Integers.{minus_sign, signed, round-minus, scan_loop-close}

-- A call that has read a 0 at the front of a number.
abbrev waiting : Scan → ℕ → Scan
waiting t n = record t { state = ScanStates.nullst; col = n }

trans-nullst :
    (k : Codes) → delimits k ≡ true → trans ScanStates.nullst k ≡ trans ScanStates.intdgtst k
unfolding trans
trans-nullst Codes.whitespace h = refl
trans-nullst _ h = ground arith

-- A character that delimits is to `nullst` what it is to the state of digits.
round-nullst :
    (e : ℕ) (t : Scan) (n : ℕ)
    → delimits (code e) ≡ true
    → round e (waiting t n) ≡ round e (reading t t.digits n)
unfolding round advance
round-nullst e t n h = elim (Bool-cases (e == endoln)) [
  | inl c ↦ rw (trans-nullst (code e) h, c) refl
  | inr c ↦ rw (trans-nullst (code e) h, c) refl
]

scan_loop-nullst :
    (e : ℕ) (rest : List ℕ) (t : Scan) (n : ℕ)
    → delimits (code e) ≡ true
    → scan_loop (waiting t n) (e ∷ rest) ≡ scan_loop (reading t t.digits n) (e ∷ rest)
unfolding scan_loop
scan_loop-nullst e rest t n h =
    let seen_e = seen-delimiter e h in rw (seen_e, round-nullst e t n h) refl

round-zero : (t : Scan) → round b'0' (record t { state = ScanStates.start }) ≡ waiting t (t.col + 1)
unfolding round trans act advance code
round-zero t = refl

round-minus_zero :
    (t : Scan) → round b'0' (record t { state = ScanStates.minusst }) ≡ waiting t (t.col + 1)
unfolding round trans act advance code
round-minus_zero t = refl

-- What `ds` holds when the digit 0 is read: the sign, but not the digit.
scan_loop-zero :
    (negative : Bool) (t : Scan) (tail : List ℕ)
    → t.digits ≡ []
    → (u : Scan) × (n : ℕ) × (scan_loop
          (record t { state = ScanStates.start })
          (minus_sign negative ++ b'0' ∷ tail)
        ≡ scan_loop (waiting u n) tail)
      × (u.digits ≡ minus_sign negative)
      × (u.back ≡ t.back)
      × (u.token ≡ t.token)
unfolding scan_loop
scan_loop-zero false t tail f = (t, t.col + 1, rw (round-zero t) refl, f, refl, refl)
scan_loop-zero true t tail f = (
  signed t,
  t.col + 1 + 1,
  rw (round-minus t, round-minus_zero (signed t)) refl,
  ap (λ x. x ++ b'-' ∷ []) f,
  refl,
  refl,
)

strtoll-sign : (negative : Bool) → strtoll (minus_sign negative) ≡ some (pos 0)
unfolding strtoll
strtoll-sign true = refl
strtoll-sign false = refl

pub scan-zero :
    (sc : Scanner) (negative : Bool) (e : ℕ) (rest : List ℕ)
    → sc.input ≡ minus_sign negative ++ b'0' ∷ e ∷ rest
    → sc.ds ≡ []
    → delimits (code e) ≡ true
    → (sc' : Scanner) × (scan sc ≡ some (some (integertype (pos 0)), sc'))
      × (sc'.input ≡ resume e rest)
      × (sc'.ds ≡ [])
unfolding scan
scan-zero sc negative e rest i f d =
    let (u, n, p, g, b, k) = scan_loop-zero negative (begin sc) (e ∷ rest) f in
    let (t', q, x, y) =
      scan_loop-close e rest d u u.digits n (some (pos 0)) (ap strtoll g ∙ strtoll-sign negative) b
        k in
    let w = p ∙ scan_loop-nullst e rest u n d ∙ q in
    (after (t', resume e rest), rw (i, w, x, scan), refl, y)
