-- ===== src/Scanner/Literals.antt =====
-- What integer literals mean, for a scanner that starts afresh and for one that an earlier call has
-- left with digits.
use mathlib.Core.Option
use sli.Prelude.{
  ℕ, ◌<◌, ◌≡◌, ◌≢◌, ◌⊎◌, inl, inr, refl, ◌∙◌, ◌==◌, Bool, true, false, Bool-cases, none, some, List,
  [], ◌∷◌, ◌++◌, arith,
}
use sli.Prelude.Int.{pos}
use sli.Scanner.Charcode.{code}
use sli.Scanner.Lexeme.{integertype, long_max}
use sli.Scanner.Scan.{Scanner, scan}
use sli.Scanner.Bytes.{delimits}
use sli.Scanner.Digits.{AllDigits, AllDigits-append, value, value-append_le}
use sli.Scanner.Zeros.{scan-zero}
use sli.Scanner.Integers.{
  minus_sign, literal, literal_text, strtoll-literal, input_left, digits_left, scan-literal,
}

value_zero : (negative : Bool) → literal negative (value 0 (b'0' ∷ [])) ≡ some (pos 0)
unfolding value
value_zero true = refl
value_zero false = refl

zero_or_not : (c : ℕ) (w : List ℕ) → (c ≢ b'0') ⊎ (w ≡ []) → (c ≢ b'0') ⊎ ((c ≡ b'0') × (w ≡ []))
zero_or_not c w (inl n) = inl n
zero_or_not c w (inr n) = elim (Bool-cases (c == b'0')) [
  | inl e ↦ inr (ground (arith, e), n)
  | inr e ↦ inl (ground (arith, e))
]

append-sign :
    (negative : Bool) (e : ℕ) (rest : List ℕ)
    → literal_text negative b'0' [] ++ e ∷ rest ≡ minus_sign negative ++ b'0' ∷ e ∷ rest
append-sign true e rest = refl
append-sign false e rest = refl

-- From a scanner without left-over digits, an integer literal, that is the digit 0 or digits that begin
-- with another one, with or without a minus sign, and with a delimiter behind it: it is read as its
-- value, with its sign, where that fits a `long`, and the input goes on at the delimiter (after it, if it
-- is the end of the line); where the value does not fit, the call fails, the delimiter is consumed, and
-- the literal is left among the digits.
pub scan-integer :
    (sc : Scanner) (negative : Bool) (c : ℕ) (w : List ℕ) (e : ℕ) (rest : List ℕ)
    → sc.input ≡ literal_text negative c w ++ e ∷ rest
    → sc.ds ≡ []
    → AllDigits (c ∷ w)
    → (c ≢ b'0') ⊎ (w ≡ [])
    → delimits (code e) ≡ true
    → (sc' : Scanner) × (scan sc
        ≡ some (Option.map integertype (literal negative (value 0 (c ∷ w))), sc'))
      × (sc'.input ≡ input_left (literal negative (value 0 (c ∷ w))) e rest)
      × (sc'.ds ≡ digits_left (literal negative (value 0 (c ∷ w))) (literal_text negative c w))
scan-integer sc negative c w e rest i f h nz d = elim (zero_or_not c w nz) [
  | inl n ↦
      let (sc', p, q, r) =
        scan-literal e rest d sc negative c w (literal negative (value 0 (c ∷ w))) i h n
          (rw f (strtoll-literal negative c w h)) in
      (sc', p, q, rw f at r)
  | inr (z, n) ↦
      let v : literal negative (value 0 (c ∷ w)) ≡ some (pos 0) = rw (z, n) (value_zero negative) in
      let (sc', p, q, r) =
        scan-zero sc negative e rest (i ∙ rw (z, n) (append-sign negative e rest)) f d in
      (sc', rw v p, rw v q, rw v r)
]

-- A scanner whose left-over digits are out of range reads no literal of digits that begin with another
-- digit than 0, before a delimiter: the call fails, and leaves digits that are out of range again.
pub scan-after_overflow :
    (sc : Scanner) (d : ℕ) (ds : List ℕ) (c : ℕ) (w : List ℕ) (e : ℕ) (rest : List ℕ)
    → sc.input ≡ c ∷ w ++ e ∷ rest
    → sc.ds ≡ d ∷ ds
    → AllDigits (d ∷ ds)
    → long_max < value 0 (d ∷ ds)
    → AllDigits (c ∷ w)
    → c ≢ b'0'
    → delimits (code e) ≡ true
    → (sc' : Scanner) × (scan sc ≡ some (none, sc'))
      × (sc'.ds ≡ d ∷ ds ++ c ∷ w)
      × AllDigits (d ∷ ds ++ c ∷ w)
      × (long_max < value 0 (d ∷ ds ++ c ∷ w))
scan-after_overflow sc d ds c w e rest i f hd big h nz dl =
    let all = AllDigits-append (d ∷ ds) (c ∷ w) hd h in
    let more : long_max < value 0 (d ∷ ds ++ c ∷ w) =
      omega (arith, value-append_le 0 (d ∷ ds) (c ∷ w)) in
    let (sc', p, q, r) =
      scan-literal e rest dl sc false c w none i h nz
        (rw f (strtoll-literal false d (ds ++ c ∷ w) all ∙ ground (arith, more))) in
    (sc', p, rw f at r, all, more)

-- Where the digits that an earlier call has left are a minus sign and nothing else, a literal of digits
-- that begin with another digit than 0, before a delimiter, is read as the negative of its value, and
-- the call fails where that does not fit a `long`.
pub scan-stale_sign :
    (sc : Scanner) (c : ℕ) (w : List ℕ) (e : ℕ) (rest : List ℕ)
    → sc.input ≡ c ∷ w ++ e ∷ rest
    → sc.ds ≡ b'-' ∷ []
    → AllDigits (c ∷ w)
    → c ≢ b'0'
    → delimits (code e) ≡ true
    → (sc' : Scanner) × (scan sc
        ≡ some (Option.map integertype (literal true (value 0 (c ∷ w))), sc'))
      × (sc'.input ≡ input_left (literal true (value 0 (c ∷ w))) e rest)
scan-stale_sign sc c w e rest i f h nz d =
    let (sc', p, q, r) =
      scan-literal e rest d sc false c w (literal true (value 0 (c ∷ w))) i h nz
        (rw f (strtoll-literal true c w h)) in
    (sc', p, q)
