-- ===== src/Scanner/Integers.antt =====
-- Integer literals: an optional minus sign, a digit other than 0, further digits, and a character
-- that ends the literal. The digits `ds` that an earlier call has left stand in front of them.
use mathlib.Core.Option
use sli.Prelude.{
  ℕ, ◌+◌, ◌≡◌, ◌≢◌, refl, ap, ◌∙◌, Bool, true, false, Option, none, some, List, [], ◌∷◌, ◌++◌,
  arith, length, if◌then◌else◌, append_assoc,
}
use sli.Prelude.Int.{ℤ}
use sli.Scanner.States.{ScanStates}
use sli.Scanner.Charcode.{code}
use sli.Scanner.Trans.{trans}
use sli.Scanner.Lexeme.{integertype, is_digit, strtoll, unsigned, negated}
use sli.Scanner.Scan.{
  Scanner, Scan, act, round, advance, begin, after, scan_loop, scan, finish, push_ds,
}
use sli.Scanner.Bytes.{
  delimits, code-nonzero, advance_within, resume, digits-advance, token-advance,
}
use sli.Scanner.Digits.{
  AllDigits, value, leading-value, reading, digit-ne-endoln, seen-digit, scan_loop-digits,
  scan_loop-end, scan_loop-overflow,
}

-- The sign that a literal may begin with.
abbrev pub minus_sign : Bool → List ℕ
minus_sign negative = if negative then b'-' ∷ [] else []

-- A literal: a sign, a digit, more digits.
abbrev pub literal_text : Bool → ℕ → List ℕ → List ℕ
literal_text negative c w = minus_sign negative ++ c ∷ w

-- The number that a literal stands for: `none` where it is no `long`.
abbrev pub literal : Bool → ℕ → Option ℤ
literal negative n = if negative then negated n else unsigned n

pub strtoll-literal :
    (negative : Bool) (c : ℕ) (w : List ℕ)
    → AllDigits (c ∷ w)
    → strtoll (literal_text negative c w) ≡ literal negative (value 0 (c ∷ w))
unfolding strtoll
strtoll-literal true c w h = rw (leading-value 0 (c ∷ w) h)
strtoll-literal false c w h = rw (leading-value 0 (c ∷ w) h) (ground (arith, h.0))

round-first :
    (c : ℕ) (t : Scan)
    → is_digit c ≡ true
    → c ≢ b'0'
    → round c (record t { state = ScanStates.start }) ≡ reading t (t.digits ++ c ∷ []) (t.col + 1)
unfolding round trans act push_ds
round-first c t h nz = rw (
  code-nonzero c h nz,
  advance_within c (record t { state = ScanStates.start }) (digit-ne-endoln c h),
)

round-second :
    (c : ℕ) (t : Scan)
    → is_digit c ≡ true
    → c ≢ b'0'
    → round c (record t { state = ScanStates.minusst }) ≡ reading t (t.digits ++ c ∷ []) (t.col + 1)
unfolding round trans act push_ds
round-second c t h nz = rw (
  code-nonzero c h nz,
  advance_within c (record t { state = ScanStates.minusst }) (digit-ne-endoln c h),
)

-- The call after a minus sign at its front.
abbrev pub signed : Scan → Scan
signed t = record t { sgc = b'-'; digits = t.digits ++ b'-' ∷ []; col = t.col + 1 }

pub round-minus :
    (t : Scan)
    → round b'-' (record t { state = ScanStates.start })
      ≡ record (signed t) { state = ScanStates.minusst }
unfolding round trans act push_ds advance code
round-minus t = refl

abbrev signed_if : Bool → Scan → Scan
signed_if negative t = if negative then signed t else t

module _ (t : Scan) (c : ℕ) (w : List ℕ) (tail : List ℕ) (h : AllDigits (c ∷ w))
    (nz : c ≢ b'0') where
  -- The automaton goes through the sign and all digits.
  scan_loop-literal :
      (negative : Bool)
      → (n : ℕ) × (scan_loop
            (record t { state = ScanStates.start })
            (literal_text negative c w ++ tail)
          ≡ scan_loop
              (reading (signed_if negative t) (t.digits ++ literal_text negative c w) n)
              tail)
  unfolding scan_loop
  scan_loop-literal false = (
    t.col + 1 + length w,
    rw (seen-digit c h.0, round-first c t h.0 nz)
        (scan_loop-digits t (t.digits ++ c ∷ []) w (t.col + 1) tail h.1
          ∙ ap (λ x. scan_loop (reading t x (t.col + 1 + length w)) tail)
              (append_assoc t.digits (c ∷ []) w)),
  )
  scan_loop-literal true = (
    t.col + 1 + 1 + length w,
    rw (round-minus, seen-digit c h.0, round-second c (signed t) h.0 nz)
        (scan_loop-digits (signed t) ((t.digits ++ b'-' ∷ []) ++ c ∷ []) w (t.col + 1 + 1) tail h.1
          ∙ ap (λ x. scan_loop (reading (signed t) x (t.col + 1 + 1 + length w)) tail)
              (append_assoc (t.digits ++ b'-' ∷ []) (c ∷ []) w
                ∙ append_assoc t.digits (b'-' ∷ []) (c ∷ w))),
  )

back-signed_if : (negative : Bool) (t : Scan) → (signed_if negative t).back ≡ t.back
back-signed_if negative t = ground arith

token-signed_if : (negative : Bool) (t : Scan) → (signed_if negative t).token ≡ t.token
token-signed_if negative t = ground arith

-- What a call leaves of the input, and of the digits, by what the conversion gave.
abbrev pub input_left : Option ℤ → ℕ → List ℕ → List ℕ
input_left none e rest = rest
input_left (some l) e rest = resume e rest

abbrev pub digits_left : Option ℤ → List ℕ → List ℕ
digits_left none ds = ds
digits_left (some l) ds = []

module _ (e : ℕ) (rest : List ℕ) (d : delimits (code e) ≡ true) where
  pub scan_loop-close :
      (t : Scan) (w : List ℕ) (n : ℕ) (v : Option ℤ)
      → strtoll w ≡ v
      → t.back ≡ false
      → t.token ≡ none
      → (t' : Scan) × (scan_loop (reading t w n) (e ∷ rest) ≡ some (t', input_left v e rest))
        × (t'.token ≡ Option.map integertype v)
        × (t'.digits ≡ digits_left v w)
  scan_loop-close t w n none v b k = (
    _,
    scan_loop-overflow t w n e d rest v b,
    token-advance e (reading t w n) ∙ k,
    digits-advance e (reading t w n),
  )
  scan_loop-close t w n (some l) v b k =
      (_, scan_loop-end t w n e d rest l v b, unfold finish in refl, unfold finish in refl)

  -- The token is the number that `strtoll` reads from the digits left before and the literal.
  pub scan-literal :
      (sc : Scanner) (negative : Bool) (c : ℕ) (w : List ℕ) (v : Option ℤ)
      → sc.input ≡ literal_text negative c w ++ e ∷ rest
      → AllDigits (c ∷ w)
      → c ≢ b'0'
      → strtoll (sc.ds ++ literal_text negative c w) ≡ v
      → (sc' : Scanner) × (scan sc ≡ some (Option.map integertype v, sc'))
        × (sc'.input ≡ input_left v e rest)
        × (sc'.ds ≡ digits_left v (sc.ds ++ literal_text negative c w))
  unfolding scan
  scan-literal sc negative c w v i h nz x =
      let (n, p) = scan_loop-literal (begin sc) c w (e ∷ rest) h nz negative in
      let (t', q, k, g) =
        scan_loop-close (signed_if negative (begin sc)) (sc.ds ++ literal_text negative c w) n v x
          (back-signed_if negative (begin sc)) (token-signed_if negative (begin sc)) in
      (after (t', input_left v e rest), rw (i, p ∙ q, k, scan), refl, g)
