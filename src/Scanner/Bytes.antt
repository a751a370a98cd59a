-- ===== src/Scanner/Bytes.antt =====
-- What the bytes of a token are to the automaton: facts about `code`, found by trying all bytes.
use sli.Prelude.{
  ℕ, zero, suc, ◌+◌, ◌≤◌, ◌∙◌, Bool-cases, inl, inr, ◌≡◌, ◌≢◌, refl, ap, Option, some, List, ◌∷◌,
  Bool, true, false, not, ◌&&◌, ◌||◌, arith, leb, ◌==◌, if◌then◌else◌,
}
use sli.Scanner.States.{Codes}
use sli.Scanner.Charcode.{code}
use sli.Scanner.Lexeme.{Lexeme, is_digit}
use sli.Scanner.Scan.{Scanner, Scan, begin, after, scan, scan_loop, advance, seen, endoln, endof}

holds_upto : (ℕ → Bool) → ℕ → Bool
holds_upto test zero = test zero
holds_upto test (suc last) = let earlier = holds_upto test last in test (suc last) && earlier

holds_upto-apply :
    (test : ℕ → Bool) (last c : ℕ) → c ≤ last → holds_upto test last ≡ true → test c ≡ true
unfolding holds_upto
holds_upto-apply test zero c le h = ap test {x = c} {y = zero} (omega arith) ∙ h
holds_upto-apply test (suc last) c le h = elim (Bool-cases (c == suc last)) [
  | inl e ↦ ap test {x = c} {y = suc last} (ground (arith, e)) ∙ ground (arith, h)
  | inr e ↦ holds_upto-apply test last c (ground (arith, e, le)) (ground (arith, h))
]

-- A digit, zero or another.
abbrev pub numeric : Codes → Bool
numeric Codes.digit = true
numeric Codes.null = true
numeric _ = false

-- The codes that end a number, a name or a literal alike.
abbrev pub delimits : Codes → Bool
delimits Codes.whitespace = true
delimits Codes.eoln = true
delimits Codes.openbracket = true
delimits Codes.closebracket = true
delimits Codes.openbrace = true
delimits Codes.closebrace = true
delimits Codes.openparenth = true
delimits Codes.percent = true
delimits Codes.slash = true
delimits _ = false

digit_le : (c : ℕ) → is_digit c ≡ true → c ≤ 57
digit_le c h = ground (arith, h)

digit_table : holds_upto (λ c. not (is_digit c) || numeric (code c)) 57 ≡ true
unfolding holds_upto code
digit_table = refl

pub numeric-code : (c : ℕ) → is_digit c ≡ true → numeric (code c) ≡ true
numeric-code c h = ground (
  arith,
  holds_upto-apply (λ c. not (is_digit c) || numeric (code c)) 57 c (digit_le c h) digit_table,
)

abbrev is_nonzero : Codes → Bool
is_nonzero Codes.digit = true
is_nonzero _ = false

nonzero_table : holds_upto (λ c. not (leb b'1' c) || is_nonzero (code c)) 57 ≡ true
unfolding holds_upto code
nonzero_table = refl

digit_of : (k : Codes) → is_nonzero k ≡ true → k ≡ Codes.digit
digit_of Codes.digit h = refl
digit_of _ h = cc

pub code-nonzero : (c : ℕ) → is_digit c ≡ true → c ≢ b'0' → code c ≡ Codes.digit
code-nonzero c h n = digit_of (code c) (
    ground (
      arith,
      holds_upto-apply (λ c. not (leb b'1' c) || is_nonzero (code c)) 57 c (digit_le c h)
          nonzero_table,
    ))

code-zero : code 0 ≡ Codes.invalid
unfolding code
code-zero = refl

pub seen-code : (c : ℕ) → code c ≢ Codes.invalid → seen c ≡ c
seen-code zero h = absurd (h code-zero)
seen-code (suc c) h = ground arith

delimits-code-endof : delimits (code endof) ≡ false
unfolding code
delimits-code-endof = refl

module _ (e : ℕ) (h : delimits (code e) ≡ true) where
  pub delimiter-ne-endof : e ≢ endof
  delimiter-ne-endof p = cc (ap (λ c. delimits (code c)) p, delimits-code-endof)

  pub seen-delimiter : seen e ≡ e
  seen-delimiter = seen-code e (λ p. cc (ap delimits p))

-- The input after a delimiter: the end of a line is consumed, any other character is put back.
abbrev pub resume : ℕ → List ℕ → List ℕ
resume e rest = if e == endoln then rest else e ∷ rest

-- Within a line the place moves by a column.
pub advance_within : (c : ℕ) (t : Scan) → c ≢ endoln → advance c t ≡ record t { col = t.col + 1 }
unfolding advance
advance_within c t h = ground arith

pub digits-advance : (c : ℕ) (t : Scan) → (advance c t).digits ≡ t.digits
unfolding advance
digits-advance c t = ground arith

pub back-advance : (c : ℕ) (t : Scan) → (advance c t).back ≡ t.back
unfolding advance
back-advance c t = ground arith

pub token-advance : (c : ℕ) (t : Scan) → (advance c t).token ≡ t.token
unfolding advance
token-advance c t = ground arith

-- A call gives what its loop gives.
pub scan-scan_loop :
    (sc : Scanner) (input rest : List ℕ) (t : Scan) (x : Option Lexeme)
    → sc.input ≡ input
    → scan_loop (begin sc) input ≡ some (t, rest)
    → t.token ≡ x
    → scan sc ≡ some (x, after (t, rest))
unfolding scan
scan-scan_loop sc input rest t x i l k = rw (i, l, scan, k)
