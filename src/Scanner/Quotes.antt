-- ===== src/Scanner/Quotes.antt =====
-- A string is read back from its escaped form: the syntax that the scanner accepts for any text.
use sli.Prelude.{
  ℕ, ◌≡◌, refl, ap, ◌∙◌, Bool, true, ◌||◌, some, List, [], ◌∷◌, ◌++◌, arith, ◌==◌, if◌then◌else◌,
  append_assoc, append-nil, Bool-cases, inl, inr, ◌⊎◌,
}
use sli.Scanner.States.{ScanStates}
use sli.Scanner.Charcode.{code}
use sli.Scanner.Trans.{trans}
use sli.Scanner.Lexeme.{stringtype}
use sli.Scanner.Scan.{Scanner, Scan, begin, after, scan, round, advance, act, seen, running}
use sli.Scanner.Bytes.{seen-code}
use sli.Scanner.Strings.{
  plain, Inside, Inside-plain, Inside-backslash, state-backslash, Inside-escaped, Read, Read-more,
  Read-close, scan_loop-more,
}

-- The three characters that the scanner does not take for themselves.
abbrev pub needs_escape : ℕ → Bool
needs_escape c = c == b'(' || c == b')' || c == 92

unfoldable pub escape : List ℕ → List ℕ
escape [] = []
escape (c ∷ w) = if needs_escape c then 92 ∷ c ∷ escape w else c ∷ escape w

-- The bytes that can stand in a string: all but those without a code, and the end of the input.
abbrev pub Printable : List ℕ → Type 0
Printable [] = Unit {0}
Printable (c ∷ w) = (plain (code c) || needs_escape c ≡ true) × Printable w

seen-plain : (c : ℕ) → plain (code c) ≡ true → seen c ≡ c
seen-plain c h = seen-code c (λ p. cc (ap plain p))

needs_escape-cases : (c : ℕ) → needs_escape c ≡ true → (c ≡ b'(') ⊎ (c ≡ b')') ⊎ (c ≡ 92)
needs_escape-cases c h = ground arith

module _ {t : Scan} {v ds : List ℕ} {depth : ℕ} (c : ℕ) (h : Inside t v depth ds) where
  -- A plain character takes one round.
  pub Inside-seen : plain (code c) ≡ true → Inside (round (seen c) t) (v ++ c ∷ []) depth ds
  Inside-seen p = rw (seen-plain c p) (Inside-plain h c p)

  -- An escaped one takes two.
  Inside-escape :
      needs_escape c ≡ true → Inside (round (seen c) (round 92 t)) (v ++ c ∷ []) depth ds
  Inside-escape n =
      let e : seen c ≡ c = ground (arith, n) in
      rw e (Inside-escaped c (needs_escape-cases c n) (state-backslash h) (Inside-backslash h))

  module _ {w rest input : List ℕ} where
    Read-escape :
        needs_escape c ≡ true
        → Read (round (seen c) (round 92 t)) input w rest ds
        → Read t (92 ∷ c ∷ input) w rest ds
    Read-escape n r =
        let k = Read-more c (Inside-escape n) r in
        record {
          last = k.last;
          loop = scan_loop-more t 92 (c ∷ input) (ap running (state-backslash h)) ∙ k.loop;
          token = k.token;
          digits = k.digits;
        }

-- From inside a string, its escaped text and the closing parenthesis are read as the text.
Read-escaped :
    {ds : List ℕ} (w v rest : List ℕ) (t : Scan)
    → Printable w
    → Inside t v 0 ds
    → Read t (escape w ++ b')' ∷ rest) (v ++ w) rest ds
unfolding escape
Read-escaped [] v rest t p h = rw append-nil (Read-close h)
Read-escaped (c ∷ w) v rest t p h = elim (Bool-cases (needs_escape c)) [
  | inl n ↦
      rw (n, ← append_assoc v (c ∷ []) w)
        (Read-escape c h n (
          Read-escaped w (v ++ c ∷ []) rest (round (seen c) (round 92 t)) p.1
            (Inside-escape c h n)))
  | inr n ↦
      let k = Inside-seen c h (ground (arith, p.0, n)) in
      rw (n, ← append_assoc v (c ∷ []) w)
        (Read-more c k (Read-escaped w (v ++ c ∷ []) rest (round (seen c) t) p.1 k))
]

-- The call after the opening parenthesis.
pub round-parenthesis :
    (sc : Scanner)
    → ((round b'(' (begin sc)).state ≡ ScanStates.startstringst)
      × Inside (round b'(' (begin sc)) [] 0 sc.ds
unfolding round trans act advance code
round-parenthesis sc =
    (refl, record { state = refl; text = refl; nesting = refl; digits = refl; kept = refl })

-- A call of the scanner on a string literal whose inside is read.
pub scan-Read :
    (sc : Scanner) (input w rest : List ℕ)
    → sc.input ≡ b'(' ∷ input
    → Read (round b'(' (begin sc)) input w rest sc.ds
    → (sc' : Scanner) × (scan sc ≡ some (some (stringtype w), sc'))
      × (sc'.input ≡ rest)
      × (sc'.ds ≡ sc.ds)
unfolding scan
scan-Read sc input w rest i r = (
  after (r.last, rest),
  rw (
    i,
    scan_loop-more (begin sc) b'(' input (ap running (round-parenthesis sc).0) ∙ r.loop,
    scan,
    r.token,
  ),
  refl,
  r.digits,
)

-- Any text of bytes that can stand in a string is read back from its escaped form between
-- parentheses, whatever follows, and nothing else of the scanner's digits or input changes.
pub scan-escape :
    (sc : Scanner) (w rest : List ℕ)
    → sc.input ≡ b'(' ∷ escape w ++ b')' ∷ rest
    → Printable w
    → (sc' : Scanner) × (scan sc ≡ some (some (stringtype w), sc'))
      × (sc'.input ≡ rest)
      × (sc'.ds ≡ sc.ds)
scan-escape sc w rest i p =
    scan-Read sc (escape w ++ b')' ∷ rest) w rest i
      (Read-escaped w [] rest (round b'(' (begin sc)) p (round-parenthesis sc).1)
