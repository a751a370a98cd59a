-- ===== src/Scanner/Signs.antt =====
-- A sign that no digit follows.
use sli.Prelude.{ℕ, ◌≡◌, refl, true, some, List, [], ◌∷◌, ◌++◌, arith}
use sli.Scanner.States.{ScanStates, Codes}
use sli.Scanner.Charcode.{code}
use sli.Scanner.Trans.{trans}
use sli.Scanner.Lexeme.{nametype}
use sli.Scanner.Scan.{
  Scanner, Scan, begin, after, scan, scan_loop, round, advance, act, unget, finish, append,
}
use sli.Scanner.Bytes.{delimits, resume, seen-delimiter, delimiter-ne-endof}
use sli.Scanner.Integers.{signed, round-minus}

ends_sign : (k : Codes) → delimits k ≡ true → trans ScanStates.minusst k ≡ ScanStates.aheadsgst
unfolding trans
ends_sign Codes.whitespace h = refl
ends_sign _ h = ground arith

module _ (t : Scan) (e : ℕ) (d : delimits (code e) ≡ true) where
  abbrev ahead : Scan
  ahead = record (advance e (record t { state = ScanStates.minusst })) {
    state = ScanStates.aheadsgst;
  }

  round-ahead :
      round e (record t { state = ScanStates.minusst })
      ≡ finish (nametype (ahead.s ++ ahead.sgc ∷ [])) (unget e (append ahead.sgc ahead))
  unfolding round act
  round-ahead = rw (ends_sign (code e) d)

-- The call on a lone minus sign, before the loop ends.
abbrev stopped : (sc : Scanner) (e : ℕ) → delimits (code e) ≡ true → Scan
stopped sc e d =
    let t = ahead (signed (begin sc)) e d in finish (nametype (b'-' ∷ [])) (unget e (append b'-' t))

scan_loop-minus :
    (sc : Scanner) (e : ℕ) (rest : List ℕ) (d : delimits (code e) ≡ true)
    → scan_loop (begin sc) (b'-' ∷ e ∷ rest) ≡ some (stopped sc e d, resume e rest)
unfolding scan_loop finish unget append advance
scan_loop-minus sc e rest d =
    rw (round-minus (begin sc), seen-delimiter e d, round-ahead (signed (begin sc)) e d)
      (ground (arith, delimiter-ne-endof e d))

digits-stopped :
    (sc : Scanner) (e : ℕ) (d : delimits (code e) ≡ true)
    → (stopped sc e d).digits ≡ sc.ds ++ b'-' ∷ []
unfolding finish unget append advance
digits-stopped sc e d = ground arith

token-stopped :
    (sc : Scanner) (e : ℕ) (d : delimits (code e) ≡ true)
    → (stopped sc e d).token ≡ some (nametype (b'-' ∷ []))
unfolding finish
token-stopped sc e d = refl

-- A minus sign before a delimiter is a name, and the call leaves it among the digits as well.
pub scan-minus :
    (sc : Scanner) (e : ℕ) (rest : List ℕ)
    → sc.input ≡ b'-' ∷ e ∷ rest
    → delimits (code e) ≡ true
    → (sc' : Scanner) × (scan sc ≡ some (some (nametype (b'-' ∷ [])), sc'))
      × (sc'.input ≡ resume e rest)
      × (sc'.ds ≡ sc.ds ++ b'-' ∷ [])
unfolding scan
scan-minus sc e rest i d = (
  after (stopped sc e d, resume e rest),
  rw (i, scan_loop-minus sc e rest d, scan, token-stopped sc e d),
  refl,
  digits-stopped sc e d,
)
