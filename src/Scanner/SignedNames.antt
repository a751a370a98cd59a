-- ===== src/Scanner/SignedNames.antt =====
-- Names that begin with a sign and the letter e.
use sli.Prelude.{ℕ, ◌+◌, ◌≡◌, refl, ◌∙◌, true, some, List, [], ◌∷◌, ◌++◌}
use sli.Scanner.States.{ScanStates}
use sli.Scanner.Charcode.{code}
use sli.Scanner.Trans.{trans}
use sli.Scanner.Lexeme.{nametype}
use sli.Scanner.Scan.{Scanner, begin, after, scan, scan_loop, round, advance, act, append}
use sli.Scanner.Bytes.{scan-scan_loop, delimits, resume}
use sli.Scanner.Integers.{signed, round-minus}
use sli.Scanner.Words.{
  AllName, plain, reading, stopped, scan_loop-name, scan_loop-delimiter, token-stopped,
  digits-stopped,
}

round-exponent :
    (sc : Scanner)
    → round b'e' (record (signed (begin sc)) { state = ScanStates.minusst })
      ≡ reading plain (signed (begin sc)) (b'e' ∷ []) (sc.col + 1 + 1)
unfolding round trans act append advance code
round-exponent sc = refl

scan_loop-exponent :
    (sc : Scanner) (tail : List ℕ)
    → scan_loop (begin sc) (b'-' ∷ b'e' ∷ tail)
      ≡ scan_loop (reading plain (signed (begin sc)) (b'e' ∷ []) (sc.col + 1 + 1)) tail
unfolding scan_loop
scan_loop-exponent sc tail = rw (round-minus (begin sc), round-exponent sc)

-- A name that begins with a minus sign and the letter e loses its sign: it is read as the name of the
-- characters that follow, and the sign is left among the digits.
pub scan-minus_exponent :
    (sc : Scanner) (w : List ℕ) (e : ℕ) (rest : List ℕ)
    → sc.input ≡ b'-' ∷ b'e' ∷ w ++ e ∷ rest
    → AllName w
    → delimits (code e) ≡ true
    → (sc' : Scanner) × (scan sc ≡ some (some (nametype (b'e' ∷ w)), sc'))
      × (sc'.input ≡ resume e rest)
      × (sc'.ds ≡ sc.ds ++ b'-' ∷ [])
scan-minus_exponent sc w e rest i h d =
    let t = signed (begin sc) in
    let (m, r) = scan_loop-name plain t (b'e' ∷ []) w (sc.col + 1 + 1) (e ∷ rest) h in
    let z = scan_loop-delimiter plain t (b'e' ∷ w) m e d rest refl in
    (
      after (stopped plain t (b'e' ∷ w) m e d, resume e rest),
      scan-scan_loop sc (b'-' ∷ b'e' ∷ w ++ e ∷ rest) (resume e rest)
          (stopped plain t (b'e' ∷ w) m e d) (some (nametype (b'e' ∷ w))) i
          (scan_loop-exponent sc (w ++ e ∷ rest) ∙ r ∙ z) (token-stopped plain t (b'e' ∷ w) m e d),
      refl,
      digits-stopped plain t (b'e' ∷ w) m e d,
    )
