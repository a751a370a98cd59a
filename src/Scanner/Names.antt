-- ===== src/Scanner/Names.antt =====
-- Names, and literals, which are names behind a slash.
use sli.Prelude.{ℕ, ◌+◌, ◌≡◌, refl, ◌∙◌, Bool, true, some, List, [], ◌∷◌, ◌++◌, arith}
use sli.Scanner.States.{ScanStates, Codes}
use sli.Scanner.Charcode.{code}
use sli.Scanner.Trans.{trans}
use sli.Scanner.Scan.{Scanner, begin, after, scan, scan_loop, round, advance, act, append}
use sli.Scanner.Bytes.{scan-scan_loop, advance_within, delimits, resume}
use sli.Scanner.Words.{
  starts_name, starts_literal, in_name, AllName, Kind, plain, quoted, token, reading, stopped,
  seen-name, name-ne-endoln, scan_loop-name, scan_loop-delimiter, token-stopped, digits-stopped,
}

-- What stands before the characters of the name, and what the first of them can be.
abbrev pub prefix : Kind → List ℕ
prefix plain = []
prefix quoted = b'/' ∷ []

abbrev pub starts : Kind → Codes → Bool
starts plain k = starts_name k
starts quoted k = starts_literal k

trans-start : (k : Codes) → starts_name k ≡ true → trans ScanStates.start k ≡ ScanStates.alphast
unfolding trans
trans-start Codes.alpha h = refl
trans-start _ h = ground arith

trans-slash :
    (k : Codes) → starts_literal k ≡ true → trans ScanStates.slashst k ≡ ScanStates.literalst
unfolding trans
trans-slash Codes.alpha h = refl
trans-slash _ h = ground arith

in_name-starts : (q : Kind) (k : Codes) → starts q k ≡ true → in_name k ≡ true
in_name-starts plain Codes.alpha h = refl
in_name-starts plain _ h = ground arith
in_name-starts quoted Codes.alpha h = refl
in_name-starts quoted _ h = ground arith

round-slash :
    (sc : Scanner)
    → round b'/' (begin sc) ≡ record (begin sc) { state = ScanStates.slashst; col = sc.col + 1 }
unfolding round trans act advance code
round-slash sc = refl

module _ (sc : Scanner) (c : ℕ) where
  round-start :
      starts_name (code c) ≡ true
      → round c (begin sc) ≡ reading plain (begin sc) (c ∷ []) (sc.col + 1)
  unfolding round append act
  round-start h = rw (
    trans-start (code c) h,
    advance_within c (begin sc) (name-ne-endoln c (in_name-starts plain (code c) h)),
  )

  round-literal :
      starts_literal (code c) ≡ true
      → round c (record (begin sc) { state = ScanStates.slashst; col = sc.col + 1 })
        ≡ reading quoted (begin sc) (c ∷ []) (sc.col + 1 + 1)
  unfolding round append act
  round-literal h = rw (
    trans-slash (code c) h,
    advance_within c (record (begin sc) { state = ScanStates.slashst; col = sc.col + 1 })
        (name-ne-endoln c (in_name-starts quoted (code c) h)),
  )

module _ (sc : Scanner) (c : ℕ) (w : List ℕ) (e : ℕ) (rest : List ℕ) where
  scan_loop-first :
      (q : Kind)
      → starts q (code c) ≡ true
      → (n : ℕ) × (scan_loop (begin sc) (prefix q ++ c ∷ w ++ e ∷ rest)
          ≡ scan_loop (reading q (begin sc) (c ∷ []) n) (w ++ e ∷ rest))
  unfolding scan_loop
  scan_loop-first plain s =
      (sc.col + 1, rw (seen-name c (in_name-starts plain (code c) s), round-start sc c s))
  scan_loop-first quoted s = (
    sc.col + 1 + 1,
    rw (round-slash sc, seen-name c (in_name-starts quoted (code c) s), round-literal sc c s),
  )

  -- A word up to a delimiter, of letters, digits, signs, points and other characters that make a name: it
  -- is read as that name where its first character is none of the digits, the signs and the point, and as
  -- that literal behind a slash where its first character is no asterisk; the input goes on at the
  -- delimiter (after it, if it is the end of the line), and the digits stay.
  pub scan-name :
      (q : Kind)
      → sc.input ≡ prefix q ++ c ∷ w ++ e ∷ rest
      → starts q (code c) ≡ true
      → AllName w
      → delimits (code e) ≡ true
      → (sc' : Scanner) × (scan sc ≡ some (some (token q (c ∷ w)), sc'))
        × (sc'.input ≡ resume e rest)
        × (sc'.ds ≡ sc.ds)
  scan-name q i s h d =
      let (n, p) = scan_loop-first q s in
      let (m, r) = scan_loop-name q (begin sc) (c ∷ []) w n (e ∷ rest) h in
      let z = scan_loop-delimiter q (begin sc) (c ∷ w) m e d rest refl in
      (
        after (stopped q (begin sc) (c ∷ w) m e d, resume e rest),
        scan-scan_loop sc (prefix q ++ c ∷ w ++ e ∷ rest) (resume e rest)
            (stopped q (begin sc) (c ∷ w) m e d) (some (token q (c ∷ w))) i (p ∙ r ∙ z)
            (token-stopped q (begin sc) (c ∷ w) m e d),
        refl,
        digits-stopped q (begin sc) (c ∷ w) m e d,
      )
