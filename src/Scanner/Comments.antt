-- ===== src/Scanner/Comments.antt =====
-- Comments: from a percent sign to the end of the line.
use sli.Prelude.{ℕ, ◌+◌, ◌≡◌, ◌≢◌, refl, ap, Bool, true, false, List, [], ◌∷◌, ◌++◌, arith}
use sli.Scanner.States.{ScanStates, Codes}
use sli.Scanner.Charcode.{code}
use sli.Scanner.Trans.{trans}
use sli.Scanner.Scan.{Scanner, Scan, begin, scan, scan_loop, round, advance, act, seen, endoln}
use sli.Scanner.Bytes.{seen-code, advance_within}

-- The codes of what a comment can hold.
abbrev pub in_comment : Codes → Bool
in_comment Codes.invalid = false
in_comment Codes.eof = false
in_comment Codes.eoln = false
in_comment Codes.other = false
in_comment _ = true

abbrev pub IsComment : List ℕ → Type 0
IsComment [] = Unit {0}
IsComment (c ∷ w) = (in_comment (code c) ≡ true) × IsComment w

code-endoln : code endoln ≡ Codes.eoln
unfolding code
code-endoln = refl

module _ (c : ℕ) (h : in_comment (code c) ≡ true) where
  comment-ne-endoln : c ≢ endoln
  comment-ne-endoln p = cc (ap (λ x. in_comment (code x)) p, code-endoln)

  seen-comment : seen c ≡ c
  seen-comment = seen-code c (λ p. cc (ap in_comment p))

trans-comment :
    (k : Codes) → in_comment k ≡ true → trans ScanStates.percentst k ≡ ScanStates.percentst
unfolding trans
trans-comment Codes.digit h = refl
trans-comment _ h = ground arith

abbrev within : Scan → ℕ → Scan
within t n = record t { state = ScanStates.percentst; col = n }

round-comment :
    (c : ℕ) (t : Scan) (n : ℕ)
    → in_comment (code c) ≡ true
    → round c (within t n) ≡ within t (n + 1)
unfolding round trans act
round-comment c t n h =
    rw (trans-comment (code c) h, advance_within c (within t n) (comment-ne-endoln c h))

round-endoln :
    (t : Scan) (n : ℕ)
    → round endoln (within t n) ≡ record t { state = ScanStates.start; line = t.line + 1; col = 0 }
unfolding round trans act advance code
round-endoln t n = refl

scan_loop-comment :
    (w rest : List ℕ) (t : Scan) (n : ℕ)
    → IsComment w
    → scan_loop (within t n) (w ++ endoln ∷ rest)
      ≡ scan_loop (record t { state = ScanStates.start; line = t.line + 1; col = 0 }) rest
unfolding scan_loop
scan_loop-comment [] rest t n h = rw (round-endoln t n)
scan_loop-comment (c ∷ w) rest t n h =
    rw (seen-comment c h.0, round-comment c t n h.0) (scan_loop-comment w rest t (n + 1) h.1)

round-percent : (sc : Scanner) → round b'%' (begin sc) ≡ within (begin sc) (sc.col + 1)
unfolding round trans act advance code
round-percent sc = refl

-- A comment is skipped: the call is the call on the next line, and nothing else of the scanner has
-- changed.
pub scan-comment :
    (sc : Scanner) (w rest : List ℕ)
    → sc.input ≡ b'%' ∷ w ++ endoln ∷ rest
    → IsComment w
    → scan sc ≡ scan (record sc { input = rest; line = sc.line + 1; col = 0 })
unfolding scan scan_loop
scan-comment sc w rest i h =
    rw (i, round-percent sc, scan_loop-comment w rest (begin sc) (sc.col + 1) h, scan)
