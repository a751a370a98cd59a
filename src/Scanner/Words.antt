-- ===== src/Scanner/Words.antt =====
-- The characters of a name, or of a literal, up to the delimiter that ends it.
use sli.Prelude.{
  ℕ, ◌+◌, ◌≡◌, ◌≢◌, refl, ap, Bool, true, false, some, List, [], ◌∷◌, ◌++◌, arith, append_assoc,
  append-nil,
}
use sli.Scanner.States.{ScanStates, Codes}
use sli.Scanner.Charcode.{code}
use sli.Scanner.Trans.{trans}
use sli.Scanner.Lexeme.{Lexeme, nametype, literaltype}
use sli.Scanner.Scan.{Scan, scan_loop, round, advance, act, seen, endoln, append, finish, unget}
use sli.Scanner.Bytes.{
  seen-code, advance_within, delimits, resume, seen-delimiter, delimiter-ne-endof,
}

-- The codes that a name can begin with, and those that it can hold.
abbrev pub starts_name : Codes → Bool
starts_name Codes.alpha = true
starts_name Codes.asterisk = true
starts_name Codes.newline = true
starts_name Codes.tabulator = true
starts_name Codes.backslash = true
starts_name Codes.expntl = true
starts_name _ = false

abbrev pub in_name : Codes → Bool
in_name Codes.digit = true
in_name Codes.null = true
in_name Codes.plus = true
in_name Codes.minus = true
in_name Codes.decpoint = true
in_name k = starts_name k

-- A slash before an asterisk begins a comment.
abbrev pub starts_literal : Codes → Bool
starts_literal Codes.asterisk = false
starts_literal k = in_name k

abbrev pub AllName : List ℕ → Type 0
AllName [] = Unit {0}
AllName (c ∷ w) = (in_name (code c) ≡ true) × AllName w

code-endoln : code endoln ≡ Codes.eoln
unfolding code
code-endoln = refl

module _ (c : ℕ) (h : in_name (code c) ≡ true) where
  pub name-ne-endoln : c ≢ endoln
  name-ne-endoln p = cc (ap (λ x. in_name (code x)) p, code-endoln)

  pub seen-name : seen c ≡ c
  seen-name = seen-code c (λ p. cc (ap in_name p))

-- The two states that read a name, with the states in which they end and the tokens made there.
pub data Kind : Type 0 where
  plain quoted : Kind

abbrev pub inside : Kind → ScanStates
inside plain = ScanStates.alphast
inside quoted = ScanStates.literalst

abbrev ahead : Kind → ScanStates
ahead plain = ScanStates.aheadalphst
ahead quoted = ScanStates.aheadlitst

abbrev pub token : Kind → List ℕ → Lexeme
token plain = nametype
token quoted = literaltype

trans-name : (q : Kind) (k : Codes) → in_name k ≡ true → trans (inside q) k ≡ inside q
unfolding trans
trans-name plain Codes.digit h = refl
trans-name plain _ h = ground arith
trans-name quoted Codes.digit h = refl
trans-name quoted _ h = ground arith

trans-delimiter : (q : Kind) (k : Codes) → delimits k ≡ true → trans (inside q) k ≡ ahead q
unfolding trans
trans-delimiter plain Codes.whitespace h = refl
trans-delimiter plain _ h = ground arith
trans-delimiter quoted Codes.whitespace h = refl
trans-delimiter quoted _ h = ground arith

abbrev pub reading : Kind → Scan → List ℕ → ℕ → Scan
reading q t w n = record t { state = inside q; s = w; col = n }

act-inside : (q : Kind) (c : ℕ) (t : Scan) → act (inside q) c t ≡ append c t
unfolding act
act-inside plain c t = refl
act-inside quoted c t = refl

act-ahead : (q : Kind) (c : ℕ) (t : Scan) → act (ahead q) c t ≡ finish (token q t.s) (unget c t)
unfolding act
act-ahead plain c t = refl
act-ahead quoted c t = refl

round-name :
    (q : Kind) (c : ℕ) (t : Scan) (w : List ℕ) (n : ℕ)
    → in_name (code c) ≡ true
    → round c (reading q t w n) ≡ reading q t (w ++ c ∷ []) (n + 1)
unfolding round append
round-name q c t w n h =
    rw
      (trans-name q (code c) h, act-inside, advance_within c (reading q t w n) (name-ne-endoln c h))

pub scan_loop-name :
    (q : Kind) (t : Scan) (w v : List ℕ) (n : ℕ) (tail : List ℕ)
    → AllName v
    → (m : ℕ) × (scan_loop (reading q t w n) (v ++ tail) ≡ scan_loop (reading q t (w ++ v) m) tail)
unfolding scan_loop
scan_loop-name q t w [] n tail h = (n, rw append-nil)
scan_loop-name plain t w (c ∷ v) n tail h =
    let (m, p) = scan_loop-name plain t (w ++ c ∷ []) v (n + 1) tail h.1 in
    (m, rw (seen-name c h.0, round-name plain c t w n h.0, ← append_assoc w (c ∷ []) v) p)
scan_loop-name quoted t w (c ∷ v) n tail h =
    let (m, p) = scan_loop-name quoted t (w ++ c ∷ []) v (n + 1) tail h.1 in
    (m, rw (seen-name c h.0, round-name quoted c t w n h.0, ← append_assoc w (c ∷ []) v) p)

module _ (q : Kind) (t : Scan) (w : List ℕ) (n e : ℕ) (d : delimits (code e) ≡ true) where
  abbrev delimited : Scan
  delimited = record (advance e (reading q t w n)) { state = ahead q }

  round-delimiter : round e (reading q t w n) ≡ finish (token q delimited.s) (unget e delimited)
  unfolding round
  round-delimiter = rw (trans-delimiter q (code e) d) (act-ahead q e delimited)

  abbrev pub stopped : Scan
  stopped = finish (token q delimited.s) (unget e delimited)

  pub scan_loop-delimiter :
      (rest : List ℕ)
      → t.back ≡ false
      → scan_loop (reading q t w n) (e ∷ rest) ≡ some (stopped, resume e rest)
  unfolding scan_loop finish unget advance
  scan_loop-delimiter rest b =
      rw (seen-delimiter e d, round-delimiter) (ground (arith, delimiter-ne-endof e d, b))

  pub token-stopped : stopped.token ≡ some (token q w)
  unfolding finish advance
  token-stopped = ap (λ x. some (token q x)) (ground arith)

  pub digits-stopped : stopped.digits ≡ t.digits
  unfolding finish unget advance
  digits-stopped = ground arith
