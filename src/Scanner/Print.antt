-- ===== src/Scanner/Print.antt =====
-- `StringType::pprint` of src/types/sli_stringtype.cpp, which writes a string as a literal, and
-- what the scanner reads back.
use sli.Prelude.{
  ℕ, Option, Bool-cases, inl, inr, ◌+◌, ◌-◌, ◌≤◌, ◌<◌, ◌≡◌, ap, ◌∙◌, Bool, true, none, some, List,
  [], ◌∷◌, ◌++◌, arith, ◌==◌, leb, if◌then◌else◌, append_assoc, append-nil,
}
use sli.Scanner.Charcode.{code}
use sli.Scanner.Lexeme.{stringtype}
use sli.Scanner.Scan.{Scanner, Scan, begin, scan, round, seen, running}
use sli.Scanner.Strings.{
  plain, Inside, Inside-open, Inside-close, Inside-backslash, Inside-newline, state-backslash, Read,
  Read-more, Read-close, scan_loop-more,
}
use sli.Scanner.Quotes.{Inside-seen, round-parenthesis, scan-Read}

-- `is_readable()` of src/containers/sli_string.h, over the access states of src/types/sli_access.h.
abbrev pub is_readable : ℕ → Bool
is_readable access = leb access 1

-- --nostringval--
abbrev pub hidden : List ℕ
hidden =
    45 ∷ 45 ∷ b'n' ∷ b'o' ∷ b's' ∷ b't' ∷ b'r' ∷ b'i' ∷ b'n' ∷ b'g' ∷ b'v' ∷ b'a' ∷ b'l' ∷ 45 ∷ 45
    ∷ []

-- The payload of a string token: no string, or its access state and its bytes.
abbrev pub StringVal : Type 0
StringVal = Option (ℕ × List ℕ)

unfoldable pub print : StringVal → List ℕ
print none = []
print (some (access, w)) = if is_readable access then w else hidden

unfoldable pub pprint : StringVal → List ℕ
pprint none = b'(' ∷ b')' ∷ []
pprint (some (access, w)) = if is_readable access then b'(' ∷ w ++ b')' ∷ [] else hidden

-- The text closes each parenthesis that it opens, from `depth` open ones on, and has no backslash.
abbrev pub Balanced : ℕ → List ℕ → Type 0
Balanced depth [] = depth ≡ 0
Balanced depth (c ∷ w) =
    if c == b'('
    then Balanced (depth + 1) w
    else if c == b')'
    then (0 < depth) × Balanced (depth - 1) w
    else (plain (code c) ≡ true) × Balanced depth w

Read-Balanced :
    {ds : List ℕ} (w v rest : List ℕ) (depth : ℕ) (t : Scan)
    → Balanced depth w
    → Inside t v depth ds
    → Read t (w ++ b')' ∷ rest) (v ++ w) rest ds
Read-Balanced [] v rest depth t b h = rw append-nil (Read-close (rw b at h))
Read-Balanced {ds} (c ∷ w) v rest depth t b h = elim (Bool-cases (c == b'(')) [
  | inl o ↦
      let e : c ≡ b'(' = ground (arith, o) in
      let k : Inside (round (seen c) t) (v ++ c ∷ []) (depth + 1) ds = rw e (Inside-open h) in
      rw (← append_assoc v (c ∷ []) w) (
        Read-more c k
          (Read-Balanced w (v ++ c ∷ []) rest (depth + 1) (round (seen c) t) (rw o at b) k))
  | inr n ↦ elim (Bool-cases (c == b')')) [
    | inl o ↦
        let e : c ≡ b')' = ground (arith, o) in
        let q = rw (n, o) at b in
        let k : Inside (round (seen c) t) (v ++ c ∷ []) (depth - 1) ds =
          rw e (Inside-close h q.0) in
        rw (← append_assoc v (c ∷ []) w)
          (Read-more c k (Read-Balanced w (v ++ c ∷ []) rest (depth - 1) (round (seen c) t) q.1 k))
    | inr m ↦
        let q = rw (n, m) at b in
        let k = Inside-seen c h q.0 in
        rw (← append_assoc v (c ∷ []) w)
          (Read-more c k (Read-Balanced w (v ++ c ∷ []) rest depth (round (seen c) t) q.1 k))
  ]
]

-- A readable string whose parentheses are balanced, and whose other bytes are plain, that is of a code other
-- than `invalid`, `other`, `eof` and `backslash`, is read back from what `pprint` writes, whatever
-- follows; the digits stay.
pub scan-pprint :
    (sc : Scanner) (access : ℕ) (w rest : List ℕ)
    → sc.input ≡ pprint (some (access, w)) ++ rest
    → access ≤ 1
    → Balanced 0 w
    → (sc' : Scanner) × (scan sc ≡ some (some (stringtype w), sc'))
      × (sc'.input ≡ rest)
      × (sc'.ds ≡ sc.ds)
unfolding pprint
scan-pprint sc access w rest i a b =
    let r : leb access 1 ≡ true = ground arith in
    scan-Read sc (w ++ b')' ∷ rest) w rest
      ((rw r at i) ∙ ap (λ x. b'(' ∷ x) (append_assoc w (b')' ∷ []) rest))
      (Read-Balanced w [] rest 0 (round b'(' (begin sc)) b (round-parenthesis sc).1)

-- A readable string of a backslash, the letter n and a text whose parentheses are balanced and whose
-- other bytes are plain, that is of a code other than `invalid`, `other`, `eof` and `backslash`, is read
-- back from what `pprint` writes as another string, the end of a line and that text.
pub scan-pprint_backslash :
    (sc : Scanner) (access : ℕ) (w rest : List ℕ)
    → sc.input ≡ pprint (some (access, 92 ∷ b'n' ∷ w)) ++ rest
    → access ≤ 1
    → Balanced 0 w
    → (sc' : Scanner) × (scan sc ≡ some (some (stringtype (10 ∷ w)), sc')) × (sc'.input ≡ rest)
unfolding pprint
scan-pprint_backslash sc access w rest i a b =
    let r : leb access 1 ≡ true = ground arith in
    let t = round b'(' (begin sc) in
    let h = (round-parenthesis sc).1 in
    let k = Inside-newline (state-backslash h) (Inside-backslash h) in
    let m = Read-more b'n' k (Read-Balanced w (10 ∷ []) rest 0 (round b'n' (round 92 t)) b k) in
    let (sc', p, q, _) =
      scan-Read sc (92 ∷ b'n' ∷ w ++ b')' ∷ rest) (10 ∷ w) rest
        ((rw r at i) ∙ ap (λ x. b'(' ∷ 92 ∷ b'n' ∷ x) (append_assoc w (b')' ∷ []) rest))
        (record {
          last = m.last;
          loop =
              scan_loop-more t 92 (b'n' ∷ w ++ b')' ∷ rest) (ap running (state-backslash h))
              ∙ m.loop;
          token = m.token;
          digits = m.digits;
        }) in
    (sc', p, q)
