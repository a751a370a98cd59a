-- ===== src/Scanner/Digits.antt =====
-- The rounds of the scanner over the digits of an integer, and over the character that ends it.
use sli.Prelude.{
  ℕ, ◌+◌, ◌-◌, ◌*◌, ◌≤◌, ◌≡◌, ◌≢◌, refl, ◌∙◌, true, false, none, some, List, [], ◌∷◌, ◌++◌, arith,
  length, ◌==◌, if◌then◌else◌, append_assoc, append-nil,
}
use sli.Prelude.Int.{ℤ}
use native.Mathlib.Nat.{add-zero}
use mathlib.Core.Path.{ap₂}
use sli.Scanner.States.{ScanStates, Codes}
use sli.Scanner.Charcode.{code}
use sli.Scanner.Trans.{trans}
use sli.Scanner.Lexeme.{integertype, is_digit, leading, strtoll}
use sli.Scanner.Scan.{
  Scan, act, round, advance, endof, endoln, seen, scan_loop, unget, finish, push_ds,
}
use sli.Scanner.Bytes.{
  numeric, delimits, numeric-code, advance_within, resume, digits-advance, back-advance,
  seen-delimiter, delimiter-ne-endof,
}

-- Every character is a digit.
abbrev pub AllDigits : List ℕ → Type 0
AllDigits [] = Unit {0}
AllDigits (c ∷ cs) = (is_digit c ≡ true) × AllDigits cs

-- The value of a text of digits, its first digit the highest.
unfoldable pub value : ℕ → List ℕ → ℕ
value n [] = n
value n (c ∷ cs) = value (n * 10 + (c - 48)) cs

pub leading-value : (n : ℕ) (w : List ℕ) → AllDigits w → leading n w ≡ value n w
unfolding leading value
leading-value n [] h = refl
leading-value n (c ∷ w) h = rw h.0 (leading-value (n * 10 + (c - 48)) w h.1)

value_ge : (n : ℕ) (w : List ℕ) → n ≤ value n w
unfolding value
value_ge n [] = omega arith
value_ge n (c ∷ w) = omega (arith, value_ge (n * 10 + (c - 48)) w)

pub AllDigits-append : (ds w : List ℕ) → AllDigits ds → AllDigits w → AllDigits (ds ++ w)
AllDigits-append [] w h k = k
AllDigits-append (c ∷ ds) w h k = (h.0, AllDigits-append ds w h.1 k)

-- The state of a call that has read the digits `w` up to the column `n`.
abbrev pub reading : Scan → List ℕ → ℕ → Scan
reading t w n = record t { state = ScanStates.intdgtst; digits = w; col = n }

stays : (k : Codes) → numeric k ≡ true → trans ScanStates.intdgtst k ≡ ScanStates.intdgtst
unfolding trans
stays Codes.digit h = refl
stays Codes.null h = refl
stays _ h = cc

pub digit-ne-endoln : (c : ℕ) → is_digit c ≡ true → c ≢ endoln
digit-ne-endoln c h = ground arith

pub round-digit :
    (c : ℕ) (t : Scan) (w : List ℕ) (n : ℕ)
    → is_digit c ≡ true
    → round c (reading t w n) ≡ reading t (w ++ c ∷ []) (n + 1)
unfolding round act push_ds
round-digit c t w n h =
    rw (stays (code c) (numeric-code c h), advance_within c (reading t w n) (digit-ne-endoln c h))

pub seen-digit : (c : ℕ) → is_digit c ≡ true → seen c ≡ c
seen-digit c h = ground arith

-- The loop runs through the digits and collects them.
pub scan_loop-digits :
    (t : Scan) (w ds : List ℕ) (n : ℕ) (tail : List ℕ)
    → AllDigits ds
    → scan_loop (reading t w n) (ds ++ tail) ≡ scan_loop (reading t (w ++ ds) (n + length ds)) tail
unfolding scan_loop
scan_loop-digits t w [] n tail h = rw (append-nil, add-zero)
scan_loop-digits t w (c ∷ ds) n tail h =
    rw (seen-digit c h.0, round-digit c t w n h.0)
      (scan_loop-digits t (w ++ c ∷ []) ds (n + 1) tail h.1
        ∙ ap₂ (λ x y. scan_loop (reading t x y) tail) (append_assoc w (c ∷ []) ds) (omega arith))

ends : (k : Codes) → delimits k ≡ true → trans ScanStates.intdgtst k ≡ ScanStates.aheadintst
unfolding trans
ends Codes.whitespace h = refl
ends _ h = ground arith

act-in_range :
    (c : ℕ) (t : Scan) (l : ℤ)
    → strtoll t.digits ≡ some l
    → act ScanStates.aheadintst c t ≡ finish (integertype l) (record (unget c t) { digits = [] })
unfolding act
act-in_range c t l v = rw (v, act)

act-out_of_range :
    (c : ℕ) (t : Scan)
    → strtoll t.digits ≡ none
    → act ScanStates.aheadintst c t ≡ record t { state = ScanStates.error }
unfolding act
act-out_of_range c t v = rw (v, act)

pub back-unget :
    (e : ℕ) (t : Scan)
    → e ≢ endof
    → t.back ≡ false
    → (unget e (record (advance e t) { state = ScanStates.aheadintst })).back
      ≡ (if e == endoln then false else true)
unfolding unget advance
back-unget e t h b = ground arith

module _ (t : Scan) (w : List ℕ) (n e : ℕ) (d : delimits (code e) ≡ true) where
  -- The state after the delimiter, before it is put back.
  abbrev pub delimited : Scan
  delimited = record (advance e (reading t w n)) { state = ScanStates.aheadintst }

  round-end :
      (l : ℤ)
      → strtoll w ≡ some l
      → round e (reading t w n)
        ≡ finish (integertype l) (record (unget e delimited) { digits = [] })
  unfolding round
  round-end l v = rw (ends (code e) d) (act-in_range e delimited l (rw digits-advance v))

  round-overflow :
      strtoll w ≡ none → round e (reading t w n) ≡ record delimited { state = ScanStates.error }
  unfolding round
  round-overflow v = rw (ends (code e) d) (act-out_of_range e delimited (rw digits-advance v))

  module _ (rest : List ℕ) where
    pub scan_loop-end :
        (l : ℤ)
        → strtoll w ≡ some l
        → t.back ≡ false
        → scan_loop (reading t w n) (e ∷ rest)
          ≡ some
              (finish (integertype l) (record (unget e delimited) { digits = [] }), resume e rest)
    unfolding scan_loop finish
    scan_loop-end l v b =
        rw
          (
            seen-delimiter e d,
            round-end l v,
            back-unget e (reading t w n) (delimiter-ne-endof e d) b,
          )
          (ground arith)

    pub scan_loop-overflow :
        strtoll w ≡ none
        → t.back ≡ false
        → scan_loop (reading t w n) (e ∷ rest)
          ≡ some (record delimited { state = ScanStates.error }, rest)
    unfolding scan_loop
    scan_loop-overflow v b = rw (seen-delimiter e d, round-overflow v, back-advance, b)

-- More digits make no smaller number.
pub value-append_le : (n : ℕ) (ds w : List ℕ) → value n ds ≤ value n (ds ++ w)
unfolding value
value-append_le n [] w = value_ge n w
value-append_le n (c ∷ ds) w = value-append_le (n * 10 + (c - 48)) ds w
