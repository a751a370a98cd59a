-- ===== src/Scanner/Strings.antt =====
-- String literals: the rounds of the scanner between the parentheses.
use sli.Prelude.{
  ℕ, ◌+◌, ◌-◌, ◌<◌, ◌≡◌, refl, ap, ◌∙◌, Bool, true, false, some, List, [], ◌∷◌, ◌++◌, arith, ◌⊎◌,
  inl, inr,
}
use sli.Scanner.States.{ScanStates, Codes}
use sli.Scanner.Charcode.{code}
use sli.Scanner.Trans.{trans}
use sli.Scanner.Lexeme.{stringtype}
use sli.Scanner.Scan.{Scan, scan_loop, round, advance, act, finish, append, escaped, seen, running}

-- The codes of the characters that stand for themselves in a string.
abbrev pub plain : Codes → Bool
plain Codes.invalid = false
plain Codes.eof = false
plain Codes.other = false
plain Codes.openparenth = false
plain Codes.closeparenth = false
plain Codes.backslash = false
plain _ = true

abbrev pub in_string : ScanStates → Bool
in_string ScanStates.startstringst = true
in_string ScanStates.stringst = true
in_string _ = false

trans-plain :
    (s : ScanStates) (k : Codes)
    → in_string s ≡ true
    → plain k ≡ true
    → trans s k ≡ ScanStates.stringst
unfolding trans
trans-plain ScanStates.startstringst Codes.digit h p = refl
trans-plain ScanStates.startstringst _ h p = ground arith
trans-plain ScanStates.stringst Codes.digit h p = refl
trans-plain ScanStates.stringst _ h p = ground arith
trans-plain _ k h p = cc

trans-close :
    (s : ScanStates) → in_string s ≡ true → trans s Codes.closeparenth ≡ ScanStates.closeparst
unfolding trans
trans-close ScanStates.start h = cc
trans-close _ h = ground arith

trans-open :
    (s : ScanStates) → in_string s ≡ true → trans s Codes.openparenth ≡ ScanStates.openparst
unfolding trans
trans-open ScanStates.start h = cc
trans-open _ h = ground arith

trans-backslash :
    (s : ScanStates) → in_string s ≡ true → trans s Codes.backslash ≡ ScanStates.backslashst
unfolding trans
trans-backslash ScanStates.start h = cc
trans-backslash _ h = ground arith

-- A call inside a string, with the text `w` so far and `depth` parentheses open in it.
pub record Inside (t : Scan) (w : List ℕ) (depth : ℕ) (ds : List ℕ) : Type 0 where
  pub state : in_string t.state ≡ true
  pub text : t.s ≡ w
  pub nesting : t.parenth ≡ depth
  pub digits : t.digits ≡ ds
  pub kept : t.back ≡ false

Inside-advance :
    {t : Scan} {w : List ℕ} {depth : ℕ} {ds : List ℕ} (c : ℕ)
    → Inside t w depth ds
    → Inside (record (advance c t) { state = ScanStates.stringst }) w depth ds
unfolding advance
Inside-advance c h = ground arith

module _ {t : Scan} {w : List ℕ} {depth : ℕ} {ds : List ℕ} (h : Inside t w depth ds) where
  -- A plain character is added to the text.
  pub Inside-plain : (c : ℕ) → plain (code c) ≡ true → Inside (round c t) (w ++ c ∷ []) depth ds
  unfolding round act append
  Inside-plain c p =
      let k = Inside-advance c h in
      rw (trans-plain t.state (code c) h.state p) (record {
        state = refl;
        text = ap (λ x. x ++ c ∷ []) k.text;
        nesting = k.nesting;
        digits = k.digits;
        kept = k.kept;
      })

  -- A parenthesis opens one more level.
  pub Inside-open : Inside (round b'(' t) (w ++ b'(' ∷ []) (depth + 1) ds
  unfolding round act append code
  Inside-open =
      let k = Inside-advance b'(' h in
      rw (trans-open t.state h.state) (record {
        state = refl;
        text = ap (λ x. x ++ b'(' ∷ []) k.text;
        nesting = ap (λ n. n + 1) k.nesting;
        digits = k.digits;
        kept = k.kept;
      })

  -- An inner parenthesis closes its level and is part of the text.
  pub Inside-close : 0 < depth → Inside (round b')' t) (w ++ b')' ∷ []) (depth - 1) ds
  unfolding round act append code advance
  Inside-close lt =
      rw (trans-close t.state h.state)
        (ground (arith, h.state, h.text, h.nesting, h.digits, h.kept, lt))

  -- A backslash adds nothing by itself.
  pub Inside-backslash : Inside (record (round 92 t) { state = ScanStates.stringst }) w depth ds
  unfolding round act code
  Inside-backslash = rw (trans-backslash t.state h.state) (Inside-advance 92 h)

  pub state-backslash : (round 92 t).state ≡ ScanStates.backslashst
  unfolding round act code
  state-backslash = rw (trans-backslash t.state h.state)

  -- The last parenthesis ends the loop, with the text as the token.
  pub round-close :
      depth ≡ 0
      → ((round b')' t).state ≡ ScanStates.end)
        × ((round b')' t).token ≡ some (stringtype w))
        × ((round b')' t).digits ≡ ds)
        × ((round b')' t).back ≡ false)
  unfolding round act append code advance finish
  round-close z =
      rw (trans-close t.state h.state)
        (ground (arith, h.state, h.text, h.nesting, h.digits, h.kept, z))

-- The round after a backslash adds the character that is escaped.
module _ {t : Scan} {w : List ℕ} {depth : ℕ} {ds : List ℕ} where
  pub Inside-escaped :
      (c : ℕ)
      → (c ≡ b'(') ⊎ (c ≡ b')') ⊎ (c ≡ 92)
      → t.state ≡ ScanStates.backslashst
      → Inside (record t { state = ScanStates.stringst }) w depth ds
      → Inside (round c t) (w ++ c ∷ []) depth ds
  unfolding round act append code escaped trans advance
  Inside-escaped c (inl e) s h = rw (e, s) (ground (arith, h.text, h.nesting, h.digits, h.kept))
  Inside-escaped c (inr (inl e)) s h =
      rw (e, s) (ground (arith, h.text, h.nesting, h.digits, h.kept))
  Inside-escaped c (inr (inr e)) s h =
      rw (e, s) (ground (arith, h.text, h.nesting, h.digits, h.kept))

  -- The letter n is escaped to the end of a line.
  pub Inside-newline :
      t.state ≡ ScanStates.backslashst
      → Inside (record t { state = ScanStates.stringst }) w depth ds
      → Inside (round b'n' t) (w ++ 10 ∷ []) depth ds
  unfolding round act append code escaped trans advance
  Inside-newline s h = rw s (ground (arith, h.text, h.nesting, h.digits, h.kept))

-- What the loop gives once it has left a string with the text `w`.
pub record Read (t : Scan) (input : List ℕ) (w : List ℕ) (rest : List ℕ) (ds : List ℕ)
    : Type 0 where
  pub last : Scan
  pub loop : scan_loop t input ≡ some (last, rest)
  pub token : last.token ≡ some (stringtype w)
  pub digits : last.digits ≡ ds

running-in_string : (s : ScanStates) → in_string s ≡ true → running s ≡ true
running-in_string ScanStates.start h = refl
running-in_string _ h = ground arith

-- One round of the loop that goes on, and one that ends it.
module _ (t : Scan) (c : ℕ) (cs : List ℕ) where
  pub scan_loop-more :
      running (round (seen c) t).state ≡ true
      → scan_loop t (c ∷ cs) ≡ scan_loop (round (seen c) t) cs
  unfolding scan_loop
  scan_loop-more h = rw h

  pub scan_loop-last :
      running (round (seen c) t).state ≡ false
      → (round (seen c) t).back ≡ false
      → scan_loop t (c ∷ cs) ≡ some (round (seen c) t, cs)
  unfolding scan_loop
  scan_loop-last h b = rw (h, b)

module _ {t : Scan} {w rest ds : List ℕ} where
  -- A round that stays in the string.
  pub Read-more :
      {v : List ℕ} {depth : ℕ} {input : List ℕ} (c : ℕ)
      → Inside (round (seen c) t) v depth ds
      → Read (round (seen c) t) input w rest ds
      → Read t (c ∷ input) w rest ds
  Read-more {input = input} c h r = record {
    last = r.last;
    loop = scan_loop-more t c input (running-in_string (round (seen c) t).state h.state) ∙ r.loop;
    token = r.token;
    digits = r.digits;
  }

  pub Read-close : Inside t w 0 ds → Read t (b')' ∷ rest) w rest ds
  Read-close h =
      let (e, k, g, b) = round-close h refl in
      record {
        last = round b')' t;
        loop = scan_loop-last t b')' rest (ap running e) b;
        token = k;
        digits = g;
      }
