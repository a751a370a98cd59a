-- ===== src/Scanner/Scan.antt =====
-- `Scanner::operator()` of src/parser/sli_scanner.cpp: the loop that reads characters, steps the
-- automaton and acts on the state it reaches.
use sli.Prelude.{
  ℕ, ◌+◌, ◌-◌, Bool, true, false, ◌||◌, Option, none, some, List, [], ◌∷◌, ◌++◌, ◌==◌,
  if◌then◌else◌,
}
use sli.Scanner.States.{ScanStates}
use sli.Scanner.Charcode.{code}
use sli.Scanner.Trans.{trans}
use sli.Scanner.Lexeme.{
  Lexeme, integertype, doubletype, stringtype, nametype, literaltype, symboltype, begin_array,
  end_array, begin_procedure, end_procedure, end_symbol, strtoll,
}

-- What a scanner keeps from one call to the next: the rest of its stream, its place, and the
-- digits `ds`, which a call does not clear when it begins.
pub record Scanner : Type 0 where
  pub input : List ℕ
  pub line : ℕ
  pub col : ℕ
  pub ds : List ℕ

-- The variables of one call. `back` says that the last character was put back by `unget`.
pub record Scan : Type 0 where
  pub state : ScanStates
  pub s : List ℕ
  pub sgc : ℕ
  pub parenth : ℕ
  pub digits : List ℕ
  pub line : ℕ
  pub col : ℕ
  pub token : Option Lexeme
  pub back : Bool

abbrev pub endof : ℕ
endof = 4

abbrev pub endoln : ℕ
endoln = 10

-- `in->get()`: at the end of the stream, and for the byte 0, the scanner sees `endof`.
abbrev pub seen : ℕ → ℕ
seen c = if c == 0 then endof else c

-- The place after a character is read.
unfoldable pub advance : ℕ → Scan → Scan
advance c t =
    if c == endoln then record t { line = t.line + 1; col = 0 } else record t { col = t.col + 1 }

-- `in->unget(); --col` unless the character ends a line or the input.
unfoldable pub unget : ℕ → Scan → Scan
unget c t = if c == endoln || c == endof then t else record t { col = t.col - 1; back = true }

-- A token is made, and the loop ends.
unfoldable pub finish : Lexeme → Scan → Scan
finish x t = record t { token = some x; state = ScanStates.end }

unfoldable pub push_ds : ℕ → Scan → Scan
push_ds c t = record t { digits = t.digits ++ c ∷ [] }

unfoldable pub append : ℕ → Scan → Scan
append c t = record t { s = t.s ++ c ∷ [] }

-- An escape in a string adds its character, and the string goes on.
unfoldable pub escaped : ℕ → Scan → Scan
escaped c t = record (append c t) { state = ScanStates.stringst }

-- The switch on the state that the automaton has reached with the character `c`.
unfoldable pub act : ScanStates → ℕ → Scan → Scan
act ScanStates.intdgtst c t = push_ds c t
act ScanStates.aheadintst c t = elim (strtoll t.digits) [
  | none ↦ record t { state = ScanStates.error }
  | some l ↦ finish (integertype l) (record (unget c t) { digits = [] })
]
act ScanStates.expntlst c t = push_ds b'e' t
act ScanStates.intexpst c t = record (push_ds b'e' t) { state = ScanStates.expntlst }
act ScanStates.decpointst c t = push_ds b'.' t
act ScanStates.decpdgtst c t = push_ds c (record (push_ds b'.' t) { state = ScanStates.fracdgtst })
act ScanStates.fracdgtst c t = push_ds c t
act ScanStates.aheadfracst c t = finish (doubletype t.digits) (record (unget c t) { digits = [] })
act ScanStates.minusst c t = record (push_ds b'-' t) { sgc = c }
act ScanStates.plusst c t = record t { sgc = c }
act ScanStates.mnexpst c t = push_ds b'-' t
act ScanStates.expdigst c t = push_ds c t
act ScanStates.openparst c t = record (append c t) {
  parenth = t.parenth + 1;
  state = ScanStates.stringst;
}
act ScanStates.closeparst c t =
    if t.parenth == 0
    then finish (stringtype t.s) t
    else record (append c t) { parenth = t.parenth - 1; state = ScanStates.stringst }
act ScanStates.sgalphast c t = append c (record (append t.sgc t) { state = ScanStates.alphast })
act ScanStates.literalst c t = append c t
act ScanStates.stringst c t = append c t
act ScanStates.alphast c t = append c t
act ScanStates.newlinest c t = escaped 10 t
act ScanStates.tabulatorst c t = escaped 9 t
act ScanStates.backslashcst c t = escaped 92 t
act ScanStates.oparenthcst c t = escaped b'(' t
act ScanStates.cparenthcst c t = escaped b')' t
act ScanStates.aheadsgst c t = finish (nametype (t.s ++ t.sgc ∷ [])) (unget c (append t.sgc t))
act ScanStates.aheadalphst c t = finish (nametype t.s) (unget c t)
act ScanStates.aheadlitst c t = finish (literaltype t.s) (unget c t)
act ScanStates.openbracest c t = finish (symboltype begin_procedure) t
act ScanStates.openbracketst c t = finish (symboltype begin_array) t
act ScanStates.closebracest c t = finish (symboltype end_procedure) t
act ScanStates.closebracketst c t = finish (symboltype end_array) t
act ScanStates.eofst c t = finish (symboltype end_symbol) t
act _ c t = t

-- One round of the loop: the character is read, the automaton steps, and the switch acts.
unfoldable pub round : ℕ → Scan → Scan
round c t = let next = trans t.state (code c) in act next c (record (advance c t) { state = next })

-- `while ((state != error) && (state != end))`
abbrev pub running : ScanStates → Bool
running ScanStates.error = false
running ScanStates.end = false
running _ = true

-- The loop over the stream. At the end of the stream the character is `endof`; a loop that would
-- go on there has no result, `none`.
unfoldable pub scan_loop : Scan → List ℕ → Option (Scan × List ℕ)
scan_loop t [] = let t' = round endof t in if running t'.state then none else some (t', [])
scan_loop t (c ∷ cs) =
    let t' = round (seen c) t in
    let rest = scan_loop t' cs in
    if running t'.state then rest else some (t', if t'.back then c ∷ cs else cs)

abbrev pub begin : Scanner → Scan
begin sc = record {
  state = ScanStates.start;
  s = [];
  sgc = 0;
  parenth = 0;
  digits = sc.ds;
  line = sc.line;
  col = sc.col;
  token = none;
  back = false;
}

abbrev pub after : Scan × List ℕ → Scanner
after (t, rest) = record { input = rest; line = t.line; col = t.col; ds = t.digits }

-- A call: the token, or `none` where it returns false, and the scanner that it leaves.
unfoldable pub scan : Scanner → Option (Option Lexeme × Scanner)
scan sc = elim (scan_loop (begin sc) sc.input) [
  | none ↦ none
  | some (t, rest) ↦ some (t.token, after (t, rest))
]
