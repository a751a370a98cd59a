-- ===== src/Parser/Parse.antt =====
-- `Parser::operator()` of src/parser/sli_parser.cpp: tokens are scanned, and those between braces
-- are collected into procedures.
use sli.Prelude.{
  ℕ, zero, suc, ◌+◌, ◌*◌, Bool, true, false, Option, none, some, List, [], ◌∷◌, length,
  if◌then◌else◌,
}
use sli.Scanner.Lexeme.{
  Lexeme, nametype, symboltype, begin_array, end_array, begin_procedure, end_procedure, end_symbol,
}
use sli.Scanner.Scan.{Scanner, scan}

-- A token is one that the scanner makes, or a literal procedure with the tokens in it.
mutual
  pub data Token : Type 0 where
    simple : Lexeme → Token
    litproceduretype : Tokens → Token

  pub data Tokens : Type 0 where
    nil : Tokens
    cons : Token → Tokens → Tokens

-- `push_back` of a procedure's array.
unfoldable pub push_back : Tokens → Token → Tokens
push_back nil t = cons t nil
push_back (cons x xs) t = cons x (push_back xs t)

-- A parser: its scanner, the procedures that are open (the innermost first), and where the brace of
-- each was.
pub record Parser : Type 0 where
  pub scanner : Scanner
  pub stack : List Tokens
  pub open_brace_positions : List (ℕ × ℕ)

-- The loop reaches `endprocexpected` and `noopenarray` nowhere, and `endarrayexpected` only where an
-- open token is no procedure: the stack holds procedures alone.
pub data ParseResult : Type 0 where
  tokencontinue scancontinue tokencompleted noopenproc endprocexpected noopenarray endarrayexpected
        unexpectedeof :
      ParseResult

pub record Round : Type 0 where
  pub result : ParseResult
  pub token : Token
  pub parser : Parser

-- A token that is no bracket: it goes to the innermost open procedure, or completes the call.
unfoldable pub deliver : Token → Parser → List Tokens → Round
deliver t p [] = record { result = tokencompleted; token = t; parser = p }
deliver t p (top ∷ stack) = record {
  result = scancontinue;
  token = t;
  parser = record p { stack = push_back top t ∷ stack };
}

unfoldable pub drop_first : List (ℕ × ℕ) → List (ℕ × ℕ)
drop_first [] = []
drop_first (x ∷ xs) = xs

unfoldable pub close_procedure : Token → Parser → List Tokens → Round
unfolding drop_first
close_procedure t p [] = record { result = noopenproc; token = t; parser = p }
close_procedure t p (top ∷ stack) = record {
  result = tokencontinue;
  token = litproceduretype top;
  parser = record p { stack = stack; open_brace_positions = drop_first p.open_brace_positions };
}

unfoldable pub end_of_input : Token → Parser → List Tokens → Round
end_of_input t p [] = record { result = tokencompleted; token = t; parser = p }
end_of_input t p (top ∷ stack) = record { result = unexpectedeof; token = t; parser = p }

abbrev pub bracket : ℕ → Token
bracket c = simple (nametype (c ∷ []))

-- The body of the loop for a token that is there.
unfoldable pub accept : Token → Parser → Round
unfolding deliver close_procedure end_of_input
accept (simple (symboltype begin_procedure)) p = record {
  result = scancontinue;
  token = simple (symboltype begin_procedure);
  parser = record p {
    stack = nil ∷ p.stack;
    open_brace_positions = (p.scanner.line, p.scanner.col) ∷ p.open_brace_positions;
  };
}
accept (simple (symboltype begin_array)) p = record {
  result = tokencontinue;
  token = bracket b'[';
  parser = p;
}
accept (simple (symboltype end_procedure)) p =
    close_procedure (simple (symboltype end_procedure)) p p.stack
accept (simple (symboltype end_array)) p = record {
  result = tokencontinue;
  token = bracket b']';
  parser = p;
}
accept (simple (symboltype end_symbol)) p = end_of_input (simple (symboltype end_symbol)) p p.stack
accept t p = deliver t p p.stack

-- After a scan: a failed one leaves the result as it was, so that the loop scans again.
unfoldable pub scanned : Round → Option Lexeme × Scanner → Round
scanned r (none, sc) = record r { parser = record r.parser { scanner = sc } }
scanned r (some x, sc) = accept (simple x) (record r.parser { scanner = sc })

-- One round of the loop: a token is scanned if the last round asks for it.
unfoldable pub parse_round : Round → ParseResult → Option Round
unfolding scanned
parse_round r scancontinue = elim (scan r.parser.scanner) [
  | none ↦ none
  | some x ↦ some (scanned r x)
]
parse_round r _ = some (accept r.token r.parser)

abbrev pub continues : ParseResult → Bool
continues tokencontinue = true
continues scancontinue = true
continues _ = false

-- The loop, with fuel for its rounds; `none` is a loop that has not ended.
unfoldable pub parse_loop : ℕ → Round → Option Round
parse_loop zero r = none
parse_loop (suc f) r = elim (parse_round r r.result) [
  | none ↦ none
  | some r' ↦ let rest = parse_loop f r' in if continues r'.result then rest else some r'
]

-- What follows the loop: an error makes the token the end symbol, and the end of the input within
-- a procedure clears what is open.
unfoldable pub report : Round → ParseResult → Option Token × Parser
report r tokencompleted = (some r.token, r.parser)
report r unexpectedeof = (none, record r.parser { stack = []; open_brace_positions = [] })
report r _ = (none, r.parser)

abbrev pub rounds : Parser → ℕ
rounds p = 2 * length p.scanner.input + 2

abbrev pub first_round : Parser → Round
first_round p = record { result = scancontinue; token = simple (symboltype end_symbol); parser = p }

-- A call: the token, or `none` where it returns false, and the parser that it leaves.
unfoldable pub parse : Parser → Option (Option Token × Parser)
unfolding report
parse p = elim (parse_loop (rounds p) (first_round p)) [
  | none ↦ none
  | some r ↦ some (report r r.result)
]
