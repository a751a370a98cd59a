-- ===== src/Parser/Examples.antt =====
-- The theorems on the parser at concrete inputs.
use sli.Prelude.{ℕ, ◌≡◌, refl, Option, some, [], drop}
use sli.Prelude.Int.{pos}
use sli.Scanner.Lexeme.{integertype, nametype, symboltype, begin_procedure, end_procedure}
use sli.Scanner.Scan.{Scanner, scan}
use sli.Scanner.Tests.{bytes, run}
use sli.Parser.Parse.{Token, simple, litproceduretype, Tokens, nil, cons, Parser, parse}
use sli.Parser.Total.{parse_total}
use sli.Parser.Procedures.{Body, last, leaf, nested, parse-Body}

-- The scanner after some characters of a text.
abbrev scanner_at : ℕ → Scanner
scanner_at n = record { input = drop n (bytes "{ 1 { } x } "); line = 1; col = n; ds = [] }

abbrev parser_at : ℕ → Parser
parser_at n = record { scanner = scanner_at n; stack = []; open_brace_positions = [] }

parse_total_example : (x : Option Token) × (p' : Parser) × (parse (parser_at 2) ≡ some (x, p'))
parse_total_example = parse_total (parser_at 2)

abbrev elements : Tokens
elements =
    cons (simple (integertype (pos 1)))
      (cons (litproceduretype nil) (cons (simple (nametype (bytes "x"))) nil))

elements-Body : Body (scanner_at 1) elements (scanner_at 9)
unfolding run
elements-Body = leaf {sc1 = scanner_at 3} refl tt (
    nested {sc1 = scanner_at 5} {sc2 = scanner_at 5} {sc3 = scanner_at 7} refl last refl
      (leaf {sc1 = scanner_at 9} refl tt last))

first_brace : scan (scanner_at 0) ≡ some (some (symboltype begin_procedure), scanner_at 1)
unfolding run
first_brace = refl

last_brace : scan (scanner_at 9) ≡ some (some (symboltype end_procedure), scanner_at 11)
unfolding run
last_brace = refl

parse-Body_example : parse (parser_at 0) ≡ some (some (litproceduretype elements), parser_at 11)
parse-Body_example =
    parse-Body (parser_at 0) (scanner_at 1) (scanner_at 9) (scanner_at 11) elements refl first_brace
      elements-Body last_brace
