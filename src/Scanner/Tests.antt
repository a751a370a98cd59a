-- ===== src/Scanner/Tests.antt =====
-- The scanner on small inputs.
use Prim.Native.Char.{code}
use Prim.Native.String.{String}
use sli.Prelude.{ℕ, ◌≡◌, refl, Option, some, List, [], ◌∷◌, ◌++◌}
use sli.Prelude.Int.{pos, negsuc}
use sli.Scanner.Charcode
use sli.Scanner.Trans.{trans}
use sli.Scanner.Lexeme.{Lexeme, integertype, doubletype, stringtype, literaltype, strtoll}
use sli.Scanner.Scan.{
  Scanner, scan, scan_loop, round, advance, unget, finish, push_ds, append, escaped, act,
}

-- The bytes of a text.
abbrev pub bytes : String → List ℕ
bytes String.[] = []
bytes (String.◌∷◌ c s) = code c ∷ bytes s

abbrev pub fresh : List ℕ → Scanner
fresh input = record { input = input; line = 1; col = 0; ds = [] }

-- Opens all that a run of the scanner calls.
unfoldable pub run : Scanner → Option (Option Lexeme × Scanner)
unfolding scan scan_loop round advance unget finish push_ds append escaped act trans Charcode.code
    strtoll
run = scan

scan_integer :
    scan (fresh (bytes "12 x"))
    ≡ some (some (integertype (pos 12)), record { input = bytes " x"; line = 1; col = 2; ds = [] })
unfolding run
scan_integer = refl

scan_negative :
    scan (fresh (bytes "-7]"))
    ≡ some (some (integertype (negsuc 6)), record { input = bytes "]"; line = 1; col = 2; ds = [] })
unfolding run
scan_negative = refl

scan_string :
    scan (fresh (bytes "(a(b)\\)\\n) "))
    ≡ some (
      some (stringtype (bytes "a(b))" ++ 10 ∷ [])),
      record { input = bytes " "; line = 1; col = 10; ds = [] },
    )
unfolding run
scan_string = refl

scan_comment :
    scan (fresh (bytes "% hi" ++ 10 ∷ bytes "/* x */ /name "))
    ≡ some (
      some (literaltype (bytes "name")),
      record { input = bytes " "; line = 2; col = 13; ds = [] },
    )
unfolding run
scan_comment = refl

scan_double :
    scan (fresh (bytes "-.5e-3}"))
    ≡ some (
      some (doubletype (bytes "-.5e-3")),
      record { input = bytes "}"; line = 1; col = 6; ds = [] },
    )
unfolding run
scan_double = refl
