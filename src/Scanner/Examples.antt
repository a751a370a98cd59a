-- ===== src/Scanner/Examples.antt =====
-- The theorems on the scanner at concrete inputs.
use sli.Prelude.{
  ℕ, ◌≡◌, ◌<◌, refl, Option, none, some, List, [], ◌∷◌, ◌++◌, ◌⊎◌, inl, arith, length, true,
}
use sli.Prelude.Int.{negsuc}
use sli.Scanner.Charcode.{code}
use sli.Scanner.Lexeme.{Lexeme, integertype, stringtype, nametype, literaltype, long_max}
use sli.Scanner.Scan.{Scanner, scan}
use sli.Scanner.Digits.{AllDigits, value}
use sli.Scanner.Total.{scan_total}
use sli.Scanner.Literals.{scan-integer, scan-after_overflow, scan-stale_sign}
use sli.Scanner.Signs.{scan-minus}
use sli.Scanner.Quotes.{escape, scan-escape}
use sli.Scanner.Print.{pprint, scan-pprint, scan-pprint_backslash}
use sli.Scanner.Comments.{scan-comment}
use sli.Scanner.Words.{quoted}
use sli.Scanner.Names.{scan-name}
use sli.Scanner.SignedNames.{scan-minus_exponent}
use sli.Scanner.Tests.{bytes}

-- A scanner in the middle of a file, with a text to read and the digits that are left.
abbrev at_text : List ℕ → List ℕ → Scanner
at_text ds text = record { input = text; line = 3; col = 7; ds = ds }

scan_total_example :
    (token : Option Lexeme) × (sc' : Scanner) × (consumed : List ℕ) × (scan
        (at_text [] (bytes "{ 1"))
      ≡ some (token, sc'))
    × (bytes "{ 1" ≡ consumed ++ sc'.input)
    × ((bytes "{ 1" ≡ []) ⊎ (0 < length consumed))
scan_total_example = scan_total (at_text [] (bytes "{ 1"))

scan-integer_example :
    (sc' : Scanner) × (scan (at_text [] (bytes "-10]")) ≡ some (some (integertype (negsuc 9)), sc'))
    × (sc'.input ≡ bytes "]")
    × (sc'.ds ≡ [])
unfolding value code
scan-integer_example =
    scan-integer (at_text [] (bytes "-10]")) true b'1' (b'0' ∷ []) b']' [] refl refl
      (refl, (refl, tt)) (inl (omega arith)) refl

-- 2 ^ 63
abbrev beyond : List ℕ
beyond = bytes "9223372036854775808"

scan-after_overflow_example :
    (sc' : Scanner) × (scan (at_text beyond (bytes "5]")) ≡ some (none, sc'))
    × (sc'.ds ≡ bytes "92233720368547758085")
    × AllDigits (bytes "92233720368547758085")
    × (long_max < value 0 (bytes "92233720368547758085"))
unfolding value code
scan-after_overflow_example =
    scan-after_overflow (at_text beyond (bytes "5]")) b'9' (bytes "223372036854775808") b'5' [] b']'
      [] refl refl
      (
        refl,
        (
          refl,
          (
            refl,
            (
              refl,
              (
                refl,
                (
                  refl,
                  (
                    refl,
                    (
                      refl,
                      (
                        refl,
                        (
                          refl,
                          (
                            refl,
                            (refl, (refl, (refl, (refl, (refl, (refl, (refl, (refl, tt)))))))),
                          ),
                        ),
                      ),
                    ),
                  ),
                ),
              ),
            ),
          ),
        ),
      )
      (omega arith) (refl, tt) (omega arith) refl

scan-stale_sign_example :
    (sc' : Scanner) × (scan (at_text (b'-' ∷ []) (bytes "5]"))
      ≡ some (some (integertype (negsuc 4)), sc'))
    × (sc'.input ≡ bytes "]")
unfolding value code
scan-stale_sign_example =
    scan-stale_sign (at_text (b'-' ∷ []) (bytes "5]")) b'5' [] b']' [] refl refl (refl, tt)
      (omega arith) refl

scan-minus_example :
    (sc' : Scanner) × (scan (at_text [] (bytes "- 5")) ≡ some (some (nametype (b'-' ∷ [])), sc'))
    × (sc'.input ≡ bytes " 5")
    × (sc'.ds ≡ b'-' ∷ [])
unfolding code
scan-minus_example = scan-minus (at_text [] (bytes "- 5")) b' ' (b'5' ∷ []) refl refl

scan-escape_example :
    (sc' : Scanner) × (scan (at_text [] (bytes "(a\\)) x"))
      ≡ some (some (stringtype (bytes "a)")), sc'))
    × (sc'.input ≡ bytes " x")
    × (sc'.ds ≡ [])
unfolding escape code
scan-escape_example =
    scan-escape (at_text [] (bytes "(a\\)) x")) (bytes "a)") (bytes " x") refl (refl, (refl, tt))

scan-name_example :
    (sc' : Scanner) × (scan (at_text [] (bytes "/x1]"))
      ≡ some (some (literaltype (bytes "x1")), sc'))
    × (sc'.input ≡ bytes "]")
    × (sc'.ds ≡ [])
unfolding code
scan-name_example =
    scan-name (at_text [] (bytes "/x1]")) b'x' (b'1' ∷ []) b']' [] quoted refl refl (refl, tt) refl

scan-comment_example :
    scan (at_text [] (bytes "% a\n7 "))
    ≡ scan (record { input = bytes "7 "; line = 4; col = 0; ds = [] })
unfolding code
scan-comment_example =
    scan-comment (at_text [] (bytes "% a\n7 ")) (bytes " a") (bytes "7 ") refl (refl, (refl, tt))

scan-pprint_example :
    (sc' : Scanner) × (scan (at_text [] (bytes "(f(x)) y"))
      ≡ some (some (stringtype (bytes "f(x)")), sc'))
    × (sc'.input ≡ bytes " y")
    × (sc'.ds ≡ [])
unfolding pprint code
scan-pprint_example =
    scan-pprint (at_text [] (bytes "(f(x)) y")) 0 (bytes "f(x)") (bytes " y") refl (omega arith)
      (refl, (refl, (omega arith, refl)))

scan-pprint_backslash_example :
    (sc' : Scanner) × (scan (at_text [] (bytes "(\\na) y"))
      ≡ some (some (stringtype (bytes "\na")), sc'))
    × (sc'.input ≡ bytes " y")
unfolding pprint code
scan-pprint_backslash_example =
    scan-pprint_backslash (at_text [] (bytes "(\\na) y")) 0 (bytes "a") (bytes " y") refl
      (omega arith) (refl, refl)

-- -eps
scan-minus_exponent_example :
    (sc' : Scanner) × (scan (at_text [] (bytes "-eps]"))
      ≡ some (some (nametype (bytes "eps")), sc'))
    × (sc'.input ≡ bytes "]")
    × (sc'.ds ≡ b'-' ∷ [])
unfolding code
scan-minus_exponent_example =
    scan-minus_exponent (at_text [] (bytes "-eps]")) (bytes "ps") b']' [] refl (refl, (refl, tt))
      refl
