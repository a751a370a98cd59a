-- ===== src/Scanner/Charcode.antt =====
-- src/parser/sli_charcode.cpp: the table that gives each of the 256 bytes its code, and the
-- assignments by which the constructor of src/parser/sli_scanner.cpp fills it. A table is a
-- function of the index; the asserted bounds hold for every byte below 256.
use sli.Prelude.{ℕ, ◌&&◌, List, [], ◌∷◌, leb, ◌==◌, if◌then◌else◌}
use sli.Scanner.States.{Codes}

abbrev pub CharCode : Type 0
CharCode = ℕ → Codes

-- The constructor: every entry is the default.
filled : Codes → CharCode
filled def i = def

-- code[c] = v
assign : Codes → ℕ → CharCode → CharCode
assign v c t i = if c == i then v else t i

range : Codes → ℕ → ℕ → CharCode → CharCode
range v lower upper t i = if leb lower i && leb i upper then v else t i

-- The characters of the text are assigned one after the other.
group : Codes → List ℕ → CharCode → CharCode
group v [] t = t
group v (c ∷ g) t = group v g (assign v c t)

abbrev upper_case : List ℕ
upper_case =
    b'A' ∷ b'B' ∷ b'C' ∷ b'D' ∷ b'F' ∷ b'G' ∷ b'H' ∷ b'I' ∷ b'J' ∷ b'K' ∷ b'L' ∷ b'M' ∷ b'N' ∷ b'O'
    ∷ b'P' ∷ b'Q' ∷ b'R' ∷ b'S' ∷ b'T' ∷ b'U' ∷ b'V' ∷ b'W' ∷ b'X' ∷ b'Y' ∷ b'Z' ∷ []

abbrev lower_case : List ℕ
lower_case =
    b'a' ∷ b'b' ∷ b'c' ∷ b'd' ∷ b'f' ∷ b'g' ∷ b'h' ∷ b'i' ∷ b'j' ∷ b'k' ∷ b'l' ∷ b'm' ∷ b'o' ∷ b'p'
    ∷ b'q' ∷ b'r' ∷ b's' ∷ b'u' ∷ b'v' ∷ b'w' ∷ b'x' ∷ b'y' ∷ b'z' ∷ []

-- ~`!@#$^&=|:;'<,>?"
abbrev postscript : List ℕ
postscript =
    126 ∷ 96 ∷ 33 ∷ 64 ∷ 35 ∷ 36 ∷ 94 ∷ 38 ∷ 61 ∷ 124 ∷ 58 ∷ 59 ∷ 39 ∷ 60 ∷ 44 ∷ 62 ∷ 63 ∷ 34 ∷ []

abbrev nonzero_digits : List ℕ
nonzero_digits = b'1' ∷ b'2' ∷ b'3' ∷ b'4' ∷ b'5' ∷ b'6' ∷ b'7' ∷ b'8' ∷ b'9' ∷ []

-- The table that the constructor of the scanner leaves, its last assignment first.
unfoldable pub code : CharCode
unfolding filled assign range group
code = assign Codes.eoln 13 (
    assign Codes.eoln 10 (
      assign Codes.percent b'%' (
        assign Codes.asterisk b'*' (
          assign Codes.tabulator b't' (
            assign Codes.newline b'n' (
              assign Codes.backslash 92 (
                assign Codes.slash b'/' (
                  group Codes.alpha postscript (
                    assign Codes.alpha b'_' (
                      range Codes.alpha 161 255 (
                        group Codes.alpha lower_case (group Codes.alpha upper_case early))))))))))))
  where
    early : CharCode
    early = group Codes.digit nonzero_digits (
        group Codes.expntl (b'E' ∷ b'e' ∷ []) (
          assign Codes.null b'0' (
            assign Codes.decpoint b'.' (
              assign Codes.closeparenth b')' (
                assign Codes.openparenth b'(' (
                  assign Codes.closebrace b'}' (
                    assign Codes.openbrace b'{' (
                      assign Codes.closebracket b']' (
                        assign Codes.openbracket b'[' (
                          assign Codes.minus b'-' (
                            assign Codes.plus b'+' (
                              assign Codes.eof 4 (
                                assign Codes.whitespace 9
                                  (assign Codes.whitespace 32 (filled Codes.invalid)))))))))))))))
