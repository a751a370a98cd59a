-- ===== src/Scanner/Lexeme.antt =====
-- What the scanner delivers, and the call of the C library by which it reads an integer.
use sli.Prelude.{
  ℕ, ◌+◌, ◌-◌, ◌*◌, ◌^◌, Bool, ◌&&◌, Option, none, some, List, [], ◌∷◌, leb, ◌==◌, if◌then◌else◌,
}
use sli.Prelude.Int.{ℤ, pos, negsuc}

-- The five names that stand for the structure of the input (`BeginArraySymbol` and so on).
pub data Symbol : Type 0 where
  begin_array end_array begin_procedure end_procedure end_symbol : Symbol

-- The tokens that the scanner makes, by the type it gives them. A name or a string is its bytes; a
-- double is the text that the scanner hands to `std::atof`.
pub data Lexeme : Type 0 where
  integertype : ℤ → Lexeme
  doubletype : List ℕ → Lexeme
  stringtype : List ℕ → Lexeme
  nametype : List ℕ → Lexeme
  literaltype : List ℕ → Lexeme
  symboltype : Symbol → Lexeme

abbrev pub is_digit : ℕ → Bool
is_digit c = leb b'0' c && leb c b'9'

abbrev pub long_max : ℕ
long_max = 2 ^ 63 - 1

-- The value of the longest run of digits at the front of a text, over what is read already.
unfoldable pub leading : ℕ → List ℕ → ℕ
leading n [] = n
leading n (c ∷ cs) = let rest = leading (n * 10 + (c - 48)) cs in if is_digit c then rest else n

abbrev pub unsigned : ℕ → Option ℤ
unsigned n = if leb n long_max then some (pos n) else none

abbrev pub negated : ℕ → Option ℤ
negated n =
    if n == 0 then some (pos 0) else if leb n (long_max + 1) then some (negsuc (n - 1)) else none

-- `std::strtoll` in base 10 on a text without white space: `none` is ERANGE, and a text that
-- begins with no digit gives 0.
unfoldable pub strtoll : List ℕ → Option ℤ
unfolding leading
strtoll [] = some (pos 0)
strtoll (c ∷ cs) =
    if c == b'-'
    then negated (leading 0 cs)
    else if c == b'+'
    then unsigned (leading 0 cs)
    else unsigned (leading 0 (c ∷ cs))
