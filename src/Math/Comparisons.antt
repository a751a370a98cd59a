-- ===== src/Math/Comparisons.antt =====
-- The comparisons of src/builtins/sli_op_bodies.h, and `and`, `or`, `not` and `xor` of
-- src/builtins/sli_math.cpp.
use sli.Prelude.{
  ℕ, zero, suc, ◌+◌, ◌-◌, ◌*◌, ◌/◌, ◌%◌, Bool, true, false, not, ◌&&◌, ◌||◌, List, [], ◌∷◌, ltb,
  ◌==◌, if◌then◌else◌,
}
use sli.Prelude.Int.{ℤ, pos, negsuc, ltb_ℤ}
use sli.Stack.Token.{SliTypeid, Token}
use sli.Control.Interp.{
  Interp, Effect, argument_type_error, is_of_type, is_zero, bool_token, bool_val, require_load,
  at_pick,
}
use sli.Serialize.Codec.{to_word, of_word}
use sli.Math.Operators.{Settled, settled, refused, is_int, is_double, binary, settle_one}

-- The order of the machine on doubles, on their bits.
pub record DoubleOrder : Type 0 where
  pub of_long : ℤ → ℤ
  pub less : ℤ → ℤ → Bool
  pub less_equal : ℤ → ℤ → Bool

-- A `char` as `std::string` compares it, as an `unsigned char`.
unfoldable pub unsigned_char : ℤ → ℕ
unsigned_char (pos n) = n
unsigned_char (negsuc n) = 255 - n

-- The order of `std::string`.
unfoldable pub string_less : List ℤ → List ℤ → Bool
string_less s [] = false
string_less [] (d ∷ t) = true
string_less (c ∷ s) (d ∷ t) =
    let rest = string_less s t in
    if ltb (unsigned_char c) (unsigned_char d)
    then true
    else if ltb (unsigned_char d) (unsigned_char c)
    then false
    else rest

-- The lambdas that a comparison is called with.
pub data Comparison : Type 0 where
  gt lt geq leq : Comparison

unfoldable pub compare_long : Comparison → ℤ → ℤ → Bool
compare_long gt x y = ltb_ℤ y x
compare_long lt x y = ltb_ℤ x y
compare_long geq x y = not (ltb_ℤ x y)
compare_long leq x y = not (ltb_ℤ y x)

unfoldable pub compare_double : DoubleOrder → Comparison → ℤ → ℤ → Bool
compare_double d gt x y = d.less y x
compare_double d lt x y = d.less x y
compare_double d geq x y = d.less_equal y x
compare_double d leq x y = d.less_equal x y

unfoldable pub compare_string : Comparison → List ℤ → List ℤ → Bool
compare_string gt s t = string_less t s
compare_string lt s t = string_less s t
compare_string geq s t = not (string_less s t)
compare_string leq s t = not (string_less t s)

abbrev pub is_string : Token → Bool
is_string x = is_of_type SliTypeid.stringtype x

-- The address 0 is `nullptr`.
unfoldable pub compared : DoubleOrder → Comparison → Interp → Token → Token → Settled
compared d c i a b =
    if is_int a && is_int b
    then settled (bool_token (compare_long c a.data_ b.data_))
    else if is_double a && is_double b
    then settled (bool_token (compare_double d c a.data_ b.data_))
    else if is_double a && is_int b
    then settled (bool_token (compare_double d c a.data_ (d.of_long b.data_)))
    else if is_int a && is_double b
    then settled (bool_token (compare_double d c (d.of_long a.data_) b.data_))
    else if is_string a && is_string b
    then (if is_zero a.data_ || is_zero b.data_
        then refused argument_type_error
        else settled (bool_token (compare_string c (i.strings a.data_) (i.strings b.data_))))
    else refused argument_type_error

unfoldable pub compare : DoubleOrder → Comparison → Interp → Effect
compare d c i = binary (compared d c i) i

abbrev pub bit : Bool → ℕ
bit true = 1
bit false = 0

-- An operation on each of the low bits of two words.
unfoldable pub bitwise : (Bool → Bool → Bool) → ℕ → ℕ → ℕ → ℕ
bitwise f zero a b = 0
bitwise f (suc w) a b = bit (f (a % 2 == 1) (b % 2 == 1)) + 2 * bitwise f w (a / 2) (b / 2)

pub data Logical : Type 0 where
  and or xor : Logical

unfoldable pub connective : Logical → Bool → Bool → Bool
connective and a b = a && b
connective or a b = a || b
connective xor a b = if a then not b else b

abbrev pub is_bool_token : Token → Bool
is_bool_token x = is_of_type SliTypeid.booltype x

unfoldable pub combined : Logical → Token → Token → Settled
combined l a b =
    if is_bool_token a && is_bool_token b
    then settled (bool_token (connective l (bool_val a) (bool_val b)))
    else if is_int a && is_int b
    then settled (record a {
      data_ = of_word (bitwise (connective l) 64 (to_word a.data_) (to_word b.data_));
    })
    else refused argument_type_error

unfoldable pub logical : Logical → Interp → Effect
logical l i = binary (combined l) i

-- `~`
abbrev pub complement : ℤ → ℤ
complement (pos n) = negsuc n
complement (negsuc n) = pos n

unfoldable pub complemented : Token → Settled
complemented t =
    if is_bool_token t
    then settled (bool_token (not (bool_val t)))
    else if is_int t
    then settled (record t { data_ = complement t.data_ })
    else refused argument_type_error

unfoldable pub not_function : Interp → Effect
not_function i = require_load 1 i (at_pick 0 i (λ t. settle_one i (complemented t)))
