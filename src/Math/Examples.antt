-- ===== src/Math/Examples.antt =====
-- The bounds of the arithmetic operators at the greatest `long`, and the order of some strings.
use sli.Prelude.{◌≡◌, ◌⊎◌, refl, true, false, not, [], ◌∷◌, List, arith}
use sli.Prelude.Int.{ℤ, pos, negsuc, ◌+ℤ◌}
use sli.Trie.TypeNode.{tag_of}
use sli.Control.Interp.{
  Interp, raising, range_check_error, is_of_type, integer_token, require_load, at_pick,
}
use sli.Serialize.Codec.{to_word, of_word}
use sli.Math.Operators.{
  Doubles, Operation, calculate, binary, by_types, checked_add, quotient, remainder,
}
use sli.Math.Comparisons.{
  unsigned_char, string_less, lt, gt, geq, leq, compare_string, xor, bitwise, connective,
}
use sli.Math.Orders.{compare_string-IsTotalOrder}
use sli.Math.Bounds.{AreLong, IsBounded, calculate-IsBounded}

abbrev doubles : Doubles
doubles = record {
  of_long = λ n. n;
  add = λ a b. a;
  sub = λ a b. a;
  mul = λ a b. a;
  div = λ a b. a;
  less = λ a b. false;
  is_nought = λ a. false;
}

abbrev greatest : Interp
greatest = record {
  ostack = integer_token (pos 1) ∷ integer_token (pos 9223372036854775807) ∷ [];
  estack = [];
  arrays = λ p. [];
  strings = λ p. [];
}

add_overflows : calculate doubles Operation.add greatest ≡ raising range_check_error greatest
unfolding calculate binary by_types require_load at_pick is_of_type tag_of checked_add ◌+ℤ◌
add_overflows = refl

-- Division goes towards zero, and the remainder has the sign of the dividend.
division_to_zero :
    (quotient (negsuc 6) (pos 2) ≡ negsuc 2) × (remainder (negsuc 6) (pos 2) ≡ negsuc 0)
unfolding quotient remainder
division_to_zero = (refl, refl)

greatest-AreLong : AreLong greatest.ostack
greatest-AreLong = ((λ e. refl), ((λ e. refl), tt))

calculate-IsBounded_example : IsBounded greatest (calculate doubles Operation.add greatest)
calculate-IsBounded_example = calculate-IsBounded doubles Operation.add greatest greatest-AreLong

-- 10 xor -1, and a character with a sign is above the others.
xor_of_signed :
    of_word (bitwise (connective xor) 64 (to_word (pos 10)) (to_word (negsuc 0))) ≡ negsuc 10
unfolding of_word bitwise connective to_word
xor_of_signed = refl

signed_is_greater : compare_string gt (negsuc 61 ∷ []) (pos 122 ∷ []) ≡ true
unfolding compare_string string_less unsigned_char
signed_is_greater = refl

abbrev word_a : List ℤ
word_a = pos 97 ∷ negsuc 61 ∷ []

abbrev word_b : List ℤ
word_b = pos 97 ∷ pos 98 ∷ []

abbrev word_c : List ℤ
word_c = pos 97 ∷ []

compare_string-IsTotalOrder_example :
    (compare_string leq word_a word_a ≡ true)
    × ((compare_string leq word_a word_b ≡ true) ⊎ (compare_string leq word_b word_a ≡ true))
    × (compare_string leq word_a word_b ≡ true
        → compare_string leq word_b word_a ≡ true
        → word_a ≡ word_b)
    × (compare_string leq word_a word_b ≡ true
        → compare_string leq word_b word_c ≡ true
        → compare_string leq word_a word_c ≡ true)
    × (compare_string geq word_a word_b ≡ compare_string leq word_b word_a)
    × (compare_string lt word_a word_b ≡ not (compare_string geq word_a word_b))
    × (compare_string gt word_a word_b ≡ not (compare_string leq word_a word_b))
compare_string-IsTotalOrder_example =
    compare_string-IsTotalOrder word_a word_b word_c (omega arith, (omega arith, tt))
      (omega arith, (omega arith, tt)) (omega arith, tt)
