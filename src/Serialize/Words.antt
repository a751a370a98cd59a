-- ===== src/Serialize/Words.antt =====
-- Words and strings are read back.
use sli.Prelude.{
  ℕ, zero, suc, ◌*◌, ◌/◌, ◌%◌, ◌^◌, ◌<◌, ◌≡◌, refl, ap, ◌∙◌, Bool, true, false, List, [], ◌∷◌, ◌++◌,
  append_assoc, length, length-append, ltb, take, drop, arith,
}
use sli.Prelude.Int.{ℤ, pos, negsuc}
use sli.Serialize.Codec.{
  got, to_word, of_word, write_word, write_bool, write_string, read_u8, read_word, read_i64,
  read_bool, read_bytes, read_string,
}

power_suc : (k : ℕ) → 256 ^ suc k ≡ 256 * 256 ^ k
power_suc k = grind arith

pub read_word-write_word :
    (k v : ℕ) (rest : List ℕ) → v < 256 ^ k → read_word k (write_word k v ++ rest) ≡ got v rest
unfolding read_word write_word read_u8
read_word-write_word zero v rest h = ap (λ u. got u rest) (omega (arith, h))
read_word-write_word (suc k) v rest h =
    let q : v / 256 < 256 ^ k = omega (arith, h, power_suc k) in
    rw (read_word-write_word k (v / 256) rest q) (ap (λ u. got u rest) (omega arith))

pub of_word-to_word_pos : (n : ℕ) → n < 2 ^ 63 → of_word (to_word (pos n)) ≡ pos n
unfolding of_word to_word
of_word-to_word_pos n h = ground arith

pub of_word-to_word_negsuc : (n : ℕ) → n < 2 ^ 63 → of_word (to_word (negsuc n)) ≡ negsuc n
unfolding of_word to_word
of_word-to_word_negsuc n h = ground arith

to_word-lt : (v : ℤ) → to_word v < 256 ^ 8
unfolding to_word
to_word-lt (pos n) = omega arith
to_word-lt (negsuc n) = omega arith

-- The values of an `int64_t`.
abbrev pub IsLong : ℤ → Type 0
IsLong (pos n) = n < 2 ^ 63
IsLong (negsuc n) = n < 2 ^ 63

take-append_self : (s rest : List ℕ) → take (length s) (s ++ rest) ≡ s
take-append_self [] rest = refl
take-append_self (x ∷ s) rest = ap (λ u. x ∷ u) (take-append_self s rest)

drop-append_self : (s rest : List ℕ) → drop (length s) (s ++ rest) ≡ rest
drop-append_self [] rest = refl
drop-append_self (x ∷ s) rest = drop-append_self s rest

read_bytes-append : (s rest : List ℕ) → read_bytes (length s) (s ++ rest) ≡ got s rest
unfolding read_bytes
read_bytes-append s rest =
    let l : ltb (length (s ++ rest)) (length s) ≡ false = ground (arith, length-append s rest) in
    rw (l, take-append_self s rest, drop-append_self s rest) refl

pub of_word-to_word : (v : ℤ) → (v' : ℕ) → v' ≡ to_word v → IsLong v → of_word v' ≡ v
of_word-to_word (pos n) v' e h = ap of_word e ∙ of_word-to_word_pos n h
of_word-to_word (negsuc n) v' e h = ap of_word e ∙ of_word-to_word_negsuc n h

pub read_i64-write_word :
    (v : ℤ) (rest : List ℕ) → IsLong v → read_i64 (write_word 8 (to_word v) ++ rest) ≡ got v rest
unfolding read_i64
read_i64-write_word v rest h =
    rw (read_word-write_word 8 (to_word v) rest (to_word-lt v))
      (ap (λ u. got u rest) (of_word-to_word v (to_word v) refl h))

-- A string shorter than 2 ^ 32 is read back from what is written, whatever follows.
pub read_string-write_string :
    (s rest : List ℕ) → length s < 2 ^ 32 → read_string (write_string s ++ rest) ≡ got s rest
unfolding read_string write_string
read_string-write_string s rest h =
    let e : length s % 2 ^ 32 ≡ length s = omega (arith, h) in
    let w = read_word-write_word 4 (length s) (s ++ rest) (omega (arith, h)) in
    ap (λ u. read_string ((write_word 4 u ++ s) ++ rest)) e
    ∙ ap read_string (append_assoc (write_word 4 (length s)) s rest)
    ∙ rw w (read_bytes-append s rest)

pub read_bool-write_bool :
    (b : Bool) (rest : List ℕ) → read_bool (write_bool b ++ rest) ≡ got b rest
unfolding read_bool write_bool read_u8
read_bool-write_bool true rest = refl
read_bool-write_bool false rest = refl
