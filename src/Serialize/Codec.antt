-- ===== src/Serialize/Codec.antt =====
-- The writer and the reader of src/serialize/sli_serialize.cpp and src/serialize/sli_serialize.h. A
-- byte is a number below 256. Where the reader joins bytes by `|`, none has a digit where another one
-- has, and the sum is written.
use sli.Prelude.{
  ℕ, zero, suc, ◌+◌, ◌-◌, ◌*◌, ◌/◌, ◌%◌, ◌^◌, Bool, true, false, List, [], ◌∷◌, ◌++◌, length, ltb,
  ◌==◌, take, drop, if◌then◌else◌,
}
use sli.Prelude.Int.{ℤ, pos, negsuc}

-- The runtime errors that the reader throws, a read past the end of the table of types, and a payload
-- of a type that is not read here.
pub data Failure : Type 0 where
  unexpected_eof short_read bad_magic incompatible_version unknown_type outside_types
        other_payload :
      Failure

-- What a read returns, with the bytes that are left, or throws.
pub data Read {ℓ} (A : Type ℓ) : Type ℓ where
  got : A → List ℕ → Read A
  failed : Failure → Read A

infixl 10 ◌>>=◌
abbrev pub ◌>>=◌ {ℓ κ} : {A : Type ℓ} {B : Type κ} → Read A → (A → List ℕ → Read B) → Read B
got a bs >>= f = f a bs
failed e >>= f = failed e

-- `kSerializeMagic` and `kSerializeVersion`
abbrev pub magic : ℕ
magic = 0x33494C53

abbrev pub version : ℕ
version = 6

-- A value as a `uint64_t`, and back.
unfoldable pub to_word : ℤ → ℕ
to_word (pos n) = n % 2 ^ 64
to_word (negsuc n) = 2 ^ 64 - 1 - n % 2 ^ 64

unfoldable pub of_word : ℕ → ℤ
of_word u = if ltb u (2 ^ 63) then pos u else negsuc (2 ^ 64 - 1 - u)

-- `write_u8` of a wider word, as often as told: the lowest byte, then those above it.
unfoldable pub write_word : ℕ → ℕ → List ℕ
write_word zero v = []
write_word (suc k) v = v % 256 ∷ write_word k (v / 256)

abbrev pub write_u16 : ℕ → List ℕ
write_u16 v = write_word 2 v

abbrev pub write_u32 : ℕ → List ℕ
write_u32 v = write_word 4 v

abbrev pub write_i64 : ℤ → List ℕ
write_i64 v = write_word 8 (to_word v)

unfoldable pub write_header : List ℕ
write_header = write_u32 magic ++ write_u32 version

unfoldable pub write_bool : Bool → List ℕ
write_bool b = (if b then 1 else 0) ∷ []

unfoldable pub write_string : List ℕ → List ℕ
write_string s = write_u32 (length s % 2 ^ 32) ++ s

unfoldable pub read_u8 : List ℕ → Read ℕ
read_u8 [] = failed Failure.unexpected_eof
read_u8 (b ∷ bs) = got b bs

unfoldable pub read_word : ℕ → List ℕ → Read ℕ
read_word zero bs = got 0 bs
read_word (suc k) bs = read_u8 bs >>= λ b bs. read_word k bs >>= λ v bs. got (b + 256 * v) bs

abbrev pub read_u16 : List ℕ → Read ℕ
read_u16 bs = read_word 2 bs

abbrev pub read_u32 : List ℕ → Read ℕ
read_u32 bs = read_word 4 bs

unfoldable pub read_i64 : List ℕ → Read ℤ
read_i64 bs = read_word 8 bs >>= λ u bs. got (of_word u) bs

unfoldable pub read_header : List ℕ → Read (Unit {0})
read_header bs = read_u32 bs >>= λ m bs.
    if m == magic
    then (read_u32 bs >>= λ v bs.
        if v == version then got tt bs else failed Failure.incompatible_version)
    else failed Failure.bad_magic

unfoldable pub read_bytes : ℕ → List ℕ → Read (List ℕ)
read_bytes n bs =
    if ltb (length bs) n then failed Failure.short_read else got (take n bs) (drop n bs)

unfoldable pub read_bool : List ℕ → Read Bool
read_bool bs = read_u8 bs >>= λ b bs. got (if b == 0 then false else true) bs

-- Where the length is 0 nothing is read.
unfoldable pub read_string : List ℕ → Read (List ℕ)
read_string bs = read_u32 bs >>= λ n bs. read_bytes n bs
