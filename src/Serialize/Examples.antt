-- ===== src/Serialize/Examples.antt =====
-- Token stacks in their binary form: a stack with a number, a Boolean and a name.
use sli.Prelude.{ℕ, ◌≡◌, refl, inr, some, List, [], ◌∷◌, ◌++◌, arith}
use sli.Prelude.Int.{pos, negsuc}
use sli.Names.Table.{Names, initial, insert_name, insert_new, find_handle, to_string}
use sli.Names.Interning.{Agree, initial-Agree, insert_name-Interned}
use sli.Stack.Token.{SliTypeid, Token}
use sli.Trie.TypeNode.{tag_of}
use sli.Serialize.Codec.{
  Failure, got, failed, write_header, read_header, write_word, read_word, read_u8,
}
use sli.Serialize.Tokens.{get_type, payload, write_token_stack, read_token_stack, read_token}
use sli.Serialize.RoundTrip.{ArePlain, read_token_stack-write_token_stack}

abbrev names : Names
names = (insert_name (b'x' ∷ []) initial).1

abbrev stack : List Token
stack =
    record { type = SliTypeid.integertype; data_ = negsuc 4 }
    ∷ record { type = SliTypeid.booltype; data_ = pos 1 }
    ∷ record { type = SliTypeid.nametype; data_ = pos 1 }
    ∷ []

names-Agree : Agree names
names-Agree = (insert_name-Interned (b'x' ∷ []) initial initial-Agree (omega arith)).agree

stack-ArePlain : ArePlain names stack
unfolding get_type tag_of payload insert_name insert_new find_handle to_string
stack-ArePlain = (
  (refl, omega arith),
  ((refl, inr refl), ((refl, (omega arith, b'x' ∷ [], refl, omega arith)), tt)),
)

header_read : (rest : List ℕ) → read_header (write_header ++ rest) ≡ got tt rest
unfolding read_header write_header write_word read_word read_u8
header_read rest = refl

-- A type number behind the end of the table is not tested.
type_outside : read_token names (40 ∷ 0 ∷ []) ≡ failed Failure.outside_types
unfolding read_token read_word read_u8 get_type
type_outside = refl

read_token_stack-write_token_stack_example :
    (bs : List ℕ) × (write_token_stack names stack ≡ some bs)
    × (read_token_stack names (bs ++ 7 ∷ []) ≡ got (stack, names) (7 ∷ []))
read_token_stack-write_token_stack_example =
    read_token_stack-write_token_stack names stack (7 ∷ []) names-Agree stack-ArePlain (omega arith)
