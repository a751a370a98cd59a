-- ===== src/Serialize/Tokens.antt =====
-- Tokens and token stacks in their binary form: the end of src/serialize/sli_serialize.cpp, with the
-- payloads of src/types/sli_integertype.cpp and src/types/sli_nametype.cpp. The payloads that are
-- objects of their own, with the tables that share them, are left out: such a token has no form here.
use sli.Prelude.{
  ℕ, zero, suc, ◌%◌, ◌^◌, Bool, true, false, Option, none, some, List, [], ◌∷◌, ◌++◌, length, ◌==◌,
  get_elem?, if◌then◌else◌,
}
use sli.Prelude.Int.{ℤ, pos, negsuc}
use sli.Names.Table.{Names, to_string, insert_name}
use sli.Stack.Token.{SliTypeid, Token}
use sli.Trie.TypeNode.{tag_of}
use sli.Serialize.Codec.{
  Failure, Read, got, failed, ◌>>=◌, write_u16, write_u32, write_i64, write_bool, write_string,
  read_u16, read_u32, read_i64, read_bool, read_string,
}

-- The payload that a type serializes: none for a token without a type, a `long`, the bits of a double,
-- a Boolean, the string of a name, which is that of the markers too, or an object.
pub data Payload : Type 0 where
  no_payload word_payload bool_payload name_payload object_payload : Payload

unfoldable pub payload : SliTypeid → Payload
payload SliTypeid.nulltype = no_payload
payload SliTypeid.integertype = word_payload
payload SliTypeid.doubletype = word_payload
payload SliTypeid.booltype = bool_payload
payload SliTypeid.stringtype = object_payload
payload SliTypeid.arraytype = object_payload
payload SliTypeid.dictionarytype = object_payload
payload SliTypeid.litproceduretype = object_payload
payload SliTypeid.trietype = object_payload
payload SliTypeid.functiontype = object_payload
payload SliTypeid.proceduretype = object_payload
payload SliTypeid.istreamtype = object_payload
payload SliTypeid.xistreamtype = object_payload
payload SliTypeid.ostreamtype = object_payload
payload SliTypeid.regextype = object_payload
payload SliTypeid.graphicscontexttype = object_payload
payload SliTypeid.patterntype = object_payload
payload _ = name_payload

abbrev pub truth : ℤ → Bool
truth (pos n) = if n == 0 then false else true
truth (negsuc n) = true

abbrev pub name_of_word : ℤ → Names → Option (List ℕ)
name_of_word (pos h) n = to_string h n
name_of_word (negsuc h) n = none

abbrev pub written_name : Option (List ℕ) → Option (List ℕ)
written_name none = none
written_name (some s) = some (write_string s)

-- `serialize`; `none` is a handle past the end of the table, or an object.
unfoldable pub write_payload : Names → Payload → ℤ → Option (List ℕ)
write_payload n no_payload d = some []
write_payload n word_payload d = some (write_i64 d)
write_payload n bool_payload d = some (write_bool (truth d))
write_payload n name_payload d = written_name (name_of_word d n)
write_payload n object_payload d = none

abbrev pub tagged : ℕ → Option (List ℕ) → Option (List ℕ)
tagged t none = none
tagged t (some bs) = some (write_u16 t ++ bs)

unfoldable pub write_token : Names → Token → Option (List ℕ)
write_token n t = tagged (tag_of t.type) (write_payload n (payload t.type) t.data_)

abbrev pub followed : Option (List ℕ) → Option (List ℕ) → Option (List ℕ)
followed (some xs) (some ys) = some (xs ++ ys)
followed _ _ = none

-- The tokens of a stack, the bottom one first.
unfoldable pub write_tokens : Names → List Token → Option (List ℕ)
write_tokens n [] = some []
write_tokens n (t ∷ st) = followed (write_tokens n st) (write_token n t)

unfoldable pub write_token_stack : Names → List Token → Option (List ℕ)
write_token_stack n st = followed (some (write_u32 (length st % 2 ^ 32))) (write_tokens n st)

-- The types that are registered, by their numbers.
abbrev pub types_ : List (Option SliTypeid)
types_ =
    some SliTypeid.nulltype
    ∷ some SliTypeid.anytype
    ∷ some SliTypeid.integertype
    ∷ some SliTypeid.doubletype
    ∷ some SliTypeid.booltype
    ∷ some SliTypeid.literaltype
    ∷ some SliTypeid.marktype
    ∷ some SliTypeid.stringtype
    ∷ some SliTypeid.arraytype
    ∷ some SliTypeid.dictionarytype
    ∷ some SliTypeid.nametype
    ∷ some SliTypeid.litproceduretype
    ∷ some SliTypeid.trietype
    ∷ some SliTypeid.functiontype
    ∷ some SliTypeid.proceduretype
    ∷ some SliTypeid.istreamtype
    ∷ some SliTypeid.xistreamtype
    ∷ some SliTypeid.ostreamtype
    ∷ some SliTypeid.symboltype
    ∷ some SliTypeid.iiteratetype
    ∷ some SliTypeid.irepeattype
    ∷ some SliTypeid.ifortype
    ∷ some SliTypeid.iforalltype
    ∷ some SliTypeid.ilooptype
    ∷ some SliTypeid.iparsetype
    ∷ some SliTypeid.iforallstringtype
    ∷ some SliTypeid.iforallindexedarraytype
    ∷ some SliTypeid.iforallindexedstringtype
    ∷ some SliTypeid.imaptype
    ∷ some SliTypeid.imapindexedtype
    ∷ some SliTypeid.imapthreadtype
    ∷ none
    ∷ some SliTypeid.quittype
    ∷ some SliTypeid.regextype
    ∷ some SliTypeid.graphicscontexttype
    ∷ some SliTypeid.patterntype
    ∷ []

-- `get_type(tid)`: an element of the table, or what is behind its end.
unfoldable pub get_type : ℕ → Option (Option SliTypeid)
get_type tid = get_elem? types_ tid

-- A token with its payload, and the tables of names then.
abbrev pub with_word : SliTypeid → Names → Read ℤ → Read (Token × Names)
with_word t n r = r >>= λ d bs. got (record { type = t; data_ = d }, n) bs

abbrev pub bool_word : Bool → ℤ
bool_word true = pos 1
bool_word false = pos 0

abbrev pub with_bool : SliTypeid → Names → Read Bool → Read (Token × Names)
with_bool t n r = r >>= λ b bs. got (record { type = t; data_ = bool_word b }, n) bs

abbrev pub with_name : SliTypeid → Names → Read (List ℕ) → Read (Token × Names)
with_name t n r =
    r >>= λ s bs. let (h, n') = insert_name s n in got (record { type = t; data_ = pos h }, n') bs

-- `deserialize`
unfoldable pub read_payload : Payload → SliTypeid → Names → List ℕ → Read (Token × Names)
read_payload no_payload t n bs = got (record { type = t; data_ = pos 0 }, n) bs
read_payload word_payload t n bs = with_word t n (read_i64 bs)
read_payload bool_payload t n bs = with_bool t n (read_bool bs)
read_payload name_payload t n bs = with_name t n (read_string bs)
read_payload object_payload t n bs = failed Failure.other_payload

abbrev pub read_typed : Option (Option SliTypeid) → Names → List ℕ → Read (Token × Names)
read_typed none n bs = failed Failure.outside_types
read_typed (some none) n bs = failed Failure.unknown_type
read_typed (some (some t)) n bs = read_payload (payload t) t n bs

unfoldable pub read_token : Names → List ℕ → Read (Token × Names)
read_token n bs = read_u16 bs >>= λ tid bs.
    if tid == 0
    then got (record { type = SliTypeid.nulltype; data_ = pos 0 }, n) bs
    else read_typed (get_type tid) n bs

-- The loop of `read_token_stack`, with the rounds that are left.
unfoldable pub read_tokens : ℕ → List Token → Names → List ℕ → Read (List Token × Names)
read_tokens zero st n bs = got (st, n) bs
read_tokens (suc k) st n bs = read_token n bs >>= λ r bs. read_tokens k (r.0 ∷ st) r.1 bs

unfoldable pub read_token_stack : Names → List ℕ → Read (List Token × Names)
read_token_stack n bs = read_u32 bs >>= λ k bs. read_tokens k [] n bs
