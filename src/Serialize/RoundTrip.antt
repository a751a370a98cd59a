-- ===== src/Serialize/RoundTrip.antt =====
-- Token stacks are read back.
use sli.Prelude.{
  ℕ, suc, ◌+◌, ◌%◌, ◌^◌, ◌<◌, ◌≡◌, ◌⊎◌, inl, inr, refl, ap, ◌∙◌, true, false, some, List, [], ◌∷◌,
  ◌++◌, append_assoc, append-nil, length, ◌==◌, arith,
}
use sli.Prelude.Int.{ℤ, pos, negsuc}
use sli.Names.Table.{Names, to_string, insert_new, insert_name}
use sli.Names.Interning.{Agree}
use sli.Stack.Token.{SliTypeid, Token}
use sli.Trie.TypeNode.{tag_of}
use sli.Serialize.Codec.{got, write_word, write_string, write_bool, to_word}
use sli.Serialize.Words.{
  read_word-write_word, read_i64-write_word, read_string-write_string, read_bool-write_bool, IsLong,
}
use sli.Serialize.Tokens.{
  Payload, no_payload, word_payload, bool_payload, name_payload, object_payload, payload,
  written_name, write_payload, tagged, write_token, write_tokens, write_token_stack, get_type,
  read_payload, read_typed, read_token, read_tokens, read_token_stack, with_name, with_word,
  with_bool,
}

-- A name that is in the tables at a handle of its own, and is not too long to be written.
abbrev pub IsNamed : Names → ℤ → Type 0
IsNamed n (negsuc h) = ⊥
IsNamed n (pos h) = (0 < h) × (s : List ℕ) × (to_string h n ≡ some s) × (length s < 2 ^ 32)

-- The word of a token is one that its payload stands for.
abbrev pub IsPlainWord : Names → Payload → ℤ → Type 0
IsPlainWord n no_payload d = ⊥
IsPlainWord n word_payload d = IsLong d
IsPlainWord n bool_payload d = (d ≡ pos 0) ⊎ (d ≡ pos 1)
IsPlainWord n name_payload d = IsNamed n d
IsPlainWord n object_payload d = ⊥

-- A token of a registered type whose payload is no object.
abbrev pub IsPlain : Names → Token → Type 0
IsPlain n t =
    (get_type (tag_of t.type) ≡ some (some t.type)) × IsPlainWord n (payload t.type) t.data_

abbrev pub ArePlain : Names → List Token → Type 0
ArePlain n [] = Unit {0}
ArePlain n (t ∷ st) = IsPlain n t × ArePlain n st

-- A string at a handle is interned where it stands.
insert_name_self :
    (n : Names) (h : ℕ) (s : List ℕ)
    → Agree n
    → 0 < h
    → to_string h n ≡ some s
    → insert_name s n ≡ (h, n)
unfolding insert_name insert_new to_string
insert_name_self n h s a p e = rw (a.handled s h p e) refl

abbrev PayloadBack : Names → SliTypeid → Payload → ℤ → Type 0
PayloadBack n t p d =
    (bs : List ℕ) × (write_payload n p d ≡ some bs)
    × ((rest : List ℕ)
        → read_payload p t n (bs ++ rest) ≡ got (record { type = t; data_ = d }, n) rest)

payload-PayloadBack :
    (n : Names) (t : SliTypeid) (p : Payload) (d : ℤ)
    → Agree n
    → IsPlainWord n p d
    → PayloadBack n t p d
unfolding write_payload read_payload
payload-PayloadBack n t no_payload d a h = absurd h
payload-PayloadBack n t word_payload d a h =
    (write_word 8 (to_word d), refl, λ rest. ap (with_word t n) (read_i64-write_word d rest h))
payload-PayloadBack n t bool_payload d a (inl h) =
    rw h (write_bool false, refl, λ rest. ap (with_bool t n) (read_bool-write_bool false rest))
payload-PayloadBack n t bool_payload d a (inr h) =
    rw h (write_bool true, refl, λ rest. ap (with_bool t n) (read_bool-write_bool true rest))
payload-PayloadBack n t name_payload (negsuc h) a k = absurd k
payload-PayloadBack n t name_payload (pos h) a (p, s, e, l) = (
  write_string s,
  ap written_name e,
  λ rest.
      ap (with_name t n) (read_string-write_string s rest l)
      ∙ ap (λ r. got (record { type = t; data_ = pos r.0 }, r.1) rest)
          (insert_name_self n h s a p e),
)
payload-PayloadBack n t object_payload d a h = absurd h

abbrev TokenBack : Names → Token → Type 0
TokenBack n t =
    (bs : List ℕ) × (write_token n t ≡ some bs)
    × ((rest : List ℕ) → read_token n (bs ++ rest) ≡ got (t, n) rest)

tag_not_zero :
    (n : Names) (t : SliTypeid) (d : ℤ) → IsPlainWord n (payload t) d → (tag_of t == 0) ≡ false
unfolding payload tag_of
tag_not_zero n SliTypeid.nulltype d h = absurd h
tag_not_zero n _ d h = refl

tag-lt : (t : SliTypeid) → tag_of t < 256 ^ 2
unfolding tag_of
tag-lt t = grind arith

read_token-tag :
    (n : Names) (t : ℕ) (bs : List ℕ)
    → t < 256 ^ 2
    → (t == 0) ≡ false
    → read_token n (write_word 2 t ++ bs) ≡ read_typed (get_type t) n bs
unfolding read_token
read_token-tag n t bs h e = rw (read_word-write_word 2 t bs h, e) refl

token-TokenBack : (n : Names) (t : Token) → Agree n → IsPlain n t → TokenBack n t
unfolding write_token
token-TokenBack n t a (g, h) =
    let (bs, e, k) = payload-PayloadBack n t.type (payload t.type) t.data_ a h in
    (
      write_word 2 (tag_of t.type) ++ bs,
      ap (tagged (tag_of t.type)) e,
      λ rest.
          ap (read_token n) (append_assoc (write_word 2 (tag_of t.type)) bs rest)
          ∙ read_token-tag n (tag_of t.type) (bs ++ rest) (tag-lt t.type)
              (tag_not_zero n t.type t.data_ h)
          ∙ ap (λ o. read_typed o n (bs ++ rest)) g
          ∙ k rest,
    )

abbrev StackBack : Names → List Token → Type 0
StackBack n st =
    (bs : List ℕ) × (write_tokens n st ≡ some bs)
    × ((k : ℕ) (acc : List Token) (rest : List ℕ)
        → read_tokens (length st + k) acc n (bs ++ rest) ≡ read_tokens k (st ++ acc) n rest)

read_tokens_step :
    (n : Names) (t : Token) (k : ℕ) (acc : List Token) (bs rest : List ℕ)
    → read_token n bs ≡ got (t, n) rest
    → read_tokens (suc k) acc n bs ≡ read_tokens k (t ∷ acc) n rest
unfolding read_tokens
read_tokens_step n t k acc bs rest e = rw e refl

stack-StackBack : (n : Names) (st : List Token) → Agree n → ArePlain n st → StackBack n st
unfolding write_tokens
stack-StackBack n [] a h =
    ([], refl, λ k acc rest. ap (λ m. read_tokens m acc n rest) {x = 0 + k} {y = k} (omega arith))
stack-StackBack n (t ∷ st) a (ht, h) =
    let (bs, e, r) = stack-StackBack n st a h in
    let (cs, f, s) = token-TokenBack n t a ht in
    (
      bs ++ cs,
      rw (e, f) refl,
      λ k acc rest.
          ap (λ m. read_tokens m acc n ((bs ++ cs) ++ rest)) {x = suc (length st) + k}
            {y = length st + suc k} (omega arith)
          ∙ ap (read_tokens (length st + suc k) acc n) (append_assoc bs cs rest)
          ∙ r (suc k) acc (cs ++ rest)
          ∙ read_tokens_step n t k (st ++ acc) (cs ++ rest) rest (s rest),
    )

-- A stack of less than 2 ^ 32 tokens, which are numbers, bits of doubles, Booleans or names at handles
-- of their own in tables that agree, and none an object, is written, and read back from what is
-- written, whatever follows: the same tokens in the same order, and the tables of names unchanged.
pub read_token_stack-write_token_stack :
    (n : Names) (st : List Token) (rest : List ℕ)
    → Agree n
    → ArePlain n st
    → length st < 2 ^ 32
    → (bs : List ℕ) × (write_token_stack n st ≡ some bs)
      × (read_token_stack n (bs ++ rest) ≡ got (st, n) rest)
unfolding write_token_stack read_token_stack read_tokens
read_token_stack-write_token_stack n st rest a h l =
    let (bs, e, r) = stack-StackBack n st a h in
    let m : length st % 2 ^ 32 ≡ length st = omega (arith, l) in
    let w = read_word-write_word 4 (length st) (bs ++ rest) (omega (arith, l)) in
    let done = r 0 [] rest ∙ ap (λ x. got (x, n) rest) (append-nil st) in
    (
      write_word 4 (length st) ++ bs,
      rw (e, m) refl,
      ap (read_token_stack n) (append_assoc (write_word 4 (length st)) bs rest)
          ∙ rw w (
              ap (λ k. read_tokens k [] n (bs ++ rest)) {x = length st} {y = length st + 0}
                (omega arith)
              ∙ done),
    )
