-- ===== src/Trie/Arrays.antt =====
-- The array form of a trie and its list of variants: `toTokenArray`, `build_node`, `from_token_array`
-- and the walk of `pprint` and `info` in src/trie/sli_type_trie.cpp.
use sli.Prelude.{ℕ, Bool, true, false, ◌&&◌, Option, none, some, List, [], ◌∷◌, ◌++◌, if◌then◌else◌}
use sli.Prelude.Int.{ℤ}
use sli.Stack.Token.{SliTypeid, Token, is_array}
use sli.Trie.TypeNode.{TypeNode, null, node, nulltype_tag}

-- The contents of an array: each token with the contents of the array that it stands for, if any.
mutual
  pub data Item : Type 0 where
    cell : Token → Items → Item

  pub data Items : Type 0 where
    nil : Items
    cons : Item → Items → Items

-- What `build_node` returns or throws: `ArgumentType`, or what `baselookup` throws.
pub data Built : Type 0 where
  built : TypeNode → Built
  malformed : Built
  undefined_type : Built

-- `is_of_type(literaltype)`
abbrev pub is_literal : SliTypeid → Bool
is_literal SliTypeid.literaltype = true
is_literal _ = false

abbrev pub new_branch : ℕ → Built → Built → Built
new_branch t (built next) (built alt) = built (node t none alt next)
new_branch t (built next) malformed = malformed
new_branch t (built next) undefined_type = undefined_type
new_branch t malformed alt = malformed
new_branch t undefined_type alt = undefined_type

-- The tag that the name of a type has in the base dictionary.
abbrev pub resolved : Option ℕ → Built → Built → Built
resolved none next alt = undefined_type
resolved (some t) next alt = new_branch t next alt

-- `baselookup` is the lookup in the base dictionary, with the conversion to `unsigned int`.
unfoldable pub build_node : (ℤ → Option ℕ) → Items → Built
build_node baselookup nil = built (node nulltype_tag none null null)
build_node baselookup (cons (cell x _) nil) = built (node nulltype_tag (some x) null null)
build_node baselookup (cons (cell x _) (cons (cell y ys) nil)) =
    let next = build_node baselookup ys in
    if is_literal x.type && is_array y.type
    then resolved (baselookup x.data_) next (built null)
    else malformed
build_node baselookup (cons (cell x _) (cons (cell y ys) (cons (cell z zs) nil))) =
    let next = build_node baselookup ys in
    let alt = build_node baselookup zs in
    if is_literal x.type && is_array y.type
    then resolved (baselookup x.data_) next (if is_array z.type then alt else malformed)
    else malformed
build_node baselookup (cons _ (cons _ (cons _ (cons _ _)))) = malformed

-- `typename t` is the name of the type with the tag `t`, `address` where a new array is allocated, and
-- `contents` the contents of a payload.
module _ (typename : ℕ → ℤ) (address : Items → ℤ) (contents : Token → Items) where
  abbrev pub type_literal : ℕ → Item
  type_literal t = cell (record { type = SliTypeid.literaltype; data_ = typename t }) nil

  abbrev pub new_array : Items → Item
  new_array a = cell (record { type = SliTypeid.arraytype; data_ = address a }) a

  abbrev pub leaf_items : Option Token → Items
  leaf_items none = nil
  leaf_items (some f) = cons (cell f (contents f)) nil

  abbrev pub branch_items : ℕ → Option Items → Option Items
  branch_items t none = none
  branch_items t (some a) = some (cons (type_literal t) (cons (new_array a) nil))

  abbrev pub branch_with_alt : ℕ → Option Items → Option Items → Option Items
  branch_with_alt t (some a) (some b) =
      some (cons (type_literal t) (cons (new_array a) (cons (new_array b) nil)))
  branch_with_alt t _ _ = none

  -- `toTokenArray`; `none` is a failed assertion.
  unfoldable pub to_token_array : TypeNode → Option Items
  to_token_array null = none
  to_token_array (node t f null null) = some (leaf_items f)
  to_token_array (node t f (node _ _ _ _) null) = none
  to_token_array (node t f null (node t' f' a' n')) =
      branch_items t (to_token_array (node t' f' a' n'))
  to_token_array (node t f (node t1 f1 a1 n1) (node t' f' a' n')) =
      branch_with_alt t (to_token_array (node t' f' a' n')) (to_token_array (node t1 f1 a1 n1))

-- The walk of `pprint` and of `info`: each variant with its tags, the deepest level first, and its
-- function. `tl` holds the tags of the levels above.
unfoldable pub variants : List ℕ → TypeNode → List (List ℕ × Token)
variants tl null = []
variants tl (node t none null null) = []
variants tl (node t (some f) null null) = (tl, f) ∷ []
variants tl (node t f null (node t' f' a' n')) = variants (t ∷ tl) (node t' f' a' n')
variants tl (node t f (node t1 f1 a1 n1) next) =
    variants (t ∷ tl) next ++ variants tl (node t1 f1 a1 n1)
