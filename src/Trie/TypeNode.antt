-- ===== src/Trie/TypeNode.antt =====
-- `TypeNode` of src/trie/sli_type_trie.h and src/trie/sli_type_trie.cpp, with the numbers of the type
-- identifiers of src/types/sli_type.h.
use sli.Prelude.{
  ℕ, ◌+◌, Bool, true, ◌||◌, Option, none, some, List, [], ◌∷◌, ◌==◌, length, if◌then◌else◌,
}
use sli.Stack.Token.{SliTypeid, Token}

-- A node, or the pointer NULL. The payload `func` is unset where its `type_` is NULL.
pub data TypeNode : Type 0 where
  null : TypeNode
  node : (tag : ℕ) → (func : Option Token) → (alt : TypeNode) → (next : TypeNode) → TypeNode

abbrev pub nulltype_tag : ℕ
nulltype_tag = 0

abbrev pub anytype_tag : ℕ
anytype_tag = 1

-- `TypeNode(tag)`
abbrev pub new_node : ℕ → TypeNode
new_node tag = node tag none null null

-- `insert` returns, with the trie as it is then, or it throws `ArgumentType(level)`.
pub data Insertion : Type 0 where
  inserted : TypeNode → Insertion
  ambiguous : ℕ → Insertion

abbrev pub with_next : ℕ → Option Token → TypeNode → Insertion → Insertion
with_next tag func alt (inserted n) = inserted (node tag func alt n)
with_next tag func alt (ambiguous l) = ambiguous l

abbrev pub with_alt : ℕ → Option Token → TypeNode → Insertion → Insertion
with_alt tag func next (inserted n) = inserted (node tag func n next)
with_alt tag func next (ambiguous l) = ambiguous l

-- `get_alternative(pos, tag)`, and what `insert` does below the node that it returns: `below` is done
-- to the pointer `next_` of that node. First the case of the wildcard, which stands at the tail.
unfoldable pub get_tail : (TypeNode → Insertion) → TypeNode → Insertion
get_tail below null = below null
get_tail below (node t f null next) =
    if t == anytype_tag
    then with_next t f null (below next)
    else with_alt t f next (with_next anytype_tag none null (below null))
get_tail below (node t f (node t' f' a' n') next) =
    with_alt t f next (get_tail below (node t' f' a' n'))

-- The general case. A new tag is put in front of a wildcard at the tail.
unfoldable pub get_specific : ℕ → (TypeNode → Insertion) → TypeNode → Insertion
get_specific tag below null = below null
get_specific tag below (node t f null next) =
    if t == tag
    then with_next t f null (below next)
    else if t == anytype_tag
    then with_next tag none (node t f null next) (below null)
    else with_alt t f next (with_next tag none null (below null))
get_specific tag below (node t f (node t' f' a' n') next) =
    let rest = get_specific tag below (node t' f' a' n') in
    if t == tag then with_next t f (node t' f' a' n') (below next) else with_alt t f next rest

unfoldable pub get_alternative : ℕ → (TypeNode → Insertion) → TypeNode → Insertion
get_alternative tag below pos =
    if tag == anytype_tag then get_tail below pos else get_specific tag below pos

-- `pos->next_`, which is made when it is NULL.
unfoldable pub made : TypeNode → TypeNode
made null = new_node nulltype_tag
made (node t f a n) = node t f a n

-- The end of `insert`, at the node where `func` is to stand.
unfoldable pub bind_function : Token → ℕ → TypeNode → Insertion
bind_function f level null = ambiguous level
bind_function f level (node t (some g) a n) = ambiguous level
bind_function f level (node t none a n) = inserted (node t (some f) a n)

-- One round of the loop of `insert`.
unfoldable pub insert_level : ℕ → (TypeNode → Insertion) → ℕ → TypeNode → Insertion
insert_level tag below level null = ambiguous level
insert_level tag below level (node t f a n) =
    if t == nulltype_tag
    then elim f [ some g ↦ ambiguous level | none ↦ with_next tag none a (below n) ]
    else get_alternative tag below (node t f a n)

-- The loop of `insert` from a level on.
unfoldable pub insert_from : List ℕ → Token → ℕ → TypeNode → Insertion
insert_from [] f level pos = bind_function f level pos
insert_from (tag ∷ tags) f level pos =
    insert_level tag (λ next. insert_from tags f (level + 1) (made next)) level pos

-- `insert(a, f)`
unfoldable pub insert_function : List ℕ → Token → TypeNode → Insertion
insert_function a f pos = insert_from a f 0 pos

-- The outcome of `lookup`: the payload of a leaf, which may be unset, an exception, or a NULL pointer
-- that is followed.
pub data Match : Type 0 where
  bound : Option Token → Match
  argument_type : ℕ → Match
  trie_underflow : ℕ → ℕ → Match
  null_pointer : Match

-- `tag()`, the number of a type.
unfoldable pub tag_of : SliTypeid → ℕ
tag_of SliTypeid.nulltype = 0
tag_of SliTypeid.anytype = 1
tag_of SliTypeid.integertype = 2
tag_of SliTypeid.doubletype = 3
tag_of SliTypeid.booltype = 4
tag_of SliTypeid.literaltype = 5
tag_of SliTypeid.marktype = 6
tag_of SliTypeid.stringtype = 7
tag_of SliTypeid.arraytype = 8
tag_of SliTypeid.dictionarytype = 9
tag_of SliTypeid.nametype = 10
tag_of SliTypeid.litproceduretype = 11
tag_of SliTypeid.trietype = 12
tag_of SliTypeid.functiontype = 13
tag_of SliTypeid.proceduretype = 14
tag_of SliTypeid.istreamtype = 15
tag_of SliTypeid.xistreamtype = 16
tag_of SliTypeid.ostreamtype = 17
tag_of SliTypeid.symboltype = 18
tag_of SliTypeid.iiteratetype = 19
tag_of SliTypeid.irepeattype = 20
tag_of SliTypeid.ifortype = 21
tag_of SliTypeid.iforalltype = 22
tag_of SliTypeid.ilooptype = 23
tag_of SliTypeid.iparsetype = 24
tag_of SliTypeid.iforallstringtype = 25
tag_of SliTypeid.iforallindexedarraytype = 26
tag_of SliTypeid.iforallindexedstringtype = 27
tag_of SliTypeid.imaptype = 28
tag_of SliTypeid.imapindexedtype = 29
tag_of SliTypeid.imapthreadtype = 30
tag_of SliTypeid.nooptype = 31
tag_of SliTypeid.quittype = 32
tag_of SliTypeid.regextype = 33
tag_of SliTypeid.graphicscontexttype = 34
tag_of SliTypeid.patterntype = 35
tag_of SliTypeid.num_sli_types = 36
tag_of SliTypeid.intvectortype = 37
tag_of SliTypeid.doublevectortype = 38

unfoldable pub is_unset : TypeNode → Bool
is_unset null = true
is_unset (node t f a n) = t == nulltype_tag

-- The walk of `lookup` along the alternatives: the pointer `next_` of the one that fits.
unfoldable pub match_alternative : ℕ → TypeNode → Option TypeNode
match_alternative tag null = none
match_alternative tag (node t f alt next) =
    let rest = match_alternative tag alt in
    if t == tag || t == anytype_tag then some next else if is_unset alt then none else rest

-- `lookup(st)`, with the tokens from `level` on.
unfoldable pub lookup_from : ℕ → ℕ → List Token → TypeNode → Match
lookup_from load level st null = null_pointer
lookup_from load level st (node t f alt null) = bound f
lookup_from load level [] (node t f alt (node t' f' a' n')) =
    if t == nulltype_tag then argument_type level else trie_underflow (level + 1) load
lookup_from load level (x ∷ st) (node t f alt (node t' f' a' n')) =
    if t == nulltype_tag
    then argument_type level
    else elim (match_alternative (tag_of x.type) (node t f alt (node t' f' a' n'))) [
      | none ↦ argument_type level
      | some next ↦ lookup_from load (level + 1) st next
    ]

-- `lookup(st)`
unfoldable pub lookup_function : List Token → TypeNode → Match
lookup_function st t = lookup_from (length st) 0 st t
