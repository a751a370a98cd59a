-- ===== src/Trie/Stored.antt =====
-- What a trie stores, as a map from signatures to functions, and the tries that `insert` builds.
use sli.Prelude.{ℕ, ◌≡◌, ◌≢◌, ◌⊎◌, Option, none, some, List, [], ◌∷◌, ◌==◌, if◌then◌else◌}
use sli.Stack.Token.{Token}
use sli.Trie.TypeNode.{TypeNode, null, node, nulltype_tag, anytype_tag}

-- The function that is stored for exactly this signature.
unfoldable pub stored : List ℕ → TypeNode → Option Token
stored s null = none
stored [] (node t f alt null) = f
stored [] (node t f alt (node _ _ _ _)) = none
stored (a ∷ s) (node t f alt next) =
    let rest = stored (a ∷ s) alt in let deeper = stored s next in if a == t then deeper else rest

-- A leaf holds a function and nothing else.
abbrev pub IsLeaf : TypeNode → Type 0
IsLeaf null = ⊥
IsLeaf (node t none a n) = ⊥
IsLeaf (node t (some f) a n) = (t ≡ nulltype_tag) × (a ≡ null) × (n ≡ null)

abbrev pub IsBranch : ℕ → Option Token → Type 0
IsBranch t f = (f ≡ none) × (t ≢ nulltype_tag)

-- The alternatives of a level: each has a tag and no function, and leads to a leaf or to the next
-- level; only the last one may be the wildcard.
abbrev pub IsLevel : TypeNode → Type 0
IsLevel null = ⊥
IsLevel (node t f null next) = IsBranch t f × (IsLeaf next ⊎ IsLevel next)
IsLevel (node t f (node t' f' a' n') next) =
    IsBranch t f × (t ≢ anytype_tag) × (IsLeaf next ⊎ IsLevel next) × IsLevel (node t' f' a' n')

-- A trie is a level, a leaf or the root of an empty trie.
abbrev pub IsTrie : TypeNode → Type 0
IsTrie t = (IsLeaf t ⊎ IsLevel t) ⊎ (t ≡ node nulltype_tag none null null)
