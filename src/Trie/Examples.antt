-- ===== src/Trie/Examples.antt =====
-- The theorems on tries at a trie with a wildcard.
use mathlib.Core.List.{Memᴰ}
use sli.Prelude.{ℕ, ◌≡◌, refl, inl, inr, Option, none, some, List, [], ◌∷◌, ◌++◌, length, arith}
use sli.Prelude.Int.{ℤ, pos, negsuc}
use sli.Stack.Token.{SliTypeid, Token}
use sli.Trie.TypeNode.{
  TypeNode, null, node, inserted, ambiguous, bound, argument_type, insert_function, insert_from,
  insert_level, bind_function, made, get_alternative, get_tail, get_specific, lookup_from,
  lookup_function, match_alternative, is_unset, tag_of,
}
use sli.Trie.Stored.{stored}
use sli.Trie.Laws.{IsSub}
use sli.Trie.Keeps.{Keeps}
use sli.Trie.Insert.{insert_function-Keeps}
use sli.Trie.Ambiguous.{insert_function-refused}
use sli.Trie.Match.{lookup_function-stored}
use sli.Trie.Match.{Fits}
use sli.Trie.Fits.{lookup_function-Fits}
use sli.Trie.Outcomes.{IsOutcome, lookup_function-IsOutcome}
use sli.Trie.Arrays.{Items, nil, built, build_node, to_token_array, variants}
use sli.Trie.RoundTrip.{to_token_array-build_node}
use sli.Trie.Listing.{deepest_first, variants-stored}

abbrev add_ii : Token
add_ii = record { type = SliTypeid.functiontype; data_ = pos 1 }

abbrev add_any : Token
add_any = record { type = SliTypeid.functiontype; data_ = pos 2 }

abbrev number : ℕ → Token
number n = record { type = SliTypeid.integertype; data_ = pos n }

abbrev real : Token
real = record { type = SliTypeid.doubletype; data_ = pos 0 }

-- [integertype integertype] and [anytype doubletype]
abbrev wildcard : TypeNode
wildcard = node 1 none null (node 3 none null (node 0 (some add_any) null null))

abbrev add_trie : TypeNode
add_trie = node 2 none wildcard (node 2 none null (node 0 (some add_ii) null null))

add_built : insert_function (2 ∷ 2 ∷ []) add_ii wildcard ≡ inserted add_trie
unfolding insert_function insert_from insert_level bind_function made get_alternative get_tail
    get_specific
add_built = refl

-- The walk does not go back to the wildcard: the second operand fits no variant below the first tag.
add_missed : lookup_function (number 1 ∷ real ∷ []) add_trie ≡ argument_type 1
unfolding lookup_function lookup_from match_alternative is_unset tag_of
add_missed = refl

-- A function for a signature that begins a stored one is put where lookup does not find it.
add_hidden :
    insert_function
      (2 ∷ [])
      add_any
      (node 2 none null (node 2 none null (node 0 (some add_ii) null null)))
    ≡ inserted (node 2 none null (node 2 (some add_any) null (node 0 (some add_ii) null null)))
unfolding insert_function insert_from insert_level bind_function made get_alternative get_tail
    get_specific
add_hidden = refl

add_trie-IsSub : IsSub add_trie
add_trie-IsSub = inr (
  (refl, omega arith),
  omega arith,
  inr ((refl, omega arith), inl (refl, refl, refl)),
  ((refl, omega arith), inr ((refl, omega arith), inl (refl, refl, refl))),
)

wildcard-IsSub : IsSub wildcard
wildcard-IsSub = inr ((refl, omega arith), inr ((refl, omega arith), inl (refl, refl, refl)))

add_trie_stores : stored (2 ∷ 2 ∷ []) add_trie ≡ some add_ii
unfolding stored
add_trie_stores = refl

stored_beyond : (x : ℕ) (u : List ℕ) → stored (2 ∷ 2 ∷ x ∷ u) wildcard ≡ none
unfolding stored
stored_beyond x u = refl

lookup_add : lookup_function (number 1 ∷ number 2 ∷ []) add_trie ≡ bound (some add_ii)
unfolding lookup_function lookup_from match_alternative is_unset tag_of
lookup_add = refl

abbrev name_of : ℕ → ℤ
name_of t = pos t

abbrev names : ℤ → Option ℕ
names (pos n) = some n
names (negsuc n) = none

insert_function-Keeps_example :
    Keeps IsSub (2 ∷ 2 ∷ []) add_ii wildcard (insert_function (2 ∷ 2 ∷ []) add_ii wildcard)
insert_function-Keeps_example =
    insert_function-Keeps (2 ∷ 2 ∷ []) add_ii wildcard (omega arith, (omega arith, tt))
      (inl wildcard-IsSub) stored_beyond

insert_function-refused_example :
    insert_function ((2 ∷ 2 ∷ []) ++ 3 ∷ []) add_any add_trie ≡ ambiguous 2
insert_function-refused_example =
    insert_function-refused (2 ∷ 2 ∷ []) (3 ∷ []) add_any add_ii add_trie
      (omega arith, (omega arith, tt)) (inl add_trie-IsSub) add_trie_stores

lookup_function-stored_example :
    lookup_function ((number 1 ∷ number 2 ∷ []) ++ real ∷ []) add_trie ≡ bound (some add_ii)
unfolding tag_of
lookup_function-stored_example =
    lookup_function-stored (number 1 ∷ number 2 ∷ []) (real ∷ []) add_ii add_trie
      (omega arith, omega arith, (omega arith, omega arith, tt)) (inl add_trie-IsSub)
      add_trie_stores

lookup_function-Fits_example :
    (s : List ℕ) × (stored s add_trie ≡ some add_ii) × Fits s (number 1 ∷ number 2 ∷ [])
lookup_function-Fits_example =
    lookup_function-Fits (number 1 ∷ number 2 ∷ []) add_ii add_trie lookup_add

lookup_function-IsOutcome_example :
    IsOutcome (length (real ∷ [])) 0 (lookup_function (real ∷ []) add_trie)
lookup_function-IsOutcome_example = lookup_function-IsOutcome (real ∷ []) add_trie add_trie-IsSub

to_token_array-build_node_example :
    (a : Items) × (to_token_array name_of (λ a. pos 0) (λ f. nil) add_trie ≡ some a)
    × (build_node names a ≡ built add_trie)
to_token_array-build_node_example =
    to_token_array-build_node name_of (λ a. pos 0) (λ f. nil) names add_trie (inl add_trie-IsSub)
      (refl, (refl, tt, (refl, tt, tt)), (refl, tt, tt))

variants-stored_example : Memᴰ (deepest_first [] (2 ∷ 2 ∷ []), add_ii) (variants [] add_trie)
variants-stored_example =
    variants-stored [] (2 ∷ 2 ∷ []) add_ii add_trie add_trie-IsSub add_trie_stores
