-- ===== src/Trie/RoundTrip.antt =====
-- The array form of a trie read back.
use sli.Prelude.{ℕ, ◌≡◌, inl, inr, refl, ap, ◌∙◌, Option, none, some}
use sli.Prelude.Int.{ℤ}
use sli.Stack.Token.{Token}
use sli.Trie.TypeNode.{TypeNode, null, node, nulltype_tag}
use sli.Trie.Stored.{IsLevel, IsTrie}
use sli.Trie.Laws.{IsSub, level_parts, leaf_parts}
use sli.Trie.Arrays.{
  Items, nil, cons, cell, built, build_node, to_token_array, type_literal, new_array, branch_items,
  branch_with_alt,
}

module _ (typename : ℕ → ℤ) (address : Items → ℤ) (contents : Token → Items)
    (baselookup : ℤ → Option ℕ) where
  -- The base dictionary knows the names of the types in the trie.
  abbrev pub Named : TypeNode → Type 0
  Named null = Unit {0}
  Named (node t f alt null) = Unit {0}
  Named (node t f alt (node t' f' a' n')) =
      (baselookup (typename t) ≡ some t) × Named alt × Named (node t' f' a' n')

  abbrev ReadsBack : TypeNode → Type 0
  ReadsBack t =
      (a : Items) × (to_token_array typename address contents t ≡ some a)
      × (build_node baselookup a ≡ built t)

  ReadsBack-leaf : (g : Token) → ReadsBack (node nulltype_tag (some g) null null)
  unfolding to_token_array build_node
  ReadsBack-leaf g = (cons (cell g (contents g)) nil, refl, refl)

  ReadsBack-last :
      (t : ℕ) (next : TypeNode)
      → IsSub next
      → baselookup (typename t) ≡ some t
      → ReadsBack next
      → ReadsBack (node t none null next)
  unfolding to_token_array build_node
  ReadsBack-last t null (inl s) e r = absurd s
  ReadsBack-last t null (inr s) e r = absurd s
  ReadsBack-last t (node t' f' a' n') s e (a, p, q) = (
    cons (type_literal typename address contents t)
        (cons (new_array typename address contents a) nil),
    ap (branch_items typename address contents t) p,
    rw (e, q) refl,
  )

  ReadsBack-more :
      (t : ℕ) (alt next : TypeNode)
      → IsLevel alt
      → IsSub next
      → baselookup (typename t) ≡ some t
      → ReadsBack alt
      → ReadsBack next
      → ReadsBack (node t none alt next)
  unfolding to_token_array build_node
  ReadsBack-more t null next l s e rb r = absurd l
  ReadsBack-more t (node t1 f1 a1 n1) null l (inl s) e rb r = absurd s
  ReadsBack-more t (node t1 f1 a1 n1) null l (inr s) e rb r = absurd s
  ReadsBack-more t (node t1 f1 a1 n1) (node t' f' a' n') l s e (b, v, w) (a, p, q) = (
    cons (type_literal typename address contents t) (
        cons (new_array typename address contents a)
          (cons (new_array typename address contents b) nil)),
    ap
          (λ x.
            branch_with_alt typename address contents t x
              (to_token_array typename address contents (node t1 f1 a1 n1)))
          p
        ∙ ap (branch_with_alt typename address contents t (some a)) v,
    rw (e, q, w) refl,
  )

  Named-parts :
      (t : ℕ) (f : Option Token) (alt next : TypeNode)
      → IsSub next
      → Named (node t f alt next)
      → (baselookup (typename t) ≡ some t) × Named alt × Named next
  Named-parts t f alt null (inl s) h = absurd s
  Named-parts t f alt null (inr s) h = absurd s
  Named-parts t f alt (node t' f' a' n') s h = h

  ReadsBack-sub : (t : TypeNode) → IsSub t → Named t → ReadsBack t
  ReadsBack-sub t (inl l) h = let (g, e) = leaf_parts t l in rw e (ReadsBack-leaf g)
  ReadsBack-sub null (inr l) h = absurd l
  ReadsBack-sub (node t f null next) (inr l) h =
      let (e, _, _, s) = level_parts t f null next l in
      let (b, _, hn) = Named-parts t f null next s h in
      rw e (ReadsBack-last t next s b (ReadsBack-sub next s hn))
  ReadsBack-sub (node t f (node t1 f1 a1 n1) next) (inr l) h =
      let (e, _, (_, la), s) = level_parts t f (node t1 f1 a1 n1) next l in
      let (b, ha, hn) = Named-parts t f (node t1 f1 a1 n1) next s h in
      rw e (
        ReadsBack-more t (node t1 f1 a1 n1) next la s b
          (ReadsBack-sub (node t1 f1 a1 n1) (inr la) ha) (ReadsBack-sub next s hn))

  ReadsBack-empty : ReadsBack (node nulltype_tag none null null)
  unfolding to_token_array build_node
  ReadsBack-empty = (nil, refl, refl)

  -- A trie whose types have their names in the base dictionary has an array form, no assertion fails,
  -- and `build_node` makes the same trie from it.
  pub to_token_array-build_node :
      (t : TypeNode)
      → IsTrie t
      → Named t
      → (a : Items) × (to_token_array typename address contents t ≡ some a)
        × (build_node baselookup a ≡ built t)
  to_token_array-build_node t (inl s) h = ReadsBack-sub t s h
  to_token_array-build_node t (inr e) h = rw e ReadsBack-empty
