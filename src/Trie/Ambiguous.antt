-- ===== src/Trie/Ambiguous.antt =====
-- Insertions that are refused.
use mathlib.Core.Path.{subst}
use sli.Prelude.{
  ℕ, ◌+◌, ◌≡◌, ◌≢◌, inl, inr, refl, sym, ap, ◌∙◌, false, Option, some, List, [], ◌∷◌, ◌++◌, ◌==◌,
  arith, Bool-cases, length,
}
use sli.Stack.Token.{Token}
use sli.Trie.TypeNode.{
  TypeNode, null, node, nulltype_tag, anytype_tag, Insertion, ambiguous, with_next, with_alt,
  get_tail, get_specific, get_alternative, made, bind_function, insert_level, insert_from,
  insert_function,
}
use sli.Trie.Stored.{stored, IsLevel, IsTrie}
use sli.Trie.Laws.{
  IsSub, level_parts, stored_here, stored_there, stored-null, stored-new, level-nil, leaf_parts,
}
use sli.Trie.Keeps.{IsSignature}

-- Where the signature `p` has a function, the trie is a leaf or `p` has a tag.
stored-leaf_tag :
    (a : ℕ) (p : List ℕ) (g h : Token)
    → a ≢ nulltype_tag
    → stored (a ∷ p) (node nulltype_tag (some h) null null) ≢ some g
stored-leaf_tag a p g h ha e =
    let d : (a == nulltype_tag) ≡ false = ground (arith, ha) in
    let w = stored_there a nulltype_tag p (some h) null null d in
    let v = stored-null (a ∷ p) in cc (w, v, e)

module _ (a : ℕ) (p : List ℕ) (g : Token) (m : ℕ) (below : TypeNode → Insertion)
    (refused : (n : TypeNode) → IsSub n → stored p n ≡ some g → below n ≡ ambiguous m) where
  refused_here :
      (t : ℕ) (o : Option Token) (alt next : TypeNode)
      → a ≡ t
      → IsSub next
      → stored (a ∷ p) (node t o alt next) ≡ some g
      → with_next t o alt (below next) ≡ ambiguous m
  refused_here t o alt next e sub h =
      let w = stored_here t p o alt next in
      let h' = subst (λ x. stored (x ∷ p) (node t o alt next) ≡ some g) e h in
      ap (with_next t o alt) (refused next sub (sym w ∙ h'))

  refused_null :
      (t : ℕ) (o : Option Token) (next : TypeNode)
      → (a == t) ≡ false
      → stored (a ∷ p) (node t o null next) ≢ some g
  refused_null t o next e h =
      let w = stored_there a t p o null next e in let v = stored-null (a ∷ p) in cc (w, v, h)

  get_tail-refused :
      a ≡ anytype_tag
      → (t : TypeNode) → IsLevel t
      → stored (a ∷ p) t ≡ some g
      → get_tail below t ≡ ambiguous m
  unfolding get_tail
  get_tail-refused ha null l h = absurd l
  get_tail-refused ha (node t o null next) (_, sub) h = elim (Bool-cases (t == anytype_tag)) [
    | inl e ↦ rw e (refused_here t o null next (ground (arith, e, ha)) sub h)
    | inr e ↦ absurd (refused_null t o next (ground (arith, e, ha)) h)
  ]
  get_tail-refused ha (node t o (node t' o' a' n') next) (_, b, _, l) h =
      let d : (a == t) ≡ false = ground (arith, b, ha) in
      ap (with_alt t o next) (
        get_tail-refused ha (node t' o' a' n') l
          (sym (stored_there a t p o (node t' o' a' n') next d) ∙ h))

  get_specific-refused :
      (t : TypeNode) → IsLevel t → stored (a ∷ p) t ≡ some g → get_specific a below t ≡ ambiguous m
  unfolding get_specific
  get_specific-refused null l h = absurd l
  get_specific-refused (node t o null next) (_, sub) h = elim (Bool-cases (t == a)) [
    | inl e ↦ rw e (refused_here t o null next (ground (arith, e)) sub h)
    | inr e ↦ absurd (refused_null t o next (ground (arith, e)) h)
  ]
  get_specific-refused (node t o (node t' o' a' n') next) (_, _, sub, l) h =
      elim (Bool-cases (t == a)) [
        | inl e ↦ rw e (refused_here t o (node t' o' a' n') next (ground (arith, e)) sub h)
        | inr e ↦
            let d : (a == t) ≡ false = ground (arith, e) in
            let k =
              get_specific-refused (node t' o' a' n') l
                (sym (stored_there a t p o (node t' o' a' n') next d) ∙ h) in
            rw e (ap (with_alt t o next) k)
      ]

  get_alternative-refused :
      (t : TypeNode)
      → IsLevel t
      → stored (a ∷ p) t ≡ some g
      → get_alternative a below t ≡ ambiguous m
  unfolding get_alternative
  get_alternative-refused t l h = elim (Bool-cases (a == anytype_tag)) [
    | inl e ↦ rw e (get_tail-refused (ground (arith, e)) t l h)
    | inr e ↦ rw e (get_specific-refused t l h)
  ]

  insert_level-refused :
      (l : ℕ) (t : TypeNode)
      → a ≢ nulltype_tag
      → IsSub t
      → stored (a ∷ p) t ≡ some g
      → insert_level a below l t ≡ ambiguous m
  unfolding insert_level
  insert_level-refused l t ha (inl h) e =
      let (f, w) = leaf_parts t h in
      absurd (stored-leaf_tag a p g f ha (sym (ap (stored (a ∷ p)) w) ∙ e))
  insert_level-refused l null ha (inr h) e = absurd h
  insert_level-refused l (node t o alt n) ha (inr h) e =
      let (_, ht, _, _) = level_parts t o alt n h in
      let d : (t == nulltype_tag) ≡ false = ground (arith, ht) in
      rw d (get_alternative-refused (node t o alt n) h e)

insert_leaf-refused :
    (q : List ℕ) (f g : Token) (l : ℕ)
    → insert_from q f l (node nulltype_tag (some g) null null) ≡ ambiguous l
unfolding insert_from insert_level bind_function
insert_leaf-refused [] f g l = refl
insert_leaf-refused (a ∷ q) f g l = refl

made-sub : (n : TypeNode) → IsSub n → made n ≡ n
unfolding made
made-sub null (inl h) = absurd h
made-sub null (inr h) = absurd h
made-sub (node t o a n) h = refl

insert_from-refused :
    (p q : List ℕ) (f g : Token) (l : ℕ) (t : TypeNode)
    → IsSignature p
    → IsSub t
    → stored p t ≡ some g
    → insert_from (p ++ q) f l t ≡ ambiguous (l + length p)
unfolding insert_from
insert_from-refused [] q f g l t hp (inl h) e =
    let (g', w) = leaf_parts t h in
    ap (insert_from q f l) w
    ∙ insert_leaf-refused q f g' l
    ∙ ap ambiguous {x = l} {y = l + 0} (omega arith)
insert_from-refused [] q f g l t hp (inr h) e = absurd (let w = level-nil t h in cc (w, e))
insert_from-refused (a ∷ p) q f g l t (ha, hp) sub e =
    insert_level-refused a p g (l + length (a ∷ p)) _
      (λ n s k.
        ap (insert_from (p ++ q) f (l + 1)) (made-sub n s)
        ∙ insert_from-refused p q f g (l + 1) n hp s k
        ∙ ap ambiguous (omega arith))
      l t ha sub e

-- When a signature `p`, of tags other than that of `nulltype`, has a function in a trie, which is a level,
-- a leaf or an empty root, an insertion for any signature that begins with `p`, `p` itself included,
-- throws `ArgumentType` with the length of `p`.
pub insert_function-refused :
    (p q : List ℕ) (f g : Token) (t : TypeNode)
    → IsSignature p
    → IsTrie t
    → stored p t ≡ some g
    → insert_function (p ++ q) f t ≡ ambiguous (length p)
unfolding insert_function
insert_function-refused p q f g t hp (inl sub) e =
    insert_from-refused p q f g 0 t hp sub e
    ∙ ap ambiguous {x = 0 + length p} {y = length p} (omega arith)
insert_function-refused p q f g t hp (inr h) e =
    absurd (let w = ap (stored p) h in let v = stored-new nulltype_tag p in cc (w, v, e))
