-- ===== src/Trie/Listing.antt =====
-- The list of variants holds every stored function.
use mathlib.Core.List.{Memᴰ}
use sli.Prelude.{
  ℕ, ◌≡◌, inl, inr, refl, sym, ap, ◌∙◌, Option, none, some, List, [], ◌∷◌, ◌++◌, ◌==◌, arith,
  Bool-cases,
}
use mathlib.Core.Path.{subst}
use sli.Stack.Token.{Token}
use sli.Trie.TypeNode.{TypeNode, null, node, nulltype_tag}
use sli.Trie.Stored.{stored}
use sli.Trie.Laws.{
  IsSub, level_parts, leaf_parts, stored_here, stored_there, stored-null, stored_nil,
}
use sli.Trie.Arrays.{variants}

-- The signature with the deepest level first.
abbrev pub deepest_first : List ℕ → List ℕ → List ℕ
deepest_first tl [] = tl
deepest_first tl (a ∷ s) = deepest_first (a ∷ tl) s

module _ {ℓ} {A : Type ℓ} where
  mem-left : (x : A) (xs ys : List A) → Memᴰ x xs → Memᴰ x (xs ++ ys)
  mem-left x [] ys m = elim m [ ]
  mem-left x (y ∷ xs) ys (Memᴰ.head e) = Memᴰ.head e
  mem-left x (y ∷ xs) ys (Memᴰ.tail m) = Memᴰ.tail (mem-left x xs ys m)

  mem-right : (x : A) (xs ys : List A) → Memᴰ x ys → Memᴰ x (xs ++ ys)
  mem-right x [] ys m = m
  mem-right x (y ∷ xs) ys m = Memᴰ.tail (mem-right x xs ys m)

variants_last :
    (tl : List ℕ) (t : ℕ) (next : TypeNode)
    → IsSub next
    → variants tl (node t none null next) ≡ variants (t ∷ tl) next
unfolding variants
variants_last tl t null (inl s) = absurd s
variants_last tl t null (inr s) = absurd s
variants_last tl t (node _ _ _ _) s = refl

variants_more :
    (tl : List ℕ) (t t1 : ℕ) (f1 : Option Token) (a1 n1 next : TypeNode)
    → variants tl (node t none (node t1 f1 a1 n1) next)
      ≡ variants (t ∷ tl) next ++ variants tl (node t1 f1 a1 n1)
unfolding variants
variants_more tl t t1 f1 a1 n1 null = refl
variants_more tl t t1 f1 a1 n1 (node _ _ _ _) = refl

leaf-listed :
    (tl s : List ℕ) (f g : Token)
    → stored s (node nulltype_tag (some g) null null) ≡ some f
    → Memᴰ (deepest_first tl s, f) (variants tl (node nulltype_tag (some g) null null))
unfolding stored variants
leaf-listed tl [] f g h = Memᴰ.head (let e : f ≡ g = cc h in rw e refl)
leaf-listed tl (a ∷ s) f g h = absurd (elim (Bool-cases (a == nulltype_tag)) [
  | inl e ↦ let w : stored s null ≡ some f = rw e at h in let v = stored-null s in cc (v, w)
  | inr e ↦ let w : none ≡ some f = rw e at h in cc w
])

here :
    (a t : ℕ) (s : List ℕ) (o : Option Token) (f : Token) (alt next : TypeNode)
    → a ≡ t
    → stored (a ∷ s) (node t o alt next) ≡ some f
    → stored s next ≡ some f
here a t s o f alt next e h =
    let h' = subst (λ x. stored (x ∷ s) (node t o alt next) ≡ some f) e h in
    sym (stored_here t s o alt next) ∙ h'

-- Each function that a trie stores for a signature is among its variants, with that signature.
pub variants-stored :
    (tl s : List ℕ) (f : Token) (t : TypeNode)
    → IsSub t
    → stored s t ≡ some f
    → Memᴰ (deepest_first tl s, f) (variants tl t)
variants-stored tl s f t (inl l) h =
    let (g, e) = leaf_parts t l in
    subst (λ x. Memᴰ (deepest_first tl s, f) (variants tl x)) (sym e)
      (leaf-listed tl s f g (sym (ap (stored s) e) ∙ h))
variants-stored tl s f null (inr l) h = absurd l
variants-stored tl [] f (node t o alt next) (inr l) h =
    let (e, _, _, _) = level_parts t o alt next l in
    let w = ap (λ x. stored [] (node t x alt next)) e in
    absurd (let v = stored_nil t alt next in cc (w, v, h))
variants-stored tl (a ∷ s) f (node t o null next) (inr l) h =
    let (e, _, _, sub) = level_parts t o null next l in
    elim (Bool-cases (a == t)) [
      | inl p ↦
          let a-t : a ≡ t = ground (arith, p) in
          rw (e, variants_last tl t next sub)
            (subst (λ x. Memᴰ (deepest_first (x ∷ tl) s, f) (variants (t ∷ tl) next)) (sym a-t)
              (variants-stored (t ∷ tl) s f next sub (here a t s o f null next a-t h)))
      | inr p ↦
          absurd (
            let w = stored_there a t s o null next p in let v = stored-null (a ∷ s) in cc (w, v, h))
    ]
variants-stored tl (a ∷ s) f (node t o (node t1 f1 a1 n1) next) (inr l) h =
    let alt = node t1 f1 a1 n1 in
    let (e, _, (_, la), sub) = level_parts t o alt next l in
    elim (Bool-cases (a == t)) [
      | inl p ↦
          let a-t : a ≡ t = ground (arith, p) in
          rw (e, variants_more tl t t1 f1 a1 n1 next)
            (mem-left _ (variants (t ∷ tl) next) _ (
              subst (λ x. Memᴰ (deepest_first (x ∷ tl) s, f) (variants (t ∷ tl) next)) (sym a-t)
                (variants-stored (t ∷ tl) s f next sub (here a t s o f alt next a-t h))))
      | inr p ↦
          rw (e, variants_more tl t t1 f1 a1 n1 next)
            (mem-right _ (variants (t ∷ tl) next) _ (
              variants-stored tl (a ∷ s) f (node t1 f1 a1 n1) (inr la)
                (sym (stored_there a t s o alt next p) ∙ h)))
    ]
