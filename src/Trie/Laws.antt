-- ===== src/Trie/Laws.antt =====
-- What tries store, node by node.
use sli.Prelude.{
  ℕ, ◌≡◌, ◌≢◌, ◌⊎◌, inl, inr, refl, ap, ◌∙◌, true, false, Option, none, some, List, [], ◌∷◌, ◌==◌,
  arith, Bool-cases,
}
use sli.Stack.Token.{Token}
use sli.Trie.TypeNode.{TypeNode, null, node, nulltype_tag, anytype_tag}
use sli.Trie.Stored.{stored, IsLeaf, IsLevel}

abbrev pub IsSub : TypeNode → Type 0
IsSub t = IsLeaf t ⊎ IsLevel t

abbrev pub IsTail : ℕ → TypeNode → Type 0
IsTail t null = Unit {0}
IsTail t (node t' f' a' n') = (t ≢ anytype_tag) × IsLevel (node t' f' a' n')

pub make-IsLevel :
    (t : ℕ) (alt next : TypeNode)
    → t ≢ nulltype_tag
    → IsTail t alt
    → IsSub next
    → IsLevel (node t none alt next)
make-IsLevel t null next h a s = ((refl, h), s)
make-IsLevel t (node t' f' a' n') next h (b, a) s = ((refl, h), b, s, a)

pub level_parts :
    (t : ℕ) (f : Option Token) (alt next : TypeNode)
    → IsLevel (node t f alt next)
    → (f ≡ none) × (t ≢ nulltype_tag) × IsTail t alt × IsSub next
level_parts t f null next ((e, h), s) = (e, h, tt, s)
level_parts t f (node t' f' a' n') next ((e, h), b, s, a) = (e, h, (b, a), s)

pub stored_here :
    (a : ℕ) (s : List ℕ) (f : Option Token) (alt next : TypeNode)
    → stored (a ∷ s) (node a f alt next) ≡ stored s next
unfolding stored
stored_here a s f alt next = let e : (a == a) ≡ true = ground arith in rw e refl

pub stored_there :
    (a t : ℕ) (s : List ℕ) (f : Option Token) (alt next : TypeNode)
    → (a == t) ≡ false
    → stored (a ∷ s) (node t f alt next) ≡ stored (a ∷ s) alt
unfolding stored
stored_there a t s f alt next e = rw e refl

pub stored-null : (s : List ℕ) → stored s null ≡ none
unfolding stored
stored-null [] = refl
stored-null (a ∷ s) = refl

pub stored-new : (t : ℕ) (s : List ℕ) → stored s (node t none null null) ≡ none
unfolding stored
stored-new t [] = refl
stored-new t (a ∷ s) = elim (Bool-cases (a == t)) [
  | inl e ↦ rw e (stored-null s)
  | inr e ↦ rw e refl
]

pub stored_nil : (t : ℕ) (alt next : TypeNode) → stored [] (node t none alt next) ≡ none
unfolding stored
stored_nil t alt null = refl
stored_nil t alt (node _ _ _ _) = refl

pub level-nil : (t : TypeNode) → IsLevel t → stored [] t ≡ none
level-nil null h = absurd h
level-nil (node t f a n) h = let (e, _, _, _) = level_parts t f a n h in rw e (stored_nil t a n)

pub tail-nil : (t : ℕ) (alt : TypeNode) → IsTail t alt → stored [] alt ≡ none
tail-nil t null h = stored-null []
tail-nil t (node t' f' a' n') (_, h) = level-nil (node t' f' a' n') h

pub leaf_parts :
    (t : TypeNode) → IsLeaf t → (g : Token) × (t ≡ node nulltype_tag (some g) null null)
leaf_parts null h = absurd h
leaf_parts (node t none a n) h = absurd h
leaf_parts (node t (some f) a n) (p, q, r) = (f, rw (p, q, r) refl)

pub stored-leaf : (g : Token) → stored [] (node nulltype_tag (some g) null null) ≡ some g
unfolding stored
stored-leaf g = refl

pub leaf-stores : (t : TypeNode) → IsLeaf t → (g : Token) × (stored [] t ≡ some g)
leaf-stores t h = let (g, e) = leaf_parts t h in (g, ap (stored []) e ∙ stored-leaf g)

-- Each level leads to a function.
pub level-stores :
    (t : TypeNode) → IsLevel t → (x : ℕ) × (u : List ℕ) × (g : Token) × (stored (x ∷ u) t ≡ some g)
level-stores null h = absurd h
level-stores (node t o null next) (_, inl h) =
    let (g, e) = leaf-stores next h in (t, [], g, stored_here t [] o null next ∙ e)
level-stores (node t o null next) (_, inr h) =
    let (x, u, g, e) = level-stores next h in (t, x ∷ u, g, stored_here t (x ∷ u) o null next ∙ e)
level-stores (node t o (node t' o' a' n') next) (_, _, inl h, _) =
    let (g, e) = leaf-stores next h in (t, [], g, stored_here t [] o (node t' o' a' n') next ∙ e)
level-stores (node t o (node t' o' a' n') next) (_, _, inr h, _) =
    let (x, u, g, e) = level-stores next h in
    (t, x ∷ u, g, stored_here t (x ∷ u) o (node t' o' a' n') next ∙ e)
