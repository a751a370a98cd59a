-- ===== src/Trie/Alternatives.antt =====
-- Insertion among the alternatives of a level, against the map from signatures to functions.
use mathlib.Core.Path.{subst}
use sli.Prelude.{
  ℕ, ◌≡◌, ◌≢◌, ◌⊎◌, inl, inr, refl, sym, ◌∙◌, false, Option, none, List, [], ◌∷◌, ◌++◌, ◌==◌, arith,
  Bool-cases,
}
use sli.Stack.Token.{Token}
use sli.Trie.TypeNode.{
  TypeNode, null, node, nulltype_tag, anytype_tag, Insertion, with_next, with_alt, get_tail,
  get_specific, get_alternative,
}
use sli.Trie.Stored.{stored, IsLevel}
use sli.Trie.Laws.{
  IsSub, IsTail, level_parts, stored_here, stored_there, stored-null, stored-new, stored_nil,
  level-nil,
}
use sli.Trie.Keeps.{Keeps, IsFree, Keeps-next, Keeps-alt, Keeps-same}

pub IsFree-null : (s : List ℕ) → IsFree s null
IsFree-null s x u = stored-null (s ++ x ∷ u)

pub IsFree-here :
    (a : ℕ) (s : List ℕ) (f : Option Token) (alt next : TypeNode)
    → IsFree (a ∷ s) (node a f alt next)
    → IsFree s next
IsFree-here a s f alt next h x u = sym (stored_here a (s ++ x ∷ u) f alt next) ∙ h x u

pub IsFree-there :
    (a t : ℕ) (s : List ℕ) (f : Option Token) (alt next : TypeNode)
    → (a == t) ≡ false
    → IsFree (a ∷ s) (node t f alt next)
    → IsFree (a ∷ s) alt
IsFree-there a t s f alt next e h x u = sym (stored_there a t (s ++ x ∷ u) f alt next e) ∙ h x u

-- A node with a new tag and nothing below it stores what its alternatives do.
pub stored_wildcard :
    (a t : ℕ) (o : Option Token) (next : TypeNode)
    → IsLevel (node t o null next)
    → (t == a) ≡ false
    → (q : List ℕ)
    → stored q (node a none (node t o null next) null) ≡ stored q (node t o null next)
stored_wildcard a t o next l e [] =
    stored_nil a (node t o null next) null ∙ sym (level-nil (node t o null next) l)
stored_wildcard a t o next l e (b ∷ q) = elim (Bool-cases (b == a)) [
  | inl p ↦
      let a-b : a ≡ b = ground (arith, p) in
      let e' : (a == t) ≡ false = ground (arith, e) in
      subst
        (λ x.
          stored (x ∷ q) (node a none (node t o null next) null)
          ≡ stored (x ∷ q) (node t o null next))
        a-b
        (rw (stored_here a q none (node t o null next) null, stored_there a t q o null next e')
          (stored-null q ∙ sym (stored-null (a ∷ q))))
  | inr p ↦ stored_there b a q none (node t o null next) null p
]

module _ (s : List ℕ) (f : Token) (below : TypeNode → Insertion)
    (keeps : (n : TypeNode) → IsSub n ⊎ (n ≡ null) → IsFree s n → Keeps IsSub s f n (below n)) where
  -- A new node, in front of alternatives that do not have its tag.
  Keeps-new :
      (a : ℕ) (alt : TypeNode)
      → a ≢ nulltype_tag
      → IsTail a alt
      → ((q : List ℕ) → stored q (node a none alt null) ≡ stored q alt)
      → Keeps IsLevel (a ∷ s) f alt (with_next a none alt (below null))
  Keeps-new a alt h tl e =
      Keeps-same IsLevel (a ∷ s) f (node a none alt null) alt (with_next a none alt (below null)) e
        (Keeps-next a s f alt null (below null) h tl (keeps null (inr refl) (IsFree-null s)))

  pub Keeps-first :
      (a : ℕ) → a ≢ nulltype_tag → Keeps IsLevel (a ∷ s) f null (with_next a none null (below null))
  Keeps-first a h = Keeps-new a null h tt (λ q. stored-new a q ∙ sym (stored-null q))

  Keeps-found :
      (a t : ℕ) (o : Option Token) (alt next : TypeNode)
      → a ≡ t
      → IsLevel (node t o alt next)
      → IsFree (a ∷ s) (node t o alt next)
      → Keeps IsLevel (a ∷ s) f (node t o alt next) (with_next t o alt (below next))
  Keeps-found a t o alt next e =
      subst
        (λ x.
          IsLevel (node x o alt next)
          → IsFree (a ∷ s) (node x o alt next)
          → Keeps IsLevel (a ∷ s) f (node x o alt next) (with_next x o alt (below next)))
        e
        (λ l free.
          let (p, h, tl, sub) = level_parts a o alt next l in
          let k =
            Keeps-next a s f alt next (below next) h tl
              (keeps next (inl sub) (IsFree-here a s o alt next free)) in
          rw p k)

  Keeps-beside :
      (a t : ℕ) (o : Option Token) (alt next : TypeNode) (r : Insertion)
      → IsLevel (node t o alt next)
      → t ≢ anytype_tag
      → (a == t) ≡ false
      → Keeps IsLevel (a ∷ s) f alt r
      → Keeps IsLevel (a ∷ s) f (node t o alt next) (with_alt t o next r)
  Keeps-beside a t o alt next r l b d k =
      let (p, h, tl, sub) = level_parts t o alt next l in
      rw p (Keeps-alt a t s f alt next r h b tl sub d k)

  Keeps-tail :
      (t : TypeNode)
      → IsLevel t
      → IsFree (anytype_tag ∷ s) t
      → Keeps IsLevel (anytype_tag ∷ s) f t (get_tail below t)
  unfolding get_tail
  Keeps-tail null l free = absurd l
  Keeps-tail (node t o null next) l free = elim (Bool-cases (t == anytype_tag)) [
    | inl e ↦ rw e (Keeps-found anytype_tag t o null next (ground (arith, e)) l free)
    | inr e ↦ rw e (
        Keeps-beside anytype_tag t o null next _ l (ground (arith, e)) (ground (arith, e))
          (Keeps-first anytype_tag (omega arith)))
  ]
  Keeps-tail (node t o (node t' o' a' n') next) (p, b, sub, l) free =
      let d : (anytype_tag == t) ≡ false = ground (arith, b) in
      Keeps-beside anytype_tag t o (node t' o' a' n') next _ (p, b, sub, l) b d
        (Keeps-tail (node t' o' a' n') l
          (IsFree-there anytype_tag t s o (node t' o' a' n') next d free))

  Keeps-specific :
      (a : ℕ)
      → a ≢ nulltype_tag
      → a ≢ anytype_tag
      → (t : TypeNode) → IsLevel t
      → IsFree (a ∷ s) t
      → Keeps IsLevel (a ∷ s) f t (get_specific a below t)
  unfolding get_specific
  Keeps-specific a h b null l free = absurd l
  Keeps-specific a h b (node t o null next) l free = elim (Bool-cases (t == a)) [
    | inl e ↦ rw e (Keeps-found a t o null next (ground (arith, e)) l free)
    | inr e ↦ elim (Bool-cases (t == anytype_tag)) [
      | inl e' ↦
          rw (e, e')
            (Keeps-new a (node t o null next) h (b, l)
              (stored_wildcard a t o next l (ground (arith, e))))
      | inr e' ↦
          rw (e, e')
            (Keeps-beside a t o null next _ l (ground (arith, e')) (ground (arith, e))
              (Keeps-first a h))
    ]
  ]
  Keeps-specific a h b (node t o (node t' o' a' n') next) l free = elim (Bool-cases (t == a)) [
    | inl e ↦ rw e (Keeps-found a t o (node t' o' a' n') next (ground (arith, e)) l free)
    | inr e ↦ rw e (
        let d : (a == t) ≡ false = ground (arith, e) in
        let (p, b', sub, l') = l in
        Keeps-beside a t o (node t' o' a' n') next _ l b' d (
          Keeps-specific a h b (node t' o' a' n') l'
            (IsFree-there a t s o (node t' o' a' n') next d free)))
  ]

  pub Keeps-alternative :
      (a : ℕ)
      → a ≢ nulltype_tag
      → (t : TypeNode) → IsLevel t
      → IsFree (a ∷ s) t
      → Keeps IsLevel (a ∷ s) f t (get_alternative a below t)
  unfolding get_alternative
  Keeps-alternative a h t l free = elim (Bool-cases (a == anytype_tag)) [
    | inl e ↦ rw e (
        let e' : anytype_tag ≡ a = ground (arith, e) in
        subst (λ x. Keeps IsLevel (x ∷ s) f t (get_tail below t)) e'
          (Keeps-tail t l (subst (λ x. IsFree (x ∷ s) t) (sym e') free)))
    | inr e ↦ rw e (Keeps-specific a h (ground (arith, e)) t l free)
  ]
