-- ===== src/Trie/Keeps.antt =====
-- What an insertion into a trie keeps, against the map from signatures to functions.
use mathlib.Core.Path.{subst}
use sli.Prelude.{
  ℕ, ◌≡◌, ◌≢◌, inl, inr, refl, sym, ap, ◌∙◌, true, false, Option, none, some, List, [], ◌∷◌, ◌++◌,
  ◌==◌, if◌then◌else◌, arith, Bool-cases,
}
use sli.Stack.Token.{Token}
use sli.Names.Table.{same_text}
use sli.Trie.TypeNode.{
  TypeNode, null, node, nulltype_tag, anytype_tag, Insertion, inserted, ambiguous, with_next,
  with_alt,
}
use sli.Trie.Stored.{stored, IsLevel}
use sli.Trie.Laws.{IsSub, IsTail, make-IsLevel, stored_here, stored_there, stored_nil, tail-nil}

-- The map with one more function.
abbrev pub with_function : List ℕ → Token → TypeNode → List ℕ → Option Token
with_function s f t q = if same_text q s then some f else stored q t

-- What an insertion promises.
abbrev pub Keeps : (TypeNode → Type 0) → List ℕ → Token → TypeNode → Insertion → Type 0
Keeps P s f t (inserted t') = P t' × ((q : List ℕ) → stored q t' ≡ with_function s f t q)
Keeps P s f t (ambiguous m) =
    (p : List ℕ) × (q : List ℕ) × (g : Token) × (s ≡ p ++ q) × (stored p t ≡ some g)

-- No signature that is longer than `s` and begins with it is stored.
abbrev pub IsFree : List ℕ → TypeNode → Type 0
IsFree s t = (x : ℕ) (u : List ℕ) → stored (s ++ x ∷ u) t ≡ none

-- An insertion below a node.
pub stored-below :
    (a : ℕ) (s : List ℕ) (f : Token) (alt next n : TypeNode)
    → ((q : List ℕ) → stored q n ≡ with_function s f next q)
    → (q : List ℕ) → stored q (node a none alt n) ≡ with_function (a ∷ s) f (node a none alt next) q
unfolding same_text
stored-below a s f alt next n e [] = stored_nil a alt n ∙ sym (stored_nil a alt next)
stored-below a s f alt next n e (b ∷ q) = elim (Bool-cases (b == a)) [
  | inl p ↦
      let a-b : a ≡ b = ground (arith, p) in
      let same : (a == a) ≡ true = ground arith in
      subst
        (λ x.
          stored (x ∷ q) (node a none alt n)
          ≡ with_function (a ∷ s) f (node a none alt next) (x ∷ q))
        a-b (rw (stored_here a q none alt n, stored_here a q none alt next, same) (e q))
  | inr p ↦ rw (stored_there b a q none alt n p, stored_there b a q none alt next p, p) refl
]

pub Keeps-next :
    (a : ℕ) (s : List ℕ) (f : Token) (alt next : TypeNode) (r : Insertion)
    → a ≢ nulltype_tag
    → IsTail a alt
    → Keeps IsSub s f next r
    → Keeps IsLevel (a ∷ s) f (node a none alt next) (with_next a none alt r)
Keeps-next a s f alt next (inserted n) h tl (sub, e) =
    (make-IsLevel a alt n h tl sub, stored-below a s f alt next n e)
Keeps-next a s f alt next (ambiguous m) h tl (p, q, g, e, w) =
    (a ∷ p, q, g, ap (λ x. a ∷ x) e, stored_here a p none alt next ∙ w)

-- An insertion among the alternatives of a node.
pub stored-beside :
    (a t : ℕ) (s : List ℕ) (f : Token) (alt next n : TypeNode)
    → (a == t) ≡ false
    → ((q : List ℕ) → stored q n ≡ with_function (a ∷ s) f alt q)
    → (q : List ℕ)
    → stored q (node t none n next) ≡ with_function (a ∷ s) f (node t none alt next) q
unfolding same_text
stored-beside a t s f alt next n d e [] = stored_nil t n next ∙ sym (stored_nil t alt next)
stored-beside a t s f alt next n d e (c ∷ q) = elim (Bool-cases (c == t)) [
  | inl p ↦
      let t-c : t ≡ c = ground (arith, p) in
      let other : (t == a) ≡ false = ground (arith, d) in
      subst
        (λ x.
          stored (x ∷ q) (node t none n next)
          ≡ with_function (a ∷ s) f (node t none alt next) (x ∷ q))
        t-c (rw (stored_here t q none n next, stored_here t q none alt next, other) refl)
  | inr p ↦ rw (stored_there c t q none n next p, stored_there c t q none alt next p) (e (c ∷ q))
]

pub Keeps-alt :
    (a t : ℕ) (s : List ℕ) (f : Token) (alt next : TypeNode) (r : Insertion)
    → t ≢ nulltype_tag
    → t ≢ anytype_tag
    → IsTail t alt
    → IsSub next
    → (a == t) ≡ false
    → Keeps IsLevel (a ∷ s) f alt r
    → Keeps IsLevel (a ∷ s) f (node t none alt next) (with_alt t none next r)
Keeps-alt a t s f alt next (inserted null) h b tl sub d (l, e) = absurd l
Keeps-alt a t s f alt next (inserted (node t' f' a' n')) h b tl sub d (l, e) = (
  make-IsLevel t (node t' f' a' n') next h (b, l) sub,
  stored-beside a t s f alt next (node t' f' a' n') d e,
)
Keeps-alt a t s f alt next (ambiguous m) h b tl sub d ([], q, g, e, w) =
    absurd (let x = tail-nil t alt tl in cc (x, w))
Keeps-alt a t s f alt next (ambiguous m) h b tl sub d (c ∷ p, q, g, e, w) =
    let c-a : a ≡ c = cc e in
    let d' : (c == t) ≡ false = subst (λ x. (x == t) ≡ false) c-a d in
    (c ∷ p, q, g, e, stored_there c t p none alt next d' ∙ w)

-- Only the map of a trie matters.
pub Keeps-same :
    (P : TypeNode → Type 0) (s : List ℕ) (f : Token) (t u : TypeNode) (r : Insertion)
    → ((q : List ℕ) → stored q t ≡ stored q u)
    → Keeps P s f t r
    → Keeps P s f u r
Keeps-same P s f t u (inserted n) e (p, w) =
    (p, λ q. w q ∙ ap (λ x. if same_text q s then some f else x) (e q))
Keeps-same P s f t u (ambiguous m) e (p, q, g, d, w) = (p, q, g, d, sym (e p) ∙ w)

-- The tags of a signature, none of which is that of no type.
abbrev pub IsSignature : List ℕ → Type 0
IsSignature [] = Unit {0}
IsSignature (a ∷ s) = (a ≢ nulltype_tag) × IsSignature s
