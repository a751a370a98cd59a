-- ===== src/Trie/Match.antt =====
-- Lookup in a trie, against the map from signatures to functions.
use mathlib.Core.Path.{subst}
use sli.Prelude.{
  ℕ, ◌+◌, ◌≡◌, ◌≢◌, ◌⊎◌, inl, inr, refl, sym, ap, ◌∙◌, true, false, Option, none, some, List, [],
  ◌∷◌, ◌++◌, ◌==◌, if◌then◌else◌, arith, Bool-cases,
}
use sli.Stack.Token.{Token}
use sli.Trie.TypeNode.{
  TypeNode, null, node, nulltype_tag, anytype_tag, bound, tag_of, is_unset, match_alternative,
  lookup_from, lookup_function,
}
use sli.Trie.Stored.{stored, IsLevel, IsTrie}
use sli.Trie.Laws.{
  IsSub, level_parts, stored_here, stored_there, stored-null, stored-new, level-nil, leaf_parts,
  stored-leaf,
}

-- The tags of the topmost tokens.
abbrev pub tags : List Token → List ℕ
tags [] = []
tags (x ∷ xs) = tag_of x.type ∷ tags xs

-- Tags of values: neither that of no type nor the wildcard.
abbrev pub AreValues : List Token → Type 0
AreValues [] = Unit {0}
AreValues (x ∷ xs) = (tag_of x.type ≢ nulltype_tag) × (tag_of x.type ≢ anytype_tag) × AreValues xs

-- The signature fits the tokens from the top of the stack on.
abbrev pub Fits : List ℕ → List Token → Type 0
Fits [] st = Unit {0}
Fits (a ∷ s) [] = ⊥
Fits (a ∷ s) (x ∷ st) = ((a ≡ tag_of x.type) ⊎ (a ≡ anytype_tag)) × Fits s st

abbrev Leads : ℕ → List ℕ → Token → TypeNode → Type 0
Leads a s f t = (n : TypeNode) × (match_alternative a t ≡ some n) × IsSub n × (stored s n ≡ some f)

stored_past :
    (a t : ℕ) (s : List ℕ) (o : Option Token) (f : Token) (next : TypeNode)
    → (a == t) ≡ false
    → stored (a ∷ s) (node t o null next) ≢ some f
stored_past a t s o f next e h =
    let w = stored_there a t s o null next e in let v = stored-null (a ∷ s) in cc (w, v, h)

leads_here :
    (a t : ℕ) (s : List ℕ) (o : Option Token) (f : Token) (alt next : TypeNode)
    → a ≡ t
    → stored (a ∷ s) (node t o alt next) ≡ some f
    → stored s next ≡ some f
leads_here a t s o f alt next e h =
    let w = stored_here t s o alt next in
    let h' = subst (λ x. stored (x ∷ s) (node t o alt next) ≡ some f) e h in sym w ∙ h'

pub match_here :
    (a t : ℕ) (o : Option Token) (alt next : TypeNode)
    → (t ≡ a) ⊎ (t ≡ anytype_tag)
    → match_alternative a (node t o alt next) ≡ some next
unfolding match_alternative
match_here a t o alt next (inl h) = let e : (t == a) ≡ true = ground (arith, h) in rw e refl
match_here a t o alt next (inr h) = elim (Bool-cases (t == a)) [
  | inl e ↦ rw e refl
  | inr e ↦ let d : (t == anytype_tag) ≡ true = ground (arith, h) in rw (e, d) refl
]

pub match_skip :
    (a t : ℕ) (o : Option Token) (alt next : TypeNode)
    → (t == a) ≡ false
    → t ≢ anytype_tag
    → match_alternative a (node t o alt next)
      ≡ (if is_unset alt then none else match_alternative a alt)
unfolding match_alternative
match_skip a t o alt next e h =
    let d : (t == anytype_tag) ≡ false = ground (arith, h) in rw (e, d) refl

pub level-unset : (t : TypeNode) → IsLevel t → is_unset t ≡ false
unfolding is_unset
level-unset null l = absurd l
level-unset (node t o a n) l = let (_, h, _, _) = level_parts t o a n l in ground (arith, h)

-- The walk finds the alternative of a tag that has functions below it.
match_alternative-stored :
    (a : ℕ) (s : List ℕ) (f : Token) (t : TypeNode)
    → a ≢ anytype_tag
    → IsLevel t
    → stored (a ∷ s) t ≡ some f
    → Leads a s f t
match_alternative-stored a s f null ha l h = absurd l
match_alternative-stored a s f (node t o null next) ha (_, sub) h = elim (Bool-cases (t == a)) [
  | inl e ↦
      let t-a : t ≡ a = ground (arith, e) in
      (next, match_here a t o null next (inl t-a), sub, leads_here a t s o f null next (sym t-a) h)
  | inr e ↦ absurd (stored_past a t s o f next (ground (arith, e)) h)
]
match_alternative-stored a s f (node t o (node t' o' a' n') next) ha (_, b, sub, l) h =
    let alt = node t' o' a' n' in
    elim (Bool-cases (t == a)) [
      | inl e ↦
          let t-a : t ≡ a = ground (arith, e) in
          (
            next,
            match_here a t o alt next (inl t-a),
            sub,
            leads_here a t s o f alt next (sym t-a) h,
          )
      | inr e ↦
          let d : (a == t) ≡ false = ground (arith, e) in
          let w = sym (stored_there a t s o alt next d) ∙ h in
          let (n, m, r, v) = match_alternative-stored a s f (node t' o' a' n') ha l w in
          let u = level-unset (node t' o' a' n') l in
          (n, match_skip a t o alt next e b ∙ rw u m, r, v)
    ]

pub lookup_step :
    (load level : ℕ) (x : Token) (st : List Token) (t : ℕ) (o : Option Token)
    (alt next n : TypeNode)
    → t ≢ nulltype_tag
    → IsSub next
    → match_alternative (tag_of x.type) (node t o alt next) ≡ some n
    → lookup_from load level (x ∷ st) (node t o alt next) ≡ lookup_from load (level + 1) st n
unfolding lookup_from
lookup_step load level x st t o alt null n h (inl s) m = absurd s
lookup_step load level x st t o alt null n h (inr s) m = absurd s
lookup_step load level x st t o alt (node t' o' a' n') n h s m =
    let e : (t == nulltype_tag) ≡ false = ground (arith, h) in rw (e, m) refl

pub lookup-leaf :
    (load level : ℕ) (st : List Token) (f : Token)
    → lookup_from load level st (node nulltype_tag (some f) null null) ≡ bound (some f)
unfolding lookup_from
lookup-leaf load level [] f = refl
lookup-leaf load level (x ∷ st) f = refl

lookup_from-stored :
    (load level : ℕ) (xs st : List Token) (f : Token) (t : TypeNode)
    → AreValues xs
    → IsSub t
    → stored (tags xs) t ≡ some f
    → lookup_from load level (xs ++ st) t ≡ bound (some f)
lookup_from-stored load level [] st f t hx (inl l) h =
    let (g, w) = leaf_parts t l in
    let v = sym h ∙ ap (stored []) w ∙ stored-leaf g in
    ap (lookup_from load level st) w ∙ lookup-leaf load level st g ∙ ap bound (sym v)
lookup_from-stored load level [] st f t hx (inr l) h = absurd (let w = level-nil t l in cc (w, h))
lookup_from-stored load level (x ∷ xs) st f t (h0, h1, hx) (inl l) h =
    let (g, w) = leaf_parts t l in
    let d : (tag_of x.type == nulltype_tag) ≡ false = ground (arith, h0) in
    let v = ap (stored (tags (x ∷ xs))) w in
    absurd (stored_past (tag_of x.type) nulltype_tag (tags xs) (some g) f null d (sym v ∙ h))
lookup_from-stored load level (x ∷ xs) st f null (h0, h1, hx) (inr l) h = absurd l
lookup_from-stored load level (x ∷ xs) st f (node t o alt next) (h0, h1, hx) (inr l) h =
    let (_, ht, _, sub) = level_parts t o alt next l in
    let (n, m, s, e) =
      match_alternative-stored (tag_of x.type) (tags xs) f (node t o alt next) h1 l h in
    lookup_step load level x (xs ++ st) t o alt next n ht sub m
    ∙ lookup_from-stored load (level + 1) xs st f n hx s e

-- When the tags of the topmost tokens, none of them the wildcard, have a function in a trie, lookup
-- returns that function, whatever lies below them and whatever wildcards the trie has.
pub lookup_function-stored :
    (xs st : List Token) (f : Token) (t : TypeNode)
    → AreValues xs
    → IsTrie t
    → stored (tags xs) t ≡ some f
    → lookup_function (xs ++ st) t ≡ bound (some f)
unfolding lookup_function
lookup_function-stored xs st f t hx (inl s) h = lookup_from-stored _ 0 xs st f t hx s h
lookup_function-stored xs st f t hx (inr e) h =
    absurd
      (let w = ap (stored (tags xs)) e in let v = stored-new nulltype_tag (tags xs) in cc (w, v, h))
