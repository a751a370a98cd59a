-- ===== src/Trie/Fits.antt =====
-- What lookup may return.
use sli.Prelude.{
  ℕ, ◌+◌, ◌≡◌, ◌≢◌, ◌⊎◌, inl, inr, refl, sym, ap, ◌∙◌, Bool, true, false, Option, none, some, List,
  [], ◌∷◌, ◌==◌, if◌then◌else◌, arith, Bool-cases, Option-cases,
}
use sli.Stack.Token.{Token}
use sli.Trie.TypeNode.{
  TypeNode, null, node, nulltype_tag, anytype_tag, bound, argument_type, trie_underflow, tag_of,
  is_unset, match_alternative, lookup_from, lookup_function,
}
use sli.Trie.Stored.{stored}
use sli.Trie.Laws.{stored_here, stored_there}
use sli.Trie.Match.{Fits, match_here, match_skip}

-- The node that the walk finds has the tag that is sought, or the wildcard, and is the first with its
-- tag.
abbrev Walked : ℕ → TypeNode → TypeNode → Type 0
Walked a t n =
    (b : ℕ) × ((b ≡ a) ⊎ (b ≡ anytype_tag)) × ((s : List ℕ) → stored (b ∷ s) t ≡ stored s n)

skip_unset :
    (b : Bool) (o : Option TypeNode) (n : TypeNode) → (if b then none else o) ≡ some n → o ≡ some n
skip_unset true o n h = absurd (cc h)
skip_unset false o n h = h

match_alternative-Walked : (a : ℕ) (t n : TypeNode) → match_alternative a t ≡ some n → Walked a t n
match_alternative-Walked a null n h = absurd (unfold match_alternative in cc h)
match_alternative-Walked a (node t o alt next) n h = elim (Bool-cases (t == a)) [
  | inl e ↦
      let t-a : t ≡ a = ground (arith, e) in
      let w = match_here a t o alt next (inl t-a) in
      let e' : next ≡ n = cc (w, h) in
      (t, inl t-a, λ s. stored_here t s o alt next ∙ ap (stored s) e')
  | inr e ↦ elim (Bool-cases (t == anytype_tag)) [
    | inl c ↦
        let t-any : t ≡ anytype_tag = ground (arith, c) in
        let w = match_here a t o alt next (inr t-any) in
        let e' : next ≡ n = cc (w, h) in
        (t, inr t-any, λ s. stored_here t s o alt next ∙ ap (stored s) e')
    | inr c ↦
        let w = sym (match_skip a t o alt next e (ground (arith, c))) ∙ h in
        let (b, f, k) = match_alternative-Walked a alt n (skip_unset (is_unset alt) _ n w) in
        let d : (b == t) ≡ false = elim f [
          | inl p ↦ ground (arith, p, e)
          | inr p ↦ ground (arith, p, c)
        ] in
        (b, f, λ s. stored_there b t s o alt next d ∙ k s)
  ]
]

lookup_cases :
    (load level : ℕ) (x : Token) (st : List Token) (t : ℕ) (o : Option Token) (alt : TypeNode)
    (t' : ℕ) (o' : Option Token) (a' n' : TypeNode) (f : Token)
    → lookup_from load level (x ∷ st) (node t o alt (node t' o' a' n')) ≡ bound (some f)
    → (n : TypeNode) × (match_alternative (tag_of x.type) (node t o alt (node t' o' a' n'))
        ≡ some n)
      × (lookup_from load (level + 1) st n ≡ bound (some f))
unfolding lookup_from
lookup_cases load level x st t o alt t' o' a' n' f h = elim (Bool-cases (t == nulltype_tag)) [
  | inl e ↦ absurd (let w : argument_type level ≡ bound (some f) = rw e at h in cc w)
  | inr e ↦
      elim (Option-cases (match_alternative (tag_of x.type) (node t o alt (node t' o' a' n')))) [
        | inl m ↦ absurd (let w : argument_type level ≡ bound (some f) = rw (e, m) at h in cc w)
        | inr (n, m) ↦ (n, m, rw (e, m) at h)
      ]
]

lookup_end :
    (load level : ℕ) (st : List Token) (t : ℕ) (o : Option Token) (alt : TypeNode) (f : Token)
    → lookup_from load level st (node t o alt null) ≡ bound (some f)
    → o ≡ some f
unfolding lookup_from
lookup_end load level [] t o alt f h = cc h
lookup_end load level (x ∷ st) t o alt f h = cc h

lookup_short :
    (load level : ℕ) (t : ℕ) (o : Option Token) (alt : TypeNode) (t' : ℕ) (o' : Option Token)
    (a' n' : TypeNode) (f : Token)
    → lookup_from load level [] (node t o alt (node t' o' a' n')) ≢ bound (some f)
unfolding lookup_from
lookup_short load level t o alt t' o' a' n' f h = elim (Bool-cases (t == nulltype_tag)) [
  | inl e ↦ let w : argument_type level ≡ bound (some f) = rw e at h in cc w
  | inr e ↦ let w : trie_underflow (level + 1) load ≡ bound (some f) = rw e at h in cc w
]

stored_end : (t : ℕ) (o : Option Token) (alt : TypeNode) → stored [] (node t o alt null) ≡ o
unfolding stored
stored_end t o alt = refl

lookup_from-Fits :
    (load level : ℕ) (st : List Token) (f : Token) (t : TypeNode)
    → lookup_from load level st t ≡ bound (some f)
    → (s : List ℕ) × (stored s t ≡ some f) × Fits s st
lookup_from-Fits load level st f null h = absurd (unfold lookup_from in cc h)
lookup_from-Fits load level st f (node t o alt null) h =
    ([], stored_end t o alt ∙ lookup_end load level st t o alt f h, tt)
lookup_from-Fits load level [] f (node t o alt (node t' o' a' n')) h =
    absurd (lookup_short load level t o alt t' o' a' n' f h)
lookup_from-Fits load level (x ∷ st) f (node t o alt (node t' o' a' n')) h =
    let (n, m, r) = lookup_cases load level x st t o alt t' o' a' n' f h in
    let (b, w, k) =
      match_alternative-Walked (tag_of x.type) (node t o alt (node t' o' a' n')) n m in
    let (s, e, fits) = lookup_from-Fits load (level + 1) st f n r in (b ∷ s, k s ∙ e, (w, fits))

-- A function that lookup returns, from any trie, is one that is stored for a signature which fits the
-- operand stack: there is a token for each tag, and the tag is that of its type or the wildcard.
pub lookup_function-Fits :
    (st : List Token) (f : Token) (t : TypeNode)
    → lookup_function st t ≡ bound (some f)
    → (s : List ℕ) × (stored s t ≡ some f) × Fits s st
unfolding lookup_function
lookup_function-Fits st f t h = lookup_from-Fits _ 0 st f t h
