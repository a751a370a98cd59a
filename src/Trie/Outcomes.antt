-- ===== src/Trie/Outcomes.antt =====
-- Each outcome of lookup.
use mathlib.Core.Path.{subst}
use sli.Prelude.{
  ℕ, ◌+◌, ◌≤◌, ◌<◌, ◌≡◌, ◌≢◌, inl, inr, refl, sym, ap, ◌∙◌, false, ◌||◌, Option, none, some, List,
  [], ◌∷◌, ◌==◌, arith, Bool-cases, Option-cases, length,
}
use sli.Stack.Token.{Token}
use sli.Trie.TypeNode.{
  TypeNode, null, node, nulltype_tag, anytype_tag, Match, bound, argument_type, trie_underflow,
  null_pointer, tag_of, is_unset, match_alternative, lookup_from, lookup_function,
}
use sli.Trie.Stored.{IsLevel}
use sli.Trie.Laws.{IsSub, level_parts, leaf_parts}
use sli.Trie.Match.{lookup_step, level-unset, lookup-leaf}

-- A function, a type error at a level that the stack has, or the underflow at its bottom, with what
-- was there and one token more.
abbrev pub IsOutcome : ℕ → ℕ → Match → Type 0
IsOutcome load level (bound none) = ⊥
IsOutcome load level (bound (some f)) = Unit {0}
IsOutcome load level (argument_type m) = (level ≤ m) × (m < load)
IsOutcome load level (trie_underflow wanted had) = (wanted ≡ load + 1) × (had ≡ load)
IsOutcome load level null_pointer = ⊥

match_alternative-IsSub :
    (a : ℕ) (t n : TypeNode) → IsLevel t → match_alternative a t ≡ some n → IsSub n
unfolding match_alternative is_unset
match_alternative-IsSub a null n l h = absurd l
match_alternative-IsSub a (node t o null next) n (_, sub) h =
    elim (Bool-cases (t == a || t == anytype_tag)) [
      | inl e ↦ let w : some next ≡ some n = rw e at h in subst IsSub (cc w) sub
      | inr e ↦ absurd (let w : none ≡ some n = rw e at h in cc w)
    ]
match_alternative-IsSub a (node t o (node t' o' a' n') next) n (_, _, sub, l) h =
    elim (Bool-cases (t == a || t == anytype_tag)) [
      | inl e ↦ let w : some next ≡ some n = rw e at h in subst IsSub (cc w) sub
      | inr e ↦
          match_alternative-IsSub a (node t' o' a' n') n l
            (rw (e, level-unset (node t' o' a' n') l) at h)
    ]

IsOutcome-earlier :
    (load level : ℕ) (m : Match) → IsOutcome load (level + 1) m → IsOutcome load level m
IsOutcome-earlier load level (bound none) h = h
IsOutcome-earlier load level (bound (some f)) h = h
IsOutcome-earlier load level (argument_type m) (h, k) = (omega (arith, h), k)
IsOutcome-earlier load level (trie_underflow w m) h = h
IsOutcome-earlier load level null_pointer h = h

lookup-short :
    (load level : ℕ) (t : ℕ) (o : Option Token) (alt next : TypeNode)
    → t ≢ nulltype_tag
    → IsSub next
    → lookup_from load level [] (node t o alt next) ≡ trie_underflow (level + 1) load
unfolding lookup_from
lookup-short load level t o alt null h (inl s) = absurd s
lookup-short load level t o alt null h (inr s) = absurd s
lookup-short load level t o alt (node t' o' a' n') h s =
    let e : (t == nulltype_tag) ≡ false = ground (arith, h) in rw e refl

lookup_unmatched :
    (load level : ℕ) (x : Token) (st : List Token) (t : ℕ) (o : Option Token) (alt next : TypeNode)
    → t ≢ nulltype_tag
    → IsSub next
    → match_alternative (tag_of x.type) (node t o alt next) ≡ none
    → lookup_from load level (x ∷ st) (node t o alt next) ≡ argument_type level
unfolding lookup_from
lookup_unmatched load level x st t o alt null h (inl s) m = absurd s
lookup_unmatched load level x st t o alt null h (inr s) m = absurd s
lookup_unmatched load level x st t o alt (node t' o' a' n') h s m =
    let e : (t == nulltype_tag) ≡ false = ground (arith, h) in rw (e, m) refl

lookup_from-IsOutcome :
    (load level : ℕ) (st : List Token) (t : TypeNode)
    → level + length st ≡ load
    → IsSub t
    → IsOutcome load level (lookup_from load level st t)
lookup_from-IsOutcome load level st t e (inl l) =
    let (g, w) = leaf_parts t l in
    subst (λ m. IsOutcome load level m)
      (sym (ap (lookup_from load level st) w ∙ lookup-leaf load level st g)) tt
lookup_from-IsOutcome load level st null e (inr l) = absurd l
lookup_from-IsOutcome load level [] (node t o alt next) e (inr l) =
    let (_, h, _, sub) = level_parts t o alt next l in
    rw (lookup-short load level t o alt next h sub) (omega (arith, e), refl)
lookup_from-IsOutcome load level (x ∷ st) (node t o alt next) e (inr l) =
    let (_, h, _, sub) = level_parts t o alt next l in
    elim (Option-cases (match_alternative (tag_of x.type) (node t o alt next))) [
      | inl m ↦ rw (lookup_unmatched load level x st t o alt next h sub m) (omega (arith, e))
      | inr (n, m) ↦
          let s = match_alternative-IsSub (tag_of x.type) (node t o alt next) n l m in
          rw (lookup_step load level x st t o alt next n h sub m) (
            IsOutcome-earlier load level _
              (lookup_from-IsOutcome load (level + 1) st n (omega (arith, e)) s))
    ]

-- On a trie of levels or a leaf, lookup returns a function that is set, or throws `ArgumentType` with
-- a level that the stack has, or throws `StackUnderflow` that wants one token more than the stack has
-- and tells what it has; it never follows a NULL pointer and never returns an unset function.
pub lookup_function-IsOutcome :
    (st : List Token) (t : TypeNode) → IsSub t → IsOutcome (length st) 0 (lookup_function st t)
unfolding lookup_function
lookup_function-IsOutcome st t s = lookup_from-IsOutcome (length st) 0 st t (omega arith) s
