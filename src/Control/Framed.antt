-- ===== src/Control/Framed.antt =====
-- What the loop operators do to the execution stack: the rules for `Frames`, a predicate on effects.
use mathlib.Core.Path.{subst}
use sli.Prelude.{
  ℕ, ◌≡◌, refl, Bool, true, false, some, List, [], ◌∷◌, ◌++◌, length, drop, ltb, ◌==◌, arith,
  Bool-cases, Option-cases, get_elem?, if◌then◌else◌, inl, inr,
}
use sli.Prelude.Int.{ℤ}
use sli.Stack.Token.{SliTypeid, Token}
use sli.Trie.TypeNode.{tag_of}
use sli.Control.Interp.{
  Interp, Effect, finished, raising, thrown, broken, Exception, is_of_type, marker, integer_token,
  require_load, require_type, at_pick, pop_operands,
}
use sli.Control.Shapes.{IsFrame}
use sli.Control.Stops.{Fails}

abbrev pub is_mark : Token → Bool
is_mark x = is_of_type SliTypeid.marktype x

-- The execution stack is the old one with a frame on it, which has the marker on its top, the slots of
-- such a loop below, and its only mark at its bottom; and `n` operands are gone.
abbrev pub Framed : ℕ → Token → SliTypeid → Interp → Interp → Type 0
Framed n top kind i j =
    (slots : List Token) × (m : Token) × (j.estack ≡ (top ∷ slots) ++ m ∷ i.estack)
    × IsFrame kind (slots ++ m ∷ [])
    × Fails is_mark (top ∷ slots)
    × (is_mark m ≡ true)
    × (j.ostack ≡ drop n i.ostack)

abbrev pub Frames : ℕ → Token → SliTypeid → Interp → Effect → Type 0
Frames n top kind i (finished j) = Framed n top kind i j
Frames n top kind i (raising e j) = Unit {0}
Frames n top kind i (thrown e j) = Unit {0}
Frames n top kind i broken = Unit {0}

module _ (n : ℕ) (top : Token) (kind : SliTypeid) (i : Interp) where
  pub require_load-Frames :
      (k : ℕ) (rest : Effect)
      → Frames n top kind i rest
      → Frames n top kind i (require_load k i rest)
  unfolding require_load
  require_load-Frames k rest h = elim (Bool-cases (ltb (length i.ostack) k)) [
    | inl e ↦ rw e tt
    | inr e ↦ rw e h
  ]

  pub at_pick-Frames :
      (k : ℕ) (rest : Token → Effect)
      → ((x : Token) → get_elem? i.ostack k ≡ some x → Frames n top kind i (rest x))
      → Frames n top kind i (at_pick k i rest)
  unfolding at_pick
  at_pick-Frames k rest h = elim (Option-cases (get_elem? i.ostack k)) [
    | inl e ↦ rw e tt
    | inr (x, e) ↦ rw e (h x e)
  ]

  -- A token at a place whose type has been tested.
  abbrev pub Typed : ℕ → SliTypeid → Type 0
  Typed k t = (x : Token) → get_elem? i.ostack k ≡ some x → is_of_type t x ≡ true

  pub require_type-Frames :
      (k : ℕ) (t : SliTypeid) (rest : Effect)
      → (Typed k t → Frames n top kind i rest)
      → Frames n top kind i (require_type k t i rest)
  unfolding require_type
  require_type-Frames k t rest h =
      at_pick-Frames k (λ x. if is_of_type t x then rest else thrown Exception.type_exception i)
        (λ x p. elim (Bool-cases (is_of_type t x)) [
          | inl e ↦
              rw e (h (λ y q. let w : x ≡ y = cc (p, q) in subst (λ z. is_of_type t z ≡ true) w e))
          | inr e ↦ rw e tt
        ])

  pub pop_operands-Frames :
      (slots : List Token) (m : Token)
      → IsFrame kind (slots ++ m ∷ [])
      → Fails is_mark (top ∷ slots)
      → is_mark m ≡ true
      → Frames n top kind i (pop_operands n ((top ∷ slots) ++ m ∷ i.estack) i)
  unfolding pop_operands
  pop_operands-Frames slots m shape h hm = elim (Bool-cases (ltb (length i.ostack) n)) [
    | inl e ↦ rw e tt
    | inr e ↦ rw e (slots, m, refl, shape, h, hm, refl)
  ]

pub Fails-append :
    (test : Token → Bool) (xs ys : List Token)
    → Fails test xs
    → Fails test ys
    → Fails test (xs ++ ys)
Fails-append test [] ys h k = k
Fails-append test (x ∷ xs) ys (e, h) k = (e, Fails-append test xs ys h k)

abbrev pub IsOther : SliTypeid → Type 0
IsOther t = (tag_of t == tag_of SliTypeid.marktype) ≡ false

pub other_type : (t : SliTypeid) (x : Token) → IsOther t → is_of_type t x ≡ true → is_mark x ≡ false
unfolding is_of_type
other_type t x d h = ground (arith, d, h)

pub marker-other : (t : SliTypeid) → IsOther t → is_mark (marker t) ≡ false
unfolding is_of_type
marker-other t d = d

pub mark-is_mark : is_mark (marker SliTypeid.marktype) ≡ true
unfolding is_of_type
mark-is_mark = ground arith

pub IsOther-procedure : IsOther SliTypeid.proceduretype
unfolding tag_of
IsOther-procedure = refl

pub IsOther-integer : IsOther SliTypeid.integertype
unfolding tag_of
IsOther-integer = refl

pub IsOther-array : IsOther SliTypeid.arraytype
unfolding tag_of
IsOther-array = refl

pub IsOther-string : IsOther SliTypeid.stringtype
unfolding tag_of
IsOther-string = refl

pub integer-not_mark : (n : ℤ) → is_mark (integer_token n) ≡ false
unfolding is_of_type
integer-not_mark n = IsOther-integer
