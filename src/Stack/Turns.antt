-- ===== src/Stack/Turns.antt =====
-- Turning the upper part of a stack: what `rotate` does, one place after the other.
use sli.Prelude.{
  ℕ, zero, suc, ◌-◌, ◌≤◌, ◌<◌, ◌%◌, Bool-cases, inl, inr, ltb, ltb→lt, length-append, ◌≡◌, refl, ap,
  sym, ◌∙◌, true, some, List, [], ◌∷◌, ◌++◌, arith, leb, length, take, drop, append_assoc,
  append-nil, length-take, take-append-drop,
}
use native.Mathlib.Nat.{zero-mod, suc-mod, mod-lt, mod-eq_of_lt, mod_self}
use sli.Stack.TokenStack.{rotate}

module _ {ℓ} {A : Type ℓ} where
  -- A list whose first `m` elements go behind the others.
  abbrev pub turn : ℕ → List A → List A
  turn m xs = drop m xs ++ take m xs

  -- The first of the topmost `n` elements goes below the others: one shift of `roll`.
  abbrev pub shift : ℕ → List A → List A
  shift n [] = []
  shift n (x ∷ st) = take (n - 1) st ++ x ∷ drop (n - 1) st

  abbrev pub shifts : ℕ → ℕ → List A → List A
  shifts n zero st = st
  shifts n (suc k) st = shift n (shifts n k st)

  drop-lt :
      (m : ℕ) (xs : List A)
      → m < length xs
      → (x : A) × (drop m xs ≡ x ∷ drop (suc m) xs) × (take (suc m) xs ≡ take m xs ++ x ∷ [])
  drop-lt m [] h = absurd (omega (arith, h))
  drop-lt zero (x ∷ xs) h = (x, refl, refl)
  drop-lt (suc m) (x ∷ xs) h =
      let (y, p, q) = drop-lt m xs (omega (arith, h)) in (y, p, ap (λ z. x ∷ z) q)

  -- One more place.
  pub turn-turn_one : (m : ℕ) (xs : List A) → m < length xs → turn 1 (turn m xs) ≡ turn (suc m) xs
  turn-turn_one m xs h =
      let (x, p, q) = drop-lt m xs h in
      rw (p, q) (append_assoc (drop (suc m) xs) (take m xs) (x ∷ []))

  pub drop_all : (xs : List A) → drop (length xs) xs ≡ []
  drop_all [] = refl
  drop_all (x ∷ xs) = drop_all xs

  take_all : (xs : List A) → take (length xs) xs ≡ xs
  take_all [] = refl
  take_all (x ∷ xs) = ap (λ z. x ∷ z) (take_all xs)

  -- A full turn.
  pub turn-length : (xs : List A) → turn (length xs) xs ≡ xs
  turn-length xs = rw (drop_all xs, take_all xs)

  pub drop-append : (xs ys : List A) → drop (length xs) (xs ++ ys) ≡ ys
  drop-append [] ys = refl
  drop-append (x ∷ xs) ys = drop-append xs ys

  pub take-append : (xs ys : List A) → take (length xs) (xs ++ ys) ≡ xs
  take-append [] ys = refl
  take-append (x ∷ xs) ys = ap (λ z. x ∷ z) (take-append xs ys)

  -- The topmost `n` elements turned, on a stack that has as many.
  abbrev pub turned : ℕ → ℕ → List A → List A
  turned n m st = turn m (take n st) ++ drop n st

  pub rotate-turned :
      (n m : ℕ) (st : List A) → n ≤ length st → m ≤ n → rotate n m st ≡ some (turned n m st)
  unfolding rotate
  rotate-turned n m st h k =
      let p : leb n (length st) ≡ true = ground (arith, h) in
      let q : leb m n ≡ true = ground (arith, k) in rw (p, q)

  pub shift-append :
      (xs ys : List A) (n : ℕ) → length xs ≡ n → 0 < n → shift n (xs ++ ys) ≡ turn 1 xs ++ ys
  shift-append [] ys n e h = absurd (omega arith)
  shift-append (x ∷ xs) ys n e h =
      let k : n - 1 ≡ length xs = omega (arith, e) in
      rw (k, take-append xs ys, drop-append xs ys) (sym (append_assoc xs (x ∷ []) ys))

  pub length-turn : (m : ℕ) (xs : List A) → length (turn m xs) ≡ length xs
  length-turn m xs = omega (
    arith,
    length-append (drop m xs) (take m xs),
    length-append (take m xs) (drop m xs),
    ap length (take-append-drop m xs),
  )

  pub turned-zero : (n : ℕ) (st : List A) → turned n 0 st ≡ st
  turned-zero n st = rw append-nil (take-append-drop n st)

  turned_self : (n : ℕ) (st : List A) → n ≤ length st → turned n n st ≡ st
  turned_self n st h =
      let e : length (take n st) ≡ n = omega (arith, length-take n st) in
      ap (λ x. turn x (take n st) ++ drop n st) (sym e)
      ∙ ap (λ x. x ++ drop n st) (turn-length (take n st))
      ∙ take-append-drop n st

  shift-turned :
      (n m : ℕ) (st : List A)
      → n ≤ length st
      → m < n
      → shift n (turned n m st) ≡ turned n (suc m) st
  shift-turned n m st h k =
      let e : length (take n st) ≡ n = omega (arith, length-take n st) in
      shift-append (turn m (take n st)) (drop n st) n (length-turn m (take n st) ∙ e)
        (omega (arith, k))
      ∙ ap (λ x. x ++ drop n st) (turn-turn_one m (take n st) (omega (arith, e, k)))

  -- Single shifts turn the topmost elements, by their number modulo the number of these.
  pub shifts-turned :
      (n k : ℕ) (st : List A) → 0 < n → n ≤ length st → shifts n k st ≡ turned n (k % n) st
  shifts-turned n zero st p h = sym (ap (λ x. turned n x st) (zero-mod n) ∙ turned-zero n st)
  shifts-turned n (suc k) st p h =
      ap (shift n) (shifts-turned n k st p h)
      ∙ shift-turned n (k % n) st h (mod-lt k p)
      ∙ elim (Bool-cases (ltb (suc (k % n)) n)) [
        | inl lt ↦
            ap (λ x. turned n x st) (sym (suc-mod k n ∙ mod-eq_of_lt (ltb→lt (suc (k % n)) n lt)))
        | inr ge ↦
            let e : suc (k % n) ≡ n = ground (arith, ge, mod-lt k p) in
            ap (λ x. turned n x st) e
            ∙ turned_self n st h
            ∙ sym (turned-zero n st)
            ∙ ap (λ x. turned n x st) (sym (suc-mod k n ∙ ap (λ x. x % n) e ∙ mod_self n))
      ]

  pub length-turned : (n m : ℕ) (st : List A) → length (turned n m st) ≡ length st
  length-turned n m st = omega (
    arith,
    length-append (turn m (take n st)) (drop n st),
    length-turn m (take n st),
    length-append (take n st) (drop n st),
    ap length (take-append-drop n st),
  )
