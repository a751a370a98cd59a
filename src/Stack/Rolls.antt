-- ===== src/Stack/Rolls.antt =====
-- `roll`: a positive count as single shifts, a negative one as the way back, and what happens below
-- -n.
use sli.Prelude.{
  ℕ, zero, suc, ◌+◌, ◌-◌, ◌%◌, ◌≤◌, ◌<◌, ◌≡◌, refl, ap, sym, ◌∙◌, none, some, List, [], ◌∷◌, ◌++◌,
  arith, length, take, drop, length-take, length-drop, take-append-drop, Bool-cases, ltb, inl, inr,
  ◌⊎◌, ◌&&◌,
}
use sli.Prelude.Int.{ℤ, pos, negsuc}
use native.Mathlib.Nat.{mod-lt, mod-eq_of_lt, zero-mod, mod_self, add-mod_right}
use sli.Stack.Token.{SliTypeid, Token}
use sli.Stack.TokenStack.{pick, roll, offset, words}
use sli.Stack.Operators.{Machine, done, out_of_bounds, check_range, leaves, roll_by, roll_function}
use sli.Stack.Loads.{require_stack_load-le, pop_n-le}
use sli.Stack.Turns.{
  turn, shift, shifts, turned, turned-zero, shifts-turned, rotate-turned, drop-append, take-append,
  length-turned, length-turn,
}

offset-le : (n : ℕ) (k : ℤ) → 0 < n → offset n k ≤ n
unfolding offset
offset-le n (pos k) p = omega (arith, mod-lt k p)
offset-le n (negsuc k) p = omega (arith, mod-lt ((n + (words - suc k)) % words) p)

module _ {ℓ} {A : Type ℓ} where
  pub roll-turned :
      (n : ℕ) (k : ℤ) (st : List A)
      → 0 < n
      → n ≤ length st
      → roll n k st ≡ some (turned n (offset n k) st)
  unfolding roll
  roll-turned zero k st p h = absurd (omega arith)
  roll-turned (suc n) k st p h =
      rotate-turned (suc n) (offset (suc n) k) st h (offset-le (suc n) k p)

  shifts_zero : (k : ℕ) (st : List A) → shifts 0 k st ≡ st
  shifts_zero zero st = refl
  shifts_zero (suc k) st = ap (shift 0) (shifts_zero k st) ∙ shift_zero st
    where
      shift_zero : (st : List A) → shift 0 st ≡ st
      shift_zero [] = refl
      shift_zero (x ∷ st) = refl

  roll-shifts : (n k : ℕ) (st : List A) → n ≤ length st → roll n (pos k) st ≡ some (shifts n k st)
  unfolding roll offset
  roll-shifts zero k st h = ap some (sym (shifts_zero k st))
  roll-shifts (suc n) k st h =
      let p : 0 < suc n = omega arith in
      roll-turned (suc n) (pos k) st p h ∙ ap some (sym (shifts-turned (suc n) k st p h))

  turn-back : (m : ℕ) (xs : List A) → m ≤ length xs → turn (length xs - m) (turn m xs) ≡ xs
  turn-back m xs h =
      let e : length xs - m ≡ length (drop m xs) = omega (arith, length-drop m xs) in
      rw (e, drop-append (drop m xs) (take m xs), take-append (drop m xs) (take m xs))
        (take-append-drop m xs)

  turned-back :
      (n m : ℕ) (st : List A) → n ≤ length st → m ≤ n → turned n (n - m) (turned n m st) ≡ st
  turned-back n m st h k =
      let seg = take n st in
      let e : length seg ≡ n = omega (arith, length-take n st) in
      let f : n ≡ length (turn m seg) = sym (length-turn m seg ∙ e) in
      ap (λ x. turn (n - m) x ++ drop n (turn m seg ++ drop n st))
        (ap (λ x. take x (turn m seg ++ drop n st)) f ∙ take-append (turn m seg) (drop n st))
      ∙ ap (λ x. turn (n - m) (turn m seg) ++ x)
          (ap (λ x. drop x (turn m seg ++ drop n st)) f ∙ drop-append (turn m seg) (drop n st))
      ∙ ap (λ x. turn (x - m) (turn m seg) ++ drop n st) (sym e)
      ∙ ap (λ x. x ++ drop n st) (turn-back m seg (omega (arith, e, k)))
      ∙ take-append-drop n st

offset-negsuc : (n j : ℕ) → suc j ≤ n → n < words → offset n (negsuc j) ≡ (n - suc j) % n
unfolding offset
offset-negsuc n j h w =
    ap (λ x. x % n)
      (ap (λ x. x % words) {x = n + (words - suc j)} {y = (n - suc j) + words} (omega arith)
        ∙ add-mod_right (n - suc j) words
        ∙ mod-eq_of_lt (omega arith))

module _ {ℓ} {A : Type ℓ} where
  turned_mod-back :
      (n m : ℕ) (st : List A)
      → 0 < n
      → m ≤ n
      → n ≤ length st
      → turned n ((n - m) % n) (turned n (m % n) st) ≡ st
  turned_mod-back n m st p h k = elim (Bool-cases (ltb 0 m && ltb m n)) [
    | inl e ↦
        ap (λ x. turned n x (turned n (m % n) st)) (mod-eq_of_lt (ground (arith, e, p)))
        ∙ ap (λ x. turned n (n - m) (turned n x st)) (mod-eq_of_lt (ground (arith, e)))
        ∙ turned-back n m st k h
    | inr e ↦
        let x : m % n ≡ 0 = none_left m (ground (arith, e, h)) in
        let y : (n - m) % n ≡ 0 = none_left (n - m) (ground (arith, e, h)) in
        ap (λ z. turned n z (turned n (m % n) st)) y
        ∙ turned-zero n (turned n (m % n) st)
        ∙ ap (λ z. turned n z st) x
        ∙ turned-zero n st
  ]
    where
      none_left : (x : ℕ) → (x ≡ 0) ⊎ (x ≡ n) → x % n ≡ 0
      none_left x (inl z) = ap (λ y. y % n) z ∙ zero-mod n
      none_left x (inr z) = ap (λ y. y % n) z ∙ mod_self n

  length-shifts :
      (n k : ℕ) (st : List A) → 0 < n → n ≤ length st → length (shifts n k st) ≡ length st
  length-shifts n k st p h = ap length (shifts-turned n k st p h) ∙ length-turned n (k % n) st

  roll-shifts_back :
      (n j : ℕ) (st : List A)
      → suc j ≤ n
      → n ≤ length st
      → n < words
      → roll n (negsuc j) (shifts n (suc j) st) ≡ some st
  roll-shifts_back n j st h k w =
      let p : 0 < n = omega (arith, h) in
      let back = turned n (suc j % n) st in
      ap (roll n (negsuc j)) (shifts-turned n (suc j) st p k)
      ∙ roll-turned n (negsuc j) back p (omega (arith, length-turned n (suc j % n) st, k))
      ∙ ap some
          (ap (λ x. turned n x back) (offset-negsuc n j h w) ∙ turned_mod-back n (suc j) st p h k)

-- The operands of `roll`: the number of elements, and the count on top.
abbrev pub operands : SliTypeid → ℤ → ℕ → List Token → List Token
operands type k n st =
    record { type = type; data_ = k } ∷ record { type = SliTypeid.integertype; data_ = pos n } ∷ st

roll_by-roll :
    (i : Machine) (k : Token) (n : ℕ)
    → n + 2 ≤ length i.ostack
    → roll_by i n (some k) ≡ leaves i (roll n k.data_ (drop 2 i.ostack))
unfolding roll_by
roll_by-roll i k n h =
    require_stack_load-le (n + 2) i _ h
    ∙ ap (λ x. elim x [ none ↦ out_of_bounds | some st ↦ leaves i (roll n k.data_ st) ])
        (pop_n-le 2 i.ostack (omega (arith, h)))

roll_function-roll :
    (i : Machine) (type : SliTypeid) (k : ℤ) (n : ℕ) (st : List Token)
    → i.ostack ≡ operands type k n st
    → n ≤ length st
    → roll_function i ≡ leaves i (roll n k st)
unfolding roll_function check_range pick
roll_function-roll i type k n st e h =
    let l : length i.ostack ≡ length st + 2 = ap length e ∙ omega arith in
    require_stack_load-le 2 i _ (omega (arith, l))
    ∙ ap (λ x. check_range i (λ m. roll_by i m (pick 0 i.ostack)) (pick 1 x)) e
    ∙ ap (λ x. roll_by i n (pick 0 x)) e
    ∙ roll_by-roll i (record { type = type; data_ = k }) n (omega (arith, l, h))
    ∙ ap (λ x. leaves i (roll n k (drop 2 x))) e

-- `n k roll` for a count that is not negative shifts the topmost `n` elements below the operands
-- `k` times, each time the topmost one below the others.
pub roll_function-shifts :
    (i : Machine) (type : SliTypeid) (k n : ℕ) (st : List Token)
    → i.ostack ≡ operands type (pos k) n st
    → n ≤ length st
    → roll_function i ≡ done (record i { ostack = shifts n k st })
roll_function-shifts i type k n st e h =
    roll_function-roll i type (pos k) n st e h
    ∙ (unfold leaves in ap (leaves i) (roll-shifts n k st h))

-- A count from -n to -1 undoes as many shifts of the topmost `n` elements, for an `n` below 2 ^ 64.
pub roll_function-shifts_back :
    (i : Machine) (type : SliTypeid) (j n : ℕ) (st : List Token)
    → i.ostack ≡ operands type (negsuc j) n (shifts n (suc j) st)
    → suc j ≤ n
    → n ≤ length st
    → n < words
    → roll_function i ≡ done (record i { ostack = st })
roll_function-shifts_back i type j n st e h k w =
    roll_function-roll i type (negsuc j) n (shifts n (suc j) st) e
      (omega (arith, length-shifts n (suc j) st (omega (arith, h)) k, k))
    ∙ (unfold leaves in ap (leaves i) (roll-shifts_back n j st h k w))

offset-below : (n j : ℕ) → n ≤ j → j < words → offset n (negsuc j) ≡ (words - (suc j - n)) % n
unfolding offset
offset-below n j h w =
    ap (λ x. x % n)
      (mod-eq_of_lt {n = n + (words - suc j)} {m = words} (omega (arith, h, w))
        ∙ omega (arith, h, w))

-- A count below -n, with `n` elements below the operands, shifts the topmost `n` as often as 2 ^ 64
-- less what the count is below -n, modulo `n`.
pub roll_function-below :
    (i : Machine) (type : SliTypeid) (j n : ℕ) (st : List Token)
    → i.ostack ≡ operands type (negsuc j) n st
    → 0 < n
    → n ≤ j
    → j < words
    → n ≤ length st
    → roll_function i ≡ done (record i { ostack = shifts n ((words - (suc j - n)) % n) st })
roll_function-below i type j n st e p h w k =
    let m = (words - (suc j - n)) % n in
    roll_function-roll i type (negsuc j) n st e k
    ∙ (unfold leaves in
        ap (leaves i) (
          roll-turned n (negsuc j) st p k
          ∙ ap (λ x. some (turned n x st)) (offset-below n j h w)
          ∙ ap (λ x. some (turned n x st)) (sym (mod-eq_of_lt (mod-lt (words - (suc j - n)) p)))
          ∙ ap some (sym (shifts-turned n m st p k))))
