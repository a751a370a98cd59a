-- ===== src/Stack/Errors.antt =====
-- What no operator but `index` does: read or write outside of a vector, or change the stacks when it
-- raises an error.
use sli.Prelude.{
  get_elem?-lt, ℕ, zero, suc, ◌+◌, ◌-◌, ◌≤◌, ◌<◌, ◌≡◌, ◌≢◌, refl, sym, Option, none, some, List, [],
  ◌∷◌, arith, length, ltb, Bool-cases, inl, inr, drop, length-drop,
}
use mathlib.Core.Path.{subst}
use sli.Prelude.Int.{ℤ, pos, negsuc}
use sli.Stack.Token.{Token, is_array}
use sli.Stack.TokenStack.{pop_n, pick, index, swap, roll, offset, from_array}
use sli.Stack.Operators.{
  Machine, Error, Result, done, raised, out_of_bounds, leaves, require_stack_load, check_range,
  hot_op_pop, npop_function, hot_op_dup, over_function, hot_op_exch, index_function, copy_function,
  index_times, roll_by, roll_function, rollu_function, rolld_function, rot_function, count_function,
  clear_function, push_array, execstack_function, operandstack_function, require_array,
  restoreestack_function, restoreostack_function,
}
use sli.Stack.Loads.{pop_n-le}
use sli.Stack.Turns.{turned}
use sli.Stack.Rolls.{roll-turned}
use sli.Stack.Copies.{index-some, index_times-take}

pub data Operator : Type 0 where
  pop npop dup over exch index_ copy roll_ rollu rolld rot count clear execstack operandstack
        restoreestack restoreostack :
      Operator

unfoldable pub execute : Operator → Machine → Result
execute pop = hot_op_pop
execute npop = npop_function
execute dup = hot_op_dup
execute over = over_function
execute exch = hot_op_exch
execute index_ = index_function
execute copy = copy_function
execute roll_ = roll_function
execute rollu = rollu_function
execute rolld = rolld_function
execute rot = rot_function
execute count = count_function
execute clear = clear_function
execute execstack = execstack_function
execute operandstack = operandstack_function
execute restoreestack = restoreestack_function
execute restoreostack = restoreostack_function

-- An operator is done, or has raised an error and left all as it was.
abbrev pub Sound : Machine → Result → Type 0
Sound i (done i') = Unit {0}
Sound i (raised e i') = i' ≡ i
Sound i out_of_bounds = ⊥

module _ (i : Machine) where
  Sound-leaves :
      (j : Machine) (o : Option (List Token)) (st : List Token) → o ≡ some st → Sound i (leaves j o)
  unfolding leaves
  Sound-leaves j none st h = cc
  Sound-leaves j (some st') st h = tt

  Sound-load :
      (n : ℕ) (rest : Result)
      → (n ≤ length i.ostack → Sound i rest)
      → Sound i (require_stack_load n i rest)
  unfolding require_stack_load
  Sound-load n rest h = elim (Bool-cases (ltb (length i.ostack) n)) [
    | inl e ↦ rw e refl
    | inr e ↦ rw e (h (ground (arith, e)))
  ]

  Sound-range :
      (f : ℕ → Result) (o : Option Token) (t : Token)
      → o ≡ some t
      → ((n : ℕ) → Sound i (f n))
      → Sound i (check_range i f o)
  unfolding check_range
  Sound-range f none t e h = cc
  Sound-range f (some t') t e h = go t'.data_
    where
      go : (d : ℤ) → Sound i (elim d [ pos n ↦ f n | negsuc n ↦ raised Error.range_check i ])
      go (pos n) = h n
      go (negsuc n) = refl

  Sound-array :
      (f : List Token → Result) (o : Option Token) (t : Token)
      → o ≡ some t
      → ((a : List Token) → Sound i (f a))
      → Sound i (require_array i f o)
  unfolding require_array
  Sound-array f none t e h = cc
  Sound-array f (some t') t e h = elim (Bool-cases (is_array t'.type)) [
    | inl p ↦ rw p (h (i.arrays t'.data_))
    | inr p ↦ rw p refl
  ]

pick-some : (st : List Token) (n : ℕ) → n < length st → (t : Token) × (pick n st ≡ some t)
unfolding pick
pick-some st n h = let (t, p, _) = get_elem?-lt st n h in (t, p)

index-lt : (st : List Token) (n : ℕ) → n < length st → (t : Token) × (index n st ≡ some (t ∷ st))
index-lt st n h = let (t, p, _) = get_elem?-lt st n h in (t, index-some n st t p)

roll-le :
    (n : ℕ) (k : ℤ) (st : List Token)
    → n ≤ length st
    → (st' : List Token) × (roll n k st ≡ some st')
roll-le zero k st h = (st, unfold roll in refl)
roll-le (suc n) k st h =
    (turned (suc n) (offset (suc n) k) st, roll-turned (suc n) k st (omega arith) h)

swap-ge : (st : List Token) → 2 ≤ length st → (st' : List Token) × (swap st ≡ some st')
unfolding swap
swap-ge [] h = absurd (omega (arith, h))
swap-ge (x ∷ []) h = absurd (omega (arith, h))
swap-ge (x ∷ y ∷ st) h = (y ∷ x ∷ st, refl)

module _ (i : Machine) where
  Sound-pop_n : (j : Machine) (n : ℕ) → n ≤ length i.ostack → Sound i (leaves j (pop_n n i.ostack))
  Sound-pop_n j n h = Sound-leaves i j _ _ (pop_n-le n i.ostack h)

  Sound-npop : Sound i (npop_function i)
  unfolding npop_function
  Sound-npop = Sound-load i 1 _ (λ h.
      let (t, p) = pick-some i.ostack 0 (omega (arith, h)) in
      Sound-range i _ _ t p (λ n. Sound-load i (n + 1) _ (λ k. Sound-pop_n i (n + 1) k)))

  Sound-index : (n j : ℕ) → j < n → Sound i (require_stack_load n i (leaves i (index j i.ostack)))
  Sound-index n j lt =
      Sound-load i n _
        (λ h. let (t, p) = index-lt i.ostack j (omega (arith, h, lt)) in Sound-leaves i i _ _ p)

  Sound-copy : Sound i (copy_function i)
  unfolding copy_function
  Sound-copy = Sound-load i 1 _ (λ h.
      let (t, p) = pick-some i.ostack 0 (omega (arith, h)) in
      Sound-range i _ _ t p (λ n. Sound-load i (n + 1) _ (λ k. copied n k)))
    where
      copied :
          (n : ℕ)
          → n + 1 ≤ length i.ostack
          → Sound i (elim (pop_n 1 i.ostack) [
            | none ↦ out_of_bounds
            | some st ↦ leaves i (index_times n (n - 1) st)
          ])
      copied n k =
          let q = index_times-take n (drop 1 i.ostack) (omega (arith, length-drop 1 i.ostack, k)) in
          subst
            (λ x.
              Sound i
                (elim x [ none ↦ out_of_bounds | some st ↦ leaves i (index_times n (n - 1) st) ]))
            (sym (pop_n-le 1 i.ostack (omega (arith, k)))) (Sound-leaves i i _ _ q)

  Sound-roll : (n : ℕ) (k : ℤ) → n ≤ length i.ostack → Sound i (leaves i (roll n k i.ostack))
  Sound-roll n k h = let (st, p) = roll-le n k i.ostack h in Sound-leaves i i _ _ p

  Sound-roll_by : (n : ℕ) (k : Token) → Sound i (roll_by i n (some k))
  unfolding roll_by
  Sound-roll_by n k = Sound-load i (n + 2) _ (λ h.
      let (st, q) =
        roll-le n k.data_ (drop 2 i.ostack) (omega (arith, length-drop 2 i.ostack, h)) in
      subst
        (λ x. Sound i (elim x [ none ↦ out_of_bounds | some st ↦ leaves i (roll n k.data_ st) ]))
        (sym (pop_n-le 2 i.ostack (omega (arith, h)))) (Sound-leaves i i _ _ q))

  Sound-roll_function : Sound i (roll_function i)
  unfolding roll_function
  Sound-roll_function = Sound-load i 2 _ (λ h.
      let (t, p) = pick-some i.ostack 1 (omega (arith, h)) in
      let (k, q) = pick-some i.ostack 0 (omega (arith, h)) in
      Sound-range i _ _ t p (λ n. subst (λ x. Sound i (roll_by i n x)) (sym q) (Sound-roll_by n k)))

  Sound-restore :
      (f : List Token → Result)
      → ((a : List Token) → 1 ≤ length i.ostack → Sound i (f a))
      → Sound i (require_stack_load 1 i (require_array i f (pick 0 i.ostack)))
  Sound-restore f h = Sound-load i 1 _ (λ k.
      let (t, p) = pick-some i.ostack 0 (omega (arith, k)) in Sound-array i f _ t p (λ a. h a k))

-- Every operator other than `index` is done, or has raised an error and left the stacks and the heap
-- as they were; none reads or writes outside of a vector.
pub execute-Sound : (op : Operator) (i : Machine) → op ≢ index_ → Sound i (execute op i)
unfolding execute hot_op_pop hot_op_dup over_function hot_op_exch rollu_function rolld_function
    rot_function count_function clear_function execstack_function operandstack_function push_array
    restoreestack_function restoreostack_function
execute-Sound pop i ne = Sound-load i 1 _ (λ h. Sound-pop_n i i 1 h)
execute-Sound npop i ne = Sound-npop i
execute-Sound dup i ne = Sound-index i 1 0 (omega arith)
execute-Sound over i ne = Sound-index i 2 1 (omega arith)
execute-Sound exch i ne =
    Sound-load i 2 _ (λ h. let (st, p) = swap-ge i.ostack h in Sound-leaves i i _ _ p)
execute-Sound index_ i ne = absurd (ne refl)
execute-Sound copy i ne = Sound-copy i
execute-Sound roll_ i ne = Sound-roll_function i
execute-Sound rollu i ne = Sound-load i 3 _ (λ h. Sound-roll i 3 (pos 1) h)
execute-Sound rolld i ne = Sound-load i 3 _ (λ h. Sound-roll i 3 (negsuc 0) h)
execute-Sound rot i ne = Sound-roll i (length i.ostack) (pos 1) (omega arith)
execute-Sound count i ne = tt
execute-Sound clear i ne = tt
execute-Sound execstack i ne = tt
execute-Sound operandstack i ne = tt
execute-Sound restoreestack i ne =
    Sound-restore i _ (λ a h. Sound-pop_n i (record i { estack = from_array a }) 1 h)
execute-Sound restoreostack i ne = Sound-restore i _ (λ a h. tt)
