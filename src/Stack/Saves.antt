-- ===== src/Stack/Saves.antt =====
-- Stacks that are saved as arrays, and restored from them.
use mathlib.Core.List.{reverse-reverse}
use sli.Prelude.{ℕ, ◌≡◌, ◌≤◌, ap, sym, ◌∙◌, true, some, drop, List, ◌∷◌, arith, length, ◌==◌}
use sli.Prelude.Int.{ℤ, pos}
use sli.Stack.Token.{SliTypeid, Token}
use sli.Stack.TokenStack.{pop_n, pick, to_array, from_array}
use sli.Stack.Operators.{
  Machine, Result, done, raised, out_of_bounds, leaves, push_array, store_array, execstack_function,
  operandstack_function, require_array, restoreestack_function, restoreostack_function,
}
use sli.Stack.Loads.{require_stack_load-le, pop_n-le}

-- The token of the array that an operator is about to make.
abbrev pub saved : Machine → Token
saved i = record { type = SliTypeid.arraytype; data_ = pos i.next_array }

abbrev arrays_of : Result → ℤ → List Token → List Token
arrays_of (done i) p d = i.arrays p
arrays_of (raised e i) p d = i.arrays p
arrays_of out_of_bounds p d = d

store_array_self :
    (n : ℕ) (a : List Token) (arrays : ℤ → List Token) → store_array n a arrays (pos n) ≡ a
unfolding store_array
store_array_self n a arrays = let p : (n == n) ≡ true = ground arith in rw p

pushed-array :
    (a : List Token) (i j : Machine) → push_array a i ≡ done j → j.arrays (pos i.next_array) ≡ a
unfolding push_array
pushed-array a i j h =
    sym (ap (λ r. arrays_of r (pos i.next_array) a) h) ∙ store_array_self i.next_array a i.arrays

from_array-to_array : (st : List Token) → from_array (to_array st) ≡ st
unfolding from_array to_array
from_array-to_array st = reverse-reverse st

require_array-saved :
    (i k : Machine) (st : List Token) (f : List Token → Result)
    → k.ostack ≡ saved i ∷ st
    → require_array k f (pick 0 k.ostack) ≡ f (k.arrays (pos i.next_array))
unfolding require_array pick
require_array-saved i k st f e = ap (λ x. require_array k f (pick 0 x)) e

-- Once `operandstack` has saved the operand stack, `restoreostack` on that array restores it, from any
-- machine on whose heap the array is as it was.
pub restoreostack-operandstack :
    (i j k : Machine) (st : List Token)
    → operandstack_function i ≡ done j
    → k.ostack ≡ saved i ∷ st
    → k.arrays (pos i.next_array) ≡ j.arrays (pos i.next_array)
    → restoreostack_function k ≡ done (record k { ostack = i.ostack })
unfolding operandstack_function restoreostack_function
restoreostack-operandstack i j k st h e same =
    require_stack_load-le 1 k _ (omega (arith, ap length e))
    ∙ require_array-saved i k st (λ a. done (record k { ostack = from_array a })) e
    ∙ ap (λ a. done (record k { ostack = from_array a }))
        (same ∙ pushed-array (to_array i.ostack) i j h)
    ∙ ap (λ a. done (record k { ostack = a })) (from_array-to_array i.ostack)

-- Once `execstack` has saved the execution stack, `restoreestack` on that array restores it and
-- removes the array, from any machine on whose heap the array is as it was.
pub restoreestack-execstack :
    (i j k : Machine) (st : List Token)
    → execstack_function i ≡ done j
    → k.ostack ≡ saved i ∷ st
    → k.arrays (pos i.next_array) ≡ j.arrays (pos i.next_array)
    → restoreestack_function k ≡ done (record k { ostack = st; estack = i.estack })
unfolding execstack_function restoreestack_function leaves
restoreestack-execstack i j k st h e same =
    let l : 1 ≤ length k.ostack = omega (arith, ap length e) in
    require_stack_load-le 1 k _ l
    ∙ require_array-saved i k st
        (λ a. leaves (record k { estack = from_array a }) (pop_n 1 k.ostack)) e
    ∙ ap (λ a. leaves (record k { estack = from_array a }) (pop_n 1 k.ostack))
        (same ∙ pushed-array (to_array i.estack) i j h)
    ∙ ap (λ a. leaves (record k { estack = a }) (pop_n 1 k.ostack)) (from_array-to_array i.estack)
    ∙ ap (leaves (record k { estack = i.estack }))
        (pop_n-le 1 k.ostack l ∙ ap (λ x. some (drop 1 x)) e)
