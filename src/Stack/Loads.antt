-- ===== src/Stack/Loads.antt =====
-- Checks of the load that pass, and removals that they allow.
use sli.Prelude.{ℕ, ◌≤◌, ◌≡◌, true, false, some, List, arith, ltb, leb, length, drop}
use sli.Stack.TokenStack.{pop_n}
use sli.Stack.Operators.{Machine, Result, require_stack_load}

pub require_stack_load-le :
    (n : ℕ) (i : Machine) (rest : Result) → n ≤ length i.ostack → require_stack_load n i rest ≡ rest
unfolding require_stack_load
require_stack_load-le n i rest h =
    let p : ltb (length i.ostack) n ≡ false = ground (arith, h) in rw p

pub pop_n-le {ℓ} :
    {A : Type ℓ} (n : ℕ) (st : List A) → n ≤ length st → pop_n n st ≡ some (drop n st)
unfolding pop_n
pop_n-le n st h = let p : leb n (length st) ≡ true = ground (arith, h) in rw p
