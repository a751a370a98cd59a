-- ===== src/Stack/Operators.antt =====
-- The operators of src/builtins/sli_stack.cpp, with the bodies of `pop`, `dup` and `exch` in
-- src/builtins/sli_op_bodies.h. The counts that they read are those of a `long`, and `n + 2` is
-- taken not to overflow.
use sli.Prelude.{
  ℕ, zero, suc, ◌+◌, ◌-◌, Option, none, some, List, [], ◌∷◌, ltb, ◌==◌, length, if◌then◌else◌,
}
use sli.Prelude.Int.{ℤ, pos, negsuc}
use sli.Stack.Token.{SliTypeid, Token, is_array}
use sli.Stack.TokenStack.{pop_n, pick, index, swap, roll, to_array, from_array}

-- The part of the interpreter that the operators work on. Arrays live on a heap, by address.
pub record Machine : Type 0 where
  pub ostack : List Token
  pub estack : List Token
  pub arrays : ℤ → List Token
  pub next_array : ℕ

pub data Error : Type 0 where
  range_check : Error
  stack_underflow : ℕ → ℕ → Error
  type_mismatch : Error

-- The result of an operator: it is done, it has raised an error or thrown an exception, or it has
-- read or written outside of a vector.
pub data Result : Type 0 where
  done : Machine → Result
  raised : Error → Machine → Result
  out_of_bounds : Result

-- The operand stack that a step on it leaves.
unfoldable pub leaves : Machine → Option (List Token) → Result
leaves i none = out_of_bounds
leaves i (some st) = done (record i { ostack = st })

-- `require_stack_load(n)` and what follows it.
unfoldable pub require_stack_load : ℕ → Machine → Result → Result
require_stack_load n i rest =
    let load = length i.ostack in if ltb load n then raised (stack_underflow n load) i else rest

-- A word that is read as a `long`, and must not be negative.
unfoldable pub check_range : Machine → (ℕ → Result) → Option Token → Result
check_range i rest none = out_of_bounds
check_range i rest (some t) = elim t.data_ [ pos n ↦ rest n | negsuc n ↦ raised range_check i ]

unfoldable pub hot_op_pop : Machine → Result
hot_op_pop i = require_stack_load 1 i (leaves i (pop_n 1 i.ostack))

unfoldable pub npop_function : Machine → Result
npop_function i = require_stack_load 1 i (
    check_range i (λ n. require_stack_load (n + 1) i (leaves i (pop_n (n + 1) i.ostack)))
      (pick 0 i.ostack))

unfoldable pub hot_op_dup : Machine → Result
hot_op_dup i = require_stack_load 1 i (leaves i (index 0 i.ostack))

unfoldable pub over_function : Machine → Result
over_function i = require_stack_load 2 i (leaves i (index 1 i.ostack))

unfoldable pub hot_op_exch : Machine → Result
hot_op_exch i = require_stack_load 2 i (leaves i (swap i.ostack))

-- `i->top() = t`
unfoldable pub assign_top : Option Token → List Token → Option (List Token)
assign_top (some t) (x ∷ st) = some (t ∷ st)
assign_top _ _ = none

unfoldable pub index_function : Machine → Result
index_function i = require_stack_load 1 i (
    check_range i
      (λ n. require_stack_load (n + 1) i (leaves i (assign_top (pick (n + 1) i.ostack) i.ostack)))
      (pick 0 i.ostack))

-- The loop of `copy`, with the rounds that are left.
unfoldable pub index_times : ℕ → ℕ → List Token → Option (List Token)
index_times zero j st = some st
index_times (suc c) j st = elim (index j st) [ none ↦ none | some st' ↦ index_times c j st' ]

unfoldable pub copy_function : Machine → Result
copy_function i = require_stack_load 1 i (
    check_range i
      (λ n. require_stack_load (n + 1) i (elim (pop_n 1 i.ostack) [
        | none ↦ out_of_bounds
        | some st ↦ leaves i (index_times n (n - 1) st)
      ]))
      (pick 0 i.ostack))

unfoldable pub roll_by : Machine → ℕ → Option Token → Result
roll_by i n none = out_of_bounds
roll_by i n (some k) =
    require_stack_load (n + 2) i
      (elim (pop_n 2 i.ostack) [ none ↦ out_of_bounds | some st ↦ leaves i (roll n k.data_ st) ])

unfoldable pub roll_function : Machine → Result
roll_function i =
    require_stack_load 2 i (check_range i (λ n. roll_by i n (pick 0 i.ostack)) (pick 1 i.ostack))

unfoldable pub rollu_function : Machine → Result
rollu_function i = require_stack_load 3 i (leaves i (roll 3 (pos 1) i.ostack))

unfoldable pub rolld_function : Machine → Result
rolld_function i = require_stack_load 3 i (leaves i (roll 3 (negsuc 0) i.ostack))

unfoldable pub rot_function : Machine → Result
rot_function i = leaves i (roll (length i.ostack) (pos 1) i.ostack)

unfoldable pub count_function : Machine → Result
count_function i =
    let n : Token = record { type = SliTypeid.integertype; data_ = pos (length i.ostack) } in
    done (record i { ostack = n ∷ i.ostack })

unfoldable pub clear_function : Machine → Result
clear_function i = done (record i { ostack = [] })

-- A vector is put on the heap.
unfoldable pub store_array : ℕ → List Token → (ℤ → List Token) → ℤ → List Token
store_array n a arrays (pos p) = if p == n then a else arrays (pos p)
store_array n a arrays (negsuc p) = arrays (negsuc p)

-- A new array, and its token on the operand stack.
unfoldable pub push_array : List Token → Machine → Result
push_array a i =
    let t : Token = record { type = SliTypeid.arraytype; data_ = pos i.next_array } in
    done (record i {
      ostack = t ∷ i.ostack;
      arrays = store_array i.next_array a i.arrays;
      next_array = i.next_array + 1;
    })

unfoldable pub execstack_function : Machine → Result
execstack_function i = push_array (to_array i.estack) i

unfoldable pub operandstack_function : Machine → Result
operandstack_function i = push_array (to_array i.ostack) i

-- `require_stack_type(0, arraytype)` and what follows it, with the array.
unfoldable pub require_array : Machine → (List Token → Result) → Option Token → Result
require_array i rest none = out_of_bounds
require_array i rest (some t) =
    if is_array t.type then rest (i.arrays t.data_) else raised type_mismatch i

unfoldable pub restoreestack_function : Machine → Result
restoreestack_function i = require_stack_load 1 i (
    require_array i (λ a. leaves (record i { estack = from_array a }) (pop_n 1 i.ostack))
      (pick 0 i.ostack))

unfoldable pub restoreostack_function : Machine → Result
restoreostack_function i =
    require_stack_load 1 i
      (require_array i (λ a. done (record i { ostack = from_array a })) (pick 0 i.ostack))
