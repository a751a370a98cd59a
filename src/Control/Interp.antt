-- ===== src/Control/Interp.antt =====
-- What the control operators and the dispatcher of src/interpreter/sli_interpreter.cpp work on: the
-- stacks and the objects that their tokens point to.
use sli.Prelude.{
  ℕ, Bool, true, false, Option, none, some, List, ltb, ◌==◌, length, drop, get_elem?, if◌then◌else◌,
}
use sli.Prelude.Int.{ℤ, pos, negsuc}
use sli.Stack.Token.{SliTypeid, Token}
use sli.Trie.TypeNode.{tag_of}

-- The objects stand on heaps, by address; the characters of a string are `char`s, as `long`s.
pub record Interp : Type 0 where
  pub ostack : List Token
  pub estack : List Token
  pub arrays : ℤ → List Token
  pub strings : ℤ → List ℤ

-- The errors that `raiseerror` is called with.
pub data ErrorName : Type 0 where
  estack_underflow invalid_return argument_type_error unmatched_mark stack_underflow_error
        range_check_error division_by_zero :
      ErrorName

-- The exceptions that are thrown.
pub data Exception : Type 0 where
  underflow_exception : ℕ → ℕ → Exception
  type_exception : Exception
  undefined_exception : Exception

-- What an operator does: it returns, it returns after a call of `raiseerror`, which is all that is
-- left to do (with the state at the call: what `raiseerror` pushes is not part of it), it throws, or it reads or writes outside of a vector.
pub data Effect : Type 0 where
  finished : Interp → Effect
  raising : ErrorName → Interp → Effect
  thrown : Exception → Interp → Effect
  broken : Effect

-- `is_of_type(t)`, for a type other than `nulltype`, which a token without a type has here.
unfoldable pub is_of_type : SliTypeid → Token → Bool
is_of_type t x = tag_of x.type == tag_of t

-- `Token(get_type(t))`
abbrev pub marker : SliTypeid → Token
marker t = record { type = t; data_ = pos 0 }

-- `new_token<integertype>(n)`
abbrev pub integer_token : ℤ → Token
integer_token n = record { type = SliTypeid.integertype; data_ = n }

abbrev pub bool_token : Bool → Token
bool_token true = record { type = SliTypeid.booltype; data_ = pos 1 }
bool_token false = record { type = SliTypeid.booltype; data_ = pos 0 }

abbrev pub is_zero : ℤ → Bool
is_zero (pos n) = n == 0
is_zero (negsuc n) = false

-- `data_.bool_val`
abbrev pub bool_val : Token → Bool
bool_val x = if is_zero x.data_ then false else true

-- `require_stack_load(n)`
unfoldable pub require_load : ℕ → Interp → Effect → Effect
require_load n i rest =
    let load = length i.ostack in if ltb load n then thrown (underflow_exception n load) i else rest

-- `pick(n)` of the operand stack, and what is done with it.
abbrev pub with_token : Option Token → (Token → Effect) → Effect
with_token none rest = broken
with_token (some x) rest = rest x

unfoldable pub at_pick : ℕ → Interp → (Token → Effect) → Effect
at_pick n i rest = with_token (get_elem? i.ostack n) rest

-- `require_stack_type(n, t)`
unfoldable pub require_type : ℕ → SliTypeid → Interp → Effect → Effect
require_type n t i rest =
    at_pick n i (λ x. if is_of_type t x then rest else thrown type_exception i)

-- `pop(n)` of the operand stack, with the execution stack as it is by then.
unfoldable pub pop_operands : ℕ → List Token → Interp → Effect
pop_operands n estack i =
    if ltb (length i.ostack) n
    then broken
    else finished (record i { ostack = drop n i.ostack; estack = estack })

-- `EStack().pop(n)`
unfoldable pub pop_execution : ℕ → Interp → Effect
pop_execution n i =
    if ltb (length i.estack) n then broken else finished (record i { estack = drop n i.estack })
