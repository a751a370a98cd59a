-- ===== src/Control/Loops.antt =====
-- The operators of src/builtins/sli_control.cpp that begin a loop: each puts a frame on the execution
-- stack, above a mark.
use sli.Prelude.{List, ◌∷◌, length, if◌then◌else◌}
use sli.Prelude.Int.{pos}
use sli.Stack.Token.{SliTypeid, Token}
use sli.Control.Interp.{
  Interp, Effect, raising, argument_type_error, is_of_type, marker, integer_token, require_load,
  at_pick, require_type, pop_operands,
}

-- `push(0)` makes a token from the null pointer to a type, one without a type and with the word 0.
abbrev pub untyped_zero : Token
untyped_zero = marker SliTypeid.nulltype

-- `mark_token` and `forall_token` are what `mark_name` and `iforallarray_name` have in the base
-- dictionary.
unfoldable pub loop_function : Token → Interp → Effect
loop_function mark_token i = require_load 1 i (
    require_type 0 SliTypeid.proceduretype i (
      at_pick 0 i (λ proc.
        pop_operands 1 (marker SliTypeid.ilooptype ∷ untyped_zero ∷ proc ∷ mark_token ∷ i.estack)
          i)))

unfoldable pub repeat_function : Interp → Effect
repeat_function i = require_load 2 i (
    require_type 0 SliTypeid.proceduretype i (
      require_type 1 SliTypeid.integertype i (
        at_pick 0 i (λ proc. at_pick 1 i (λ count.
          pop_operands 2
            (marker SliTypeid.irepeattype
              ∷ integer_token (pos (length (i.arrays proc.data_)))
              ∷ proc
              ∷ count
              ∷ marker SliTypeid.marktype
              ∷ i.estack)
            i)))))

unfoldable pub for_function : Interp → Effect
for_function i = require_load 4 i (
    require_type 0 SliTypeid.proceduretype i (
      require_type 1 SliTypeid.integertype i (
        require_type 2 SliTypeid.integertype i (
          require_type 3 SliTypeid.integertype i (
            at_pick 0 i (λ proc. at_pick 1 i (λ limit. at_pick 2 i (λ increment.
              at_pick 3 i (λ counter.
                pop_operands 4
                  (marker SliTypeid.ifortype
                    ∷ integer_token (pos (length (i.arrays proc.data_)))
                    ∷ proc
                    ∷ counter
                    ∷ limit
                    ∷ increment
                    ∷ marker SliTypeid.marktype
                    ∷ i.estack)
                  i)))))))))

unfoldable pub forall_a_function : Token → Interp → Effect
forall_a_function forall_token i = require_load 2 i (
    require_type 0 SliTypeid.proceduretype i (
      require_type 1 SliTypeid.arraytype i (
        at_pick 0 i (λ proc. at_pick 1 i (λ object.
          pop_operands 2
            (forall_token
              ∷ integer_token (pos (length (i.arrays proc.data_)))
              ∷ proc
              ∷ integer_token (pos 0)
              ∷ object
              ∷ marker SliTypeid.marktype
              ∷ i.estack)
            i)))))

unfoldable pub forallindexed_a_function : Interp → Effect
forallindexed_a_function i = require_load 2 i (
    require_type 0 SliTypeid.proceduretype i (
      require_type 1 SliTypeid.arraytype i (
        at_pick 0 i (λ proc. at_pick 1 i (λ object.
          pop_operands 2
            (marker SliTypeid.iforallindexedarraytype
              ∷ integer_token (pos (length (i.arrays proc.data_)))
              ∷ proc
              ∷ integer_token (pos 0)
              ∷ integer_token (pos (length (i.arrays object.data_)))
              ∷ object
              ∷ marker SliTypeid.marktype
              ∷ i.estack)
            i)))))

unfoldable pub forallindexed_s_function : Interp → Effect
forallindexed_s_function i = require_load 2 i (
    require_type 0 SliTypeid.proceduretype i (
      require_type 1 SliTypeid.stringtype i (
        at_pick 0 i (λ proc. at_pick 1 i (λ object.
          pop_operands 2
            (marker SliTypeid.iforallindexedstringtype
              ∷ integer_token (pos (length (i.arrays proc.data_)))
              ∷ proc
              ∷ integer_token (pos 0)
              ∷ integer_token (pos (length (i.strings object.data_)))
              ∷ object
              ∷ marker SliTypeid.marktype
              ∷ i.estack)
            i)))))

unfoldable pub forall_s_function : Interp → Effect
forall_s_function i = require_load 2 i (
    require_type 0 SliTypeid.proceduretype i (
      require_type 1 SliTypeid.stringtype i (
        at_pick 0 i (λ proc. at_pick 1 i (λ object.
          pop_operands 2
            (marker SliTypeid.iforallstringtype
              ∷ integer_token (pos (length (i.arrays proc.data_)))
              ∷ proc
              ∷ integer_token (pos 0)
              ∷ object
              ∷ marker SliTypeid.marktype
              ∷ i.estack)
            i)))))

-- A procedure under `forall` is walked as an array.
abbrev pub as_array : List Token → List Token
as_array (x ∷ y ∷ st) = x ∷ record y { type = SliTypeid.arraytype } ∷ st
as_array st = st

-- `forall_di` is the procedure of that name in the base dictionary.
abbrev pub forall_on : Token → Token → Interp → SliTypeid → Effect
forall_on forall_token forall_di i SliTypeid.proceduretype =
    forall_a_function forall_token (record i { ostack = as_array i.ostack })
forall_on forall_token forall_di i SliTypeid.litproceduretype =
    forall_a_function forall_token (record i { ostack = as_array i.ostack })
forall_on forall_token forall_di i SliTypeid.arraytype = forall_a_function forall_token i
forall_on forall_token forall_di i SliTypeid.stringtype = forall_s_function i
forall_on forall_token forall_di i SliTypeid.dictionarytype =
    pop_operands 0 (forall_di ∷ i.estack) i
forall_on forall_token forall_di i _ = raising argument_type_error i

unfoldable pub forall_function : Token → Token → Interp → Effect
forall_function forall_token forall_di i = require_load 2 i (
    at_pick 0 i (λ proc.
      if is_of_type SliTypeid.proceduretype proc
      then at_pick 1 i (λ object. forall_on forall_token forall_di i object.type)
      else raising argument_type_error i))

abbrev pub forallindexed_on : Interp → SliTypeid → Effect
forallindexed_on i SliTypeid.arraytype = forallindexed_a_function i
forallindexed_on i SliTypeid.stringtype = forallindexed_s_function i
forallindexed_on i _ = raising argument_type_error i

unfoldable pub forallindexed_function : Interp → Effect
forallindexed_function i = require_load 2 i (
    at_pick 0 i (λ proc.
      if is_of_type SliTypeid.proceduretype proc
      then at_pick 1 i (λ object. forallindexed_on i object.type)
      else raising argument_type_error i))
