-- ===== src/Control/Choices.antt =====
-- The operators of src/builtins/sli_control.cpp that choose what is executed, with the body of `if` in
-- src/builtins/sli_op_bodies.h.
use sli.Prelude.{
  ℕ, suc, ◌+◌, Bool, true, false, ◌&&◌, Option, none, some, List, [], ◌∷◌, if◌then◌else◌,
}
use sli.Prelude.Int.{pos}
use sli.Stack.Token.{SliTypeid, Token}
use sli.Control.Interp.{
  Interp, Effect, finished, raising, thrown, broken, unmatched_mark, argument_type_error,
  type_exception, is_of_type, marker, bool_token, integer_token, bool_val, require_load,
  require_type, at_pick, pop_operands,
}

unfoldable pub hot_op_if : Interp → Effect
hot_op_if i = require_load 2 i (
    require_type 1 SliTypeid.booltype i (
      at_pick 1 i (λ test.
        at_pick 0 i
          (λ object. pop_operands 2 (if bool_val test then object ∷ i.estack else i.estack) i))))

unfoldable pub ifelse_function : Interp → Effect
ifelse_function i = require_load 3 i (
    require_type 2 SliTypeid.booltype i (
      at_pick 2 i (λ test. at_pick 1 i (λ yes.
        at_pick 0 i (λ no. pop_operands 3 ((if bool_val test then yes else no) ∷ i.estack) i)))))

unfoldable pub exec_function : Interp → Effect
exec_function i = require_load 1 i (at_pick 0 i (λ object. pop_operands 1 (object ∷ i.estack) i))

-- `currentname` finds no name.
unfoldable pub currentname_function : Interp → Effect
currentname_function i = finished (record i { ostack = bool_token false ∷ i.ostack })

-- `operator==(bool)`
unfoldable pub is_bool : Bool → Token → Bool
is_bool b x =
    is_of_type SliTypeid.booltype x
    && (if b then bool_val x else (if bool_val x then false else true))

unfoldable pub case_function : Interp → Effect
case_function i = require_load 2 i (
    at_pick 1 i (λ test. at_pick 0 i (λ object.
      if is_bool true test
      then elim i.ostack [
        | [] ↦ broken
        | x ∷ st ↦ elim st [ [] ↦ broken | y ∷ st' ↦ finished (record i { ostack = object ∷ st' }) ]
      ]
      else if is_bool false test
      then pop_operands 2 i.estack i
      else raising argument_type_error i)))

-- The loop of `switch` from a position on: what it has put on the execution stack, and where it has
-- found the mark. When no mark is left, it reads the slot below the last one.
unfoldable pub switch_loop : List Token → ℕ → List Token → Option (ℕ × List Token)
switch_loop [] p moved = none
switch_loop (x ∷ st) p moved =
    let rest = switch_loop st (suc p) (x ∷ moved) in
    if is_of_type SliTypeid.marktype x then some (p, moved) else rest

abbrev pub switched : Interp → Option (ℕ × List Token) → Effect
switched i none = broken
switched i (some (p, estack)) = pop_operands (p + 1) estack i

-- `ipop_token` is what `ipop_name` has in the base dictionary.
unfoldable pub switch_function : Token → Interp → Effect
switch_function ipop_token i =
    require_load 1 i
      (switched i (switch_loop i.ostack 0 (ipop_token ∷ marker SliTypeid.marktype ∷ i.estack)))

-- `switchdefault` drops the default where there is anything else between it and the mark.
abbrev pub drop_default : List Token → List Token
drop_default (x ∷ y ∷ st) =
    if is_of_type SliTypeid.marktype y
    then x ∷ y ∷ st
    else if is_of_type SliTypeid.marktype x
    then x ∷ y ∷ st
    else y ∷ st
drop_default st = st

abbrev pub switchdefault_on : Token → Interp → List Token → Effect
switchdefault_on ipop_token i [] =
    thrown type_exception (record i { estack = ipop_token ∷ marker SliTypeid.marktype ∷ i.estack })
switchdefault_on ipop_token i (x ∷ st) =
    let j = record i { ostack = drop_default (x ∷ st) } in
    switched j (switch_loop j.ostack 0 (ipop_token ∷ marker SliTypeid.marktype ∷ i.estack))

unfoldable pub switchdefault_function : Token → Interp → Effect
switchdefault_function ipop_token i = switchdefault_on ipop_token i i.ostack

-- The loop of `counttomark`: how many slots stand above the first mark.
unfoldable pub count_loop : List Token → ℕ → Option ℕ
count_loop [] p = none
count_loop (x ∷ st) p =
    let rest = count_loop st (suc p) in if is_of_type SliTypeid.marktype x then some p else rest

unfoldable pub counttomark_function : Interp → Effect
counttomark_function i = elim (count_loop i.ostack 0) [
  | none ↦ raising unmatched_mark i
  | some n ↦ finished (record i { ostack = integer_token (pos n) ∷ i.ostack })
]
