-- ===== src/Interpreter/Examples.antt =====
-- The theorems on the dispatcher for a function that pushes a number.
use sli.Prelude.{ℕ, ◌<◌, ◌≡◌, refl, false, true, none, List, [], ◌∷◌, length, arith}
use sli.Prelude.Int.{ℤ, pos, negsuc, ◌+ℤ◌}
use sli.Stack.Token.{SliTypeid, Token}
use sli.Trie.TypeNode.{tag_of, null}
use sli.Control.Interp.{Interp, finished, is_of_type, marker, integer_token}
use sli.Control.Loops.{repeat_function, for_function}
use sli.Interpreter.Dispatch.{Label, at, invalid, Services, outer, dispatch}
use sli.Interpreter.Exhausted.{step, Reach, exhausted, exhausted_by, for_exhausted}
use sli.Interpreter.Bodies.{Acts, act_all}
use sli.Interpreter.Procedure.{procedure-runs}
use sli.Interpreter.Repeat.{times, repeat_function-runs}
use sli.Interpreter.Counts.{ValuesUpTo}
use sli.Interpreter.For.{counted, for_function-runs}

abbrev seven : Token
seven = integer_token (pos 7)

abbrev push_seven : List Token → List Token
push_seven st = seven ∷ st

abbrev services : Services
services = record {
  lookup_name = λ n i. none;
  tries = λ n. null;
  execute_function = λ n i. finished (record i { ostack = push_seven i.ostack });
  execute_type = λ t i. finished i;
  raise_error = λ e i. i;
  raise_exception = λ e i. i;
  show_backtrace = false;
}

abbrev seven_function : Token
seven_function = record { type = SliTypeid.functiontype; data_ = pos 1 }

abbrev body : Token
body = record { type = SliTypeid.proceduretype; data_ = pos 5 }

abbrev start : List Token → Interp
start ostack = record {
  ostack = ostack;
  estack = marker SliTypeid.quittype ∷ [];
  arrays = λ p. seven_function ∷ [];
  strings = λ p. [];
}

seven-Acts : Acts services push_seven seven_function
seven-Acts = record { is_function = refl; acts = λ i. refl }

body_type : is_of_type SliTypeid.proceduretype body ≡ true
unfolding is_of_type tag_of
body_type = refl

integer_type : (n : ℤ) → is_of_type SliTypeid.integertype (integer_token n) ≡ true
unfolding is_of_type tag_of
integer_type n = refl

-- An integer on top of the execution stack becomes an operand.
number_in_body :
    step services 0 (at Label.outer_switch (record (start []) { estack = seven ∷ [] }))
    ≡ at Label.outer_switch (record (start []) { ostack = seven ∷ []; estack = [] })
unfolding step outer dispatch
number_in_body = refl

-- When a counter has reached the greatest `long`, the next one overflows.
for_overflows :
    step services 0 (
      at Label.body_exhausted (record (start []) {
        estack =
            marker SliTypeid.ifortype
            ∷ integer_token (pos 1)
            ∷ body
            ∷ integer_token (pos 9223372036854775807)
            ∷ integer_token (pos 9223372036854775807)
            ∷ integer_token (pos 1)
            ∷ marker SliTypeid.marktype
            ∷ [];
      }))
    ≡ invalid
unfolding step exhausted exhausted_by for_exhausted ◌+ℤ◌
for_overflows = refl

repeat_function-runs_example :
    (j : Interp) × (repeat_function (start (body ∷ integer_token (pos 3) ∷ [])) ≡ finished j)
    × Reach services 0 (at Label.resume_iter j) (
        at Label.resume_iter (record (start (body ∷ integer_token (pos 3) ∷ [])) {
          ostack = times 3 (act_all (push_seven ∷ [])) [];
        }))
repeat_function-runs_example =
    repeat_function-runs services 0 3 (push_seven ∷ []) (start (body ∷ integer_token (pos 3) ∷ []))
      body (integer_token (pos 3)) [] refl body_type (integer_type (pos 3)) refl (seven-Acts, tt)

abbrev for_operands : List Token
for_operands = body ∷ integer_token (pos 4) ∷ integer_token (pos 2) ∷ integer_token (negsuc 0) ∷ []

for_function-runs_example :
    (k : ℕ) × (j : Interp) × ValuesUpTo (pos 4) (pos 2) k (negsuc 0)
    × (for_function (start for_operands) ≡ finished j)
    × Reach services 0 (at Label.resume_iter j) (
        at Label.resume_iter (record (start for_operands) {
          ostack = counted (pos 2) (act_all (push_seven ∷ [])) k (integer_token (negsuc 0)) [];
        }))
unfolding ◌+ℤ◌
for_function-runs_example =
    for_function-runs services 0 (push_seven ∷ []) (start for_operands) body (integer_token (pos 4))
      (integer_token (pos 2)) (integer_token (negsuc 0)) [] refl body_type (integer_type (pos 4))
      (integer_type (pos 2)) (integer_type (negsuc 0)) refl refl refl (seven-Acts, tt)

abbrev procedure_start : List Token → List Token → Interp
procedure_start ostack estack = record {
  ostack = ostack;
  estack = estack;
  arrays = λ p. seven_function ∷ seven_function ∷ [];
  strings = λ p. [];
}

two_on_stack : 0 < length (body ∷ marker SliTypeid.quittype ∷ [])
two_on_stack = omega arith

procedure-runs_example :
    Reach services 0
      (at Label.outer_switch (procedure_start [] (body ∷ marker SliTypeid.quittype ∷ [])))
      (at Label.outer_switch (
        procedure_start
          (act_all (push_seven ∷ []) [])
          (seven_function ∷ marker SliTypeid.quittype ∷ [])))
    × Reach services 0
        (at Label.outer_switch (procedure_start [] (body ∷ marker SliTypeid.quittype ∷ [])))
        (at Label.outer_switch (
          procedure_start
            (push_seven (act_all (push_seven ∷ []) []))
            (marker SliTypeid.quittype ∷ [])))
procedure-runs_example =
    procedure-runs services 0 (seven_function ∷ []) (push_seven ∷ []) seven_function push_seven
      (procedure_start [] (body ∷ marker SliTypeid.quittype ∷ [])) body
      (marker SliTypeid.quittype ∷ []) (seven-Acts, tt) seven-Acts refl refl refl refl two_on_stack
