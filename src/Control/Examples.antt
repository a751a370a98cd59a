-- ===== src/Control/Examples.antt =====
-- The theorems on the control operators at small stacks.
use sli.Prelude.{◌≡◌, refl, false, true, List, [], ◌∷◌, ◌++◌, drop}
use sli.Prelude.Int.{ℤ, pos}
use sli.Stack.Token.{SliTypeid, Token}
use sli.Trie.TypeNode.{tag_of}
use sli.Control.Interp.{
  Interp, finished, broken, is_of_type, marker, integer_token, bool_token, require_load,
  require_type, at_pick, pop_operands,
}
use sli.Control.Loops.{repeat_function}
use sli.Control.Unwind.{
  exit_function, stopped_function, stop_function, return_function, is_name_token,
}
use sli.Control.Choices.{switch_function, switch_loop}
use sli.Control.Stops.{stop-stopped}
use sli.Control.Returns.{return_function-unwinds}
use sli.Control.Shapes.{IsFrame}
use sli.Control.Framed.{is_mark}
use sli.Control.Frames.{LoopOperator, begin_loop, operands, loop_type, loop_marker, exit-begin_loop}
use sli.Control.Marks.{put_onto, switch_function-moves}

abbrev proc : Token
proc = record { type = SliTypeid.proceduretype; data_ = pos 1 }

abbrev machine : List Token → List Token → Interp
machine ostack estack = record {
  ostack = ostack;
  estack = estack;
  arrays = λ p. integer_token (pos 7) ∷ [];
  strings = λ p. [];
}

abbrev quit : Token
quit = marker SliTypeid.quittype

abbrev three : Token
three = integer_token (pos 3)

abbrev running : Interp
running = machine (proc ∷ three ∷ []) (quit ∷ [])

abbrev repeating : Interp
repeating = machine [] (
    marker SliTypeid.irepeattype
    ∷ integer_token (pos 1)
    ∷ proc
    ∷ three
    ∷ marker SliTypeid.marktype
    ∷ quit
    ∷ [])

repeat_begins :
    begin_loop
      (marker SliTypeid.marktype)
      (marker SliTypeid.iforalltype)
      LoopOperator.repeat_op
      running
    ≡ finished repeating
unfolding repeat_function require_load require_type at_pick pop_operands is_of_type tag_of
repeat_begins = refl

abbrev inside : Interp
inside = machine (three ∷ []) (proc ∷ repeating.estack)

mark_token-is_mark : is_mark (marker SliTypeid.marktype) ≡ true
unfolding is_of_type tag_of
mark_token-is_mark = refl

forall_token-is_mark : is_mark (marker SliTypeid.iforalltype) ≡ false
unfolding is_of_type tag_of
forall_token-is_mark = refl

proc-is_mark : is_mark proc ≡ false
unfolding is_of_type tag_of
proc-is_mark = refl

three-is_mark : is_mark three ≡ false
unfolding is_of_type tag_of
three-is_mark = refl

exit-begin_loop_example :
    (repeating.ostack ≡ drop (operands LoopOperator.repeat_op) running.ostack)
    × (slots : List Token) × (m : Token) × (repeating.estack
        ≡ loop_marker (marker SliTypeid.iforalltype) LoopOperator.repeat_op ∷ slots
          ++ m ∷ running.estack)
    × IsFrame (loop_type LoopOperator.repeat_op) (slots ++ m ∷ [])
    × (is_mark m ≡ true)
    × (exit_function inside ≡ finished (record inside { estack = running.estack }))
exit-begin_loop_example =
    exit-begin_loop (marker SliTypeid.marktype) (marker SliTypeid.iforalltype) mark_token-is_mark
      forall_token-is_mark LoopOperator.repeat_op running repeating inside (proc ∷ []) repeat_begins
      refl (proc-is_mark, tt)

abbrev istopped : ℤ
istopped = pos 40

abbrev stopping : Interp
stopping =
    machine (three ∷ []) (proc ∷ record { type = SliTypeid.nametype; data_ = istopped } ∷ quit ∷ [])

stopped_begins : stopped_function istopped running ≡ finished stopping
unfolding stopped_function require_load at_pick pop_operands
stopped_begins = refl

abbrev raised_within : Interp
raised_within =
    machine [] (three ∷ record { type = SliTypeid.nametype; data_ = istopped } ∷ quit ∷ [])

three-is_name_token : is_name_token istopped three ≡ false
unfolding is_name_token is_of_type tag_of
three-is_name_token = refl

stop-stopped_example :
    stop_function istopped raised_within
    ≡ finished (record raised_within {
      ostack = bool_token true ∷ raised_within.ostack;
      estack = running.estack;
    })
stop-stopped_example =
    stop-stopped istopped running stopping raised_within (three ∷ []) stopped_begins refl
      (three-is_name_token, tt)

abbrev loop_frame : List Token
loop_frame =
    marker SliTypeid.irepeattype
    ∷ integer_token (pos 1)
    ∷ proc
    ∷ three
    ∷ marker SliTypeid.marktype
    ∷ []

abbrev outer_frame : List Token
outer_frame =
    marker SliTypeid.ifortype
    ∷ integer_token (pos 1)
    ∷ proc
    ∷ three
    ∷ three
    ∷ three
    ∷ marker SliTypeid.marktype
    ∷ []

abbrev in_procedure : Interp
in_procedure = machine [] (
    loop_frame
    ++ outer_frame
    ++ marker SliTypeid.iiteratetype ∷ integer_token (pos 2) ∷ proc ∷ quit ∷ [])

return_function-unwinds_example :
    return_function in_procedure ≡ finished (record in_procedure { estack = quit ∷ [] })
return_function-unwinds_example =
    return_function-unwinds (loop_frame ∷ outer_frame ∷ []) in_procedure (quit ∷ [])
      (marker SliTypeid.iiteratetype) (integer_token (pos 2)) proc
      (IsFrame.repeat_frame _ _ _ _, (IsFrame.for_frame _ _ _ _ _ _, tt)) refl refl

abbrev choosing : Interp
choosing = machine (proc ∷ three ∷ marker SliTypeid.marktype ∷ []) (quit ∷ [])

-- Without a mark `switch` reads below the operand stack.
switch_unmatched : switch_function three (machine (proc ∷ []) (quit ∷ [])) ≡ broken
unfolding switch_function switch_loop require_load is_of_type tag_of
switch_unmatched = refl

switch_function-moves_example :
    switch_function three choosing
    ≡ finished (record choosing {
      ostack = [];
      estack = put_onto (three ∷ marker SliTypeid.marktype ∷ choosing.estack) (proc ∷ three ∷ []);
    })
switch_function-moves_example =
    switch_function-moves three choosing (proc ∷ three ∷ []) [] (marker SliTypeid.marktype) refl
      (proc-is_mark, (three-is_mark, tt)) mark_token-is_mark
