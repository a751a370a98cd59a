-- ===== src/Stack/Examples.antt =====
-- The theorems on the stack operators at concrete stacks.
use sli.Prelude.{◌≡◌, refl, List, [], ◌∷◌, arith}
use sli.Prelude.Int.{pos, negsuc}
use sli.Stack.Token.{SliTypeid, Token}
use sli.Stack.TokenStack.{to_array}
use sli.Stack.Operators.{
  Machine, done, out_of_bounds, push_array, store_array, roll_function, copy_function,
  index_function, operandstack_function, restoreostack_function, execstack_function,
  restoreestack_function,
}
use sli.Stack.Rolls.{operands, roll_function-shifts, roll_function-below}
use sli.Stack.Copies.{number, copy_function-take, index_function-indexed}
use sli.Stack.Errors.{Operator, Sound, execute, execute-Sound}
use sli.Stack.Saves.{saved, restoreostack-operandstack, restoreestack-execstack}

abbrev machine : List Token → Machine
machine st = record {
  ostack = st;
  estack = number 8 ∷ number 9 ∷ [];
  arrays = λ p. [];
  next_array = 4;
}

-- 1 2 3
abbrev three : List Token
three = number 3 ∷ number 2 ∷ number 1 ∷ []

abbrev integer : SliTypeid
integer = SliTypeid.integertype

roll_function-shifts_example :
    roll_function (machine (operands integer (pos 4) 3 three))
    ≡ done (machine (number 2 ∷ number 1 ∷ number 3 ∷ []))
roll_function-shifts_example =
    roll_function-shifts (machine (operands integer (pos 4) 3 three)) integer 4 3 three refl
      (omega arith)

-- 3 -4 roll leaves the elements where they are, which four shifts back would not.
roll_function-below_example :
    roll_function (machine (operands integer (negsuc 3) 3 three)) ≡ done (machine three)
roll_function-below_example =
    roll_function-below (machine (operands integer (negsuc 3) 3 three)) integer 3 3 three refl
      (omega arith) (omega arith) (omega arith) (omega arith)

copy_function-take_example :
    copy_function (machine (number 2 ∷ three))
    ≡ done (machine (number 3 ∷ number 2 ∷ number 3 ∷ number 2 ∷ number 1 ∷ []))
copy_function-take_example =
    copy_function-take (machine (number 2 ∷ three)) 2 three refl (omega arith)

-- 3 index, above three elements.
index_function-indexed_example : index_function (machine (number 3 ∷ three)) ≡ out_of_bounds
index_function-indexed_example = index_function-indexed (machine (number 3 ∷ three)) 3 three refl

execute-Sound_example :
    Sound (machine (number 5 ∷ three)) (execute Operator.copy (machine (number 5 ∷ three)))
execute-Sound_example = execute-Sound Operator.copy (machine (number 5 ∷ three)) cc

-- The machine after the array of three elements is made.
abbrev with_array : List Token → Machine
with_array st = record (machine st) {
  arrays = store_array 4 (number 1 ∷ number 2 ∷ number 3 ∷ []) (λ p. []);
  next_array = 5;
}

restoreostack-operandstack_example :
    restoreostack_function (with_array (saved (machine three) ∷ number 7 ∷ []))
    ≡ done (with_array three)
unfolding operandstack_function push_array store_array to_array
restoreostack-operandstack_example =
    restoreostack-operandstack (machine three) (with_array (saved (machine three) ∷ three))
      (with_array (saved (machine three) ∷ number 7 ∷ [])) (number 7 ∷ []) refl refl refl

-- The machine after the array of its execution stack is made.
abbrev with_frames : List Token → List Token → Machine
with_frames st frames = record {
  ostack = st;
  estack = frames;
  arrays = store_array 4 (number 9 ∷ number 8 ∷ []) (λ p. []);
  next_array = 5;
}

restoreestack-execstack_example :
    restoreestack_function (with_frames (saved (machine three) ∷ number 7 ∷ []) [])
    ≡ done (with_frames (number 7 ∷ []) (number 8 ∷ number 9 ∷ []))
unfolding execstack_function push_array store_array to_array
restoreestack-execstack_example =
    restoreestack-execstack (machine three)
      (with_frames (saved (machine three) ∷ three) (number 8 ∷ number 9 ∷ []))
      (with_frames (saved (machine three) ∷ number 7 ∷ []) []) (number 7 ∷ []) refl refl refl
