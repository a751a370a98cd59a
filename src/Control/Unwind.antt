-- ===== src/Control/Unwind.antt =====
-- The operators of src/builtins/sli_control.cpp that unwind the execution stack.
use sli.Prelude.{
  ℕ, zero, suc, ◌+◌, Bool, true, false, ◌&&◌, ◌||◌, Option, none, some, List, [], ◌∷◌, length, ◌==◌,
  get_elem?, if◌then◌else◌,
}
use sli.Prelude.Int.{ℤ, pos, negsuc}
use sli.Stack.Token.{SliTypeid, Token}
use sli.Control.Interp.{
  Interp, Effect, finished, raising, estack_underflow, invalid_return, is_of_type, bool_token,
  require_load, at_pick, pop_operands, pop_execution,
}

-- The scans of `exit`, `stop` and `closeinput`: how many slots stand above the first that passes.
unfoldable pub scan_stack : (Token → Bool) → List Token → Option ℕ
scan_stack test [] = none
scan_stack test (x ∷ st) =
    let rest = scan_stack test st in
    if test x then some 0 else elim rest [ none ↦ none | some n ↦ some (suc n) ]

abbrev pub pop_through : Option ℕ → Effect → Interp → Effect
pop_through none missing i = missing
pop_through (some n) missing i = pop_execution (n + 1) i

unfoldable pub exit_function : Interp → Effect
exit_function i =
    pop_through (scan_stack (is_of_type SliTypeid.marktype) i.estack) (raising estack_underflow i) i

abbrev pub same_word : ℤ → ℤ → Bool
same_word (pos m) (pos n) = m == n
same_word (negsuc m) (negsuc n) = m == n
same_word _ _ = false

-- `operator==(Name)`
unfoldable pub is_name_token : ℤ → Token → Bool
is_name_token name x =
    (is_of_type SliTypeid.nametype x
      || is_of_type SliTypeid.literaltype x
      || is_of_type SliTypeid.symboltype x)
    && same_word x.data_ name

-- `istopped_name` is the handle of the name that `stopped` leaves behind.
unfoldable pub stopped_function : ℤ → Interp → Effect
stopped_function istopped_name i = require_load 1 i (
    at_pick 0 i (λ object.
      pop_operands 1
        (object ∷ record { type = SliTypeid.nametype; data_ = istopped_name } ∷ i.estack) i))

unfoldable pub stop_function : ℤ → Interp → Effect
stop_function istopped_name i =
    let found = scan_stack (is_name_token istopped_name) i.estack in
    pop_through found (finished (record i { estack = [] }))
      (elim found [ none ↦ i | some n ↦ record i { ostack = bool_token true ∷ i.ostack } ])

-- `start_name` is the handle of the name `start`.
unfoldable pub closeinput_function : ℤ → Interp → Effect
closeinput_function start_name i =
    pop_through (scan_stack (is_of_type SliTypeid.xistreamtype) i.estack)
      (finished
        (record i { estack = record { type = SliTypeid.nametype; data_ = start_name } ∷ [] }))
      i

-- The size of the frame of a loop below the marker on its top; `none` for another slot.
unfoldable pub frame_size : SliTypeid → Option ℕ
frame_size SliTypeid.iforalltype = some 6
frame_size SliTypeid.iforallstringtype = some 6
frame_size SliTypeid.ifortype = some 7
frame_size SliTypeid.iforallindexedarraytype = some 7
frame_size SliTypeid.iforallindexedstringtype = some 7
frame_size SliTypeid.imaptype = some 7
frame_size SliTypeid.imapindexedtype = some 7
frame_size SliTypeid.ilooptype = some 4
frame_size SliTypeid.irepeattype = some 5
frame_size SliTypeid.imapthreadtype = some 8
frame_size _ = none

-- The switch of `return` on a slot that is not that of a procedure.
abbrev pub return_past : Option ℕ → ℕ → (ℕ → Effect) → Interp → Effect
return_past (some frame) n again i = again (n + frame)
return_past none zero again i = raising invalid_return i
return_past none (suc n) again i = pop_execution (suc n) i

abbrev pub return_at : SliTypeid → ℕ → (ℕ → Effect) → Interp → Effect
return_at SliTypeid.iiteratetype n again i = pop_execution (n + 3) i
return_at t n again i = return_past (frame_size t) n again i

-- The loop of `return`. A round goes at least four slots down, and the fuel is one round for each slot.
unfoldable pub return_loop : ℕ → ℕ → Interp → Effect
return_loop zero n i = raising invalid_return i
return_loop (suc fuel) n i = elim (get_elem? i.estack n) [
  | none ↦ raising invalid_return i
  | some x ↦ return_at x.type n (λ m. return_loop fuel m i) i
]

unfoldable pub return_function : Interp → Effect
return_function i = return_loop (length i.estack + 1) 0 i
