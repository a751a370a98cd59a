-- ===== src/Interpreter/Exhausted.antt =====
-- The handlers of `execute_dispatch_` behind the label `body_exhausted`, one for each kind of frame,
-- and the steps of the dispatcher.
use sli.Prelude.{
  ℕ, ◌-◌, ◌^◌, Bool, not, ◌&&◌, ◌||◌, Option, none, some, List, [], ◌∷◌, length, ltb, drop,
  get_elem?, set, if◌then◌else◌,
}
use sli.Prelude.Int.{ℤ, pos, negsuc, ◌+ℤ◌, ◌-ℤ◌, ltb_ℤ}
use sli.Stack.Token.{SliTypeid, Token}
use sli.Control.Interp.{Interp, stack_underflow_error, integer_token}
use sli.Control.Unwind.{same_word}
use sli.Interpreter.Dispatch.{
  Label, State, at, exited, invalid, Services, at_index, push_operand, with_estack, outer, walk,
  resume,
}

-- A frame of `n` slots is popped, and the dispatcher goes on.
unfoldable pub popped : ℕ → Interp → State
popped n i =
    if ltb (length i.estack) n
    then invalid
    else at Label.resume_iter (with_estack (drop n i.estack) i)

-- The frame with the position 0 goes on to its next round.
abbrev pub next_round : Token → Token → List Token → Interp → State
next_round m p es i = at Label.resume_iter (with_estack (m ∷ record p { data_ = pos 0 } ∷ es) i)

abbrev pub is_positive : ℤ → Bool
is_positive n = ltb_ℤ (pos 0) n

abbrev pub at_most : ℤ → ℤ → Bool
at_most a b = not (ltb_ℤ b a)

-- The values of a `long`.
abbrev pub is_long : ℤ → Bool
is_long (pos n) = ltb n (2 ^ 63)
is_long (negsuc n) = ltb n (2 ^ 63)

unfoldable pub repeat_exhausted : Token → Token → List Token → Interp → State
repeat_exhausted m p (proc ∷ count ∷ es) i =
    if is_positive count.data_
    then next_round m p (proc ∷ record count { data_ = count.data_ -ℤ pos 1 } ∷ es) i
    else popped 5 i
repeat_exhausted m p es i = invalid

abbrev pub continues_for : ℤ → ℤ → ℤ → Bool
continues_for counter limit increment =
    (is_positive increment && at_most counter limit)
    || (ltb_ℤ increment (pos 0) && at_most limit counter)

-- A counter that leaves the range of a `long` is undefined.
unfoldable pub for_exhausted : Token → Token → List Token → Interp → State
for_exhausted m p (proc ∷ counter ∷ limit ∷ increment ∷ es) i =
    let next = counter.data_ +ℤ increment.data_ in
    if continues_for counter.data_ limit.data_ increment.data_
    then if is_long next
      then next_round m p (proc ∷ record counter { data_ = next } ∷ limit ∷ increment ∷ es)
          (push_operand counter i)
      else invalid
    else popped 7 i
for_exhausted m p es i = invalid

unfoldable pub forall_exhausted : Token → Token → List Token → Interp → State
forall_exhausted m p (proc ∷ idx ∷ object ∷ es) i =
    elim (at_index (i.arrays object.data_) idx.data_) [
      | none ↦ popped 6 i
      | some x ↦
          next_round m p (proc ∷ record idx { data_ = idx.data_ +ℤ pos 1 } ∷ object ∷ es)
            (push_operand x i)
    ]
forall_exhausted m p es i = invalid

-- A character of a string, at an index that has been tested.
unfoldable pub char_at : List ℤ → ℤ → Option ℤ
char_at s (pos n) = get_elem? s n
char_at s (negsuc n) = none

abbrev pub with_char : Option ℤ → (ℤ → State) → State
with_char none rest = invalid
with_char (some c) rest = rest c

unfoldable pub forall_string_exhausted : Token → Token → List Token → Interp → State
forall_string_exhausted m p (proc ∷ idx ∷ object ∷ es) i =
    let str = i.strings object.data_ in
    if ltb_ℤ idx.data_ (pos (length str))
    then with_char (char_at str idx.data_) (λ c.
      next_round m p (proc ∷ record idx { data_ = idx.data_ +ℤ pos 1 } ∷ object ∷ es)
        (push_operand (integer_token c) i))
    else popped 6 i
forall_string_exhausted m p es i = invalid

abbrev pub with_element : Option Token → (Token → State) → State
with_element none rest = invalid
with_element (some x) rest = rest x

unfoldable pub forallindexed_exhausted : Token → Token → List Token → Interp → State
forallindexed_exhausted m p (proc ∷ count ∷ lim ∷ object ∷ es) i =
    if ltb_ℤ count.data_ lim.data_
    then with_element (at_index (i.arrays object.data_) count.data_) (λ x.
      next_round m p (proc ∷ record count { data_ = count.data_ +ℤ pos 1 } ∷ lim ∷ object ∷ es)
        (push_operand (integer_token count.data_) (push_operand x i)))
    else popped 7 i
forallindexed_exhausted m p es i = invalid

unfoldable pub forallindexed_string_exhausted : Token → Token → List Token → Interp → State
forallindexed_string_exhausted m p (proc ∷ count ∷ lim ∷ object ∷ es) i =
    if ltb_ℤ count.data_ lim.data_
    then with_char (char_at (i.strings object.data_) count.data_) (λ c.
      next_round m p (proc ∷ record count { data_ = count.data_ +ℤ pos 1 } ∷ lim ∷ object ∷ es)
        (push_operand (integer_token count.data_) (push_operand (integer_token c) i)))
    else popped 7 i
forallindexed_string_exhausted m p es i = invalid

-- `(*target)[idx - 1] = x`
unfoldable pub stored_at : ℤ → ℤ → Token → (ℤ → List Token) → ℤ → List Token
stored_at target (pos idx) x arrays a =
    if same_word a target then set (arrays target) (idx - 1) x else arrays a
stored_at target (negsuc idx) x arrays a = arrays a

-- The beginning of a round of the map family: the result of the round before is taken from the
-- operand stack, which must hold one token more than when the map began.
unfoldable pub take_result : Services → ℤ → ℤ → ℤ → Interp → (Interp → State) → State
take_result s target idx saved_load i rest =
    if is_positive idx
    then if same_word (pos (length i.ostack)) (saved_load +ℤ pos 1)
      then elim i.ostack [
        | [] ↦ invalid
        | x ∷ st ↦
            if at_most idx (pos (length (i.arrays target)))
            then rest (record i { ostack = st; arrays = stored_at target idx x i.arrays })
            else invalid
      ]
      else at Label.resume_iter (s.raise_error stack_underflow_error i)
    else rest i

-- `operand_stack_.top() = target`, and the frame is popped.
unfoldable pub map_ends : ℕ → Token → Interp → State
map_ends n target i = elim i.ostack [
  | [] ↦ invalid
  | x ∷ st ↦ popped n (record i { ostack = target ∷ st })
]

unfoldable pub map_exhausted : Services → Token → Token → List Token → Interp → State
map_exhausted s m p (proc ∷ idx ∷ target ∷ saved ∷ es) i =
    take_result s target.data_ idx.data_ saved.data_ i (λ j.
      if ltb_ℤ idx.data_ (pos (length (j.arrays target.data_)))
      then with_element (at_index (j.arrays target.data_) idx.data_) (λ x.
        next_round m p (proc ∷ record idx { data_ = idx.data_ +ℤ pos 1 } ∷ target ∷ saved ∷ es)
          (push_operand x j))
      else map_ends 7 target j)
map_exhausted s m p es i = invalid

unfoldable pub mapindexed_exhausted : Services → Token → Token → List Token → Interp → State
mapindexed_exhausted s m p (proc ∷ idx ∷ target ∷ saved ∷ es) i =
    take_result s target.data_ idx.data_ saved.data_ i (λ j.
      if ltb_ℤ idx.data_ (pos (length (j.arrays target.data_)))
      then with_element (at_index (j.arrays target.data_) idx.data_) (λ x.
        let next = idx.data_ +ℤ pos 1 in
        next_round m p (proc ∷ record idx { data_ = next } ∷ target ∷ saved ∷ es)
          (push_operand (integer_token next) (push_operand x j)))
      else map_ends 7 target j)
mapindexed_exhausted s m p es i = invalid

-- The elements of the rows of `sources` in a column, the first row's deepest.
unfoldable pub push_column : List Token → ℤ → Interp → Option Interp
push_column [] idx i = some i
push_column (row ∷ rows) idx i = elim (at_index (i.arrays row.data_) idx) [
  | none ↦ none
  | some x ↦ push_column rows idx (push_operand x i)
]

abbrev pub with_column : Option Interp → (Interp → State) → State
with_column none rest = invalid
with_column (some i) rest = rest i

unfoldable pub mapthread_exhausted : Services → Token → Token → List Token → Interp → State
mapthread_exhausted s m p (proc ∷ idx ∷ result ∷ sources ∷ saved ∷ es) i =
    take_result s result.data_ idx.data_ saved.data_ i (λ j.
      if ltb_ℤ idx.data_ (pos (length (j.arrays result.data_)))
      then with_column (push_column (j.arrays sources.data_) idx.data_ j) (
          next_round m p
            (proc ∷ record idx { data_ = idx.data_ +ℤ pos 1 } ∷ result ∷ sources ∷ saved ∷ es))
      else map_ends 8 result j)
mapthread_exhausted s m p es i = invalid

-- The switch on the marker of the frame.
unfoldable pub exhausted_by : Services → SliTypeid → Token → Token → List Token → Interp → State
exhausted_by s SliTypeid.iiteratetype m p es i = popped 3 i
exhausted_by s SliTypeid.irepeattype m p es i = repeat_exhausted m p es i
exhausted_by s SliTypeid.ifortype m p es i = for_exhausted m p es i
exhausted_by s SliTypeid.iforalltype m p es i = forall_exhausted m p es i
exhausted_by s SliTypeid.ilooptype m p es i = next_round m p es i
exhausted_by s SliTypeid.iforallstringtype m p es i = forall_string_exhausted m p es i
exhausted_by s SliTypeid.iforallindexedarraytype m p es i = forallindexed_exhausted m p es i
exhausted_by s SliTypeid.iforallindexedstringtype m p es i = forallindexed_string_exhausted m p es i
exhausted_by s SliTypeid.imaptype m p es i = map_exhausted s m p es i
exhausted_by s SliTypeid.imapindexedtype m p es i = mapindexed_exhausted s m p es i
exhausted_by s SliTypeid.imapthreadtype m p es i = mapthread_exhausted s m p es i
exhausted_by s _ m p es i = invalid

unfoldable pub exhausted : Services → Interp → List Token → State
exhausted s i (m ∷ p ∷ es) = exhausted_by s m.type m p es i
exhausted s i _ = invalid

-- One step.
unfoldable pub step : Services → ℕ → State → State
step s exitlevel (at Label.outer_switch i) = outer s exitlevel i i.estack
step s exitlevel (at Label.body_walk i) = walk s i i.estack
step s exitlevel (at Label.body_exhausted i) = exhausted s i i.estack
step s exitlevel (at Label.resume_iter i) = resume i i.estack
step s exitlevel (exited i) = exited i
step s exitlevel invalid = invalid

-- What the dispatcher comes to, in any number of steps.
pub data Reach (s : Services) (exitlevel : ℕ) : State → State → Type 0 where
  here : {x : State} → Reach s exitlevel x x
  next : {x y : State} → Reach s exitlevel (step s exitlevel x) y → Reach s exitlevel x y
