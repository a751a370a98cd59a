-- ===== src/Interpreter/Dispatch.antt =====
-- `execute_dispatch_` of src/interpreter/sli_interpreter.cpp, cut into steps at its labels. A step is
-- one pass of the outer switch, or what stands between two of the labels `body_walk`,
-- `body_exhausted` and `resume_iter`. Signals do not come, and calls are not counted.
use sli.Prelude.{
  ℕ, Bool, true, false, not, ◌&&◌, Option, none, some, List, [], ◌∷◌, length, leb, get_elem?,
  if◌then◌else◌,
}
use sli.Prelude.Int.{ℤ, pos, negsuc, ◌+ℤ◌}
use sli.Stack.Token.{SliTypeid, Token}
use sli.Trie.TypeNode.{
  TypeNode, Match, bound, argument_type, trie_underflow, null_pointer, lookup_function,
}
use sli.Control.Interp.{
  Interp, Effect, finished, raising, thrown, broken, ErrorName, Exception, underflow_exception,
  type_exception, undefined_exception, is_of_type, marker, integer_token,
}

pub data Label : Type 0 where
  outer_switch body_walk body_exhausted resume_iter : Label

-- Where the dispatcher is, that it has left the loop, or that it has read or written outside of a
-- vector or of the range of a `long`.
pub data State : Type 0 where
  at : Label → Interp → State
  exited : Interp → State
  invalid : State

-- What the dispatcher calls: the lookup of a name, the tries, the function behind a function token,
-- `execute` of the other types with the case of `iparsetype`, and `raiseerror`.
pub record Services : Type 0 where
  pub lookup_name : ℤ → Interp → Option Token
  pub tries : ℤ → TypeNode
  pub execute_function : ℤ → Interp → Effect
  pub execute_type : Token → Interp → Effect
  pub raise_error : ErrorName → Interp → Interp
  pub raise_exception : Exception → Interp → Interp
  pub show_backtrace : Bool

-- `is_executable()`; `nulltype` is the type of a token without one.
unfoldable pub is_executable : SliTypeid → Bool
is_executable SliTypeid.nulltype = false
is_executable SliTypeid.literaltype = false
is_executable SliTypeid.symboltype = false
is_executable SliTypeid.marktype = false
is_executable SliTypeid.istreamtype = false
is_executable SliTypeid.ostreamtype = false
is_executable SliTypeid.graphicscontexttype = false
is_executable SliTypeid.patterntype = false
is_executable _ = true

-- The types whose markers stand on the frame of a body.
unfoldable pub is_iteration : SliTypeid → Bool
is_iteration SliTypeid.iiteratetype = true
is_iteration SliTypeid.irepeattype = true
is_iteration SliTypeid.ifortype = true
is_iteration SliTypeid.iforalltype = true
is_iteration SliTypeid.ilooptype = true
is_iteration SliTypeid.iforallstringtype = true
is_iteration SliTypeid.iforallindexedarraytype = true
is_iteration SliTypeid.iforallindexedstringtype = true
is_iteration SliTypeid.imaptype = true
is_iteration SliTypeid.imapindexedtype = true
is_iteration SliTypeid.imapthreadtype = true
is_iteration _ = false

abbrev pub push_operand : Token → Interp → Interp
push_operand x i = record i { ostack = x ∷ i.ostack }

abbrev pub with_estack : List Token → Interp → Interp
with_estack es i = record i { estack = es }

-- A call has come back, or an exception is caught by the outer loop.
unfoldable pub resumed : Services → Label → Effect → State
resumed s l (finished i) = at l i
resumed s l (raising e i) = at l (s.raise_error e i)
resumed s l (thrown e i) = at Label.outer_switch (s.raise_exception e i)
resumed s l broken = invalid

-- The slot of the execution stack with `es` below it gets the token, or the token is an operand.
unfoldable pub replaced : Token → List Token → Interp → State
replaced x es i =
    if is_executable x.type
    then at Label.outer_switch (with_estack (x ∷ es) i)
    else at Label.outer_switch (with_estack es (push_operand x i))

unfoldable pub replaced_by_name : Services → Option Token → List Token → Interp → State
replaced_by_name s none es i = resumed s Label.outer_switch (thrown undefined_exception i)
replaced_by_name s (some x) es i = replaced x es i

unfoldable pub replaced_by_match : Services → Match → List Token → Interp → State
replaced_by_match s (bound none) es i = replaced (marker SliTypeid.nulltype) es i
replaced_by_match s (bound (some x)) es i = replaced x es i
replaced_by_match s (argument_type l) es i = resumed s Label.outer_switch (thrown type_exception i)
replaced_by_match s (trie_underflow n m) es i =
    resumed s Label.outer_switch (thrown (underflow_exception n m) i)
replaced_by_match s null_pointer es i = invalid

abbrev pub as_operand : Token → List Token → Interp → State
as_operand x es i = at Label.outer_switch (with_estack es (push_operand x i))

-- The outer switch, at a token on top of the execution stack.
unfoldable pub dispatch : Services → SliTypeid → Token → List Token → Interp → State
dispatch s SliTypeid.integertype x es i = as_operand x es i
dispatch s SliTypeid.doubletype x es i = as_operand x es i
dispatch s SliTypeid.booltype x es i = as_operand x es i
dispatch s SliTypeid.literaltype x es i = as_operand x es i
dispatch s SliTypeid.marktype x es i = as_operand x es i
dispatch s SliTypeid.stringtype x es i = as_operand x es i
dispatch s SliTypeid.arraytype x es i = as_operand x es i
dispatch s SliTypeid.dictionarytype x es i = as_operand x es i
dispatch s SliTypeid.nametype x es i = replaced_by_name s (s.lookup_name x.data_ i) es i
dispatch s SliTypeid.trietype x es i =
    replaced_by_match s (lookup_function i.ostack (s.tries x.data_)) es i
dispatch s SliTypeid.litproceduretype x es i =
    as_operand (record x { type = SliTypeid.proceduretype }) es i
dispatch s SliTypeid.functiontype x es i =
    resumed s Label.outer_switch (s.execute_function x.data_ (with_estack es i))
dispatch s SliTypeid.proceduretype x es i =
    at Label.body_walk
      (with_estack (marker SliTypeid.iiteratetype ∷ integer_token (pos 0) ∷ x ∷ es) i)
dispatch s SliTypeid.quittype x es i = exited i
dispatch s t x es i =
    if is_iteration t
    then at Label.body_walk i
    else resumed s Label.outer_switch (s.execute_type x i)

unfoldable pub outer : Services → ℕ → Interp → List Token → State
outer s exitlevel i [] = exited i
outer s exitlevel i (x ∷ es) =
    if leb (length (x ∷ es)) exitlevel then exited i else dispatch s x.type x es i

-- `index_is_valid` and `get`, at a `long`.
unfoldable pub at_index : List Token → ℤ → Option Token
at_index a (pos n) = get_elem? a n
at_index a (negsuc n) = none

abbrev pub is_set : Option Token → Bool
is_set none = false
is_set (some x) = true

abbrev pub or_exhausted : Bool → Label
or_exhausted b = if b then Label.body_walk else Label.body_exhausted

-- A name in a body has been looked up.
unfoldable pub walk_name : Services → Option Token → Interp → State
walk_name s none i = resumed s Label.outer_switch (thrown undefined_exception i)
walk_name s (some r) i =
    if is_of_type SliTypeid.functiontype r
    then resumed s Label.resume_iter (s.execute_function r.data_ i)
    else if is_executable r.type
    then at Label.outer_switch (with_estack (r ∷ i.estack) i)
    else at Label.body_walk (push_operand r i)

-- An executable token of a body; `more` says whether another one follows.
unfoldable pub walk_token : Services → SliTypeid → Token → Bool → Interp → State
walk_token s SliTypeid.functiontype t more i =
    resumed s Label.resume_iter (s.execute_function t.data_ i)
walk_token s SliTypeid.nametype t more i = walk_name s (s.lookup_name t.data_ i) i
walk_token s SliTypeid.litproceduretype t more i =
    at (or_exhausted more) (push_operand (record t { type = SliTypeid.proceduretype }) i)
walk_token s _ t more i = at Label.outer_switch (with_estack (t ∷ i.estack) i)

-- `body_walk`: the next token of the body, from the frame `m`, `p`, `proc` with `es` below it.
unfoldable pub walk_next :
    Services → Token → Token → Token → List Token → Interp → Option Token → State
walk_next s m p proc es i none = at Label.body_exhausted i
walk_next s m p proc es i (some t) =
    let next = p.data_ +ℤ pos 1 in
    let more = is_set (at_index (i.arrays proc.data_) next) in
    let j = with_estack (m ∷ record p { data_ = next } ∷ proc ∷ es) i in
    if is_executable t.type
    then if not more && is_of_type SliTypeid.iiteratetype m && not s.show_backtrace
      then at Label.outer_switch (with_estack (t ∷ es) i)
      else walk_token s t.type t more j
    else at (or_exhausted more) (push_operand t j)

unfoldable pub walk : Services → Interp → List Token → State
walk s i (m ∷ p ∷ proc ∷ es) = walk_next s m p proc es i (at_index (i.arrays proc.data_) p.data_)
walk s i _ = invalid

unfoldable pub resume : Interp → List Token → State
resume i [] = invalid
resume i (x ∷ es) = if is_iteration x.type then at Label.body_walk i else at Label.outer_switch i
