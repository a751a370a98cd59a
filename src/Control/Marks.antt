-- ===== src/Control/Marks.antt =====
-- What `switch` and `counttomark` do above a mark.
use sli.Prelude.{
  ℕ, suc, ◌+◌, ◌≡◌, refl, ap, ◌∙◌, true, false, none, some, List, [], ◌∷◌, ◌++◌, length,
  length-append, drop, ltb, arith,
}
use sli.Prelude.Int.{pos}
use sli.Stack.Token.{SliTypeid, Token}
use sli.Control.Interp.{
  Interp, finished, raising, unmatched_mark, marker, integer_token, require_load, pop_operands,
}
use sli.Control.Choices.{switch_loop, switched, switch_function, count_loop, counttomark_function}
use sli.Control.Stops.{Fails, drop-append}
use sli.Control.Framed.{is_mark}

-- The list put on a stack one by one, its first element first.
abbrev pub put_onto : List Token → List Token → List Token
put_onto st [] = st
put_onto st (x ∷ xs) = put_onto (x ∷ st) xs

switch_loop-above :
    (above below moved : List Token) (m : Token) (p : ℕ)
    → Fails is_mark above
    → is_mark m ≡ true
    → switch_loop (above ++ m ∷ below) p moved ≡ some (p + length above, put_onto moved above)
unfolding switch_loop
switch_loop-above [] below moved m p h hm =
    rw hm (ap (λ q. some (q, moved)) {x = p} {y = p + 0} (omega arith))
switch_loop-above (x ∷ above) below moved m p (hx, h) hm = rw hx (
    switch_loop-above above below (x ∷ moved) m (suc p) h hm
    ∙ ap (λ q. some (q, put_onto (x ∷ moved) above)) {x = suc p + length above}
        {y = p + suc (length above)} (omega arith))

pop_operands-above :
    (i : Interp) (above below estack : List Token) (m : Token)
    → i.ostack ≡ above ++ m ∷ below
    → pop_operands (length above + 1) estack i
      ≡ finished (record i { ostack = below; estack = estack })
unfolding pop_operands
pop_operands-above i above below estack m e =
    let l : ltb (length i.ostack) (length above + 1) ≡ false =
      ground (arith, ap length e, length-append above (m ∷ below)) in
    rw l (
      ap (λ s. finished (record i { ostack = s; estack = estack }))
        (ap (drop (length above + 1)) e ∙ drop-append above m below))

-- `switch` takes the objects above the topmost mark, and the mark, off the operand stack, and puts
-- them on the execution stack, the deepest on top, above the token that drops the mark below it.
pub switch_function-moves :
    (ipop_token : Token) (i : Interp) (above below : List Token) (m : Token)
    → i.ostack ≡ above ++ m ∷ below
    → Fails is_mark above
    → is_mark m ≡ true
    → switch_function ipop_token i
      ≡ finished (record i {
        ostack = below;
        estack = put_onto (ipop_token ∷ marker SliTypeid.marktype ∷ i.estack) above;
      })
unfolding switch_function require_load
switch_function-moves t i above below m e h hm =
    let l : ltb (length i.ostack) 1 ≡ false =
      ground (arith, ap length e, length-append above (m ∷ below)) in
    let base = t ∷ marker SliTypeid.marktype ∷ i.estack in
    rw l (
      ap (switched i)
        (ap (λ s. switch_loop s 0 base) e ∙ switch_loop-above above below base m 0 h hm)
      ∙ ap (λ n. pop_operands (n + 1) (put_onto base above) i) {x = 0 + length above}
          {y = length above} (omega arith)
      ∙ pop_operands-above i above below (put_onto base above) m e)

count_loop-above :
    (above below : List Token) (m : Token) (p : ℕ)
    → Fails is_mark above
    → is_mark m ≡ true
    → count_loop (above ++ m ∷ below) p ≡ some (p + length above)
unfolding count_loop
count_loop-above [] below m p h hm = rw hm (ap some {x = p} {y = p + 0} (omega arith))
count_loop-above (x ∷ above) below m p (hx, h) hm = rw hx (
    count_loop-above above below m (suc p) h hm
    ∙ ap some {x = suc p + length above} {y = p + suc (length above)} (omega arith))

count_loop-none : (st : List Token) (p : ℕ) → Fails is_mark st → count_loop st p ≡ none
unfolding count_loop
count_loop-none [] p h = refl
count_loop-none (x ∷ st) p (hx, h) = rw hx (count_loop-none st (suc p) h)

-- `counttomark` pushes the number of the slots above the topmost mark.
pub counttomark_function-counts :
    (i : Interp) (above below : List Token) (m : Token)
    → i.ostack ≡ above ++ m ∷ below
    → Fails is_mark above
    → is_mark m ≡ true
    → counttomark_function i
      ≡ finished (record i { ostack = integer_token (pos (length above)) ∷ i.ostack })
unfolding counttomark_function
counttomark_function-counts i above below m e h hm =
    let c : count_loop i.ostack 0 ≡ some (length above) =
      ap (λ s. count_loop s 0) e
      ∙ count_loop-above above below m 0 h hm
      ∙ ap some {x = 0 + length above} {y = length above} (omega arith) in
    rw (counttomark_function, c) refl

-- Without a mark it raises an error, and changes nothing.
pub counttomark_function-missing :
    (i : Interp) → Fails is_mark i.ostack → counttomark_function i ≡ raising unmatched_mark i
unfolding counttomark_function
counttomark_function-missing i h =
    let c = count_loop-none i.ostack 0 h in rw (counttomark_function, c) refl
