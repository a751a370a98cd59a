-- ===== src/Control/Returns.antt =====
-- What `return` does to the execution stack.
use sli.Prelude.{
  ℕ, zero, suc, ◌+◌, ◌≤◌, ◌<◌, ◌≡◌, refl, sym, ap, ◌∙◌, false, some, List, [], ◌∷◌, ◌++◌,
  append_assoc, length, length-append, drop, ltb, arith, get_elem?, get_elem?-append_right,
}
use sli.Stack.Token.{SliTypeid, Token}
use sli.Control.Interp.{Interp, Effect, finished, pop_execution}
use sli.Control.Shapes.{IsFrame, frame_size-IsFrame}
use sli.Control.Unwind.{frame_size, return_at, return_past, return_loop, return_function}

-- The frames of loops, one below the other: a marker, and below it the slots of such a loop.
abbrev pub AreFrames : List (List Token) → Type 0
AreFrames [] = Unit {0}
AreFrames ([] ∷ fs) = ⊥
AreFrames ((x ∷ f) ∷ fs) = IsFrame x.type f × AreFrames fs

abbrev pub joined : List (List Token) → List Token
joined [] = []
joined (f ∷ fs) = f ++ joined fs

-- The first slot behind a part of a list.
next_slot :
    (st before rest : List Token) (x : Token)
    → st ≡ before ++ x ∷ rest
    → get_elem? st (length before) ≡ some x
next_slot st before rest x e =
    ap (λ s. get_elem? s (length before)) e
    ∙ ap (get_elem? (before ++ x ∷ rest)) {x = length before} {y = length before + 0} (omega arith)
    ∙ get_elem?-append_right before (x ∷ rest) 0

return_loop_step :
    (fuel : ℕ) (i : Interp) (before rest : List Token) (x : Token)
    → i.estack ≡ before ++ x ∷ rest
    → return_loop (suc fuel) (length before) i
      ≡ return_at x.type (length before) (λ m. return_loop fuel m i) i
unfolding return_loop
return_loop_step fuel i before rest x e = rw (return_loop, next_slot i.estack before rest x e) refl

frame-return_at :
    (t : SliTypeid) (n frame : ℕ) (again : ℕ → Effect) (i : Interp)
    → frame_size t ≡ some frame
    → return_at t n again i ≡ again (n + frame)
unfolding frame_size
frame-return_at SliTypeid.iiteratetype n frame again i h = absurd (cc h)
frame-return_at _ n frame again i h = ap (λ o. return_past o n again i) h

drop_past :
    (n : ℕ) (before rest : List Token) → drop (length before + n) (before ++ rest) ≡ drop n rest
drop_past n [] rest = ap (λ m. drop m rest) {x = 0 + n} {y = n} (omega arith)
drop_past n (x ∷ before) rest =
    ap (λ m. drop m (x ∷ before ++ rest)) {x = suc (length before) + n}
      {y = suc (length before + n)} (omega arith)
    ∙ drop_past n before rest

return-procedure :
    (t : SliTypeid) (n : ℕ) (again : ℕ → Effect) (i : Interp)
    → t ≡ SliTypeid.iiteratetype
    → return_at t n again i ≡ pop_execution (n + 3) i
return-procedure t n again i e = ap (λ u. return_at u n again i) e

pop_execution-behind :
    (i : Interp) (before below : List Token) (x y z : Token)
    → i.estack ≡ before ++ x ∷ y ∷ z ∷ below
    → pop_execution (length before + 3) i ≡ finished (record i { estack = below })
unfolding pop_execution
pop_execution-behind i before below x y z e =
    let l : ltb (length i.estack) (length before + 3) ≡ false =
      ground (arith, ap length e, length-append before (x ∷ y ∷ z ∷ below)) in
    rw l (
      ap (λ s. finished (record i { estack = s }))
        (ap (drop (length before + 3)) e ∙ drop_past 3 before (x ∷ y ∷ z ∷ below)))

return_loop-frames :
    (frames : List (List Token)) (fuel : ℕ) (i : Interp) (before below : List Token) (x y z : Token)
    → AreFrames frames
    → length frames < fuel
    → x.type ≡ SliTypeid.iiteratetype
    → i.estack ≡ before ++ (joined frames ++ x ∷ y ∷ z ∷ below)
    → return_loop fuel (length before) i ≡ finished (record i { estack = below })
return_loop-frames frames zero i before below x y z h l t e = absurd (omega (arith, l))
return_loop-frames [] (suc fuel) i before below x y z h l t e =
    return_loop_step fuel i before (y ∷ z ∷ below) x e
    ∙ return-procedure x.type (length before) _ i t
    ∙ pop_execution-behind i before below x y z e
return_loop-frames ([] ∷ frames) (suc fuel) i before below x y z h l t e = absurd h
return_loop-frames ((w ∷ f) ∷ frames) (suc fuel) i before below x y z (hw, h) l t e =
    return_loop_step fuel i before _ w
      (e ∙ ap (λ s. before ++ s) (append_assoc (w ∷ f) (joined frames) (x ∷ y ∷ z ∷ below)))
    ∙ frame-return_at w.type (length before) (length (w ∷ f)) _ i (frame_size-IsFrame w.type f hw)
    ∙ ap (λ m. return_loop fuel m i) (sym (length-append before (w ∷ f)))
    ∙ return_loop-frames frames fuel i (before ++ w ∷ f) below x y z h (omega (arith, l)) t (
        e
        ∙ ap (λ s. before ++ s) (append_assoc (w ∷ f) (joined frames) (x ∷ y ∷ z ∷ below))
        ∙ sym (append_assoc before (w ∷ f) (joined frames ++ x ∷ y ∷ z ∷ below)))

joined-longer :
    (frames : List (List Token)) → AreFrames frames → length frames ≤ length (joined frames)
joined-longer [] h = omega arith
joined-longer ([] ∷ frames) h = absurd h
joined-longer ((w ∷ f) ∷ frames) (_, h) =
    omega (arith, joined-longer frames h, length-append f (joined frames))

-- `return` removes the frames of the loops that are running in a procedure, however many and of
-- whatever kind, each a marker and the slots that a loop of that kind has below it, and the three slots of
-- the procedure, and leaves what stands below them.
pub return_function-unwinds :
    (frames : List (List Token)) (i : Interp) (below : List Token) (x y z : Token)
    → AreFrames frames
    → x.type ≡ SliTypeid.iiteratetype
    → i.estack ≡ joined frames ++ x ∷ y ∷ z ∷ below
    → return_function i ≡ finished (record i { estack = below })
unfolding return_function
return_function-unwinds frames i below x y z h t e =
    return_loop-frames frames (length i.estack + 1) i [] below x y z h
      (omega (
        arith,
        ap length e,
        length-append (joined frames) (x ∷ y ∷ z ∷ below),
        joined-longer frames h,
      ))
      t e
