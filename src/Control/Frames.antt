-- ===== src/Control/Frames.antt =====
-- The frames of the loops, and how `exit` leaves them.
use mathlib.Core.Path.{subst}
use sli.Prelude.{
  ℕ, ◌≡◌, refl, sym, ap, ◌∙◌, true, false, List, [], ◌∷◌, ◌++◌, append_assoc, length, drop,
}
use sli.Prelude.Int.{pos}
use sli.Stack.Token.{SliTypeid, Token}
use sli.Trie.TypeNode.{tag_of}
use sli.Control.Interp.{
  Interp, Effect, finished, marker, integer_token, require_load, require_type, at_pick,
}
use sli.Control.Loops.{
  untyped_zero, loop_function, repeat_function, for_function, forall_a_function, forall_s_function,
  forallindexed_a_function, forallindexed_s_function,
}
use sli.Control.Unwind.{exit_function}
use sli.Control.Shapes.{IsFrame}
use sli.Control.Stops.{Fails, exit_function-unwinds}
use sli.Control.Framed.{
  is_mark, Framed, Frames, require_load-Frames, at_pick-Frames, require_type-Frames,
  pop_operands-Frames, Fails-append, IsOther, other_type, marker-other, mark-is_mark,
  IsOther-procedure, IsOther-integer, IsOther-array, IsOther-string, integer-not_mark,
}

module _ (i : Interp) where
  -- What a loop over an object or a count needs: its procedure and its object are no marks.
  with_object :
      (top : Token) (kind t : SliTypeid) (rest : Token → Token → Effect)
      → IsOther t
      → ((x y : Token) → is_mark x ≡ false → is_mark y ≡ false → Frames 2 top kind i (rest x y))
      → Frames 2 top kind i (
          require_load 2 i (
            require_type 0 SliTypeid.proceduretype i
              (require_type 1 t i (at_pick 0 i (λ x. at_pick 1 i (λ y. rest x y))))))
  with_object top kind t rest d h = require_load-Frames 2 top kind i 2 _ (
      require_type-Frames 2 top kind i 0 SliTypeid.proceduretype _ (λ p.
        require_type-Frames 2 top kind i 1 t _ (λ q. at_pick-Frames 2 top kind i 0 _ (λ x e.
          at_pick-Frames 2 top kind i 1 _ (λ y f.
            h x y (other_type SliTypeid.proceduretype x IsOther-procedure (p x e))
              (other_type t y d (q y f)))))))

  loop-Frames :
      (m : Token)
      → is_mark m ≡ true
      → Frames 1 (marker SliTypeid.ilooptype) SliTypeid.ilooptype i (loop_function m i)
  unfolding loop_function
  loop-Frames m hm = require_load-Frames 1 (marker SliTypeid.ilooptype) SliTypeid.ilooptype i 1 _ (
      require_type-Frames 1 (marker SliTypeid.ilooptype) SliTypeid.ilooptype i 0
        SliTypeid.proceduretype _
        (λ p. at_pick-Frames 1 (marker SliTypeid.ilooptype) SliTypeid.ilooptype i 0 _ (λ x e.
          pop_operands-Frames 1 (marker SliTypeid.ilooptype) SliTypeid.ilooptype i
            (untyped_zero ∷ x ∷ []) m (IsFrame.loop_frame _ _ _)
            (
              marker-other SliTypeid.ilooptype (unfold tag_of in refl),
              (
                marker-other SliTypeid.nulltype (unfold tag_of in refl),
                (other_type SliTypeid.proceduretype x IsOther-procedure (p x e), tt),
              ),
            )
            hm)))

  repeat-Frames :
      Frames 2 (marker SliTypeid.irepeattype) SliTypeid.irepeattype i (repeat_function i)
  unfolding repeat_function
  repeat-Frames =
      with_object (marker SliTypeid.irepeattype) SliTypeid.irepeattype SliTypeid.integertype _
        IsOther-integer
        (λ x y hx hy.
          pop_operands-Frames 2 (marker SliTypeid.irepeattype) SliTypeid.irepeattype i
            (integer_token (pos (length (i.arrays x.data_))) ∷ x ∷ y ∷ [])
            (marker SliTypeid.marktype) (IsFrame.repeat_frame _ _ _ _)
            (
              marker-other SliTypeid.irepeattype (unfold tag_of in refl),
              (integer-not_mark _, (hx, (hy, tt))),
            )
            mark-is_mark)

  forall_a-Frames :
      (t : Token) → is_mark t ≡ false → Frames 2 t SliTypeid.iforalltype i (forall_a_function t i)
  unfolding forall_a_function
  forall_a-Frames t ht =
      with_object t SliTypeid.iforalltype SliTypeid.arraytype _ IsOther-array (λ x y hx hy.
        pop_operands-Frames 2 t SliTypeid.iforalltype i
          (integer_token (pos (length (i.arrays x.data_))) ∷ x ∷ integer_token (pos 0) ∷ y ∷ [])
          (marker SliTypeid.marktype) (IsFrame.forall_frame _ _ _ _ _)
          (ht, (integer-not_mark _, (hx, (integer-not_mark (pos 0), (hy, tt))))) mark-is_mark)

  forall_s-Frames :
      Frames 2
        (marker SliTypeid.iforallstringtype)
        SliTypeid.iforallstringtype
        i
        (forall_s_function i)
  unfolding forall_s_function
  forall_s-Frames =
      with_object (marker SliTypeid.iforallstringtype) SliTypeid.iforallstringtype
        SliTypeid.stringtype _ IsOther-string
        (λ x y hx hy.
          pop_operands-Frames 2 (marker SliTypeid.iforallstringtype) SliTypeid.iforallstringtype i
            (integer_token (pos (length (i.arrays x.data_))) ∷ x ∷ integer_token (pos 0) ∷ y ∷ [])
            (marker SliTypeid.marktype) (IsFrame.forall_string_frame _ _ _ _ _)
            (
              marker-other SliTypeid.iforallstringtype (unfold tag_of in refl),
              (integer-not_mark _, (hx, (integer-not_mark (pos 0), (hy, tt)))),
            )
            mark-is_mark)

  forallindexed_a-Frames :
      Frames 2
        (marker SliTypeid.iforallindexedarraytype)
        SliTypeid.iforallindexedarraytype
        i
        (forallindexed_a_function i)
  unfolding forallindexed_a_function
  forallindexed_a-Frames =
      with_object (marker SliTypeid.iforallindexedarraytype) SliTypeid.iforallindexedarraytype
        SliTypeid.arraytype _ IsOther-array
        (λ x y hx hy.
          pop_operands-Frames 2 (marker SliTypeid.iforallindexedarraytype)
            SliTypeid.iforallindexedarraytype i
            (integer_token (pos (length (i.arrays x.data_)))
              ∷ x
              ∷ integer_token (pos 0)
              ∷ integer_token (pos (length (i.arrays y.data_)))
              ∷ y
              ∷ [])
            (marker SliTypeid.marktype) (IsFrame.forallindexed_frame _ _ _ _ _ _)
            (
              marker-other SliTypeid.iforallindexedarraytype (unfold tag_of in refl),
              (
                integer-not_mark _,
                (hx, (integer-not_mark (pos 0), (integer-not_mark _, (hy, tt)))),
              ),
            )
            mark-is_mark)

  forallindexed_s-Frames :
      Frames 2
        (marker SliTypeid.iforallindexedstringtype)
        SliTypeid.iforallindexedstringtype
        i
        (forallindexed_s_function i)
  unfolding forallindexed_s_function
  forallindexed_s-Frames =
      with_object (marker SliTypeid.iforallindexedstringtype) SliTypeid.iforallindexedstringtype
        SliTypeid.stringtype _ IsOther-string
        (λ x y hx hy.
          pop_operands-Frames 2 (marker SliTypeid.iforallindexedstringtype)
            SliTypeid.iforallindexedstringtype i
            (integer_token (pos (length (i.arrays x.data_)))
              ∷ x
              ∷ integer_token (pos 0)
              ∷ integer_token (pos (length (i.strings y.data_)))
              ∷ y
              ∷ [])
            (marker SliTypeid.marktype) (IsFrame.forallindexed_string_frame _ _ _ _ _ _)
            (
              marker-other SliTypeid.iforallindexedstringtype (unfold tag_of in refl),
              (
                integer-not_mark _,
                (hx, (integer-not_mark (pos 0), (integer-not_mark _, (hy, tt)))),
              ),
            )
            mark-is_mark)

  for-Frames : Frames 4 (marker SliTypeid.ifortype) SliTypeid.ifortype i (for_function i)
  unfolding for_function
  for-Frames = require_load-Frames 4 (marker SliTypeid.ifortype) SliTypeid.ifortype i 4 _ (
      require_type-Frames 4 (marker SliTypeid.ifortype) SliTypeid.ifortype i 0
        SliTypeid.proceduretype _
        (λ p.
          require_type-Frames 4 (marker SliTypeid.ifortype) SliTypeid.ifortype i 1
            SliTypeid.integertype _
            (λ q.
              require_type-Frames 4 (marker SliTypeid.ifortype) SliTypeid.ifortype i 2
                SliTypeid.integertype _
                (λ r.
                  require_type-Frames 4 (marker SliTypeid.ifortype) SliTypeid.ifortype i 3
                    SliTypeid.integertype _
                    (λ s.
                      at_pick-Frames 4 (marker SliTypeid.ifortype) SliTypeid.ifortype i 0 _ (λ x e.
                        at_pick-Frames 4 (marker SliTypeid.ifortype) SliTypeid.ifortype i 1 _
                          (λ y f.
                            at_pick-Frames 4 (marker SliTypeid.ifortype) SliTypeid.ifortype i 2 _
                              (λ z g.
                                at_pick-Frames 4 (marker SliTypeid.ifortype) SliTypeid.ifortype i 3
                                  _
                                  (λ w h.
                                    pop_operands-Frames 4 (marker SliTypeid.ifortype)
                                      SliTypeid.ifortype i
                                      (integer_token (pos (length (i.arrays x.data_)))
                                        ∷ x
                                        ∷ w
                                        ∷ y
                                        ∷ z
                                        ∷ [])
                                      (marker SliTypeid.marktype) (IsFrame.for_frame _ _ _ _ _ _)
                                      (
                                        marker-other SliTypeid.ifortype (unfold tag_of in refl),
                                        (
                                          integer-not_mark _,
                                          (
                                            other_type SliTypeid.proceduretype x IsOther-procedure
                                                (p x e),
                                            (
                                              other_type SliTypeid.integertype w IsOther-integer
                                                  (s w h),
                                              (
                                                other_type SliTypeid.integertype y IsOther-integer
                                                    (q y f),
                                                (
                                                  other_type SliTypeid.integertype z IsOther-integer
                                                      (r z g),
                                                  tt,
                                                ),
                                              ),
                                            ),
                                          ),
                                        ),
                                      )
                                      mark-is_mark)))))))))

-- The operators that begin a loop, with the number of their operands.
pub data LoopOperator : Type 0 where
  loop_op repeat_op for_op forall_a_op forall_s_op forallindexed_a_op forallindexed_s_op :
      LoopOperator

abbrev pub operands : LoopOperator → ℕ
operands LoopOperator.loop_op = 1
operands LoopOperator.for_op = 4
operands _ = 2

-- The type of the marker of each, and the marker.
abbrev pub loop_type : LoopOperator → SliTypeid
loop_type LoopOperator.loop_op = SliTypeid.ilooptype
loop_type LoopOperator.repeat_op = SliTypeid.irepeattype
loop_type LoopOperator.for_op = SliTypeid.ifortype
loop_type LoopOperator.forall_a_op = SliTypeid.iforalltype
loop_type LoopOperator.forall_s_op = SliTypeid.iforallstringtype
loop_type LoopOperator.forallindexed_a_op = SliTypeid.iforallindexedarraytype
loop_type LoopOperator.forallindexed_s_op = SliTypeid.iforallindexedstringtype

abbrev pub loop_marker : Token → LoopOperator → Token
loop_marker forall_token LoopOperator.forall_a_op = forall_token
loop_marker forall_token op = marker (loop_type op)

abbrev pub begin_loop : Token → Token → LoopOperator → Interp → Effect
begin_loop mark_token forall_token LoopOperator.loop_op i = loop_function mark_token i
begin_loop mark_token forall_token LoopOperator.repeat_op i = repeat_function i
begin_loop mark_token forall_token LoopOperator.for_op i = for_function i
begin_loop mark_token forall_token LoopOperator.forall_a_op i = forall_a_function forall_token i
begin_loop mark_token forall_token LoopOperator.forall_s_op i = forall_s_function i
begin_loop mark_token forall_token LoopOperator.forallindexed_a_op i = forallindexed_a_function i
begin_loop mark_token forall_token LoopOperator.forallindexed_s_op i = forallindexed_s_function i

module _ (mark_token forall_token : Token) (hm : is_mark mark_token ≡ true)
    (hf : is_mark forall_token ≡ false) where
  begin_loop-Frames :
      (op : LoopOperator) (i : Interp)
      → Frames
          (operands op)
          (loop_marker forall_token op)
          (loop_type op)
          i
          (begin_loop mark_token forall_token op i)
  begin_loop-Frames LoopOperator.loop_op i = loop-Frames i mark_token hm
  begin_loop-Frames LoopOperator.repeat_op i = repeat-Frames i
  begin_loop-Frames LoopOperator.for_op i = for-Frames i
  begin_loop-Frames LoopOperator.forall_a_op i = forall_a-Frames i forall_token hf
  begin_loop-Frames LoopOperator.forall_s_op i = forall_s-Frames i
  begin_loop-Frames LoopOperator.forallindexed_a_op i = forallindexed_a-Frames i
  begin_loop-Frames LoopOperator.forallindexed_s_op i = forallindexed_s-Frames i

  pub begin_loop-Framed :
      (op : LoopOperator) (i j : Interp)
      → begin_loop mark_token forall_token op i ≡ finished j
      → Framed (operands op) (loop_marker forall_token op) (loop_type op) i j
  begin_loop-Framed op i j h =
      subst (λ r. Frames (operands op) (loop_marker forall_token op) (loop_type op) i r) h
        (begin_loop-Frames op i)

  -- When a loop operator returns, whichever it is, its operands are off the operand stack, and its marker
  -- is on top of the execution stack, with the slots of such a loop below it, the last of them a mark, and
  -- then the old execution stack; and `exit`, from any state whose execution stack is the one that the
  -- operator left with slots other than marks above, comes back to the execution stack of before the
  -- operator and leaves the rest as it is. The loop's mark is one, and the marker of `forall` is none.
  pub exit-begin_loop :
      (op : LoopOperator) (i j k : Interp) (above : List Token)
      → begin_loop mark_token forall_token op i ≡ finished j
      → k.estack ≡ above ++ j.estack
      → Fails is_mark above
      → (j.ostack ≡ drop (operands op) i.ostack)
        × (slots : List Token) × (m : Token) × (j.estack
            ≡ loop_marker forall_token op ∷ slots ++ m ∷ i.estack)
        × IsFrame (loop_type op) (slots ++ m ∷ [])
        × (is_mark m ≡ true)
        × (exit_function k ≡ finished (record k { estack = i.estack }))
  exit-begin_loop op i j k above h e f =
      let (slots, m, p, shape, q, r, o) = begin_loop-Framed op i j h in
      let frame = loop_marker forall_token op ∷ slots in
      (
        o,
        slots,
        m,
        p,
        shape,
        r,
        exit_function-unwinds k (above ++ frame) m i.estack
            (e ∙ ap (λ x. above ++ x) p ∙ sym (append_assoc above frame (m ∷ i.estack)))
            (Fails-append is_mark above frame f q) r,
      )
