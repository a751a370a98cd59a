-- ===== src/Interpreter/Repeat.antt =====
-- The loop `repeat`, from its operator to its end.
use sli.Prelude.{
  ℕ, zero, suc, ◌≡◌, refl, ap, ◌∙◌, true, false, some, List, [], ◌∷◌, length, ltb, ◌==◌, drop,
  arith, get_elem?,
}
use sli.Prelude.Int.{pos, ◌-ℤ◌, int_laws}
use sli.Stack.Token.{SliTypeid, Token}
use sli.Trie.TypeNode.{tag_of}
use sli.Control.Interp.{
  Interp, finished, is_of_type, marker, integer_token, require_load, require_type, at_pick,
  pop_operands,
}
use sli.Control.Loops.{repeat_function}
use sli.Interpreter.Dispatch.{Label, at, Services, is_iteration, with_estack}
use sli.Interpreter.Exhausted.{
  exhausted, exhausted_by, repeat_exhausted, is_positive, popped, step, Reach, here,
}
use sli.Interpreter.Bodies.{
  Reach-trans, Reach-step, BodyActs, act_all, IsLoop, walk_body, walk_end, resume_loop, at_end,
}

abbrev pub times : ℕ → (List Token → List Token) → List Token → List Token
times zero f st = st
times (suc n) f st = times n f (f st)

IsLoop-marker : (m : Token) → m.type ≡ SliTypeid.irepeattype → IsLoop m
unfolding is_iteration is_of_type tag_of
IsLoop-marker m h = record {
  iterates = ap is_iteration h;
  other = ap (λ t. tag_of t == tag_of SliTypeid.iiteratetype) h;
}

module _ (s : Services) (exitlevel : ℕ) where
  pub step-exhausted :
      (i : Interp) (m p : Token) (es : List Token) (t : SliTypeid)
      → m.type ≡ t
      → i.estack ≡ m ∷ p ∷ es
      → step s exitlevel (at Label.body_exhausted i) ≡ exhausted_by s t m p es i
  unfolding step exhausted
  step-exhausted i m p es t h e = ap (exhausted s i) e ∙ ap (λ u. exhausted_by s u m p es i) h

  repeat_again :
      (i : Interp) (m p proc c : Token) (es : List Token) (n : ℕ)
      → m.type ≡ SliTypeid.irepeattype
      → i.estack ≡ m ∷ p ∷ proc ∷ c ∷ es
      → c.data_ ≡ pos (suc n)
      → step s exitlevel (at Label.body_exhausted i)
        ≡ at Label.resume_iter (
            with_estack (m ∷ record p { data_ = pos 0 } ∷ proc ∷ record c { data_ = pos n } ∷ es) i)
  unfolding exhausted_by repeat_exhausted
  repeat_again i m p proc c es n h e k =
      let q : is_positive c.data_ ≡ true = rw k (ground arith) in
      let d : c.data_ -ℤ pos 1 ≡ pos n = rw k (omega int_laws) in
      step-exhausted i m p (proc ∷ c ∷ es) SliTypeid.irepeattype h e ∙ rw (q, d) refl

  repeat_over :
      (i : Interp) (m p proc c mark : Token) (es : List Token)
      → m.type ≡ SliTypeid.irepeattype
      → i.estack ≡ m ∷ p ∷ proc ∷ c ∷ mark ∷ es
      → c.data_ ≡ pos 0
      → step s exitlevel (at Label.body_exhausted i) ≡ at Label.resume_iter (with_estack es i)
  unfolding exhausted_by repeat_exhausted popped
  repeat_over i m p proc c mark es h e k =
      let q : is_positive c.data_ ≡ false = rw k (ground arith) in
      let l : ltb (length i.estack) 5 ≡ false = ground (arith, ap length e) in
      step-exhausted i m p (proc ∷ c ∷ mark ∷ es) SliTypeid.irepeattype h e
      ∙ rw (q, l) (ap (λ x. at Label.resume_iter (with_estack (drop 5 x) i)) e)

  repeat_rounds :
      (n : ℕ) (body : List Token) (acts : List (List Token → List Token)) (i : Interp)
      (m p proc c mark : Token) (es : List Token)
      → m.type ≡ SliTypeid.irepeattype
      → BodyActs s acts body
      → i.arrays proc.data_ ≡ body
      → c.data_ ≡ pos n
      → i.estack ≡ m ∷ p ∷ proc ∷ c ∷ mark ∷ es
      → Reach s exitlevel (at Label.body_exhausted i) (
          at Label.resume_iter (record i { ostack = times n (act_all acts) i.ostack; estack = es }))
  repeat_rounds zero body acts i m p proc c mark es h b a k e =
      Reach-step (repeat_over i m p proc c mark es h e k) here
  repeat_rounds (suc n) body acts i m p proc c mark es h b a k e =
      let p' : Token = record p { data_ = pos 0 } in
      let c' : Token = record c { data_ = pos n } in
      let j = with_estack (m ∷ p' ∷ proc ∷ c' ∷ mark ∷ es) i in
      let loop = IsLoop-marker m h in
      Reach-step (repeat_again i m p proc c (mark ∷ es) n h e k) (
        Reach-step (resume_loop s exitlevel j m (p' ∷ proc ∷ c' ∷ mark ∷ es) loop refl) (
          Reach-trans
            (walk_body s exitlevel body acts [] j m p' proc (c' ∷ mark ∷ es) loop b a refl refl)
            (repeat_rounds n body acts _ m _ proc c' mark es h b a refl refl)))

  repeat_begins :
      (i : Interp) (proc c : Token) (st : List Token)
      → i.ostack ≡ proc ∷ c ∷ st
      → is_of_type SliTypeid.proceduretype proc ≡ true
      → is_of_type SliTypeid.integertype c ≡ true
      → repeat_function i
        ≡ finished (record i {
          ostack = st;
          estack =
              marker SliTypeid.irepeattype
              ∷ integer_token (pos (length (i.arrays proc.data_)))
              ∷ proc
              ∷ c
              ∷ marker SliTypeid.marktype
              ∷ i.estack;
        })
  unfolding repeat_function require_load require_type at_pick pop_operands
  repeat_begins i proc c st e hp hc =
      let l : ltb (length i.ostack) 2 ≡ false = ground (arith, ap length e) in
      let x : get_elem? i.ostack 0 ≡ some proc = ap (λ u. get_elem? u 0) e in
      let y : get_elem? i.ostack 1 ≡ some c = ap (λ u. get_elem? u 1) e in
      let frame =
        marker SliTypeid.irepeattype
        ∷ integer_token (pos (length (i.arrays proc.data_)))
        ∷ proc
        ∷ c
        ∷ marker SliTypeid.marktype
        ∷ i.estack in
      rw (l, x, hp, y, hc) (ap (λ u. finished (record i { ostack = drop 2 u; estack = frame })) e)

  -- `repeat` on a procedure and a count, whose tokens are functions that work on the operand stack
  -- alone: the operator returns, and the dispatcher comes, from where it goes on then, to a state with
  -- the execution stack of before the operator, in which the functions have worked on the operand stack
  -- in their order, as many times as the count says.
  pub repeat_function-runs :
      (n : ℕ) (acts : List (List Token → List Token)) (i : Interp) (proc c : Token)
      (st : List Token)
      → i.ostack ≡ proc ∷ c ∷ st
      → is_of_type SliTypeid.proceduretype proc ≡ true
      → is_of_type SliTypeid.integertype c ≡ true
      → c.data_ ≡ pos n
      → BodyActs s acts (i.arrays proc.data_)
      → (j : Interp) × (repeat_function i ≡ finished j)
        × Reach s exitlevel
            (at Label.resume_iter j)
            (at Label.resume_iter (record i { ostack = times n (act_all acts) st }))
  repeat_function-runs n acts i proc c st e hp hc k b =
      let m = marker SliTypeid.irepeattype in
      let p = integer_token (pos (length (i.arrays proc.data_))) in
      let frame = p ∷ proc ∷ c ∷ marker SliTypeid.marktype ∷ i.estack in
      let j : Interp = record i { ostack = st; estack = m ∷ frame } in
      (
        j,
        repeat_begins i proc c st e hp hc,
        Reach-step (resume_loop s exitlevel j m frame (IsLoop-marker m refl) refl) (
            Reach-step
              (walk_end s exitlevel j m p proc (c ∷ marker SliTypeid.marktype ∷ i.estack) refl
                (at_end (i.arrays proc.data_)))
              (repeat_rounds n (i.arrays proc.data_) acts j m p proc c (marker SliTypeid.marktype)
                i.estack refl b refl k refl)),
      )
