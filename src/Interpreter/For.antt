-- ===== src/Interpreter/For.antt =====
-- The loop `for`, from its operator to its end.
use sli.Prelude.{
  ℕ, zero, suc, ◌+◌, ◌≡◌, refl, ap, ◌∙◌, true, false, some, List, [], ◌∷◌, length, ltb, ◌==◌, drop,
  arith, get_elem?,
}
use sli.Prelude.Int.{ℤ, pos, ◌+ℤ◌, ltb_ℤ, pos_part, neg_part}
use sli.Stack.Token.{SliTypeid, Token}
use sli.Trie.TypeNode.{tag_of}
use sli.Control.Interp.{
  Interp, finished, is_of_type, marker, integer_token, require_load, require_type, at_pick,
  pop_operands,
}
use sli.Control.Loops.{for_function}
use sli.Interpreter.Dispatch.{Label, at, Services, is_iteration, with_estack}
use sli.Interpreter.Exhausted.{
  exhausted_by, for_exhausted, continues_for, is_long, popped, step, Reach, here,
}
use sli.Interpreter.Bodies.{
  Reach-trans, Reach-step, BodyActs, act_all, IsLoop, walk_body, walk_end, resume_loop, at_end,
}
use sli.Interpreter.Repeat.{step-exhausted}
use sli.Interpreter.Counts.{ValuesUpTo, Counts, Counts-total}

-- What the rounds do to the operand stack: each finds the counter on top.
abbrev pub counted : ℤ → (List Token → List Token) → ℕ → Token → List Token → List Token
counted increment f zero counter st = st
counted increment f (suc k) counter st =
    counted increment f k (record counter { data_ = counter.data_ +ℤ increment }) (f (counter ∷ st))

IsLoop-marker : (m : Token) → m.type ≡ SliTypeid.ifortype → IsLoop m
unfolding is_iteration is_of_type tag_of
IsLoop-marker m h = record {
  iterates = ap is_iteration h;
  other = ap (λ t. tag_of t == tag_of SliTypeid.iiteratetype) h;
}

module _ (s : Services) (exitlevel : ℕ) where
  for_again :
      (i : Interp) (m p proc c limit increment : Token) (es : List Token)
      → m.type ≡ SliTypeid.ifortype
      → i.estack ≡ m ∷ p ∷ proc ∷ c ∷ limit ∷ increment ∷ es
      → continues_for c.data_ limit.data_ increment.data_ ≡ true
      → is_long (c.data_ +ℤ increment.data_) ≡ true
      → step s exitlevel (at Label.body_exhausted i)
        ≡ at Label.resume_iter (record i {
          ostack = c ∷ i.ostack;
          estack =
              m
              ∷ record p { data_ = pos 0 }
              ∷ proc
              ∷ record c { data_ = c.data_ +ℤ increment.data_ }
              ∷ limit
              ∷ increment
              ∷ es;
        })
  unfolding exhausted_by for_exhausted
  for_again i m p proc c limit increment es h e q l =
      step-exhausted s exitlevel i m p (proc ∷ c ∷ limit ∷ increment ∷ es) SliTypeid.ifortype h e
      ∙ rw (q, l) refl

  for_over :
      (i : Interp) (m p proc c limit increment mark : Token) (es : List Token)
      → m.type ≡ SliTypeid.ifortype
      → i.estack ≡ m ∷ p ∷ proc ∷ c ∷ limit ∷ increment ∷ mark ∷ es
      → continues_for c.data_ limit.data_ increment.data_ ≡ false
      → step s exitlevel (at Label.body_exhausted i) ≡ at Label.resume_iter (with_estack es i)
  unfolding exhausted_by for_exhausted popped
  for_over i m p proc c limit increment mark es h e q =
      let l : ltb (length i.estack) 7 ≡ false = ground (arith, ap length e) in
      step-exhausted s exitlevel i m p (proc ∷ c ∷ limit ∷ increment ∷ mark ∷ es) SliTypeid.ifortype
        h e
      ∙ rw (q, l) (ap (λ x. at Label.resume_iter (with_estack (drop 7 x) i)) e)

  for_rounds :
      (k : ℕ) (body : List Token) (acts : List (List Token → List Token)) (i : Interp)
      (m p proc c limit increment mark : Token) (es : List Token)
      → m.type ≡ SliTypeid.ifortype
      → BodyActs s acts body
      → i.arrays proc.data_ ≡ body
      → Counts limit.data_ increment.data_ k c.data_
      → i.estack ≡ m ∷ p ∷ proc ∷ c ∷ limit ∷ increment ∷ mark ∷ es
      → Reach s exitlevel (at Label.body_exhausted i) (
          at Label.resume_iter (record i {
            ostack = counted increment.data_ (act_all acts) k c i.ostack;
            estack = es;
          }))
  for_rounds zero body acts i m p proc c limit increment mark es h b a q e =
      Reach-step (for_over i m p proc c limit increment mark es h e q) here
  for_rounds (suc k) body acts i m p proc c limit increment mark es h b a (q, l, r) e =
      let p' : Token = record p { data_ = pos 0 } in
      let c' : Token = record c { data_ = c.data_ +ℤ increment.data_ } in
      let frame = p' ∷ proc ∷ c' ∷ limit ∷ increment ∷ mark ∷ es in
      let j : Interp = record i { ostack = c ∷ i.ostack; estack = m ∷ frame } in
      let loop = IsLoop-marker m h in
      Reach-step (for_again i m p proc c limit increment (mark ∷ es) h e q l) (
        Reach-step (resume_loop s exitlevel j m frame loop refl) (
          Reach-trans
            (walk_body s exitlevel body acts [] j m p' proc (c' ∷ limit ∷ increment ∷ mark ∷ es)
              loop b a refl refl)
            (for_rounds k body acts _ m _ proc c' limit increment mark es h b a r refl)))

  for_begins :
      (i : Interp) (proc limit increment c : Token) (st : List Token)
      → i.ostack ≡ proc ∷ limit ∷ increment ∷ c ∷ st
      → is_of_type SliTypeid.proceduretype proc ≡ true
      → is_of_type SliTypeid.integertype limit ≡ true
      → is_of_type SliTypeid.integertype increment ≡ true
      → is_of_type SliTypeid.integertype c ≡ true
      → for_function i
        ≡ finished (record i {
          ostack = st;
          estack =
              marker SliTypeid.ifortype
              ∷ integer_token (pos (length (i.arrays proc.data_)))
              ∷ proc
              ∷ c
              ∷ limit
              ∷ increment
              ∷ marker SliTypeid.marktype
              ∷ i.estack;
        })
  unfolding for_function require_load require_type at_pick pop_operands
  for_begins i proc limit increment c st e hp hl hi hc =
      let l : ltb (length i.ostack) 4 ≡ false = ground (arith, ap length e) in
      let x : get_elem? i.ostack 0 ≡ some proc = ap (λ u. get_elem? u 0) e in
      let y : get_elem? i.ostack 1 ≡ some limit = ap (λ u. get_elem? u 1) e in
      let z : get_elem? i.ostack 2 ≡ some increment = ap (λ u. get_elem? u 2) e in
      let w : get_elem? i.ostack 3 ≡ some c = ap (λ u. get_elem? u 3) e in
      let frame =
        marker SliTypeid.ifortype
        ∷ integer_token (pos (length (i.arrays proc.data_)))
        ∷ proc
        ∷ c
        ∷ limit
        ∷ increment
        ∷ marker SliTypeid.marktype
        ∷ i.estack in
      rw (l, x, hp, y, hl, z, hi, w, hc)
        (ap (λ u. finished (record i { ostack = drop 4 u; estack = frame })) e)

  -- `for` on a procedure, whose tokens are functions that work on the operand stack alone, with a
  -- counter that is a `long` and a positive increment that keeps the limit a `long` when it is added to
  -- it: the operator returns, and the dispatcher comes, from where it goes on then, to a state with the
  -- execution stack of before the operator, in which the functions have worked on the operand stack once
  -- for each value of the counter up to the limit, the limit included, with that value pushed before.
  pub for_function-runs :
      (acts : List (List Token → List Token)) (i : Interp) (proc limit increment c : Token)
      (st : List Token)
      → i.ostack ≡ proc ∷ limit ∷ increment ∷ c ∷ st
      → is_of_type SliTypeid.proceduretype proc ≡ true
      → is_of_type SliTypeid.integertype limit ≡ true
      → is_of_type SliTypeid.integertype increment ≡ true
      → is_of_type SliTypeid.integertype c ≡ true
      → is_long c.data_ ≡ true
      → is_long (limit.data_ +ℤ increment.data_) ≡ true
      → ltb_ℤ (pos 0) increment.data_ ≡ true
      → BodyActs s acts (i.arrays proc.data_)
      → (k : ℕ) × (j : Interp) × ValuesUpTo limit.data_ increment.data_ k c.data_
        × (for_function i ≡ finished j)
        × Reach s exitlevel (at Label.resume_iter j) (
            at Label.resume_iter
              (record i { ostack = counted increment.data_ (act_all acts) k c st }))
  for_function-runs acts i proc limit increment c st e hp hl hi hc long fits up b =
      let m = marker SliTypeid.ifortype in
      let p = integer_token (pos (length (i.arrays proc.data_))) in
      let rest = c ∷ limit ∷ increment ∷ marker SliTypeid.marktype ∷ i.estack in
      let j : Interp = record i { ostack = st; estack = m ∷ p ∷ proc ∷ rest } in
      let (k, q, u) =
        Counts-total limit.data_ increment.data_ fits up
          (suc (pos_part limit.data_ + neg_part c.data_)) c.data_ long (omega arith) in
      (
        k,
        j,
        u,
        for_begins i proc limit increment c st e hp hl hi hc,
        Reach-step (resume_loop s exitlevel j m (p ∷ proc ∷ rest) (IsLoop-marker m refl) refl) (
            Reach-step (walk_end s exitlevel j m p proc rest refl (at_end (i.arrays proc.data_))) (
              for_rounds k (i.arrays proc.data_) acts j m p proc c limit increment
                (marker SliTypeid.marktype) i.estack refl b refl q refl)),
      )
