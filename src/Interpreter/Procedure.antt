-- ===== src/Interpreter/Procedure.antt =====
-- Procedures, from the outer switch to the end: the last token of the body takes the place of the frame.
use mathlib.Core.Path.{subst}
use sli.Prelude.{
  ℕ, ◌+◌, ◌<◌, ◌≡◌, refl, sym, ap, ◌∙◌, true, false, none, some, List, [], ◌∷◌, ◌++◌, append_assoc,
  append-nil, length, length-append, leb, arith,
}
use sli.Prelude.Int.{pos, ◌+ℤ◌}
use sli.Stack.Token.{SliTypeid, Token}
use sli.Trie.TypeNode.{tag_of}
use sli.Control.Interp.{Interp, is_of_type, integer_token, marker}
use sli.Interpreter.Dispatch.{
  Label, at, Services, is_iteration, resumed, at_index, walk_next, walk, resume, with_estack, outer,
  dispatch,
}
use sli.Interpreter.Exhausted.{step, Reach, here}
use sli.Interpreter.Bodies.{
  Reach-trans, Reach-step, Acts, BodyActs, act_all, at_end, at_next, +ℤ-one, executable_function,
  walk_token_function, resumed-Acts,
}

abbrev frame : Token → Token → Token → List Token → List Token
frame m p proc es = m ∷ p ∷ proc ∷ es

abbrev at_position : ℕ → Token
at_position n = integer_token (pos n)

following :
    (ts : List Token) (u : Token) → (v : Token) × (rest : List Token) × (ts ++ u ∷ [] ≡ v ∷ rest)
following [] u = (u, [], refl)
following (t ∷ ts) u = (t, ts ++ u ∷ [], refl)

-- The position behind a token.
position_after :
    (before : List Token) (t : Token)
    → pos (length before) +ℤ pos 1 ≡ pos (length (before ++ t ∷ []))
position_after before t =
    +ℤ-one (length before)
    ∙ ap pos {x = length before + 1} (omega (arith, length-append before (t ∷ [])))

module _ (s : Services) (exitlevel : ℕ) where
  outer_step :
      (i : Interp) (x : Token) (es : List Token) (t : SliTypeid)
      → x.type ≡ t
      → i.estack ≡ x ∷ es
      → exitlevel < length i.estack
      → step s exitlevel (at Label.outer_switch i) ≡ dispatch s t x es i
  unfolding step outer
  outer_step i x es t h e l =
      let g : leb (length (x ∷ es)) exitlevel ≡ false = ground (arith, ap length e, l) in
      ap (outer s exitlevel i) e ∙ rw g (ap (λ u. dispatch s u x es i) h)

  resume_body :
      (i : Interp) (es : List Token)
      → i.estack ≡ marker SliTypeid.iiteratetype ∷ es
      → step s exitlevel (at Label.resume_iter i) ≡ at Label.body_walk i
  unfolding step resume is_iteration
  resume_body i es e = ap (resume i) e

  walk_step :
      (i : Interp) (p proc : Token) (es : List Token) (t : Token)
      → i.estack ≡ frame (marker SliTypeid.iiteratetype) p proc es
      → at_index (i.arrays proc.data_) p.data_ ≡ some t
      → step s exitlevel (at Label.body_walk i)
        ≡ walk_next s (marker SliTypeid.iiteratetype) p proc es i (some t)
  unfolding step walk
  walk_step i p proc es t e h =
      ap (walk s i) e ∙ ap (walk_next s (marker SliTypeid.iiteratetype) p proc es i) h

  dispatch_procedure :
      (proc : Token) (es : List Token) (i : Interp)
      → dispatch s SliTypeid.proceduretype proc es i
        ≡ at Label.body_walk
            (with_estack (frame (marker SliTypeid.iiteratetype) (at_position 0) proc es) i)
  unfolding dispatch
  dispatch_procedure proc es i = refl

  dispatch_function :
      (t : Token) (es : List Token) (i : Interp) (act : List Token → List Token)
      → Acts s act t
      → dispatch s SliTypeid.functiontype t es i
        ≡ at Label.outer_switch (record i { ostack = act i.ostack; estack = es })
  unfolding dispatch resumed
  dispatch_function t es i act a = ap (resumed s Label.outer_switch) (a.acts (with_estack es i))

  -- A token of the body that another one follows.
  walk_next-front :
      (n : ℕ) (proc t u : Token) (es : List Token) (i : Interp) (act : List Token → List Token)
      → at_index (i.arrays proc.data_) (pos n +ℤ pos 1) ≡ some u
      → Acts s act t
      → walk_next s (marker SliTypeid.iiteratetype) (at_position n) proc es i (some t)
        ≡ at Label.resume_iter (record i {
          ostack = act i.ostack;
          estack = frame (marker SliTypeid.iiteratetype) (integer_token (pos n +ℤ pos 1)) proc es;
        })
  unfolding walk_next
  walk_next-front n proc t u es i act w a =
      let j =
        with_estack (frame (marker SliTypeid.iiteratetype) (integer_token (pos n +ℤ pos 1)) proc es)
          i in
      rw (executable_function s exitlevel t.type a.is_function, w)
        (walk_token_function s exitlevel t true j a.is_function
          ∙ resumed-Acts s exitlevel t j act a)

  iiterate_self : is_of_type SliTypeid.iiteratetype (marker SliTypeid.iiteratetype) ≡ true
  unfolding is_of_type tag_of
  iiterate_self = refl

  -- The last token of the body.
  walk_next-last :
      (n : ℕ) (proc t : Token) (es : List Token) (i : Interp) (act : List Token → List Token)
      → at_index (i.arrays proc.data_) (pos n +ℤ pos 1) ≡ none
      → s.show_backtrace ≡ false
      → Acts s act t
      → walk_next s (marker SliTypeid.iiteratetype) (at_position n) proc es i (some t)
        ≡ at Label.outer_switch (with_estack (t ∷ es) i)
  unfolding walk_next
  walk_next-last n proc t es i act w b a =
      rw (executable_function s exitlevel t.type a.is_function, w, iiterate_self, b) refl

  walk_front :
      (ts : List Token) (acts : List (List Token → List Token)) (before : List Token) (u : Token)
      (i : Interp) (proc : Token) (es : List Token)
      → BodyActs s acts ts
      → i.arrays proc.data_ ≡ before ++ (ts ++ u ∷ [])
      → i.estack ≡ frame (marker SliTypeid.iiteratetype) (at_position (length before)) proc es
      → Reach s exitlevel (at Label.body_walk i) (
          at Label.body_walk (record i {
            ostack = act_all acts i.ostack;
            estack =
                frame (marker SliTypeid.iiteratetype) (at_position (length (before ++ ts))) proc es;
          }))
  walk_front [] [] before u i proc es h b e =
      subst (λ x. Reach s exitlevel (at Label.body_walk i) (at Label.body_walk (with_estack x i)))
        (e
          ∙ ap (λ xs. frame (marker SliTypeid.iiteratetype) (at_position (length xs)) proc es)
              (sym (append-nil before)))
        here
  walk_front [] (act ∷ acts) before u i proc es h b e = absurd h
  walk_front (t ∷ ts) [] before u i proc es h b e = absurd h
  walk_front (t ∷ ts) (act ∷ acts) before u i proc es (a, h) b e =
      let m = marker SliTypeid.iiteratetype in
      let n = length before in
      let (v, rest, f) = following ts u in
      let b' = b ∙ sym (append_assoc before (t ∷ []) (ts ++ u ∷ [])) in
      let q = position_after before t in
      let w = ap (λ x. at_index x (pos n)) b ∙ at_next before (ts ++ u ∷ []) t in
      let w' =
        ap (at_index (i.arrays proc.data_)) q
        ∙ ap (λ x. at_index x (pos (length (before ++ t ∷ []))))
            (b' ∙ ap (λ x. (before ++ t ∷ []) ++ x) f)
        ∙ at_next (before ++ t ∷ []) rest v in
      let j : Interp = record i {
        ostack = act i.ostack;
        estack = frame m (integer_token (pos n +ℤ pos 1)) proc es;
      } in
      Reach-step
        (walk_step i (at_position n) proc es t e w ∙ walk_next-front n proc t v es i act w' a)
        (Reach-step (resume_body j (integer_token (pos n +ℤ pos 1) ∷ proc ∷ es) refl) (
          subst
            (λ xs. Reach s exitlevel (at Label.body_walk j) (
              at Label.body_walk (record j {
                ostack = act_all acts j.ostack;
                estack = frame m (at_position (length xs)) proc es;
              })))
            (append_assoc before (t ∷ []) ts)
            (walk_front ts acts (before ++ t ∷ []) u j proc es h b'
              (ap (λ d. frame m (integer_token d) proc es) q))))

  -- A procedure whose tokens are functions that work on the operand stack alone, on top of an execution
  -- stack that is above the level where the dispatcher leaves, while no backtrace is shown: the
  -- dispatcher comes to the state where all functions but the last are done, in their order, and the last
  -- function stands on the execution stack in the place of the procedure, without its frame; and it comes
  -- to the state where the last one is done too and its place is gone.
  pub procedure-runs :
      (ts : List Token) (acts : List (List Token → List Token)) (u : Token)
      (act : List Token → List Token) (i : Interp) (proc : Token) (es : List Token)
      → BodyActs s acts ts
      → Acts s act u
      → s.show_backtrace ≡ false
      → proc.type ≡ SliTypeid.proceduretype
      → i.arrays proc.data_ ≡ ts ++ u ∷ []
      → i.estack ≡ proc ∷ es
      → exitlevel < length i.estack
      → Reach s exitlevel
          (at Label.outer_switch i)
          (at Label.outer_switch (record i { ostack = act_all acts i.ostack; estack = u ∷ es }))
        × Reach s exitlevel
            (at Label.outer_switch i)
            (at Label.outer_switch (record i { ostack = act (act_all acts i.ostack); estack = es }))
  procedure-runs ts acts u act i proc es h a nb hp b e l =
      let m = marker SliTypeid.iiteratetype in
      let n = length ts in
      let j : Interp = with_estack (frame m (at_position 0) proc es) i in
      let k : Interp = record i {
        ostack = act_all acts i.ostack;
        estack = frame m (at_position n) proc es;
      } in
      let x : Interp = record i { ostack = act_all acts i.ostack; estack = u ∷ es } in
      let w = ap (λ x. at_index x (pos n)) b ∙ at_next ts [] u in
      let w' =
        ap (at_index (i.arrays proc.data_)) (position_after ts u)
        ∙ ap (λ x. at_index x (pos (length (ts ++ u ∷ [])))) b
        ∙ at_end (ts ++ u ∷ []) in
      let first =
        Reach-step
          (outer_step i proc es SliTypeid.proceduretype hp e l ∙ dispatch_procedure proc es i)
          (Reach-trans (walk_front ts acts [] u j proc es h b refl) (
            Reach-step
              (walk_step k (at_position n) proc es u refl w
                ∙ walk_next-last n proc u es k act w' nb a)
              here)) in
      (
        first,
        Reach-trans first (
            Reach-step
              (outer_step x u es SliTypeid.functiontype a.is_function refl
                  (omega (arith, l, ap length e))
                ∙ dispatch_function u es x act a)
              here),
      )
