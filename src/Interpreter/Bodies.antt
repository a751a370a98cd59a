-- ===== src/Interpreter/Bodies.antt =====
-- Bodies of loops whose tokens are functions that work on the operand stack.
use sli.Prelude.{
  ℕ, ◌+◌, ◌≡◌, refl, sym, ap, ◌∙◌, Bool, true, false, not, ◌&&◌, none, some, List, [], ◌∷◌, ◌++◌,
  append_assoc, append-nil, length, length-append, arith,
}
use mathlib.Core.Path.{subst}
use sli.Prelude.Int.{pos, ◌+ℤ◌, int_laws}
use sli.Stack.Token.{SliTypeid, Token}
use sli.Control.Interp.{Interp, finished, is_of_type}
use sli.Interpreter.Dispatch.{
  Label, State, at, Services, is_executable, is_iteration, resumed, at_index, is_set, walk_token,
  walk_next, walk, resume, with_estack,
}
use sli.Interpreter.Exhausted.{step, Reach, here, next}

pub Reach-trans :
    {s : Services} {l : ℕ} {x y z : State} → Reach s l x y → Reach s l y z → Reach s l x z
Reach-trans here r = r
Reach-trans (next p) r = next (Reach-trans p r)

pub Reach-step :
    {s : Services} {l : ℕ} {x y z : State} → step s l x ≡ y → Reach s l y z → Reach s l x z
Reach-step {s} {l} {x} {y} {z} e r = next (subst (λ u. Reach s l u z) (sym e) r)

-- The token is a function that does `act` to the operand stack and nothing else.
pub record Acts (s : Services) (act : List Token → List Token) (t : Token) : Type 0 where
  pub is_function : t.type ≡ SliTypeid.functiontype
  pub acts :
      (i : Interp) → s.execute_function t.data_ i ≡ finished (record i { ostack = act i.ostack })

-- The tokens of a body act one after the other.
abbrev pub BodyActs : Services → List (List Token → List Token) → List Token → Type 0
BodyActs s [] [] = Unit {0}
BodyActs s (act ∷ acts) (t ∷ ts) = Acts s act t × BodyActs s acts ts
BodyActs s _ _ = ⊥

abbrev pub act_all : List (List Token → List Token) → List Token → List Token
act_all [] st = st
act_all (act ∷ acts) st = act_all acts (act st)

-- A marker of a loop: any but that of a procedure.
pub record IsLoop (m : Token) : Type 0 where
  pub iterates : is_iteration m.type ≡ true
  pub other : is_of_type SliTypeid.iiteratetype m ≡ false

pub at_end : (xs : List Token) → at_index xs (pos (length xs)) ≡ none
unfolding at_index
at_end [] = refl
at_end (x ∷ xs) = at_end xs

pub at_next :
    (before after : List Token) (t : Token)
    → at_index (before ++ t ∷ after) (pos (length before)) ≡ some t
unfolding at_index
at_next [] after t = refl
at_next (x ∷ before) after t = at_next before after t

pub +ℤ-one : (n : ℕ) → pos n +ℤ pos 1 ≡ pos (n + 1)
+ℤ-one n = omega int_laws

module _ (s : Services) (exitlevel : ℕ) where
  pub resume_loop :
      (i : Interp) (m : Token) (es : List Token)
      → IsLoop m
      → i.estack ≡ m ∷ es
      → step s exitlevel (at Label.resume_iter i) ≡ at Label.body_walk i
  unfolding step resume
  resume_loop i m es h e = ap (resume i) e ∙ rw h.iterates refl

  pub walk_end :
      (i : Interp) (m p proc : Token) (es : List Token)
      → i.estack ≡ m ∷ p ∷ proc ∷ es
      → at_index (i.arrays proc.data_) p.data_ ≡ none
      → step s exitlevel (at Label.body_walk i) ≡ at Label.body_exhausted i
  unfolding step walk walk_next
  walk_end i m p proc es e h = ap (walk s i) e ∙ ap (walk_next s m p proc es i) h

  guard-false : (a c : Bool) → (a && false && c) ≡ false
  guard-false true c = refl
  guard-false false c = refl

  pub executable_function : (t : SliTypeid) → t ≡ SliTypeid.functiontype → is_executable t ≡ true
  unfolding is_executable
  executable_function t e = ap is_executable e

  pub walk_token_function :
      (t : Token) (more : Bool) (j : Interp)
      → t.type ≡ SliTypeid.functiontype
      → walk_token s t.type t more j ≡ resumed s Label.resume_iter (s.execute_function t.data_ j)
  unfolding walk_token
  walk_token_function t more j e = ap (λ y. walk_token s y t more j) e

  pub resumed-Acts :
      (t : Token) (j : Interp) (act : List Token → List Token)
      → Acts s act t
      → resumed s Label.resume_iter (s.execute_function t.data_ j)
        ≡ at Label.resume_iter (record j { ostack = act j.ostack })
  unfolding resumed
  resumed-Acts t j act a = ap (resumed s Label.resume_iter) (a.acts j)

  walk_next-Acts :
      (m p proc t : Token) (es : List Token) (i : Interp) (act : List Token → List Token)
      → IsLoop m
      → Acts s act t
      → walk_next s m p proc es i (some t)
        ≡ at Label.resume_iter (record i {
          ostack = act i.ostack;
          estack = m ∷ record p { data_ = p.data_ +ℤ pos 1 } ∷ proc ∷ es;
        })
  unfolding walk_next
  walk_next-Acts m p proc t es i act loop a =
      let more = is_set (at_index (i.arrays proc.data_) (p.data_ +ℤ pos 1)) in
      let j = with_estack (m ∷ record p { data_ = p.data_ +ℤ pos 1 } ∷ proc ∷ es) i in
      rw
        (
          executable_function t.type a.is_function,
          loop.other,
          guard-false (not more) (not s.show_backtrace),
        )
        (walk_token_function t more j a.is_function ∙ resumed-Acts t j act a)

  walk_function :
      (i : Interp) (m p proc t : Token) (es : List Token) (act : List Token → List Token)
      → IsLoop m
      → i.estack ≡ m ∷ p ∷ proc ∷ es
      → at_index (i.arrays proc.data_) p.data_ ≡ some t
      → Acts s act t
      → step s exitlevel (at Label.body_walk i)
        ≡ at Label.resume_iter (record i {
          ostack = act i.ostack;
          estack = m ∷ record p { data_ = p.data_ +ℤ pos 1 } ∷ proc ∷ es;
        })
  unfolding step walk
  walk_function i m p proc t es act loop e h a =
      ap (walk s i) e ∙ ap (walk_next s m p proc es i) h ∙ walk_next-Acts m p proc t es i act loop a

  -- The body from a position on: `before` has been executed.
  pub walk_body :
      (after : List Token) (acts : List (List Token → List Token)) (before : List Token)
      (i : Interp) (m p proc : Token) (es : List Token)
      → IsLoop m
      → BodyActs s acts after
      → i.arrays proc.data_ ≡ before ++ after
      → p.data_ ≡ pos (length before)
      → i.estack ≡ m ∷ p ∷ proc ∷ es
      → Reach s exitlevel (at Label.body_walk i) (
          at Label.body_exhausted (record i {
            ostack = act_all acts i.ostack;
            estack = m ∷ record p { data_ = pos (length (before ++ after)) } ∷ proc ∷ es;
          }))
  walk_body [] [] before i m p proc es loop h b e f =
      let n : p.data_ ≡ pos (length (before ++ [])) =
        e ∙ ap (λ xs. pos (length xs)) (sym (append-nil before)) in
      let w =
        ap (λ a. at_index a p.data_) b ∙ ap (at_index (before ++ [])) n ∙ at_end (before ++ []) in
      Reach-step (walk_end i m p proc es f w) (
        subst
          (λ x.
            Reach s exitlevel (at Label.body_exhausted i)
              (at Label.body_exhausted (with_estack x i)))
          (f ∙ ap (λ d. m ∷ record p { data_ = d } ∷ proc ∷ es) n) here)
  walk_body [] (act ∷ acts) before i m p proc es loop h b e f = absurd h
  walk_body (t ∷ after) [] before i m p proc es loop h b e f = absurd h
  walk_body (t ∷ after) (act ∷ acts) before i m p proc es loop (a, h) b e f =
      let w =
        ap (λ x. at_index x p.data_) b
        ∙ ap (at_index (before ++ t ∷ after)) e
        ∙ at_next before after t in
      let p' : Token = record p { data_ = p.data_ +ℤ pos 1 } in
      let j : Interp = record i { ostack = act i.ostack; estack = m ∷ p' ∷ proc ∷ es } in
      let q : p.data_ +ℤ pos 1 ≡ pos (length (before ++ t ∷ [])) =
        ap (λ d. d +ℤ pos 1) e
        ∙ +ℤ-one (length before)
        ∙ ap pos {x = length before + 1} (omega (arith, length-append before (t ∷ []))) in
      Reach-step (walk_function i m p proc t es act loop f w a) (
        Reach-step (resume_loop j m (p' ∷ proc ∷ es) loop refl) (
          subst
            (λ xs. Reach s exitlevel (at Label.body_walk j) (
              at Label.body_exhausted (record j {
                ostack = act_all acts j.ostack;
                estack = m ∷ record p' { data_ = pos (length xs) } ∷ proc ∷ es;
              })))
            (append_assoc before (t ∷ []) after)
            (walk_body after acts (before ++ t ∷ []) j m p' proc es loop h
              (b ∙ sym (append_assoc before (t ∷ []) after)) q refl)))
