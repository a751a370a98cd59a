-- ===== src/Control/Stops.antt =====
-- What `exit`, `stopped` and `stop` do to the execution stack.
use sli.Prelude.{
  suc, ◌+◌, ◌≡◌, refl, sym, ap, ◌∙◌, Bool, true, false, none, some, List, [], ◌∷◌, ◌++◌, length,
  length-append, drop, ltb, arith, Bool-cases, Option-cases, get_elem?, inl, inr,
}
use sli.Prelude.Int.{ℤ}
use sli.Stack.Token.{SliTypeid, Token}
use sli.Trie.TypeNode.{tag_of}
use sli.Control.Interp.{
  Interp, Effect, finished, raising, thrown, broken, estack_underflow, is_of_type, bool_token,
  require_load, at_pick, pop_operands, pop_execution,
}
use sli.Control.Unwind.{
  scan_stack, pop_through, exit_function, is_name_token, same_word, stopped_function, stop_function,
}

-- No token of the list passes the test.
abbrev pub Fails : (Token → Bool) → List Token → Type 0
Fails test [] = Unit {0}
Fails test (x ∷ st) = (test x ≡ false) × Fails test st

pub scan_stack-found :
    (test : Token → Bool) (above : List Token) (m : Token) (below : List Token)
    → Fails test above
    → test m ≡ true
    → scan_stack test (above ++ m ∷ below) ≡ some (length above)
unfolding scan_stack
scan_stack-found test [] m below h e = rw e refl
scan_stack-found test (x ∷ above) m below (hx, h) e =
    rw (hx, scan_stack-found test above m below h e) refl

pub scan_stack-none :
    (test : Token → Bool) (st : List Token) → Fails test st → scan_stack test st ≡ none
unfolding scan_stack
scan_stack-none test [] h = refl
scan_stack-none test (x ∷ st) (hx, h) = rw (hx, scan_stack-none test st h) refl

drop_past :
    (above : List Token) (m : Token) (below : List Token)
    → drop (suc (length above)) (above ++ m ∷ below) ≡ below
drop_past [] m below = refl
drop_past (x ∷ above) m below = drop_past above m below

pub drop-append :
    (above : List Token) (m : Token) (below : List Token)
    → drop (length above + 1) (above ++ m ∷ below) ≡ below
drop-append above m below =
    ap (λ n. drop n (above ++ m ∷ below)) {x = length above + 1} {y = suc (length above)}
      (omega arith)
    ∙ drop_past above m below

pub pop_execution-through :
    (k : Interp) (above : List Token) (m : Token) (below : List Token)
    → k.estack ≡ above ++ m ∷ below
    → pop_execution (length above + 1) k ≡ finished (record k { estack = below })
unfolding pop_execution
pop_execution-through k above m below e =
    let l : ltb (length k.estack) (length above + 1) ≡ false =
      ground (arith, ap length e, length-append above (m ∷ below)) in
    rw l (
      ap (λ x. finished (record k { estack = x }))
        (ap (drop (length above + 1)) e ∙ drop-append above m below))

-- `exit` removes everything down to the topmost mark and the mark itself, and changes nothing else.
pub exit_function-unwinds :
    (k : Interp) (above : List Token) (m : Token) (below : List Token)
    → k.estack ≡ above ++ m ∷ below
    → Fails (is_of_type SliTypeid.marktype) above
    → is_of_type SliTypeid.marktype m ≡ true
    → exit_function k ≡ finished (record k { estack = below })
unfolding exit_function
exit_function-unwinds k above m below e h hm =
    ap (λ x. pop_through x (raising estack_underflow k) k)
      (ap (scan_stack (is_of_type SliTypeid.marktype)) e
        ∙ scan_stack-found (is_of_type SliTypeid.marktype) above m below h hm)
    ∙ pop_execution-through k above m below e

exit_function-missing :
    (k : Interp)
    → Fails (is_of_type SliTypeid.marktype) k.estack
    → exit_function k ≡ raising estack_underflow k
unfolding exit_function
exit_function-missing k h =
    ap (λ x. pop_through x (raising estack_underflow k) k)
      (scan_stack-none (is_of_type SliTypeid.marktype) k.estack h)

abbrev pub sentinel : ℤ → Token
sentinel name = record { type = SliTypeid.nametype; data_ = name }

same_word_self : (n : ℤ) → same_word n n ≡ true
same_word_self n = ground arith

sentinel-passes : (name : ℤ) → is_name_token name (sentinel name) ≡ true
unfolding is_name_token is_of_type tag_of
sentinel-passes name = same_word_self name

stop_function-through :
    (name : ℤ) (k : Interp) (above below : List Token)
    → k.estack ≡ above ++ sentinel name ∷ below
    → Fails (is_name_token name) above
    → stop_function name k
      ≡ finished (record k { ostack = bool_token true ∷ k.ostack; estack = below })
unfolding stop_function
stop_function-through name k above below e h =
    let f =
      ap (scan_stack (is_name_token name)) e
      ∙ scan_stack-found (is_name_token name) above (sentinel name) below h
          (sentinel-passes name) in
    rw f (
      pop_execution-through (record k { ostack = bool_token true ∷ k.ostack }) above (sentinel name)
        below e)

abbrev estack_of : Effect → List Token → List Token
estack_of (finished i) d = i.estack
estack_of _ d = d

stopped-leaves :
    (name : ℤ) (i j : Interp)
    → stopped_function name i ≡ finished j
    → drop 1 j.estack ≡ sentinel name ∷ i.estack
unfolding stopped_function require_load at_pick pop_operands
stopped-leaves name i j h = elim (Bool-cases (ltb (length i.ostack) 1)) [
  | inl e ↦ absurd (let w : thrown _ i ≡ finished j = rw e at h in cc w)
  | inr e ↦ elim (Option-cases (get_elem? i.ostack 0)) [
    | inl p ↦ absurd (let w : broken ≡ finished j = rw (e, p) at h in cc w)
    | inr (x, p) ↦
        let w : finished
              (record i { ostack = drop 1 i.ostack; estack = x ∷ sentinel name ∷ i.estack })
            ≡ finished j =
          rw (e, p) at h in
        sym (ap (λ r. drop 1 (estack_of r [])) w)
  ]
]

-- After `stopped` has begun to execute an object, `stop` comes back to the execution stack that was
-- there before `stopped`, and pushes true, from any state whose execution stack is that which `stopped`
-- left, its object executed, with any slots above in which the name of `stopped` does not stand.
pub stop-stopped :
    (name : ℤ) (i j k : Interp) (above : List Token)
    → stopped_function name i ≡ finished j
    → k.estack ≡ above ++ drop 1 j.estack
    → Fails (is_name_token name) above
    → stop_function name k
      ≡ finished (record k { ostack = bool_token true ∷ k.ostack; estack = i.estack })
stop-stopped name i j k above h e f =
    stop_function-through name k above i.estack
      (e ∙ ap (λ x. above ++ x) (stopped-leaves name i j h)) f
