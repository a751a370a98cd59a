-- ===== src/Stack/Copies.antt =====
-- `index` and `copy`.
use sli.Prelude.{
  get_elem?-lt, get_elem?-append_right, get_elem?-append_left, get_elem?-some, get_elem?-none, ℕ,
  zero, suc, ◌+◌, ◌-◌, ◌≤◌, ◌<◌, ◌≡◌, refl, ap, sym, ◌∙◌, true, Option, none, some, List, ◌∷◌, ◌++◌,
  arith, length, ltb, take, drop, get_elem?, take-append-drop, length-take, length-drop, ◌==◌,
  Bool-cases, inl, inr, if◌then◌else◌,
}
use sli.Prelude.Int.{pos}
use sli.Stack.Token.{SliTypeid, Token}
use sli.Stack.TokenStack.{pop_n, pick, index}
use sli.Stack.Operators.{
  Machine, Result, done, raised, out_of_bounds, stack_underflow, require_stack_load, check_range,
  leaves, assign_top, index_function, index_times, copy_function,
}
use sli.Stack.Turns.{drop_all}
use sli.Stack.Loads.{require_stack_load-le, pop_n-le}

-- An operand that is a number.
abbrev pub number : ℕ → Token
number n = record { type = SliTypeid.integertype; data_ = pos n }

pub index-some :
    (j : ℕ) (st : List Token) (t : Token) → get_elem? st j ≡ some t → index j st ≡ some (t ∷ st)
unfolding index pick
index-some j st t h = rw (h, index, pick)

-- A round of `copy`: with `suc c` of them left, it copies the element at `c` of the topmost ones.
index-copied :
    (c : ℕ) (seg st : List Token)
    → c < length seg
    → index (length seg - 1) (drop (suc c) seg ++ (seg ++ st)) ≡ some (drop c seg ++ (seg ++ st))
index-copied c seg st h =
    let (t, g, d) = get_elem?-lt seg c h in
    let e : length seg - 1 ≡ length (drop (suc c) seg) + c =
      omega (arith, length-drop (suc c) seg, h) in
    index-some (length seg - 1) (drop (suc c) seg ++ (seg ++ st)) t (
      ap (get_elem? (drop (suc c) seg ++ (seg ++ st))) e
      ∙ get_elem?-append_right (drop (suc c) seg) (seg ++ st) c
      ∙ get_elem?-append_left seg st c h
      ∙ g)
    ∙ ap (λ x. some (x ++ (seg ++ st))) (sym d)

index_times-drop :
    (c : ℕ) (seg st : List Token)
    → c ≤ length seg
    → index_times c (length seg - 1) (drop c seg ++ (seg ++ st)) ≡ some (seg ++ (seg ++ st))
unfolding index_times
index_times-drop zero seg st h = refl
index_times-drop (suc c) seg st h =
    rw (index-copied c seg st (omega (arith, h)), index_times)
      (index_times-drop c seg st (omega (arith, h)))

pub index_times-take :
    (n : ℕ) (st : List Token) → n ≤ length st → index_times n (n - 1) st ≡ some (take n st ++ st)
index_times-take n st h =
    let e : length (take n st) ≡ n = omega (arith, length-take n st, h) in
    let p = take-append-drop n st in
    let q = index_times-drop (length (take n st)) (take n st) (drop n st) (omega arith) in
    ap (λ x. index_times x (x - 1) st) (sym e)
    ∙ ap (λ x. index_times (length (take n st)) (length (take n st) - 1) x)
        (sym p ∙ ap (λ x. x ++ (take n st ++ drop n st)) (sym (drop_all (take n st))))
    ∙ q
    ∙ ap (λ x. some (take n st ++ x)) p

-- `n copy` copies the topmost `n` elements below its operand, in their order.
pub copy_function-take :
    (i : Machine) (n : ℕ) (st : List Token)
    → i.ostack ≡ number n ∷ st
    → n ≤ length st
    → copy_function i ≡ done (record i { ostack = take n st ++ st })
unfolding copy_function check_range pick leaves
copy_function-take i n st e h =
    let l : length i.ostack ≡ suc (length st) = ap length e in
    let copied = λ (m : ℕ). require_stack_load (m + 1) i (elim (pop_n 1 i.ostack) [
      | none ↦ out_of_bounds
      | some st ↦ leaves i (index_times m (m - 1) st)
    ]) in
    require_stack_load-le 1 i _ (omega (arith, l))
    ∙ ap (λ x. check_range i copied (pick 0 x)) e
    ∙ require_stack_load-le (n + 1) i _ (omega (arith, l, h))
    ∙ ap (λ x. elim x [ none ↦ out_of_bounds | some st ↦ leaves i (index_times n (n - 1) st) ])
        (pop_n-le 1 i.ostack (omega (arith, l)) ∙ ap (λ x. some (drop 1 x)) e)
    ∙ ap (leaves i) (index_times-take n st h)

-- The result of `index` by the element that there is.
abbrev pub indexed : Machine → ℕ → List Token → Option Token → Result
indexed i n st (some t) = done (record i { ostack = t ∷ st })
indexed i n st none =
    if n == length st then out_of_bounds else raised (stack_underflow (n + 1) (length i.ostack)) i

assigned-indexed :
    (i : Machine) (n : ℕ) (st : List Token) (o : Option Token)
    → length i.ostack ≡ suc (length st)
    → get_elem? st n ≡ o
    → require_stack_load (n + 1) i (leaves i (assign_top o (number n ∷ st))) ≡ indexed i n st o
unfolding leaves assign_top
assigned-indexed i n st (some t) l g =
    require_stack_load-le (n + 1) i _ (omega (arith, l, get_elem?-some st n t g))
assigned-indexed i n st none l g = elim (Bool-cases (n == length st)) [
  | inl e ↦ rw e (require_stack_load-le (n + 1) i out_of_bounds (ground (arith, e, l)))
  | inr e ↦
      let p : ltb (length i.ostack) (n + 1) ≡ true = ground (arith, e, l, get_elem?-none st n g) in
      rw e (unfold require_stack_load in rw p)
]

-- What `n index` gives on the elements below its operand: the element at `n`; an access outside of
-- the vector, where there are `n` of them, which the check lets pass; and an error where there are
-- fewer.
pub index_function-indexed :
    (i : Machine) (n : ℕ) (st : List Token)
    → i.ostack ≡ number n ∷ st
    → index_function i ≡ indexed i n st (get_elem? st n)
unfolding index_function check_range pick
index_function-indexed i n st e =
    let l : length i.ostack ≡ suc (length st) = ap length e in
    require_stack_load-le 1 i _ (omega (arith, l))
    ∙ ap
        (λ x.
          check_range i
            (λ m.
              require_stack_load (m + 1) i (leaves i (assign_top (pick (m + 1) i.ostack) i.ostack)))
            (pick 0 x))
        e
    ∙ ap (λ x. require_stack_load (n + 1) i (leaves i (assign_top (pick (n + 1) x) x))) e
    ∙ ap
        (λ x.
          require_stack_load (n + 1) i
            (leaves i (assign_top (pick x (number n ∷ st)) (number n ∷ st))))
        {x = n + 1} {y = suc n} (omega arith)
    ∙ assigned-indexed i n st (get_elem? st n) l refl
