-- ===== src/Dict/Lookup.antt =====
-- What lookups give: the binding of the topmost dictionary on the stack that has the name, after
-- any sequence of operations that keep the caches coherent.
use sli.Prelude.{
  ℕ, ◌≡◌, refl, ap, ◌∙◌, false, Option, none, some, List, [], ◌∷◌, arith, Bool-cases, inl, inr,
}
use sli.Dict.Map.{TokenMap, find, known, find-known}
use sli.Dict.Cache.{Slot}
use sli.Dict.Stack.{
  ok, fault, DictionaryStack, search, find_, resolve, remember, deref, is_there, read, lookup,
  is_known, where_,
}
use sli.Dict.Coherent.{Coherent, slot-find_}

module _ {ℓ} {A : Type ℓ} where
  -- The token of the topmost dictionary that has the name.
  unfoldable pub binding : ℕ → (ℕ → TokenMap A) → List ℕ → Option A
  binding n e [] = none
  binding n e (i ∷ d) = elim (find n (e i)) [ some t ↦ some t | none ↦ binding n e d ]

  not-known : (n : ℕ) (m : TokenMap A) → known n m ≡ false → find n m ≡ none
  unfolding known find
  not-known n [] h = refl
  not-known n ((k, v) ∷ m) h = ground (arith, not-known n m)

  entries-find_ : (n : ℕ) (s : DictionaryStack A) → (find_ n s).state.entries ≡ s.entries
  unfolding find_ resolve remember
  entries-find_ n s = ground arith

  -- A walk that finds an entry finds its token.
  read-search :
      (n : ℕ) (s : DictionaryStack A) (d : List ℕ)
      → read s (search n s.entries d) ≡ ok (binding n s.entries d)
  unfolding search
  read-search n s [] = unfold read binding in refl
  read-search n s (i ∷ d) = elim (Bool-cases (known n (s.entries i))) [
    | inl k ↦
        let (t, p) = find-known n (s.entries i) k in
        rw k (unfold read deref binding in rw (p, read, binding, deref))
    | inr k ↦
        rw k
          (read-search n s d ∙ ap ok (unfold binding in rw (not-known n (s.entries i) k, binding)))
  ]

  read-entries :
      (s s' : DictionaryStack A) (o : Option Slot) → s'.entries ≡ s.entries → read s' o ≡ read s o
  unfolding read
  read-entries s s' none e = refl
  read-entries s s' (some p) e =
      ap (λ x. elim x [ none ↦ fault | some t ↦ ok (some t) ]) {x = deref s' p} {y = deref s p}
        (unfold deref in ap (λ x. find p.name (x p.dict)) e)

  -- In a coherent stack a lookup never reads a dangling pointer, and gives the binding of the topmost
  -- dictionary that has the name, or nothing where none has it.
  pub lookup-binding :
      (n : ℕ) (s : DictionaryStack A) → Coherent s → (lookup n s).0 ≡ ok (binding n s.entries s.d)
  unfolding lookup
  lookup-binding n s h =
      read-entries s (find_ n s).state (find_ n s).slot (entries-find_ n s)
      ∙ ap (read s) (slot-find_ n s h)
      ∙ read-search n s s.d

  there-search :
      (n : ℕ) (e : ℕ → TokenMap A) (d : List ℕ) → is_there (search n e d) ≡ is_there (binding n e d)
  unfolding search
  there-search n e [] = unfold binding in refl
  there-search n e (i ∷ d) = elim (Bool-cases (known n (e i))) [
    | inl k ↦ let (t, p) = find-known n (e i) k in rw k (unfold binding in rw (p, binding))
    | inr k ↦ rw k (
        there-search n e d
        ∙ ap is_there {x = binding n e d} (unfold binding in rw (not-known n (e i) k, binding)))
  ]

  pub is_known-binding :
      (n : ℕ) (s : DictionaryStack A)
      → Coherent s
      → (is_known n s).0 ≡ is_there (binding n s.entries s.d)
  unfolding is_known
  is_known-binding n s h = ap is_there (slot-find_ n s h) ∙ there-search n s.entries s.d

  binding-where :
      (n : ℕ) (e : ℕ → TokenMap A) (d : List ℕ)
      → binding n e d ≡ elim (where_ n e d) [ none ↦ none | some i ↦ find n (e i) ]
  unfolding binding where_
  binding-where n e [] = refl
  binding-where n e (i ∷ d) = elim (Bool-cases (known n (e i))) [
    | inl k ↦ let (t, p) = find-known n (e i) k in rw (k, p, binding)
    | inr k ↦ rw (k, not-known n (e i) k, binding) (binding-where n e d)
  ]

  -- In a coherent stack, `where` gives the dictionary whose entry a lookup reads, and none where the
  -- lookup finds nothing.
  pub lookup-where :
      (n : ℕ) (s : DictionaryStack A)
      → Coherent s
      → (lookup n s).0
        ≡ ok (elim (where_ n s.entries s.d) [ none ↦ none | some i ↦ find n (s.entries i) ])
  lookup-where n s h = lookup-binding n s h ∙ ap ok (binding-where n s.entries s.d)
