-- ===== src/Dict/Restore.antt =====
-- Saving the dictionary stack as an array and restoring it.
use mathlib.Core.List.{reverse, reverse-reverse, reverse-append}
use sli.Prelude.{
  ℕ, ◌≤◌, ◌≡◌, ◌≢◌, refl, ap, ◌∙◌, sym, true, Option, none, some, List, [], ◌∷◌, ◌++◌, arith, ◌==◌,
  Bool-cases, inl, inr, append_assoc, append-nil,
}
use sli.Dict.Cache.{entry, entry-clear_all}
use sli.Dict.Stack.{ok, DictionaryStack}
use sli.Dict.Change.{clear, bottom, same_order, set_basedict, to_array, push_all, restore_from}
use sli.Dict.Search.{count}
use sli.Dict.Coherent.{Coherent, Ensures}

same_order-eq : (d e : List ℕ) → same_order d e ≡ true → d ≡ e
unfolding same_order
same_order-eq [] [] h = refl
same_order-eq [] (j ∷ e) h = cc
same_order-eq (i ∷ d) [] h = cc
same_order-eq (i ∷ d) (j ∷ e) h =
    let p : (i == j) ≡ true = ground arith in
    let q : same_order d e ≡ true = ground arith in
    let r : i ≡ j = ground (arith, p) in cc (r, same_order-eq d e q)

module _ {ℓ} {A : Type ℓ} where
  -- A stack in which nothing is cached.
  record IsBlank (s : DictionaryStack A) : Type ℓ where
    uncached : (m : ℕ) → entry s.cache m ≡ none
    baseless : s.base ≡ none
    counted : (i : ℕ) → count i s.d ≤ s.dictstack_refs i
    snapped : s.snapshot ≡ none
    unbased : (m : ℕ) → entry s.basecache m ≡ none

  push_all-IsBlank : (a : List ℕ) (s : DictionaryStack A) → IsBlank s → IsBlank (push_all a s)
  unfolding push_all
  push_all-IsBlank [] s h = h
  push_all-IsBlank (i ∷ a) s h = push_all-IsBlank a _ (record {
    uncached = h.uncached;
    baseless = h.baseless;
    counted = λ j. unfold count in ground (arith, h.counted j, ap s.dictstack_refs {x = i} {y = j});
    snapped = h.snapped;
    unbased = h.unbased;
  })

  clear-IsBlank : (s : DictionaryStack A) → IsBlank (clear s)
  unfolding clear
  clear-IsBlank s = record {
    uncached = λ m. entry-clear_all s.cache m;
    baseless = refl;
    counted = λ i. unfold count in omega arith;
    snapped = refl;
    unbased = λ m. entry-clear_all s.basecache m;
  }

  set_basedict-blank :
      (s : DictionaryStack A) (o : Option ℕ)
      → IsBlank s
      → bottom s.d ≡ o
      → Ensures Coherent (set_basedict s)
  unfolding set_basedict
  set_basedict-blank s none h e = rw (e, set_basedict) tt
  set_basedict-blank s (some b) h e =
      rw (e, set_basedict)
        (record {
          cached = λ m p x. cc (x, h.uncached m);
          based = λ m p x. cc (x, h.unbased m);
          counted = h.counted;
          snapped = λ a x. cc (x, h.snapped);
        })

  pub restore_from-Coherent :
      (a : List ℕ) (s : DictionaryStack A) → Coherent s → Ensures Coherent (restore_from a s)
  unfolding restore_from
  restore_from-Coherent a s h = elim (Bool-cases (same_order (reverse s.d) a)) [
    | inl e ↦ rw e h
    | inr e ↦ rw e (
        set_basedict-blank (push_all a (clear s)) (bottom (push_all a (clear s)).d)
          (push_all-IsBlank a (clear s) (clear-IsBlank s)) refl)
  ]

  -- `set_basedict` is meant for a stack that has no base dictionary yet.
  pub set_basedict-Coherent :
      (s : DictionaryStack A) → Coherent s → s.base ≡ none → Ensures Coherent (set_basedict s)
  set_basedict-Coherent s h z = go (bottom s.d) refl
    where
      go : (o : Option ℕ) → bottom s.d ≡ o → Ensures Coherent (set_basedict s)
      go none e = unfold set_basedict in rw (e, set_basedict) tt
      go (some b) e =
          unfold set_basedict in
          rw (e, set_basedict)
            (record {
              cached = h.cached;
              based = λ m p x. cc ((h.based m p x).0, z);
              counted = h.counted;
              snapped = h.snapped;
            })

  d-push_all : (a : List ℕ) (s : DictionaryStack A) → (push_all a s).d ≡ reverse a ++ s.d
  unfolding push_all
  d-push_all [] s = refl
  d-push_all (i ∷ a) s =
      d-push_all a _
      ∙ sym (append_assoc (reverse a) (i ∷ []) s.d)
      ∙ ap (λ x. x ++ s.d) (sym (reverse-append (i ∷ []) a))

  entries-push_all : (a : List ℕ) (s : DictionaryStack A) → (push_all a s).entries ≡ s.entries
  unfolding push_all
  entries-push_all [] s = refl
  entries-push_all (i ∷ a) s = entries-push_all a _

bottom-append : (d : List ℕ) (i : ℕ) → bottom (d ++ i ∷ []) ≡ some i
unfolding bottom
bottom-append [] i = refl
bottom-append (j ∷ []) i = refl
bottom-append (j ∷ k ∷ d) i = bottom-append (k ∷ d) i

module _ {ℓ} {A : Type ℓ} where
  -- What is restored: the stack is the array, its last element on top, over the same dictionaries.
  record Restored (a : List ℕ) (s s' : DictionaryStack A) : Type ℓ where
    pub stack : s'.d ≡ reverse a
    pub kept : s'.entries ≡ s.entries

  bottom-push_all :
      (i : ℕ) (a : List ℕ) (s : DictionaryStack A) → bottom (push_all (i ∷ a) (clear s)).d ≡ some i
  unfolding clear
  bottom-push_all i a s =
      rw (d-push_all (i ∷ a) (clear s), append-nil, reverse-append (i ∷ []) a)
        (bottom-append (reverse a) i)

  restore_from-Restored :
      (i : ℕ) (a : List ℕ) (s : DictionaryStack A)
      → (s' : DictionaryStack A) × (restore_from (i ∷ a) s ≡ ok s') × Restored (i ∷ a) s s'
  unfolding restore_from set_basedict clear
  restore_from-Restored i a s = elim (Bool-cases (same_order (reverse s.d) (i ∷ a))) [
    | inl e ↦ (
      s,
      rw e,
      record {
        stack = sym (reverse-reverse s.d) ∙ ap reverse (same_order-eq (reverse s.d) (i ∷ a) e);
        kept = refl;
      },
    )
    | inr e ↦ (
      record (push_all (i ∷ a) (clear s)) { base = some i },
      rw (e, bottom-push_all i a s, set_basedict),
      record {
        stack = d-push_all (i ∷ a) (clear s) ∙ append-nil (reverse (i ∷ a));
        kept = entries-push_all (i ∷ a) (clear s);
      },
    )
  ]

  -- A stack that was saved by `to_array` is restored, from whatever stack is there by then: the call
  -- succeeds, the stack lists the same dictionaries in the same order, and no dictionary has changed.
  pub restore_from-to_array :
      (saved s : DictionaryStack A)
      → saved.d ≢ []
      → (s' : DictionaryStack A) × (restore_from (to_array saved) s ≡ ok s')
        × (s'.d ≡ saved.d)
        × (s'.entries ≡ s.entries)
  unfolding to_array
  restore_from-to_array saved s ne = go (reverse saved.d) refl
    where
      go :
          (a : List ℕ)
          → reverse saved.d ≡ a
          → (s' : DictionaryStack A) × (restore_from a s ≡ ok s')
            × (s'.d ≡ saved.d)
            × (s'.entries ≡ s.entries)
      go [] e = absurd (ne (sym (reverse-reverse saved.d) ∙ ap reverse e))
      go (i ∷ a) e =
          let (s', p, r) = restore_from-Restored i a s in
          (s', p, r.stack ∙ ap reverse (sym e) ∙ reverse-reverse saved.d, r.kept)
