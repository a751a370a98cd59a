-- ===== src/Dict/Runs.antt =====
-- Sequences of operations on a dictionary stack, from the stack that its constructor makes.
use mathlib.Core.List.{reverse}
use mathlib.Core.Path.{subst}
use sli.Prelude.{ℕ, ◌+◌, ◌≡◌, refl, Option, none, some, List, [], arith}
use sli.Dict.Map.{TokenMap}
use sli.Dict.Cache.{entry}
use sli.Dict.Stack.{Outcome, ok, DictionaryStack, lookup, is_known, is_there}
use sli.Dict.Change.{
  def, undef, basedef, push, pop, clear, set_basedict, take_snapshot, restore_from, put, to_array,
}
use sli.Dict.Search.{count}
use sli.Dict.Coherent.{Coherent, Ensures, find_-Coherent}
use sli.Dict.Keeps.{
  def-Coherent, undef-Coherent, basedef-Coherent, push-Coherent, pop-Coherent, clear-Coherent,
  put-Coherent,
}
use sli.Dict.Restore.{restore_from-Coherent, set_basedict-Coherent}
use sli.Dict.Lookup.{binding, lookup-binding, is_known-binding}

-- One operation that succeeds. `baselookup` is not among them, and the base dictionary is pinned
-- only where none is.
pub data Step {ℓ} {A : Type ℓ} (s : DictionaryStack A) : DictionaryStack A → Type ℓ where
  looks_up : (n : ℕ) → Step s (lookup n s).1
  asks : (n : ℕ) → Step s (is_known n s).1
  defines : {s' : DictionaryStack A} (n : ℕ) (t : A) → def n t s ≡ ok s' → Step s s'
  undefines : {s' : DictionaryStack A} (n : ℕ) → undef n s ≡ ok s' → Step s s'
  defines_base : {s' : DictionaryStack A} (n : ℕ) (t : A) → basedef n t s ≡ ok s' → Step s s'
  assigns : (i n : ℕ) (t : A) → Step s (put i n t s)
  pushes : (i : ℕ) → Step s (push i s)
  pops : {s' : DictionaryStack A} → pop s ≡ ok s' → Step s s'
  clears : Step s (clear s)
  pins : {s' : DictionaryStack A} → s.base ≡ none → set_basedict s ≡ ok s' → Step s s'
  saves : Step s (take_snapshot s).1
  restores : {s' : DictionaryStack A} (a : List ℕ) → restore_from a s ≡ ok s' → Step s s'
  makes_name : Step s (record s { num_handles = s.num_handles + 1 })

pub data Reach {ℓ} {A : Type ℓ} (s : DictionaryStack A) : DictionaryStack A → Type ℓ where
  here : Reach s s
  next : {t u : DictionaryStack A} → Reach s t → Step t u → Reach s u

-- The stack that the constructor makes, over the dictionaries of a heap.
abbrev pub initial {ℓ} : {A : Type ℓ} → (ℕ → TokenMap A) → ℕ → DictionaryStack A
initial e handles = record {
  d = [];
  base = none;
  cache = [];
  basecache = [];
  snapshot = none;
  entries = e;
  dictstack_refs = λ i. 0;
  num_handles = handles;
}

module _ {ℓ} {A : Type ℓ} where
  ensured :
      (P : DictionaryStack A → Type ℓ) (o : Outcome (DictionaryStack A)) (s : DictionaryStack A)
      → Ensures P o
      → o ≡ ok s
      → P s
  ensured P o s h e = subst (Ensures P) e h

  pub initial-Coherent : (e : ℕ → TokenMap A) (handles : ℕ) → Coherent (initial e handles)
  initial-Coherent e handles = record {
    cached = λ n p x. unfold entry in cc x;
    based = λ n p x. unfold entry in cc x;
    counted = λ i. unfold count in omega arith;
    snapped = λ a x. cc x;
  }

  take_snapshot-Coherent : (s : DictionaryStack A) → Coherent s → Coherent (take_snapshot s).1
  unfolding take_snapshot to_array
  take_snapshot-Coherent s h = go s.snapshot refl
    where
      go : (o : Option (List ℕ)) → s.snapshot ≡ o → Coherent (take_snapshot s).1
      go (some a) e = rw (e, take_snapshot) h
      go none e =
          rw (e, take_snapshot)
            (record {
              cached = h.cached;
              based = h.based;
              counted = h.counted;
              snapped = λ a x. cc x;
            })

  take_snapshot-reverse : (s : DictionaryStack A) → Coherent s → (take_snapshot s).0 ≡ reverse s.d
  unfolding take_snapshot to_array
  take_snapshot-reverse s h = go s.snapshot refl
    where
      go : (o : Option (List ℕ)) → s.snapshot ≡ o → (take_snapshot s).0 ≡ reverse s.d
      go (some a) e = rw (e, take_snapshot) (h.snapped a e)
      go none e = rw (e, take_snapshot)

  -- Every operation other than `baselookup` keeps the dictionary stack coherent: the caches agree with
  -- the walk over the stack, and each dictionary counts at least its places on the stack.
  pub Step-Coherent : {s s' : DictionaryStack A} → Step s s' → Coherent s → Coherent s'
  Step-Coherent (looks_up n) h = unfold lookup in find_-Coherent n _ h
  Step-Coherent (asks n) h = unfold is_known in find_-Coherent n _ h
  Step-Coherent (defines n t e) h = ensured Coherent _ _ (def-Coherent _ h n t) e
  Step-Coherent (undefines n e) h = ensured Coherent _ _ (undef-Coherent _ h n) e
  Step-Coherent (defines_base n t e) h = ensured Coherent _ _ (basedef-Coherent _ h n t) e
  Step-Coherent (assigns i n t) h = put-Coherent _ h i n t
  Step-Coherent (pushes i) h = push-Coherent _ h i
  Step-Coherent (pops e) h = ensured Coherent _ _ (pop-Coherent _ h) e
  Step-Coherent clears h = clear-Coherent _ h
  Step-Coherent (pins z e) h = ensured Coherent _ _ (set_basedict-Coherent _ h z) e
  Step-Coherent saves h = take_snapshot-Coherent _ h
  Step-Coherent (restores a e) h = ensured Coherent _ _ (restore_from-Coherent a _ h) e
  Step-Coherent makes_name h = record {
    cached = h.cached;
    based = h.based;
    counted = h.counted;
    snapped = h.snapped;
  }

  pub Reach-Coherent : {s s' : DictionaryStack A} → Coherent s → Reach s s' → Coherent s'
  Reach-Coherent h here = h
  Reach-Coherent h (next r st) = Step-Coherent st (Reach-Coherent h r)

  -- After any sequence of operations other than `baselookup`, from an empty stack over any
  -- dictionaries, a lookup through the caches gives the binding of the topmost dictionary that has the
  -- name, `known` says whether there is one, and the array kept for `dictstack` lists the stack.
  pub Reach-lookup :
      (e : ℕ → TokenMap A) (handles : ℕ) (s : DictionaryStack A) (n : ℕ)
      → Reach (initial e handles) s
      → ((lookup n s).0 ≡ ok (binding n s.entries s.d))
        × ((is_known n s).0 ≡ is_there (binding n s.entries s.d))
        × ((take_snapshot s).0 ≡ reverse s.d)
  Reach-lookup e handles s n r =
      let h = Reach-Coherent (initial-Coherent e handles) r in
      (lookup-binding n s h, is_known-binding n s h, take_snapshot-reverse s h)
