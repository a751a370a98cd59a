-- ===== src/Dict/Coherent.antt =====
-- The invariant of the dictionary stack: the caches agree with the walk over the stack.
use mathlib.Core.List.{reverse}
use sli.Prelude.{
  ℕ, ◌≤◌, ◌≡◌, ◌≢◌, refl, ap, ◌∙◌, sym, true, Option, none, some, List, ◌∷◌, arith, inl, inr,
}
use sli.Dict.Map.{known, insert, known-insert}
use sli.Dict.Cache.{Slot, entry, cache_token, entry-cache_token}
use sli.Dict.Stack.{
  Outcome, ok, undefined_name, fault, DictionaryStack, search, find_, resolve, remember,
}
use sli.Dict.Change.{store}
use sli.Dict.Search.{count, search-update, search-store, known-store, search-top}

pub record Coherent {ℓ} {A : Type ℓ} (s : DictionaryStack A) : Type ℓ where
  -- A pointer in the cache is the entry that the walk finds.
  pub cached : (n : ℕ) (p : Slot) → entry s.cache n ≡ some p → search n s.entries s.d ≡ some p
  -- A pointer in the base cache is an entry of that name in the base dictionary.
  pub based :
      (n : ℕ) (p : Slot)
      → entry s.basecache n ≡ some p
      → (s.base ≡ some p.dict) × (p.name ≡ n) × (known n (s.entries p.dict) ≡ true)
  -- A dictionary is counted as often as it stands on the stack, at least.
  pub counted : (i : ℕ) → count i s.d ≤ s.dictstack_refs i
  -- The array that is kept lists the stack, the bottom first.
  pub snapped : (a : List ℕ) → s.snapshot ≡ some a → a ≡ reverse s.d

module _ {ℓ} {A : Type ℓ} where
  -- A lookup, by whichever way, gives what the walk gives.
  pub slot-find_ :
      (n : ℕ) (s : DictionaryStack A) → Coherent s → (find_ n s).slot ≡ search n s.entries s.d
  unfolding find_ remember resolve
  slot-find_ n s h = go (entry s.cache n) refl
    where
      go_search : (o : Option Slot) → (remember n s o).slot ≡ o
      go_search none = refl
      go_search (some p) = refl

      go : (o : Option Slot) → entry s.cache n ≡ o → (resolve n s o).slot ≡ search n s.entries s.d
      go none e = go_search (search n s.entries s.d)
      go (some p) e = sym (h.cached n p e)

  remember-Coherent :
      (n : ℕ) (s : DictionaryStack A) (o : Option Slot)
      → Coherent s
      → search n s.entries s.d ≡ o
      → Coherent (remember n s o).state
  unfolding remember
  remember-Coherent n s none h e = h
  remember-Coherent n s (some p) h e = record {
    cached = λ j q x. elim (entry-cache_token s.num_handles n p s.cache j q x) [
      | inl (y, z) ↦ rw (← y, ← z) e
      | inr (y, z) ↦ h.cached j q z
    ];
    based = h.based;
    counted = h.counted;
    snapped = h.snapped;
  }

  resolve-Coherent :
      (n : ℕ) (s : DictionaryStack A) (o : Option Slot)
      → Coherent s
      → Coherent (resolve n s o).state
  unfolding resolve
  resolve-Coherent n s (some p) h = h
  resolve-Coherent n s none h = remember-Coherent n s (search n s.entries s.d) h refl

  pub find_-Coherent : (n : ℕ) (s : DictionaryStack A) → Coherent s → Coherent (find_ n s).state
  unfolding find_
  find_-Coherent n s h = resolve-Coherent n s (entry s.cache n) h

-- What an operation that may fail promises of the stack that it leaves.
abbrev pub Ensures {ℓ} : {A : Type ℓ} → (A → Type ℓ) → Outcome A → Type ℓ
Ensures P (ok a) = P a
Ensures P undefined_name = Unit
Ensures P fault = Unit

module _ {ℓ} {A : Type ℓ} (s : DictionaryStack A) (h : Coherent s) where
  -- An entry that is written where the cache has nothing for its name.
  pub store-Coherent :
      (i n : ℕ) (t : A) → ((q : Slot) → entry s.cache n ≢ some q) → Coherent (store i n t s)
  unfolding store
  store-Coherent i n t free = record {
    cached = λ m p x. search-store n m i t s.entries s.d (λ e. free p (rw e x)) ∙ h.cached m p x;
    based =
        λ m p x. let (b, y, k) = h.based m p x in (b, y, known-store n m i p.dict t s.entries k);
    counted = h.counted;
    snapped = h.snapped;
  }

  -- An entry that is written over one of its name.
  pub store-known-Coherent :
      (i n : ℕ) (t : A) → known n (s.entries i) ≡ true → Coherent (store i n t s)
  unfolding store
  store-known-Coherent i n t k = record {
    cached = λ m p x.
        search-update m i (insert n t (s.entries i)) s.entries s.d (
          ground (
            arith,
            known-insert n m t (s.entries i),
            k,
            ap (λ z. known z (s.entries i)) {x = n} {y = m},
          ))
        ∙ h.cached m p x;
    based =
        λ m p x. let (b, y, z) = h.based m p x in (b, y, known-store n m i p.dict t s.entries z);
    counted = h.counted;
    snapped = h.snapped;
  }

  -- An entry of the top dictionary that the cache points to from then on.
  pub store_top-Coherent :
      (i n : ℕ) (t : A) (d : List ℕ)
      → s.d ≡ i ∷ d
      → Coherent (record (store i n t s) {
        cache = cache_token s.num_handles n (record { dict = i; name = n }) s.cache;
      })
  unfolding store
  store_top-Coherent i n t d e = record {
    cached = λ m p x.
        elim (entry-cache_token s.num_handles n (record { dict = i; name = n }) s.cache m p x) [
          | inl (y, z) ↦ rw (← y, e, ← z) (search-top n i t s.entries d)
          | inr (y, z) ↦ search-store n m i t s.entries s.d y ∙ h.cached m p z
        ];
    based =
        λ m p x. let (b, y, k) = h.based m p x in (b, y, known-store n m i p.dict t s.entries k);
    counted = h.counted;
    snapped = h.snapped;
  }
