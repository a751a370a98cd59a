-- ===== src/Dict/Change.antt =====
-- The operations of `DictionaryStack` that change the stack or its dictionaries, in
-- src/containers/sli_dictstack.h and src/containers/sli_dictstack.cpp, and the branch of `put` for a
-- dictionary in src/builtins/sli_op_bodies.h.
use sli.Prelude.{
  ℕ, ◌+◌, ◌-◌, Bool, true, false, ◌&&◌, Option, none, some, List, [], ◌∷◌, ◌==◌, ltb, if◌then◌else◌,
}
use mathlib.Core.List.{reverse}
use sli.Dict.Map.{TokenMap, known, insert, erase}
use sli.Dict.Cache.{Slot, Cache, cache_token, clear_token, clear_all}
use sli.Dict.Stack.{Outcome, ok, undefined_name, fault, DictionaryStack, update}

-- `clear_dict_from_cache`: the names of one dictionary are cleared, one after the other.
unfoldable pub clear_names {ℓ} : {A : Type ℓ} → TokenMap A → Cache → Cache
clear_names [] c = c
clear_names ((n, t) ∷ m) c = clear_names m (clear_token n c)

-- The bottom of the stack, `*(--d.end())`.
unfoldable pub bottom : List ℕ → Option ℕ
bottom [] = none
bottom (i ∷ []) = some i
bottom (i ∷ j ∷ d) = bottom (j ∷ d)

unfoldable pub same_order : List ℕ → List ℕ → Bool
same_order [] [] = true
same_order (i ∷ d) (j ∷ e) = (i == j) && same_order d e
same_order _ _ = false

module _ {ℓ} {A : Type ℓ} where
  -- An entry is written into a dictionary.
  unfoldable pub store : ℕ → ℕ → A → DictionaryStack A → DictionaryStack A
  store i n t s = record s { entries = update s.entries i (insert n t (s.entries i)) }

  unfoldable pub define_in : ℕ → A → DictionaryStack A → List ℕ → Outcome (DictionaryStack A)
  unfolding store
  define_in n t s [] = fault
  define_in n t s (top ∷ d) =
      let p : Slot = record { dict = top; name = n } in
      let s' = store top n t s in
      ok (store top n t (record s' { cache = cache_token s'.num_handles n p s'.cache }))

  -- `def(n, t)`: the top dictionary gets the entry, twice, and the cache points to it.
  unfoldable pub def : ℕ → A → DictionaryStack A → Outcome (DictionaryStack A)
  def n t s = define_in n t s s.d

  unfoldable pub undefine_in : ℕ → DictionaryStack A → List ℕ → Outcome (DictionaryStack A)
  undefine_in n s [] = undefined_name
  undefine_in n s (top ∷ d) =
      if known n (s.entries top)
      then ok (record s {
        entries = update s.entries top (erase n (s.entries top));
        cache = clear_token n s.cache;
        basecache = clear_token n s.basecache;
      })
      else undefined_name

  -- `undef(n)`: the entry is erased from the top dictionary alone.
  unfoldable pub undef : ℕ → DictionaryStack A → Outcome (DictionaryStack A)
  undef n s = undefine_in n s s.d

  unfoldable pub define_base : ℕ → A → DictionaryStack A → Option ℕ → Outcome (DictionaryStack A)
  define_base n t s none = undefined_name
  define_base n t s (some b) =
      let p : Slot = record { dict = b; name = n } in
      let s' = store b n t (record s { cache = clear_token n s.cache }) in
      ok (record s' { basecache = cache_token s'.num_handles n p s'.basecache })

  -- `basedef(n, t)`: the entry is written into the bottom dictionary.
  unfoldable pub basedef : ℕ → A → DictionaryStack A → Outcome (DictionaryStack A)
  basedef n t s = define_base n t s s.base

  -- `push(dict)`
  unfoldable pub push : ℕ → DictionaryStack A → DictionaryStack A
  push i s = record s {
    snapshot = none;
    cache = clear_names (s.entries i) s.cache;
    dictstack_refs = update s.dictstack_refs i (s.dictstack_refs i + 1);
    d = i ∷ s.d;
  }

  unfoldable pub remove_top : DictionaryStack A → List ℕ → Outcome (DictionaryStack A)
  remove_top s [] = fault
  remove_top s (top ∷ d) = ok (record s {
    snapshot = none;
    cache = clear_names (s.entries top) s.cache;
    dictstack_refs = update s.dictstack_refs top (s.dictstack_refs top - 1);
    d = d;
  })

  -- `pop()`
  unfoldable pub pop : DictionaryStack A → Outcome (DictionaryStack A)
  pop s = remove_top s s.d

  -- `clear()`: the counts of the dictionaries on the stack stay as they are.
  unfoldable pub clear : DictionaryStack A → DictionaryStack A
  clear s = record s {
    snapshot = none;
    d = [];
    base = none;
    cache = clear_all s.cache;
    basecache = clear_all s.basecache;
  }

  -- `set_basedict()`: there must be a dictionary.
  unfoldable pub set_basedict : DictionaryStack A → Outcome (DictionaryStack A)
  set_basedict s = elim (bottom s.d) [ none ↦ fault | some b ↦ ok (record s { base = some b }) ]

  -- `toArray`: the bottom first.
  unfoldable pub to_array : DictionaryStack A → List ℕ
  to_array s = reverse s.d

  -- `snapshot()`: the array that is kept, made where there is none.
  unfoldable pub take_snapshot : DictionaryStack A → List ℕ × DictionaryStack A
  take_snapshot s = elim s.snapshot [
    | some a ↦ (a, s)
    | none ↦ (to_array s, record s { snapshot = some (to_array s) })
  ]

  -- The pushes of the slow path of `restore_from`, which clear nothing.
  unfoldable pub push_all : List ℕ → DictionaryStack A → DictionaryStack A
  push_all [] s = s
  push_all (i ∷ a) s = push_all a (record s {
    dictstack_refs = update s.dictstack_refs i (s.dictstack_refs i + 1);
    d = i ∷ s.d;
  })

  -- `restore_from(ta)`
  unfoldable pub restore_from : List ℕ → DictionaryStack A → Outcome (DictionaryStack A)
  restore_from a s =
      if same_order (reverse s.d) a then ok s else set_basedict (push_all a (clear s))

  -- `put` of a token into a dictionary that is writable.
  unfoldable pub put : ℕ → ℕ → A → DictionaryStack A → DictionaryStack A
  unfolding store
  put i n t s =
      let s' =
        if ltb 0 (s.dictstack_refs i)
        then record s { cache = clear_token n s.cache; basecache = clear_token n s.basecache }
        else s in
      store i n t s'
