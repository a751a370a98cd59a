-- ===== src/Dict/Stack.antt =====
-- `DictionaryStack` of src/containers/sli_dictstack.h and src/containers/sli_dictstack.cpp. The
-- dictionaries live on a heap, by address. Their reference counts and their release are not
-- modelled: a dictionary that is on the heap stays there.
use sli.Prelude.{ℕ, Bool, true, false, Option, none, some, List, [], ◌∷◌, ◌==◌, if◌then◌else◌}
use sli.Dict.Map.{TokenMap, find, known}
use sli.Dict.Cache.{Slot, Cache, entry, cache_token}

-- The result of an operation: `fault` is undefined behaviour or a failed assertion.
pub data Outcome {ℓ} (A : Type ℓ) : Type ℓ where
  ok : A → Outcome A
  undefined_name : Outcome A
  fault : Outcome A

-- `d` lists the addresses of the dictionaries on the stack, the top first. `snapshot_` is the array
-- of addresses that is kept for `dictstack`, the bottom first.
pub record DictionaryStack {ℓ} (A : Type ℓ) : Type ℓ where
  pub d : List ℕ
  pub base : Option ℕ
  pub cache : Cache
  pub basecache : Cache
  pub snapshot : Option (List ℕ)
  pub entries : ℕ → TokenMap A
  pub dictstack_refs : ℕ → ℕ
  pub num_handles : ℕ

-- What `find_` returns, and the stack that it leaves.
pub record Found {ℓ} (A : Type ℓ) : Type ℓ where
  pub slot : Option Slot
  pub state : DictionaryStack A

abbrev pub is_there {ℓ} : {B : Type ℓ} → Option B → Bool
is_there none = false
is_there (some b) = true

abbrev pub update {ℓ} : {B : Type ℓ} → (ℕ → B) → ℕ → B → ℕ → B
update f i v j = if i == j then v else f j

module _ {ℓ} {A : Type ℓ} where
  -- The walk from the top that `find_` makes where the cache has no pointer.
  unfoldable pub search : ℕ → (ℕ → TokenMap A) → List ℕ → Option Slot
  search n e [] = none
  search n e (i ∷ d) = if known n (e i) then some (record { dict = i; name = n }) else search n e d

  -- `*p` for a pointer to an entry; `none` is a dangling pointer.
  unfoldable pub deref : DictionaryStack A → Slot → Option A
  deref s p = find p.name (s.entries p.dict)

  unfoldable pub remember : ℕ → DictionaryStack A → Option Slot → Found A
  remember n s none = record { slot = none; state = s }
  remember n s (some p) = record {
    slot = some p;
    state = record s { cache = cache_token s.num_handles n p s.cache };
  }

  unfoldable pub resolve : ℕ → DictionaryStack A → Option Slot → Found A
  resolve n s (some p) = record { slot = some p; state = s }
  resolve n s none = remember n s (search n s.entries s.d)

  unfoldable pub find_ : ℕ → DictionaryStack A → Found A
  find_ n s = resolve n s (entry s.cache n)

  -- The copy of a found token.
  unfoldable pub read : DictionaryStack A → Option Slot → Outcome (Option A)
  read s none = ok none
  read s (some p) = elim (deref s p) [ none ↦ fault | some t ↦ ok (some t) ]

  -- `bool lookup(Name, Token&)`: the token, or `none` where it returns false.
  unfoldable pub lookup : ℕ → DictionaryStack A → Outcome (Option A) × DictionaryStack A
  lookup n s = let f = find_ n s in (read f.state f.slot, f.state)

  -- `bool known(Name)`
  unfoldable pub is_known : ℕ → DictionaryStack A → Bool × DictionaryStack A
  is_known n s = let f = find_ n s in (is_there f.slot, f.state)

  -- `where(Name)`: the address of the first dictionary that has the name.
  unfoldable pub where_ : ℕ → (ℕ → TokenMap A) → List ℕ → Option ℕ
  where_ n e [] = none
  where_ n e (i ∷ d) = if known n (e i) then some i else where_ n e d

  -- `baselookup(Name)`: the pointer that it returns a reference through.
  unfoldable pub base_find : ℕ → DictionaryStack A → ℕ → Outcome (Slot × DictionaryStack A)
  base_find n s b =
      let p : Slot = record { dict = b; name = n } in
      if known n (s.entries b)
      then ok (
        p,
        record s {
          cache = cache_token s.num_handles n p s.cache;
          basecache = cache_token s.num_handles n p s.basecache;
        },
      )
      else undefined_name

  unfoldable pub base_resolve :
      ℕ → DictionaryStack A → ℕ → Option Slot → Outcome (Slot × DictionaryStack A)
  base_resolve n s b (some p) = ok (p, s)
  base_resolve n s b none = base_find n s b

  unfoldable pub base_start : ℕ → DictionaryStack A → Option ℕ → Outcome (Slot × DictionaryStack A)
  base_start n s none = undefined_name
  base_start n s (some b) = base_resolve n s b (entry s.basecache n)

  unfoldable pub baselookup : ℕ → DictionaryStack A → Outcome (Slot × DictionaryStack A)
  baselookup n s = base_start n s s.base
