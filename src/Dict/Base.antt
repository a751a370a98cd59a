-- ===== src/Dict/Base.antt =====
-- `baselookup`, which looks into the bottom dictionary alone, and writes both caches.
use sli.Prelude.{ℕ, ◌<◌, ◌≡◌, ◌≢◌, refl, ap, ◌∙◌, true, Option, none, some}
use sli.Dict.Map.{known}
use sli.Dict.Cache.{Slot, entry, cache_token, entry-cache_token_self}
use sli.Dict.Stack.{
  ok, DictionaryStack, search, find_, resolve, baselookup, base_start, base_resolve, base_find,
}
use sli.Dict.Coherent.{Coherent}

abbrev pub slot_at : ℕ → ℕ → Slot
slot_at b n = record { dict = b; name = n }

module _ {ℓ} {A : Type ℓ} (s : DictionaryStack A) (n b : ℕ) (base : s.base ≡ some b) where
  -- The stack after a base lookup that has found its name for the first time.
  abbrev pub noted : DictionaryStack A
  noted = record s {
    cache = cache_token s.num_handles n (slot_at b n) s.cache;
    basecache = cache_token s.num_handles n (slot_at b n) s.basecache;
  }

  base_resolve-slot :
      (o : Option Slot)
      → Coherent s
      → entry s.basecache n ≡ o
      → known n (s.entries b) ≡ true
      → (s' : DictionaryStack A) × (base_resolve n s b o ≡ ok (slot_at b n, s'))
  unfolding base_resolve base_find
  base_resolve-slot (some p) h e k = let (c, w, _) = h.based n p e in (s, cc (c, w, base))
  base_resolve-slot none h e k = (noted, rw k)

  -- In a coherent stack a base lookup gives the entry of the base dictionary, if that has the name.
  pub baselookup-slot :
      Coherent s
      → known n (s.entries b) ≡ true
      → (s' : DictionaryStack A) × (baselookup n s ≡ ok (slot_at b n, s'))
  unfolding baselookup
  baselookup-slot h k =
      let (s', e) = base_resolve-slot (entry s.basecache n) h refl k in
      (s', ap (base_start n s) base ∙ unfold base_start in e)

  -- A first base lookup of a name that a dictionary above the base also has makes every later lookup
  -- of that name give the base entry, although the walk over the stack finds the other one.
  pub baselookup_poisons :
      (p : Slot)
      → n < s.num_handles
      → entry s.basecache n ≡ none
      → known n (s.entries b) ≡ true
      → search n s.entries s.d ≡ some p
      → p.dict ≢ b
      → (s' : DictionaryStack A) × (baselookup n s ≡ ok (slot_at b n, s'))
        × ((find_ n s').slot ≡ some (slot_at b n))
        × (search n s'.entries s'.d ≡ some p)
        × ((find_ n s').slot ≢ search n s'.entries s'.d)
  unfolding baselookup base_resolve base_find find_ resolve
  baselookup_poisons p lt e k w ne =
      let hit : (find_ n noted).slot ≡ some (slot_at b n) =
        rw (entry-cache_token_self s.num_handles n (slot_at b n) s.cache lt) in
      (
        noted,
        ap (base_start n s) base ∙ (unfold base_start in ap (base_resolve n s b) e ∙ rw k),
        hit,
        w,
        λ q. ne (cc (q, hit, w)),
      )
