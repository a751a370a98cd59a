-- ===== src/Dict/Cache.antt =====
-- The vectors `cache_` and `basecache_` of src/containers/sli_dictstack.h: an entry for each name
-- handle, null or a pointer to the token of that name in the map of a dictionary.
use sli.Prelude.{
  ℕ, zero, suc, ◌+◌, ◌-◌, ◌≤◌, ◌<◌, ◌≡◌, ◌≢◌, refl, ap, Option, none, some, List, [], ◌∷◌, ◌++◌,
  arith, leb, ltb, if◌then◌else◌, length, set, take, replicate, ◌⊎◌, inl, inr, Bool-cases,
  length-append, length-take, length-replicate,
}

-- `&where->second`: the dictionary that holds the entry, and the entry's name. The pointer is valid
-- while that dictionary has the name.
pub record Slot : Type 0 where
  pub dict : ℕ
  pub name : ℕ

abbrev pub Cache : Type 0
Cache = List (Option Slot)

-- The pointer at a handle; there is none past the end.
unfoldable pub entry : Cache → ℕ → Option Slot
entry [] n = none
entry (p ∷ c) zero = p
entry (p ∷ c) (suc n) = entry c n

-- `resize(n, 0)`
unfoldable pub resize : ℕ → Cache → Cache
resize n c = take n c ++ replicate (n - length c) none

-- `cache_token` and `basecache_token`, where `handles` names have been made.
unfoldable pub cache_token : ℕ → ℕ → Slot → Cache → Cache
cache_token handles n p c =
    let grown = if leb (length c) n then resize (handles + 100) c else c in set grown n (some p)

-- `clear_token_from_cache` and `clear_token_from_basecache`
unfoldable pub clear_token : ℕ → Cache → Cache
clear_token n c = if ltb n (length c) then set c n none else c

-- One vector of `clear_cache`: the length stays.
unfoldable pub clear_all : Cache → Cache
clear_all [] = []
clear_all (p ∷ c) = none ∷ clear_all c

-- A pointer that an operation leaves in a vector is the one it wrote, or was there before.
entry-set :
    (c : Cache) (n j : ℕ) (p : Option Slot) (q : Slot)
    → entry (set c n p) j ≡ some q
    → ((n ≡ j) × (p ≡ some q)) ⊎ ((n ≢ j) × (entry c j ≡ some q))
unfolding entry
entry-set [] n j p q h = cc
entry-set (x ∷ c) zero zero p q h = inl (refl, h)
entry-set (x ∷ c) zero (suc j) p q h = inr (omega arith, h)
entry-set (x ∷ c) (suc n) zero p q h = inr (omega arith, h)
entry-set (x ∷ c) (suc n) (suc j) p q h = elim (entry-set c n j p q h) [
  | inl (e, k) ↦ inl (ap suc e, k)
  | inr (e, k) ↦ inr (omega arith, k)
]

entry-replicate : (k j : ℕ) (q : Slot) → entry (replicate k none) j ≢ some q
unfolding entry
entry-replicate zero j q h = cc
entry-replicate (suc k) zero q h = cc
entry-replicate (suc k) (suc j) q h = entry-replicate k j q h

entry-take :
    (c : Cache) (m j k : ℕ) (q : Slot)
    → entry (take m c ++ replicate k none) j ≡ some q
    → entry c j ≡ some q
unfolding entry
entry-take c zero j k q h = absurd (entry-replicate k j q h)
entry-take [] (suc m) j k q h = absurd (entry-replicate k j q h)
entry-take (x ∷ c) (suc m) zero k q h = h
entry-take (x ∷ c) (suc m) (suc j) k q h = entry-take c m j k q h

pub entry-cache_token :
    (handles n : ℕ) (p : Slot) (c : Cache) (j : ℕ) (q : Slot)
    → entry (cache_token handles n p c) j ≡ some q
    → ((n ≡ j) × (p ≡ q)) ⊎ ((n ≢ j) × (entry c j ≡ some q))
unfolding cache_token resize
entry-cache_token handles n p c j q h = elim (Bool-cases (leb (length c) n)) [
  | inl e ↦ elim (entry-set (resize (handles + 100) c) n j (some p) q (rw e at h)) [
    | inl (x, y) ↦ inl (x, cc)
    | inr (x, y) ↦ inr (x, entry-take c (handles + 100) j (handles + 100 - length c) q y)
  ]
  | inr e ↦ elim (entry-set c n j (some p) q (rw e at h)) [
    | inl (x, y) ↦ inl (x, cc)
    | inr (x, y) ↦ inr (x, y)
  ]
]

-- Beyond its end a vector has no pointer.
entry-ge_length : (c : Cache) (n : ℕ) → length c ≤ n → entry c n ≡ none
unfolding entry
entry-ge_length [] n h = refl
entry-ge_length (x ∷ c) zero h = absurd (omega arith)
entry-ge_length (x ∷ c) (suc n) h = entry-ge_length c n (omega arith)

pub entry-clear_token :
    (n : ℕ) (c : Cache) (j : ℕ) (q : Slot)
    → entry (clear_token n c) j ≡ some q
    → (n ≢ j) × (entry c j ≡ some q)
unfolding clear_token
entry-clear_token n c j q h = elim (Bool-cases (ltb n (length c))) [
  | inl e ↦ elim (entry-set c n j none q (rw e at h)) [ inl (x, y) ↦ cc | inr r ↦ r ]
  | inr e ↦ let k = rw e at h in (λ p. cc (k, p, entry-ge_length c n (ground (arith, e))), k)
]

pub entry-clear_all : (c : Cache) (j : ℕ) → entry (clear_all c) j ≡ none
unfolding entry clear_all
entry-clear_all [] j = refl
entry-clear_all (p ∷ c) zero = refl
entry-clear_all (p ∷ c) (suc j) = entry-clear_all c j

-- The pointer just written is there, since a handle is below the number of handles.
entry-set_self : (c : Cache) (n : ℕ) (p : Slot) → n < length c → entry (set c n (some p)) n ≡ some p
unfolding entry
entry-set_self [] n p h = absurd (omega arith)
entry-set_self (x ∷ c) zero p h = refl
entry-set_self (x ∷ c) (suc n) p h = entry-set_self c n p (omega arith)

length-resize : (m : ℕ) (c : Cache) → length (resize m c) ≡ m
unfolding resize
length-resize m c = omega (
  arith,
  length-append (take m c) (replicate (m - length c) none),
  length-take m c,
  length-replicate {A = Option Slot} (m - length c) none,
)

pub entry-cache_token_self :
    (handles n : ℕ) (p : Slot) (c : Cache)
    → n < handles
    → entry (cache_token handles n p c) n ≡ some p
unfolding cache_token
entry-cache_token_self handles n p c h = elim (Bool-cases (leb (length c) n)) [
  | inl e ↦ rw e (
      entry-set_self (resize (handles + 100) c) n p
        (omega (arith, length-resize (handles + 100) c)))
  | inr e ↦ rw e (entry-set_self c n p (ground (arith, e)))
]
