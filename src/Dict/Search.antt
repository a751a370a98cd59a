-- ===== src/Dict/Search.antt =====
-- The walk over the dictionaries on the stack, which is what a lookup means.
use sli.Prelude.{
  ℕ, ◌+◌, ◌<◌, ◌≡◌, ◌≢◌, refl, ap, ◌∙◌, true, false, some, List, [], ◌∷◌, arith, ◌==◌,
  if◌then◌else◌, Bool-cases, inl, inr,
}
use mathlib.Core.Path.{subst}
use mathlib.Core.Option
use mathlib.Core.Option.{get_or}
use sli.Dict.Map.{TokenMap, known, insert, erase, known-insert, known-erase}
use sli.Dict.Cache.{Slot, Cache, entry, clear_token, entry-clear_token}
use sli.Dict.Stack.{search, update}
use sli.Dict.Change.{clear_names}

-- How often an address stands on the stack.
unfoldable pub count : ℕ → List ℕ → ℕ
count i [] = 0
count i (j ∷ d) = (if j == i then 1 else 0) + count i d

module _ {ℓ} {A : Type ℓ} where
  -- Only what the dictionaries on the stack know of the name counts.
  pub search-agree :
      (n : ℕ) (e e' : ℕ → TokenMap A) (d : List ℕ)
      → ((j : ℕ) → 0 < count j d → known n (e j) ≡ known n (e' j))
      → search n e d ≡ search n e' d
  unfolding search count
  search-agree n e e' [] h = refl
  search-agree n e e' (i ∷ d) h =
      let k : known n (e i) ≡ known n (e' i) = h i (ground arith) in
      let r = search-agree n e e' d (λ j lt. h j (omega (arith, lt))) in rw (k, r)

  -- A dictionary that is replaced by one that knows the name as well as it did changes nothing.
  pub search-update :
      (n i : ℕ) (v : TokenMap A) (e : ℕ → TokenMap A) (d : List ℕ)
      → known n v ≡ known n (e i)
      → search n (update e i v) d ≡ search n e d
  search-update n i v e d k = search-agree n (update e i v) e d (λ j _. elim (Bool-cases (i == j)) [
    | inl q ↦ rw q (k ∙ ap (λ x. known n (e x)) (ground (arith, q)))
    | inr q ↦ rw q
  ])

  -- Another name is searched as before, once an entry is written or erased.
  pub search-store :
      (n m i : ℕ) (t : A) (e : ℕ → TokenMap A) (d : List ℕ)
      → n ≢ m
      → search m (update e i (insert n t (e i))) d ≡ search m e d
  search-store n m i t e d h =
      search-update m i (insert n t (e i)) e d (ground (arith, known-insert n m t (e i), h))

  pub search-erase :
      (n m i : ℕ) (e : ℕ → TokenMap A) (d : List ℕ)
      → n ≢ m
      → search m (update e i (erase n (e i))) d ≡ search m e d
  search-erase n m i e d h =
      search-update m i (erase n (e i)) e d (ground (arith, known-erase n m (e i), h))

  -- What is known stays known where an entry is written.
  pub known-store :
      (n m i j : ℕ) (t : A) (e : ℕ → TokenMap A)
      → known m (e j) ≡ true
      → known m (update e i (insert n t (e i)) j) ≡ true
  known-store n m i j t e k = elim (Bool-cases (i == j)) [
    | inl q ↦
        let r : known m (e i) ≡ true = ap (λ x. known m (e x)) (ground (arith, q)) ∙ k in
        rw q (ground (arith, known-insert n m t (e i), r))
    | inr q ↦ rw q k
  ]

  pub known-erase_ne :
      (n m i j : ℕ) (e : ℕ → TokenMap A)
      → n ≢ m
      → known m (e j) ≡ true
      → known m (update e i (erase n (e i)) j) ≡ true
  known-erase_ne n m i j e ne k = elim (Bool-cases (i == j)) [
    | inl q ↦
        let r : known m (e i) ≡ true = ap (λ x. known m (e x)) (ground (arith, q)) ∙ k in
        rw q (ground (arith, known-erase n m (e i), r, ne))
    | inr q ↦ rw q k
  ]

  -- An entry that has just been written is known, and found where its dictionary is on top.
  pub known-top :
      (n i : ℕ) (t : A) (e : ℕ → TokenMap A) → known n (update e i (insert n t (e i)) i) ≡ true
  known-top n i t e = ground (arith, known-insert n n t (e i))

  pub search-top :
      (n i : ℕ) (t : A) (e : ℕ → TokenMap A) (d : List ℕ)
      → search n (update e i (insert n t (e i))) (i ∷ d) ≡ some (record { dict = i; name = n })
  unfolding search
  search-top n i t e d = rw (known-top n i t e)

  -- A dictionary that does not know the name is passed over.
  pub search-skip :
      (n i : ℕ) (e : ℕ → TokenMap A) (d : List ℕ)
      → known n (e i) ≡ false
      → search n e (i ∷ d) ≡ search n e d
  unfolding search
  search-skip n i e d k = rw k

  -- What is found has the name.
  pub search_sound :
      (n : ℕ) (e : ℕ → TokenMap A) (d : List ℕ) (p : Slot)
      → search n e d ≡ some p
      → (p.name ≡ n) × (known n (e p.dict) ≡ true)
  unfolding search
  search_sound n e [] p h = cc
  search_sound n e (i ∷ d) p h = elim (Bool-cases (known n (e i))) [
    | inl k ↦
        let q = rw k at h in
        (
          cc,
          subst (λ o. known n (e (get_or o i)) ≡ true) (ap (Option.map (λ (x : Slot). x.dict)) q) k,
        )
    | inr k ↦ search_sound n e d p (rw k at h)
  ]

  pub entry-clear_names :
      (m : TokenMap A) (c : Cache) (j : ℕ) (q : Slot)
      → entry (clear_names m c) j ≡ some q
      → (known j m ≡ false) × (entry c j ≡ some q)
  unfolding clear_names known
  entry-clear_names [] c j q h = (refl, h)
  entry-clear_names ((n, t) ∷ m) c j q h =
      let (k, e) = entry-clear_names m (clear_token n c) j q h in
      let (ne, r) = entry-clear_token n c j q e in (ground (arith, k, ne), r)
