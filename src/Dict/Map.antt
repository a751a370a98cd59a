-- ===== src/Dict/Map.antt =====
-- `TokenMap` and the operations of `Dictionary` in src/containers/sli_dictionary.h that the
-- dictionary stack uses: a map from name handles, in which a key stands once.
use sli.Prelude.{
  ℕ, ◌≡◌, refl, Bool, true, false, Option, none, some, List, [], ◌∷◌, arith, ◌==◌, Bool-cases, inl,
  inr, if◌then◌else◌,
}

abbrev pub TokenMap {ℓ} : Type ℓ → Type ℓ
TokenMap A = List (ℕ × A)

module _ {ℓ} {A : Type ℓ} where
  unfoldable pub find : ℕ → TokenMap A → Option A
  find n [] = none
  find n ((k, v) ∷ m) = if k == n then some v else find n m

  unfoldable pub known : ℕ → TokenMap A → Bool
  known n [] = false
  known n ((k, v) ∷ m) = if k == n then true else known n m

  -- `TokenMap::operator[](n) = DictToken(t)`
  unfoldable pub insert : ℕ → A → TokenMap A → TokenMap A
  insert n t [] = (n, t) ∷ []
  insert n t ((k, v) ∷ m) = if k == n then (k, t) ∷ m else (k, v) ∷ insert n t m

  unfoldable pub erase : ℕ → TokenMap A → TokenMap A
  erase n [] = []
  erase n ((k, v) ∷ m) = let rest = erase n m in if k == n then rest else (k, v) ∷ rest

  pub find-insert :
      (n j : ℕ) (t : A) (m : TokenMap A)
      → find j (insert n t m) ≡ (if n == j then some t else find j m)
  unfolding find insert
  find-insert n j t [] = refl
  find-insert n j t ((k, v) ∷ m) = ground (arith, find-insert n j t m)

  pub known-insert :
      (n j : ℕ) (t : A) (m : TokenMap A)
      → known j (insert n t m) ≡ (if n == j then true else known j m)
  unfolding known insert
  known-insert n j t [] = refl
  known-insert n j t ((k, v) ∷ m) = ground (arith, known-insert n j t m)

  pub known-erase :
      (n j : ℕ) (m : TokenMap A) → known j (erase n m) ≡ (if n == j then false else known j m)
  unfolding known erase
  known-erase n j [] = ground arith
  known-erase n j ((k, v) ∷ m) = ground (arith, known-erase n j m)

  pub find-erase :
      (n j : ℕ) (m : TokenMap A) → find j (erase n m) ≡ (if n == j then none else find j m)
  unfolding find erase
  find-erase n j [] = ground arith
  find-erase n j ((k, v) ∷ m) = ground (arith, find-erase n j m)

  -- A key that is there has a token.
  pub find-known : (n : ℕ) (m : TokenMap A) → known n m ≡ true → (t : A) × (find n m ≡ some t)
  unfolding known find
  find-known n [] h = cc
  find-known n ((k, v) ∷ m) h = elim (Bool-cases (k == n)) [
    | inl e ↦ (v, rw e)
    | inr e ↦ let (t, p) = find-known n m (rw e at h) in (t, rw e p)
  ]
