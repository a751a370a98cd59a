-- ===== src/Stack/TokenStack.antt =====
-- `TokenStack` of src/containers/sli_tokenstack.h. A stack lists its elements, the top first; the
-- vector below it has its top at the end. `none` is an access outside of the vector.
use sli.Prelude.{
  ℕ, zero, suc, ◌+◌, ◌-◌, ◌%◌, ◌^◌, ◌&&◌, Option, none, some, List, ◌∷◌, ◌++◌, leb, length, take,
  drop, get_elem?, if◌then◌else◌,
}
use sli.Prelude.Int.{ℤ, pos, negsuc}
use mathlib.Core.List.{reverse}

-- The number of values of `size_t`.
abbrev pub words : ℕ
words = 2 ^ 64

-- `k % n` and `(n + k) % n` of `roll`, where `k` is turned into a `size_t`.
unfoldable pub offset : ℕ → ℤ → ℕ
offset n (pos k) = k % n
offset n (negsuc k) = ((n + (words - suc k)) % words) % n

module _ {ℓ} {A : Type ℓ} where
  -- `pop(n)`
  unfoldable pub pop_n : ℕ → List A → Option (List A)
  pop_n n st = if leb n (length st) then some (drop n st) else none

  -- `pick(i)`
  unfoldable pub pick : ℕ → List A → Option A
  pick i st = get_elem? st i

  -- `index(i)`
  unfoldable pub index : ℕ → List A → Option (List A)
  index i st = elim (pick i st) [ none ↦ none | some t ↦ some (t ∷ st) ]

  -- `swap()`
  unfoldable pub swap : List A → Option (List A)
  swap (x ∷ y ∷ st) = some (y ∷ x ∷ st)
  swap _ = none

  -- `rotate(end() - n, end() - m, end())`: what stood below the topmost `m` of the `n` comes to
  -- stand above them.
  unfoldable pub rotate : ℕ → ℕ → List A → Option (List A)
  rotate n m st =
      if leb n (length st) && leb m n
      then some (drop m (take n st) ++ take m (take n st) ++ drop n st)
      else none

  -- `roll(n, k)`
  unfoldable pub roll : ℕ → ℤ → List A → Option (List A)
  roll zero k st = some st
  roll (suc n) k st = rotate (suc n) (offset (suc n) k) st

  -- `toArray()` copies the vector, its end last; a stack is made from a vector by the same copy.
  unfoldable pub to_array : List A → List A
  to_array st = reverse st

  unfoldable pub from_array : List A → List A
  from_array a = reverse a
