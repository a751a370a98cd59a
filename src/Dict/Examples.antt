-- ===== src/Dict/Examples.antt =====
-- The theorems on the dictionary stack at concrete stacks.
use sli.Prelude.{ℕ, ◌≡◌, ◌≢◌, refl, true, some, [], ◌∷◌, arith, ◌==◌, if◌then◌else◌}
use sli.Dict.Map.{TokenMap, known, find}
use sli.Dict.Cache.{entry, clear_token}
use sli.Dict.Stack.{ok, DictionaryStack, lookup, is_known, find_, search, where_, baselookup}
use sli.Dict.Change.{
  push, put, set_basedict, bottom, clear_names, take_snapshot, restore_from, to_array,
}
use sli.Dict.Coherent.{Coherent}
use sli.Dict.Lookup.{binding, lookup-where}
use sli.Dict.Restore.{restore_from-to_array}
use sli.Dict.Runs.{
  initial, Reach, here, next, pushes, pins, assigns, initial-Coherent, Step-Coherent,
  Reach-Coherent, Reach-lookup,
}
use sli.Dict.Base.{slot_at, baselookup-slot, baselookup_poisons}

-- Two dictionaries that both have the name 5, the first of them another name.
abbrev bindings : ℕ → TokenMap ℕ
bindings i = if i == 0 then (5, 10) ∷ (6, 11) ∷ [] else (5, 20) ∷ []

-- The first is at the bottom, and is the base.
abbrev lone : DictionaryStack ℕ
lone = push 0 (initial bindings 10)

abbrev stacked : DictionaryStack ℕ
stacked = push 1 (record lone { base = some 0 })

stacked-Reach : Reach (initial bindings 10) stacked
unfolding push set_basedict bottom
stacked-Reach = next (next (next here (pushes 0)) (pins refl refl)) (pushes 1)

stacked-Coherent : Coherent stacked
stacked-Coherent = Reach-Coherent (initial-Coherent bindings 10) stacked-Reach

Step-Coherent_example : Coherent (put 1 7 30 stacked)
Step-Coherent_example = Step-Coherent (assigns 1 7 30) stacked-Coherent

Reach-lookup_example :
    ((lookup 5 stacked).0 ≡ ok (some 20))
    × ((is_known 5 stacked).0 ≡ true)
    × ((take_snapshot stacked).0 ≡ 0 ∷ 1 ∷ [])
unfolding push binding find
Reach-lookup_example = Reach-lookup bindings 10 stacked 5 stacked-Reach

lookup-where_example : (lookup 6 stacked).0 ≡ ok (some 11)
unfolding push where_ known find
lookup-where_example = lookup-where 6 stacked stacked-Coherent

restore_from-to_array_example :
    (s' : DictionaryStack ℕ) × (restore_from (0 ∷ 1 ∷ []) lone ≡ ok s')
    × (s'.d ≡ 1 ∷ 0 ∷ [])
    × (s'.entries ≡ bindings)
unfolding push to_array
restore_from-to_array_example = restore_from-to_array stacked lone cc

baselookup-slot_example : (s' : DictionaryStack ℕ) × (baselookup 6 stacked ≡ ok (slot_at 0 6, s'))
unfolding push known
baselookup-slot_example = baselookup-slot stacked 6 0 refl stacked-Coherent refl

baselookup_poisons_example :
    (s' : DictionaryStack ℕ) × (baselookup 5 stacked ≡ ok (slot_at 0 5, s'))
    × ((find_ 5 s').slot ≡ some (slot_at 0 5))
    × (search 5 s'.entries s'.d ≡ some (slot_at 1 5))
    × ((find_ 5 s').slot ≢ search 5 s'.entries s'.d)
unfolding push known search clear_names clear_token entry
baselookup_poisons_example =
    baselookup_poisons stacked 5 0 refl (slot_at 1 5) (omega arith) refl refl refl (omega arith)
