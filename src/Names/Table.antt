-- ===== src/Names/Table.antt =====
-- The two tables of `Name`, and the operations on them. A string is its bytes.
use sli.Prelude.{
  ℕ, ◌%◌, ◌^◌, Bool, true, false, ◌&&◌, Option, none, some, List, [], ◌∷◌, ◌++◌, ◌==◌,
  if◌then◌else◌, length, get_elem?,
}

-- `operator==` of strings
unfoldable pub same_text : List ℕ → List ℕ → Bool
same_text [] [] = true
same_text (c ∷ s) (d ∷ t) = (c == d) && same_text s t
same_text _ _ = false

abbrev pub HandleMap : Type 0
HandleMap = List (List ℕ × ℕ)

abbrev pub HandleTable : Type 0
HandleTable = List (List ℕ)

pub record Names : Type 0 where
  pub handle_map : HandleMap
  pub handle_table : HandleTable

-- The tables that the program begins with: the handle 0 stands for the string "0".
abbrev pub initial : Names
initial = record { handle_map = []; handle_table = (b'0' ∷ []) ∷ [] }

-- `map.find(s)`
unfoldable pub find_handle : List ℕ → HandleMap → Option ℕ
find_handle s [] = none
find_handle s ((t, h) ∷ m) = if same_text t s then some h else find_handle s m

-- A new handle is the size of the table, as an `unsigned int`.
unfoldable pub insert_new : List ℕ → Names → Option ℕ → ℕ × Names
insert_new s n (some h) = (h, n)
insert_new s n none =
    let newhandle = length n.handle_table % 2 ^ 32 in
    (
      newhandle,
      record {
        handle_map = (s, newhandle) ∷ n.handle_map;
        handle_table = n.handle_table ++ s ∷ [];
      },
    )

-- `Name::insert(s)`: the handle, and the tables.
unfoldable pub insert_name : List ℕ → Names → ℕ × Names
insert_name s n = insert_new s n (find_handle s n.handle_map)

-- `toString()`; there is none past the end of the table.
unfoldable pub to_string : ℕ → Names → Option (List ℕ)
to_string h n = get_elem? n.handle_table h

-- `Name::lookup(s)`
unfoldable pub is_name : List ℕ → Names → Bool
is_name s n = elim (find_handle s n.handle_map) [ none ↦ false | some h ↦ true ]
