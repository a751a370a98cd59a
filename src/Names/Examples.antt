-- ===== src/Names/Examples.antt =====
-- The theorems on names at the tables that the program begins with.
use sli.Prelude.{◌≡◌, ◌↔◌, refl, some, List, ℕ, [], ◌∷◌, arith}
use sli.Names.Table.{initial, insert_name, insert_new, find_handle, to_string}
use sli.Names.Interning.{initial-Agree, Interned, insert_name-Interned, insert_name-equal}

abbrev add_name : List ℕ
add_name = b'a' ∷ b'd' ∷ b'd' ∷ []

abbrev def_name : List ℕ
def_name = b'd' ∷ b'e' ∷ b'f' ∷ []

-- The string of the handle 0 gets another one when it is made a name.
insert_zero : (insert_name (b'0' ∷ []) initial).0 ≡ 1
unfolding insert_name insert_new find_handle
insert_zero = refl

to_string_add : to_string 1 (insert_name add_name initial).1 ≡ some add_name
unfolding insert_name insert_new find_handle to_string
to_string_add = refl

insert_name-Interned_example : Interned add_name initial (insert_name add_name initial)
insert_name-Interned_example = insert_name-Interned add_name initial initial-Agree (omega arith)

insert_name-equal_example :
    ((insert_name add_name initial).0 ≡ (insert_name def_name (insert_name add_name initial).1).0)
    ↔ (add_name ≡ def_name)
insert_name-equal_example = insert_name-equal add_name def_name initial initial-Agree (omega arith)
