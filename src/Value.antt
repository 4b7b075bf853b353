-- ===== src/Value.antt =====
-- The Python values that a session holds: texts, numbers, lists and dictionaries, and the reads and
-- writes of a dictionary. A missing key raises `KeyError`, and a value of another type `TypeError`.
pub mod Laws
use dqmgui_prod.Base.{
  ℕ, zero, suc, String, Bool, true, false, Option, none, some, List, [], ◌∷◌, ℤ, ◌==◌,
  if◌then◌else◌,
}
use dqmgui_prod.Exec.{Result, ok, raised, key_error, index_error, type_error}

mutual
  pub data Value : Type 0 where
    null : Value
    bool : Bool → Value
    num : ℤ → Value
    str : String → Value
    list : Items → Value
    dict : Fields → Value

  pub data Items : Type 0 where
    nil : Items
    cons : Value → Items → Items

  -- the entries of a dictionary, in the order of insertion
  pub data Fields : Type 0 where
    end : Fields
    field : String → Value → Fields → Fields

-- `d.get(k)`
unfoldable pub get : String → Fields → Option Value
get k end = none
get k (field j v d) = if j == k then some v else get k d

-- `d[k] = v`
unfoldable pub put : String → Value → Fields → Fields
put k v end = field k v end
put k v (field j w d) = if j == k then field j v d else field j w (put k v d)

-- `del d[k]`, of a key that is there
unfoldable pub del : String → Fields → Fields
del k end = end
del k (field j w d) = if j == k then d else field j w (del k d)

-- `d[k]`
unfoldable pub item : String → Fields → Result Value
item k d = elim (get k d) [ none ↦ raised key_error | some v ↦ ok v ]

-- the dictionary that a value is
unfoldable pub as_dict : Value → Result Fields
as_dict (dict d) = ok d
as_dict null = raised type_error
as_dict (bool b) = raised type_error
as_dict (num n) = raised type_error
as_dict (str s) = raised type_error
as_dict (list l) = raised type_error

unfoldable pub as_list : Value → Result Items
as_list (list l) = ok l
as_list null = raised type_error
as_list (bool b) = raised type_error
as_list (num n) = raised type_error
as_list (str s) = raised type_error
as_list (dict d) = raised type_error

-- `l[i]`
unfoldable pub nth : ℕ → Items → Result Value
nth i nil = raised index_error
nth zero (cons v l) = ok v
nth (suc i) (cons v l) = nth i l

-- `l[i] = v`, of an index that is there
unfoldable pub set_nth : ℕ → Value → Items → Items
set_nth i v nil = nil
set_nth zero v (cons w l) = cons v l
set_nth (suc i) v (cons w l) = cons w (set_nth i v l)

unfoldable pub append : Items → Items → Items
append nil m = m
append (cons v l) m = cons v (append l m)

unfoldable pub items_of : List Value → Items
items_of [] = nil
items_of (v ∷ l) = cons v (items_of l)

unfoldable pub is_empty : Fields → Bool
is_empty end = true
is_empty (field k v d) = false
