-- ===== src/Parameters.antt =====
-- `ParameterManager.load` of src/python/Core/Utils/Common.py, the parameters of a request. What it does
-- to bytes and to lists of them changes nothing.
pub mod Split
use dqmgui_prod.Base.{
  ℕ, String, Char, code, Bool, true, false, Option, none, some, List, [], ◌∷◌, chars, pack, nat_eq,
  if◌then◌else◌,
}
use dqmgui_prod.Base.Dict

-- `k.split("=", 1)`, where there is such a character
unfoldable pub split_once : List Char → Option (List Char × List Char)
split_once [] = none
split_once (c ∷ cs) =
    let later = split_once cs in
    if nat_eq (code c) b'='
    then some ([], cs)
    else elim later [ none ↦ none | some (a, b) ↦ some (c ∷ a, b) ]

-- one parameter; `text` is the value that a text is
unfoldable pub load_one :
    {V : Type 0} → (String → V) → String → V → List (String × V) → List (String × V)
unfolding split_once
load_one text k v params = elim (split_once (chars k)) [
  | none ↦ Dict.insert k v params
  | some (a, b) ↦ Dict.insert (pack a) (text (pack b)) params
]

unfoldable pub load_all :
    {V : Type 0} → (String → V) → List (String × V) → List (String × V) → List (String × V)
unfolding load_one
load_all text [] params = params
load_all text ((k, v) ∷ d) params = load_all text d (load_one text k v params)

unfoldable pub load : {V : Type 0} → (String → V) → List (String × V) → List (String × V)
unfolding load_all
load text d = load_all text d []
