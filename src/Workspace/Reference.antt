-- ===== src/Workspace/Reference.antt =====
-- The reference objects of `DQMWorkspace._set` (src/python/DQM/GUI.py): the loop over
-- `referenceobj1` to `referenceobj4`; and `_set` as a whole.
use dqmgui_prod.Base.{
  ℕ, String, Bool, ◌||◌, Option, none, some, nat_eq, is_alnum, is_digit, ◌==◌, if◌then◌else◌,
}
use dqmgui_prod.Exec.{http, Exec, raise, lift, ◌>>=◌, ◌>>◌}
use dqmgui_prod.Regex.{
  Regex, Groups, chr, seq, star, eos, group, optional, literal, match, group_of,
}
use dqmgui_prod.Value.{
  Value, Items, Fields, null, str, list, dict, put, item, as_dict, as_list, nth, set_nth,
}
use dqmgui_prod.Workspace.Desk.{Desk, get_dict, put_in}
use dqmgui_prod.Workspace.Objects.{set_objects}
use dqmgui_prod.Workspace.Params.{Step, Gui, arg, text_step}
use dqmgui_prod.Workspace.Settings.{
  set_sample, set_display, set_strip, set_page, set_play, set_zooms,
}

abbrev is_dataset_char : ℕ → Bool
is_dataset_char c = is_alnum c || nat_eq c b'-' || nat_eq c b'/' || nat_eq c b'_'

abbrev is_label_char : ℕ → Bool
is_label_char c = is_alnum c || nat_eq c b' '

abbrev is_ktest_char : ℕ → Bool
is_ktest_char c = is_digit c || nat_eq c b'.'

-- `^other:(\d*):([-/A-Za-z0-9_]*)(:([A-Za-z0-9 ]*))?:([0-9.]*)$`
abbrev pub rx_other : Regex
rx_other = seq (literal "other:") (
    seq (group 1 (star (chr is_digit))) (
      seq (literal ":") (
        seq (group 2 (star (chr is_dataset_char))) (
          seq (optional (group 3 (seq (literal ":") (group 4 (star (chr is_label_char))))))
            (seq (literal ":") (seq (group 5 (star (chr is_ktest_char))) eos))))))

-- the value `m.group(n)`
unfoldable pub group_value : ℕ → Groups → Value
group_value n g = elim (group_of n g) [ none ↦ null | some s ↦ str s ]

-- `m.group(n) or ""`
unfoldable pub group_or_empty : ℕ → Groups → Value
group_or_empty n g = elim (group_of n g) [ none ↦ str "" | some s ↦ str s ]

-- the five assignments to `param`
unfoldable pub write_param : Value → Value → Value → Value → Value → Fields → Fields
write_param type run dataset label ktest p =
    put "ktest" ktest
      (put "label" label (put "dataset" dataset (put "run" run (put "type" type p))))

-- the assignments that a reference object makes, or `none` where it is refused
unfoldable pub reference_update : String → Option (Fields → Fields)
unfolding write_param group_value group_or_empty
reference_update s =
    if s == "refobj" || s == "none"
    then some (write_param (str s) (str "") (str "") (str "") (str ""))
    else elim (match rx_other s) [
      | none ↦ none
      | some g ↦ some (
          write_param (str "other") (group_value 1 g) (group_value 2 g) (group_or_empty 4 g)
            (group_value 5 g))
    ]

-- the list `session["dqm.reference"]["param"]`
unfoldable pub get_params : Exec Desk Items
get_params = do
  reference ← get_dict "dqm.reference"
  v ← lift (item "param" reference)
  lift (as_list v)

-- one round of the loop; the `param` is looked up whether or not the object was given
unfoldable pub set_reference : ℕ → Value → Step
set_reference i v = do
  params ← get_params
  param ← lift (nth i params)
  text_step "Incorrect referenceobj parameter" v λ s. elim (reference_update s) [
    | none ↦ raise (http 500 "Incorrect referenceobj parameter")
    | some update ↦ do
      fields ← lift (as_dict param)
      put_in "dqm.reference" "param" (list (set_nth i (dict (update fields)) params))
  ]

unfoldable pub set_references : Fields → Step
set_references kwargs = do
  set_reference 0 (arg "referenceobj1" kwargs)
  set_reference 1 (arg "referenceobj2" kwargs)
  set_reference 2 (arg "referenceobj3" kwargs)
  set_reference 3 (arg "referenceobj4" kwargs)

-- `_set`, of the workspace `name`
unfoldable pub set : Gui → String → Fields → Step
set gui name kwargs = do
  set_sample gui kwargs
  set_display kwargs
  set_references kwargs
  set_strip kwargs
  set_page kwargs
  set_play gui kwargs
  set_objects name kwargs
  set_zooms kwargs
