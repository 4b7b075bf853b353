-- ===== src/Workspace/Legal/Whole.antt =====
-- The parts of `_set` for the objects and the reference, and `_set` as a whole
-- (src/python/DQM/GUI.py), keep the settings of a session legal.
use dqmgui_prod.Base.{ℕ, String, refl, Option, none, some, ◌==◌}
use dqmgui_prod.Exec.{http, raise, lift, ◌>>=◌}
use dqmgui_prod.Exec.Preserves.{
  Preserves, Preserves-pure, Preserves-raise, Preserves-lift, Preserves-bind, Preserves-when,
  Preserves-if,
}
use dqmgui_prod.Value.{
  Value, Items, Fields, null, str, list, dict, nil, cons, as_dict, as_list, set_nth,
}
use dqmgui_prod.Workspace.Desk.{put_in, check_object}
use dqmgui_prod.Workspace.Legal.{
  IsLegal, legal_value, get_dict-IsLegal, both-IsLegal, put_in-IsLegal, del_in-IsLegal,
  check_object_name-IsLegal, text_step-IsLegal,
}
use dqmgui_prod.Workspace.Objects.{
  set_root, set_focus, set_reset, check_objects, added_objects, extend_objects, set_add,
  set_objects,
}
use dqmgui_prod.Workspace.Params.{Step, Gui}
use dqmgui_prod.Workspace.Reference.{
  get_params, set_reference, set_references, reference_update, set,
}
use dqmgui_prod.Workspace.Legal.Sets.{
  set_sample-IsLegal, put_free-IsLegal, set_display-IsLegal, set_strip-IsLegal, set_page-IsLegal,
  set_play-IsLegal, set_zooms-IsLegal,
}

module _ (name : String) where
  set_root-IsLegal : (v : Value) → Preserves IsLegal (set_root name v)
  unfolding set_root legal_value
  set_root-IsLegal v = text_step-IsLegal _ v _ λ s.
      Preserves-bind _ _ (check_object_name-IsLegal name s)
        (λ checked. put_in-IsLegal "dqm.root" name _ (λ f. refl))

  set_focus-IsLegal : (v : Value) → Preserves IsLegal (set_focus name v)
  unfolding set_focus legal_value
  set_focus-IsLegal v = text_step-IsLegal _ v _ λ s.
      Preserves-if (s == "") _ _ (λ _. del_in-IsLegal "dqm.focus" name (λ f. refl))
        (λ _.
          Preserves-bind _ _ (check_object_name-IsLegal name s)
            (λ checked. put_in-IsLegal "dqm.focus" name _ (λ f. refl)))

  set_reset-IsLegal : (v : Value) → Preserves IsLegal (set_reset name v)
  unfolding set_reset legal_value
  set_reset-IsLegal (str s) =
      Preserves-when _ _ (λ _. put_in-IsLegal "dqm.myobjs" name _ (λ f. refl))
  set_reset-IsLegal v = Preserves-pure tt

  check_object-IsLegal : (v : Value) → Preserves IsLegal (check_object name v)
  unfolding check_object
  check_object-IsLegal (str o) =
      Preserves-bind _ _ (check_object_name-IsLegal name o) (λ checked. Preserves-pure _)
  check_object-IsLegal v = Preserves-raise _

  check_objects-IsLegal : (l : Items) → Preserves IsLegal (check_objects name l)
  unfolding check_objects
  check_objects-IsLegal nil = Preserves-pure nil
  check_objects-IsLegal (cons v l) =
      Preserves-bind _ _ (check_object-IsLegal v)
        λ checked. Preserves-bind _ _ (check_objects-IsLegal l) (λ rest. Preserves-pure _)

  added_objects-IsLegal : (v : Value) → Preserves IsLegal (added_objects v)
  unfolding added_objects
  added_objects-IsLegal (str s) = Preserves-pure _
  added_objects-IsLegal (list l) = Preserves-pure _
  added_objects-IsLegal (dict f) = Preserves-pure _
  added_objects-IsLegal v = Preserves-raise _

  extend_objects-IsLegal : (v : Value) → Preserves IsLegal (extend_objects name v)
  unfolding extend_objects legal_value
  extend_objects-IsLegal v = Preserves-bind _ _ (get_dict-IsLegal "dqm.myobjs") λ objs.
      Preserves-bind _ _ (Preserves-lift _) λ mine. Preserves-bind _ _ (Preserves-lift _) λ current.
        Preserves-bind _ _ (added_objects-IsLegal v) λ added.
          Preserves-bind _ _ (check_objects-IsLegal added)
            (λ checked. put_in-IsLegal "dqm.myobjs" name _ (λ f. refl))

  set_add-IsLegal : (v : Value) → Preserves IsLegal (set_add name v)
  unfolding set_add
  set_add-IsLegal null = Preserves-pure tt
  set_add-IsLegal v = extend_objects-IsLegal v

  set_objects-IsLegal : (kwargs : Fields) → Preserves IsLegal (set_objects name kwargs)
  unfolding set_objects
  set_objects-IsLegal kwargs =
      both-IsLegal (set_root-IsLegal _) (
        both-IsLegal (set_focus-IsLegal _) (both-IsLegal (set_reset-IsLegal _) (set_add-IsLegal _)))

get_params-IsLegal : Preserves IsLegal get_params
unfolding get_params
get_params-IsLegal =
    Preserves-bind _ _ (get_dict-IsLegal "dqm.reference")
      λ reference. Preserves-bind _ _ (Preserves-lift _) (λ v. Preserves-lift (as_list v))

set_reference-IsLegal : (i : ℕ) (v : Value) → Preserves IsLegal (set_reference i v)
unfolding set_reference
set_reference-IsLegal i v = Preserves-bind _ _ get_params-IsLegal λ params.
    Preserves-bind _ _ (Preserves-lift _)
      λ param. text_step-IsLegal _ v _ λ s. update-IsLegal params param (reference_update s)
  where
    update-IsLegal :
        (params : Items) (param : Value) (o : Option (Fields → Fields))
        → Preserves IsLegal (elim o as (λ _. Step) [
          | none ↦ raise (http 500 "Incorrect referenceobj parameter")
          | some update ↦
              (lift (as_dict param) >>= λ fields.
              put_in "dqm.reference" "param" (list (set_nth i (dict (update fields)) params)))
        ])
    update-IsLegal params param none = Preserves-raise _
    update-IsLegal params param (some update) =
        Preserves-bind _ _ (Preserves-lift _) (λ fields. put_free-IsLegal "param" _ refl refl)

set_references-IsLegal : (kwargs : Fields) → Preserves IsLegal (set_references kwargs)
unfolding set_references
set_references-IsLegal kwargs = both-IsLegal (set_reference-IsLegal 0 _) (
    both-IsLegal (set_reference-IsLegal 1 _)
      (both-IsLegal (set_reference-IsLegal 2 _) (set_reference-IsLegal 3 _)))

-- Whatever parameters a request passes to `_set`, and whether it is accepted or refused half-way,
-- the settings stay legal.
pub set-IsLegal :
    (gui : Gui) (name : String) (kwargs : Fields) → Preserves IsLegal (set gui name kwargs)
unfolding set
set-IsLegal gui name kwargs = both-IsLegal (set_sample-IsLegal gui kwargs) (
    both-IsLegal (set_display-IsLegal kwargs) (
      both-IsLegal (set_references-IsLegal kwargs) (
        both-IsLegal (set_strip-IsLegal kwargs) (
          both-IsLegal (set_page-IsLegal kwargs) (
            both-IsLegal (set_play-IsLegal gui kwargs)
              (both-IsLegal (set_objects-IsLegal name kwargs) (set_zooms-IsLegal kwargs)))))))
