-- ===== src/Workspace/Objects.antt =====
-- The objects that a workspace shows: the parameters `root`, `focus`, `reset` and `add` of
-- `DQMWorkspace._set` (src/python/DQM/GUI.py).
use dqmgui_prod.Base.{String, ◌==◌, if◌then◌else◌}
use dqmgui_prod.Exec.{
  type_error, attribute_error, Result, ok, raised, Exec, pure, raise, lift, ◌>>=◌, ◌>>◌, when,
}
use dqmgui_prod.Value.{
  Value, Items, Fields, null, bool, num, str, list, dict, nil, cons, get, put, del, as_list, append,
}
use dqmgui_prod.Value
use dqmgui_prod.Workspace.Desk.{Desk, get_dict, put_in, del_in, check_object, check_object_name}
use dqmgui_prod.Workspace.Params.{Step, arg, text_step}

unfoldable pub set_root : String → Value → Step
set_root name v =
    text_step "Incorrect root parameter" v
      λ s. do checked ← check_object_name name s; put_in "dqm.root" name (str checked)

unfoldable pub set_focus : String → Value → Step
set_focus name v = text_step "Incorrect focus parameter" v λ s.
    if s == ""
    then del_in "dqm.focus" name
    else do checked ← check_object_name name s; put_in "dqm.focus" name (str checked)

-- `if reset == "yes"`
unfoldable pub set_reset : String → Value → Step
set_reset name (str s) = when (s == "yes") (put_in "dqm.myobjs" name (list nil))
set_reset name null = pure tt
set_reset name (bool b) = pure tt
set_reset name (num n) = pure tt
set_reset name (list l) = pure tt
set_reset name (dict f) = pure tt

-- the list `[self._checkObjectName(x) for x in …]`
unfoldable pub check_objects : String → Items → Exec Desk Items
check_objects name nil = pure nil
check_objects name (cons v l) = do
  checked ← check_object name v
  rest ← check_objects name l
  pure (cons checked rest)

-- the keys of a dictionary, which a loop over it goes through
unfoldable pub keys : Fields → Items
keys Fields.end = nil
keys (Fields.field k v d) = cons (str k) (keys d)

-- `(type(add) == str and [add]) or add`, as a loop goes through it
unfoldable pub added_objects : Value → Exec Desk Items
unfolding keys
added_objects (str s) = pure (cons (str s) nil)
added_objects (list l) = pure l
added_objects (dict f) = pure (keys f)
added_objects null = raise type_error
added_objects (bool b) = raise type_error
added_objects (num n) = raise type_error

-- a value with a method `extend`
unfoldable pub extendable : Value → Result Items
extendable (list l) = ok l
extendable null = raised attribute_error
extendable (bool b) = raised attribute_error
extendable (num n) = raised attribute_error
extendable (str s) = raised attribute_error
extendable (dict f) = raised attribute_error

-- `session["dqm.myobjs"][self.name].extend(…)`: the list is looked up first
unfoldable pub extend_objects : String → Value → Step
extend_objects name v = do
  objs ← get_dict "dqm.myobjs"
  mine ← lift (Value.item name objs)
  current ← lift (extendable mine)
  added ← added_objects v
  checked ← check_objects name added
  put_in "dqm.myobjs" name (list (append current checked))

unfoldable pub set_add : String → Value → Step
set_add name null = pure tt
set_add name (str s) = extend_objects name (str s)
set_add name (bool b) = extend_objects name (bool b)
set_add name (num n) = extend_objects name (num n)
set_add name (list l) = extend_objects name (list l)
set_add name (dict f) = extend_objects name (dict f)

-- the objects of the workspace `name`, from `root` to `add`
unfoldable pub set_objects : String → Fields → Step
set_objects name kwargs = do
  set_root name (arg "root" kwargs)
  set_focus name (arg "focus" kwargs)
  set_reset name (arg "reset" kwargs)
  set_add name (arg "add" kwargs)
