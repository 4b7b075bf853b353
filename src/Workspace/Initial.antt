-- ===== src/Workspace/Initial.antt =====
-- The defaults of a session, `initialiseSession` of each class of workspaces
-- (src/python/DQM/GUI.py), and the switch to another workspace (`_workspace` and
-- `sessionWorkspace` of src/python/Core/GUI.py).
use dqmgui_prod.Base.{
  String, Bool, true, false, ◌&&◌, not, Option, none, some, List, [], ◌∷◌, pos, same_lower,
  starts_with, if◌then◌else◌, is_some, or_else,
}
use dqmgui_prod.Exec.{
  attribute_error, index_error, Result, ok, raised, Exec, lift, modify, ◌>>=◌, ◌>>◌, when,
}
use dqmgui_prod.Value.{
  Value, Items, Fields, null, bool, num, str, list, dict, nil, cons, end, field, get, put,
}
use dqmgui_prod.Workspace.Desk.{Desk, get_item, put_item, get_dict, put_in, save_session}
use dqmgui_prod.Workspace.Params.{
  Step, Kind, summary, certification, quality, content, shift, sample, play, Workspace, Gui,
}

abbrev pub reference_default : String → Value
reference_default type = dict (
    field "type" (str type) (
      field "run" (str "")
        (field "dataset" (str "") (field "label" (str "") (field "ktest" (str "") end)))))

-- `DQMWorkspace.sessiondef`
abbrev pub sessiondef : Fields
sessiondef = field "dqm.sample.vary" (str "any") (
    field "dqm.sample.order" (str "dataset") (
      field "dqm.sample.prevws" (str "") (
        field "dqm.sample.pattern" (str "") (
          field "dqm.sample.dynsearch" (str "yes") (
            field "dqm.play.prevws" (str "") (
              field "dqm.play.interval" (num (pos 5)) (
                field "dqm.play.pos" (num (pos 0)) (
                  field "dqm.qplot" (str "")
                    (field "dqm.search" (str "") (field "dqm.filter" (str "all") display))))))))))
  where
    objects : Fields
    objects = field "dqm.root" (dict end) (
        field "dqm.focus" (dict end)
          (field "dqm.drawopts" (dict end) (field "dqm.myobjs" (dict end) end)))

    reference : Value
    reference = dict (
        field "show" (str "customise") (
          field "position" (str "overlay") (
            field "norm" (str "True") (
              field "param"
                (list (
                  cons (reference_default "refobj") (
                    cons (reference_default "none")
                      (cons (reference_default "none") (cons (reference_default "none") nil)))))
                end))))

    display : Fields
    display = field "dqm.strip.type" (str "object") (
        field "dqm.strip.omit" (str "none") (
          field "dqm.strip.axis" (str "run") (
            field "dqm.strip.n" (str "") (
              field "dqm.showstats" (str "1") (
                field "dqm.showerrbars" (str "0") (
                  field "dqm.reference" reference
                    (field "dqm.submenu" (str "data") (field "dqm.size" (str "M") objects))))))))

-- `for var, value in …: if var not in session: session[var] = deepcopy(value)`
unfoldable pub set_missing : Fields → Fields → Fields
set_missing end session = session
set_missing (field var value defs) session =
    set_missing defs (if is_some (get var session) then session else put var value session)

unfoldable pub initialise_base : Step
initialise_base = modify (λ (d : Desk). record d { session = set_missing sessiondef d.session })

-- `len(self.content)` is not 0
unfoldable pub has_items : Items → Bool
has_items nil = false
has_items (cons v l) = true

-- of `DQMContentWorkspace`
unfoldable pub initialise_content : Workspace → Step
initialise_content w = do
  initialise_base
  objs ← get_dict "dqm.myobjs"
  when (not (is_some (get w.name objs)) && has_items w.contents) (
      put_in "dqm.myobjs" w.name (list w.contents)
      >> put_in "dqm.root" w.name (str "Quick collection"))

abbrev pub shift_root : String
shift_root = "00 Shift"

-- of `DQMShiftWorkspace`
unfoldable pub initialise_shift : Workspace → Step
initialise_shift w = do initialise_content w; put_in "dqm.root" w.name (str shift_root)

abbrev pub by_kind : Kind → Step → Step → Step → Step
by_kind summary b c s = b
by_kind certification b c s = b
by_kind quality b c s = b
by_kind content b c s = c
by_kind shift b c s = s
by_kind sample b c s = b
by_kind play b c s = b

-- `initialiseSession`, by the class
unfoldable pub initialise_session : Workspace → Step
initialise_session w = by_kind w.kind initialise_base (initialise_content w) (initialise_shift w)

-- the loop of `_workspace`, and its default
unfoldable pub find_workspace : String → List Workspace → Option Workspace
find_workspace name [] = none
find_workspace name (w ∷ ws) = if same_lower w.name name then some w else find_workspace name ws

unfoldable pub first_workspace : List Workspace → Result Workspace
first_workspace [] = raised index_error
first_workspace (w ∷ ws) = ok w

unfoldable pub workspace_of : List Workspace → String → Result Workspace
workspace_of ws name = elim (find_workspace name ws) [ some w ↦ ok w | none ↦ first_workspace ws ]

-- `_workspace(name)`, of a value: what is no text has no method `lower`
unfoldable pub select_workspace : Gui → Value → Result Workspace
select_workspace gui (str name) = workspace_of gui.workspaces name
select_workspace gui null = raised attribute_error
select_workspace gui (bool b) = raised attribute_error
select_workspace gui (num n) = raised attribute_error
select_workspace gui (list l) = raised attribute_error
select_workspace gui (dict f) = raised attribute_error

-- `self._state(session)`
unfoldable pub state_of : Gui → Workspace → Exec Desk String
state_of gui w d = (gui.state w.name d.session, d)

-- `v.startswith(…)` of a value
unfoldable pub value_starts_with : Value → String → Result Bool
value_starts_with (str s) t = ok (starts_with s t)
value_starts_with null t = raised attribute_error
value_starts_with (bool b) t = raised attribute_error
value_starts_with (num n) t = raised attribute_error
value_starts_with (list l) t = raised attribute_error
value_starts_with (dict f) t = raised attribute_error

abbrev or_empty : Option Value → Value
or_empty none = str ""
or_empty (some v) = v

-- `sessionState`: a shift workspace puts its root right first
unfoldable pub shift_state : Gui → Workspace → Exec Desk String
shift_state gui w = do
  roots ← get_dict "dqm.root"
  fine ← lift (value_starts_with (or_empty (get w.name roots)) shift_root)
  when (not fine) (put_in "dqm.root" w.name (str shift_root) >> save_session)
  state_of gui w

abbrev pub is_shift : Kind → Bool
is_shift shift = true
is_shift summary = false
is_shift certification = false
is_shift quality = false
is_shift content = false
is_shift sample = false
is_shift play = false

unfoldable pub session_state : Gui → Workspace → Exec Desk String
session_state gui w = if is_shift w.kind then shift_state gui w else state_of gui w

-- `Server.sessionWorkspace`; the default of `name` is read first, whether or not it is used
unfoldable pub switch_workspace : Gui → Option Value → Exec Desk String
switch_workspace gui name = do
  current ← get_item "core.workspace"
  w ← lift (select_workspace gui (or_else name current))
  put_item "core.workspace" (str w.name)
  initialise_session w
  save_session
  session_state gui w
