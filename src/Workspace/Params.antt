-- ===== src/Workspace/Params.antt =====
-- The checks that `DQMWorkspace._set` and the session methods repeat (src/python/DQM/GUI.py): one
-- parameter of a request, refused with HTTP error 500 or written to the session. `null` is a
-- parameter that was not given.
use dqmgui_prod.Base.{
  String, Bool, true, false, Option, none, some, List, [], ◌∷◌, map, ℤ, pos, member, int, ◌==◌,
}
use dqmgui_prod.Exec.{http, Result, Exec, pure, raise, ◌>>◌}
use dqmgui_prod.Regex.{matches, rx_digits}
use dqmgui_prod.Value.{Value, Items, Fields, null, bool, num, str, list, dict, get}
use dqmgui_prod.Workspace.Desk.{Desk, put_item, put_in}

abbrev pub Step : Type 0
Step = Exec Desk (Unit {0})

-- `if v != None:`, then a text goes on and any other value is refused
unfoldable pub text_step : String → Value → (String → Step) → Step
text_step msg null body = pure tt
text_step msg (str s) body = body s
text_step msg (bool b) body = raise (http 500 msg)
text_step msg (num n) body = raise (http 500 msg)
text_step msg (list l) body = raise (http 500 msg)
text_step msg (dict f) body = raise (http 500 msg)

-- a test that refuses
unfoldable pub require : Bool → String → Step
require true msg = pure tt
require false msg = raise (http 500 msg)

-- `if not isinstance(v, str) or v not in (…): raise …; session[key] = v`
unfoldable pub set_choice : String → List String → String → Value → Step
set_choice key allowed msg v =
    text_step msg v λ s. require (member s allowed) msg >> put_item key (str s)

-- `if not isinstance(v, str): raise …; session[key] = v`
unfoldable pub set_text : String → String → Value → Step
set_text key msg v = text_step msg v λ s. put_item key (str s)

-- the same with `re.match`, and `int(v)` written
unfoldable pub set_number : String → String → Value → Step
set_number key msg v =
    text_step msg v λ s. require (matches rx_digits s) msg >> put_item key (num (pos (int s)))

-- `session[key] = v == "yes"`
unfoldable pub set_flag : String → String → Value → Step
set_flag key msg v =
    text_step msg v
      λ s. require (member s ("yes" ∷ "no" ∷ [])) msg >> put_item key (bool (s == "yes"))

-- a choice in `session["dqm.reference"]`
unfoldable pub set_reference_choice : String → List String → String → Value → Step
set_reference_choice key allowed msg v =
    text_step msg v λ s. require (member s allowed) msg >> put_in "dqm.reference" key (str s)

-- the keyword argument of a name, `None` where it is not given
unfoldable pub arg : String → Fields → Value
arg k kwargs = elim (get k kwargs) [ none ↦ null | some v ↦ v ]

-- the classes of workspaces
pub data Kind : Type 0 where
  summary certification quality content shift sample play : Kind

pub record Workspace : Type 0 where
  pub name : String
  pub kind : Kind
  -- `self.content`, which the class of contents alone has
  pub contents : Items

-- The server, as far as the workspaces look at it, with what the C++ extension provides.
pub record Gui : Type 0 where
  pub workspaces : List Workspace
  -- the attributes of `Accelerator.sampletype`
  pub sampletype : String → Option ℤ
  -- `_state(session)` of the workspace with a name
  pub state : String → Fields → Result String
  -- `_changeRun(session, forward)`
  pub change_run : String → Fields → Bool → Result Value

abbrev pub workspace_names : Gui → List String
workspace_names gui = map (λ (w : Workspace). w.name) gui.workspaces
