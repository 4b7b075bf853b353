-- ===== src/Server/Names.antt =====
-- How `session` (src/python/Core/GUI.py) finds the method of a request: by its name, first in the
-- class of the session's workspace (src/python/DQM/GUI.py) and then in the server.
use dqmgui_prod.Base.{
  ℕ, ◌-◌, Char, code, String, Bool, true, false, ◌&&◌, Option, none, some, List, [], ◌∷◌, chars,
  pack, nat_eq, is_lower, ◌==◌, pos, negsuc, if◌then◌else◌,
}
use dqmgui_prod.Exec.{http, index_error, Result, Exec, pure, raise, lift, ◌>>=◌}
use dqmgui_prod.Value.{Value, Fields, null, bool, num, str, list, dict, nil, cons, end, field, get}
use dqmgui_prod.Workspace.Desk.{Desk, get_item}
use dqmgui_prod.Workspace.Initial.{select_workspace, switch_workspace}
use dqmgui_prod.Workspace.Params.{
  Gui, Workspace, Kind, summary, certification, quality, content, shift, sample,
}
use dqmgui_prod.Workspace.Requests.{
  Method, perform, workspace, set_quality_plot, choose_sample, set_filter, set_stats, set_errbars,
  set_reference, set_strip_chart, set_sub_menu, set_search, set_size, play, set_root, set_focus,
  panel, set_jsonmode, set_jsrootmode, set_json_zoom, set_zoom, change_run, set_cert_zoom, state,
  reset_workspace, alter_image, shift_set_root, return, modify, select, stop, interval, step,
}

abbrev Table : Type 0
Table = List (String × Method)

-- the methods of `DQMWorkspace`, without the prefix `session`
abbrev base_methods : Table
base_methods =
    ("Workspace", workspace)
    ∷ ("SetQualityPlot", set_quality_plot)
    ∷ ("ChooseSample", choose_sample)
    ∷ ("SetFilter", set_filter)
    ∷ ("SetStats", set_stats)
    ∷ ("SetErrbars", set_errbars)
    ∷ ("SetReference", set_reference)
    ∷ ("SetStripChart", set_strip_chart)
    ∷ ("SetSubMenu", set_sub_menu)
    ∷ ("SetSearch", set_search)
    ∷ ("SetSize", set_size)
    ∷ ("Play", play)
    ∷ ("SetRoot", set_root)
    ∷ ("SetFocus", set_focus)
    ∷ ("Panel", panel)
    ∷ ("SetJsonmode", set_jsonmode)
    ∷ ("SetJSrootmode", set_jsrootmode)
    ∷ ("SetJsonZoom", set_json_zoom)
    ∷ ("SetZoom", set_zoom)
    ∷ ("ChangeRun", change_run)
    ∷ ("SetCertZoom", set_cert_zoom)
    ∷ ("State", state)
    ∷ []

-- the methods that a class adds, which come first
abbrev own_methods : Kind → Table
own_methods summary = []
own_methods certification = []
own_methods quality = []
own_methods content = ("ResetWorkspace", reset_workspace) ∷ ("AlterImage", alter_image) ∷ []
own_methods shift =
    ("SetRoot", shift_set_root)
    ∷ ("ResetWorkspace", reset_workspace)
    ∷ ("AlterImage", alter_image)
    ∷ []
own_methods sample = ("Return", return) ∷ ("Modify", modify) ∷ ("Select", select) ∷ []
own_methods Kind.play = ("Stop", stop) ∷ ("Interval", interval) ∷ ("Step", step) ∷ []

-- the upper case of a code point
abbrev to_upper : ℕ → ℕ
to_upper c = if is_lower c then c - 32 else c

-- `m[0].upper() + m[1:]` is the name
unfoldable pub is_called : List Char → List Char → Bool
is_called [] t = false
is_called (c ∷ s) [] = false
is_called (c ∷ s) (d ∷ t) = nat_eq (to_upper (code c)) (code d) && pack s == pack t

unfoldable pub search_table : List Char → Table → Option Method
unfolding is_called
search_table m [] = none
search_table m ((n, f) ∷ t) =
    let rest = search_table m t in if is_called m (chars n) then some f else rest

-- a value that Python takes for false
unfoldable pub is_falsy : Value → Bool
is_falsy null = true
is_falsy (bool b) = if b then false else true
is_falsy (num (pos n)) = nat_eq n 0
is_falsy (num (negsuc n)) = false
is_falsy (str s) = s == ""
is_falsy (list nil) = true
is_falsy (list (cons v l)) = false
is_falsy (dict end) = true
is_falsy (dict (field k v f)) = false

-- a method of a workspace or of the server, once it is found
abbrev pub Action : Type 0
Action = Fields → Exec Desk String

module _ (gui : Gui) (page : String → Fields → Result String) where
  -- a method that answers with a page of the session
  unfoldable pub page_of : String → Action
  page_of name kwargs d = (page name d.session, d)

  -- the methods of the server itself
  unfoldable pub server_method : List Char → Option Action
  unfolding page_of is_called
  server_method m =
      if is_called m (chars "Index")
      then some (page_of "Index")
      else if is_called m (chars "ProfileSnapshot")
      then some (page_of "ProfileSnapshot")
      else if is_called m (chars "Workspace")
      then some (λ kwargs. switch_workspace gui (get "name" kwargs))
      else if is_called m (chars "State")
      then some (λ kwargs. raise (http 500 "Internal implementation error"))
      else none

  -- `getattr(workspace, methodName, None)`
  unfoldable pub workspace_method : Workspace → List Char → Option Action
  unfolding search_table page_of
  workspace_method w m = elim (search_table m (own_methods w.kind)) [
    | some f ↦ some (perform gui w f)
    | none ↦ elim (search_table m base_methods) [
      | some f ↦ some (perform gui w f)
      | none ↦ if is_called m (chars "Index") then some (page_of "index-dqm") else none
    ]
  ]

  unfoldable pub method_named : List Char → Exec Desk (Option Action)
  unfolding workspace_method server_method is_falsy
  method_named m = do
    name ← get_item "core.workspace"
    if is_falsy name then pure (server_method m) else do
      w ← lift (select_workspace gui name)
      pure (elim (workspace_method w m) [ some f ↦ some f | none ↦ server_method m ])

  -- `methodName` from the rest of the path, and the method of that name
  unfoldable pub find_method : List String → Exec Desk (Option Action)
  unfolding method_named
  find_method [] = method_named (chars "Index")
  find_method (m ∷ path) = if m == "" then raise index_error else method_named (chars m)
