-- ===== src/Workspace/Handlers.antt =====
-- The session methods of `DQMWorkspace` (src/python/DQM/GUI.py), of the workspace `w`: each checks
-- its parameters, saves the session and replies. `kwargs` are the parameters of the request.
use dqmgui_prod.Base.{String, Bool, true, false, some, List, [], ◌∷◌, ◌==◌, concat, member, or_else}
use dqmgui_prod.Exec.{http, Exec, pure, raise, lift, gets, ◌>>=◌, ◌>>◌, when}
use dqmgui_prod.Value.{Value, Fields, null, bool, num, str, list, dict, end, field, get}
use dqmgui_prod.Workspace.Desk.{Desk, get_item, put_item, del_in, save_session}
use dqmgui_prod.Workspace.Initial.{state_of, switch_workspace}
use dqmgui_prod.Workspace.Params.{Step, Workspace, Gui, arg, require, set_number, set_flag}
use dqmgui_prod.Workspace.Reference.{set}

-- `kwargs.get(k, default)`
unfoldable pub arg_or : String → Value → Fields → Value
arg_or k default kwargs = or_else (get k kwargs) default

-- `if v in ("yes", "no"): session[key] = v == "yes"`, of any value
unfoldable pub set_mode : String → Value → Step
set_mode key (str s) = when (member s ("yes" ∷ "no" ∷ [])) (put_item key (bool (s == "yes")))
set_mode key null = pure tt
set_mode key (bool b) = pure tt
set_mode key (num n) = pure tt
set_mode key (list l) = pure tt
set_mode key (dict f) = pure tt

abbrev pub panel_names : List String
panel_names = "help" ∷ "custom" ∷ "tools" ∷ []

-- `"dqm.panel.%s.show" % name`, and the like
abbrev pub panel_key : String → String → String
panel_key name suffix = concat "dqm.panel." (concat name suffix)

-- the checks of `sessionPanel` after that of the name
unfoldable pub set_panel : Fields → String → Step
set_panel kwargs name = do
  set_flag (panel_key name ".show") "Invalid panel show parameter" (arg "show" kwargs)
  set_number (panel_key name ".x") "Invalid panel position parameter" (arg "x" kwargs)
  set_number (panel_key name ".y") "Invalid panel position parameter" (arg "y" kwargs)

-- `None` is no panel, too
unfoldable pub check_panel : Value → (String → Step) → Step
check_panel (str s) body =
    require (member s panel_names) "Panel operation without a valid panel name" >> body s
check_panel null body = raise (http 500 "Panel operation without a valid panel name")
check_panel (bool b) body = raise (http 500 "Panel operation without a valid panel name")
check_panel (num n) body = raise (http 500 "Panel operation without a valid panel name")
check_panel (list l) body = raise (http 500 "Panel operation without a valid panel name")
check_panel (dict f) body = raise (http 500 "Panel operation without a valid panel name")

-- the four numbers of a window, under their keys
unfoldable pub set_window : String → String → String → String → Fields → Step
set_window kx ky kw kh kwargs = do
  set_number kx "Invalid Zoom position parameter" (arg "x" kwargs)
  set_number ky "Invalid Zoom position parameter" (arg "y" kwargs)
  set_number kw "Invalid Zoom width parameter" (arg "w" kwargs)
  set_number kh "Invalid Zoom height parameter" (arg "h" kwargs)

-- `v != None`
unfoldable pub given : Value → Bool
given null = false
given (bool b) = true
given (num n) = true
given (str s) = true
given (list l) = true
given (dict f) = true

module _ (gui : Gui) (w : Workspace) where
  -- `self.gui._saveSession(session); return self._state(session)`
  unfoldable pub save_and_state : Exec Desk String
  save_and_state = save_session >> state_of gui w

  -- `self._set(session, **values)` and then that
  unfoldable pub set_and_state : Fields → Exec Desk String
  set_and_state values = set gui w.name values >> save_and_state

  unfoldable pub start : Fields → Step
  start kwargs = set gui w.name kwargs

  unfoldable pub session_workspace : Fields → Exec Desk String
  session_workspace kwargs = do
    set gui w.name (field "submenu" (str "data") end)
    switch_workspace gui (get "name" kwargs)

  unfoldable pub session_set_quality_plot : Fields → Exec Desk String
  session_set_quality_plot kwargs = do
    set gui w.name (field "qplot" (arg_or "n" (str "") kwargs) end)
    save_session
    pure "Ta."

  unfoldable pub session_choose_sample : Fields → Exec Desk String
  session_choose_sample kwargs = do
    current ← get_item "core.workspace"
    set gui w.name (
        field "samplevary" (arg_or "vary" (str "any") kwargs) (
          field "sampleorder" (arg_or "order" (str "dataset") kwargs) (
            field "sampledynsearch" (arg_or "dynsearch" (str "yes") kwargs)
              (field "sampleprevws" current end))))
    switch_workspace gui (some (str "sample"))

  unfoldable pub session_set_filter : Fields → Exec Desk String
  session_set_filter kwargs = set_and_state (field "filter" (arg_or "n" (str "all") kwargs) end)

  unfoldable pub session_set_stats : Fields → Exec Desk String
  session_set_stats kwargs = set_and_state (field "showstats" (arg "showstats" kwargs) end)

  unfoldable pub session_set_errbars : Fields → Exec Desk String
  session_set_errbars kwargs = set_and_state (field "showerrbars" (arg "showerrbars" kwargs) end)

  unfoldable pub session_set_reference : Fields → Exec Desk String
  session_set_reference kwargs = set_and_state (
      field "referencepos" (arg "position" kwargs) (
        field "referenceshow" (arg "show" kwargs) (
          field "referencenorm" (arg "norm" kwargs) (
            field "referenceobj1" (arg "r1" kwargs) (
              field "referenceobj2" (arg "r2" kwargs) (
                field "referenceobj3" (arg "r3" kwargs)
                  (field "referenceobj4" (arg "r4" kwargs) end)))))))

  unfoldable pub session_set_strip_chart : Fields → Exec Desk String
  session_set_strip_chart kwargs = set_and_state (
      field "striptype" (arg "type" kwargs) (
        field "stripruns" (arg "n" kwargs)
          (field "stripaxis" (arg "axis" kwargs) (field "stripomit" (arg "omit" kwargs) end))))

  unfoldable pub session_set_sub_menu : Fields → Exec Desk String
  session_set_sub_menu kwargs = do
    set gui w.name (field "submenu" (arg_or "n" (str "data") kwargs) end)
    save_session
    pure "Ta."

  unfoldable pub session_set_search : Fields → Exec Desk String
  session_set_search kwargs = set_and_state (field "search" (arg_or "rx" (str "") kwargs) end)

  unfoldable pub session_set_size : Fields → Exec Desk String
  session_set_size kwargs = set_and_state (field "size" (arg "sz" kwargs) end)

  unfoldable pub session_play : Fields → Exec Desk String
  session_play kwargs = do
    current ← get_item "core.workspace"
    set gui w.name (field "playprevws" current end)
    switch_workspace gui (some (str "play"))

  unfoldable pub session_set_root : Fields → Exec Desk String
  session_set_root kwargs = do
    set gui w.name (field "root" (arg_or "n" (str "") kwargs) end)
    del_in "dqm.focus" w.name
    save_and_state

  -- `name == None` clears the focus; any other value is checked by `_set`
  unfoldable pub focus_step : Value → Step
  focus_step null = del_in "dqm.focus" w.name
  focus_step (str s) = set gui w.name (field "focus" (str s) end)
  focus_step (bool b) = set gui w.name (field "focus" (bool b) end)
  focus_step (num n) = set gui w.name (field "focus" (num n) end)
  focus_step (list l) = set gui w.name (field "focus" (list l) end)
  focus_step (dict f) = set gui w.name (field "focus" (dict f) end)

  unfoldable pub session_set_focus : Fields → Exec Desk String
  session_set_focus kwargs = do focus_step (arg "n" kwargs); save_and_state

  unfoldable pub session_panel : Fields → Exec Desk String
  session_panel kwargs = do check_panel (arg "n" kwargs) (set_panel kwargs); save_and_state

  unfoldable pub session_set_jsonmode : Fields → Exec Desk String
  session_set_jsonmode kwargs = do set_mode "dqm.zoom.jsonmode" (arg "mode" kwargs); save_and_state

  unfoldable pub session_set_jsrootmode : Fields → Exec Desk String
  session_set_jsrootmode kwargs = do
    set_mode "dqm.zoom.jsrootmode" (arg "mode" kwargs)
    save_and_state

  unfoldable pub session_set_json_zoom : Fields → Exec Desk String
  session_set_json_zoom kwargs = do
    set_window "dqm.zoom.jx" "dqm.zoom.jy" "dqm.zoom.jw" "dqm.zoom.jh" kwargs
    save_and_state

  unfoldable pub session_set_zoom : Fields → Exec Desk String
  session_set_zoom kwargs = do
    set_flag "dqm.zoom.show" "Invalid Zoom show parameter" (arg "show" kwargs)
    set_window "dqm.zoom.x" "dqm.zoom.y" "dqm.zoom.w" "dqm.zoom.h" kwargs
    save_and_state

  unfoldable pub session_change_run : Fields → Exec Desk String
  session_change_run kwargs = do
    answer ← gets (λ (d : Desk). gui.change_run w.name d.session (given (arg "forward" kwargs)))
    next ← lift answer
    put_item "dqm.sample.runnr" next
    save_and_state

  unfoldable pub session_set_cert_zoom : Fields → Exec Desk String
  session_set_cert_zoom kwargs = do
    set_flag "dqm.certzoom.show" "Invalid Zoom show parameter" (arg "show" kwargs)
    set_window "dqm.certzoom.x" "dqm.certzoom.y" "dqm.certzoom.w" "dqm.certzoom.h" kwargs
    save_and_state
