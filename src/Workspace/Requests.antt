-- ===== src/Workspace/Requests.antt =====
-- The requests that a session takes once it is locked for a thread: the methods `session…` of the
-- workspaces (src/python/DQM/GUI.py), by name. `Server.session` of src/python/Core/GUI.py looks the
-- method up in the current workspace and releases the session afterwards.
use dqmgui_prod.Base.{String, List, [], ◌∷◌}
use dqmgui_prod.Exec.{Exec, pure, ◌>>◌}
use dqmgui_prod.Value.{Fields, get}
use dqmgui_prod.Workspace.Desk.{Desk}
use dqmgui_prod.Workspace.Content
use dqmgui_prod.Workspace.Handlers
use dqmgui_prod.Workspace.Initial
use dqmgui_prod.Workspace.Params.{Workspace, Gui}

pub data Method : Type 0 where
  start workspace set_quality_plot choose_sample set_filter set_stats set_errbars : Method
  set_reference set_strip_chart set_sub_menu set_search set_size play set_root set_focus : Method
  panel set_jsonmode set_jsrootmode set_json_zoom set_zoom change_run set_cert_zoom : Method
  state core_workspace reset_workspace alter_image shift_set_root : Method
  return modify select stop interval step : Method

unfoldable pub perform : Gui → Workspace → Method → Fields → Exec Desk String
perform gui w start kwargs = Handlers.start gui w kwargs >> pure ""
perform gui w workspace kwargs = Handlers.session_workspace gui w kwargs
perform gui w set_quality_plot kwargs = Handlers.session_set_quality_plot gui w kwargs
perform gui w choose_sample kwargs = Handlers.session_choose_sample gui w kwargs
perform gui w set_filter kwargs = Handlers.session_set_filter gui w kwargs
perform gui w set_stats kwargs = Handlers.session_set_stats gui w kwargs
perform gui w set_errbars kwargs = Handlers.session_set_errbars gui w kwargs
perform gui w set_reference kwargs = Handlers.session_set_reference gui w kwargs
perform gui w set_strip_chart kwargs = Handlers.session_set_strip_chart gui w kwargs
perform gui w set_sub_menu kwargs = Handlers.session_set_sub_menu gui w kwargs
perform gui w set_search kwargs = Handlers.session_set_search gui w kwargs
perform gui w set_size kwargs = Handlers.session_set_size gui w kwargs
perform gui w play kwargs = Handlers.session_play gui w kwargs
perform gui w set_root kwargs = Handlers.session_set_root gui w kwargs
perform gui w set_focus kwargs = Handlers.session_set_focus gui w kwargs
perform gui w panel kwargs = Handlers.session_panel gui w kwargs
perform gui w set_jsonmode kwargs = Handlers.session_set_jsonmode gui w kwargs
perform gui w set_jsrootmode kwargs = Handlers.session_set_jsrootmode gui w kwargs
perform gui w set_json_zoom kwargs = Handlers.session_set_json_zoom gui w kwargs
perform gui w set_zoom kwargs = Handlers.session_set_zoom gui w kwargs
perform gui w change_run kwargs = Handlers.session_change_run gui w kwargs
perform gui w set_cert_zoom kwargs = Handlers.session_set_cert_zoom gui w kwargs
perform gui w state kwargs = Initial.session_state gui w
perform gui w core_workspace kwargs = Initial.switch_workspace gui (get "name" kwargs)
perform gui w reset_workspace kwargs = Content.session_reset_workspace gui w
perform gui w alter_image kwargs = Content.session_alter_image gui w kwargs
perform gui w shift_set_root kwargs = Content.shift_set_root gui w kwargs
perform gui w return kwargs = Content.session_return gui w
perform gui w modify kwargs = Content.session_modify gui w kwargs
perform gui w select kwargs = Content.session_select gui w kwargs
perform gui w stop kwargs = Content.session_stop gui w
perform gui w interval kwargs = Content.session_interval gui w kwargs
perform gui w step kwargs = Content.session_step gui w kwargs

-- a request: the workspace that is current, the method and its parameters
pub record Request : Type 0 where
  pub current : Workspace
  pub method : Method
  pub kwargs : Fields

-- The session after some requests, of which each may have been refused.
unfoldable pub run_requests : Gui → List Request → Desk → Desk
run_requests gui [] d = d
run_requests gui (r ∷ rs) d = run_requests gui rs (perform gui r.current r.method r.kwargs d).1
