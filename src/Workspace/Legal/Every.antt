-- ===== src/Workspace/Legal/Every.antt =====
-- Every sequence of requests to the workspaces (src/python/DQM/GUI.py) keeps the settings of a
-- session legal.
use dqmgui_prod.Base.{String, true, ◌≡◌, refl, some, List, [], ◌∷◌, member}
use dqmgui_prod.Exec.{pure}
use dqmgui_prod.Exec.Preserves.{
  Preserves, Preserves-pure, Preserves-lift, Preserves-gets, Preserves-bind, Preserves-if,
}
use dqmgui_prod.Value.{Value, Fields, str}
use dqmgui_prod.Workspace.Content
use dqmgui_prod.Workspace.Desk.{Desk}
use dqmgui_prod.Workspace.Handlers
use dqmgui_prod.Workspace.Handlers.{
  panel_names, panel_key, set_mode, set_panel, check_panel, set_window, save_and_state,
  set_and_state, focus_step,
}
use dqmgui_prod.Workspace.Image.{is_one_of}
use dqmgui_prod.Workspace.Initial.{state_of}
use dqmgui_prod.Workspace.Legal.{
  IsLegal, legal_value, put_item-IsLegal, get_item-IsLegal, get_dict-IsLegal, del_in-IsLegal,
  set_flag-IsLegal,
}
use dqmgui_prod.Workspace.Legal.Whole.{set-IsLegal}
use dqmgui_prod.Workspace.Params.{Workspace, Gui}
use dqmgui_prod.Workspace.Requests.{
  Method, perform, start, workspace, set_quality_plot, choose_sample, set_filter, set_stats,
  set_errbars, set_reference, set_strip_chart, set_sub_menu, set_search, set_size, play, set_root,
  set_focus, panel, set_jsonmode, set_jsrootmode, set_json_zoom, set_zoom, change_run,
  set_cert_zoom, state, core_workspace, reset_workspace, alter_image, shift_set_root, return,
  modify, select, stop, interval, step, Request, run_requests,
}
use dqmgui_prod.Workspace.Legal.Methods.{
  then-IsLegal, initialise_session-IsLegal, state_of-IsLegal, session_state-IsLegal,
  switch_workspace-IsLegal, save_and_state-IsLegal, set_and_state-IsLegal, set_and_say-IsLegal,
}
use dqmgui_prod.Workspace.Legal.Steps.{
  set_mode-IsLegal, set_window-IsLegal, check_panel-IsLegal, check_image-IsLegal,
  focus_step-IsLegal,
}

module _ (gui : Gui) (w : Workspace) where
  return_to-IsLegal :
      (k : String) → legal_value k (str "") ≡ true → Preserves IsLegal (Content.return_to gui k)
  unfolding Content.return_to
  return_to-IsLegal k fits = Preserves-bind _ _ (get_item-IsLegal k) λ prevws.
      then-IsLegal (put_item-IsLegal k _ fits) (switch_workspace-IsLegal gui (some prevws))

  alter_image-IsLegal :
      (val : Value) (obj opt : String) → Preserves IsLegal (Content.alter_image gui w val obj opt)
  unfolding Content.alter_image legal_value
  alter_image-IsLegal val obj opt = Preserves-bind _ _ (get_dict-IsLegal "dqm.drawopts") λ drawopts.
      Preserves-bind _ _ (Preserves-lift _) (λ altered. put_item-IsLegal "dqm.drawopts" _ refl)

  set_root_method-IsLegal :
      (kwargs : Fields) → Preserves IsLegal (Handlers.session_set_root gui w kwargs)
  unfolding Handlers.session_set_root legal_value
  set_root_method-IsLegal kwargs =
      then-IsLegal (set-IsLegal gui w.name _) (
        then-IsLegal (del_in-IsLegal "dqm.focus" w.name (λ f. refl)) (save_and_state-IsLegal gui w))

  -- Every session method keeps the settings legal, whatever its parameters, also where it raises.
  pub perform-IsLegal : (m : Method) (kwargs : Fields) → Preserves IsLegal (perform gui w m kwargs)
  unfolding perform Handlers.start Handlers.session_workspace Handlers.session_set_quality_plot
      Handlers.session_choose_sample Handlers.session_set_filter Handlers.session_set_stats
      Handlers.session_set_errbars Handlers.session_set_reference Handlers.session_set_strip_chart
      Handlers.session_set_sub_menu Handlers.session_set_search Handlers.session_set_size
      Handlers.session_play Handlers.session_set_root Handlers.session_set_focus
      Handlers.session_panel Handlers.session_set_jsonmode Handlers.session_set_jsrootmode
      Handlers.session_set_json_zoom Handlers.session_set_zoom Handlers.session_change_run
      Handlers.session_set_cert_zoom Content.session_reset_workspace Content.session_alter_image
      Content.shift_set_root Content.session_return Content.session_modify Content.session_select
      Content.session_stop Content.session_interval Content.session_step legal_value member
  perform-IsLegal start kwargs = then-IsLegal (set-IsLegal gui w.name kwargs) (Preserves-pure _)
  perform-IsLegal workspace kwargs =
      then-IsLegal (set-IsLegal gui w.name _) (switch_workspace-IsLegal gui _)
  perform-IsLegal set_quality_plot kwargs = set_and_say-IsLegal gui w _ _
  perform-IsLegal choose_sample kwargs =
      Preserves-bind _ _ (get_item-IsLegal "core.workspace")
        (λ current. then-IsLegal (set-IsLegal gui w.name _) (switch_workspace-IsLegal gui _))
  perform-IsLegal set_filter kwargs = set_and_state-IsLegal gui w _
  perform-IsLegal set_stats kwargs = set_and_state-IsLegal gui w _
  perform-IsLegal set_errbars kwargs = set_and_state-IsLegal gui w _
  perform-IsLegal set_reference kwargs = set_and_state-IsLegal gui w _
  perform-IsLegal set_strip_chart kwargs = set_and_state-IsLegal gui w _
  perform-IsLegal set_sub_menu kwargs = set_and_say-IsLegal gui w _ _
  perform-IsLegal set_search kwargs = set_and_state-IsLegal gui w _
  perform-IsLegal set_size kwargs = set_and_state-IsLegal gui w _
  perform-IsLegal play kwargs =
      Preserves-bind _ _ (get_item-IsLegal "core.workspace")
        (λ current. then-IsLegal (set-IsLegal gui w.name _) (switch_workspace-IsLegal gui _))
  perform-IsLegal set_root kwargs = set_root_method-IsLegal kwargs
  perform-IsLegal set_focus kwargs =
      then-IsLegal (focus_step-IsLegal gui w _) (save_and_state-IsLegal gui w)
  perform-IsLegal panel kwargs =
      then-IsLegal (check_panel-IsLegal kwargs _) (save_and_state-IsLegal gui w)
  perform-IsLegal set_jsonmode kwargs =
      then-IsLegal (set_mode-IsLegal _ _ (λ b. refl)) (save_and_state-IsLegal gui w)
  perform-IsLegal set_jsrootmode kwargs =
      then-IsLegal (set_mode-IsLegal _ _ (λ b. refl)) (save_and_state-IsLegal gui w)
  perform-IsLegal set_json_zoom kwargs =
      then-IsLegal
        (set_window-IsLegal _ _ _ _ kwargs (λ n. refl) (λ n. refl) (λ n. refl) (λ n. refl))
        (save_and_state-IsLegal gui w)
  perform-IsLegal set_zoom kwargs = then-IsLegal (set_flag-IsLegal _ _ _ (λ b. refl)) (
      then-IsLegal
        (set_window-IsLegal _ _ _ _ kwargs (λ n. refl) (λ n. refl) (λ n. refl) (λ n. refl))
        (save_and_state-IsLegal gui w))
  perform-IsLegal change_run kwargs = Preserves-bind _ _ (Preserves-gets _) λ answer.
      Preserves-bind _ _ (Preserves-lift _) λ next.
        then-IsLegal (put_item-IsLegal "dqm.sample.runnr" _ refl) (save_and_state-IsLegal gui w)
  perform-IsLegal set_cert_zoom kwargs = then-IsLegal (set_flag-IsLegal _ _ _ (λ b. refl)) (
      then-IsLegal
        (set_window-IsLegal _ _ _ _ kwargs (λ n. refl) (λ n. refl) (λ n. refl) (λ n. refl))
        (save_and_state-IsLegal gui w))
  perform-IsLegal state kwargs = session_state-IsLegal gui w
  perform-IsLegal core_workspace kwargs = switch_workspace-IsLegal gui _
  perform-IsLegal reset_workspace kwargs =
      then-IsLegal (put_item-IsLegal "dqm.play.prevws" _ refl) (
        then-IsLegal (put_item-IsLegal "dqm.play.pos" _ refl) (
          then-IsLegal (put_item-IsLegal "dqm.size" _ refl) (
            then-IsLegal (del_in-IsLegal "dqm.focus" w.name (λ f. refl)) (
              then-IsLegal (del_in-IsLegal "dqm.drawopts" w.name (λ f. refl)) (
                then-IsLegal (del_in-IsLegal "dqm.myobjs" w.name (λ f. refl))
                  (then-IsLegal (initialise_session-IsLegal w) (save_and_state-IsLegal gui w)))))))
  perform-IsLegal alter_image kwargs = Preserves-bind _ _ (Preserves-lift _) λ obj.
      Preserves-bind _ _ (Preserves-lift _) λ opt. Preserves-bind _ _ (Preserves-lift _) λ val.
        then-IsLegal (check_image-IsLegal obj opt val _ (alter_image-IsLegal val))
          (save_and_state-IsLegal gui w)
  perform-IsLegal shift_set_root kwargs = Preserves-bind _ _ (Preserves-lift _) (λ inside.
      Preserves-if inside _ _ (λ _. set_root_method-IsLegal kwargs) (λ _. state_of-IsLegal gui w))
  perform-IsLegal return kwargs = return_to-IsLegal "dqm.sample.prevws" refl
  perform-IsLegal modify kwargs = set_and_state-IsLegal gui w _
  perform-IsLegal select kwargs = Preserves-bind _ _ (Preserves-lift _) λ version.
      then-IsLegal (set-IsLegal gui w.name _) (return_to-IsLegal "dqm.sample.prevws" refl)
  perform-IsLegal stop kwargs = return_to-IsLegal "dqm.play.prevws" refl
  perform-IsLegal interval kwargs = set_and_state-IsLegal gui w _
  perform-IsLegal step kwargs = then-IsLegal (set-IsLegal gui w.name _) (
      Preserves-if (is_one_of ("yes" ∷ []) (Handlers.arg_or "move" (str "no") kwargs))
        (state_of gui w) (pure "Ta.") (λ _. state_of-IsLegal gui w) (λ _. Preserves-pure _))

-- From legal settings, every sequence of requests, accepted or refused, of any methods, workspaces
-- and parameters, ends in legal settings.
pub run_requests-IsLegal :
    (gui : Gui) (rs : List Request) (d : Desk) → IsLegal d → IsLegal (run_requests gui rs d)
unfolding run_requests
run_requests-IsLegal gui [] d h = h
run_requests-IsLegal gui (r ∷ rs) d h =
    run_requests-IsLegal gui rs _ ((perform-IsLegal gui r.current r.method r.kwargs).apply d h)
