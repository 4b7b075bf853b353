-- ===== src/Workspace/Content.antt =====
-- The methods that the classes of workspaces add to `DQMWorkspace` (src/python/DQM/GUI.py): of
-- contents, of the shift, of the choice of samples and of the play mode.
use dqmgui_prod.Base.{String, some, [], ◌∷◌, pos, if◌then◌else◌}
use dqmgui_prod.Exec.{Exec, pure, lift, ◌>>=◌, ◌>>◌}
use dqmgui_prod.Value.{
  Value, Items, Fields, null, bool, num, str, list, dict, end, field, get, put, del, as_dict,
  is_empty,
}
use dqmgui_prod.Value
use dqmgui_prod.Workspace.Desk.{Desk, get_item, put_item, get_dict, del_in}
use dqmgui_prod.Workspace.Handlers.{arg_or, save_and_state, set_and_state, session_set_root}
use dqmgui_prod.Workspace.Initial.{
  initialise_session, shift_root, state_of, switch_workspace, value_starts_with,
}
use dqmgui_prod.Workspace.Params.{Step, Workspace, Gui, arg}
use dqmgui_prod.Workspace.Reference.{set}
use dqmgui_prod.Workspace.Image.{check_image, alter_options, int_of_value, is_one_of}

-- `kwargs[k]`
abbrev required : String → Fields → Exec Desk Value
required k kwargs = lift (Value.item k kwargs)

-- `session[k] = ""`, and on to the workspace that `k` named before
unfoldable pub return_to : Gui → String → Exec Desk String
return_to gui k = do prevws ← get_item k; put_item k (str ""); switch_workspace gui (some prevws)

module _ (gui : Gui) (w : Workspace) where
  -- of `DQMContentWorkspace`
  unfoldable pub session_reset_workspace : Exec Desk String
  session_reset_workspace = do
    put_item "dqm.play.prevws" (str "")
    put_item "dqm.play.pos" (num (pos 0))
    put_item "dqm.size" (str "M")
    del_in "dqm.focus" w.name
    del_in "dqm.drawopts" w.name
    del_in "dqm.myobjs" w.name
    initialise_session w
    save_and_state gui w

  unfoldable pub alter_image : Value → String → String → Step
  alter_image val obj opt = do
    drawopts ← get_dict "dqm.drawopts"
    altered ← lift (alter_options w.name obj opt val drawopts)
    put_item "dqm.drawopts" (dict altered)

  unfoldable pub session_alter_image : Fields → Exec Desk String
  session_alter_image kwargs = do
    obj ← required "o" kwargs
    opt ← required "opt" kwargs
    val ← required "value" kwargs
    check_image obj opt val (alter_image val)
    save_and_state gui w

  -- of `DQMShiftWorkspace`
  unfoldable pub shift_set_root : Fields → Exec Desk String
  shift_set_root kwargs = do
    inside ← lift (value_starts_with (arg_or "n" (str "") kwargs) shift_root)
    if inside then session_set_root gui w kwargs else state_of gui w

  -- of `DQMSampleWorkspace`
  unfoldable pub session_return : Exec Desk String
  session_return = return_to gui "dqm.sample.prevws"

  unfoldable pub session_modify : Fields → Exec Desk String
  session_modify kwargs = set_and_state gui w (
      field "samplevary" (arg "vary" kwargs) (
        field "sampleorder" (arg "order" kwargs) (
          field "samplepat" (arg "pat" kwargs)
            (field "sampledynsearch" (arg "dynsearch" kwargs) end))))

  unfoldable pub session_select : Fields → Exec Desk String
  session_select kwargs = do
    version ← lift (int_of_value (arg "importversion" kwargs))
    set gui w.name (
        field "sampletype" (arg "type" kwargs) (
          field "sampleimportversion" version
            (field "dataset" (arg "dataset" kwargs) (field "runnr" (arg "runnr" kwargs) end))))
    session_return

  -- of `DQMPlayWorkspace`
  unfoldable pub session_stop : Exec Desk String
  session_stop = return_to gui "dqm.play.prevws"

  unfoldable pub session_interval : Fields → Exec Desk String
  session_interval kwargs =
      set_and_state gui w (field "playinterval" (arg_or "v" (num (pos 5)) kwargs) end)

  unfoldable pub session_step : Fields → Exec Desk String
  session_step kwargs = do
    set gui w.name (field "playpos" (arg_or "pos" (num (pos 0)) kwargs) end)
    if is_one_of ("yes" ∷ []) (arg_or "move" (str "no") kwargs) then state_of gui w else pure "Ta."
