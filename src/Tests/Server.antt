-- ===== src/Tests/Server.antt =====
-- Requests to a session of the server (src/python/Core/GUI.py).
use dqmgui_prod.Base.{List, true, false, ◌≡◌, refl, none, some, [], ◌∷◌}
use dqmgui_prod.Base.Dict
use dqmgui_prod.Exec.{Exec, ok}
use dqmgui_prod.Value.{Fields, str, nil, end, field}
use dqmgui_prod.Workspace.Params.{Kind, Workspace, Gui}
use dqmgui_prod.Server.{Session, Server, session}
use dqmgui_prod.SessionThread
use dqmgui_prod.SessionThread.{
  Writer, Step, save_call, stop_call, run_step, record_session, stop, advance, after, run_steps,
}
use dqmgui_prod.SessionThread.Kept.{is_kept, run_steps-kept}

abbrev everything : Workspace
everything = record { name = "Everything"; kind = Kind.content; contents = nil }

abbrev gui : Gui
gui = record {
  workspaces = everything ∷ [];
  sampletype = λ s. none;
  state = λ name session. ok name;
  change_run = λ name session forward. ok (str "1");
}

abbrev kept : Session
kept = record {
  content =
      field "core.name" (str "s1")
        (field "core.clientid" (str "alice") (field "core.workspace" (str "Everything") end));
  lock = some false;
}

abbrev server : Server
server = record {
  locked = false;
  sessions = ("s1", kept) ∷ [];
  files = [];
  warnings = [];
  now = 5;
  saved = [];
}

abbrev first_data : Fields
first_data = field "core.name" (str "s1") (field "dqm.size" (str "S") end)

abbrev second_data : Fields
second_data = field "core.name" (str "s1") (field "dqm.size" (str "XL") end)

abbrev steps : List Step
steps =
    save_call "s1" first_data
    ∷ run_step true
    ∷ run_step true
    ∷ save_call "s1" second_data
    ∷ stop_call
    ∷ run_step true
    ∷ run_step false
    ∷ run_step true
    ∷ []

-- a rename that fails in the last round takes the file of a session away for good
lost_file : (run_steps steps (SessionThread.init [])).files ≡ []
unfolding run_steps after record_session stop advance SessionThread.init Dict.insert Dict.remove
lost_file = refl

-- a rename that fails puts an old state over a newer one that is to be written
abbrev race : List Step
race = save_call "s1" first_data ∷ run_step true ∷ save_call "s1" second_data ∷ run_step false ∷ []

old_over_new : (run_steps race (SessionThread.init [])).save ≡ ("s1", first_data) ∷ []
unfolding run_steps after record_session stop advance SessionThread.init Dict.insert Dict.remove
old_over_new = refl

run_steps-kept_example :
    is_kept "s2" (run_steps race (SessionThread.init (("s2", first_data) ∷ []))) ≡ true
unfolding run_steps after record_session advance SessionThread.init Dict.lookup Dict.insert
run_steps-kept_example =
    run_steps-kept "s2" race (SessionThread.init (("s2", first_data) ∷ [])) refl refl
