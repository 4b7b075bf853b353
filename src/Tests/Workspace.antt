-- ===== src/Tests/Workspace.antt =====
-- The workspaces (src/python/DQM/GUI.py) on a session with the defaults.
use dqmgui_prod.Base.{String, true, ◌≡◌, refl, none, List, [], ◌∷◌, member}
use dqmgui_prod.Exec.{ok, raised, http}
use dqmgui_prod.Value.{Fields, str, nil, end, field, get}
use dqmgui_prod.Regex.{matches, at_end}
use dqmgui_prod.Regex.Classes.{ends_in}
use dqmgui_prod.Workspace.Defaults.{first_of, get-set_missing}
use dqmgui_prod.Workspace.Desk.{Desk, is_object_char, is_warned, check_object_name}
use dqmgui_prod.Workspace.Initial.{sessiondef, set_missing}
use dqmgui_prod.Workspace.Legal.{IsLegal, legal_at, legal_value}
use dqmgui_prod.Workspace.Legal.Every.{run_requests-IsLegal}
use dqmgui_prod.Workspace.Legal.Methods.{all_legal, set_missing-legal}
use dqmgui_prod.Workspace.Names.{check_object_name_twice, warned_about}
use dqmgui_prod.Workspace.Params.{Kind, Workspace, Gui}
use dqmgui_prod.Workspace.Requests.{Method, Request, run_requests}

abbrev everything : Workspace
everything = record { name = "Everything"; kind = Kind.content; contents = nil }

abbrev play_room : Workspace
play_room = record { name = "Play"; kind = Kind.play; contents = nil }

abbrev gui : Gui
gui = record {
  workspaces = everything ∷ play_room ∷ [];
  sampletype = λ s. none;
  state = λ name session. ok name;
  change_run = λ name session forward. ok (str "1");
}

abbrev identity : Fields
identity = field "core.name" (str "s1") (field "core.workspace" (str "Everything") end)

abbrev named : Fields
named = set_missing identity end

abbrev fresh : Desk
fresh = record { session = set_missing sessiondef named; warnings = []; now = 7; saved = [] }

fresh-IsLegal : IsLegal fresh
unfolding member matches get all_legal legal_value
fresh-IsLegal = record { at = set_missing-legal sessiondef named defaults others }
  where
    defaults : all_legal sessiondef ≡ true
    defaults = refl

    others : (j : String) → legal_at j (get j named) ≡ true
    others = set_missing-legal identity end (refl) (λ j. refl)

abbrev requests : List Request
requests =
    (record {
      current = everything;
      method = Method.set_filter;
      kwargs = field "n" (str "alarms") end;
    })
    ∷ (record {
      current = everything;
      method = Method.set_size;
      kwargs = field "size" (str "XXL") end;
    })
    ∷ (record { current = everything; method = Method.play; kwargs = end })
    ∷ (record {
      current = play_room;
      method = Method.interval;
      kwargs = field "v" (str "1000") end;
    })
    ∷ []

run_requests-IsLegal_example : IsLegal (run_requests gui requests fresh)
run_requests-IsLegal_example = run_requests-IsLegal gui requests fresh fresh-IsLegal

check_object_name_twice_example :
    ((check_object_name "Play" "a<b" fresh).0 ≡ raised (http 500 "Attempt to access unsafe object"))
    × (check_object_name "Play" "a<b" (check_object_name "Play" "a<b" fresh).1
        ≡ (ok "a<b", warned_about "Play" "a<b" fresh))
unfolding ends_in is_object_char is_warned at_end
check_object_name_twice_example = check_object_name_twice "Play" "a<b" fresh refl refl

get-set_missing_example :
    get "dqm.size" (set_missing sessiondef identity)
    ≡ first_of (get "dqm.size" identity) (get "dqm.size" sessiondef)
get-set_missing_example = get-set_missing "dqm.size" sessiondef identity
