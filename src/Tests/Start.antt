-- ===== src/Tests/Start.antt =====
-- Starts of sessions (src/python/Core/GUI.py).
use dqmgui_prod.Base.{
  ◌+◌, ltb, String, Bool, true, false, ◌≡◌, refl, none, some, [], ◌∷◌, ◌==◌, if◌then◌else◌, pos, ℤ,
}
use dqmgui_prod.Base.Dict
use dqmgui_prod.Exec.{Result, ok}
use dqmgui_prod.Value.{Fields, str, num, nil, end, field, get, item}
use dqmgui_prod.Workspace.Params.{Kind, Workspace, Gui}
use dqmgui_prod.Server.{Session, Server}
use dqmgui_prod.Server.Idle.{IsIdle, held_at}
use dqmgui_prod.Server.Start.{purge, purge_sessions, start}
use dqmgui_prod.Server.Purged.{lookup-purge}
use dqmgui_prod.Server.Started.{Settled, start-Settled}

abbrev everything : Workspace
everything = record { name = "Everything"; kind = Kind.content; contents = nil }

abbrev gui : Gui
gui = record {
  workspaces = everything ∷ [];
  sampletype = λ s. none;
  state = λ name session. ok name;
  change_run = λ name session forward. ok (str "1");
}

prepare : Fields → Result Fields
prepare f = ok f

new_name : Server → String
new_name s = "s2"

at : ℤ → Session
at n = record { content = field "core.stamp" (num n) end; lock = some false }

abbrev server : Server
server = record {
  locked = false;
  sessions = ("old", at (pos 50)) ∷ ("new", at (pos 1900)) ∷ [];
  files = [];
  warnings = [];
  now = 2000;
  saved = [];
}

abbrev purged : Server
purged = record server { sessions = ("new", at (pos 1900)) ∷ [] }

-- the session was used more than 900 seconds ago
lookup-purge_example :
    Dict.lookup "old" purged.sessions ≡ (if ltb (50 + 900) 2000 then none else some (at (pos 50)))
unfolding Dict.lookup purge_sessions at get item
lookup-purge_example =
    lookup-purge server purged "old" (at (pos 50)) 50 (refl, (refl, tt)) refl refl refl

server-IsIdle : IsIdle server
unfolding at Dict.lookup
server-IsIdle = record { unlocked = refl; at = λ j. idle ("old" == j) ("new" == j) }
  where
    idle :
        (a b : Bool)
        → held_at (if a then some (at (pos 50)) else if b then some (at (pos 1900)) else none)
          ≡ false
    idle true b = refl
    idle false true = refl
    idle false false = refl

start-Settled_example :
    Settled (start gui prepare new_name "alice" [] (field "filter" (str "all") end) server)
unfolding Dict.lookup purge at get
start-Settled_example =
    start-Settled gui prepare new_name "alice" [] (field "filter" (str "all") end) server
      (("new", at (pos 1900)) ∷ []) (refl, (refl, tt)) refl server-IsIdle
