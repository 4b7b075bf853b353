-- ===== src/Server/Start.antt =====
-- New sessions: `_newSession`, `start` and `workspace` of src/python/Core/GUI.py.
use dqmgui_prod.Base.{
  String, Bool, true, false, Option, none, some, List, [], ◌∷◌, concat, chars, split, starts_with,
  same_lower, if◌then◌else◌, not, or_else, pos, ℤ, ltb_ℤ, sub_ℕ, pack, contains,
}
use dqmgui_prod.Base.Dict
use dqmgui_prod.Exec.{
  Result, ok, raised, blocked, index_error, type_error, Exec, pure, raise, lift, modify, ◌>>=◌,
  ◌>>◌, when,
}
use dqmgui_prod.Value.{Value, Fields, null, bool, num, str, list, dict, end, field, get, item}
use dqmgui_prod.Workspace.Desk.{Desk, put_item, save_session}
use dqmgui_prod.Workspace.Params.{Workspace, Gui}
use dqmgui_prod.Workspace.Handlers
use dqmgui_prod.Workspace.Initial.{initialise_session, first_workspace, select_workspace}
use dqmgui_prod.Server.{
  Session, Server, Reply, invalid_url, answer, get_session, on_session, release, session,
}

-- `s["core.stamp"] < old`
unfoldable pub is_before : ℤ → Value → Result Bool
is_before old (num n) = ok (ltb_ℤ n old)
is_before old (bool b) = ok (ltb_ℤ (pos (if b then 1 else 0)) old)
is_before old null = raised type_error
is_before old (str s) = raised type_error
is_before old (list l) = raised type_error
is_before old (dict f) = raised type_error

unfoldable pub is_stale : ℤ → Session → Result Bool
unfolding is_before item
is_stale old e = elim (item "core.stamp" e.content) [
  | raised x ↦ raised x
  | ok stamp ↦ is_before old stamp
]

-- the sessions that were not used since `old` are dropped
unfoldable pub purge : ℤ → List (String × Session) → Result (List (String × Session))
unfolding is_stale
purge old [] = ok []
purge old ((name, e) ∷ d) = elim (is_stale old e) [
  | raised x ↦ raised x
  | ok stale ↦ elim (purge old d) [
    | raised x ↦ raised x
    | ok rest ↦ ok (if stale then rest else (name, e) ∷ rest)
  ]
]

-- The lock of the server is not released where the comparison of a session's time raises.
unfoldable pub purge_sessions : Exec Server (Unit {0})
unfolding purge raise
purge_sessions s = if s.locked then raise blocked s else elim (purge (sub_ℕ s.now 900) s.sessions) [
  | raised x ↦ (raised x, record s { locked = true })
  | ok left ↦ (ok tt, record s { sessions = left })
]

-- `re.findall(r"/CN=([^/]+)", user)`, by the parts of the text between its slashes
unfoldable pub names_in : List String → List String
names_in [] = []
names_in (part ∷ parts) = elim (chars part) [
  | [] ↦ names_in parts
  | c ∷ cs ↦ elim cs [
    | [] ↦ names_in parts
    | n ∷ cs ↦ elim cs [
      | [] ↦ names_in parts
      | e ∷ cs ↦ elim cs [
        | [] ↦ names_in parts
        | x ∷ cs ↦ if starts_with part "CN=" then pack (x ∷ cs) ∷ names_in parts else names_in parts
      ]
    ]
  ]
]

unfoldable pub common_names : String → List String
unfolding names_in
common_names user = elim (split b'/' user) [ [] ↦ [] | before ∷ parts ↦ names_in parts ]

-- the first name with a space in it, if there is one, or else the first name
unfoldable pub neat_name : List String → Option String
neat_name [] = none
neat_name (n ∷ ns) = if contains (chars " ") (chars n) then some n else neat_name ns

unfoldable pub last_of : String → List String → String
last_of s [] = s
last_of s (t ∷ ts) = last_of t ts

-- `core.user`, of the identity of the client
unfoldable pub user_of : String → Result String
unfolding common_names neat_name last_of
user_of client =
    if starts_with client "CMS-AUTH-CERT"
    then elim (common_names client) [
      | [] ↦ raised index_error
      | n ∷ ns ↦ ok (or_else (neat_name (n ∷ ns)) n)
    ]
    else if starts_with client "CMS-AUTH-HOST"
    then ok (concat "Console " (last_of "" (split b' ' client)))
    else ok (concat "Host " client)

-- the defaults from every workspace, in order
unfoldable pub initialise_all : String → List Workspace → Exec Desk (Unit {0})
unfolding initialise_session put_item
initialise_all workspace [] d = (ok tt, d)
initialise_all workspace (w ∷ ws) d =
    (when (same_lower w.name workspace) (put_item "core.workspace" (str w.name))
        >> initialise_session w
        >> initialise_all workspace ws)
      d

-- `client` is `_sessionClientData()`, `new_name` the name that `mkstemp` picks, and `prepare` what the
-- sources' `prepareSession` does to a session.
module _ (gui : Gui) (prepare : Fields → Result Fields) (new_name : Server → String)
    (client : String) where
  unfoldable pub prepare_session : Exec Desk (Unit {0})
  prepare_session d = elim (prepare d.session) [
    | raised x ↦ (raised x, d)
    | ok f ↦ (ok tt, record d { session = f })
  ]

  -- the session's data, up to `_saveSession`
  unfoldable pub fill_session : String → String → Exec Desk (Unit {0})
  unfolding user_of initialise_all prepare_session save_session put_item
  fill_session name workspace = do
    put_item "core.name" (str name)
    put_item "core.clientid" (str client)
    put_item "core.public" (bool false)
    first ← lift (first_workspace gui.workspaces)
    put_item "core.workspace" (str first.name)
    user ← lift (user_of client)
    put_item "core.user" (str user)
    initialise_all workspace gui.workspaces
    prepare_session
    save_session

  -- `_saveSession` puts the session into the table, unless something before it raised
  unfoldable pub keep_session : String → Result (Unit {0}) × Desk → Exec Server (Unit {0})
  keep_session name (raised x, after) s =
      (raised x, record s { warnings = after.warnings; saved = after.saved })
  keep_session name (ok u, after) s = (
    ok tt,
    record s {
      sessions = Dict.insert name (record { content = after.session; lock = none }) s.sessions;
      warnings = after.warnings;
      saved = after.saved;
    },
  )

  unfoldable pub add_session : String → String → Exec Server (Unit {0})
  unfolding fill_session keep_session
  add_session name workspace s =
      keep_session name
        (fill_session name workspace
          (record { session = end; warnings = s.warnings; now = s.now; saved = s.saved }))
        s

  -- `mkstemp`: the file that it leaves is empty, so it cannot be loaded
  unfoldable pub make_file : Exec Server String
  make_file s = (ok (new_name s), record s { files = Dict.insert (new_name s) none s.files })

  -- `_newSession`
  unfoldable pub new_session : String → Exec Server String
  unfolding purge_sessions add_session make_file
  new_session workspace = do purge_sessions; name ← make_file; add_session name workspace; pure name

  unfoldable pub set_up : Workspace → Fields → String → Exec Server (Unit {0})
  unfolding on_session save_session Handlers.start
  set_up w kwargs name =
      on_session name (Handlers.start gui w kwargs) >> on_session name save_session

  -- Where there is no session, the workspace gets `None`, which has no items.
  unfoldable pub start_in : Workspace → Fields → String → Exec Server Reply
  unfolding get_session release set_up
  start_in w kwargs name = do
    mine ← get_session client name
    when (not mine) (raise type_error)
    set_up w kwargs name
    modify (release name)
    pure (answer name)

  -- `start`, of the parts of the path; the answer is a redirection to the session
  unfoldable pub start : List String → Fields → Exec Server Reply
  unfolding new_session start_in
  start [] kwargs = do
    first ← lift (first_workspace gui.workspaces)
    w ← lift (select_workspace gui (or_else (get "workspace" kwargs) (str first.name)))
    name ← new_session w.name
    start_in w kwargs name
  start (arg ∷ args) kwargs = pure invalid_url

  -- `workspace`
  unfoldable pub workspace : List String → Exec Server Reply
  unfolding start
  workspace path = do
    first ← lift (first_workspace gui.workspaces)
    w ← lift (elim path [
      | [] ↦ ok first
      | name ∷ more ↦ elim more [ [] ↦ select_workspace gui (str name) | m ∷ ms ↦ ok first ]
    ])
    start [] (field "workspace" (str w.name) end)

  -- where `session` has no path: a session is started in the first workspace
  unfoldable pub begin : Exec Server Reply
  unfolding start
  begin = do
    first ← lift (first_workspace gui.workspaces)
    start [] (field "workspace" (str first.name) end)

  -- `session`, all of it
  unfoldable pub visit :
      (String → Fields → Result String) → List String → Fields → Exec Server Reply
  unfolding session begin
  visit page path kwargs = session gui page client begin path kwargs
