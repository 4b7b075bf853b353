-- ===== src/Server.antt =====
-- The sessions of the server (`Server` of src/python/Core/GUI.py): the table of sessions with their
-- locks and the files they are loaded from, `_getSession`, `_releaseSession` and `session`. What
-- runs with the lock of the server held takes one step; where it raises with that lock held, the
-- lock is left in the state.
pub mod Names
pub mod Idle
pub mod Locks
pub mod Owners
pub mod Start
pub mod Purged
pub mod Started
use dqmgui_prod.Base.{
  ℕ, String, Bool, true, false, ◌||◌, ◌&&◌, Option, none, some, List, [], ◌∷◌, pos, is_alnum,
  nat_eq, ◌==◌, if◌then◌else◌, is_some,
}
use dqmgui_prod.Base.Dict
use dqmgui_prod.Exec.{
  Result, ok, raised, blocked, Exec, pure, raise, lift, try_finally, ◌>>=◌, ◌>>◌,
}
use dqmgui_prod.Regex.{Regex, chr, eos, seq, plus, matches}
use dqmgui_prod.Value.{Value, Fields, null, bool, num, str, list, dict, item, put, is_empty}
use dqmgui_prod.Workspace.Desk.{Desk}
use dqmgui_prod.Workspace.Params.{Gui}
use dqmgui_prod.Server.Names.{find_method}

-- A session: its data, and `core.lock`, which is created at the first request. `some true` is a lock
-- that a thread holds.
pub record Session : Type 0 where
  pub content : Fields
  pub lock : Option Bool

pub record Server : Type 0 where
  -- the lock of the server, which a thread may have left held
  pub locked : Bool
  pub sessions : List (String × Session)
  -- the files of the session directory, of which `none` cannot be loaded
  pub files : List (String × Option Fields)
  pub warnings : List (String × String)
  pub now : ℕ
  -- what the thread that saves sessions was handed
  pub saved : List Fields

-- `^[-A-Za-z0-9_]+$`
abbrev pub rx_session : Regex
rx_session = seq (plus (chr (λ c. is_alnum c || nat_eq c b'-' || nat_eq c b'_'))) eos

-- a session that is not in memory is loaded from its file
unfoldable pub load : String → Server → Server
load name s = if is_some (Dict.lookup name s.sessions) then s else elim (Dict.lookup name s.files) [
  | none ↦ s
  | some none ↦ s
  | some (some f) ↦ record s {
    sessions = Dict.insert name (record { content = f; lock = none }) s.sessions;
  }
]

-- `v == t`, of a value and a text
unfoldable pub is_text : String → Value → Bool
is_text t (str s) = s == t
is_text t null = false
is_text t (bool b) = false
is_text t (num n) = false
is_text t (list l) = false
is_text t (dict f) = false

-- `s["core.clientid"] == current and s["core.name"] == name`
unfoldable pub belongs : String → String → Fields → Result Bool
unfolding is_text item
belongs client name f = elim (item "core.clientid" f) [
  | raised e ↦ raised e
  | ok c ↦
      if is_text client c
      then elim (item "core.name" f) [ raised e ↦ raised e | ok n ↦ ok (is_text name n) ]
      else ok false
]

abbrev pub is_held : Option Bool → Bool
is_held none = false
is_held (some b) = b

-- the lock is acquired; a thread waits for ever for one that is never released
unfoldable pub acquire : String → Session → Exec Server Bool
unfolding pure raise
acquire name e s =
    if is_held e.lock
    then raise blocked s
    else pure true (record s {
      sessions =
          Dict.insert name
            (record { content = put "core.stamp" (num (pos s.now)) e.content; lock = some true })
            s.sessions;
    })

-- a session without any data is not one
unfoldable pub claim_session : String → String → Session → Exec Server Bool
unfolding pure raise lift ◌>>=◌
claim_session client name e s =
    (lift (belongs client name e.content) >>= λ mine. if mine then acquire name e else pure false) s

-- `_getSession`, of a request by a client; `true` is a session, which is then locked
unfoldable pub get_session : String → String → Exec Server Bool
unfolding pure load acquire claim_session
get_session client name s =
    if matches rx_session name
    then (let s' = load name s in
        elim (Dict.lookup name s'.sessions) [
          | none ↦ pure false s'
          | some e ↦ (if is_empty e.content then pure false s' else claim_session client name e s')
        ])
    else pure false s

-- `_releaseSession`
unfoldable pub release : String → Server → Server
release name s = elim (Dict.lookup name s.sessions) [
  | none ↦ s
  | some e ↦ record s {
    sessions = Dict.insert name (record { content = e.content; lock = some false }) s.sessions;
  }
]

-- What a request is answered with: a page that the URL is invalid, or what the method returned.
pub data Reply : Type 0 where
  invalid_url : Reply
  answer : String → Reply

-- A method works on the data of the session in place, so what it wrote stays where it raises.
unfoldable pub on_session : {A : Type 0} → String → Exec Desk A → Exec Server A
on_session name m s = elim (Dict.lookup name s.sessions) [
  | none ↦ (raised blocked, s)
  | some e ↦
      let before : Desk = record {
        session = e.content;
        warnings = s.warnings;
        now = s.now;
        saved = s.saved;
      } in
      let (r, after) = m before in
      (
        r,
        record s {
          sessions =
              Dict.insert name (record { content = after.session; lock = e.lock }) s.sessions;
          warnings = after.warnings;
          saved = after.saved;
        },
      )
]

-- `session`, of the parts of the path; where there is none, a session is begun. `page` is what the methods answer that draw up a page or a
-- profile.
module _ (gui : Gui) (page : String → Fields → Result String) (client : String) where
  unfoldable pub call_method : String → List String → Fields → Exec Server Reply
  unfolding ◌>>=◌ pure
  call_method name path kwargs = do
    found ← on_session name (find_method gui page path)
    elim found [
      | none ↦ pure invalid_url
      | some method ↦ on_session name (method kwargs) >>= λ text. pure (answer text)
    ]

  unfoldable pub session : Exec Server Reply → List String → Fields → Exec Server Reply
  unfolding try_finally ◌>>=◌ pure release
  session begin [] kwargs = begin
  session begin (name ∷ []) kwargs = do
    mine ← get_session client name
    if mine then try_finally (call_method name [] kwargs) (release name) else pure invalid_url
  session begin (name ∷ method ∷ []) kwargs = do
    mine ← get_session client name
    if mine
        then try_finally (call_method name (method ∷ []) kwargs) (release name)
        else pure invalid_url
  session begin (name ∷ method ∷ extra ∷ more) kwargs = pure invalid_url
