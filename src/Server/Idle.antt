-- ===== src/Server/Idle.antt =====
-- Which sessions are locked (src/python/Core/GUI.py), and what `_getSession` and `_releaseSession`
-- change of that.
use dqmgui_prod.Base.{
  String, Bool, true, false, ◌≡◌, refl, ◌∙◌, Option, none, some, ◌==◌, eq_iff, if◌then◌else◌,
  Bool-cases, Option-cases, inl, inr,
}
use dqmgui_prod.Base.Dict
use dqmgui_prod.Exec.{Result, ok, raised, pure, raise, lift, ◌>>=◌}
use mathlib.Core.Path.{subst}
use dqmgui_prod.Regex.{matches}
use dqmgui_prod.Value.{Fields, is_empty}
use dqmgui_prod.Server.{
  Session, Server, rx_session, load, belongs, is_held, acquire, claim_session, get_session, release,
}

abbrev pub held_at : Option Session → Bool
held_at none = false
held_at (some e) = is_held e.lock

-- nobody holds the lock of the server or of a session, or of another one than the session `name`
pub record IsIdle (s : Server) : Type 0 where
  pub unlocked : s.locked ≡ false
  pub at : (j : String) → held_at (Dict.lookup j s.sessions) ≡ false

pub record IsIdleBut (name : String) (s : Server) : Type 0 where
  pub unlocked : s.locked ≡ false
  pub at : (j : String) → (name == j) ≡ false → held_at (Dict.lookup j s.sessions) ≡ false

-- a session written at `name`
pub put-IsIdleBut :
    (name : String) (e : Session) (s s' : Server)
    → s'.sessions ≡ Dict.insert name e s.sessions
    → s'.locked ≡ s.locked
    → IsIdleBut name s
    → IsIdleBut name s'
put-IsIdleBut name e s s' written lock h = record {
  unlocked = lock ∙ h.unlocked;
  at = λ j other. rw (written, Dict.lookup-insert name j e s.sessions, other) (h.at j other);
}

free-IsIdle :
    (name : String) (e : Session) (s s' : Server)
    → s'.sessions ≡ Dict.insert name e s.sessions
    → s'.locked ≡ s.locked
    → is_held e.lock ≡ false
    → IsIdleBut name s
    → IsIdle s'
free-IsIdle name e s s' written lock free h = record {
  unlocked = lock ∙ h.unlocked;
  at = λ j. elim (Bool-cases (name == j)) [
    | inl same ↦ rw (written, Dict.lookup-insert name j e s.sessions, same) free
    | inr other ↦ rw (written, Dict.lookup-insert name j e s.sessions, other) (h.at j other)
  ];
}

IsIdle-weaken : (name : String) (s : Server) → IsIdle s → IsIdleBut name s
IsIdle-weaken name s h = record { unlocked = h.unlocked; at = λ j other. h.at j }

load-IsIdle : (name : String) (s : Server) → IsIdle s → IsIdle (load name s)
unfolding load
load-IsIdle name s h = elim (Option-cases (Dict.lookup name s.sessions)) [
  | inr (e, here) ↦ rw here h
  | inl gone ↦ rw gone (from_file (Dict.lookup name s.files))
]
  where
    from_file :
        (o : Option (Option Fields))
        → IsIdle (elim o [
          | none ↦ s
          | some none ↦ s
          | some (some f) ↦ record s {
            sessions = Dict.insert name (record { content = f; lock = none }) s.sessions;
          }
        ])
    from_file none = h
    from_file (some none) = h
    from_file (some (some f)) = free-IsIdle name _ s _ refl refl refl (IsIdle-weaken name s h)

-- what is left where a session is handed out, and else
abbrev pub Left : String → Result Bool × Server → Type 0
Left name (ok true, s) = IsIdleBut name s
Left name (ok false, s) = IsIdle s
Left name (raised e, s) = IsIdle s

acquire-Left : (name : String) (e : Session) (s : Server) → IsIdle s → Left name (acquire name e s)
unfolding acquire pure raise
acquire-Left name e s h = elim (Bool-cases (is_held e.lock)) [
  | inl held ↦ rw held h
  | inr free ↦ rw free (put-IsIdleBut name _ s _ refl refl (IsIdle-weaken name s h))
]

claim_session-Left :
    (client name : String) (e : Session) (s : Server)
    → IsIdle s
    → Left name (claim_session client name e s)
unfolding claim_session lift pure ◌>>=◌
claim_session-Left client name e s h = by_owner (belongs client name e.content)
  where
    by_owner :
        (r : Result Bool)
        → Left name
            (((λ (t : Server). (r, t)) >>= λ mine. if mine then acquire name e else pure false) s)
    by_owner (ok true) = acquire-Left name e s h
    by_owner (ok false) = h
    by_owner (raised x) = h

pub get_session-Left :
    (client name : String) (s : Server) → IsIdle s → Left name (get_session client name s)
unfolding get_session pure
get_session-Left client name s h = elim (Bool-cases (matches rx_session name)) [
  | inr bad ↦ rw bad h
  | inl good ↦ rw good (found (Dict.lookup name (load name s).sessions))
]
  where
    loaded : IsIdle (load name s)
    loaded = load-IsIdle name s h

    filled :
        (b : Bool) (e : Session)
        → Left name
            (if b then pure false (load name s) else claim_session client name e (load name s))
    filled true e = loaded
    filled false e = claim_session-Left client name e (load name s) loaded

    found :
        (o : Option Session)
        → Left name (elim o [
          | none ↦ pure false (load name s)
          | some e ↦
              (if is_empty e.content
                then pure false (load name s)
                else claim_session client name e (load name s))
        ])
    found none = loaded
    found (some e) = filled (is_empty e.content) e

pub release-IsIdle : (name : String) (s : Server) → IsIdleBut name s → IsIdle (release name s)
unfolding release
release-IsIdle name s h = released (Dict.lookup name s.sessions) refl
  where
    -- a name that has no session
    nobody : Dict.lookup name s.sessions ≡ none → IsIdle s
    nobody gone = record {
      unlocked = h.unlocked;
      at = λ j. elim (Bool-cases (name == j)) [
        | inl same ↦
            rw (subst (λ i. Dict.lookup i s.sessions ≡ none) ((eq_iff name j).0 same) gone) refl
        | inr other ↦ h.at j other
      ];
    }

    released :
        (o : Option Session)
        → Dict.lookup name s.sessions ≡ o
        → IsIdle (elim o [
          | none ↦ s
          | some e ↦ record s {
            sessions =
                Dict.insert name (record { content = e.content; lock = some false }) s.sessions;
          }
        ])
    released none gone = nobody gone
    released (some e) here = free-IsIdle name _ s _ refl refl refl h
