-- ===== src/Server/Started.antt =====
-- What the start of a session (src/python/Core/GUI.py) does to the others: old ones are dropped, and
-- no lock is held in the end but that of a session whose start raises.
use dqmgui_prod.Base.{
  String, Bool, true, false, ◌≡◌, refl, ◌∙◌, sub_ℕ, none, List, [], ◌∷◌, ◌==◌, Bool-cases, inl, inr,
  or_else, not,
}
use dqmgui_prod.Base.Dict
use dqmgui_prod.Exec.{
  Result, ok, raised, Exec, pure, raise, lift, modify, ◌>>=◌, when, continue, type_error,
}
use dqmgui_prod.Exec.Preserves.{Preserves, Preserves-bind}
use dqmgui_prod.Value.{Fields, str, get}
use dqmgui_prod.Workspace.Params.{Workspace, Gui}
use dqmgui_prod.Workspace.Desk.{Desk, save_session}
use dqmgui_prod.Workspace.Handlers
use dqmgui_prod.Workspace.Initial.{first_workspace, select_workspace}
use dqmgui_prod.Server.{Session, Server, Reply, get_session, release, answer}
use dqmgui_prod.Server.Idle.{IsIdle, IsIdleBut, Left, get_session-Left, release-IsIdle}
use dqmgui_prod.Server.Locks.{on_session-IsIdleBut}
use dqmgui_prod.Server.Purged.{IsListed, purge_sessions-IsIdle}
use dqmgui_prod.Server.Start.{
  purge, purge_sessions, add_session, new_session, start_in, start, set_up, keep_session, make_file,
}

-- a new session is not locked
insert-IsIdle :
    (name : String) (e : Session) (s s' : Server)
    → s'.sessions ≡ Dict.insert name e s.sessions
    → s'.locked ≡ s.locked
    → e.lock ≡ none
    → IsIdle s
    → IsIdle s'
insert-IsIdle name e s s' written lock free h = record {
  unlocked = lock ∙ h.unlocked;
  at = λ j. elim (Bool-cases (name == j)) [
    | inl same ↦ rw (written, Dict.lookup-insert name j e s.sessions, same, free) refl
    | inr other ↦ rw (written, Dict.lookup-insert name j e s.sessions, other) (h.at j)
  ];
}

-- the outcome of a start: no lock is held, or it raised and at most that of one session, and not the
-- server's
abbrev pub Settled : Result Reply × Server → Type 0
Settled (ok r, s) = IsIdle s
Settled (raised x, s) = (name : String) × IsIdleBut name s

idle-Settled : (r : Result Reply) (s : Server) → IsIdle s → Settled (r, s)
idle-Settled (ok r) s h = h
idle-Settled (raised x) s h = ("", record { unlocked = h.unlocked; at = λ j other. h.at j })

bind-Settled :
    {A : Type 0} (P : Server → Type 0) (m : Exec Server A) (f : A → Exec Server Reply) (s : Server)
    → P (m s).1
    → ((t : Server) → P t → IsIdle t)
    → ((a : A) (t : Server) → P t → Settled (f a t))
    → Settled ((m >>= f) s)
unfolding ◌>>=◌
bind-Settled {A = A} P m f s h idle next = go (m s) h
  where
    go : (w : Result A × Server) → P w.1 → Settled (continue w.0 f w.1)
    go (ok a, t) h = next a t h
    go (raised x, t) h = idle-Settled (raised x) t (idle t h)

-- the sessions are listed once each, and their purge succeeds
abbrev IsFresh : Server → Type 0
IsFresh s =
    (left : List (String × Session)) × IsListed s × (purge (sub_ℕ s.now 900) s.sessions ≡ ok left)

module _ (gui : Gui) (prepare : Fields → Result Fields) (new_name : Server → String)
    (client : String) where
  keep_session-IsIdle :
      (name : String) (w : Result (Unit {0}) × Desk) (s : Server)
      → IsIdle s
      → IsIdle (keep_session gui prepare new_name client name w s).1
  unfolding keep_session
  keep_session-IsIdle name (raised x, after) s h = record {
    unlocked = h.unlocked;
    at = λ j. h.at j;
  }
  keep_session-IsIdle name (ok u, after) s h = insert-IsIdle name _ s _ refl refl refl h

  new_session-IsIdle :
      (workspace : String) (s : Server)
      → IsFresh s
      → IsIdle s
      → IsIdle (new_session gui prepare new_name client workspace s).1
  unfolding new_session ◌>>=◌ pure make_file add_session
  new_session-IsIdle workspace s (left, listed, run) h =
      purged (purge_sessions s) (purge_sessions-IsIdle s left listed run h)
    where
      added :
          (w : Result (Unit {0}) × Server) (name : String)
          → IsIdle w.1
          → IsIdle (continue w.0 (λ u. pure name) w.1).1
      added (ok u, t) name h = h
      added (raised x, t) name h = h

      purged :
          (w : Result (Unit {0}) × Server)
          → IsIdle w.1
          → IsIdle
              (continue w.0
                (λ u. make_file gui prepare new_name client >>= λ name.
                  add_session gui prepare new_name client name workspace >>= λ v. pure name)
                w.1).1
      purged (ok u, t) h =
          let t' : Server = record t { files = Dict.insert (new_name t) none t.files } in
          added (add_session gui prepare new_name client (new_name t) workspace t') (new_name t) (
            keep_session-IsIdle (new_name t) _ t'
              (record { unlocked = h.unlocked; at = λ j. h.at j }))
      purged (raised x, t) h = h

  set_up-IsIdleBut :
      (w : Workspace) (kwargs : Fields) (name : String)
      → Preserves (IsIdleBut name) (set_up gui prepare new_name client w kwargs name)
  unfolding set_up
  set_up-IsIdleBut w kwargs name =
      Preserves-bind _ _ (on_session-IsIdleBut name (Handlers.start gui w kwargs))
        (λ u. on_session-IsIdleBut name save_session)

  -- the session is found and locked, set up and released
  start_in-Settled :
      (w : Workspace) (kwargs : Fields) (name : String) (s : Server)
      → IsIdle s
      → Settled (start_in gui prepare new_name client w kwargs name s)
  unfolding start_in ◌>>=◌ modify pure raise when
  start_in-Settled w kwargs name s h =
      found (get_session client name s) (get_session-Left client name s h)
    where
      done :
          (r : Result (Unit {0}) × Server)
          → IsIdleBut name r.1
          → Settled (continue r.0 (λ u. modify (release name) >>= λ v. pure (answer name)) r.1)
      done (ok u, t) h = release-IsIdle name t h
      done (raised x, t) h = (name, h)

      found :
          (r : Result Bool × Server)
          → Left name r
          → Settled (
              continue r.0
                (λ mine. when (not mine) (raise type_error) >>= λ u.
                  set_up gui prepare new_name client w kwargs name >>= λ u.
                  modify (release name) >>= λ v. pure (answer name))
                r.1)
      found (ok true, t) h =
          done (set_up gui prepare new_name client w kwargs name t)
            ((set_up-IsIdleBut w kwargs name).apply t h)
      found (ok false, t) h = idle-Settled (raised type_error) t h
      found (raised x, t) h = idle-Settled (raised x) t h

  -- Where no thread holds the lock of the server or of a session, every session is listed once,
  -- and the purge of the old sessions succeeds, a start of a session that answers leaves no lock
  -- held, and one that raises, at any step, at most that of one session, and not the server's.
  pub start-Settled :
      (path : List String) (kwargs : Fields) (s : Server) (left : List (String × Session))
      → IsListed s
      → purge (sub_ℕ s.now 900) s.sessions ≡ ok left
      → IsIdle s
      → Settled (start gui prepare new_name client path kwargs s)
  unfolding start lift pure
  start-Settled [] kwargs s left listed run h =
      let P : Server → Type 0 = λ t. IsFresh t × IsIdle t in
      let fresh : IsFresh s = (left, listed, run) in
      bind-Settled P (lift (first_workspace gui.workspaces)) _ s (fresh, h) (λ t k. k.1)
        λ first t k.
          bind-Settled P
            (lift (select_workspace gui (or_else (get "workspace" kwargs) (str first.name)))) _ t k
            (λ t k. k.1)
            λ w t k.
              bind-Settled IsIdle (new_session gui prepare new_name client w.name) _ t
                (new_session-IsIdle w.name t k.0 k.1) (λ t k. k)
                λ name t k. start_in-Settled w kwargs name t k
  start-Settled (arg ∷ args) kwargs s left listed run h = h
