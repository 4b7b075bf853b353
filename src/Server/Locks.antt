-- ===== src/Server/Locks.antt =====
-- The locks of the sessions (src/python/Core/GUI.py): a request leaves none behind.
use dqmgui_prod.Base.{String, refl, Option, none, some}
use dqmgui_prod.Base.Dict
use dqmgui_prod.Exec.{Result, raised, Exec, blocked}
use dqmgui_prod.Exec.Preserves.{Preserves}
use dqmgui_prod.Workspace.Desk.{Desk}
use dqmgui_prod.Server.{Session, Server, on_session, session}
use dqmgui_prod.Server.Idle.{IsIdleBut, put-IsIdleBut}

pub on_session-IsIdleBut :
    {A : Type 0} (name : String) (m : Exec Desk A) → Preserves (IsIdleBut name) (on_session name m)
unfolding on_session
on_session-IsIdleBut {A = A} name m = record {
  apply = λ s h. written (Dict.lookup name s.sessions) s h;
}
  where
    before : Session → Server → Desk
    before e s = record { session = e.content; warnings = s.warnings; now = s.now; saved = s.saved }

    written :
        (o : Option Session) (s : Server)
        → IsIdleBut name s
        → IsIdleBut name
            (elim o as (λ _. Result A × Server) [
              | none ↦ (raised blocked, s)
              | some e ↦
                  let (r, after) = m (before e s) in
                  (
                    r,
                    record s {
                      sessions =
                          Dict.insert name
                            (record { content = after.session; lock = e.lock })
                            s.sessions;
                      warnings = after.warnings;
                      saved = after.saved;
                    },
                  )
            ]).1
    written none s h = h
    written (some e) s h = put-IsIdleBut name _ s _ refl refl h
