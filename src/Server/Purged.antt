-- ===== src/Server/Purged.antt =====
-- The purge of the old sessions (src/python/Core/GUI.py): what is left, and that no lock is left behind.
use dqmgui_prod.Base.{
  ℕ, ◌+◌, ltb, pos, arith, String, Bool, true, false, ◌≡◌, refl, ◌∙◌, sym, Option, none, some, List,
  [], ◌∷◌, ℤ, ◌==◌, eq_iff, if◌then◌else◌, Bool-cases, inl, inr, ap, sub_ℕ,
}
use dqmgui_prod.Base.Dict
use mathlib.Core.Path.{subst}
use dqmgui_prod.Exec.{Result, ok, raised, raise, blocked}
use dqmgui_prod.Value.{num, item}
use dqmgui_prod.Server.{Session, Server}
use dqmgui_prod.Server.Idle.{IsIdle, held_at}
use dqmgui_prod.Server.Start.{is_stale, is_before, purge, purge_sessions}

-- what is left of a session, if anything
abbrev keep_if : Result Bool → Session → Option Session
keep_if (raised x) e = some e
keep_if (ok true) e = none
keep_if (ok false) e = some e

keep_if-ok : (b : Bool) (e : Session) → keep_if (ok b) e ≡ (if b then none else some e)
keep_if-ok true e = refl
keep_if-ok false e = refl

abbrev kept : ℤ → Option Session → Option Session
kept old none = none
kept old (some e) = keep_if (is_stale old e) e

kept_fresh : (old : ℤ) (e : Session) → is_stale old e ≡ ok false → kept old (some e) ≡ some e
kept_fresh old e fresh = ap (λ r. keep_if r e) fresh

or_nil : Result (List (String × Session)) → List (String × Session)
or_nil (ok l) = l
or_nil (raised x) = []

-- what is left of the session with a name
lookup-kept :
    (old : ℤ) (d l : List (String × Session)) (j : String)
    → Dict.Distinct d
    → purge old d ≡ ok l
    → Dict.lookup j l ≡ kept old (Dict.lookup j d)
unfolding purge Dict.lookup or_nil
lookup-kept old [] l j distinct run = subst (λ m. Dict.lookup j m ≡ none) (ap or_nil run) refl
lookup-kept old ((name, e) ∷ d) l j (absent, distinct) run =
    by_stale (is_stale old e) refl (purge old d) refl
      (λ rest tail. lookup-kept old d rest j distinct tail) run
  where
    by_stale :
        (r : Result Bool)
        → is_stale old e ≡ r
        → (q : Result (List (String × Session))) → purge old d ≡ q
        → ((rest : List (String × Session))
            → purge old d ≡ ok rest
            → Dict.lookup j rest ≡ kept old (Dict.lookup j d))
        → elim r as (λ _. Result (List (String × Session))) [
          | raised x ↦ raised x
          | ok stale ↦ elim q as (λ _. Result (List (String × Session))) [
            | raised x ↦ raised x
            | ok rest ↦ ok (if stale then rest else (name, e) ∷ rest)
          ]
        ]
          ≡ ok l
        → Dict.lookup j l ≡ kept old (Dict.lookup j ((name, e) ∷ d))
    by_stale (raised x) same q tail ih done = cc
    by_stale (ok stale) same (raised x) tail ih done = cc
    by_stale (ok true) same (ok rest) tail ih done =
        let proof : Dict.lookup j rest ≡ kept old (if name == j then some e else Dict.lookup j d) =
          elim (Bool-cases (name == j)) [
            | inl here ↦
                let gone : Dict.lookup j d ≡ none =
                  subst (λ i. Dict.lookup i d ≡ none) ((eq_iff name j).0 here) absent in
                rw here (ih rest tail ∙ ap (kept old) gone ∙ sym (ap (λ r. keep_if r e) same))
            | inr other ↦ rw other (ih rest tail)
          ] in
        subst (λ m. Dict.lookup j m ≡ kept old (if name == j then some e else Dict.lookup j d))
          (ap or_nil done) proof
    by_stale (ok false) same (ok rest) tail ih done =
        let proof : (if name == j then some e else Dict.lookup j rest)
            ≡ kept old (if name == j then some e else Dict.lookup j d) =
          elim (Bool-cases (name == j)) [
            | inl here ↦ rw here (sym (kept_fresh old e same))
            | inr other ↦ rw other (ih rest tail)
          ] in
        subst (λ m. Dict.lookup j m ≡ kept old (if name == j then some e else Dict.lookup j d))
          (ap or_nil done) proof

-- what is dropped leaves no lock behind
held_at-kept : (old : ℤ) (o : Option Session) → held_at o ≡ false → held_at (kept old o) ≡ false
held_at-kept old none h = refl
held_at-kept old (some e) h = by_stale (is_stale old e)
  where
    by_stale : (r : Result Bool) → held_at (keep_if r e) ≡ false
    by_stale (raised x) = h
    by_stale (ok true) = refl
    by_stale (ok false) = h

-- the sessions of the server are listed once each
abbrev pub IsListed : Server → Type 0
IsListed s = Dict.Distinct s.sessions

-- a session that was last used at a given time
stale_lem :
    (e : Session) (now n : ℕ)
    → item "core.stamp" e.content ≡ ok (num (pos n))
    → is_stale (sub_ℕ now 900) e ≡ ok (ltb (n + 900) now)
unfolding is_stale is_before
stale_lem e now n used = rw (is_stale, used) (ap ok (ground arith))

-- Where the purge of the old sessions succeeds, and every session is listed once, a session that
-- was last used more than 900 seconds ago is gone, and one that was used since then is as it was.
pub lookup-purge :
    (s t : Server) (name : String) (e : Session) (n : ℕ)
    → Dict.Distinct s.sessions
    → purge_sessions s ≡ (ok tt, t)
    → Dict.lookup name s.sessions ≡ some e
    → item "core.stamp" e.content ≡ ok (num (pos n))
    → Dict.lookup name t.sessions ≡ (if ltb (n + 900) s.now then none else some e)
unfolding purge_sessions raise
lookup-purge s t name e n distinct run here used =
    by_purge s.locked (purge (sub_ℕ s.now 900) s.sessions) refl run
    ∙ ap (kept (sub_ℕ s.now 900)) here
    ∙ ap (λ r. keep_if r e) (stale_lem e s.now n used)
    ∙ keep_if-ok (ltb (n + 900) s.now) e
  where
    by_purge :
        (b : Bool) (r : Result (List (String × Session)))
        → purge (sub_ℕ s.now 900) s.sessions ≡ r
        → (if b then raise blocked s else elim r as (λ _. Result (Unit {0}) × Server) [
          | raised x ↦ (raised x, record s { locked = true })
          | ok left ↦ (ok tt, record s { sessions = left })
        ])
          ≡ (ok tt, t)
        → Dict.lookup name t.sessions ≡ kept (sub_ℕ s.now 900) (Dict.lookup name s.sessions)
    by_purge true r same done = cc
    by_purge false (raised x) same done = cc
    by_purge false (ok left) same done =
        subst
          (λ (u : Server).
            Dict.lookup name u.sessions ≡ kept (sub_ℕ s.now 900) (Dict.lookup name s.sessions))
          (ap (λ w. w.1) done) (lookup-kept (sub_ℕ s.now 900) s.sessions left name distinct same)

-- a purge that succeeds
purge_run :
    (s : Server) (left : List (String × Session))
    → s.locked ≡ false
    → purge (sub_ℕ s.now 900) s.sessions ≡ ok left
    → (purge_sessions s).1 ≡ record s { sessions = left }
unfolding purge_sessions
purge_run s left free run = ap (λ w. w.1) (by_test s.locked free)
  where
    by_test :
        (b : Bool)
        → b ≡ false
        → (if b
            then raise blocked s
            else elim (purge (sub_ℕ s.now 900) s.sessions) as (λ _. Result (Unit {0}) × Server) [
              | raised x ↦ (raised x, record s { locked = true })
              | ok left ↦ (ok tt, record s { sessions = left })
            ])
          ≡ (ok tt, record s { sessions = left })
    by_test true h = cc
    by_test false h = rw run refl

pub purge_sessions-IsIdle :
    (s : Server) (left : List (String × Session))
    → IsListed s
    → purge (sub_ℕ s.now 900) s.sessions ≡ ok left
    → IsIdle s
    → IsIdle (purge_sessions s).1
unfolding purge_sessions
purge_sessions-IsIdle s left listed run h =
    subst IsIdle (sym (purge_run s left h.unlocked run)) (record {
      unlocked = h.unlocked;
      at = λ j.
          rw (lookup-kept (sub_ℕ s.now 900) s.sessions left j listed run)
            (held_at-kept (sub_ℕ s.now 900) (Dict.lookup j s.sessions) (h.at j));
    })
