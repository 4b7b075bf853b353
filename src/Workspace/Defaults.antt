-- ===== src/Workspace/Defaults.antt =====
-- `DQMWorkspace.initialiseSession` (src/python/DQM/GUI.py): what the defaults leave in a session.
use dqmgui_prod.Base.{
  String, ◌≡◌, refl, Option, none, some, ◌==◌, eq_iff, is_some, if◌then◌else◌, Bool-cases,
  Option-cases, inl, inr,
}
use mathlib.Core.Path.{subst}
use dqmgui_prod.Value.{Value, Fields, field, end, get, put}
use dqmgui_prod.Value.Laws.{get-put}
use dqmgui_prod.Workspace.Initial.{set_missing}

-- the value that a session has, and else the other one
abbrev pub first_of : Option Value → Option Value → Option Value
first_of none v = v
first_of (some w) v = some w

-- a default that the session lacks is written under its own key
get-default :
    (k var : String) (value : Value) (defs session : Fields)
    → first_of
        (get k (if is_some (get var session) then session else put var value session))
        (get k defs)
      ≡ first_of (get k session) (get k (field var value defs))
unfolding get
get-default k var value defs session = elim (Option-cases (get var session)) [
  | inl gone ↦ elim (Bool-cases (var == k)) [
    | inl same ↦
        let missing = subst (λ i. get i session ≡ none) ((eq_iff var k).0 same) gone in
        rw (gone, get-put var k value session, same, missing) refl
    | inr other ↦ rw (gone, get-put var k value session, other) refl
  ]
  | inr (w, here) ↦ elim (Bool-cases (var == k)) [
    | inl same ↦
        let present = subst (λ i. get i session ≡ some w) ((eq_iff var k).0 same) here in
        rw (here, present) refl
    | inr other ↦ rw (here, other) refl
  ]
]

-- After the defaults are set, a key has the value that the session gave it before, and a key that
-- the session did not have has its default, or none.
pub get-set_missing :
    (k : String) (defs session : Fields)
    → get k (set_missing defs session) ≡ first_of (get k session) (get k defs)
unfolding set_missing get
get-set_missing k end session = elim (Option-cases (get k session)) [
  | inl gone ↦ rw gone refl
  | inr (w, here) ↦ rw here refl
]
get-set_missing k (field var value defs) session =
    rw (get-set_missing k defs) (get-default k var value defs session)
