-- ===== src/Workspace/Legal/Methods.antt =====
-- Every session method of the workspaces (src/python/DQM/GUI.py) keeps the settings of a session
-- legal, and so does every sequence of requests.
use dqmgui_prod.Base.{
  String, Bool, true, ◌≡◌, refl, Option, member, arith, is_some, inl, inr, Bool-cases, ◌&&◌,
}
use dqmgui_prod.Exec.{Exec, pure, ◌>>=◌}
use dqmgui_prod.Exec.Preserves.{
  Preserves, Preserves-pure, Preserves-lift, Preserves-modify, Preserves-bind, Preserves-when,
  Preserves-if,
}
use dqmgui_prod.Value.{Value, Fields, end, field, get, put}
use dqmgui_prod.Workspace.Desk.{Desk, save_session}
use dqmgui_prod.Workspace.Handlers.{save_and_state, set_and_state}
use dqmgui_prod.Workspace.Initial.{
  sessiondef, set_missing, initialise_base, initialise_content, initialise_shift,
  initialise_session, state_of, shift_state, session_state, switch_workspace, by_kind, is_shift,
}
use dqmgui_prod.Workspace.Legal.{
  IsLegal, legal_at, legal_value, legal_put, put_item-IsLegal, get_item-IsLegal, get_dict-IsLegal,
  both-IsLegal, put_in-IsLegal, save_session-IsLegal,
}
use dqmgui_prod.Workspace.Legal.Whole.{set-IsLegal}
use dqmgui_prod.Workspace.Reference.{set}
use dqmgui_prod.Regex.{matches}
use dqmgui_prod.Workspace.Params.{Step, Workspace, Gui, Kind, content, shift}

-- one action after another
pub then-IsLegal :
    {A : Type 0} {m : Step} {n : Exec Desk A}
    → Preserves IsLegal m
    → Preserves IsLegal n
    → Preserves IsLegal (m >>= λ _. n)
then-IsLegal pm pn = Preserves-bind _ _ pm (λ _. pn)

-- every default of a dictionary is legal
unfoldable pub all_legal : Fields → Bool
all_legal end = true
all_legal (field k v d) = legal_value k v && all_legal d

pub set_missing-legal :
    (defs s : Fields)
    → all_legal defs ≡ true
    → ((j : String) → legal_at j (get j s) ≡ true)
    → (j : String) → legal_at j (get j (set_missing defs s)) ≡ true
unfolding set_missing all_legal
set_missing-legal end s a h = h
set_missing-legal (field k v defs) s a h =
    let first : legal_value k v ≡ true = ground arith in
    let rest : all_legal defs ≡ true = ground arith in
    elim (Bool-cases (is_some (get k s))) [
      | inl there ↦ rw there (set_missing-legal defs s rest h)
      | inr missing ↦ rw missing (set_missing-legal defs (put k v s) rest (legal_put k v s first h))
    ]

sessiondef_legal : all_legal sessiondef ≡ true
unfolding all_legal legal_value member matches get
sessiondef_legal = refl

initialise_base-IsLegal : Preserves IsLegal initialise_base
unfolding initialise_base
initialise_base-IsLegal =
    Preserves-modify _
      λ d h. record { at = set_missing-legal sessiondef d.session sessiondef_legal h.at }

initialise_content-IsLegal : (w : Workspace) → Preserves IsLegal (initialise_content w)
unfolding initialise_content legal_value
initialise_content-IsLegal w = both-IsLegal initialise_base-IsLegal (
    Preserves-bind _ _ (get_dict-IsLegal "dqm.myobjs") λ objs. Preserves-when _ _ λ _.
      both-IsLegal (put_in-IsLegal "dqm.myobjs" w.name _ (λ f. refl))
        (put_in-IsLegal "dqm.root" w.name _ (λ f. refl)))

initialise_shift-IsLegal : (w : Workspace) → Preserves IsLegal (initialise_shift w)
unfolding initialise_shift legal_value
initialise_shift-IsLegal w =
    both-IsLegal (initialise_content-IsLegal w) (put_in-IsLegal "dqm.root" w.name _ (λ f. refl))

-- a step chosen by the class of the workspace
by_kind-IsLegal :
    (k : Kind) (b c s : Step)
    → Preserves IsLegal b
    → Preserves IsLegal c
    → Preserves IsLegal s
    → Preserves IsLegal (by_kind k b c s)
by_kind-IsLegal content b c s pb pc ps = pc
by_kind-IsLegal shift b c s pb pc ps = ps
by_kind-IsLegal k b c s pb pc ps = pb

pub initialise_session-IsLegal : (w : Workspace) → Preserves IsLegal (initialise_session w)
unfolding initialise_session
initialise_session-IsLegal w =
    by_kind-IsLegal w.kind _ _ _ initialise_base-IsLegal (initialise_content-IsLegal w)
      (initialise_shift-IsLegal w)

module _ (gui : Gui) where
  pub state_of-IsLegal : (w : Workspace) → Preserves IsLegal (state_of gui w)
  unfolding state_of
  state_of-IsLegal w = record { apply = λ d h. h }

  shift_state-IsLegal : (w : Workspace) → Preserves IsLegal (shift_state gui w)
  unfolding shift_state legal_value
  shift_state-IsLegal w = Preserves-bind _ _ (get_dict-IsLegal "dqm.root") λ roots.
      Preserves-bind _ _ (Preserves-lift _) λ fine.
        Preserves-bind _ _
          (Preserves-when _ _ (λ _.
            both-IsLegal (put_in-IsLegal "dqm.root" w.name _ (λ f. refl)) save_session-IsLegal))
          (λ _. state_of-IsLegal w)

  pub session_state-IsLegal : (w : Workspace) → Preserves IsLegal (session_state gui w)
  unfolding session_state
  session_state-IsLegal w =
      Preserves-if (is_shift w.kind) _ _ (λ _. shift_state-IsLegal w) (λ _. state_of-IsLegal w)

  pub switch_workspace-IsLegal :
      (name : Option Value) → Preserves IsLegal (switch_workspace gui name)
  unfolding switch_workspace legal_value
  switch_workspace-IsLegal name = Preserves-bind _ _ (get_item-IsLegal "core.workspace") λ current.
      Preserves-bind _ _ (Preserves-lift _) λ w.
        then-IsLegal (put_item-IsLegal "core.workspace" _ refl) (
          then-IsLegal (initialise_session-IsLegal w)
            (then-IsLegal save_session-IsLegal (session_state-IsLegal w)))

  module _ (w : Workspace) where
    pub save_and_state-IsLegal : Preserves IsLegal (save_and_state gui w)
    unfolding save_and_state
    save_and_state-IsLegal = then-IsLegal save_session-IsLegal (state_of-IsLegal w)

    pub set_and_state-IsLegal : (values : Fields) → Preserves IsLegal (set_and_state gui w values)
    unfolding set_and_state
    set_and_state-IsLegal values =
        then-IsLegal (set-IsLegal gui w.name values) save_and_state-IsLegal

    -- a method that says "Ta."
    pub set_and_say-IsLegal :
        (values : Fields) (reply : String)
        → Preserves IsLegal (set gui w.name values >>= λ _. save_session >>= λ _. pure reply)
    set_and_say-IsLegal values reply =
        then-IsLegal (set-IsLegal gui w.name values)
          (then-IsLegal save_session-IsLegal (Preserves-pure reply))
