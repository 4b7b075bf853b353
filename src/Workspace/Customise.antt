-- ===== src/Workspace/Customise.antt =====
-- `DQMWorkspace.customise` of src/python/DQM/GUI.py: the hidden workspaces that every server has.
use dqmgui_prod.Base.{
  String, true, ◌≡◌, refl, List, [], ◌∷◌, ◌++◌, map, member, ◌==◌, if◌then◌else◌, arith, Bool-cases,
  inl, inr, eq_iff, eq_refl, ◌||◌,
}
use mathlib.Core.Path.{subst}
use dqmgui_prod.Value.{nil}
use dqmgui_prod.Workspace.Params.{Kind, Workspace, Gui, workspace_names}

-- the constructors `DQMSampleWorkspace(gui)` and `DQMPlayWorkspace(gui)`
abbrev pub sample_workspace : Workspace
sample_workspace = record { name = "Sample"; kind = Kind.sample; contents = nil }

abbrev pub play_workspace : Workspace
play_workspace = record { name = "Play"; kind = Kind.play; contents = nil }

unfoldable pub add_missing : Workspace → List Workspace → List Workspace
add_missing w ws = if member w.name (map (λ (v : Workspace). v.name) ws) then ws else ws ++ w ∷ []

unfoldable pub customise : Gui → Gui
unfolding add_missing
customise gui = record gui {
  workspaces = add_missing play_workspace (add_missing sample_workspace gui.workspaces);
}

abbrev names : List Workspace → List String
names ws = map (λ (v : Workspace). v.name) ws

member-append :
    (n : String) (ws : List Workspace) (w : Workspace)
    → member n (names (ws ++ w ∷ [])) ≡ (member n (names ws) || w.name == n)
unfolding member
member-append n [] w = ground arith
member-append n (v ∷ ws) w = ground (arith, member-append n ws w)

add_missing-member :
    (n : String) (w : Workspace) (ws : List Workspace)
    → member n (names (add_missing w ws)) ≡ (member n (names ws) || w.name == n)
unfolding add_missing
add_missing-member n w ws = elim (Bool-cases (member w.name (names ws))) [
  | inr new ↦ rw new (member-append n ws w)
  | inl there ↦ rw there (elim (Bool-cases (w.name == n)) [
    | inl same ↦
        let found : member n (names ws) ≡ true =
          subst (λ m. member m (names ws) ≡ true) ((eq_iff w.name n).0 same) there in
        ground (arith, found, same)
    | inr other ↦ ground (arith, other)
  ])
]

-- a workspace that is there is not added
add_missing_there :
    (w : Workspace) (ws : List Workspace) → member w.name (names ws) ≡ true → add_missing w ws ≡ ws
unfolding add_missing
add_missing_there w ws there = rw there refl

-- Once a workspace has customised the server, its workspaces have the names that it had and the
-- two names `Sample` and `Play`, and to customise it again changes nothing.
pub customise_lem :
    (gui : Gui)
    → ((n : String)
        → member n (workspace_names (customise gui))
          ≡ ((member n (workspace_names gui) || "Sample" == n) || "Play" == n))
      × (customise (customise gui) ≡ customise gui)
unfolding customise
customise_lem gui =
    let once = add_missing sample_workspace gui.workspaces in
    let twice = add_missing play_workspace once in
    let has_sample : member "Sample" (names twice) ≡ true = ground (
      arith,
      add_missing-member "Sample" play_workspace once,
      add_missing-member "Sample" sample_workspace gui.workspaces,
      eq_refl "Sample",
    ) in
    let has_play : member "Play" (names twice) ≡ true =
      ground (arith, add_missing-member "Play" play_workspace once, eq_refl "Play") in
    (
      λ n. ground (
        arith,
        add_missing-member n play_workspace once,
        add_missing-member n sample_workspace gui.workspaces,
      ),
      rw
          (
            add_missing_there sample_workspace twice has_sample,
            add_missing_there play_workspace twice has_play,
          )
          refl,
    )
