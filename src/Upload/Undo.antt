-- ===== src/Upload/Undo.antt =====
-- The cleanup of a failed upload (`DQMFileAccess.put` of src/python/DQM/GUI.py) gives back the files as
-- they were, and the lock.
use dqmgui_prod.Base.{
  ℕ, zero, suc, ◌+◌, String, Bool, true, false, ◌&&◌, not, ◌≡◌, refl, none, List, eq_iff, arith,
  Bool-cases, inl, inr, ◌⊎◌,
}
use dqmgui_prod.Base.Dict
use dqmgui_prod.Exec.{Result, ok, raised, Error, diverged, modify, ◌>>=◌}
use dqmgui_prod.Upload.{Site}
use dqmgui_prod.Upload.Save.{
  Call, origin_of, path_of, path_exists, find_version, is_exception, save_version, save_body,
  acquire, guarded, guarded_end, save,
}
use dqmgui_prod.Upload.Removal.{Removes, handle_works, outcome_raises}
use dqmgui_prod.Upload.Frame.{Frame, Unnamed, save_version-Leads}

-- the files of a site are as they were, and its lock is free
abbrev pub IsUndone : List (String × List ℕ) → String → Site → Type 0
IsUndone old q s = (Dict.lookup q s.files ≡ Dict.lookup q old) × (s.locked ≡ false)

-- what the search of a version finds is free, and it writes nothing
abbrev pub Finds : String → String → Site → Result ℕ × Site → Type 0
Finds uploads filename s w =
    (w ≡ (raised diverged, s))
    ⊎ ((version : ℕ) × (w ≡ (ok version, s))
        × (path_exists (path_of uploads filename version) s ≡ false)
        × (path_exists (origin_of (path_of uploads filename version)) s ≡ false))

pub find_version-Finds :
    (uploads filename : String) (fuel version : ℕ) (s : Site)
    → Finds uploads filename s (find_version uploads filename fuel version s)
unfolding find_version
find_version-Finds uploads filename zero version s = inl refl
find_version-Finds uploads filename (suc fuel) version s =
    let fname = path_of uploads filename version in
    elim (Bool-cases (not (path_exists fname s) && not (path_exists (origin_of fname) s))) [
      | inl free ↦
          rw (find_version, free) (inr (version, refl, ground (arith, free), ground (arith, free)))
      | inr taken ↦
          rw (find_version, taken) (find_version-Finds uploads filename fuel (version + 1) s)
    ]

module _ (fails : Call → Bool) (temp_name : String → Site → String)
    (fresh : (dir : String) (s : Site) → Dict.lookup (temp_name dir s) s.files ≡ none) (fuel : ℕ)
    (uploads filename : String) (size : ℕ) (checksum : String) (chunks : List (List ℕ)) where
  -- the end of the `try`, after a body that kept the frame
  guarded_end-IsUndone :
      (old : List (String × List ℕ)) (q : String) (r : Result (Unit {0})) (s : Site) (e : Error)
      → Removes fails
      → Frame old s
      → (guarded_end fails temp_name r s).0 ≡ raised e
      → is_exception e ≡ true
      → IsUndone old q (guarded_end fails temp_name r s).1
  unfolding guarded_end
  guarded_end-IsUndone old q (ok u) s e works h failed real = cc
  guarded_end-IsUndone old q (raised x) s e works h failed real =
      elim (Bool-cases (is_exception x)) [
        | inl raises ↦ (handle_works fails temp_name old x s works h raises).1 q
        | inr outcome ↦
            ground (arith, outcome_raises fails temp_name x s outcome, failed, outcome, real)
      ]

  -- the state in which the body runs
  abbrev pub held : Site → Site
  held s = record s { locked = true }

  abbrev pub started : ℕ → Site → Site
  started version s = record (held s) {
    fname = path_of uploads filename version;
    tmp = none;
    nsaved = 0;
  }

  pub free_path : (p : String) (s : Site) → path_exists p s ≡ false → Dict.lookup p s.files ≡ none
  unfolding path_exists
  free_path p s h = ground arith

  pub started-Unnamed :
      (version : ℕ) (s : Site)
      → Dict.Distinct s.files
      → path_exists (path_of uploads filename version) (held s) ≡ false
      → path_exists (origin_of (path_of uploads filename version)) (held s) ≡ false
      → Unnamed s.files (started version s)
  started-Unnamed version s d free free' = (
    record {
      distinct = d;
      own_free = λ p own. ground (
        arith,
        eq_iff (path_of uploads filename version) p,
        eq_iff (origin_of (path_of uploads filename version)) p,
        free_path _ (held s) free,
        free_path _ (held s) free',
      );
      others = λ p other. refl;
      held = refl;
    },
    refl,
  )

  -- the body after the lock is acquired, by what the search finds
  pub save_body_found :
      (version : ℕ) (s : Site)
      → find_version uploads filename fuel 1 s ≡ (ok version, s)
      → save_body fails temp_name fuel uploads filename size checksum chunks s
        ≡ save_version fails temp_name uploads filename size checksum chunks version
            (record s { fname = path_of uploads filename version; tmp = none; nsaved = 0 })
  unfolding save_body ◌>>=◌ modify
  save_body_found version s found = rw found refl

  pub save_body_lost :
      (s : Site)
      → find_version uploads filename fuel 1 s ≡ (raised diverged, s)
      → save_body fails temp_name fuel uploads filename size checksum chunks s
        ≡ (raised diverged, s)
  unfolding save_body ◌>>=◌ modify
  save_body_lost s lost = rw lost refl

  pub save_run :
      (s : Site)
      → s.locked ≡ false
      → save fails temp_name fuel uploads filename size checksum chunks s ≡ (
          let w = save_body fails temp_name fuel uploads filename size checksum chunks (held s) in
          guarded_end fails temp_name w.0 w.1)
  unfolding save guarded acquire ◌>>=◌
  save_run s free = rw free refl

  -- a search that goes on for ever is no exception
  lost_end :
      (s : Site) (e : Error) (q : String)
      → (guarded_end fails temp_name (raised diverged) (held s)).0 ≡ raised e
      → is_exception e ≡ true
      → IsUndone s.files q (guarded_end fails temp_name (raised diverged) (held s)).1
  unfolding guarded_end
  lost_end s e q failed real =
      ground (arith, outcome_raises fails temp_name diverged (held s) refl, failed, real)

  -- An upload that raises while it has the lock, at any call of the operating system or check,
  -- leaves every file of the server as it was before and the lock free, where no removal of the
  -- cleanup fails. The files have distinct paths, and `mkstemp` picks names that no file has.
  pub save-IsUndone :
      (s : Site) (e : Error) (q : String)
      → Removes fails
      → s.locked ≡ false
      → Dict.Distinct s.files
      → (save fails temp_name fuel uploads filename size checksum chunks s).0 ≡ raised e
      → is_exception e ≡ true
      → IsUndone s.files q (save fails temp_name fuel uploads filename size checksum chunks s).1
  save-IsUndone s e q works free d =
      rw (save_run s free) (elim (find_version-Finds uploads filename fuel 1 (held s)) [
        | inl lost ↦ rw (save_body_lost (held s) lost) (lost_end s e q)
        | inr (version, found, unused, unused') ↦ rw (save_body_found version (held s) found) (
            let framed =
              (save_version-Leads s.files fails temp_name fresh uploads filename size checksum
                  chunks version).apply
                (started version s) (started-Unnamed version s d unused unused') in
            guarded_end-IsUndone s.files q _ _ e works framed)
      ])
