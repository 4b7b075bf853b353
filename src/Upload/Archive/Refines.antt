-- ===== src/Upload/Archive/Refines.antt =====
-- Every sequence of uploads of files (`DQMFileAccess.put` of src/python/DQM/GUI.py) is a history of the
-- archive.
use dqmgui_prod.Base.{
  ℕ, String, Bool, true, false, ◌≡◌, refl, sym, ap, ◌∙◌, none, some, List, [], ◌∷◌, Bool-cases, inl,
  inr, arith,
}
use mathlib.Core.Path.{subst}
use dqmgui_prod.Base.Dict
use dqmgui_prod.Exec.{Result, ok, raised, Error, blocked, diverged, Exec, ◌>>=◌, raise}
use dqmgui_prod.Upload.{Site}
use dqmgui_prod.Upload.Save.{
  Call, origin_text, origin_of, path_of, path_exists, is_exception, find_version, save_version,
  save, guarded_end, handle, acquire, release,
}
use dqmgui_prod.Upload.Frame.{Frame, save_version-Leads}
use dqmgui_prod.Upload.Removal.{Removes}
use dqmgui_prod.Upload.Residue.{Frame-Residue, handle-Residue}
use dqmgui_prod.Upload.Undo.{
  find_version-Finds, started-Unnamed, save_run, save_body_found, save_body_lost,
}
use dqmgui_prod.Upload.Saved.{save_lem}
use dqmgui_prod.Upload.Success.{content_of}
use dqmgui_prod.Upload.Healthy.{none_fail, save_version-Agrees, save_version-Raises}
use dqmgui_prod.Upload.Accepted.{save_version_accepted}
use dqmgui_prod.Upload.Archive.Spec.{Archive, Request, add_file, Step, refuse, accept, Step-keeps}

-- the files of a site
abbrev pub view : Site → Archive
view s q = Dict.lookup q s.files

free_lookup :
    (p : String) (s : Site)
    → path_exists p (record s { locked = true }) ≡ false
    → Dict.lookup p s.files ≡ none
unfolding path_exists
free_lookup p s h = ground arith

-- no removal fails in any of the uploads
abbrev pub AllRemove : List Request → Type 0
AllRemove [] = Unit
AllRemove (r ∷ rs) = Removes r.fails × AllRemove rs

-- `temp_name` are the names that `mkstemp` picks, which no file has.
module _ (temp_name : String → Site → String)
    (fresh : (dir : String) (s : Site) → Dict.lookup (temp_name dir s) s.files ≡ none) (fuel : ℕ)
    (uploads : String) where
  unfoldable pub run_save : Request → Exec Site (Unit {0})
  unfolding save
  run_save r = save r.fails temp_name fuel uploads r.filename r.size r.checksum r.chunks

  unfoldable pub run_saves : List Request → Site → List (Result (Unit {0})) × Site
  unfolding run_save
  run_saves [] s = ([], s)
  run_saves (r ∷ rs) s =
      let (o, s1) = run_save r s in let (os, s2) = run_saves rs s1 in (o ∷ os, s2)

  -- an outcome of an upload is a step of the archive
  abbrev IsStep : Request → Site → Result (Unit {0}) × Site → Type 0
  IsStep r s w = Step uploads r (view s) (view w.1) w.0 × Dict.Distinct w.1.files

  refused-IsStep :
      (r : Request) (s : Site) (w : Result (Unit {0}) × Site) (e : Error)
      → w.0 ≡ raised e
      → ((q : String) → view w.1 q ≡ view s q)
      → Dict.Distinct w.1.files
      → IsStep r s w
  refused-IsStep r s w e failed same d = (rw failed (refuse e same), d)

  module _ (r : Request) (s : Site) (free : s.locked ≡ false) (d : Dict.Distinct s.files)
      (version : ℕ)
      (found : find_version uploads r.filename fuel 1 (record s { locked = true })
        ≡ (ok version, record s { locked = true }))
      (unused : path_exists (path_of uploads r.filename version) (record s { locked = true })
        ≡ false)
      (unused' : path_exists
          (origin_of (path_of uploads r.filename version))
          (record s { locked = true })
        ≡ false) where
    abbrev begun : Site
    begun = record s {
      locked = true;
      fname = path_of uploads r.filename version;
      tmp = none;
      nsaved = 0;
    }

    abbrev body : (Call → Bool) → Exec Site (Unit {0})
    body fails = save_version fails temp_name uploads r.filename r.size r.checksum r.chunks version

    run_begun :
        (fails : Call → Bool)
        → save fails temp_name fuel uploads r.filename r.size r.checksum r.chunks s
          ≡ guarded_end fails temp_name (body fails begun).0 (body fails begun).1
    run_begun fails =
        save_run fails temp_name fresh fuel uploads r.filename r.size r.checksum r.chunks s free
        ∙ ap (λ w. guarded_end fails temp_name w.0 w.1)
            (save_body_found fails temp_name fresh fuel uploads r.filename r.size r.checksum
              r.chunks version (record s { locked = true }) found)

    framed : Frame s.files (body r.fails begun).1
    framed =
        (save_version-Leads s.files r.fails temp_name fresh uploads r.filename r.size r.checksum
            r.chunks version).apply
          begun
          (started-Unnamed r.fails temp_name fresh fuel uploads r.filename r.size r.checksum
            r.chunks version s d unused unused')

    saved-IsStep : (t : Site) → body r.fails begun ≡ (ok tt, t) → IsStep r s (ok tt, release t)
    unfolding release guarded_end
    saved-IsStep t ran =
        let path = path_of uploads r.filename version in
        let healthy =
          (save_version-Agrees r.fails temp_name uploads r.filename r.size r.checksum r.chunks
              version).apply
            begun t tt ran in
        let (fine, root, size) =
          save_version_accepted none_fail temp_name (λ c. refl) uploads r.filename r.size r.checksum
            r.chunks version begun refl (ap (λ w. w.0) healthy) in
        let (s', run, lock, files) =
          save_lem none_fail temp_name fresh (λ c. refl) fuel uploads r.filename r.checksum r.chunks
            version s free d root found fine in
        let whole : save none_fail temp_name fuel uploads r.filename r.size r.checksum r.chunks s
            ≡ (ok tt, release t) =
          run_begun none_fail ∙ ap (λ w. guarded_end none_fail temp_name w.0 w.1) healthy in
        let resized =
          subst
            (λ n.
              save none_fail temp_name fuel uploads r.filename n r.checksum r.chunks s
              ≡ (ok tt, release t))
            (sym size) whole in
        let same : s' ≡ release t = ap (λ w. w.1) (sym run ∙ resized) in
        let frame : Frame s.files t = subst (λ w. Frame s.files w.1) ran framed in
        (
          accept version (free_lookup path s unused) (free_lookup (origin_of path) s unused') root
              size
              (λ q.
                ap (λ (u : Site). Dict.lookup q u.files) (sym same)
                ∙ files q
                ∙ ap
                    (λ n.
                      add_file path (content_of r.chunks) (origin_text r.checksum n path) (view s)
                        q)
                    size),
          frame.distinct,
        )

    -- what holds of a step and of what the handler leaves holds of the upload
    begun_cases :
        (P : Result (Unit {0}) × Site → Type 0)
        → ((w : Result (Unit {0}) × Site) → IsStep r s w → P w)
        → ((e : Error) (t : Site)
            → Frame s.files t
            → is_exception e ≡ true
            → P (handle r.fails temp_name e t))
        → (w : Result (Unit {0}) × Site) → body r.fails begun ≡ w
        → P (guarded_end r.fails temp_name w.0 w.1)
    unfolding guarded_end
    begun_cases P steps handled (ok u, t) ran = steps (ok tt, release t) (saved-IsStep t ran)
    begun_cases P steps handled (raised e, t) ran =
        handled e t (subst (λ w. Frame s.files w.1) ran framed) (
          (save_version-Raises r.fails temp_name uploads r.filename r.size r.checksum r.chunks
              version).apply
            begun e (ap (λ w. w.0) ran))

  found_cases :
      (r : Request) (s : Site) (P : Result (Unit {0}) × Site → Type 0)
      → s.locked ≡ false
      → Dict.Distinct s.files
      → ((w : Result (Unit {0}) × Site) → IsStep r s w → P w)
      → ((e : Error) (t : Site)
          → Frame s.files t
          → is_exception e ≡ true
          → P (handle r.fails temp_name e t))
      → P (run_save r s)
  unfolding run_save handle guarded_end raise
  found_cases r s P free d steps handled =
      elim (find_version-Finds uploads r.filename fuel 1 (record s { locked = true })) [
        | inl lost ↦
            let run =
              save_run r.fails temp_name fresh fuel uploads r.filename r.size r.checksum r.chunks s
                free
              ∙ ap (λ w. guarded_end r.fails temp_name w.0 w.1)
                  (save_body_lost r.fails temp_name fresh fuel uploads r.filename r.size r.checksum
                    r.chunks (record s { locked = true }) lost) in
            subst P (sym run) (
              steps (raised diverged, record s { locked = true })
                (refused-IsStep r s (raised diverged, record s { locked = true }) diverged refl
                  (λ q. refl) d))
        | inr (version, found, unused, unused') ↦
            subst P (sym (run_begun r s free d version found unused unused' r.fails))
              (begun_cases r s free d version found unused unused' P steps handled _ refl)
      ]

  run_save_cases :
      (r : Request) (s : Site) (P : Result (Unit {0}) × Site → Type 0)
      → Dict.Distinct s.files
      → ((w : Result (Unit {0}) × Site) → IsStep r s w → P w)
      → ((e : Error) (t : Site)
          → Frame s.files t
          → is_exception e ≡ true
          → P (handle r.fails temp_name e t))
      → P (run_save r s)
  unfolding run_save save acquire ◌>>=◌
  run_save_cases r s P d steps handled = elim (Bool-cases s.locked) [
    | inr free ↦ found_cases r s P free d steps handled
    | inl taken ↦
        let stuck : run_save r s ≡ (raised blocked, s) = rw taken refl in
        subst P (sym stuck) (steps (raised blocked, s) (refuse blocked (λ q. refl), d))
  ]

  -- whatever calls fail, an upload keeps what is stored
  abbrev IsKept : Site → Result (Unit {0}) × Site → Type 0
  IsKept s w =
      Dict.Distinct w.1.files
      × ((q : String) (content : List ℕ)
          → Dict.lookup q s.files ≡ some content
          → Dict.lookup q w.1.files ≡ some content)

  run_save-IsKept : (r : Request) (s : Site) → Dict.Distinct s.files → IsKept s (run_save r s)
  run_save-IsKept r s d =
      run_save_cases r s (IsKept s) d (λ w step. (step.1, Step-keeps step.0))
        λ e t frame real.
          let left =
            (handle-Residue s.files r.fails temp_name e).apply t (Frame-Residue s.files t frame) in
          (left.distinct, left.kept)

  -- A file that is stored keeps its content through every sequence of uploads, whichever calls of
  -- the operating system fail, the removals of the cleanup among them. The files have distinct
  -- paths at the start, and `mkstemp` picks names that no file has.
  pub run_saves_keep :
      (rs : List Request) (s : Site) (q : String) (content : List ℕ)
      → Dict.Distinct s.files
      → Dict.lookup q s.files ≡ some content
      → Dict.lookup q (run_saves rs s).1.files ≡ some content
  unfolding run_saves
  run_saves_keep [] s q content d there = there
  run_saves_keep (r ∷ rs) s q content d there =
      let (distinct, kept) = run_save-IsKept r s d in
      run_saves_keep rs (run_save r s).1 q content distinct (kept q content there)
