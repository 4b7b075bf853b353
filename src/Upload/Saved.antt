-- ===== src/Upload/Saved.antt =====
-- What an upload (`DQMFileAccess.put` of src/python/DQM/GUI.py) that goes well adds to the files, and that
-- the search of a version ends.
use dqmgui_prod.Base.{
  ℕ, zero, suc, ◌+◌, ◌<◌, String, Bool, true, false, ◌&&◌, not, ◌≡◌, refl, none, some, List, length,
  take, same_bytes, ◌==◌, eq_iff, arith, if◌then◌else◌, Bool-cases, inl, inr,
}
use mathlib.Core.Path.{subst}
use dqmgui_prod.Base.Dict
use dqmgui_prod.Exec.{ok}
use dqmgui_prod.Upload.{Site}
use dqmgui_prod.Upload.Save.{
  Call, origin_of, path_of, path_exists, find_version, origin_text, is_bad_path, root_header,
  release, save, guarded_end,
}
use dqmgui_prod.Upload.Success.{content_of, save_version_run, temp_of}
use dqmgui_prod.Upload.Undo.{save_run, save_body_found, held}

-- a version of which neither the file nor its metadata exists
abbrev pub is_free : String → String → ℕ → Site → Bool
is_free uploads filename version s =
    not (path_exists (path_of uploads filename version) s)
    && not (path_exists (origin_of (path_of uploads filename version)) s)

-- The search of a version ends, and finds a free one, where some version from the first one on is
-- free and the fuel goes beyond it.
pub find_version_ends :
    (uploads filename : String) (n fuel version : ℕ) (s : Site)
    → is_free uploads filename (version + n) s ≡ true
    → n < fuel
    → (found : ℕ) × (find_version uploads filename fuel version s ≡ (ok found, s))
      × (is_free uploads filename found s ≡ true)
unfolding find_version
find_version_ends uploads filename n zero version s free enough = absurd (omega arith)
find_version_ends uploads filename zero (suc fuel) version s free enough =
    let now = subst (λ v. is_free uploads filename v s ≡ true) (omega arith) free in
    (version, rw (find_version, now) refl, now)
find_version_ends uploads filename (suc n) (suc fuel) version s free enough =
    elim (Bool-cases (is_free uploads filename version s)) [
      | inl now ↦ (version, rw (find_version, now) refl, now)
      | inr taken ↦
          rw (find_version, taken)
            (find_version_ends uploads filename n fuel (version + 1) s
              (subst (λ v. is_free uploads filename v s ≡ true) (omega arith) free) (omega arith))
    ]

module _ (fails : Call → Bool) (temp_name : String → Site → String)
    (fresh : (dir : String) (s : Site) → Dict.lookup (temp_name dir s) s.files ≡ none)
    (healthy : (c : Call) → fails c ≡ false) where
  -- Where no call of the operating system fails, an upload of data that begins like a ROOT file is
  -- saved under the version found, if its path is a safe one: the file has the data of the chunks,
  -- a second file beside it the checksum, the size and the path, all other files are as they were,
  -- and the lock is free.
  pub save_lem :
      (fuel : ℕ) (uploads filename checksum : String) (chunks : List (List ℕ)) (version : ℕ)
      (s : Site)
      → s.locked ≡ false
      → Dict.Distinct s.files
      → same_bytes (take 5 (content_of chunks)) root_header ≡ true
      → find_version uploads filename fuel 1 (record s { locked = true })
        ≡ (ok version, record s { locked = true })
      → is_bad_path (path_of uploads filename version) ≡ false
      → let fname = path_of uploads filename version in
        let content = content_of chunks in
        (s' : Site) × (save fails temp_name fuel uploads filename (length content) checksum chunks s
          ≡ (ok tt, s'))
        × (s'.locked ≡ false)
        × ((q : String)
            → Dict.lookup q s'.files ≡ (
                if origin_of fname == q
                then some (origin_text checksum (length content) fname)
                else if fname == q
                then some content
                else Dict.lookup q s.files))
  unfolding release temp_of guarded_end
  save_lem fuel uploads filename checksum chunks version s free d is_root found safe =
      let fname = path_of uploads filename version in
      let content = content_of chunks in
      let start : Site = record s { locked = true; fname = fname; tmp = none; nsaved = 0 } in
      let (s', run, files, lock) =
        save_version_run fails temp_name healthy uploads filename checksum chunks is_root version
          start safe refl in
      let t = temp_of temp_name uploads version start in
      let unused : Dict.lookup t s.files ≡ none = fresh _ _ in
      (
        release s',
        rw
            (save_run fails temp_name fresh fuel uploads filename (length content) checksum chunks s
              free)
            (rw
              (
                save_body_found fails temp_name fresh fuel uploads filename (length content)
                    checksum chunks version
                    (held fails temp_name fresh fuel uploads filename (length content) checksum
                      chunks s)
                    found,
                run,
              )
              refl),
        refl,
        λ q.
            rw (files, Dict.lookup-insert (origin_of fname) q, Dict.lookup-insert fname q)
              (ground (
                arith,
                Dict.lookup-remove t q (Dict.insert t content s.files)
                    (Dict.insert-Distinct t content s.files d),
                Dict.lookup-insert t q content s.files,
                eq_iff t q,
                unused,
              )),
      )
