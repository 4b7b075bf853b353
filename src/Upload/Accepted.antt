-- ===== src/Upload/Accepted.antt =====
-- What an upload (`DQMFileAccess.put` of src/python/DQM/GUI.py) that is saved was checked for.
use dqmgui_prod.Base.{
  ℕ, ◌+◌, String, Bool, true, false, ◌≡◌, refl, sym, ap, ◌∙◌, some, List, [], ◌∷◌, nat_eq, length,
  if◌then◌else◌, same_bytes, take, Bool-cases, inl, inr, eq_refl, arith,
}
use dqmgui_prod.Base.Dict
use dqmgui_prod.Exec.{Result, ok, raised, http, raise, gets, modify, ◌>>=◌, when}
use dqmgui_prod.Exec.Outcomes.{ok-≢-raised}
use dqmgui_prod.Upload.{Site, error, set_status, status_error_parameter, status_fail_execute}
use dqmgui_prod.Upload.Save.{
  Call, path_of, dir_of, path_exists, save_version, is_bad_path, root_header, put_temp,
}
use dqmgui_prod.Upload.Success.{
  content_of, written, os_call_run, write_chunks_run, make_dir_run, make_temp_run,
}

module _ (fails : Call → Bool) (temp_name : String → Site → String)
    (healthy : (c : Call) → fails c ≡ false) (uploads filename : String) (size : ℕ)
    (checksum : String) (chunks : List (List ℕ)) (version : ℕ) (s : Site) where
  abbrev refused : String → Result (Unit {0})
  refused message = raised (http 500 message)

  bad_path_refused :
      is_bad_path (path_of uploads filename version) ≡ true
      → (save_version fails temp_name uploads filename size checksum chunks version s).0
        ≡ refused "Invalid file path name"
  unfolding save_version error set_status ◌>>=◌ when modify raise
  bad_path_refused bad = rw bad refl

  -- the site once the content is in the temporary file
  abbrev copied : Site
  copied =
      let dir = dir_of uploads version in
      let s1 : Site = record s { dirs = if path_exists dir s then s.dirs else dir ∷ s.dirs } in
      let s2 : Site = put_temp (temp_name dir s1) s1 in
      written (temp_name dir s1) (content_of chunks) (s2.nsaved + length (content_of chunks)) s2

  -- the checks of the content
  content_refused :
      is_bad_path (path_of uploads filename version) ≡ false
      → s.nsaved ≡ 0
      → (same_bytes (take 5 (content_of chunks)) root_header ≡ false
          → ((t : Site) × (save_version fails temp_name uploads filename size checksum chunks
                  version s
                ≡ (refused "Not a ROOT file", t))))
        × (same_bytes (take 5 (content_of chunks)) root_header ≡ true
            → nat_eq (length (content_of chunks)) size ≡ false
            → ((t : Site) × (save_version fails temp_name uploads filename size checksum chunks
                    version s
                  ≡ (refused "Failed to save file data", t))))
  unfolding save_version put_temp error set_status ◌>>=◌ gets when modify raise
  content_refused fine zeroed =
      let dir = dir_of uploads version in
      let s1 : Site = record s { dirs = if path_exists dir s then s.dirs else dir ∷ s.dirs } in
      let t = temp_name dir s1 in
      let s2 : Site = put_temp t s1 in
      let here : Dict.lookup t s2.files ≡ some [] =
        rw (Dict.lookup-insert t t [] s.files) (rw (eq_refl t) refl) in
      let (f, ran, bytes) =
        write_chunks_run fails temp_name healthy t 0 chunks [] [] s2 refl here in
      (
        λ no_root.
            let header : same_bytes (take 5 f) root_header ≡ false = rw bytes no_root in
            (
              set_status status_error_parameter "Not a ROOT file" copied,
              rw fine (
                  rw (make_dir_run fails temp_name healthy dir s) (
                    rw (make_temp_run fails temp_name healthy dir) (
                      rw ran (
                        rw
                          (
                            os_call_run fails temp_name healthy Call.close copied,
                            os_call_run fails temp_name healthy Call.chmod copied,
                          )
                          (rw header refl))))),
            ),
        λ root other.
            let header : same_bytes (take 5 f) root_header ≡ true = rw bytes root in
            let size : nat_eq (s2.nsaved + length (content_of chunks)) size ≡ false =
              ground (arith, zeroed, other) in
            (
              set_status status_fail_execute "Failed to save file data" copied,
              rw fine (
                  rw (make_dir_run fails temp_name healthy dir s) (
                    rw (make_temp_run fails temp_name healthy dir) (
                      rw ran (
                        rw
                          (
                            os_call_run fails temp_name healthy Call.close copied,
                            os_call_run fails temp_name healthy Call.chmod copied,
                          )
                          (rw header (rw size refl)))))),
            ),
      )

  -- what is saved has a safe path, is a ROOT file and has the size that was announced
  pub save_version_accepted :
      s.nsaved ≡ 0
      → (save_version fails temp_name uploads filename size checksum chunks version s).0 ≡ ok tt
      → (is_bad_path (path_of uploads filename version) ≡ false)
        × (same_bytes (take 5 (content_of chunks)) root_header ≡ true)
        × (length (content_of chunks) ≡ size)
  save_version_accepted zeroed done =
      elim (Bool-cases (is_bad_path (path_of uploads filename version))) [
        | inl bad ↦ absurd (ok-≢-raised (sym done ∙ bad_path_refused bad))
        | inr fine ↦
            let checks = content_refused fine zeroed in
            elim (Bool-cases (same_bytes (take 5 (content_of chunks)) root_header)) [
              | inr no_root ↦ absurd (ok-≢-raised (sym done ∙ ap (λ w. w.0) (checks.0 no_root).1))
              | inl root ↦ elim (Bool-cases (nat_eq (length (content_of chunks)) size)) [
                | inr other ↦
                    absurd (ok-≢-raised (sym done ∙ ap (λ w. w.0) (checks.1 root other).1))
                | inl same ↦ (fine, root, ground (arith, same))
              ]
            ]
      ]
