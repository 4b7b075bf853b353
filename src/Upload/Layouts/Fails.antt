-- ===== src/Upload/Layouts/Fails.antt =====
-- Every upload of layouts fails (`DQMLayoutAccess.put` of src/python/DQM/GUI.py), and takes the layouts
-- that were stored before with it.
use dqmgui_prod.Base.{
  ℕ, ◌+◌, String, true, false, ◌≡◌, refl, ◌∙◌, none, some, List, [], ◌∷◌, concat, eq_refl,
  if◌then◌else◌, Bool-cases, inl, inr, ◌⊎◌,
}
use dqmgui_prod.Base.Dict
use dqmgui_prod.Exec.{
  Result, ok, raised, Error, http, type_error, value_error, raise, lift, gets, modify, ◌>>=◌, when,
}
use dqmgui_prod.Upload.{Site, error, set_status}
use dqmgui_prod.Upload.Save.{Call, os_call, path_exists, acquire, release, clean_file}
use dqmgui_prod.Upload.Removal.{clean_file-Cleaned}
use dqmgui_prod.Upload.Layouts.{
  LayoutSetting, layouts_file, read_chunks, write_layouts, layout_body, layout_handle, layout_end,
  save_layouts,
}

module _ (t : LayoutSetting) (healthy : (c : Call) → t.fails c ≡ false) where
  call_run : (c : Call) (s : Site) → os_call t.fails t.temp_name c s ≡ (ok tt, s)
  unfolding os_call when
  call_run c s = rw (healthy c) refl

  read_chunks_run :
      (i : ℕ) (chunks : List (List ℕ)) (s : Site) → read_chunks t i chunks s ≡ (ok tt, s)
  unfolding read_chunks ◌>>=◌
  read_chunks_run i [] s = call_run (Call.read i) s
  read_chunks_run i ([] ∷ chunks) s = call_run (Call.read i) s
  read_chunks_run i ((c ∷ chunk) ∷ chunks) s =
      rw (call_run (Call.read i) s) (read_chunks_run (i + 1) chunks s)

  -- the site once the file is opened, and so empty
  opened : String → String → Site → Site
  opened dir fname s = record s {
    dirs = if path_exists dir s then s.dirs else dir ∷ s.dirs;
    files = Dict.insert fname [] s.files;
  }

  abbrev outcome : Result (Unit {0})
  outcome = if t.mixes then t.decode [] else raised type_error

  write_layouts_run :
      (fname : String) (chunks : List (List ℕ)) (s : Site)
      → Dict.lookup fname s.files ≡ some []
      → write_layouts t fname chunks s ≡ (outcome, s)
  unfolding write_layouts ◌>>=◌ gets when raise lift
  write_layouts_run fname chunks s here = elim (Bool-cases t.mixes) [
    | inl old ↦
        rw (read_chunks_run 0 chunks s, old) (rw (call_run (Call.write_data 0) s, here) refl)
    | inr new ↦ rw (read_chunks_run 0 chunks s, new) refl
  ]

  layout_body_run :
      (dir fname : String) (chunks : List (List ℕ)) (s : Site)
      → layout_body t dir fname chunks s ≡ (outcome, opened dir fname s)
  unfolding layout_body opened ◌>>=◌ gets modify when
  layout_body_run dir fname chunks s =
      let written : Dict.lookup fname (opened dir fname s).files ≡ some [] =
        rw (Dict.lookup-insert fname fname [] s.files) (rw (eq_refl fname) refl) in
      elim (Bool-cases (path_exists dir s)) [
        | inl there ↦ rw there (
            rw (call_run Call.open_file s) (
              write_layouts_run fname chunks (record s { files = Dict.insert fname [] s.files })
                written))
        | inr new ↦ rw new (
            rw
              (call_run Call.makedirs s, call_run Call.open_file (record s { dirs = dir ∷ s.dirs }))
              (write_layouts_run fname chunks
                (record s { files = Dict.insert fname [] s.files; dirs = dir ∷ s.dirs }) written))
      ]

  abbrev message : String
  message = "Failed to save file data"

  layout_handle_run :
      (fname : String) (e : Error) (s : Site)
      → Dict.Distinct s.files
      → (e ≡ value_error) ⊎ (e ≡ type_error)
      → ((layout_handle fname e s).0 ≡ raised (http 500 message))
        × (Dict.lookup fname (layout_handle fname e s).1.files ≡ none)
        × ((layout_handle fname e s).1.locked ≡ false)
  unfolding layout_handle error set_status modify raise ◌>>=◌ release
  layout_handle_run fname e s d which =
      let c = clean_file-Cleaned fname (release s) d in
      let result : (raised (http 500 message) ≡ raised (http 500 message))
          × (Dict.lookup fname (clean_file fname (release s)).files ≡ none)
          × ((clean_file fname (release s)).locked ≡ false) =
        (refl, c.gone fname ∙ (rw (eq_refl fname) refl), c.same_lock) in
      elim which [ inl value ↦ rw value result | inr type ↦ rw type result ]

  -- An upload of layouts fails with HTTP error 500 even where no call of the operating system
  -- fails, whatever the chunks, and whether or not texts and bytes can be joined, provided that an
  -- empty text is no JSON. The layouts that were stored before are gone then, and the lock is
  -- free.
  pub save_layouts_fails :
      (uploads : String) (chunks : List (List ℕ)) (s : Site)
      → s.locked ≡ false
      → Dict.Distinct s.files
      → t.decode [] ≡ raised value_error
      → ((save_layouts t uploads chunks s).0 ≡ raised (http 500 message))
        × (Dict.lookup
              (concat uploads (concat "/" layouts_file))
              (save_layouts t uploads chunks s).1.files
            ≡ none)
        × ((save_layouts t uploads chunks s).1.locked ≡ false)
  unfolding save_layouts acquire ◌>>=◌ opened layout_end
  save_layouts_fails uploads chunks s free d no_json =
      let fname = concat uploads (concat "/" layouts_file) in
      let held : Site = record s { locked = true } in
      let d' : Dict.Distinct (opened uploads fname held).files =
        Dict.insert-Distinct fname [] s.files d in
      rw free (
        rw (layout_body_run uploads fname chunks held) (elim (Bool-cases t.mixes) [
          | inl old ↦
              rw (old, no_json)
                (layout_handle_run fname value_error (opened uploads fname held) d' (inl refl))
          | inr new ↦
              rw new (layout_handle_run fname type_error (opened uploads fname held) d' (inr refl))
        ]))
