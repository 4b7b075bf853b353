-- ===== src/Upload/Layouts.antt =====
-- `DQMLayoutAccess.put` of src/python/DQM/GUI.py: the upload of layouts, and that it never succeeds.
pub mod Fails
use dqmgui_prod.Base.{
  ℕ, zero, suc, ◌+◌, String, Bool, true, false, ◌||◌, ◌&&◌, not, Option, none, some, List, [], ◌∷◌,
  concat, member, or_else, ◌==◌, if◌then◌else◌,
}
use dqmgui_prod.Base.Dict
use dqmgui_prod.Exec.{
  Exec, Result, ok, raised, Error, http, type_error, os_error, blocked, diverged, pure, raise, lift,
  gets, modify, ◌>>=◌, ◌>>◌, when,
}
use dqmgui_prod.Upload.{
  Site, Headers, header, error, set_status, status_ok, status_fail_execute, status_not_authorized,
}
use dqmgui_prod.Upload.Put.{Part, require_file}
use dqmgui_prod.Upload.Save.{Call, os_call, path_exists, acquire, release, clean_file}

abbrev pub layouts_file : String
layouts_file = "layouts.json"

-- What the server and the libraries give: the directory, who may upload, the calls of the operating
-- system that fail, whether a text and bytes can be joined (in Python 2 alone), `json.loads`,
-- and what the sources do with new layouts.
pub record LayoutSetting : Type 0 where
  pub uploads : Option String
  pub allowed : List String
  pub fails : Call → Bool
  pub temp_name : String → Site → String
  pub mixes : Bool
  pub decode : List ℕ → Result (Unit {0})
  pub push_layouts : Result (Unit {0})

-- the loop that reads the chunks and drops them, up to the first empty one
unfoldable pub read_chunks : LayoutSetting → ℕ → List (List ℕ) → Exec Site (Unit {0})
unfolding os_call
read_chunks t i [] = os_call t.fails t.temp_name (Call.read i)
read_chunks t i ([] ∷ chunks) = os_call t.fails t.temp_name (Call.read i)
read_chunks t i ((c ∷ chunk) ∷ chunks) = do
  os_call t.fails t.temp_name (Call.read i)
  read_chunks t (i + 1) chunks

-- The file is open: the chunks are read, and the last one, which is empty, is joined to a text and
-- written.
unfoldable pub write_layouts : LayoutSetting → String → List (List ℕ) → Exec Site (Unit {0})
unfolding read_chunks os_call
write_layouts t fname chunks = do
  read_chunks t 0 chunks
  when (not t.mixes) (raise type_error)
  os_call t.fails t.temp_name (Call.write_data 0)
  content ← gets (λ (s : Site). or_else (Dict.lookup fname s.files) [])
  lift (t.decode content)

-- the body of the `try`
unfoldable pub layout_body : LayoutSetting → String → String → List (List ℕ) → Exec Site (Unit {0})
unfolding write_layouts os_call path_exists
layout_body t dir fname chunks = do
  there ← gets (path_exists dir)
  when (not there) (
      os_call t.fails t.temp_name Call.makedirs
      >> modify (λ (s : Site). record s { dirs = dir ∷ s.dirs }))
  os_call t.fails t.temp_name Call.open_file
  modify (λ (s : Site). record s { files = Dict.insert fname [] s.files })
  write_layouts t fname chunks

-- the handler of exceptions
unfoldable pub layout_handle : String → Error → Exec Site (Unit {0})
unfolding clean_file release error
layout_handle fname (http code message) s =
    (raised (http code message), clean_file fname (release s))
layout_handle fname blocked s = (raised blocked, s)
layout_handle fname diverged s = (raised diverged, s)
layout_handle fname e s =
    error status_fail_execute "Failed to save file data" (clean_file fname (release s))

unfoldable pub layout_end : String → Result (Unit {0}) → Exec Site (Unit {0})
unfolding layout_handle release
layout_end fname (ok u) s = (ok tt, release s)
layout_end fname (raised e) s = layout_handle fname e s

unfoldable pub save_layouts : LayoutSetting → String → List (List ℕ) → Exec Site (Unit {0})
unfolding acquire
save_layouts t uploads chunks = do
  acquire
  (λ s.
      let fname = concat uploads (concat "/" layouts_file) in
      let (r, s') = layout_body t uploads fname chunks s in layout_end fname r s')

unfoldable pub layout_put_in : LayoutSetting → String → Headers → Option Part → Exec Site String
unfolding require_file set_status save_layouts
layout_put_in t uploads headers file = do
  when (not (member (or_else (header "CMS-Auth-Cert" headers) "-") t.allowed))
      (raise (http status_not_authorized "You are not allowed to upload layouts."))
  part ← require_file file
  save_layouts t uploads part.chunks
  modify (set_status status_ok "Layouts saved")
  lift t.push_layouts
  pure "Thanks.\n"

unfoldable pub layout_put : LayoutSetting → Headers → Option Part → Exec Site String
unfolding layout_put_in
layout_put t headers file = elim t.uploads [
  | none ↦ raise (http 404 "Not found")
  | some uploads ↦
      if uploads == "" then raise (http 404 "Not found") else layout_put_in t uploads headers file
]
