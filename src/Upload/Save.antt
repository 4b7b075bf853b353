-- ===== src/Upload/Save.antt =====
-- The part of `DQMFileAccess.put` (src/python/DQM/GUI.py) that runs with the lock held: the free
-- version, the copy to a temporary file, the move to the final name, and the cleanup after any
-- exception. Each call of the operating system that writes or removes may fail.
use dqmgui_prod.Base.{
  ℕ, zero, suc, ◌+◌, String, Bool, true, false, ◌||◌, ◌&&◌, not, Option, none, some, List, [], ◌∷◌,
  ◌++◌, map, code, chars, concat, member, contains, show_nat, show_nat4, length, take, same_bytes,
  is_some, ltb, nat_eq, if◌then◌else◌,
}
use dqmgui_prod.Base.Dict
use dqmgui_prod.Exec.{
  Exec, Result, ok, raised, Error, http, os_error, diverged, blocked, pure, raise, gets, modify,
  ◌>>=◌, ◌>>◌, when,
}
use dqmgui_prod.Upload.{Site, error, status_error_parameter, status_fail_execute}

-- the calls of the operating system, of which `read` and `write_data` come once for each chunk
pub data Call : Type 0 where
  makedirs mkstemp close chmod move open_file write_file : Call
  read write_data : ℕ → Call
  remove_data remove_origin remove_temp : Call

abbrev pub texts : String → List ℕ
texts s = map code (chars s)

-- `os.path.exists`
unfoldable pub path_exists : String → Site → Bool
path_exists path s = is_some (Dict.lookup path s.files) || member path s.dirs

abbrev pub origin_of : String → String
origin_of path = concat path ".origin"

abbrev pub dir_of : String → ℕ → String
dir_of uploads version = concat uploads (concat "/" (show_nat4 version))

abbrev pub path_of : String → String → ℕ → String
path_of uploads filename version = concat (dir_of uploads version) (concat "/" filename)

-- the loop over the versions
unfoldable pub find_version : String → String → ℕ → ℕ → Exec Site ℕ
unfolding pure raise
find_version uploads filename zero version s = raise diverged s
find_version uploads filename (suc fuel) version s =
    let fname = path_of uploads filename version in
    elim (not (path_exists fname s) && not (path_exists (origin_of fname) s)) [
      | true ↦ pure version s
      | false ↦ find_version uploads filename fuel (version + 1) s
    ]

-- `lock.acquire()` and `lock.release()`
unfoldable pub acquire : Exec Site (Unit {0})
acquire s = if s.locked then raise blocked s else (ok tt, record s { locked = true })

unfoldable pub release : Site → Site
release s = record s { locked = false }

-- a write to the descriptor that `mkstemp` opened
unfoldable pub append_temp : List ℕ → Site → Site
append_temp chunk s = elim s.tmp [
  | none ↦ s
  | some p ↦ record s {
    files = elim (Dict.lookup p s.files) [
      | none ↦ s.files
      | some old ↦ Dict.insert p (old ++ chunk) s.files
    ];
    nsaved = s.nsaved + length chunk;
  }
]

-- the temporary file is moved to the final name
unfoldable pub rename_temp : Site → Site
rename_temp s = elim s.tmp [
  | none ↦ s
  | some p ↦ elim (Dict.lookup p s.files) [
    | none ↦ s
    | some content ↦ record s { files = Dict.insert s.fname content (Dict.remove p s.files) }
  ]
]

-- the metadata file is written
unfoldable pub put_origin : List ℕ → Site → Site
put_origin content s = record s { files = Dict.insert (origin_of s.fname) content s.files }

unfoldable pub put_temp : String → Site → Site
put_temp t s = record s { files = Dict.insert t [] s.files; tmp = some t }

-- a file that is there is removed
unfoldable pub clean_file : String → Site → Site
unfolding path_exists
clean_file path s = if path_exists path s then record s { files = Dict.remove path s.files } else s

-- the outcomes that are exceptions of the program
abbrev pub is_exception : Error → Bool
is_exception blocked = false
is_exception diverged = false
is_exception e = true

-- the first five bytes, from the chunks so far and the next one
abbrev pub add_first : List ℕ → List ℕ → List ℕ
add_first first chunk = if ltb (length first) 5 then first ++ take 5 chunk else first

abbrev pub root_header : List ℕ
root_header = b'r' ∷ b'o' ∷ b'o' ∷ b't' ∷ 0 ∷ []

-- a path that leads out of its directory, or might
abbrev pub is_bad_path : String → Bool
is_bad_path path =
    contains (chars "..") (chars path)
    || contains (chars "./") (chars path)
    || contains (chars "/.") (chars path)

-- `"%s %d %s\n" % (checksum, size, fname)`
abbrev pub origin_text : String → ℕ → String → List ℕ
origin_text checksum size fname =
    texts (concat checksum (concat " " (concat (show_nat size) (concat " " (concat fname "\n")))))

-- `fails` are the calls that fail, and `temp_name` is the name that `mkstemp` picks in a directory.
module _ (fails : Call → Bool) (temp_name : String → Site → String) where
  unfoldable pub os_call : Call → Exec Site (Unit {0})
  os_call c = when (fails c) (raise os_error)

  -- `if os.path.exists(path): os.remove(path)`
  unfoldable pub remove_file : Call → String → Exec Site (Unit {0})
  unfolding os_call path_exists
  remove_file c path = do
    there ← gets (path_exists path)
    when there (os_call c >> modify (λ (s : Site). record s { files = Dict.remove path s.files }))

  -- the temporary file, which may have no name yet
  unfoldable pub remove_temp_file : Option String → Exec Site (Unit {0})
  unfolding remove_file
  remove_temp_file none = pure tt
  remove_temp_file (some path) = remove_file remove_temp path

  -- the lock is released, then the files of the call are removed, up to a removal that fails
  unfoldable pub clean_up : Exec Site (Unit {0})
  unfolding release remove_file remove_temp_file
  clean_up = do
    modify release
    fname ← gets (λ (s : Site). s.fname)
    remove_file remove_data fname
    remove_file remove_origin (origin_of fname)
    tmp ← gets (λ (s : Site). s.tmp)
    remove_temp_file tmp

  -- the handler of exceptions: an `HTTPError` is raised again, any other becomes an error of its own
  unfoldable pub handle : Error → Exec Site (Unit {0})
  unfolding clean_up error
  handle (http code message) = do clean_up; raise (http code message)
  handle blocked = raise blocked
  handle diverged = raise diverged
  handle e = do clean_up; error status_fail_execute "Failed to save file data"

  -- `try: m; release … except Exception: handle`
  unfoldable pub guarded_end : Result (Unit {0}) → Exec Site (Unit {0})
  unfolding release handle
  guarded_end (ok u) s = (ok tt, release s)
  guarded_end (raised e) s = handle e s

  unfoldable pub guarded : Exec Site (Unit {0}) → Exec Site (Unit {0})
  unfolding guarded_end
  guarded m s = let (r, s') = m s in guarded_end r s'

  -- the loop over the chunks, which ends at the first one that is empty: the first bytes
  unfoldable pub write_chunks : ℕ → List (List ℕ) → List ℕ → Exec Site (List ℕ)
  unfolding os_call
  write_chunks i [] first = do os_call (read i); pure first
  write_chunks i (chunk ∷ chunks) first = do
    os_call (read i)
    if nat_eq (length chunk) 0 then pure first else do
      os_call (write_data i)
      modify (append_temp chunk)
      write_chunks (i + 1) chunks (add_first first chunk)

  -- `tempfile.mkstemp(".upload", "", dir)`
  unfoldable pub make_temp : String → Exec Site (Unit {0})
  unfolding os_call
  make_temp dir = do os_call mkstemp; modify (λ (s : Site). put_temp (temp_name dir s) s)

  -- `shutil.move(tmp, fname)`
  unfoldable pub move_temp : Exec Site (Unit {0})
  unfolding os_call
  move_temp = do os_call move; modify rename_temp

  -- the metadata beside the file
  unfoldable pub write_origin_file : String → ℕ → Exec Site (Unit {0})
  unfolding os_call
  write_origin_file checksum size = do
    os_call open_file
    modify (put_origin [])
    os_call write_file
    modify (λ (s : Site). put_origin (origin_text checksum size s.fname) s)

  unfoldable pub make_dir : String → Exec Site (Unit {0})
  unfolding os_call path_exists
  make_dir dir = do
    there ← gets (path_exists dir)
    when (not there) (os_call makedirs >> modify (λ (s : Site). record s { dirs = dir ∷ s.dirs }))

  -- the body of the `try`, once the version is found
  unfoldable pub save_version :
      String → String → ℕ → String → List (List ℕ) → ℕ → Exec Site (Unit {0})
  unfolding make_dir make_temp write_chunks move_temp write_origin_file put_temp append_temp
      rename_temp put_origin
  save_version uploads filename size checksum chunks version = do
    when (is_bad_path (path_of uploads filename version))
        (error status_error_parameter "Invalid file path name")
    make_dir (dir_of uploads version)
    make_temp (dir_of uploads version)
    first ← write_chunks 0 chunks []
    os_call close
    os_call chmod
    when (not (same_bytes (take 5 first) root_header))
        (error status_error_parameter "Not a ROOT file")
    nsaved ← gets (λ (s : Site). s.nsaved)
    when (not (nat_eq nsaved size)) (error status_fail_execute "Failed to save file data")
    move_temp
    write_origin_file checksum size

  -- the body of the `try`, after the lock is acquired
  unfoldable pub save_body : ℕ → String → String → ℕ → String → List (List ℕ) → Exec Site (Unit {0})
  unfolding save_version
  save_body fuel uploads filename size checksum chunks = do
    version ← find_version uploads filename fuel 1
    modify (λ (s : Site). record s {
      fname = path_of uploads filename version;
      tmp = none;
      nsaved = 0;
    })
    save_version uploads filename size checksum chunks version

  -- the whole of the `try` with its handler
  unfoldable pub save : ℕ → String → String → ℕ → String → List (List ℕ) → Exec Site (Unit {0})
  unfolding acquire save_body guarded
  save fuel uploads filename size checksum chunks = do
    acquire
    guarded (save_body fuel uploads filename size checksum chunks)
