-- ===== src/Pages/Files.antt =====
-- The templates that the server keeps in memory: `_maybeRefreshFile` of src/python/Core/GUI.py, which
-- reads a file again when its time of modification has changed, with the lock of the server held.
use dqmgui_prod.Base.{ℕ, String, Bool, true, false, Option, none, some, List, nat_eq, if◌then◌else◌}
use dqmgui_prod.Base.Dict
use dqmgui_prod.Exec.{
  Result, ok, raised, key_error, os_error, blocked, Exec, pure, lift, modify, ◌>>=◌, ◌>>◌,
}

-- `[filename, mtime, text]`
pub record Template : Type 0 where
  pub filename : String
  pub mtime : ℕ
  pub text : String

-- the files that the server keeps, and whether `self.lock` is held
pub record Files : Type 0 where
  pub templates : List (String × Template)
  pub locked : Bool

-- `self.lock.acquire()`
unfoldable pub acquire : Exec Files (Unit {0})
acquire s = if s.locked then (raised blocked, s) else (ok tt, record s { locked = true })

-- `self.lock.release()`
unfoldable pub release : Files → Files
release s = record s { locked = false }

unfoldable pub find : String → Exec Files Template
find name s = elim (Dict.lookup name s.templates) [
  | none ↦ (raised key_error, s)
  | some t ↦ (ok t, s)
]

unfoldable pub keep : String → Template → Files → Files
keep name t s = record s { templates = Dict.insert name t s.templates }

-- `os.stat(…)[ST_MTIME]` and what `open` reads, which raise `OSError` where they have nothing
module _ (stat : String → Option ℕ) (read : String → Option String) where
  unfoldable pub modified : String → Result ℕ
  modified path = elim (stat path) [ none ↦ raised os_error | some m ↦ ok m ]

  unfoldable pub contents : String → Result String
  contents path = elim (read path) [ none ↦ raised os_error | some text ↦ ok text ]

  -- the time is stored before the file is read
  unfoldable pub reload : String → Template → ℕ → Exec Files String
  unfolding ◌>>=◌ lift modify pure keep contents
  reload name t mtime = do
    modify (keep name (record t { mtime = mtime }))
    text ← lift (contents t.filename)
    modify (keep name (record { filename = t.filename; mtime = mtime; text = text }))
    pure text

  unfoldable pub refresh : String → Exec Files String
  unfolding ◌>>=◌ lift modify pure acquire find modified release reload
  refresh name = do
    acquire
    t ← find name
    mtime ← lift (modified t.filename)
    text ← if nat_eq mtime t.mtime then pure t.text else reload name t mtime
    modify release
    pure text
