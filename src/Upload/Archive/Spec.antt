-- ===== src/Upload/Archive/Spec.antt =====
-- The archive that uploads of files promise: paths with their content. An upload that is refused leaves it
-- as it was, and one that is accepted adds a file and its metadata under paths that were free.
use dqmgui_prod.Base.{
  ℕ, String, Bool, true, ◌≡◌, ◌∙◌, Option, none, some, List, [], ◌∷◌, length, take, same_bytes,
  ◌==◌, eq_iff, arith, if◌then◌else◌,
}
use dqmgui_prod.Exec.{Result, ok, raised, Error}
use dqmgui_prod.Upload.Save.{Call, origin_of, path_of, origin_text, root_header}
use dqmgui_prod.Upload.Success.{content_of}

abbrev pub Archive : Type 0
Archive = String → Option (List ℕ)

-- A file that is sent, and the calls of the operating system that fail meanwhile.
pub record Request : Type 0 where
  pub filename : String
  pub size : ℕ
  pub checksum : String
  pub chunks : List (List ℕ)
  pub fails : Call → Bool

-- the archive with a file and its metadata
abbrev pub add_file : String → List ℕ → List ℕ → Archive → Archive
add_file path content origin a q =
    if origin_of path == q then some origin else if path == q then some content else a q

-- One upload, by its outcome.
pub data Step (uploads : String) (r : Request) (a b : Archive) : Result (Unit {0}) → Type 0 where
  refuse : (e : Error) → ((q : String) → b q ≡ a q) → Step uploads r a b (raised e)
  accept :
      (version : ℕ)
      → (a (path_of uploads r.filename version) ≡ none)
      → (a (origin_of (path_of uploads r.filename version)) ≡ none)
      → (same_bytes (take 5 (content_of r.chunks)) root_header ≡ true)
      → (length (content_of r.chunks) ≡ r.size)
      → ((q : String)
          → b q
            ≡ add_file
                (path_of uploads r.filename version)
                (content_of r.chunks)
                (origin_text r.checksum r.size (path_of uploads r.filename version))
                a
                q)
      → Step uploads r a b (ok tt)

-- a sequence of uploads with their outcomes
pub data History (uploads : String)
    : List Request → List (Result (Unit {0})) → Archive → Archive → Type 0 where
  stop : (a b : Archive) → ((q : String) → b q ≡ a q) → History uploads [] [] a b
  next :
      (r : Request) (rs : List Request) (o : Result (Unit {0})) (os : List (Result (Unit {0})))
      (a b c : Archive)
      → Step uploads r a b o
      → History uploads rs os b c
      → History uploads (r ∷ rs) (o ∷ os) a c

pub Step-keeps :
    {uploads : String} {r : Request} {a b : Archive} {o : Result (Unit {0})}
    → Step uploads r a b o
    → (q : String) (content : List ℕ) → a q ≡ some content
    → b q ≡ some content
Step-keeps (refuse e same) q content there = rw (same q) there
Step-keeps {uploads = uploads} {r = r} {a = a} (accept version free free' root size added) q content
      there =
    let path = path_of uploads r.filename version in
    let own = origin_of path in
    added q ∙ ground (arith, eq_iff path q, eq_iff own q, there, free, free')

-- what is in the archive stays as it is
pub History-keeps :
    {uploads : String} {rs : List Request} {os : List (Result (Unit {0}))} {a b : Archive}
    → History uploads rs os a b
    → (q : String) (content : List ℕ) → a q ≡ some content
    → b q ≡ some content
History-keeps (stop a b same) q content there = rw (same q) there
History-keeps (next r rs o os a b c step rest) q content there =
    History-keeps rest q content (Step-keeps step q content there)
