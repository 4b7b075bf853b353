-- ===== src/Browse/Inside.antt =====
-- The files that `browse` of src/python/DQM/GUI.py hands out, each of them under a root.
use dqmgui_prod.Base.{
  String, true, false, ◌≡◌, refl, some, List, [], ◌∷◌, chars, join, contains, All, all, arith,
  is_alnum, Bool-cases, Option-cases, inl, inr,
}
use mathlib.Core.Path.{subst}
use dqmgui_prod.Base.Dict
use dqmgui_prod.Exec.{ok, pure, raise, lift, when, ◌>>=◌}
use dqmgui_prod.Regex.{matches}
use dqmgui_prod.Regex.Counts.{most, closes, matches-count, contains-dots, contains-slash}
use dqmgui_prod.Browse.{
  Os, Request, download, rx_safe_path, browse, browse_under, browse_path, browse_dir, prepdir,
}

-- a part of a path that names an entry of its directory
unfoldable pub IsPart : String → Type 0
IsPart x = (contains (chars "/") (chars x) ≡ false) × (contains (chars "..") (chars x) ≡ false)

safe-IsPart : (x : String) → matches rx_safe_path x ≡ true → IsPart x
unfolding IsPart most closes is_alnum
safe-IsPart x h = (
  contains-slash (chars x) (matches-count b'/' rx_safe_path 0 x refl refl refl h),
  contains-dots (chars x) (matches-count b'.' rx_safe_path 1 x refl refl refl h),
)

all_safe-IsPart : (path : List String) → all (matches rx_safe_path) path ≡ true → All IsPart path
unfolding all
all_safe-IsPart [] h = tt
all_safe-IsPart (x ∷ path) h = elim (Bool-cases (matches rx_safe_path x)) [
  | inl safe ↦ (safe-IsPart x safe, all_safe-IsPart path (ground (arith, h, safe)))
  | inr bad ↦ absurd (ground (arith, h, bad))
]

module _ (os : Os) (roots : List (String × String)) (req : Request) where
  browse_dir-html :
      (path : List String) (dir pathname : String) (s t : List (String × String))
      → browse_dir os roots req path dir s ≡ (ok (download pathname), t)
      → ⊥
  unfolding browse_dir ◌>>=◌ pure raise lift when prepdir
  browse_dir-html path dir pathname s t h = ground (arith, h)

  browse_path-download :
      (path : List String) (asked pathname : String) (s t : List (String × String))
      → browse_path os roots req path asked s ≡ (ok (download pathname), t)
      → (pathname ≡ asked) × (os.exists pathname ≡ true) × (os.is_dir pathname ≡ false)
  unfolding browse_path raise pure
  browse_path-download path asked pathname s t h =
      ground (arith, h, browse_dir-html path asked pathname s t)

  browse-checked :
      (path : List String) (pathname : String) (s t : List (String × String))
      → browse os roots req path s ≡ (ok (download pathname), t)
      → (all (matches rx_safe_path) path ≡ true)
        × (browse_under os roots req path s ≡ (ok (download pathname), t))
  unfolding browse ◌>>=◌ when raise
  browse-checked path pathname s t h = ground (arith, h)

  browse_under-path :
      (root dir : String) (rest : List String) (pathname : String) (s t : List (String × String))
      → browse_under os roots req (root ∷ rest) s ≡ (ok (download pathname), t)
      → Dict.lookup root roots ≡ some dir
      → browse_path os roots req (root ∷ rest) (join "/" (dir ∷ rest)) s
        ≡ (ok (download pathname), t)
  unfolding browse_under
  browse_under-path root dir rest pathname s t h found = ground (arith, h, found)

  browse_under-found :
      (path : List String) (pathname : String) (s t : List (String × String))
      → browse_under os roots req path s ≡ (ok (download pathname), t)
      → (root : String) × (dir : String) × (rest : List String) × (path ≡ root ∷ rest)
        × (Dict.lookup root roots ≡ some dir)
  unfolding browse_under ◌>>=◌ pure raise lift when prepdir
  browse_under-found [] pathname s t h = absurd (ground (arith, h))
  browse_under-found (root ∷ rest) pathname s t h = elim (Option-cases (Dict.lookup root roots)) [
    | inl missing ↦ absurd (ground (arith, h, missing))
    | inr (dir, found) ↦ (root, dir, rest, refl, found)
  ]

  -- A file that `browse` hands out, whatever the address, is one that exists and is no directory,
  -- and its path is that of a root that the server has, followed by the parts of the address, none
  -- of which has a slash or `..`.
  pub browse-download :
      (path : List String) (pathname : String) (s t : List (String × String))
      → browse os roots req path s ≡ (ok (download pathname), t)
      → (root : String) × (dir : String) × (rest : List String) × (path ≡ root ∷ rest)
        × (Dict.lookup root roots ≡ some dir)
        × (pathname ≡ join "/" (dir ∷ rest))
        × All IsPart rest
        × (os.exists pathname ≡ true)
        × (os.is_dir pathname ≡ false)
  browse-download path pathname s t h =
      let (safe, under) = browse-checked path pathname s t h in
      let (root, dir, rest, split, found) = browse_under-found path pathname s t under in
      let at_root =
        subst (λ x. browse_under os roots req x s ≡ (ok (download pathname), t)) split under in
      let (same, there, plain) =
        browse_path-download (root ∷ rest) (join "/" (dir ∷ rest)) pathname s t
          (browse_under-path root dir rest pathname s t at_root found) in
      let parts =
        all_safe-IsPart (root ∷ rest)
          (subst (λ x. all (matches rx_safe_path) x ≡ true) split safe) in
      (root, dir, rest, split, found, same, parts.1, there, plain)
