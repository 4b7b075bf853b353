-- ===== src/Pages/Fresh.antt =====
-- What `_maybeRefreshFile` of src/python/Core/GUI.py returns, and what a failure leaves behind.
use dqmgui_prod.Base.{
  ℕ, String, Bool, true, false, ◌≡◌, refl, sym, ap, ◌∙◌, Option, some, List, nat_eq, ◌==◌,
  Bool-cases, inl, inr, arith, if◌then◌else◌,
}
use mathlib.Core.Path.{subst}
use dqmgui_prod.Base.Dict
use dqmgui_prod.Exec.{Error, ok, raised, blocked, pure, lift, modify, ◌>>=◌}
use dqmgui_prod.Pages.Files.{
  Template, Files, acquire, release, find, keep, modified, contents, reload, refresh,
}

-- what was read at the present time of modification is what the file has
unfoldable pub IsCurrent : (String → Option ℕ) → (String → Option String) → Template → Type 0
IsCurrent stat read t = stat t.filename ≡ some t.mtime → read t.filename ≡ some t.text

unfoldable pub AllCurrent : (String → Option ℕ) → (String → Option String) → Files → Type 0
AllCurrent stat read s =
    (name : String) (t : Template) → Dict.lookup name s.templates ≡ some t → IsCurrent stat read t

some-injective : {A : Type 0} {a b : A} → some a ≡ some b → a ≡ b
some-injective h = cc

module _ (stat : String → Option ℕ) (read : String → Option String) where
  abbrev open_with : List (String × Template) → Files
  open_with d = record { templates = d; locked = false }

  same_mtime :
      (name : String) (t : Template) (d : List (String × Template))
      → Dict.lookup name d ≡ some t
      → stat t.filename ≡ some t.mtime
      → refresh stat read name (open_with d) ≡ (ok t.text, open_with d)
  unfolding refresh ◌>>=◌ lift pure modify release acquire find modified
  same_mtime name t d found seen = ground (arith, found, seen)

  other_mtime :
      (name : String) (t : Template) (m : ℕ) (text : String) (d : List (String × Template))
      → Dict.lookup name d ≡ some t
      → stat t.filename ≡ some m
      → nat_eq m t.mtime ≡ false
      → read t.filename ≡ some text
      → refresh stat read name (open_with d) ≡ (
        ok text,
        open_with (Dict.insert name (record { filename = t.filename; mtime = m; text = text }) d),
      )
  unfolding refresh ◌>>=◌ lift pure modify release acquire find modified reload contents
  other_mtime name t m text d found seen changed written = ground (
    arith,
    found,
    seen,
    changed,
    written,
    Dict.insert-insert name (record { filename = t.filename; mtime = m; text = t.text })
        (record { filename = t.filename; mtime = m; text = text }) d,
  )

  AllCurrent-insert :
      (name : String) (t : Template) (d : List (String × Template))
      → read t.filename ≡ some t.text
      → AllCurrent stat read (open_with d)
      → AllCurrent stat read (open_with (Dict.insert name t d))
  unfolding AllCurrent IsCurrent
  AllCurrent-insert name t d written current k u found same = elim (Bool-cases (name == k)) [
    | inl here ↦ subst (λ x. read x.filename ≡ some x.text) (the_one here) written
    | inr other ↦ current k u (sym (looked other) ∙ found) same
  ]
    where
      looked :
          {b : Bool}
          → (name == k) ≡ b
          → Dict.lookup k (Dict.insert name t d) ≡ (if b then some t else Dict.lookup k d)
      looked h = Dict.lookup-insert name k t d ∙ ap (λ b. if b then some t else Dict.lookup k d) h

      the_one : (name == k) ≡ true → t ≡ u
      the_one here = some-injective (sym (looked here) ∙ found)

  refresh_with :
      (name : String) (t : Template) (m : ℕ) (text : String) (d : List (String × Template))
      → AllCurrent stat read (open_with d)
      → Dict.lookup name d ≡ some t
      → stat t.filename ≡ some m
      → read t.filename ≡ some text
      → (s' : Files) × (refresh stat read name (open_with d) ≡ (ok text, s'))
        × (s'.locked ≡ false)
        × AllCurrent stat read s'
  unfolding AllCurrent IsCurrent
  refresh_with name t m text d current found seen written = elim (Bool-cases (nat_eq m t.mtime)) [
    | inl same ↦
        let at : m ≡ t.mtime = grind (arith, same) in
        let now : stat t.filename ≡ some t.mtime = rw (sym at) seen in
        let read_text : t.text ≡ text = some-injective (sym (current name t found now) ∙ written) in
        (
          open_with d,
          same_mtime name t d found now ∙ ap (λ x. (ok x, open_with d)) read_text,
          refl,
          current,
        )
    | inr changed ↦ (
      open_with (Dict.insert name (record { filename = t.filename; mtime = m; text = text }) d),
      other_mtime name t m text d found seen changed written,
      refl,
      AllCurrent-insert name (record { filename = t.filename; mtime = m; text = text }) d written
          current,
    )
  ]

  -- Where every template in memory that was read at the present time of modification of its file
  -- has what the file has, and the lock is free, `_maybeRefreshFile` of a template with a file
  -- that can be read returns what the file has, leaves the lock free, and the templates are still
  -- so.
  pub refresh_current :
      (name : String) (t : Template) (m : ℕ) (text : String) (s : Files)
      → s.locked ≡ false
      → AllCurrent stat read s
      → Dict.lookup name s.templates ≡ some t
      → stat t.filename ≡ some m
      → read t.filename ≡ some text
      → (s' : Files) × (refresh stat read name s ≡ (ok text, s'))
        × (s'.locked ≡ false)
        × AllCurrent stat read s'
  unfolding AllCurrent
  refresh_current name t m text s free current found seen written =
      subst
        (λ b.
          (s' : Files) × (refresh stat read name (record { templates = s.templates; locked = b })
            ≡ (ok text, s'))
          × (s'.locked ≡ false)
          × AllCurrent stat read s')
        (sym free) (refresh_with name t m text s.templates current found seen written)

  locked-refresh :
      (name : String) (s : Files) → s.locked ≡ true → (refresh stat read name s).0 ≡ raised blocked
  unfolding refresh ◌>>=◌ acquire
  locked-refresh name s held = ground (arith, held)

  failed-locked :
      (name : String) (e : Error) (s : Files)
      → (refresh stat read name s).0 ≡ raised e
      → (refresh stat read name s).1.locked ≡ true
  unfolding refresh ◌>>=◌ lift pure modify release acquire find modified reload contents keep
  failed-locked name e s failed = ground (arith, failed)

  -- After `_maybeRefreshFile` has raised, whether the template or its file is missing, every later
  -- call of it, of any template, waits for the lock for ever.
  pub refresh_blocked :
      (name other : String) (e : Error) (s : Files)
      → (refresh stat read name s).0 ≡ raised e
      → (refresh stat read other (refresh stat read name s).1).0 ≡ raised blocked
  refresh_blocked name other e s failed =
      locked-refresh other (refresh stat read name s).1 (failed-locked name e s failed)
