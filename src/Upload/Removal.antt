-- ===== src/Upload/Removal.antt =====
-- The removals after a failed upload (the handler of `DQMFileAccess.put` of src/python/DQM/GUI.py): what
-- they leave where they work.
use dqmgui_prod.Base.{
  ℕ, ap, String, Bool, true, false, ◌≡◌, refl, sym, ◌∙◌, Option, none, some, List, ◌==◌, eq_iff,
  arith, if◌then◌else◌, Bool-cases, inl, inr,
}
use mathlib.Core.Path.{subst}
use dqmgui_prod.Base.Dict
use dqmgui_prod.Exec.{
  Exec, ok, raised, Error, http, blocked, diverged, pure, raise, gets, modify, ◌>>=◌, when,
}
use dqmgui_prod.Upload.{Site, error, set_status}
use dqmgui_prod.Upload.Save.{
  Call, origin_of, path_exists, is_exception, release, clean_file, os_call, remove_file,
  remove_temp_file, clean_up, handle,
}
use dqmgui_prod.Upload.Frame.{is_temp, Frame}

-- `os.remove` does not fail
abbrev pub Removes : (Call → Bool) → Type 0
Removes fails =
    (fails Call.remove_data ≡ false)
    × (fails Call.remove_origin ≡ false)
    × (fails Call.remove_temp ≡ false)

-- what is left by removals that work
pub clean_temp : Option String → Site → Site
clean_temp none s = s
clean_temp (some path) s = clean_file path s

abbrev pub cleaned : Site → Site
cleaned s = clean_temp s.tmp (clean_file (origin_of s.fname) (clean_file s.fname (release s)))

-- one removal of the cleanup
pub record Cleaned (p : String) (s s' : Site) : Type 0 where
  pub gone :
      (q : String) → Dict.lookup q s'.files ≡ (if p == q then none else Dict.lookup q s.files)
  pub distinct : Dict.Distinct s'.files
  pub same_fname : s'.fname ≡ s.fname
  pub same_tmp : s'.tmp ≡ s.tmp
  pub same_lock : s'.locked ≡ s.locked

pub clean_file-Cleaned :
    (p : String) (s : Site) → Dict.Distinct s.files → Cleaned p s (clean_file p s)
unfolding clean_file path_exists
clean_file-Cleaned p s d = by_test (path_exists p s) refl
  where
    by_test :
        (b : Bool)
        → path_exists p s ≡ b
        → Cleaned p s (if b then record s { files = Dict.remove p s.files } else s)
    by_test true there = record {
      gone = λ q. Dict.lookup-remove p q s.files d;
      distinct = Dict.remove-Distinct p s.files d;
      same_fname = refl;
      same_tmp = refl;
      same_lock = refl;
    }
    by_test false absent = record {
      gone = λ q. ground (arith, eq_iff p q, absent);
      distinct = d;
      same_fname = refl;
      same_tmp = refl;
      same_lock = refl;
    }

-- the removal of the temporary file, which may have no name yet
clean_temp-gone :
    (t : Option String) (s : Site) (q : String)
    → Dict.Distinct s.files
    → (Dict.lookup q (clean_temp t s).files ≡ (if is_temp q t then none else Dict.lookup q s.files))
      × ((clean_temp t s).locked ≡ s.locked)
      × Dict.Distinct (clean_temp t s).files
unfolding clean_temp
clean_temp-gone none s q d = (refl, refl, d)
clean_temp-gone (some p) s q d =
    let c = clean_file-Cleaned p s d in (c.gone q, c.same_lock, c.distinct)

release-lookup : (s : Site) → ((release s).files ≡ s.files) × ((release s).locked ≡ false)
unfolding release
release-lookup s = (refl, refl)

pub cleaned-files :
    (old : List (String × List ℕ)) (s : Site) (q : String)
    → Frame old s
    → (Dict.lookup q (cleaned s).files ≡ Dict.lookup q old)
      × ((cleaned s).locked ≡ false)
      × Dict.Distinct (cleaned s).files
cleaned-files old s q h =
    let free = release-lookup s in
    let first =
      clean_file-Cleaned s.fname (release s)
        (subst (Dict.Distinct {V = List ℕ}) (sym free.0) h.distinct) in
    let second =
      clean_file-Cleaned (origin_of s.fname) (clean_file s.fname (release s)) first.distinct in
    let (gone, lock, distinct) =
      clean_temp-gone s.tmp (clean_file (origin_of s.fname) (clean_file s.fname (release s))) q
        second.distinct in
    (
      ground (arith, cleaned, gone, second.gone q, first.gone q, free.0, h.others q, h.own_free q),
      lock ∙ second.same_lock ∙ first.same_lock ∙ free.1,
      distinct,
    )

step :
    {A B : Type 0} (m : Exec Site A) (f : A → Exec Site B) (s : Site) (a : A) (t : Site)
    → m s ≡ (ok a, t)
    → (m >>= f) s ≡ f a t
unfolding ◌>>=◌
step m f s a t run = rw run refl

module _ (fails : Call → Bool) (temp_name : String → Site → String) where
  -- the removals after that of the metadata, and after that of the data
  abbrev pub after_origin : Exec Site (Unit {0})
  after_origin = gets (λ (s : Site). s.tmp) >>= λ tmp. remove_temp_file fails temp_name tmp

  abbrev pub after_data : String → Exec Site (Unit {0})
  after_data fname =
      remove_file fails temp_name Call.remove_origin (origin_of fname) >>= λ _. after_origin

  remove_file_works :
      (c : Call) (p : String) (s : Site)
      → fails c ≡ false
      → remove_file fails temp_name c p s ≡ (ok tt, clean_file p s)
  unfolding remove_file os_call clean_file when ◌>>=◌ gets modify pure
  remove_file_works c p s works = elim (Bool-cases (path_exists p s)) [
    | inl there ↦ rw (there, works) refl
    | inr absent ↦ rw absent refl
  ]

  remove_temp_file_works :
      (t : Option String) (s : Site)
      → fails Call.remove_temp ≡ false
      → remove_temp_file fails temp_name t s ≡ (ok tt, clean_temp t s)
  unfolding remove_temp_file clean_temp pure
  remove_temp_file_works none s works = refl
  remove_temp_file_works (some p) s works = remove_file_works Call.remove_temp p s works

  clean_up_works :
      (s : Site)
      → Removes fails
      → Dict.Distinct s.files
      → clean_up fails temp_name s ≡ (ok tt, cleaned s)
  unfolding clean_up ◌>>=◌ gets modify release
  clean_up_works s (file, origin, temp) d =
      let first = clean_file-Cleaned s.fname (release s) d in
      let second =
        clean_file-Cleaned (origin_of s.fname) (clean_file s.fname (release s)) first.distinct in
      let left = clean_file (origin_of s.fname) (clean_file s.fname (release s)) in
      step (remove_file fails temp_name Call.remove_data s.fname) (λ _. after_data s.fname)
        (release s) tt _ (remove_file_works Call.remove_data s.fname (release s) file)
      ∙ step (remove_file fails temp_name Call.remove_origin (origin_of s.fname))
          (λ _. after_origin) (clean_file s.fname (release s)) tt left
          (remove_file_works Call.remove_origin (origin_of s.fname) (clean_file s.fname (release s))
            origin)
      ∙ ap (λ t. remove_temp_file fails temp_name t left) (second.same_tmp ∙ first.same_tmp)
      ∙ remove_temp_file_works s.tmp left temp

  -- where the removals work, the handler raises and leaves the files as they were
  pub handle_works :
      (old : List (String × List ℕ)) (e : Error) (s : Site)
      → Removes fails
      → Frame old s
      → is_exception e ≡ true
      → ((e' : Error) × ((handle fails temp_name e s).0 ≡ raised e'))
        × ((q : String)
            → (Dict.lookup q (handle fails temp_name e s).1.files ≡ Dict.lookup q old)
              × ((handle fails temp_name e s).1.locked ≡ false))
        × Dict.Distinct (handle fails temp_name e s).1.files
  unfolding handle set_status error ◌>>=◌ modify raise
  handle_works old (http code message) s works h real = rw (clean_up_works s works h.distinct) (
    (http code message, refl),
    (λ q. let c = cleaned-files old s q h in (c.0, c.1)),
    (cleaned-files old s "" h).2,
  )
  handle_works old blocked s works h real = cc
  handle_works old diverged s works h real = cc
  handle_works old e s works h real = rw (clean_up_works s works h.distinct) (
    (http 500 "Failed to save file data", refl),
    (λ q. let c = cleaned-files old s q h in (c.0, c.1)),
    (cleaned-files old s "" h).2,
  )

-- what is no exception goes on
pub outcome_raises :
    (fails : Call → Bool) (temp_name : String → Site → String) (e : Error) (s : Site)
    → is_exception e ≡ false
    → (handle fails temp_name e s).0 ≡ raised e
unfolding handle raise
outcome_raises fails temp_name blocked s h = refl
outcome_raises fails temp_name diverged s h = refl
outcome_raises fails temp_name e s h = cc
