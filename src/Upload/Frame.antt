-- ===== src/Upload/Frame.antt =====
-- What an upload (`DQMFileAccess.put` of src/python/DQM/GUI.py) leaves behind where it fails: nothing.
use dqmgui_prod.Base.{
  ℕ, ◌+◌, String, Bool, true, false, ◌||◌, ◌≡◌, refl, Option, none, some, List, [], ◌∷◌, ◌++◌,
  length, nat_eq, ◌==◌, eq_iff, eq_refl, arith, Bool-cases, Option-cases, inl, inr,
}
use dqmgui_prod.Base.Dict
use dqmgui_prod.Exec.{http, modify}
use dqmgui_prod.Exec.Preserves.{
  Preserves, Preserves-pure, Preserves-raise, Preserves-gets, Preserves-modify, Preserves-bind,
  Preserves-when, Preserves-if, Leads, Leads-bind, Leads-then,
}
use dqmgui_prod.Upload.{Site, error, set_status}
use dqmgui_prod.Upload.Save.{
  Call, origin_of, os_call, write_chunks, make_temp, make_dir, move_temp, write_origin_file,
  append_temp, rename_temp, put_temp, put_origin, save_version, add_first,
}

-- the paths that the running call writes to
abbrev pub is_temp : String → Option String → Bool
is_temp p none = false
is_temp p (some t) = t == p

abbrev pub is_own : String → Site → Bool
is_own p s = s.fname == p || origin_of s.fname == p || is_temp p s.tmp

-- Against the files at the start of a call: its own paths were free, and all others are as they were.
pub record Frame (old : List (String × List ℕ)) (s : Site) : Type 0 where
  pub distinct : Dict.Distinct s.files
  pub own_free : (p : String) → is_own p s ≡ true → Dict.lookup p old ≡ none
  pub others : (p : String) → is_own p s ≡ false → Dict.lookup p s.files ≡ Dict.lookup p old
  pub held : s.locked ≡ true

module _ (old : List (String × List ℕ)) where
  -- a write to a path of the call
  write-Frame :
      (p : String) (content : List ℕ) (s : Site)
      → is_own p s ≡ true
      → Frame old s
      → Frame old (record s { files = Dict.insert p content s.files })
  write-Frame p content s own h = record {
    distinct = Dict.insert-Distinct p content s.files h.distinct;
    own_free = h.own_free;
    others = λ q other.
        ground (arith, Dict.lookup-insert p q content s.files, eq_iff p q, h.others q other);
    held = h.held;
  }

  remove-Frame :
      (p : String) (s : Site)
      → is_own p s ≡ true
      → Frame old s
      → Frame old (record s { files = Dict.remove p s.files })
  remove-Frame p s own h = record {
    distinct = Dict.remove-Distinct p s.files h.distinct;
    own_free = h.own_free;
    others = λ q other.
        ground (arith, Dict.lookup-remove p q s.files h.distinct, eq_iff p q, h.others q other);
    held = h.held;
  }

  -- a temporary name that no file has
  name-Frame :
      (t : String) (s : Site)
      → s.tmp ≡ none
      → Dict.lookup t s.files ≡ none
      → Frame old s
      → Frame old (record s { tmp = some t })
  name-Frame t s unnamed fresh h = record {
    distinct = h.distinct;
    own_free = λ q own. elim (Bool-cases (is_own q s)) [
      | inl was ↦ h.own_free q was
      | inr new ↦ ground (arith, eq_iff t q, h.others q new)
    ];
    others = λ q other. ground (arith, h.others q);
    held = h.held;
  }

  -- what else a call writes
  keep-Frame :
      (dirs : List String) (status : Option (ℕ × String)) (nsaved : ℕ) (s : Site)
      → Frame old s
      → Frame old (record s { dirs = dirs; status = status; nsaved = nsaved })
  keep-Frame dirs status nsaved s h = record {
    distinct = h.distinct;
    own_free = h.own_free;
    others = h.others;
    held = h.held;
  }

  temp_own : (p : String) (s : Site) → s.tmp ≡ some p → is_own p s ≡ true
  temp_own p s e = rw e (ground (arith, eq_refl p))

  append_temp-Frame : (chunk : List ℕ) (s : Site) → Frame old s → Frame old (append_temp chunk s)
  unfolding append_temp
  append_temp-Frame chunk s h = elim (Option-cases s.tmp) [
    | inl unnamed ↦ rw (append_temp, unnamed) h
    | inr (p, named) ↦ rw (append_temp, named) (by_content p named (Dict.lookup p s.files))
  ]
    where
      by_content :
          (p : String)
          → s.tmp ≡ some p
          → (o : Option (List ℕ))
          → Frame old (record s {
            files = elim o [
              | none ↦ s.files
              | some content ↦ Dict.insert p (content ++ chunk) s.files
            ];
            nsaved = s.nsaved + length chunk;
          })
      by_content p named none = keep-Frame s.dirs s.status _ s h
      by_content p named (some content) =
          keep-Frame s.dirs s.status _ _ (write-Frame p (content ++ chunk) s (temp_own p s named) h)

  rename_temp-Frame : (s : Site) → Frame old s → Frame old (rename_temp s)
  unfolding rename_temp
  rename_temp-Frame s h = elim (Option-cases s.tmp) [
    | inl unnamed ↦ rw (rename_temp, unnamed) h
    | inr (p, named) ↦ rw (rename_temp, named) (by_content p named (Dict.lookup p s.files))
  ]
    where
      by_content :
          (p : String)
          → s.tmp ≡ some p
          → (o : Option (List ℕ))
          → Frame old (elim o [
            | none ↦ s
            | some content ↦ record s {
              files = Dict.insert s.fname content (Dict.remove p s.files);
            }
          ])
      by_content p named none = h
      by_content p named (some content) =
          write-Frame s.fname content (record s { files = Dict.remove p s.files })
            (ground (arith, eq_refl s.fname)) (remove-Frame p s (temp_own p s named) h)

  put_origin-Frame : (content : List ℕ) (s : Site) → Frame old s → Frame old (put_origin content s)
  unfolding put_origin
  put_origin-Frame content s h =
      write-Frame (origin_of s.fname) content s (ground (arith, eq_refl (origin_of s.fname))) h

  -- before the temporary file has a name
  abbrev pub Unnamed : Site → Type 0
  Unnamed s = Frame old s × (s.tmp ≡ none)

  error-Frame :
      {A : Type 0} (code : ℕ) (message : String)
      → Preserves (Frame old) (error {A = A} code message)
  unfolding error
  error-Frame code message =
      Preserves-bind _ _
        (Preserves-modify _ (λ s h. unfold set_status in keep-Frame s.dirs _ s.nsaved s h))
        (λ _. Preserves-raise (http 500 message))

  error-Unnamed :
      (code : ℕ) (message : String) → Preserves Unnamed (error {A = Unit {0}} code message)
  unfolding error
  error-Unnamed code message =
      Preserves-bind _ _
        (Preserves-modify _ (λ s h. unfold set_status in (keep-Frame s.dirs _ s.nsaved s h.0, h.1)))
        (λ _. Preserves-raise (http 500 message))

  module _ (fails : Call → Bool) (temp_name : String → Site → String)
      (fresh : (dir : String) (s : Site) → Dict.lookup (temp_name dir s) s.files ≡ none) where
    os_call-keeps : {P : Site → Type 0} (c : Call) → Preserves P (os_call fails temp_name c)
    unfolding os_call
    os_call-keeps c = Preserves-when _ _ (λ _. Preserves-raise _)

    make_dir-Unnamed : (dir : String) → Preserves Unnamed (make_dir fails temp_name dir)
    unfolding make_dir
    make_dir-Unnamed dir = Preserves-bind _ _ (Preserves-gets _) λ there. Preserves-when _ _ λ _.
        Preserves-bind _ _ (os_call-keeps _)
          (λ _. Preserves-modify _ (λ s h. (keep-Frame _ s.status s.nsaved s h.0, h.1)))

    make_temp-Leads : (dir : String) → Leads Unnamed (Frame old) (make_temp fails temp_name dir)
    unfolding make_temp put_temp
    make_temp-Leads dir =
        Leads-bind _ _ (λ s h. h.0) (os_call-keeps _)
          λ _. record {
            apply = λ s h.
                unfold modify in
                (let t = temp_name dir s in
                  let named : Site = record s { tmp = some t } in
                  write-Frame t [] named (temp_own t named refl)
                    (name-Frame t s h.1 (fresh dir s) h.0));
          }

    write_chunks-Frame :
        (i : ℕ) (chunks : List (List ℕ)) (first : List ℕ)
        → Preserves (Frame old) (write_chunks fails temp_name i chunks first)
    unfolding write_chunks
    write_chunks-Frame i [] first = Preserves-bind _ _ (os_call-keeps _) (λ _. Preserves-pure first)
    write_chunks-Frame i (chunk ∷ chunks) first = Preserves-bind _ _ (os_call-keeps _) λ _.
        Preserves-if (nat_eq (length chunk) 0) _ _ (λ _. Preserves-pure first)
          λ _. Preserves-bind _ _ (os_call-keeps _) λ _.
            Preserves-bind _ _ (Preserves-modify _ (append_temp-Frame chunk))
              λ _. write_chunks-Frame (i + 1) chunks (add_first first chunk)

    move_temp-Frame : Preserves (Frame old) (move_temp fails temp_name)
    unfolding move_temp
    move_temp-Frame =
        Preserves-bind _ _ (os_call-keeps _) (λ _. Preserves-modify _ rename_temp-Frame)

    write_origin_file-Frame :
        (checksum : String) (size : ℕ)
        → Preserves (Frame old) (write_origin_file fails temp_name checksum size)
    unfolding write_origin_file
    write_origin_file-Frame checksum size = Preserves-bind _ _ (os_call-keeps _) λ _.
        Preserves-bind _ _ (Preserves-modify _ (put_origin-Frame [])) λ _.
          Preserves-bind _ _ (os_call-keeps _)
            (λ _. Preserves-modify _ (λ s h. put_origin-Frame _ s h))

    pub save_version-Leads :
        (uploads filename : String) (size : ℕ) (checksum : String) (chunks : List (List ℕ))
        (version : ℕ)
        → Leads Unnamed
            (Frame old)
            (save_version fails temp_name uploads filename size checksum chunks version)
    unfolding save_version
    save_version-Leads uploads filename size checksum chunks version =
        Leads-bind _ _ (λ s h. h.0) (Preserves-when _ _ (λ _. error-Unnamed _ _))
          λ _.
            Leads-bind _ _ (λ s h. h.0) (make_dir-Unnamed _)
              λ _. Leads-then _ _ (make_temp-Leads _) λ _.
                Preserves-bind _ _ (write_chunks-Frame 0 chunks []) λ first.
                  Preserves-bind _ _ (os_call-keeps _) λ _.
                    Preserves-bind _ _ (os_call-keeps _) λ _.
                      Preserves-bind _ _ (Preserves-when _ _ (λ _. error-Frame _ _)) λ _.
                        Preserves-bind _ _ (Preserves-gets _) λ nsaved.
                          Preserves-bind _ _ (Preserves-when _ _ (λ _. error-Frame _ _)) λ _.
                            Preserves-bind _ _ move_temp-Frame
                              (λ _. write_origin_file-Frame checksum size)
