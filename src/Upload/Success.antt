-- ===== src/Upload/Success.antt =====
-- What an upload (`DQMFileAccess.put` of src/python/DQM/GUI.py) saves where nothing fails.
use dqmgui_prod.Base.{
  ℕ, ◌+◌, String, Bool, true, false, ◌≡◌, refl, sym, ◌∙◌, some, List, [], ◌∷◌, ◌++◌, append_assoc,
  append-nil, length, length-append, take, take-append-append_take, take-append_enough, nat_eq, ltb,
  eq_refl, arith, if◌then◌else◌, Bool-cases, inl, inr, same_bytes,
}
use dqmgui_prod.Base.Dict
use dqmgui_prod.Exec.{ok, pure, gets, modify, ◌>>=◌, when}
use dqmgui_prod.Upload.{Site}
use dqmgui_prod.Upload.Save.{
  Call, origin_of, path_of, dir_of, path_exists, os_call, write_chunks, make_temp, make_dir,
  move_temp, write_origin_file, append_temp, rename_temp, put_temp, put_origin, origin_text,
  save_version, add_first, is_bad_path, root_header,
}

-- the content of a file: its chunks up to the first empty one
unfoldable pub content_of : List (List ℕ) → List ℕ
content_of [] = []
content_of (chunk ∷ chunks) = if nat_eq (length chunk) 0 then [] else chunk ++ content_of chunks

-- the site once some more of the content is in the temporary file
abbrev pub written : String → List ℕ → ℕ → Site → Site
written t content n s = record s { files = Dict.insert t content s.files; nsaved = n }

written_nothing :
    (t : String) (old : List ℕ) (s : Site)
    → Dict.lookup t s.files ≡ some old
    → written t (old ++ []) (s.nsaved + 0) s ≡ s
written_nothing t old s here =
    let files : Dict.insert t (old ++ []) s.files ≡ s.files =
      rw (append-nil old) (Dict.insert_same t old s.files here) in
    let n : s.nsaved + 0 ≡ s.nsaved = omega arith in λ i. record s { files = files i; nsaved = n i }

append_temp_run :
    (t : String) (old chunk : List ℕ) (s : Site)
    → s.tmp ≡ some t
    → Dict.lookup t s.files ≡ some old
    → append_temp chunk s ≡ written t (old ++ chunk) (s.nsaved + length chunk) s
unfolding append_temp
append_temp_run t old chunk s named here =
    rw (append_temp, named)
      (rw here
        (λ i. record (written t (old ++ chunk) (s.nsaved + length chunk) s) { tmp = named i }))

written_twice :
    (t : String) (old chunk rest : List ℕ) (n : ℕ) (s : Site)
    → written t
        ((old ++ chunk) ++ rest)
        (n + length chunk + length rest)
        (written t (old ++ chunk) (n + length chunk) s)
      ≡ written t (old ++ (chunk ++ rest)) (n + length (chunk ++ rest)) s
written_twice t old chunk rest n s =
    let files : Dict.insert t ((old ++ chunk) ++ rest) (Dict.insert t (old ++ chunk) s.files)
        ≡ Dict.insert t (old ++ (chunk ++ rest)) s.files =
      rw (Dict.insert-insert t (old ++ chunk) ((old ++ chunk) ++ rest) s.files, append_assoc)
        refl in
    let count : n + length chunk + length rest ≡ n + length (chunk ++ rest) =
      omega (arith, length-append chunk rest) in
    λ i. record s { files = files i; nsaved = count i }

take-add_first :
    (first chunk rest : List ℕ)
    → take 5 (add_first first chunk ++ rest) ≡ take 5 (first ++ (chunk ++ rest))
take-add_first first chunk rest = elim (Bool-cases (ltb (length first) 5)) [
  | inl short ↦
      rw (short, append_assoc) (take-append-append_take 5 5 first chunk rest (omega arith))
  | inr long ↦ rw long (
      take-append_enough 5 first rest (ground arith)
      ∙ sym (take-append_enough 5 first (chunk ++ rest) (ground arith)))
]

-- the name that the temporary file gets
unfoldable pub temp_of : (String → Site → String) → String → ℕ → Site → String
temp_of temp_name uploads version s =
    let dir = dir_of uploads version in
    temp_name dir (record s { dirs = if path_exists dir s then s.dirs else dir ∷ s.dirs })

module _ (fails : Call → Bool) (temp_name : String → Site → String)
    (healthy : (c : Call) → fails c ≡ false) where
  pub os_call_run : (c : Call) (s : Site) → os_call fails temp_name c s ≡ (ok tt, s)
  unfolding os_call when
  os_call_run c s = rw (healthy c) refl

  -- The loop that copies: the temporary file ends with the content, of which the first bytes are
  -- remembered.
  pub write_chunks_run :
      (t : String) (i : ℕ) (chunks : List (List ℕ)) (first old : List ℕ) (s : Site)
      → s.tmp ≡ some t
      → Dict.lookup t s.files ≡ some old
      → (f : List ℕ) × (write_chunks fails temp_name i chunks first s
          ≡ (ok f, written t (old ++ content_of chunks) (s.nsaved + length (content_of chunks)) s))
        × (take 5 f ≡ take 5 (first ++ content_of chunks))
  unfolding write_chunks content_of ◌>>=◌ pure modify
  write_chunks_run t i [] first old s named here = (
    first,
    rw (os_call_run (Call.read i) s, written_nothing t old s here) refl,
    rw append-nil refl,
  )
  write_chunks_run t i (chunk ∷ chunks) first old s named here =
      elim (Bool-cases (nat_eq (length chunk) 0)) [
        | inl last ↦ (
          first,
          rw (os_call_run (Call.read i) s) (rw (last, written_nothing t old s here) refl),
          rw (last, append-nil) refl,
        )
        | inr more ↦
            let s1 : Site = written t (old ++ chunk) (s.nsaved + length chunk) s in
            let here1 : Dict.lookup t s1.files ≡ some (old ++ chunk) =
              rw (Dict.lookup-insert t t (old ++ chunk) s.files) (rw (eq_refl t) refl) in
            let (f, run, bytes) =
              write_chunks_run t (i + 1) chunks (add_first first chunk) (old ++ chunk) s1 named
                here1 in
            (
              f,
              rw (os_call_run (Call.read i) s) (
                  rw more (
                    rw (os_call_run (Call.write_data i) s) (
                      rw (append_temp_run t old chunk s named here) (
                        rw (run, written_twice t old chunk (content_of chunks) s.nsaved s) refl)))),
              rw more (bytes ∙ take-add_first first chunk (content_of chunks)),
            )
      ]

  pub make_dir_run :
      (dir : String) (s : Site)
      → make_dir fails temp_name dir s
        ≡ (ok tt, record s { dirs = if path_exists dir s then s.dirs else dir ∷ s.dirs })
  unfolding make_dir ◌>>=◌ gets modify when
  make_dir_run dir s = elim (Bool-cases (path_exists dir s)) [
    | inl there ↦ rw there refl
    | inr new ↦ rw (new, os_call_run Call.makedirs s) refl
  ]

  pub make_temp_run :
      (dir : String) (s : Site)
      → make_temp fails temp_name dir s ≡ (ok tt, put_temp (temp_name dir s) s)
  unfolding make_temp ◌>>=◌ modify
  make_temp_run dir s = rw (os_call_run Call.mkstemp s) refl

  move_temp_run : (s : Site) → move_temp fails temp_name s ≡ (ok tt, rename_temp s)
  unfolding move_temp ◌>>=◌ modify
  move_temp_run s = rw (os_call_run Call.move s) refl

  write_origin_file_run :
      (checksum : String) (size : ℕ) (s : Site)
      → write_origin_file fails temp_name checksum size s
        ≡ (ok tt, put_origin (origin_text checksum size s.fname) s)
  unfolding write_origin_file ◌>>=◌ modify put_origin
  write_origin_file_run checksum size s =
      rw
        (
          os_call_run Call.open_file s,
          os_call_run Call.write_file
              (record s { files = Dict.insert (origin_of s.fname) [] s.files }),
        )
        (let f =
            Dict.insert-insert (origin_of s.fname) [] (origin_text checksum size s.fname) s.files in
          λ i. (ok tt, record s { files = f i }))

  rename_temp_run :
      (t : String) (content : List ℕ) (s : Site)
      → s.tmp ≡ some t
      → Dict.lookup t s.files ≡ some content
      → (rename_temp s).files ≡ Dict.insert s.fname content (Dict.remove t s.files)
        × ((rename_temp s).fname ≡ s.fname)
        × ((rename_temp s).locked ≡ s.locked)
  unfolding rename_temp
  rename_temp_run t content s named here = rw (rename_temp, named) (rw here (refl, refl, refl))

  put_origin_run :
      (content : List ℕ) (s : Site)
      → ((put_origin content s).files ≡ Dict.insert (origin_of s.fname) content s.files)
        × ((put_origin content s).locked ≡ s.locked)
  unfolding put_origin
  put_origin_run content s = (refl, refl)

  -- the end of the body, from the state in which the content is in the temporary file
  finish_run :
      (t checksum : String) (content : List ℕ) (size : ℕ) (s : Site)
      → s.tmp ≡ some t
      → Dict.lookup t s.files ≡ some content
      → (s' : Site) × ((move_temp fails temp_name >>= λ _.
              write_origin_file fails temp_name checksum size)
            s
          ≡ (ok tt, s'))
        × (s'.files
            ≡ Dict.insert
                (origin_of s.fname)
                (origin_text checksum size s.fname)
                (Dict.insert s.fname content (Dict.remove t s.files)))
        × (s'.locked ≡ s.locked)
  unfolding ◌>>=◌
  finish_run t checksum content size s named here =
      let moved = rename_temp_run t content s named here in
      let m : Site = rename_temp s in
      let last = put_origin_run (origin_text checksum size m.fname) m in
      (
        put_origin (origin_text checksum size m.fname) m,
        rw (move_temp_run s) (write_origin_file_run checksum size m),
        rw (last.0, moved.0, moved.1) refl,
        last.1 ∙ moved.2,
      )

  module _ (uploads filename checksum : String) (chunks : List (List ℕ))
      (is_root : same_bytes (take 5 (content_of chunks)) root_header ≡ true) where
    -- the site once the temporary file is there
    abbrev with_temp : ℕ → Site → Site
    with_temp version s =
        let dir = dir_of uploads version in
        let s1 : Site = record s { dirs = if path_exists dir s then s.dirs else dir ∷ s.dirs } in
        put_temp (temp_name dir s1) s1

    pub save_version_run :
        (version : ℕ) (s : Site)
        → is_bad_path (path_of uploads filename version) ≡ false
        → s.nsaved ≡ 0
        → (s' : Site) × (save_version fails temp_name uploads filename
              (length (content_of chunks))
              checksum
              chunks
              version
              s
            ≡ (ok tt, s'))
          × (s'.files
              ≡ Dict.insert
                  (origin_of s.fname)
                  (origin_text checksum (length (content_of chunks)) s.fname)
                  (Dict.insert s.fname (content_of chunks) (
                    Dict.remove (temp_of temp_name uploads version s) (
                      Dict.insert
                        (temp_of temp_name uploads version s)
                        (content_of chunks)
                        s.files))))
          × (s'.locked ≡ s.locked)
    unfolding save_version put_temp temp_of ◌>>=◌ gets when modify
    save_version_run version s fine zeroed =
        let t = temp_of temp_name uploads version s in
        let content = content_of chunks in
        let s2 : Site = with_temp version s in
        let here : Dict.lookup t s2.files ≡ some [] =
          rw (Dict.lookup-insert t t [] s.files) (rw (eq_refl t) refl) in
        let (f, copied, bytes) = write_chunks_run t 0 chunks [] [] s2 refl here in
        let s3 : Site = written t content (s2.nsaved + length content) s2 in
        let here3 : Dict.lookup t s3.files ≡ some content =
          rw (Dict.lookup-insert t t content s2.files) (rw (eq_refl t) refl) in
        let header : same_bytes (take 5 f) root_header ≡ true = rw bytes is_root in
        let size : nat_eq (s2.nsaved + length content) (length content) ≡ true =
          ground (arith, zeroed) in
        let (s', ended, files, lock) =
          finish_run t checksum content (length content) s3 refl here3 in
        (
          s',
          rw fine (
              rw (make_dir_run (dir_of uploads version) s) (
                rw (make_temp_run (dir_of uploads version)) (
                  rw copied (
                    rw (os_call_run Call.close s3, os_call_run Call.chmod s3)
                      (rw (header) (rw size ended)))))),
          rw files (rw (Dict.insert-insert t [] content s.files) refl),
          lock,
        )
