-- ===== src/Upload/Healthy.antt =====
-- An upload (`DQMFileAccess.put` of src/python/DQM/GUI.py) that is saved did so with no failing call of
-- the operating system, and its checks and calls raise exceptions alone.
use dqmgui_prod.Base.{
  ℕ, ◌+◌, String, Bool, true, false, ◌≡◌, refl, sym, ap, List, [], ◌∷◌, nat_eq, length,
}
use dqmgui_prod.Exec.{Exec, Error, http, os_error, raise, ◌>>◌, when}
use dqmgui_prod.Exec.Outcomes.{
  Agrees, Agrees-same, Agrees-if, Agrees-bind, Agrees-when, ok-≢-raised, Raises, Raises-pure,
  Raises-gets, Raises-raise, Raises-modify, Raises-when, Raises-if, Raises-bind,
}
use dqmgui_prod.Upload.{Site, error}
use dqmgui_prod.Upload.Save.{
  Call, os_call, write_chunks, make_temp, make_dir, move_temp, write_origin_file, save_version,
  add_first, is_exception,
}

abbrev pub none_fail : Call → Bool
none_fail c = false

abbrev pub IsException : Error → Type 0
IsException e = is_exception e ≡ true

module _ (fails : Call → Bool) (temp_name : String → Site → String) where
  os_call-Agrees : (c : Call) → Agrees (os_call fails temp_name c) (os_call none_fail temp_name c)
  unfolding os_call when raise
  os_call-Agrees c = go (fails c)
    where
      go : (b : Bool) → Agrees (when b (raise os_error)) (when {S = Site} false (raise os_error))
      go true = record { apply = λ s t a h. absurd (ok-≢-raised (sym (ap (λ w. w.0) h))) }
      go false = record { apply = λ s t a h. h }

  make_dir-Agrees :
      (dir : String) → Agrees (make_dir fails temp_name dir) (make_dir none_fail temp_name dir)
  unfolding make_dir
  make_dir-Agrees dir =
      Agrees-bind _ _ _ _ (Agrees-same _)
        λ there. Agrees-when _ _ _ (Agrees-bind _ _ _ _ (os_call-Agrees _) (λ _. Agrees-same _))

  make_temp-Agrees :
      (dir : String) → Agrees (make_temp fails temp_name dir) (make_temp none_fail temp_name dir)
  unfolding make_temp
  make_temp-Agrees dir = Agrees-bind _ _ _ _ (os_call-Agrees _) (λ _. Agrees-same _)

  move_temp-Agrees : Agrees (move_temp fails temp_name) (move_temp none_fail temp_name)
  unfolding move_temp
  move_temp-Agrees = Agrees-bind _ _ _ _ (os_call-Agrees _) (λ _. Agrees-same _)

  write_origin_file-Agrees :
      (checksum : String) (size : ℕ)
      → Agrees
          (write_origin_file fails temp_name checksum size)
          (write_origin_file none_fail temp_name checksum size)
  unfolding write_origin_file
  write_origin_file-Agrees checksum size = Agrees-bind _ _ _ _ (os_call-Agrees _) λ _.
      Agrees-bind _ _ _ _ (Agrees-same _)
        λ _. Agrees-bind _ _ _ _ (os_call-Agrees _) (λ _. Agrees-same _)

  write_chunks-Agrees :
      (i : ℕ) (chunks : List (List ℕ)) (first : List ℕ)
      → Agrees
          (write_chunks fails temp_name i chunks first)
          (write_chunks none_fail temp_name i chunks first)
  unfolding write_chunks
  write_chunks-Agrees i [] first = Agrees-bind _ _ _ _ (os_call-Agrees _) (λ _. Agrees-same _)
  write_chunks-Agrees i (chunk ∷ chunks) first = Agrees-bind _ _ _ _ (os_call-Agrees _) λ _.
      Agrees-if (nat_eq (length chunk) 0) _ _ _ _ (Agrees-same _) (
        Agrees-bind _ _ _ _ (os_call-Agrees _) λ _.
          Agrees-bind _ _ _ _ (Agrees-same _)
            λ _. write_chunks-Agrees (i + 1) chunks (add_first first chunk))

  pub save_version-Agrees :
      (uploads filename : String) (size : ℕ) (checksum : String) (chunks : List (List ℕ))
      (version : ℕ)
      → Agrees
          (save_version fails temp_name uploads filename size checksum chunks version)
          (save_version none_fail temp_name uploads filename size checksum chunks version)
  unfolding save_version
  save_version-Agrees uploads filename size checksum chunks version =
      Agrees-bind _ _ _ _ (Agrees-same _) λ _. Agrees-bind _ _ _ _ (make_dir-Agrees _) λ _.
        Agrees-bind _ _ _ _ (make_temp-Agrees _) λ _.
          Agrees-bind _ _ _ _ (write_chunks-Agrees 0 chunks []) λ first.
            Agrees-bind _ _ _ _ (os_call-Agrees _) λ _. Agrees-bind _ _ _ _ (os_call-Agrees _) λ _.
              Agrees-bind _ _ _ _ (Agrees-same _) λ _. Agrees-bind _ _ _ _ (Agrees-same _) λ nsaved.
                Agrees-bind _ _ _ _ (Agrees-same _) λ _.
                  Agrees-bind _ _ _ _ move_temp-Agrees λ _. write_origin_file-Agrees checksum size

  error-Raises :
      {A : Type 0} (code : ℕ) (message : String) → Raises IsException (error {A = A} code message)
  unfolding error
  error-Raises code message =
      Raises-bind _ _ (Raises-modify _) (λ _. Raises-raise (http 500 message) refl)

  os_call-Raises : (c : Call) → Raises IsException (os_call fails temp_name c)
  unfolding os_call
  os_call-Raises c = Raises-when _ _ (Raises-raise os_error refl)

  then-Raises :
      {A : Type 0} (c : Call) (m : Exec Site A)
      → Raises IsException m
      → Raises IsException (os_call fails temp_name c >> m)
  then-Raises c m h = Raises-bind _ _ (os_call-Raises c) (λ _. h)

  write_chunks-Raises :
      (i : ℕ) (chunks : List (List ℕ)) (first : List ℕ)
      → Raises IsException (write_chunks fails temp_name i chunks first)
  unfolding write_chunks
  write_chunks-Raises i [] first = then-Raises _ _ (Raises-pure first)
  write_chunks-Raises i (chunk ∷ chunks) first = then-Raises _ _ (
      Raises-if (nat_eq (length chunk) 0) _ _ (Raises-pure first) (
        then-Raises _ _ (
          Raises-bind _ _ (Raises-modify _)
            λ _. write_chunks-Raises (i + 1) chunks (add_first first chunk))))

  make_dir-Raises : (dir : String) → Raises IsException (make_dir fails temp_name dir)
  unfolding make_dir
  make_dir-Raises dir =
      Raises-bind _ _ (Raises-gets _) λ there. Raises-when _ _ (then-Raises _ _ (Raises-modify _))

  make_temp-Raises : (dir : String) → Raises IsException (make_temp fails temp_name dir)
  unfolding make_temp
  make_temp-Raises dir = then-Raises _ _ (Raises-modify _)

  move_temp-Raises : Raises IsException (move_temp fails temp_name)
  unfolding move_temp
  move_temp-Raises = then-Raises _ _ (Raises-modify _)

  write_origin_file-Raises :
      (checksum : String) (size : ℕ)
      → Raises IsException (write_origin_file fails temp_name checksum size)
  unfolding write_origin_file
  write_origin_file-Raises checksum size =
      then-Raises _ _ (Raises-bind _ _ (Raises-modify _) λ _. then-Raises _ _ (Raises-modify _))

  pub save_version-Raises :
      (uploads filename : String) (size : ℕ) (checksum : String) (chunks : List (List ℕ))
      (version : ℕ)
      → Raises IsException
          (save_version fails temp_name uploads filename size checksum chunks version)
  unfolding save_version
  save_version-Raises uploads filename size checksum chunks version =
      Raises-bind _ _ (Raises-when _ _ (error-Raises _ _)) λ _.
        Raises-bind _ _ (make_dir-Raises _) λ _. Raises-bind _ _ (make_temp-Raises _) λ _.
          Raises-bind _ _ (write_chunks-Raises 0 chunks []) λ first. then-Raises _ _ (
            then-Raises _ _ (
              Raises-bind _ _ (Raises-when _ _ (error-Raises _ _)) λ _.
                Raises-bind _ _ (Raises-gets _) λ nsaved.
                  Raises-bind _ _ (Raises-when _ _ (error-Raises _ _)) λ _.
                    Raises-bind _ _ move_temp-Raises λ _. write_origin_file-Raises checksum size))
