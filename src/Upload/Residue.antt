-- ===== src/Upload/Residue.antt =====
-- The removals after a failed upload (the handler of `DQMFileAccess.put` of src/python/DQM/GUI.py)
-- touch no file of others, also where one of them fails.
use dqmgui_prod.Base.{
  ℕ, String, Bool, true, ◌≡◌, ◌∙◌, Option, none, some, List, eq_iff, eq_refl, arith, Bool-cases,
  inl, inr,
}
use dqmgui_prod.Base.Dict
use dqmgui_prod.Exec.{Error, http, blocked, diverged, pure, raise, gets, modify, ◌>>=◌, when}
use dqmgui_prod.Exec.Preserves.{
  Preserves, Preserves-pure, Preserves-raise, Preserves-modify, Preserves-bind,
}
use dqmgui_prod.Upload.{Site, error, set_status, status_fail_execute}
use dqmgui_prod.Upload.Save.{
  Call, origin_of, path_exists, release, os_call, remove_file, remove_temp_file, clean_up, handle,
}
use dqmgui_prod.Upload.Frame.{is_own, is_temp, Frame}
use dqmgui_prod.Upload.Removal.{after_data}

-- Against the files at the start of a call: its own paths were free, and what was there is there still.
pub record Residue (old : List (String × List ℕ)) (s : Site) : Type 0 where
  pub distinct : Dict.Distinct s.files
  pub own_free : (p : String) → is_own p s ≡ true → Dict.lookup p old ≡ none
  pub kept :
      (p : String) (content : List ℕ)
      → Dict.lookup p old ≡ some content
      → Dict.lookup p s.files ≡ some content

module _ (old : List (String × List ℕ)) where
  pub Frame-Residue : (s : Site) → Frame old s → Residue old s
  Frame-Residue s h = record {
    distinct = h.distinct;
    own_free = h.own_free;
    kept = λ p content there. elim (Bool-cases (is_own p s)) [
      | inl own ↦ ground (arith, h.own_free p own, there)
      | inr other ↦ h.others p other ∙ there
    ];
  }

  release-Residue : (s : Site) → Residue old s → Residue old (release s)
  unfolding release
  release-Residue s h = record { distinct = h.distinct; own_free = h.own_free; kept = h.kept }

  module _ (fails : Call → Bool) (temp_name : String → Site → String) where
    remove_file-Residue :
        (c : Call) (p : String)
        → Dict.lookup p old ≡ none
        → Preserves (Residue old) (remove_file fails temp_name c p)
    unfolding remove_file os_call when ◌>>=◌ gets modify pure raise
    remove_file-Residue c p free = record {
      apply = λ s h. elim (Bool-cases (path_exists p s)) [
        | inr absent ↦ rw absent h
        | inl there ↦ elim (Bool-cases (fails c)) [
          | inl failed ↦ rw (there, failed) h
          | inr works ↦
              rw (there, works)
                (record {
                  distinct = Dict.remove-Distinct p s.files h.distinct;
                  own_free = h.own_free;
                  kept = λ q content stored. ground (
                    arith,
                    Dict.lookup-remove p q s.files h.distinct,
                    eq_iff p q,
                    h.kept q content stored,
                    stored,
                    free,
                  );
                })
        ]
      ];
    }

    remove_temp-Residue :
        (t : Option String)
        → ((p : String) → is_temp p t ≡ true → Dict.lookup p old ≡ none)
        → Preserves (Residue old) (remove_temp_file fails temp_name t)
    unfolding remove_temp_file
    remove_temp-Residue none free = Preserves-pure tt
    remove_temp-Residue (some p) free = remove_file-Residue Call.remove_temp p (free p (eq_refl p))

    -- the removals of a call with a given data file
    named-Residue :
        (fname : String)
        → Dict.lookup fname old ≡ none
        → Dict.lookup (origin_of fname) old ≡ none
        → Preserves (Residue old) (
            remove_file fails temp_name Call.remove_data fname >>= λ _.
            after_data fails temp_name fname)
    unfolding ◌>>=◌ gets
    named-Residue fname free free' =
        Preserves-bind _ _ (remove_file-Residue Call.remove_data fname free) λ u.
          Preserves-bind _ _ (remove_file-Residue Call.remove_origin (origin_of fname) free') λ u.
            record {
              apply = λ s h.
                  (remove_temp-Residue s.tmp
                      (λ p named. h.own_free p (ground (arith, named)))).apply
                    s h;
            }

    clean_up-Residue : Preserves (Residue old) (clean_up fails temp_name)
    unfolding clean_up ◌>>=◌ gets
    clean_up-Residue =
        Preserves-bind (modify release)
          (λ _. gets (λ (s : Site). s.fname) >>= λ fname.
            remove_file fails temp_name Call.remove_data fname >>= λ _.
            after_data fails temp_name fname)
          (Preserves-modify release release-Residue)
          λ u. record {
            apply = λ s h.
                (named-Residue s.fname (h.own_free s.fname (ground (arith, eq_refl s.fname))) (
                    h.own_free (origin_of s.fname)
                      (ground (arith, eq_refl (origin_of s.fname))))).apply
                  s h;
          }

    status-Residue :
        (code : ℕ) (message : String) → Preserves (Residue old) (error {A = Unit {0}} code message)
    unfolding error set_status modify raise ◌>>=◌
    status-Residue code message = record {
      apply = λ s h. record { distinct = h.distinct; own_free = h.own_free; kept = h.kept };
    }

    -- whatever removals fail, the handler takes no file that was there
    pub handle-Residue : (e : Error) → Preserves (Residue old) (handle fails temp_name e)
    unfolding handle
    handle-Residue (http code message) =
        Preserves-bind _ _ clean_up-Residue (λ u. Preserves-raise (http code message))
    handle-Residue blocked = Preserves-raise blocked
    handle-Residue diverged = Preserves-raise diverged
    handle-Residue e =
        Preserves-bind _ _ clean_up-Residue
          (λ u. status-Residue status_fail_execute "Failed to save file data")
