-- ===== src/SessionThread/Kept.antt =====
-- The thread that writes sessions (src/python/Core/GUI.py) forgets no session.
use dqmgui_prod.Base.{
  String, Bool, true, false, not, ◌&&◌, ◌||◌, ◌≡◌, refl, none, some, List, [], ◌∷◌, ◌==◌, arith,
  is_some, if◌then◌else◌, Bool-cases, inl, inr,
}
use dqmgui_prod.Base.Dict
use dqmgui_prod.Value.{Fields}
use dqmgui_prod.SessionThread.{
  Writer, Step, save_call, stop_call, run_step, record_session, stop, take, write, advance, after,
  run_steps,
}

abbrev pub holds : String → List (String × Fields) → Bool
holds k d = is_some (Dict.lookup k d)

-- the session has its file, or the thread has its data
abbrev is_here : String → Writer → Bool
is_here k s = holds k s.files || holds k s.save || holds k s.batch

write-here :
    (k : String) (renamed : Bool) (name : String) (content : Fields) (rest : List (String × Fields))
    (s : Writer)
    → s.batch ≡ (name, content) ∷ rest
    → is_here k s ≡ true
    → is_here k (write renamed name content rest s) ≡ true
unfolding write
write-here k renamed name content rest s next h = by_outcome renamed
  where
    in_batch : Dict.lookup k s.batch ≡ (if name == k then some content else Dict.lookup k rest)
    in_batch = rw next (unfold Dict.lookup in refl)

    by_outcome : (b : Bool) → is_here k (write b name content rest s) ≡ true
    by_outcome true = ground (
      arith,
      in_batch,
      Dict.lookup-insert name k content (Dict.remove name s.files),
      Dict.lookup-remove_ne name k s.files,
    )
    by_outcome false = ground (
      arith,
      in_batch,
      Dict.lookup-insert name k content s.save,
      Dict.lookup-remove_ne name k s.files,
    )

nothing : (k : String) → Dict.lookup {V = Fields} k [] ≡ none
unfolding Dict.lookup
nothing k = refl

advance-here :
    (k : String) (renamed : Bool) (s : Writer)
    → is_here k s ≡ true
    → is_here k (advance renamed s) ≡ true
unfolding advance
advance-here k renamed s h = elim (Bool-cases s.ended) [
  | inl over ↦ rw over h
  | inr going ↦ rw going (by_batch s.batch refl)
]
  where
    by_batch :
        (b : List (String × Fields))
        → s.batch ≡ b
        → is_here k (elim b [
          | (name, content) ∷ rest ↦ write renamed name content rest s
          | [] ↦ if s.last then record s { ended = true } else take s
        ])
          ≡ true
    by_batch [] done = empty s.last
      where
        empty : (b : Bool) → is_here k (if b then record s { ended = true } else take s) ≡ true
        empty true = h
        empty false =
            let no_batch : Dict.lookup k s.batch ≡ none = rw done (nothing k) in
            ground (arith, no_batch, nothing k)
    by_batch ((name, content) ∷ rest) next = write-here k renamed name content rest s next h

after-here :
    (k : String) (t : Step) (s : Writer) → is_here k s ≡ true → is_here k (after t s) ≡ true
unfolding after record_session stop
after-here k (save_call name content) s h = ground (arith, Dict.lookup-insert name k content s.save)
after-here k stop_call s h = h
after-here k (run_step renamed) s h = advance-here k renamed s h

-- The session has its file, or the thread is still to write it: in its batch, or in the next one, if
-- there is one.
abbrev pub is_kept : String → Writer → Bool
is_kept k s =
    holds k s.files || (not s.ended && (holds k s.batch || (not s.last && holds k s.save)))

after-last : (t : Step) (s : Writer) → (after t s).last ≡ false → s.last ≡ false
unfolding after record_session stop advance take write
after-last (save_call name content) s h = h
after-last stop_call s h = h
after-last (run_step renamed) s h = elim (Bool-cases s.last) [
  | inr early ↦ early
  | inl late ↦ ground (arith, h, late)
]

after-ended : (t : Step) (s : Writer) → s.last ≡ false → (after t s).ended ≡ s.ended
unfolding after record_session stop advance take write
after-ended (save_call name content) s h = refl
after-ended stop_call s h = refl
after-ended (run_step renamed) s h = ground (arith, h)

run_steps-last : (ts : List Step) (s : Writer) → (run_steps ts s).last ≡ false → s.last ≡ false
unfolding run_steps
run_steps-last [] s h = h
run_steps-last (t ∷ ts) s h = after-last t s (run_steps-last ts (after t s) h)

after_over :
    (k : String) (t : Step) (s : Writer)
    → s.ended ≡ true
    → holds k (after t s).files ≡ holds k s.files
unfolding after record_session stop advance
after_over k (save_call name content) s h = refl
after_over k stop_call s h = refl
after_over k (run_step renamed) s h = rw h refl

after-kept :
    (k : String) (t : Step) (s : Writer)
    → s.last ≡ false
    → (after t s).last ≡ false
    → is_kept k s ≡ true
    → is_kept k (after t s) ≡ true
after-kept k t s early early' h =
    ground (arith, after-here k t s, after-ended t s early, after_over k t s, early, early', h)

-- As long as the thread has not begun its last round, a session that has its file, or that the
-- thread is still to write, stays so under any sequence of steps of the thread and calls of other
-- threads, whichever renames fail.
pub run_steps-kept :
    (k : String) (ts : List Step) (s : Writer)
    → (run_steps ts s).last ≡ false
    → is_kept k s ≡ true
    → is_kept k (run_steps ts s) ≡ true
unfolding run_steps
run_steps-kept k [] s early h = h
run_steps-kept k (t ∷ ts) s early h =
    let next = run_steps-last ts (after t s) early in
    run_steps-kept k ts (after t s) early (after-kept k t s (after-last t s next) next h)
