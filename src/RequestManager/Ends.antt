-- ===== src/RequestManager/Ends.antt =====
-- The loop of `RequestManager.process` (src/python/Core/HTTP.py): no assertion fails, the loop ends, and
-- then every task was answered once.
use dqmgui_prod.Base.{
  ℕ, zero, suc, ◌+◌, ◌≡◌, ◌<◌, refl, true, false, List, [], length, arith, ap, sym, ◌∙◌, Bool-cases,
  inl, inr, ◌⊎◌,
}
use dqmgui_prod.Exec.{Exec, ok, raised, diverged, modify, ◌>>=◌}
use dqmgui_prod.RequestManager.{
  Report, Client, Manager, connections, round, is_busy, rounds, process,
}
use dqmgui_prod.RequestManager.Sound.{sum, sum_multi, handles, IsSound, IsCalm, IsShrinking, weight}
use dqmgui_prod.RequestManager.Rounds.{IsGenuine, HasNews, round_lem, is_idle}

module _ {T : Type 0} (n : ℕ) (k : Client T) (calm : IsCalm k) where
  module _ (info : ℕ → List ℕ → List Report) (genuine : IsGenuine info) where
    abbrev End : Exec (Manager T) (Unit {0}) → Manager T → Type 0
    End e m = (m' : Manager T) × (e m ≡ (ok tt, m')) × IsSound n m' × (is_busy m' ≡ false)

    rounds_busy :
        (fuel i : ℕ) (m m' : Manager T)
        → is_busy m ≡ true
        → round k (info i) m ≡ (ok tt, m')
        → rounds k info (suc fuel) i m ≡ rounds k info fuel (i + 1) m'
    unfolding rounds ◌>>=◌
    rounds_busy fuel i m m' busy run = rw (rounds, busy) (rw run refl)

    rounds_idle :
        (fuel i : ℕ) (m : Manager T) → is_busy m ≡ false → rounds k info (suc fuel) i m ≡ (ok tt, m)
    unfolding rounds
    rounds_idle fuel i m idle = rw (rounds, idle) refl

    rounds-End :
        HasNews info
        → 0 < n
        → (w : T → ℕ) → IsShrinking w k
        → (fuel i : ℕ) (m : Manager T) → IsSound n m
        → weight w m < fuel
        → End (rounds k info fuel i) m
    rounds-End news some_n w l zero i m h enough = absurd (omega arith)
    rounds-End news some_n w l (suc fuel) i m h enough = elim (Bool-cases (is_busy m)) [
      | inl busy ↦
          let (m1, run, h1, less) = round_lem n k calm info genuine i m h in
          let (m2, run', h2, idle) =
            rounds-End news some_n w l fuel (i + 1) m1 h1
              (omega (arith, less news some_n busy w l)) in
          (m2, rounds_busy fuel i m m1 busy run ∙ run', h2, idle)
      | inr idle ↦ (m, rounds_idle fuel i m idle, h, idle)
    ]

    rounds_safe :
        (fuel i : ℕ) (m : Manager T)
        → IsSound n m
        → (((rounds k info fuel i m).0 ≡ ok tt) ⊎ ((rounds k info fuel i m).0 ≡ raised diverged))
          × IsSound n (rounds k info fuel i m).1
    unfolding rounds ◌>>=◌
    rounds_safe zero i m h = elim (Bool-cases (is_busy m)) [
      | inl busy ↦ rw busy (inr refl, h)
      | inr idle ↦ rw idle (inl refl, h)
    ]
    rounds_safe (suc fuel) i m h = elim (Bool-cases (is_busy m)) [
      | inl busy ↦
          let (m1, run, h1, less) = round_lem n k calm info genuine i m h in
          rw (rounds_busy fuel i m m1 busy run) (rounds_safe fuel (i + 1) m1 h1)
      | inr idle ↦ rw (rounds_idle fuel i m idle) (inl refl, h)
    ]

    -- what `process` does to a manager with no requests in progress
    process_run :
        (fuel : ℕ) (m : Manager T)
        → IsSound n m
        → m.multi ≡ []
        → process k info fuel m ≡ rounds k info fuel 0 m
    unfolding process ◌>>=◌ modify
    process_run fuel m h none_yet = rw (sym (h.count ∙ ap length none_yet)) refl

    -- Where callbacks do not raise and curl reports connections that it has, each once at most,
    -- however many rounds are made: no assertion fails and no connection is removed that is not in
    -- use, each connection that the constructor made is free or in use, once, `npending` is the
    -- number of those in use, and every task put is queued, in progress or answered, and only one
    -- of these.
    pub process_safe :
        (fuel : ℕ) (m : Manager T)
        → IsSound n m
        → m.multi ≡ []
        → (((process k info fuel m).0 ≡ ok tt) ⊎ ((process k info fuel m).0 ≡ raised diverged))
          × IsSound n (process k info fuel m).1
    process_safe fuel m h none_yet = rw (process_run fuel m h none_yet) (rounds_safe fuel 0 m h)

    -- The processing of requests ends, with no exception, where callbacks do not raise, the tasks
    -- that a callback queues weigh less than the task it is called for, and there is a connection:
    -- curl reports connections that it has, each once at most, and some in every round counted.
    -- The fuel has to be greater than the weight of the tasks. Then no task is queued, no request
    -- is in progress, the free connections are those that the constructor made, and every task put
    -- was answered exactly once: any number of each connection, or of each task, has the same sum
    -- over both.
    pub process_ends :
        HasNews info
        → 0 < n
        → (w : T → ℕ) → IsShrinking w k
        → (fuel : ℕ) (m : Manager T) → IsSound n m
        → m.multi ≡ []
        → weight w m < fuel
        → (m' : Manager T) × (process k info fuel m ≡ (ok tt, m'))
          × (m'.queue ≡ [])
          × (m'.multi ≡ [])
          × ((f : ℕ → ℕ) → sum f m'.free ≡ sum f (connections n))
          × ((f : T → ℕ) → sum f m'.given ≡ sum f m'.answered)
    process_ends news some_n w l fuel m h none_yet enough =
        let (m', run, h', idle) = rounds-End news some_n w l fuel 0 m h enough in
        let (no_tasks, no_requests) = is_idle n k calm m' h' idle in
        (
          m',
          process_run fuel m h none_yet ∙ run,
          no_tasks,
          no_requests,
          λ f. omega (arith, h'.apart f, ap (λ l. sum f (handles l)) no_requests),
          λ f. omega (arith, h'.account f, ap (sum f) no_tasks, ap (sum_multi f) no_requests),
        )
