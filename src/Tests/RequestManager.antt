-- ===== src/Tests/RequestManager.antt =====
-- Requests to other servers (src/python/Core/HTTP.py).
use dqmgui_prod.Base.{
  ℕ, zero, suc, ◌+◌, ◌≡◌, ◌<◌, refl, true, List, [], ◌∷◌, length, arith, ◌⊎◌, nat_eq,
}
use dqmgui_prod.Exec.{ok, raised, diverged, runtime_error}
use dqmgui_prod.RequestManager
use dqmgui_prod.RequestManager.{Report, Client, Manager, init, put, process, finish, fail}
use dqmgui_prod.RequestManager.Sound.{sum, IsSound, IsCalm, IsShrinking}
use dqmgui_prod.RequestManager.Rounds.{IsGenuine, HasNews}
use dqmgui_prod.RequestManager.Ends.{process_safe, process_ends}
use dqmgui_prod.RequestManager.Raised.{raising_callbacks}

-- a task is a number, which queues the one below it where it succeeds
below : ℕ → List ℕ
below zero = []
below (suc n) = n ∷ []

client : Client ℕ
client = record {
  request_init = λ t. ok tt;
  request_respond = λ before t. (below t, ok tt);
  request_error = λ before t errno errmsg. ([], ok tt);
}

-- the first connection succeeds in each round, and the second one fails
info : ℕ → List ℕ → List Report
info i [] = []
info i (c ∷ []) = record { succeeded = c ∷ []; failed = [] } ∷ []
info i (c ∷ d ∷ hs) = record { succeeded = c ∷ []; failed = (d, 28, "Timeout") ∷ [] } ∷ []

same_number : (n : ℕ) → nat_eq n n ≡ true
same_number n = ground arith

info-IsGenuine : IsGenuine info
unfolding info
info-IsGenuine i [] = tt
info-IsGenuine i (c ∷ []) = (rw (same_number c) refl, tt)
info-IsGenuine i (c ∷ d ∷ hs) =
    (rw (same_number c) refl, rw (same_number c) (rw (same_number d) refl, tt))

info-HasNews : HasNews info
unfolding info
info-HasNews i [] h = h
info-HasNews i (c ∷ []) h = omega arith
info-HasNews i (c ∷ d ∷ hs) h = omega arith

client-IsCalm : IsCalm client
unfolding client
client-IsCalm = record {
  init = λ t. refl;
  respond = λ before t. refl;
  error = λ before t errno errmsg. refl;
}

below-light : (t : ℕ) → sum (λ n. suc n) (below t) < suc t
unfolding below
below-light zero = omega arith
below-light (suc t) = omega arith

client-IsShrinking : IsShrinking (λ t. suc t) client
unfolding client
client-IsShrinking = record {
  respond = λ before t. below-light t;
  error = λ before t errno errmsg. omega arith;
}

-- two connections and three tasks
abbrev manager : Manager ℕ
manager = put 0 (put 2 (put 1 (init 2)))

manager-IsSound : IsSound 2 manager
unfolding init put RequestManager.connections
manager-IsSound = record {
  count = refl;
  total = refl;
  apart = λ f. omega arith;
  account = λ f. omega arith;
}

process_safe_example :
    (((process client info 2 manager).0 ≡ ok tt)
      ⊎ ((process client info 2 manager).0 ≡ raised diverged))
    × IsSound 2 (process client info 2 manager).1
unfolding put init RequestManager.connections
process_safe_example =
    process_safe 2 client client-IsCalm info info-IsGenuine 2 manager manager-IsSound refl

process_ends_example :
    (m' : Manager ℕ) × (process client info 7 manager ≡ (ok tt, m'))
    × (m'.queue ≡ [])
    × (m'.multi ≡ [])
    × ((f : ℕ → ℕ) → sum f m'.free ≡ sum f (RequestManager.connections 2))
    × ((f : ℕ → ℕ) → sum f m'.given ≡ sum f m'.answered)
unfolding put init RequestManager.connections
process_ends_example =
    process_ends 2 client client-IsCalm info info-IsGenuine info-HasNews (omega arith) (λ t. suc t)
      client-IsShrinking 7 manager manager-IsSound refl (omega arith)

-- the default `request_error`, and a `request_respond` that raises
raising : Client ℕ
raising = record {
  request_init = λ t. ok tt;
  request_respond = λ before t. ([], raised runtime_error);
  request_error = λ before t errno errmsg. ([], raised runtime_error);
}

abbrev in_progress : Manager ℕ
in_progress = record {
  free = 1 ∷ [];
  queue = [];
  multi = (0, 5) ∷ [];
  npending = 1;
  given = 5 ∷ [];
  answered = [];
}

in_progress-IsSound : IsSound 2 in_progress
unfolding RequestManager.connections
in_progress-IsSound = record {
  count = refl;
  total = refl;
  apart = λ f. omega arith;
  account = λ f. omega arith;
}

raising_callbacks_example :
    (((finish raising 0 in_progress).0 ≡ raised runtime_error)
      × (suc (
            length (finish raising 0 in_progress).1.free
            + length (finish raising 0 in_progress).1.multi)
          ≡ 2)
      × ((finish raising 0 in_progress).1.npending
          ≡ suc (length (finish raising 0 in_progress).1.multi)))
    × ((fail raising (0, 28, "Timeout") in_progress).0 ≡ raised runtime_error)
    × IsSound 2 (fail raising (0, 28, "Timeout") in_progress).1
unfolding raising
raising_callbacks_example =
    raising_callbacks raising runtime_error 2 0 28 "Timeout" in_progress in_progress-IsSound refl
      (λ b t. refl) (λ b t n msg. refl)
