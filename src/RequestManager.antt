-- ===== src/RequestManager.antt =====
-- `RequestManager` of src/python/Core/HTTP.py, which pumps requests through a number of connections.
pub mod Sound
pub mod Rounds
pub mod Ends
pub mod Raised
use dqmgui_prod.Base.{
  ℕ, zero, suc, ◌+◌, ◌-◌, ◌≡◌, Bool, true, false, ◌&&◌, not, String, Option, none, some, List, [],
  ◌∷◌, ◌++◌, map, nat_eq, ltb, if◌then◌else◌,
}
use dqmgui_prod.Exec.{
  Exec, Result, ok, raised, Error, assertion_error, runtime_error, diverged, pure, raise, lift,
  gets, modify, ◌>>=◌, ◌>>◌, when, for_each,
}

-- What `info_read` returns: the connections whose request succeeded, and those whose request failed,
-- each with its error number and message.
pub record Report : Type 0 where
  pub succeeded : List ℕ
  pub failed : List (ℕ × ℕ × String)

-- The callbacks of the client. Each may queue more tasks, and raise; it sees what was called before.
pub record Client (T : Type 0) : Type 0 where
  pub request_init : T → Result (Unit {0})
  pub request_respond : List T → T → List T × Result (Unit {0})
  pub request_error : List T → T → ℕ → String → List T × Result (Unit {0})

-- A connection is a number. `given` and `answered` record the tasks that were put, and those whose
-- callback was called.
pub record Manager (T : Type 0) : Type 0 where
  -- the last one first
  pub free : List ℕ
  pub queue : List T
  -- the connections that `cm` has, each with its `task`
  pub multi : List (ℕ × T)
  pub npending : ℕ
  pub given : List T
  pub answered : List T

-- `range(0, n)`, the last one first
unfoldable pub connections : ℕ → List ℕ
connections zero = []
connections (suc n) = n ∷ connections n

-- the task of a connection that `cm` has
unfoldable pub task_of : {T : Type 0} → ℕ → List (ℕ × T) → Option T
task_of c [] = none
task_of c ((i, t) ∷ m) = if nat_eq i c then some t else task_of c m

-- `cm.remove_handle`
unfoldable pub drop_handle : {T : Type 0} → ℕ → List (ℕ × T) → List (ℕ × T)
drop_handle c [] = []
drop_handle c ((i, t) ∷ m) = if nat_eq i c then m else (i, t) ∷ drop_handle c m

module _ {T : Type 0} where
  -- the constructor
  unfoldable pub init : ℕ → Manager T
  unfolding connections
  init num_connections = record {
    free = connections num_connections;
    queue = [];
    multi = [];
    npending = 0;
    given = [];
    answered = [];
  }

  unfoldable pub put : T → Manager T → Manager T
  put task m = record m { queue = m.queue ++ (task ∷ []); given = task ∷ m.given }

  unfoldable pub put_all : List T → Manager T → Manager T
  unfolding put
  put_all [] m = m
  put_all (t ∷ ts) m = put_all ts (put t m)

  -- a connection and a task are taken, and the request is set up
  unfoldable pub start : Client T → ℕ → T → List ℕ → List T → Exec (Manager T) (Unit {0})
  start k c task free queue = do
    modify (λ (m : Manager T). record m { free = free; queue = queue })
    lift (k.request_init task)
    modify (λ (m : Manager T). record m { multi = (c, task) ∷ m.multi; npending = m.npending + 1 })

  -- the loop that starts requests while there are tasks, which it is given, and free connections
  unfoldable pub fill : Client T → List T → Exec (Manager T) (Unit {0})
  unfolding start
  fill k [] m = (ok tt, m)
  fill k (task ∷ queue) m = elim m.free [
    | [] ↦ (ok tt, m)
    | c ∷ free ↦ (start k c task free queue >> fill k queue) m
  ]

  -- `assert npending > 0` and `remove_handle`, which raises `pycurl.error` for any other connection
  unfoldable pub take_out : ℕ → Exec (Manager T) T
  unfolding task_of drop_handle
  take_out c m =
      if not (ltb 0 m.npending) then (raised assertion_error, m) else elim (task_of c m.multi) [
        | none ↦ (raised runtime_error, m)
        | some task ↦ (ok task, record m { multi = drop_handle c m.multi })
      ]

  unfoldable pub set_free : ℕ → Manager T → Manager T
  set_free c m = record m { free = c ∷ m.free; npending = m.npending - 1 }

  -- a callback that was called for a task: what it queued, and whether it raised
  unfoldable pub called : T → List T × Result (Unit {0}) → Exec (Manager T) (Unit {0})
  unfolding put_all
  called task (new, r) m = (r, put_all new (record m { answered = task ∷ m.answered }))

  -- the body of the loop over `ok`
  unfoldable pub finish : Client T → ℕ → Exec (Manager T) (Unit {0})
  unfolding take_out called set_free
  finish k c = do
    task ← take_out c
    before ← gets (λ (m : Manager T). m.answered)
    called task (k.request_respond before task)
    modify (set_free c)

  -- the body of the loop over `err`
  unfoldable pub fail : Client T → ℕ × ℕ × String → Exec (Manager T) (Unit {0})
  unfolding take_out called set_free
  fail k (c, errno, errmsg) = do
    task ← take_out c
    modify (set_free c)
    before ← gets (λ (m : Manager T). m.answered)
    called task (k.request_error before task errno errmsg)

  -- the loop over what `info_read` returns until nothing is left
  unfoldable pub read_reports : Client T → List Report → Exec (Manager T) (Unit {0})
  unfolding finish fail for_each
  read_reports k [] m = (ok tt, m)
  read_reports k (r ∷ rs) m =
      (for_each (finish k) r.succeeded >> for_each (fail k) r.failed >> read_reports k rs) m

  -- One round of the outer loop; `info` is what curl reports in it, of the connections that it has.
  unfoldable pub round : Client T → (List ℕ → List Report) → Exec (Manager T) (Unit {0})
  unfolding fill read_reports
  round k info = do
    queue ← gets (λ (m : Manager T). m.queue)
    fill k queue
    multi ← gets (λ (m : Manager T). m.multi)
    read_reports k (info (map (λ h. h.0) multi))

  -- `self.queue or npending`
  unfoldable pub is_busy : Manager T → Bool
  is_busy m = elim m.queue [ [] ↦ ltb 0 m.npending | t ∷ q ↦ true ]

  -- the outer loop from its round `i` on
  unfoldable pub rounds :
      Client T → (ℕ → List ℕ → List Report) → ℕ → ℕ → Exec (Manager T) (Unit {0})
  unfolding round is_busy
  rounds k info zero i m = if is_busy m then (raised diverged, m) else (ok tt, m)
  rounds k info (suc fuel) i m = elim (is_busy m) [
    | true ↦ (round k (info i) >> rounds k info fuel (i + 1)) m
    | false ↦ (ok tt, m)
  ]

  unfoldable pub process : Client T → (ℕ → List ℕ → List Report) → ℕ → Exec (Manager T) (Unit {0})
  unfolding rounds
  process k info fuel = do
    modify (λ (m : Manager T). record m { npending = 0 })
    rounds k info fuel 0
