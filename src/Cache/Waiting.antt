-- ===== src/Cache/Waiting.antt =====
-- `cacheFetch` and `lockedCacheFetch` of `OverviewCache` (src/python/Core/Cache.py): a hit calls no
-- producer, the wait for another thread ends, and the flag is down again whatever the producer did.
use dqmgui_prod.Base.{
  ℕ, zero, suc, ◌+◌, ◌-◌, ◌<◌, String, Bool, true, false, ◌≡◌, refl, sym, ap, Option, none, some,
  ltb, arith, eq_refl, Bool-cases, inl, inr, is_some, or_else,
}
use dqmgui_prod.Base.Dict
use dqmgui_prod.Cache.{Cache, Entry, insert}
use dqmgui_prod.Cache
use dqmgui_prod.Cache.Calls.{synchronized_lem}
use dqmgui_prod.Cache.Fetch.{
  get_item, produce, cache_fetch, flagged_produce, wait_for_flag, locked_cache_fetch,
}
use dqmgui_prod.Cache.Methods
use dqmgui_prod.Cache.Methods.{
  Pickle, synchronized, release, read, key_wait_set, key_wait_get, exists, retrieve,
}
use dqmgui_prod.Exec.{Exec, ok, gets, modify, ◌>>=◌, finally_do}
use dqmgui_prod.Exec.Preserves.{Preserves, Preserves-bind, Preserves-when, Preserves-pure}

-- the state of a free cache after a method that only reads
module _ (key : String) (c : Cache) (free : c.locked ≡ false) where
  abbrev idle : Cache
  idle = record c { locked = false }

  idle_lem : idle ≡ c
  idle_lem = λ i. record c { locked = sym free i }

  exists_run : exists key c ≡ (ok (is_some (Dict.lookup key c.entries)), c)
  unfolding exists Cache.exists gets release
  exists_run =
      rw (synchronized_lem _ c free)
        (ap (λ d. (ok (is_some (Dict.lookup key c.entries)), d)) idle_lem)

  key_wait_get_run : key_wait_get key c ≡ (ok (or_else (Dict.lookup key c.events) false), c)
  unfolding key_wait_get gets release
  key_wait_get_run =
      rw (synchronized_lem _ c free)
        (ap (λ d. (ok (or_else (Dict.lookup key c.events) false), d)) idle_lem)

  key_wait_set_run :
      (value : Bool)
      → key_wait_set key value c ≡ (ok tt, record c { events = Dict.insert key value c.events })
  unfolding key_wait_set modify release
  key_wait_set_run value =
      rw (synchronized_lem _ c free)
        (ap (λ (d : Cache). (ok tt, record d { events = Dict.insert key value c.events })) idle_lem)

  retrieve_run :
      {A : Type 0} (pickle : Pickle A) (default : Option A)
      → retrieve pickle key default c ≡ (ok (read pickle key default c), c)
  unfolding retrieve gets release read
  retrieve_run pickle default =
      rw (synchronized_lem _ c free) (ap (λ d. (ok (read pickle key default c), d)) idle_lem)

-- nobody holds the lock
abbrev pub IsFree : Cache → Type 0
IsFree c = c.locked ≡ false

synchronized-IsFree : {B : Type 0} (m : Exec Cache B) → Preserves IsFree (synchronized m)
synchronized-IsFree m = record {
  apply = λ c free. rw (synchronized_lem m c free) (unfold release in refl);
}

-- What is asked of the other threads: between two rounds of a wait they leave the lock free, and
-- nobody changes the interval.
pub record AreNeighbours (others : ℕ → Cache → Cache) : Type 0 where
  pub free : (i : ℕ) (c : Cache) → c.locked ≡ false → (others i c).locked ≡ false
  pub same_interval : (i : ℕ) (c : Cache) → (others i c).wait_interval ≡ c.wait_interval

module _ (maxint : Option ℕ) {A : Type 0} (pickle : Pickle A) (key : String) where
  -- Where the lock is free, a key that is in the cache is answered from it by both fetches and for
  -- any producer: what can be loaded is returned, and the cache is as before.
  pub fetch_hit :
      (others : ℕ → Cache → Cache) (fuel : ℕ) (f_produce : Exec Cache (A × ℕ)) (c : Cache)
      (e : Entry)
      → c.locked ≡ false
      → Dict.lookup key c.entries ≡ some e
      → (cache_fetch maxint pickle key f_produce c ≡ (ok (pickle.loads e.content), c))
        × (locked_cache_fetch maxint pickle others fuel key f_produce c
            ≡ (ok (pickle.loads e.content), c))
  unfolding cache_fetch locked_cache_fetch get_item read ◌>>=◌
  fetch_hit others fuel f_produce c e free here =
      let loaded : read pickle key none c ≡ pickle.loads e.content =
        rw (here, read) (ground arith) in
      rw (exists_run key c free, here, retrieve_run key c free pickle none, loaded) (refl, refl)

  -- The loop of `lockedCacheFetch` that waits for a flag ends in at most as many rounds as seconds
  -- are left, with the lock free, provided that the interval is positive, the lock is free, and
  -- the other threads leave it free and the interval as it is.
  pub wait_for_flag_ends :
      (others : ℕ → Cache → Cache) (fuel round time_to_wait : ℕ) (c : Cache)
      → AreNeighbours others
      → 0 < c.wait_interval
      → c.locked ≡ false
      → time_to_wait < fuel
      → ((wait_for_flag maxint pickle others key fuel round time_to_wait c).0 ≡ ok tt)
        × ((wait_for_flag maxint pickle others key fuel round time_to_wait c).1.locked ≡ false)
  unfolding wait_for_flag ◌>>=◌
  wait_for_flag_ends others zero round t c n p free h = absurd (omega arith)
  wait_for_flag_ends others (suc fuel) round zero c n p free h = (refl, free)
  wait_for_flag_ends others (suc fuel) round (suc t) c n p free h =
      rw (key_wait_get_run key c free)
        (elim (Bool-cases (or_else (Dict.lookup key c.events) false)) [
          | inl up ↦ rw up (
              wait_for_flag_ends others fuel (round + 1) (suc t - c.wait_interval) (others round c)
                n (rw (n.same_interval round c) p) (n.free round c free) (omega arith))
          | inr down ↦ rw down (refl, free)
        ])

  produce-IsFree :
      (f_produce : Exec Cache (A × ℕ))
      → Preserves IsFree f_produce
      → Preserves IsFree (produce maxint pickle key f_produce)
  unfolding produce Methods.insert
  produce-IsFree f_produce kind = Preserves-bind _ _ kind λ made.
      Preserves-bind _ _ (Preserves-when (ltb 0 made.1) _ (λ _. synchronized-IsFree _))
        (λ _. Preserves-pure (some made.0))

  -- Where the lock is free and the producer leaves it free, the last part of `lockedCacheFetch`
  -- has the outcome of `produce` with the flag of the key up, also where that raises; then the
  -- flag of the key is down and the lock is free.
  pub flagged_produce_lem :
      (f_produce : Exec Cache (A × ℕ)) (c : Cache)
      → Preserves IsFree f_produce
      → IsFree c
      → let up : Cache = record c { events = Dict.insert key true c.events } in
        let c' : Cache = (flagged_produce maxint pickle key f_produce c).1 in
        ((flagged_produce maxint pickle key f_produce c).0
          ≡ (produce maxint pickle key f_produce up).0)
        × (Dict.lookup key c'.events ≡ some false)
        × IsFree c'
  unfolding flagged_produce finally_do ◌>>=◌
  flagged_produce_lem f_produce c kind free =
      let up : Cache = record c { events = Dict.insert key true c.events } in
      let made : Cache = (produce maxint pickle key f_produce up).1 in
      let free' : IsFree made = (produce-IsFree f_produce kind).apply up free in
      rw (key_wait_set_run key c free, finally_do, key_wait_set_run key made free' false)
        (
          refl,
          rw (key_wait_set_run key made free' false)
              (rw (Dict.lookup-insert key key false made.events) (rw (eq_refl key))),
          rw (key_wait_set_run key made free' false) free',
        )
