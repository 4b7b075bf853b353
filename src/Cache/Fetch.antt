-- ===== src/Cache/Fetch.antt =====
-- `cacheFetch`, `lockedCacheFetch` and `asyncWorker` of src/python/Core/Cache.py. The function
-- `f_produce` is any action on the cache, so it may raise and may let other threads in. What other
-- threads do during the sleeps of `lockedCacheFetch` is the parameter `others`, by the round.
use dqmgui_prod.Base.{
  ℕ, zero, suc, ◌+◌, ◌-◌, String, true, false, Option, none, some, ltb, not, if◌then◌else◌,
}
use dqmgui_prod.Cache.{Cache}
use dqmgui_prod.Cache.Methods.{Pickle, insert, retrieve, exists, key_wait_get, key_wait_set}
use dqmgui_prod.Exec.{
  Exec, diverged, pure, raise, gets, modify, ◌>>=◌, ◌>>◌, when, finally_do, except_any,
}

module _ (maxint : Option ℕ) {A : Type 0} (pickle : Pickle A) where
  -- `self[cachekey]`
  unfoldable pub get_item : String → Exec Cache (Option A)
  get_item cachekey = retrieve pickle cachekey none

  -- `cachedata, lifetime = f_produce(…)`, and the insertion where the lifetime is positive
  unfoldable pub produce : String → Exec Cache (A × ℕ) → Exec Cache (Option A)
  produce cachekey f_produce = do
    (cachedata, lifetime) ← f_produce
    when (ltb 0 lifetime) (insert maxint pickle cachekey lifetime cachedata)
    pure (some cachedata)

  -- `cacheFetch`
  unfoldable pub cache_fetch : String → Exec Cache (A × ℕ) → Exec Cache (Option A)
  cache_fetch cachekey f_produce = do
    found ← exists cachekey
    if found then get_item cachekey else produce cachekey f_produce

  -- the last part of `lockedCacheFetch`: the flag is up while the data is produced
  unfoldable pub flagged_produce : String → Exec Cache (A × ℕ) → Exec Cache (Option A)
  flagged_produce cachekey f_produce = do
    key_wait_set cachekey true
    finally_do (produce cachekey f_produce) (key_wait_set cachekey false)

  -- `while time_to_wait > 0 and self.key_wait_get(cachekey): …`. The time may fall below 0, where
  -- the test answers as at 0.
  unfoldable pub wait_for_flag : (ℕ → Cache → Cache) → String → ℕ → ℕ → ℕ → Exec Cache (Unit {0})
  unfolding pure raise
  wait_for_flag others cachekey zero round time_to_wait c = raise diverged c
  wait_for_flag others cachekey (suc fuel) round zero c = pure tt c
  wait_for_flag others cachekey (suc fuel) round (suc t) c =
      (do
        flag ← key_wait_get cachekey
        interval ← gets (λ (d : Cache). d.wait_interval)
        let again = do
          modify (others round)
          wait_for_flag others cachekey fuel (round + 1) (suc t - interval)
        if flag then again else pure tt)
        c

  -- `lockedCacheFetch`
  unfoldable pub locked_cache_fetch :
      (ℕ → Cache → Cache) → ℕ → String → Exec Cache (A × ℕ) → Exec Cache (Option A)
  locked_cache_fetch others fuel cachekey f_produce = do
    found ← exists cachekey
    if found then get_item cachekey else do
      flag ← key_wait_get cachekey
      if flag
          then (do
            time_to_wait ← gets (λ (c : Cache). c.wait_expiry)
            wait_for_flag others cachekey fuel 0 time_to_wait
            now_found ← exists cachekey
            if now_found then get_item cachekey else flagged_produce cachekey f_produce)
          else flagged_produce cachekey f_produce

  -- `asyncWorker`, with its bare `except: pass`
  unfoldable pub async_worker : String → Exec Cache (A × ℕ) → Exec Cache (Unit {0})
  async_worker cachekey f_produce = do
    found ← exists cachekey
    when (not found) (except_any (produce cachekey f_produce >> pure tt) tt)
