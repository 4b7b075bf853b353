-- ===== src/Cache.antt =====
-- `OverviewCache` of src/python/Core/Cache.py: its state, and the methods that run with the lock
-- held (`_exists`, `_remove`, `_get_oldest`, `_cull_number`, `_cull_size`, `_insert`). The clock
-- that `time.time()` reads is a field of the state, counted in whole ticks.
pub mod Methods
pub mod Fetch
pub mod Sound
pub mod Calls
pub mod Contents
pub mod Eviction
pub mod Limits
pub mod Waiting
use dqmgui_prod.Base.{
  ℕ, zero, suc, ◌+◌, String, Bool, true, false, Option, none, some, List, [], ◌∷◌, ℤ, pos, negsuc,
  ◌+ℤ◌, ◌-ℤ◌, ltb_ℤ, ltb, length, is_some, if◌then◌else◌,
}
use dqmgui_prod.Base.Dict
use dqmgui_prod.Exec.{Exec, attribute_error, diverged, pure, raise, gets, modify, ◌>>=◌, ◌>>◌, when}

-- the tuple (expiry, size, data) of a key; `content` is the pickled data
pub record Entry : Type 0 where
  pub expiry : ℕ
  pub size : ℕ
  pub content : List ℕ

pub record Cache : Type 0 where
  pub locked : Bool
  pub stopme : Bool
  pub cachesize : ℤ
  pub entries : List (String × Entry)
  pub events : List (String × Bool)
  pub sizelimit : ℕ
  pub itemlimit : ℕ
  pub wait_expiry : ℕ
  pub wait_interval : ℕ
  pub now : ℕ

-- the constructor: an empty cache
unfoldable pub init : ℕ → ℕ → ℕ → ℕ → ℕ → Cache
init sizelimit itemlimit wait_expiry wait_interval now = record {
  locked = false;
  stopme = false;
  cachesize = pos 0;
  entries = [];
  events = [];
  sizelimit = sizelimit;
  itemlimit = itemlimit;
  wait_expiry = wait_expiry;
  wait_interval = wait_interval;
  now = now;
}

unfoldable pub exists : String → Exec Cache Bool
exists key c = gets (λ (d : Cache). is_some (Dict.lookup key d.entries)) c

-- `_remove`: the size of what went, or -1. `none` is the key `None`, which no entry has.
unfoldable pub remove : Option String → Exec Cache ℤ
unfolding pure
remove none c = pure (negsuc 0) c
remove (some key) c = elim (Dict.lookup key c.entries) [
  | none ↦ pure (negsuc 0) c
  | some e ↦
      pure (pos e.size)
        (record c { cachesize = c.cachesize -ℤ pos e.size; entries = Dict.remove key c.entries })
]

-- the loop of `_get_oldest`; `t` is the least expiry so far
unfoldable pub oldest : ℕ → Option String → List (String × Entry) → Option String
oldest t best [] = best
oldest t best ((key, e) ∷ d) =
    oldest (if ltb e.expiry t then e.expiry else t) (if ltb e.expiry t then some key else best) d

-- `self.cache[key] = (lifetime + time.time(), size, data); self.cachesize += size`
unfoldable pub store : String → ℕ → ℕ → List ℕ → Cache → Cache
store key lifetime size content c = record c {
  cachesize = c.cachesize +ℤ pos size;
  entries =
      Dict.insert key (record { expiry = lifetime + c.now; size = size; content = content })
        c.entries;
}

-- `maxint` is the attribute `sys.maxint` of the interpreter: a number in Python 2, and none in
-- Python 3, where reading it raises.
module _ (maxint : Option ℕ) where
  unfoldable pub get_oldest : Exec Cache (Option String)
  unfolding pure raise
  get_oldest c = elim maxint [
    | none ↦ raise attribute_error c
    | some t ↦ pure (oldest t none c.entries) c
  ]

  -- `while self.cachesize > self.sizelimit: self._remove(self._get_oldest())`
  unfoldable pub cull_size : ℕ → Exec Cache (Unit {0})
  unfolding pure raise
  cull_size zero c = raise diverged c
  cull_size (suc fuel) c = elim (ltb_ℤ (pos c.sizelimit) c.cachesize) [
    | true ↦ (get_oldest >>= λ key. remove key >> cull_size fuel) c
    | false ↦ pure tt c
  ]

  -- `while len(self.cache) > self.itemlimit: …`, which nothing calls
  unfoldable pub cull_number : ℕ → Exec Cache (Unit {0})
  unfolding pure raise
  cull_number zero c = raise diverged c
  cull_number (suc fuel) c = elim (ltb c.itemlimit (length c.entries)) [
    | true ↦ (get_oldest >>= λ key. remove key >> cull_number fuel) c
    | false ↦ pure tt c
  ]

  -- the two tests at the end of `_insert`. Past the number of items it calls `self._cull_num`, which
  -- the class does not have.
  unfoldable pub check_limits : Exec Cache (Unit {0})
  check_limits = do
    items ← gets (λ (c : Cache). ltb c.itemlimit (length c.entries))
    when items (raise attribute_error)
    bytes ← gets (λ (c : Cache). ltb_ℤ (pos c.sizelimit) c.cachesize)
    fuel ← gets (λ (c : Cache). length c.entries + 1)
    when bytes (cull_size fuel)

  -- `_insert`
  unfoldable pub insert : String → ℕ → ℕ → List ℕ → Exec Cache (Unit {0})
  insert key lifetime size content = do
    found ← exists key
    when found (remove (some key) >> pure tt)
    modify (store key lifetime size content)
    check_limits
