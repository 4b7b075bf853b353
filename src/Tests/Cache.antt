-- ===== src/Tests/Cache.antt =====
-- The cache (src/python/Core/Cache.py) on small tables.
use dqmgui_prod.Base.{
  ℕ, String, true, false, ◌≡◌, refl, Option, none, some, List, [], ◌∷◌, pos, ◌+◌, arith,
  if◌then◌else◌, ◌==◌,
}
use dqmgui_prod.Base.Dict
use mathlib.Core.Path.{subst}
use dqmgui_prod.Cache.{Cache, Entry, init, cull_size}
use dqmgui_prod.Cache.Calls.{Call, run_calls, IsReady, run_calls-IsReady}
use dqmgui_prod.Cache.Contents.{live, lookup-sweep, entry_of, over_limit}
use dqmgui_prod.Cache.Eviction.{Culled, cull_size-Culled}
use dqmgui_prod.Cache.Fetch.{
  cache_fetch, locked_cache_fetch, produce, flagged_produce, wait_for_flag,
}
use dqmgui_prod.Cache.Limits.{insert_python3, retrieve-insert}
use dqmgui_prod.Cache.Methods.{Pickle, insert, retrieve, sweep}
use dqmgui_prod.Cache.Sound.{IsSound, total}
use dqmgui_prod.Cache.Waiting.{
  AreNeighbours, IsFree, fetch_hit, wait_for_flag_ends, flagged_produce_lem,
}
use dqmgui_prod.Exec.{Exec, ok, raised, attribute_error, value_error, raise}
use dqmgui_prod.Exec.Preserves.{Preserves-raise}

-- numbers, each pickled as one byte
abbrev loads : List ℕ → Option ℕ
loads [] = none
loads (n ∷ l) = some n

loads_or : Option (List ℕ) → Option ℕ
loads_or none = none
loads_or (some l) = loads l

loads-dumps : (a : ℕ) (b : List ℕ) → some (a ∷ []) ≡ some b → loads b ≡ some a
unfolding loads_or
loads-dumps a b h = subst (λ c. loads_or c ≡ some a) h refl

abbrev numbers : Pickle ℕ
numbers = record { dumps = λ n. some (n ∷ []); loads = loads; loads-dumps = loads-dumps }

abbrev empty : Cache
empty = record {
  locked = false;
  stopme = false;
  cachesize = pos 0;
  entries = [];
  events = [];
  sizelimit = 2;
  itemlimit = 10;
  wait_expiry = 30;
  wait_interval = 1;
  now = 100;
}

init_run : init 2 10 30 1 100 ≡ empty
unfolding init
init_run = refl

empty-IsReady : IsReady empty
unfolding total
empty-IsReady = record { sound = record { distinct = tt; counted = refl }; free = refl }

-- two entries of which the first has expired
abbrev entry_a : Entry
entry_a = record { expiry = 90; size = 1; content = 7 ∷ [] }

abbrev entry_b : Entry
entry_b = record { expiry = 150; size = 2; content = 8 ∷ 9 ∷ [] }

abbrev two : Cache
two = record empty { cachesize = pos 3; entries = ("a", entry_a) ∷ ("b", entry_b) ∷ [] }

two-IsSound : IsSound two
unfolding total Dict.lookup
two-IsSound = record { distinct = (refl, (refl, tt)); counted = refl }

two-IsReady : IsReady two
two-IsReady = record { sound = two-IsSound; free = refl }

abbrev calls : List (Call ℕ)
calls =
    Call.insert "a" 5 7
    ∷ Call.insert "b" 9 8
    ∷ Call.tick 6
    ∷ Call.sweep
    ∷ Call.insert "c" 1 9
    ∷ Call.insert "d" 1 9
    ∷ Call.remove "b"
    ∷ []

run_calls-IsReady_example : IsReady (run_calls none numbers calls empty)
run_calls-IsReady_example = run_calls-IsReady none numbers calls empty empty-IsReady

insert_python3_example :
    let c' : Cache = (insert none numbers "a" 20 5 two).1 in
    ((insert none numbers "a" 20 5 two).0
      ≡ (if over_limit c' then raised attribute_error else ok tt))
    × ((j : String)
        → Dict.lookup j c'.entries
          ≡ (if "a" == j then some (entry_of 20 (5 ∷ []) two) else Dict.lookup j two.entries))
insert_python3_example = insert_python3 numbers "a" 20 5 (5 ∷ []) two two-IsReady refl

retrieve-insert_example :
    (retrieve numbers "c" none (insert none numbers "c" 20 5 two).1).0 ≡ ok (some 5)
retrieve-insert_example = retrieve-insert numbers "c" 20 5 (5 ∷ []) two two-IsReady refl none

lookup-sweep_example :
    (Dict.lookup "a" (sweep two).1.entries ≡ live 100 (Dict.lookup "a" two.entries))
    × ((sweep two).0 ≡ ok false)
lookup-sweep_example = lookup-sweep two "a" two-IsReady refl

cull_size-Culled_example :
    ((cull_size (some 1000) 3 two).0 ≡ ok tt)
    × Culled 2 two.entries (cull_size (some 1000) 3 two).1.entries
cull_size-Culled_example =
    cull_size-Culled 1000 3 two two-IsSound (omega arith, (omega arith, tt)) (omega arith)

-- other threads that let a second pass
abbrev second : ℕ → Cache → Cache
second i c = record c { now = c.now + 1 }

second-AreNeighbours : AreNeighbours second
second-AreNeighbours = record { free = λ i c free. free; same_interval = λ i c. refl }

fails : Exec Cache (ℕ × ℕ)
unfolding raise
fails = raise value_error

fetch_hit_example :
    (cache_fetch none numbers "b" fails two ≡ (ok (some 8), two))
    × (locked_cache_fetch none numbers second 5 "b" fails two ≡ (ok (some 8), two))
fetch_hit_example =
    fetch_hit none numbers "b" second 5 fails two entry_b refl (unfold Dict.lookup in refl)

abbrev waiting : Cache
waiting = record two { events = ("c", true) ∷ [] }

wait_for_flag_ends_example :
    ((wait_for_flag none numbers second "c" 31 0 30 waiting).0 ≡ ok tt)
    × ((wait_for_flag none numbers second "c" 31 0 30 waiting).1.locked ≡ false)
wait_for_flag_ends_example =
    wait_for_flag_ends none numbers "c" second 31 0 30 waiting second-AreNeighbours (omega arith)
      refl (omega arith)

flagged_produce_lem_example :
    let up : Cache = record two { events = Dict.insert "c" true two.events } in
    let c' : Cache = (flagged_produce none numbers "c" fails two).1 in
    ((flagged_produce none numbers "c" fails two).0 ≡ (produce none numbers "c" fails up).0)
    × (Dict.lookup "c" c'.events ≡ some false)
    × IsFree c'
flagged_produce_lem_example =
    flagged_produce_lem none numbers "c" fails two (unfold fails in Preserves-raise value_error)
      refl
