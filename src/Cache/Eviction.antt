-- ===== src/Cache/Eviction.antt =====
-- `_get_oldest` and `_cull_size` of `OverviewCache` (src/python/Core/Cache.py) in an interpreter
-- that has `sys.maxint`: the loop ends, brings the table under its limit, and evicts in the order
-- of the expiry.
use dqmgui_prod.Base.{
  ℕ, zero, suc, ◌≤◌, ◌<◌, String, true, false, ◌≡◌, refl, ap, Option, none, some, List, [], ◌∷◌, ℤ,
  pos, ltb, ltb_ℤ, ◌-ℤ◌, arith, eq_iff, eq_refl, ◌⊎◌, inl, inr, length, All, Bool-cases,
}
use dqmgui_prod.Base.Dict
use mathlib.Core.Path.{subst}
use dqmgui_prod.Cache.{Cache, Entry, oldest, get_oldest, remove, cull_size}
use dqmgui_prod.Cache.Sound.{IsSound, total, remove-IsSound}
use dqmgui_prod.Exec.{Result, ok, ◌>>=◌}

-- every expiry in a table is at least `t`, or below `t`
abbrev pub AtLeast : ℕ → List (String × Entry) → Type 0
AtLeast t = All (λ (p : String × Entry). t ≤ p.1.expiry)

abbrev pub Below : ℕ → List (String × Entry) → Type 0
Below t = All (λ (p : String × Entry). p.1.expiry < t)

AtLeast-weaken : (s t : ℕ) (d : List (String × Entry)) → s ≤ t → AtLeast t d → AtLeast s d
AtLeast-weaken s t [] le h = tt
AtLeast-weaken s t ((k, e) ∷ d) le h = (omega arith, AtLeast-weaken s t d le h.1)

AtLeast-lookup :
    (t : ℕ) (k : String) (f : Entry) (d : List (String × Entry))
    → AtLeast t d
    → Dict.lookup k d ≡ some f
    → t ≤ f.expiry
unfolding Dict.lookup
AtLeast-lookup t k f [] h found = absurd (ground arith)
AtLeast-lookup t k f ((j, e) ∷ d) h found = ground (arith, AtLeast-lookup t k f d h.1)

Below-remove :
    (t : ℕ) (k : String) (d : List (String × Entry)) → Below t d → Below t (Dict.remove k d)
unfolding Dict.remove
Below-remove t k [] h = tt
Below-remove t k ((j, e) ∷ d) h = ground (arith, Below-remove t k d h.1)

-- Either nothing in the table expires before `t`, and the search keeps what it had, or it finds a
-- key whose entry expires first.
abbrev Found : ℕ → Option String → List (String × Entry) → Type 0
Found t best d =
    ((oldest t best d ≡ best) × AtLeast t d)
    ⊎ ((k : String) × (e : Entry) × (oldest t best d ≡ some k)
        × (Dict.lookup k d ≡ some e)
        × (e.expiry < t)
        × AtLeast e.expiry d)

oldest-Found :
    (t : ℕ) (best : Option String) (d : List (String × Entry)) → Dict.Distinct d → Found t best d
unfolding oldest Dict.lookup
oldest-Found t best [] h = inl (refl, tt)
oldest-Found t best ((j, f) ∷ d) h = elim (Bool-cases (ltb f.expiry t)) [
  | inl earlier ↦ elim (oldest-Found f.expiry (some j) d h.1) [
    | inl (same, least) ↦
        inr (j, f, rw earlier same, rw (eq_refl j), ground arith, (omega arith, least))
    | inr (k, e, found, here, before, least) ↦
        inr (k, e, rw earlier found, ground (arith, eq_iff j k), ground arith, (omega arith, least))
  ]
  | inr later ↦ elim (oldest-Found t best d h.1) [
    | inl (same, least) ↦ inl (rw later same, (ground arith, least))
    | inr (k, e, found, here, before, least) ↦
        inr (k, e, rw later found, ground (arith, eq_iff j k), before, (ground arith, least))
  ]
]

-- what the loop makes of a table `d`
pub record Culled (limit : ℕ) (d d' : List (String × Entry)) : Type 0 where
  -- it fits
  pub fits : total d' ≤ limit
  -- an entry that stays is as it was
  pub kept : (k : String) (f : Entry) → Dict.lookup k d' ≡ some f → Dict.lookup k d ≡ some f
  -- what went expires no later than what stays
  pub ordered :
      (j k : String) (e f : Entry)
      → Dict.lookup j d ≡ some e
      → Dict.lookup j d' ≡ none
      → Dict.lookup k d' ≡ some f
      → e.expiry ≤ f.expiry

Culled-refl : (limit : ℕ) (d : List (String × Entry)) → total d ≤ limit → Culled limit d d
Culled-refl limit d h = record {
  fits = h;
  kept = λ k f p. p;
  ordered = λ j k e f p gone q. absurd (ground arith);
}

-- one more entry evicted, the first to expire
Culled-step :
    (limit : ℕ) (v : String) (g : Entry) (d d' : List (String × Entry))
    → Dict.Distinct d
    → Dict.lookup v d ≡ some g
    → AtLeast g.expiry d
    → Culled limit (Dict.remove v d) d'
    → Culled limit d d'
Culled-step limit v g d d' distinct here least h = record {
  fits = h.fits;
  kept = λ k f p. ground (arith, h.kept k f p, Dict.lookup-remove v k d distinct);
  ordered = λ j k e f p gone q.
      let there : Dict.lookup k d ≡ some f =
        ground (arith, h.kept k f q, Dict.lookup-remove v k d distinct) in
      ground (
        arith,
        eq_iff v j,
        Dict.lookup-remove v j d distinct,
        AtLeast-lookup g.expiry k f d least there,
        h.ordered j k e f,
      );
}

-- the cache without the entry `e` of a key
abbrev dropped : String → Entry → Cache → Cache
dropped key e c = record c {
  cachesize = c.cachesize -ℤ pos e.size;
  entries = Dict.remove key c.entries;
}

remove_run :
    (key : String) (c : Cache) (e : Entry)
    → Dict.lookup key c.entries ≡ some e
    → remove (some key) c ≡ (ok (pos e.size), dropped key e c)
unfolding remove
remove_run key c e here = rw (here, remove)

cull_size_fit :
    (m fuel : ℕ) (c : Cache)
    → ltb_ℤ (pos c.sizelimit) c.cachesize ≡ false
    → cull_size (some m) (suc fuel) c ≡ (ok tt, c)
unfolding cull_size
cull_size_fit m fuel c fit = rw (fit, cull_size)

cull_size_over :
    (m fuel : ℕ) (c : Cache) (k : String) (e : Entry)
    → ltb_ℤ (pos c.sizelimit) c.cachesize ≡ true
    → oldest m none c.entries ≡ some k
    → Dict.lookup k c.entries ≡ some e
    → cull_size (some m) (suc fuel) c ≡ cull_size (some m) fuel (dropped k e c)
unfolding cull_size get_oldest ◌>>=◌
cull_size_over m fuel c k e over first here =
    rw (over, cull_size) (rw (first) (rw (remove_run k c e here)))

-- a table over the limit is not empty, so it has an entry to evict
nonempty : (m : ℕ) (d : List (String × Entry)) → Below m d → AtLeast m d → total d ≡ 0
unfolding total
nonempty m [] b a = refl
nonempty m ((k, e) ∷ d) b a = absurd (omega arith)

-- On a sound table, with `sys.maxint` above every expiry and fuel above the number of entries, the
-- loop of `_cull_size` ends without raising; it leaves the sizes at most the limit, changes no
-- entry that stays, and what it evicts expires no later than anything that stays.
pub cull_size-Culled :
    (m fuel : ℕ) (c : Cache)
    → IsSound c
    → Below m c.entries
    → length c.entries < fuel
    → ((cull_size (some m) fuel c).0 ≡ ok tt)
      × Culled c.sizelimit c.entries (cull_size (some m) fuel c).1.entries
cull_size-Culled m zero c sound below enough = absurd (omega arith)
cull_size-Culled m (suc fuel) c sound below enough =
    elim (Bool-cases (ltb_ℤ (pos c.sizelimit) c.cachesize)) [
      | inl over ↦ elim (oldest-Found m none c.entries sound.distinct) [
        | inl (_, least) ↦
            absurd (ground (arith, nonempty m c.entries below least, sound.counted, over))
        | inr (k, e, first, here, _, least) ↦
            let removed = remove_run k c e here in
            let sound' : IsSound (dropped k e c) =
              subst IsSound (ap (λ (w : Result ℤ × Cache). w.1) removed)
                ((remove-IsSound (some k)).apply c sound) in
            let rest =
              cull_size-Culled m fuel (dropped k e c) sound' (Below-remove m k c.entries below)
                (omega (arith, Dict.length-remove k c.entries e here)) in
            rw (cull_size_over m fuel c k e over first here)
              (rest.0, Culled-step c.sizelimit k e c.entries _ sound.distinct here least rest.1)
      ]
      | inr fit ↦
          rw (cull_size_fit m fuel c fit)
            (refl, Culled-refl c.sizelimit c.entries (ground (arith, sound.counted, fit)))
    ]
