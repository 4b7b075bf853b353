-- ===== src/Classify/Consistent.antt =====
-- `classifyDQMFile` (src/python/DQM/visDQMUtils.py): what holds of every file that it accepts.
use dqmgui_prod.Base.{
  contains, ℕ, String, Bool, true, false, ◌||◌, ◌&&◌, not, ◌≡◌, refl, Option, none, some, chars,
  ltb, nat_eq, is_alnum, arith, Option-cases, inl, inr,
}
use dqmgui_prod.Regex.{matches, match, group_of, Groups}
use dqmgui_prod.Classify.{
  FileKind, online_data, simulated_rundep, relval_rundepmc, relval_mc, relval_data, offline_data,
  simulated, DqmFile, Classified, refused, accepted, rx_dataset, classify_online, classify_offline,
  online_match, offline_match, classify, rx_online, rx_offline, int_group, failed,
}

-- the runs of a class: simulations without runs have run 1
abbrev runs_of : FileKind → ℕ → Bool
runs_of online_data n = ltb 10000 n
runs_of simulated_rundep n = ltb 1 n
runs_of relval_rundepmc n = ltb 1 n
runs_of relval_mc n = nat_eq n 1
runs_of relval_data n = ltb 1 n
runs_of offline_data n = ltb 1 n
runs_of simulated n = nat_eq n 1

-- the classes of files that no release goes with
abbrev is_plain : FileKind → Bool
is_plain offline_data = true
is_plain simulated = true
is_plain online_data = false
is_plain simulated_rundep = false
is_plain relval_rundepmc = false
is_plain relval_mc = false
is_plain relval_data = false

abbrev pub is_consistent : DqmFile → Bool
is_consistent f =
    nat_eq f.version 1
    && runs_of f.kind f.runnr
    && matches rx_dataset f.dataset
    && (not (is_plain f.kind) || not (contains (chars "CMSSW") (chars f.dataset)))

abbrev pub all_consistent : Classified → Bool
all_consistent (refused reason) = true
all_consistent (accepted f) = is_consistent f

online_dataset : matches rx_dataset "/Global/Online/ALL" ≡ true
unfolding matches is_alnum
online_dataset = refl

online-consistent :
    (version runnr : ℕ) (subsys : Option String)
    → all_consistent (classify_online version runnr subsys) ≡ true
unfolding classify_online
online-consistent version runnr subsys = ground (arith, online_dataset)

offline-consistent :
    (version runnr : ℕ) (dataset : String)
    → all_consistent (classify_offline version runnr dataset) ≡ true
unfolding classify_offline
offline-consistent version runnr dataset = ground arith

-- a number of the groups, and what follows
with_number-consistent :
    (o : Option ℕ) (next : ℕ → Classified)
    → ((n : ℕ) → all_consistent (next n) ≡ true)
    → all_consistent (elim o [ none ↦ failed | some n ↦ next n ]) ≡ true
with_number-consistent none next h = refl
with_number-consistent (some n) next h = h n

online_match-consistent : (g : Groups) → all_consistent (online_match g) ≡ true
unfolding online_match
online_match-consistent g =
    with_number-consistent (int_group 1 g) _ λ version.
      with_number-consistent (int_group 3 g) _ (λ runnr. online-consistent version runnr _)

offline_match-consistent : (g : Groups) → all_consistent (offline_match g) ≡ true
unfolding offline_match
offline_match-consistent g = with_number-consistent (int_group 1 g) _ λ version.
    with_number-consistent (int_group 2 g) _ λ runnr. elim (Option-cases (group_of 3 g)) [
      | inl none_of ↦ rw none_of refl
      | inr (s, found) ↦ rw found (offline-consistent version runnr _)
    ]

-- by the matches of the two patterns
either-consistent :
    (online offline : Option Groups)
    → all_consistent (elim online [
      | some g ↦ online_match g
      | none ↦ elim offline [
        | some g ↦ offline_match g
        | none ↦ refused "file matches no known naming convention"
      ]
    ])
      ≡ true
either-consistent (some g) offline = online_match-consistent g
either-consistent none (some g) = offline_match-consistent g
either-consistent none none = refl

-- Every file that is accepted, whatever its path, has version 1, a dataset of three parts, and a
-- run of its class: above 10000 online, 1 for simulations that do not depend on the run, and above
-- 1 for all others. The dataset of a file classified as plain offline data or plain simulation
-- does not contain `CMSSW`.
pub classify-consistent : (path : String) → all_consistent (classify path) ≡ true
unfolding classify
classify-consistent path = either-consistent (match rx_online path) (match rx_offline path)
