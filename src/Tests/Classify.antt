-- ===== src/Tests/Classify.antt =====
-- The classification of files (src/python/DQM/visDQMUtils.py) on names of each kind.
use dqmgui_prod.Base.{true, ◌≡◌, refl, some, none, is_digit, is_alnum, int, starts_with_chars}
use dqmgui_prod.Regex.{match, matches, group_of}
use dqmgui_prod.Classify.{classify, accepted, refused, online_data, relval_mc, offline_data}
use dqmgui_prod.Classify.Consistent.{all_consistent, classify-consistent}

online_run :
    classify "up/DQM_V0001_Ecal_R000012345.root"
    ≡ accepted (record {
      kind = online_data;
      version = 1;
      runnr = 12345;
      dataset = "/Global/Online/ALL";
      subsystem = some "Ecal";
      release = none;
    })
unfolding classify match matches group_of is_digit is_alnum int starts_with_chars
online_run = refl

relval_run :
    classify "DQM_V0001_R000000001__RelValTTbar__CMSSW_7_0_0_pre1-START__DQM.root"
    ≡ accepted (record {
      kind = relval_mc;
      version = 1;
      runnr = 1;
      dataset = "/RelValTTbar/CMSSW_7_0_0_pre1-START/DQM";
      subsystem = none;
      release = some "CMSSW_7_0_0_pre1";
    })
unfolding classify match matches group_of is_digit is_alnum int starts_with_chars
relval_run = refl

offline_run :
    classify "DQM_V0001_R000200000__Cosmics__Run2012-v1__DQM.root"
    ≡ accepted (record {
      kind = offline_data;
      version = 1;
      runnr = 200000;
      dataset = "/Cosmics/Run2012-v1/DQM";
      subsystem = none;
      release = none;
    })
unfolding classify match matches group_of is_digit is_alnum int starts_with_chars
offline_run = refl

early_run : classify "DQM_V0001_R000000017.root" ≡ refused "online file has run number <= 10000"
unfolding classify match matches group_of is_digit is_alnum int starts_with_chars
early_run = refl

classify-consistent_example : all_consistent (classify "DQM_V0001_R000000017.root") ≡ true
classify-consistent_example = classify-consistent "DQM_V0001_R000000017.root"
