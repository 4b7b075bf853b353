-- ===== src/SessionThread.antt =====
-- `SessionThread` of src/python/Core/GUI.py: the thread that writes sessions to files, one step at a
-- time, so that the calls of other threads may come between the steps. The file of a session and
-- its temporary file are two tables; a name of a session has no dot, so they do not meet.
pub mod Kept
use dqmgui_prod.Base.{String, Bool, true, false, List, [], ◌∷◌, if◌then◌else◌}
use dqmgui_prod.Base.Dict
use dqmgui_prod.Value.{Fields}

pub record Writer : Type 0 where
  -- `_save`: what is to be written
  pub save : List (String × Fields)
  pub stopme : Bool
  -- the variables `save` and `stopme` of `run`: what the loop still has to write, and whether this
  -- round is the last
  pub batch : List (String × Fields)
  pub last : Bool
  pub ended : Bool
  -- the files, and the temporary ones
  pub files : List (String × Fields)
  pub temps : List (String × Fields)

-- `__init__`, with the files that are there
unfoldable pub init : List (String × Fields) → Writer
init files = record {
  save = [];
  stopme = false;
  batch = [];
  last = false;
  ended = false;
  files = files;
  temps = [];
}

-- `save(data)`, where `name` is `data["core.name"]`
unfoldable pub record_session : String → Fields → Writer → Writer
record_session name content s = record s { save = Dict.insert name content s.save }

unfoldable pub stop : Writer → Writer
stop s = record s { stopme = true }

-- the start of a round, once the loop of the round before is done
unfoldable pub take : Writer → Writer
take s = record s { batch = s.save; save = []; last = s.stopme }

-- `pickle.dump`, `os.remove` and `os.rename` of one session; `renamed` is whether the last one
-- succeeds
unfoldable pub write : Bool → String → Fields → List (String × Fields) → Writer → Writer
write renamed name content rest s =
    if renamed
    then record s {
      batch = rest;
      files = Dict.insert name content (Dict.remove name s.files);
      temps = Dict.remove name s.temps;
    }
    else record s {
      batch = rest;
      files = Dict.remove name s.files;
      temps = Dict.insert name content s.temps;
      save = Dict.insert name content s.save;
    }

-- a step of `run`: it writes the next session of the batch, or ends the round
unfoldable pub advance : Bool → Writer → Writer
unfolding take write
advance renamed s = if s.ended then s else elim s.batch [
  | (name, content) ∷ rest ↦ write renamed name content rest s
  | [] ↦ if s.last then record s { ended = true } else take s
]

-- what the threads do, in any order
pub data Step : Type 0 where
  save_call : String → Fields → Step
  stop_call : Step
  run_step : Bool → Step

unfoldable pub after : Step → Writer → Writer
after (save_call name content) s = record_session name content s
after stop_call s = stop s
after (run_step renamed) s = advance renamed s

unfoldable pub run_steps : List Step → Writer → Writer
run_steps [] s = s
run_steps (t ∷ ts) s = run_steps ts (after t s)
