-- ===== src/Lib.antt =====
-- The web server of the CMS data quality monitoring, its Python side: the cache of the overview
-- server (src/python/Core/Cache.py), the sessions of the server and their workspaces
-- (src/python/Core/GUI.py, src/python/DQM/GUI.py), the classification of uploaded
-- files (src/python/DQM/visDQMUtils.py), the uploads, the pages of files and the sources of plots
-- (src/python/DQM/GUI.py), static content (src/python/Core/GUI.py), event displays
-- (src/python/DQM/EventDisplay.py), the definition of a server and its identity
-- (src/python/Core/Defs.py, src/python/Core/X509.py), the requests to other servers
-- (src/python/Core/HTTP.py) and time series (src/python/Core/Utils/Common.py).
--
-- How the parts interact. A browser has a session, a dictionary of settings. The server finds the
-- session of a request, locks it and calls a method `session…` of the session's current workspace.
-- The method checks the parameters and writes them with `_set`, hands a copy of the session to the
-- thread that saves it, and answers with the state that the C++ extension draws up. A picture is asked
-- for outside of sessions: `plotfairy` looks for the source that its address names, and the source
-- reads the run, the dataset and the options and calls the C++ extension. Apart from that,
-- the overview server keeps what it computed in a cache, a table shared by all threads under one
-- lock, with a thread that removes what has expired.
--
-- Files.
--   Base       numbers, lists, texts and association lists; Base/Tests, Lists, Int, Text, Dict
--   Exec       a method that mutates an object and may raise: the object comes back in either case.
--              Exec/Preserves: predicates that a method keeps; Exec/Outcomes: what it returns.
--   Cache      `OverviewCache`: the table and the methods `_exists`, `_remove`, `_get_oldest`,
--              `_cull_size`, `_cull_number` and `_insert`. Cache/Methods has the public methods under
--              the lock and a round of `run`, Cache/Fetch `cacheFetch`, `lockedCacheFetch` and
--              `asyncWorker`. The rest are theorems: Cache/Sound and Cache/Calls on the accounting,
--              Contents on the entries, Eviction and Limits on the limits, Waiting on the fetches.
--   Regex      Python's `re.match` by backtracking; Regex/Classes for patterns of one class,
--              Regex/Sound what a pattern means, Regex/Counts how often it takes a character.
--   Value      the Python values in a session; Value/Laws for reads after writes.
--   Workspace  Desk has the session and `_checkObjectName`, `_saveSession`; Params the checks that
--              `_set` repeats; Settings, Objects and Reference the parts of `_set`, which is `set` of
--              Reference; Initial `initialiseSession`, `_workspace`, `sessionWorkspace`; Handlers,
--              Image and Content the session methods; Requests their names and sequences of them.
--              Customise is `customise`, which a server calls once for each workspace.
--              Legal (Sets, Whole, Methods, Steps, Every), Names and Defaults are theorems.
--   Classify   `classifyDQMFile` (src/python/DQM/visDQMUtils.py), the class of an uploaded file by its
--              name; Classify/Consistent is a theorem.
--   Server     the table of sessions: `_getSession`, `_releaseSession` and `session`
--              (src/python/Core/GUI.py); Server/Names finds the method of a request by its name.
--              Server/Start has `_newSession`, `start` and `workspace`. Server/Idle, Locks, Owners,
--              Purged and Started are theorems.
--   SessionThread   the thread that writes sessions to files (src/python/Core/GUI.py), in steps;
--              SessionThread/Kept is a theorem.
--   Upload     the uploads (src/python/DQM/GUI.py): the status of a response and the checks of who
--              sends a file; Upload/Save is the part of `DQMFileAccess.put` that has the lock,
--              Upload/Put all of it, Upload/Layouts `DQMLayoutAccess.put`. Upload/Archive/Spec is an
--              archive as a specification of sequences of uploads. Upload/Frame, Removal, Residue, Undo, Success,
--              Saved, Healthy, Accepted, Senders, Archive/Refines and Layouts/Fails are theorems.
--   RequestManager   the pump of requests to other servers (src/python/Core/HTTP.py).
--              RequestManager/Sound, Rounds, Ends and Raised are theorems.
--   TimeSeries the intervals of a plot over time, `timeseries` (src/python/Core/Utils/Common.py).
--              TimeSeries/Cover and Loops are theorems.
--   Parameters the parameters of a request, `ParameterManager.load` (src/python/Core/Utils/Common.py);
--              Parameters/Split is a theorem.
--   NaturalSort   the natural order of names, `natsorted` (src/python/Core/Utils/Common.py);
--              NaturalSort/Cut and Sorted are theorems.
--   Pages      static content (src/python/Core/GUI.py): `static`, `yui`, `extjs`, `jsroot`, `d3`.
--              Pages/Files is `_maybeRefreshFile`, Pages/Fairies `plotfairy`, `jsonfairy` and
--              `jsrootfairy`. Pages/Inside, Fresh and Found are theorems.
--   Browse     the pages of uploaded files, `browse` and `_prepdir` (src/python/DQM/GUI.py);
--              Browse/Inside is a theorem.
--   Sources    the sources of plots (src/python/DQM/GUI.py); Sources/Labels is a theorem.
--   Definition the definition of a server, `ServerDef` (src/python/Core/Defs.py);
--              Definition/Valid is a theorem.
--   Identity   `SSLOptions` (src/python/Core/X509.py); Identity/First is a theorem.
--   EventDisplay   the pages of event displays (src/python/DQM/EventDisplay.py);
--              EventDisplay/Pages is a theorem.
--   Tests      runs on small inputs.
--
-- Choices. A name in camel case is written with underscores, and a leading underscore dropped:
-- `sessionSetFilter` is `session_set_filter`. The clock is a field of the state, in whole ticks.
-- Pickled content is a list of bytes; `pickle` is a parameter that reads back what it wrote.
-- `sys.maxint` is a parameter, which is missing in Python 3. A lock is a flag, and to acquire it
-- twice is the outcome `blocked`. What other threads do during the sleeps of `lockedCacheFetch` is
-- a parameter. The loops of the cache run on fuel: `_cull_size` gets one more than the entries there
-- are, and the wait one more than the seconds left, which is enough as every round removes an
-- entry or lets a second pass. A regular expression under `*` gets as many rounds as characters are
-- left, since each round reads at least one. The months and the
-- years of a series are tried with fuel for every second up to the end. The rounds of
-- `RequestManager.process` are counted when
-- curl has news, so the fuel is the weight of the tasks, which each answer lowers.
--
-- Not modelled: the style sheets and scripts that the server delivers, and its pages of
-- templates; the C++ extension, which draws the plots; the plug-ins of a server; the upload of
-- event displays; removals that fail after an upload of layouts; the overview's pages and plots; tools under bin/; configuration and tests.
pub mod Base
pub mod Exec
pub mod Browse
pub mod Definition
pub mod Identity
pub mod EventDisplay
pub mod NaturalSort
pub mod Pages
pub mod Parameters
pub mod Cache
pub mod Regex
pub mod Classify
pub mod Server
pub mod SessionThread
pub mod Sources
pub mod TimeSeries
pub mod Upload
pub mod RequestManager
pub mod Value
pub mod Workspace
mod Tests
