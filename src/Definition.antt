-- ===== src/Definition.antt =====
-- The definition of a server that its configuration file fills in: `ServerDef` (src/python/Core/Defs.py),
-- apart from the plug-ins that it compiles. `DEFAULT_HOST` is a parameter.
pub mod Valid
use dqmgui_prod.Base.{
  ℕ, String, Bool, true, false, Option, none, some, List, [], ◌∷◌, ◌++◌, chars, concat, contains,
  show_nat, same_lower, ◌==◌, if◌then◌else◌,
}
use dqmgui_prod.Exec.{type_error, Result, ok, raised}

-- the arguments of an extension, a workspace or a source are of any type
pub record ServerDef (Arg : Type 0) : Type 0 where
  pub port : Option ℕ
  pub local_base : Option String
  pub server_dir : Option String
  pub log_file : Option String
  pub base_url : Option String
  pub title : Option String
  -- each with its name and the path of its binary
  pub plugins : List (String × String)
  pub services : List (String × String)
  pub service_name : Option String
  pub workspaces : List (String × List Arg)
  -- the type, the label and the arguments
  pub sources : List (String × String × List Arg)
  pub extensions : List (String × List Arg)

unfoldable pub missing : {A : Type 0} → Option A → Bool
missing none = true
missing (some a) = false

unfoldable pub blank : {A : Type 0} → List A → Bool
blank [] = true
blank (x ∷ l) = false

-- `"%s" % value`, of a text or `None`
unfoldable pub shown : Option String → String
shown none = "None"
shown (some s) = s

unfoldable pub find_plugin : String → List (String × String) → Result String
find_plugin name [] = raised type_error
find_plugin name ((n, binary) ∷ plugins) =
    let rest = find_plugin name plugins in if n == name then ok binary else rest

-- `"%s:%d" % (…, self.port)`, once the port is filled in
abbrev pub with_port : String → Option ℕ → Option String
with_port host none = some host
with_port host (some n) = some (concat host (concat ":" (show_nat n)))

module _ {Arg : Type 0} where
  -- `ServerDef.__init__`
  unfoldable pub init : ServerDef Arg
  init = record {
    port = none;
    local_base = none;
    server_dir = none;
    log_file = none;
    base_url = none;
    title = none;
    plugins = [];
    services = [];
    service_name = none;
    workspaces = [];
    sources = [];
    extensions = [];
  }

  unfoldable pub service : String → String → ServerDef Arg → ServerDef Arg
  service name url d = record d { services = d.services ++ ((name, url) ∷ []) }

  unfoldable pub workspace : String → List Arg → ServerDef Arg → ServerDef Arg
  workspace type args d = record d { workspaces = d.workspaces ++ ((type, args) ∷ []) }

  -- the label is a keyword argument, and `lower` of the type where there is none
  unfoldable pub source :
      (String → String) → String → List Arg → Option String → ServerDef Arg → ServerDef Arg
  source lower type args none d = record d {
    sources = d.sources ++ ((type, lower type, args) ∷ []);
  }
  source lower type args (some label) d = record d {
    sources = d.sources ++ ((type, label, args) ∷ []);
  }

  unfoldable pub extend : String → List Arg → ServerDef Arg → ServerDef Arg
  extend type args d = record d { extensions = d.extensions ++ ((type, args) ∷ []) }

  -- `pathOfPlugin`; a text cannot be raised, so `raise "No such plug-in…"` is a `TypeError`
  unfoldable pub path_of_plugin : String → ServerDef Arg → Result String
  unfolding find_plugin
  path_of_plugin name d = find_plugin name d.plugins

  unfoldable pub fill_port : ServerDef Arg → ServerDef Arg
  fill_port d = elim d.port [ none ↦ record d { port = some 8030 } | some n ↦ d ]

  unfoldable pub fill_base : String → ServerDef Arg → ServerDef Arg
  unfolding contains show_nat
  fill_base host d = elim d.local_base [
    | none ↦ record d { local_base = with_port host d.port }
    | some base ↦
        if contains (chars ":") (chars base)
        then d
        else record d { local_base = with_port base d.port }
  ]

  unfoldable pub fill_title : ServerDef Arg → ServerDef Arg
  fill_title d = elim d.title [ none ↦ record d { title = some "CMS monitoring" } | some t ↦ d ]

  unfoldable pub fill_log : ServerDef Arg → ServerDef Arg
  unfolding shown
  fill_log d = elim d.log_file [
    | none ↦ record d { log_file = some (concat (shown d.server_dir) "/log-%Y%m%d.log") }
    | some f ↦ d
  ]

  -- what is missing, of what has no default
  unfoldable pub complaint : ServerDef Arg → Option String
  unfolding missing blank
  complaint d =
      if missing d.server_dir
      then some "server.serverDir not set"
      else if missing d.base_url
      then some "server.baseUrl not set"
      else if blank d.services
      then some "no services added with server.service()"
      else if missing d.service_name
      then some "server.serviceName not set"
      else if blank d.workspaces
      then some "no workspaces added with server.workspace()"
      else if blank d.sources
      then some "no sources added with server.source()"
      else none

  unfoldable pub filled : String → ServerDef Arg → ServerDef Arg
  unfolding fill_port fill_base fill_title fill_log
  filled host d = fill_log (fill_title (fill_base host (fill_port d)))

  -- `validate`, with what it returns; `host` is the name of the machine
  unfoldable pub validate : String → ServerDef Arg → ServerDef Arg × Option String
  unfolding filled complaint
  validate host d = (filled host d, complaint (filled host d))
