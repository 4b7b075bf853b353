-- ===== src/Tests/Definition.antt =====
-- The definition of a server (src/python/Core/Defs.py) and its identity (src/python/Core/X509.py).
use dqmgui_prod.Base.{
  String, Bool, true, false, Option, none, some, [], ◌∷◌, ℕ, ◌≡◌, refl, ◌==◌, show_nat,
  if◌then◌else◌,
}
use dqmgui_prod.Exec.{ok, raised, type_error}
use dqmgui_prod.Definition
use dqmgui_prod.Definition.{
  ServerDef, validate, service, workspace, source, extend, path_of_plugin, shown, complaint,
}
use dqmgui_prod.Definition.Valid.{address, validate_again}
use dqmgui_prod.Identity
use dqmgui_prod.Identity.{SslOptions, from_env, or_else_env, or_else_home, certificates}
use dqmgui_prod.Identity.First.{first_there, init-first}

abbrev empty : ServerDef ℕ
empty = Definition.init

-- a file that adds what `validate` asks for
abbrev whole : ServerDef ℕ
whole =
    source (λ s. s) "DQMArchive" [] none
      (workspace "DQMQuality" (1 ∷ []) (
        service "Online" "/online" (record Definition.init {
          server_dir = some "/srv";
          base_url = some "/dqm";
          service_name = some "Online";
        })))

-- the path of the log is made from a directory that is missing
run_validate_log : (validate "host" empty).0.log_file ≡ some "None/log-%Y%m%d.log"
unfolding validate shown Definition.init show_nat
run_validate_log = refl

run_validate_bare : (validate "host" empty).1 ≡ some "server.serverDir not set"
unfolding validate Definition.init show_nat
run_validate_bare = refl

run_validate : (validate "host" (extend "Upload" [] whole)).1 ≡ none
unfolding validate Definition.init show_nat service workspace source extend
run_validate = refl

run_path_of_plugin : path_of_plugin "render" whole ≡ raised type_error
unfolding path_of_plugin Definition.init service workspace source
run_path_of_plugin = refl

validate_again_example :
    (validate "host" (validate "host" empty).0 ≡ validate "host" empty)
    × ((validate "host" empty).0.local_base ≡ some (address "host" 8030 none))
    × ((validate "host" empty).1 ≡ complaint empty)
unfolding Definition.init
validate_again_example = validate_again "host" empty

abbrev getenv : String → Option String
getenv name = if name == "HOME" then some "/home/dqm" else none

abbrev exists : String → Bool
exists path = true

abbrev getpass : String → String
getpass path = "secret"

-- without a home directory there is no default
run_no_home : Identity.init (λ name. none) exists getpass false ≡ raised type_error
unfolding Identity.init from_env or_else_env or_else_home
run_no_home = refl

init-first_example :
    Identity.init getenv exists getpass false
    ≡ ok (record {
      key_file = "/home/dqm/.globus/userkey.pem";
      cert_file = "/home/dqm/.globus/usercert.pem";
      ca_path = "/etc/grid-security/certificates";
      key_pass = some "secret";
    })
unfolding first_there
init-first_example = init-first getenv exists getpass false "/home/dqm" refl
