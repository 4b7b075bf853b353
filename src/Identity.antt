-- ===== src/Identity.antt =====
-- The files that identify the program to other servers: `SSLOptions` (src/python/Core/X509.py). The
-- environment, the file system and the prompt for a password are parameters.
pub mod First
use dqmgui_prod.Base.{
  String, Bool, true, false, not, ◌||◌, ◌&&◌, Option, none, some, ◌==◌, concat, if◌then◌else◌,
}
use dqmgui_prod.Exec.{Error, type_error, runtime_error, Result, ok, raised}

pub record SslOptions : Type 0 where
  pub key_file : String
  pub cert_file : String
  pub ca_path : String
  pub key_pass : Option String

-- `os.getenv`, `os.path.exists` and `getpass`
module _ (getenv : String → Option String) (exists : String → Bool)
    (getpass : String → String) where
  -- a path of the environment that is set, not empty, and there
  unfoldable pub from_env : String → Option String
  from_env name = elim (getenv name) [
    | none ↦ none
    | some path ↦ if not (path == "") && exists path then some path else none
  ]

  unfoldable pub from_path : String → Option String
  from_path path = if exists path then some path else none

  -- `if not self.…_file:`
  unfoldable pub or_else_env : Option String → String → Option String
  unfolding from_env
  or_else_env none name = from_env name
  or_else_env (some path) name = some path

  -- `os.getenv("HOME") + …`, which raises where there is none, but only if it is needed
  unfoldable pub or_else_home : Option String → String → Result (Option String)
  unfolding from_path
  or_else_home (some path) name = ok (some path)
  or_else_home none name = elim (getenv "HOME") [
    | none ↦ raised type_error
    | some home ↦ ok (from_path (concat home name))
  ]

  unfoldable pub certificates : Option String
  unfolding from_env from_path
  certificates = elim (from_env "X509_CERT_DIR") [
    | none ↦ from_path "/etc/grid-security/certificates"
    | some path ↦ some path
  ]

  -- a file that was found and is still there
  unfoldable pub found : Option String → Result String
  found none = raised runtime_error
  found (some path) = if exists path then ok path else raised runtime_error

  unfoldable pub password : Bool → String → String → Option String
  password proxy_only key cert =
      if not proxy_only && not (key == cert) then some (getpass key) else none

  unfoldable pub checked : Bool → Option String → Option String → Option String → Result SslOptions
  unfolding found password
  checked proxy_only ca key cert = elim (found ca) [
    | raised e ↦ raised e
    | ok c ↦ elim (found key) [
      | raised e ↦ raised e
      | ok k ↦ elim (found cert) [
        | raised e ↦ raised e
        | ok p ↦ ok (record {
          key_file = k;
          cert_file = p;
          ca_path = c;
          key_pass = password proxy_only k p;
        })
      ]
    ]
  ]

  -- `SSLOptions.__init__`
  unfoldable pub init : Bool → Result SslOptions
  unfolding from_env or_else_env or_else_home certificates checked
  init proxy_only =
      let proxy = from_env "X509_USER_PROXY" in
      elim (or_else_home (or_else_env proxy "X509_USER_KEY") "/.globus/userkey.pem") [
        | raised e ↦ raised e
        | ok key ↦
            elim (or_else_home (or_else_env proxy "X509_USER_CERT") "/.globus/usercert.pem") [
              | raised e ↦ raised e
              | ok cert ↦ checked proxy_only certificates key cert
            ]
      ]
