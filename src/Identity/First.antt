-- ===== src/Identity/First.antt =====
-- Which files `SSLOptions` of src/python/Core/X509.py takes.
use dqmgui_prod.Base.{
  String, Bool, true, ◌||◌, Option, none, some, List, [], ◌∷◌, ◌≡◌, refl, ap, ◌∙◌, ◌==◌, concat,
  if◌then◌else◌, arith, Bool-cases, inl, inr,
}
use dqmgui_prod.Exec.{runtime_error, Result, ok, raised}
use dqmgui_prod.Identity.{
  SslOptions, from_env, from_path, or_else_env, or_else_home, certificates, found, password,
  checked, init,
}

-- the first path of a list that is given, and there
unfoldable pub first_there : (String → Bool) → List (Option String) → Option String
first_there exists [] = none
first_there exists (none ∷ paths) = first_there exists paths
first_there exists (some path ∷ paths) =
    let rest = first_there exists paths in if exists path then some path else rest

-- a variable of the environment that is set, and not empty
abbrev pub given : Option String → Option String
given none = none
given (some path) = if path == "" then none else some path

module _ (getenv : String → Option String) (exists : String → Bool)
    (getpass : String → String) where
  -- the files that are asked for, in their order
  abbrev pub ca_paths : List (Option String)
  ca_paths = given (getenv "X509_CERT_DIR") ∷ some "/etc/grid-security/certificates" ∷ []

  -- the proxy, then what a variable names, then a file below the home directory
  abbrev pub paths : String → String → String → List (Option String)
  paths name home file =
      given (getenv "X509_USER_PROXY") ∷ given (getenv name) ∷ some (concat home file) ∷ []

  abbrev pub chosen : Bool → Option String → Option String → Option String → Result SslOptions
  chosen proxy_only none key cert = raised runtime_error
  chosen proxy_only (some ca) none cert = raised runtime_error
  chosen proxy_only (some ca) (some key) none = raised runtime_error
  chosen proxy_only (some ca) (some key) (some cert) = ok (record {
    key_file = key;
    cert_file = cert;
    ca_path = ca;
    key_pass = if proxy_only || key == cert then none else some (getpass key);
  })

  certificates-first : certificates getenv exists getpass ≡ first_there exists ca_paths
  unfolding certificates from_env from_path first_there
  certificates-first = ground arith

  home-first :
      (name home file : String)
      → getenv "HOME" ≡ some home
      → or_else_home getenv exists getpass
          (or_else_env getenv exists getpass
            (from_env getenv exists getpass "X509_USER_PROXY")
            name)
          file
        ≡ ok (first_there exists (paths name home file))
  unfolding or_else_home or_else_env from_env from_path first_there
  home-first name home file set = ground (arith, set)

  first_there-exists :
      (l : List (Option String)) (path : String)
      → first_there exists l ≡ some path
      → exists path ≡ true
  unfolding first_there
  first_there-exists [] path h = absurd cc
  first_there-exists (none ∷ l) path h = first_there-exists l path h
  first_there-exists (some p ∷ l) path h = elim (Bool-cases (exists p)) [
    | inl there ↦ ground (arith, h, there)
    | inr gone ↦ first_there-exists l path (ground (arith, h, gone))
  ]

  checked-chosen :
      (proxy_only : Bool) (ca key cert : Option String)
      → ((path : String) → ca ≡ some path → exists path ≡ true)
      → ((path : String) → key ≡ some path → exists path ≡ true)
      → ((path : String) → cert ≡ some path → exists path ≡ true)
      → checked getenv exists getpass proxy_only ca key cert ≡ chosen proxy_only ca key cert
  unfolding checked found password
  checked-chosen proxy_only none key cert a k c = refl
  checked-chosen proxy_only (some ca) none cert a k c = ground (arith, a ca refl)
  checked-chosen proxy_only (some ca) (some key) none a k c = ground (arith, a ca refl, k key refl)
  checked-chosen proxy_only (some ca) (some key) (some cert) a k c =
      ground (arith, a ca refl, k key refl, c cert refl)

  init-step :
      (proxy_only : Bool) (key cert : Option String)
      → or_else_home getenv exists getpass
          (or_else_env getenv exists getpass
            (from_env getenv exists getpass "X509_USER_PROXY")
            "X509_USER_KEY")
          "/.globus/userkey.pem"
        ≡ ok key
      → or_else_home getenv exists getpass
          (or_else_env getenv exists getpass
            (from_env getenv exists getpass "X509_USER_PROXY")
            "X509_USER_CERT")
          "/.globus/usercert.pem"
        ≡ ok cert
      → init getenv exists getpass proxy_only
        ≡ checked getenv exists getpass proxy_only (certificates getenv exists getpass) key cert
  unfolding init
  init-step proxy_only key cert h k = ground (arith, h, k)

  -- With a home directory, `SSLOptions` has the first of its candidates that is there, for the
  -- certificates, the key and the certificate each, and fails with `RuntimeError` where one has
  -- none; it asks for a password, for a caller that does not want a proxy only, where the key and
  -- the certificate are different files.
  pub init-first :
      (proxy_only : Bool) (home : String)
      → getenv "HOME" ≡ some home
      → init getenv exists getpass proxy_only
        ≡ chosen proxy_only
            (first_there exists ca_paths)
            (first_there exists (paths "X509_USER_KEY" home "/.globus/userkey.pem"))
            (first_there exists (paths "X509_USER_CERT" home "/.globus/usercert.pem"))
  init-first proxy_only home set =
      let key = first_there exists (paths "X509_USER_KEY" home "/.globus/userkey.pem") in
      let cert = first_there exists (paths "X509_USER_CERT" home "/.globus/usercert.pem") in
      init-step proxy_only key cert (home-first "X509_USER_KEY" home "/.globus/userkey.pem" set)
        (home-first "X509_USER_CERT" home "/.globus/usercert.pem" set)
      ∙ ap (λ ca. checked getenv exists getpass proxy_only ca key cert) certificates-first
      ∙ checked-chosen proxy_only (first_there exists ca_paths) key cert
          (first_there-exists ca_paths)
          (first_there-exists (paths "X509_USER_KEY" home "/.globus/userkey.pem"))
          (first_there-exists (paths "X509_USER_CERT" home "/.globus/usercert.pem"))
