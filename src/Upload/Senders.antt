-- ===== src/Upload/Senders.antt =====
-- Who may upload files (`DQMFileAccess.put` of src/python/DQM/GUI.py).
use dqmgui_prod.Base.{
  String, Bool, true, ◌||◌, ◌&&◌, not, ◌≡◌, Option, none, some, member, split, is_some, ◌==◌,
  if◌then◌else◌, arith, Bool-cases, inl, inr,
}
use dqmgui_prod.Exec.{
  Result, ok, raised, http, key_error, attribute_error, pure, raise, lift, ◌>>=◌, when,
}
use dqmgui_prod.Upload.{
  Site, Headers, FrontEnd, header, required_header, authenticate, check_authentication,
  fail_authentication, check_proxy, check_group, status_not_authorized,
}

-- a header of groups that is there names the data operators
abbrev names_operators : Option String → Bool
names_operators none = true
names_operators (some groups) = member "group:dataops" (split b' ' groups)

-- a limited proxy is let in with at least one of the headers of groups, of which every one that is
-- there names the data operators
abbrev is_operator : Headers → Bool
is_operator h =
    let t0 = header "Cms-Authz-t0-operator" h in
    let production = header "Cms-Authz-production-operator" h in
    (is_some t0 || is_some production) && names_operators t0 && names_operators production

-- the outcome of the checks
abbrev pub verdict : FrontEnd → Headers → Result (Unit {0})
verdict f h =
    if not (is_some (header "cms-auth-status" h))
    then ok tt
    else if not f.sortable
    then raised attribute_error
    else elim (header "cms-authn-hmac" h) [
      | none ↦ raised key_error
      | some signed ↦
          if not (f.digest h == signed)
          then raised (http status_not_authorized "Unauthorized upload.")
          else elim (header "Cms-Authn-Method" h) [
            | none ↦ raised key_error
            | some authn ↦
                if not (authn == "X509LimitedProxy") || is_operator h
                then ok tt
                else raised (http status_not_authorized "Unauthorized upload.")
          ]
    ]

-- The checks of the sender come out as the verdict: a request that the front-end does not speak
-- for passes; any other is refused with `AttributeError` where the headers cannot be sorted, as in
-- Python 3, and where they can, as in Python 2, it fails with `KeyError` without the header of the
-- signature, it has to be signed and to name its method, and one of a limited proxy has to name a
-- group of operators, and each such header that it has the data operators.
pub authenticate_lem :
    (f : FrontEnd) (h : Headers) (s : Site) → authenticate f h s ≡ (verdict f h, s)
unfolding authenticate check_authentication fail_authentication check_proxy check_group when
    required_header ◌>>=◌ lift pure raise
authenticate_lem f h s = elim (Bool-cases f.sortable) [
  | inl old ↦ ground (arith, old)
  | inr new ↦ ground (arith, new)
]
