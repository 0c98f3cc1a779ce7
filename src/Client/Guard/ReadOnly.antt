-- ===== src/Client/Guard/ReadOnly.antt =====
-- What the guard of backend/app/integrations/appscan_api/client.py lets through.
use mathlib.Core.Bool.{false≢true}
use app_scan_custom_dashboar.Base.{
  String, ◌≡◌, sym, ◌∙◌, ◌↔◌, ◌⊎◌, inl, inr, Bool, true, false, eq_iff, arith, upper, member,
  starts_any,
}
use app_scan_custom_dashboar.Client.Http.{done, Request}
use app_scan_custom_dashboar.Client.Guard.{
  validate_request, auth_login_path, read_only_get_path_prefixes,
}

-- Whatever the case of the method's letters: a GET below a listed prefix, or a POST to the login.
abbrev pub IsReadOnly : String → String → Type 0
IsReadOnly method path =
    (upper method ≡ "GET") × (starts_any path read_only_get_path_prefixes ≡ true)
    ⊎ (upper method ≡ "POST") × (path ≡ auth_login_path)

-- In read-only mode the guard lets a request through exactly when it is a GET below a listed prefix
-- or a POST to the login path; without read-only mode it lets every request through.
pub validate_request_iff :
    (read_only : Bool) (method path : String)
    → (validate_request read_only method path ≡ done tt)
      ↔ (read_only ≡ false ⊎ IsReadOnly method path)
unfolding validate_request member
validate_request_iff read_only method path =
    ground (
      arith,
      eq_iff (upper method) "GET",
      eq_iff (upper method) "POST",
      eq_iff path auth_login_path,
    )

-- What the property says of a request that is sent.
abbrev pub Allowed : Request → Type 0
Allowed r = IsReadOnly r.method r.path

pub guard_allows :
    (read_only : Bool) (method path : String) (u : Unit {0})
    → read_only ≡ true
    → validate_request read_only method path ≡ done u
    → IsReadOnly method path
guard_allows read_only method path u on h =
    elim ((validate_request_iff read_only method path).0 h) [
      | inl off ↦ absurd (false≢true (sym off ∙ on))
      | inr allowed ↦ allowed
    ]
