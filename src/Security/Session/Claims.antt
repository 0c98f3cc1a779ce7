-- ===== src/Security/Session/Claims.antt =====
-- What a token carries from the login to the user of a request.
use app_scan_custom_dashboar.Base.{
  ℕ, String, ◌≡◌, ◌≢◌, refl, Bool, true, false, ◌&&◌, ◌||◌, not, Option, none, some, List, [], ◌∷◌,
  map, ◌==◌, eq_iff, arith, if◌then◌else◌, member, keep, All, Bool-cases, inl, inr, ap, sym,
}
use app_scan_custom_dashboar.Json.{
  Value, Fields, arr, nil, text, get_or, str, elements, text_items, find,
}
use app_scan_custom_dashboar.Errors.{Exception, Result, ok, err}
use app_scan_custom_dashboar.Security.Session.{
  AuthSettings, UserContext, is_oidc, read_claims, checked_claims, oidc_is_configured,
  token_payload, create_access_token, get_current_user, login, decoded_user, allowed_role_names,
}

refused : {u : UserContext} {e : Exception} → ◌≡◌ {A = Result UserContext} (err e) (ok u) → ⊥
refused h = cc

ok-injective : {u v : UserContext} → ok u ≡ ok v → u ≡ v
ok-injective h = cc

pub not_empty : String → Bool
not_empty g = not (g == "")

keep-not_empty : (gs : List String) → All (λ g. g ≢ "") (keep not_empty gs)
unfolding keep not_empty
keep-not_empty [] = tt
keep-not_empty (g ∷ gs) = let rest = keep-not_empty gs in ground (arith, eq_iff g "")

checked_claims-ok :
    (subject role : String) (groups : Value) (u : UserContext)
    → checked_claims subject role groups ≡ ok u
    → (u.subject ≢ "")
      × (u.role ≢ "")
      × All (λ g. g ≢ "") u.asset_group_ids
      × (u.subject ≡ subject)
      × (u.role ≡ role)
unfolding checked_claims not_empty
checked_claims-ok subject role (arr groups) u h = elim (Bool-cases (subject == "" || role == "")) [
  | inl missing ↦ absurd (refused (rw missing at h))
  | inr present ↦
      let made = ok-injective (rw present at h) in
      (
        rw (← ap (λ (v : UserContext). v.subject) made) (ground (arith, eq_iff subject "")),
        rw (← ap (λ (v : UserContext). v.role) made) (ground (arith, eq_iff role "")),
        rw (← ap (λ (v : UserContext). v.asset_group_ids) made)
            (keep-not_empty (map str (elements groups))),
        sym (ap (λ (v : UserContext). v.subject) made),
        sym (ap (λ (v : UserContext). v.role) made),
      )
]
checked_claims-ok subject role _ u h = absurd (refused h)

str-text_items : (gs : List String) → map str (elements (text_items gs)) ≡ gs
unfolding str
str-text_items [] = refl
str-text_items (g ∷ gs) = ap (λ t. g ∷ t) (str-text_items gs)

decoded_user-ok :
    (s : AuthSettings) (o : Option Fields) (u : UserContext)
    → decoded_user s o ≡ ok u
    → (u.subject ≢ "") × (u.role ≢ "") × All (λ g. g ≢ "") u.asset_group_ids × (o ≢ none)
unfolding decoded_user read_claims
decoded_user-ok s none u h = absurd (refused h)
decoded_user-ok s (some payload) u h =
    let checked =
      checked_claims-ok (str (get_or "sub" (text "") payload))
        (str (get_or (if is_oidc s then s.oidc_role_claim else "role") (text "") payload))
        (get_or (if is_oidc s then s.oidc_asset_groups_claim else "asset_group_ids") (arr nil)
          payload)
        u h in
    (checked.0, checked.1, checked.2, λ e. cc)

module _ (decode : String → Option Fields) (s : AuthSettings) where
  -- Whoever `get_current_user` lets in has a subject and a role that are not empty, and no empty
  -- asset group; the token was decoded, and in OIDC mode an issuer is configured.
  pub get_current_user-ok :
      (token : String) (u : UserContext)
      → get_current_user decode s token ≡ ok u
      → (u.subject ≢ "")
        × (u.role ≢ "")
        × All (λ g. g ≢ "") u.asset_group_ids
        × (decode token ≢ none)
        × ((is_oidc s && not (oidc_is_configured s)) ≡ false)
  unfolding get_current_user
  get_current_user-ok token u h = elim (Bool-cases (is_oidc s && not (oidc_is_configured s))) [
    | inl unset ↦ absurd (refused (rw unset at h))
    | inr set ↦
        let checked = decoded_user-ok s (decode token) u (rw set at h) in
        (checked.0, checked.1, checked.2, checked.3, set)
  ]

module _ (encode : Fields → String) (s : AuthSettings) where
  -- A local login hands out a token only for a role of the policy and outside OIDC mode.
  pub login-ok :
      (now : ℕ) (username role : String) (groups : List String) (token : String)
      → login encode s now username role groups ≡ ok token
      → (is_oidc s ≡ false)
        × (member role allowed_role_names ≡ true)
        × (token ≡ encode (token_payload s now username role groups))
  unfolding login create_access_token
  login-ok now username role groups token h = ground arith

  module _ (decode : String → Option Fields) where
    -- If the username and the role of a login are not empty, and the token library decodes its token as
    -- it was encoded, the user of the request has the name and the role of the login, and its asset
    -- groups without the empty ones.
    pub login-get_current_user :
        (now : ℕ) (username role : String) (groups : List String) (token : String)
        → username ≢ ""
        → role ≢ ""
        → login encode s now username role groups ≡ ok token
        → decode token ≡ some (token_payload s now username role groups)
        → get_current_user decode s token
          ≡ ok (record { subject = username; role = role; asset_group_ids = keep not_empty groups })
    unfolding get_current_user decoded_user read_claims checked_claims token_payload not_empty
        get_or str find
    login-get_current_user now username role groups token named cast logged decoded =
        let (local, known, made) = login-ok now username role groups token logged in
        rw (decoded, local, str-text_items groups)
          (ground (arith, eq_iff username "", eq_iff role ""))
