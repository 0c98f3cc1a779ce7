-- ===== src/Client/Auth/Login.antt =====
-- What the login and the headers of backend/app/integrations/appscan_api/client.py send.
use app_scan_custom_dashboar.Base.{ℕ, ◌≡◌, refl, String, true, Option, none, some, arith}
use app_scan_custom_dashboar.Client.Http.{Config, modify, gets, Transport, transmit}
use app_scan_custom_dashboar.Client.Http.Sends.{
  Sends, Sends-pure, Sends-gets, Sends-try_except, Sends-bind, Sends-bind_lift, Sends-bind_quiet,
  Sends-transmit, Sends-modify, Sends-weaken,
}
use app_scan_custom_dashboar.Client.Guard.{validate_request, auth_login_path, build_auth_headers}
use app_scan_custom_dashboar.Client.Guard.ReadOnly.{Allowed, guard_allows}
use app_scan_custom_dashboar.Client.Auth.{
  check_login, extract_token, store_login, login_request, login_failed, login_with_api_key,
  header_for, get_auth_header,
}

module _ {S : Type 0} (config : Config) (send : Transport S) (clock : S → ℕ)
    (fromisoformat : String → Option ℕ) (read_only : config.read_only ≡ true) where
  login-Sends : Sends Allowed 1 (login_with_api_key config send clock fromisoformat)
  unfolding login_with_api_key login_request
  login-Sends =
      Sends-bind_lift 1 (validate_request config.read_only "POST" auth_login_path) _ λ u guarded.
        Sends-bind 1 0 (transmit send (login_request config)) _
          (Sends-transmit send (login_request config)
            (guard_allows config.read_only "POST" auth_login_path u read_only guarded))
          λ resp. Sends-bind_lift 0 (check_login resp) _ λ payload _.
            Sends-bind_lift 0 (extract_token payload) _ λ token _.
              Sends-bind_quiet 0
                (modify (store_login config send clock fromisoformat token payload)) _
                (Sends-modify _ (λ w. refl)) (λ _. Sends-pure token)

  header_for-Sends :
      (token : Option String) → Sends Allowed 1 (header_for config send clock fromisoformat token)
  unfolding header_for
  header_for-Sends none =
      Sends-try_except 1 0 _ _
        (Sends-bind 1 0 (login_with_api_key config send clock fromisoformat) _ login-Sends
          (λ token. Sends-pure (build_auth_headers (some token) config.api_key config.api_secret)))
        (Sends-bind_quiet 0 (modify (login_failed config send clock fromisoformat)) _
          (Sends-modify _ (λ w. refl))
          (λ _. Sends-pure (build_auth_headers none config.api_key config.api_secret)))
  header_for-Sends (some token) =
      Sends-weaken 0 1 _ (omega arith)
        (Sends-pure (build_auth_headers (some token) config.api_key config.api_secret))

  -- The headers of a call cost at most the one request of a login.
  pub get_auth_header-Sends : Sends Allowed 1 (get_auth_header config send clock fromisoformat)
  unfolding get_auth_header
  get_auth_header-Sends = Sends-bind_quiet 1 (gets _) _ (Sends-gets _) header_for-Sends
