-- ===== src/Client/Read/Limits.antt =====
-- What the read calls of backend/app/integrations/appscan_api/client.py send.
use app_scan_custom_dashboar.Base.{
  ℕ, zero, suc, ◌+◌, ◌≡◌, refl, String, Bool, true, not, ◌&&◌, Option, none, some, arith, ℤ, eqb,
}
use app_scan_custom_dashboar.Json.{Fields}
use app_scan_custom_dashboar.Client.Http.{
  Response, Outcome, Config, Action, lift, modify, sleep, ◌>>=◌, Transport, transmit, Headers,
}
use app_scan_custom_dashboar.Client.Http.Sends.{
  Sends, Sends-pure, Sends-lift, Sends-weaken, Sends-if, Sends-bind, Sends-bind_lift,
  Sends-bind_quiet, Sends-transmit, Sends-modify, Sends-sleep,
}
use app_scan_custom_dashboar.Client.Guard.{validate_request}
use app_scan_custom_dashboar.Client.Guard.ReadOnly.{IsReadOnly, Allowed, guard_allows}
use app_scan_custom_dashboar.Client.Auth.{
  get_auth_header, has_authorization, fallback_headers, is_unauthorized,
}
use app_scan_custom_dashboar.Client.Auth.Login.{get_auth_header-Sends}
use app_scan_custom_dashboar.Client.Read.{
  delay_for, parse_retry_after, get_request, retry_loop, get_with_429_retry, forget_token,
  refreshed, again_with, switched, bad_for_get, read_payload, get, get_count, bad_for_count,
  read_count,
}

module _ {S : Type 0} (send : Transport S) (read_float : String → Option ℤ) (path : String)
    (params : Fields) (allowed : IsReadOnly "GET" path) where
  retry_loop-Sends :
      (headers : Headers) (left retry_index : ℕ) (response : Response)
      → Sends Allowed left
          (retry_loop send read_float path params headers left retry_index response)
  unfolding retry_loop
  retry_loop-Sends headers zero retry_index response = Sends-pure response
  retry_loop-Sends headers (suc left) retry_index response =
      Sends-if (suc left) (eqb response.status_code 429) _ _
        (λ _.
          Sends-bind_quiet (suc left)
            (sleep (delay_for retry_index (parse_retry_after read_float response.retry_after))) _
            (Sends-sleep
              (delay_for retry_index (parse_retry_after read_float response.retry_after)))
            λ _. Sends-weaken (1 + left) (suc left) _ (omega arith) (
              Sends-bind 1 left (transmit send (get_request path params headers)) _
                (Sends-transmit send (get_request path params headers) allowed)
                (retry_loop-Sends headers left (suc retry_index))))
        (λ _. Sends-weaken 0 (suc left) _ (omega arith) (Sends-pure response))

  -- One request and three retries.
  get_with_429_retry-Sends :
      (headers : Headers) → Sends Allowed 4 (get_with_429_retry send read_float path params headers)
  unfolding get_with_429_retry
  get_with_429_retry-Sends headers =
      Sends-bind 1 3 (transmit send (get_request path params headers)) _
        (Sends-transmit send (get_request path params headers) allowed)
        (retry_loop-Sends headers 3 0)

module _ {S : Type 0} (config : Config) (send : Transport S) (clock : S → ℕ)
    (fromisoformat : String → Option ℕ) (read_float : String → Option ℤ) (raises : ℕ → Bool)
    (read_only : config.read_only ≡ true) (path : String) (params : Fields) where
  abbrev retry : Headers → Action S Response
  retry = get_with_429_retry send read_float path params

  refreshed-Sends :
      (headers : Headers) (resp : Response)
      → IsReadOnly "GET" path
      → Sends Allowed 5
          (refreshed config send clock fromisoformat read_float raises path params headers resp)
  unfolding refreshed
  refreshed-Sends headers resp allowed =
      Sends-if 5 (is_unauthorized resp.status_code && not (has_authorization headers)) _ _
        (λ _.
          Sends-bind_quiet 5 (modify forget_token) _ (Sends-modify forget_token (λ w. refl)) λ _.
            Sends-bind 1 4 (get_auth_header config send clock fromisoformat) _
              (get_auth_header-Sends config send clock fromisoformat read_only)
              λ renewed.
                Sends-bind 4 0 (retry renewed) _
                  (get_with_429_retry-Sends send read_float path params allowed renewed)
                  (λ again. Sends-pure (renewed, again)))
        (λ _. Sends-weaken 0 5 _ (omega arith) (Sends-pure (headers, resp)))

  again_with-Sends :
      (resp : Response) (headers : Option Headers)
      → IsReadOnly "GET" path
      → Sends Allowed 4
          (again_with config send clock fromisoformat read_float raises path params resp headers)
  unfolding again_with
  again_with-Sends resp none allowed = Sends-weaken 0 4 _ (omega arith) (Sends-pure resp)
  again_with-Sends resp (some headers) allowed =
      get_with_429_retry-Sends send read_float path params allowed headers

  switched-Sends :
      (bad : Response → Bool) (both : Headers × Response)
      → IsReadOnly "GET" path
      → Sends Allowed 4
          (switched config send clock fromisoformat read_float raises bad path params both)
  unfolding switched
  switched-Sends bad (headers, resp) allowed =
      Sends-if 4 (bad resp) _ _
        (λ _. again_with-Sends resp (fallback_headers config headers) allowed)
        (λ _. Sends-weaken 0 4 _ (omega arith) (Sends-pure resp))

  -- The common body of `get` and `get_count`, up to the last response.
  exchange-Sends :
      {A : Type 0} (bad : Response → Bool) (finish : Response → Outcome A)
      → IsReadOnly "GET" path
      → Sends Allowed 14 (do
        headers ← get_auth_header config send clock fromisoformat
        first ← retry headers
        second ←
            refreshed config send clock fromisoformat read_float raises path params headers first
        last ← switched config send clock fromisoformat read_float raises bad path params second
        lift (finish last))
  exchange-Sends bad finish allowed =
      Sends-bind 1 13 (get_auth_header config send clock fromisoformat) _
        (get_auth_header-Sends config send clock fromisoformat read_only)
        λ headers.
          Sends-bind 4 9 (retry headers) _
            (get_with_429_retry-Sends send read_float path params allowed headers)
            λ first.
              Sends-bind 5 4
                (refreshed config send clock fromisoformat read_float raises path params headers
                  first)
                _ (refreshed-Sends headers first allowed)
                λ second.
                  Sends-bind 4 0
                    (switched config send clock fromisoformat read_float raises bad path params
                      second)
                    _ (switched-Sends bad second allowed) (λ last. Sends-lift (finish last))

  -- In read-only mode one `get`, whatever the service answers and however the call ends, writes at
  -- most fourteen requests behind those sent before, each a GET below a listed prefix or the POST of
  -- a login.
  pub get-Sends :
      Sends Allowed 14 (get config send clock fromisoformat read_float raises path params)
  unfolding get
  get-Sends = Sends-bind_lift 14 (validate_request config.read_only "GET" path) _ λ u guarded.
      exchange-Sends bad_for_get (read_payload raises path)
        (guard_allows config.read_only "GET" path u read_only guarded)

  -- The same of one `get_count`.
  pub get_count-Sends :
      (trunc : String → ℤ)
      → Sends Allowed 14
          (get_count config send clock fromisoformat read_float raises trunc path params)
  unfolding get_count
  get_count-Sends trunc =
      Sends-bind_lift 14 (validate_request config.read_only "GET" path) _ λ u guarded.
        exchange-Sends bad_for_count (read_count raises trunc path)
          (guard_allows config.read_only "GET" path u read_only guarded)
