-- ===== src/Client/Read/Session.antt =====
-- Sequences of read calls on one client of backend/app/integrations/appscan_api/client.py.
use mathlib.Core.List.{append-nil}
use app_scan_custom_dashboar.Base.{
  ℕ, ◌*◌, ◌≡◌, String, ◌<>◌, Bool, true, false, Option, List, [], ◌∷◌, arith, ℤ, length, starts_any,
  upper, member,
}
use app_scan_custom_dashboar.Json.{Fields, put, text}
use app_scan_custom_dashboar.Client.Http.{
  raised, Config, World, ◌>>=◌, Transport, read_only_violation,
}
use app_scan_custom_dashboar.Client.Http.Sends.{Extends, Extends-trans, Sends-bind, Sends-pure}
use app_scan_custom_dashboar.Client.Guard.{validate_request, read_only_get_path_prefixes}
use app_scan_custom_dashboar.Client.Guard.ReadOnly.{Allowed}
use app_scan_custom_dashboar.Client.Read.{get, get_count, get_with_count}
use app_scan_custom_dashboar.Client.Read.Limits.{get-Sends, get_count-Sends}

-- The public read calls.
pub data Call : Type 0 where
  read : String → Fields → Call
  count : String → Fields → Call
  read_with_count : String → Fields → Call

module _ {S : Type 0} (config : Config) (send : Transport S) (clock : S → ℕ)
    (fromisoformat : String → Option ℕ) (read_float : String → Option ℤ) (raises : ℕ → Bool)
    (trunc : String → ℤ) where
  -- A call, whatever it returns or raises.
  unfoldable pub perform : Call → World S → World S
  perform (read path params) w =
      (get config send clock fromisoformat read_float raises path params w).1
  perform (count path params) w =
      (get_count config send clock fromisoformat read_float raises trunc path params w).1
  perform (read_with_count path params) w =
      (get_with_count config send clock fromisoformat read_float raises trunc path params w).1

  unfoldable pub perform_all : List Call → World S → World S
  perform_all [] w = w
  perform_all (c ∷ cs) w = perform_all cs (perform c w)

  perform-Extends :
      config.read_only ≡ true → (c : Call) (w : World S) → Extends Allowed 14 w (perform c w)
  unfolding perform get_with_count
  perform-Extends on (read path params) w =
      (get-Sends config send clock fromisoformat read_float raises on path params).at w
  perform-Extends on (count path params) w =
      (get_count-Sends config send clock fromisoformat read_float raises on path params trunc).at w
  perform-Extends on (read_with_count path params) w =
      (Sends-bind 14 0
          (get config send clock fromisoformat read_float raises path
            (put "$inlinecount" (text "allpages") params))
          _
          (get-Sends config send clock fromisoformat read_float raises on path
            (put "$inlinecount" (text "allpages") params))
          (λ payload. Sends-pure _)).at
        w

  -- In read-only mode any sequence of read calls, against any service, sends requests behind those
  -- sent before that are all GETs below a listed prefix or POSTs to the login path, at most fourteen
  -- for each call.
  pub perform_all-Extends :
      config.read_only ≡ true
      → (calls : List Call) (w : World S)
      → Extends Allowed (14 * length calls) w (perform_all calls w)
  unfolding perform_all
  perform_all-Extends on [] w = ([], rw append-nil, tt, omega arith)
  perform_all-Extends on (c ∷ cs) w =
      let both =
        Extends-trans 14 (14 * length cs) w (perform c w) (perform_all cs (perform c w))
          (perform-Extends on c w) (perform_all-Extends on cs (perform c w)) in
      (both.0, both.1, both.2, omega (arith, both.3))

  -- In read-only mode a read below no listed prefix raises ReadOnlyViolationError, and sends and
  -- changes nothing.
  pub get_blocked :
      (path : String) (params : Fields) (w : World S)
      → config.read_only ≡ true
      → starts_any path read_only_get_path_prefixes ≡ false
      → get config send clock fromisoformat read_float raises path params w
        ≡ (raised (read_only_violation ("Blocked endpoint not in read allow-list: " <> path)), w)
  unfolding get validate_request ◌>>=◌ upper member
  get_blocked path params w on off = rw (on, off)
