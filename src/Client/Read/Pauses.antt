-- ===== src/Client/Read/Pauses.antt =====
-- The pauses of `_get_with_429_retry` in backend/app/integrations/appscan_api/client.py.
use mathlib.Core.List.{append_assoc, append-nil}
use app_scan_custom_dashboar.Base.{
  ℕ, zero, suc, ◌≤◌, ◌≡◌, inl, inr, refl, String, Bool, false, Option, none, some, List, [], ◌∷◌,
  ◌++◌, arith, if◌then◌else◌, eqb, ℤ, pos, negsuc, length, All, Bool-cases, ◌==◌,
}
use app_scan_custom_dashboar.Json.{Fields}
use app_scan_custom_dashboar.Client.Http.{
  Response, Outcome, done, raised, World, pure, sleep, continue, ◌>>=◌, Transport, transmit,
  Headers,
}
use app_scan_custom_dashboar.Client.Http.Replies.{transmit-slept}
use app_scan_custom_dashboar.Client.Read.{
  max_429_backoff, delay_for, positive_capped, parse_retry_after, get_request, retry_loop,
  get_with_429_retry,
}

positive_capped-le : (o : Option ℤ) (i : ℕ) → delay_for i (positive_capped o) ≤ max_429_backoff
unfolding delay_for positive_capped
positive_capped-le none i = omega arith
positive_capped-le (some (pos zero)) i = omega arith
positive_capped-le (some (pos (suc n))) i = omega arith
positive_capped-le (some (negsuc n)) i = omega arith

delay-le :
    (read_float : String → Option ℤ) (raw : Option String) (i : ℕ)
    → delay_for i (parse_retry_after read_float raw) ≤ max_429_backoff
unfolding parse_retry_after
delay-le read_float none i = positive_capped-le none i
delay-le read_float (some raw) i = elim (Bool-cases (raw == "")) [
  | inl empty ↦ rw empty (positive_capped-le none i)
  | inr given ↦ rw given (positive_capped-le (read_float raw) i)
]

-- The call returned a response that is still rate limited.
abbrev pub is_still_limited : Outcome Response → Bool
is_still_limited (done resp) = eqb resp.status_code 429
is_still_limited (raised e) = false

-- From `w`, at most `left` pauses of at most the largest backoff; if the call returns a response that
-- is still a 429, all of them were used.
abbrev pub Paced : {S : Type 0} → ℕ → World S → Outcome Response × World S → Type 0
Paced left w (r, w') =
    (new : List ℕ) × (w'.slept ≡ w.slept ++ new)
    × All (λ d. d ≤ max_429_backoff) new
    × (length new ≤ left)
    × ((if is_still_limited r then left else 0) ≤ length new)

module _ {S : Type 0} (send : Transport S) (read_float : String → Option ℤ) (path : String)
    (params : Fields) (headers : Headers) where
  -- One more pause in front of what follows it.
  Paced-after :
      (left d : ℕ) (u v : World S) (r : Outcome Response × World S)
      → v.slept ≡ u.slept ++ (d ∷ [])
      → d ≤ max_429_backoff
      → Paced left v r
      → Paced (suc left) u r
  Paced-after left d u v (r, w) at small (new, at', bounded, few, used) = (
    d ∷ new,
    rw (at', at) (append_assoc u.slept (d ∷ []) new),
    (small, bounded),
    omega arith,
    ground (arith, used),
  )

  Paced-none :
      (left : ℕ) (w v : World S) (r : Outcome Response)
      → v.slept ≡ w.slept
      → (if is_still_limited r then left else 0) ≤ 0
      → Paced left w (r, v)
  Paced-none left w v r same never = ([], rw same (rw append-nil), tt, omega arith, never)

  Paced-same :
      (left : ℕ) (u v : World S) (r : Outcome Response × World S)
      → v.slept ≡ u.slept
      → Paced left v r
      → Paced left u r
  Paced-same left u v (r, w) same (new, at, small, few, used) =
      (new, rw at (rw same), small, few, used)

  retry_loop-Paced :
      (left i : ℕ) (resp : Response) (w : World S)
      → Paced left w (retry_loop send read_float path params headers left i resp w)
  unfolding retry_loop pure sleep ◌>>=◌
  retry_loop-Paced zero i resp w = Paced-none zero w w (done resp) refl (ground arith)
  retry_loop-Paced (suc left) i resp w = elim (Bool-cases (eqb resp.status_code 429)) [
    | inl limited ↦ rw limited (
        after (transmit send (get_request path params headers) paused).0
          (transmit send (get_request path params headers) paused).1
          (transmit-slept send (get_request path params headers) paused)
          (retry_loop-Paced left (suc i)))
    | inr other ↦ rw other (Paced-none (suc left) w w (done resp) refl (ground arith))
  ]
    where
      delay : ℕ
      delay = delay_for i (parse_retry_after read_float resp.retry_after)

      paused : World S
      paused = record w { slept = w.slept ++ (delay ∷ []) }

      after :
          (o : Outcome Response) (v : World S)
          → v.slept ≡ w.slept ++ (delay ∷ [])
          → ((again : Response) (u : World S)
              → Paced left u (retry_loop send read_float path params headers left (suc i) again u))
          → Paced (suc left) w (
              continue o
                (λ again. retry_loop send read_float path params headers left (suc i) again)
                v)
      after (done again) v at rest =
          Paced-after left delay w v
            (retry_loop send read_float path params headers left (suc i) again v) at
            (delay-le read_float resp.retry_after i) (rest again v)
      after (raised e) v at rest =
          Paced-after left delay w v (raised e, v) at (delay-le read_float resp.retry_after i)
            (Paced-none left v v (raised e) refl (omega arith))

  -- A read pauses at most three times, never for more than five seconds, and returns a response that
  -- is still rate limited only after all three pauses.
  pub get_with_429_retry-Paced :
      (w : World S) → Paced 3 w (get_with_429_retry send read_float path params headers w)
  unfolding get_with_429_retry ◌>>=◌
  get_with_429_retry-Paced w =
      begun (transmit send (get_request path params headers) w).0
        (transmit send (get_request path params headers) w).1
        (transmit-slept send (get_request path params headers) w)
    where
      begun :
          (o : Outcome Response) (v : World S)
          → v.slept ≡ w.slept
          → Paced 3 w (continue o (λ r. retry_loop send read_float path params headers 3 0 r) v)
      begun (done r) v same =
          Paced-same 3 w v (retry_loop send read_float path params headers 3 0 r v) same
            (retry_loop-Paced 3 0 r v)
      begun (raised e) v same = Paced-none 3 w v (raised e) same (omega arith)
