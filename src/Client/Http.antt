-- ===== src/Client/Http.antt =====
-- Requests, responses, the state of a client and its actions. Every request that leaves the client
-- is written to `sent`, every pause to `slept`, in milliseconds.
pub mod Sends
pub mod Replies
use app_scan_custom_dashboar.Base.{ℕ, String, Bool, Option, none, some, List, [], ◌∷◌, ◌++◌}
use app_scan_custom_dashboar.Json.{Value, Fields}

-- The two forms of the headers of `_build_auth_headers`.
pub data Headers : Type 0 where
  bearer : String → Headers
  key_pair : String → Headers

pub record Request : Type 0 where
  pub method : String
  pub path : String
  pub params : Fields
  pub headers : Headers

-- `json` is none where `resp.json()` raises.
pub record Response : Type 0 where
  pub status_code : ℕ
  pub content_type : String
  pub retry_after : Option String
  pub body : String
  pub json : Option Value

-- The exceptions of a client's calls; the last three are the HTTP library's and the JSON parser's.
pub data ClientError : Type 0 where
  read_only_violation : String → ClientError
  authentication_error : String → ClientError
  authorization_error : String → ClientError
  request_error : ℕ → ClientError
  response_format_error : String → ClientError
  status_error : ℕ → ClientError
  transport_error : ClientError
  json_error : ClientError

pub data Outcome (A : Type 0) : Type 0 where
  done : A → Outcome A
  raised : ClientError → Outcome A

-- The fields that `make` and `__init__` fix.
pub record Config : Type 0 where
  pub read_only : Bool
  pub api_key : String
  pub api_secret : String

-- `service` is the state of everything outside the client.
pub record World (S : Type 0) : Type 0 where
  pub service : S
  pub access_token : Option String
  pub access_token_expiry : Option ℕ
  pub owner_user_id : Option String
  pub login_succeeded : Option Bool
  pub sent : List Request
  pub slept : List ℕ

abbrev pub Action : Type 0 → Type 0 → Type 0
Action S A = World S → Outcome A × World S

module _ {S A : Type 0} where
  unfoldable pub pure : A → Action S A
  pure a w = (done a, w)

  unfoldable pub raise : ClientError → Action S A
  raise e w = (raised e, w)

  unfoldable pub lift : Outcome A → Action S A
  lift r w = (r, w)

  abbrev pub recover : Outcome A → Action S A → Action S A
  recover (done a) handler w = (done a, w)
  recover (raised e) handler w = handler w

  -- `try: m; except Exception: handler`. What `m` changed before it raised stays.
  unfoldable pub try_except : Action S A → Action S A → Action S A
  try_except m handler w = let (r, w') = m w in recover r handler w'

module _ {S : Type 0} where
  unfoldable pub gets : {A : Type 0} → (World S → A) → Action S A
  gets f w = (done (f w), w)

  unfoldable pub modify : (World S → World S) → Action S (Unit {0})
  modify f w = (done tt, f w)

  -- `asyncio.sleep`.
  unfoldable pub sleep : ℕ → Action S (Unit {0})
  sleep ms w = (done tt, record w { slept = w.slept ++ (ms ∷ []) })

module _ {S A B : Type 0} where
  abbrev pub continue : Outcome A → (A → Action S B) → Action S B
  continue (done a) f w = f a w
  continue (raised e) f w = (raised e, w)

  infixl 5 ◌>>=◌ ◌>>◌
  unfoldable pub ◌>>=◌ : Action S A → (A → Action S B) → Action S B
  unfolding pure raise lift
  ◌>>=◌ m f w = let (r, w') = m w in continue r f w'

  abbrev pub ◌>>◌ : Action S A → Action S B → Action S B
  m >> n = m >>= λ _. n

-- The HTTP library in front of the remote service: `none` is a connection error or a timeout.
abbrev pub Transport : Type 0 → Type 0
Transport S = Request → S → Option Response × S

reply_of : {S : Type 0} → Option Response → Action S Response
unfolding pure raise
reply_of none = raise transport_error
reply_of (some r) = pure r

unfoldable pub transmit : {S : Type 0} → Transport S → Request → Action S Response
unfolding reply_of
transmit send request w =
    let (answer, s') = send request w.service in
    reply_of answer (record w { service = s'; sent = w.sent ++ (request ∷ []) })
