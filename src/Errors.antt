-- ===== src/Errors.antt =====
-- The exceptions that the modelled code raises, and calls that may raise (backend/app).
use app_scan_custom_dashboar.Base.{ℕ, String, Bool, true, false}

-- `HTTPException(status_code, detail)`, the IntegrityError of an INSERT whose key is taken, and any
-- other exception of the code outside, with its message.
pub data Exception : Type 0 where
  http_exception : ℕ → String → Exception
  integrity_error : Exception
  other_error : String → Exception

pub data Result {ℓ} (A : Type ℓ) : Type ℓ where
  ok : A → Result A
  err : Exception → Result A

-- `if not test: raise HTTPException(status, detail)`.
abbrev pub require : Bool → ℕ → String → Result (Unit {0})
require true status detail = ok tt
require false status detail = err (http_exception status detail)
