-- ===== src/Web.antt =====
-- The marketplace of the control plane: ctc/api/serializers.py and the marketplace's handlers of
-- ctc/api/web_routes.py. The session's user and the JSON of the bodies are arguments.
use ctc.Common.{ℕ, String, Option}
use ctc.Domain.{UserId, RequestStatus, Role}
use ctc.Store.{
  Db, Error, Result, ok, err, insufficient_credit, invalid_consumption, invalid_pledge, integrity,
  type_error, value_error, request_closed,
}
pub mod Requests
pub mod Market

-- What a handler answers: a body, or an HTTP error's status; 500 is an error that no handler catches.
pub data Answer (A : Type 0) : Type 0 where
  sent : A → Answer A
  refused : ℕ → Answer A

pub record Viewer : Type 0 where
  pub id : UserId
  pub role : Role

-- The errors that `donate` and `pool_fund` map to a status.
unfoldable pub fund_status : Error → ℕ
fund_status (request_closed _) = 409
fund_status insufficient_credit = 422
fund_status invalid_consumption = 422
fund_status _ = 500

-- Those that `pool_return` maps.
unfoldable pub return_status : Error → ℕ
return_status insufficient_credit = 422
return_status invalid_consumption = 422
return_status _ = 500

-- Those that `delete_request` maps.
unfoldable pub delete_status : Error → ℕ
delete_status (request_closed _) = 409
delete_status _ = 500

-- `create_request` maps none.
abbrev pub uncaught : Error → ℕ
uncaught e = 500

abbrev pub answered :
    {A B : Type 0} → (Error → ℕ) → (A → Db → Answer B) → Result A × Db → Answer B × Db
answered status_of f (ok a, s) = (f a s, s)
answered status_of f (err e, s) = (refused (status_of e), s)
