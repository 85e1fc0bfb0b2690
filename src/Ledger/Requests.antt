-- ===== src/Ledger/Requests.antt =====
-- Sequences of requests to one process. A panic ends its request alone: the server recovers it.
use truthmetal.Base.{String, List, [], ◌∷◌}
use truthmetal.Base.Int.{ℤ}
use truthmetal.Model.{SubmitRequest}
use truthmetal.Ledger.{Process, Service, on_world, submit, get, get_by_id, revoke, query_audit}

-- The calls of the service that the handlers make.
pub data Request : Type 0 where
  submit_request : SubmitRequest → Request
  get_request : String → String → Request
  get_version_request : String → Request
  revoke_request : String → String → String → String → Request
  audit_request : String → String → ℤ → ℤ → Request

module _ {W Doc : Type 0} (svc : Service W Doc) where
  -- The process behind a request, whatever its outcome.
  unfoldable pub step : Process W → Request → Process W
  step s (submit_request req) = (submit svc req s).1
  step s (get_request namespace key) = (on_world (get svc namespace key) s).1
  step s (get_version_request id) = (on_world (get_by_id svc id) s).1
  step s (revoke_request namespace key actor reason) =
      (on_world (revoke svc namespace key actor reason) s).1
  step s (audit_request namespace key limit offset) =
      (on_world (query_audit svc namespace key limit offset) s).1

  unfoldable pub run : Process W → List Request → Process W
  run s [] = s
  run s (request ∷ requests) = run (step s request) requests
