-- ===== src/Api/NotFound.antt =====
-- Which replies of internal/api/handler.go are a NotFound.
use truthmetal.Base.{
  String, ◌≡◌, ◌≢◌, ◌↔◌, arith, string_dec, ◌==◌, Bool, true, false, ◌||◌, if◌then◌else◌,
}
use mathlib.Core.Logic.{ite}
use truthmetal.Exec.{Error, other, Outcome, returns, fails, panics}
use truthmetal.Model.{SubmitRequest}
use truthmetal.Ledger.{Process, Service, on_world, submit, get, get_by_id, revoke}
use truthmetal.Api.Messages.{GetRequest, RevokeRequest, QueryAuditRequest, ParameterMessage}
use truthmetal.Api.{
  Reply, Code, refused, is_not_found, reply_internal, reply_classified, with_default_type,
  submit_handler, audit_page, get_handler, get_version_handler, revoke_handler, query_audit_handler,
  to_proto,
}

module _ {A B : Type 0} (f : A → B) where
  reply_classified_not_found :
      (r : Outcome A) (e : Error)
      → (reply_classified f r ≡ refused Code.not_found e)
        ↔ ((r ≡ fails e) × ((resource : String) × (e ≡ Error.not_found resource)))
  unfolding reply_classified is_not_found
  reply_classified_not_found (returns a) e = (λ h. cc, λ h. cc (h.0))
  reply_classified_not_found (fails (Error.not_found resource)) e =
      (λ h. (ground arith, (resource, ground arith)), λ h. ground (arith, h.0))
  reply_classified_not_found (fails (other message)) e = (λ h. cc, λ h. cc (h.0, h.1.1))
  reply_classified_not_found panics e = (λ h. cc, λ h. cc (h.0))

  internal_code : (o : Outcome A) (e : Error) → reply_internal f o ≢ refused Code.not_found e
  unfolding reply_internal
  internal_code (returns a) e h = cc
  internal_code (fails err) e h = cc
  internal_code panics e h = cc

-- A call failed with this error, and the error is a missing resource.
abbrev pub Missing : {A : Type 0} → Error → Outcome A → Type 0
Missing e o = (o ≡ fails e) × ((resource : String) × (e ≡ Error.not_found resource))

-- A handler that asks for two fields, and tells missing resources apart or does not.
module _ {A B S : Type 0} (f : A → B) (refusal : Error) (s : S) (called : Outcome A × S)
    (e : Error) where
  -- What a handler does, from the test of its fields.
  abbrev guarded : Bool → Reply B × S → Reply B × S
  guarded absent answer = if absent then (refused Code.invalid_argument refusal, s) else answer

  given :
      (x y : String) (d : Dec (x ≡ "")) (d' : Dec (y ≡ ""))
      → ((guarded (ite d true false || ite d' true false) (reply_classified f called.0, called.1)).0
          ≡ refused Code.not_found e)
        ↔ ((x ≢ "") × (y ≢ "") × Missing e called.0)
  given x y (yes p) d' = (λ h. cc, λ h. absurd (h.0 p))
  given x y (no n) (yes q) = (λ h. cc, λ (_, m, _). absurd (m q))
  given x y (no n) (no m) =
      let (to, from) = reply_classified_not_found f called.0 e in
      (λ h. (n, m, to h), λ (_, _, missing). from missing)

  given_one :
      (x : String) (d : Dec (x ≡ ""))
      → ((guarded (ite d true false) (reply_classified f called.0, called.1)).0
          ≡ refused Code.not_found e)
        ↔ ((x ≢ "") × Missing e called.0)
  given_one x (yes p) = (λ h. cc, λ h. absurd (h.0 p))
  given_one x (no n) =
      let (to, from) = reply_classified_not_found f called.0 e in (λ h. (n, to h), λ h. from h.1)

  guarded_internal :
      (absent : Bool)
      → (guarded absent (reply_internal f called.0, called.1)).0 ≢ refused Code.not_found e
  guarded_internal true h = cc
  guarded_internal false h = internal_code f called.0 e h

module _ {W Doc : Type 0} (svc : Service W Doc) where
  get_not_found :
      (r : GetRequest) (s : Process W) (e : Error)
      → ((get_handler svc r s).0 ≡ refused Code.not_found e)
        ↔ ((r.namespace ≢ "") × (r.key ≢ "") × Missing e (get svc r.namespace r.key s.world).0)
  unfolding get_handler
  get_not_found r s e =
      given to_proto (other "namespace and key are required") s
        (on_world (get svc r.namespace r.key) s) e r.namespace r.key (string_dec r.namespace "")
        (string_dec r.key "")

  get_version_not_found :
      (id : String) (s : Process W) (e : Error)
      → ((get_version_handler svc id s).0 ≡ refused Code.not_found e)
        ↔ ((id ≢ "") × Missing e (get_by_id svc id s.world).0)
  unfolding get_version_handler
  get_version_not_found id s e =
      given_one to_proto (other "id is required") s (on_world (get_by_id svc id) s) e id
        (string_dec id "")

  revoke_not_found :
      (r : RevokeRequest) (s : Process W) (e : Error)
      → ((revoke_handler svc r s).0 ≡ refused Code.not_found e) ↔ (
          (r.namespace ≢ "")
          × (r.key ≢ "")
          × Missing e (revoke svc r.namespace r.key r.actor r.reason s.world).0)
  unfolding revoke_handler
  revoke_not_found r s e =
      given to_proto (other "namespace and key are required") s
        (on_world (revoke svc r.namespace r.key r.actor r.reason) s) e r.namespace r.key
        (string_dec r.namespace "") (string_dec r.key "")

  submit_no_not_found :
      (r : SubmitRequest) (s : Process W) (e : Error)
      → (submit_handler svc r s).0 ≢ refused Code.not_found e
  unfolding submit_handler
  submit_no_not_found r s e = twice (r.key == "" || r.namespace == "") (r.value == "")
    where
      twice :
          (unnamed empty : Bool)
          → (if◌then◌else◌ {A = Reply ParameterMessage × Process W} unnamed
              (refused Code.invalid_argument (other "key and namespace are required"), s)
              (if empty then (refused Code.invalid_argument (other "value is required"), s) else (
                reply_internal to_proto (submit svc (with_default_type r) s).0,
                (submit svc (with_default_type r) s).1,
              ))).0
            ≢ refused Code.not_found e
      twice true empty h = cc
      twice false true h = cc
      twice false false h = internal_code to_proto (submit svc (with_default_type r) s).0 e h

  query_audit_no_not_found :
      (r : QueryAuditRequest) (s : Process W) (e : Error)
      → (query_audit_handler svc r s).0 ≢ refused Code.not_found e
  unfolding query_audit_handler
  query_audit_no_not_found r s e =
      guarded_internal (λ page. page) (other "namespace and key are required") s
        (on_world (audit_page svc r) s) e (r.namespace == "" || r.key == "")

  -- A handler tells the client NotFound exactly where a resource is missing: `Get`, `GetVersion`
  -- and `Revoke` do so where the fields that they ask for are given, and the service's call, from
  -- the state of the request, fails with that error, and it is a missing resource. `Submit` and
  -- `QueryAudit` never do.
  pub handlers_not_found :
      (s : Process W) (e : Error)
      → ((r : GetRequest)
          → ((get_handler svc r s).0 ≡ refused Code.not_found e)
            ↔ ((r.namespace ≢ "") × (r.key ≢ "") × Missing e (get svc r.namespace r.key s.world).0))
        × ((id : String)
            → ((get_version_handler svc id s).0 ≡ refused Code.not_found e)
              ↔ ((id ≢ "") × Missing e (get_by_id svc id s.world).0))
        × ((r : RevokeRequest)
            → ((revoke_handler svc r s).0 ≡ refused Code.not_found e) ↔ (
                (r.namespace ≢ "")
                × (r.key ≢ "")
                × Missing e (revoke svc r.namespace r.key r.actor r.reason s.world).0))
        × ((r : SubmitRequest) → (submit_handler svc r s).0 ≢ refused Code.not_found e)
        × ((r : QueryAuditRequest) → (query_audit_handler svc r s).0 ≢ refused Code.not_found e)
  handlers_not_found s e = (
    λ r. get_not_found r s e,
    λ id. get_version_not_found id s e,
    λ r. revoke_not_found r s e,
    λ r. submit_no_not_found r s e,
    λ r. query_audit_no_not_found r s e,
  )
