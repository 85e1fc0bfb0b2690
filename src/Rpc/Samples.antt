-- ===== src/Rpc/Samples.antt =====
-- A client over the local library, at a service that counts its calls and at one without methods.
mod Local
use text.Mathlib.TextLemmas.{nil-append}
use truthmetal.Base.{ℕ, suc, String, string_dec, ◌∙◌, refl, List, []}
use truthmetal.Base.Int.{pos}
use truthmetal.Exec.{not_found, other}
use truthmetal.Api.{Code, Reply, response, refused, Handler}
use truthmetal.Api.Messages.{EventMessage, GetRequest, RevokeRequest}
use truthmetal.Rpc.{
  ServiceHandler, new_service_client, client_methods, new_service_handler, api_server,
}
use truthmetal.Ledger.{Process}
use truthmetal.Ledger.Samples.{service}
use truthmetal.Memory.{World}
use truthmetal.Rpc.Laws.{Answers, Mounted, Method, gets, method_of, client_reaches}
use truthmetal.Rpc.Samples.Local.{HttpRequest, Wire, local_connect, methods, local_connect-Carries}

-- Each call is counted, and nothing is found.
abbrev counted : {A : Type 0} → Handler ℕ A
counted n = (refused Code.not_found (not_found "parameter"), suc n)

abbrev counting : ServiceHandler ℕ (List EventMessage)
counting = record {
  submit = λ r. counted;
  get = λ r. counted;
  get_version = λ r. counted;
  revoke = λ r. counted;
  query_audit = λ r. counted;
  watch = λ r. counted;
}

-- What answers requests to a service that is mounted alone.
abbrev transport :
    {S : Type 0} → ServiceHandler S (List EventMessage) → HttpRequest → S → Reply Wire × S
transport svc = (new_service_handler local_connect methods svc).1

transport-Mounted :
    {S : Type 0} (svc : ServiceHandler S (List EventMessage))
    → Mounted local_connect (transport svc) "" (new_service_handler local_connect methods svc)
unfolding new_service_handler
transport-Mounted svc = record { delivers = λ r rest e. (e ∙ nil-append _, refl) }

abbrev limit : GetRequest
limit = record { namespace = "risk"; key = "limit" }

client_reaches_example : Answers (counted 3) (
    method_of
      (client_methods local_connect
        (new_service_client local_connect methods (transport counting) "/"))
      gets
      limit
      3)
unfolding string_dec
client_reaches_example =
    client_reaches local_connect local_connect-Carries methods counting (transport counting) "/"
      (transport-Mounted counting) gets limit 3

-- The service over the memory, with streams that end at once.
abbrev server : ServiceHandler (Process World) (List EventMessage)
server = api_server service (λ r s. (response [], s))

abbrev revocation : RevokeRequest
revocation = record { namespace = "risk"; key = "limit"; reason = "wrong"; actor = "ana" }
