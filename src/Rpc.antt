-- ===== src/Rpc.antt =====
-- gen/truthmetal/v1/truthmetalv1connect/truthmetal.connect.go: the handler and the client that
-- protoc-gen-connect-go makes of the service, over the library connect.
mod Laws
mod EndToEnd
mod Samples
use Prim.Native.String
use truthmetal.Base.{String, ◌==◌, if◌then◌else◌}
use truthmetal.Exec.{Error, other}
use truthmetal.Model.{SubmitRequest}
use truthmetal.Ledger.{Process, Service}
use truthmetal.Api.{
  Code, Reply, refused, Handler, submit_handler, get_handler, get_version_handler, revoke_handler,
  query_audit_handler,
}
use truthmetal.Api.Messages.{
  ParameterMessage, EventMessage, GetRequest, RevokeRequest, QueryAuditRequest, QueryAuditResponse,
  WatchRequest,
}

abbrev pub service_name : String
service_name = "truthmetal.v1.TruthMetalService"

abbrev pub submit_procedure : String
submit_procedure = "/truthmetal.v1.TruthMetalService/Submit"

abbrev pub get_procedure : String
get_procedure = "/truthmetal.v1.TruthMetalService/Get"

abbrev pub get_version_procedure : String
get_version_procedure = "/truthmetal.v1.TruthMetalService/GetVersion"

abbrev pub revoke_procedure : String
revoke_procedure = "/truthmetal.v1.TruthMetalService/Revoke"

abbrev pub query_audit_procedure : String
query_audit_procedure = "/truthmetal.v1.TruthMetalService/QueryAudit"

abbrev pub watch_procedure : String
watch_procedure = "/truthmetal.v1.TruthMetalService/Watch"

-- The libraries net/http and connect. `S` is the state that the calls act on, and `Stream` what a
-- call of `Watch` deals with.
pub record Connect (S Stream HttpRequest HttpReply : Type 0) : Type 1 where
  pub url : HttpRequest → String
  -- `r.URL.Path`
  pub path : HttpRequest → String
  -- `http.NotFound`
  pub not_found : HttpRequest → S → HttpReply × S
  -- `strings.TrimRight(baseURL, "/")`
  pub trim_right : String → String
  -- The descriptor of a method, and `connect.Client`.
  pub Schema : Type 0 → Type 0 → Type 0
  pub Client : Type 0 → Type 0 → Type 0
  pub new_client :
      {A B : Type 0} → (HttpRequest → S → HttpReply × S) → String → Schema A B → Client A B
  pub call_unary : {A B : Type 0} → Client A B → A → Handler S B
  pub call_server_stream : {A : Type 0} → Client A Stream → A → Handler S Stream
  pub new_unary_handler :
      {A B : Type 0} → String → (A → Handler S B) → Schema A B → HttpRequest → S → HttpReply × S
  pub new_server_stream_handler :
      {A : Type 0}
      → String
      → (A → Handler S Stream)
      → Schema A Stream
      → HttpRequest
      → S
      → HttpReply × S

-- `TruthMetalServiceHandler`; `SubmitResponse` and the like have one field, the parameter, and
-- `GetVersionRequest` has one field, the id.
pub record ServiceHandler (S Stream : Type 0) : Type 0 where
  pub submit : SubmitRequest → Handler S ParameterMessage
  pub get : GetRequest → Handler S ParameterMessage
  pub get_version : String → Handler S ParameterMessage
  pub revoke : RevokeRequest → Handler S ParameterMessage
  pub query_audit : QueryAuditRequest → Handler S QueryAuditResponse
  pub watch : WatchRequest → Handler S Stream

module _ {S Stream HttpRequest HttpReply : Type 0}
    (connect : Connect S Stream HttpRequest HttpReply) where
  -- The methods of the descriptor of the service.
  pub record Schemas : Type 0 where
    pub submit : connect.Schema SubmitRequest ParameterMessage
    pub get : connect.Schema GetRequest ParameterMessage
    pub get_version : connect.Schema String ParameterMessage
    pub revoke : connect.Schema RevokeRequest ParameterMessage
    pub query_audit : connect.Schema QueryAuditRequest QueryAuditResponse
    pub watch : connect.Schema WatchRequest Stream

  -- `truthMetalServiceClient`
  pub record ServiceClient : Type 0 where
    pub submit : connect.Client SubmitRequest ParameterMessage
    pub get : connect.Client GetRequest ParameterMessage
    pub get_version : connect.Client String ParameterMessage
    pub revoke : connect.Client RevokeRequest ParameterMessage
    pub query_audit : connect.Client QueryAuditRequest QueryAuditResponse
    pub watch : connect.Client WatchRequest Stream

  unfoldable pub new_service_client :
      Schemas → (HttpRequest → S → HttpReply × S) → String → ServiceClient
  new_service_client methods http_client base_url =
      let base = connect.trim_right base_url in
      record {
        submit = connect.new_client http_client (String.◌++◌ base submit_procedure) methods.submit;
        get = connect.new_client http_client (String.◌++◌ base get_procedure) methods.get;
        get_version =
            connect.new_client http_client (String.◌++◌ base get_version_procedure)
              methods.get_version;
        revoke = connect.new_client http_client (String.◌++◌ base revoke_procedure) methods.revoke;
        query_audit =
            connect.new_client http_client (String.◌++◌ base query_audit_procedure)
              methods.query_audit;
        watch = connect.new_client http_client (String.◌++◌ base watch_procedure) methods.watch;
      }

  -- The methods of the client.
  unfoldable pub client_methods : ServiceClient → ServiceHandler S Stream
  client_methods c = record {
    submit = connect.call_unary c.submit;
    get = connect.call_unary c.get;
    get_version = connect.call_unary c.get_version;
    revoke = connect.call_unary c.revoke;
    query_audit = connect.call_unary c.query_audit;
    watch = connect.call_server_stream c.watch;
  }

  -- The `switch` over `r.URL.Path`.
  unfoldable pub route : Schemas → ServiceHandler S Stream → HttpRequest → S → HttpReply × S
  route methods svc r =
      if connect.path r == submit_procedure
      then connect.new_unary_handler submit_procedure svc.submit methods.submit r
      else if connect.path r == get_procedure
      then connect.new_unary_handler get_procedure svc.get methods.get r
      else if connect.path r == get_version_procedure
      then connect.new_unary_handler get_version_procedure svc.get_version methods.get_version r
      else if connect.path r == revoke_procedure
      then connect.new_unary_handler revoke_procedure svc.revoke methods.revoke r
      else if connect.path r == query_audit_procedure
      then connect.new_unary_handler query_audit_procedure svc.query_audit methods.query_audit r
      else if connect.path r == watch_procedure
      then connect.new_server_stream_handler watch_procedure svc.watch methods.watch r
      else connect.not_found r

  -- The pattern to mount the handler on, and the handler.
  unfoldable pub new_service_handler :
      Schemas → ServiceHandler S Stream → String × (HttpRequest → S → HttpReply × S)
  unfolding route
  new_service_handler methods svc = ("/truthmetal.v1.TruthMetalService/", route methods svc)

-- The service of internal/api as the handlers' implementation. What `Watch` makes of its stream is
-- an argument.
abbrev pub api_server :
    {W Doc Stream : Type 0}
    → Service W Doc
    → (WatchRequest → Handler (Process W) Stream)
    → ServiceHandler (Process W) Stream
api_server svc watch = record {
  submit = submit_handler svc;
  get = get_handler svc;
  get_version = get_version_handler svc;
  revoke = revoke_handler svc;
  query_audit = query_audit_handler svc;
  watch = watch;
}

-- `connect.NewError(connect.CodeUnimplemented, errors.New("…"))`
abbrev pub unimplemented : {S A : Type 0} → String → Handler S A
unimplemented method s = (
  refused Code.unimplemented
      (other (String.◌++◌ service_name (String.◌++◌ method " is not implemented"))),
  s,
)

-- `UnimplementedTruthMetalServiceHandler`
unfoldable pub unimplemented_handler : {S Stream : Type 0} → ServiceHandler S Stream
unimplemented_handler = record {
  submit = λ r. unimplemented ".Submit";
  get = λ r. unimplemented ".Get";
  get_version = λ r. unimplemented ".GetVersion";
  revoke = λ r. unimplemented ".Revoke";
  query_audit = λ r. unimplemented ".QueryAudit";
  watch = λ r. unimplemented ".Watch";
}
