-- ===== src/Rpc/Laws.antt =====
-- A client of the service reaches the methods of the handler that is mounted at its base URL.
use Prim.Native.String
use truthmetal.Base.{String, string_dec, ◌≡◌, ◌∙◌}
use truthmetal.Exec.{message, other}
use truthmetal.Model.{SubmitRequest}
use truthmetal.Api.{Reply, response, refused, crashed, Handler}
use truthmetal.Api.Messages.{
  ParameterMessage, GetRequest, RevokeRequest, QueryAuditRequest, QueryAuditResponse, WatchRequest,
}
use truthmetal.Rpc.{
  Connect, ServiceHandler, Schemas, new_service_client, client_methods, route, new_service_handler,
  submit_procedure, get_procedure, get_version_procedure, revoke_procedure, query_audit_procedure,
  watch_procedure,
}

-- What the client receives of a reply: of an error only the code and the message, of a panic
-- nothing certain. The call acts on the state as the method does.
abbrev pub Arrives : {A : Type 0} → Reply A → Reply A → Type 0
Arrives (response a) got = got ≡ response a
Arrives (refused c e) got = got ≡ refused c (other (message e))
Arrives crashed got = Unit

abbrev pub Answers : {S A : Type 0} → Reply A × S → Reply A × S → Type 0
Answers sent got = Arrives sent.0 got.0 × (got.1 ≡ sent.1)

pub data Method : Type 0 where
  submits gets gets_version revokes audits watches : Method

abbrev pub Request : Method → Type 0
Request submits = SubmitRequest
Request gets = GetRequest
Request gets_version = String
Request revokes = RevokeRequest
Request audits = QueryAuditRequest
Request watches = WatchRequest

abbrev pub Answer : Type 0 → Method → Type 0
Answer Stream audits = QueryAuditResponse
Answer Stream watches = Stream
Answer Stream m = ParameterMessage

module _ {S Stream : Type 0} where
  -- The method of a service.
  abbrev pub method_of :
      ServiceHandler S Stream → (m : Method) → Request m → Handler S (Answer Stream m)
  method_of svc submits = svc.submit
  method_of svc gets = svc.get
  method_of svc gets_version = svc.get_version
  method_of svc revokes = svc.revoke
  method_of svc audits = svc.query_audit
  method_of svc watches = svc.watch

module _ {S Stream HttpRequest HttpReply : Type 0}
    (connect : Connect S Stream HttpRequest HttpReply) where
  -- A client whose requests to its URL are served by a handler of connect calls the
  -- implementation of this handler.
  pub record Carries : Type 1 where
    pub unary :
        {A B : Type 0} (transport : HttpRequest → S → HttpReply × S) (u procedure : String)
        (implementation : A → Handler S B) (schema : connect.Schema A B)
        → ((r : HttpRequest)
            → connect.url r ≡ u
            → transport r ≡ connect.new_unary_handler procedure implementation schema r)
        → (a : A) (s : S)
        → Answers
            (implementation a s)
            (connect.call_unary (connect.new_client transport u schema) a s)
    pub stream :
        {A : Type 0} (transport : HttpRequest → S → HttpReply × S) (u procedure : String)
        (implementation : A → Handler S Stream) (schema : connect.Schema A Stream)
        → ((r : HttpRequest)
            → connect.url r ≡ u
            → transport r ≡ connect.new_server_stream_handler procedure implementation schema r)
        → (a : A) (s : S)
        → Answers
            (implementation a s)
            (connect.call_server_stream (connect.new_client transport u schema) a s)

  -- The transport brings each request below the base and the pattern to the mounted handler, which
  -- sees the path behind the base.
  pub record Mounted (transport : HttpRequest → S → HttpReply × S) (base : String)
      (mounted : String × (HttpRequest → S → HttpReply × S)) : Type 0 where
    pub delivers :
        (r : HttpRequest) (rest : String)
        → connect.url r ≡ String.◌++◌ base (String.◌++◌ mounted.0 rest)
        → (connect.path r ≡ String.◌++◌ mounted.0 rest) × (transport r ≡ mounted.1 r)

  module _ (carries : Carries) (methods : Schemas connect) (svc : ServiceHandler S Stream)
      (transport : HttpRequest → S → HttpReply × S) (base_url : String)
      (mounted : Mounted transport
        (connect.trim_right base_url)
        (new_service_handler connect methods svc)) where
    -- A path that is routed to a handler is served by it.
    served :
        (name : String) (h : HttpRequest → S → HttpReply × S)
        → ((r : HttpRequest)
            → connect.path r ≡ String.◌++◌ "/truthmetal.v1.TruthMetalService/" name
            → route connect methods svc r ≡ h r)
        → (r : HttpRequest)
        → connect.url r
          ≡ String.◌++◌
              (connect.trim_right base_url)
              (String.◌++◌ "/truthmetal.v1.TruthMetalService/" name)
        → transport r ≡ h r
    unfolding new_service_handler
    served name h routed r e =
        (let (seen, delivered) = mounted.delivers r name e in delivered ∙ routed r seen)

    -- If connect carries calls between a client and a handler, and a transport delivers what is
    -- sent below the base URL, less its slashes at the end, to the handler of a service that is
    -- mounted there, then each of the six methods of a client for this URL answers as the method
    -- of the service does, and acts on the state as it does: a response arrives as it is, of an
    -- error its code and its message arrive, and of a panic nothing is said.
    pub client_reaches :
        (m : Method) (r : Request m) (s : S)
        → Answers (method_of svc m r s) (
            method_of
              (client_methods connect (new_service_client connect methods transport base_url))
              m
              r
              s)
    unfolding client_methods new_service_client route string_dec
    client_reaches submits =
        carries.unary transport _ submit_procedure svc.submit methods.submit
          (served "Submit" _ (λ r p. rw p))
    client_reaches gets =
        carries.unary transport _ get_procedure svc.get methods.get (served "Get" _ (λ r p. rw p))
    client_reaches gets_version =
        carries.unary transport _ get_version_procedure svc.get_version methods.get_version
          (served "GetVersion" _ (λ r p. rw p))
    client_reaches revokes =
        carries.unary transport _ revoke_procedure svc.revoke methods.revoke
          (served "Revoke" _ (λ r p. rw p))
    client_reaches audits =
        carries.unary transport _ query_audit_procedure svc.query_audit methods.query_audit
          (served "QueryAudit" _ (λ r p. rw p))
    client_reaches watches =
        carries.stream transport _ watch_procedure svc.watch methods.watch
          (served "Watch" _ (λ r p. rw p))

-- What the methods of `UnimplementedTruthMetalServiceHandler` say that is not implemented.
abbrev pub method_name : Method → String
method_name submits = ".Submit"
method_name gets = ".Get"
method_name gets_version = ".GetVersion"
method_name revokes = ".Revoke"
method_name audits = ".QueryAudit"
method_name watches = ".Watch"
