-- ===== src/Rpc/Samples/Local.antt =====
-- A connect library whose messages travel as they are, and a client over it.
use truthmetal.Base.{String, ◌≡◌, refl, ap, Option, none, some, List, ◌==◌, if◌then◌else◌}
use truthmetal.Exec.{message, other}
use truthmetal.Model.{SubmitRequest}
use truthmetal.Api.{Code, Reply, response, refused, crashed, Handler}
use truthmetal.Api.Messages.{
  ParameterMessage, EventMessage, GetRequest, RevokeRequest, QueryAuditRequest, QueryAuditResponse,
  WatchRequest,
}
use truthmetal.Rpc.{Connect, Schemas}
use truthmetal.Rpc.Laws.{Arrives, Answers, Carries}

-- A message on its way.
pub data Wire : Type 0 where
  submit_wire : SubmitRequest → Wire
  get_wire : GetRequest → Wire
  id_wire : String → Wire
  revoke_wire : RevokeRequest → Wire
  audit_wire : QueryAuditRequest → Wire
  watch_wire : WatchRequest → Wire
  parameter_wire : ParameterMessage → Wire
  page_wire : QueryAuditResponse → Wire
  events_wire : List EventMessage → Wire

pub record Codec (A : Type 0) : Type 0 where
  pub encode : A → Wire
  pub decode : Wire → Option A
  pub reads_back : (a : A) → decode (encode a) ≡ some a

abbrev read_submit : Wire → Option SubmitRequest
read_submit (submit_wire a) = some a
read_submit _ = none

abbrev pub submit_codec : Codec SubmitRequest
submit_codec = record { encode = submit_wire; decode = read_submit; reads_back = λ a. refl }

abbrev read_get : Wire → Option GetRequest
read_get (get_wire a) = some a
read_get _ = none

abbrev pub get_codec : Codec GetRequest
get_codec = record { encode = get_wire; decode = read_get; reads_back = λ a. refl }

abbrev read_id : Wire → Option String
read_id (id_wire a) = some a
read_id _ = none

abbrev pub id_codec : Codec String
id_codec = record { encode = id_wire; decode = read_id; reads_back = λ a. refl }

abbrev read_revoke : Wire → Option RevokeRequest
read_revoke (revoke_wire a) = some a
read_revoke _ = none

abbrev pub revoke_codec : Codec RevokeRequest
revoke_codec = record { encode = revoke_wire; decode = read_revoke; reads_back = λ a. refl }

abbrev read_audit : Wire → Option QueryAuditRequest
read_audit (audit_wire a) = some a
read_audit _ = none

abbrev pub audit_codec : Codec QueryAuditRequest
audit_codec = record { encode = audit_wire; decode = read_audit; reads_back = λ a. refl }

abbrev read_watch : Wire → Option WatchRequest
read_watch (watch_wire a) = some a
read_watch _ = none

abbrev pub watch_codec : Codec WatchRequest
watch_codec = record { encode = watch_wire; decode = read_watch; reads_back = λ a. refl }

abbrev read_parameter : Wire → Option ParameterMessage
read_parameter (parameter_wire a) = some a
read_parameter _ = none

abbrev pub parameter_codec : Codec ParameterMessage
parameter_codec = record {
  encode = parameter_wire;
  decode = read_parameter;
  reads_back = λ a. refl;
}

abbrev read_page : Wire → Option QueryAuditResponse
read_page (page_wire a) = some a
read_page _ = none

abbrev pub page_codec : Codec QueryAuditResponse
page_codec = record { encode = page_wire; decode = read_page; reads_back = λ a. refl }

abbrev read_events : Wire → Option (List EventMessage)
read_events (events_wire a) = some a
read_events _ = none

abbrev pub events_codec : Codec (List EventMessage)
events_codec = record { encode = events_wire; decode = read_events; reads_back = λ a. refl }

abbrev pub Schema : Type 0 → Type 0 → Type 0
Schema A B = Codec A × Codec B

pub record HttpRequest : Type 0 where
  pub url : String
  pub body : Wire

pub record Client (S A B : Type 0) : Type 0 where
  pub transport : HttpRequest → S → Reply Wire × S
  pub url : String
  pub schema : Schema A B

abbrev sent : {B : Type 0} → Codec B → Reply B → Reply Wire
sent codec (response b) = response (codec.encode b)
sent codec (refused c e) = refused c (other (message e))
sent codec crashed = crashed

abbrev decoded : {B : Type 0} → Option B → Reply B
decoded none = refused Code.internal (other "unmarshal response")
decoded (some b) = response b

abbrev received : {B : Type 0} → Codec B → Reply Wire → Reply B
received codec (response w) = decoded (codec.decode w)
received codec (refused c e) = refused c e
received codec crashed = crashed

abbrev answered : {S A B : Type 0} → Codec B → (A → Handler S B) → Option A → S → Reply Wire × S
answered codec implementation none s =
    (refused Code.invalid_argument (other "unmarshal request"), s)
answered codec implementation (some a) s =
    (sent codec (implementation a s).0, (implementation a s).1)

abbrev handled :
    {S A B : Type 0} → String → (A → Handler S B) → Schema A B → HttpRequest → S → Reply Wire × S
handled procedure implementation schema r =
    answered schema.1 implementation (schema.0.decode r.body)

abbrev call : {S A B : Type 0} → Client S A B → A → Handler S B
call c a s =
    let reply = c.transport (record { url = c.url; body = c.schema.0.encode a }) s in
    (received c.schema.1 reply.0, reply.1)

-- Paths are absolute URLs: the server is the only one.
abbrev pub local_connect : {S : Type 0} → Connect S (List EventMessage) HttpRequest (Reply Wire)
local_connect {S = S} = record {
  url = λ r. r.url;
  path = λ r. r.url;
  not_found = λ r s. (refused Code.not_found (other "404 page not found"), s);
  trim_right = λ u. if u == "/" then "" else u;
  Schema = Schema;
  Client = Client S;
  new_client = λ transport url schema. record { transport = transport; url = url; schema = schema };
  call_unary = call;
  call_server_stream = call;
  new_unary_handler = handled;
  new_server_stream_handler = handled;
}

abbrev pub methods : {S : Type 0} → Schemas (local_connect {S = S})
methods = record {
  submit = (submit_codec, parameter_codec);
  get = (get_codec, parameter_codec);
  get_version = (id_codec, parameter_codec);
  revoke = (revoke_codec, parameter_codec);
  query_audit = (audit_codec, page_codec);
  watch = (watch_codec, events_codec);
}

arrived : {B : Type 0} (codec : Codec B) (o : Reply B) → Arrives o (received codec (sent codec o))
arrived codec (response b) = ap decoded (codec.reads_back b)
arrived codec (refused c e) = refl
arrived codec crashed = tt

carried :
    {S A B : Type 0} (transport : HttpRequest → S → Reply Wire × S) (u procedure : String)
    (implementation : A → Handler S B) (schema : Schema A B)
    → ((r : HttpRequest) → r.url ≡ u → transport r ≡ handled procedure implementation schema r)
    → (a : A) (s : S)
    → Answers
        (implementation a s)
        (call (record { transport = transport; url = u; schema = schema }) a s)
carried transport u procedure implementation schema served a s =
    rw (served (record { url = u; body = schema.0.encode a }) refl, schema.0.reads_back a)
      (arrived schema.1 (implementation a s).0, refl)

pub local_connect-Carries : {S : Type 0} → Carries (local_connect {S = S})
local_connect-Carries = record { unary = carried; stream = carried }
