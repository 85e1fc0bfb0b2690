-- ===== src/Api/Messages.antt =====
-- The messages of proto/truthmetal/v1/truthmetal.proto, as gen/truthmetal/v1 declares them.
use truthmetal.Base.{String, List}
use truthmetal.Base.Int.{ℤ}
use truthmetal.Model.{Time, StringMap}

pub data StateMessage : Type 0 where
  unspecified submitted validating consensus_pending canonical rejected revoked : StateMessage

pub record ParameterMessage : Type 0 where
  pub id : String
  pub key : String
  pub value : String
  pub value_type : String
  pub namespace : String
  pub source : String
  pub source_ref : String
  pub version : ℤ
  pub previous_version_id : String
  pub state : StateMessage
  pub metadata : StringMap
  pub created_at : Time
  pub updated_at : Time

pub record EventMessage : Type 0 where
  pub id : String
  pub parameter_id : String
  pub event_type : String
  pub from_state : String
  pub to_state : String
  pub actor : String
  pub reason : String
  pub context : StringMap
  pub occurred_at : Time

pub record GetRequest : Type 0 where
  pub namespace : String
  pub key : String

pub record RevokeRequest : Type 0 where
  pub namespace : String
  pub key : String
  pub reason : String
  pub actor : String

pub record QueryAuditRequest : Type 0 where
  pub namespace : String
  pub key : String
  pub limit : ℤ
  pub offset : ℤ

pub record QueryAuditResponse : Type 0 where
  pub events : List EventMessage
  pub total : ℤ

pub record WatchRequest : Type 0 where
  pub namespace : String
  pub key_prefix : String
