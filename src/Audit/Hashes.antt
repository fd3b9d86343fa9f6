-- ===== src/Audit/Hashes.antt =====
-- internal/store/postgres/audit_store.go and audit_hash_verify.go: the hash of an audit event. JSON,
-- SHA-256 and the formatting of times are the codec's.
use tictick_hi.Base.{
  ℕ, String, Option, none, some, List, if◌then◌else◌, Result, ok, err, ◌>>=◌, str_eq, append,
}

pub record AuditEventHashRecord : Type 0 where
  pub id : String
  pub actor_operator_id : String
  pub actor_username : String
  pub action : String
  pub resource_type : String
  pub resource_id : String
  pub outcome : String
  pub request_method : String
  pub request_path : String
  pub remote_addr : String
  pub user_agent : String
  pub metadata : String
  pub previous_hash : String
  pub event_hash : String
  pub created_at : ℕ

pub record AuditEventHashPayload : Type 0 where
  pub version : ℕ
  pub previous_hash : String
  pub id : String
  pub actor_operator_id : String
  pub actor_username : String
  pub action : String
  pub resource_type : String
  pub resource_id : String
  pub outcome : String
  pub request_method : String
  pub request_path : String
  pub remote_addr : String
  pub user_agent : String
  pub metadata : String
  pub created_at : String

abbrev pub audit_event_hash_version : ℕ
audit_event_hash_version = 1

abbrev pub Metadata : Type 0
Metadata = List (String × String)

pub data HashError : Type 0 where
  metadata_undecodable metadata_unencodable payload_unencodable : HashError

-- `none` is an error of the library that is called.
pub record HashCodec : Type 0 where
  pub marshal_payload : AuditEventHashPayload → Option String
  pub sha256_hex : String → String
  pub format_time : ℕ → String
  pub unmarshal_metadata : String → Option Metadata
  pub marshal_metadata : Metadata → Option String

abbrev pub or_fail {ℓ} : {A : Type ℓ} → HashError → Option A → Result HashError A
or_fail e none = err e
or_fail e (some a) = ok a

abbrev pub hash_domain : String
hash_domain = "tictick-hi:audit-event:v1\n"

-- The payload of a record whose metadata are written as given; an empty text stands for `{}`.
abbrev pub payload_of : HashCodec → AuditEventHashRecord → String → AuditEventHashPayload
payload_of codec r metadata = record {
  version = audit_event_hash_version;
  previous_hash = r.previous_hash;
  id = r.id;
  actor_operator_id = r.actor_operator_id;
  actor_username = r.actor_username;
  action = r.action;
  resource_type = r.resource_type;
  resource_id = r.resource_id;
  outcome = r.outcome;
  request_method = r.request_method;
  request_path = r.request_path;
  remote_addr = r.remote_addr;
  user_agent = r.user_agent;
  metadata = if str_eq metadata "" then "{}" else metadata;
  created_at = codec.format_time r.created_at;
}

-- The hash of the input that a record and its metadata make up.
unfoldable pub audit_event_hash :
    HashCodec → AuditEventHashRecord → String → Result HashError String
audit_event_hash codec r metadata = do
  encoded ← or_fail payload_unencodable (codec.marshal_payload (payload_of codec r metadata))
  ok (codec.sha256_hex (append hash_domain encoded))

unfoldable pub canonical_audit_event_metadata : HashCodec → String → Result HashError String
canonical_audit_event_metadata codec metadata = if str_eq metadata "" then ok "{}" else (do
  values ← or_fail metadata_undecodable (codec.unmarshal_metadata metadata)
  or_fail metadata_unencodable (codec.marshal_metadata values))

unfoldable pub recompute_audit_event_hash :
    HashCodec → AuditEventHashRecord → Result HashError String
recompute_audit_event_hash codec r = do
  metadata ← canonical_audit_event_metadata codec r.metadata
  audit_event_hash codec r metadata
