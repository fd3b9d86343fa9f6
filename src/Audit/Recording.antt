-- ===== src/Audit/Recording.antt =====
-- internal/store/postgres/audit_store.go: `RecordAuditEvent`, its metadata and its place in the chain.
-- A row keeps its metadata as they were written; what jsonb changes in them, the canonical form that
-- a verification hashes undoes.
pub mod Bounds
pub mod Appending
pub mod Growing
pub mod Recorded
use tictick_hi.Base.{
  ℕ, ◌+◌, ◌-◌, ◌%◌, String, Bool, not, true, false, ◌&&◌, ◌||◌, Option, none, some, List, [], ◌∷◌,
  map, ltb, leb, ◌==◌, if◌then◌else◌, Result, ok, err, ◌>>=◌, str_eq, length, last_or, bounded_text,
  text_lt,
}
use tictick_hi.Audit.Hashes.{
  AuditEventHashRecord, HashCodec, HashError, Metadata, metadata_unencodable, or_fail,
  audit_event_hash,
}
use tictick_hi.Audit.Verification.{zero_record}
use tictick_hi.Audit.Pruning.{AuditTables}

abbrev pub max_audit_metadata_entries : ℕ
max_audit_metadata_entries = 20

abbrev pub max_audit_metadata_key_length : ℕ
max_audit_metadata_key_length = 64

abbrev pub max_audit_metadata_value_length : ℕ
max_audit_metadata_value_length = 255

-- `sort.Strings` over the keys of a map, with their values.
pub insert_by_key : String × String → Metadata → Metadata
insert_by_key (k, v) [] = (k, v) ∷ []
insert_by_key (k, v) ((j, w) ∷ m) =
    let rest = insert_by_key (k, v) m in if text_lt k j then (k, v) ∷ (j, w) ∷ m else (j, w) ∷ rest

pub sort_by_key : Metadata → Metadata
sort_by_key [] = []
sort_by_key (e ∷ m) = insert_by_key e (sort_by_key m)

unfoldable pub has_key : String → Metadata → Bool
has_key k [] = false
has_key k ((j, w) ∷ m) = str_eq j k || has_key k m

-- `normalized[k] = v`
unfoldable pub put : String → String → Metadata → Metadata
put k v [] = (k, v) ∷ []
put k v ((j, w) ∷ m) = let rest = put k v m in if str_eq j k then (j, v) ∷ m else (j, w) ∷ rest

-- One key of the loop: a blank one is passed over, and so is a new one when the map is full.
unfoldable pub normalize_entry : Metadata → String × String → Metadata
normalize_entry normalized (key, value) =
    let k = bounded_text key max_audit_metadata_key_length in
    if str_eq k ""
    then normalized
    else if not (has_key k normalized) && leb max_audit_metadata_entries (length normalized)
    then normalized
    else put k (bounded_text value max_audit_metadata_value_length) normalized

unfoldable pub normalize_entries : Metadata → Metadata → Metadata
normalize_entries normalized [] = normalized
normalize_entries normalized (e ∷ m) = normalize_entries (normalize_entry normalized e) m

unfoldable pub normalize_audit_metadata : Metadata → Metadata
unfolding sort_by_key insert_by_key
normalize_audit_metadata m = normalize_entries [] (sort_by_key m)

pub record CreateAuditEvent : Type 0 where
  pub actor_operator_id : String
  pub actor_username : String
  pub action : String
  pub resource_type : String
  pub resource_id : String
  pub outcome : String
  pub request_method : String
  pub request_path : String
  pub remote_addr : String
  pub user_agent : String
  pub metadata : Metadata

-- Whether a record names the hash.
unfoldable pub is_named : String → List AuditEventHashRecord → Bool
is_named hash [] = false
is_named hash (r ∷ rs) = str_eq r.previous_hash hash || is_named hash rs

-- The query of the tails: the hashed rows that no row names, the latest one last.
unfoldable pub tails :
    List AuditEventHashRecord → List AuditEventHashRecord → List AuditEventHashRecord
tails all [] = []
tails all (r ∷ rs) =
    let rest = tails all rs in
    if not (str_eq r.event_hash "") && not (is_named r.event_hash all) then r ∷ rest else rest

unfoldable pub audit_event_chain_tail_hash : List AuditEventHashRecord → String
audit_event_chain_tail_hash rs = (last_or zero_record (tails rs rs)).event_hash

-- The row before it is sealed with its hash; times are cut to microseconds.
abbrev pub new_row : String → ℕ → String → String → CreateAuditEvent → AuditEventHashRecord
new_row id now previous metadata e = record {
  id = id;
  actor_operator_id = e.actor_operator_id;
  actor_username = e.actor_username;
  action = e.action;
  resource_type = e.resource_type;
  resource_id = e.resource_id;
  outcome = e.outcome;
  request_method = e.request_method;
  request_path = e.request_path;
  remote_addr = e.remote_addr;
  user_agent = e.user_agent;
  metadata = metadata;
  previous_hash = previous;
  event_hash = "";
  created_at = now - now % 1000;
}

unfoldable pub sealed_row :
    HashCodec
    → String
    → ℕ
    → List AuditEventHashRecord
    → CreateAuditEvent
    → Result HashError AuditEventHashRecord
sealed_row codec id now rs e = do
  metadata ←
      or_fail metadata_unencodable (codec.marshal_metadata (normalize_audit_metadata e.metadata))
  let row = new_row id now (audit_event_chain_tail_hash rs) metadata e
  hash ← audit_event_hash codec row metadata
  ok (record row { event_hash = hash })

-- The place of a row in the listing, by time and then by id.
unfoldable pub row_lt : AuditEventHashRecord → AuditEventHashRecord → Bool
row_lt a b = ltb a.created_at b.created_at || (a.created_at == b.created_at && text_lt a.id b.id)

unfoldable pub insert_row :
    AuditEventHashRecord → List AuditEventHashRecord → List AuditEventHashRecord
insert_row r [] = r ∷ []
insert_row r (x ∷ xs) = let rest = insert_row r xs in if row_lt r x then r ∷ x ∷ xs else x ∷ rest

unfoldable pub record_audit_event :
    HashCodec → String → ℕ → AuditTables → CreateAuditEvent → Result HashError AuditTables
record_audit_event codec id now t e = do
  row ← sealed_row codec id now t.hashed e
  ok (record t { hashed = insert_row row t.hashed })
