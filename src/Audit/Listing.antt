-- ===== src/Audit/Listing.antt =====
-- internal/data/audit.go, ListAuditEventPage of internal/store/postgres/audit_store.go and
-- parseAuditEventListQuery of internal/web/api/audit.go: the pages of the audit log. JSON in base64
-- is `marshal` and `unmarshal`. The zero time of Go lies before the epoch and does not occur.
pub mod Cursors
pub mod Scanning
pub mod Following
use tictick_hi.Base.{
  ℕ, ◌+◌, String, Bool, not, ◌&&◌, ◌||◌, Option, none, some, List, [], ◌∷◌, ltb, leb, ◌==◌,
  if◌then◌else◌, Result, ok, err, ◌>>=◌, ◌>>◌, refuse_if, str_eq, trim_space, text_lt, take, length,
  last_or,
}
use tictick_hi.Audit.Hashes.{AuditEventHashRecord, HashCodec, Metadata}

abbrev pub default_audit_event_limit : ℕ
default_audit_event_limit = 100

abbrev pub max_audit_event_limit : ℕ
max_audit_event_limit = 500

abbrev pub audit_event_cursor_version : ℕ
audit_event_cursor_version = 1

pub record AuditEvent : Type 0 where
  pub id : String
  pub actor_operator_id : String
  pub actor_username : String
  pub action : String
  pub resource_type : String
  pub resource_id : String
  pub outcome : String
  pub request_method : String
  pub request_path : String
  pub remote_addr : String
  pub user_agent : String
  pub metadata : Metadata
  pub previous_hash : String
  pub event_hash : String
  pub created_at : ℕ

pub record AuditEventCursor : Type 0 where
  pub version : ℕ
  pub created_at : ℕ
  pub id : String

-- A page; the last one has an empty cursor.
pub record AuditEventPage : Type 0 where
  pub events : List AuditEvent
  pub next_cursor : String

pub record AuditEventListQuery : Type 0 where
  pub limit : ℕ
  pub cursor : Option AuditEventCursor

pub data ListingError : Type 0 where
  cursor_required cursor_invalid version_unsupported cursor_unencodable : ListingError
  metadata_undecodable unfinished : ListingError

abbrev pub or_refuse {ℓ} : {A : Type ℓ} → ListingError → Option A → Result ListingError A
or_refuse e none = err e
or_refuse e (some a) = ok a

unfoldable pub validate_audit_event_cursor : AuditEventCursor → Result ListingError (Unit {0})
validate_audit_event_cursor c = do
  refuse_if (not (c.version == audit_event_cursor_version)) version_unsupported
  refuse_if (str_eq c.id "") cursor_invalid

abbrev pub new_audit_event_cursor : AuditEvent → AuditEventCursor
new_audit_event_cursor e = record {
  version = audit_event_cursor_version;
  created_at = e.created_at;
  id = e.id;
}

abbrev pub versioned : AuditEventCursor → AuditEventCursor
versioned c = record c { version = audit_event_cursor_version }

unfoldable pub encode_audit_event_cursor :
    (AuditEventCursor → Option String) → AuditEventCursor → Result ListingError String
encode_audit_event_cursor marshal c = do
  validate_audit_event_cursor (versioned c)
  or_refuse cursor_unencodable (marshal (versioned c))

unfoldable pub decode_audit_event_cursor :
    (String → Option AuditEventCursor) → String → Result ListingError AuditEventCursor
decode_audit_event_cursor unmarshal value = do
  refuse_if (str_eq value "") cursor_required
  c ← or_refuse cursor_invalid (unmarshal value)
  validate_audit_event_cursor c
  ok c

unfoldable pub normalize_audit_event_limit : ℕ → ℕ
normalize_audit_event_limit limit =
    if leb limit 0
    then default_audit_event_limit
    else if ltb max_audit_event_limit limit
    then max_audit_event_limit
    else limit

abbrev pub scanned_metadata : HashCodec → String → Result ListingError Metadata
scanned_metadata codec metadata =
    if str_eq metadata ""
    then ok []
    else or_refuse metadata_undecodable (codec.unmarshal_metadata metadata)

abbrev pub event_of : AuditEventHashRecord → Metadata → AuditEvent
event_of r metadata = record {
  id = r.id;
  actor_operator_id = r.actor_operator_id;
  actor_username = r.actor_username;
  action = r.action;
  resource_type = r.resource_type;
  resource_id = r.resource_id;
  outcome = r.outcome;
  request_method = r.request_method;
  request_path = r.request_path;
  remote_addr = r.remote_addr;
  user_agent = r.user_agent;
  metadata = metadata;
  previous_hash = r.previous_hash;
  event_hash = r.event_hash;
  created_at = r.created_at;
}

unfoldable pub scan_audit_event : HashCodec → AuditEventHashRecord → Result ListingError AuditEvent
scan_audit_event codec r = do metadata ← scanned_metadata codec r.metadata; ok (event_of r metadata)

-- `pgx.CollectRows`
unfoldable pub scan_audit_events :
    HashCodec → List AuditEventHashRecord → Result ListingError (List AuditEvent)
scan_audit_events codec [] = ok []
scan_audit_events codec (r ∷ rs) = do
  e ← scan_audit_event codec r
  es ← scan_audit_events codec rs
  ok (e ∷ es)

-- `(created_at, id) < ($2, $3)`
abbrev pub is_before : AuditEventCursor → AuditEventHashRecord → Bool
is_before c r = ltb r.created_at c.created_at || (r.created_at == c.created_at && text_lt r.id c.id)

unfoldable pub rows_before :
    AuditEventCursor → List AuditEventHashRecord → List AuditEventHashRecord
rows_before c [] = []
rows_before c (r ∷ rs) = let rest = rows_before c rs in if is_before c r then r ∷ rest else rest

-- The rows of the query without its limit; `rows` are all rows, the newest first.
abbrev pub queried : Option AuditEventCursor → List AuditEventHashRecord → List AuditEventHashRecord
queried none rows = rows
queried (some c) rows = rows_before c rows

abbrev pub zero_event : AuditEvent
zero_event = record {
  id = "";
  actor_operator_id = "";
  actor_username = "";
  action = "";
  resource_type = "";
  resource_id = "";
  outcome = "";
  request_method = "";
  request_path = "";
  remote_addr = "";
  user_agent = "";
  metadata = [];
  previous_hash = "";
  event_hash = "";
  created_at = 0;
}

-- One row more than the page holds is read, to see whether there is another page.
unfoldable pub page_of :
    (AuditEventCursor → Option String) → ℕ → List AuditEvent → Result ListingError AuditEventPage
page_of marshal limit events =
    if ltb limit (length events)
    then (do
      next ←
          encode_audit_event_cursor marshal
            (new_audit_event_cursor (last_or zero_event (take limit events)))
      ok (record { events = take limit events; next_cursor = next }))
    else ok (record { events = events; next_cursor = "" })

unfoldable pub list_audit_event_page :
    HashCodec
    → (AuditEventCursor → Option String)
    → List AuditEventHashRecord
    → AuditEventListQuery
    → Result ListingError AuditEventPage
unfolding rows_before scan_audit_events
list_audit_event_page codec marshal rows query =
    let limit = normalize_audit_event_limit query.limit in
    scan_audit_events codec (take (limit + 1) (queried query.cursor rows)) >>= λ events.
    page_of marshal limit events

-- The cursor that a request carries, if it carries one.
unfoldable pub parse_audit_event_list_query :
    (String → Option AuditEventCursor) → ℕ → String → Result ListingError AuditEventListQuery
parse_audit_event_list_query unmarshal limit value =
    if str_eq (trim_space value) "" then ok (record { limit = limit; cursor = none }) else (do
      c ← decode_audit_event_cursor unmarshal (trim_space value)
      ok (record { limit = limit; cursor = some c }))
