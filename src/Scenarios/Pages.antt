-- ===== src/Scenarios/Pages.antt =====
-- Three audit events on pages of two: the listing of internal/store/postgres.
use tictick_hi.Base.{
  ℕ, suc, String, Bool, true, false, ◌≡◌, refl, Option, none, some, List, [], ◌∷◌, All, ok, length,
  str_eq, trim_space, text_lt,
}
use tictick_hi.Audit.Hashes.{AuditEventHashRecord, HashCodec}
use tictick_hi.Audit.Verification.{zero_record}
use tictick_hi.Audit.Listing.{
  AuditEvent, AuditEventCursor, scan_audit_event, scan_audit_events, event_of,
}
use tictick_hi.Audit.Listing.Cursors.{NewestFirst, cursor_at}
use tictick_hi.Audit.Listing.Following.{HasToken, follow, follow-scan_audit_events}

abbrev row : String → ℕ → AuditEventHashRecord
row id at = record zero_record { id = id; created_at = at }

abbrev rows : List AuditEventHashRecord
rows = row "c" 30 ∷ row "b" 30 ∷ row "a" 10 ∷ []

-- A token is the name of the row.
abbrev marshal : AuditEventCursor → Option String
marshal c = some c.id

abbrev unmarshal : String → Option AuditEventCursor
unmarshal token = some (cursor_at (row token (at (str_eq token "a"))))
  where
    at : Bool → ℕ
    at true = 10
    at false = 30

abbrev blank_codec : HashCodec
blank_codec = record {
  marshal_payload = λ p. none;
  sha256_hex = λ s. s;
  format_time = λ n. "";
  unmarshal_metadata = λ s. none;
  marshal_metadata = λ m. none;
}

newest_first : NewestFirst rows
unfolding text_lt
newest_first = ((refl, (refl, tt)), ((refl, tt), (tt, tt)))

tokens : All (HasToken marshal unmarshal) rows
unfolding str_eq trim_space
tokens = (
  record { named = refl; token = "c"; written = refl; reads = refl; trimmed = refl; shown = refl },
  (
    record {
      named = refl;
      token = "b";
      written = refl;
      reads = refl;
      trimmed = refl;
      shown = refl;
    },
    (
      record {
        named = refl;
        token = "a";
        written = refl;
        reads = refl;
        trimmed = refl;
        shown = refl;
      },
      tt,
    ),
  ),
)

abbrev listed : List AuditEvent
listed = event_of (row "c" 30) [] ∷ event_of (row "b" 30) [] ∷ event_of (row "a" 10) [] ∷ []

scanned : scan_audit_events blank_codec rows ≡ ok listed
unfolding scan_audit_events scan_audit_event str_eq
scanned = refl

follow-scan_audit_events_example :
    follow blank_codec marshal unmarshal rows 2 (suc (length rows)) "" ≡ ok listed
follow-scan_audit_events_example =
    follow-scan_audit_events blank_codec marshal unmarshal rows 2 listed newest_first tokens scanned
