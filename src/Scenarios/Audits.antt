-- ===== src/Scenarios/Audits.antt =====
-- An audit log of three events, its verification and its pruning: internal/store/postgres.
use tictick_hi.Base.{
  ℕ, String, false, ◌≡◌, ◌≢◌, refl, sym, ◌∙◌, ◌⊎◌, inl, inr, ◌↔◌, some, List, [], ◌∷◌, append, ok,
  err, arith, Option, str_eq, str_eq_iff, bounded_text, take_runes, trim_space, text_lt,
}
use tictick_hi.Base.Members.{In, Distinct, Subset}
use tictick_hi.Audit.Hashes.{
  AuditEventHashRecord, HashCodec, recompute_audit_event_hash, canonical_audit_event_metadata,
  audit_event_hash,
}
use tictick_hi.Audit.Verification.{
  passed, failure, warning, lookup, contains, has, link_record, initial_result, check_walk,
  failed_audit_event_hash_verification, zero_record, verify_audit_event_hash_records,
}
use tictick_hi.Audit.Verification.Chains.{IsAuditChain}
use tictick_hi.Audit.Verification.Verdict.{verify_audit_event_hash_records_iff}
use tictick_hi.Audit.Retention.{would_prune_everything}
use tictick_hi.Audit.Pruning.{
  AuditTables, AuditEventRetentionRequest, AuditEventRetentionResult, verify_audit_event_hash_chain,
  prune_audit_events,
}
use tictick_hi.Audit.Recording.{
  CreateAuditEvent, normalize_audit_metadata, normalize_entries, normalize_entry, put, has_key,
  new_row, sealed_row, audit_event_chain_tail_hash, tails, is_named, record_audit_event, insert_row,
  row_lt,
}
use tictick_hi.Audit.Recording.Bounds.{IsNormal, normalize_audit_metadata-IsNormal}
use tictick_hi.Audit.Recording.Growing.{IsFresh}
use tictick_hi.Audit.Recording.Recorded.{IsStable, record_audit_event_verified}
use tictick_hi.Audit.Pruning.Kept.{ids}
use tictick_hi.Audit.Pruning.Planned.{IsPruned}
use tictick_hi.Audit.Pruning.Safety.{prune_audit_events-IsPruned}

-- The hash is the text that is hashed, and the payload is written as its previous hash and its id.
abbrev plain_codec : HashCodec
plain_codec = record {
  marshal_payload = λ p. some (append p.previous_hash (append "/" p.id));
  sha256_hex = λ s. s;
  format_time = λ n. "";
  unmarshal_metadata = λ s. some [];
  marshal_metadata = λ m. some "{}";
}

abbrev event : String → String → ℕ → AuditEventHashRecord
event id previous at = record zero_record {
  id = id;
  metadata = "{}";
  previous_hash = previous;
  event_hash = append "tictick-hi:audit-event:v1\n" (append previous (append "/" id));
  created_at = at;
}

abbrev first_event : AuditEventHashRecord
first_event = event "a" "" 10

abbrev second_event : AuditEventHashRecord
second_event = event "b" first_event.event_hash 20

abbrev third_event : AuditEventHashRecord
third_event = event "c" second_event.event_hash 30

abbrev log : List AuditEventHashRecord
log = second_event ∷ first_event ∷ third_event ∷ []

log_status : (verify_audit_event_hash_records plain_codec log 0 [] 99).status ≡ passed
unfolding verify_audit_event_hash_records recompute_audit_event_hash canonical_audit_event_metadata
    audit_event_hash str_eq lookup contains has link_record initial_result check_walk
    failed_audit_event_hash_verification
log_status = refl

-- A record that was changed afterwards.
tampered_status :
    (verify_audit_event_hash_records plain_codec
      (record first_event { id = "x" } ∷ second_event ∷ [])
      0
      []
      99).status
    ≡ failure
unfolding verify_audit_event_hash_records recompute_audit_event_hash canonical_audit_event_metadata
    audit_event_hash str_eq lookup contains has link_record initial_result check_walk
    failed_audit_event_hash_verification
tampered_status = refl

verify_audit_event_hash_records_iff_example :
    ((verify_audit_event_hash_records plain_codec log 0 [] 99).status ≢ failure)
    ↔ ((chain : List AuditEventHashRecord) × IsAuditChain plain_codec [] log chain)
verify_audit_event_hash_records_iff_example =
    verify_audit_event_hash_records_iff plain_codec log 0 [] 99

apart : (a b : String) → str_eq a b ≡ false → a ≢ b
apart a b h e = cc ((str_eq_iff a b).1 e)

abbrev tables : AuditTables
tables = record { hashed = log; legacy = 5 ∷ 50 ∷ []; anchors = [] }

abbrev request : AuditEventRetentionRequest
request = record { before = some 25; dry_run = false }

tables_status : (now : ℕ) → (verify_audit_event_hash_chain plain_codec tables now).status ≡ warning
unfolding verify_audit_event_hash_chain verify_audit_event_hash_records recompute_audit_event_hash
    canonical_audit_event_metadata audit_event_hash str_eq lookup contains has link_record
    initial_result check_walk failed_audit_event_hash_verification
tables_status now = refl

tables_verified :
    (now : ℕ) → (verify_audit_event_hash_chain plain_codec tables now).status ≢ failure
tables_verified now e = warning-ne-failure (sym (tables_status now) ∙ e)
  where
    warning-ne-failure : warning ≢ failure
    warning-ne-failure h = cc

Distinct-ids : Distinct (ids log)
unfolding str_eq
Distinct-ids = (
  λ i. elim i [
    | inl e ↦ apart "b" "a" refl e
    | inr (inl e) ↦ apart "b" "c" refl e
    | inr (inr k) ↦ k
  ],
  (λ i. elim i [ inl e ↦ apart "a" "c" refl e | inr k ↦ k ], (λ i. i, tt)),
)

prune_audit_events-IsPruned_example :
    (prune_audit_events plain_codec 99 (some "aea_1") tables request ≡ err would_prune_everything)
    ⊎ ((t' : AuditTables) × (result : AuditEventRetentionResult) × (prune_audit_events plain_codec
            99
            (some "aea_1")
            tables
            request
          ≡ ok (t', result))
        × IsPruned plain_codec 99 25 false tables t')
prune_audit_events-IsPruned_example =
    prune_audit_events-IsPruned plain_codec 99 "aea_1" tables request 25 Distinct-ids refl
      (tables_verified 99)

abbrev login : CreateAuditEvent
login = record {
  actor_operator_id = "op";
  actor_username = "ann";
  action = "login";
  resource_type = "session";
  resource_id = "";
  outcome = "ok";
  request_method = "POST";
  request_path = "/";
  remote_addr = "";
  user_agent = "";
  metadata = ("b", "2") ∷ ("  ", "3") ∷ ("a", "1") ∷ [];
}

metadata_normalized : normalize_audit_metadata login.metadata ≡ ("a", "1") ∷ ("b", "2") ∷ []
unfolding normalize_audit_metadata normalize_entries normalize_entry put has_key bounded_text
    take_runes trim_space text_lt str_eq
metadata_normalized = refl

abbrev login_row : AuditEventHashRecord
login_row = record (new_row "d" 40500 third_event.event_hash "{}" login) {
  event_hash = append "tictick-hi:audit-event:v1\n" (append third_event.event_hash "/d");
}

login_sealed : sealed_row plain_codec "d" 40500 tables.hashed login ≡ ok login_row
unfolding sealed_row audit_event_hash audit_event_chain_tail_hash tails is_named str_eq
login_sealed = refl

login-IsFresh : IsFresh plain_codec [] log login_row
unfolding str_eq
login-IsFresh = record {
  named = apart login_row.event_hash "" refl;
  new = λ i. elim i [
    | inl e ↦ apart login_row.event_hash second_event.event_hash refl e
    | inr (inl e) ↦ apart login_row.event_hash first_event.event_hash refl e
    | inr (inr (inl e)) ↦ apart login_row.event_hash third_event.event_hash refl e
    | inr (inr (inr k)) ↦ k
  ];
  unanchored = λ i. i;
}

braces : str_eq "{}" "" ≡ false
unfolding str_eq
braces = refl

plain_codec-IsStable : IsStable plain_codec
plain_codec-IsStable m text h = (apart text "" (shown text h), ([], refl, h))
  where
    shown : (s : String) → ◌≡◌ {A = Option String} (some "{}") (some s) → str_eq s "" ≡ false
    shown s e = ground (arith, braces)

abbrev tables_after : AuditTables
tables_after = record tables { hashed = second_event ∷ first_event ∷ third_event ∷ login_row ∷ [] }

login_recorded : record_audit_event plain_codec "d" 40500 tables login ≡ ok tables_after
unfolding record_audit_event sealed_row audit_event_hash audit_event_chain_tail_hash tails is_named
    str_eq insert_row row_lt text_lt
login_recorded = refl

record_audit_event_verified_example :
    ((verify_audit_event_hash_chain plain_codec tables_after 99).status ≢ failure)
    × In login_row tables_after.hashed
    × Subset log tables_after.hashed
record_audit_event_verified_example =
    record_audit_event_verified plain_codec "d" 40500 99 tables tables_after login login_row
      plain_codec-IsStable login_sealed login-IsFresh login_recorded (tables_verified 40500)

normalize_audit_metadata-IsNormal_example : IsNormal (normalize_audit_metadata login.metadata)
normalize_audit_metadata-IsNormal_example = normalize_audit_metadata-IsNormal login.metadata
