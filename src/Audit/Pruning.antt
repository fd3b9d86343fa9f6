-- ===== src/Audit/Pruning.antt =====
-- internal/store/postgres/audit_retention_store.go: pruning the oldest audit events. The tables are
-- lists, hashed events in the order in which they are listed; a call of the database that fails
-- leaves the tables as they are, and is left out.
pub mod Kept
pub mod Planned
pub mod Safety
use tictick_hi.Base.{
  ℕ, suc, ◌+◌, ◌-◌, String, Bool, not, true, false, Option, none, some, List, [], ◌∷◌, map, ltb,
  ◌==◌, if◌then◌else◌, Result, ok, err, ◌>>=◌, ◌>>◌, refuse_if, length,
}
use tictick_hi.Audit.Hashes.{AuditEventHashRecord, HashCodec}
use tictick_hi.Audit.Verification.{
  AuditEventHashChainVerification, Message, Status, passed, warning, failure, contains,
  verify_audit_event_hash_records,
}
use tictick_hi.Audit.Retention.{
  RetentionError, AuditEventHashPrunePlan, plan_audit_event_hash_prune, cutoff_required,
  id_unavailable, rows_unexpected, chain_broken, chain_broken_after,
}

-- `none` stands for the zero time.
pub record AuditEventRetentionRequest : Type 0 where
  pub before : Option ℕ
  pub dry_run : Bool

pub record AuditEventRetentionResult : Type 0 where
  pub dry_run : Bool
  pub cutoff : ℕ
  pub hashed_pruned_count : ℕ
  pub legacy_pruned_count : ℕ
  pub anchor_id : String
  pub anchor_hash : String
  pub anchor_event_id : String
  pub retained_event_id : String

abbrev pub pruned_count : AuditEventRetentionResult → ℕ
pruned_count r = r.legacy_pruned_count + r.hashed_pruned_count

pub record RetentionAnchor : Type 0 where
  pub id : String
  pub anchor_hash : String
  pub anchor_event_id : String
  pub retained_event_id : String
  pub retention_cutoff : ℕ
  pub pruned_count : ℕ

-- The events with a hash, the creation times of those without, and the anchors.
pub record AuditTables : Type 0 where
  pub hashed : List AuditEventHashRecord
  pub legacy : List ℕ
  pub anchors : List RetentionAnchor

abbrev pub anchor_hashes : AuditTables → List String
anchor_hashes t = map (λ a. a.anchor_hash) t.anchors

-- `verifyAuditEventHashChain`
unfoldable pub verify_audit_event_hash_chain :
    HashCodec → AuditTables → ℕ → AuditEventHashChainVerification
verify_audit_event_hash_chain codec t now =
    verify_audit_event_hash_records codec t.hashed (length t.legacy) (anchor_hashes t) now

abbrev pub refuse_status : Status → RetentionError → Result RetentionError (Unit {0})
refuse_status failure e = err e
refuse_status passed e = ok tt
refuse_status warning e = ok tt

unfoldable pub count_legacy_before : ℕ → List ℕ → ℕ
count_legacy_before cutoff [] = 0
count_legacy_before cutoff (t ∷ ts) =
    (if ltb t cutoff then 1 else 0) + count_legacy_before cutoff ts

unfoldable pub delete_legacy_before : ℕ → List ℕ → List ℕ
delete_legacy_before cutoff [] = []
delete_legacy_before cutoff (t ∷ ts) =
    let rest = delete_legacy_before cutoff ts in if ltb t cutoff then rest else t ∷ rest

unfoldable pub delete_ids : List String → List AuditEventHashRecord → List AuditEventHashRecord
delete_ids ids [] = []
delete_ids ids (r ∷ rs) =
    let rest = delete_ids ids rs in if contains r.id ids then rest else r ∷ rest

-- The rows that a deletion affects are those that are gone.
unfoldable pub delete_hashed_audit_events :
    AuditTables → List AuditEventHashRecord → Result RetentionError AuditTables
unfolding delete_ids
delete_hashed_audit_events t pruned =
    let rest = delete_ids (map (λ r. r.id) pruned) t.hashed in
    if length t.hashed - length rest == length pruned
    then ok (record t { hashed = rest })
    else err rows_unexpected

unfoldable pub delete_legacy_audit_events_before :
    AuditTables → ℕ → ℕ → Result RetentionError AuditTables
unfolding delete_legacy_before
delete_legacy_audit_events_before t cutoff expected =
    let rest = delete_legacy_before cutoff t.legacy in
    if length t.legacy - length rest == expected
    then ok (record t { legacy = rest })
    else err rows_unexpected

abbrev pub or_else : {A : Type 0} → RetentionError → Option A → Result RetentionError A
or_else e none = err e
or_else e (some a) = ok a

-- What is known before anything is deleted; the anchor is named where hashed events are pruned.
unfoldable pub planned_result :
    AuditEventRetentionRequest → ℕ → AuditEventHashPrunePlan → ℕ → AuditEventRetentionResult
planned_result request cutoff plan legacy = record {
  dry_run = request.dry_run;
  cutoff = cutoff;
  hashed_pruned_count = length plan.pruned;
  legacy_pruned_count = legacy;
  anchor_id = "";
  anchor_hash = if ltb 0 (length plan.pruned) then plan.anchor.event_hash else "";
  anchor_event_id = if ltb 0 (length plan.pruned) then plan.anchor.id else "";
  retained_event_id = if ltb 0 (length plan.pruned) then plan.retained.id else "";
}

abbrev pub retention_anchor : AuditEventRetentionResult → RetentionAnchor
retention_anchor r = record {
  id = r.anchor_id;
  anchor_hash = r.anchor_hash;
  anchor_event_id = r.anchor_event_id;
  retained_event_id = r.retained_event_id;
  retention_cutoff = r.cutoff;
  pruned_count = r.hashed_pruned_count;
}

abbrev pub with_anchor : AuditTables → AuditEventRetentionResult → AuditTables
with_anchor t result = record t { anchors = retention_anchor result ∷ t.anchors }

unfoldable pub prune_hashed :
    Option String
    → AuditTables
    → AuditEventHashPrunePlan
    → AuditEventRetentionResult
    → Result RetentionError (AuditTables × AuditEventRetentionResult)
prune_hashed new_id t plan result =
    if ltb 0 result.hashed_pruned_count
    then (do
      id ← or_else id_unavailable new_id
      let named = record result { anchor_id = id }
      t' ← delete_hashed_audit_events (with_anchor t named) plan.pruned
      ok (t', named))
    else ok (t, result)

unfoldable pub prune_legacy :
    AuditTables → AuditEventRetentionResult → Result RetentionError AuditTables
prune_legacy t result =
    if ltb 0 result.legacy_pruned_count
    then delete_legacy_audit_events_before t result.cutoff result.legacy_pruned_count
    else ok t

-- The deletions, and the verification that follows them in the same transaction.
unfoldable pub prune_planned :
    HashCodec
    → ℕ
    → Option String
    → AuditTables
    → AuditEventHashPrunePlan
    → AuditEventRetentionResult
    → Result RetentionError (AuditTables × AuditEventRetentionResult)
prune_planned codec now new_id t plan result = do
  (t', named) ← prune_hashed new_id t plan result
  t'' ← prune_legacy t' named
  refuse_status (verify_audit_event_hash_chain codec t'' now).status
      (chain_broken_after (verify_audit_event_hash_chain codec t'' now).message)
  ok (t'', named)

-- A dry run, and a run with nothing to prune, end before the deletions.
unfoldable pub follow_plan :
    HashCodec
    → ℕ
    → Option String
    → AuditTables
    → AuditEventRetentionRequest
    → ℕ
    → AuditEventHashPrunePlan
    → Result RetentionError (AuditTables × AuditEventRetentionResult)
unfolding count_legacy_before
follow_plan codec now new_id t request cutoff plan =
    let result = planned_result request cutoff plan (count_legacy_before cutoff t.legacy) in
    if request.dry_run
    then ok (t, result)
    else if pruned_count result == 0
    then ok (t, result)
    else prune_planned codec now new_id t plan result

-- An error rolls the transaction back.
unfoldable pub prune_audit_events :
    HashCodec
    → ℕ
    → Option String
    → AuditTables
    → AuditEventRetentionRequest
    → Result RetentionError (AuditTables × AuditEventRetentionResult)
prune_audit_events codec now new_id t request = do
  cutoff ← or_else cutoff_required request.before
  refuse_status (verify_audit_event_hash_chain codec t now).status
      (chain_broken (verify_audit_event_hash_chain codec t now).message)
  plan ← plan_audit_event_hash_prune t.hashed (anchor_hashes t) cutoff
  follow_plan codec now new_id t request cutoff plan
