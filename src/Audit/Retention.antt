-- ===== src/Audit/Retention.antt =====
-- internal/store/postgres/audit_retention_store.go: the order of a chain, and what is pruned of it.
pub mod Ordering
use tictick_hi.Base.{
  ℕ, suc, ◌+◌, ◌-◌, String, Bool, not, true, false, ◌||◌, Option, none, some, List, [], ◌∷◌, map,
  ltb, ◌==◌, if◌then◌else◌, Result, ok, err, ◌>>=◌, ◌>>◌, refuse_if, str_eq, length, drop, last_or,
}
use tictick_hi.Audit.Hashes.{AuditEventHashRecord, HashCodec}
use tictick_hi.Audit.Verification.{
  AuditEventHashChainVerification, RecordMap, Walk, ended, cycle, exhausted, Message, Status,
  passed, warning, failure, has, contains, walk, zero_record, verify_audit_event_hash_records,
}

pub data RetentionError : Type 0 where
  cutoff_required forks parent_missing roots_not_one cyclic apart unfinished : RetentionError
  would_prune_everything id_unavailable rows_unexpected : RetentionError
  chain_broken chain_broken_after : Message → RetentionError

-- The first loop of `orderAuditEventHashRecords`: the records by their hashes, and the children.
unfoldable pub order_record :
    AuditEventHashRecord → RecordMap → RecordMap → Result RetentionError (RecordMap × RecordMap)
order_record r by_hash children =
    if str_eq r.previous_hash ""
    then ok ((r.event_hash, r) ∷ by_hash, children)
    else if has r.previous_hash children
    then err forks
    else ok ((r.event_hash, r) ∷ by_hash, (r.previous_hash, r) ∷ children)

unfoldable pub order_maps :
    List AuditEventHashRecord
    → RecordMap
    → RecordMap
    → Result RetentionError (RecordMap × RecordMap)
order_maps [] by_hash children = ok (by_hash, children)
order_maps (r ∷ rs) by_hash children =
    order_record r by_hash children >>= λ maps. order_maps rs maps.0 maps.1

-- The second loop: the root, and how many there are.
unfoldable pub order_root :
    RecordMap
    → List String
    → AuditEventHashRecord
    → AuditEventHashRecord × ℕ
    → Result RetentionError (AuditEventHashRecord × ℕ)
order_root by_hash anchors r (root, count) =
    if str_eq r.previous_hash ""
    then ok (r, count + 1)
    else if has r.previous_hash by_hash
    then ok (root, count)
    else if contains r.previous_hash anchors
    then ok (r, count + 1)
    else err parent_missing

unfoldable pub order_roots :
    RecordMap
    → List String
    → List AuditEventHashRecord
    → AuditEventHashRecord × ℕ
    → Result RetentionError (AuditEventHashRecord × ℕ)
order_roots by_hash anchors [] roots = ok roots
order_roots by_hash anchors (r ∷ rs) roots =
    order_root by_hash anchors r roots >>= λ next. order_roots by_hash anchors rs next

unfoldable pub ordered_walk : ℕ → Walk → Result RetentionError (List AuditEventHashRecord)
ordered_walk count exhausted = err unfinished
ordered_walk count (cycle r) = err cyclic
ordered_walk count (ended ordered tail) = if length ordered == count then ok ordered else err apart

unfoldable pub order_audit_event_hash_records :
    List AuditEventHashRecord → List String → Result RetentionError (List AuditEventHashRecord)
unfolding order_maps order_roots
order_audit_event_hash_records [] anchors = ok []
order_audit_event_hash_records (r ∷ rs) anchors = do
  maps ← order_maps (r ∷ rs) [] []
  roots ← order_roots maps.0 anchors (r ∷ rs) (zero_record, 0)
  refuse_if (not (roots.1 == 1)) roots_not_one
  ordered_walk (length (r ∷ rs)) (walk (suc (length (r ∷ rs))) maps.1 roots.0 [])

pub record AuditEventHashPrunePlan : Type 0 where
  pub pruned : List AuditEventHashRecord
  pub anchor : AuditEventHashRecord
  pub retained : AuditEventHashRecord

abbrev pub before_cutoff : ℕ → List AuditEventHashRecord → List AuditEventHashRecord
before_cutoff cutoff [] = []
before_cutoff cutoff (r ∷ rs) =
    let rest = before_cutoff cutoff rs in if ltb r.created_at cutoff then r ∷ rest else []

abbrev pub head_or : AuditEventHashRecord → List AuditEventHashRecord → AuditEventHashRecord
head_or d [] = d
head_or d (r ∷ rs) = r

unfoldable pub plan_of :
    List AuditEventHashRecord
    → List AuditEventHashRecord
    → Result RetentionError AuditEventHashPrunePlan
plan_of [] ordered = ok (record { pruned = []; anchor = zero_record; retained = zero_record })
plan_of (p ∷ ps) ordered =
    if length (p ∷ ps) == length ordered
    then err would_prune_everything
    else ok (record {
      pruned = p ∷ ps;
      anchor = last_or p ps;
      retained = head_or zero_record (drop (length (p ∷ ps)) ordered);
    })

unfoldable pub plan_audit_event_hash_prune :
    List AuditEventHashRecord → List String → ℕ → Result RetentionError AuditEventHashPrunePlan
plan_audit_event_hash_prune records anchors cutoff =
    order_audit_event_hash_records records anchors >>= λ ordered.
    plan_of (before_cutoff cutoff ordered) ordered
