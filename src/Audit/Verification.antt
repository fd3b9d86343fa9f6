-- ===== src/Audit/Verification.antt =====
-- internal/store/postgres/audit_hash_verify.go: `verifyAuditEventHashRecords`. The maps of the code
-- are association lists, where the latest entry of a key counts.
pub mod Soundness
pub mod Completeness
pub mod Chains
pub mod Maps
pub mod Walking
pub mod Following
pub mod Equivalence
pub mod Passing
pub mod Verdict
use tictick_hi.Base.{
  ℕ, zero, suc, ◌+◌, String, Bool, not, true, false, ◌||◌, Option, none, some, List, [], ◌∷◌, ltb,
  ◌==◌, if◌then◌else◌, Result, ok, err, ◌>>=◌, ◌>>◌, refuse_if, str_eq, length,
}
use tictick_hi.Audit.Hashes.{AuditEventHashRecord, HashCodec, HashError, recompute_audit_event_hash}

pub data Status : Type 0 where
  passed warning failure : Status

pub data Message : Type 0 where
  chain_valid legacy_skipped none_hashed hash_mismatch duplicate_hash chain_forks : Message
  previous_missing not_one_root contains_cycle disconnected not_one_tail out_of_fuel : Message
  hash_error : HashError → Message

pub record AuditEventHashChainVerification : Type 0 where
  pub status : Status
  pub checked_count : ℕ
  pub skipped_count : ℕ
  pub root_count : ℕ
  pub tail_count : ℕ
  pub broken_event_id : String
  pub message : Message
  pub checked_at : ℕ

unfoldable pub failed_audit_event_hash_verification :
    AuditEventHashChainVerification → String → Message → AuditEventHashChainVerification
failed_audit_event_hash_verification result id message = record result {
  status = failure;
  broken_event_id = id;
  message = message;
}

-- A step that may end the verification with a failed result.
abbrev pub Verified : Type 0 → Type 0
Verified A = Result AuditEventHashChainVerification A

abbrev pub fail : {A : Type 0} → AuditEventHashChainVerification → String → Message → Verified A
fail result id message = err (failed_audit_event_hash_verification result id message)

abbrev pub RecordMap : Type 0
RecordMap = List (String × AuditEventHashRecord)

unfoldable pub lookup : String → RecordMap → Option AuditEventHashRecord
lookup key [] = none
lookup key ((k, r) ∷ entries) = if str_eq k key then some r else lookup key entries

unfoldable pub contains : String → List String → Bool
contains key [] = false
contains key (k ∷ keys) = str_eq k key || contains key keys

unfoldable pub has : String → RecordMap → Bool
unfolding lookup
has key entries = elim (lookup key entries) [ none ↦ false | some r ↦ true ]

-- The result before any record is looked at.
unfoldable pub initial_result : ℕ → ℕ → ℕ → AuditEventHashChainVerification
initial_result checked skipped checked_at = record {
  status = if ltb 0 skipped then warning else passed;
  checked_count = checked;
  skipped_count = skipped;
  root_count = 0;
  tail_count = 0;
  broken_event_id = "";
  message =
      if ltb 0 skipped then (if checked == 0 then none_hashed else legacy_skipped) else chain_valid;
  checked_at = checked_at;
}

abbrev pub or_hash_error :
    AuditEventHashChainVerification
    → AuditEventHashRecord
    → Result HashError String
    → Verified String
or_hash_error result r (ok hash) = ok hash
or_hash_error result r (err e) = fail result r.id (hash_error e)

-- The first loop: every hash is the one that is recomputed, and no two are the same.
unfoldable pub check_hashes :
    HashCodec
    → AuditEventHashChainVerification
    → List AuditEventHashRecord
    → RecordMap
    → Verified RecordMap
check_hashes codec result [] by_hash = ok by_hash
check_hashes codec result (r ∷ rs) by_hash = do
  expected ← or_hash_error result r (recompute_audit_event_hash codec r)
  refuse_if (not (str_eq r.event_hash expected))
      (failed_audit_event_hash_verification result r.id hash_mismatch)
  refuse_if (has r.event_hash by_hash)
      (failed_audit_event_hash_verification result r.id duplicate_hash)
  check_hashes codec result rs ((r.event_hash, r) ∷ by_hash)

-- What the second loop carries: the result with its count of roots, the root and the children.
pub record Linking : Type 0 where
  pub result : AuditEventHashChainVerification
  pub root : AuditEventHashRecord
  pub children : RecordMap

abbrev pub with_root : Linking → AuditEventHashRecord → Linking
with_root l r = record l {
  result = record l.result { root_count = l.result.root_count + 1 };
  root = r;
}

abbrev pub with_child : Linking → AuditEventHashRecord → Linking
with_child l r = record l { children = (r.previous_hash, r) ∷ l.children }

unfoldable pub link_record :
    RecordMap → List String → Linking → AuditEventHashRecord → Verified Linking
link_record by_hash anchors l r =
    if str_eq r.previous_hash ""
    then ok (with_root l r)
    else if has r.previous_hash l.children
    then fail l.result r.id chain_forks
    else if has r.previous_hash by_hash
    then ok (with_child l r)
    else if contains r.previous_hash anchors
    then ok (with_root (with_child l r) r)
    else fail l.result r.id previous_missing

unfoldable pub link_records :
    RecordMap → List String → List AuditEventHashRecord → Linking → Verified Linking
link_records by_hash anchors [] l = ok l
link_records by_hash anchors (r ∷ rs) l =
    link_record by_hash anchors l r >>= λ l'. link_records by_hash anchors rs l'

-- How the walk along the chain ends: at the record after which there is no child (or at a record
-- without a hash, with `false`), with the records passed; or at a record seen before.
pub data Walk : Type 0 where
  ended : List AuditEventHashRecord → Bool → Walk
  cycle : AuditEventHashRecord → Walk
  exhausted : Walk

abbrev pub passing : AuditEventHashRecord → Walk → Walk
passing r (ended rs tail) = ended (r ∷ rs) tail
passing r (cycle c) = cycle c
passing r exhausted = exhausted

unfoldable pub walk : ℕ → RecordMap → AuditEventHashRecord → List String → Walk
walk zero children current visited = exhausted
walk (suc fuel) children current visited = elim (str_eq current.event_hash "") [
  | true ↦ ended [] false
  | false ↦ elim (contains current.event_hash visited) [
    | true ↦ cycle current
    | false ↦ elim (lookup current.event_hash children) [
      | none ↦ ended (current ∷ []) true
      | some child ↦ passing current (walk fuel children child (current.event_hash ∷ visited))
    ]
  ]
]

unfoldable pub check_walk :
    AuditEventHashChainVerification → ℕ → Walk → Verified AuditEventHashChainVerification
check_walk result count exhausted = fail result "" out_of_fuel
check_walk result count (cycle r) = fail result r.id contains_cycle
check_walk result count (ended rs tail) =
    let result' = record result { tail_count = if tail then 1 else 0 } in
    if not (length rs == count)
    then fail result' "" disconnected
    else if not (result'.tail_count == 1)
    then fail result' "" not_one_tail
    else ok result'

abbrev pub zero_record : AuditEventHashRecord
zero_record = record {
  id = "";
  actor_operator_id = "";
  actor_username = "";
  action = "";
  resource_type = "";
  resource_id = "";
  outcome = "";
  request_method = "";
  request_path = "";
  remote_addr = "";
  user_agent = "";
  metadata = "";
  previous_hash = "";
  event_hash = "";
  created_at = 0;
}

abbrev pub start_linking : AuditEventHashChainVerification → Linking
start_linking result = record { result = result; root = zero_record; children = [] }

unfoldable pub check_chain :
    HashCodec
    → AuditEventHashChainVerification
    → List String
    → List AuditEventHashRecord
    → Verified AuditEventHashChainVerification
unfolding walk check_hashes link_records
check_chain codec result anchors [] = ok result
check_chain codec result anchors (r ∷ rs) = do
  by_hash ← check_hashes codec result (r ∷ rs) []
  l ← link_records by_hash anchors (r ∷ rs) (start_linking result)
  refuse_if (not (l.result.root_count == 1))
      (failed_audit_event_hash_verification l.result "" not_one_root)
  check_walk l.result (length (r ∷ rs)) (walk (suc (length (r ∷ rs))) l.children l.root [])

-- A failed step gives the failed result.
abbrev pub finished : Verified AuditEventHashChainVerification → AuditEventHashChainVerification
finished (ok result) = result
finished (err result) = result

unfoldable pub verify_audit_event_hash_records :
    HashCodec → List AuditEventHashRecord → ℕ → List String → ℕ → AuditEventHashChainVerification
unfolding check_chain
verify_audit_event_hash_records codec records skipped anchors checked_at =
    finished
      (check_chain codec (initial_result (length records) skipped checked_at) anchors records)
