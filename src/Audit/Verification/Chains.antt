-- ===== src/Audit/Verification/Chains.antt =====
-- What a verified log is: the records of one chain, each naming the hash of the one before.
use tictick_hi.Base.{String, ◌≡◌, ◌≢◌, ◌⊎◌, ◌↔◌, List, [], ◌∷◌, map, ok, All}
use tictick_hi.Base.Members.{In, Distinct}
use tictick_hi.Audit.Hashes.{AuditEventHashRecord, HashCodec, recompute_audit_event_hash}

abbrev pub hashes : List AuditEventHashRecord → List String
hashes = map (λ r. r.event_hash)

-- The hash of a record is the one of its contents.
abbrev pub IsSealed : HashCodec → AuditEventHashRecord → Type 0
IsSealed codec r = recompute_audit_event_hash codec r ≡ ok r.event_hash

-- Each record names the hash of the one before, the first one the given hash.
abbrev pub Linked : String → List AuditEventHashRecord → Type 0
Linked previous [] = Unit
Linked previous (r ∷ rs) = (r.previous_hash ≡ previous) × Linked r.event_hash rs

-- A chain begins at a record without a predecessor, or after a record that was pruned.
abbrev pub IsRooted : List String → List String → String → Type 0
IsRooted anchors known previous = (previous ≡ "") ⊎ (In previous anchors × (¬ In previous known))

pub record IsAuditChain (codec : HashCodec) (anchors : List String)
    (records chain : List AuditEventHashRecord) : Type 0 where
  pub start : String
  pub rooted : IsRooted anchors (hashes records) start
  pub linked : Linked start chain
  pub named : All (λ r. r.event_hash ≢ "") records
  pub same : (r : AuditEventHashRecord) → In r chain ↔ In r records
  pub distinct : Distinct (hashes records)
  pub distinct_chain : Distinct (hashes chain)
  pub genuine : All (IsSealed codec) records
