-- ===== src/Audit/Verification/Verdict.antt =====
-- internal/store/postgres/audit_hash_verify.go: the verdict, and the logs that get a good one.
use tictick_hi.Base.{
  ℕ, suc, Bool, not, true, false, String, ◌≡◌, ◌≢◌, refl, sym, subst, inl, inr, ◌↔◌, List, [], ◌∷◌,
  Result, ok, err, ◌>>=◌, refuse_if, >>=-eq-err, Result-cases, arith, length, str_eq, ◌==◌,
}
use tictick_hi.Audit.Hashes.{AuditEventHashRecord, HashCodec, HashError, recompute_audit_event_hash}
use tictick_hi.Audit.Verification.{
  AuditEventHashChainVerification, Verified, RecordMap, Linking, Walk, ended, cycle, exhausted,
  failure, or_hash_error, has, check_hashes, link_record, link_records, walk, check_walk,
  check_chain, start_linking, initial_result, verify_audit_event_hash_records, hash_mismatch,
  duplicate_hash, not_one_root, failed_audit_event_hash_verification, finished,
}
use tictick_hi.Audit.Verification.Chains.{IsAuditChain}
use tictick_hi.Audit.Verification.Equivalence.{check_chain-IsAuditChain}
use tictick_hi.Audit.Verification.Passing.{check_chain_passes}

-- A step that ends the verification says that it failed.
abbrev FailsWell : {A : Type 0} → Verified A → Type 0
FailsWell {A} m = (e : AuditEventHashChainVerification) → m ≡ err e → e.status ≡ failure

>>=-FailsWell :
    {A B : Type 0} (m : Verified A) (f : A → Verified B) (e : AuditEventHashChainVerification)
    → FailsWell m
    → ((a : A) → FailsWell (f a))
    → (m >>= f) ≡ err e
    → e.status ≡ failure
>>=-FailsWell m f e hm hf h = elim (>>=-eq-err m f h) [ inl p ↦ hm e p | inr (a, p, q) ↦ hf a e q ]

refuse_if-FailsWell :
    (b : Bool) (r : AuditEventHashChainVerification)
    → r.status ≡ failure
    → FailsWell (refuse_if b r)
refuse_if-FailsWell true r s e h = ground arith
refuse_if-FailsWell false r s e h = absurd (ground arith)

or_hash_error-FailsWell :
    (result : AuditEventHashChainVerification) (r : AuditEventHashRecord)
    (hash : Result HashError String)
    → FailsWell (or_hash_error result r hash)
unfolding failed_audit_event_hash_verification
or_hash_error-FailsWell result r (ok hash) e h = absurd (ground arith)
or_hash_error-FailsWell result r (err x) e h = ground arith

check_hashes-FailsWell :
    (codec : HashCodec) (result : AuditEventHashChainVerification) (rs : List AuditEventHashRecord)
    (m : RecordMap)
    → FailsWell (check_hashes codec result rs m)
unfolding check_hashes failed_audit_event_hash_verification
check_hashes-FailsWell codec result [] m e h = absurd (ground arith)
check_hashes-FailsWell codec result (r ∷ rs) m e h =
    >>=-FailsWell (or_hash_error result r (recompute_audit_event_hash codec r)) _ e
      (or_hash_error-FailsWell result r (recompute_audit_event_hash codec r))
      (λ expected f p.
        >>=-FailsWell
          (refuse_if (not (str_eq r.event_hash expected))
            (failed_audit_event_hash_verification result r.id hash_mismatch))
          _ f (refuse_if-FailsWell (not (str_eq r.event_hash expected)) _ refl)
          (λ u g q.
            >>=-FailsWell
              (refuse_if (has r.event_hash m)
                (failed_audit_event_hash_verification result r.id duplicate_hash))
              _ g (refuse_if-FailsWell (has r.event_hash m) _ refl)
              (λ v. check_hashes-FailsWell codec result rs ((r.event_hash, r) ∷ m)) q)
          p)
      h

link_record-FailsWell :
    (by_hash : RecordMap) (anchors : List String) (l : Linking) (r : AuditEventHashRecord)
    → FailsWell (link_record by_hash anchors l r)
unfolding link_record failed_audit_event_hash_verification
link_record-FailsWell by_hash anchors l r e h = ground arith

link_records-FailsWell :
    (by_hash : RecordMap) (anchors : List String) (rs : List AuditEventHashRecord) (l : Linking)
    → FailsWell (link_records by_hash anchors rs l)
unfolding link_records
link_records-FailsWell by_hash anchors [] l e h = absurd (ground arith)
link_records-FailsWell by_hash anchors (r ∷ rs) l e h =
    >>=-FailsWell (link_record by_hash anchors l r) _ e (link_record-FailsWell by_hash anchors l r)
      (λ l'. link_records-FailsWell by_hash anchors rs l') h

check_walk-FailsWell :
    (result : AuditEventHashChainVerification) (count : ℕ) (w : Walk)
    → FailsWell (check_walk result count w)
unfolding check_walk failed_audit_event_hash_verification
check_walk-FailsWell result count (ended ws tail) e h = ground arith
check_walk-FailsWell result count (cycle r) e h = ground arith
check_walk-FailsWell result count exhausted e h = ground arith

check_chain-FailsWell :
    (codec : HashCodec) (result : AuditEventHashChainVerification) (anchors : List String)
    (records : List AuditEventHashRecord)
    → FailsWell (check_chain codec result anchors records)
unfolding check_chain failed_audit_event_hash_verification
check_chain-FailsWell codec result anchors [] e h = absurd (ground arith)
check_chain-FailsWell codec result anchors (r ∷ rs) e h =
    >>=-FailsWell (check_hashes codec result (r ∷ rs) []) _ e
      (check_hashes-FailsWell codec result (r ∷ rs) [])
      (λ by_hash f p.
        >>=-FailsWell (link_records by_hash anchors (r ∷ rs) (start_linking result)) _ f
          (link_records-FailsWell by_hash anchors (r ∷ rs) (start_linking result))
          (λ l g q.
            >>=-FailsWell
              (refuse_if (not (l.result.root_count == 1))
                (failed_audit_event_hash_verification l.result "" not_one_root))
              _ g (refuse_if-FailsWell (not (l.result.root_count == 1)) _ refl)
              (λ u.
                check_walk-FailsWell l.result (length (r ∷ rs))
                  (walk (suc (length (r ∷ rs))) l.children l.root []))
              q)
          p)
      h

initial_result-status :
    (count skipped checked_at : ℕ) → (initial_result count skipped checked_at).status ≢ failure
unfolding initial_result
initial_result-status count skipped checked_at h = ground arith

pub initial_result-no_roots :
    (count skipped checked_at : ℕ) → (initial_result count skipped checked_at).root_count ≡ 0
unfolding initial_result
initial_result-no_roots count skipped checked_at = refl

-- A verdict other than a failure is that of a verification whose steps all succeeded.
pub check_chain_of_verdict :
    (codec : HashCodec) (records : List AuditEventHashRecord) (skipped : ℕ) (anchors : List String)
    (checked_at : ℕ)
    → (verify_audit_event_hash_records codec records skipped anchors checked_at).status ≢ failure
    → (result' : AuditEventHashChainVerification) × (check_chain codec
          (initial_result (length records) skipped checked_at)
          anchors
          records
        ≡ ok result')
unfolding verify_audit_event_hash_records
check_chain_of_verdict codec records skipped anchors checked_at fine =
    let result = initial_result (length records) skipped checked_at in
    elim (Result-cases (check_chain codec result anchors records)) [
      | inl (e, p) ↦ absurd (
          fine (
            subst (λ m. (finished m).status ≡ failure) (sym p)
              (check_chain-FailsWell codec result anchors records e p)))
      | inr found ↦ found
    ]

pub verdict_of_chain :
    (codec : HashCodec) (records chain : List AuditEventHashRecord) (skipped : ℕ)
    (anchors : List String) (checked_at : ℕ)
    → IsAuditChain codec anchors records chain
    → (verify_audit_event_hash_records codec records skipped anchors checked_at).status ≢ failure
unfolding verify_audit_event_hash_records
verdict_of_chain codec records chain skipped anchors checked_at h =
    let result = initial_result (length records) skipped checked_at in
    let (result', p, kept) =
      check_chain_passes codec result anchors records chain
        (initial_result-no_roots (length records) skipped checked_at) h in
    subst (λ m. (finished m).status ≢ failure) (sym p)
      (subst (λ s. s ≢ failure) (sym kept)
        (initial_result-status (length records) skipped checked_at))

-- Whatever was skipped, `verifyAuditEventHashRecords` does not report a failure on exactly those
-- logs that are one chain: every hash is the one of its record, no two hashes are equal, and the
-- records, in some order, name each the hash of the one before, the first one none or the hash of a
-- pruned record that an anchor keeps.
pub verify_audit_event_hash_records_iff :
    (codec : HashCodec) (records : List AuditEventHashRecord) (skipped : ℕ) (anchors : List String)
    (checked_at : ℕ)
    → ((verify_audit_event_hash_records codec records skipped anchors checked_at).status ≢ failure)
      ↔ ((chain : List AuditEventHashRecord) × IsAuditChain codec anchors records chain)
verify_audit_event_hash_records_iff codec records skipped anchors checked_at = (
  λ fine.
      let (result', p) = check_chain_of_verdict codec records skipped anchors checked_at fine in
      check_chain-IsAuditChain codec anchors (initial_result (length records) skipped checked_at)
        result' records (initial_result-no_roots (length records) skipped checked_at) p,
  λ found. verdict_of_chain codec records found.0 skipped anchors checked_at found.1,
)
