-- ===== src/Audit/Pruning/Planned.antt =====
-- internal/store/postgres/audit_retention_store.go: how `PruneAuditEvents` goes on from a plan.
use tictick_hi.Base.{
  ℕ, ◌+◌, ◌-◌, ◌<◌, String, Bool, true, false, ◌≡◌, ◌≢◌, refl, sym, subst, ◌∙◌, ◌⊎◌, inl, inr, some,
  List, [], ◌∷◌, Bool-cases, arith, length, ltb, ◌==◌, ok,
}
use tictick_hi.Base.Members.{In, Subset}
use tictick_hi.Audit.Hashes.{AuditEventHashRecord, HashCodec}
use tictick_hi.Audit.Verification.{Status, passed, warning, failure}
use tictick_hi.Audit.Verification.Chains.{IsAuditChain}
use tictick_hi.Audit.Verification.Verdict.{verdict_of_chain}
use tictick_hi.Audit.Retention.{RetentionError, AuditEventHashPrunePlan, chain_broken_after}
use tictick_hi.Audit.Pruning.{
  AuditTables, AuditEventRetentionRequest, AuditEventRetentionResult, anchor_hashes,
  verify_audit_event_hash_chain, refuse_status, count_legacy_before, delete_legacy_before,
  delete_legacy_audit_events_before, planned_result, prune_hashed, prune_legacy, prune_planned,
  follow_plan, pruned_count,
}

pub true-ne-false : true ≢ false
true-ne-false h = cc

pub refuse_status_fine : (s : Status) (e : RetentionError) → s ≢ failure → refuse_status s e ≡ ok tt
refuse_status_fine passed e h = refl
refuse_status_fine warning e h = refl
refuse_status_fine failure e h = absurd (h refl)

count-delete :
    (cutoff : ℕ) (ts : List ℕ)
    → length (delete_legacy_before cutoff ts) + count_legacy_before cutoff ts ≡ length ts
unfolding delete_legacy_before count_legacy_before
count-delete cutoff [] = omega arith
count-delete cutoff (t ∷ ts) = ground (arith, count-delete cutoff ts)

prune_legacy_deletes :
    (t : AuditTables) (r : AuditEventRetentionResult)
    → r.legacy_pruned_count ≡ count_legacy_before r.cutoff t.legacy
    → (t' : AuditTables) × (prune_legacy t r ≡ ok t')
      × (t'.hashed ≡ t.hashed)
      × (t'.anchors ≡ t.anchors)
unfolding prune_legacy delete_legacy_audit_events_before
prune_legacy_deletes t r h = elim (Bool-cases (ltb 0 r.legacy_pruned_count)) [
  | inl some_old ↦
      let affected : (length t.legacy - length (delete_legacy_before r.cutoff t.legacy)
            == r.legacy_pruned_count)
          ≡ true =
        ground (arith, count-delete r.cutoff t.legacy) in
      (
        record t { legacy = delete_legacy_before r.cutoff t.legacy },
        rw (some_old, affected) refl,
        refl,
        refl,
      )
  | inr all_new ↦ (t, rw all_new refl, refl, refl)
]

pub record IsPruned (codec : HashCodec) (now cutoff : ℕ) (dry : Bool) (t t' : AuditTables)
    : Type 0 where
  pub verified : (verify_audit_event_hash_chain codec t' now).status ≢ failure
  pub kept : Subset t'.hashed t.hashed
  pub old : (r : AuditEventHashRecord) → In r t.hashed → In r t'.hashed ⊎ (r.created_at < cutoff)
  pub dry_kept : dry ≡ true → t' ≡ t

pub verified_of_chain :
    (codec : HashCodec) (now : ℕ) (t t' : AuditTables) (chain : List AuditEventHashRecord)
    → t'.hashed ≡ t.hashed
    → t'.anchors ≡ t.anchors
    → IsAuditChain codec (anchor_hashes t) t.hashed chain
    → (verify_audit_event_hash_chain codec t' now).status ≢ failure
unfolding verify_audit_event_hash_chain
verified_of_chain codec now t t' chain p q h =
    verdict_of_chain codec t'.hashed chain (length t'.legacy) (anchor_hashes t') now (rw (p, q) h)

module _ (codec : HashCodec) (now : ℕ) (id : String) (t : AuditTables)
    (request : AuditEventRetentionRequest) (cutoff : ℕ) where
  -- The deletions go on from `t1`, and the verification after them finds a chain.
  pub prune_planned_of_chain :
      (plan : AuditEventHashPrunePlan) (r named : AuditEventRetentionResult) (t1 : AuditTables)
      (chain : List AuditEventHashRecord)
      → prune_hashed (some id) t plan r ≡ ok (t1, named)
      → IsAuditChain codec (anchor_hashes t1) t1.hashed chain
      → named.legacy_pruned_count ≡ count_legacy_before named.cutoff t1.legacy
      → (t2 : AuditTables) × (prune_planned codec now (some id) t plan r ≡ ok (t2, named))
        × (t2.hashed ≡ t1.hashed)
        × ((verify_audit_event_hash_chain codec t2 now).status ≢ failure)
  unfolding prune_planned
  prune_planned_of_chain plan r named t1 chain p h c =
      let (t2, q, same, anchored) = prune_legacy_deletes t1 named c in
      let fine = verified_of_chain codec now t1 t2 chain same anchored h in
      let go =
        refuse_status_fine (verify_audit_event_hash_chain codec t2 now).status
          (chain_broken_after (verify_audit_event_hash_chain codec t2 now).message) fine in
      (t2, rw (p, q, go) refl, same, fine)

  abbrev pub legacy : ℕ
  legacy = count_legacy_before cutoff t.legacy

  pub follow_plan_dry :
      (plan : AuditEventHashPrunePlan)
      → request.dry_run ≡ true
      → follow_plan codec now (some id) t request cutoff plan
        ≡ ok (t, planned_result request cutoff plan legacy)
  unfolding follow_plan
  follow_plan_dry plan dry = ground arith

  follow_plan_none :
      (plan : AuditEventHashPrunePlan)
      → request.dry_run ≡ false
      → (pruned_count (planned_result request cutoff plan legacy) == 0) ≡ true
      → follow_plan codec now (some id) t request cutoff plan
        ≡ ok (t, planned_result request cutoff plan legacy)
  unfolding follow_plan
  follow_plan_none plan wet none_old = ground arith

  pub follow_plan-some :
      (plan : AuditEventHashPrunePlan)
      → request.dry_run ≡ false
      → (pruned_count (planned_result request cutoff plan legacy) == 0) ≡ false
      → follow_plan codec now (some id) t request cutoff plan
        ≡ prune_planned codec now (some id) t plan (planned_result request cutoff plan legacy)
  unfolding follow_plan
  follow_plan-some plan wet some_old = ground arith

  -- With nothing to prune among the hashed events.
  pub follow_empty_plan :
      (plan : AuditEventHashPrunePlan) (chain : List AuditEventHashRecord)
      → plan.pruned ≡ []
      → IsAuditChain codec (anchor_hashes t) t.hashed chain
      → (t' : AuditTables) × (result : AuditEventRetentionResult) × (follow_plan codec now
            (some id)
            t
            request
            cutoff
            plan
          ≡ ok (t', result))
        × IsPruned codec now cutoff request.dry_run t t'
  unfolding planned_result prune_hashed
  follow_empty_plan plan chain e h =
      let r = planned_result request cutoff plan legacy in
      let unchanged : IsPruned codec now cutoff request.dry_run t t = record {
        verified = verified_of_chain codec now t t chain refl refl h;
        kept = λ x i. i;
        old = λ x i. inl i;
        dry_kept = λ d. refl;
      } in
      elim (Bool-cases request.dry_run) [
        | inl dry ↦ (t, r, follow_plan_dry plan dry, unchanged)
        | inr wet ↦ elim (Bool-cases (pruned_count r == 0)) [
          | inl none_old ↦ (t, r, follow_plan_none plan wet none_old, unchanged)
          | inr some_old ↦
              let passed_by : prune_hashed (some id) t plan r ≡ ok (t, r) = rw e refl in
              let (t2, p, same, fine) = prune_planned_of_chain plan r r t chain passed_by h refl in
              (
                t2,
                r,
                follow_plan-some plan wet some_old ∙ p,
                record {
                  verified = fine;
                  kept = λ x i. subst (λ l. In x l) same i;
                  old = λ x i. inl (subst (λ l. In x l) (sym same) i);
                  dry_kept = λ d. absurd (true-ne-false (sym d ∙ wet));
                },
              )
        ]
      ]
