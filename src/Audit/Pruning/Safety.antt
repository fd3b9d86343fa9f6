-- ===== src/Audit/Pruning/Safety.antt =====
-- internal/store/postgres/audit_retention_store.go: `PruneAuditEvents` on a log that is not broken.
use tictick_hi.Base.{
  ℕ, ◌-◌, ◌<◌, String, true, false, ◌≡◌, ◌≢◌, refl, sym, subst, ◌∙◌, ◌⊎◌, inl, inr, some, List, [],
  ◌∷◌, ◌++◌, Bool-cases, arith, length, length-append, drop, last_or, All, ltb, ◌==◌, ok, err,
  ◌>>=◌,
}
use tictick_hi.Base.Members.{In, Distinct, In-append, In_of_All}
use tictick_hi.Audit.Hashes.{AuditEventHashRecord, HashCodec}
use tictick_hi.Audit.Verification.{failure, initial_result}
use tictick_hi.Audit.Verification.Chains.{IsAuditChain}
use tictick_hi.Audit.Verification.Equivalence.{length-chain}
use tictick_hi.Audit.Verification.Verdict.{check_chain_of_verdict, initial_result-no_roots}
use tictick_hi.Audit.Retention.{
  AuditEventHashPrunePlan, before_cutoff, plan_of, plan_audit_event_hash_prune,
  would_prune_everything, chain_broken, head_or,
}
use tictick_hi.Audit.Verification.{zero_record}
use tictick_hi.Audit.Retention.Ordering.{order_of_check_chain}
use tictick_hi.Audit.Pruning.{
  AuditTables, AuditEventRetentionRequest, AuditEventRetentionResult, anchor_hashes,
  verify_audit_event_hash_chain, delete_ids, delete_hashed_audit_events, planned_result,
  with_anchor, prune_hashed, follow_plan, prune_audit_events, pruned_count,
}
use tictick_hi.Audit.Pruning.Kept.{
  ids, In-delete_ids, before_cutoff-append, before_cutoff-lt, kept-IsAuditChain,
}
use tictick_hi.Audit.Pruning.Planned.{
  true-ne-false, refuse_status_fine, IsPruned, verified_of_chain, prune_planned_of_chain, legacy,
  follow_plan_dry, follow_plan-some, follow_empty_plan,
}

module _ (codec : HashCodec) (now : ℕ) (id : String) (t : AuditTables)
    (request : AuditEventRetentionRequest) (cutoff : ℕ) where
  module _ (p : AuditEventHashRecord) (ps rest : List AuditEventHashRecord)
      (unique : Distinct (ids t.hashed)) (aged : All (λ r. r.created_at < cutoff) (p ∷ ps))
      (h : IsAuditChain codec (anchor_hashes t) t.hashed ((p ∷ ps) ++ rest)) where
    abbrev left : List AuditEventHashRecord
    left = delete_ids (ids (p ∷ ps)) t.hashed

    length-left : length t.hashed - length left ≡ length (p ∷ ps)
    length-left = omega (
      arith,
      length-chain codec ((last_or p ps).event_hash ∷ anchor_hashes t) left rest
          (kept-IsAuditChain codec (anchor_hashes t) t.hashed p ps rest unique h),
      length-chain codec (anchor_hashes t) t.hashed ((p ∷ ps) ++ rest) h,
      length-append (p ∷ ps) rest,
    )

    abbrev plan_with : AuditEventHashRecord → AuditEventHashPrunePlan
    plan_with retained = record { pruned = p ∷ ps; anchor = last_or p ps; retained = retained }

    prune_hashed_deletes :
        (retained : AuditEventHashRecord) (r : AuditEventRetentionResult)
        → r.hashed_pruned_count ≡ length (p ∷ ps)
        → prune_hashed (some id) t (plan_with retained) r
          ≡ ok (
            record (with_anchor t (record r { anchor_id = id })) { hashed = left },
            record r { anchor_id = id },
          )
    unfolding prune_hashed delete_hashed_audit_events
    prune_hashed_deletes retained r e =
        let some_old : ltb 0 r.hashed_pruned_count ≡ true = ground arith in
        let affected : (length t.hashed - length left == length (p ∷ ps)) ≡ true =
          ground (arith, length-left) in
        rw (some_old, affected) refl

    left_old : (r : AuditEventHashRecord) → In r t.hashed → In r left ⊎ (r.created_at < cutoff)
    left_old r i = elim (In-append r (p ∷ ps) rest ((h.same r).1 i)) [
      | inl gone ↦ inr (In_of_All (λ x. x.created_at < cutoff) (p ∷ ps) r aged gone)
      | inr j ↦
          inl (((kept-IsAuditChain codec (anchor_hashes t) t.hashed p ps rest unique h).same r).0 j)
    ]

    follow_full_plan :
        (retained : AuditEventHashRecord)
        → (t' : AuditTables) × (result : AuditEventRetentionResult) × (follow_plan codec now
              (some id)
              t
              request
              cutoff
              (plan_with retained)
            ≡ ok (t', result))
          × IsPruned codec now cutoff request.dry_run t t'
    unfolding planned_result
    follow_full_plan retained =
        let r =
          planned_result request cutoff (plan_with retained)
            (legacy codec now id t request cutoff) in
        elim (Bool-cases request.dry_run) [
          | inl dry ↦ (
            t,
            r,
            follow_plan_dry codec now id t request cutoff (plan_with retained) dry,
            record {
              verified = verified_of_chain codec now t t ((p ∷ ps) ++ rest) refl refl h;
              kept = λ x i. i;
              old = λ x i. inl i;
              dry_kept = λ d. refl;
            },
          )
          | inr wet ↦
              let named = record r { anchor_id = id } in
              let t1 = record (with_anchor t named) { hashed = left } in
              let counted : (pruned_count r == 0) ≡ false = ground arith in
              let anchored : named.anchor_hash ≡ (last_or p ps).event_hash = ground arith in
              let (t2, q, same, fine) =
                prune_planned_of_chain codec now id t request cutoff (plan_with retained) r named t1
                  rest (prune_hashed_deletes retained r refl)
                  (subst (λ k. IsAuditChain codec (k ∷ anchor_hashes t) left rest) (sym anchored)
                    (kept-IsAuditChain codec (anchor_hashes t) t.hashed p ps rest unique h))
                  refl in
              (
                t2,
                named,
                follow_plan-some codec now id t request cutoff (plan_with retained) wet counted ∙ q,
                record {
                  verified = fine;
                  kept = λ x i.
                      (In-delete_ids (ids (p ∷ ps)) x t.hashed (subst (λ l. In x l) same i)).0;
                  old = λ x i. elim (left_old x i) [
                    | inl j ↦ inl (subst (λ l. In x l) (sym same) j)
                    | inr o ↦ inr o
                  ];
                  dry_kept = λ d. absurd (true-ne-false (sym d ∙ wet));
                },
              )
        ]

  follow_plan_of_chain :
      (pruned rest : List AuditEventHashRecord)
      → Distinct (ids t.hashed)
      → All (λ r. r.created_at < cutoff) pruned
      → IsAuditChain codec (anchor_hashes t) t.hashed (pruned ++ rest)
      → ((plan_of pruned (pruned ++ rest) >>= follow_plan codec now (some id) t request cutoff)
          ≡ err would_prune_everything)
        ⊎ ((t' : AuditTables) × (result : AuditEventRetentionResult) × ((plan_of pruned
                  (pruned ++ rest)
                >>= follow_plan codec now (some id) t request cutoff)
              ≡ ok (t', result))
            × IsPruned codec now cutoff request.dry_run t t')
  unfolding plan_of
  follow_plan_of_chain [] rest unique aged h = inr (
      follow_empty_plan codec now id t request cutoff
        (record { pruned = []; anchor = zero_record; retained = zero_record }) rest refl h)
  follow_plan_of_chain (p ∷ ps) rest unique aged h =
      elim (Bool-cases (length (p ∷ ps) == length ((p ∷ ps) ++ rest))) [
        | inl everything ↦ inl (rw everything refl)
        | inr some_left ↦
            let (t', result, q, kept) =
              follow_full_plan p ps rest unique aged h
                (head_or zero_record (drop (length (p ∷ ps)) ((p ∷ ps) ++ rest))) in
            inr (t', result, rw some_left q, kept)
      ]

-- A log that is not broken, with distinct ids, is never broken by a prune: asked with a cutoff (and
-- with an id for the anchor), `PruneAuditEvents` refuses with the error that every hashed event would
-- be pruned, or it succeeds. Then the log verifies again, no event has been added, every hashed event that is gone is
-- older than the cutoff, and a dry run leaves the tables as they are.
pub prune_audit_events-IsPruned :
    (codec : HashCodec) (now : ℕ) (id : String) (t : AuditTables)
    (request : AuditEventRetentionRequest) (cutoff : ℕ)
    → Distinct (ids t.hashed)
    → request.before ≡ some cutoff
    → (verify_audit_event_hash_chain codec t now).status ≢ failure
    → (prune_audit_events codec now (some id) t request ≡ err would_prune_everything)
      ⊎ ((t' : AuditTables) × (result : AuditEventRetentionResult) × (prune_audit_events codec now
              (some id)
              t
              request
            ≡ ok (t', result))
          × IsPruned codec now cutoff request.dry_run t t')
unfolding prune_audit_events plan_audit_event_hash_prune verify_audit_event_hash_chain follow_plan
    planned_result
prune_audit_events-IsPruned codec now id t request cutoff unique given fine =
    let begin = initial_result (length t.hashed) (length t.legacy) now in
    let (result', checked) =
      check_chain_of_verdict codec t.hashed (length t.legacy) (anchor_hashes t) now fine in
    let (chain, ordered, h) =
      order_of_check_chain codec begin result' (anchor_hashes t) t.hashed
        (initial_result-no_roots (length t.hashed) (length t.legacy) now) checked in
    let split = before_cutoff-append cutoff chain in
    let go =
      refuse_status_fine (verify_audit_event_hash_chain codec t now).status
        (chain_broken (verify_audit_event_hash_chain codec t now).message) fine in
    let rest = drop (length (before_cutoff cutoff chain)) chain in
    let outcome =
      follow_plan_of_chain codec now id t request cutoff (before_cutoff cutoff chain) rest unique
        (before_cutoff-lt cutoff chain)
        (subst (IsAuditChain codec (anchor_hashes t) t.hashed) (sym split) h) in
    rw (given, go, ordered)
      (subst
        (λ l.
          (((plan_of (before_cutoff cutoff chain) l)
              >>= follow_plan codec now (some id) t request cutoff)
            ≡ err would_prune_everything)
          ⊎ ((t' : AuditTables) × (result : AuditEventRetentionResult) × (((plan_of
                    (before_cutoff cutoff chain) l)
                  >>= follow_plan codec now (some id) t request cutoff)
                ≡ ok (t', result))
              × IsPruned codec now cutoff request.dry_run t t'))
        split outcome)
