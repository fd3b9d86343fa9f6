-- ===== src/Audit/Verification/Passing.antt =====
-- internal/store/postgres/audit_hash_verify.go: the records of one chain pass the verification.
use tictick_hi.Base.{
  suc, String, not, true, false, ◌≡◌, ◌≢◌, refl, sym, subst, ap, ◌∙◌, inl, inr, List, [], ◌∷◌, ok,
  Bool-cases, arith, length, All, str_eq, str_eq_iff, ◌==◌,
}
use tictick_hi.Base.Members.{In, In-map_inverse, All_of_In, In_of_All, Distinct-map}
use tictick_hi.Audit.Hashes.{AuditEventHashRecord, HashCodec}
use tictick_hi.Audit.Verification.{
  AuditEventHashChainVerification, RecordMap, Linking, lookup, has, ended, check_hashes,
  link_records, walk, check_chain, start_linking,
}
use tictick_hi.Audit.Verification.Chains.{hashes, IsAuditChain}
use tictick_hi.Audit.Verification.Maps.{In→contains, str_eq_apart, has-nil, lookup-nil}
use tictick_hi.Audit.Verification.Following.{
  previous-In, previous_injective, Linked-Follows, walk_passes,
}
use tictick_hi.Audit.Verification.Soundness.{check_hashes-AreChecked}
use tictick_hi.Audit.Verification.Completeness.{
  AreLinked, IsFirst, IsPlaced, check_hashes_passes, link_records_passes,
}
use tictick_hi.Audit.Verification.Equivalence.{hashes-Subset, length-chain, check_walk_passes}

module _ (codec : HashCodec) (anchors : List String) (records chain : List AuditEventHashRecord)
    (h : IsAuditChain codec anchors records chain) where
  pub start_new : ¬ In h.start (hashes records)
  start_new i = elim h.rooted [
    | inl blank ↦
        let (r, j, e) = In-map_inverse (λ r. r.event_hash) h.start records i in
        In_of_All (λ r. r.event_hash ≢ "") records r h.named j (sym e ∙ blank)
    | inr (anchored, missing) ↦ missing i
  ]

  pub start_new_chain : ¬ In h.start (hashes chain)
  start_new_chain i = start_new (hashes-Subset chain records (λ r. (h.same r).0) h.start i)

  named_chain : All (λ r. r.event_hash ≢ "") chain
  named_chain =
      All_of_In (λ r. r.event_hash ≢ "") chain
        (λ r i. In_of_All (λ r. r.event_hash ≢ "") records r h.named ((h.same r).0 i))

  first :
      (by_hash : RecordMap) (r : AuditEventHashRecord)
      → ((k : String) → ¬ In k (hashes records) → has k by_hash ≡ false)
      → r.previous_hash ≡ h.start
      → IsFirst anchors by_hash r
  first by_hash r absent e = elim (Bool-cases (str_eq r.previous_hash "")) [
    | inl blank ↦ inl ((str_eq_iff r.previous_hash "").0 blank)
    | inr shown ↦ elim h.rooted [
      | inl blank ↦ inl (e ∙ blank)
      | inr (anchored, missing) ↦ inr (
        str_eq_apart r.previous_hash "" shown,
        In→contains r.previous_hash anchors (subst (λ k. In k anchors) (sym e) anchored),
        absent r.previous_hash (subst (λ k. ¬ In k (hashes records)) (sym e) missing),
      )
    ]
  ]

module _ (codec : HashCodec) (anchors : List String) (records : List AuditEventHashRecord)
    (c : AuditEventHashRecord) (cs : List AuditEventHashRecord)
    (h : IsAuditChain codec anchors records (c ∷ cs)) where
  -- A record that follows another names a hash of the log, and is not the first.
  follower_known : (r : AuditEventHashRecord) → In r cs → In r.previous_hash (hashes (c ∷ cs))
  follower_known r i = elim (previous-In c.event_hash cs r h.linked.1 i) [
    | inl e ↦ inl e
    | inr k ↦ inr k
  ]

  first_unknown : (r : AuditEventHashRecord) → r ≡ c → ¬ In r.previous_hash (hashes (c ∷ cs))
  first_unknown r e =
      subst (λ k. ¬ In k (hashes (c ∷ cs))) (sym (ap (λ x. x.previous_hash) e ∙ h.linked.0))
        (start_new_chain codec anchors records (c ∷ cs) h)

  place :
      (by_hash : RecordMap)
      → ((k : String) → ¬ In k (hashes records) → has k by_hash ≡ false)
      → ((k : String) → In k (hashes records) → has k by_hash ≡ true)
      → (r : AuditEventHashRecord) → In r records
      → IsPlaced anchors by_hash c r
  place by_hash absent known r i = elim ((h.same r).1 i) [
    | inl e ↦ inl (
      e,
      first codec anchors records (c ∷ cs) h by_hash r absent
          (ap (λ x. x.previous_hash) e ∙ h.linked.0),
    )
    | inr j ↦
        let inside = follower_known r j in
        inr (
          λ e. first_unknown r e inside,
          (
            λ blank.
                let (s, k, e) =
                  In-map_inverse (λ x. x.event_hash) r.previous_hash (c ∷ cs) inside in
                In_of_All (λ x. x.event_hash ≢ "") (c ∷ cs) s
                  (named_chain codec anchors records (c ∷ cs) h) k (sym e ∙ blank),
            known r.previous_hash
                (hashes-Subset (c ∷ cs) records (λ x. (h.same x).0) r.previous_hash inside),
          ),
        )
  ]

  walk_chain :
      (start l : Linking)
      → start.children ≡ []
      → AreLinked c records start l
      → walk (suc (length records)) l.children c [] ≡ ended (c ∷ cs) true
  walk_chain start l e linked =
      walk_passes l.children (suc (length records)) c cs []
        (omega (arith, length-chain codec anchors records (c ∷ cs) h))
        (Linked-Follows l.children records linked.found
          (λ k n. linked.others k n ∙ ap (lookup k) e ∙ lookup-nil k) h.start c cs h.linked
          (λ r. (h.same r).0) h.distinct_chain (named_chain codec anchors records (c ∷ cs) h)
          (λ r i k. elim ((h.same r).1 i) [
            | inl same ↦ absurd (first_unknown r same k)
            | inr j ↦ j
          ]))
        h.distinct_chain (named_chain codec anchors records (c ∷ cs) h) (λ k i. absurd)

check_chain-nil :
    (codec : HashCodec) (result : AuditEventHashChainVerification) (anchors : List String)
    → check_chain codec result anchors [] ≡ ok result
unfolding check_chain
check_chain-nil codec result anchors = refl

check_chain_steps :
    (codec : HashCodec) (result : AuditEventHashChainVerification) (anchors : List String)
    (r : AuditEventHashRecord) (rs ws : List AuditEventHashRecord) (by_hash : RecordMap)
    (l : Linking)
    → check_hashes codec result (r ∷ rs) [] ≡ ok by_hash
    → link_records by_hash anchors (r ∷ rs) (start_linking result) ≡ ok l
    → l.result.root_count ≡ 1
    → walk (suc (length (r ∷ rs))) l.children l.root [] ≡ ended ws true
    → length ws ≡ length (r ∷ rs)
    → check_chain codec result anchors (r ∷ rs) ≡ ok (record l.result { tail_count = 1 })
unfolding check_chain
check_chain_steps codec result anchors r rs ws by_hash l p q one walked long =
    let test : not (l.result.root_count == 1) ≡ false = ground arith in
    rw (p, q, test, walked) (check_walk_passes l.result (length (r ∷ rs)) ws long)

-- A chain passes, and the status stays the one that the verification began with.
pub check_chain_passes :
    (codec : HashCodec) (result : AuditEventHashChainVerification) (anchors : List String)
    (records chain : List AuditEventHashRecord)
    → result.root_count ≡ 0
    → IsAuditChain codec anchors records chain
    → (result' : AuditEventHashChainVerification) × (check_chain codec result anchors records
        ≡ ok result')
      × (result'.status ≡ result.status)
check_chain_passes codec result anchors [] chain z h =
    (result, check_chain-nil codec result anchors, refl)
check_chain_passes codec result anchors (r ∷ rs) [] z h = absurd ((h.same r).1 (inl refl))
check_chain_passes codec result anchors (r ∷ rs) (c ∷ cs) z h =
    let all = r ∷ rs in
    let (by_hash, p, absent) =
      check_hashes_passes codec result all [] h.genuine h.distinct (λ k i. has-nil k) in
    let checked = check_hashes-AreChecked codec result all [] by_hash p in
    let (l, q, linked) =
      link_records_passes anchors by_hash c all (start_linking result)
        (place codec anchors all c cs h by_hash (λ k n. absent k n (has-nil k)) checked.known)
        (Distinct-map (λ x. x.event_hash) all h.distinct)
        (λ s t i j.
          previous_injective h.start (c ∷ cs) s t h.linked h.distinct_chain
            (start_new_chain codec anchors all (c ∷ cs) h) ((h.same s).1 i) ((h.same t).1 j))
        (λ s i. has-nil s.previous_hash) in
    let (one, root) = linked.rooted ((h.same c).0 (inl refl)) in
    (
      record l.result { tail_count = 1 },
      check_chain_steps codec result anchors r rs (c ∷ cs) by_hash l p q (omega (arith, one, z))
          (rw root (walk_chain codec anchors all c cs h (start_linking result) l refl linked))
          (length-chain codec anchors all (c ∷ cs) h),
      linked.status,
    )
