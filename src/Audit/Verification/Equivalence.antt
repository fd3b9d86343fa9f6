-- ===== src/Audit/Verification/Equivalence.antt =====
-- internal/store/postgres/audit_hash_verify.go: exactly the logs that are one chain pass.
use tictick_hi.Base.{
  ℕ, suc, ◌≤◌, String, not, true, false, ◌≡◌, ◌≢◌, refl, sym, subst, ap, inl, inr, List, [], ◌∷◌,
  ok, refuse_if, >>=-eq-ok, arith, length, ◌==◌,
}
use tictick_hi.Base.Members.{
  In, Distinct, Subset, In-map, In-map_inverse, In_of_full, length-le_of_Distinct, eq_of_key,
  All_of_In, In_of_All,
}
use tictick_hi.Audit.Hashes.{AuditEventHashRecord, HashCodec}
use tictick_hi.Audit.Verification.{
  AuditEventHashChainVerification, RecordMap, Linking, Walk, ended, cycle, exhausted, check_hashes,
  link_records, walk, check_walk, check_chain, start_linking, not_one_root,
  failed_audit_event_hash_verification,
}
use tictick_hi.Audit.Verification.Chains.{hashes, IsRooted, IsAuditChain}
use tictick_hi.Audit.Verification.Maps.{contains→In, String-discrete}
use tictick_hi.Audit.Verification.Walking.{walk-IsWalk}
use tictick_hi.Audit.Verification.Soundness.{
  AreChecked, IsLinking, start_linking-IsLinking, check_hashes-AreChecked, link_records-IsLinking,
  passed_of_refuse,
}

length-map : (rs : List AuditEventHashRecord) → length (hashes rs) ≡ length rs
length-map [] = refl
length-map (r ∷ rs) = ap suc (length-map rs)

pub hashes-Subset :
    (ws rs : List AuditEventHashRecord) → Subset ws rs → Subset (hashes ws) (hashes rs)
hashes-Subset ws rs s h i =
    let (r, k, e) = In-map_inverse (λ r. r.event_hash) h ws i in
    subst (λ x. In x (hashes rs)) (sym e) (In-map (λ r. r.event_hash) r rs (s r k))

-- A walk as long as the log passes every record of it.
full-Subset :
    (ws rs : List AuditEventHashRecord)
    → Distinct (hashes ws)
    → Distinct (hashes rs)
    → Subset ws rs
    → length ws ≡ length rs
    → Subset rs ws
full-Subset ws rs d k s e r i =
    let full : length (hashes rs) ≤ length (hashes ws) =
      omega (arith, length-map ws, length-map rs) in
    let passed =
      In_of_full String-discrete (hashes ws) (hashes rs) d (hashes-Subset ws rs s) full r.event_hash
        (In-map (λ x. x.event_hash) r rs i) in
    let (w, j, same) = In-map_inverse (λ x. x.event_hash) r.event_hash ws passed in
    subst (λ x. In x ws) (eq_of_key (λ x. x.event_hash) w r rs k (s w j) i (sym same)) j

check_walk-ended :
    (result result' : AuditEventHashChainVerification) (count : ℕ) (w : Walk)
    → check_walk result count w ≡ ok result'
    → (ws : List AuditEventHashRecord) × (w ≡ ended ws true) × (length ws ≡ count)
unfolding check_walk
check_walk-ended result result' count exhausted h = absurd (ground arith)
check_walk-ended result result' count (cycle r) h = absurd (ground arith)
check_walk-ended result result' count (ended ws true) h = (ws, refl, ground arith)
check_walk-ended result result' count (ended ws false) h = absurd (ground arith)

module _ (codec : HashCodec) (anchors : List String) where
  IsRooted-linking :
      (rs : List AuditEventHashRecord) (by_hash : RecordMap) (l : Linking)
      → AreChecked codec rs [] by_hash
      → IsLinking rs anchors by_hash l
      → l.result.root_count ≡ 1
      → In l.root rs × IsRooted anchors (hashes rs) l.root.previous_hash
  IsRooted-linking rs by_hash l c h one = elim h.rooted [
    | inl zero_roots ↦ absurd (omega arith)
    | inr (i, inl first) ↦ (i, inl first)
    | inr (i, inr (anchored, missing)) ↦ (
      i,
      inr (
        contains→In l.root.previous_hash anchors anchored,
        λ k. cc (c.known l.root.previous_hash k),
      ),
    )
  ]

  -- What the steps of a verification that succeeds have found.
  pub record Steps (result : AuditEventHashChainVerification) (all : List AuditEventHashRecord)
      : Type 0 where
    pub by_hash : RecordMap
    pub linking : Linking
    pub passed : List AuditEventHashRecord
    pub checked : check_hashes codec result all [] ≡ ok by_hash
    pub linked : link_records by_hash anchors all (start_linking result) ≡ ok linking
    pub one_root : linking.result.root_count ≡ 1
    pub walked : walk (suc (length all)) linking.children linking.root [] ≡ ended passed true
    pub complete : length passed ≡ length all

  pub check_chain-Steps :
      (result result' : AuditEventHashChainVerification) (r : AuditEventHashRecord)
      (rs : List AuditEventHashRecord)
      → check_chain codec result anchors (r ∷ rs) ≡ ok result'
      → Steps result (r ∷ rs)
  unfolding check_chain
  check_chain-Steps result result' r rs h =
      let all = r ∷ rs in
      let (by_hash, p, h1) = >>=-eq-ok (check_hashes codec result all []) _ h in
      let (l, q, h2) = >>=-eq-ok (link_records by_hash anchors all (start_linking result)) _ h1 in
      let broken = failed_audit_event_hash_verification l.result "" not_one_root in
      let (u, one, h3) = >>=-eq-ok (refuse_if (not (l.result.root_count == 1)) broken) _ h2 in
      let counted = passed_of_refuse (not (l.result.root_count == 1)) broken one in
      let (ws, walked, long) = check_walk-ended l.result result' (length all) _ h3 in
      record {
        by_hash = by_hash;
        linking = l;
        passed = ws;
        checked = p;
        linked = q;
        one_root = ground arith;
        walked = walked;
        complete = long;
      }

  pub Steps-IsAuditChain :
      (result : AuditEventHashChainVerification) (all : List AuditEventHashRecord)
      → result.root_count ≡ 0
      → (s : Steps result all) → IsAuditChain codec anchors all s.passed
  Steps-IsAuditChain result all z s =
      let checked = check_hashes-AreChecked codec result all [] s.by_hash s.checked in
      let linked =
        link_records-IsLinking all anchors s.by_hash all (start_linking result) s.linking (λ a i. i)
          (start_linking-IsLinking all anchors s.by_hash result z) s.linked in
      let (within, rooted) = IsRooted-linking all s.by_hash s.linking checked linked s.one_root in
      let passed =
        walk-IsWalk s.linking.children all (suc (length all)) s.linking.root [] s.passed
          linked.are_children within s.walked in
      let back =
        full-Subset s.passed all passed.distinct checked.distinct passed.inside s.complete in
      record {
        start = s.linking.root.previous_hash;
        rooted = rooted;
        linked = passed.linked;
        named =
            All_of_In (λ x. x.event_hash ≢ "") all
              (λ a i. In_of_All (λ x. x.event_hash ≢ "") s.passed a passed.named (back a i));
        same = λ a. (passed.inside a, back a);
        distinct = checked.distinct;
        distinct_chain = passed.distinct;
        genuine = checked.genuine;
      }

  -- A verification that succeeds has found the chain.
  pub check_chain-IsAuditChain :
      (result result' : AuditEventHashChainVerification) (records : List AuditEventHashRecord)
      → result.root_count ≡ 0
      → check_chain codec result anchors records ≡ ok result'
      → (chain : List AuditEventHashRecord) × IsAuditChain codec anchors records chain
  check_chain-IsAuditChain result result' [] z h = (
    [],
    record {
      start = "";
      rooted = inl refl;
      linked = tt;
      named = tt;
      same = λ r. (λ i. i, λ i. i);
      distinct = tt;
      distinct_chain = tt;
      genuine = tt;
    },
  )
  check_chain-IsAuditChain result result' (r ∷ rs) z h =
      let steps = check_chain-Steps result result' r rs h in
      (steps.passed, Steps-IsAuditChain result (r ∷ rs) z steps)

-- The records of a chain are as many as those of the log.
pub length-chain :
    (codec : HashCodec) (anchors : List String) (records chain : List AuditEventHashRecord)
    → IsAuditChain codec anchors records chain
    → length chain ≡ length records
length-chain codec anchors records chain h = omega (
  arith,
  length-le_of_Distinct (hashes chain) (hashes records) h.distinct_chain
      (hashes-Subset chain records (λ r. (h.same r).0)),
  length-le_of_Distinct (hashes records) (hashes chain) h.distinct
      (hashes-Subset records chain (λ r. (h.same r).1)),
  length-map chain,
  length-map records,
)

pub check_walk_passes :
    (result : AuditEventHashChainVerification) (count : ℕ) (ws : List AuditEventHashRecord)
    → length ws ≡ count
    → check_walk result count (ended ws true) ≡ ok (record result { tail_count = 1 })
unfolding check_walk
check_walk_passes result count ws h = ground arith
