-- ===== src/Audit/Retention/Ordering.antt =====
-- internal/store/postgres/audit_retention_store.go: `orderAuditEventHashRecords` after a verification
-- that found nothing broken.
use tictick_hi.Base.{
  ℕ, not, true, false, String, ◌≡◌, refl, subst, inl, List, [], ◌∷◌, ok, refuse_if, >>=-eq-ok,
  arith, length, str_eq, ◌==◌,
}
use tictick_hi.Audit.Hashes.{AuditEventHashRecord, HashCodec, recompute_audit_event_hash}
use tictick_hi.Audit.Verification.{
  AuditEventHashChainVerification, RecordMap, Linking, ended, or_hash_error, has, check_hashes,
  link_record, link_records, start_linking, check_chain, zero_record,
}
use tictick_hi.Audit.Verification.Chains.{IsAuditChain}
use tictick_hi.Audit.Verification.Equivalence.{Steps, Steps-IsAuditChain, check_chain-Steps}
use tictick_hi.Audit.Retention.{
  order_record, order_maps, order_root, order_roots, ordered_walk, order_audit_event_hash_records,
}

module _ (by_hash : RecordMap) (anchors : List String) where
  -- A record that is linked is ordered, with the same child and the same root.
  order_record_of_link :
      (l l' : Linking) (r : AuditEventHashRecord) (m : RecordMap)
      → link_record by_hash anchors l r ≡ ok l'
      → order_record r m l.children ≡ ok ((r.event_hash, r) ∷ m, l'.children)
  unfolding link_record order_record
  order_record_of_link l l' r m h = ground arith

  order_root_of_link :
      (l l' : Linking) (r : AuditEventHashRecord)
      → link_record by_hash anchors l r ≡ ok l'
      → order_root by_hash anchors r (l.root, l.result.root_count)
        ≡ ok (l'.root, l'.result.root_count)
  unfolding link_record order_root
  order_root_of_link l l' r h = ground arith

  order_maps_of_links :
      (codec : HashCodec) (result : AuditEventHashChainVerification)
      (rs : List AuditEventHashRecord) (l l' : Linking) (m m' : RecordMap)
      → check_hashes codec result rs m ≡ ok m'
      → link_records by_hash anchors rs l ≡ ok l'
      → order_maps rs m l.children ≡ ok (m', l'.children)
  unfolding check_hashes link_records order_maps
  order_maps_of_links codec result [] l l' m m' c h = ground arith
  order_maps_of_links codec result (r ∷ rs) l l' m m' c h =
      let (expected, c0, c1) =
        >>=-eq-ok (or_hash_error result r (recompute_audit_event_hash codec r)) _ c in
      let (u, c2, c3) = >>=-eq-ok (refuse_if (not (str_eq r.event_hash expected)) _) _ c1 in
      let (v, c4, c5) = >>=-eq-ok (refuse_if (has r.event_hash m) _) _ c3 in
      let (next, p, h1) = >>=-eq-ok (link_record by_hash anchors l r) _ h in
      rw (order_record_of_link l next r m p)
        (order_maps_of_links codec result rs next l' ((r.event_hash, r) ∷ m) m' c5 h1)

  order_roots_of_links :
      (rs : List AuditEventHashRecord) (l l' : Linking)
      → link_records by_hash anchors rs l ≡ ok l'
      → order_roots by_hash anchors rs (l.root, l.result.root_count)
        ≡ ok (l'.root, l'.result.root_count)
  unfolding link_records order_roots
  order_roots_of_links [] l l' h = ground arith
  order_roots_of_links (r ∷ rs) l l' h =
      let (next, p, h1) = >>=-eq-ok (link_record by_hash anchors l r) _ h in
      rw (order_root_of_link l next r p) (order_roots_of_links rs next l' h1)

ordered_walk_full :
    (count : ℕ) (ws : List AuditEventHashRecord)
    → length ws ≡ count
    → ordered_walk count (ended ws true) ≡ ok ws
unfolding ordered_walk
ordered_walk_full count ws h = ground arith

order_of_Steps :
    (codec : HashCodec) (result : AuditEventHashChainVerification) (anchors : List String)
    (r : AuditEventHashRecord) (rs : List AuditEventHashRecord)
    → result.root_count ≡ 0
    → (s : Steps codec anchors result (r ∷ rs))
    → order_audit_event_hash_records (r ∷ rs) anchors ≡ ok s.passed
unfolding order_audit_event_hash_records
order_of_Steps codec result anchors r rs z s =
    let all = r ∷ rs in
    let maps =
      order_maps_of_links s.by_hash anchors codec result all (start_linking result) s.linking []
        s.by_hash s.checked s.linked in
    let roots =
      order_roots_of_links s.by_hash anchors all (start_linking result) s.linking s.linked in
    let from_zero : order_roots s.by_hash anchors all (zero_record, 0)
        ≡ ok (s.linking.root, s.linking.result.root_count) =
      subst
        (λ n.
          order_roots s.by_hash anchors all (zero_record, n)
          ≡ ok (s.linking.root, s.linking.result.root_count))
        z roots in
    let test : not (s.linking.result.root_count == 1) ≡ false =
      let one = s.one_root in ground arith in
    rw (maps, from_zero, test, s.walked) (ordered_walk_full (length all) s.passed s.complete)

-- A log that passes the check is ordered without an error, as its chain.
pub order_of_check_chain :
    (codec : HashCodec) (result result' : AuditEventHashChainVerification) (anchors : List String)
    (records : List AuditEventHashRecord)
    → result.root_count ≡ 0
    → check_chain codec result anchors records ≡ ok result'
    → (chain : List AuditEventHashRecord) × (order_audit_event_hash_records records anchors
        ≡ ok chain)
      × IsAuditChain codec anchors records chain
unfolding order_audit_event_hash_records
order_of_check_chain codec result result' anchors [] z h = (
  [],
  refl,
  record {
    start = "";
    rooted = inl refl;
    linked = tt;
    named = tt;
    same = λ r. (λ i. i, λ i. i);
    distinct = tt;
    distinct_chain = tt;
    genuine = tt;
  },
)
order_of_check_chain codec result result' anchors (r ∷ rs) z h =
    let s = check_chain-Steps codec anchors result result' r rs h in
    (
      s.passed,
      order_of_Steps codec result anchors r rs z s,
      Steps-IsAuditChain codec anchors result (r ∷ rs) z s,
    )
