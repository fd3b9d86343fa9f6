-- ===== src/Audit/Verification/Completeness.antt =====
-- internal/store/postgres/audit_hash_verify.go: the two loops let the records of a chain pass.
use tictick_hi.Base.{
  ◌+◌, String, true, false, ◌≡◌, ◌≢◌, refl, sym, subst, ap, ◌∙◌, ◌⊎◌, inl, inr, some, List, [], ◌∷◌,
  ok, All,
}
use tictick_hi.Base.Members.{In, Distinct}
use tictick_hi.Audit.Hashes.{AuditEventHashRecord, HashCodec}
use tictick_hi.Audit.Verification.{
  AuditEventHashChainVerification, RecordMap, Linking, lookup, contains, has, check_hashes,
  link_record, link_records, with_root, with_child,
}
use tictick_hi.Audit.Verification.Chains.{hashes, IsSealed}
use tictick_hi.Audit.Verification.Maps.{
  str_eq_self, str_eq_ne, has-cons_other, lookup-cons_self, lookup-cons_other, has_of_same,
}

module _ (codec : HashCodec) (result : AuditEventHashChainVerification) where
  pub check_hashes_passes :
      (rs : List AuditEventHashRecord) (m : RecordMap)
      → All (IsSealed codec) rs
      → Distinct (hashes rs)
      → ((h : String) → In h (hashes rs) → has h m ≡ false)
      → (m' : RecordMap) × (check_hashes codec result rs m ≡ ok m')
        × ((h : String) → ¬ In h (hashes rs) → has h m ≡ false → has h m' ≡ false)
  unfolding check_hashes
  check_hashes_passes [] m sealed d fresh = (m, refl, λ h n e. e)
  check_hashes_passes (r ∷ rs) m sealed d fresh =
      let (m', e, others) = check_hashes_passes rs ((r.event_hash, r) ∷ m) sealed.1 d.1 (λ h i.
        has-cons_other h r.event_hash r m (λ p. d.0 (subst (λ x. In x (hashes rs)) p i))
          (fresh h (inr i))) in
      (
        m',
        rw (sealed.0, str_eq_self r.event_hash, fresh r.event_hash (inl refl)) e,
        λ h n absent.
            others h (λ i. n (inr i)) (has-cons_other h r.event_hash r m (λ p. n (inl p)) absent),
      )

-- What the records `rs` of a chain that begins at `c` add to what is linked.
pub record AreLinked (c : AuditEventHashRecord) (rs : List AuditEventHashRecord) (l l' : Linking)
    : Type 0 where
  pub status : l'.result.status ≡ l.result.status
  pub rooted : In c rs → (l'.result.root_count ≡ l.result.root_count + 1) × (l'.root ≡ c)
  pub unrooted : (¬ In c rs) → (l'.result.root_count ≡ l.result.root_count) × (l'.root ≡ l.root)
  pub found :
      (r : AuditEventHashRecord)
      → In r rs
      → r.previous_hash ≢ ""
      → lookup r.previous_hash l'.children ≡ some r
  pub others :
      (k : String)
      → ((r : AuditEventHashRecord) → In r rs → r.previous_hash ≢ k)
      → lookup k l'.children ≡ lookup k l.children

-- The first record of the chain, and the records that follow another one.
abbrev pub IsFirst : List String → RecordMap → AuditEventHashRecord → Type 0
IsFirst anchors by_hash c =
    (c.previous_hash ≡ "")
    ⊎ ((c.previous_hash ≢ "")
        × (contains c.previous_hash anchors ≡ true)
        × (has c.previous_hash by_hash ≡ false))

abbrev pub IsFollower : RecordMap → AuditEventHashRecord → Type 0
IsFollower by_hash r = (r.previous_hash ≢ "") × (has r.previous_hash by_hash ≡ true)

-- Where in the chain a record of it stands.
abbrev pub IsPlaced : List String → RecordMap → AuditEventHashRecord → AuditEventHashRecord → Type 0
IsPlaced anchors by_hash c r =
    ((r ≡ c) × IsFirst anchors by_hash r) ⊎ ((¬ (r ≡ c)) × IsFollower by_hash r)

module _ (anchors : List String) (by_hash : RecordMap) (c : AuditEventHashRecord) where
  -- One record: the root with no predecessor, the root after an anchor, or a follower.
  link_beginning :
      (l : Linking) (r : AuditEventHashRecord)
      → r ≡ c
      → r.previous_hash ≡ ""
      → AreLinked c (r ∷ []) l (with_root l r)
  link_beginning l r e first = record {
    status = refl;
    rooted = λ i. (refl, e);
    unrooted = λ n. absurd (n (inl (sym e)));
    found = λ s i n. elim i [
      | inl p ↦ absurd (n (subst (λ x. x.previous_hash ≡ "") (sym p) first))
      | inr absent ↦ absurd absent
    ];
    others = λ k n. refl;
  }

  found_self :
      (r s : AuditEventHashRecord) (m : RecordMap)
      → In s (r ∷ [])
      → lookup s.previous_hash ((r.previous_hash, r) ∷ m) ≡ some s
  found_self r s m (inl p) =
      subst (λ x. lookup x.previous_hash ((r.previous_hash, r) ∷ m) ≡ some x) (sym p)
        (lookup-cons_self r.previous_hash r m)
  found_self r s m (inr absent) = absurd absent

  link_anchored :
      (l : Linking) (r : AuditEventHashRecord)
      → r ≡ c
      → AreLinked c (r ∷ []) l (with_root (with_child l r) r)
  link_anchored l r e = record {
    status = refl;
    rooted = λ i. (refl, e);
    unrooted = λ n. absurd (n (inl (sym e)));
    found = λ s i n. found_self r s l.children i;
    others = λ k n. lookup-cons_other k r.previous_hash r l.children (n r (inl refl));
  }

  link_follower :
      (l : Linking) (r : AuditEventHashRecord) → ¬ (r ≡ c) → AreLinked c (r ∷ []) l (with_child l r)
  link_follower l r n = record {
    status = refl;
    rooted = λ i. elim i [ inl e ↦ absurd (n (sym e)) | inr absent ↦ absurd absent ];
    unrooted = λ k. (refl, refl);
    found = λ s i k. found_self r s l.children i;
    others = λ k m. lookup-cons_other k r.previous_hash r l.children (m r (inl refl));
  }

  link_record_passes :
      (l : Linking) (r : AuditEventHashRecord)
      → IsPlaced anchors by_hash c r
      → has r.previous_hash l.children ≡ false
      → (l' : Linking) × (link_record by_hash anchors l r ≡ ok l') × AreLinked c (r ∷ []) l l'
  unfolding link_record
  link_record_passes l r (inl (e, inl first)) new =
      (with_root l r, rw (first, str_eq_self "") refl, link_beginning l r e first)
  link_record_passes l r (inl (e, inr (n, anchored, missing))) new = (
    with_root (with_child l r) r,
    rw (str_eq_ne r.previous_hash "" n, new, missing, anchored) refl,
    link_anchored l r e,
  )
  link_record_passes l r (inr (other, (n, known))) new = (
    with_child l r,
    rw (str_eq_ne r.previous_hash "" n, new, known) refl,
    link_follower l r other,
  )

  AreLinked-cons :
      (r : AuditEventHashRecord) (rs : List AuditEventHashRecord) (l l1 l' : Linking)
      → ¬ In r rs
      → ((s : AuditEventHashRecord) → In s rs → s.previous_hash ≢ r.previous_hash)
      → AreLinked c (r ∷ []) l l1
      → AreLinked c rs l1 l'
      → AreLinked c (r ∷ rs) l l'
  AreLinked-cons r rs l l1 l' new apart one more = record {
    status = more.status ∙ one.status;
    rooted = λ i. elim i [
      | inl e ↦
          let first = one.rooted (inl e) in
          let rest = more.unrooted (λ j. new (subst (λ x. In x rs) e j)) in
          (rest.0 ∙ first.0, rest.1 ∙ first.1)
      | inr j ↦
          let rest = more.rooted j in
          let first =
            one.unrooted
              (λ k. elim k [ inl e ↦ new (subst (λ x. In x rs) e j) | inr absent ↦ absent ]) in
          (rest.0 ∙ ap (λ n. n + 1) first.0, rest.1)
    ];
    unrooted = λ n.
        let rest = more.unrooted (λ j. n (inr j)) in
        let first = one.unrooted (λ k. elim k [ inl e ↦ n (inl e) | inr absent ↦ absent ]) in
        (rest.0 ∙ first.0, rest.1 ∙ first.1);
    found = λ s i n. elim i [
      | inl e ↦
          subst (λ x. lookup x.previous_hash l'.children ≡ some x) (sym e)
            (more.others r.previous_hash apart
              ∙ one.found r (inl refl) (subst (λ x. x.previous_hash ≢ "") e n))
      | inr j ↦ more.found s j n
    ];
    others = λ k n.
        more.others k (λ s j. n s (inr j))
        ∙ one.others k (λ s j. elim j [ inl e ↦ n s (inl e) | inr absent ↦ absurd absent ]);
  }

  pub link_records_passes :
      (rs : List AuditEventHashRecord) (l : Linking)
      → ((r : AuditEventHashRecord) → In r rs → IsPlaced anchors by_hash c r)
      → Distinct rs
      → ((r s : AuditEventHashRecord)
          → In r rs
          → In s rs
          → r.previous_hash ≡ s.previous_hash
          → r ≡ s)
      → ((r : AuditEventHashRecord) → In r rs → has r.previous_hash l.children ≡ false)
      → (l' : Linking) × (link_records by_hash anchors rs l ≡ ok l') × AreLinked c rs l l'
  unfolding link_records
  link_records_passes [] l placed d once new = (
    l,
    refl,
    record {
      status = refl;
      rooted = λ i. absurd i;
      unrooted = λ n. (refl, refl);
      found = λ r i n. absurd i;
      others = λ k n. refl;
    },
  )
  link_records_passes (r ∷ rs) l placed d once new =
      let (l1, e, one) = link_record_passes l r (placed r (inl refl)) (new r (inl refl)) in
      let apart =
        λ (s : AuditEventHashRecord) (j : In s rs) (p : s.previous_hash ≡ r.previous_hash).
          d.0 (subst (λ x. In x rs) (once s r (inr j) (inl refl) p) j) in
      let unseen = λ (s : AuditEventHashRecord) (j : In s rs).
        has_of_same s.previous_hash l1.children l.children (
          one.others s.previous_hash (λ t k. elim k [
            | inl p ↦ λ q. apart s j (sym q ∙ ap (λ x. x.previous_hash) p)
            | inr absent ↦ absurd absent
          ]))
        ∙ new s (inr j) in
      let (l', e', more) =
        link_records_passes rs l1 (λ s j. placed s (inr j)) d.1
          (λ s t j k. once s t (inr j) (inr k)) unseen in
      (l', rw e e', AreLinked-cons r rs l l1 l' d.0 apart one more)
