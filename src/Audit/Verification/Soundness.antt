-- ===== src/Audit/Verification/Soundness.antt =====
-- internal/store/postgres/audit_hash_verify.go: a log that is not found to be broken is one chain.
use tictick_hi.Base.{
  String, Bool, not, true, false, ◌≡◌, refl, subst, ◌⊎◌, inl, inr, List, [], ◌∷◌, ok, refuse_if,
  >>=-eq-ok, ok-injective, Bool-cases, Result-cases, arith, str_eq, str_eq_iff, All,
}
use tictick_hi.Base.Members.{In, Distinct, Subset}
use tictick_hi.Audit.Hashes.{AuditEventHashRecord, HashCodec, recompute_audit_event_hash}
use tictick_hi.Audit.Verification.{
  AuditEventHashChainVerification, RecordMap, Linking, lookup, contains, has, check_hashes,
  link_record, link_records, or_hash_error, start_linking,
}
use tictick_hi.Audit.Verification.Walking.{AreChildren}
use tictick_hi.Audit.Verification.Chains.{hashes, IsSealed}
use tictick_hi.Audit.Verification.Maps.{has-cons, has-cons_self, has_of_cons}

-- `refuse_if` that lets the code go on.
pub passed_of_refuse {κ} :
    {E : Type κ} (b : Bool) (e : E) {u : Unit {0}} → refuse_if b e ≡ ok u → b ≡ false
passed_of_refuse true e h = cc
passed_of_refuse false e h = refl

pub record AreChecked (codec : HashCodec) (rs : List AuditEventHashRecord) (m m' : RecordMap)
    : Type 0 where
  pub genuine : All (IsSealed codec) rs
  pub distinct : Distinct (hashes rs)
  pub fresh : (h : String) → In h (hashes rs) → has h m ≡ false
  pub kept : (h : String) → has h m ≡ true → has h m' ≡ true
  pub known : (h : String) → In h (hashes rs) → has h m' ≡ true

module _ (codec : HashCodec) (result : AuditEventHashChainVerification) where
  IsSealed-expected :
      (r : AuditEventHashRecord) {expected : String}
      → or_hash_error result r (recompute_audit_event_hash codec r) ≡ ok expected
      → not (str_eq r.event_hash expected) ≡ false
      → IsSealed codec r
  IsSealed-expected r {expected} h e = elim (Result-cases (recompute_audit_event_hash codec r)) [
    | inl (failed, p) ↦ cc (rw p at h)
    | inr (hash, p) ↦
        let same : hash ≡ expected = ok-injective (rw p at h) in
        let shown : r.event_hash ≡ expected = ground (arith, str_eq_iff r.event_hash expected) in cc
  ]

  pub check_hashes-AreChecked :
      (rs : List AuditEventHashRecord) (m m' : RecordMap)
      → check_hashes codec result rs m ≡ ok m'
      → AreChecked codec rs m m'
  unfolding check_hashes
  check_hashes-AreChecked [] m m' h = record {
    genuine = tt;
    distinct = tt;
    fresh = λ k. absurd;
    kept = λ k e. subst (λ n. has k n ≡ true) (ok-injective h) e;
    known = λ k. absurd;
  }
  check_hashes-AreChecked (r ∷ rs) m m' h =
      let (expected, p, h1) =
        >>=-eq-ok (or_hash_error result r (recompute_audit_event_hash codec r)) _ h in
      let (u, q, h2) = >>=-eq-ok (refuse_if (not (str_eq r.event_hash expected)) _) _ h1 in
      let (v, s, h3) = >>=-eq-ok (refuse_if (has r.event_hash m) _) _ h2 in
      let rest = check_hashes-AreChecked rs ((r.event_hash, r) ∷ m) m' h3 in
      let apart =
        λ (k : String) (i : In k (hashes rs)). has_of_cons k r.event_hash r m (rest.fresh k i) in
      let new = passed_of_refuse (has r.event_hash m) _ s in
      record {
        genuine = (IsSealed-expected r p (passed_of_refuse _ _ q), rest.genuine);
        distinct = (λ i. (apart r.event_hash i).0 refl, rest.distinct);
        fresh = λ k. λ i. elim i [ inl e ↦ rw e new | inr j ↦ (apart k j).1 ];
        kept = λ k e. rest.kept k (has-cons k r.event_hash r m e);
        known = λ k i. elim i [
          | inl e ↦ rw e (rest.kept r.event_hash (has-cons_self r r.event_hash m))
          | inr j ↦ rest.known k j
        ];
      }

pub record IsLinking (rs : List AuditEventHashRecord) (anchors : List String) (by_hash : RecordMap)
    (l : Linking) : Type 0 where
  pub are_children : AreChildren rs l.children
  pub rooted :
      (l.result.root_count ≡ 0)
      ⊎ (In l.root rs
          × ((l.root.previous_hash ≡ "")
              ⊎ ((contains l.root.previous_hash anchors ≡ true)
                  × (has l.root.previous_hash by_hash ≡ false))))

pub start_linking-IsLinking :
    (all : List AuditEventHashRecord) (anchors : List String) (by_hash : RecordMap)
    (result : AuditEventHashChainVerification)
    → result.root_count ≡ 0
    → IsLinking all anchors by_hash (start_linking result)
unfolding lookup
start_linking-IsLinking all anchors by_hash result z = record {
  are_children = λ k s e. absurd (ground arith);
  rooted = inl z;
}

module _ (all : List AuditEventHashRecord) (anchors : List String) (by_hash : RecordMap) where
  AreChildren-cons :
      (r : AuditEventHashRecord) (m : RecordMap)
      → In r all
      → AreChildren all m
      → AreChildren all ((r.previous_hash, r) ∷ m)
  unfolding lookup
  AreChildren-cons r m i are k s h = elim (Bool-cases (str_eq r.previous_hash k)) [
    | inl e ↦
        let same : r ≡ s = ground arith in
        (
          subst (λ x. In x all) same i,
          subst (λ x. x.previous_hash ≡ k) same ((str_eq_iff r.previous_hash k).0 e),
        )
    | inr n ↦ are k s (ground arith)
  ]

  link_record-IsLinking :
      (l l' : Linking) (r : AuditEventHashRecord)
      → In r all
      → IsLinking all anchors by_hash l
      → link_record by_hash anchors l r ≡ ok l'
      → IsLinking all anchors by_hash l'
  unfolding link_record
  link_record-IsLinking l l' r i h e =
      let with_it = AreChildren-cons r l.children i h.are_children in
      elim (Bool-cases (str_eq r.previous_hash "")) [
        | inl first ↦ subst (IsLinking all anchors by_hash) (ok-injective (rw first at e)) (record {
          are_children = h.are_children;
          rooted = inr (i, inl ((str_eq_iff r.previous_hash "").0 first));
        })
        | inr later ↦ elim (Bool-cases (has r.previous_hash l.children)) [
          | inl forks ↦ cc (rw (later, forks) at e)
          | inr new ↦ elim (Bool-cases (has r.previous_hash by_hash)) [
            | inl known ↦
                subst (IsLinking all anchors by_hash) (ok-injective (rw (later, new, known) at e))
                  (record { are_children = with_it; rooted = h.rooted })
            | inr missing ↦ elim (Bool-cases (contains r.previous_hash anchors)) [
              | inl anchored ↦
                  subst (IsLinking all anchors by_hash)
                    (ok-injective (rw (later, new, missing, anchored) at e))
                    (record { are_children = with_it; rooted = inr (i, inr (anchored, missing)) })
              | inr lost ↦ cc (rw (later, new, missing, lost) at e)
            ]
          ]
        ]
      ]

  pub link_records-IsLinking :
      (rs : List AuditEventHashRecord) (l l' : Linking)
      → Subset rs all
      → IsLinking all anchors by_hash l
      → link_records by_hash anchors rs l ≡ ok l'
      → IsLinking all anchors by_hash l'
  unfolding link_records
  link_records-IsLinking [] l l' s h e = subst (IsLinking all anchors by_hash) (ok-injective e) h
  link_records-IsLinking (r ∷ rs) l l' s h e =
      let (next, p, e1) = >>=-eq-ok (link_record by_hash anchors l r) _ e in
      link_records-IsLinking rs next l' (λ a i. s a (inr i))
        (link_record-IsLinking l next r (s r (inl refl)) h p) e1
