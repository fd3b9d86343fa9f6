-- ===== src/Audit/Pruning/Kept.antt =====
-- internal/store/postgres/audit_retention_store.go: what is left of a chain when its oldest records
-- are deleted and the hash of the last of them is kept.
use tictick_hi.Base.{
  ℕ, ◌<◌, String, ◌≡◌, ◌≢◌, refl, sym, subst, ap, inl, inr, List, [], ◌∷◌, ◌++◌, map, Bool-cases,
  arith, length, drop, last_or, All, ltb,
}
use tictick_hi.Base.Members.{
  In, Distinct, In-map, In-map_inverse, In-append, In-append_left, In-append_right, eq_of_key,
  All_of_In, In_of_All,
}
use tictick_hi.Audit.Hashes.{AuditEventHashRecord, HashCodec}
use tictick_hi.Audit.Verification.{contains}
use tictick_hi.Audit.Verification.Chains.{hashes, IsSealed, Linked, IsAuditChain}
use tictick_hi.Audit.Verification.Maps.{contains→In, contains-false}
use tictick_hi.Audit.Retention.{before_cutoff}
use tictick_hi.Audit.Pruning.{delete_ids}

abbrev pub ids : List AuditEventHashRecord → List String
ids = map (λ r. r.id)

-- Deletion keeps the records whose id is not listed.
pub In-delete_ids :
    (gone : List String) (r : AuditEventHashRecord) (rs : List AuditEventHashRecord)
    → In r (delete_ids gone rs)
    → In r rs × (¬ In r.id gone)
unfolding delete_ids
In-delete_ids gone r [] i = absurd i
In-delete_ids gone r (x ∷ xs) i = elim (Bool-cases (contains x.id gone)) [
  | inl listed ↦ let (j, n) = In-delete_ids gone r xs (rw listed at i) in (inr j, n)
  | inr kept ↦ elim (let k : In r (x ∷ delete_ids gone xs) = rw kept at i in k) [
    | inl e ↦ (inl e, subst (λ y. ¬ In y.id gone) (sym e) (contains-false x.id gone kept))
    | inr j ↦ let (k, n) = In-delete_ids gone r xs j in (inr k, n)
  ]
]

pub In-delete_ids_inverse :
    (gone : List String) (r : AuditEventHashRecord) (rs : List AuditEventHashRecord)
    → In r rs
    → ¬ In r.id gone
    → In r (delete_ids gone rs)
unfolding delete_ids
In-delete_ids_inverse gone r [] i n = absurd i
In-delete_ids_inverse gone r (x ∷ xs) i n = elim (Bool-cases (contains x.id gone)) [
  | inl listed ↦ elim i [
    | inl e ↦ absurd (n (subst (λ y. In y.id gone) (sym e) (contains→In x.id gone listed)))
    | inr j ↦ rw listed (In-delete_ids_inverse gone r xs j n)
  ]
  | inr kept ↦ elim i [
    | inl e ↦ rw kept (inl e)
    | inr j ↦ rw kept (inr (In-delete_ids_inverse gone r xs j n))
  ]
]

Distinct-delete_ids :
    (gone : List String) (rs : List AuditEventHashRecord)
    → Distinct (hashes rs)
    → Distinct (hashes (delete_ids gone rs))
unfolding delete_ids
Distinct-delete_ids gone [] d = tt
Distinct-delete_ids gone (x ∷ xs) d = elim (Bool-cases (contains x.id gone)) [
  | inl listed ↦ rw listed (Distinct-delete_ids gone xs d.1)
  | inr kept ↦ rw kept (
    λ i.
        let (r, j, e) = In-map_inverse (λ y. y.event_hash) x.event_hash (delete_ids gone xs) i in
        d.0 (
          subst (λ h. In h (hashes xs)) (sym e)
            (In-map (λ y. y.event_hash) r xs (In-delete_ids gone r xs j).0)),
    Distinct-delete_ids gone xs d.1,
  )
]

Linked-after :
    (s : String) (p : AuditEventHashRecord) (ps rest : List AuditEventHashRecord)
    → Linked s ((p ∷ ps) ++ rest)
    → Linked (last_or p ps).event_hash rest
Linked-after s p [] rest h = h.1
Linked-after s p (q ∷ qs) rest h = Linked-after p.event_hash q qs rest h.1

Distinct-after :
    (ps rest : List AuditEventHashRecord) → Distinct (hashes (ps ++ rest)) → Distinct (hashes rest)
Distinct-after [] rest d = d
Distinct-after (p ∷ ps) rest d = Distinct-after ps rest d.1

Distinct-apart :
    (ps rest : List AuditEventHashRecord) (r : AuditEventHashRecord)
    → Distinct (hashes (ps ++ rest))
    → In r ps
    → ¬ In r rest
Distinct-apart [] rest r d i j = i
Distinct-apart (p ∷ ps) rest r d (inl e) j = d.0 (
    In-map (λ x. x.event_hash) p (ps ++ rest)
      (In-append_right p ps rest (subst (λ x. In x rest) e j)))
Distinct-apart (p ∷ ps) rest r d (inr i) j = Distinct-apart ps rest r d.1 i j

last-In : (p : AuditEventHashRecord) (ps : List AuditEventHashRecord) → In (last_or p ps) (p ∷ ps)
last-In p [] = inl refl
last-In p (q ∷ qs) = inr (last-In q qs)

pub before_cutoff-append :
    (cutoff : ℕ) (rs : List AuditEventHashRecord)
    → before_cutoff cutoff rs ++ drop (length (before_cutoff cutoff rs)) rs ≡ rs
before_cutoff-append cutoff [] = refl
before_cutoff-append cutoff (r ∷ rs) = elim (Bool-cases (ltb r.created_at cutoff)) [
  | inl old ↦ rw old (ap (λ l. r ∷ l) (before_cutoff-append cutoff rs))
  | inr young ↦ rw young refl
]

pub before_cutoff-lt :
    (cutoff : ℕ) (rs : List AuditEventHashRecord)
    → All (λ r. r.created_at < cutoff) (before_cutoff cutoff rs)
before_cutoff-lt cutoff [] = tt
before_cutoff-lt cutoff (r ∷ rs) = elim (Bool-cases (ltb r.created_at cutoff)) [
  | inl old ↦ rw old (ground arith, before_cutoff-lt cutoff rs)
  | inr young ↦ rw young tt
]

module _ (codec : HashCodec) (anchors : List String) (records : List AuditEventHashRecord)
    (p : AuditEventHashRecord) (ps rest : List AuditEventHashRecord)
    (unique : Distinct (ids records))
    (h : IsAuditChain codec anchors records ((p ∷ ps) ++ rest)) where
  -- A record of the log that is left is one after those that are deleted.
  rest_of_kept : (r : AuditEventHashRecord) → In r (delete_ids (ids (p ∷ ps)) records) → In r rest
  rest_of_kept r i =
      let (j, kept) = In-delete_ids (ids (p ∷ ps)) r records i in
      elim (In-append r (p ∷ ps) rest ((h.same r).1 j)) [
        | inl gone ↦ absurd (kept (In-map (λ x. x.id) r (p ∷ ps) gone))
        | inr k ↦ k
      ]

  kept_of_rest : (r : AuditEventHashRecord) → In r rest → In r (delete_ids (ids (p ∷ ps)) records)
  kept_of_rest r i =
      let j = (h.same r).0 (In-append_right r (p ∷ ps) rest i) in
      In-delete_ids_inverse (ids (p ∷ ps)) r records j (λ listed.
        let (q, k, e) = In-map_inverse (λ x. x.id) r.id (p ∷ ps) listed in
        let there = (h.same q).0 (In-append_left q (p ∷ ps) rest k) in
        let equal = eq_of_key (λ x. x.id) q r records unique there j (sym e) in
        Distinct-apart (p ∷ ps) rest q h.distinct_chain k (subst (λ x. In x rest) (sym equal) i))

  anchor_gone : ¬ In (last_or p ps).event_hash (hashes (delete_ids (ids (p ∷ ps)) records))
  anchor_gone i =
      let (r, j, e) =
        In-map_inverse (λ x. x.event_hash) (last_or p ps).event_hash
          (delete_ids (ids (p ∷ ps)) records) i in
      let (k, kept) = In-delete_ids (ids (p ∷ ps)) r records j in
      let last = last-In p ps in
      let there = (h.same (last_or p ps)).0 (In-append_left (last_or p ps) (p ∷ ps) rest last) in
      let equal = eq_of_key (λ x. x.event_hash) (last_or p ps) r records h.distinct there k e in
      kept (
        subst (λ x. In x.id (ids (p ∷ ps))) equal (In-map (λ x. x.id) (last_or p ps) (p ∷ ps) last))

  -- The records that are left are one chain again, which begins after the kept hash.
  pub kept-IsAuditChain :
      IsAuditChain codec
        ((last_or p ps).event_hash ∷ anchors)
        (delete_ids (ids (p ∷ ps)) records)
        rest
  kept-IsAuditChain =
      let left = delete_ids (ids (p ∷ ps)) records in
      record {
        start = (last_or p ps).event_hash;
        rooted = inr (inl refl, anchor_gone);
        linked = Linked-after h.start p ps rest h.linked;
        named =
            All_of_In (λ r. r.event_hash ≢ "") left
              (λ r i.
                In_of_All (λ r. r.event_hash ≢ "") records r h.named
                  (In-delete_ids (ids (p ∷ ps)) r records i).0);
        same = λ r. (kept_of_rest r, rest_of_kept r);
        distinct = Distinct-delete_ids (ids (p ∷ ps)) records h.distinct;
        distinct_chain = Distinct-after (p ∷ ps) rest h.distinct_chain;
        genuine = All_of_In (IsSealed codec) left (λ r i.
            In_of_All (IsSealed codec) records r h.genuine
              (In-delete_ids (ids (p ∷ ps)) r records i).0);
      }
