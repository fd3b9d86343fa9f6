-- ===== src/Audit/Recording/Growing.antt =====
-- internal/store/postgres/audit_store.go: recording an event keeps the log one chain.
use tictick_hi.Base.{
  String, true, false, ◌≡◌, ◌≢◌, sym, subst, ap, ◌∙◌, ◌⊎◌, inl, inr, List, [], ◌∷◌, ◌++◌,
  Bool-cases, All, last_or,
}
use tictick_hi.Base.Members.{
  In, Distinct, In-append, In-append_left, In-append_right, In-map, In-map_inverse, All_of_In,
  In_of_All,
}
use tictick_hi.Audit.Hashes.{AuditEventHashRecord, HashCodec}
use tictick_hi.Audit.Verification.{zero_record}
use tictick_hi.Audit.Verification.Chains.{hashes, IsSealed, Linked, IsRooted, IsAuditChain}
use tictick_hi.Audit.Verification.Passing.{start_new_chain}
use tictick_hi.Audit.Recording.{is_named, tails, audit_event_chain_tail_hash, row_lt, insert_row}
use tictick_hi.Audit.Recording.Appending.{
  is_named-In, In-is_named, tails-In, In-tails, last_or-In, last_or-In_of_some, last_of_unnamed,
  last_unnamed,
}

-- A row is listed once among the others.
pub In-insert_row :
    (s r : AuditEventHashRecord) (rs : List AuditEventHashRecord)
    → In s (insert_row r rs)
    → (s ≡ r) ⊎ In s rs
unfolding insert_row
In-insert_row s r [] (inl e) = inl e
In-insert_row s r [] (inr i) = absurd i
In-insert_row s r (x ∷ xs) i = elim (Bool-cases (row_lt r x)) [
  | inl before ↦ let i' : In s (r ∷ x ∷ xs) = rw before at i in i'
  | inr after ↦ elim (let i' : In s (x ∷ insert_row r xs) = rw after at i in i') [
    | inl e ↦ inr (inl e)
    | inr j ↦ elim (In-insert_row s r xs j) [ inl e ↦ inl e | inr k ↦ inr (inr k) ]
  ]
]

pub In-insert_row_inverse :
    (s r : AuditEventHashRecord) (rs : List AuditEventHashRecord)
    → (s ≡ r) ⊎ In s rs
    → In s (insert_row r rs)
unfolding insert_row
In-insert_row_inverse s r [] (inl e) = inl e
In-insert_row_inverse s r [] (inr i) = absurd i
In-insert_row_inverse s r (x ∷ xs) i = elim (Bool-cases (row_lt r x)) [
  | inl before ↦ rw before (elim i [ inl e ↦ inl e | inr j ↦ inr j ])
  | inr after ↦ rw after (elim i [
    | inl e ↦ inr (In-insert_row_inverse s r xs (inl e))
    | inr (inl e) ↦ inl e
    | inr (inr j) ↦ inr (In-insert_row_inverse s r xs (inr j))
  ])
]

Distinct-insert_row :
    (r : AuditEventHashRecord) (rs : List AuditEventHashRecord)
    → Distinct (hashes rs)
    → ¬ In r.event_hash (hashes rs)
    → Distinct (hashes (insert_row r rs))
unfolding insert_row
Distinct-insert_row r [] d new = (new, tt)
Distinct-insert_row r (x ∷ xs) d new = elim (Bool-cases (row_lt r x)) [
  | inl before ↦ rw before (new, d)
  | inr after ↦ rw after (
    (λ i.
        let (s, j, e) = In-map_inverse (λ y. y.event_hash) x.event_hash (insert_row r xs) i in
        elim (In-insert_row s r xs j) [
          | inl p ↦ new (inl (sym (e ∙ ap (λ y. y.event_hash) p)))
          | inr k ↦ d.0 (subst (λ h. In h (hashes xs)) (sym e) (In-map (λ y. y.event_hash) s xs k))
        ]),
    Distinct-insert_row r xs d.1 (λ i. new (inr i)),
  )
]

All-insert_row {κ} :
    (P : AuditEventHashRecord → Type κ) (r : AuditEventHashRecord) (rs : List AuditEventHashRecord)
    → P r
    → All P rs
    → All P (insert_row r rs)
All-insert_row P r rs p h = All_of_In P (insert_row r rs) (λ s i. elim (In-insert_row s r rs i) [
  | inl e ↦ subst P (sym e) p
  | inr j ↦ In_of_All P rs s h j
])

module _ (codec : HashCodec) (anchors : List String) where
  -- The hash that a new row names is that of the last record of the chain.
  pub tail_hash_of_chain :
      (records : List AuditEventHashRecord) (c : AuditEventHashRecord)
      (cs : List AuditEventHashRecord)
      → IsAuditChain codec anchors records (c ∷ cs)
      → audit_event_chain_tail_hash records ≡ (last_or c cs).event_hash
  unfolding audit_event_chain_tail_hash
  tail_hash_of_chain records c cs h =
      let last = last_or c cs in
      let there : In last records = (h.same last).0 (last_or-In c c cs) in
      let free : is_named last.event_hash records ≡ false =
        elim (Bool-cases (is_named last.event_hash records)) [
          | inl named ↦
              let (s, i, e) = is_named-In last.event_hash records named in
              absurd (
                last_unnamed h.start c cs s h.linked h.distinct_chain
                  (start_new_chain codec anchors records (c ∷ cs) h) ((h.same s).1 i) e)
          | inr n ↦ n
        ] in
      let found =
        In-tails records last records there
          (In_of_All (λ r. r.event_hash ≢ "") records last h.named there) free in
      let tail = last_or zero_record (tails records records) in
      let (listed, unnamed) =
        tails-In records tail records
          (last_or-In_of_some zero_record last (tails records records) found) in
      ap (λ r. r.event_hash)
        (last_of_unnamed h.start c cs tail h.linked ((h.same tail).1 listed) (λ s i e.
          true-ne-false (
            sym (subst (λ k. is_named k records ≡ true) e (In-is_named s records ((h.same s).0 i)))
            ∙ unnamed)))
    where
      true-ne-false : true ≢ false
      true-ne-false q = cc

  pub record IsFresh (records : List AuditEventHashRecord) (r : AuditEventHashRecord) : Type 0 where
    pub named : r.event_hash ≢ ""
    pub new : ¬ In r.event_hash (hashes records)
    pub unanchored : ¬ In r.event_hash anchors

  pub insert_row-IsAuditChain :
      (records chain chain' : List AuditEventHashRecord) (r : AuditEventHashRecord) (start : String)
      → IsAuditChain codec anchors records chain
      → IsFresh records r
      → IsSealed codec r
      → chain' ≡ chain ++ r ∷ []
      → Linked start chain'
      → IsRooted anchors (hashes (insert_row r records)) start
      → IsAuditChain codec anchors (insert_row r records) chain'
  insert_row-IsAuditChain records chain chain' r start h fresh sealed grown linked rooted = record {
    start = start;
    rooted = rooted;
    linked = linked;
    named = All-insert_row (λ s. s.event_hash ≢ "") r records fresh.named h.named;
    same = λ s. (
      (λ i.
          In-insert_row_inverse s r records
            (elim (In-append s chain (r ∷ []) (subst (In s) grown i)) [
              | inl j ↦ inr ((h.same s).0 j)
              | inr (inl e) ↦ inl e
              | inr (inr absent) ↦ absurd absent
            ])),
      (λ i. subst (In s) (sym grown) (elim (In-insert_row s r records i) [
        | inl e ↦ In-append_right s chain (r ∷ []) (inl e)
        | inr j ↦ In-append_left s chain (r ∷ []) ((h.same s).1 j)
      ])),
    );
    distinct = Distinct-insert_row r records h.distinct fresh.new;
    distinct_chain =
        subst (λ l. Distinct (hashes l)) (sym grown)
          (Distinct-snoc chain h.distinct_chain (λ i.
            let (s, j, e) = In-map_inverse (λ y. y.event_hash) r.event_hash chain i in
            fresh.new (
              subst (λ k. In k (hashes records)) (sym e)
                (In-map (λ y. y.event_hash) s records ((h.same s).0 j)))));
    genuine = All-insert_row (IsSealed codec) r records sealed h.genuine;
  }
    where
      Distinct-snoc :
          (ws : List AuditEventHashRecord)
          → Distinct (hashes ws)
          → ¬ In r.event_hash (hashes ws)
          → Distinct (hashes (ws ++ r ∷ []))
      Distinct-snoc [] d n = (n, tt)
      Distinct-snoc (w ∷ ws) d n = (
        (λ i.
            let (s, j, e) = In-map_inverse (λ y. y.event_hash) w.event_hash (ws ++ r ∷ []) i in
            elim (In-append s ws (r ∷ []) j) [
              | inl k ↦
                  d.0 (subst (λ x. In x (hashes ws)) (sym e) (In-map (λ y. y.event_hash) s ws k))
              | inr (inl p) ↦ n (inl (sym (e ∙ ap (λ y. y.event_hash) p)))
              | inr (inr absent) ↦ absent
            ]),
        Distinct-snoc ws d.1 (λ i. n (inr i)),
      )
