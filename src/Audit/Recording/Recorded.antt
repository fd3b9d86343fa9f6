-- ===== src/Audit/Recording/Recorded.antt =====
-- internal/store/postgres/audit_store.go: `RecordAuditEvent` on a log that is not broken.
use tictick_hi.Base.{
  ℕ, String, ◌≡◌, ◌≢◌, refl, sym, subst, ap, ◌∙◌, inl, inr, List, [], ◌∷◌, ◌++◌, ok, >>=-eq-ok,
  Option, some, none, ok-injective, length, arith,
}
use tictick_hi.Base.Members.{In, Subset, In-map_inverse, In-map}
use tictick_hi.Audit.Hashes.{
  AuditEventHashRecord, HashCodec, HashError, Metadata, metadata_unencodable, or_fail,
  audit_event_hash, canonical_audit_event_metadata, recompute_audit_event_hash,
}
use tictick_hi.Audit.Verification.{failure}
use tictick_hi.Audit.Verification.Chains.{hashes, IsSealed, IsAuditChain}
use tictick_hi.Audit.Verification.Maps.{str_eq_ne}
use tictick_hi.Audit.Verification.Verdict.{verify_audit_event_hash_records_iff, verdict_of_chain}
use tictick_hi.Audit.Pruning.{AuditTables, anchor_hashes, verify_audit_event_hash_chain}
use tictick_hi.Audit.Recording.{
  CreateAuditEvent, audit_event_chain_tail_hash, tails, insert_row, sealed_row, new_row,
  record_audit_event, normalize_audit_metadata,
}
use tictick_hi.Audit.Recording.Appending.{Linked-snoc}
use tictick_hi.Audit.Recording.Growing.{
  In-insert_row, In-insert_row_inverse, tail_hash_of_chain, IsFresh, insert_row-IsAuditChain,
}

-- JSON writes what it reads: the text of a map is read as a map with the same text.
abbrev pub IsStable : HashCodec → Type 0
IsStable codec =
    (m : Metadata) (text : String)
    → codec.marshal_metadata m ≡ some text
    → (text ≢ "")
      × ((read : Metadata) × (codec.unmarshal_metadata text ≡ some read)
          × (codec.marshal_metadata read ≡ some text))

or_fail-some : (e : HashError) (o : Option String) (s : String) → or_fail e o ≡ ok s → o ≡ some s
or_fail-some e (some x) s h = ground arith
or_fail-some e none s h = absurd (ground arith)

canonical_stable :
    (codec : HashCodec) (m : Metadata) (text : String)
    → IsStable codec
    → codec.marshal_metadata m ≡ some text
    → canonical_audit_event_metadata codec text ≡ ok text
unfolding canonical_audit_event_metadata
canonical_stable codec m text stable h =
    let (shown, (read, p, q)) = stable m text h in rw (str_eq_ne text "" shown, p, q) refl

module _ (codec : HashCodec) (id : String) (now : ℕ) (rs : List AuditEventHashRecord)
    (e : CreateAuditEvent) (stable : IsStable codec) where
  -- A sealed row names the hash of the tail, and has the hash of its contents.
  sealed_row-IsSealed :
      (r : AuditEventHashRecord)
      → sealed_row codec id now rs e ≡ ok r
      → (r.previous_hash ≡ audit_event_chain_tail_hash rs) × IsSealed codec r
  unfolding sealed_row recompute_audit_event_hash audit_event_hash
  sealed_row-IsSealed r h =
      let written = codec.marshal_metadata (normalize_audit_metadata e.metadata) in
      let (text, p, h1) = >>=-eq-ok (or_fail metadata_unencodable written) _ h in
      let row = new_row id now (audit_event_chain_tail_hash rs) text e in
      let (hash, q, h2) = >>=-eq-ok (audit_event_hash codec row text) _ h1 in
      let made : record row { event_hash = hash } ≡ r = ok-injective h2 in
      let canonical =
        canonical_stable codec (normalize_audit_metadata e.metadata) text stable
          (or_fail-some metadata_unencodable written text p) in
      subst (λ x. (x.previous_hash ≡ audit_event_chain_tail_hash rs) × IsSealed codec x) made
        (refl, rw canonical q)

recorded_chain :
    (codec : HashCodec) (anchors : List String) (rs chain : List AuditEventHashRecord)
    (r : AuditEventHashRecord)
    → IsAuditChain codec anchors rs chain
    → IsFresh codec anchors rs r
    → IsSealed codec r
    → r.previous_hash ≡ audit_event_chain_tail_hash rs
    → (chain' : List AuditEventHashRecord) × IsAuditChain codec anchors (insert_row r rs) chain'
unfolding audit_event_chain_tail_hash tails
recorded_chain codec anchors [] [] r h fresh sealed tail = (
  r ∷ [],
  insert_row-IsAuditChain codec anchors [] [] (r ∷ []) r "" h fresh sealed refl (tail, tt)
      (inl refl),
)
recorded_chain codec anchors (x ∷ xs) [] r h fresh sealed tail = absurd ((h.same x).1 (inl refl))
recorded_chain codec anchors rs (c ∷ cs) r h fresh sealed tail = (
  (c ∷ cs) ++ r ∷ [],
  insert_row-IsAuditChain codec anchors rs (c ∷ cs) ((c ∷ cs) ++ r ∷ []) r h.start h fresh sealed
      refl (Linked-snoc h.start c cs r h.linked (tail ∙ tail_hash_of_chain codec anchors rs c cs h))
      (elim h.rooted [
        | inl blank ↦ inl blank
        | inr (anchored, missing) ↦ inr (
          anchored,
          λ i.
              let (s, j, e) = In-map_inverse (λ y. y.event_hash) h.start (insert_row r rs) i in
              elim (In-insert_row s r rs j) [
                | inl p ↦
                    fresh.unanchored
                      (subst (λ k. In k anchors) (e ∙ ap (λ y. y.event_hash) p) anchored)
                | inr k ↦
                    missing
                      (subst (λ x. In x (hashes rs)) (sym e) (In-map (λ y. y.event_hash) s rs k))
              ],
        )
      ]),
)

-- Recording an event keeps the log whole: where the log is not broken, JSON reads back what it
-- writes, and the hash of the new row is not empty and is neither the hash of a row nor that of an
-- anchor, the log is not broken after `RecordAuditEvent` either, and holds the new row and every
-- row that it held.
pub record_audit_event_verified :
    (codec : HashCodec) (id : String) (now later : ℕ) (t t' : AuditTables) (e : CreateAuditEvent)
    (r : AuditEventHashRecord)
    → IsStable codec
    → sealed_row codec id now t.hashed e ≡ ok r
    → IsFresh codec (anchor_hashes t) t.hashed r
    → record_audit_event codec id now t e ≡ ok t'
    → (verify_audit_event_hash_chain codec t now).status ≢ failure
    → ((verify_audit_event_hash_chain codec t' later).status ≢ failure)
      × In r t'.hashed
      × Subset t.hashed t'.hashed
unfolding verify_audit_event_hash_chain record_audit_event
record_audit_event_verified codec id now later t t' e r stable made fresh recorded fine =
    let (chain, h) =
      (verify_audit_event_hash_records_iff codec t.hashed (length t.legacy) (anchor_hashes t) now).0
        fine in
    let (names, sealed) = sealed_row-IsSealed codec id now t.hashed e stable r made in
    let (chain', h') =
      recorded_chain codec (anchor_hashes t) t.hashed chain r h fresh sealed names in
    let same : record t { hashed = insert_row r t.hashed } ≡ t' =
      ok-injective (rw made at recorded) in
    subst
      (λ u.
        ((verify_audit_event_hash_chain codec u later).status ≢ failure)
        × In r u.hashed
        × Subset t.hashed u.hashed)
      same
      (
        verdict_of_chain codec (insert_row r t.hashed) chain' (length t.legacy) (anchor_hashes t)
            later h',
        In-insert_row_inverse r r t.hashed (inl refl),
        λ s i. In-insert_row_inverse s r t.hashed (inr i),
      )
