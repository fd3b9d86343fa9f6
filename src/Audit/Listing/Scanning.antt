-- ===== src/Audit/Listing/Scanning.antt =====
-- ListAuditEventPage of internal/store/postgres/audit_store.go: the events of a part of the rows.
use tictick_hi.Base.{
  ℕ, zero, suc, ◌<◌, ◌≤◌, ◌≡◌, refl, subst, ap, List, [], ◌∷◌, ◌++◌, arith, take, drop, length,
  last_or, Result, ok, >>=-eq-ok, ok-injective,
}
use tictick_hi.Audit.Hashes.{AuditEventHashRecord, HashCodec}
use tictick_hi.Audit.Listing.{
  AuditEvent, ListingError, scanned_metadata, normalize_audit_event_limit, scan_audit_event,
  scan_audit_events, event_of,
}

pub normalize_pos : (limit : ℕ) → (m : ℕ) × (normalize_audit_event_limit limit ≡ suc m)
unfolding normalize_audit_event_limit
normalize_pos limit = pos_suc (normalize_audit_event_limit limit) (ground arith)
  where
    pos_suc : (n : ℕ) → 0 < n → (m : ℕ) × (n ≡ suc m)
    pos_suc zero h = absurd (omega arith)
    pos_suc (suc m) h = (m, refl)

module _ {A : Type 0} where
  pub take_all : (n : ℕ) (xs : List A) → length xs ≤ n → take n xs ≡ xs
  take_all zero [] h = refl
  take_all (suc n) [] h = refl
  take_all zero (x ∷ xs) h = absurd (omega arith)
  take_all (suc n) (x ∷ xs) h = ap (λ l. x ∷ l) (take_all n xs (omega arith))

  pub take-take-suc : (n : ℕ) (xs : List A) → take n (take (suc n) xs) ≡ take n xs
  take-take-suc zero [] = refl
  take-take-suc zero (x ∷ xs) = refl
  take-take-suc (suc n) [] = refl
  take-take-suc (suc n) (x ∷ xs) = ap (λ l. x ∷ l) (take-take-suc n xs)

  pub take-append-drop : (n : ℕ) (xs : List A) → take n xs ++ drop n xs ≡ xs
  take-append-drop zero [] = refl
  take-append-drop zero (x ∷ xs) = refl
  take-append-drop (suc n) [] = refl
  take-append-drop (suc n) (x ∷ xs) = ap (λ l. x ∷ l) (take-append-drop n xs)

-- An event keeps the place of its row.
abbrev pub SamePlace : AuditEvent → AuditEventHashRecord → Type 0
SamePlace e r = (e.id ≡ r.id) × (e.created_at ≡ r.created_at)

scan-SamePlace :
    (codec : HashCodec) (r : AuditEventHashRecord) (e : AuditEvent)
    → scan_audit_event codec r ≡ ok e
    → SamePlace e r
unfolding scan_audit_event
scan-SamePlace codec r e h =
    let (metadata, p, q) = >>=-eq-ok (scanned_metadata codec r.metadata) _ h in
    let same : event_of r metadata ≡ e = ground arith in
    subst (λ x. SamePlace x r) same (refl, refl)

module _ (codec : HashCodec) where
  scan-cons :
      (r : AuditEventHashRecord) (rs : List AuditEventHashRecord) (es : List AuditEvent)
      → scan_audit_events codec (r ∷ rs) ≡ ok es
      → (e : AuditEvent) × (rest : List AuditEvent) × (scan_audit_event codec r ≡ ok e)
        × (scan_audit_events codec rs ≡ ok rest)
        × (e ∷ rest ≡ es)
  unfolding scan_audit_events
  scan-cons r rs es h =
      let (e, p, h1) = >>=-eq-ok (scan_audit_event codec r) _ h in
      let (rest, q, h2) = >>=-eq-ok (scan_audit_events codec rs) _ h1 in
      (e, rest, p, q, ok-injective h2)

  scan-nil : (es : List AuditEvent) → scan_audit_events codec [] ≡ ok es → [] ≡ es
  unfolding scan_audit_events
  scan-nil es h = ok-injective h

  pub scan-length :
      (rs : List AuditEventHashRecord) (es : List AuditEvent)
      → scan_audit_events codec rs ≡ ok es
      → length es ≡ length rs
  scan-length [] es h = subst (λ l. length l ≡ 0) (scan-nil es h) refl
  scan-length (r ∷ rs) es h =
      let (e, rest, p, q, same) = scan-cons r rs es h in
      subst (λ l. length l ≡ suc (length rs)) same (ap (λ n. suc n) (scan-length rs rest q))

  pub scan-take :
      (n : ℕ) (rs : List AuditEventHashRecord) (es : List AuditEvent)
      → scan_audit_events codec rs ≡ ok es
      → scan_audit_events codec (take n rs) ≡ ok (take n es)
  unfolding scan_audit_events
  scan-take zero rs es h = refl
  scan-take (suc n) [] es h =
      subst (λ l. ◌≡◌ {A = Result ListingError (List AuditEvent)} (ok []) (ok (take (suc n) l)))
        (scan-nil es h) refl
  scan-take (suc n) (r ∷ rs) es h =
      let (e, rest, p, q, same) = scan-cons r rs es h in
      subst (λ l. scan_audit_events codec (r ∷ take n rs) ≡ ok (take (suc n) l)) same
        (rw (p, scan-take n rs rest q) refl)

  pub scan-drop :
      (n : ℕ) (rs : List AuditEventHashRecord) (es : List AuditEvent)
      → scan_audit_events codec rs ≡ ok es
      → scan_audit_events codec (drop n rs) ≡ ok (drop n es)
  unfolding scan_audit_events
  scan-drop zero rs es h = h
  scan-drop (suc n) [] es h =
      subst (λ l. ◌≡◌ {A = Result ListingError (List AuditEvent)} (ok []) (ok (drop (suc n) l)))
        (scan-nil es h) refl
  scan-drop (suc n) (r ∷ rs) es h =
      let (e, rest, p, q, same) = scan-cons r rs es h in
      subst (λ l. scan_audit_events codec (drop n rs) ≡ ok (drop (suc n) l)) same
        (scan-drop n rs rest q)

  -- The last event of a page is that of the last row.
  pub scan-last :
      (n : ℕ) (rs : List AuditEventHashRecord) (es : List AuditEvent) (d : AuditEvent)
      (z : AuditEventHashRecord)
      → scan_audit_events codec rs ≡ ok es
      → SamePlace d z
      → SamePlace (last_or d (take n es)) (last_or z (take n rs))
  scan-last zero rs es d z h k = k
  scan-last (suc n) [] es d z h k =
      subst (λ l. SamePlace (last_or d (take (suc n) l)) z) (scan-nil es h) k
  scan-last (suc n) (r ∷ rs) es d z h k =
      let (e, rest, p, q, same) = scan-cons r rs es h in
      subst (λ l. SamePlace (last_or d (take (suc n) l)) (last_or r (take n rs))) same
        (scan-last n rs rest e r q (scan-SamePlace codec r e p))
