-- ===== src/Audit/Recording/Appending.antt =====
-- internal/store/postgres/audit_store.go: a recorded event becomes the end of the chain.
use tictick_hi.Base.{
  String, not, true, false, ◌&&◌, ◌≡◌, ◌≢◌, refl, sym, subst, ap, ◌∙◌, inl, inr, List, [], ◌∷◌,
  ◌++◌, Bool-cases, arith, str_eq, str_eq_iff, last_or,
}
use tictick_hi.Base.Members.{In, Distinct, In-map}
use tictick_hi.Audit.Hashes.{AuditEventHashRecord}
use tictick_hi.Audit.Verification.Chains.{hashes, Linked}
use tictick_hi.Audit.Verification.Maps.{str_eq_ne}
use tictick_hi.Audit.Recording.{is_named, tails}

pub is_named-In :
    (hash : String) (rs : List AuditEventHashRecord)
    → is_named hash rs ≡ true
    → (r : AuditEventHashRecord) × In r rs × (r.previous_hash ≡ hash)
unfolding is_named
is_named-In hash [] h = cc
is_named-In hash (r ∷ rs) h = elim (Bool-cases (str_eq r.previous_hash hash)) [
  | inl e ↦ (r, inl refl, (str_eq_iff r.previous_hash hash).0 e)
  | inr n ↦ let (s, i, e) = is_named-In hash rs (rw n at h) in (s, inr i, e)
]

pub In-is_named :
    (r : AuditEventHashRecord) (rs : List AuditEventHashRecord)
    → In r rs
    → is_named r.previous_hash rs ≡ true
unfolding is_named
In-is_named r [] i = absurd i
In-is_named r (x ∷ xs) (inl e) =
    subst (λ y. is_named r.previous_hash (y ∷ xs) ≡ true) e
      (rw ((str_eq_iff r.previous_hash r.previous_hash).1 refl) refl)
In-is_named r (x ∷ xs) (inr i) = ground (arith, In-is_named r xs i)

-- A tail is a row that no row names.
pub tails-In :
    (all : List AuditEventHashRecord) (r : AuditEventHashRecord) (rs : List AuditEventHashRecord)
    → In r (tails all rs)
    → In r rs × (is_named r.event_hash all ≡ false)
unfolding tails
tails-In all r [] i = absurd i
tails-In all r (x ∷ xs) i =
    elim (Bool-cases (not (str_eq x.event_hash "") && not (is_named x.event_hash all))) [
      | inl tail ↦ elim (let i' : In r (x ∷ tails all xs) = rw tail at i in i') [
        | inl e ↦ (inl e, subst (λ y. is_named y.event_hash all ≡ false) (sym e) (ground arith))
        | inr j ↦ let (k, n) = tails-In all r xs j in (inr k, n)
      ]
      | inr other ↦ let (k, n) = tails-In all r xs (rw other at i) in (inr k, n)
    ]

pub In-tails :
    (all : List AuditEventHashRecord) (r : AuditEventHashRecord) (rs : List AuditEventHashRecord)
    → In r rs
    → r.event_hash ≢ ""
    → is_named r.event_hash all ≡ false
    → In r (tails all rs)
unfolding tails
In-tails all r [] i named free = absurd i
In-tails all r (x ∷ xs) i named free =
    elim (Bool-cases (not (str_eq x.event_hash "") && not (is_named x.event_hash all))) [
      | inl tail ↦ rw tail (elim i [ inl e ↦ inl e | inr j ↦ inr (In-tails all r xs j named free) ])
      | inr other ↦ rw other (elim i [
        | inl e ↦ cc (
          other,
          subst (λ y. (not (str_eq y.event_hash "") && not (is_named y.event_hash all)) ≡ true) e
              (rw (str_eq_ne r.event_hash "" named, free) refl),
        )
        | inr j ↦ In-tails all r xs j named free
      ])
    ]

pub last_or-In :
    (d : AuditEventHashRecord) (x : AuditEventHashRecord) (xs : List AuditEventHashRecord)
    → In (last_or d (x ∷ xs)) (x ∷ xs)
last_or-In d x [] = inl refl
last_or-In d x (y ∷ ys) = inr (last_or-In x y ys)

pub last_or-In_of_some :
    (d r : AuditEventHashRecord) (xs : List AuditEventHashRecord) → In r xs → In (last_or d xs) xs
last_or-In_of_some d r [] i = absurd i
last_or-In_of_some d r (x ∷ xs) i = last_or-In d x xs

-- In a chain, the record that no record names is the last one.
pub last_of_unnamed :
    (p : String) (c : AuditEventHashRecord) (cs : List AuditEventHashRecord)
    (r : AuditEventHashRecord)
    → Linked p (c ∷ cs)
    → In r (c ∷ cs)
    → ((s : AuditEventHashRecord) → In s (c ∷ cs) → s.previous_hash ≢ r.event_hash)
    → r ≡ last_or c cs
last_of_unnamed p c [] r h (inl e) free = e
last_of_unnamed p c [] r h (inr i) free = absurd i
last_of_unnamed p c (d ∷ ds) r h (inl e) free =
    absurd (free d (inr (inl refl)) (h.1.0 ∙ ap (λ x. x.event_hash) (sym e)))
last_of_unnamed p c (d ∷ ds) r h (inr i) free =
    last_of_unnamed c.event_hash d ds r h.1 i (λ s j. free s (inr j))

-- Nothing names the last record.
pub last_unnamed :
    (p : String) (c : AuditEventHashRecord) (cs : List AuditEventHashRecord)
    (s : AuditEventHashRecord)
    → Linked p (c ∷ cs)
    → Distinct (hashes (c ∷ cs))
    → ¬ In p (hashes (c ∷ cs))
    → In s (c ∷ cs)
    → s.previous_hash ≢ (last_or c cs).event_hash
last_unnamed p c [] s h d new (inl e) q =
    new (inl (sym h.0 ∙ ap (λ x. x.previous_hash) (sym e) ∙ q))
last_unnamed p c [] s h d new (inr i) q = i
last_unnamed p c (y ∷ ys) s h d new (inl e) q = new (
    inr (
      subst (λ k. In k (hashes (y ∷ ys))) (sym q ∙ ap (λ x. x.previous_hash) e ∙ h.0)
        (In-map (λ x. x.event_hash) (last_or y ys) (y ∷ ys) (last_or-In c y ys))))
last_unnamed p c (y ∷ ys) s h d new (inr i) q = last_unnamed c.event_hash y ys s h.1 d.1 d.0 i q

pub Linked-snoc :
    (p : String) (c : AuditEventHashRecord) (cs : List AuditEventHashRecord)
    (r : AuditEventHashRecord)
    → Linked p (c ∷ cs)
    → r.previous_hash ≡ (last_or c cs).event_hash
    → Linked p ((c ∷ cs) ++ r ∷ [])
Linked-snoc p c [] r h e = (h.0, (e, tt))
Linked-snoc p c (d ∷ ds) r h e = (h.0, Linked-snoc c.event_hash d ds r h.1 e)
