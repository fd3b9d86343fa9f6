-- ===== src/Audit/Verification/Following.antt =====
-- internal/store/postgres/audit_hash_verify.go and audit_retention_store.go: the walk passes a chain
-- from its first record to its last.
use tictick_hi.Base.{
  ℕ, zero, suc, ◌≤◌, String, true, false, ◌≡◌, ◌≢◌, refl, sym, subst, ap, ◌∙◌, ◌⊎◌, inl, inr, none,
  some, List, [], ◌∷◌, arith, length, All, str_eq,
}
use tictick_hi.Base.Members.{In, Distinct, Subset}
use tictick_hi.Audit.Hashes.{AuditEventHashRecord}
use tictick_hi.Audit.Verification.{RecordMap, ended, lookup, walk, contains, passing}
use tictick_hi.Audit.Verification.Chains.{hashes, Linked}
use tictick_hi.Audit.Verification.Maps.{contains_new, str_eq_ne}

-- A record names the hash before it.
pub previous-In :
    (p : String) (ws : List AuditEventHashRecord) (r : AuditEventHashRecord)
    → Linked p ws
    → In r ws
    → (r.previous_hash ≡ p) ⊎ In r.previous_hash (hashes ws)
previous-In p [] r h i = absurd i
previous-In p (x ∷ xs) r h (inl e) = inl (ap (λ y. y.previous_hash) e ∙ h.0)
previous-In p (x ∷ xs) r h (inr i) = elim (previous-In x.event_hash xs r h.1 i) [
  | inl e ↦ inr (inl e)
  | inr k ↦ inr (inr k)
]

previous_apart :
    (p : String) (x : AuditEventHashRecord) (xs : List AuditEventHashRecord)
    (s : AuditEventHashRecord)
    → Linked p (x ∷ xs)
    → ¬ In p (hashes (x ∷ xs))
    → In s xs
    → s.previous_hash ≢ p
previous_apart p x xs s h new i e = elim (previous-In x.event_hash xs s h.1 i) [
  | inl q ↦ new (inl (sym e ∙ q))
  | inr k ↦ new (inr (subst (λ y. In y (hashes xs)) e k))
]

-- No two records of a chain name the same hash.
pub previous_injective :
    (p : String) (ws : List AuditEventHashRecord) (r s : AuditEventHashRecord)
    → Linked p ws
    → Distinct (hashes ws)
    → ¬ In p (hashes ws)
    → In r ws
    → In s ws
    → r.previous_hash ≡ s.previous_hash
    → r ≡ s
previous_injective p [] r s h d new i j e = absurd i
previous_injective p (x ∷ xs) r s h d new (inl a) (inl b) e = a ∙ sym b
previous_injective p (x ∷ xs) r s h d new (inl a) (inr j) e =
    absurd (previous_apart p x xs s h new j (sym e ∙ ap (λ y. y.previous_hash) a ∙ h.0))
previous_injective p (x ∷ xs) r s h d new (inr i) (inl b) e =
    absurd (previous_apart p x xs r h new i (e ∙ ap (λ y. y.previous_hash) b ∙ h.0))
previous_injective p (x ∷ xs) r s h d new (inr i) (inr j) e =
    previous_injective x.event_hash xs r s h.1 d.1 d.0 i j e

module _ (children : RecordMap) where
  -- Each record has the next one as its child, and the last one has none.
  abbrev pub Follows : List AuditEventHashRecord → Type 0
  Follows [] = Unit
  Follows (x ∷ []) = lookup x.event_hash children ≡ none
  Follows (x ∷ y ∷ ys) = (lookup x.event_hash children ≡ some y) × Follows (y ∷ ys)

  module _ (all : List AuditEventHashRecord)
      (found : (r : AuditEventHashRecord)
        → In r all
        → r.previous_hash ≢ ""
        → lookup r.previous_hash children ≡ some r)
      (others : (k : String)
        → ((r : AuditEventHashRecord) → In r all → r.previous_hash ≢ k)
        → lookup k children ≡ none) where
    -- Records that name a hash of `x ∷ xs` stand in `xs`.
    pub Linked-Follows :
        (p : String) (x : AuditEventHashRecord) (xs : List AuditEventHashRecord)
        → Linked p (x ∷ xs)
        → Subset (x ∷ xs) all
        → Distinct (hashes (x ∷ xs))
        → All (λ r. r.event_hash ≢ "") (x ∷ xs)
        → ((r : AuditEventHashRecord) → In r all → In r.previous_hash (hashes (x ∷ xs)) → In r xs)
        → Follows (x ∷ xs)
    Linked-Follows p x [] h s d named later = others x.event_hash (λ r i e. later r i (inl e))
    Linked-Follows p x (y ∷ ys) h s d named later = (
      subst (λ k. lookup k children ≡ some y) h.1.0
          (found y (s y (inr (inl refl))) (subst (λ k. k ≢ "") (sym h.1.0) named.0)),
      Linked-Follows x.event_hash y ys h.1 (λ a i. s a (inr i)) d.1 named.1
          (λ r i j. elim (later r i (inr j)) [
            | inl e ↦
                absurd (
                  d.0 (subst (λ k. In k (hashes (y ∷ ys))) (ap (λ z. z.previous_hash) e ∙ h.1.0) j))
            | inr k ↦ k
          ]),
    )

  walk_last :
      (fuel : ℕ) (x : AuditEventHashRecord) (visited : List String)
      → str_eq x.event_hash "" ≡ false
      → contains x.event_hash visited ≡ false
      → lookup x.event_hash children ≡ none
      → walk (suc fuel) children x visited ≡ ended (x ∷ []) true
  unfolding walk
  walk_last fuel x visited named new last = ground arith

  walk_next :
      (fuel : ℕ) (x y : AuditEventHashRecord) (visited : List String)
      → str_eq x.event_hash "" ≡ false
      → contains x.event_hash visited ≡ false
      → lookup x.event_hash children ≡ some y
      → walk (suc fuel) children x visited
        ≡ passing x (walk fuel children y (x.event_hash ∷ visited))
  unfolding walk
  walk_next fuel x y visited named new next = ground arith

  pub walk_passes :
      (fuel : ℕ) (x : AuditEventHashRecord) (xs : List AuditEventHashRecord) (visited : List String)
      → length (x ∷ xs) ≤ fuel
      → Follows (x ∷ xs)
      → Distinct (hashes (x ∷ xs))
      → All (λ r. r.event_hash ≢ "") (x ∷ xs)
      → ((h : String) → In h (hashes (x ∷ xs)) → ¬ In h visited)
      → walk fuel children x visited ≡ ended (x ∷ xs) true
  walk_passes zero x xs visited enough f d named fresh = absurd (omega arith)
  walk_passes (suc fuel) x [] visited enough f d named fresh =
      walk_last fuel x visited (str_eq_ne x.event_hash "" named.0)
        (contains_new x.event_hash visited (fresh x.event_hash (inl refl))) f
  walk_passes (suc fuel) x (y ∷ ys) visited enough f d named fresh =
      let more =
        walk_passes fuel y ys (x.event_hash ∷ visited) (omega arith) f.1 d.1 named.1 (λ h i k.
          elim k [
            | inl e ↦ d.0 (subst (λ z. In z (hashes (y ∷ ys))) e i)
            | inr j ↦ fresh h (inr i) j
          ]) in
      walk_next fuel x y visited (str_eq_ne x.event_hash "" named.0)
        (contains_new x.event_hash visited (fresh x.event_hash (inl refl))) f.0
      ∙ ap (passing x) more
