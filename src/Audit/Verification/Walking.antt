-- ===== src/Audit/Verification/Walking.antt =====
-- internal/store/postgres/audit_hash_verify.go and audit_retention_store.go: the walk from the root
-- along the children.
use tictick_hi.Base.{
  ℕ, zero, suc, String, true, false, ◌≡◌, ◌≢◌, refl, sym, subst, inl, inr, none, some, List, [],
  ◌∷◌, Option-cases, arith, str_eq, All,
}
use tictick_hi.Base.Members.{In, Distinct, Subset}
use tictick_hi.Audit.Hashes.{AuditEventHashRecord}
use tictick_hi.Audit.Verification.{
  RecordMap, Walk, ended, cycle, exhausted, lookup, contains, walk, passing,
}
use tictick_hi.Audit.Verification.Chains.{hashes, Linked}
use tictick_hi.Audit.Verification.Maps.{contains-false, str_eq_apart}

-- Each entry of the children is a record of the log, under the hash that it names.
abbrev pub AreChildren : List AuditEventHashRecord → RecordMap → Type 0
AreChildren rs children =
    (k : String) (r : AuditEventHashRecord)
    → lookup k children ≡ some r
    → In r rs × (r.previous_hash ≡ k)

pub record IsWalk (rs : List AuditEventHashRecord) (start : String) (visited : List String)
    (ws : List AuditEventHashRecord) : Type 0 where
  pub linked : Linked start ws
  pub distinct : Distinct (hashes ws)
  pub fresh : (h : String) → In h (hashes ws) → ¬ In h visited
  pub named : All (λ r. r.event_hash ≢ "") ws
  pub inside : Subset ws rs

passing-ended :
    (r : AuditEventHashRecord) (w : Walk) (ws : List AuditEventHashRecord)
    → passing r w ≡ ended ws true
    → (rest : List AuditEventHashRecord) × (w ≡ ended rest true) × (ws ≡ r ∷ rest)
passing-ended r (ended rest tail) ws h = (rest, ground arith, ground arith)
passing-ended r (cycle c) ws h = absurd (ground arith)
passing-ended r exhausted ws h = absurd (ground arith)

module _ (children : RecordMap) where
  walk-exhausted :
      (current : AuditEventHashRecord) (visited : List String) (ws : List AuditEventHashRecord)
      → walk zero children current visited ≢ ended ws true
  unfolding walk
  walk-exhausted current visited ws h = ground arith

  walk-named :
      (fuel : ℕ) (current : AuditEventHashRecord) (visited : List String)
      (ws : List AuditEventHashRecord)
      → walk (suc fuel) children current visited ≡ ended ws true
      → (str_eq current.event_hash "" ≡ false) × (contains current.event_hash visited ≡ false)
  unfolding walk
  walk-named fuel current visited ws h = (ground arith, ground arith)

  walk-tail :
      (fuel : ℕ) (current : AuditEventHashRecord) (visited : List String)
      (ws : List AuditEventHashRecord)
      → walk (suc fuel) children current visited ≡ ended ws true
      → lookup current.event_hash children ≡ none
      → ws ≡ current ∷ []
  unfolding walk
  walk-tail fuel current visited ws h e = ground arith

  walk-child :
      (fuel : ℕ) (current child : AuditEventHashRecord) (visited : List String)
      (ws : List AuditEventHashRecord)
      → walk (suc fuel) children current visited ≡ ended ws true
      → lookup current.event_hash children ≡ some child
      → passing current (walk fuel children child (current.event_hash ∷ visited)) ≡ ended ws true
  unfolding walk
  walk-child fuel current child visited ws h e = ground arith

  pub walk-IsWalk :
      (rs : List AuditEventHashRecord) (fuel : ℕ) (current : AuditEventHashRecord)
      (visited : List String) (ws : List AuditEventHashRecord)
      → AreChildren rs children
      → In current rs
      → walk fuel children current visited ≡ ended ws true
      → IsWalk rs current.previous_hash visited ws
  walk-IsWalk rs zero current visited ws are i h = absurd (walk-exhausted current visited ws h)
  walk-IsWalk rs (suc fuel) current visited ws are i h =
      let (named, new) = walk-named fuel current visited ws h in
      elim (Option-cases (lookup current.event_hash children)) [
        | inl e ↦
            subst (IsWalk rs current.previous_hash visited)
              (sym (walk-tail fuel current visited ws h e))
              (record {
                linked = (refl, tt);
                distinct = (λ k. k, tt);
                fresh = λ k j. elim j [
                  | inl p ↦
                      subst (λ x. ¬ In x visited) (sym p)
                        (contains-false current.event_hash visited new)
                  | inr absent ↦ absurd absent
                ];
                named = (str_eq_apart current.event_hash "" named, tt);
                inside = λ r j. elim j [
                  | inl p ↦ subst (λ x. In x rs) (sym p) i
                  | inr absent ↦ absurd absent
                ];
              })
        | inr (child, e) ↦
            let (rest, walked, same) =
              passing-ended current (walk fuel children child (current.event_hash ∷ visited)) ws
                (walk-child fuel current child visited ws h e) in
            let (within, named_after) = are current.event_hash child e in
            let onward =
              walk-IsWalk rs fuel child (current.event_hash ∷ visited) rest are within walked in
            subst (IsWalk rs current.previous_hash visited) (sym same) (record {
              linked = (refl, subst (λ k. Linked k rest) named_after onward.linked);
              distinct = (λ j. onward.fresh current.event_hash j (inl refl), onward.distinct);
              fresh = λ k j. elim j [
                | inl p ↦
                    subst (λ x. ¬ In x visited) (sym p)
                      (contains-false current.event_hash visited new)
                | inr later ↦ λ seen. onward.fresh k later (inr seen)
              ];
              named = (str_eq_apart current.event_hash "" named, onward.named);
              inside = λ r j. elim j [
                | inl p ↦ subst (λ x. In x rs) (sym p) i
                | inr later ↦ onward.inside r later
              ];
            })
      ]
