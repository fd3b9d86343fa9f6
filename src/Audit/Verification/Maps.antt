-- ===== src/Audit/Verification/Maps.antt =====
-- The maps of the verification, as membership of their keys.
use tictick_hi.Base.{
  String, ◌≡◌, ◌≢◌, refl, sym, inl, inr, true, false, none, some, List, [], ◌∷◌, Bool-cases,
  Option-cases, arith, str_eq, str_eq_iff,
}
use tictick_hi.Base.Members.{In}
use tictick_hi.Audit.Hashes.{AuditEventHashRecord}
use tictick_hi.Audit.Verification.{RecordMap, lookup, contains, has}

pub contains→In : (key : String) (keys : List String) → contains key keys ≡ true → In key keys
unfolding contains
contains→In key [] h = cc
contains→In key (k ∷ keys) h = elim (Bool-cases (str_eq k key)) [
  | inl e ↦ inl (sym ((str_eq_iff k key).0 e))
  | inr n ↦ inr (contains→In key keys (rw n at h))
]

pub In→contains : (key : String) (keys : List String) → In key keys → contains key keys ≡ true
unfolding contains
In→contains key [] h = absurd h
In→contains key (k ∷ keys) (inl e) = rw ((str_eq_iff k key).1 (sym e)) refl
In→contains key (k ∷ keys) (inr h) = ground (arith, In→contains key keys h)

pub contains-false : (key : String) (keys : List String) → contains key keys ≡ false → ¬ In key keys
contains-false key keys h k = cc (In→contains key keys k)

pub str_eq_self : (a : String) → str_eq a a ≡ true
str_eq_self a = (str_eq_iff a a).1 refl

pub str_eq_ne : (a b : String) → ¬ (a ≡ b) → str_eq a b ≡ false
str_eq_ne a b n = elim (Bool-cases (str_eq a b)) [
  | inl e ↦ absurd (n ((str_eq_iff a b).0 e))
  | inr e ↦ e
]

pub str_eq_apart : (a b : String) → str_eq a b ≡ false → ¬ (a ≡ b)
str_eq_apart a b h e = cc ((str_eq_iff a b).1 e)

pub has_of_lookup :
    (key : String) (m : RecordMap) (r : AuditEventHashRecord)
    → lookup key m ≡ some r
    → has key m ≡ true
unfolding has
has_of_lookup key m r e = ground arith

pub lookup_of_has :
    (key : String) (m : RecordMap)
    → has key m ≡ true
    → (r : AuditEventHashRecord) × (lookup key m ≡ some r)
unfolding has
lookup_of_has key m h = elim (Option-cases (lookup key m)) [
  | inl e ↦ absurd (ground arith)
  | inr (r, e) ↦ (r, e)
]

pub lookup-none_of_has : (key : String) (m : RecordMap) → has key m ≡ false → lookup key m ≡ none
unfolding has
lookup-none_of_has key m h = ground arith

pub has-cons_self :
    (r : AuditEventHashRecord) (k : String) (m : RecordMap) → has k ((k, r) ∷ m) ≡ true
unfolding has lookup
has-cons_self r k m = ground (arith, str_eq_self k)

pub has-cons :
    (key k : String) (r : AuditEventHashRecord) (m : RecordMap)
    → has key m ≡ true
    → has key ((k, r) ∷ m) ≡ true
unfolding has lookup
has-cons key k r m h = ground arith

pub has-cons_other :
    (key k : String) (r : AuditEventHashRecord) (m : RecordMap)
    → ¬ (key ≡ k)
    → has key m ≡ false
    → has key ((k, r) ∷ m) ≡ false
unfolding has lookup
has-cons_other key k r m n h = ground (arith, str_eq_ne k key (λ e. n (sym e)))

pub has_of_cons :
    (key k : String) (r : AuditEventHashRecord) (m : RecordMap)
    → has key ((k, r) ∷ m) ≡ false
    → (¬ (key ≡ k)) × (has key m ≡ false)
unfolding has lookup
has_of_cons key k r m h = (λ e. absurd (ground (arith, str_eq_iff k key)), ground arith)

pub String-discrete : Discrete String
String-discrete a b = elim (Bool-cases (str_eq a b)) [
  | inl e ↦ yes ((str_eq_iff a b).0 e)
  | inr n ↦ no (str_eq_apart a b n)
]

pub lookup-cons_self :
    (k : String) (r : AuditEventHashRecord) (m : RecordMap) → lookup k ((k, r) ∷ m) ≡ some r
unfolding lookup
lookup-cons_self k r m = ground (arith, str_eq_self k)

pub lookup-cons_other :
    (key k : String) (r : AuditEventHashRecord) (m : RecordMap)
    → k ≢ key
    → lookup key ((k, r) ∷ m) ≡ lookup key m
unfolding lookup
lookup-cons_other key k r m n = ground (arith, str_eq_ne k key n)

-- Whether a key is there depends on what is found alone.
pub has_of_same :
    (key : String) (m m' : RecordMap) → lookup key m ≡ lookup key m' → has key m ≡ has key m'
unfolding has
has_of_same key m m' e = ground arith

pub contains_new : (key : String) (keys : List String) → ¬ In key keys → contains key keys ≡ false
contains_new key keys n = elim (Bool-cases (contains key keys)) [
  | inl e ↦ absurd (n (contains→In key keys e))
  | inr e ↦ e
]

pub has-nil : (key : String) → has key [] ≡ false
unfolding has lookup
has-nil key = refl

pub lookup-nil : (key : String) → lookup key [] ≡ none
unfolding lookup
lookup-nil key = refl
