-- ===== src/Audit/Recording/Bounds.antt =====
-- internal/store/postgres/audit_store.go: what `normalizeAuditMetadata` lets through.
use tictick_hi.Base.{
  ◌+◌, ◌≤◌, String, not, true, false, ◌&&◌, ◌≡◌, ◌≢◌, ◌⊎◌, inl, inr, List, [], ◌∷◌, map, Bool-cases,
  arith, leb, length, str_eq, str_eq_iff, All, bounded_text, rune_count, rune_count-bounded_text,
}
use tictick_hi.Base.Members.{In, Distinct}
use tictick_hi.Audit.Hashes.{Metadata}
use tictick_hi.Audit.Recording.{
  has_key, put, normalize_entry, normalize_entries, normalize_audit_metadata,
  max_audit_metadata_entries, max_audit_metadata_key_length, max_audit_metadata_value_length,
}

abbrev pub keys : Metadata → List String
keys = map (λ e. e.0)

-- An entry within the bounds, under a key that is not empty.
abbrev pub IsBounded : String × String → Type 0
IsBounded e =
    (e.0 ≢ "")
    × (rune_count e.0 ≤ max_audit_metadata_key_length)
    × (rune_count e.1 ≤ max_audit_metadata_value_length)

In-has_key : (k : String) (m : Metadata) → In k (keys m) → has_key k m ≡ true
unfolding has_key
In-has_key k [] i = absurd i
In-has_key k (e ∷ m) (inl p) = ground (arith, str_eq_iff e.0 k)
In-has_key k (e ∷ m) (inr i) = ground (arith, In-has_key k m i)

In-put : (j k v : String) (m : Metadata) → In j (keys (put k v m)) → (j ≡ k) ⊎ In j (keys m)
unfolding put
In-put j k v [] (inl e) = inl e
In-put j k v [] (inr i) = absurd i
In-put j k v (e ∷ m) i = elim (Bool-cases (str_eq e.0 k)) [
  | inl same ↦ inr (rw same at i)
  | inr other ↦ elim (let i' : In j (e.0 ∷ keys (put k v m)) = rw other at i in i') [
    | inl p ↦ inr (inl p)
    | inr q ↦ elim (In-put j k v m q) [ inl p ↦ inl p | inr r ↦ inr (inr r) ]
  ]
]

Distinct-put : (k v : String) (m : Metadata) → Distinct (keys m) → Distinct (keys (put k v m))
unfolding put
Distinct-put k v [] d = ((λ i. i), tt)
Distinct-put k v (e ∷ m) d = elim (Bool-cases (str_eq e.0 k)) [
  | inl same ↦ rw same d
  | inr other ↦ rw other (
    (λ i. elim (In-put e.0 k v m i) [ inl p ↦ cc (other, (str_eq_iff e.0 k).1 p) | inr j ↦ d.0 j ]),
    Distinct-put k v m d.1,
  )
]

length-put_old : (k v : String) (m : Metadata) → has_key k m ≡ true → length (put k v m) ≡ length m
unfolding put has_key
length-put_old k v [] h = cc
length-put_old k v (e ∷ m) h = ground (arith, length-put_old k v m)

length-put : (k v : String) (m : Metadata) → length (put k v m) ≤ length m + 1
unfolding put
length-put k v [] = omega arith
length-put k v (e ∷ m) = ground (arith, length-put k v m)

put-IsBounded :
    (k v : String) (m : Metadata) → IsBounded (k, v) → All IsBounded m → All IsBounded (put k v m)
unfolding put
put-IsBounded k v [] b h = (b, tt)
put-IsBounded k v (e ∷ m) b h = elim (Bool-cases (str_eq e.0 k)) [
  | inl same ↦ rw same ((h.0.0, h.0.1, b.2), h.1)
  | inr other ↦ rw other (h.0, put-IsBounded k v m b h.1)
]

pub record IsNormal (m : Metadata) : Type 0 where
  pub few : length m ≤ max_audit_metadata_entries
  pub distinct : Distinct (keys m)
  pub bounded : All IsBounded m

normalize_entry-IsNormal :
    (m : Metadata) (e : String × String) → IsNormal m → IsNormal (normalize_entry m e)
unfolding normalize_entry
normalize_entry-IsNormal m (key, value) h =
    let k = bounded_text key max_audit_metadata_key_length in
    let v = bounded_text value max_audit_metadata_value_length in
    elim (Bool-cases (str_eq k "")) [
      | inl blank ↦ rw blank h
      | inr named ↦
          elim (Bool-cases (not (has_key k m) && leb max_audit_metadata_entries (length m))) [
            | inl full ↦ rw (named, full) h
            | inr room ↦
                rw (named, room)
                  (record {
                    few = fits k v named room;
                    distinct = Distinct-put k v m h.distinct;
                    bounded =
                        put-IsBounded k v m
                          (
                            (λ e. cc (named, (str_eq_iff k "").1 e)),
                            rune_count-bounded_text key max_audit_metadata_key_length,
                            rune_count-bounded_text value max_audit_metadata_value_length,
                          )
                          h.bounded;
                  })
          ]
    ]
  where
    fits :
        (k v : String)
        → str_eq k "" ≡ false
        → (not (has_key k m) && leb max_audit_metadata_entries (length m)) ≡ false
        → length (put k v m) ≤ max_audit_metadata_entries
    fits k v n r = elim (Bool-cases (has_key k m)) [
      | inl old ↦ let few = h.few in omega (arith, length-put_old k v m old)
      | inr new ↦ let few = h.few in ground (arith, length-put k v m)
    ]

normalize_entries-IsNormal : (m es : Metadata) → IsNormal m → IsNormal (normalize_entries m es)
unfolding normalize_entries
normalize_entries-IsNormal m [] h = h
normalize_entries-IsNormal m (e ∷ es) h =
    normalize_entries-IsNormal (normalize_entry m e) es (normalize_entry-IsNormal m e h)

-- Whatever metadata an event is given, at most 20 entries are recorded, under different keys that
-- are not empty and have at most 64 runes, with values of at most 255 runes.
pub normalize_audit_metadata-IsNormal : (m : Metadata) → IsNormal (normalize_audit_metadata m)
unfolding normalize_audit_metadata
normalize_audit_metadata-IsNormal m =
    normalize_entries-IsNormal [] _ (record { few = omega arith; distinct = tt; bounded = tt })
