-- ===== src/Strategy/Params/Normalized.antt =====
-- internal/strategy/registry.go, `NormalizeParams`: what the normalised parameters satisfy.
use tictick_hi.Base.{
  ◌≡◌, refl, subst, ◌⊎◌, inl, inr, arith, String, true, false, Option, none, some, List, [], ◌∷◌,
  ok, >>=-eq-ok, ok-injective, Bool-cases, All, All-mono,
}
use tictick_hi.Strategy.Params.{
  Floats, Value, Values, ParamSpec, lookup, or_default, normalize_value, validate_param_value,
  normalize_specs, normalize_params, refuse_unknown, is_known, join,
}

module _ (fl : Floats) where
  -- The key is one of the strategy's, and the value passes the check of its specification.
  abbrev pub IsAccepted : List (ParamSpec fl.F) → String × Value fl.F → Type 0
  IsAccepted [] kv = ⊥
  IsAccepted (p ∷ ps) kv =
      ((p.key ≡ kv.0) × (validate_param_value fl p kv.1 ≡ ok tt)) ⊎ IsAccepted ps kv

  -- A required parameter is there, given or by its default.
  abbrev pub IsSupplied : Values fl.F → ParamSpec fl.F → Type 0
  IsSupplied values p =
      (p.required ≡ false)
      ⊎ ((v : Value fl.F) × (or_default fl (lookup p.key values) p ≡ some v)
          × (validate_param_value fl p v ≡ ok tt))

  join-All :
      (P : String × Value fl.F → Type 0) (vs ws : Values fl.F)
      → All P vs
      → All P ws
      → All P (join fl vs ws)
  join-All P [] ws h k = k
  join-All P (v ∷ vs) ws h k = (h.0, join-All P vs ws h.1 k)

  optional-empty :
      (p : ParamSpec fl.F) (added : Values fl.F)
      → p.required ≡ false
      → normalize_value fl p none ≡ ok added
      → [] ≡ added
  optional-empty p added may e = ground arith

  normalize_value-IsAccepted :
      (p : ParamSpec fl.F) (ps : List (ParamSpec fl.F)) (v : Option (Value fl.F))
      (added : Values fl.F)
      → normalize_value fl p v ≡ ok added
      → All (IsAccepted (p ∷ ps)) added
  normalize_value-IsAccepted p ps none added e = elim (Bool-cases p.required) [
    | inl must ↦ absurd (ground arith)
    | inr may ↦ subst (All (IsAccepted (p ∷ ps))) (optional-empty p added may e) tt
  ]
  normalize_value-IsAccepted p ps (some v) added e =
      let (u, valid, made) = >>=-eq-ok (validate_param_value fl p v) _ e in
      subst (All (IsAccepted (p ∷ ps))) (ok-injective made) (inl (refl, valid), tt)

  normalize_value-IsSupplied :
      (p : ParamSpec fl.F) (values added : Values fl.F) (v : Option (Value fl.F))
      → or_default fl (lookup p.key values) p ≡ v
      → normalize_value fl p v ≡ ok added
      → IsSupplied values p
  normalize_value-IsSupplied p values added none same e = inl (ground arith)
  normalize_value-IsSupplied p values added (some v) same e =
      let (u, valid, made) = >>=-eq-ok (validate_param_value fl p v) _ e in inr (v, same, valid)

  normalize_specs-IsAccepted :
      (specs : List (ParamSpec fl.F)) (values r : Values fl.F)
      → normalize_specs fl specs values ≡ ok r
      → All (IsAccepted specs) r × All (IsSupplied values) specs
  unfolding normalize_specs
  normalize_specs-IsAccepted [] values r e = (subst (All (IsAccepted [])) (ok-injective e) tt, tt)
  normalize_specs-IsAccepted (p ∷ ps) values r e =
      let given = or_default fl (lookup p.key values) p in
      let (added, first, e1) = >>=-eq-ok (normalize_value fl p given) _ e in
      let (rest, later, made) = >>=-eq-ok (normalize_specs fl ps values) _ e1 in
      let (accepted, supplied) = normalize_specs-IsAccepted ps values rest later in
      (
        subst (All (IsAccepted (p ∷ ps))) (ok-injective made) (
            join-All (IsAccepted (p ∷ ps)) added rest
              (normalize_value-IsAccepted p ps given added first)
              (All-mono (IsAccepted ps) (IsAccepted (p ∷ ps)) (λ kv a. inr a) rest accepted)),
        (normalize_value-IsSupplied p values added given refl first, supplied),
      )

  abbrev pub IsKnown : List (ParamSpec fl.F) → String × Value fl.F → Type 0
  IsKnown specs kv = is_known fl kv.0 specs ≡ true

  refuse_unknown-IsKnown :
      (specs : List (ParamSpec fl.F)) (values : Values fl.F)
      → refuse_unknown fl specs values ≡ ok tt
      → All (IsKnown specs) values
  unfolding refuse_unknown
  refuse_unknown-IsKnown specs [] e = tt
  refuse_unknown-IsKnown specs ((k, v) ∷ rest) e = elim (Bool-cases (is_known fl k specs)) [
    | inl known ↦ (known, refuse_unknown-IsKnown specs rest (ground arith))
    | inr bad ↦ absurd (ground arith)
  ]

  -- Parameters that are accepted have only keys that the strategy knows; each normalised value
  -- passes the check of its specification, and each required one is given or has a default.
  pub normalize_params-IsAccepted :
      (specs : List (ParamSpec fl.F)) (values r : Values fl.F)
      → normalize_params fl specs values ≡ ok r
      → All (IsKnown specs) values × All (IsAccepted specs) r × All (IsSupplied values) specs
  unfolding normalize_params
  normalize_params-IsAccepted specs values r e =
      let (u, known, later) = >>=-eq-ok (refuse_unknown fl specs values) _ e in
      let (accepted, supplied) = normalize_specs-IsAccepted specs values r later in
      (refuse_unknown-IsKnown specs values known, accepted, supplied)
