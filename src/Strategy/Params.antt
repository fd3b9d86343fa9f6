-- ===== src/Strategy/Params.antt =====
-- internal/strategy/registry.go: the parameters of a strategy, and runtime.go: how they are read.
-- `Floats` stands for float64, of which no law is used; float32 values, which decoded JSON never
-- holds, are left out.
pub mod Normalized
use tictick_hi.Base.{
  ℕ, String, Bool, true, false, not, ◌&&◌, ◌||◌, Option, none, some, List, [], ◌∷◌, if◌then◌else◌,
  Result, ok, err, ◌>>=◌, ◌>>◌, refuse_if, str_eq,
}
use tictick_hi.Base.Int.{ℤ}

pub record Floats : Type 1 where
  pub F : Type 0
  pub constant : String → F
  pub parse : String → Option F
  pub of_int : ℤ → F
  pub to_int : F → ℤ
  pub format : F → String
  pub lt : F → F → Bool
  pub le : F → F → Bool
  pub add : F → F → F
  pub sub : F → F → F
  pub mul : F → F → F
  pub div : F → F → F

-- Go's `any`, by its dynamic type; `integer` is int or int64.
pub data Value (F : Type 0) : Type 0 where
  float64 : F → Value F
  integer : ℤ → Value F
  json_number : String → Value F
  text : String → Value F
  boolean : Bool → Value F
  other : Value F

pub data ParamType : Type 0 where
  number_type select_type boolean_type text_type unknown_type : ParamType

pub record ParamSpec (F : Type 0) : Type 0 where
  pub key : String
  pub param_type : ParamType
  pub required : Bool
  pub default : Option (Value F)
  pub least : Option F
  pub most : Option F
  pub options : List String

pub data ParamError : Type 0 where
  unknown_param missing_param : String → ParamError
  expected_number below_min above_max expected_option unsupported_option : ParamError
  expected_boolean expected_text unsupported_type : ParamError

abbrev pub Values : Type 0 → Type 0
Values F = List (String × Value F)

unfoldable pub lookup {ℓ} : {A : Type ℓ} → String → List (String × A) → Option A
lookup key [] = none
lookup key ((k, v) ∷ rest) = let later = lookup key rest in if str_eq k key then some v else later

abbrev pub is_one_of : String → List String → Bool
is_one_of s [] = false
is_one_of s (o ∷ os) = str_eq o s || is_one_of s os

module _ (fl : Floats) where
  unfoldable pub numeric_value : Value fl.F → Option fl.F
  numeric_value (float64 f) = some f
  numeric_value (integer n) = some (fl.of_int n)
  numeric_value (json_number s) = fl.parse s
  numeric_value _ = none

  abbrev pub below : Option fl.F → fl.F → Bool
  below none n = false
  below (some least) n = fl.lt n least

  abbrev pub above : Option fl.F → fl.F → Bool
  above none n = false
  above (some most) n = fl.lt most n

  abbrev pub check_number : ParamSpec fl.F → Option fl.F → Result ParamError (Unit {0})
  check_number spec none = err expected_number
  check_number spec (some n) =
      refuse_if (below spec.least n) below_min >> refuse_if (above spec.most n) above_max

  abbrev pub check_option : List String → String → Result ParamError (Unit {0})
  check_option [] s = ok tt
  check_option (o ∷ os) s = refuse_if (not (is_one_of s (o ∷ os))) unsupported_option

  abbrev pub check_select : ParamSpec fl.F → Value fl.F → Result ParamError (Unit {0})
  check_select spec (text s) =
      if str_eq s "" then err expected_option else check_option spec.options s
  check_select spec _ = err expected_option

  abbrev pub check_boolean : Value fl.F → Result ParamError (Unit {0})
  check_boolean (boolean b) = ok tt
  check_boolean _ = err expected_boolean

  abbrev pub check_text : Bool → Value fl.F → Result ParamError (Unit {0})
  check_text required (text s) = refuse_if (required && str_eq s "") expected_text
  check_text required _ = err expected_text

  abbrev pub check_typed : ParamType → ParamSpec fl.F → Value fl.F → Result ParamError (Unit {0})
  check_typed number_type spec v = check_number spec (numeric_value v)
  check_typed select_type spec v = check_select spec v
  check_typed boolean_type spec v = check_boolean v
  check_typed text_type spec v = check_text spec.required v
  check_typed unknown_type spec v = err unsupported_type

  unfoldable pub validate_param_value : ParamSpec fl.F → Value fl.F → Result ParamError (Unit {0})
  unfolding numeric_value
  validate_param_value spec v = check_typed spec.param_type spec v

  abbrev pub is_known : String → List (ParamSpec fl.F) → Bool
  is_known key [] = false
  is_known key (p ∷ ps) = str_eq p.key key || is_known key ps

  -- The loop over the keys that were given.
  pub refuse_unknown : List (ParamSpec fl.F) → Values fl.F → Result ParamError (Unit {0})
  refuse_unknown specs [] = ok tt
  refuse_unknown specs ((k, v) ∷ rest) =
      refuse_if (not (is_known k specs)) (unknown_param k) >> refuse_unknown specs rest

  abbrev pub or_default : Option (Value fl.F) → ParamSpec fl.F → Option (Value fl.F)
  or_default none spec = spec.default
  or_default (some v) spec = some v

  -- One round of the loop over the specifications: what it adds.
  abbrev pub normalize_value :
      ParamSpec fl.F → Option (Value fl.F) → Result ParamError (Values fl.F)
  normalize_value spec none = if spec.required then err (missing_param spec.key) else ok []
  normalize_value spec (some v) = validate_param_value spec v >> ok ((spec.key, v) ∷ [])

  abbrev pub join : Values fl.F → Values fl.F → Values fl.F
  join [] rest = rest
  join (v ∷ vs) rest = v ∷ join vs rest

  pub normalize_specs : List (ParamSpec fl.F) → Values fl.F → Result ParamError (Values fl.F)
  unfolding lookup validate_param_value
  normalize_specs [] values = ok []
  normalize_specs (p ∷ ps) values = do
    added ← normalize_value p (or_default (lookup p.key values) p)
    rest ← normalize_specs ps values
    ok (join added rest)

  unfoldable pub normalize_params :
      List (ParamSpec fl.F) → Values fl.F → Result ParamError (Values fl.F)
  unfolding normalize_specs refuse_unknown
  normalize_params specs values = do refuse_unknown specs values; normalize_specs specs values

  abbrev pub number_or : fl.F → Value fl.F → fl.F
  number_or fallback (float64 f) = f
  number_or fallback (integer n) = fl.of_int n
  number_or fallback (text s) = elim (fl.parse s) [ some f ↦ f | none ↦ fallback ]
  number_or fallback _ = fallback

  abbrev pub or_fallback {ℓ} : {A : Type ℓ} → (A → Value fl.F → A) → A → Option (Value fl.F) → A
  or_fallback read fallback none = fallback
  or_fallback read fallback (some v) = read fallback v

  unfoldable pub number_param_value : Values fl.F → String → fl.F → fl.F
  unfolding lookup
  number_param_value params key fallback = or_fallback number_or fallback (lookup key params)

  unfoldable pub int_param_value : Values fl.F → String → ℤ → ℤ
  unfolding number_param_value
  int_param_value params key fallback =
      fl.to_int (number_param_value params key (fl.of_int fallback))

  abbrev pub text_or : String → Value fl.F → String
  text_or fallback (text s) = if str_eq s "" then fallback else s
  text_or fallback _ = fallback

  unfoldable pub text_param : Values fl.F → String → String → String
  unfolding lookup
  text_param params key fallback = or_fallback text_or fallback (lookup key params)

  module _ (show_int : ℤ → String) where
    abbrev pub decimal_or : String → Value fl.F → String
    decimal_or fallback (float64 f) = fl.format f
    decimal_or fallback (integer n) = show_int n
    decimal_or fallback (text s) = s
    decimal_or fallback _ = fallback

    unfoldable pub decimal_param : Values fl.F → String → String → String
    unfolding lookup
    decimal_param params key fallback = or_fallback decimal_or fallback (lookup key params)
