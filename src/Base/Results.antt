-- ===== src/Base/Results.antt =====
-- Go's `(value, error)`: a value, or an error of the caller's own type.
use mathlib.Core.Path.{◌≡◌, refl}
use mathlib.Core.Logic.{◌⊎◌, inl, inr}
use mathlib.Core.Bool.{Bool, true, false}

pub data Result {ℓ κ} (E : Type κ) (A : Type ℓ) : Type (ℓ ⊔ κ) where
  err : E → Result E A
  ok : A → Result E A

-- `if fails { return e }`
abbrev pub refuse_if {κ} : {E : Type κ} → Bool → E → Result E (Unit {0})
refuse_if false e = ok tt
refuse_if true e = err e

-- `if err != nil { return err }`, with the value handed on; it computes in every proof.
infixl 5 ◌>>=◌ ◌>>◌
abbrev pub ◌>>=◌ {ι κ ℓ} :
    {F : Type κ} {A : Type ι} {B : Type ℓ} → Result F A → (A → Result F B) → Result F B
err e >>= next = err e
ok value >>= next = next value

abbrev pub ◌>>◌ {κ ℓ} : {F : Type κ} {B : Type ℓ} → Result F (Unit {0}) → Result F B → Result F B
check >> rest = check >>= λ _. rest

pub Result-cases {ℓ κ} :
    {E : Type κ} {A : Type ℓ} (r : Result E A) → ((e : E) × (r ≡ err e)) ⊎ ((a : A) × (r ≡ ok a))
Result-cases (ok a) = inr (a, refl)
Result-cases (err e) = inl (e, refl)

-- An error of one kind handed on as another.
abbrev pub map_err {ℓ κ ι} :
    {E : Type κ} {F : Type ι} {A : Type ℓ} → (E → F) → Result E A → Result F A
map_err f (ok a) = ok a
map_err f (err e) = err (f e)

-- A chain that succeeds has a first step that does, and a rest that does on its value.
pub >>=-eq-ok {ι κ ℓ} :
    {F : Type κ} {A : Type ι} {B : Type ℓ} (first : Result F A) (next : A → Result F B) {done : B}
    → (first >>= next) ≡ ok done
    → (value : A) × (first ≡ ok value) × (next value ≡ ok done)
>>=-eq-ok (err e) next h = cc
>>=-eq-ok (ok value) next h = (value, refl, h)

pub ok-injective {ℓ κ} :
    {E : Type κ} {A : Type ℓ} {a b : A} → ◌≡◌ {A = Result E A} (ok a) (ok b) → a ≡ b
ok-injective h = cc

-- A chain that fails does so in its first step, or in its rest on the value of the first step.
pub >>=-eq-err {ι κ ℓ} :
    {F : Type κ} {A : Type ι} {B : Type ℓ} (first : Result F A) (next : A → Result F B) {e : F}
    → (first >>= next) ≡ err e
    → (first ≡ err e) ⊎ ((value : A) × (first ≡ ok value) × (next value ≡ err e))
>>=-eq-err (err f) next h = inl (cc)
>>=-eq-err (ok value) next h = inr (value, refl, h)
