-- ===== src/Api/Symbols/Patterns.antt =====
-- internal/web/api/validation.go: the texts that the pattern of okx describes.
use tictick_hi.Base.{
  ℕ, ◌-◌, ◌≤◌, ◌<◌, ◌≡◌, refl, sym, subst, ◌⊎◌, inl, inr, ◌↔◌, Bool, true, false, ◌&&◌, List, [],
  ◌∷◌, ◌++◌, Bool-cases, arith, ltb, ◌==◌, All, ap, ◌∙◌, length,
}
use tictick_hi.Api.Symbols.{is_upper_digit, matches_parts, matches_okx}

abbrev pub IsUpper : List ℕ → Type 0
IsUpper cs = All (λ d. is_upper_digit d ≡ true) cs

-- One or more capital letters and digits.
abbrev pub IsPart : List ℕ → Type 0
IsPart cs = IsUpper cs × (0 < length cs)

-- Parts, each after a dash.
abbrev pub dashed : List (List ℕ) → List ℕ
dashed [] = []
dashed (p ∷ ps) = b'-' ∷ p ++ dashed ps

-- A part that may have begun already, and so many more parts, or one less where `parts` is not 2.
pub record IsSplit (parts : ℕ) (begun : Bool) (cs : List ℕ) : Type 0 where
  pub first : List ℕ
  pub more : List (List ℕ)
  pub joined : cs ≡ first ++ dashed more
  pub upper : IsUpper first
  pub present : (begun ≡ true) ⊎ (0 < length first)
  pub are_parts : All IsPart more
  pub few : length more ≤ parts
  pub enough : parts - length more ≤ 1

matches_parts-IsSplit :
    (parts : ℕ) (begun : Bool) (cs : List ℕ)
    → matches_parts parts begun cs ≡ true
    → IsSplit parts begun cs
unfolding matches_parts
matches_parts-IsSplit parts begun [] h = record {
  first = [];
  more = [];
  joined = refl;
  upper = tt;
  present = inl (ground arith);
  are_parts = tt;
  few = omega arith;
  enough = ground arith;
}
matches_parts-IsSplit parts begun (c ∷ cs) h = elim (Bool-cases (is_upper_digit c)) [
  | inl letter ↦
      let s = matches_parts-IsSplit parts true cs (rw letter at h) in
      record {
        first = c ∷ s.first;
        more = s.more;
        joined = ap (λ l. c ∷ l) s.joined;
        upper = (letter, s.upper);
        present = inr (omega arith);
        are_parts = s.are_parts;
        few = s.few;
        enough = s.enough;
      }
  | inr other ↦ elim (Bool-cases (c == b'-' && (begun && ltb 0 parts))) [
    | inr stop ↦ cc (rw (other, stop) at h)
    | inl dash ↦
        let s = matches_parts-IsSplit (parts - 1) false cs (rw (other, dash) at h) in
        let few = s.few in
        let enough = s.enough in
        record {
          first = [];
          more = s.first ∷ s.more;
          joined =
              let dash_code : c ≡ b'-' = ground arith in
              ap (λ d. d ∷ cs) dash_code ∙ ap (λ l. b'-' ∷ l) s.joined;
          upper = tt;
          present = inl (ground arith);
          are_parts = ((s.upper, started s.first s.present), s.are_parts);
          few = ground arith;
          enough = ground arith;
        }
  ]
]
  where
    started : (a : List ℕ) → (◌≡◌ {A = Bool} false true) ⊎ (0 < length a) → 0 < length a
    started a (inl e) = cc
    started a (inr l) = l

matches_parts-upper :
    (parts : ℕ) (begun : Bool) (a rest : List ℕ)
    → IsUpper a
    → (begun ≡ true) ⊎ (0 < length a)
    → matches_parts parts true rest ≡ true
    → matches_parts parts begun (a ++ rest) ≡ true
unfolding matches_parts
matches_parts-upper parts begun [] rest h (inl e) m = rw e m
matches_parts-upper parts begun [] rest h (inr l) m = absurd (omega arith)
matches_parts-upper parts begun (c ∷ cs) rest h p m =
    rw h.0 (matches_parts-upper parts true cs rest h.1 (inl refl) m)

matches_parts-dashed :
    (parts : ℕ) (ps : List (List ℕ))
    → All IsPart ps
    → length ps ≤ parts
    → parts - length ps ≤ 1
    → matches_parts parts true (dashed ps) ≡ true
unfolding matches_parts
matches_parts-dashed parts [] h few enough = ground arith
matches_parts-dashed parts (p ∷ ps) h few enough =
    let more : ltb 0 parts ≡ true = ground arith in
    rw more (
      matches_parts-upper (parts - 1) false p (dashed ps) h.0.0 (inr h.0.1)
        (matches_parts-dashed (parts - 1) ps h.1 (omega arith) (omega arith)))

-- The pattern of okx matches exactly the texts of two or three parts joined by dashes, where a part
-- is one or more capital letters and digits.
pub matches_okx_iff :
    (cs : List ℕ)
    → (matches_okx cs ≡ true) ↔ (
        (first : List ℕ) × (more : List (List ℕ)) × (cs ≡ first ++ dashed more)
        × IsPart first
        × All IsPart more
        × (1 ≤ length more)
        × (length more ≤ 2))
unfolding matches_okx
matches_okx_iff cs = (
  λ h.
      let s = matches_parts-IsSplit 2 false cs h in
      let few = s.few in
      let enough = s.enough in
      (
        s.first,
        s.more,
        s.joined,
        (s.upper, started s.first s.present),
        s.are_parts,
        omega arith,
        few,
      ),
  λ h.
      let (first, more, joined, part, parts, one, two) = h in
      subst (λ l. matches_parts 2 false l ≡ true) (sym joined)
        (matches_parts-upper 2 false first (dashed more) part.0 (inr part.1)
          (matches_parts-dashed 2 more parts two (omega arith))),
)
  where
    started : (a : List ℕ) → (◌≡◌ {A = Bool} false true) ⊎ (0 < length a) → 0 < length a
    started a (inl e) = cc
    started a (inr l) = l
