-- ===== src/Base/Text.antt =====
-- Whole texts are compared as native strings; a text that is walked is the list of its codes.
use Prim.Native.Char.{Char, code}
use Prim.Native.String.{String}
use Prim.Native.String as NativeString
use mathlib.Core.List.{List, [], ◌∷◌}
use mathlib.Core.Path.{◌≡◌, refl}
use mathlib.Core.Logic.{◌↔◌, inl, inr}
use mathlib.Core.Bool.{Bool, true, false, ◌&&◌, ◌||◌}
use Prim.Native.Nat.{ℕ, zero, suc, ◌-◌, ◌≤◌}
use native.Mathlib.Omega.{arith}
use tictick_hi.Base.Tests.{ltb, leb, ◌==◌, if◌then◌else◌, Bool-cases}
use text.Mathlib.Text
use text.Mathlib.TextEquality.{eq_iff}

-- `==` on texts.
unfoldable pub str_eq : String → String → Bool
str_eq a b = Text.◌==◌ a b

pub str_eq_iff : (a b : String) → (str_eq a b ≡ true) ↔ (a ≡ b)
unfolding str_eq
str_eq_iff a b = eq_iff a b

-- The code points of a text: its bytes, if it is ASCII. `String` has its own `[]` and `∷`.
abbrev pub codes : String → List ℕ
codes String.[] = []
codes (String.◌∷◌ c s) = code c ∷ codes s

-- `+` on texts.
abbrev pub append : String → String → String
append a b = NativeString.◌++◌ a b

-- The blanks of ASCII; `unicode.IsSpace` has a few more beyond it.
abbrev pub is_space : ℕ → Bool
is_space c = (leb 9 c && leb c 13) || c == 32

pub trim_left : String → String
trim_left String.[] = String.[]
trim_left (String.◌∷◌ c s) =
    let rest = trim_left s in if is_space (code c) then rest else String.◌∷◌ c s

abbrev is_empty : String → Bool
is_empty String.[] = true
is_empty (String.◌∷◌ c s) = false

pub trim_right : String → String
trim_right String.[] = String.[]
trim_right (String.◌∷◌ c s) =
    let rest = trim_right s in
    if is_space (code c) && is_empty rest then String.[] else String.◌∷◌ c rest

-- `strings.TrimSpace`
unfoldable pub trim_space : String → String
unfolding trim_left trim_right
trim_space s = trim_right (trim_left s)

-- How many runes a text has.
abbrev pub rune_count : String → ℕ
rune_count String.[] = 0
rune_count (String.◌∷◌ c s) = suc (rune_count s)

-- `string(runes[:n])`
unfoldable pub take_runes : ℕ → String → String
take_runes zero s = String.[]
take_runes (suc n) String.[] = String.[]
take_runes (suc n) (String.◌∷◌ c s) = String.◌∷◌ c (take_runes n s)

-- A text without the blanks around it, cut to a number of runes.
unfoldable pub bounded_text : String → ℕ → String
unfolding trim_space
bounded_text value limit =
    let trimmed = trim_space value in
    if ltb limit (rune_count trimmed) then take_runes limit trimmed else trimmed

pub rune_count-take_runes : (n : ℕ) (s : String) → rune_count (take_runes n s) ≤ n
unfolding take_runes
rune_count-take_runes zero s = omega arith
rune_count-take_runes (suc n) String.[] = omega arith
rune_count-take_runes (suc n) (String.◌∷◌ c s) = omega (arith, rune_count-take_runes n s)

pub rune_count-bounded_text : (s : String) (n : ℕ) → rune_count (bounded_text s n) ≤ n
unfolding bounded_text
rune_count-bounded_text s n = ground (arith, rune_count-take_runes n (trim_space s))

-- The order of texts: that of their bytes, which is that of their runes.
abbrev pub codes_lt : List ℕ → List ℕ → Bool
codes_lt cs [] = false
codes_lt [] (d ∷ ds) = true
codes_lt (c ∷ cs) (d ∷ ds) = ltb c d || (c == d && codes_lt cs ds)

unfoldable pub text_lt : String → String → Bool
text_lt a b = codes_lt (codes a) (codes b)

codes_lt_asym : (cs ds : List ℕ) → codes_lt cs ds ≡ true → codes_lt ds cs ≡ false
codes_lt_asym [] [] h = refl
codes_lt_asym [] (d ∷ ds) h = refl
codes_lt_asym (c ∷ cs) [] h = cc
codes_lt_asym (c ∷ cs) (d ∷ ds) h = elim (Bool-cases (codes_lt cs ds)) [
  | inl less ↦ let more = codes_lt_asym cs ds less in ground arith
  | inr not_less ↦ ground arith
]

pub text_lt_asym : (a b : String) → text_lt a b ≡ true → text_lt b a ≡ false
unfolding text_lt
text_lt_asym a b h = codes_lt_asym (codes a) (codes b) h

-- The rune at a place of a text, or the given one.
abbrev rune_at : ℕ → String → Char → Char
rune_at n String.[] d = d
rune_at zero (String.◌∷◌ c s) d = c
rune_at (suc n) (String.◌∷◌ c s) d = rune_at n s d

abbrev lower_rune : Char → Char
lower_rune c =
    if leb b'A' (code c) && leb (code c) b'Z'
    then rune_at (code c - b'A') "abcdefghijklmnopqrstuvwxyz" c
    else c

-- `strings.ToLower`, of the letters of ASCII.
unfoldable pub to_lower : String → String
to_lower String.[] = String.[]
to_lower (String.◌∷◌ c s) = String.◌∷◌ (lower_rune c) (to_lower s)

unfoldable pub has_prefix : String → String → Bool
has_prefix s String.[] = true
has_prefix String.[] (String.◌∷◌ d p) = false
has_prefix (String.◌∷◌ c s) (String.◌∷◌ d p) = code c == code d && has_prefix s p

-- `strings.Contains`
unfoldable pub contains_text : String → String → Bool
unfolding has_prefix
contains_text String.[] part = has_prefix String.[] part
contains_text (String.◌∷◌ c s) part = has_prefix (String.◌∷◌ c s) part || contains_text s part
