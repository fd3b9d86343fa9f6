-- ===== src/Base/Rat.antt =====
-- Exact rationals, the values of Go's `big.Rat`: a numerator and a positive denominator.
-- `big.Rat` keeps the fraction in lowest terms; here it is not reduced, and values are compared
-- by `cmp` only, as the source does.
use tictick_hi.Base.{
  ℕ, suc, ◌+◌, ◌-◌, ◌*◌, ◌≤◌, ◌<◌, ◌≡◌, refl, ◌↔◌, Bool, true, false, arith, ltb, leb,
}
use tictick_hi.Base.Int.{ℤ, pos, negsuc, pos_part, neg_part, ◌+ℤ◌, ◌-ℤ◌, ◌*ℤ◌}

-- The value is `num / (den_pred + 1)`.
pub record Rat : Type 0 where
  pub num : ℤ
  pub den_pred : ℕ

abbrev pub den : Rat → ℕ
den r = suc r.den_pred

abbrev pub rat : ℤ → ℕ → Rat
rat n d = record { num = n; den_pred = d }

unfoldable pub zero_rat : Rat
zero_rat = rat (pos 0) 0

-- Cross multiplication: the two numbers whose order is the order of the fractions.
abbrev pub left_cross : Rat → Rat → ℕ
left_cross a b = pos_part a.num * den b + neg_part b.num * den a

abbrev pub right_cross : Rat → Rat → ℕ
right_cross a b = pos_part b.num * den a + neg_part a.num * den b

infix 50 ◌≤ℚ◌
pub ◌≤ℚ◌ : Rat → Rat → Type 0
a ≤ℚ b = left_cross a b ≤ right_cross a b

-- `a.Cmp(b) < 0`
unfoldable pub lt_rat : Rat → Rat → Bool
lt_rat a b = ltb (left_cross a b) (right_cross a b)

-- `a.Cmp(b) <= 0`
unfoldable pub le_rat : Rat → Rat → Bool
le_rat a b = leb (left_cross a b) (right_cross a b)

unfoldable pub add_rat : Rat → Rat → Rat
add_rat a b = rat (a.num *ℤ pos (den b) +ℤ b.num *ℤ pos (den a)) (a.den_pred * den b + b.den_pred)

unfoldable pub sub_rat : Rat → Rat → Rat
sub_rat a b = rat (a.num *ℤ pos (den b) -ℤ b.num *ℤ pos (den a)) (a.den_pred * den b + b.den_pred)

unfoldable pub mul_rat : Rat → Rat → Rat
mul_rat a b = rat (a.num *ℤ b.num) (a.den_pred * den b + b.den_pred)

-- `a.Quo(b)` with the sign of `b` moved to the numerator. Go panics where `b` is zero; no caller
-- divides by zero.
unfoldable pub quo_rat : Rat → Rat → Rat
quo_rat a b = elim b.num [
  | pos n ↦ rat (a.num *ℤ pos (den b)) (den a * n - 1)
  | negsuc n ↦ rat (a.num *ℤ negsuc b.den_pred) (den a * suc n - 1)
]

-- `r.Sign() > 0`
unfoldable pub is_pos : Rat → Bool
is_pos a = ltb 0 (pos_part a.num)

abbrev pub IsNonneg : Rat → Type 0
IsNonneg a = neg_part a.num ≡ 0

abbrev pub IsPositive : Rat → Type 0
IsPositive a = 0 < pos_part a.num

pub is_pos-IsPositive : (a : Rat) → is_pos a ≡ true → IsPositive a
unfolding is_pos
is_pos-IsPositive a h = ground arith

pub IsPositive-IsNonneg : (a : Rat) → IsPositive a → IsNonneg a
IsPositive-IsNonneg a h = ground arith

pub zero_rat-IsNonneg : IsNonneg zero_rat
unfolding zero_rat
zero_rat-IsNonneg = refl

pub add_rat-IsNonneg : (a b : Rat) → IsNonneg a → IsNonneg b → IsNonneg (add_rat a b)
unfolding add_rat ◌+ℤ◌ ◌*ℤ◌
add_rat-IsNonneg a b h k = ground arith

pub sub_rat-IsNonneg : (a b : Rat) → lt_rat a b ≡ false → IsNonneg (sub_rat a b)
unfolding sub_rat ◌-ℤ◌ ◌*ℤ◌ lt_rat
sub_rat-IsNonneg a b h = ground arith

pub lt_rat_iff : (a b : Rat) → (lt_rat a b ≡ false) ↔ (b ≤ℚ a)
unfolding lt_rat ◌≤ℚ◌
lt_rat_iff a b = ground arith

pub lt_rat-zero : (a : Rat) → (lt_rat a zero_rat ≡ false) ↔ IsNonneg a
unfolding lt_rat zero_rat
lt_rat-zero a = ground arith

pub le_rat-zero : (a : Rat) → (le_rat a zero_rat ≡ false) ↔ IsPositive a
unfolding le_rat zero_rat
le_rat-zero a = ground arith

pub lt_rat_irrefl : (a : Rat) → lt_rat a a ≡ false
unfolding lt_rat
lt_rat_irrefl a = ground arith
