-- ===== src/Data/Validation/Values.antt =====
-- internal/data/candle_validation.go, `validateCandleValues`: the prices that it lets through.
use tictick_hi.Base.{◌≡◌, ◌↔◌, String, Option, some, arith, ok, >>=-eq-ok}
use tictick_hi.Base.Rat.{Rat, lt_rat_iff, lt_rat-zero, le_rat-zero, ◌≤ℚ◌, IsPositive, IsNonneg}
use tictick_hi.Data.Model.{
  Candle, Field, open_field, high_field, low_field, close_field, volume_field,
}
use tictick_hi.Data.Validation.{parsed, check_bounds, validate_candle_values, parse_candle_decimal}

-- All prices are positive, the volume is not negative, and the low and the high bound the rest.
pub record IsOhlc (opening high low close volume : Rat) : Type 0 where
  pub open_pos : IsPositive opening
  pub high_pos : IsPositive high
  pub low_pos : IsPositive low
  pub close_pos : IsPositive close
  pub volume_nonneg : IsNonneg volume
  pub open_high : opening ≤ℚ high
  pub close_high : close ≤ℚ high
  pub low_high : low ≤ℚ high
  pub low_open : low ≤ℚ opening
  pub low_close : low ≤ℚ close

pub check_bounds_iff : (o h l c v : Rat) → (check_bounds o h l c v ≡ ok tt) ↔ IsOhlc o h l c v
unfolding check_bounds
check_bounds_iff o h l c v = ground (
  arith,
  le_rat-zero o,
  le_rat-zero h,
  le_rat-zero l,
  le_rat-zero c,
  lt_rat-zero v,
  lt_rat_iff h o,
  lt_rat_iff h c,
  lt_rat_iff h l,
  lt_rat_iff o l,
  lt_rat_iff c l,
)

-- The five texts of a candle are decimals, and their values satisfy the bounds.
pub record HasOhlc (set_string : String → Option Rat) (k : Candle) : Type 0 where
  pub opening : Rat
  pub highest : Rat
  pub lowest : Rat
  pub closing : Rat
  pub amount : Rat
  pub open_parsed : set_string k.open_price ≡ some opening
  pub high_parsed : set_string k.high ≡ some highest
  pub low_parsed : set_string k.low ≡ some lowest
  pub close_parsed : set_string k.close ≡ some closing
  pub volume_parsed : set_string k.volume ≡ some amount
  pub ohlc : IsOhlc opening highest lowest closing amount

parsed-some : (f : Field) (m : Option Rat) {r : Rat} → parsed f m ≡ ok r → m ≡ some r
parsed-some f m h = ground arith

module _ (set_string : String → Option Rat) where
  parse_candle_decimal-some :
      (f : Field) (text : String) {r : Rat}
      → parse_candle_decimal set_string f text ≡ ok r
      → set_string text ≡ some r
  unfolding parse_candle_decimal
  parse_candle_decimal-some f text h = parsed-some f (set_string text) h

  validate_candle_values_sound :
      (k : Candle) → validate_candle_values set_string k ≡ ok tt → HasOhlc set_string k
  unfolding validate_candle_values
  validate_candle_values_sound k p0 =
      let (o, po, p1) = >>=-eq-ok (parse_candle_decimal set_string open_field k.open_price) _ p0 in
      let (h, ph, p2) = >>=-eq-ok (parse_candle_decimal set_string high_field k.high) _ p1 in
      let (l, pl, p3) = >>=-eq-ok (parse_candle_decimal set_string low_field k.low) _ p2 in
      let (c, pc, p4) = >>=-eq-ok (parse_candle_decimal set_string close_field k.close) _ p3 in
      let (v, pv, p5) = >>=-eq-ok (parse_candle_decimal set_string volume_field k.volume) _ p4 in
      record {
        opening = o;
        highest = h;
        lowest = l;
        closing = c;
        amount = v;
        open_parsed = parse_candle_decimal-some open_field k.open_price po;
        high_parsed = parse_candle_decimal-some high_field k.high ph;
        low_parsed = parse_candle_decimal-some low_field k.low pl;
        close_parsed = parse_candle_decimal-some close_field k.close pc;
        volume_parsed = parse_candle_decimal-some volume_field k.volume pv;
        ohlc = (check_bounds_iff o h l c v).0 p5;
      }

  validate_candle_values_complete :
      (k : Candle) → HasOhlc set_string k → validate_candle_values set_string k ≡ ok tt
  unfolding validate_candle_values parse_candle_decimal
  validate_candle_values_complete k w =
      rw (w.open_parsed, w.high_parsed, w.low_parsed, w.close_parsed, w.volume_parsed)
        ((check_bounds_iff w.opening w.highest w.lowest w.closing w.amount).1 w.ohlc)

  -- `validateCandleValues` accepts a candle exactly when its five texts are decimals whose values
  -- are positive (the volume: not negative) with the low and the high as bounds.
  pub validate_candle_values_iff :
      (k : Candle) → (validate_candle_values set_string k ≡ ok tt) ↔ HasOhlc set_string k
  validate_candle_values_iff k = (validate_candle_values_sound k, validate_candle_values_complete k)
