-- ===== src/Data/Cursor.antt =====
-- internal/data/candle_cursor.go: page cursors. The token's coding, JSON in base64, is `marshal`
-- and `unmarshal`. The zero time of Go lies before the epoch and does not occur.
pub mod RoundTrip
use tictick_hi.Base.{
  ℕ, String, Bool, not, ◌&&◌, ◌||◌, Option, none, some, ltb, leb, ◌==◌, if◌then◌else◌, Result, ok,
  err, ◌>>=◌, ◌>>◌, refuse_if, map_err, str_eq,
}
use tictick_hi.Data.Model.{CandleQuery}
use tictick_hi.Data.Query.{
  QueryError, normalize_candle_limit, max_candle_limit, blank, validate_candle_query_range,
}

abbrev pub candle_cursor_version : ℕ
candle_cursor_version = 1

pub record CandleCursor : Type 0 where
  pub version : ℕ
  pub exchange : String
  pub symbol : String
  pub interval : String
  pub from : ℕ
  pub to : ℕ
  pub limit : ℕ

pub data CursorError : Type 0 where
  cursor_required cursor_invalid marshal_failed version_unsupported context_incomplete : CursorError
  window_invalid limit_invalid : CursorError
  range_refused : QueryError → CursorError

unfoldable pub new_candle_cursor : CandleQuery → ℕ → ℕ → ℕ → CandleCursor
new_candle_cursor q from to limit = record {
  version = candle_cursor_version;
  exchange = q.exchange;
  symbol = q.symbol;
  interval = q.interval;
  from = from;
  to = to;
  limit = normalize_candle_limit limit;
}

abbrev pub cursor_query : CandleCursor → CandleQuery
cursor_query c = record {
  exchange = c.exchange;
  symbol = c.symbol;
  interval = c.interval;
  from = some c.from;
  to = some c.to;
  limit = c.limit;
}

unfoldable pub validate_candle_cursor : CandleCursor → Result CursorError (Unit {0})
validate_candle_cursor c = do
  refuse_if (not (c.version == candle_cursor_version)) version_unsupported
  refuse_if (str_eq c.exchange "" || (str_eq c.symbol "" || str_eq c.interval ""))
      context_incomplete
  refuse_if (ltb c.to c.from) window_invalid
  refuse_if (leb c.limit 0 || ltb max_candle_limit c.limit) limit_invalid
  map_err range_refused (validate_candle_query_range (cursor_query c))

abbrev pub normal_cursor : CandleCursor → CandleCursor
normal_cursor c = record c {
  version = candle_cursor_version;
  limit = normalize_candle_limit c.limit;
}

unfoldable pub matches_query : CandleCursor → CandleQuery → Bool
matches_query c q =
    str_eq c.exchange q.exchange && (str_eq c.symbol q.symbol && str_eq c.interval q.interval)

abbrev pub or_refuse {ℓ} : {A : Type ℓ} → CursorError → Option A → Result CursorError A
or_refuse e none = err e
or_refuse e (some a) = ok a

module _ (marshal : CandleCursor → Option String) where
  unfoldable pub encode_candle_cursor : CandleCursor → Result CursorError String
  encode_candle_cursor c = do
    validate_candle_cursor (normal_cursor c)
    or_refuse marshal_failed (marshal (normal_cursor c))

module _ (unmarshal : String → Option CandleCursor) where
  unfoldable pub decode_candle_cursor : String → Result CursorError CandleCursor
  decode_candle_cursor token = do
    refuse_if (blank token) cursor_required
    c ← or_refuse cursor_invalid (unmarshal token)
    validate_candle_cursor c
    ok c
