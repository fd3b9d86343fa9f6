-- ===== src/Data/Cursor/RoundTrip.antt =====
-- internal/data/candle_cursor.go: a token is read back as the cursor that it was made from.
use tictick_hi.Base.{◌≤◌, ◌<◌, ◌≡◌, String, false, Option, some, arith, ok, >>=-eq-ok}
use tictick_hi.Data.Query.{blank, max_candle_limit, validate_candle_query_range}
use tictick_hi.Data.Cursor.{
  CandleCursor, normal_cursor, validate_candle_cursor, encode_candle_cursor, decode_candle_cursor,
  candle_cursor_version, cursor_query, marshal_failed, or_refuse,
}

-- If `unmarshal` reads what `marshal` writes, and no token is blank, then what the encoder makes of
-- a cursor the decoder accepts, and gives back the cursor with its version set and its limit
-- normalised.
pub decode-encode_candle_cursor :
    (marshal : CandleCursor → Option String) (unmarshal : String → Option CandleCursor)
    (c : CandleCursor) (token : String)
    → ((d : CandleCursor) (t : String) → marshal d ≡ some t → unmarshal t ≡ some d)
    → ((d : CandleCursor) (t : String) → marshal d ≡ some t → blank t ≡ false)
    → encode_candle_cursor marshal c ≡ ok token
    → decode_candle_cursor unmarshal token ≡ ok (normal_cursor c)
unfolding encode_candle_cursor decode_candle_cursor
decode-encode_candle_cursor marshal unmarshal c token reads shown h =
    let (u, valid, h1) = >>=-eq-ok (validate_candle_cursor (normal_cursor c)) _ h in
    let written = or_refuse-some (marshal (normal_cursor c)) h1 in
    rw (shown (normal_cursor c) token written, reads (normal_cursor c) token written, valid)
  where
    or_refuse-some : (m : Option String) → or_refuse marshal_failed m ≡ ok token → m ≡ some token
    or_refuse-some m e = ground arith

-- Every cursor that the decoder accepts names the version in use, does not run backwards, has a
-- limit from 1 to 5000, and passes the check of query ranges.
pub decode_candle_cursor_valid :
    (unmarshal : String → Option CandleCursor) (token : String) (c : CandleCursor)
    → decode_candle_cursor unmarshal token ≡ ok c
    → (c.version ≡ candle_cursor_version)
      × (c.from ≤ c.to)
      × (0 < c.limit)
      × (c.limit ≤ max_candle_limit)
      × (validate_candle_query_range (cursor_query c) ≡ ok tt)
unfolding decode_candle_cursor validate_candle_cursor
decode_candle_cursor_valid unmarshal token c h = ground arith
