-- ===== src/Api/Symbols.antt =====
-- internal/web/api/validation.go: exchanges and their symbols, and the check of a data sync task. The
-- regular expressions are functions on the codes of a text.
pub mod Patterns
use tictick_hi.Base.{
  ℕ, ◌-◌, String, Bool, true, false, not, ◌&&◌, ◌||◌, Option, none, some, List, [], ◌∷◌, leb, ltb,
  ◌==◌, length, if◌then◌else◌, Result, ok, err, ◌>>=◌, ◌>>◌, refuse_if, map_err, str_eq, codes,
}
use tictick_hi.Data.Query.{WindowError, blank, validate_data_sync_task_window}

pub data SymbolError : Type 0 where
  wrong_binance_symbol wrong_okx_symbol wrong_exchange : SymbolError

-- `[A-Z0-9]`
abbrev pub is_upper_digit : ℕ → Bool
is_upper_digit c = (leb b'A' c && leb c b'Z') || (leb b'0' c && leb c b'9')

unfoldable pub all_upper_digit : List ℕ → Bool
all_upper_digit [] = true
all_upper_digit (c ∷ cs) = is_upper_digit c && all_upper_digit cs

-- `^[A-Z0-9]{3,30}$`
unfoldable pub matches_binance : List ℕ → Bool
unfolding all_upper_digit
matches_binance cs = all_upper_digit cs && (leb 3 (length cs) && leb (length cs) 30)

-- `^[A-Z0-9]+-[A-Z0-9]+(?:-[A-Z0-9]+)?$`: `parts` is how many more parts may follow this one, and
-- `some_read` whether this one has begun. A text may end in the second and in the third part.
unfoldable pub matches_parts : ℕ → Bool → List ℕ → Bool
matches_parts parts some_read [] = some_read && leb parts 1
matches_parts parts some_read (c ∷ cs) =
    let same = matches_parts parts true cs in
    let next = matches_parts (parts - 1) false cs in
    if is_upper_digit c
    then same
    else if c == b'-' && (some_read && ltb 0 parts)
    then next
    else false

unfoldable pub matches_okx : List ℕ → Bool
unfolding matches_parts
matches_okx cs = matches_parts 2 false cs

unfoldable pub validate_exchange_symbol : String → String → Result SymbolError (Unit {0})
unfolding matches_binance matches_okx
validate_exchange_symbol exchange symbol =
    if str_eq exchange "binance"
    then refuse_if (not (matches_binance (codes symbol))) wrong_binance_symbol
    else if str_eq exchange "okx"
    then refuse_if (not (matches_okx (codes symbol))) wrong_okx_symbol
    else err wrong_exchange

pub record CreateDataSyncTask : Type 0 where
  pub exchange : String
  pub symbol : String
  pub interval : String
  pub start_time : Option ℕ
  pub end_time : Option ℕ

pub data TaskRequestError : Type 0 where
  market_required : TaskRequestError
  symbol_refused : SymbolError → TaskRequestError
  window_refused : WindowError → TaskRequestError

unfoldable pub validate_create_task : CreateDataSyncTask → Result TaskRequestError (Unit {0})
validate_create_task task = do
  refuse_if (blank task.exchange || (blank task.symbol || blank task.interval)) market_required
  map_err symbol_refused (validate_exchange_symbol task.exchange task.symbol)
  map_err window_refused
      (validate_data_sync_task_window task.interval task.start_time task.end_time)
