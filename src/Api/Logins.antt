-- ===== src/Api/Logins.antt =====
-- internal/web/api/auth_security.go, internal/store/postgres/auth_rate_limit_store.go and the start of
-- handleLogin of internal/web/api/auth.go: the limit on failed logins. The table of limits is a
-- function of the hashed key; a statement on it is atomic, and errors of the database, which end a
-- request, do not occur.
pub mod Guessing
use tictick_hi.Base.{
  ℕ, ◌+◌, ◌-◌, ◌<◌, ◌≡◌, String, Bool, true, false, ◌&&◌, ◌||◌, Option, none, some, ltb, leb,
  if◌then◌else◌, str_eq, append, trim_space, to_lower,
}
use tictick_hi.Data.Query.{blank}

pub record LoginLimit : Type 0 where
  pub failure_count : ℕ
  pub first_failure_at : ℕ
  pub locked_until : Option ℕ

abbrev pub LoginLimits : Type 0
LoginLimits = String → Option LoginLimit

abbrev pub with_limit : String → Option LoginLimit → LoginLimits → LoginLimits
with_limit key row limits = λ k. if str_eq k key then row else limits k

-- Durations are nanoseconds; a duration or limit that is not positive is 0 here. `hash` is SHA-256
-- in hexadecimal.
pub record LoginLimiter : Type 0 where
  pub limit : ℕ
  pub window : ℕ
  pub lockout : ℕ
  pub hash : String → String

abbrev pub is_locked : Option ℕ → ℕ → Bool
is_locked none now = false
is_locked (some until) now = ltb now until

abbrev pub clear_login_rate_limit : String → LoginLimits → LoginLimits
clear_login_rate_limit key limits = with_limit key none limits

abbrev pub is_over : ℕ → LoginLimit → ℕ → Bool
is_over window row now = ltb 0 window && ltb window (now - row.first_failure_at)

abbrev pub check_row : String → ℕ → ℕ → Option LoginLimit → LoginLimits → Bool × LoginLimits
check_row key now window none limits = (true, limits)
check_row key now window (some row) limits =
    if is_locked row.locked_until now
    then (false, limits)
    else if is_over window row now
    then (true, clear_login_rate_limit key limits)
    else (true, limits)

-- `CheckLoginRateLimit`
unfoldable pub check_login_rate_limit : String → ℕ → ℕ → LoginLimits → Bool × LoginLimits
check_login_rate_limit key now window limits = check_row key now window (limits key) limits

-- The row that a failure leaves: a new one, one that starts again where the first failure is before
-- the window, or one more failure. Without a window the start of it is the zero time.
unfoldable pub failed_row : ℕ → ℕ → ℕ → ℕ → Option LoginLimit → LoginLimit
failed_row now limit window lockout none = record {
  failure_count = 1;
  first_failure_at = now;
  locked_until = if leb limit 1 then some (now + lockout) else none;
}
failed_row now limit window lockout (some row) =
    let restarts = ltb 0 window && ltb row.first_failure_at (now - window) in
    let count = if restarts then 1 else row.failure_count + 1 in
    record {
      failure_count = count;
      first_failure_at = if restarts then now else row.first_failure_at;
      locked_until = if leb limit count then some (now + lockout) else none;
    }

-- `RecordLoginFailure`
unfoldable pub record_login_failure : String → ℕ → ℕ → ℕ → ℕ → LoginLimits → LoginLimits
unfolding failed_row
record_login_failure key now limit window lockout limits =
    with_limit key (some (failed_row now limit window lockout (limits key))) limits

-- The host of the remote address, where it can be split off.
abbrev pub host_or : String → Option String → String
host_or address none = address
host_or address (some host) = if str_eq host "" then address else host

abbrev pub login_limit_key : (String → Option String) → String → String → String
login_limit_key split_host address username =
    append (to_lower (trim_space username)) (append "|" (host_or address (split_host address)))

pub data LoginOutcome : Type 0 where
  fields_required too_many_attempts unauthorized authenticated : LoginOutcome

abbrev pub allow : LoginLimiter → String → ℕ → LoginLimits → Bool × LoginLimits
allow limiter key now limits = check_login_rate_limit (limiter.hash key) now limiter.window limits

abbrev pub record_failure : LoginLimiter → String → ℕ → LoginLimits → LoginLimits
record_failure limiter key now limits =
    record_login_failure (limiter.hash key) now limiter.limit limiter.window limiter.lockout limits

abbrev pub record_success : LoginLimiter → String → LoginLimits → LoginLimits
record_success limiter key limits = clear_login_rate_limit (limiter.hash key) limits

-- `handleLogin` up to the call of AuthenticateOperator: how the request ends there, or nothing
-- where the operator is asked for.
unfoldable pub begin_login :
    LoginLimiter → String → String → String → ℕ → LoginLimits → Option LoginOutcome × LoginLimits
begin_login limiter key username password now limits =
    let (allowed, checked) = allow limiter key now limits in
    if blank username || blank password
    then (some fields_required, limits)
    else if allowed
    then (none, checked)
    else (some too_many_attempts, checked)

-- From its answer on, up to the session: what is recorded of it. The clock is read again for a
-- failure.
unfoldable pub finish_login :
    LoginLimiter → String → ℕ → Bool → LoginLimits → LoginOutcome × LoginLimits
finish_login limiter key failed_at accepted limits =
    if accepted
    then (authenticated, record_success limiter key limits)
    else (unauthorized, record_failure limiter key failed_at limits)

-- The server answers requests side by side, and nothing holds them together: between the check of a
-- request and the record of its answer, others are checked and recorded. `waiting` is how many
-- requests of one key are between the two, and `tried` how many passwords have been looked at.
pub record Logins : Type 0 where
  pub limits : LoginLimits
  pub waiting : ℕ
  pub tried : ℕ

abbrev pub idle : LoginLimits → Logins
idle limits = record { limits = limits; waiting = 0; tried = 0 }

abbrev pub after_begin : Logins → Option LoginOutcome × LoginLimits → Logins
after_begin s (none, limits) = record {
  limits = limits;
  waiting = s.waiting + 1;
  tried = s.tried + 1;
}
after_begin s (some outcome, limits) = record s { limits = limits }

abbrev pub after_finish : Logins → LoginOutcome × LoginLimits → Logins
after_finish s (outcome, limits) = record s { limits = limits; waiting = s.waiting - 1 }

-- The steps of the requests of one key, of which no more than `slots` are between their check and
-- their record at any time, and of the rest of the server.
module _ (limiter : LoginLimiter) (key : String) (slots : ℕ) where
  pub data Step : Logins → Logins → Type 0 where
    begun :
        (s : Logins) (username password : String) (now : ℕ)
        → s.waiting < slots
        → Step s (after_begin s (begin_login limiter key username password now s.limits))
    finished :
        (s : Logins) (failed_at : ℕ) (accepted : Bool)
        → 0 < s.waiting
        → Step s (after_finish s (finish_login limiter key failed_at accepted s.limits))
    elsewhere :
        (s : Logins) (limits : LoginLimits)
        → limits (limiter.hash key) ≡ s.limits (limiter.hash key)
        → Step s (record s { limits = limits })

  pub data Reaches (s : Logins) : Logins → Type 0 where
    at_once : Reaches s s
    step_on : {t u : Logins} → Reaches s t → Step t u → Reaches s u
