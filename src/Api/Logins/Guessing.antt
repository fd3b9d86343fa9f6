-- ===== src/Api/Logins/Guessing.antt =====
-- internal/web/api/auth.go: how many passwords can be tried for one key.
use Prim.Native.Nat.{max}
use tictick_hi.Base.{
  ℕ, zero, suc, ◌+◌, ◌-◌, ◌≤◌, ◌<◌, String, true, false, ◌&&◌, ◌||◌, ◌≡◌, refl, sym, subst, ◌∙◌,
  ◌⊎◌, inl, inr, Option, none, some, Bool-cases, arith, ltb, leb, str_eq, str_eq_iff,
}
use tictick_hi.Data.Query.{blank}
use tictick_hi.Api.Logins.{
  LoginLimit, LoginLimits, LoginLimiter, LoginOutcome, Logins, fields_required, too_many_attempts,
  is_locked, is_over, with_limit, check_login_rate_limit, failed_row, record_login_failure,
  begin_login, finish_login, idle, after_begin, after_finish, Step, begun, finished, elsewhere,
  Reaches, at_once, step_on,
}

module _ (limiter : LoginLimiter) (key : String) (slots start finish : ℕ) where
  -- What is known after a number of failures, the first of them not before the start.
  record IsCounted (n : ℕ) (row : LoginLimit) : Type 0 where
    counted : row.failure_count ≡ n
    in_time : start ≤ row.first_failure_at
    locks : limiter.limit ≤ n → (u : ℕ) × (row.locked_until ≡ some u) × (finish < u)
    opens : n < limiter.limit → row.locked_until ≡ none

  abbrev Counted : ℕ → LoginLimits → Type 0
  Counted zero limits = limits (limiter.hash key) ≡ none
  Counted (suc n) limits =
      (row : LoginLimit) × (limits (limiter.hash key) ≡ some row) × IsCounted (suc n) row

  with_limit-here :
      (row : Option LoginLimit) (limits : LoginLimits)
      → with_limit (limiter.hash key) row limits (limiter.hash key) ≡ row
  with_limit-here row limits =
      let same : str_eq (limiter.hash key) (limiter.hash key) ≡ true = (str_eq_iff _ _).1 refl in
      rw same refl

  failed_row-first :
      (t : ℕ)
      → start ≤ t
      → finish < t + limiter.lockout
      → IsCounted 1 (failed_row t limiter.limit limiter.window limiter.lockout none)
  unfolding failed_row
  failed_row-first t early late = record {
    counted = refl;
    in_time = early;
    locks = λ l.
        let over : leb limiter.limit 1 ≡ true = ground arith in
        (t + limiter.lockout, rw over refl, late);
    opens = λ l. let under : leb limiter.limit 1 ≡ false = ground arith in rw under refl;
  }

  failed_row-next :
      (t n : ℕ) (row : LoginLimit)
      → (limiter.window ≡ 0) ⊎ (t ≤ start + limiter.window)
      → finish < t + limiter.lockout
      → IsCounted n row
      → IsCounted (suc n) (failed_row t limiter.limit limiter.window limiter.lockout (some row))
  unfolding failed_row
  failed_row-next t n row window late c =
      let begun = c.in_time in
      let goes_on : (ltb 0 limiter.window && ltb row.first_failure_at (t - limiter.window))
          ≡ false =
        elim window [ inl without ↦ ground arith | inr within ↦ ground arith ] in
      let counts : row.failure_count + 1 ≡ suc n = (let k = c.counted in omega arith) in
      record {
        counted = rw goes_on counts;
        in_time = rw goes_on begun;
        locks = λ l.
            let over : leb limiter.limit (row.failure_count + 1) ≡ true = ground arith in
            (t + limiter.lockout, rw (goes_on, over) refl, late);
        opens = λ l.
            let under : leb limiter.limit (row.failure_count + 1) ≡ false = ground arith in
            rw (goes_on, under) refl;
      }

  begin_login-blank :
      (username password : String) (now : ℕ) (limits : LoginLimits)
      → (blank username || blank password) ≡ true
      → begin_login limiter key username password now limits ≡ (some fields_required, limits)
  unfolding begin_login
  begin_login-blank username password now limits b = rw b refl

  begin_login-locked :
      (username password : String) (now : ℕ) (limits : LoginLimits) (row : LoginLimit)
      → (blank username || blank password) ≡ false
      → limits (limiter.hash key) ≡ some row
      → is_locked row.locked_until now ≡ true
      → begin_login limiter key username password now limits ≡ (some too_many_attempts, limits)
  unfolding begin_login check_login_rate_limit
  begin_login-locked username password now limits row b h locked = rw (b, h, locked) refl

  begin_login-open :
      (username password : String) (now : ℕ) (limits : LoginLimits) (row : LoginLimit)
      → (blank username || blank password) ≡ false
      → limits (limiter.hash key) ≡ some row
      → is_locked row.locked_until now ≡ false
      → is_over limiter.window row now ≡ false
      → begin_login limiter key username password now limits ≡ (none, limits)
  unfolding begin_login check_login_rate_limit
  begin_login-open username password now limits row b h unlocked within =
      rw (b, h, unlocked, within) refl

  begin_login-new :
      (username password : String) (now : ℕ) (limits : LoginLimits)
      → (blank username || blank password) ≡ false
      → limits (limiter.hash key) ≡ none
      → begin_login limiter key username password now limits ≡ (none, limits)
  unfolding begin_login check_login_rate_limit
  begin_login-new username password now limits b h = rw (b, h) refl

  finish_login-here :
      (t : ℕ) (limits : LoginLimits) (row : Option LoginLimit)
      → limits (limiter.hash key) ≡ row
      → (finish_login limiter key t false limits).1 (limiter.hash key)
        ≡ some (failed_row t limiter.limit limiter.window limiter.lockout row)
  unfolding finish_login record_login_failure
  finish_login-here t limits row h = rw (
    with_limit-here
        (some
          (failed_row t limiter.limit limiter.window limiter.lockout (limits (limiter.hash key))))
        limits,
    h,
  )

  -- Wrong passwords only, checked and recorded between the start and the finish.
  abbrev pub IsGuess : {s t : Logins} → Step limiter key slots s t → Type 0
  IsGuess (begun s username password now w) = (start ≤ now) × (now ≤ finish)
  IsGuess (finished s failed_at accepted w) =
      (start ≤ failed_at) × (failed_at ≤ finish) × (accepted ≡ false)
  IsGuess (elsewhere s limits e) = Unit

  abbrev pub AreGuesses : {s t : Logins} → Reaches limiter key slots s t → Type 0
  AreGuesses at_once = Unit
  AreGuesses (step_on r s) = AreGuesses r × IsGuess s

  -- Every password that was looked at has failed or is waited for.
  record IsBounded (s : Logins) : Type 0 where
    failures : ℕ
    held : Counted failures s.limits
    total : failures + s.waiting ≡ s.tried
    few : s.tried + 1 ≤ max 1 limiter.limit + slots

  -- The start and the finish are no further apart than the window, if there is one, and closer than
  -- the lockout.
  pub record IsShort : Type 0 where
    pub window : (limiter.window ≡ 0) ⊎ (finish ≤ start + limiter.window)
    pub lockout : finish < start + limiter.lockout

  Counted-moved :
      (n : ℕ) (limits limits' : LoginLimits)
      → limits' (limiter.hash key) ≡ limits (limiter.hash key)
      → Counted n limits
      → Counted n limits'
  Counted-moved zero limits limits' e h = e ∙ h
  Counted-moved (suc n) limits limits' e (row, h, c) = (row, e ∙ h, c)

  Counted-finish :
      (t n : ℕ) (limits : LoginLimits)
      → IsShort
      → start ≤ t
      → t ≤ finish
      → Counted n limits
      → Counted (suc n) (finish_login limiter key t false limits).1
  Counted-finish t zero limits short from to none_yet =
      let lockout = short.lockout in
      (
        failed_row t limiter.limit limiter.window limiter.lockout none,
        finish_login-here t limits none none_yet,
        failed_row-first t from (omega arith),
      )
  Counted-finish t (suc n) limits short from to (row, found, c) =
      let lockout = short.lockout in
      let within : (limiter.window ≡ 0) ⊎ (t ≤ start + limiter.window) = elim short.window [
        | inl w ↦ inl w
        | inr w ↦ inr (omega arith)
      ] in
      (
        failed_row t limiter.limit limiter.window limiter.lockout (some row),
        finish_login-here t limits (some row) found,
        failed_row-next t (suc n) row within (omega arith) c,
      )

  -- A request that is let through finds room under the limit.
  begin_login-Counted :
      (username password : String) (now n : ℕ) (limits : LoginLimits)
      → IsShort
      → start ≤ now
      → now ≤ finish
      → Counted n limits
      → ((o : LoginOutcome) × (begin_login limiter key username password now limits
            ≡ (some o, limits)))
        ⊎ ((n < max 1 limiter.limit)
            × (begin_login limiter key username password now limits ≡ (none, limits)))
  begin_login-Counted username password now n limits short from to h =
      elim (Bool-cases (blank username || blank password)) [
        | inl b ↦ inl (fields_required, begin_login-blank username password now limits b)
        | inr named ↦ asked n h named
      ]
    where
      asked :
          (m : ℕ)
          → Counted m limits
          → (blank username || blank password) ≡ false
          → ((o : LoginOutcome) × (begin_login limiter key username password now limits
                ≡ (some o, limits)))
            ⊎ ((m < max 1 limiter.limit)
                × (begin_login limiter key username password now limits ≡ (none, limits)))
      asked zero none_yet named =
          inr (omega arith, begin_login-new username password now limits named none_yet)
      asked (suc m) (row, found, c) named = elim (Bool-cases (leb limiter.limit (suc m))) [
        | inl full ↦
            let (u, until, later) = c.locks (ground arith) in
            let locked : is_locked row.locked_until now ≡ true = rw until (ground arith) in
            inl (
              too_many_attempts,
              begin_login-locked username password now limits row named found locked,
            )
        | inr some_left ↦
            let early = c.in_time in
            let unlocked : is_locked row.locked_until now ≡ false =
              rw (c.opens (ground arith)) refl in
            let current : is_over limiter.window row now ≡ false = elim short.window [
              | inl without ↦ ground arith
              | inr inside ↦ ground arith
            ] in
            inr (
              ground arith,
              begin_login-open username password now limits row named found unlocked current,
            )
      ]

  Step-IsBounded :
      {s t : Logins} (step : Step limiter key slots s t)
      → IsShort
      → IsGuess step
      → IsBounded s
      → IsBounded t
  Step-IsBounded (begun s username password now room) short g h =
      let total = h.total in
      elim (begin_login-Counted username password now h.failures s.limits short g.0 g.1 h.held) [
        | inl (o, e) ↦
            subst (λ x. IsBounded (after_begin s x)) (sym e)
              (record { failures = h.failures; held = h.held; total = h.total; few = h.few })
        | inr (left, e) ↦
            subst (λ x. IsBounded (after_begin s x)) (sym e)
              (record {
                failures = h.failures;
                held = h.held;
                total = omega arith;
                few = omega arith;
              })
      ]
  Step-IsBounded (finished s failed_at accepted busy) short g h =
      let total = h.total in
      subst (λ a. IsBounded (after_finish s (finish_login limiter key failed_at a s.limits)))
        (sym g.2)
        (record {
          failures = suc h.failures;
          held = Counted-finish failed_at h.failures s.limits short g.0 g.1 h.held;
          total = omega arith;
          few = h.few;
        })
  Step-IsBounded (elsewhere s limits e) short g h = record {
    failures = h.failures;
    held = Counted-moved h.failures s.limits limits e h.held;
    total = h.total;
    few = h.few;
  }

  Reaches-IsBounded :
      {s t : Logins} (path : Reaches limiter key slots s t)
      → IsShort
      → AreGuesses path
      → IsBounded s
      → IsBounded t
  Reaches-IsBounded at_once short g h = h
  Reaches-IsBounded (step_on r step) short g h =
      Step-IsBounded step short g.1 (Reaches-IsBounded r short g.0 h)

  -- Requests with wrong passwords for one key, which has no failures recorded and no request in
  -- hand, in any order of their checks and records between two times that are no further apart than
  -- the window, if there is one, and closer than the lockout: where at most `slots` of them are
  -- between their check and their record at once, fewer passwords are looked at than the limit (or
  -- one, where the limit is 0) and `slots` together. Served one by one, they are no more than the
  -- limit; side by side, at most as many more as wait beside the last one.
  pub tried-lt :
      (limits : LoginLimits) (s : Logins) (path : Reaches limiter key slots (idle limits) s)
      → IsShort
      → AreGuesses path
      → limits (limiter.hash key) ≡ none
      → s.tried < max 1 limiter.limit + slots
  tried-lt limits s path short g none_yet =
      let h =
        Reaches-IsBounded path short g
          (record { failures = 0; held = none_yet; total = refl; few = omega arith }) in
      let few = h.few in omega arith
