-- ===== src/Notification/Runner/Spacing.antt =====
-- internal/notification/runner.go: how far apart the calls of the providers are.
use tictick_hi.Base.{
  ℕ, ◌+◌, ◌≤◌, String, true, false, ◌≡◌, sym, subst, inl, inr, Option, none, some, List, [], ◌∷◌,
  ◌++◌, Bool-cases, Option-cases, arith, leb, Result, ok, err, refl, ◌∙◌,
}
use tictick_hi.Notification.Runner.{
  Config, NotificationDelivery, Environment, Event, slept, delivering, released, marked_failed,
  marked_delivered, Delivered, throttle_wait, throttled, deliver, settle_delivery, settled_as,
  run_one, next_attempt_at, call_provider, undelivered,
}

abbrev pub since : Option ℕ → ℕ
since none = 0
since (some last) = last

-- The clock runs forward, and the sleep of the pass, where it is not interrupted, lasts as long as
-- it was asked to.
pub record RunsForward {E : Type 0} (c : Config) (env : Environment E) (last : Option ℕ)
    : Type 0 where
  pub began : since last ≤ env.throttled_at
  pub slept :
      env.sleep (throttle_wait c last env.throttled_at) ≡ none
      → env.throttled_at + throttle_wait c last env.throttled_at ≤ env.started_at
  pub direct : env.throttled_at ≤ env.started_at
  pub ended : env.started_at ≤ env.finished_at

-- A call of a provider starts at least `gap` after the last one ended.
abbrev pub AfterLast : ℕ → Option ℕ → ℕ → Type 0
AfterLast gap none t = Unit
AfterLast gap (some last) t = last + gap ≤ t

abbrev pub Starts : ℕ → Option ℕ → List Event → Type 0
Starts gap last [] = Unit
Starts gap last (delivering t ∷ es) = AfterLast gap last t × Starts gap last es
Starts gap last (slept n ∷ es) = Starts gap last es
Starts gap last (released ∷ es) = Starts gap last es
Starts gap last (marked_failed n m ∷ es) = Starts gap last es
Starts gap last (marked_delivered n s m ∷ es) = Starts gap last es

-- When the last call of a provider ended, after the events of a pass: the clock is read when the
-- provider returns. What the runner keeps of it has no part.
abbrev pub call_end : {E : Type 0} → Environment E → Option ℕ → List Event → Option ℕ
call_end env ended [] = ended
call_end env ended (delivering t ∷ es) = call_end env (some env.finished_at) es
call_end env ended (slept n ∷ es) = call_end env ended es
call_end env ended (released ∷ es) = call_end env ended es
call_end env ended (marked_failed n m ∷ es) = call_end env ended es
call_end env ended (marked_delivered n s m ∷ es) = call_end env ended es

-- `last` is what the runner has kept, and `ended` the end of the last call.
abbrev pub AreSpaced :
    {E : Type 0}
    → Config
    → List (Environment E × Result E (Option NotificationDelivery))
    → Option ℕ
    → Option ℕ
    → Type 0
AreSpaced c [] last ended = Unit
AreSpaced c ((env, claim) ∷ passes) last ended =
    let pass = run_one c env claim last in
    Starts c.provider_min_interval ended pass.events
    × AreSpaced c passes pass.last (call_end env ended pass.events)

abbrev pub AllForward :
    {E : Type 0}
    → Config
    → List (Environment E × Result E (Option NotificationDelivery))
    → Option ℕ
    → Option ℕ
    → Type 0
AllForward c [] last ended = Unit
AllForward c ((env, claim) ∷ passes) last ended =
    let pass = run_one c env claim last in
    RunsForward c env ended × AllForward c passes pass.last (call_end env ended pass.events)

Starts-append :
    (gap : ℕ) (last : Option ℕ) (xs ys : List Event)
    → Starts gap last xs
    → Starts gap last ys
    → Starts gap last (xs ++ ys)
Starts-append gap last [] ys h k = k
Starts-append gap last (delivering t ∷ xs) ys h k = (h.0, Starts-append gap last xs ys h.1 k)
Starts-append gap last (slept n ∷ xs) ys h k = Starts-append gap last xs ys h k
Starts-append gap last (released ∷ xs) ys h k = Starts-append gap last xs ys h k
Starts-append gap last (marked_failed n m ∷ xs) ys h k = Starts-append gap last xs ys h k
Starts-append gap last (marked_delivered n s m ∷ xs) ys h k = Starts-append gap last xs ys h k

module _ {E : Type 0} (c : Config) (env : Environment E) (last : Option ℕ) where
  throttled-awake : (wait : ℕ) → leb wait 0 ≡ true → throttled env wait last ≡ call_provider env []
  unfolding throttled
  throttled-awake wait h = ground arith

  throttled-woken :
      (wait : ℕ)
      → leb wait 0 ≡ false
      → env.sleep wait ≡ none
      → throttled env wait last ≡ call_provider env (slept wait ∷ [])
  unfolding throttled
  throttled-woken wait h e = ground arith

  throttled-interrupted :
      (wait : ℕ) (x : E)
      → leb wait 0 ≡ false
      → env.sleep wait ≡ some x
      → throttled env wait last ≡ undelivered (slept wait ∷ []) x last
  unfolding throttled
  throttled-interrupted wait x h e = ground arith

  call_provider-Starts :
      (gap : ℕ) (before : List Event)
      → Starts gap last before
      → AfterLast gap last env.started_at
      → Starts gap last (call_provider env before).events
  unfolding call_provider
  call_provider-Starts gap before h k =
      Starts-append gap last before (delivering env.started_at ∷ []) h (k, tt)

  throttled-Starts :
      (gap wait : ℕ)
      → env.throttled_at ≤ env.started_at
      → (env.sleep wait ≡ none → env.throttled_at + wait ≤ env.started_at)
      → ((t : ℕ) → env.throttled_at + wait ≤ t → AfterLast gap last t)
      → Starts gap last (throttled env wait last).events
  throttled-Starts gap wait direct whole late = elim (Bool-cases (leb wait 0)) [
    | inl none_needed ↦
        subst (λ r. Starts gap last r.events) (sym (throttled-awake wait none_needed))
          (call_provider-Starts gap [] tt (late env.started_at (ground arith)))
    | inr needed ↦ elim (Option-cases (env.sleep wait)) [
      | inl woken ↦
          subst (λ r. Starts gap last r.events) (sym (throttled-woken wait needed woken))
            (call_provider-Starts gap (slept wait ∷ []) tt (late env.started_at (whole woken)))
      | inr (x, interrupted) ↦
          subst (λ r. Starts gap last r.events)
            (sym (throttled-interrupted wait x needed interrupted)) tt
    ]
  ]

late_enough :
    {E : Type 0} (c : Config) (env : Environment E) (last : Option ℕ) (t : ℕ)
    → env.throttled_at + throttle_wait c last env.throttled_at ≤ t
    → AfterLast c.provider_min_interval last t
unfolding throttle_wait
late_enough c env none t h = tt
late_enough c env (some n) t h = omega arith

in_time :
    {E : Type 0} (c : Config) (env : Environment E) (last : Option ℕ) (t : ℕ)
    → RunsForward c env last
    → leb c.provider_min_interval 0 ≡ true
    → env.throttled_at + 0 ≤ t
    → AfterLast c.provider_min_interval last t
in_time c env none t f free h = tt
in_time c env (some n) t f free h = let b = f.began in ground arith

module _ {E : Type 0} (c : Config) (env : Environment E) (last : Option ℕ) where
  deliver-missing : (x : E) → env.no_provider ≡ some x → deliver c env last ≡ undelivered [] x last
  unfolding deliver
  deliver-missing x h = ground arith

  deliver-free :
      env.no_provider ≡ none
      → leb c.provider_min_interval 0 ≡ true
      → deliver c env last ≡ throttled env 0 last
  unfolding deliver
  deliver-free h free = ground arith

  deliver-bound :
      env.no_provider ≡ none
      → leb c.provider_min_interval 0 ≡ false
      → deliver c env last ≡ throttled env (throttle_wait c last env.throttled_at) last
  unfolding deliver
  deliver-bound h bound = ground arith

  deliver-Starts :
      RunsForward c env last → Starts c.provider_min_interval last (deliver c env last).events
  deliver-Starts f =
      let gap = c.provider_min_interval in
      elim (Option-cases env.no_provider) [
        | inr (x, missing) ↦
            subst (λ r. Starts gap last r.events) (sym (deliver-missing x missing)) tt
        | inl found ↦ elim (Bool-cases (leb gap 0)) [
          | inl free ↦
              subst (λ r. Starts gap last r.events) (sym (deliver-free found free))
                (throttled-Starts c env last gap 0 f.direct
                  (λ woken. let d = f.direct in omega arith) (λ t. in_time c env last t f free))
          | inr bound ↦
              subst (λ r. Starts gap last r.events) (sym (deliver-bound found bound))
                (throttled-Starts c env last gap (throttle_wait c last env.throttled_at) f.direct
                  f.slept (λ t. late_enough c env last t))
        ]
      ]

settled_as-Starts :
    {E : Type 0} (c : Config) (env : Environment E) (d : NotificationDelivery) (r : Delivered E)
    (result : Result E String) (gap : ℕ) (last : Option ℕ)
    → Starts gap last (settled_as c env d r result ∷ [])
unfolding settled_as
settled_as-Starts c env d r (ok message_id) gap last = tt
settled_as-Starts c env d r (err e) gap last = elim (Bool-cases env.done) [
  | inl done ↦
      subst (λ f. Starts gap last (f ∷ []))
        (let f : released ≡ settled_as c env d r (err e) = ground arith in f) tt
  | inr running ↦
      subst (λ f. Starts gap last (f ∷ []))
        (let f : marked_failed (next_attempt_at c d env.failed_at) r.duration
              ≡ settled_as c env d r (err e) =
            ground arith in
          f)
        tt
]

throttled-call_end :
    {E : Type 0} (c : Config) (env : Environment E) (wait : ℕ) (last : Option ℕ)
    → (throttled env wait last).last ≡ call_end env last (throttled env wait last).events
unfolding throttled call_provider
throttled-call_end c env wait last = elim (Bool-cases (leb wait 0)) [
  | inl none_needed ↦ rw none_needed refl
  | inr needed ↦ elim (Option-cases (env.sleep wait)) [
    | inl woken ↦ rw (needed, woken) refl
    | inr (x, interrupted) ↦ rw (needed, interrupted) refl
  ]
]

deliver-call_end :
    {E : Type 0} (c : Config) (env : Environment E) (last : Option ℕ)
    → (deliver c env last).last ≡ call_end env last (deliver c env last).events
unfolding deliver
deliver-call_end c env last = elim (Option-cases env.no_provider) [
  | inr (x, missing) ↦ rw missing refl
  | inl found ↦ elim (Bool-cases (leb c.provider_min_interval 0)) [
    | inl free ↦ rw (found, free) (throttled-call_end c env 0 last)
    | inr bound ↦
        rw (found, bound) (throttled-call_end c env (throttle_wait c last env.throttled_at) last)
  ]
]

settled_as-call_end :
    {E : Type 0} (c : Config) (env : Environment E) (d : NotificationDelivery) (r : Delivered E)
    (result : Result E String) (ended : Option ℕ) (es : List Event)
    → call_end env ended (es ++ settled_as c env d r result ∷ []) ≡ call_end env ended es
unfolding settled_as
settled_as-call_end c env d r (ok message_id) ended [] = refl
settled_as-call_end c env d r (err e) ended [] = elim (Bool-cases env.done) [
  | inl done ↦ rw done refl
  | inr running ↦ rw running refl
]
settled_as-call_end c env d r result ended (delivering t ∷ es) =
    settled_as-call_end c env d r result (some env.finished_at) es
settled_as-call_end c env d r result ended (slept n ∷ es) =
    settled_as-call_end c env d r result ended es
settled_as-call_end c env d r result ended (released ∷ es) =
    settled_as-call_end c env d r result ended es
settled_as-call_end c env d r result ended (marked_failed n m ∷ es) =
    settled_as-call_end c env d r result ended es
settled_as-call_end c env d r result ended (marked_delivered n s m ∷ es) =
    settled_as-call_end c env d r result ended es

-- Over any run of the worker, from a time that the runner has kept as the end of the last call (or
-- none, at the start), where the clock runs forward and a sleep that is not interrupted lasts as long
-- as it was asked to, every call of a provider starts at least the minimal interval after the time
-- that the call before it returned, in whichever pass that was.
pub run_one-AreSpaced :
    {E : Type 0} (c : Config)
    (passes : List (Environment E × Result E (Option NotificationDelivery))) (last : Option ℕ)
    → AllForward c passes last last
    → AreSpaced c passes last last
unfolding run_one settle_delivery
run_one-AreSpaced c [] last h = tt
run_one-AreSpaced c ((env, err e) ∷ passes) last h = (tt, run_one-AreSpaced c passes last h.1)
run_one-AreSpaced c ((env, ok none) ∷ passes) last h = (tt, run_one-AreSpaced c passes last h.1)
run_one-AreSpaced c ((env, ok (some d)) ∷ passes) last h =
    let r = deliver c env last in
    let same : r.last ≡ call_end env last (r.events ++ settled_as c env d r r.result ∷ []) =
      deliver-call_end c env last ∙ sym (settled_as-call_end c env d r r.result last r.events) in
    (
      Starts-append c.provider_min_interval last r.events (settled_as c env d r r.result ∷ [])
          (deliver-Starts c env last h.0)
          (settled_as-Starts c env d r r.result c.provider_min_interval last),
      subst (AreSpaced c passes r.last) same
          (run_one-AreSpaced c passes r.last (subst (AllForward c passes r.last) (sym same) h.1)),
    )
