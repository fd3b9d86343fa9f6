-- ===== src/Notification/Runner/Settling.antt =====
-- internal/notification/runner.go: what becomes of a claimed delivery.
use tictick_hi.Base.{
  ℕ, ◌+◌, ◌-◌, String, true, false, ◌≡◌, refl, sym, subst, ◌⊎◌, inl, inr, Option, none, some, List,
  [], ◌∷◌, ◌++◌, Bool-cases, Option-cases, arith, leb, Result, ok, err, ◌∙◌,
}
use tictick_hi.Notification.Runner.{
  Config, NotificationDelivery, Environment, Event, slept, delivering, released, marked_failed,
  marked_delivered, Delivered, throttle_wait, throttled, deliver, settle_delivery, settled_as,
  run_one, next_attempt_at, call_provider, undelivered,
}

-- How often the provider is called, and how often the delivery is settled.
abbrev pub provider_calls : List Event → ℕ
provider_calls [] = 0
provider_calls (delivering t ∷ es) = 1 + provider_calls es
provider_calls (slept n ∷ es) = provider_calls es
provider_calls (released ∷ es) = provider_calls es
provider_calls (marked_failed n m ∷ es) = provider_calls es
provider_calls (marked_delivered n s m ∷ es) = provider_calls es

abbrev pub settlements : List Event → ℕ
settlements [] = 0
settlements (delivering t ∷ es) = settlements es
settlements (slept n ∷ es) = settlements es
settlements (released ∷ es) = 1 + settlements es
settlements (marked_failed n m ∷ es) = 1 + settlements es
settlements (marked_delivered n s m ∷ es) = 1 + settlements es

settlements-append : (xs ys : List Event) → settlements (xs ++ ys) ≡ settlements xs + settlements ys
settlements-append [] ys = omega arith
settlements-append (delivering t ∷ xs) ys = settlements-append xs ys
settlements-append (slept n ∷ xs) ys = settlements-append xs ys
settlements-append (released ∷ xs) ys = omega (arith, settlements-append xs ys)
settlements-append (marked_failed n m ∷ xs) ys = omega (arith, settlements-append xs ys)
settlements-append (marked_delivered n s m ∷ xs) ys = omega (arith, settlements-append xs ys)

module _ {E : Type 0} (c : Config) (env : Environment E) where
  -- A delivery that succeeded called the provider once; one that failed called it at most once.
  pub record IsDelivered (r : Delivered E) : Type 0 where
    pub unsettled : settlements r.events ≡ 0
    pub answered :
        ((provider_calls r.events ≡ 1)
          × (r.result ≡ env.answer)
          × (r.delivered_at ≡ env.finished_at)
          × (r.duration ≡ env.finished_at - env.started_at))
        ⊎ ((provider_calls r.events ≡ 0) × (r.duration ≡ 0) × ((e : E) × (r.result ≡ err e)))

  throttled-IsDelivered : (wait : ℕ) (last : Option ℕ) → IsDelivered (throttled env wait last)
  unfolding throttled call_provider
  throttled-IsDelivered wait last = elim (Bool-cases (leb wait 0)) [
    | inl now ↦ rw now (record { unsettled = refl; answered = inl (refl, refl, refl, refl) })
    | inr later ↦ elim (Option-cases (env.sleep wait)) [
      | inl woken ↦
          rw (later, woken) (record { unsettled = refl; answered = inl (refl, refl, refl, refl) })
      | inr (e, woken) ↦
          rw (later, woken) (record { unsettled = refl; answered = inr (refl, refl, (e, refl)) })
    ]
  ]

  deliver-missing :
      (last : Option ℕ) (e : E)
      → env.no_provider ≡ some e
      → deliver c env last ≡ undelivered [] e last
  unfolding deliver
  deliver-missing last e h = ground arith

  deliver-throttled :
      (last : Option ℕ)
      → env.no_provider ≡ none
      → (wait : ℕ) × (deliver c env last ≡ throttled env wait last)
  unfolding deliver
  deliver-throttled last h = elim (Bool-cases (leb c.provider_min_interval 0)) [
    | inl free ↦ (0, ground arith)
    | inr bound ↦ (throttle_wait c last env.throttled_at, ground arith)
  ]

  pub deliver-IsDelivered : (last : Option ℕ) → IsDelivered (deliver c env last)
  deliver-IsDelivered last = elim (Option-cases env.no_provider) [
    | inr (e, missing) ↦
        subst IsDelivered (sym (deliver-missing last e missing))
          (record { unsettled = refl; answered = inr (refl, refl, (e, refl)) })
    | inl found ↦
        let (wait, h) = deliver-throttled last found in
        subst IsDelivered (sym h) (throttled-IsDelivered wait last)
  ]

  -- Without an accepting answer: the time is that of the call that was refused, or none.
  abbrev pub IsUnanswered : List Event → ℕ → Type 0
  IsUnanswered before duration =
      ((provider_calls before ≡ 0) × (duration ≡ 0))
      ⊎ ((e : E) × (provider_calls before ≡ 1)
          × (env.answer ≡ err e)
          × (duration ≡ env.finished_at - env.started_at))

  -- What a pass makes of a claimed delivery: the provider was called once and accepted it, and it is
  -- marked as delivered with the provider's answer; or the provider was not called, or refused it,
  -- and it is released where the context is done, and marked as failed where it is not.
  pub data IsSettling (d : NotificationDelivery) (before : List Event) : Event → Type 0 where
    accepted :
        (message_id : String)
        → provider_calls before ≡ 1
        → env.answer ≡ ok message_id
        → IsSettling d before
            (marked_delivered env.finished_at message_id (env.finished_at - env.started_at))
    stopped :
        (duration : ℕ)
        → IsUnanswered before duration
        → env.done ≡ true
        → IsSettling d before released
    failed :
        (duration : ℕ)
        → IsUnanswered before duration
        → env.done ≡ false
        → IsSettling d before (marked_failed (next_attempt_at c d env.failed_at) duration)

  settled_as-failed :
      (d : NotificationDelivery) (r : Delivered E) (x : E) (before : List Event)
      → IsUnanswered before r.duration
      → IsSettling d before (settled_as c env d r (err x))
        × (settlements (settled_as c env d r (err x) ∷ []) ≡ 1)
  unfolding settled_as
  settled_as-failed d r x before h = elim (Bool-cases env.done) [
    | inl done ↦
        subst (λ f. IsSettling d before f × (settlements (f ∷ []) ≡ 1))
          (let f : released ≡ settled_as c env d r (err x) = ground arith in f)
          (stopped r.duration h done, refl)
    | inr running ↦
        let next = next_attempt_at c d env.failed_at in
        subst (λ f. IsSettling d before f × (settlements (f ∷ []) ≡ 1))
          (let f : marked_failed next r.duration ≡ settled_as c env d r (err x) = ground arith in f)
          (failed r.duration h running, refl)
  ]

  settled_as-answered :
      (d : NotificationDelivery) (r : Delivered E) (result : Result E String)
      → provider_calls r.events ≡ 1
      → env.answer ≡ result
      → r.delivered_at ≡ env.finished_at
      → r.duration ≡ env.finished_at - env.started_at
      → IsSettling d r.events (settled_as c env d r result)
        × (settlements (settled_as c env d r result ∷ []) ≡ 1)
  unfolding settled_as
  settled_as-answered d r (ok message_id) once e at took =
      rw (at, took) (accepted message_id once e, refl)
  settled_as-answered d r (err x) once e at took =
      settled_as-failed d r x r.events (inr (x, once, e, took))

  settled_as-IsSettling :
      (d : NotificationDelivery) (r : Delivered E)
      → IsDelivered r
      → IsSettling d r.events (settled_as c env d r r.result)
        × (settlements (settled_as c env d r r.result ∷ []) ≡ 1)
  settled_as-IsSettling d r h = elim h.answered [
    | inl (once, same, at, took) ↦ settled_as-answered d r r.result once (sym same) at took
    | inr (never, took, (x, e)) ↦
        subst
          (λ q.
            IsSettling d r.events (settled_as c env d r q)
            × (settlements (settled_as c env d r q ∷ []) ≡ 1))
          (sym e) (settled_as-failed d r x r.events (inl (never, took)))
  ]

  -- A claimed delivery is settled by exactly one call, the last of the pass. Where the provider is
  -- called, once, and accepts the delivery, it is marked as delivered, with the provider's answer and
  -- the time that it took. Where the provider is not called, or refuses it, the delivery is released
  -- if the context is done, and marked as failed, with its next attempt, if it is not.
  pub run_one_settles :
      (d : NotificationDelivery) (last : Option ℕ)
      → (before : List Event) × (final : Event) × ((run_one c env (ok (some d)) last).events
          ≡ before ++ final ∷ [])
        × (settlements (run_one c env (ok (some d)) last).events ≡ 1)
        × IsSettling d before final
  unfolding run_one settle_delivery
  run_one_settles d last =
      let r = deliver c env last in
      let h = deliver-IsDelivered last in
      let (settling, one) = settled_as-IsSettling d r h in
      let final = settled_as c env d r r.result in
      (
        r.events,
        final,
        refl,
        settlements-append r.events (final ∷ []) ∙ (let u = h.unsettled in omega arith),
        settling,
      )
