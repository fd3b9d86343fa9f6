-- ===== src/MarketSync/Passes.antt =====
-- internal/marketsync/runner.go: what a pass over an exchange leaves behind.
use tictick_hi.Base.{
  ℕ, ◌+◌, ◌≤◌, String, Bool, true, false, ◌≡◌, refl, sym, subst, ◌⊎◌, inl, inr, Option, none, some,
  List, [], ◌∷◌, ◌++◌, Bool-cases, Result-cases, arith, if◌then◌else◌, Result, ok, err,
}
use tictick_hi.DataSync.Errors.{TaskError}
use tictick_hi.MarketSync.{
  Config, Call, locked, unlocked, fetched, replaced, recorded_failure, Environment, ExchangeResult,
  fetch_instruments, record_failure, replace_instruments, synced, finish_exchange, with_lock,
  run_exchange,
}

module _ {I : Type 0} where
  -- How often a lock is taken, released, and a failure recorded.
  abbrev pub locks : List (Call I) → ℕ
  locks [] = 0
  locks (locked ∷ cs) = 1 + locks cs
  locks (unlocked ∷ cs) = locks cs
  locks (fetched n ∷ cs) = locks cs
  locks (replaced is ∷ cs) = locks cs
  locks (recorded_failure e ∷ cs) = locks cs

  abbrev pub unlocks : List (Call I) → ℕ
  unlocks [] = 0
  unlocks (locked ∷ cs) = unlocks cs
  unlocks (unlocked ∷ cs) = 1 + unlocks cs
  unlocks (fetched n ∷ cs) = unlocks cs
  unlocks (replaced is ∷ cs) = unlocks cs
  unlocks (recorded_failure e ∷ cs) = unlocks cs

  abbrev pub failures : List (Call I) → ℕ
  failures [] = 0
  failures (locked ∷ cs) = failures cs
  failures (unlocked ∷ cs) = failures cs
  failures (fetched n ∷ cs) = failures cs
  failures (replaced is ∷ cs) = failures cs
  failures (recorded_failure e ∷ cs) = 1 + failures cs

module _ {I R : Type 0} (env : Environment I R) (c : Config) (exchange : String) where
  -- A pass is skipped, has the result of the replacement, or has an error.
  pub record IsPass (calls : List (Call I)) (r : ExchangeResult R) : Type 0 where
    pub named : r.exchange ≡ exchange
    pub balanced : locks calls ≡ unlocks calls
    pub once : locks calls ≤ 1
    pub skipped : r.skipped ≡ true → (calls ≡ []) × (r.error ≡ none)
    pub reported :
        (r.error ≡ none)
        ⊎ ((e : TaskError) × (r.error ≡ some e)
            × ((failures calls ≡ (if env.done then 0 else 1))
                ⊎ ((failures calls ≡ 0) × (env.unlock ≡ some e))))
    pub unfailed : r.error ≡ none → failures calls ≡ 0

  failures-record_failure :
      (e : TaskError) → failures (record_failure env e) ≡ (if env.done then 0 else 1)
  unfolding record_failure
  failures-record_failure e = ground arith

  locks-record_failure :
      (e : TaskError) → (locks (record_failure env e) ≡ 0) × (unlocks (record_failure env e) ≡ 0)
  unfolding record_failure
  locks-record_failure e = ground arith

  abbrev Passes : List (Call I) × ExchangeResult R → Type 0
  Passes o = IsPass o.0 o.1

  run_exchange-locked_out :
      (e : TaskError)
      → env.try_lock ≡ err e
      → run_exchange env c exchange ≡ (record_failure env e, synced exchange none (some e))
  unfolding run_exchange
  run_exchange-locked_out e h = ground arith

  run_exchange-free :
      (free : Bool)
      → env.try_lock ≡ ok free
      → free ≡ true
      → run_exchange env c exchange ≡ with_lock env c exchange
  unfolding run_exchange
  run_exchange-free free h p = ground arith

  run_exchange-held :
      (free : Bool)
      → env.try_lock ≡ ok free
      → free ≡ false
      → run_exchange env c exchange
        ≡ ([], record { exchange = exchange; result = none; error = none; skipped = true })
  unfolding run_exchange
  run_exchange-held free h p = ground arith

  some-ne-none : (e : TaskError) → ◌≡◌ {A = Option TaskError} (some e) none → ⊥
  some-ne-none e h = ground arith

  refused : (e : TaskError) → IsPass (record_failure env e) (synced exchange none (some e))
  refused e =
      let (l, u) = locks-record_failure e in
      record {
        named = refl;
        balanced = omega arith;
        once = omega arith;
        skipped = λ s. cc;
        reported = inr (e, refl, inl (failures-record_failure e));
        unfailed = λ x. absurd (some-ne-none e x);
      }

  -- The calls around the replacement, which takes and releases nothing itself.
  abbrev around : ℕ → List (Call I) → List (Call I) → List (Call I)
  around n replacing after = locked ∷ fetched n ∷ replacing ++ unlocked ∷ after

  failed-IsPass :
      (n : ℕ) (replacing : List (Call I)) (e : TaskError)
      → (replacing ≡ []) ⊎ ((is : List I) × (replacing ≡ replaced is ∷ []))
      → IsPass (around n replacing (record_failure env e)) (synced exchange none (some e))
  failed-IsPass n replacing e shape =
      let (l, u) = locks-record_failure e in
      let f = failures-record_failure e in
      elim shape [
        | inl p ↦
            subst (λ q. IsPass (around n q (record_failure env e)) (synced exchange none (some e)))
              (sym p)
              (record {
                named = refl;
                balanced = omega arith;
                once = omega arith;
                skipped = λ s. cc;
                reported = inr (e, refl, inl f);
                unfailed = λ x. absurd (some-ne-none e x);
              })
        | inr (is, p) ↦
            subst (λ q. IsPass (around n q (record_failure env e)) (synced exchange none (some e)))
              (sym p)
              (record {
                named = refl;
                balanced = omega arith;
                once = omega arith;
                skipped = λ s. cc;
                reported = inr (e, refl, inl f);
                unfailed = λ x. absurd (some-ne-none e x);
              })
      ]

  replaced-IsPass :
      (n : ℕ) (is : List I) (r : R) (u : Option TaskError)
      → env.unlock ≡ u
      → IsPass
          (around n (replaced is ∷ []) (finish_exchange env exchange (ok r) u).0)
          (finish_exchange env exchange (ok r) u).1
  unfolding finish_exchange
  replaced-IsPass n is r none h = record {
    named = refl;
    balanced = refl;
    once = omega arith;
    skipped = λ s. cc;
    reported = inl refl;
    unfailed = λ x. refl;
  }
  replaced-IsPass n is r (some e) h = record {
    named = refl;
    balanced = refl;
    once = omega arith;
    skipped = λ s. cc;
    reported = inr (e, refl, inr (refl, h));
    unfailed = λ x. refl;
  }

  finished-IsPass :
      (n : ℕ) (answer : Result TaskError (List I))
      → IsPass
          (around n
            (replace_instruments env answer).0
            (finish_exchange env exchange (replace_instruments env answer).1 env.unlock).0)
          (finish_exchange env exchange (replace_instruments env answer).1 env.unlock).1
  unfolding replace_instruments finish_exchange
  finished-IsPass n (err e) = failed-IsPass n [] e (inl refl)
  finished-IsPass n (ok is) = elim (Result-cases (env.replace is)) [
    | inl (e, p) ↦
        subst
          (λ q.
            IsPass (around n (replaced is ∷ []) (finish_exchange env exchange q env.unlock).0)
              (finish_exchange env exchange q env.unlock).1)
          (sym p) (failed-IsPass n (replaced is ∷ []) e (inr (is, refl)))
    | inr (r, p) ↦
        subst
          (λ q.
            IsPass (around n (replaced is ∷ []) (finish_exchange env exchange q env.unlock).0)
              (finish_exchange env exchange q env.unlock).1)
          (sym p) (replaced-IsPass n is r env.unlock refl)
  ]

  -- Every pass over an exchange answers for that exchange, releases the lock as often as it takes
  -- it, at most once, and makes no call where it is skipped. A pass with an error has recorded it as
  -- a failure once, unless the context is done, or it is the error of the unlocking alone; a pass
  -- without an error has recorded none.
  pub run_exchange-IsPass : IsPass (run_exchange env c exchange).0 (run_exchange env c exchange).1
  unfolding run_exchange with_lock
  run_exchange-IsPass = elim (Result-cases env.try_lock) [
    | inl (e, p) ↦ subst Passes (sym (run_exchange-locked_out e p)) (refused e)
    | inr (free, p) ↦ elim (Bool-cases free) [
      | inl yes_free ↦
          subst Passes (sym (run_exchange-free free p yes_free))
            (finished-IsPass (fetch_instruments env c).0 (fetch_instruments env c).1)
      | inr held ↦ subst Passes (sym (run_exchange-held free p held)) (record {
        named = refl;
        balanced = refl;
        once = omega arith;
        skipped = λ s. (refl, refl);
        reported = inl refl;
        unfailed = λ x. refl;
      })
    ]
  ]
