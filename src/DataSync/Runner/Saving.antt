-- ===== src/DataSync/Runner/Saving.antt =====
-- internal/datasync/runner.go, `syncTask`: what is saved, and the exchange lock.
use tictick_hi.Base.{
  ℕ, suc, ◌≡◌, refl, ap, ◌⊎◌, inl, inr, arith, Bool, true, false, not, String, Option, none, List,
  [], ◌∷◌, ok, Result-cases, Option-cases, Bool-cases, All,
}
use tictick_hi.Base.Rat.{Rat}
use tictick_hi.Data.Interval.{interval_duration}
use tictick_hi.Data.Model.{Candle}
use tictick_hi.Data.Validation.{validate_candle_series_for_target}
use tictick_hi.DataSync.Config.{Config}
use tictick_hi.DataSync.Schedule.{DataSyncTask, is_already_synced_through_end, sync_window}
use tictick_hi.DataSync.Cursor.{next_cursor_open_time}
use tictick_hi.DataSync.Fetch.{fetch_candles}
use tictick_hi.DataSync.Runner.{
  Call, save, lock_fetch, unlock_fetch, fetched, Environment, Outcome, DataSyncResult,
  closed_candles, save_result, store_batch, fetch_batch, lock_and_fetch, sync_task, window_is_empty,
}

closed_candles-closed :
    (cs : List Candle) → All (λ (c : Candle). c.is_closed ≡ true) (closed_candles cs)
unfolding closed_candles
closed_candles-closed [] = tt
closed_candles-closed (c ∷ cs) = ground (arith, closed_candles-closed cs)

abbrev pub count_unlocks : List Call → ℕ
count_unlocks [] = 0
count_unlocks (unlock_fetch ∷ cs) = suc (count_unlocks cs)
count_unlocks (_ ∷ cs) = count_unlocks cs

abbrev pub count_locks : List Call → ℕ
count_locks [] = 0
count_locks (lock_fetch ∷ cs) = suc (count_locks cs)
count_locks (_ ∷ cs) = count_locks cs

module _ (set_string : String → Option Rat) (task : DataSyncTask) (duration : ℕ) where
  -- What is saved: closed candles, a valid series of the task's own market and interval, with the
  -- cursor that these candles give or none.
  pub record IsSound (r : DataSyncResult) : Type 0 where
    pub all_closed : All (λ (c : Candle). c.is_closed ≡ true) r.candles
    pub valid :
        validate_candle_series_for_target set_string r.candles task.exchange task.symbol
          task.interval
        ≡ ok tt
    pub cursor :
        (r.last_open_time ≡ none)
        ⊎ (r.last_open_time ≡ next_cursor_open_time task.latest_synced_open_time duration r.candles)

  abbrev pub SavesSound : Call → Type 0
  SavesSound (save r) = IsSound r
  SavesSound _ = Unit

  pub record IsBalanced (locks unlocks : ℕ) (o : Outcome) : Type 0 where
    pub saves : All SavesSound o.0
    pub locked : count_locks o.0 ≡ locks
    pub unlocked : count_unlocks o.0 ≡ unlocks

  store_batch-IsBalanced :
      (env : Environment) (candles : List Candle)
      → IsBalanced 0 0 (store_batch set_string env task duration candles)
  unfolding store_batch
  store_batch-IsBalanced env candles =
      elim (Result-cases (
        validate_candle_series_for_target set_string (closed_candles candles) task.exchange
          task.symbol task.interval)) [
            | inl (e, p) ↦ rw (p, store_batch) (ground arith)
            | inr (u, p) ↦ elim (Option-cases env.beat) [
              | inl b ↦
                  rw (p, store_batch)
                    (rw b (record {
                      saves = (
                        tt,
                        (
                          record {
                            all_closed = closed_candles-closed candles;
                            valid = p;
                            cursor = inr refl;
                          },
                          tt,
                        ),
                      );
                      locked = refl;
                      unlocked = refl;
                    }))
              | inr (e, b) ↦ rw (p, store_batch) (rw b (ground arith))
            ]
          ]

  unlocked_first :
      (o : Outcome) (calls : ℕ)
      → IsBalanced 0 0 o
      → IsBalanced 0 1 (fetched calls ∷ unlock_fetch ∷ o.0, o.1)
  unlocked_first o calls b = record {
    saves = (tt, (tt, b.saves));
    locked = b.locked;
    unlocked = ap suc b.unlocked;
  }

  fetch_batch-IsBalanced :
      (env : Environment) (config : Config)
      → IsBalanced 0 1 (fetch_batch set_string env config task duration)
  unfolding fetch_batch
  fetch_batch-IsBalanced env config =
      let (calls, answer) =
        fetch_candles env.fetch env.wait_for_retry config.fetch_retries config.retry_delay in
      elim (Option-cases env.unlock) [
        | inr (e, p) ↦ rw (p, fetch_batch) (ground arith)
        | inl p ↦ elim (Result-cases answer) [
          | inl (e, q) ↦ rw (p, fetch_batch) (rw q (ground arith))
          | inr (candles, q) ↦
              rw (p, fetch_batch)
                (rw q (
                  unlocked_first (store_batch set_string env task duration candles) calls
                    (store_batch-IsBalanced env candles)))
        ]
      ]

  lock_and_fetch-IsBalanced :
      (env : Environment) (config : Config)
      → (n : ℕ) × IsBalanced n n (lock_and_fetch set_string env config task duration)
  unfolding lock_and_fetch
  lock_and_fetch-IsBalanced env config = elim (Bool-cases env.supports_locks) [
    | inr e ↦ rw e (0, ground arith)
    | inl s ↦ elim (Result-cases env.try_lock) [
      | inl (e, p) ↦ rw (s, p, lock_and_fetch) (0, ground arith)
      | inr (false, p) ↦ rw (s, p, lock_and_fetch) (0, ground arith)
      | inr (true, p) ↦
          let b = fetch_batch-IsBalanced env config in
          rw (s, p, lock_and_fetch)
            (1, record { saves = (tt, b.saves); locked = ap suc b.locked; unlocked = b.unlocked })
    ]
  ]

  valid_nothing :
      interval_duration task.interval ≡ ok duration
      → validate_candle_series_for_target set_string [] task.exchange task.symbol task.interval
        ≡ ok tt
  unfolding validate_candle_series_for_target
  valid_nothing e = rw e

  -- A result with no candles.
  empty_save-IsBalanced :
      (env : Environment) (completed : Bool)
      → interval_duration task.interval ≡ ok duration
      → IsBalanced 0 0 (
          save_result env (record {
            task_id = task.id;
            candles = [];
            last_open_time = none;
            completed = completed;
          }))
  unfolding save_result
  empty_save-IsBalanced env completed e = record {
    saves = (record { all_closed = tt; valid = valid_nothing e; cursor = inl refl }, tt);
    locked = refl;
    unlocked = refl;
  }

-- Every result that `syncTask` saves has closed candles only, which are a valid series of the
-- task's own exchange, symbol and interval, and the cursor that these candles give, or none; and
-- the exchange lock is released exactly as often as it is taken, on every path.
pub sync_task-IsBalanced :
    (set_string : String → Option Rat) (env : Environment) (config : Config) (task : DataSyncTask)
    (duration : ℕ)
    → interval_duration task.interval ≡ ok duration
    → (n : ℕ) × IsBalanced set_string task duration n n (sync_task set_string env config task)
unfolding sync_task
sync_task-IsBalanced set_string env config task duration e =
    elim (Bool-cases (is_already_synced_through_end task duration)) [
      | inl done ↦
          rw (e, sync_task) (rw done (0, empty_save-IsBalanced set_string task duration env true e))
      | inr open_end ↦ elim (Option-cases env.find_client) [
        | inr (x, p) ↦ rw (e, sync_task) (rw open_end (rw p (0, ground arith)))
        | inl p ↦ elim (Bool-cases (window_is_empty (sync_window config task duration env.now))) [
          | inl w ↦
              rw (e, sync_task)
                (rw open_end (
                  rw p (
                    rw w (
                      0,
                      empty_save-IsBalanced set_string task duration env (not task.realtime_enabled)
                          e,
                    ))))
          | inr w ↦
              rw (e, sync_task)
                (rw open_end
                  (rw p (rw w (lock_and_fetch-IsBalanced set_string task duration env config))))
        ]
      ]
    ]
