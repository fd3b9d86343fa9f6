-- ===== src/WorkerLease/Joining.antt =====
-- internal/workerlease/heartbeat.go: what a run that has returned says of its heartbeats.
use tictick_hi.Base.{
  Bool, true, false, ◌≡◌, ◌⊎◌, inl, inr, refl, subst, arith, Option, none, some, ◌∷◌, All,
  Bool-cases,
}
use tictick_hi.WorkerLease.{
  Work, working, worked, returned, Lease, start, run_outcome, send, Step, parent_canceled,
  beat_answered, beat_failed, beat_stopped, work_ended, joined, Reaches, at_once, step_on,
}

module _ {E : Type 0} (is_canceled : E → Bool) where
  abbrev pub IsAnswered : Option E → Type 0
  IsAnswered none = Unit
  IsAnswered (some e) = ⊥

  -- What the work says of the rest: while it runs nothing is known, once it has ended the context
  -- is cancelled, and a run that has returned has no goroutine left, and no error hidden.
  abbrev IsConsistent : Lease E → Work E → Type 0
  IsConsistent l working = Unit
  IsConsistent l (worked r) = l.canceled ≡ true
  IsConsistent l (returned (some e)) = (l.canceled ≡ true) × (l.beating ≡ false)
  IsConsistent l (returned none) =
      (l.canceled ≡ true) × (l.beating ≡ false) × All IsAnswered l.answers

  -- A failed heartbeat is in the channel, or the run has returned its error.
  abbrev HasError : Option E → Work E → Type 0
  HasError (some e) w = Unit
  HasError none (returned (some e)) = Unit
  HasError none w = ⊥

  record IsKept (l : Lease E) : Type 0 where
    quiet : All IsAnswered l.answers ⊎ ((l.beating ≡ false) × HasError l.reported l.work)
    consistent : IsConsistent l l.work

  start-IsKept : (first : Option E) → IsKept (start is_canceled first)
  unfolding start
  start-IsKept none = record { quiet = inl (tt, tt); consistent = tt }
  start-IsKept (some e) = record { quiet = inr (refl, tt); consistent = (refl, refl) }

  canceled-IsConsistent :
      (l : Lease E) (w : Work E) → IsConsistent l w → IsConsistent (record l { canceled = true }) w
  canceled-IsConsistent l working h = tt
  canceled-IsConsistent l (worked r) h = refl
  canceled-IsConsistent l (returned none) h = (refl, h.1, h.2)
  canceled-IsConsistent l (returned (some e)) h = (refl, h.1)

  answered-IsConsistent :
      (l : Lease E) (w : Work E)
      → IsConsistent l w
      → IsConsistent (record l { answers = none ∷ l.answers }) w
  answered-IsConsistent l working h = tt
  answered-IsConsistent l (worked r) h = h
  answered-IsConsistent l (returned none) h = (h.0, h.1, (tt, h.2))
  answered-IsConsistent l (returned (some e)) h = h

  abbrev failed : Lease E → E → Lease E
  failed l e = record l {
    canceled = true;
    beating = false;
    reported = send is_canceled l.reported e;
    answers = some e ∷ l.answers;
  }

  failed-IsConsistent :
      (l : Lease E) (e : E) (w : Work E)
      → l.beating ≡ true
      → IsConsistent l w
      → IsConsistent (failed l e) w
  failed-IsConsistent l e working b h = tt
  failed-IsConsistent l e (worked r) b h = refl
  failed-IsConsistent l e (returned none) b h = absurd (ground arith)
  failed-IsConsistent l e (returned (some x)) b h = (refl, refl)

  send-HasError : (old : Option E) (e : E) (w : Work E) → HasError (send is_canceled old e) w
  unfolding send
  send-HasError none e w = tt
  send-HasError (some old) e w = tt

  stopped-IsConsistent :
      (l : Lease E) (w : Work E) → IsConsistent l w → IsConsistent (record l { beating = false }) w
  stopped-IsConsistent l working h = tt
  stopped-IsConsistent l (worked r) h = h
  stopped-IsConsistent l (returned none) h = (h.0, refl, h.2)
  stopped-IsConsistent l (returned (some e)) h = (h.0, refl)

  -- The error of a heartbeat outlasts the end of the work, and the return.
  HasError-worked :
      (reported : Option E) (r : Option E)
      → HasError reported working
      → HasError reported (worked r)
  HasError-worked (some e) r h = tt
  HasError-worked none r h = h

  outcome-IsConsistent :
      (l : Lease E) (r : Option E) (reported : Option E)
      → l.canceled ≡ true
      → l.beating ≡ false
      → (All IsAnswered l.answers) ⊎ ((l.beating ≡ false) × HasError reported (worked r))
      → IsConsistent l (returned (run_outcome is_canceled r reported))
  unfolding run_outcome
  outcome-IsConsistent l none none c b (inl quiet) = (c, b, quiet)
  outcome-IsConsistent l none none c b (inr loud) = absurd loud.1
  outcome-IsConsistent l (some x) none c b q = (c, b)
  outcome-IsConsistent l none (some e) c b q = (c, b)
  outcome-IsConsistent l (some x) (some e) c b q = elim (Bool-cases (is_canceled x)) [
    | inl stop ↦ rw stop (c, b)
    | inr other ↦ rw other (c, b)
  ]

  outcome-HasError :
      (reported r : Option E)
      → HasError reported (worked r)
      → HasError reported (returned (run_outcome is_canceled r reported))
  outcome-HasError (some e) r h = tt
  outcome-HasError none r h = absurd h

  joined-quiet :
      (l : Lease E) (r : Option E)
      → (All IsAnswered l.answers) ⊎ ((l.beating ≡ false) × HasError l.reported (worked r))
      → (All IsAnswered l.answers)
        ⊎ ((l.beating ≡ false)
            × HasError l.reported (returned (run_outcome is_canceled r l.reported)))
  joined-quiet l r (inl q) = inl q
  joined-quiet l r (inr q) = inr (q.0, outcome-HasError l.reported r q.1)

  Step-IsKept : {l m : Lease E} → Step is_canceled l m → IsKept l → IsKept m
  Step-IsKept (parent_canceled l) k = record {
    quiet = k.quiet;
    consistent = canceled-IsConsistent l l.work k.consistent;
  }
  Step-IsKept (beat_answered l b) k = record {
    quiet = elim k.quiet [ inl q ↦ inl (tt, q) | inr q ↦ absurd (ground arith) ];
    consistent = answered-IsConsistent l l.work k.consistent;
  }
  Step-IsKept (beat_failed l e b) k = record {
    quiet = inr (refl, send-HasError l.reported e l.work);
    consistent = failed-IsConsistent l e l.work b k.consistent;
  }
  Step-IsKept (beat_stopped l b c) k = record {
    quiet = elim k.quiet [ inl q ↦ inl q | inr q ↦ inr (refl, q.1) ];
    consistent = stopped-IsConsistent l l.work k.consistent;
  }
  Step-IsKept (work_ended l r w) k = record {
    quiet = elim k.quiet [
      | inl q ↦ inl q
      | inr q ↦ inr (q.0, HasError-worked l.reported r (subst (HasError l.reported) w q.1))
    ];
    consistent = refl;
  }
  Step-IsKept (joined l r w b) k =
      let quiet : (All IsAnswered l.answers)
          ⊎ ((l.beating ≡ false) × HasError l.reported (worked r)) =
        subst (λ x. (All IsAnswered l.answers) ⊎ ((l.beating ≡ false) × HasError l.reported x)) w
          k.quiet in
      let c : l.canceled ≡ true = subst (IsConsistent l) w k.consistent in
      record {
        quiet = joined-quiet l r quiet;
        consistent = outcome-IsConsistent l r l.reported c b quiet;
      }

  Reaches-IsKept : {l m : Lease E} → IsKept l → Reaches is_canceled l m → IsKept m
  Reaches-IsKept k at_once = k
  Reaches-IsKept k (step_on r s) = Step-IsKept s (Reaches-IsKept k r)

  -- A run that returns without an error has had no failed heartbeat, and it leaves a cancelled
  -- context and no goroutine behind: work that lost its lease is never taken for done.
  pub returned-IsAnswered :
      (first : Option E) (l : Lease E)
      → Reaches is_canceled (start is_canceled first) l
      → l.work ≡ returned none
      → (l.canceled ≡ true) × (l.beating ≡ false) × All IsAnswered l.answers
  returned-IsAnswered first l r w =
      subst (IsConsistent l) w (Reaches-IsKept (start-IsKept first) r).consistent

  -- The steps of the run itself once the work has returned: the goroutine sees the cancelled context
  -- and stops, and the caller joins it. The parent's context, heartbeats and work have no part.
  abbrev IsUnwinding : {l m : Lease E} → Step is_canceled l m → Type 0
  IsUnwinding (parent_canceled l) = ⊥
  IsUnwinding (beat_answered l b) = ⊥
  IsUnwinding (beat_failed l e b) = ⊥
  IsUnwinding (beat_stopped l b c) = Unit
  IsUnwinding (work_ended l r w) = ⊥
  IsUnwinding (joined l r w b) = Unit

  abbrev pub Unwinds : {l m : Lease E} → Reaches is_canceled l m → Type 0
  Unwinds at_once = Unit
  Unwinds (step_on r s) = Unwinds r × IsUnwinding s
