-- ===== src/Scheduler/Timers.antt =====
-- The timers that a scheduler hands out (sylar/concurrency/scheduler.cpp: `RunAt`, `RunAfter` and their
-- forms with a condition). `now` is the reading of the steady clock. Time points and
-- durations are numbers without a bound: the overflow of the 64-bit sum, after some 292 years, is not
-- modelled.
use sylar_study.Prelude.{
  ℕ, ◌+◌, ◌≡◌, ◌≢◌, ap, ◌∙◌, Bool, true, false, ◌||◌, none, some, ==_refl, if◌then◌else◌, Outcome,
  ok, ◌>>=◌,
}
use sylar_study.Timer.{
  Timer, TimerManager, Callback, tp_max, add_timer, add_condition_timer, get_next_timer_id,
  has_timer,
}
use sylar_study.Timer.Order.{at, or_else}
use sylar_study.Timer.Laws.{Inv, has_timer-add_timer, at-add_timer}

-- The manager of the scheduler's poller, and the counter of timer ids.
pub record Alarms : Type 0 where
  pub manager : TimerManager
  pub next_id : ℕ

abbrev pub new_timer : ℕ → ℕ → ℕ → Callback → Timer
new_timer id tp interval cb = record { id = id; timeout_tp = tp; interval = interval; cb = cb }

-- What the four calls do with a time point and an interval.
abbrev pub schedule : ℕ → ℕ → Callback → Alarms → Outcome (Alarms × ℕ)
schedule tp interval cb a =
    let next = get_next_timer_id a.next_id in
    add_timer a.manager (new_timer next.0 tp interval cb) >>= λ m.
    ok (record { manager = m; next_id = next.1 }, next.0)

abbrev pub schedule_if : ℕ → ℕ → ℕ → Callback → Alarms → Outcome (Alarms × ℕ)
schedule_if tp interval cond cb a =
    let next = get_next_timer_id a.next_id in
    add_condition_timer a.manager (new_timer next.0 tp interval cb) cond >>= λ m.
    ok (record { manager = m; next_id = next.1 }, next.0)

pub run_at : ℕ → Callback → Alarms → Outcome (Alarms × ℕ)
run_at tp cb a = schedule tp 0 cb a

pub run_at_if : ℕ → ℕ → Callback → Alarms → Outcome (Alarms × ℕ)
run_at_if tp cond cb a = schedule_if tp 0 cond cb a

pub run_after : ℕ → ℕ → Callback → Bool → Alarms → Outcome (Alarms × ℕ)
unfolding run_at
run_after now dur cb repeated a =
    if repeated then schedule (now + dur) dur cb a else run_at (now + dur) cb a

pub run_after_if : ℕ → ℕ → ℕ → Callback → Bool → Alarms → Outcome (Alarms × ℕ)
unfolding run_at_if
run_after_if now dur cond cb repeated a =
    if repeated then schedule_if (now + dur) dur cond cb a else run_at_if (now + dur) cond cb a

schedule-has_timer :
    (tp interval : ℕ) (cb : Callback) (a : Alarms)
    → Inv a.manager
    → tp ≢ tp_max
    → at tp a.manager.timers ≡ none
    → (a' : Alarms) × (id : ℕ) × (schedule tp interval cb a ≡ ok (a', id))
      × (has_timer a'.manager id ≡ true)
      × (at tp a'.manager.timers ≡ some (new_timer id tp interval cb))
schedule-has_timer tp interval cb a v n free =
    let next = get_next_timer_id a.next_id in
    let t = new_timer next.0 tp interval cb in
    let r = has_timer-add_timer a.manager t next.0 n free in
    (
      record { manager = r.0; next_id = next.1 },
      next.0,
      ap (λ o. o >>= λ m. ok (record { manager = m; next_id = next.1 }, next.0)) r.1,
      r.2 ∙ ap (λ b. b || has_timer a.manager next.0) (==_refl next.0),
      at-add_timer a.manager t tp v r.1
          ∙ ap
              (λ b. if b then some (or_else (at tp a.manager.timers) t) else at tp a.manager.timers)
              (==_refl tp)
          ∙ ap (λ o. some (or_else o t)) free,
    )

-- `RunAfter` for a time at which no timer is due yet, which is not the largest time point: it
-- returns an id that `HasTimer` then finds, and the timer due at that time has this id, the
-- callback, and the duration as its interval exactly when it was to repeat.
pub run_after-has_timer :
    (now dur : ℕ) (cb : Callback) (repeated : Bool) (a : Alarms)
    → Inv a.manager
    → now + dur ≢ tp_max
    → at (now + dur) a.manager.timers ≡ none
    → (a' : Alarms) × (id : ℕ) × (run_after now dur cb repeated a ≡ ok (a', id))
      × (has_timer a'.manager id ≡ true)
      × (at (now + dur) a'.manager.timers
          ≡ some (new_timer id (now + dur) (if repeated then dur else 0) cb))
unfolding run_after
run_after-has_timer now dur cb true a v n free = schedule-has_timer (now + dur) dur cb a v n free
run_after-has_timer now dur cb false a v n free = schedule-has_timer (now + dur) 0 cb a v n free
