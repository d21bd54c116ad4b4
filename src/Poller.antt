-- ===== src/Poller.antt =====
-- sylar/concurrency/epoll_poller.h and epoll_poller.cpp: the events of each file descriptor, their
-- registration in the epoll instance, and the dispatch of ready events as tasks.
mod Tests
pub mod Masks
pub mod Kernel
pub mod Table
pub mod Synced
pub mod Calls
pub mod Runs
pub mod Delivery
pub mod Lost
use sylar_study.Prelude.{
  ℕ, suc, zero, ◌+◌, Bool, true, false, not, ◌||◌, ◌&&◌, List, [], ◌∷◌, ◌++◌, map, Option, none,
  some, ◌==◌, if◌then◌else◌, Outcome, ok, fault, undefined, assertion, thrown, check, ◌>>=◌, ◌>>◌,
}
use sylar_study.Timer.{TimerManager, Callback, handle_expired}
use Masks.{Mask, zero_mask, et_bit, in_bit, out_bit, or, and, without, any}
use Kernel.{Op, add, mod_op, del, EpollKernel}

pub data StateIndex : Type 0 where
  is_new is_deleted is_added : StateIndex

-- `read_context` and `write_context`; an empty function and a null pointer are `none`. A coroutine
-- is its id.
pub record Context : Type 0 where
  pub func : Option Callback
  pub co : Option ℕ

abbrev pub no_context : Context
no_context = record { func = none; co = none }

pub record Event : Type 0 where
  pub fd : ℕ
  pub interest_event : Mask
  pub state : StateIndex
  pub read_context : Context
  pub write_context : Context

-- What is handed to `Scheduler::Co`.
pub data Task : Type 0 where
  call : Callback → Task
  resume : ℕ → Task

-- `kernel` is the epoll instance, `posted` what the poller has handed to the scheduler, and
-- `errors` the number of failed calls of `epoll_ctl`, which are only logged.
pub record Poller (K : Type 0) : Type 0 where
  pub kernel : K
  pub event_set : ℕ → Option Event
  pub timer_manager : TimerManager
  pub posted : List Task
  pub errors : ℕ

abbrev pub new_event : ℕ → Event
new_event fd = record {
  fd = fd;
  interest_event = zero_mask;
  state = is_new;
  read_context = no_context;
  write_context = no_context;
}

abbrev pub event_or_new : ℕ → Option Event → Event
event_or_new fd none = new_event fd
event_or_new fd (some e) = e

abbrev pub insert : ℕ → Event → (ℕ → Option Event) → ℕ → Option Event
insert fd e set i = if i == fd then some e else set i

abbrev pub is_state_added : StateIndex → Bool
is_state_added is_added = true
is_state_added _ = false

abbrev pub is_set {ℓ} : {A : Type ℓ} → Option A → Bool
is_set none = false
is_set (some a) = true

-- `if (func) … .func = func; else … .co = GetCurrentRunningCoroutine()`.
abbrev pub arm : Option Callback → ℕ → Context → Context
arm (some f) current c = record c { func = some f }
arm none current c = record c { co = some current }

abbrev pub post_task : Context → Task
post_task c = elim c.co [
  | some i ↦ resume i
  | none ↦ elim c.func [ some f ↦ call f | none ↦ resume 0 ]
]

-- The pointer or function handed over is moved from, which leaves it empty.
abbrev pub moved : Context → Context
moved c = elim c.co [ some i ↦ record c { co = none } | none ↦ record c { func = none } ]

-- One entry of the array that `epoll_wait` fills. A wake-up of the timerfd comes with the fuel
-- and the clock readings of the expiry loop.
pub data Ready : Type 0 where
  notified : Ready
  timer_fired : ℕ → (ℕ → ℕ) → Ready
  io : ℕ → Mask → Ready

-- What `epoll_wait` returns: a negative number with `EINTR` or another `errno`, zero, or entries.
pub data Wait : Type 0 where
  interrupted failed timed_out : Wait
  ready_events : List Ready → Wait

-- An error counts as input and as output.
abbrev pub with_error : Mask → Mask
with_error ready = if ready.has_err then or ready (or in_bit out_bit) else ready

abbrev pub wants_read : Mask → Bool
wants_read ready = ready.has_in || ready.has_rdhup || ready.has_pri

abbrev pub op_for : Event → Op
op_for e = if is_state_added e.state then mod_op else add

pub armed_for_update : Mask → Option Callback → ℕ → Event → Event
armed_for_update interest func current e = record e {
  state = is_added;
  read_context = if interest.has_in then arm func current e.read_context else e.read_context;
  write_context = if interest.has_out then arm func current e.write_context else e.write_context;
}

pub event_after_update : Mask → Option Callback → ℕ → Event → Event
unfolding armed_for_update
event_after_update interest func current e =
    armed_for_update interest func current (record e { interest_event = or et_bit interest })

-- The contexts as `AppendEvent` sets them: with no function, a coroutine that waits for output
-- goes into the read context.
pub armed_for_append : Mask → Option Callback → ℕ → Event → Event
armed_for_append interest (some f) current e = record e {
  read_context = if interest.has_in then arm (some f) current e.read_context else e.read_context;
  write_context =
      if interest.has_out then arm (some f) current e.write_context else e.write_context;
}
armed_for_append interest none current e = record e {
  read_context =
      if interest.has_in || interest.has_out
      then arm none current e.read_context
      else e.read_context;
}

pub event_after_append : Mask → Option Callback → ℕ → Event → Event
unfolding armed_for_append
event_after_append interest func current e =
    armed_for_append interest func current
      (record e { interest_event = or e.interest_event (or et_bit interest) })

-- What is left of the interest.
abbrev pub left_interest : Mask → Event → Mask
left_interest target e = without target e.interest_event

-- The event as the private `CancelEvent` leaves it: both tests reset the read context.
pub event_after_cancel : Mask → Event → Event
event_after_cancel target e =
    let e1 = record e { interest_event = left_interest target e } in
    let e2 = record e1 {
      state = if any (without et_bit (left_interest target e)) then e1.state else is_deleted;
    } in
    let e3 = record e2 { read_context = if target.has_in then no_context else e2.read_context } in
    record e3 { read_context = if target.has_out then no_context else e3.read_context }

module _ {K : Type 0} (E : EpollKernel K) where
  open E use {ctl}

  -- `Update`, for the event stored under `fd`.
  pub update : Op → Event → Poller K → Poller K
  update op e p =
      let (k, done) = ctl p.kernel op e.fd e.interest_event in
      record p { kernel = k; errors = if done then p.errors else p.errors + 1 }

  -- `GetOrCreateEventObj`.
  pub get_or_create_event_obj : ℕ → Poller K → Poller K × Event
  get_or_create_event_obj fd p =
      let e = event_or_new fd (p.event_set fd) in
      (record p { event_set = insert fd e p.event_set }, e)

  abbrev pub store_event : ℕ → Event → Poller K → Poller K
  store_event fd e p = record p { event_set = insert fd e p.event_set }

  -- `UpdateEvent` behind its assertion; `current` is the running coroutine.
  pub updated_event : ℕ → Mask → Option Callback → ℕ → Poller K → Poller K
  unfolding get_or_create_event_obj event_after_update update
  updated_event fd interest func current p =
      let (p1, e) = get_or_create_event_obj fd p in
      let e1 = record e { interest_event = or et_bit interest } in
      let p2 = update (op_for e1) e1 p1 in
      store_event fd (event_after_update interest func current e) p2

  pub update_event : ℕ → Mask → Option Callback → ℕ → Poller K → Outcome (Poller K)
  unfolding updated_event
  update_event fd interest func current p = do
    check (any interest)
    ok (updated_event fd interest func current p)

  -- `AppendEvent`; it does not set the state.
  pub append_event : ℕ → Mask → Option Callback → ℕ → Poller K → Poller K
  unfolding get_or_create_event_obj event_after_append update
  append_event fd interest func current p =
      let (p1, e) = get_or_create_event_obj fd p in
      let e1 = record e { interest_event = or e.interest_event (or et_bit interest) } in
      let p2 = update (op_for e1) e1 p1 in
      store_event fd (event_after_append interest func current e) p2

  -- The private `CancelEvent` behind its assertion.
  pub cancelled_event : ℕ → Event → Mask → Poller K → Poller K
  unfolding update event_after_cancel
  cancelled_event fd e target p =
      let e1 = record e { interest_event = left_interest target e } in
      let more = any (without et_bit (left_interest target e)) in
      store_event fd (event_after_cancel target e) (update (if more then mod_op else del) e1 p)

  pub cancel_on_event : ℕ → Event → Mask → Poller K → Outcome (Poller K)
  unfolding cancelled_event
  cancel_on_event fd e target p = do
    check (is_state_added e.state)
    ok (cancelled_event fd e target p)

  -- The public `CancelEvent`.
  pub cancel_event : ℕ → Mask → Poller K → Outcome (Poller K)
  unfolding get_or_create_event_obj cancel_on_event
  cancel_event fd target p =
      let (p1, e) = get_or_create_event_obj fd p in
      if any (and e.interest_event target) then cancel_on_event fd e target p1 else ok p1

  -- `EnqueueAndRemove` on one context: what the context becomes, and the task posted.
  enqueue_and_remove : Context → Outcome (Context × Task)
  enqueue_and_remove c = do check (is_set c.func || is_set c.co); ok (moved c, post_task c)

  pub enqueue_read : ℕ → Event → Poller K → Outcome (Event × Poller K)
  unfolding enqueue_and_remove
  enqueue_read fd e p = do
    (c, t) ← enqueue_and_remove e.read_context
    ok (record e { read_context = c }, record p { posted = p.posted ++ t ∷ [] })

  pub enqueue_write : ℕ → Event → Poller K → Outcome (Event × Poller K)
  unfolding enqueue_and_remove
  enqueue_write fd e p = do
    (c, t) ← enqueue_and_remove e.write_context
    ok (record e { write_context = c }, record p { posted = p.posted ++ t ∷ [] })

  pub read_if : Bool → ℕ → Event → Poller K → Outcome (Event × Poller K)
  unfolding enqueue_read
  read_if b fd e p = if b then enqueue_read fd e p else ok (e, p)

  pub write_if : Bool → ℕ → Event → Poller K → Outcome (Event × Poller K)
  unfolding enqueue_write
  write_if b fd e p = if b then enqueue_write fd e p else ok (e, p)

  -- `HandleEpollEvents`.
  pub handle_epoll_events : ℕ → Event → Mask → Poller K → Outcome (Event × Poller K)
  unfolding read_if write_if
  handle_epoll_events fd e ready p =
      let ready' = with_error ready in
      read_if (wants_read ready') fd e p >>= λ r. write_if ready'.has_out fd r.0 r.1

  -- The rest of the loop body of `HandleReadyEvents`, under the lock of the event.
  pub dispatch : ℕ → Mask → Poller K → Event → Outcome (Poller K)
  unfolding handle_epoll_events cancel_on_event
  dispatch fd ready p e =
      if any (and e.interest_event ready)
      then (handle_epoll_events fd e ready p >>= λ r. cancel_on_event fd r.0 ready r.1)
      else ok p

  -- The assertion is that the event is the one stored under its descriptor.
  pub handle_io : ℕ → Mask → Poller K → Outcome (Poller K)
  unfolding dispatch
  handle_io fd ready p = elim (p.event_set fd) [
    | none ↦ fault assertion
    | some e ↦ dispatch fd ready p e
  ]

  -- `HandleExpiredTimers` with the tasks posted; `none` means that the fuel ran out.
  fire_timers : ℕ → (ℕ → ℕ) → Poller K → Option (Outcome (Poller K))
  fire_timers fuel now p = elim (handle_expired fuel now p.timer_manager) [
    | none ↦ none
    | some r ↦
        some
          (do (m, cbs) ← r; ok (record p { timer_manager = m; posted = p.posted ++ map call cbs }))
  ]

  handle_ready : Ready → Poller K → Option (Outcome (Poller K))
  unfolding fire_timers handle_io
  handle_ready notified p = some (ok p)
  handle_ready (timer_fired fuel now) p = fire_timers fuel now p
  handle_ready (io fd ready) p = some (handle_io fd ready p)

  -- `HandleReadyEvents`.
  pub handle_ready_events : List Ready → Poller K → Option (Outcome (Poller K))
  unfolding handle_ready
  handle_ready_events [] p = some (ok p)
  handle_ready_events (r ∷ rs) p = elim (handle_ready r p) [
    | none ↦ none
    | some (fault e) ↦ some (fault e)
    | some (ok q) ↦ handle_ready_events rs q
  ]

  -- The loop of `PollAndHandle`, over the results of its calls of `epoll_wait`; `none` means that
  -- they end before one brings entries, or that a timer loop ran out of fuel.
  pub poll_and_handle : List Wait → Poller K → Option (Outcome (Poller K))
  unfolding handle_ready_events
  poll_and_handle [] p = none
  poll_and_handle (interrupted ∷ ws) p = poll_and_handle ws p
  poll_and_handle (failed ∷ ws) p = poll_and_handle ws p
  poll_and_handle (timed_out ∷ ws) p = poll_and_handle ws p
  poll_and_handle (ready_events rs ∷ ws) p = handle_ready_events rs p
