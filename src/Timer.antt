-- ===== src/Timer.antt =====
-- sylar/concurrency/timer_manager.h and timer_manager.cpp: the timer set, its timerfd and the
-- expiry loop. Time points and durations are numbers of nanoseconds since the epoch of the steady
-- clock, and are not negative; `std::set<Timer>` is a list in the order of `operator<`.
pub mod Order
pub mod Laws
pub mod Sweep
mod Tests
use sylar_study.Prelude.{
  ℕ, suc, zero, ◌+◌, ◌/◌, ◌%◌, ◌-◌, ◌^◌, Bool, true, false, not, ◌||◌, List, [], ◌∷◌, ◌++◌, map,
  Option, none, some, ltb, leb, ◌==◌, if◌then◌else◌, length, Outcome, ok, fault, check, ◌>>=◌, ◌>>◌,
  undefined,
}

-- A `std::function<void()>`: a user's function, or the closure that `AddConditionTimer` wraps
-- around one, which holds a weak pointer, or the function that a sleeping coroutine hands itself to
-- the scheduler with.
pub data Callback : Type 0 where
  func : ℕ → Callback
  if_alive : ℕ → Callback → Callback
  hand_over : ℕ → Callback

-- The user's functions that a call of the callback runs, where `alive` says whose owner lives.
pub invoke : (ℕ → Bool) → Callback → List ℕ
invoke alive (func f) = f ∷ []
invoke alive (hand_over i) = []
invoke alive (if_alive cond cb) = let rest = invoke alive cb in if alive cond then rest else []

pub record Timer : Type 0 where
  pub id : ℕ
  pub timeout_tp : ℕ
  pub interval : ℕ
  pub cb : Callback

pub is_repeated : Timer → Bool
is_repeated t = not (t.interval == 0)

pub set_expiration : Timer → ℕ → Timer
set_expiration t tp = record t { timeout_tp = tp }

-- `time_point::max()`.
abbrev pub tp_max : ℕ
tp_max = 2 ^ 63 - 1

-- `itimerspec::it_value`.
pub record TimeSpec : Type 0 where
  pub tv_sec : ℕ
  pub tv_nsec : ℕ

-- `timer_fd` is the value last given to `timerfd_settime`.
pub record TimerManager : Type 0 where
  pub timers : List Timer
  pub latest_time : ℕ
  pub timer_fd : TimeSpec

-- `std::set::insert`: an element that compares equal is kept, and the new one dropped.
pub insert : Timer → List Timer → List Timer
insert t [] = t ∷ []
insert t (u ∷ us) =
    if ltb t.timeout_tp u.timeout_tp
    then t ∷ u ∷ us
    else if ltb u.timeout_tp t.timeout_tp
    then u ∷ insert t us
    else u ∷ us

pub has_id : ℕ → List Timer → Bool
has_id i [] = false
has_id i (t ∷ ts) = t.id == i || has_id i ts

-- The first timer with the id, as `std::find_if` finds it, taken out.
pub erase_id : ℕ → List Timer → List Timer
erase_id i [] = []
erase_id i (t ∷ ts) = if t.id == i then ts else t ∷ erase_id i ts

-- `TimerManager::TimerManager`.
pub new_manager : TimerManager
new_manager = record {
  timers = [];
  latest_time = tp_max;
  timer_fd = record { tv_sec = 0; tv_nsec = 0 };
}

unfoldable pub time_spec : ℕ → TimeSpec
time_spec tp =
    if tp == tp_max
    then record { tv_sec = 0; tv_nsec = 0 }
    else record { tv_sec = tp / 1_000_000_000; tv_nsec = tp % 1_000_000_000 }

pub refresh_timer_fd : TimerManager → TimerManager
refresh_timer_fd m = record m { timer_fd = time_spec m.latest_time }

-- `latestTime_` as both `RemoveFromHeap` and `GetAllExpiredTimers` compute it.
unfoldable pub earliest : List Timer → ℕ
earliest [] = tp_max
earliest (t ∷ ts) = t.timeout_tp

latest_need_update : List Timer → Timer → Bool
latest_need_update [] t = true
latest_need_update (u ∷ us) t = ltb t.timeout_tp u.timeout_tp

-- The new set, and whether the new timer is due first.
pub add_to_heap : List Timer → Timer → List Timer × Bool
unfolding latest_need_update
add_to_heap ts t = (insert t ts, latest_need_update ts t)

-- `AddTimer` behind its assertion.
store : TimerManager → Timer → TimerManager
unfolding add_to_heap
store m t =
    let (ts, first) = add_to_heap m.timers t in
    if first
    then refresh_timer_fd (record m { timers = ts; latest_time = t.timeout_tp })
    else record m { timers = ts }

pub add_timer : TimerManager → Timer → Outcome TimerManager
unfolding store
add_timer m t = do check (not (t.timeout_tp == tp_max)); ok (store m t)

pub add_condition_timer : TimerManager → Timer → ℕ → Outcome TimerManager
add_condition_timer m t cond = add_timer m (record t { cb = if_alive cond t.cb })

is_first : ℕ → List Timer → Bool
is_first i [] = false
is_first i (t ∷ ts) = t.id == i

-- `RemoveFromHeap` at the timer with the id.
pub remove_from_heap : TimerManager → ℕ → TimerManager
unfolding is_first
remove_from_heap m i =
    let update = length m.timers == 1 || is_first i m.timers in
    let ts = erase_id i m.timers in
    if update
    then refresh_timer_fd (record m { timers = ts; latest_time = earliest ts })
    else record m { timers = ts }

-- With no timer of the id, `erase` is given the end iterator.
pub cancel_timer : TimerManager → ℕ → Outcome TimerManager
cancel_timer m i = if has_id i m.timers then ok (remove_from_heap m i) else fault undefined

pub has_timer : TimerManager → ℕ → Bool
has_timer m i = has_id i m.timers

-- What the expiry loop leaves: the expired timers, the set, and the number of clock readings.
pub record Swept : Type 0 where
  pub expired : List Timer
  pub left : List Timer
  pub readings : ℕ

-- The `while` loop of `GetAllExpiredTimers`. `now k` is the k-th reading of the steady clock;
-- `none` means that the fuel ran out.
pub sweep : ℕ → (ℕ → ℕ) → ℕ → List Timer → List Timer → Option Swept
sweep zero now k expired ts = none
sweep (suc fuel) now k expired [] = some (record { expired = expired; left = []; readings = k })
sweep (suc fuel) now k expired (t ∷ ts) =
    let again =
      sweep fuel now (k + 2) (expired ++ t ∷ [])
        (insert (set_expiration t (t.interval + now (k + 1))) ts) in
    let once = sweep fuel now (k + 1) (expired ++ t ∷ []) ts in
    if leb t.timeout_tp (now k)
    then (if is_repeated t then again else once)
    else some (record { expired = expired; left = t ∷ ts; readings = k + 1 })

-- `SYLAR_ASSERT(timerList_.begin()->timeout_tp > latestTime_)`, on a set that is not empty.
is_later : List Timer → ℕ → Bool
is_later [] latest = true
is_later (t ∷ ts) latest = ltb latest t.timeout_tp

finish_sweep : TimerManager → Swept → Outcome (TimerManager × List Timer)
unfolding is_later
finish_sweep m s = do
  check (is_later s.left m.latest_time)
  ok (refresh_timer_fd (record m { timers = s.left; latest_time = earliest s.left }), s.expired)

-- `GetAllExpiredTimers`: the manager after it, and the timers that expired, in order.
pub get_all_expired : ℕ → (ℕ → ℕ) → TimerManager → Option (Outcome (TimerManager × List Timer))
unfolding finish_sweep
get_all_expired fuel now m = elim (sweep fuel now 0 [] m.timers) [
  | none ↦ none
  | some s ↦ some (finish_sweep m s)
]

-- The callbacks that `HandleExpiredTimers` hands to the scheduler.
pub handle_expired : ℕ → (ℕ → ℕ) → TimerManager → Option (Outcome (TimerManager × List Callback))
handle_expired fuel now m = elim (get_all_expired fuel now m) [
  | none ↦ none
  | some r ↦ some (do (m', ts) ← r; ok (m', map (λ t. t.cb) ts))
]

-- `GetNextTimerId`: the id, and the counter after it.
pub get_next_timer_id : ℕ → ℕ × ℕ
get_next_timer_id next = (next, (next + 1) % 2 ^ 32)
