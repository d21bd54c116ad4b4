-- ===== src/Timer/Laws.antt =====
-- What adding and cancelling a timer do (sylar/concurrency/timer_manager.cpp, `AddTimer`,
-- `CancelTimer`, `HasTimer` and their helpers).
use sylar_study.Prelude.{
  ℕ, ◌≡◌, ◌≢◌, refl, ap, true, false, not, ◌||◌, List, [], ◌∷◌, none, some, arith, ◌==◌,
  if◌then◌else◌, ok, fault, undefined, ◌∙◌, ◌&&◌,
}
use sylar_study.Timer.{
  Timer, TimerManager, insert, erase_id, has_id, earliest, tp_max, time_spec, refresh_timer_fd,
  add_to_heap, add_timer, store, new_manager, cancel_timer, is_first, remove_from_heap, has_timer,
}
use sylar_study.Timer.Order.{
  IsSorted, insert-IsSorted, erase_id-IsSorted, at, or_else, at-insert, has_id-insert_absent,
  insert_present,
}

-- The set is in order, `latestTime_` is the first deadline in it, and the timerfd is set to that.
pub record Inv (m : TimerManager) : Type 0 where
  pub sorted : IsSorted m.timers
  pub latest : m.latest_time ≡ earliest m.timers
  pub armed : m.timer_fd ≡ time_spec m.latest_time

pub new_manager-Inv : Inv new_manager
unfolding new_manager earliest time_spec
new_manager-Inv = record { sorted = tt; latest = refl; armed = refl }

add_timer-IsSorted :
    (m : TimerManager) (t : Timer) {m' : TimerManager}
    → Inv m
    → add_timer m t ≡ ok m'
    → IsSorted m'.timers
unfolding add_timer refresh_timer_fd
add_timer-IsSorted m t v e = ground (arith, insert-IsSorted t m.timers v.sorted)

add_to_heap-latest :
    (ts : List Timer) (t : Timer)
    → earliest (insert t ts) ≡ (if (add_to_heap ts t).1 then t.timeout_tp else earliest ts)
unfolding add_to_heap earliest insert
add_to_heap-latest [] t = refl
add_to_heap-latest (u ∷ us) t = ground arith

add_timer-latest :
    (m : TimerManager) (t : Timer) {m' : TimerManager}
    → Inv m
    → add_timer m t ≡ ok m'
    → m'.latest_time ≡ earliest m'.timers
unfolding add_timer refresh_timer_fd
add_timer-latest m t v e = ground (arith, add_to_heap-latest m.timers t)

add_timer-armed :
    (m : TimerManager) (t : Timer) {m' : TimerManager}
    → Inv m
    → add_timer m t ≡ ok m'
    → m'.timer_fd ≡ time_spec m'.latest_time
unfolding add_timer refresh_timer_fd
add_timer-armed m t v e = ground arith

-- Adding a timer keeps the set in order, and `latestTime_` and the timerfd at its first deadline.
pub add_timer-Inv :
    (m : TimerManager) (t : Timer) {m' : TimerManager} → Inv m → add_timer m t ≡ ok m' → Inv m'
add_timer-Inv m t v e = record {
  sorted = add_timer-IsSorted m t v e;
  latest = add_timer-latest m t v e;
  armed = add_timer-armed m t v e;
}

add_timer-timers :
    (m : TimerManager) (t : Timer) {m' : TimerManager}
    → add_timer m t ≡ ok m'
    → m'.timers ≡ insert t m.timers
unfolding add_timer refresh_timer_fd add_to_heap
add_timer-timers m t e = ground arith

-- Adding a timer makes it the one stored at its deadline if the deadline was free, leaves the
-- timer that was stored there otherwise, and changes no other deadline.
pub at-add_timer :
    (m : TimerManager) (t : Timer) (tp : ℕ) {m' : TimerManager}
    → Inv m
    → add_timer m t ≡ ok m'
    → at tp m'.timers
      ≡ (if t.timeout_tp == tp then some (or_else (at tp m.timers) t) else at tp m.timers)
at-add_timer m t tp v e = ap (at tp) (add_timer-timers m t e) ∙ at-insert tp t m.timers v.sorted

-- A timer whose deadline another timer already has is not stored: unless its id was in the set
-- before, `HasTimer` does not find it, and the set is as it was.
pub add_timer_lost :
    (m : TimerManager) (t u : Timer) {m' : TimerManager}
    → Inv m
    → at t.timeout_tp m.timers ≡ some u
    → has_timer m t.id ≡ false
    → add_timer m t ≡ ok m'
    → (m'.timers ≡ m.timers) × (has_timer m' t.id ≡ false)
unfolding has_timer
add_timer_lost m t u v s h e =
    let same = add_timer-timers m t e ∙ insert_present t u m.timers v.sorted s in
    (same, ap (has_id t.id) same ∙ h)

-- A timer with a deadline that no other timer has, and that is not the largest time point, is
-- accepted, `HasTimer` then finds it, and finds every other timer that it found before.
pub has_timer-add_timer :
    (m : TimerManager) (t : Timer) (i : ℕ)
    → t.timeout_tp ≢ tp_max
    → at t.timeout_tp m.timers ≡ none
    → (m' : TimerManager) × (add_timer m t ≡ ok m')
      × (has_timer m' i ≡ (t.id == i || has_timer m i))
unfolding has_timer add_timer refresh_timer_fd
has_timer-add_timer m t i h free =
    (store m t, ground arith, ground (arith, has_id-insert_absent i t m.timers free))

-- No two timers of the set have one id.
abbrev pub Distinct : List Timer → Type 0
Distinct [] = Unit
Distinct (t ∷ ts) = (has_id t.id ts ≡ false) × Distinct ts

erase_id_missing :
    (i j : ℕ) (ts : List Timer) → has_id i ts ≡ false → has_id j (erase_id i ts) ≡ has_id j ts
unfolding has_id erase_id
erase_id_missing i j [] h = refl
erase_id_missing i j (t ∷ ts) h = ground (arith, erase_id_missing i j ts)

has_id-erase_id :
    (i j : ℕ) (ts : List Timer)
    → Distinct ts
    → has_id j (erase_id i ts) ≡ (not (i == j) && has_id j ts)
unfolding has_id erase_id
has_id-erase_id i j [] d = ground arith
has_id-erase_id i j (t ∷ ts) d = ground (arith, has_id-erase_id i j ts d.1)

-- Of a set with distinct ids, cancelling a stored timer removes that timer and no other.
pub has_timer-cancel_timer :
    (m : TimerManager) (i j : ℕ)
    → Distinct m.timers
    → has_timer m i ≡ true
    → (m' : TimerManager) × (cancel_timer m i ≡ ok m')
      × (has_timer m' j ≡ (not (i == j) && has_timer m j))
unfolding has_timer cancel_timer remove_from_heap refresh_timer_fd
has_timer-cancel_timer m i j d h =
    (remove_from_heap m i, ground arith, ground (arith, has_id-erase_id i j m.timers d))

-- Cancelling a timer a second time has no defined result: `erase` is given the end iterator.
pub cancel_timer_twice :
    (m : TimerManager) (i : ℕ) {m' : TimerManager}
    → Distinct m.timers
    → cancel_timer m i ≡ ok m'
    → cancel_timer m' i ≡ fault undefined
unfolding cancel_timer remove_from_heap refresh_timer_fd
cancel_timer_twice m i d e = ground (arith, has_id-erase_id i i m.timers d)

erase_id-later :
    (i : ℕ) (ts : List Timer) → is_first i ts ≡ false → earliest (erase_id i ts) ≡ earliest ts
unfolding erase_id earliest is_first
erase_id-later i [] h = refl
erase_id-later i (t ∷ ts) h = ground arith

cancel_timer-latest :
    (m : TimerManager) (i : ℕ) {m' : TimerManager}
    → Inv m
    → cancel_timer m i ≡ ok m'
    → m'.latest_time ≡ earliest m'.timers
unfolding cancel_timer remove_from_heap refresh_timer_fd
cancel_timer-latest m i v e = ground (arith, erase_id-later i m.timers)

-- Cancelling a timer keeps the set in order, and `latestTime_` and the timerfd at its first deadline.
pub cancel_timer-Inv :
    (m : TimerManager) (i : ℕ) {m' : TimerManager} → Inv m → cancel_timer m i ≡ ok m' → Inv m'
unfolding cancel_timer remove_from_heap refresh_timer_fd
cancel_timer-Inv m i v e = record {
  sorted = ground (arith, erase_id-IsSorted i m.timers v.sorted);
  latest = cancel_timer-latest m i v e;
  armed = ground arith;
}
