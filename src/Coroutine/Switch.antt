-- ===== src/Coroutine/Switch.antt =====
-- What a run of a coroutine between two switches does (sylar/concurrency/coroutine.cpp).
use sylar_study.Prelude.{
  ℕ, ◌≡◌, refl, ap, ◌∙◌, true, false, not, ◌&&◌, Option, none, some, ◌==◌, ==_refl, if◌then◌else◌,
  Outcome, ok, fault, thread_ended, check, ◌>>=◌, ◌>>◌, arith,
}
use sylar_study.Coroutine.{
  State, init, exec, hold, ready, terminal, except, is_exec, is_runnable, is_finished, Coroutine,
  Thread, put, partner, Stop, returns, throws, yields_hold, yields_ready, swap_in, swap_out, finish,
  finish_returned, yield, stop, resume, get, is_none, same,
}

-- The state that a stop leaves the coroutine in.
abbrev pub state_after : Stop → State
state_after returns = terminal
state_after throws = except
state_after yields_hold = hold
state_after yields_ready = ready

abbrev pub func_after {ℓ} : {A : Type ℓ} → Stop → Option A → Option A
func_after returns f = none
func_after _ f = f

abbrev pub after : Stop → Coroutine → Coroutine
after s c = record c { state = state_after s; func = func_after s c.func }

-- The thread when control is back.
left_thread : ℕ → Stop → Coroutine → Thread → Thread
left_thread i s c w = record (put i (after s c) (put i (record c { state = exec }) w)) {
  current = w.scheduling;
}

stored :
    (i j : ℕ) (s : Stop) (c : Coroutine) (w : Thread)
    → (left_thread i s c w).store j ≡ (if j == i then some (after s c) else w.store j)
unfolding left_thread
stored i j s c w = ground arith

pub put_same : (i : ℕ) (c : Coroutine) (w : Thread) → (put i c w).store i ≡ some c
put_same i c w = ground arith

same_self : (o : Option ℕ) (b : ℕ) → o ≡ some b → (not (is_none o) && same o o) ≡ true
same_self o b e = ground arith

runnable_cases : (s : State) → is_runnable s ≡ true → (is_exec s ≡ false) × (is_finished s ≡ false)
runnable_cases init h = (refl, refl)
runnable_cases exec h = cc
runnable_cases hold h = (refl, refl)
runnable_cases ready h = (refl, refl)
runnable_cases terminal h = cc
runnable_cases except h = cc

pub swap_in-task :
    (i b : ℕ) (c : Coroutine) (w : Thread)
    → w.store i ≡ some c
    → c.is_dummy_main ≡ false
    → is_runnable c.state ≡ true
    → w.scheduling ≡ some b
    → w.current ≡ some b
    → swap_in i w ≡ ok (put i (record c { state = exec }) (record w { current = some i }))
unfolding swap_in
swap_in-task i b c w e d n s t = let (running, finished) = runnable_cases c.state n in ground arith

finished_cases : (s : State) → is_finished s ≡ true → is_exec s ≡ false
finished_cases init h = cc
finished_cases exec h = cc
finished_cases hold h = cc
finished_cases ready h = cc
finished_cases terminal h = refl
finished_cases except h = refl

pub swap_in-finished :
    (i b : ℕ) (c : Coroutine) (w : Thread)
    → w.store i ≡ some c
    → c.is_dummy_main ≡ false
    → is_finished c.state ≡ true
    → w.scheduling ≡ some b
    → w.current ≡ some b
    → swap_in i w ≡ fault thread_ended
unfolding swap_in
swap_in-finished i b c w e d n s t = let running = finished_cases c.state n in ground arith

swap_out-at :
    (i : ℕ) (c : Coroutine) (w : Thread)
    → w.store i ≡ some c
    → w.current ≡ some i
    → swap_out i w ≡ ok (record w { current = partner c w })
unfolding swap_out
swap_out-at i c w e t = rw (e, t, ==_refl i) refl

abbrev pub Left : ℕ → Coroutine → Coroutine → Thread → Thread
Left i c c' w = record (put i c' w) { current = partner c w }

-- A pointer that is read is bound to what it points to.
pub get-at {ℓ κ} :
    {A : Type ℓ} {B : Type κ} (o : Option A) (a : A) (f : A → Outcome B)
    → o ≡ some a
    → (get o >>= f) ≡ f a
get-at o a f e = rw e refl

finish-at :
    (s : State) (i : ℕ) (c : Coroutine) (w : Thread)
    → w.store i ≡ some c
    → w.current ≡ some i
    → finish s i w ≡ ok (Left i c (record c { state = s }) w)
unfolding finish
finish-at s i c w e t =
    get-at (w.store i) c (λ x. swap_out i (put i (record x { state = s }) w)) e
    ∙ swap_out-at i (record c { state = s }) (put i (record c { state = s }) w)
        (put_same i (record c { state = s }) w) t

finish_returned-at :
    (i : ℕ) (c : Coroutine) (w : Thread)
    → w.store i ≡ some c
    → w.current ≡ some i
    → finish_returned i w ≡ ok (Left i c (after returns c) w)
unfolding finish_returned
finish_returned-at i c w e t =
    get-at (w.store i) c (λ x. swap_out i (put i (record x { func = none; state = terminal }) w)) e
    ∙ swap_out-at i (after returns c) (put i (after returns c) w) (put_same i (after returns c) w) t

pub yield-at :
    (s : State) (i : ℕ) (c : Coroutine) (w : Thread)
    → w.store i ≡ some c
    → w.current ≡ some i
    → c.state ≡ exec
    → yield s w ≡ ok (Left i c (record c { state = s }) w)
unfolding yield
yield-at s i c w e t x =
    let after_check : ℕ → Coroutine → Outcome Thread =
      λ j d. (check (is_exec d.state) >> swap_out j (put j (record d { state = s }) w)) in
    get-at w.current i (λ j. get (w.store j) >>= after_check j) t
    ∙ get-at (w.store i) c (after_check i) e
    ∙ ap (λ q. check (is_exec q) >> swap_out i (put i (record c { state = s }) w)) x
    ∙ swap_out-at i (record c { state = s }) (put i (record c { state = s }) w)
        (put_same i (record c { state = s }) w) t

pub stop-at :
    (i : ℕ) (s : Stop) (c : Coroutine) (w : Thread)
    → w.store i ≡ some c
    → w.current ≡ some i
    → c.state ≡ exec
    → stop s i w ≡ ok (Left i c (after s c) w)
unfolding stop
stop-at i returns c w e t x = finish_returned-at i c w e t
stop-at i throws c w e t x = finish-at except i c w e t
stop-at i yields_hold c w e t x = yield-at hold i c w e t x
stop-at i yields_ready c w e t x = yield-at ready i c w e t x

left_same :
    (i : ℕ) (s : Stop) (c : Coroutine) (w : Thread)
    → c.is_dummy_main ≡ false
    → Left i
        (record c { state = exec })
        (after s (record c { state = exec }))
        (put i (record c { state = exec }) (record w { current = some i }))
      ≡ left_thread i s c w
unfolding left_thread
left_same i returns c w d =
    ap
      (λ b. record (put i (after returns c) (put i (record c { state = exec }) w)) {
        current = if b then w.main else w.scheduling;
      })
      d
left_same i throws c w d =
    ap
      (λ b. record (put i (after throws c) (put i (record c { state = exec }) w)) {
        current = if b then w.main else w.scheduling;
      })
      d
left_same i yields_hold c w d =
    ap
      (λ b. record (put i (after yields_hold c) (put i (record c { state = exec }) w)) {
        current = if b then w.main else w.scheduling;
      })
      d
left_same i yields_ready c w d =
    ap
      (λ b. record (put i (after yields_ready c) (put i (record c { state = exec }) w)) {
        current = if b then w.main else w.scheduling;
      })
      d

stop-task :
    (i : ℕ) (s : Stop) (c : Coroutine) (w : Thread)
    → c.is_dummy_main ≡ false
    → stop s i (put i (record c { state = exec }) (record w { current = some i }))
      ≡ ok (left_thread i s c w)
unfolding left_thread
stop-task i s c w d =
    let run : Coroutine = record c { state = exec } in
    let w1 = put i run (record w { current = some i }) in
    stop-at i s run w1 (put_same i run (record w { current = some i })) refl refl
    ∙ ap ok (left_same i s c w d)

resume-left :
    (i b : ℕ) (s : Stop) (c : Coroutine) (w : Thread)
    → w.store i ≡ some c
    → c.is_dummy_main ≡ false
    → is_runnable c.state ≡ true
    → w.scheduling ≡ some b
    → w.current ≡ some b
    → resume i s w ≡ ok (left_thread i s c w)
unfolding resume
resume-left i b s c w e d n t u = rw (swap_in-task i b c w e d n t u) (stop-task i s c w d)

-- A task coroutine that is runnable, neither running nor finished, switched to from the scheduling
-- coroutine, gives control back to it: nothing else of the thread changes, and the stop decides the state.
pub resume-after :
    (i b : ℕ) (s : Stop) (c : Coroutine) (w : Thread)
    → w.store i ≡ some c
    → c.is_dummy_main ≡ false
    → is_runnable c.state ≡ true
    → w.scheduling ≡ some b
    → w.current ≡ some b
    → (w' : Thread) × (resume i s w ≡ ok w')
      × ((j : ℕ) → w'.store j ≡ (if j == i then some (after s c) else w.store j))
      × (w'.current ≡ some b)
      × (w'.main ≡ w.main)
      × (w'.scheduling ≡ w.scheduling)
      × (w'.next_id ≡ w.next_id)
      × (w'.count ≡ w.count)
unfolding resume left_thread
resume-after i b s c w e d n t u = (
  left_thread i s c w,
  resume-left i b s c w e d n t u,
  (λ j. stored i j s c w),
  t,
  refl,
  refl,
  refl,
  refl,
)
