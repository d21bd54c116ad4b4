-- ===== src/Coroutine.antt =====
-- sylar/concurrency/coroutine.h and coroutine.cpp: coroutines, their states, and the switches between
-- them on one thread. A coroutine is its id; the store maps the ids to the objects, and the
-- thread-local pointers are ids. What `swapcontext` does is the change of the running coroutine.
mod Tests
pub mod Switch
pub mod Reuse
pub use sylar_study.Prelude.{get}
use sylar_study.Prelude.{
  ℕ, ◌+◌, ◌-◌, ◌%◌, Bool, true, false, not, ◌||◌, ◌&&◌, Option, none, some, ◌==◌, if◌then◌else◌,
  Outcome, ok, fault, undefined, assertion, thread_ended, check, ◌>>=◌, ◌>>◌,
}
use sylar_study.Timer.{Callback}

pub data State : Type 0 where
  init exec hold ready terminal except : State

abbrev pub is_exec : State → Bool
is_exec exec = true
is_exec _ = false

abbrev pub is_ready : State → Bool
is_ready ready = true
is_ready _ = false

abbrev pub is_terminal : State → Bool
is_terminal terminal = true
is_terminal _ = false

abbrev pub is_except : State → Bool
is_except except = true
is_except _ = false

abbrev pub is_init : State → Bool
is_init init = true
is_init _ = false

abbrev pub is_hold : State → Bool
is_hold hold = true
is_hold _ = false

-- `has_stack` says that `stackFrame_` is not null.
pub record Coroutine : Type 0 where
  pub func : Option Callback
  pub is_dummy_main : Bool
  pub has_stack : Bool
  pub stack_size : ℕ
  pub state : State

-- The thread-local pointers of a thread, and the counters of the file.
pub record Thread : Type 0 where
  pub store : ℕ → Option Coroutine
  pub current : Option ℕ
  pub main : Option ℕ
  pub scheduling : Option ℕ
  pub next_id : ℕ
  pub count : ℕ

abbrev pub put : ℕ → Coroutine → Thread → Thread
put i c w = record w { store = λ j. if j == i then some c else w.store j }

abbrev pub same : Option ℕ → Option ℕ → Bool
same (some i) (some j) = i == j
same none none = true
same _ _ = false

pub set_state : ℕ → State → Thread → Outcome Thread
set_state i s w = do c ← get (w.store i); ok (put i (record c { state = s }) w)

-- `IsRunnable`.
abbrev pub is_runnable : State → Bool
is_runnable s = is_hold s || is_init s || is_ready s

-- The constructor of the main coroutine, called by `GetMainCoroutine` alone.
abbrev pub main_coroutine : Coroutine
main_coroutine = record {
  func = none;
  is_dummy_main = false;
  has_stack = false;
  stack_size = 0;
  state = exec;
}

abbrev pub is_none {ℓ} : {A : Type ℓ} → Option A → Bool
is_none none = true
is_none (some a) = false

unfoldable pub new_main : Thread → Outcome (Thread × ℕ)
new_main w = do
  check (is_none w.main)
  check (is_none w.current)
  ok (
    record (put w.next_id main_coroutine w) {
      next_id = (w.next_id + 1) % 4294967296;
      count = w.count + 1;
    },
    w.next_id,
  )

-- `GetMainCoroutine`.
unfoldable pub get_main_coroutine : Thread → Outcome (Thread × Option ℕ)
unfolding new_main
get_main_coroutine w =
    if is_none w.current
    then (new_main w >>= λ r. ok (record r.0 { main = some r.1; current = some r.1 }, some r.1))
    else ok (w, w.main)

-- The public constructor.
unfoldable pub new_coroutine : Option Callback → ℕ → Bool → Thread → Outcome (Thread × ℕ)
new_coroutine func stack_size dummy w = do
  check (not (is_none func))
  check (not (is_none w.main))
  let c : Coroutine = record {
    func = func;
    is_dummy_main = dummy;
    has_stack = true;
    stack_size = stack_size;
    state = init;
  }
  ok (
    record (put w.next_id c w) { next_id = (w.next_id + 1) % 4294967296; count = w.count + 1 },
    w.next_id,
  )

-- The coroutine that a switch into or out of `c` comes from or goes to.
abbrev pub partner : Coroutine → Thread → Option ℕ
partner c w = if c.is_dummy_main then w.main else w.scheduling

-- The state in which `CoroutineFunc` gives control back for the last time.
abbrev pub is_finished : State → Bool
is_finished s = is_terminal s || is_except s

-- `SwapIn`, up to the switch. A coroutine that has finished goes on at the end of `CoroutineFunc`, and
-- its context has no successor (`uc_link` is null): the thread ends.
pub swap_in : ℕ → Thread → Outcome Thread
swap_in i w = do
  c ← get (w.store i)
  check (not (is_none w.current) && same w.current (partner c w))
  check (not (is_exec c.state))
  (if is_finished c.state
      then fault thread_ended
      else ok (put i (record c { state = exec }) (record w { current = some i })))

-- `SwapOut`, up to the switch.
pub swap_out : ℕ → Thread → Outcome Thread
swap_out i w = do
  c ← get (w.store i)
  check (same w.current (some i))
  ok (record w { current = partner c w })

-- `Reset`.
pub reset : ℕ → Option Callback → Thread → Outcome Thread
reset i func w = do
  c ← get (w.store i)
  check (c.has_stack && not (c.stack_size == 0))
  check (is_terminal c.state || is_except c.state || is_init c.state)
  ok (put i (record c { func = func; state = init }) w)

-- How the function of a coroutine gives control back.
pub data Stop : Type 0 where
  returns throws yields_hold yields_ready : Stop

-- What `CoroutineFunc` sets behind the call of the function.
pub finish : State → ℕ → Thread → Outcome Thread
unfolding swap_out
finish s i w = do c ← get (w.store i); w1 ← ok (put i (record c { state = s }) w); swap_out i w1

finish_returned : ℕ → Thread → Outcome Thread
unfolding swap_out
finish_returned i w = do
  c ← get (w.store i)
  w1 ← ok (put i (record c { func = none; state = terminal }) w)
  swap_out i w1

-- `YieldCurCoroutineToHold` and `YieldCurCoroutineToReady`.
pub yield : State → Thread → Outcome Thread
unfolding swap_out
yield s w = do
  i ← get w.current
  c ← get (w.store i)
  check (is_exec c.state)
  swap_out i (put i (record c { state = s }) w)

pub stop : Stop → ℕ → Thread → Outcome Thread
unfolding finish finish_returned yield
stop returns i w = finish_returned i w
stop throws i w = finish except i w
stop yields_hold i w = yield hold w
stop yields_ready i w = yield ready w

-- A coroutine is switched to, and runs until its function stops.
pub resume : ℕ → Stop → Thread → Outcome Thread
unfolding swap_in stop
resume i s w = do w1 ← swap_in i w; stop s i w1

-- The assertions of the destructor; a coroutine with no stack is the main one.
unfoldable pub destroy : ℕ → Thread → Outcome Thread
destroy i w = do
  c ← get (w.store i)
  (if c.has_stack
      then (check (is_terminal c.state || is_exec c.state || is_init c.state)
          >> ok (record w { count = w.count - 1 }))
      else (check (is_none c.func && is_exec c.state && same w.current (some i))
          >> ok (record w { current = none; count = w.count - 1 })))
