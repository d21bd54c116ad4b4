-- ===== src/Hook/Io/Tests.antt =====
-- The reading calls at a blocking socket whose timeout is the default one.
use sylar_study.Prelude.{
  ℕ, ◌≡◌, ◌≢◌, refl, true, false, [], ◌∷◌, none, some, ◌==◌, if◌then◌else◌, ok,
}
use sylar_study.Timer.{func, new_manager}
use sylar_study.Fd.{plain_context}
use sylar_study.Poller.Masks.{in_bit, out_bit}
use sylar_study.Poller.Table.{Table, table}
use sylar_study.Coroutine.{Coroutine, exec, main_coroutine}
use sylar_study.Hook.Io.{Io, number, eintr, eagain, failed, do_io, io_loop}
use sylar_study.Hook.Io.Blocking.{is_over, IsBlocking, do_io_lem, do_io-waits, io_loop-is_over}

abbrev reader : Coroutine
reader = record {
  func = some (func 5);
  is_dummy_main = false;
  has_stack = true;
  stack_size = 64;
  state = exec;
}

-- Coroutine 1 runs, and descriptor 3 is a socket.
abbrev before : Io Table ℕ
before = record {
  poller = record {
    kernel = λ i. none;
    event_set = λ i. none;
    timer_manager = new_manager;
    posted = [];
    errors = 0;
  };
  next_id = 1;
  thread = record {
    store = λ i. if i == 0 then some main_coroutine else if i == 1 then some reader else none;
    current = some 1;
    main = some 0;
    scheduling = some 0;
    next_id = 2;
    count = 2;
  };
  system = record {
    libc = 0;
    fd_set = λ i.
        if i == 3 then some (record (plain_context 3 true) { sys_set_nonblock = true }) else none;
  };
  hooked = true;
  scheduler = some 0;
}

before-IsBlocking : IsBlocking 3 before
before-IsBlocking = record {
  context = record (plain_context 3 true) { sys_set_nonblock = true };
  stored = refl;
  on_hooked = refl;
  on_socket = refl;
  left_blocking = refl;
}

do_io_lem_example :
    do_io table 10 (func 9) 7 (λ s. s) 3 in_bit (eintr ∷ eintr ∷ number 12 ∷ []) before
    ≡ some (ok (number 12, before))
do_io_lem_example =
    do_io_lem table 10 (func 9) 7 (λ s. s) 3 in_bit 2 (number 12) [] before refl before-IsBlocking

do_io-waits_example :
    do_io table 10 (func 9) 7 (λ s. s) 3 in_bit (eintr ∷ eagain ∷ number 12 ∷ []) before
    ≢ some (ok (number 12, before))
do_io-waits_example =
    do_io-waits table 10 (func 9) 7 (λ s. s) 3 in_bit 1 (number 12 ∷ []) before (number 12, before)
      before-IsBlocking

io_loop-is_over_example : is_over (failed 32) ≡ true
unfolding io_loop
io_loop-is_over_example =
    io_loop-is_over table 10 (func 9) 7 (λ s. s) none 3 out_bit (eintr ∷ failed 32 ∷ []) 0 before
      (failed 32, before) refl
