-- ===== src/Coroutine/Reuse.antt =====
-- Coroutines that are made, set up again and marked (sylar/concurrency/coroutine.cpp).
use sylar_study.Prelude.{
  ℕ, ◌+◌, ◌%◌, ◌≡◌, ap, ◌∙◌, true, false, not, ◌||◌, ◌&&◌, Option, some, ◌==◌, ok, check, ◌>>◌,
}
use sylar_study.Timer.{Callback}
use sylar_study.Coroutine.{
  State, init, Coroutine, Thread, is_init, is_terminal, is_except, is_none, put, set_state, reset,
  new_coroutine,
}
use sylar_study.Coroutine.Switch.{get-at}

-- A task coroutine with a stack, in a state.
abbrev pub IsTask : ℕ → Coroutine → Thread → Type 0
IsTask i c w =
    (w.store i ≡ some c)
    × (c.is_dummy_main ≡ false)
    × (c.has_stack ≡ true)
    × ((c.stack_size == 0) ≡ false)

pub reset-at :
    (i : ℕ) (c : Coroutine) (g : Option Callback) (w : Thread)
    → IsTask i c w
    → (is_terminal c.state || is_except c.state || is_init c.state) ≡ true
    → reset i g w ≡ ok (put i (record c { func = g; state = init }) w)
unfolding reset
reset-at i c g w (e, d, h, k) q =
    get-at (w.store i) c
      (λ a.
        check (a.has_stack && not (a.stack_size == 0))
        >> (check (is_terminal a.state || is_except a.state || is_init a.state)
            >> ok (put i (record a { func = g; state = init }) w)))
      e
    ∙ ap
        (λ a.
          check a
          >> (check (is_terminal c.state || is_except c.state || is_init c.state)
              >> ok (put i (record c { func = g; state = init }) w)))
        (ap (λ a. a && not (c.stack_size == 0)) h ∙ ap not k)
    ∙ ap (λ a. check a >> ok (put i (record c { func = g; state = init }) w)) q

pub set_state-at :
    (i : ℕ) (c : Coroutine) (s : State) (w : Thread)
    → w.store i ≡ some c
    → set_state i s w ≡ ok (put i (record c { state = s }) w)
unfolding set_state
set_state-at i c s w e = get-at (w.store i) c (λ a. ok (put i (record a { state = s }) w)) e

-- The coroutine that the public constructor makes for a function.
abbrev pub made : Callback → ℕ → Coroutine
made f n = record {
  func = some f;
  is_dummy_main = false;
  has_stack = true;
  stack_size = n;
  state = init;
}

abbrev pub with_new : Callback → ℕ → Thread → Thread
with_new f n w = record (put w.next_id (made f n) w) {
  next_id = (w.next_id + 1) % 4294967296;
  count = w.count + 1;
}

pub new_coroutine-at :
    (f : Callback) (n : ℕ) (w : Thread)
    → is_none w.main ≡ false
    → new_coroutine (some f) n false w ≡ ok (with_new f n w, w.next_id)
unfolding new_coroutine
new_coroutine-at f n w m = ap (λ a. check (not a) >> ok (with_new f n w, w.next_id)) m
