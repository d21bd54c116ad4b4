-- ===== src/Threads/Ready.antt =====
-- What the constructor and the destructor of `Thread` leave (sylar/concurrency/thread.cpp).
use sylar_study.Prelude.{
  ℕ, suc, ◌≤◌, ◌≡◌, refl, ap, Bool, true, false, some, ◌==◌, if◌then◌else◌, ok, ◌>>=◌, Bytes,
  same_bytes, arith, ==_refl,
}
use sylar_study.Threads.{
  Local, new_local, ThreadObject, Threads, put_object, put_local, set_thread_name, set_this_thread,
  get_this_thread, thread_func, new_thread,
}

-- Threads that have not started keep nothing.
unfoldable pub IsUnstarted : Threads → Type 0
IsUnstarted s = (t : ℕ) → s.next_thread ≤ t → s.locals t ≡ new_local

-- The object for a thread of that name and number.
abbrev pub started : Bytes → ℕ → ThreadObject
started name t = record { name = name; tid = t; pthread_id = t; joinable = true }

thread_func-new_local :
    (i : ℕ) (name : Bytes) (l : Local)
    → l ≡ new_local
    → thread_func i name l ≡ ok (record { this_thread = some i; thread_name = name })
unfolding thread_func set_thread_name set_this_thread same_bytes
thread_func-new_local i name l e = ap (λ k. thread_func i name k) e

unstarted_later :
    (s : Threads) (l : Local) (t : ℕ)
    → IsUnstarted s
    → suc s.next_thread ≤ t
    → (if t == s.next_thread then l else s.locals t) ≡ new_local
unfolding IsUnstarted
unstarted_later s l t u h = let e = u t (omega arith) in ground arith

-- What the constructor makes when its thread starts.
abbrev pub with_thread : Bytes → Threads → Threads
with_thread name s =
    record (put_local s.next_thread
      (record { this_thread = some s.next_object; thread_name = name })
      (put_object s.next_object (some (started name s.next_thread)) s)) {
        next_object = suc s.next_object;
        next_thread = suc s.next_thread;
      }

pub new_thread-with_thread :
    (name : Bytes) (s : Threads)
    → IsUnstarted s
    → new_thread name s ≡ ok (with_thread name s, s.next_object)
unfolding new_thread IsUnstarted
new_thread-with_thread name s u =
    let o = started name s.next_thread in
    ap
      (λ r. r >>= λ k. ok (
        record (put_local s.next_thread k (put_object s.next_object (some o) s)) {
          next_object = suc s.next_object;
          next_thread = suc s.next_thread;
        },
        s.next_object,
      ))
      (thread_func-new_local s.next_object name (s.locals s.next_thread)
        (u s.next_thread (omega arith)))

pub with_thread-IsUnstarted :
    (name : Bytes) (s : Threads) → IsUnstarted s → IsUnstarted (with_thread name s)
unfolding IsUnstarted
with_thread-IsUnstarted name s u t h =
    unstarted_later s (record { this_thread = some s.next_object; thread_name = name }) t u h

-- The constructor of a thread meets no failed assertion, since a thread that has not started keeps
-- nothing: when it returns, the pointer leads to an object with the name and with the ids of
-- the new thread, and `GetThisThread` gives this pointer on that thread. On every other thread it
-- gives what it gave before, and the next thread of the system has not started either.
pub new_thread-IsUnstarted :
    (name : Bytes) (s : Threads)
    → IsUnstarted s
    → (s' : Threads) × (new_thread name s ≡ ok (s', s.next_object))
      × (s'.objects s.next_object ≡ some (started name s.next_thread))
      × ((t : ℕ)
          → get_this_thread t s'
            ≡ (if t == s.next_thread then some s.next_object else get_this_thread t s))
      × (s'.next_thread ≡ suc s.next_thread)
      × IsUnstarted s'
new_thread-IsUnstarted name s u = (
  with_thread name s,
  new_thread-with_thread name s u,
  ap (λ b. if b then some (started name s.next_thread) else s.objects s.next_object)
      (==_refl s.next_object),
  (λ t. local_this (t == s.next_thread) s.next_object name (s.locals t)),
  refl,
  with_thread-IsUnstarted name s u,
)
  where
    local_this :
        (b : Bool) (i : ℕ) (name : Bytes) (m : Local)
        → (if b then record { this_thread = some i; thread_name = name } else m).this_thread
          ≡ (if b then some i else m.this_thread)
    local_this true i name m = refl
    local_this false i name m = refl
