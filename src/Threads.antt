-- ===== src/Threads.antt =====
-- sylar/concurrency/thread.h and thread.cpp: objects that own a thread of the system, and what each
-- thread keeps of them. Threads of the system are numbers, which also stand for what `GetTid` and
-- `GetPthreadId` return there; `finished` says which of them have ended by the time they are joined.
pub mod Ready
pub mod Ended
mod Tests
use sylar_study.Prelude.{
  ℕ, suc, Bool, true, false, Option, none, some, ◌==◌, if◌then◌else◌, Outcome, ok, fault, thrown,
  check, get, ◌>>=◌, ◌>>◌, Run, Bytes, codes, same_bytes,
}

-- `tl_p_this_thread` and `tl_thread_name`.
pub record Local : Type 0 where
  pub this_thread : Option ℕ
  pub thread_name : Bytes

abbrev pub undefined_name : Bytes
undefined_name = codes "UNDEFINED"

abbrev pub new_local : Local
new_local = record { this_thread = none; thread_name = undefined_name }

pub record ThreadObject : Type 0 where
  pub name : Bytes
  pub tid : ℕ
  pub pthread_id : ℕ
  pub joinable : Bool

-- `objects` is what pointers to `Thread` lead to.
pub record Threads : Type 0 where
  pub objects : ℕ → Option ThreadObject
  pub next_object : ℕ
  pub locals : ℕ → Local
  pub next_thread : ℕ
  pub finished : ℕ → Bool

abbrev pub is_null {ℓ} : {A : Type ℓ} → Option A → Bool
is_null none = true
is_null (some a) = false

abbrev pub put_object : ℕ → Option ThreadObject → Threads → Threads
put_object i o s = record s { objects = λ j. if j == i then o else s.objects j }

abbrev pub put_local : ℕ → Local → Threads → Threads
put_local t l s = record s { locals = λ j. if j == t then l else s.locals j }

-- `SetThreadName`.
unfoldable pub set_thread_name : Bytes → Local → Outcome Local
unfolding same_bytes
set_thread_name name l =
    check (same_bytes l.thread_name undefined_name) >> ok (record l { thread_name = name })

-- `SetThisThread`.
unfoldable pub set_this_thread : Option ℕ → Local → Outcome Local
set_this_thread p l = check (is_null l.this_thread) >> ok (record l { this_thread = p })

-- `GetThisThread`.
abbrev pub get_this_thread : ℕ → Threads → Option ℕ
get_this_thread me s = (s.locals me).this_thread

-- `ThreadFunc` up to `set_value`, on its own thread.
unfoldable pub thread_func : ℕ → Bytes → Local → Outcome Local
unfolding set_thread_name set_this_thread
thread_func i name l = do l1 ← set_thread_name name l; set_this_thread (some i) l1

-- The constructor, which waits until the new thread is ready.
unfoldable pub new_thread : Bytes → Threads → Outcome (Threads × ℕ)
unfolding thread_func
new_thread name s = do
  l ← thread_func s.next_object name (s.locals s.next_thread)
  let o : ThreadObject = record {
    name = name;
    tid = s.next_thread;
    pthread_id = s.next_thread;
    joinable = true;
  }
  ok (
    record (put_local s.next_thread l (put_object s.next_object (some o) s)) {
      next_object = suc s.next_object;
      next_thread = suc s.next_thread;
    },
    s.next_object,
  )

-- `Join` on the thread `me`; `none` means that it does not return. A thread that joins itself gets
-- an exception from `std::thread`.
unfoldable pub join : ℕ → ℕ → Threads → Run Threads
join me i s = elim (s.objects i) [
  | none ↦ some (get none)
  | some o ↦
      if o.joinable
      then (if o.pthread_id == me
          then some (fault thrown)
          else (if s.finished o.pthread_id
              then some (ok (put_object i (some (record o { joinable = false })) s))
              else none))
      else some (ok s)
]

-- `Detach`.
unfoldable pub detach : ℕ → Threads → Outcome Threads
detach i s = do
  o ← get (s.objects i)
  (if o.joinable then ok (put_object i (some (record o { joinable = false })) s) else ok s)

-- The destructor, on the thread `me`.
unfoldable pub destroy : ℕ → ℕ → Threads → Outcome Threads
unfolding detach set_this_thread
destroy me i s = do
  s1 ← detach i s
  l ← set_this_thread none (s1.locals me)
  ok (put_object i none (put_local me l s1))
