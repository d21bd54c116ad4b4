-- ===== src/Threads/Tests.antt =====
-- The theorems on threads at two that are made one after the other, and tests of `Join`.
use sylar_study.Prelude.{ℕ, ◌≡◌, refl, none, some, ◌==◌, if◌then◌else◌, ok, fault, thrown, codes}
use sylar_study.Threads.{Threads, new_local, get_this_thread, new_thread, join}
use sylar_study.Threads.Ready.{IsUnstarted, started, new_thread-IsUnstarted}

-- Thread 0 is the only one, and thread 1 is the first that has ended when it is joined.
abbrev only_main : Threads
only_main = record {
  objects = λ i. none;
  next_object = 0;
  locals = λ t. new_local;
  next_thread = 1;
  finished = λ t. t == 1;
}

only_main-IsUnstarted : IsUnstarted only_main
unfolding IsUnstarted
only_main-IsUnstarted t h = refl

new_thread-IsUnstarted_example :
    (s' : Threads) × (new_thread (codes "io_0") only_main ≡ ok (s', 0))
    × (s'.objects 0 ≡ some (started (codes "io_0") 1))
    × ((t : ℕ) → get_this_thread t s' ≡ (if t == 1 then some 0 else get_this_thread t only_main))
    × (s'.next_thread ≡ 2)
    × IsUnstarted s'
new_thread-IsUnstarted_example =
    new_thread-IsUnstarted (codes "io_0") only_main only_main-IsUnstarted

-- Threads 1 and 2, with their objects 0 and 1.
abbrev two_threads : Threads
two_threads = record {
  objects = λ i.
      if i == 0
      then some (started (codes "io_0") 1)
      else (if i == 1 then some (started (codes "io_1") 2) else none);
  next_object = 2;
  locals = λ t.
      if t == 1
      then record { this_thread = some 0; thread_name = codes "io_0" }
      else (if t == 2
          then record { this_thread = some 1; thread_name = codes "io_1" }
          else new_local);
  next_thread = 3;
  finished = λ t. t == 1;
}

joins_itself : join 2 1 two_threads ≡ some (fault thrown)
unfolding join
joins_itself = refl

waits_for_ever : join 0 1 two_threads ≡ none
unfolding join
waits_for_ever = refl
