-- ===== src/Poller/Tests.antt =====
-- The theorems of `Poller` at concrete events.
use sylar_study.Prelude.{
  ◌≡◌, refl, [], ◌∷◌, none, some, ◌==◌, if◌then◌else◌, ok, fault, assertion, arith,
}
use sylar_study.Timer.{func, new_manager}
use sylar_study.Poller.Masks.{et_bit, in_bit, out_bit, or}
use sylar_study.Poller.Table.{Table, table}
use sylar_study.Poller.{
  handle_epoll_events, dispatch, read_if, enqueue_read, write_if, enqueue_write, enqueue_and_remove,
  cancel_on_event, cancelled_event, Poller, Event, is_added, no_context, resume, call, update_event,
  cancel_event, handle_io,
}
use sylar_study.Poller.Synced.{IsSynced}
use sylar_study.Poller.Runs.{done, dispatched, Run-IsSynced}
use sylar_study.Poller.Delivery.{input_delivered}
use sylar_study.Poller.Lost.{cancel_output_loses_input}

abbrev unused : Poller Table
unused = record {
  kernel = λ i. none;
  event_set = λ i. none;
  timer_manager = new_manager;
  posted = [];
  errors = 0;
}

unused-IsSynced : IsSynced table unused
unfolding IsSynced
unused-IsSynced fd = refl

-- Descriptor 4, registered for both directions with a coroutine that waits for input.
abbrev both : Event
both = record {
  fd = 4;
  interest_event = or et_bit (or in_bit out_bit);
  state = is_added;
  read_context = record { func = none; co = some 8 };
  write_context = no_context;
}

abbrev watched : Poller Table
watched = record unused {
  kernel = λ i. if i == 4 then some both.interest_event else none;
  event_set = λ i. if i == 4 then some both else none;
}

watched-IsSynced : IsSynced table watched
unfolding IsSynced
watched-IsSynced fd = ground arith

-- What is left when input has arrived on descriptor 4.
abbrev answered : Poller Table
answered =
    cancelled_event table 4 (record both { read_context = no_context }) in_bit
      (record watched { posted = resume 8 ∷ [] })

input_run : handle_io table 4 in_bit watched ≡ ok answered
unfolding handle_io dispatch handle_epoll_events read_if enqueue_read write_if enqueue_write
    enqueue_and_remove cancel_on_event
input_run = refl

Run-IsSynced_example : IsSynced table answered × (answered.errors ≡ watched.errors)
Run-IsSynced_example = Run-IsSynced table watched-IsSynced (dispatched 4 in_bit refl done input_run)

input_delivered_example :
    (p1 : Poller Table) × (p2 : Poller Table) × (update_event table 3 in_bit
        (some (func 5))
        0
        unused
      ≡ ok p1)
    × (handle_io table 3 in_bit p1 ≡ ok p2)
    × (p2.posted ≡ call (func 5) ∷ [])
    × (p2.kernel 3 ≡ none)
    × IsSynced table p2
input_delivered_example = input_delivered table 3 (func 5) 0 unused unused-IsSynced refl

cancel_output_loses_input_example :
    (p : Poller Table) × (cancel_event table 4 out_bit watched ≡ ok p)
    × (handle_io table 4 in_bit p ≡ fault assertion)
cancel_output_loses_input_example =
    cancel_output_loses_input table 4 both watched refl refl refl refl
