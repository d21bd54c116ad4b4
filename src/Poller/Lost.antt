-- ===== src/Poller/Lost.antt =====
-- Where the poller (sylar/concurrency/epoll_poller.cpp) loses an event or stops the process.
use sylar_study.Prelude.{
  ℕ, ◌≡◌, refl, sym, ap, ◌∙◌, subst, true, [], ◌∷◌, ◌++◌, Option, none, some, ==_refl,
  if◌then◌else◌, ok, fault, assertion, arith,
}
use sylar_study.Timer.{Callback}
use sylar_study.Poller.Masks.{Mask, zero_mask, et_bit, in_bit, err_bit, out_bit, or, and, any}
use sylar_study.Poller.Kernel.{EpollKernel}
use sylar_study.Poller.{
  Poller, Event, is_new, is_added, event_or_new, update_event, updated_event, append_event,
  event_after_update, event_after_cancel, event_after_append, enqueue_read, enqueue_write, read_if,
  write_if, resume, no_context, cancelled_event, cancel_event, cancel_on_event, handle_io, dispatch,
  handle_epoll_events, enqueue_read, enqueue_write, read_if, write_if, get_or_create_event_obj,
}
use sylar_study.Poller.Calls.{cancel_on_event-ok}
use sylar_study.Poller.Delivery.{handle_io-dispatch, cancelled_event-stored, updated_event-stored}
use sylar_study.Poller.Synced.{Matches, Synced, IsSynced}

event_after_append-state :
    (m : Mask) (f : Option Callback) (current : ℕ) (e : Event)
    → (event_after_append m f current e).state ≡ e.state
unfolding event_after_append
event_after_append-state m (some f) current e = refl
event_after_append-state m none current e = refl

appended_input :
    (f : Callback) (current : ℕ) (e : Event)
    → (event_after_append in_bit (some f) current e).interest_event.has_in ≡ true
unfolding event_after_append
appended_input f current e = ground arith

module _ {K : Type 0} (E : EpollKernel K) where
  open E use {ctl, registered, add_new, add_again}

  append_event-stored :
      (fd : ℕ) (m : Mask) (f : Option Callback) (current : ℕ) (p : Poller K)
      → (append_event E fd m f current p).event_set fd
        ≡ some (event_after_append m f current (event_or_new fd (p.event_set fd)))
  unfolding append_event
  append_event-stored fd m f current p = rw (==_refl fd)

  -- After `AppendEvent` on a descriptor with no event yet, the descriptor is registered, but the
  -- event is still in the state kNew, so the events are out of step with the epoll instance.
  pub append_event-not_IsSynced :
      (fd : ℕ) (interest : Mask) (func : Option Callback) (current : ℕ) (p : Poller K)
      → p.event_set fd ≡ none
      → IsSynced E p
      → ¬ IsSynced E (append_event E fd interest func current p)
  unfolding append_event IsSynced
  append_event-not_IsSynced fd interest func current p n w w' =
      let e = event_or_new fd (p.event_set fd) in
      let p' = append_event E fd interest func current p in
      let ea = event_after_append interest func current e in
      let fresh : registered p.kernel fd ≡ none = rw n at (w fd) in
      let here = add_new p.kernel fd (or zero_mask (or et_bit interest)) fresh in
      let there : registered (append_event E fd interest func current p).kernel fd
          ≡ some (or zero_mask (or et_bit interest)) =
        rw n here.1 in
      let same : ea.state ≡ is_new =
        event_after_append-state interest func current e ∙ ap (λ o. (event_or_new fd o).state) n in
      let known : Synced fd (some ea) (registered p'.kernel fd) =
        rw (append_event-stored fd interest func current p) at (w' fd) in
      let gone : Matches is_new ea.interest_event (registered p'.kernel fd) =
        subst (λ s. Matches s ea.interest_event (registered p'.kernel fd)) same known.1 in
      cc (sym gone.0 ∙ there)

  -- Input on an event that is not in the state kAdded.
  ready_on_new :
      (fd : ℕ) (e : Event) (p : Poller K)
      → e.state ≡ is_new
      → e.interest_event.has_in ≡ true
      → dispatch E fd in_bit p e ≡ fault assertion
  unfolding dispatch handle_epoll_events read_if write_if enqueue_read cancel_on_event
  ready_on_new fd e p s i = ground arith

  -- What `AppendEvent` registers on a descriptor with no event yet stops the process when it is
  -- ready: `CancelEvent` asserts that the event is in the state kAdded.
  pub append_event_then_ready :
      (fd : ℕ) (f : Callback) (current : ℕ) (p : Poller K)
      → p.event_set fd ≡ none
      → handle_io E fd in_bit (append_event E fd in_bit (some f) current p) ≡ fault assertion
  unfolding append_event handle_io dispatch handle_epoll_events read_if enqueue_read cancel_on_event
  append_event_then_ready fd f current p n =
      handle_io-dispatch E fd in_bit (append_event E fd in_bit (some f) current p)
        (event_after_append in_bit (some f) current (event_or_new fd (p.event_set fd)))
        (append_event-stored fd in_bit (some f) current p)
      ∙ ready_on_new fd
          (event_after_append in_bit (some f) current (event_or_new fd (p.event_set fd)))
          (append_event E fd in_bit (some f) current p)
          (event_after_append-state in_bit (some f) current (event_or_new fd (p.event_set fd))
            ∙ ap (λ o. (event_or_new fd o).state) n)
          (appended_input f current (event_or_new fd (p.event_set fd)))

  cancel_event-added :
      (fd : ℕ) (e : Event) (t : Mask) (p : Poller K)
      → p.event_set fd ≡ some e
      → e.state ≡ is_added
      → any (and e.interest_event t) ≡ true
      → cancel_event E fd t p ≡ ok (cancelled_event E fd e t (get_or_create_event_obj E fd p).0)
  unfolding cancel_event
  cancel_event-added fd e t p s a h =
      let p1 = (get_or_create_event_obj E fd p).0 in
      subst
        (λ x.
          (if any (and x.interest_event t) then cancel_on_event E fd x t p1 else ok p1)
          ≡ ok (cancelled_event E fd e t p1))
        (sym (ap (event_or_new fd) s)) (rw h (cancel_on_event-ok E fd e t p1 a))

  no_reader :
      (fd : ℕ) (e : Event) (p : Poller K)
      → e.interest_event.has_in ≡ true
      → e.read_context ≡ no_context
      → dispatch E fd in_bit p e ≡ fault assertion
  unfolding dispatch handle_epoll_events read_if enqueue_read
  no_reader fd e p i c = ground arith

  -- An event that is registered for input and output, after output is cancelled on it: the next
  -- input stops the process, as the read context was reset.
  pub cancel_output_loses_input :
      (fd : ℕ) (e : Event) (p : Poller K)
      → p.event_set fd ≡ some e
      → e.state ≡ is_added
      → e.interest_event.has_in ≡ true
      → e.interest_event.has_out ≡ true
      → (p' : Poller K) × (cancel_event E fd out_bit p ≡ ok p')
        × (handle_io E fd in_bit p' ≡ fault assertion)
  unfolding cancel_event cancelled_event cancel_on_event dispatch handle_epoll_events read_if
      enqueue_read
  cancel_output_loses_input fd e p s a i o =
      let p1 = (get_or_create_event_obj E fd p).0 in
      (
        cancelled_event E fd e out_bit p1,
        cancel_event-added fd e out_bit p s a (ground arith),
        handle_io-dispatch E fd in_bit _ (event_after_cancel out_bit e)
              (cancelled_event-stored E fd e out_bit p1)
            ∙ no_reader fd (event_after_cancel out_bit e) _ (ground arith) refl,
      )

  -- An error together with input, on an event that is registered for input alone, stops the process.
  pub error_without_output :
      (fd : ℕ) (e : Event) (p : Poller K)
      → p.event_set fd ≡ some e
      → e.interest_event.has_in ≡ true
      → e.write_context ≡ no_context
      → handle_io E fd (or in_bit err_bit) p ≡ fault assertion
  unfolding dispatch handle_epoll_events read_if enqueue_read write_if enqueue_write
  error_without_output fd e p s i c = handle_io-dispatch E fd _ p e s ∙ ground arith

  dispatch_coroutine :
      (fd : ℕ) (e : Event) (p : Poller K) (c : ℕ)
      → e.state ≡ is_added
      → e.interest_event.has_in ≡ true
      → e.read_context.co ≡ some c
      → dispatch E fd in_bit p e
        ≡ ok (
            cancelled_event E fd
              (record e { read_context = record e.read_context { co = none } })
              in_bit
              (record p { posted = p.posted ++ resume c ∷ [] }))
  unfolding dispatch handle_epoll_events read_if write_if enqueue_read cancel_on_event
  dispatch_coroutine fd e p c s i n = ground arith

  -- A coroutine that waits for input already is resumed in place of the function that `UpdateEvent`
  -- registers later.
  pub update_event_ignored :
      (fd : ℕ) (e : Event) (f : Callback) (c current : ℕ) (p : Poller K)
      → p.event_set fd ≡ some e
      → e.read_context.co ≡ some c
      → (p1 p2 : Poller K) × (update_event E fd in_bit (some f) current p ≡ ok p1)
        × (handle_io E fd in_bit p1 ≡ ok p2)
        × (p2.posted ≡ p.posted ++ resume c ∷ [])
  unfolding update_event updated_event dispatch handle_epoll_events read_if enqueue_read write_if
      cancel_on_event
  update_event_ignored fd e f c current p s h =
      let e0 = event_or_new fd (p.event_set fd) in
      let p1 = updated_event E fd in_bit (some f) current p in
      let e1 = event_after_update in_bit (some f) current e0 in
      let e2 = record e1 { read_context = record e1.read_context { co = none } } in
      let p2 = cancelled_event E fd e2 in_bit (record p1 { posted = p1.posted ++ resume c ∷ [] }) in
      (
        p1,
        p2,
        refl,
        handle_io-dispatch E fd in_bit p1 e1 (updated_event-stored E fd in_bit (some f) current p)
            ∙ dispatch_coroutine fd e1 p1 c refl refl
                (ap (λ x. (event_or_new fd x).read_context.co) s ∙ h),
        refl,
      )
