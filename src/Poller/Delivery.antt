-- ===== src/Poller/Delivery.antt =====
-- What a registered callback or coroutine gets (sylar/concurrency/epoll_poller.cpp): the events that
-- are delivered.
use sylar_study.Prelude.{
  ℕ, ◌≡◌, refl, ◌∙◌, true, false, [], ◌∷◌, ◌++◌, Option, none, some, ==_refl, ok, arith,
}
use sylar_study.Timer.{Callback}
use sylar_study.Poller.Masks.{Mask, in_bit, out_bit}
use sylar_study.Poller.Kernel.{EpollKernel}
use sylar_study.Poller.{
  Poller, Event, is_deleted, is_added, event_or_new, update_event, updated_event,
  event_after_update, event_after_cancel, call, no_context, cancelled_event, cancel_on_event,
  handle_io, dispatch, handle_epoll_events, enqueue_read, enqueue_write, read_if, write_if,
}
use sylar_study.Poller.Calls.{handle_io-IsSynced}
use sylar_study.Poller.Synced.{Matches, Synced, IsSynced, updated_event-Synced}

module _ {K : Type 0} (E : EpollKernel K) where
  open E use {ctl, registered, del_known}

  pub handle_io-dispatch :
      (fd : ℕ) (ready : Mask) (p : Poller K) (e : Event)
      → p.event_set fd ≡ some e
      → handle_io E fd ready p ≡ dispatch E fd ready p e
  unfolding handle_io
  handle_io-dispatch fd ready p e s = rw (s, handle_io)

  -- The context of a function alone, ready for input.
  dispatch_input :
      (fd : ℕ) (e : Event) (p : Poller K) (f : Callback)
      → e.state ≡ is_added
      → e.interest_event.has_in ≡ true
      → e.read_context.func ≡ some f
      → e.read_context.co ≡ none
      → dispatch E fd in_bit p e
        ≡ ok (
            cancelled_event E fd
              (record e { read_context = no_context })
              in_bit
              (record p { posted = p.posted ++ call f ∷ [] }))
  unfolding dispatch handle_epoll_events read_if write_if enqueue_read cancel_on_event
  dispatch_input fd e p f s i c n = ground arith

  dispatch_output :
      (fd : ℕ) (e : Event) (p : Poller K) (f : Callback)
      → e.state ≡ is_added
      → e.interest_event.has_out ≡ true
      → e.write_context.func ≡ some f
      → e.write_context.co ≡ none
      → dispatch E fd out_bit p e
        ≡ ok (
            cancelled_event E fd
              (record e { write_context = no_context })
              out_bit
              (record p { posted = p.posted ++ call f ∷ [] }))
  unfolding dispatch handle_epoll_events read_if write_if enqueue_write cancel_on_event
  dispatch_output fd e p f s i c n = ground arith

  pub updated_event-stored :
      (fd : ℕ) (m : Mask) (f : Option Callback) (current : ℕ) (p : Poller K)
      → (updated_event E fd m f current p).event_set fd
        ≡ some (event_after_update m f current (event_or_new fd (p.event_set fd)))
  unfolding updated_event
  updated_event-stored fd m f current p = rw (==_refl fd)

  pub cancelled_event-stored :
      (fd : ℕ) (e : Event) (m : Mask) (p : Poller K)
      → (cancelled_event E fd e m p).event_set fd ≡ some (event_after_cancel m e)
  unfolding cancelled_event
  cancelled_event-stored fd e m p = rw (==_refl fd)

  -- A posted function leaves a poller whose events are in step, and its own event deleted.
  deliver :
      (fd : ℕ) (bit : Mask) (p1 p2 : Poller K) (e : Event)
      → bit.has_et ≡ false
      → IsSynced E p1
      → handle_io E fd bit p1 ≡ ok p2
      → p2.event_set fd ≡ some e
      → e.state ≡ is_deleted
      → IsSynced E p2 × (registered p2.kernel fd ≡ none)
  unfolding IsSynced
  deliver fd bit p1 p2 e t w h s d =
      let w2 = (handle_io-IsSynced E fd bit p1 t w h).0 in
      let here : Synced fd (p2.event_set fd) (registered p2.kernel fd) = w2 fd in
      let m : Synced fd (some e) (registered p2.kernel fd) = rw s at here in
      let g : Matches is_deleted e.interest_event (registered p2.kernel fd) = rw d at m.1 in
      (w2, g.0)

  abbrev Delivers : ℕ → Mask → Callback → ℕ → Poller K → Type 0
  Delivers fd bit f current p =
      (p1 : Poller K) × (p2 : Poller K) × (update_event E fd bit (some f) current p ≡ ok p1)
      × (handle_io E fd bit p1 ≡ ok p2)
      × (p2.posted ≡ p.posted ++ call f ∷ [])
      × (registered p2.kernel fd ≡ none)
      × IsSynced E p2

  -- A function that `UpdateEvent` registers for input is posted, once, by the next input on its
  -- descriptor, which is then no longer registered: if no coroutine waits for input there, with
  -- the events in step with the epoll instance before and after.
  pub input_delivered :
      (fd : ℕ) (f : Callback) (current : ℕ) (p : Poller K)
      → IsSynced E p
      → (event_or_new fd (p.event_set fd)).read_context.co ≡ none
      → Delivers fd in_bit f current p
  unfolding update_event updated_event event_after_update event_after_cancel cancelled_event
  input_delivered fd f current p w n =
      let p1 = updated_event E fd in_bit (some f) current p in
      let e1 = event_after_update in_bit (some f) current (event_or_new fd (p.event_set fd)) in
      let e2 = record e1 { read_context = no_context } in
      let p2 = cancelled_event E fd e2 in_bit (record p1 { posted = p1.posted ++ call f ∷ [] }) in
      let w1 = (updated_event-Synced E fd in_bit (some f) current p refl w).0 in
      let h : handle_io E fd in_bit p1 ≡ ok p2 =
        handle_io-dispatch fd in_bit p1 e1 (updated_event-stored fd in_bit (some f) current p)
        ∙ dispatch_input fd e1 p1 f refl refl refl n in
      let (w2, g) =
        deliver fd in_bit p1 p2 (event_after_cancel in_bit e2) refl w1 h
          (cancelled_event-stored fd e2 in_bit (record p1 { posted = p1.posted ++ call f ∷ [] }))
          refl in
      (p1, p2, refl, h, refl, g, w2)

  -- A function that `UpdateEvent` registers for output is posted, once, when its descriptor is
  -- next ready for output, and the descriptor is then no longer registered: if no coroutine waits
  -- for output there, with the events in step with the epoll instance before and after.
  pub output_delivered :
      (fd : ℕ) (f : Callback) (current : ℕ) (p : Poller K)
      → IsSynced E p
      → (event_or_new fd (p.event_set fd)).write_context.co ≡ none
      → Delivers fd out_bit f current p
  unfolding update_event updated_event event_after_update event_after_cancel cancelled_event
  output_delivered fd f current p w n =
      let p1 = updated_event E fd out_bit (some f) current p in
      let e1 = event_after_update out_bit (some f) current (event_or_new fd (p.event_set fd)) in
      let e2 = record e1 { write_context = no_context } in
      let p2 = cancelled_event E fd e2 out_bit (record p1 { posted = p1.posted ++ call f ∷ [] }) in
      let w1 = (updated_event-Synced E fd out_bit (some f) current p refl w).0 in
      let h : handle_io E fd out_bit p1 ≡ ok p2 =
        handle_io-dispatch fd out_bit p1 e1 (updated_event-stored fd out_bit (some f) current p)
        ∙ dispatch_output fd e1 p1 f refl refl refl n in
      let (w2, g) =
        deliver fd out_bit p1 p2 (event_after_cancel out_bit e2) refl w1 h
          (cancelled_event-stored fd e2 out_bit (record p1 { posted = p1.posted ++ call f ∷ [] }))
          refl in
      (p1, p2, refl, h, refl, g, w2)
