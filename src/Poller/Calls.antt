-- ===== src/Poller/Calls.antt =====
-- `UpdateEvent`, `CancelEvent` and the dispatch of a ready event
-- (sylar/concurrency/epoll_poller.cpp) keep the events in step with the epoll instance.
use sylar_study.Prelude.{
  ℕ, ◌≡◌, refl, sym, ap, ◌∙◌, subst, Bool, true, false, Option, none, some, ok, >>=-eq-ok, arith,
  inl, inr, Bool-cases,
}
use sylar_study.Timer.{Callback}
use sylar_study.Poller.Masks.{Mask, et_bit, and, without, any}
use sylar_study.Poller.Kernel.{EpollKernel}
use sylar_study.Poller.{
  Poller, Event, StateIndex, is_new, is_deleted, is_added, event_or_new, update_event,
  updated_event, cancelled_event, cancel_event, cancel_on_event, handle_io, dispatch,
  handle_epoll_events, enqueue_read, enqueue_write, read_if, write_if, wants_read, with_error,
  get_or_create_event_obj,
}
use sylar_study.Poller.Synced.{
  Matches, Synced, IsSynced, event-Synced, get_or_create-Synced, updated_event-Synced,
  cancelled_event-Synced,
}

Matches-added :
    (s : StateIndex) (m target : Mask) (r : Option Mask)
    → Matches s m r
    → target.has_et ≡ false
    → any (and m target) ≡ true
    → s ≡ is_added
Matches-added is_added m target r w t h = refl
Matches-added is_new m target r w t h = ground arith
Matches-added is_deleted m target r w t h = ground arith

-- What a posted task leaves alone.
record Kept {K : Type 0} (e e1 : Event) (p p1 : Poller K) : Type 0 where
  fd_eq : e1.fd ≡ e.fd
  state_eq : e1.state ≡ e.state
  interest_eq : e1.interest_event ≡ e.interest_event
  kernel_eq : p1.kernel ≡ p.kernel
  event_set_eq : p1.event_set ≡ p.event_set
  errors_eq : p1.errors ≡ p.errors

module _ {K : Type 0} (E : EpollKernel K) where
  open E use {ctl, registered}

  enqueue_read-Kept :
      (fd : ℕ) (e : Event) (p : Poller K) {e1 : Event} {p1 : Poller K}
      → enqueue_read E fd e p ≡ ok (e1, p1)
      → Kept e e1 p p1
  unfolding enqueue_read
  enqueue_read-Kept fd e p h = ground arith

  enqueue_write-Kept :
      (fd : ℕ) (e : Event) (p : Poller K) {e1 : Event} {p1 : Poller K}
      → enqueue_write E fd e p ≡ ok (e1, p1)
      → Kept e e1 p p1
  unfolding enqueue_write
  enqueue_write-Kept fd e p h = ground arith

  Kept-trans :
      {e e1 e2 : Event} {p p1 p2 : Poller K} → Kept e e1 p p1 → Kept e1 e2 p1 p2 → Kept e e2 p p2
  Kept-trans a b = record {
    fd_eq = b.fd_eq ∙ a.fd_eq;
    state_eq = b.state_eq ∙ a.state_eq;
    interest_eq = b.interest_eq ∙ a.interest_eq;
    kernel_eq = b.kernel_eq ∙ a.kernel_eq;
    event_set_eq = b.event_set_eq ∙ a.event_set_eq;
    errors_eq = b.errors_eq ∙ a.errors_eq;
  }

  Kept-refl : (e : Event) (p : Poller K) → Kept e e p p
  Kept-refl e p = record {
    fd_eq = refl;
    state_eq = refl;
    interest_eq = refl;
    kernel_eq = refl;
    event_set_eq = refl;
    errors_eq = refl;
  }

  read_if-Kept :
      (b : Bool) (fd : ℕ) (e : Event) (p : Poller K) (r : Event × Poller K)
      → read_if E b fd e p ≡ ok r
      → Kept e r.0 p r.1
  unfolding read_if
  read_if-Kept true fd e p (e1, p1) h = enqueue_read-Kept fd e p h
  read_if-Kept false fd e p (e1, p1) h = ground arith

  write_if-Kept :
      (b : Bool) (fd : ℕ) (e : Event) (p : Poller K) (r : Event × Poller K)
      → write_if E b fd e p ≡ ok r
      → Kept e r.0 p r.1
  unfolding write_if
  write_if-Kept true fd e p (e1, p1) h = enqueue_write-Kept fd e p h
  write_if-Kept false fd e p (e1, p1) h = ground arith

  handle_epoll_events-Kept :
      (fd : ℕ) (e : Event) (ready : Mask) (p : Poller K) (r : Event × Poller K)
      → handle_epoll_events E fd e ready p ≡ ok r
      → Kept e r.0 p r.1
  unfolding handle_epoll_events
  handle_epoll_events-Kept fd e ready p r h =
      let (q, h1, h2) =
        >>=-eq-ok (read_if E (wants_read (with_error ready)) fd e p)
          (λ q. write_if E (with_error ready).has_out fd q.0 q.1) h in
      Kept-trans (read_if-Kept (wants_read (with_error ready)) fd e p q h1)
        (write_if-Kept (with_error ready).has_out fd q.0 q.1 r h2)

  pub cancel_on_event-ok :
      (fd : ℕ) (e : Event) (target : Mask) (p : Poller K)
      → e.state ≡ is_added
      → cancel_on_event E fd e target p ≡ ok (cancelled_event E fd e target p)
  unfolding cancel_on_event
  cancel_on_event-ok fd e target p s = simp s

  -- `UpdateEvent` for at least one event besides EPOLLET passes its assertion, keeps every event
  -- in step with the epoll instance, and makes no call of `epoll_ctl` that fails.
  pub update_event-IsSynced :
      (fd : ℕ) (interest : Mask) (func : Option Callback) (current : ℕ) (p : Poller K)
      → any (without et_bit interest) ≡ true
      → IsSynced E p
      → (p' : Poller K) × (update_event E fd interest func current p ≡ ok p')
        × IsSynced E p'
        × (p'.errors ≡ p.errors)
  unfolding update_event
  update_event-IsSynced fd interest func current p a w =
      let (s, e) = updated_event-Synced E fd interest func current p a w in
      (updated_event E fd interest func current p, ground arith, s, e)

  -- `CancelEvent` for events other than EPOLLET never meets its assertion, keeps every event in
  -- step with the epoll instance, and makes no call of `epoll_ctl` that fails.
  pub cancel_event-IsSynced :
      (fd : ℕ) (target : Mask) (p : Poller K)
      → target.has_et ≡ false
      → IsSynced E p
      → (p' : Poller K) × (cancel_event E fd target p ≡ ok p')
        × IsSynced E p'
        × (p'.errors ≡ p.errors)
  unfolding cancel_event
  cancel_event-IsSynced fd target p t w =
      let e = event_or_new fd (p.event_set fd) in
      let p1 = (get_or_create_event_obj E fd p).0 in
      let (f, m) =
        event-Synced E fd (p.event_set fd) (registered p.kernel fd) (unfold IsSynced in w fd) in
      let w1 = get_or_create-Synced E fd p w in
      elim (Bool-cases (any (and e.interest_event target))) [
        | inl has ↦
            let s =
              Matches-added e.state e.interest_event target (registered p.kernel fd) m t has in
            let (w2, n) = cancelled_event-Synced E fd e target p1 f s (rw s at m) t w1 in
            (
              cancelled_event E fd e target p1,
              rw (has, cancel_event) (cancel_on_event-ok fd e target p1 s),
              w2,
              n,
            )
        | inr not_has ↦ (p1, rw (not_has, cancel_event), w1, refl)
      ]

  Kept-IsSynced : {e e1 : Event} {p p1 : Poller K} → Kept e e1 p p1 → IsSynced E p → IsSynced E p1
  unfolding IsSynced
  Kept-IsSynced k w i = rw (k.kernel_eq, k.event_set_eq) (w i)

  dispatch-IsSynced :
      (fd : ℕ) (ready : Mask) (p : Poller K) (e : Event) {p' : Poller K}
      → ready.has_et ≡ false
      → IsSynced E p
      → Synced fd (some e) (registered p.kernel fd)
      → dispatch E fd ready p e ≡ ok p'
      → IsSynced E p' × (p'.errors ≡ p.errors)
  unfolding dispatch
  dispatch-IsSynced fd ready p e {p'} t w (f, m) h =
      elim (Bool-cases (any (and e.interest_event ready))) [
        | inr none_ready ↦
            let same : p ≡ p' = ground arith in
            (subst (IsSynced E) same w, ap (λ x. x.errors) (sym same))
        | inl has ↦
            let (r, h1, h2) =
              >>=-eq-ok (handle_epoll_events E fd e ready p)
                (λ r. cancel_on_event E fd r.0 ready r.1) (rw (has, dispatch) at h) in
            let k = handle_epoll_events-Kept fd e ready p r h1 in
            let s = Matches-added e.state e.interest_event ready (registered p.kernel fd) m t has in
            let s' = k.state_eq ∙ s in
            let m' : Matches is_added r.0.interest_event (registered r.1.kernel fd) =
              rw (k.interest_eq, k.kernel_eq)
                (subst (λ x. Matches x e.interest_event (registered p.kernel fd)) s m) in
            let same : cancelled_event E fd r.0 ready r.1 ≡ p' =
              cc (sym (cancel_on_event-ok fd r.0 ready r.1 s') ∙ h2) in
            let (w2, n) =
              cancelled_event-Synced E fd r.0 ready r.1 (k.fd_eq ∙ f) s' m' t (Kept-IsSynced k w) in
            (subst (IsSynced E) same w2, ap (λ x. x.errors) (sym same) ∙ n ∙ k.errors_eq)
      ]

  -- The dispatch of a ready event of a descriptor, where it returns, keeps every event in step with
  -- the epoll instance, and makes no call of `epoll_ctl` that fails.
  pub handle_io-IsSynced :
      (fd : ℕ) (ready : Mask) (p : Poller K) {p' : Poller K}
      → ready.has_et ≡ false
      → IsSynced E p
      → handle_io E fd ready p ≡ ok p'
      → IsSynced E p' × (p'.errors ≡ p.errors)
  unfolding handle_io
  handle_io-IsSynced fd ready p {p'} t w h = go (p.event_set fd) refl (unfold IsSynced in w fd)
    where
      go :
          (o : Option Event)
          → p.event_set fd ≡ o
          → Synced fd o (registered p.kernel fd)
          → IsSynced E p' × (p'.errors ≡ p.errors)
      go none s v = ground arith
      go (some e) s v = dispatch-IsSynced fd ready p e t w v (rw (s, handle_io) at h)
