-- ===== src/Poller/Synced.antt =====
-- The state of each event agrees with the interest list of the epoll instance
-- (sylar/concurrency/epoll_poller.cpp: `UpdateEvent`, `CancelEvent`, `HandleReadyEvents`).
use sylar_study.Prelude.{
  ℕ, ◌≡◌, ◌≢◌, refl, true, false, Option, none, some, ◌==◌, arith, inl, inr, Bool-cases,
}
use sylar_study.Timer.{Callback}
use sylar_study.Poller.Masks.{Mask, et_bit, or, without, any}
use sylar_study.Poller.Kernel.{EpollKernel}
use sylar_study.Poller.{
  Poller, Event, StateIndex, is_new, is_deleted, is_added, event_or_new, updated_event,
  cancelled_event, insert, op_for, get_or_create_event_obj,
}

-- An added event is registered for the events of its mask, edge-triggered and for one at least; no
-- other event is registered, or interested in any.
abbrev pub Matches : StateIndex → Mask → Option Mask → Type 0
Matches is_added interest r =
    (r ≡ some interest) × (interest.has_et ≡ true) × (any (without et_bit interest) ≡ true)
Matches is_new interest r = (r ≡ none) × (any (without et_bit interest) ≡ false)
Matches is_deleted interest r = (r ≡ none) × (any (without et_bit interest) ≡ false)

abbrev pub Synced : ℕ → Option Event → Option Mask → Type 0
Synced fd none r = r ≡ none
Synced fd (some e) r = (e.fd ≡ fd) × Matches e.state e.interest_event r

module _ {K : Type 0} (E : EpollKernel K) where
  open E use {ctl, registered, add_new, add_again, mod_known, del_known, others}

  unfoldable pub IsSynced : Poller K → Type 0
  IsSynced p = (fd : ℕ) → Synced fd (p.event_set fd) (registered p.kernel fd)

  -- A registration is put in place by the operation that fits the state.
  update-Synced :
      (fd : ℕ) (m : Mask) (k : K) (e : Event)
      → e.fd ≡ fd
      → Matches e.state e.interest_event (registered k fd)
      → ((ctl k (op_for e) fd m).1 ≡ true) × (registered (ctl k (op_for e) fd m).0 fd ≡ some m)
  update-Synced fd m k e f w = go e.state refl w
    where
      go :
          (s : StateIndex)
          → e.state ≡ s
          → Matches s e.interest_event (registered k fd)
          → ((ctl k (op_for e) fd m).1 ≡ true) × (registered (ctl k (op_for e) fd m).0 fd ≡ some m)
      go is_added h w = rw h (mod_known k fd m e.interest_event w.0)
      go is_new h w = rw h (add_new k fd m w.0)
      go is_deleted h w = rw h (add_new k fd m w.0)

  insert-Synced :
      (fd : ℕ) (e : Event) (k : K) (p : Poller K)
      → Synced fd (some e) (registered k fd)
      → ((i : ℕ) → i ≢ fd → registered k i ≡ registered p.kernel i)
      → IsSynced p
      → (i : ℕ) → Synced i (insert fd e p.event_set i) (registered k i)
  unfolding IsSynced
  insert-Synced fd e k p h o w i = elim (Bool-cases (i == fd)) [
    | inl t ↦ let same : i ≡ fd = ground arith in rw (t, same) h
    | inr f ↦ rw (f, o i (λ same. ground arith)) (w i)
  ]

  -- The event that `GetOrCreateEventObj` finds or makes.
  pub event-Synced :
      (fd : ℕ) (o : Option Event) (r : Option Mask)
      → Synced fd o r
      → ((event_or_new fd o).fd ≡ fd)
        × Matches (event_or_new fd o).state (event_or_new fd o).interest_event r
  event-Synced fd none r h = (refl, (h, refl))
  event-Synced fd (some e) r h = h

  pub get_or_create-Synced :
      (fd : ℕ) (p : Poller K) → IsSynced p → IsSynced (get_or_create_event_obj E fd p).0
  unfolding get_or_create_event_obj IsSynced
  get_or_create-Synced fd p w =
      insert-Synced fd (event_or_new fd (p.event_set fd)) p.kernel p
        (event-Synced fd (p.event_set fd) (registered p.kernel fd) (w fd)) (λ i n. refl) w

  pub updated_event-Synced :
      (fd : ℕ) (interest : Mask) (func : Option Callback) (current : ℕ) (p : Poller K)
      → any (without et_bit interest) ≡ true
      → IsSynced p
      → IsSynced (updated_event E fd interest func current p)
        × ((updated_event E fd interest func current p).errors ≡ p.errors)
  unfolding updated_event IsSynced
  updated_event-Synced fd interest func current p a w =
      let e = event_or_new fd (p.event_set fd) in
      let (f, m) = event-Synced fd (p.event_set fd) (registered p.kernel fd) (w fd) in
      let (done, put) = update-Synced fd (or et_bit interest) p.kernel e f m in
      (
        insert-Synced fd _ _ (get_or_create_event_obj E fd p).0 (f, (rw f put, refl, a))
            (λ i n. rw f (others p.kernel _ fd i _ n)) (get_or_create-Synced fd p w),
        rw (f, done) refl,
      )

  -- Both ways to cancel on an added event leave it in step with the interest list.
  pub cancelled_event-Synced :
      (fd : ℕ) (e : Event) (target : Mask) (p : Poller K)
      → e.fd ≡ fd
      → e.state ≡ is_added
      → Matches is_added e.interest_event (registered p.kernel fd)
      → target.has_et ≡ false
      → IsSynced p
      → IsSynced (cancelled_event E fd e target p)
        × ((cancelled_event E fd e target p).errors ≡ p.errors)
  unfolding cancelled_event IsSynced
  cancelled_event-Synced fd e target p f s m t w =
      let left = without target e.interest_event in
      elim (Bool-cases (any (without et_bit left))) [
        | inl more ↦
            let (done, put) = mod_known p.kernel fd left e.interest_event m.0 in
            (
              insert-Synced fd _ _ p (f, rw (more, s, f) (put, ground arith, more))
                  (λ i n. rw f (others p.kernel _ fd i _ n)) w,
              rw (more, f, done) refl,
            )
        | inr none_left ↦
            let (done, gone) = del_known p.kernel fd left e.interest_event m.0 in
            (
              insert-Synced fd _ _ p (f, rw (none_left, f) (gone, none_left))
                  (λ i n. rw f (others p.kernel _ fd i _ n)) w,
              rw (none_left, f, done) refl,
            )
      ]
