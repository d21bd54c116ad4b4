-- ===== src/Poller/Runs.antt =====
-- Runs of the poller (sylar/concurrency/epoll_poller.cpp) as sequences of calls of `UpdateEvent` and
-- `CancelEvent` and of dispatches; `AppendEvent` is not among them.
use sylar_study.Prelude.{ℕ, ◌≡◌, refl, sym, ◌∙◌, subst, true, false, Option, ok, ok-injective}
use sylar_study.Timer.{Callback}
use sylar_study.Poller.Masks.{Mask, et_bit, without, any}
use sylar_study.Poller.Kernel.{EpollKernel}
use sylar_study.Poller.{Poller, update_event, cancel_event, handle_io}
use sylar_study.Poller.Synced.{IsSynced}
use sylar_study.Poller.Calls.{update_event-IsSynced, cancel_event-IsSynced, handle_io-IsSynced}

module _ {K : Type 0} (E : EpollKernel K) where
  -- The calls of `UpdateEvent`, `CancelEvent` and the dispatch of ready events, in any order, that
  -- lead from one poller to another.
  pub data Run (p : Poller K) : Poller K → Type 0 where
    done : Run p p
    updated :
        {q r : Poller K} (fd : ℕ) (interest : Mask) (func : Option Callback) (current : ℕ)
        → any (without et_bit interest) ≡ true
        → Run p q
        → update_event E fd interest func current q ≡ ok r
        → Run p r
    cancelled :
        {q r : Poller K} (fd : ℕ) (target : Mask)
        → target.has_et ≡ false
        → Run p q
        → cancel_event E fd target q ≡ ok r
        → Run p r
    dispatched :
        {q r : Poller K} (fd : ℕ) (ready : Mask)
        → ready.has_et ≡ false
        → Run p q
        → handle_io E fd ready q ≡ ok r
        → Run p r

  abbrev IsKept : Poller K → Poller K → Type 0
  IsKept p q = IsSynced E q × (q.errors ≡ p.errors)

  IsKept-result :
      (p q : Poller K) {r s : Poller K}
      → IsKept p q
      → IsSynced E s × (s.errors ≡ q.errors)
      → s ≡ r
      → IsKept p r
  IsKept-result p q k n e = subst (λ x. IsKept p x) e (n.0, n.1 ∙ k.1)

  -- After any sequence of calls of `UpdateEvent` and `CancelEvent` and of dispatches of ready events
  -- that return, but without `AppendEvent`, which leaves a new event out of step, every event is in
  -- step with the epoll instance, and no call of `epoll_ctl` has failed, when it was so before. An
  -- update asks for an event besides EPOLLET, and neither a cancelled nor a ready mask has EPOLLET.
  pub Run-IsSynced :
      {p q : Poller K} → IsSynced E p → Run p q → IsSynced E q × (q.errors ≡ p.errors)
  Run-IsSynced {p} w done = (w, refl)
  Run-IsSynced {p} w (updated {q = q} fd interest func current a run h) =
      let k = Run-IsSynced w run in
      let n = update_event-IsSynced E fd interest func current q a k.0 in
      IsKept-result p q k (n.2, n.3) (ok-injective (sym n.1 ∙ h))
  Run-IsSynced {p} w (cancelled {q = q} fd target t run h) =
      let k = Run-IsSynced w run in
      let n = cancel_event-IsSynced E fd target q t k.0 in
      IsKept-result p q k (n.2, n.3) (ok-injective (sym n.1 ∙ h))
  Run-IsSynced {p} w (dispatched {q = q} fd ready t run h) =
      let k = Run-IsSynced w run in
      IsKept-result p q k (handle_io-IsSynced E fd ready q t k.0 h) refl
