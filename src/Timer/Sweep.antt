-- ===== src/Timer/Sweep.antt =====
-- The expiry loop of `GetAllExpiredTimers` (sylar/concurrency/timer_manager.cpp).
use sylar_study.Prelude.{
  ℕ, zero, suc, ◌+◌, ◌-◌, ◌<◌, ◌≤◌, ◌≡◌, ◌≢◌, refl, sym, ap, true, List, [], ◌∷◌, ◌++◌, some, arith,
  if◌then◌else◌, length, leb, ok, fault, assertion, ◌∙◌, Bool-cases, inl, inr, ◌⊎◌,
}
use sylar_study.Timer.{
  Timer, TimerManager, Swept, insert, earliest, refresh_timer_fd, is_repeated, set_expiration,
  sweep, is_later, finish_sweep, get_all_expired,
}
use sylar_study.Timer.Order.{IsSorted, Above-IsSorted, insert-IsSorted}
use sylar_study.Timer.Laws.{Inv}
use mathlib.Core.List.{append_assoc, append-nil}

-- The timers due at `tp`, a prefix of the set.
abbrev pub due_by : ℕ → List Timer → List Timer
due_by tp [] = []
due_by tp (t ∷ ts) = let rest = due_by tp ts in if leb t.timeout_tp tp then t ∷ rest else []

-- Every timer either fires once or repeats after more than `d`.
abbrev pub Slow : ℕ → List Timer → Type 0
Slow d [] = Unit
Slow d (t ∷ ts) = ((t.interval ≡ 0) ⊎ (d < t.interval)) × Slow d ts

-- The readings of the clock from the `k`-th on lie between `lo` and `hi`.
abbrev pub Between : ℕ → ℕ → (ℕ → ℕ) → Type 0
Between lo hi now = (k : ℕ) → (lo ≤ now k) × (now k ≤ hi)

due_by-insert :
    (tp : ℕ) (t : Timer) (ts : List Timer)
    → IsSorted ts
    → tp < t.timeout_tp
    → due_by tp (insert t ts) ≡ due_by tp ts
unfolding insert
due_by-insert tp t [] s h = ground arith
due_by-insert tp t (u ∷ us) s h =
    ground (arith, due_by-insert tp t us (Above-IsSorted u.timeout_tp us s))

insert-Slow :
    (d : ℕ) (t : Timer) (ts : List Timer)
    → (t.interval ≡ 0) ⊎ (d < t.interval)
    → Slow d ts
    → Slow d (insert t ts)
unfolding insert
insert-Slow d t [] h s = (h, tt)
insert-Slow d t (u ∷ us) h s = ground (arith, insert-Slow d t us h s.1)

-- What the loop leaves. `due` is what expired in it: all that was due at `lo`, in order, and
-- nothing that was not due at `hi`.
pub record Sweeps (lo hi : ℕ) (expired ts : List Timer) (s : Swept) : Type 0 where
  pub due : List Timer
  pub later : List Timer
  pub rest : List Timer
  pub expired_is : s.expired ≡ expired ++ due
  pub all_due : due ≡ due_by lo ts ++ later
  pub only_due : due_by hi ts ≡ due ++ rest
  pub left_sorted : IsSorted s.left
  pub left_later : (s.left ≡ []) ⊎ (lo < earliest s.left)

module _ (lo hi : ℕ) where
  later_of : Timer → List Timer → List Timer → List Timer
  later_of t due later = if leb t.timeout_tp lo then later else t ∷ due

  due_by-first :
      (t : Timer) (ts due later : List Timer)
      → IsSorted (t ∷ ts)
      → due ≡ due_by lo ts ++ later
      → t ∷ due ≡ due_by lo (t ∷ ts) ++ later_of t due later
  unfolding later_of
  due_by-first t ts due later h e = ground arith

  -- One round of the loop on an expired timer.
  Sweeps-cons :
      (expired : List Timer) (t : Timer) (ts ts' : List Timer) {s : Swept}
      → IsSorted (t ∷ ts)
      → t.timeout_tp ≤ hi
      → due_by lo ts' ≡ due_by lo ts
      → due_by hi ts' ≡ due_by hi ts
      → Sweeps lo hi (expired ++ t ∷ []) ts' s
      → Sweeps lo hi expired (t ∷ ts) s
  Sweeps-cons expired t ts ts' h le el eh w = record {
    due = t ∷ w.due;
    later = later_of t w.due w.later;
    rest = w.rest;
    expired_is = w.expired_is ∙ append_assoc expired (t ∷ []) w.due;
    all_due = due_by-first t ts w.due w.later h (w.all_due ∙ ap (λ l. l ++ w.later) el);
    only_due = ground (arith, sym eh ∙ w.only_due);
    left_sorted = w.left_sorted;
    left_later = w.left_later;
  }

  Sweeps-stop :
      (expired ts : List Timer) (k : ℕ)
      → IsSorted ts
      → (ts ≡ []) ⊎ (lo < earliest ts)
      → Sweeps lo hi expired ts (record { expired = expired; left = ts; readings = k })
  unfolding earliest
  Sweeps-stop expired [] k h n = record {
    due = [];
    later = [];
    rest = [];
    expired_is = sym (append-nil expired);
    all_due = refl;
    only_due = refl;
    left_sorted = tt;
    left_later = n;
  }
  Sweeps-stop expired (t ∷ ts) k h n = record {
    due = [];
    later = [];
    rest = due_by hi (t ∷ ts);
    expired_is = sym (append-nil expired);
    all_due = ground arith;
    only_due = refl;
    left_sorted = h;
    left_later = n;
  }

is_later-earliest :
    (ts : List Timer) (latest lo : ℕ)
    → latest ≤ lo
    → (ts ≡ []) ⊎ (lo < earliest ts)
    → is_later ts latest ≡ true
unfolding is_later earliest
is_later-earliest [] latest lo l h = refl
is_later-earliest (t ∷ ts) latest lo l h = ground arith

module _ (lo hi : ℕ) (now : ℕ → ℕ) (clock : Between lo hi now) where
  repeats_later :
      (t : Timer) (k : ℕ)
      → (t.interval ≡ 0) ⊎ (hi - lo < t.interval)
      → is_repeated t ≡ true
      → hi < t.interval + now k
  unfolding is_repeated
  repeats_later t k d r = ground (arith, clock k)

  -- The round that puts a repeated timer back.
  again_due :
      (tp k : ℕ) (t : Timer) (ts : List Timer)
      → tp ≤ hi
      → IsSorted (t ∷ ts)
      → hi < t.interval + now k
      → due_by tp (insert (set_expiration t (t.interval + now k)) ts) ≡ due_by tp ts
  unfolding set_expiration
  again_due tp k t ts le h r =
      due_by-insert tp _ ts (Above-IsSorted t.timeout_tp ts h) (omega arith)

  lo-le-hi : lo ≤ hi
  lo-le-hi = omega (arith, clock 0)

  again_Slow :
      (k : ℕ) (t : Timer) (ts : List Timer)
      → Slow (hi - lo) (t ∷ ts)
      → Slow (hi - lo) (insert (set_expiration t (t.interval + now k)) ts)
  unfolding set_expiration
  again_Slow k t ts d = insert-Slow (hi - lo) _ ts d.0 d.1

  fewer_due :
      (fuel k : ℕ) (t : Timer) (ts : List Timer)
      → length (due_by hi (t ∷ ts)) < suc fuel
      → leb t.timeout_tp (now k) ≡ true
      → length (due_by hi ts) < fuel
  fewer_due fuel k t ts f e = ground (arith, clock k)

  -- The loop ends after at most as many rounds as timers are due at the last reading, if no timer
  -- repeats within the time that the loop takes. What it has then taken out is `Sweeps`.
  pub sweep_total :
      (fuel k : ℕ) (expired ts : List Timer)
      → IsSorted ts
      → Slow (hi - lo) ts
      → length (due_by hi ts) < fuel
      → (s : Swept) × (sweep fuel now k expired ts ≡ some s) × Sweeps lo hi expired ts s
  unfolding sweep earliest
  sweep_total zero k expired ts h d f = absurd (omega arith)
  sweep_total (suc fuel) k expired [] h d f = (
    record { expired = expired; left = []; readings = k },
    refl,
    Sweeps-stop lo hi expired [] k tt (inl refl),
  )
  sweep_total (suc fuel) k expired (t ∷ ts) h d f = elim (Bool-cases (leb t.timeout_tp (now k))) [
    | inr e ↦ rw e (
      record { expired = expired; left = t ∷ ts; readings = k + 1 },
      refl,
      Sweeps-stop lo hi expired (t ∷ ts) (k + 1) h (inr (ground (arith, clock k))),
    )
    | inl e ↦ elim (Bool-cases (is_repeated t)) [
      | inl r ↦
          let late = repeats_later t (k + 1) d.0 r in
          let next = insert (set_expiration t (t.interval + now (k + 1))) ts in
          let (s, p, w) =
            sweep_total fuel (k + 2) (expired ++ t ∷ []) next
              (insert-IsSorted _ ts (Above-IsSorted t.timeout_tp ts h)) (again_Slow (k + 1) t ts d)
              (rw (again_due hi (k + 1) t ts (omega arith) h late) (fewer_due fuel k t ts f e)) in
          rw (e, r)
            (
              s,
              p,
              Sweeps-cons lo hi expired t ts next h (ground (arith, clock k))
                  (again_due lo (k + 1) t ts lo-le-hi h late)
                  (again_due hi (k + 1) t ts (omega arith) h late) w,
            )
      | inr o ↦
          let (s, p, w) =
            sweep_total fuel (k + 1) (expired ++ t ∷ []) ts (Above-IsSorted t.timeout_tp ts h) d.1
              (fewer_due fuel k t ts f e) in
          rw (e, o)
            (s, p, Sweeps-cons lo hi expired t ts ts h (ground (arith, clock k)) refl refl w)
    ]
  ]

  -- A wake-up at which a timer is due, with all readings of the clock between two times that are
  -- closer than the interval of any repeated timer: with more fuel than timers due at the later
  -- time `GetAllExpiredTimers` ends and passes its assertion, takes out every timer due at the
  -- earlier time and none that is not due at the later, in the order of their deadlines, leaves no
  -- timer due at the earlier time in the set, and keeps the invariant.
  pub get_all_expired_total :
      (fuel : ℕ) (m : TimerManager)
      → Inv m
      → Slow (hi - lo) m.timers
      → m.latest_time ≤ lo
      → length (due_by hi m.timers) < fuel
      → (m' : TimerManager) × (expired later rest : List Timer) × (get_all_expired fuel now m
          ≡ some (ok (m', expired)))
        × Inv m'
        × (expired ≡ due_by lo m.timers ++ later)
        × (due_by hi m.timers ≡ expired ++ rest)
        × ((m'.timers ≡ []) ⊎ (lo < m'.latest_time))
  unfolding get_all_expired finish_sweep refresh_timer_fd
  get_all_expired_total fuel m v d l f =
      let (s, p, w) = sweep_total fuel 0 [] m.timers v.sorted d f in
      (
        refresh_timer_fd (record m { timers = s.left; latest_time = earliest s.left }),
        s.expired,
        w.later,
        w.rest,
        rw (p, get_all_expired)
            (rw (is_later-earliest s.left m.latest_time lo l w.left_later, finish_sweep) refl),
        record { sorted = w.left_sorted; latest = refl; armed = refl },
        w.expired_is ∙ w.all_due,
        w.only_due ∙ ap (λ x. x ++ w.rest) (sym w.expired_is),
        w.left_later,
      )

-- A wake-up at which no timer is due, as after the first timer was cancelled or when another thread
-- has already handled it: if the set is not empty, the assertion fails.
pub get_all_expired_spurious :
    (fuel : ℕ) (now : ℕ → ℕ) (m : TimerManager)
    → Inv m
    → m.timers ≢ []
    → now 0 < m.latest_time
    → get_all_expired (suc fuel) now m ≡ some (fault assertion)
unfolding get_all_expired sweep finish_sweep earliest
get_all_expired_spurious fuel now m v n h = ground arith
