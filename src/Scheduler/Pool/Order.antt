-- ===== src/Scheduler/Pool/Order.antt =====
-- In which order threads take the tasks of the list (sylar/concurrency/scheduler.cpp).
use sylar_study.Prelude.{
  ℕ, Option, ◌≡◌, refl, sym, ap, subst, ◌∙◌, inl, inr, Bool, true, false, none, some, List, [], ◌∷◌,
  ◌++◌, ◌==◌, All, ok, arith,
}
use mathlib.Core.List.{append_assoc, append-nil}
use sylar_study.Coroutine.{Thread}
use sylar_study.Scheduler.{
  Invocable, Shared, Picked, is_for_other, pick, need_notify, after_search, notify_if,
}
use sylar_study.Scheduler.Pick.{IsElsewhere, co-task_list, pick-IsFirst}
use sylar_study.Scheduler.Pool.{
  leaving, Pool, set_phase, post, searched, taken_by, Run, done, posting, marking_stopped,
  searching_list, leaving_search, ending_task, waking, notified_waking,
}

abbrev keep_if : Bool → Invocable → List Invocable → List Invocable
keep_if true t ts = t ∷ ts
keep_if false t ts = ts

-- The tasks of the list with one target.
abbrev pub with_target : ℕ → List Invocable → List Invocable
with_target k [] = []
with_target k (t ∷ ts) = keep_if (t.target_thread == k) t (with_target k ts)

abbrev pub tasks_of : List (ℕ × Invocable) → List Invocable
tasks_of [] = []
tasks_of (e ∷ es) = e.1 ∷ tasks_of es

-- For each target, the tasks that were posted are those that were taken, then those in the list;
-- and every task was taken by a thread that it may run on.
pub record IsFifo (s : Pool) : Type 0 where
  pub in_order :
      (k : ℕ)
      → with_target k s.posted
        ≡ with_target k (tasks_of s.taken) ++ with_target k s.shared.task_list
  pub allowed : All (λ e. is_for_other e.0 e.1 ≡ false) s.taken

keep_if-append :
    (b : Bool) (t : Invocable) (xs ys : List Invocable)
    → keep_if b t (xs ++ ys) ≡ keep_if b t xs ++ ys
keep_if-append true t xs ys = refl
keep_if-append false t xs ys = refl

with_target-append :
    (k : ℕ) (xs ys : List Invocable)
    → with_target k (xs ++ ys) ≡ with_target k xs ++ with_target k ys
with_target-append k [] ys = refl
with_target-append k (x ∷ xs) ys =
    ap (keep_if (x.target_thread == k) x) (with_target-append k xs ys)
    ∙ keep_if-append (x.target_thread == k) x (with_target k xs) (with_target k ys)

tasks_of-append :
    (es : List (ℕ × Invocable)) (e : ℕ × Invocable)
    → tasks_of (es ++ (e ∷ [])) ≡ tasks_of es ++ (e.1 ∷ [])
tasks_of-append [] e = refl
tasks_of-append (x ∷ es) e = ap (λ z. x.1 ∷ z) (tasks_of-append es e)

All-append :
    (P : ℕ × Invocable → Type 0) (es : List (ℕ × Invocable)) (e : ℕ × Invocable)
    → All P es
    → P e
    → All P (es ++ (e ∷ []))
All-append P [] e a h = (h, tt)
All-append P (x ∷ es) e (g, a) h = (g, All-append P es e a h)

elsewhere_target :
    (me k : ℕ) (t b : Invocable)
    → is_for_other me t ≡ false
    → (t.target_thread == k) ≡ true
    → is_for_other me b ≡ true
    → (b.target_thread == k) ≡ false
elsewhere_target me k t b h e o = ground arith

elsewhere-with_target :
    (me k : ℕ) (t : Invocable) (before : List Invocable)
    → is_for_other me t ≡ false
    → (t.target_thread == k) ≡ true
    → All (IsElsewhere me) before
    → with_target k before ≡ []
elsewhere-with_target me k t [] h e a = refl
elsewhere-with_target me k t (b ∷ before) h e (o, a) =
    ap (λ c. keep_if c b (with_target k before)) (elsewhere_target me k t b h e o)
    ∙ elsewhere-with_target me k t before h e a

notify_if-task_list : (b : Bool) (s : Shared) → (notify_if b s).task_list ≡ s.task_list
notify_if-task_list true s = refl
notify_if-task_list false s = refl

keep_if-moved :
    (b : Bool) (t : Invocable) (first before after : List Invocable)
    → (b ≡ true → before ≡ [])
    → first ++ (before ++ keep_if b t after) ≡ (first ++ keep_if b t []) ++ (before ++ after)
keep_if-moved true t first before after h =
    let e = h refl in
    ap (λ z. first ++ (z ++ (t ∷ after))) e
    ∙ sym (append_assoc first (t ∷ []) after)
    ∙ ap (λ z. (first ++ (t ∷ [])) ++ (z ++ after)) (sym e)
keep_if-moved false t first before after h =
    ap (λ z. z ++ (before ++ after)) (sym (append-nil first))

-- The first task that a thread may run goes behind what was taken before it.
with_target-moved :
    (me k : ℕ) (t : Invocable) (first before after : List Invocable)
    → is_for_other me t ≡ false
    → All (IsElsewhere me) before
    → with_target k first ++ with_target k (before ++ (t ∷ after))
      ≡ with_target k (first ++ (t ∷ [])) ++ with_target k (before ++ after)
with_target-moved me k t first before after h a =
    ap (λ z. with_target k first ++ z) (with_target-append k before (t ∷ after))
    ∙ keep_if-moved (t.target_thread == k) t (with_target k first) (with_target k before)
        (with_target k after) (λ e. elsewhere-with_target me k t before h e a)
    ∙ sym (
        ap (λ z. z ++ (with_target k before ++ with_target k after))
          (with_target-append k first (t ∷ [])))
    ∙ sym (ap (λ z. with_target k (first ++ (t ∷ [])) ++ z) (with_target-append k before after))

post-IsFifo : (t : Invocable) (s : Pool) → IsFifo s → IsFifo (post t s)
post-IsFifo t s f = record {
  in_order = λ k.
      let taken = with_target k (tasks_of s.taken) in
      with_target-append k s.posted (t ∷ [])
      ∙ ap (λ z. z ++ with_target k (t ∷ [])) (f.in_order k)
      ∙ append_assoc taken (with_target k s.shared.task_list) (with_target k (t ∷ []))
      ∙ sym (ap (λ z. taken ++ z) (with_target-append k s.shared.task_list (t ∷ [])))
      ∙ sym (ap (λ z. taken ++ with_target k z) (co-task_list t s.shared));
  allowed = f.allowed;
}

none_taken :
    (me : ℕ) (p : Picked) (s : Pool)
    → p.task ≡ none
    → p.rest ≡ s.shared.task_list
    → IsFifo s
    → IsFifo (searched me p s)
none_taken me p s e r f =
    subst (λ o. IsFifo (left o)) (sym e)
      record {
        in_order = λ k.
            f.in_order k ∙ ap (λ z. with_target k (tasks_of s.taken) ++ with_target k z) (sym r);
        allowed = f.allowed;
      }
  where
    left : Option Invocable → Pool
    left o =
        set_phase me (leaving (need_notify p) o)
          (record s { shared = after_search p s.shared; taken = taken_by me o s.taken })

one_taken :
    (me : ℕ) (p : Picked) (s : Pool) (t : Invocable) (before after : List Invocable)
    → p.task ≡ some t
    → s.shared.task_list ≡ before ++ (t ∷ after)
    → All (IsElsewhere me) before
    → is_for_other me t ≡ false
    → p.rest ≡ before ++ after
    → IsFifo s
    → IsFifo (searched me p s)
one_taken me p s t before after e l a h r f =
    subst (λ o. IsFifo (left o)) (sym e)
      record {
        in_order = λ k.
            f.in_order k
            ∙ ap (λ z. with_target k (tasks_of s.taken) ++ with_target k z) l
            ∙ with_target-moved me k t (tasks_of s.taken) before after h a
            ∙ ap (λ z. with_target k z ++ with_target k (before ++ after))
                (sym (tasks_of-append s.taken (me, t)))
            ∙ ap (λ z. with_target k (tasks_of (s.taken ++ ((me, t) ∷ []))) ++ with_target k z)
                (sym r);
        allowed = All-append (λ c. is_for_other c.0 c.1 ≡ false) s.taken (me, t) f.allowed h;
      }
  where
    left : Option Invocable → Pool
    left o =
        set_phase me (leaving (need_notify p) o)
          (record s { shared = after_search p s.shared; taken = taken_by me o s.taken })

searched-IsFifo :
    (me : ℕ) (w : Thread) (p : Picked) (s : Pool)
    → pick me w s.shared.task_list ≡ ok p
    → IsFifo s
    → IsFifo (searched me p s)
searched-IsFifo me w p s h f = elim (pick-IsFirst me w s.shared.task_list p h) [
  | inl (e, a, r) ↦ none_taken me p s e r f
  | inr (before, t, after, e, l, a, m, o, r) ↦ one_taken me p s t before after e l a m r f
]

-- Whatever the threads do in whatever order: of the tasks with one target, and of those without
-- one, those that were taken followed by those in the list are all that were posted, in the order
-- in which they were posted, and each task was taken by a thread that it may run on; if this was so
-- at first.
pub Run-IsFifo : {s s' : Pool} → IsFifo s → Run s s' → IsFifo s'
Run-IsFifo f done = f
Run-IsFifo f (posting {q = q} t run) = post-IsFifo t q (Run-IsFifo f run)
Run-IsFifo f (marking_stopped n run) =
    let r = Run-IsFifo f run in record { in_order = r.in_order; allowed = r.allowed }
Run-IsFifo f (searching_list {q = q} me w p run at h) =
    searched-IsFifo me w p q h (Run-IsFifo f run)
Run-IsFifo f (leaving_search {q = q} me b o run at) =
    let r = Run-IsFifo f run in
    record {
      in_order = λ k.
          r.in_order k
          ∙ ap (λ z. with_target k (tasks_of q.taken) ++ with_target k z)
              (sym (notify_if-task_list b q.shared));
      allowed = r.allowed;
    }
Run-IsFifo f (ending_task me run at) =
    let r = Run-IsFifo f run in record { in_order = r.in_order; allowed = r.allowed }
Run-IsFifo f (waking me run at) =
    let r = Run-IsFifo f run in record { in_order = r.in_order; allowed = r.allowed }
Run-IsFifo f (notified_waking me run at) =
    let r = Run-IsFifo f run in record { in_order = r.in_order; allowed = r.allowed }
