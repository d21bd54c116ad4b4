-- ===== src/Threads/Ended.antt =====
-- What `Join`, `Detach` and the destructor of `Thread` leave (sylar/concurrency/thread.cpp).
use sylar_study.Prelude.{
  ℕ, ◌≡◌, refl, ap, ◌∙◌, Bool, true, false, Option, none, some, ◌==◌, if◌then◌else◌, Outcome, ok,
  fault, thrown, assertion, check, get, ◌>>=◌, ◌>>◌, Run, ==_refl,
}
use sylar_study.Threads.{
  Local, ThreadObject, Threads, is_null, put_object, put_local, set_this_thread, get_this_thread,
  join, detach, destroy,
}

-- The pointer leads to an object that owns a thread, which ends by the time it is joined and is not
-- `me`.
abbrev pub IsEnded : ℕ → Threads → ℕ → Type 0
IsEnded me s i =
    (o : ThreadObject) × (s.objects i ≡ some o)
    × (o.joinable ≡ true)
    × (s.finished o.pthread_id ≡ true)
    × ((o.pthread_id == me) ≡ false)

abbrev released : ThreadObject → ThreadObject
released o = record o { joinable = false }

-- `Join` on a thread that ends returns, and the object owns no thread then.
pub join-IsEnded :
    (me i : ℕ) (s : Threads)
    → IsEnded me s i
    → (s1 : Threads) × (join me i s ≡ some (ok s1))
      × ((j : ℕ) → (j == i) ≡ false → s1.objects j ≡ s.objects j)
      × ((o : ThreadObject) × (s1.objects i ≡ some o))
      × (s1.locals ≡ s.locals)
      × (s1.finished ≡ s.finished)
unfolding join
join-IsEnded me i s (o, e, owns, ends, other) = (
  put_object i (some (released o)) s,
  ap join_on e
      ∙ ap
          (λ b.
            if b
            then (if o.pthread_id == me
                then some (fault thrown)
                else (if s.finished o.pthread_id
                    then some (ok (put_object i (some (released o)) s))
                    else none))
            else some (ok s))
          owns
      ∙ ap
          (λ b.
            if b
            then some (fault thrown)
            else (if s.finished o.pthread_id
                then some (ok (put_object i (some (released o)) s))
                else none))
          other
      ∙ ap (λ b. if b then some (ok (put_object i (some (released o)) s)) else none) ends,
  (λ j d. ap (λ b. if b then some (released o) else s.objects j) d),
  (released o, ap (λ b. if b then some (released o) else s.objects i) (==_refl i)),
  refl,
  refl,
)
  where
    join_on : Option ThreadObject → Run Threads
    join_on q = elim q [
      | none ↦ some (get none)
      | some p ↦
          if p.joinable
          then (if p.pthread_id == me
              then some (fault thrown)
              else (if s.finished p.pthread_id
                  then some (ok (put_object i (some (released p)) s))
                  else none))
          else some (ok s)
    ]

detached :
    (o : ThreadObject) (i : ℕ) (s : Threads)
    → s.objects i ≡ some o
    → (s1 : Threads) × (detach i s ≡ ok s1)
      × (s1.locals ≡ s.locals)
      × ((j : ℕ) → (j == i) ≡ false → s1.objects j ≡ s.objects j)
unfolding detach
detached o i s e = detach_as o.joinable refl
  where
    detach_on : ThreadObject → Outcome Threads
    detach_on p = if p.joinable then ok (put_object i (some (released p)) s) else ok s

    found : detach i s ≡ detach_on o
    found = ap (λ q. get q >>= λ p. detach_on p) e

    on : Bool → Outcome Threads
    on b = if b then ok (put_object i (some (released o)) s) else ok s

    detach_as :
        (b : Bool)
        → o.joinable ≡ b
        → (s1 : Threads) × (detach i s ≡ ok s1)
          × (s1.locals ≡ s.locals)
          × ((j : ℕ) → (j == i) ≡ false → s1.objects j ≡ s.objects j)
    detach_as true h = (
      put_object i (some (released o)) s,
      found ∙ ap on h,
      refl,
      λ j d. ap (λ b. if b then some (released o) else s.objects j) d,
    )
    detach_as false h = (s, found ∙ ap on h, refl, λ j d. refl)

destroy-detached :
    (me i : ℕ) (s s1 : Threads)
    → detach i s ≡ ok s1
    → s1.locals ≡ s.locals
    → destroy me i s ≡ (
        (check (is_null (get_this_thread me s)) >> ok (record (s.locals me) { this_thread = none }))
        >>= λ l. ok (put_object i none (put_local me l s1)))
unfolding destroy set_this_thread
destroy-detached me i s s1 d e =
    ap
      (λ q. q >>= λ z.
        (set_this_thread none (z.locals me) >>= λ l. ok (put_object i none (put_local me l z))))
      d
    ∙ ap (λ f. set_this_thread none (f me) >>= λ l. ok (put_object i none (put_local me l s1))) e

check-if :
    {A : Type 0} (b : Bool) (l : Local) (f : Local → A)
    → ((check b >> ok l) >>= λ k. ok (f k)) ≡ (if b then ok (f l) else fault assertion)
check-if true l f = refl
check-if false l f = refl

-- The destructor of a thread meets a failed assertion when it is run by a thread that was itself
-- started through a `Thread`. On any other thread it ends, the object is gone, the other objects
-- are as they were, and the calling thread still has no object.
pub destroy-this_thread :
    (me i : ℕ) (o : ThreadObject) (s : Threads)
    → s.objects i ≡ some o
    → (s' : Threads) × (destroy me i s
        ≡ (if is_null (get_this_thread me s) then ok s' else fault assertion))
      × (s'.objects i ≡ none)
      × ((j : ℕ) → (j == i) ≡ false → s'.objects j ≡ s.objects j)
      × (get_this_thread me s' ≡ none)
destroy-this_thread me i o s e =
    let d = detached o i s e in
    let l : Local = record (s.locals me) { this_thread = none } in
    (
      put_object i none (put_local me l d.0),
      destroy-detached me i s d.0 d.1 d.2
          ∙ check-if (is_null (get_this_thread me s)) l
              (λ k. put_object i none (put_local me k d.0)),
      ap (λ b. if b then none else d.0.objects i) (==_refl i),
      (λ j h. ap (λ b. if b then none else d.0.objects j) h ∙ d.3 j h),
      ap (λ b. (if b then l else d.0.locals me).this_thread) (==_refl me),
    )
