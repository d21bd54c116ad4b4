-- ===== src/Hook/Io/Blocking.antt =====
-- What the reading and writing calls return on a hooked thread (sylar/concurrency/hook.cpp: `do_io`).
use sylar_study.Prelude.{
  ℕ, zero, suc, ◌≡◌, ◌≢◌, refl, sym, ap, ◌∙◌, Bool, true, false, List, [], ◌∷◌, ◌++◌, Option, none,
  some, if◌then◌else◌, ok, fault, undefined, Run, >=>-eq-ok, arith, some-injective, ok-injective,
}
use sylar_study.Timer.{Callback}
use sylar_study.Fd.{FdContext}
use sylar_study.Poller.Masks.{Mask}
use sylar_study.Poller.Kernel.{EpollKernel}
use sylar_study.Hook.Io.{
  IoResult, number, eintr, eagain, etimedout, failed, Io, invalid_timer_id, wait, awake, io_loop,
  do_io,
}

-- So many interrupted calls.
abbrev pub interrupts : ℕ → List IoResult
interrupts zero = []
interrupts (suc n) = eintr ∷ interrupts n

-- The call is over: a blocking call neither has to wait nor was interrupted.
abbrev pub is_over : IoResult → Bool
is_over eintr = false
is_over eagain = false
is_over _ = true

-- The call is made on a hooked thread for a socket that the user left blocking.
pub record IsBlocking {K L : Type 0} (fd : ℕ) (s : Io K L) : Type 0 where
  pub context : FdContext
  pub stored : s.system.fd_set fd ≡ some context
  pub on_hooked : s.hooked ≡ true
  pub on_socket : context.is_socket ≡ true
  pub left_blocking : context.user_set_nonblock ≡ false

module _ {K L : Type 0} (E : EpollKernel K) (now : ℕ) (flag : Callback) (tie_cond : ℕ)
    (resume : Io K L → Io K L) where
  abbrev Tie : Type 0
  Tie = Option (Io K L → Bool)

  do_io-io_loop :
      (fd : ℕ) (interest : Mask) (rs : List IoResult) (s : Io K L)
      → IsBlocking fd s
      → do_io E now flag tie_cond resume fd interest rs s
        ≡ io_loop E now flag tie_cond resume none fd interest rs invalid_timer_id s
  unfolding do_io
  do_io-io_loop fd interest rs s b = simp (b.on_hooked, b.stored, b.on_socket, b.left_blocking)

  io_loop-interrupts :
      (tie : Tie) (fd : ℕ) (interest : Mask) (n : ℕ) (rs : List IoResult) (id : ℕ) (s : Io K L)
      → io_loop E now flag tie_cond resume tie fd interest (interrupts n ++ rs) id s
        ≡ io_loop E now flag tie_cond resume tie fd interest rs id s
  unfolding io_loop
  io_loop-interrupts tie fd interest zero rs id s = refl
  io_loop-interrupts tie fd interest (suc n) rs id s = io_loop-interrupts tie fd interest n rs id s

  -- The loops end with neither EINTR nor EAGAIN, whatever the calls of libc return, whatever the
  -- program does while the coroutine waits, and whatever `tie` leads to.
  pub io_loop-is_over :
      (tie : Tie) (fd : ℕ) (interest : Mask) (rs : List IoResult) (id : ℕ) (s : Io K L)
      (q : IoResult × Io K L)
      → io_loop E now flag tie_cond resume tie fd interest rs id s ≡ some (ok q)
      → is_over q.0 ≡ true
  unfolding io_loop
  io_loop-is_over tie fd interest [] id s q h = ground arith
  io_loop-is_over tie fd interest (number n ∷ rs) id s q h =
      ap (λ x. is_over x.0) (sym (ok-injective (some-injective h)))
  io_loop-is_over tie fd interest (eintr ∷ rs) id s q h =
      io_loop-is_over tie fd interest rs id s q h
  io_loop-is_over tie fd interest (etimedout ∷ rs) id s q h =
      ap (λ x. is_over x.0) (sym (ok-injective (some-injective h)))
  io_loop-is_over tie fd interest (failed e ∷ rs) id s q h =
      ap (λ x. is_over x.0) (sym (ok-injective (some-injective h)))
  io_loop-is_over tie fd interest (eagain ∷ rs) id s q h =
      let a = >=>-eq-ok (some (wait E now flag tie_cond resume fd interest id s)) _ h in
      let b = >=>-eq-ok (some (awake E now flag tie_cond resume tie a.0.1 (resume a.0.0))) _ a.2 in
      again-is_over b.0.1 b.0.0 (λ x. io_loop-is_over tie fd interest rs a.0.1 b.0.0 q x) b.2
    where
      again-is_over :
          (timed_out : Bool) (s1 : Io K L) {later : Run (IoResult × Io K L)}
          → (later ≡ some (ok q) → is_over q.0 ≡ true)
          → (if timed_out then some (ok (etimedout, s1)) else later) ≡ some (ok q)
          → is_over q.0 ≡ true
      again-is_over true s1 next e = ap (λ x. is_over x.0) (sym (ok-injective (some-injective e)))
      again-is_over false s1 next e = next e

  io_loop-first :
      (tie : Tie) (fd : ℕ) (interest : Mask) (r : IoResult) (rs : List IoResult) (id : ℕ)
      (s : Io K L)
      → is_over r ≡ true
      → io_loop E now flag tie_cond resume tie fd interest (r ∷ rs) id s ≡ some (ok (r, s))
  unfolding io_loop
  io_loop-first tie fd interest (number n) rs id s h = refl
  io_loop-first tie fd interest eintr rs id s h = ground arith
  io_loop-first tie fd interest eagain rs id s h = ground arith
  io_loop-first tie fd interest etimedout rs id s h = refl
  io_loop-first tie fd interest (failed e) rs id s h = refl

  -- A call on a blocking socket of a hooked thread makes the call of libc again after each EINTR,
  -- and when the first other result is not EAGAIN, returns this result and changes nothing.
  pub do_io_lem :
      (fd : ℕ) (interest : Mask) (n : ℕ) (r : IoResult) (rs : List IoResult) (s : Io K L)
      → is_over r ≡ true
      → IsBlocking fd s
      → do_io E now flag tie_cond resume fd interest (interrupts n ++ r ∷ rs) s ≡ some (ok (r, s))
  do_io_lem fd interest n r rs s h b =
      do_io-io_loop fd interest (interrupts n ++ r ∷ rs) s b
      ∙ io_loop-interrupts none fd interest n (r ∷ rs) invalid_timer_id s
      ∙ io_loop-first none fd interest r rs invalid_timer_id s h

  -- When the first result of libc that is not EINTR is EAGAIN, a call on a blocking socket of a
  -- hooked thread returns in no case: `tie` is a null pointer behind the wait.
  pub do_io-waits :
      (fd : ℕ) (interest : Mask) (n : ℕ) (rs : List IoResult) (s : Io K L) (q : IoResult × Io K L)
      → IsBlocking fd s
      → do_io E now flag tie_cond resume fd interest (interrupts n ++ eagain ∷ rs) s ≢ some (ok q)
  unfolding io_loop awake
  do_io-waits fd interest n rs s q b h =
      let e =
        sym (
          do_io-io_loop fd interest (interrupts n ++ eagain ∷ rs) s b
          ∙ io_loop-interrupts none fd interest n (eagain ∷ rs) invalid_timer_id s)
        ∙ h in
      let a =
        >=>-eq-ok (some (wait E now flag tie_cond resume fd interest invalid_timer_id s)) _ e in
      null_flag a.2
    where
      null_flag : ◌≢◌ {A = Run (IoResult × Io K L)} (some (fault undefined)) (some (ok q))
      null_flag z = ground arith
