-- ===== src/Hook/Sockets.antt =====
-- The contexts that `socket` makes (sylar/concurrency/hook.cpp, fd_manager.cpp).
use sylar_study.Prelude.{ℕ, ◌≡◌, refl, true, some, ==_refl, ok, fault, assertion}
use sylar_study.Poller.Masks.{in_bit, out_bit}
use sylar_study.Fd.Kernel.{Libc}
use sylar_study.Fd.{
  FdContext, System, put_context, is_exist, create_fd_context, get_timeout, get_fd_context,
}
use sylar_study.Hook.{socket, setsockopt, rcvtimeo, with_timeout}

-- A receive timeout that is set on a descriptor with a context is what waiting for input then uses;
-- waiting for output keeps its own.
pub get_timeout-setsockopt :
    {L : Type 0} (fd d : ℕ) (c : FdContext) (s : System L)
    → s.fd_set fd ≡ some c
    → (s' : System L) × (c' : FdContext) × (setsockopt fd rcvtimeo d true s ≡ ok (s', true))
      × (get_fd_context fd s' ≡ ok c')
      × (get_timeout in_bit c' ≡ ok d)
      × (get_timeout out_bit c' ≡ get_timeout out_bit c)
unfolding setsockopt get_fd_context get_timeout is_exist
get_timeout-setsockopt fd d c s e = (
  put_context fd (some (with_timeout rcvtimeo d c)) s,
  with_timeout rcvtimeo d c,
  rw (e, setsockopt) refl,
  rw (==_refl fd, get_fd_context) refl,
  refl,
  refl,
)

module _ {L : Type 0} (libc : Libc L) where
  -- No call removes a context, so a hooked `socket` that is given the number of a closed socket
  -- again stops the process.
  pub socket_again :
      (fd : ℕ) (c : FdContext) (s : System L)
      → s.fd_set fd ≡ some c
      → socket libc true fd s ≡ fault assertion
  unfolding socket create_fd_context is_exist
  socket_again fd c s e = rw e refl
