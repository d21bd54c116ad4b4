-- ===== src/Fd.antt =====
-- sylar/concurrency/fd_manager.h and fd_manager.cpp: what the library keeps of each file descriptor. The
-- kernel's part is the parameter `Libc`.
pub mod Kernel
use sylar_study.Prelude.{
  ℕ, Bool, true, false, not, Option, none, some, ◌==◌, if◌then◌else◌, Outcome, ok, fault, undefined,
  thrown, assertion, check, ◌>>=◌, ◌>>◌,
}
use sylar_study.Poller.Masks.{Mask}
use Kernel.{Flags, Libc}

-- `duration::max()`, in nanoseconds.
abbrev pub forever : ℕ
forever = 9223372036854775807

pub record FdContext : Type 0 where
  pub fd : ℕ
  pub is_closed : Bool
  pub is_socket : Bool
  pub sys_set_nonblock : Bool
  pub user_set_nonblock : Bool
  pub r_timeout : ℕ
  pub w_timeout : ℕ

-- `GetTimeout`.
unfoldable pub get_timeout : Mask → FdContext → Outcome ℕ
get_timeout event c =
    if event.has_in then ok c.r_timeout else if event.has_out then ok c.w_timeout else fault thrown

-- The kernel, and `fdSet_` of the one `FdManager`.
pub record System (L : Type 0) : Type 0 where
  pub libc : L
  pub fd_set : ℕ → Option FdContext

unfoldable pub is_exist {ℓ} : {A : Type ℓ} → Option A → Bool
is_exist none = false
is_exist (some c) = true

abbrev pub put_context : {L : Type 0} → ℕ → Option FdContext → System L → System L
put_context fd c s = record s { fd_set = λ i. if i == fd then c else s.fd_set i }

abbrev pub plain_context : ℕ → Bool → FdContext
plain_context fd socket = record {
  fd = fd;
  is_closed = false;
  is_socket = socket;
  sys_set_nonblock = false;
  user_set_nonblock = false;
  r_timeout = forever;
  w_timeout = forever;
}

-- `GetFdContext`.
unfoldable pub get_fd_context : {L : Type 0} → ℕ → System L → Outcome FdContext
unfolding is_exist
get_fd_context fd s = do
  check (is_exist (s.fd_set fd))
  elim (s.fd_set fd) [ some c ↦ ok c | none ↦ fault thrown ]

-- `RemoveFd`.
pub remove_fd : {L : Type 0} → ℕ → System L → Outcome (System L)
unfolding is_exist
remove_fd fd s = do check (is_exist (s.fd_set fd)); ok (put_context fd none s)

module _ {L : Type 0} (libc : Libc L) where
  open libc use {get_flags, set_flags, is_sock}

  -- The constructor behind the reading of the flags of a socket.
  unfoldable pub make_nonblocking : ℕ → Flags → L → Outcome (L × FdContext)
  make_nonblocking fd flags l =
      let c : FdContext = record (plain_context fd true) { sys_set_nonblock = true } in
      let r = set_flags l fd (record { nonblock = true; others = 0 }) in
      if flags.nonblock then ok (l, c) else (check r.1 >> ok (r.0, c))

  -- The constructor of `FdContext`.
  unfoldable pub new_context : ℕ → L → Outcome (L × FdContext)
  unfolding make_nonblocking
  new_context fd l =
      if is_sock l fd
      then elim (get_flags l fd) [ none ↦ fault thrown | some flags ↦ make_nonblocking fd flags l ]
      else ok (l, plain_context fd false)

  -- `CreateFdContext`.
  unfoldable pub create_fd_context : ℕ → System L → Outcome (System L)
  unfolding is_exist new_context
  create_fd_context fd s = do
    check (not (is_exist (s.fd_set fd)))
    r ← new_context fd s.libc
    ok (put_context fd (some r.1) (record s { libc = r.0 }))
