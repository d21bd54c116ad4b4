-- ===== src/Hook.antt =====
-- sylar/concurrency/hook.cpp: the calls that a hooked thread makes in place of those of libc, as far as they
-- use the descriptor contexts.
pub mod Status
pub mod Sockets
pub mod Sleep
pub mod Io
mod Tests
use sylar_study.Prelude.{
  ℕ, Bool, true, false, not, ◌||◌, ◌&&◌, Option, none, some, ◌==◌, if◌then◌else◌, Outcome, ok,
  fault, check, ◌>>=◌, ◌>>◌,
}
use sylar_study.Fd.Kernel.{Flags, Libc}
use sylar_study.Fd.{FdContext, System, put_context, is_exist, create_fd_context}

-- What F_GETFL returns: flags, -1, or -1 with the bit of O_NONBLOCK cleared.
pub data Reply : Type 0 where
  flags : Flags → Reply
  minus_one minus_one_cleared : Reply

abbrev pub reply : Option Flags → Reply
reply none = minus_one
reply (some f) = flags f

-- `flags & ~O_NONBLOCK`.
abbrev pub cleared : Option Flags → Reply
cleared none = minus_one_cleared
cleared (some f) = flags (record f { nonblock = false })

-- The options that `setsockopt` looks at: SO_RCVTIMEO and SO_SNDTIMEO at SOL_SOCKET.
pub data OptionName : Type 0 where
  rcvtimeo sndtimeo other : OptionName

abbrev pub with_timeout : OptionName → ℕ → FdContext → FdContext
with_timeout rcvtimeo d c = record c { r_timeout = d }
with_timeout sndtimeo d c = record c { w_timeout = d }
with_timeout other d c = c

abbrev pub is_timeout : OptionName → Bool
is_timeout other = false
is_timeout _ = true

-- `setsockopt`; `succeeds` is what the call of libc returns.
pub setsockopt : {L : Type 0} → ℕ → OptionName → ℕ → Bool → System L → Outcome (System L × Bool)
setsockopt fd name d succeeds s = elim (s.fd_set fd) [
  | none ↦ ok (s, succeeds)
  | some c ↦
      (check (not (is_timeout name) || succeeds)
        >> ok (put_context fd (some (with_timeout name d c)) s, succeeds))
]

module _ {L : Type 0} (libc : Libc L) where
  open libc use {get_flags, set_flags}

  -- `fcntl` with F_GETFL.
  pub fcntl_getfl : ℕ → System L → Reply
  fcntl_getfl fd s =
      let f = get_flags s.libc fd in
      elim (s.fd_set fd) [
        | none ↦ reply f
        | some c ↦
            (if not c.is_socket || c.is_closed
              then reply f
              else if c.user_set_nonblock
              then reply f
              else cleared f)
      ]

  abbrev pub forward_setfl : ℕ → Flags → System L → System L × Bool
  forward_setfl fd f s = let r = set_flags s.libc fd f in (record s { libc = r.0 }, r.1)

  -- The flags that F_SETFL hands on for a socket with a context.
  abbrev pub kept_flags : FdContext → Flags → Flags
  kept_flags c f = if c.sys_set_nonblock then record f { nonblock = true } else f

  -- `fcntl` with F_SETFL.
  pub fcntl_setfl : ℕ → Flags → System L → System L × Bool
  fcntl_setfl fd f s = elim (s.fd_set fd) [
    | none ↦ forward_setfl fd f s
    | some c ↦
        (if c.is_closed || not c.is_socket
          then forward_setfl fd f s
          else forward_setfl fd (kept_flags c f)
              (put_context fd (some (record c { user_set_nonblock = f.nonblock })) s))
  ]

  -- `socket`, when the call of libc has returned `fd`, on a hooked thread or another.
  pub socket : Bool → ℕ → System L → Outcome (System L)
  unfolding create_fd_context
  socket hooked fd s = if hooked then create_fd_context libc fd s else ok s
