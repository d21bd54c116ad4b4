-- ===== src/Hook/Status.antt =====
-- The status flags that a user of a hooked socket sees, and those that the kernel has
-- (sylar/concurrency/hook.cpp: `fcntl`; fd_manager.cpp: the constructor of `FdContext`).
use sylar_study.Prelude.{
  ℕ, ◌≡◌, refl, sym, ap, subst, ◌∙◌, Bool, true, false, some, ==_refl, if◌then◌else◌,
}
use sylar_study.Fd.Kernel.{Flags, Libc}
use sylar_study.Fd.{FdContext, System, put_context}
use sylar_study.Hook.{flags, reply, cleared, fcntl_getfl, fcntl_setfl, kept_flags, forward_setfl}

module _ {L : Type 0} (libc : Libc L) where
  open libc use {get_flags, set_flags, set_open, set_other, is_sock}

  setfl-at :
      (fd : ℕ) (f : Flags) (c : FdContext) (s : System L)
      → s.fd_set fd ≡ some c
      → c.is_socket ≡ true
      → c.is_closed ≡ false
      → fcntl_setfl libc fd f s
        ≡ forward_setfl libc fd
            (kept_flags libc c f)
            (put_context fd (some (record c { user_set_nonblock = f.nonblock })) s)
  unfolding fcntl_setfl
  setfl-at fd f c s e k d = rw (e, k, d, fcntl_setfl) refl

  getfl-at :
      (fd : ℕ) (c : FdContext) (s : System L)
      → s.fd_set fd ≡ some c
      → c.is_socket ≡ true
      → c.is_closed ≡ false
      → fcntl_getfl libc fd s ≡ (
          if c.user_set_nonblock
          then reply (get_flags s.libc fd)
          else cleared (get_flags s.libc fd))
  unfolding fcntl_getfl
  getfl-at fd c s e k d = rw (e, k, d, fcntl_getfl) refl

  shown :
      (b : Bool) (n : ℕ)
      → (if b
          then reply (some (record { nonblock = true; others = n }))
          else cleared (some (record { nonblock = true; others = n })))
        ≡ flags (record { nonblock = b; others = n })
  shown true n = refl
  shown false n = refl

  -- On an open socket whose context is not closed and says that O_NONBLOCK was set by the system, when
  -- the F_SETFL of libc succeeds: F_GETFL gives back the flags that F_SETFL was given, O_NONBLOCK
  -- included, while the kernel has O_NONBLOCK set whatever the user asked for.
  pub fcntl_getfl-setfl :
      (fd : ℕ) (f g : Flags) (c : FdContext) (s : System L)
      → s.fd_set fd ≡ some c
      → c.is_socket ≡ true
      → c.is_closed ≡ false
      → c.sys_set_nonblock ≡ true
      → get_flags s.libc fd ≡ some g
      → (set_flags s.libc fd (record f { nonblock = true })).1 ≡ true
      → ((fcntl_setfl libc fd f s).1 ≡ true)
        × (fcntl_getfl libc fd (fcntl_setfl libc fd f s).0 ≡ flags f)
        × (get_flags (fcntl_setfl libc fd f s).0.libc fd ≡ some (record f { nonblock = true }))
  fcntl_getfl-setfl fd f g c s e k d y open_there succeeds =
      let set : FdContext = record c { user_set_nonblock = f.nonblock } in
      let asked : Flags = record f { nonblock = true } in
      let there = put_context fd (some set) s in
      let s1 = (forward_setfl libc fd asked there).0 in
      let now = set_open s.libc fd asked g open_there succeeds in
      subst
        (λ q.
          (q.1 ≡ true) × (fcntl_getfl libc fd q.0 ≡ flags f) × (get_flags q.0.libc fd ≡ some asked))
        (sym (
          setfl-at fd f c s e k d
          ∙ ap (λ b. forward_setfl libc fd (if b then asked else f) there) y))
        (
          succeeds,
          getfl-at fd set s1 (ap (λ b. if b then some set else s.fd_set fd) (==_refl fd)) k d
              ∙ ap (λ o. if f.nonblock then reply o else cleared o) now
              ∙ shown f.nonblock f.others,
          now,
        )
