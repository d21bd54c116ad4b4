-- ===== src/Fd/Kernel.antt =====
-- The calls of libc that sylar/concurrency/fd_manager.cpp and hook.cpp forward to: a parameter, with what
-- the manual pages say of the status flags of an open descriptor.
use sylar_study.Prelude.{ℕ, ◌≡◌, ◌≢◌, Bool, true, Option, some}

-- The flags that F_SETFL changes: O_NONBLOCK, and the rest as one number.
pub record Flags : Type 0 where
  pub nonblock : Bool
  pub others : ℕ

-- `get_flags` is F_GETFL, with `none` for -1; `set_flags` is F_SETFL, with whether it succeeds;
-- `is_sock` is what `fstat` says, and false when it fails.
pub record Libc (L : Type 0) : Type 0 where
  pub get_flags : L → ℕ → Option Flags
  pub set_flags : L → ℕ → Flags → L × Bool
  pub is_sock : L → ℕ → Bool
  pub set_open :
      (l : L) (fd : ℕ) (f g : Flags)
      → get_flags l fd ≡ some g
      → (set_flags l fd f).1 ≡ true
      → get_flags (set_flags l fd f).0 fd ≡ some f
  pub set_other :
      (l : L) (fd i : ℕ) (f : Flags) → i ≢ fd → get_flags (set_flags l fd f).0 i ≡ get_flags l i
