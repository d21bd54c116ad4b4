-- ===== src/Poller/Kernel.antt =====
-- The epoll instance that sylar/concurrency/epoll_poller.cpp drives by `epoll_ctl`: a parameter,
-- with what the manual page says of the interest list, for an open descriptor that supports epoll.
use sylar_study.Prelude.{ℕ, ◌≡◌, ◌≢◌, Bool, true, false, Option, none, some}
use sylar_study.Poller.Masks.{Mask}

pub data Op : Type 0 where
  add mod_op del : Op

-- `ctl` is `epoll_ctl`, with whether it succeeds; `registered` is the interest list.
pub record EpollKernel (K : Type 0) : Type 0 where
  pub ctl : K → Op → ℕ → Mask → K × Bool
  pub registered : K → ℕ → Option Mask
  pub add_new :
      (k : K) (fd : ℕ) (m : Mask)
      → registered k fd ≡ none
      → ((ctl k add fd m).1 ≡ true) × (registered (ctl k add fd m).0 fd ≡ some m)
  pub add_again :
      (k : K) (fd : ℕ) (m n : Mask)
      → registered k fd ≡ some n
      → ((ctl k add fd m).1 ≡ false) × (registered (ctl k add fd m).0 fd ≡ some n)
  pub mod_known :
      (k : K) (fd : ℕ) (m n : Mask)
      → registered k fd ≡ some n
      → ((ctl k mod_op fd m).1 ≡ true) × (registered (ctl k mod_op fd m).0 fd ≡ some m)
  pub del_known :
      (k : K) (fd : ℕ) (m n : Mask)
      → registered k fd ≡ some n
      → ((ctl k del fd m).1 ≡ true) × (registered (ctl k del fd m).0 fd ≡ none)
  pub others :
      (k : K) (op : Op) (fd i : ℕ) (m : Mask)
      → i ≢ fd
      → registered (ctl k op fd m).0 i ≡ registered k i
