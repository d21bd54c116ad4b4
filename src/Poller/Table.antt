-- ===== src/Poller/Table.antt =====
-- The interest list of an epoll instance as a table.
use sylar_study.Prelude.{
  ℕ, ◌≡◌, ◌≢◌, Bool, true, false, Option, none, some, ◌==◌, if◌then◌else◌, arith,
}
use sylar_study.Poller.Masks.{Mask}
use sylar_study.Poller.Kernel.{Op, add, mod_op, del, EpollKernel}

abbrev pub Table : Type 0
Table = ℕ → Option Mask

abbrev pub assign : ℕ → Option Mask → Table → Table
assign fd m k = λ i. if i == fd then m else k i

abbrev pub table_ctl : Table → Op → ℕ → Mask → Table × Bool
table_ctl k add fd m = elim (k fd) [ none ↦ (assign fd (some m) k, true) | some n ↦ (k, false) ]
table_ctl k mod_op fd m = elim (k fd) [ none ↦ (k, false) | some n ↦ (assign fd (some m) k, true) ]
table_ctl k del fd m = elim (k fd) [ none ↦ (k, false) | some n ↦ (assign fd none k, true) ]

pub table_others :
    (k : Table) (op : Op) (fd i : ℕ) (m : Mask) → i ≢ fd → (table_ctl k op fd m).0 i ≡ k i
table_others k add fd i m n = ground arith
table_others k mod_op fd i m n = ground arith
table_others k del fd i m n = ground arith

abbrev pub table : EpollKernel Table
table = record {
  ctl = table_ctl;
  registered = λ k. k;
  add_new = λ k fd m e. ground arith;
  add_again = λ k fd m n e. ground arith;
  mod_known = λ k fd m n e. ground arith;
  del_known = λ k fd m n e. ground arith;
  others = table_others;
}
