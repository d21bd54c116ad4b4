-- ===== src/Poller/Masks.antt =====
-- Sets of epoll events, as far as sylar/concurrency/epoll_poller.cpp tells them apart: the unsigned
-- masks in which no other bit is set.
use sylar_study.Prelude.{Bool, true, false, not, ◌||◌, ◌&&◌}

-- `EPOLLIN`, `EPOLLPRI`, `EPOLLOUT`, `EPOLLERR`, `EPOLLHUP`, `EPOLLRDHUP` and `EPOLLET`.
pub record Mask : Type 0 where
  pub has_in : Bool
  pub has_pri : Bool
  pub has_out : Bool
  pub has_err : Bool
  pub has_hup : Bool
  pub has_rdhup : Bool
  pub has_et : Bool

abbrev pub zero_mask : Mask
zero_mask = record {
  has_in = false;
  has_pri = false;
  has_out = false;
  has_err = false;
  has_hup = false;
  has_rdhup = false;
  has_et = false;
}

abbrev pub in_bit : Mask
in_bit = record zero_mask { has_in = true }

abbrev pub out_bit : Mask
out_bit = record zero_mask { has_out = true }

abbrev pub err_bit : Mask
err_bit = record zero_mask { has_err = true }

abbrev pub et_bit : Mask
et_bit = record zero_mask { has_et = true }

-- `a | b`.
abbrev pub or : Mask → Mask → Mask
or a b = record {
  has_in = a.has_in || b.has_in;
  has_pri = a.has_pri || b.has_pri;
  has_out = a.has_out || b.has_out;
  has_err = a.has_err || b.has_err;
  has_hup = a.has_hup || b.has_hup;
  has_rdhup = a.has_rdhup || b.has_rdhup;
  has_et = a.has_et || b.has_et;
}

-- `a & b`.
abbrev pub and : Mask → Mask → Mask
and a b = record {
  has_in = a.has_in && b.has_in;
  has_pri = a.has_pri && b.has_pri;
  has_out = a.has_out && b.has_out;
  has_err = a.has_err && b.has_err;
  has_hup = a.has_hup && b.has_hup;
  has_rdhup = a.has_rdhup && b.has_rdhup;
  has_et = a.has_et && b.has_et;
}

-- `b & ~a`.
abbrev pub without : Mask → Mask → Mask
without a b = record {
  has_in = not a.has_in && b.has_in;
  has_pri = not a.has_pri && b.has_pri;
  has_out = not a.has_out && b.has_out;
  has_err = not a.has_err && b.has_err;
  has_hup = not a.has_hup && b.has_hup;
  has_rdhup = not a.has_rdhup && b.has_rdhup;
  has_et = not a.has_et && b.has_et;
}

-- `m != 0`.
abbrev pub any : Mask → Bool
any m = m.has_in || m.has_pri || m.has_out || m.has_err || m.has_hup || m.has_rdhup || m.has_et
