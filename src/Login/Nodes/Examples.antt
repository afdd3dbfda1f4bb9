-- ===== src/Login/Nodes/Examples.antt =====
-- The wtmp of Login/Examples on the ring, with a `malloc` that counts up.
use commlib.Base.{arith, ℕ, ◌+◌, Option, some, []}
use commlib.Ring.{Ptr, Memory}
use commlib.Login.{Login, node_of}
use commlib.Login.Examples.{wtmp, collect}
use commlib.Login.Nodes.Built.{IsFresh}
use commlib.Login.Nodes.Laws.{Outcome, logout_tty-os_info_logout_tty}

abbrev counting : ℕ → Option Ptr
counting i = some (i + 1)

abbrev all_zero : Memory
all_zero = λ _. record { prev = 0; next = 0 }

abbrev anything : Ptr → Login
anything p = node_of (record {
  ut_type = 0;
  ut_pid = 0;
  ut_user = [];
  ut_host = [];
  ut_line = [];
  tv_sec = 0;
  tv_usec = 0;
})

counting-IsFresh : IsFresh counting 0
counting-IsFresh = record {
  once = λ i j p e f. ground (arith, e, f);
  apart = λ i p e. ground (arith, e);
}

logout_tty-os_info_logout_tty_example : Outcome collect counting 0 all_zero anything wtmp 4 []
logout_tty-os_info_logout_tty_example =
    logout_tty-os_info_logout_tty collect counting 0 all_zero anything wtmp 4 [] counting-IsFresh
      (omega arith)
