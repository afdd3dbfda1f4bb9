-- ===== src/Socket/Examples.antt =====
-- A small kernel that keeps its laws, and the socket functions on it.
use commlib.Base.{
  ℕ, ◌≡◌, refl, Bool, true, false, not, Option, none, some, arith, ◌==◌, ltb, if◌then◌else◌, bit_or,
}
use commlib.Socket.Host.{Network, o_nonblock, fd_cloexec}
use commlib.Socket.{nonblock_connect, block_connect}
use commlib.Socket.Opened.{ConnectOpens, connects-ConnectOpens}

record Table : Type 0 where
  opened : ℕ → Bool
  status : ℕ → ℕ
  close_flags : ℕ → ℕ

abbrev put {ℓ} : {A : Type ℓ} → (ℕ → A) → ℕ → A → ℕ → A
put f n a m = if m == n then a else f m

-- The descriptor 3 is the one that can be made.
abbrev new_socket : Table → ℕ → ℕ → ℕ → Option (ℕ × Table)
new_socket s d t p =
    if s.opened 3 then none else some (3, record s { opened = put s.opened 3 true })

abbrev set_status : Table → ℕ → ℕ → Option Table
set_status s fd flag = some (record s { status = put s.status fd flag })

abbrev set_close : Table → ℕ → ℕ → Option Table
set_close s fd flag = some (record s { close_flags = put s.close_flags fd flag })

status_lem :
    (s s' : Table) (fd flag : ℕ)
    → set_status s fd flag ≡ some s'
    → ◌≡◌ {A = Option ℕ} (some (s'.status fd)) (some flag)
status_lem s s' fd flag e = ground arith

close_lem :
    (s s' : Table) (fd flag : ℕ)
    → set_close s fd flag ≡ some s'
    → ◌≡◌ {A = Option ℕ} (some (s'.close_flags fd)) (some flag)
close_lem s s' fd flag e = ground arith

status_opens :
    (s s' : Table) (fd flag n : ℕ) → set_status s fd flag ≡ some s' → s'.opened n ≡ s.opened n
status_opens s s' fd flag n e = ground arith

new_socket_free :
    (s s' : Table) (d t p fd : ℕ) → new_socket s d t p ≡ some (fd, s') → s.opened fd ≡ false
new_socket_free s s' d t p fd e = ground arith

new_socket_opens :
    (s s' : Table) (d t p fd n : ℕ)
    → new_socket s d t p ≡ some (fd, s')
    → s'.opened n ≡ (if n == fd then true else s.opened n)
new_socket_opens s s' d t p fd n e = ground arith

-- The address 0 refuses.
abbrev small_network : Network
small_network = record {
  Sys = Table;
  SockAddr = ℕ;
  family = λ sa. 2;
  is_open = λ s n. s.opened n;
  get_fl = λ s fd. some (s.status fd);
  set_fl = set_status;
  get_fd = λ s fd. some (s.close_flags fd);
  set_fd = set_close;
  setsockopt = λ s fd l n v. (s, true);
  socket = new_socket;
  connect = λ s fd sa. (s, not (sa == 0));
  bind = λ s fd sa. (s, true);
  listen = λ s fd b. (s, true);
  accept = λ s fd. none;
  socketpair = λ s d t p. none;
  close = λ s fd. record s { opened = put s.opened fd false };
  set_fl_get = λ s s' fd flag known e. status_lem s s' fd (bit_or flag o_nonblock) e;
  set_fd_get = λ s s' fd flag known e. close_lem s s' fd (bit_or flag fd_cloexec) e;
  set_fl_opens = λ s s' fd flag n e. status_opens s s' fd flag n e;
  connect_opens = λ s fd n sa. refl;
  socket_free = λ s s' d t p fd e. new_socket_free s s' d t p fd e;
  socket_opens = λ s s' d t p fd n e. new_socket_opens s s' d t p fd n e;
  close_closes = λ s fd n. refl;
}

abbrev start : Table
start = record { opened = λ n. ltb n 3; status = λ n. 2; close_flags = λ n. 0 }

connects-ConnectOpens_example :
    ConnectOpens small_network start (nonblock_connect small_network 8 start)
    × ConnectOpens small_network start (block_connect small_network 8 start)
connects-ConnectOpens_example = connects-ConnectOpens small_network 8 start
