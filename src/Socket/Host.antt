-- ===== src/Socket/Host.antt =====
-- What src/myfcp/fcp_socket.c relies on in the kernel, with the documented behaviour of fcntl(2),
-- socket(2), connect(2) and close(2).
use commlib.Base.{ℕ, Bool, true, false, Option, some, ◌≡◌, ◌==◌, bit_or, if◌then◌else◌}

-- O_NONBLOCK and FD_CLOEXEC.
abbrev pub o_nonblock : ℕ
o_nonblock = 2048

abbrev pub fd_cloexec : ℕ
fd_cloexec = 1

pub record Network : Type 1 where
  -- The part of a process's state that is the kernel's.
  pub Sys : Type 0
  -- A `struct sockaddr` with its length.
  pub SockAddr : Type 0
  -- `sa_family`.
  pub family : SockAddr → ℕ
  pub is_open : Sys → ℕ → Bool
  -- `fcntl` with F_GETFL, F_SETFL, F_GETFD and F_SETFD; `none` is a negative answer.
  pub get_fl : Sys → ℕ → Option ℕ
  pub set_fl : Sys → ℕ → ℕ → Option Sys
  pub get_fd : Sys → ℕ → Option ℕ
  pub set_fd : Sys → ℕ → ℕ → Option Sys
  -- The descriptor, the level, the name and the value; the flag is whether 0 was returned.
  pub setsockopt : Sys → ℕ → ℕ → ℕ → ℕ → Sys × Bool
  -- The domain, the type and the protocol.
  pub socket : Sys → ℕ → ℕ → ℕ → Option (ℕ × Sys)
  pub connect : Sys → ℕ → SockAddr → Sys × Bool
  pub bind : Sys → ℕ → SockAddr → Sys × Bool
  pub listen : Sys → ℕ → ℕ → Sys × Bool
  -- The new descriptor, and the address of the client.
  pub accept : Sys → ℕ → Option ((ℕ × SockAddr) × Sys)
  pub socketpair : Sys → ℕ → ℕ → ℕ → Option ((ℕ × ℕ) × Sys)
  pub close : Sys → ℕ → Sys
  pub set_fl_get :
      (s s' : Sys) (fd flag : ℕ)
      → get_fl s fd ≡ some flag
      → set_fl s fd (bit_or flag o_nonblock) ≡ some s'
      → get_fl s' fd ≡ some (bit_or flag o_nonblock)
  pub set_fd_get :
      (s s' : Sys) (fd flag : ℕ)
      → get_fd s fd ≡ some flag
      → set_fd s fd (bit_or flag fd_cloexec) ≡ some s'
      → get_fd s' fd ≡ some (bit_or flag fd_cloexec)
  pub set_fl_opens :
      (s s' : Sys) (fd flag n : ℕ) → set_fl s fd flag ≡ some s' → is_open s' n ≡ is_open s n
  pub connect_opens :
      (s : Sys) (fd n : ℕ) (sa : SockAddr) → is_open (connect s fd sa).0 n ≡ is_open s n
  -- `socket` gives a descriptor that was free.
  pub socket_free :
      (s s' : Sys) (d t p fd : ℕ) → socket s d t p ≡ some (fd, s') → is_open s fd ≡ false
  pub socket_opens :
      (s s' : Sys) (d t p fd n : ℕ)
      → socket s d t p ≡ some (fd, s')
      → is_open s' n ≡ (if n == fd then true else is_open s n)
  pub close_closes :
      (s : Sys) (fd n : ℕ) → is_open (close s fd) n ≡ (if n == fd then false else is_open s n)
