-- ===== src/Socket.antt =====
-- The sockets of src/myfcp/fcp_socket.c, over a kernel that is a parameter.
pub mod Host
mod Flags
mod Opened
mod Examples
use commlib.Base.{
  ℕ, zero, suc, Bool, true, false, Option, none, some, ◌==◌, ltb, if◌then◌else◌, bit_and, bit_or,
}
use Host.{Network, o_nonblock, fd_cloexec}

-- SOCK_STREAM, SOL_SOCKET, SO_REUSEADDR, SO_REUSEPORT and AF_UNIX.
abbrev sock_stream : ℕ
sock_stream = 1

abbrev sol_socket : ℕ
sol_socket = 1

abbrev so_reuseaddr : ℕ
so_reuseaddr = 2

abbrev so_reuseport : ℕ
so_reuseport = 15

abbrev af_unix : ℕ
af_unix = 1

module _ (k : Network) where
  open k use {
    Sys, SockAddr, family, get_fl, set_fl, get_fd, set_fd, setsockopt, socket, connect, bind,
    listen, accept, socketpair, close,
  }

  -- The state after the call, and whether it returned 0; `false` is -1.
  pub socket_nonblocking : ℕ → Sys → Sys × Bool
  socket_nonblocking sockfd s = elim (get_fl s sockfd) [
    | none ↦ (s, false)
    | some flag ↦ elim (bit_and flag o_nonblock == 0) [
      | false ↦ (s, true)
      | true ↦ elim (set_fl s sockfd (bit_or flag o_nonblock)) [
        | none ↦ (s, false)
        | some s' ↦ (s', true)
      ]
    ]
  ]

  pub socket_closeonexec : ℕ → Sys → Sys × Bool
  socket_closeonexec sockfd s = elim (get_fd s sockfd) [
    | none ↦ (s, false)
    | some flag ↦ elim (bit_and flag fd_cloexec == 0) [
      | false ↦ (s, true)
      | true ↦ elim (set_fd s sockfd (bit_or flag fd_cloexec)) [
        | none ↦ (s, false)
        | some s' ↦ (s', true)
      ]
    ]
  ]

  pub socket_reuse_addr : ℕ → Sys → Sys × Bool
  socket_reuse_addr sockfd s = setsockopt s sockfd sol_socket so_reuseaddr 1

  -- Where SO_REUSEPORT is defined.
  pub socket_reuse_port : ℕ → Sys → Sys × Bool
  socket_reuse_port sockfd s = setsockopt s sockfd sol_socket so_reuseport 1

  -- The label `done`: on a failure the socket is closed. `none` is the result -1.
  done : ℕ → Sys × Bool → Sys × Option ℕ
  done sockfd (s, true) = (s, some sockfd)
  done sockfd (s, false) = (close s sockfd, none)

  -- The calls behind `socket` in netutil_socket_nonblock_connect.
  connect_nonblocking : SockAddr → ℕ → Sys × Bool → Sys × Bool
  connect_nonblocking sa sockfd (s, false) = (s, false)
  connect_nonblocking sa sockfd (s, true) = connect s sockfd sa

  pub nonblock_connect : SockAddr → Sys → Sys × Option ℕ
  unfolding done connect_nonblocking
  nonblock_connect sa s = elim (socket s (family sa) sock_stream 0) [
    | none ↦ (s, none)
    | some (sockfd, s') ↦ done sockfd (connect_nonblocking sa sockfd (socket_nonblocking sockfd s'))
  ]

  pub block_connect : SockAddr → Sys → Sys × Option ℕ
  unfolding done
  block_connect seraddr s = elim (socket s (family seraddr) sock_stream 0) [
    | none ↦ (s, none)
    | some (sockfd, s') ↦ done sockfd (connect s' sockfd seraddr)
  ]

  -- The two descriptors, or `none` for -1.
  pub socket_unix_pair : Sys → Sys × Option (ℕ × ℕ)
  socket_unix_pair s = elim (socketpair s af_unix sock_stream 0) [
    | none ↦ (s, none)
    | some (pair, s') ↦ (s', some pair)
  ]

  -- How netutil_socket_accept ends: it returns a descriptor or -1, or it calls NULL.
  pub data Accepted : Type 0 where
    returned : Sys → Option ℕ → Accepted
    null_call : Accepted

  -- The two callbacks; the flag is whether the callback returns 0.
  abbrev pub SocketCallback : Type 0
  SocketCallback = ℕ → Sys → Sys × Bool

  abbrev pub AcceptCallback : Type 0
  AcceptCallback = ℕ → SockAddr → Sys → Sys × Bool

  -- `accept`, and the callback where it is no NULL and the descriptor is above 0; its answer is
  -- only logged.
  accept_one : ℕ → Option AcceptCallback → Sys → Accepted
  accept_one sockfd none s = elim (accept s sockfd) [
    | none ↦ returned s (some sockfd)
    | some ((newfd, client), s') ↦ returned s' (some sockfd)
  ]
  accept_one sockfd (some callback) s = elim (accept s sockfd) [
    | none ↦ returned s (some sockfd)
    | some ((newfd, client), s') ↦ elim (ltb 0 newfd) [
      | false ↦ returned s' (some sockfd)
      | true ↦ returned (callback newfd client s').0 (some sockfd)
    ]
  ]

  -- `bind` and `listen` on a new socket.
  bind_and_listen : ℕ → ℕ → SockAddr → Option AcceptCallback → Sys → Accepted
  unfolding accept_one
  bind_and_listen sockfd backlog seraddr accept_callback s =
      let (s', bound) = bind s sockfd seraddr in
      elim bound [
        | false ↦ returned (close s' sockfd) none
        | true ↦
            let (s'', listens) = listen s' sockfd backlog in
            elim listens [
              | false ↦ returned (close s'' sockfd) none
              | true ↦ accept_one sockfd accept_callback s''
            ]
      ]

  -- `if(NULL == listensock_callback) { if( 0 != listensock_callback(sockfd)) ... }`.
  set_listen_socket :
      ℕ → ℕ → SockAddr → Option SocketCallback → Option AcceptCallback → Sys → Accepted
  unfolding bind_and_listen
  set_listen_socket sockfd backlog seraddr none accept_callback s = null_call
  set_listen_socket sockfd backlog seraddr (some listen_callback) accept_callback s =
      bind_and_listen sockfd backlog seraddr accept_callback s

  -- A `none` descriptor is a negative one. The descriptor 0 of a new socket counts as a failure.
  pub socket_accept :
      Option ℕ → ℕ → SockAddr → Option SocketCallback → Option AcceptCallback → Sys → Accepted
  unfolding set_listen_socket accept_one
  socket_accept (some sockfd) backlog seraddr listen_callback accept_callback s =
      accept_one sockfd accept_callback s
  socket_accept none backlog seraddr listen_callback accept_callback s =
      elim (socket s (family seraddr) sock_stream 0) [
        | none ↦ returned s none
        | some (zero, s') ↦ returned s' none
        | some (suc n, s') ↦
            set_listen_socket (suc n) backlog seraddr listen_callback accept_callback s'
      ]
