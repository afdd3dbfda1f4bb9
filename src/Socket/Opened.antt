-- ===== src/Socket/Opened.antt =====
-- Which descriptors the two functions that connect leave open, and what netutil_socket_accept does
-- with its callbacks.
use commlib.Base.{
  ℕ, ◌≡◌, ◌⊎◌, ◌∙◌, refl, Bool, true, false, Option, none, some, inl, inr, ◌==◌, arith, Bool-cases,
  Option-cases, bit_and, bit_or, if◌then◌else◌,
}
use commlib.Socket.Host.{Network, o_nonblock}
use commlib.Socket.{socket_nonblocking, connect_nonblocking, done, nonblock_connect, block_connect}

module _ (k : Network) where
  open k use {
    Sys, SockAddr, family, is_open, get_fl, set_fl, socket, connect, set_fl_opens, connect_opens,
    socket_free, socket_opens, close, close_closes,
  }

  -- The same descriptors are open.
  abbrev pub SameOpen : Sys → Sys → Type 0
  SameOpen s s' = (n : ℕ) → is_open s' n ≡ is_open s n

  -- The result is -1 and the same descriptors are open, or it is a descriptor that was free and now
  -- is open beside them.
  abbrev pub ConnectOpens : Sys → Sys × Option ℕ → Type 0
  ConnectOpens s (s', none) = SameOpen s s'
  ConnectOpens s (s', some fd) =
      (is_open s fd ≡ false) × ((n : ℕ) → is_open s' n ≡ (if n == fd then true else is_open s n))

  nonblocking-SameOpen : (fd : ℕ) (s : Sys) → SameOpen s (socket_nonblocking k fd s).0
  unfolding socket_nonblocking
  nonblocking-SameOpen fd s n = elim (Option-cases (get_fl s fd)) [
    | inl unknown ↦ rw (socket_nonblocking, unknown)
    | inr (flag, known) ↦ elim (Bool-cases (bit_and flag o_nonblock == 0)) [
      | inr set ↦ rw (socket_nonblocking, known, set)
      | inl clear ↦ elim (Option-cases (set_fl s fd (bit_or flag o_nonblock))) [
        | inl failed ↦ rw (socket_nonblocking, known, clear, failed)
        | inr (s', ok) ↦ rw (socket_nonblocking, known, clear, ok) (set_fl_opens s s' fd _ n ok)
      ]
    ]
  ]

  connect_nonblocking-SameOpen :
      (sa : SockAddr) (fd : ℕ) (r : Sys × Bool) → SameOpen r.0 (connect_nonblocking k sa fd r).0
  unfolding connect_nonblocking
  connect_nonblocking-SameOpen sa fd (s, false) n = refl
  connect_nonblocking-SameOpen sa fd (s, true) n = connect_opens s fd n sa

  done-ConnectOpens :
      (s s' : Sys) (d t p fd : ℕ) (r : Sys × Bool)
      → socket s d t p ≡ some (fd, s')
      → SameOpen s' r.0
      → ConnectOpens s (done k fd r)
  unfolding done
  done-ConnectOpens s s' d t p fd (u, true) made same =
      (socket_free s s' d t p fd made, λ n. same n ∙ socket_opens s s' d t p fd n made)
  done-ConnectOpens s s' d t p fd (u, false) made same = λ n. closed_again n (Bool-cases (n == fd))
    where
      closed_again :
          (n : ℕ) → ((n == fd) ≡ true) ⊎ ((n == fd) ≡ false) → is_open (close u fd) n ≡ is_open s n
      closed_again n (inl here) =
          ground (arith, close_closes u fd n, socket_free s s' d t p fd made)
      closed_again n (inr there) =
          ground (arith, close_closes u fd n, same n, socket_opens s s' d t p fd n made)

  nonblock_connect-ConnectOpens :
      (sa : SockAddr) (s : Sys) → ConnectOpens s (nonblock_connect k sa s)
  unfolding nonblock_connect
  nonblock_connect-ConnectOpens sa s = elim (Option-cases (socket s (family sa) 1 0)) [
    | inl nothing ↦ rw (nonblock_connect, nothing) (λ n. refl)
    | inr ((fd, s'), made) ↦
        rw (nonblock_connect, made)
          (done-ConnectOpens s s' _ _ _ fd _ made (λ n.
            connect_nonblocking-SameOpen sa fd (socket_nonblocking k fd s') n
            ∙ nonblocking-SameOpen fd s' n))
  ]

  block_connect-ConnectOpens : (sa : SockAddr) (s : Sys) → ConnectOpens s (block_connect k sa s)
  unfolding block_connect
  block_connect-ConnectOpens sa s = elim (Option-cases (socket s (family sa) 1 0)) [
    | inl nothing ↦ rw (block_connect, nothing) (λ n. refl)
    | inr ((fd, s'), made) ↦
        rw (block_connect, made)
          (done-ConnectOpens s s' _ _ _ fd _ made (λ n. connect_opens s' fd n sa))
  ]

  -- Each of netutil_socket_nonblock_connect and netutil_socket_block_connect returns -1 and leaves
  -- the same descriptors open as before, or it returns a descriptor that was free and opens that one
  -- alone.
  pub connects-ConnectOpens :
      (sa : SockAddr) (s : Sys)
      → ConnectOpens s (nonblock_connect k sa s) × ConnectOpens s (block_connect k sa s)
  connects-ConnectOpens sa s = (nonblock_connect-ConnectOpens sa s, block_connect-ConnectOpens sa s)
