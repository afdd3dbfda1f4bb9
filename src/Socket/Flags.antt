-- ===== src/Socket/Flags.antt =====
-- The flags that netutil_socket_nonblocking and netutil_socket_closeonexec set.
use commlib.Base.{
  ℕ, ◌≡◌, true, false, some, inl, inr, ◌==◌, bit_and, bit_or, bit_and-bit_or, Bool-cases,
  Option-cases,
}
use commlib.Socket.Host.{Network, o_nonblock, fd_cloexec}
use commlib.Socket.{socket_nonblocking, socket_closeonexec}

has_nonblock : (flag : ℕ) → (bit_and (bit_or flag o_nonblock) o_nonblock == 0) ≡ false
has_nonblock flag =
    let e : bit_and (bit_or flag o_nonblock) o_nonblock ≡ o_nonblock = bit_and-bit_or 11 flag in
    rw e

has_cloexec : (flag : ℕ) → (bit_and (bit_or flag fd_cloexec) fd_cloexec == 0) ≡ false
has_cloexec flag =
    let e : bit_and (bit_or flag fd_cloexec) fd_cloexec ≡ fd_cloexec = bit_and-bit_or 0 flag in rw e

module _ (k : Network) where
  open k use {Sys, get_fl, set_fl, get_fd, set_fd, set_fl_get, set_fd_get}

  -- After a call that returned 0 the flag is among those of the descriptor.
  abbrev pub IsNonblocking : Sys → ℕ → Type 0
  IsNonblocking s fd =
      (flag : ℕ) × (get_fl s fd ≡ some flag) × ((bit_and flag o_nonblock == 0) ≡ false)

  abbrev pub ClosesOnExec : Sys → ℕ → Type 0
  ClosesOnExec s fd =
      (flag : ℕ) × (get_fd s fd ≡ some flag) × ((bit_and flag fd_cloexec == 0) ≡ false)

  nonblocking_again :
      (fd : ℕ) (s : Sys) → IsNonblocking s fd → socket_nonblocking k fd s ≡ (s, true)
  unfolding socket_nonblocking
  nonblocking_again fd s (flag, known, set) = rw (socket_nonblocking, known, set)

  closeonexec_again : (fd : ℕ) (s : Sys) → ClosesOnExec s fd → socket_closeonexec k fd s ≡ (s, true)
  unfolding socket_closeonexec
  closeonexec_again fd s (flag, known, set) = rw (socket_closeonexec, known, set)

  pub socket_nonblocking-IsNonblocking :
      (fd : ℕ) (s : Sys)
      → (socket_nonblocking k fd s).1 ≡ true
      → IsNonblocking (socket_nonblocking k fd s).0 fd
  unfolding socket_nonblocking
  socket_nonblocking-IsNonblocking fd s e = elim (Option-cases (get_fl s fd)) [
    | inl unknown ↦ absurd (let f : false ≡ true = rw (socket_nonblocking, unknown) at e in cc)
    | inr (flag, known) ↦ elim (Bool-cases (bit_and flag o_nonblock == 0)) [
      | inr set ↦ rw (socket_nonblocking, known, set) (flag, known, set)
      | inl clear ↦ elim (Option-cases (set_fl s fd (bit_or flag o_nonblock))) [
        | inl failed ↦
            absurd (let f : false ≡ true = rw (socket_nonblocking, known, clear, failed) at e in cc)
        | inr (s', done) ↦
            rw (socket_nonblocking, known, clear, done)
              (bit_or flag o_nonblock, set_fl_get s s' fd flag known done, has_nonblock flag)
      ]
    ]
  ]

  pub socket_closeonexec-ClosesOnExec :
      (fd : ℕ) (s : Sys)
      → (socket_closeonexec k fd s).1 ≡ true
      → ClosesOnExec (socket_closeonexec k fd s).0 fd
  unfolding socket_closeonexec
  socket_closeonexec-ClosesOnExec fd s e = elim (Option-cases (get_fd s fd)) [
    | inl unknown ↦ absurd (let f : false ≡ true = rw (socket_closeonexec, unknown) at e in cc)
    | inr (flag, known) ↦ elim (Bool-cases (bit_and flag fd_cloexec == 0)) [
      | inr set ↦ rw (socket_closeonexec, known, set) (flag, known, set)
      | inl clear ↦ elim (Option-cases (set_fd s fd (bit_or flag fd_cloexec))) [
        | inl failed ↦
            absurd (let f : false ≡ true = rw (socket_closeonexec, known, clear, failed) at e in cc)
        | inr (s', done) ↦
            rw (socket_closeonexec, known, clear, done)
              (bit_or flag fd_cloexec, set_fd_get s s' fd flag known done, has_cloexec flag)
      ]
    ]
  ]

  -- Where netutil_socket_nonblocking returned 0, the descriptor has O_NONBLOCK, and where
  -- netutil_socket_closeonexec returned 0 it has FD_CLOEXEC; each of the two, called once more,
  -- returns 0 and changes nothing.
  socket_flags :
      (fd : ℕ) (s t : Sys)
      → (socket_nonblocking k fd s).1 ≡ true
      → (socket_closeonexec k fd t).1 ≡ true
      → let s' = (socket_nonblocking k fd s).0 in
        let t' = (socket_closeonexec k fd t).0 in
        IsNonblocking s' fd
        × (socket_nonblocking k fd s' ≡ (s', true))
        × ClosesOnExec t' fd
        × (socket_closeonexec k fd t' ≡ (t', true))
  socket_flags fd s t e f =
      let a = socket_nonblocking-IsNonblocking fd s e in
      let b = socket_closeonexec-ClosesOnExec fd t f in
      (a, nonblocking_again fd _ a, b, closeonexec_again fd _ b)
