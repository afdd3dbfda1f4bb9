-- ===== src/Signal/System.antt =====
-- What src/myfcp/fcp_signal.c relies on in the kernel and the C library, with the documented
-- behaviour of sigaction(2) and sigprocmask(2).
use commlib.Base.{ℕ, Bool, true, false, not, Option, some, ◌≡◌, ◌&&◌, ◌||◌, ◌==◌}

-- `sigset_t`: which signals are in the set.
abbrev pub SigSet : Type 0
SigSet = ℕ → Bool

-- `struct sigaction`; a handler is an address, SIG_DFL or SIG_IGN.
pub record SigAction : Type 0 where
  pub handler : ℕ
  pub flags : ℕ
  pub mask : SigSet

-- SIGKILL and SIGSTOP are never blocked.
abbrev pub blockable : ℕ → Bool
blockable n = not (n == 9 || n == 19)

pub record Kernel : Type 1 where
  -- The part of a process's state that is the kernel's.
  pub Sys : Type 0
  pub disposition : Sys → ℕ → SigAction
  pub blocked : Sys → ℕ → Bool
  -- `none` is -1. The old action, where one is asked for, is the disposition before the call.
  pub sigaction : Sys → ℕ → SigAction → Option Sys
  -- `sigprocmask` with SIG_BLOCK and with SIG_UNBLOCK.
  pub sig_block : Sys → SigSet → Option Sys
  pub sig_unblock : Sys → SigSet → Option Sys
  -- Which signals `sigaddset` and `sigdelset` take.
  pub in_sets : ℕ → Bool
  pub sigaction_sets :
      (s s' : Sys) (n : ℕ) (d : SigAction) → sigaction s n d ≡ some s' → disposition s' n ≡ d
  pub sigaction_others :
      (s s' : Sys) (n m : ℕ) (d : SigAction)
      → sigaction s n d ≡ some s'
      → (m == n) ≡ false
      → disposition s' m ≡ disposition s m
  -- A call fails for what the signal is, not for the action.
  pub sigaction_again :
      (s s' t : Sys) (n : ℕ) (d e : SigAction)
      → sigaction s n d ≡ some s'
      → (t' : Sys) × (sigaction t n e ≡ some t')
  pub sig_block_adds :
      (s s' : Sys) (set : SigSet) (n : ℕ)
      → sig_block s set ≡ some s'
      → blockable n ≡ true
      → blocked s' n ≡ (blocked s n || set n)
  pub sig_unblock_takes :
      (s s' : Sys) (set : SigSet) (n : ℕ)
      → sig_unblock s set ≡ some s'
      → blockable n ≡ true
      → blocked s' n ≡ (blocked s n && not (set n))
