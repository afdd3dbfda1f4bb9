-- ===== src/Signal.antt =====
-- The signal helpers of src/myfcp/fcp_signal.c, over a kernel that is a parameter.
pub mod System
mod Laws
mod Mask
mod Restore
mod Calls
mod Examples
use commlib.Base.{
  ℕ, zero, suc, ◌+◌, Bool, true, false, not, Option, none, some, ◌==◌, ◌||◌, ◌&&◌, ltb, leb,
  if◌then◌else◌,
}
use System.{Kernel, SigAction, SigSet}

-- NSIG, SIG_IGN and SA_RESTART.
abbrev pub nsig : ℕ
nsig = 65

abbrev sig_ign : ℕ
sig_ign = 1

abbrev sa_restart : ℕ
sa_restart = 0x10000000

-- `sig < 1 || sig >= NSIG`; a negative number is as 0.
abbrev pub out_of_range : ℕ → Bool
out_of_range sig = ltb sig 1 || leb nsig sig

abbrev pub update {ℓ} : {A : Type ℓ} → (ℕ → A) → ℕ → A → ℕ → A
update f n a m = if m == n then a else f m

-- The action that sigutil_sig_add installs: every signal is masked while the handler runs.
abbrev pub caught : ℕ → SigAction
caught handler = record { handler = handler; flags = sa_restart; mask = λ _. true }

-- The action of sigutil_ignore_all_sig.
abbrev pub ignored : SigAction
ignored = record { handler = sig_ign; flags = 0; mask = λ _. false }

-- The set of `g_promasksig`, which the first call empties.
abbrev pub mask_of : Option SigSet → SigSet
mask_of none = λ _. false
mask_of (some set) = set

module _ (k : Kernel) where
  open k use {Sys, disposition, sigaction, sig_block, sig_unblock, in_sets}

  -- The kernel's state with `g_oldsig`, which holds an action where it is `inited`, and
  -- `g_promasksig`, which holds a set where it is.
  pub record World : Type 0 where
    pub sys : Sys
    pub old : ℕ → Option SigAction
    pub promask : Option SigSet

  -- Every call gives the state after it, and whether it returned 0; `false` is -1.
  pub sig_add : ℕ → ℕ → World → World × Bool
  sig_add sig handler w =
      if out_of_range sig then (w, false) else elim (sigaction w.sys sig (caught handler)) [
        | none ↦ (w, false)
        | some s ↦
            (record w { sys = s; old = update w.old sig (some (disposition w.sys sig)) }, true)
      ]

  restore : ℕ → SigAction → World → World × Bool
  restore sig act w = elim (sigaction w.sys sig act) [
    | none ↦ (w, false)
    | some s ↦ (record w { sys = s; old = update w.old sig none }, true)
  ]

  pub sig_del : ℕ → World → World × Bool
  unfolding restore
  sig_del sig w =
      if out_of_range sig
      then (w, false)
      else elim (w.old sig) [ none ↦ (w, true) | some act ↦ restore sig act w ]

  -- `for(i = 1; i < NSIG; i++)`, from `i` on with the rounds left; a failure is only logged.
  pub delall_loop : ℕ → ℕ → World → World
  delall_loop zero i w = w
  delall_loop (suc n) i w = delall_loop n (i + 1) (sig_del i w).0

  pub sig_delall : World → World × Bool
  unfolding delall_loop
  sig_delall w = (delall_loop 64 1 w, true)

  -- The loop of sigutil_ignore_all_sig; the answers of `sigaction` are not looked at.
  pub ignore_loop : ℕ → ℕ → Sys → Sys
  ignore_loop zero i s = s
  ignore_loop (suc n) i s =
      ignore_loop n (i + 1) (elim (sigaction s i ignored) [ none ↦ s | some s' ↦ s' ])

  pub ignore_all_sig : World → World × Bool
  unfolding ignore_loop
  ignore_all_sig w = (record w { sys = ignore_loop 64 1 w.sys }, true)

  -- `sigaddset` and `sigprocmask`; the set is changed before the mask is.
  block_new : ℕ → SigSet → World → World × Bool
  block_new signum set w =
      if in_sets signum
      then (let set' = update set signum true in
          elim (sig_block w.sys set') [
            | none ↦ (record w { promask = some set' }, false)
            | some s ↦ (record w { sys = s; promask = some set' }, true)
          ])
      else (record w { promask = some set }, false)

  pub block_sig : ℕ → World → World × Bool
  unfolding block_new
  block_sig signum w =
      if out_of_range signum
      then (w, false)
      else (let set = mask_of w.promask in
          if set signum then (record w { promask = some set }, true) else block_new signum set w)

  -- The two last calls of sigutil_unblock_sig: what is left in the set is blocked again.
  block_rest : ℕ → SigSet → Sys → World → World × Bool
  block_rest signum set s w =
      let set' = if in_sets signum then update set signum false else set in
      elim (sig_block s set') [
        | none ↦ (record w { sys = s; promask = some set' }, false)
        | some s' ↦ (record w { sys = s'; promask = some set' }, in_sets signum)
      ]

  unblock_known : ℕ → SigSet → World → World × Bool
  unfolding block_rest
  unblock_known signum set w = elim (sig_unblock w.sys set) [
    | none ↦ (w, false)
    | some s ↦ block_rest signum set s w
  ]

  pub unblock_sig : ℕ → World → World × Bool
  unfolding unblock_known
  unblock_sig signum w = if out_of_range signum then (w, false) else elim w.promask [
    | none ↦ (w, false)
    | some set ↦ if set signum then unblock_known signum set w else (w, true)
  ]
