-- ===== src/Signal/Examples.antt =====
-- A kernel that takes every action and every set, and the theorems on signals with it.
use commlib.Base.{ℕ, ◌≡◌, refl, Bool, true, false, not, none, some, ◌==◌, ◌||◌, ◌&&◌, Option, arith}
use commlib.Signal.System.{Kernel, SigSet, SigAction, blockable}
use commlib.Signal.{
  World, update, caught, mask_of, sig_add, sig_del, restore, sig_delall, block_sig, block_new,
  unblock_sig, unblock_known, block_rest,
}
use commlib.Signal.Laws.{sig_del-sig_add_twice}
use commlib.Signal.Restore.{Reached, no_calls, added, deleted, sig_delall-Reached}
use commlib.Signal.Calls.{Runs, none_yet, blocks, unblocks, in_set, blocked_as, blocked-Runs}
use commlib.Signal.Mask.{IsMasked}

record Process : Type 0 where
  actions : ℕ → SigAction
  mask : SigSet

abbrev install : Process → ℕ → SigAction → Process
install p n d = record p { actions = update p.actions n d }

sets_lem :
    (p p' : Process) (n : ℕ) (d : SigAction)
    → ◌≡◌ {A = Option Process} (some (install p n d)) (some p')
    → p'.actions n ≡ d
sets_lem p p' n d e = ground arith

others_lem :
    (p p' : Process) (n m : ℕ) (d : SigAction)
    → ◌≡◌ {A = Option Process} (some (install p n d)) (some p')
    → (m == n) ≡ false
    → p'.actions m ≡ p.actions m
others_lem p p' n m d e ne = ground arith

abbrev with_mask : Process → SigSet → Process
with_mask p set = record p { mask = set }

mask_lem :
    (p p' : Process) (set : SigSet) (n : ℕ)
    → ◌≡◌ {A = Option Process} (some (with_mask p set)) (some p')
    → p'.mask n ≡ set n
mask_lem p p' set n e = ground arith

abbrev willing : Kernel
willing = record {
  Sys = Process;
  disposition = λ p. p.actions;
  blocked = λ p. p.mask;
  sigaction = λ p n d. some (install p n d);
  sig_block = λ p set. some (with_mask p (λ n. p.mask n || set n));
  sig_unblock = λ p set. some (with_mask p (λ n. p.mask n && not (set n)));
  in_sets = λ n. true;
  sigaction_sets = sets_lem;
  sigaction_others = others_lem;
  sigaction_again = λ p p' q n d e done. (install q n e, refl);
  sig_block_adds = λ p p' set n e b. mask_lem p p' (λ n. p.mask n || set n) n e;
  sig_unblock_takes = λ p p' set n e b. mask_lem p p' (λ n. p.mask n && not (set n)) n e;
}

abbrev start : World willing
start = record {
  sys = record {
    actions = λ _. record { handler = 0; flags = 0; mask = λ _. false };
    mask = λ _. false;
  };
  old = λ _. none;
  promask = none;
}

sig_add_runs : (sig_add willing 10 77 start).1 ≡ true
unfolding sig_add
sig_add_runs = refl

twice_runs :
    ((sig_add willing 10 78 (sig_add willing 10 77 start).0).1 ≡ true)
    × ((sig_del willing 10 (sig_add willing 10 78 (sig_add willing 10 77 start).0).0).1 ≡ true)
unfolding sig_add sig_del
twice_runs = (refl, refl)

sig_del-sig_add_twice_example :
    let w' = (sig_del willing 10 (sig_add willing 10 78 (sig_add willing 10 77 start).0).0).0 in
    (w'.sys.actions 10 ≡ caught 77) × (w'.old 10 ≡ none) × (sig_del willing 10 w' ≡ (w', true))
sig_del-sig_add_twice_example =
    sig_del-sig_add_twice willing 10 77 78 start sig_add_runs twice_runs.0 twice_runs.1

start-IsMasked : IsMasked willing start
start-IsMasked n i b = cc

block_runs : (block_sig willing 12 start).1 ≡ true
unfolding block_sig
block_runs = refl

abbrev one_blocked : World willing
one_blocked = record start {
  sys = with_mask start.sys (λ n. n == 12);
  promask = some (λ n. n == 12);
}

one_blocked-IsMasked : IsMasked willing one_blocked
one_blocked-IsMasked n i b = i

unblock_runs : (unblock_sig willing 12 one_blocked).1 ≡ true
unfolding unblock_sig
unblock_runs = refl

-- A handler for 10 that is taken back, one for 12, and one for SIGKILL, that this kernel takes too.
abbrev three_calls : World willing
three_calls =
    (sig_add willing 9 79
      (sig_add willing 12 78 (sig_del willing 10 (sig_add willing 10 77 start).0).0).0).0

three_calls-Reached : Reached willing start three_calls
unfolding sig_add sig_del restore
three_calls-Reached = added 9 79 refl (added 12 78 refl (deleted 10 (added 10 77 refl no_calls)))

sig_delall-Reached_example :
    let (w', ok) = sig_delall willing three_calls in
    (ok ≡ true) × ((m : ℕ) → w'.sys.actions m ≡ start.sys.actions m) × ((m : ℕ) → w'.old m ≡ none)
sig_delall-Reached_example = sig_delall-Reached willing (λ m. refl) three_calls-Reached

-- 10 and 12 are blocked, and 10 is taken back.
abbrev two_left : World willing
two_left = (unblock_sig willing 10 (block_sig willing 12 (block_sig willing 10 start).0).0).0

abbrev means_two : ℕ → Option Bool
means_two = update (update (update (λ n. none) 10 (some true)) 12 (some true)) 10 (some false)

two_left-Runs : Runs willing start means_two two_left
unfolding block_sig block_new unblock_sig unblock_known block_rest
two_left-Runs = unblocks 10 (blocks 12 (blocks 10 none_yet refl) refl) refl

blocked-Runs_example :
    ((n : ℕ) → mask_of two_left.promask n ≡ in_set (means_two n))
    × ((n : ℕ)
        → blockable n ≡ true
        → two_left.sys.mask n ≡ blocked_as (means_two n) (start.sys.mask n))
blocked-Runs_example = blocked-Runs willing refl two_left-Runs
