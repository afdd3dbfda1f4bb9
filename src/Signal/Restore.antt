-- ===== src/Signal/Restore.antt =====
-- sigutil_sig_delall after calls of sigutil_sig_add and sigutil_sig_del in any order.
use commlib.Base.{
  ℕ, zero, suc, ◌+◌, ◌<◌, ◌≤◌, ◌≡◌, ◌∙◌, refl, true, false, Option, none, some, ◌==◌, arith,
  Bool-cases, Option-cases, inl, inr, ◌⊎◌,
}
use commlib.Signal.System.{Kernel, SigAction}
use commlib.Signal.{
  World, caught, out_of_range, update, sig_add, restore, sig_del, delall_loop, sig_delall,
}

module _ (k : Kernel) where
  open k use {Sys, disposition, sigaction, sigaction_sets, sigaction_others, sigaction_again}

  -- The worlds that calls lead to from `w0`, in which no handler is added for a signal that has one.
  pub data Reached (w0 : World k) : World k → Type 0 where
    no_calls : Reached w0 w0
    added :
        (sig handler : ℕ) {w : World k}
        → w.old sig ≡ none
        → Reached w0 w
        → Reached w0 (sig_add k sig handler w).0
    deleted : (sig : ℕ) {w : World k} → Reached w0 w → Reached w0 (sig_del k sig w).0

  abbrev Usable : ℕ → Type 0
  Usable m = (s : Sys) (d : SigAction) → (s' : Sys) × (sigaction s m d ≡ some s')

  module _ (base : ℕ → SigAction) where
    -- What is saved for a signal is its first action, which it has where nothing is saved.
    abbrev KeptAt : ℕ → Sys → Option SigAction → Type 0
    KeptAt m s none = disposition s m ≡ base m
    KeptAt m s (some act) = (act ≡ base m) × (out_of_range m ≡ false) × Usable m

    abbrev Kept : World k → Type 0
    Kept w = (m : ℕ) → KeptAt m w.sys (w.old m)

    kept_other :
        (m : ℕ) (s s' : Sys) (saved : Option SigAction)
        → disposition s' m ≡ disposition s m
        → KeptAt m s saved
        → KeptAt m s' saved
    kept_other m s s' none e kept = e ∙ kept
    kept_other m s s' (some act) e kept = kept

    added_at :
        (sig handler : ℕ) (w : World k) (s : Sys) (m : ℕ)
        → out_of_range sig ≡ false
        → sigaction w.sys sig (caught handler) ≡ some s
        → disposition w.sys sig ≡ base sig
        → KeptAt m w.sys (w.old m)
        → ((m == sig) ≡ true) ⊎ ((m == sig) ≡ false)
        → KeptAt m s (update w.old sig (some (disposition w.sys sig)) m)
    added_at sig handler w s m within done first kept (inl same) =
        let e : m ≡ sig = ground (arith, same) in
        rw (same, e) (first, within, λ t d. sigaction_again w.sys s t sig (caught handler) d done)
    added_at sig handler w s m within done first kept (inr ne) = rw ne (
        kept_other m w.sys s (w.old m) (sigaction_others w.sys s sig m (caught handler) done ne)
          kept)

    sig_add-Kept :
        (sig handler : ℕ) (w : World k)
        → w.old sig ≡ none
        → Kept w
        → Kept (sig_add k sig handler w).0
    unfolding sig_add
    sig_add-Kept sig handler w fresh kept = elim (Bool-cases (out_of_range sig)) [
      | inl out ↦ rw (sig_add, out) kept
      | inr within ↦ elim (Option-cases (sigaction w.sys sig (caught handler))) [
        | inl no_action ↦ rw (sig_add, within, no_action) kept
        | inr (s, done) ↦
            let at_sig : KeptAt sig w.sys (w.old sig) = kept sig in
            let first : disposition w.sys sig ≡ base sig = rw fresh at at_sig in
            rw (sig_add, within, done)
              (λ m. added_at sig handler w s m within done first (kept m) (Bool-cases (m == sig)))
      ]
    ]

    -- A call of sigutil_sig_del keeps what is saved right, and leaves nothing saved for its signal.
    record Dropped (sig : ℕ) (w w' : World k) : Type 0 where
      kept : Kept w'
      cleared : out_of_range sig ≡ false → w'.old sig ≡ none
      others : (m : ℕ) → w.old m ≡ none → w'.old m ≡ none

    dropped_at :
        (sig : ℕ) (act : SigAction) (w : World k) (s : Sys) (m : ℕ)
        → sigaction w.sys sig act ≡ some s
        → act ≡ base sig
        → KeptAt m w.sys (w.old m)
        → ((m == sig) ≡ true) ⊎ ((m == sig) ≡ false)
        → KeptAt m s (update w.old sig none m)
    dropped_at sig act w s m done first kept (inl same) =
        let e : m ≡ sig = ground (arith, same) in
        rw (same, e) (sigaction_sets w.sys s sig act done ∙ first)
    dropped_at sig act w s m done first kept (inr ne) =
        rw ne (kept_other m w.sys s (w.old m) (sigaction_others w.sys s sig m act done ne) kept)

    sig_del-Dropped : (sig : ℕ) (w : World k) → Kept w → Dropped sig w (sig_del k sig w).0
    unfolding sig_del restore
    sig_del-Dropped sig w kept = elim (Bool-cases (out_of_range sig)) [
      | inl out ↦
          rw (sig_del, out)
            (record {
              kept = kept;
              cleared = λ within. ground (arith, out, within);
              others = λ m none_saved. none_saved;
            })
      | inr within ↦ elim (Option-cases (w.old sig)) [
        | inl nothing ↦
            rw (sig_del, within, nothing)
              (record { kept = kept; cleared = λ _. nothing; others = λ m none_saved. none_saved })
        | inr (act, saved) ↦
            let at_sig : KeptAt sig w.sys (w.old sig) = kept sig in
            let known : (act ≡ base sig) × (out_of_range sig ≡ false) × Usable sig =
              rw saved at at_sig in
            let (first, in_range, usable) = known in
            let (s, done) = usable w.sys act in
            rw (sig_del, within, saved, restore, done)
              (record {
                kept = λ m. dropped_at sig act w s m done first (kept m) (Bool-cases (m == sig));
                cleared = λ _. ground arith;
                others = λ m none_saved. ground (arith, none_saved);
              })
      ]
    ]

    delall_loop-Kept :
        (n i : ℕ) (w : World k)
        → Kept w
        → let w' = delall_loop k n i w in
          Kept w'
          × ((m : ℕ) → w.old m ≡ none → w'.old m ≡ none)
          × ((m : ℕ) → out_of_range m ≡ false → i ≤ m → m < i + n → w'.old m ≡ none)
    unfolding delall_loop
    delall_loop-Kept zero i w kept =
        (kept, λ m e. e, λ m r low high. absurd (omega (arith, low, high)))
    delall_loop-Kept (suc n) i w kept =
        let d = sig_del-Dropped i w kept in
        let (kept', others, cleared) = delall_loop-Kept n (i + 1) (sig_del k i w).0 d.kept in
        (
          kept',
          λ m e. others m (d.others m e),
          λ m r low high. elim (Bool-cases (m == i)) [
            | inl same ↦
                let e : m ≡ i = ground (arith, same) in others m (rw e (d.cleared (rw e at r)))
            | inr ne ↦ cleared m r (ground (arith, ne, low)) (omega (arith, high))
          ],
        )

    Reached-Kept : {w0 w : World k} → Kept w0 → Reached w0 w → Kept w
    Reached-Kept kept no_calls = kept
    Reached-Kept kept (added sig handler {w} fresh before) =
        sig_add-Kept sig handler w fresh (Reached-Kept kept before)
    Reached-Kept kept (deleted sig {w} before) =
        (sig_del-Dropped sig w (Reached-Kept kept before)).kept

    -- What is kept for a signal for which nothing can be added.
    never_saved :
        (m : ℕ) (s : Sys) (saved : Option SigAction)
        → KeptAt m s saved
        → out_of_range m ≡ true
        → saved ≡ none
    never_saved m s none kept out = refl
    never_saved m s (some act) kept out = absurd (let f : true ≡ false = rw out at kept.1 in cc)

    original :
        (m : ℕ) (s : Sys) (saved : Option SigAction)
        → KeptAt m s saved
        → saved ≡ none
        → disposition s m ≡ base m
    original m s none kept e = kept
    original m s (some act) kept e = cc

  -- Whatever calls of sigutil_sig_add and sigutil_sig_del came before, if no handler was added for a
  -- signal that had one, and nothing was saved at first, sigutil_sig_delall returns 0, gives every
  -- signal the action that it had at first, and leaves nothing saved.
  pub sig_delall-Reached :
      {w0 w : World k}
      → ((m : ℕ) → w0.old m ≡ none)
      → Reached w0 w
      → let (w', ok) = sig_delall k w in
        (ok ≡ true)
        × ((m : ℕ) → disposition w'.sys m ≡ disposition w0.sys m)
        × ((m : ℕ) → w'.old m ≡ none)
  unfolding sig_delall
  sig_delall-Reached {w0} {w} nothing before =
      let base = disposition w0.sys in
      let at_first : Kept base w0 = λ m. rw (nothing m) refl in
      let (kept, others, cleared) =
        delall_loop-Kept base 64 1 w (Reached-Kept base at_first before) in
      let none_left : (m : ℕ) → (delall_loop k 64 1 w).old m ≡ none = λ m.
        elim (Bool-cases (out_of_range m)) [
          | inl out ↦ never_saved base m _ _ (kept m) out
          | inr within ↦ cleared m within (ground (arith, within)) (ground (arith, within))
        ] in
      (refl, λ m. original base m _ _ (kept m) (none_left m), none_left)
