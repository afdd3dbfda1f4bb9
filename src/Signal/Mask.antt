-- ===== src/Signal/Mask.antt =====
-- The mask that sigutil_block_sig and sigutil_unblock_sig keep.
use commlib.Base.{
  ℕ, ◌≡◌, ap, ◌∙◌, true, false, not, some, ◌==◌, ◌||◌, ◌&&◌, arith, if◌then◌else◌, Bool-cases,
  Option-cases, inl, inr,
}
use commlib.Signal.System.{Kernel, SigSet, blockable}
use commlib.Signal.{
  World, update, out_of_range, block_sig, block_new, unblock_sig, unblock_known, block_rest,
  mask_of,
}

module _ (k : Kernel) where
  open k use {Sys, blocked, sig_block, sig_unblock, sig_block_adds, sig_unblock_takes, in_sets}

  -- Every signal in the set is blocked, but those that never are.
  abbrev pub IsMasked : World k → Type 0
  IsMasked w = (n : ℕ) → mask_of w.promask n ≡ true → blockable n ≡ true → blocked w.sys n ≡ true

  -- A call of sigutil_block_sig that returns 0 puts the signal in the set, and no other, and leaves
  -- everything in the set blocked.
  pub block_sig-IsMasked :
      (signum : ℕ) (w : World k)
      → IsMasked w
      → (block_sig k signum w).1 ≡ true
      → IsMasked (block_sig k signum w).0
        × ((n : ℕ)
            → mask_of (block_sig k signum w).0.promask n ≡ (n == signum || mask_of w.promask n))
  unfolding block_sig
  block_sig-IsMasked signum w v e = elim (Bool-cases (out_of_range signum)) [
    | inl out ↦ absurd (let f : false ≡ true = rw out at e in cc)
    | inr within ↦ elim (Bool-cases (mask_of w.promask signum)) [
      | inl old ↦ rw (within, old) (v, λ n. ground (arith, old))
      | inr new ↦ rw (within, new) (newly (rw (within, new) at e))
    ]
  ]
    where
      newly :
          (block_new k signum (mask_of w.promask) w).1 ≡ true
          → IsMasked (block_new k signum (mask_of w.promask) w).0
            × ((n : ℕ)
                → mask_of (block_new k signum (mask_of w.promask) w).0.promask n
                  ≡ (n == signum || mask_of w.promask n))
      newly r = elim (Bool-cases (in_sets signum)) [
        | inr unknown ↦ absurd (let f : false ≡ true = rw (block_new, unknown) at r in cc)
        | inl known ↦
            elim (Option-cases (sig_block w.sys (update (mask_of w.promask) signum true))) [
              | inl failed ↦
                  absurd (let f : false ≡ true = rw (block_new, known, failed) at r in cc)
              | inr (s, done) ↦
                  rw (block_new, known, done)
                    (
                      λ n i b. ground (
                        arith,
                        sig_block_adds w.sys s (update (mask_of w.promask) signum true) n done b,
                        v n,
                        i,
                      ),
                      λ n. ground arith,
                    )
            ]
      ]

  -- The calls of sigutil_unblock_sig that went well.
  pub record Unblocked (signum : ℕ) (w w' : World k) : Type 0 where
    pub set : SigSet
    pub mid : Sys
    pub was : w.promask ≡ some set
    pub taken : sig_unblock w.sys set ≡ some mid
    pub again : sig_block mid (update set signum false) ≡ some w'.sys
    pub left : w'.promask ≡ some (update set signum false)

  module _ (signum : ℕ) (w : World k) where
    rest-Unblocked :
        (set : SigSet) (mid : Sys)
        → w.promask ≡ some set
        → sig_unblock w.sys set ≡ some mid
        → (block_rest k signum set mid w).1 ≡ true
        → Unblocked signum w (block_rest k signum set mid w).0
    unfolding block_rest
    rest-Unblocked set mid was taken r = elim (Bool-cases (in_sets signum)) [
      | inr unknown ↦ absurd (refused unknown)
      | inl known ↦ elim (Option-cases (sig_block mid (update set signum false))) [
        | inl failed ↦ absurd (let f : false ≡ true = rw (block_rest, known, failed) at r in cc)
        | inr (s, done) ↦
            rw (block_rest, known, done)
              (record {
                set = set;
                mid = mid;
                was = was;
                taken = taken;
                again = done;
                left = rw known;
              })
      ]
    ]
      where
        refused : in_sets signum ≡ false → ⊥
        refused unknown = elim (Option-cases (sig_block mid set)) [
          | inl failed ↦ let f : false ≡ true = rw (block_rest, unknown, failed) at r in cc
          | inr (s, done) ↦
              let f : false ≡ true = rw (block_rest, unknown, done, unknown) at r in cc
        ]

    known-Unblocked :
        (set : SigSet)
        → w.promask ≡ some set
        → (unblock_known k signum set w).1 ≡ true
        → Unblocked signum w (unblock_known k signum set w).0
    unfolding unblock_known
    known-Unblocked set was r = elim (Option-cases (sig_unblock w.sys set)) [
      | inl failed ↦ absurd (let f : false ≡ true = rw (unblock_known, failed) at r in cc)
      | inr (mid, taken) ↦
          rw (unblock_known, taken)
            (rest-Unblocked set mid was taken (rw (unblock_known, taken) at r))
    ]

    unblock_sig-eq :
        (set : SigSet)
        → out_of_range signum ≡ false
        → w.promask ≡ some set
        → set signum ≡ true
        → unblock_sig k signum w ≡ unblock_known k signum set w
    unfolding unblock_sig
    unblock_sig-eq set within was inside = simp (within, was, inside)

    pub in_range : (unblock_sig k signum w).1 ≡ true → out_of_range signum ≡ false
    unfolding unblock_sig
    in_range r = elim (Bool-cases (out_of_range signum)) [
      | inl out ↦ let f : false ≡ true = rw out at r in cc
      | inr within ↦ within
    ]

    pub unblock-Unblocked :
        mask_of w.promask signum ≡ true
        → (unblock_sig k signum w).1 ≡ true
        → Unblocked signum w (unblock_sig k signum w).0
    unblock-Unblocked member r = elim (Option-cases w.promask) [
      | inl unset ↦ absurd (let f : false ≡ true = rw unset at member in cc)
      | inr (set, was) ↦
          let e = unblock_sig-eq set (in_range r) was (rw was at member) in
          rw e (known-Unblocked set was (rw e at r))
    ]

  pub blocked_after :
      (signum n : ℕ) (w w' : World k) (u : Unblocked signum w w')
      → blockable n ≡ true
      → blocked w'.sys n ≡ ((blocked w.sys n && not (u.set n)) || update u.set signum false n)
  blocked_after signum n w w' u b =
      sig_block_adds u.mid w'.sys (update u.set signum false) n u.again b
      ∙ ap (λ x. x || update u.set signum false n) (sig_unblock_takes w.sys u.mid u.set n u.taken b)

  -- A call of sigutil_unblock_sig that returns 0, for a signal that is in the set and can be blocked
  -- at all, takes it out of the set and leaves it unblocked, and leaves every other signal of the
  -- set in it and blocked.
  unblock_sig-IsMasked :
      (signum : ℕ) (w : World k)
      → IsMasked w
      → mask_of w.promask signum ≡ true
      → blockable signum ≡ true
      → (unblock_sig k signum w).1 ≡ true
      → IsMasked (unblock_sig k signum w).0
        × ((n : ℕ)
            → mask_of (unblock_sig k signum w).0.promask n
              ≡ (if n == signum then false else mask_of w.promask n))
        × (blocked (unblock_sig k signum w).0.sys signum ≡ false)
  unblock_sig-IsMasked signum w v member free r =
      let u = unblock-Unblocked signum w member r in
      let inside : u.set signum ≡ true = rw u.was at member in
      (
        λ n i b. ground (arith, blocked_after signum n w (unblock_sig k signum w).0 u b, u.left, i),
        λ n. rw (u.left, u.was),
        ground (arith, blocked_after signum signum w (unblock_sig k signum w).0 u free, inside),
      )
