-- ===== src/Signal/Calls.antt =====
-- The signals that are blocked after calls of sigutil_block_sig and sigutil_unblock_sig in any order.
use commlib.Base.{
  ℕ, ◌≡◌, refl, sym, ap, ◌∙◌, Bool, true, false, not, Option, none, some, ◌==◌, ◌||◌, ◌&&◌, arith,
  Bool-cases, Option-cases, inl, inr,
}
use commlib.Signal.System.{Kernel, blockable}
use commlib.Signal.{World, update, out_of_range, block_sig, block_new, unblock_sig, mask_of}
use commlib.Signal.Mask.{IsMasked, block_sig-IsMasked, unblock-Unblocked, in_range, blocked_after}

-- A signal that is in the set and is taken out of it.
abbrev pub take_back : Option Bool → Option Bool
take_back none = none
take_back (some b) = some false

abbrev pub in_set : Option Bool → Bool
in_set none = false
in_set (some b) = b

-- Whether a signal is blocked, from what the calls mean and whether it was before them.
abbrev pub blocked_as : Option Bool → Bool → Bool
blocked_as none before = before
blocked_as (some b) before = b

still_blocked :
    (o : Option Bool) (now before : Bool) → in_set o ≡ true → now ≡ blocked_as o before → now ≡ true
still_blocked none now before inside e = cc
still_blocked (some b) now before inside e = e ∙ inside

add_again :
    (o : Option Bool) (now before : Bool)
    → now ≡ blocked_as o before
    → (now || in_set o) ≡ blocked_as o before
add_again none now before e = ground (arith, e)
add_again (some b) now before e = ground (arith, e)

block_again :
    (o : Option Bool) (now before : Bool)
    → now ≡ blocked_as o before
    → ((now && not (in_set o)) || in_set o) ≡ blocked_as o before
block_again none now before e = ground (arith, e)
block_again (some b) now before e = ground (arith, e)

take_back_out : (o : Option Bool) → in_set o ≡ false → take_back o ≡ o
take_back_out none e = refl
take_back_out (some b) e = ap some (sym e)

take_back_in : (o : Option Bool) → in_set o ≡ true → take_back o ≡ some false
take_back_in none e = cc
take_back_in (some b) e = refl

module _ (k : Kernel) where
  open k use {Sys, blocked, sig_block, sig_unblock, sig_block_adds, sig_unblock_takes, in_sets}

  -- The worlds that calls that return 0 lead to, with what the calls mean for each signal: nothing yet,
  -- blocked, or blocked and taken back.
  pub data Runs (w0 : World k) : (ℕ → Option Bool) → World k → Type 0 where
    none_yet : Runs w0 (λ n. none) w0
    blocks :
        (signum : ℕ) {meant : ℕ → Option Bool} {w : World k}
        → Runs w0 meant w
        → (block_sig k signum w).1 ≡ true
        → Runs w0 (update meant signum (some true)) (block_sig k signum w).0
    unblocks :
        (signum : ℕ) {meant : ℕ → Option Bool} {w : World k}
        → Runs w0 meant w
        → (unblock_sig k signum w).1 ≡ true
        → Runs w0 (update meant signum (take_back (meant signum))) (unblock_sig k signum w).0

  block_sig-blocked :
      (signum n : ℕ) (w : World k)
      → IsMasked k w
      → (block_sig k signum w).1 ≡ true
      → blockable n ≡ true
      → blocked (block_sig k signum w).0.sys n
        ≡ (blocked w.sys n || mask_of (block_sig k signum w).0.promask n)
  unfolding block_sig block_new
  block_sig-blocked signum n w masked e free = elim (Bool-cases (out_of_range signum)) [
    | inl out ↦ absurd (let f : false ≡ true = rw out at e in cc)
    | inr within ↦ elim (Bool-cases (mask_of w.promask signum)) [
      | inl old ↦ rw (within, old) (ground (arith, masked n, free))
      | inr new ↦ rw (within, new) (newly (rw (within, new) at e))
    ]
  ]
    where
      newly :
          (block_new k signum (mask_of w.promask) w).1 ≡ true
          → blocked (block_new k signum (mask_of w.promask) w).0.sys n
            ≡ (blocked w.sys n || mask_of (block_new k signum (mask_of w.promask) w).0.promask n)
      newly r = elim (Bool-cases (in_sets signum)) [
        | inr unknown ↦ absurd (let f : false ≡ true = rw (block_new, unknown) at r in cc)
        | inl known ↦
            elim (Option-cases (sig_block w.sys (update (mask_of w.promask) signum true))) [
              | inl failed ↦
                  absurd (let f : false ≡ true = rw (block_new, known, failed) at r in cc)
              | inr (s, done) ↦
                  rw (block_new, known, done)
                    (sig_block_adds w.sys s (update (mask_of w.promask) signum true) n done free)
            ]
      ]

  unblock_other :
      (signum : ℕ) (w : World k)
      → mask_of w.promask signum ≡ false
      → (unblock_sig k signum w).1 ≡ true
      → (unblock_sig k signum w).0 ≡ w
  unfolding unblock_sig
  unblock_other signum w out r =
      let within = in_range k signum w r in
      elim (Option-cases w.promask) [
        | inl unset ↦ absurd (let f : false ≡ true = rw (within, unset) at r in cc)
        | inr (set, was) ↦
            let outside : set signum ≡ false = rw was at out in simp (within, was, outside)
      ]

  -- What the calls mean is what the set and the kernel have.
  record Meant (w0 : World k) (meant : ℕ → Option Bool) (w : World k) : Type 0 where
    member : (n : ℕ) → mask_of w.promask n ≡ in_set (meant n)
    mask : (n : ℕ) → blockable n ≡ true → blocked w.sys n ≡ blocked_as (meant n) (blocked w0.sys n)

  Meant-IsMasked :
      (w0 : World k) (meant : ℕ → Option Bool) (w : World k) → Meant w0 meant w → IsMasked k w
  Meant-IsMasked w0 meant w m n inside free =
      still_blocked (meant n) (blocked w.sys n) (blocked w0.sys n) (sym (m.member n) ∙ inside)
        (m.mask n free)

  blocks-Meant :
      (signum : ℕ) (w0 : World k) (meant : ℕ → Option Bool) (w : World k)
      → Meant w0 meant w
      → (block_sig k signum w).1 ≡ true
      → Meant w0 (update meant signum (some true)) (block_sig k signum w).0
  blocks-Meant signum w0 meant w m e =
      let masked = Meant-IsMasked w0 meant w m in
      let (kept, members) = block_sig-IsMasked k signum w masked e in
      record {
        member = λ n. elim (Bool-cases (n == signum)) [
          | inl same ↦ ground (arith, same, members n)
          | inr other ↦ ground (arith, other, members n, m.member n)
        ];
        mask = λ n free.
            let now = block_sig-blocked signum n w masked e free in
            elim (Bool-cases (n == signum)) [
              | inl same ↦ ground (arith, same, now, members n)
              | inr other ↦
                  let inside : mask_of (block_sig k signum w).0.promask n ≡ in_set (meant n) =
                    ground (arith, other, members n, m.member n) in
                  rw (other, now, inside)
                    (add_again (meant n) (blocked w.sys n) (blocked w0.sys n) (m.mask n free))
            ];
      }

  unblocks-Meant :
      (signum : ℕ) (w0 : World k) (meant : ℕ → Option Bool) (w : World k)
      → Meant w0 meant w
      → (unblock_sig k signum w).1 ≡ true
      → Meant w0 (update meant signum (take_back (meant signum))) (unblock_sig k signum w).0
  unblocks-Meant signum w0 meant w m e = elim (Bool-cases (mask_of w.promask signum)) [
    | inr out ↦
        let as_before : (n : ℕ) → update meant signum (take_back (meant signum)) n ≡ meant n = λ n.
          elim (Bool-cases (n == signum)) [
            | inl same ↦
                let e : n ≡ signum = ground (arith, same) in
                rw (same, e) (take_back_out (meant signum) (sym (m.member signum) ∙ out))
            | inr other ↦ rw other refl
          ] in
        record {
          member = λ n. rw (unblock_other signum w out e, as_before n) (m.member n);
          mask = λ n free. rw (unblock_other signum w out e, as_before n) (m.mask n free);
        }
    | inl inside ↦
        let u = unblock-Unblocked k signum w inside e in
        let was_in : (n : ℕ) → u.set n ≡ in_set (meant n) =
          λ n. let mem = m.member n in rw u.was at mem in
        let gone : take_back (meant signum) ≡ some false =
          take_back_in (meant signum) (sym (m.member signum) ∙ inside) in
        record {
          member = λ n. elim (Bool-cases (n == signum)) [
            | inl same ↦ rw (u.left, same, gone) refl
            | inr other ↦ rw (u.left, other) (was_in n)
          ];
          mask = λ n free.
              let now = blocked_after k signum n w (unblock_sig k signum w).0 u free in
              elim (Bool-cases (n == signum)) [
                | inl same ↦
                    let at_n : n ≡ signum = ground (arith, same) in
                    let was_set : u.set n ≡ true =
                      was_in n
                      ∙ ap (λ (i : ℕ). in_set (meant i)) at_n
                      ∙ sym (m.member signum)
                      ∙ inside in
                    rw (now, same, gone, was_set) (ground arith)
                | inr other ↦
                    rw (now, other, was_in n)
                      (block_again (meant n) (blocked w.sys n) (blocked w0.sys n) (m.mask n free))
              ];
        }
  ]

  Runs-Meant :
      {w0 : World k} {meant : ℕ → Option Bool} {w : World k}
      → w0.promask ≡ none
      → Runs w0 meant w
      → Meant w0 meant w
  Runs-Meant empty none_yet = record { member = λ n. rw empty refl; mask = λ n free. refl }
  Runs-Meant {w0} empty (blocks signum {meant} {w} before e) =
      blocks-Meant signum w0 meant w (Runs-Meant empty before) e
  Runs-Meant {w0} empty (unblocks signum {meant} {w} before e) =
      unblocks-Meant signum w0 meant w (Runs-Meant empty before) e

  -- After any calls of sigutil_block_sig and sigutil_unblock_sig that all returned 0, from a start at
  -- which the set was empty, the set has exactly the signals that were blocked and not taken back; and
  -- of the signals that can be blocked at all the kernel blocks those that are in the set, does not
  -- block those that were taken back, and treats every other as before all calls.
  pub blocked-Runs :
      {w0 : World k} {meant : ℕ → Option Bool} {w : World k}
      → w0.promask ≡ none
      → Runs w0 meant w
      → ((n : ℕ) → mask_of w.promask n ≡ in_set (meant n))
        × ((n : ℕ) → blockable n ≡ true → blocked w.sys n ≡ blocked_as (meant n) (blocked w0.sys n))
  blocked-Runs empty runs = let m = Runs-Meant empty runs in (m.member, m.mask)
