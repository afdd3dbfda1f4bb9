-- ===== src/Signal/Laws.antt =====
-- Handlers that are installed and taken back.
use commlib.Base.{
  ℕ, ◌≡◌, ◌∙◌, true, false, none, some, ◌==◌, arith, Bool-cases, Option-cases, inl, inr,
}
use commlib.Signal.System.{Kernel, SigAction}
use commlib.Signal.{World, caught, out_of_range, sig_add, restore, sig_del}

module _ (k : Kernel) where
  open k use {Sys, disposition, sigaction, sigaction_sets, sigaction_others}

  -- What a call of sigutil_sig_add that returned 0 did.
  record Added (sig handler : ℕ) (w w' : World k) : Type 0 where
    now : disposition w'.sys sig ≡ caught handler
    others : (m : ℕ) → (m == sig) ≡ false → disposition w'.sys m ≡ disposition w.sys m
    saved : w'.old sig ≡ some (disposition w.sys sig)

  sig_add-Added :
      (sig handler : ℕ) (w : World k)
      → (sig_add k sig handler w).1 ≡ true
      → Added sig handler w (sig_add k sig handler w).0
  unfolding sig_add
  sig_add-Added sig handler w e = elim (Bool-cases (out_of_range sig)) [
    | inl out ↦ absurd (refused out)
    | inr within ↦ elim (Option-cases (sigaction w.sys sig (caught handler))) [
      | inl no_action ↦ absurd (failed within no_action)
      | inr (s, done) ↦
          rw (within, done)
            (record {
              now = sigaction_sets w.sys s sig (caught handler) done;
              others = λ m ne. sigaction_others w.sys s sig m (caught handler) done ne;
              saved = ground arith;
            })
    ]
  ]
    where
      refused : out_of_range sig ≡ true → ⊥
      refused out = let f : false ≡ true = rw out at e in cc

      failed : out_of_range sig ≡ false → sigaction w.sys sig (caught handler) ≡ none → ⊥
      failed within no_action = let f : false ≡ true = rw (within, no_action) at e in cc

  -- What a call of sigutil_sig_del that returned 0 did, where an action was saved.
  record Deleted (sig : ℕ) (act : SigAction) (w w' : World k) : Type 0 where
    now : disposition w'.sys sig ≡ act
    others : (m : ℕ) → (m == sig) ≡ false → disposition w'.sys m ≡ disposition w.sys m
    cleared : w'.old sig ≡ none

  sig_del-Deleted :
      (sig : ℕ) (act : SigAction) (w : World k)
      → w.old sig ≡ some act
      → (sig_del k sig w).1 ≡ true
      → Deleted sig act w (sig_del k sig w).0
  unfolding sig_del
  sig_del-Deleted sig act w saved e = elim (Bool-cases (out_of_range sig)) [
    | inl out ↦ absurd (refused out)
    | inr within ↦ elim (Option-cases (sigaction w.sys sig act)) [
      | inl no_action ↦ absurd (failed within no_action)
      | inr (s, done) ↦
          rw (within, saved, restore, done)
            (record {
              now = sigaction_sets w.sys s sig act done;
              others = λ m ne. sigaction_others w.sys s sig m act done ne;
              cleared = ground arith;
            })
    ]
  ]
    where
      refused : out_of_range sig ≡ true → ⊥
      refused out = let f : false ≡ true = rw out at e in cc

      failed : out_of_range sig ≡ false → sigaction w.sys sig act ≡ none → ⊥
      failed within no_action =
          let f : false ≡ true = rw (within, saved, restore, no_action) at e in cc

  -- After a handler is added and taken away again, both calls with the result 0, every signal has the
  -- action that it had before, and no action is saved for the one of the calls.
  sig_del-sig_add :
      (sig handler : ℕ) (w : World k)
      → (sig_add k sig handler w).1 ≡ true
      → (sig_del k sig (sig_add k sig handler w).0).1 ≡ true
      → let w' = (sig_del k sig (sig_add k sig handler w).0).0 in
        ((m : ℕ) → disposition w'.sys m ≡ disposition w.sys m) × (w'.old sig ≡ none)
  sig_del-sig_add sig handler w added deleted =
      let a = sig_add-Added sig handler w added in
      let d =
        sig_del-Deleted sig (disposition w.sys sig) (sig_add k sig handler w).0 a.saved deleted in
      (
        λ m. elim (Bool-cases (m == sig)) [
          | inl same ↦ ground (arith, d.now, same)
          | inr ne ↦ d.others m ne ∙ a.others m ne
        ],
        d.cleared,
      )

  -- After two handlers are added for a signal one after the other, taking the signal away brings the
  -- first handler back, and leaves no saved action by which a further call could bring back the
  -- action from before both.
  pub sig_del-sig_add_twice :
      (sig first second : ℕ) (w : World k)
      → (sig_add k sig first w).1 ≡ true
      → (sig_add k sig second (sig_add k sig first w).0).1 ≡ true
      → (sig_del k sig (sig_add k sig second (sig_add k sig first w).0).0).1 ≡ true
      → let w' = (sig_del k sig (sig_add k sig second (sig_add k sig first w).0).0).0 in
        (disposition w'.sys sig ≡ caught first)
        × (w'.old sig ≡ none)
        × (sig_del k sig w' ≡ (w', true))
  sig_del-sig_add_twice sig first second w one two gone =
      let r = sig_del-sig_add sig second (sig_add k sig first w).0 two gone in
      (
        r.0 sig ∙ (sig_add-Added sig first w one).now,
        r.1,
        nothing_saved sig _ (in_range sig first w one) r.1,
      )
    where
      in_range :
          (sig first : ℕ) (w : World k)
          → (sig_add k sig first w).1 ≡ true
          → out_of_range sig ≡ false
      in_range sig first w one = elim (Bool-cases (out_of_range sig)) [
        | inr within ↦ within
        | inl out ↦ unfold sig_add in (let f : false ≡ true = rw out at one in cc)
      ]

      nothing_saved :
          (sig : ℕ) (v : World k)
          → out_of_range sig ≡ false
          → v.old sig ≡ none
          → sig_del k sig v ≡ (v, true)
      nothing_saved sig v within e = unfold sig_del in rw (within, e)
