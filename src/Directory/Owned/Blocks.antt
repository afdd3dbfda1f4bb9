-- ===== src/Directory/Owned/Blocks.antt =====
-- The blocks and the stream that a node owns, and `stopread` on them.
use commlib.Base.{
  ℕ, ◌<◌, ◌≡◌, refl, ap, true, Option, none, some, List, [], ◌∷◌, ◌==◌, arith, length, Bool-cases,
  Option-cases, inl, inr,
}
use commlib.Directory.{Dirent, is_passed, read_entry}
use commlib.Directory.Owned.{
  Pool, free, closedir, take_out, OwnedNode, clear_item, ends, after_free, release_all,
}

pub free_first :
    (block : ℕ) (rest : List ℕ) (p : Pool)
    → p.live ≡ block ∷ rest
    → free block p ≡ some (record p { live = rest })
unfolding free take_out
free_first block rest p e =
    let same : (block == block) ≡ true = ground arith in rw (free, e, take_out, same) refl

closedir_first :
    (stream : ℕ) (rest : List ℕ) (p : Pool)
    → p.dirs ≡ stream ∷ rest
    → closedir stream p ≡ some (record p { dirs = rest })
unfolding closedir take_out
closedir_first stream rest p e =
    let same : (stream == stream) ≡ true = ground arith in rw (closedir, e, take_out, same) refl

pub read_entry-shorter :
    (type : ℕ) (entries : List Dirent) (ent : Dirent) (rest : List Dirent)
    → read_entry type entries ≡ some (ent, rest)
    → length rest < length entries
unfolding read_entry
read_entry-shorter type [] ent rest e = cc
read_entry-shorter type (x ∷ xs) ent rest e = elim (Bool-cases (is_passed type x)) [
  | inl passed ↦
      let e' : read_entry type xs ≡ some (ent, rest) = rw (read_entry, passed) at e in
      omega (arith, read_entry-shorter type xs ent rest e')
  | inr read ↦
      let first : ◌≡◌ {A = Option (Dirent × List Dirent)} (some (x, xs)) (some (ent, rest)) =
        rw (read_entry, read) at e in
      let same : xs ≡ rest = cc in omega (arith, ap length same)
]

-- What is live beside what was live at first, the last block first.
abbrev pub blocks_of : OwnedNode → List ℕ → List ℕ
blocks_of node live = elim node.fullpath [
  | none ↦ node.path_block ∷ node.self ∷ live
  | some (block, path) ↦ block ∷ node.path_block ∷ node.self ∷ live
]

module _ (live dirs : List ℕ) where
  abbrev pub Owns : OwnedNode → Pool → Type 0
  Owns node p = (p.live ≡ blocks_of node live) × (p.dirs ≡ node.stream ∷ dirs)

  release_rest :
      (node : OwnedNode) (p : Pool)
      → p.live ≡ node.path_block ∷ node.self ∷ live
      → p.dirs ≡ node.stream ∷ dirs
      → after_free (free node.path_block p) (λ p2.
        after_free
          (closedir node.stream p2)
          (λ p3. after_free (free node.self p3) (λ p4. ends clear_item p4)))
        ≡ ends clear_item (record p { live = live; dirs = dirs })
  release_rest node p blocks streams =
      rw
        (
          free_first node.path_block (node.self ∷ live) p blocks,
          closedir_first node.stream dirs (record p { live = node.self ∷ live }) streams,
          free_first node.self live (record p { live = node.self ∷ live; dirs = dirs }) refl,
        )
        refl

  pub release_all-ends :
      (node : OwnedNode) (p : Pool)
      → Owns node p
      → release_all node p ≡ ends clear_item (record p { live = live; dirs = dirs })
  unfolding release_all
  release_all-ends node p owns = elim (Option-cases node.fullpath) [
    | inl bare ↦
        let blocks : p.live ≡ node.path_block ∷ node.self ∷ live = rw bare at owns.0 in
        rw (release_all, bare) (release_rest node p blocks owns.1)
    | inr ((block, path), e) ↦
        let blocks : p.live ≡ block ∷ node.path_block ∷ node.self ∷ live = rw e at owns.0 in
        rw (release_all, e, free_first block (node.path_block ∷ node.self ∷ live) p blocks)
          (release_rest node (record p { live = node.path_block ∷ node.self ∷ live }) refl owns.1)
  ]
