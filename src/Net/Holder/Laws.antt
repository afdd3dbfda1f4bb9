-- ===== src/Net/Holder/Laws.antt =====
-- Which process the search for a socket finds.
use commlib.Base.{
  ℕ, suc, ◌<◌, ◌≤◌, ◌≡◌, ◌∙◌, refl, true, false, Option, none, some, List, [], ◌∷◌, arith, length,
  inl, inr, ◌⊎◌, Option-cases, ltb, append-nil, All, take, drop, ◌++◌, sym, subst, zero, ap,
}
use commlib.Libc.{ℤ, atoi, to_u32, strrchr}
use commlib.Proc.{to_int}
use commlib.Directory.{Dirent, dt_dir, proc_dir}
use commlib.Directory.Laws.{no_failure, paths_of}
use commlib.Directory.Procs.{visit, find_proc_pid-visit}
use commlib.Directory.Procs.Numbered.{IsName, IsProcess, NotSlash, proc_path, visit_cases}
use commlib.Net.Holder.Link.{IsSocketText, is_socket_cases}
use commlib.Net.Holder.{
  NetProcInfo, Links, pid_of, put_link, exe_path, fd_dir, fd_path, fd_loop, with_process,
  deal_proc_pid_info, parse_proc_info_by_inode,
}

abbrev pub IsShort : Option (List ℕ) → Type 0
IsShort none = Unit
IsShort (some text) = length text < 256

abbrev IsSocketLink : ℕ → Option (List ℕ) → Type 0
IsSocketLink inode none = ⊥
IsSocketLink inode (some text) = IsSocketText inode text

-- One of the names is a link to the socket.
abbrev HasLink : Links → List ℕ → ℕ → List (List ℕ) → Type 0
HasLink links name inode [] = ⊥
HasLink links name inode (d_name ∷ rest) =
    IsSocketLink inode (links.link (name ++ (b'/' ∷ b'f' ∷ b'd' ∷ b'/' ∷ d_name)))
    ⊎ HasLink links name inode rest

abbrev HasLinkIn : Links → List ℕ → ℕ → Option (List (List ℕ)) → Type 0
HasLinkIn links name inode none = ⊥
HasLinkIn links name inode (some names) = HasLink links name inode names

-- The process has the socket open.
abbrev pub HasSocket : Links → ℕ → List ℕ → Type 0
HasSocket links inode name =
    HasLinkIn links name inode (links.names (name ++ b'/' ∷ b'f' ∷ b'd' ∷ []))

-- `readlink` into a buffer: the bytes of the link that fit over its start.
pub data Overwritten : Option (List ℕ) → List ℕ → List ℕ → Type 0 where
  no_link : {buff : List ℕ} → Overwritten none buff buff
  fits :
      {text : List ℕ} (front back : List ℕ)
      → length text ≡ length front
      → Overwritten (some text) (front ++ back) (text ++ back)
  fills :
      {text buff : List ℕ} (rest : List ℕ)
      → length text ≡ length buff
      → Overwritten (some (text ++ rest)) buff text

-- The record that the search leaves: the first process that has the socket open gives its number
-- and the link to its program, and without one nothing changes.
pub data Search (links : Links) (info : NetProcInfo) : List Dirent → NetProcInfo → Type 0 where
  nobody : Search links info [] info
  other :
      {ent : Dirent} {entries : List Dirent} {result : NetProcInfo}
      → ¬ (IsProcess ent)
      → Search links info entries result
      → Search links info (ent ∷ entries) result
  without :
      {ent : Dirent} {entries : List Dirent} {result : NetProcInfo}
      → IsProcess ent
      → ¬ (HasSocket links info.inode (proc_path ent.d_name))
      → Search links info entries result
      → Search links info (ent ∷ entries) result
  holder :
      {ent : Dirent} {entries : List Dirent} {path : List ℕ}
      → IsProcess ent
      → HasSocket links info.inode (proc_path ent.d_name)
      → Overwritten
          (links.link (proc_path ent.d_name ++ b'/' ∷ b'e' ∷ b'x' ∷ b'e' ∷ []))
          info.procpath
          path
      → Search links info (ent ∷ entries) (record {
        bucket = info.bucket;
        srcaddr = info.srcaddr;
        srcport = info.srcport;
        dstaddr = info.dstaddr;
        dstport = info.dstport;
        connstate = info.connstate;
        sendbytes = info.sendbytes;
        recvbytes = info.recvbytes;
        uid = info.uid;
        inode = info.inode;
        skrefcnt = info.skrefcnt;
        sockaddr = info.sockaddr;
        pid = to_int (to_u32 (atoi ent.d_name));
        procpath = path;
      })

strrchr-none : (s : List ℕ) → All NotSlash s → strrchr b'/' s ≡ none
unfolding strrchr
strrchr-none [] h = refl
strrchr-none (c ∷ s) h = rw (strrchr, strrchr-none s h.1, h.0) refl

pid_of-proc_path :
    (name : List ℕ) (pid : ℤ)
    → All NotSlash name
    → pid_of (proc_path name) pid ≡ to_int (to_u32 (atoi name))
unfolding strrchr
pid_of-proc_path name pid h = rw (strrchr, strrchr-none name h) refl

-- A text is cut where a number of bytes ends, or ends before.
cut_cases :
    (n : ℕ) (s : List ℕ)
    → ((length (take n s) ≡ n) × (s ≡ take n s ++ drop n s)) ⊎ ((length s < n) × (take n s ≡ s))
cut_cases zero s = inl (refl, refl)
cut_cases (suc n) [] = inr (omega arith, refl)
cut_cases (suc n) (c ∷ s) = elim (cut_cases n s) [
  | inl (l, e) ↦ inl (ap suc l, ap (λ (xs : List ℕ). c ∷ xs) e)
  | inr (l, e) ↦ inr (omega (arith, l), ap (λ (xs : List ℕ). c ∷ xs) e)
]

drop-all : (s : List ℕ) → drop (length s) s ≡ []
drop-all [] = refl
drop-all (c ∷ s) = drop-all s

put_link-Overwritten :
    (answer : Option (List ℕ)) (buff : List ℕ) → Overwritten answer buff (put_link answer buff)
put_link-Overwritten none buff = no_link
put_link-Overwritten (some text) buff = elim (cut_cases (length buff) text) [
  | inl (l, e) ↦
      rw (l, drop-all buff, append-nil (take (length buff) text))
        (subst (λ t. Overwritten (some t) buff (take (length buff) text)) (sym e)
          (fills (drop (length buff) text) l))
  | inr (l, e) ↦ elim (cut_cases (length text) buff) [
    | inl (k, f) ↦ rw e (
        subst (λ b. Overwritten (some text) b (text ++ drop (length text) buff)) (sym f)
          (fits (take (length text) buff) (drop (length text) buff) (sym k)))
    | inr (k, f) ↦ absurd (omega (arith, l, k))
  ]
]

short_fits : (text : List ℕ) → length text < 256 → ltb (length text) 256 ≡ true
short_fits text h = ground arith

module _ (links : Links) (short : (path : List ℕ) → IsShort (links.link path)) (name : List ℕ)
    (inode : ℕ) where
  abbrev Scanned : List (List ℕ) → Type 0
  Scanned names =
      ((fd_loop links.link name inode names ≡ some true) × HasLink links name inode names)
      ⊎ ((fd_loop links.link name inode names ≡ some false) × ¬ (HasLink links name inode names))

  -- What a name adds, once the loop is known to go on behind it, or to end at it.
  goes_on :
      (d_name : List ℕ) (rest : List (List ℕ))
      → fd_loop links.link name inode (d_name ∷ rest) ≡ fd_loop links.link name inode rest
      → ¬ (IsSocketLink inode (links.link (fd_path name d_name)))
      → Scanned rest
      → Scanned (d_name ∷ rest)
  goes_on d_name rest e differs (inl (f, h)) = inl (e ∙ f, inr h)
  goes_on d_name rest e differs (inr (f, h)) =
      inr (e ∙ f, λ has. elim has [ inl here ↦ differs here | inr there ↦ h there ])

  one_more_name :
      (d_name : List ℕ) (rest : List (List ℕ)) (answer : Option (List ℕ))
      → links.link (fd_path name d_name) ≡ answer
      → Scanned rest
      → Scanned (d_name ∷ rest)
  unfolding fd_loop
  one_more_name d_name rest none e later =
      goes_on d_name rest (rw (fd_loop, e)) (λ has. rw e at has) later
  one_more_name d_name rest (some text) e later =
      let small : IsShort (links.link (fd_path name d_name)) = short (fd_path name d_name) in
      let fits : ltb (length text) 256 ≡ true = short_fits text (rw e at small) in
      elim (is_socket_cases inode text) [
        | inl (is, has) ↦ inl (rw (fd_loop, e, fits, is), inl (rw e has))
        | inr (differs, lacks) ↦
            goes_on d_name rest (rw (fd_loop, e, fits, differs)) (λ has. lacks (rw e at has)) later
      ]

  scan_names : (names : List (List ℕ)) → Scanned names
  unfolding fd_loop
  scan_names [] = inr (refl, λ has. has)
  scan_names (d_name ∷ rest) = one_more_name d_name rest _ refl (scan_names rest)

abbrev DealCases : Links → List ℕ → NetProcInfo → Type 0
DealCases links name info =
    ((deal_proc_pid_info links name (some info) ≡ (some (with_process links name info), true))
      × HasSocket links info.inode name)
    ⊎ ((deal_proc_pid_info links name (some info) ≡ (some info, false))
        × ¬ (HasSocket links info.inode name))

deal_cases :
    (links : Links) (name : List ℕ) (info : NetProcInfo)
    → links.malloc_ok ≡ true
    → ((path : List ℕ) → IsShort (links.link path))
    → DealCases links name info
unfolding deal_proc_pid_info
deal_cases links name info ok short = elim (Option-cases (links.names (fd_dir name))) [
  | inl e ↦ inr (rw (deal_proc_pid_info, ok, e), λ has. rw e at has)
  | inr (names, e) ↦ elim (scan_names links short name info.inode names) [
    | inl (f, h) ↦ inl (rw (deal_proc_pid_info, ok, e, f), rw e h)
    | inr (f, h) ↦ inr (rw (deal_proc_pid_info, ok, e, f), λ has. h (rw e at has))
  ]
]

visit-Search :
    (links : Links) (info : NetProcInfo) (entries : List Dirent)
    → All IsName entries
    → links.malloc_ok ≡ true
    → ((path : List ℕ) → IsShort (links.link path))
    → (result : NetProcInfo) × (visit
          (deal_proc_pid_info links)
          (some info)
          (paths_of dt_dir proc_dir entries)
        ≡ some result)
      × Search links info entries result
visit-Search links info [] names ok short = (info, refl, nobody)
visit-Search links info (ent ∷ entries) names ok short =
    let path = proc_path ent.d_name in
    let later = visit-Search links info entries names.1 ok short in
    elim (visit_cases (deal_proc_pid_info links) (some info) ent entries names.0) [
      | inr (no_process, e) ↦ (later.0, e ∙ later.1, other no_process later.2)
      | inl (process, e) ↦ elim (deal_cases links path info ok short) [
        | inr (f, lacks) ↦ (later.0, e ∙ rw (f, f) later.1, without process lacks later.2)
        | inl (f, has) ↦
            let number = pid_of-proc_path ent.d_name info.pid names.0.0 in
            let written = put_link-Overwritten (links.link (exe_path path)) info.procpath in
            (_, e ∙ rw (f, f, with_process, number) refl, holder process has written)
      ]
    ]

-- On a /proc that opens, whose names have no slash and neither white space nor a sign in front, with
-- memory and with links shorter than 256 bytes, the search for a socket ends after at most one round
-- more than /proc has entries, without a fault. The record then has the number of the first process,
-- in the order of /proc, that has a link to the socket of the record's inode, and the bytes of the
-- link to its program, as many as fit, over the start of the path's buffer, and its other members as
-- before; where there is no such process, the record is as before, with the number and the path of an
-- earlier search.
pub parse_proc_info_by_inode-Search :
    (links : Links) (dir : List Dirent) (n : ℕ) (info : NetProcInfo)
    → All IsName dir
    → links.malloc_ok ≡ true
    → ((path : List ℕ) → IsShort (links.link path))
    → length dir ≤ n
    → (result : NetProcInfo) × (parse_proc_info_by_inode links no_failure (some dir) (suc n) info
        ≡ some (some result))
      × Search links info dir result
unfolding parse_proc_info_by_inode
parse_proc_info_by_inode-Search links dir n info names ok short enough =
    let (result, e, search) = visit-Search links info dir names ok short in
    (
      result,
      find_proc_pid-visit dir (deal_proc_pid_info links) n (some info) enough ∙ ap some e,
      search,
    )
