-- ===== src/Net/Holder.antt =====
-- The search for the process that holds a socket, of src/myfcp/fcp_net.c: deal_proc_pid_info and
-- parse_proc_info_by_inode. The directories and links of /proc are a parameter.
pub mod Link
pub mod Laws
mod Examples
use commlib.Base.{
  ℕ, zero, suc, Bool, true, false, Option, none, some, List, [], ◌∷◌, ◌++◌, ◌==◌, ◌&&◌, ltb, length,
  take, drop, ◌+◌,
}
use commlib.Libc.{ℤ, atoi, to_u32, strchr, strrchr, contains}
use commlib.Proc.{to_int}
use commlib.Directory.{Dirent, Memory, find_proc_pid}

-- `NetProcInfo`; the two addresses are texts, `procpath` is the buffer.
pub record NetProcInfo : Type 0 where
  pub bucket : ℕ
  pub srcaddr : List ℕ
  pub srcport : ℕ
  pub dstaddr : List ℕ
  pub dstport : ℕ
  pub connstate : ℤ
  pub sendbytes : ℕ
  pub recvbytes : ℕ
  pub uid : ℕ
  pub inode : ℕ
  pub skrefcnt : ℕ
  pub sockaddr : ℕ
  pub pid : ℤ
  pub procpath : List ℕ

-- What `opendir` and `readdir` tell of a directory, what `readlink` tells of a link, and whether
-- `malloc` has memory.
pub record Links : Type 0 where
  pub names : List ℕ → Option (List (List ℕ))
  pub link : List ℕ → Option (List ℕ)
  pub malloc_ok : Bool

abbrev pub fd_dir : List ℕ → List ℕ
fd_dir name = name ++ b'/' ∷ b'f' ∷ b'd' ∷ []

abbrev pub fd_path : List ℕ → List ℕ → List ℕ
fd_path name d_name = name ++ (b'/' ∷ b'f' ∷ b'd' ∷ b'/' ∷ d_name)

abbrev pub exe_path : List ℕ → List ℕ
exe_path name = name ++ b'/' ∷ b'e' ∷ b'x' ∷ b'e' ∷ []

abbrev pub socket_word : List ℕ
socket_word = b's' ∷ b'o' ∷ b'c' ∷ b'k' ∷ b'e' ∷ b't' ∷ b':' ∷ []

-- The tests on the text of a link.
pub is_socket : ℕ → List ℕ → Bool
is_socket inode text = contains text socket_word && (elim (strchr b'[' text) [
  | none ↦ false
  | some (before, behind) ↦ to_u32 (atoi behind) == inode
])

-- The `while` loop: whether it finds the socket. `none` is a link that fills `sympath`, whose text
-- has then no end.
pub fd_loop : (List ℕ → Option (List ℕ)) → List ℕ → ℕ → List (List ℕ) → Option Bool
unfolding is_socket
fd_loop link name inode [] = some false
fd_loop link name inode (d_name ∷ rest) = elim (link (fd_path name d_name)) [
  | none ↦ fd_loop link name inode rest
  | some text ↦ elim (ltb (length text) 256) [
    | false ↦ none
    | true ↦ elim (is_socket inode text) [ true ↦ some true | false ↦ fd_loop link name inode rest ]
  ]
]

abbrev pub pid_of : List ℕ → ℤ → ℤ
pid_of name pid = elim (strrchr b'/' name) [ none ↦ pid | some text ↦ to_int (to_u32 (atoi text)) ]

-- `readlink` writes the bytes of the link and no terminator.
abbrev pub put_link : Option (List ℕ) → List ℕ → List ℕ
put_link none buff = buff
put_link (some text) buff = let bytes = take (length buff) text in bytes ++ drop (length bytes) buff

abbrev pub with_process : Links → List ℕ → NetProcInfo → NetProcInfo
with_process links name info = record info {
  pid = pid_of name info.pid;
  procpath = put_link (links.link (exe_path name)) info.procpath;
}

-- The record, and whether the call returns something else than 0. `none` is a fault, in an earlier
-- call or in this one.
pub deal_proc_pid_info : Links → List ℕ → Option NetProcInfo → Option NetProcInfo × Bool
unfolding fd_loop
deal_proc_pid_info links name none = (none, true)
deal_proc_pid_info links name (some info) = elim (links.malloc_ok) [
  | false ↦ (some info, false)
  | true ↦ elim (links.names (fd_dir name)) [
    | none ↦ (some info, false)
    | some names ↦ elim (fd_loop links.link name info.inode names) [
      | none ↦ (none, true)
      | some false ↦ (some info, false)
      | some true ↦ (some (with_process links name info), true)
    ]
  ]
]

-- It returns 0 whatever happens; the outer `none` is that of the loop over /proc.
pub parse_proc_info_by_inode :
    Links → Memory → Option (List Dirent) → ℕ → NetProcInfo → Option (Option NetProcInfo)
parse_proc_info_by_inode links mem dir fuel info =
    find_proc_pid mem dir (deal_proc_pid_info links) fuel (some info)
