-- ===== src/Net/Holder/Examples.antt =====
-- A /proc with the processes 7 and 12, of which 12 has the socket 55 open.
use commlib.Base.{
  ℕ, ◌≡◌, refl, true, none, some, List, [], ◌∷◌, ◌++◌, arith, replicate, Bool-cases, inl, inr,
  if◌then◌else◌,
}
use commlib.Libc.{pos, same, starts_with, contains, strchr, strrchr, strtol, atoi}
use commlib.Directory.{Dirent, dt_dir, proc_dir}
use commlib.Directory.Laws.{no_failure}
use commlib.Net.Holder.{
  NetProcInfo, Links, fd_path, socket_word, is_socket, pid_of, put_link, parse_proc_info_by_inode,
}
use commlib.Net.Holder.Laws.{IsShort, Search, parse_proc_info_by_inode-Search}

abbrev entries : List Dirent
entries =
    record { d_name = b'7' ∷ []; d_type = dt_dir }
    ∷ record { d_name = b'1' ∷ b'2' ∷ []; d_type = dt_dir }
    ∷ []

abbrev process_12 : List ℕ
process_12 = proc_dir ++ b'/' ∷ b'1' ∷ b'2' ∷ []

-- "socket:[55]"
abbrev socket_55 : List ℕ
socket_55 = socket_word ++ b'[' ∷ b'5' ∷ b'5' ∷ b']' ∷ []

-- Every directory of open files has "0" and "3"; only that of process 12 has a socket, as "3".
abbrev machine : Links
machine = record {
  names = λ path. some ((b'0' ∷ []) ∷ (b'3' ∷ []) ∷ []);
  link = λ path. if same path (fd_path process_12 (b'3' ∷ [])) then some socket_55 else none;
  malloc_ok = true;
}

machine-IsShort : (path : List ℕ) → IsShort (machine.link path)
machine-IsShort path = elim (Bool-cases (same path (fd_path process_12 (b'3' ∷ [])))) [
  | inl is ↦ rw is (omega arith)
  | inr differs ↦ rw differs tt
]

abbrev wanted : NetProcInfo
wanted = record {
  bucket = 0;
  srcaddr = [];
  srcport = 0;
  dstaddr = [];
  dstport = 0;
  connstate = pos 0;
  sendbytes = 0;
  recvbytes = 0;
  uid = 0;
  inode = 55;
  skrefcnt = 0;
  sockaddr = 0;
  pid = pos 3;
  procpath = replicate 8 0;
}

parse_proc_info_by_inode-Search_example :
    (result : NetProcInfo) × (parse_proc_info_by_inode machine no_failure (some entries) 3 wanted
      ≡ some (some result))
    × Search machine wanted entries result
parse_proc_info_by_inode-Search_example =
    parse_proc_info_by_inode-Search machine entries 2 wanted
      (
        ((refl, tt), (omega arith, refl, refl)),
        (((refl, (refl, tt)), (omega arith, refl, refl)), tt),
      )
      refl machine-IsShort (omega arith)

link_of_socket : is_socket 55 socket_55 ≡ true
unfolding is_socket contains starts_with strchr atoi strtol
link_of_socket = refl

number_of_process : pid_of process_12 (pos 3) ≡ pos 12
unfolding strrchr atoi strtol
number_of_process = refl

-- The path of a process over that of an earlier one that was longer: "/a" over "/bin".
path_over_longer :
    put_link (some (b'/' ∷ b'a' ∷ [])) (b'/' ∷ b'b' ∷ b'i' ∷ b'n' ∷ 0 ∷ [])
    ≡ b'/' ∷ b'a' ∷ b'i' ∷ b'n' ∷ 0 ∷ []
path_over_longer = refl
