-- ===== src/Net/Connections.antt =====
-- com_foreach_net_info of src/myfcp/fcp_net.c, the loop over the table of TCP or UDP sockets, with
-- parse_net_field.
pub mod Hex
pub mod Cut
pub mod Laws
pub mod Rows
pub mod Members
pub mod Table
mod Examples
use commlib.Base.{
  ℕ, zero, suc, ◌+◌, ◌%◌, ◌^◌, Bool, true, false, Option, none, some, List, [], ◌∷◌, ◌++◌, ◌==◌,
  length, get_or, set, drop, replicate, if◌then◌else◌,
}
use commlib.Libc.{
  ℤ, pos, negsuc, atoi, strtoul, to_u32, inet_ntop, strchr, text_at, fgets, put_line,
}
use commlib.Proc.{to_int}
use commlib.Words.{Fields, fields, ret_err, fault, general_get_field}
use commlib.Net.Holder.{NetProcInfo, Links, parse_proc_info_by_inode}
use commlib.Directory.{Dirent, Memory}

-- The array `field`: offsets into `tmpbuff`, with `none` for NULL.
abbrev pub Array : Type 0
Array = List (Option ℕ)

abbrev pub field_at : Array → ℕ → List ℕ → Option (List ℕ)
field_at array n buff = elim (get_or array n none) [
  | none ↦ none
  | some offset ↦ some (text_at (drop offset buff))
]

-- What stands before a colon, and behind it.
abbrev pub before_colon : List ℕ → List ℕ
before_colon text = elim (strchr b':' text) [ none ↦ text | some (before, behind) ↦ before ]

abbrev pub behind_colon : List ℕ → Option (List ℕ)
behind_colon text = elim (strchr b':' text) [ none ↦ none | some (before, behind) ↦ some behind ]

-- `*ptmp = '\0'`.
pub cut_field : Array → ℕ → List ℕ → List ℕ
cut_field array n buff = elim (get_or array n none) [
  | none ↦ buff
  | some offset ↦ elim (strchr b':' (text_at (drop offset buff))) [
    | none ↦ buff
    | some (before, behind) ↦ set buff (offset + length before) 0
  ]
]

-- `strtoul(text, NULL, 16)` behind a colon, or what the member had.
abbrev pub hex_or : ℕ → Option (List ℕ) → ℕ
hex_or old none = old
hex_or old (some text) = strtoul 16 text % 2 ^ 32

pub set_bucket : Option (List ℕ) → NetProcInfo → NetProcInfo
set_bucket none info = info
set_bucket (some text) info = record info { bucket = strtoul 16 text % 2 ^ 32 }

pub set_source : Option (List ℕ) → NetProcInfo → NetProcInfo
set_source none info = info
set_source (some text) info = record info {
  srcport = hex_or info.srcport (behind_colon text);
  srcaddr = inet_ntop (strtoul 16 (before_colon text));
}

pub set_target : Option (List ℕ) → NetProcInfo → NetProcInfo
set_target none info = info
set_target (some text) info = record info {
  dstport = hex_or info.dstport (behind_colon text);
  dstaddr = inet_ntop (strtoul 16 (before_colon text));
}

pub set_state : Option (List ℕ) → NetProcInfo → NetProcInfo
set_state none info = info
set_state (some text) info = record info { connstate = to_int (strtoul 16 text % 2 ^ 32) }

pub set_bytes : Option (List ℕ) → NetProcInfo → NetProcInfo
set_bytes none info = info
set_bytes (some text) info = record info {
  recvbytes = hex_or info.recvbytes (behind_colon text);
  sendbytes = strtoul 16 (before_colon text) % 2 ^ 32;
}

pub set_uid : Option (List ℕ) → NetProcInfo → NetProcInfo
set_uid none info = info
set_uid (some text) info = record info { uid = to_u32 (atoi text) }

pub set_inode : Option (List ℕ) → NetProcInfo → NetProcInfo
set_inode none info = info
set_inode (some text) info = record info { inode = to_u32 (atoi text) }

pub set_skrefcnt : Option (List ℕ) → NetProcInfo → NetProcInfo
set_skrefcnt none info = info
set_skrefcnt (some text) info = record info { skrefcnt = to_u32 (atoi text) }

pub set_sockaddr : Option (List ℕ) → NetProcInfo → NetProcInfo
set_sockaddr none info = info
set_sockaddr (some text) info = record info { sockaddr = strtoul 16 text }

-- The members that a line gives. The three cuts are made in the buffer before the fields behind
-- them are read, since offsets of an earlier line may lie in the same text.
pub read_members : Array → List ℕ → NetProcInfo → NetProcInfo
unfolding cut_field set_bucket set_source set_target set_state set_bytes set_uid set_inode
    set_skrefcnt set_sockaddr
read_members array buff info =
    let first = cut_field array 1 buff in
    let second = cut_field array 2 first in
    let third = cut_field array 4 second in
    let addressed =
      set_target (field_at array 2 first)
        (set_source (field_at array 1 buff) (set_bucket (field_at array 0 buff) info)) in
    let sized =
      set_bytes (field_at array 4 second) (set_state (field_at array 3 second) addressed) in
    set_sockaddr (field_at array 11 third) (
      set_skrefcnt (field_at array 10 third)
        (set_inode (field_at array 9 third) (set_uid (field_at array 7 third) sized)))

-- What the loop is given of the system.
pub record System : Type 0 where
  pub tcp : Option (List ℕ)
  pub udp : Option (List ℕ)
  pub proc : Option (List Dirent)
  pub rounds : ℕ
  pub links : Links
  pub memory : Memory

-- `none` is a fault in the search. It returns 0 otherwise.
pub parse_net_field : System → Array → List ℕ → NetProcInfo → Option NetProcInfo
unfolding read_members
parse_net_field sys array buff info =
    elim (parse_proc_info_by_inode sys.links sys.memory sys.proc sys.rounds
      (read_members array buff info)) [ none ↦ none | some result ↦ result ]

-- The first places of the array are written.
pub store_offsets : List ℕ → Array → Array
store_offsets [] array = array
store_offsets (offset ∷ offsets) [] = []
store_offsets (offset ∷ offsets) (old ∷ array) = some offset ∷ store_offsets offsets array

-- -1; or the end of the function, without a `return`, where no use may be made of the value; or a
-- fault, which is also a line more than the fuel.
pub data Loop {ℓ} (U : Type ℓ) : Type ℓ where
  failed : U → Loop U
  no_value : U → Loop U
  broken : Loop U

abbrev pub zero_info : NetProcInfo
zero_info = record {
  bucket = 0;
  srcaddr = [];
  srcport = 0;
  dstaddr = [];
  dstport = 0;
  connstate = pos 0;
  sendbytes = 0;
  recvbytes = 0;
  uid = 0;
  inode = 0;
  skrefcnt = 0;
  sockaddr = 0;
  pid = pos 0;
  procpath = replicate 1024 0;
}

module _ {ℓ} {U : Type ℓ} (sys : System)
    (callback : NetProcInfo → U → (NetProcInfo × U) × Bool) where
  -- The `while` loop: `field` and `procnetinfo` are not cleared between lines.
  pub net_loop : ℕ → List ℕ → Array → NetProcInfo → U → Loop U
  unfolding parse_net_field store_offsets
  net_loop zero file array info u = broken
  net_loop (suc n) file array info u = elim (fgets 1024 file) [
    | none ↦ no_value u
    | some (line, rest) ↦ elim (general_get_field (put_line line (replicate 1024 0)) b' ' 12) [
      | fault ↦ broken
      | ret_err ↦ net_loop n rest array info u
      | fields buff offsets ↦ elim (parse_net_field sys (store_offsets offsets array) buff info) [
        | none ↦ broken
        | some info' ↦ elim ((callback info' u).1) [
          | true ↦ no_value (callback info' u).0.1
          | false ↦
              net_loop n rest (store_offsets offsets array) (callback info' u).0.0
                (callback info' u).0.1
        ]
      ]
    ]
  ]

  net_file : Option (List ℕ) → U → Loop U
  unfolding net_loop
  net_file none u = failed u
  net_file (some file) u = elim (fgets 1024 file) [
    | none ↦ failed u
    | some (titles, rest) ↦ net_loop (suc (length rest)) rest (replicate 12 none) zero_info u
  ]

  pub com_foreach_net_info : ℕ → U → Loop U
  unfolding net_file
  com_foreach_net_info nettype u =
      if nettype == 0
      then net_file sys.tcp u
      else if nettype == 1
      then net_file sys.udp u
      else failed u
