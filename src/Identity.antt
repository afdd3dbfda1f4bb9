-- ===== src/Identity.antt =====
-- The names of the system of src/myfcp/fcp_os.c: the identifiers that the kernel and /etc/machine-id
-- give, the release, and the user's name. Files and the user's entry are parameters. A buffer is all
-- its bytes, and the size that a caller passes is their number, below 2 ^ 31.
pub mod Laws
mod Examples
use commlib.Base.{
  ℕ, zero, suc, ◌+◌, ◌-◌, Bool, true, false, Option, none, some, List, [], ◌∷◌, ◌++◌, ◌==◌,
  if◌then◌else◌, length, get_or, set, take, drop,
}
use commlib.Libc.{ℤ, pos, negsuc, text_at, fgets, put_line}
use commlib.Words.Version.{general_os_version}

-- The buffer after a call, what the call returns, and whether it leaves its stream open.
pub record Answer : Type 0 where
  pub buff : List ℕ
  pub ret : ℤ
  pub left_open : Bool

abbrev pub refused : List ℕ → Answer
refused buff = record { buff = buff; ret = negsuc 0; left_open = false }

-- The last byte of the text becomes the terminator where it is `key`. `none` is an access in front
-- of the buffer, for a text that is empty.
pub cut_last : ℕ → List ℕ → Option (List ℕ)
cut_last key buff = elim (length (text_at buff)) [
  | zero ↦ none
  | suc last ↦ some (if get_or buff last 0 == key then set buff last 0 else buff)
]

abbrev answer_of : Bool → Option (List ℕ) → Option Answer
answer_of left_open none = none
answer_of left_open (some buff) = some (record { buff = buff; ret = pos 0; left_open = left_open })

-- A stream that has opened is closed by neither branch.
pub os_info : Option (List ℕ) → List ℕ → Option Answer
unfolding cut_last
os_info none buff = some (refused buff)
os_info (some file) [] = some (record { buff = []; ret = negsuc 0; left_open = true })
os_info (some file) (b ∷ buff) = elim (fgets (length (b ∷ buff)) file) [
  | none ↦ some (record { buff = b ∷ buff; ret = negsuc 0; left_open = true })
  | some (line, rest) ↦ answer_of true (cut_last b'\n' (put_line line (b ∷ buff)))
]

-- "/proc/sys/kernel/random/uuid" and "/proc/sys/kernel/random/boot_id"; a `none` buffer is NULL.
pub os_info_uuid : Option (List ℕ) → Option (List ℕ) → Option Answer
unfolding os_info
os_info_uuid uuid none = some (refused [])
os_info_uuid uuid (some buff) = os_info uuid buff

pub os_info_bootid : Option (List ℕ) → Option (List ℕ) → Option Answer
unfolding os_info
os_info_bootid boot_id none = some (refused [])
os_info_bootid boot_id (some buff) = os_info boot_id buff

-- "/etc/machine-id"; the last byte is compared with '\0'.
pub os_info_machine_id : Option (List ℕ) → Option (List ℕ) → Option Answer
unfolding cut_last
os_info_machine_id file none = some (refused [])
os_info_machine_id file (some []) = some (refused [])
os_info_machine_id none (some (b ∷ buff)) = some (refused (b ∷ buff))
os_info_machine_id (some file) (some (b ∷ buff)) = elim (fgets (length (b ∷ buff)) file) [
  | none ↦ some (refused (b ∷ buff))
  | some (line, rest) ↦ answer_of false (cut_last 0 (put_line line (b ∷ buff)))
]

pub os_info_version : Option (Option (List ℕ)) → Option (Option (List ℕ)) → Option ℤ
os_info_version redhat issue = general_os_version redhat issue

-- What `getpwuid_r` returns, and the name in the entry that it finds.
pub record UserEntry : Type 0 where
  pub ret : ℤ
  pub pw_name : Option (List ℕ)

pub os_current_user : Bool → UserEntry → Option (List ℕ) → Answer
os_current_user malloc_ok entry none = refused []
os_current_user malloc_ok entry (some []) = refused []
os_current_user malloc_ok entry (some (b ∷ name)) =
    if malloc_ok
    then (elim (entry.pw_name) [
      | none ↦ refused (b ∷ name)
      | some pw_name ↦
          let text = take (length name) pw_name in
          record { buff = put_line text (b ∷ name); ret = entry.ret; left_open = false }
    ])
    else refused (b ∷ name)
