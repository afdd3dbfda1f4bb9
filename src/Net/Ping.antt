-- ===== src/Net/Ping.antt =====
-- The switch for answers to ping, of src/myfcp/fcp_net.c. The file of the switch is a parameter:
-- whether it opens, whether `fwrite` takes its byte, and what `fread` delivers.
use commlib.Base.{
  ℕ, zero, suc, Bool, Option, none, some, List, [], ◌∷◌, ◌==◌, ◌&&◌, ◌||◌, if◌then◌else◌, leb,
  length, take,
}
use commlib.Libc.{ℤ, pos, negsuc, atoi, is_space, decimal}

-- What the file is like for a call that writes.
pub record Switch : Type 0 where
  pub opens : Bool
  pub takes_byte : Bool

-- The bytes that were written, and what the call returns.
abbrev pub Written : Type 0
Written = Option (List ℕ) × ℤ

-- `fwrite(buff, 1, 1, fp)`: the first byte of the decimal text.
unfoldable pub set_pingv4_state : Switch → ℕ → Written
set_pingv4_state file flag =
    if file.opens
    then (if file.takes_byte then (some (take 1 (decimal flag)), pos 0) else (none, negsuc 0))
    else (none, negsuc 0)

unfoldable pub forbid_pingv4 : Switch → Written
unfolding set_pingv4_state
forbid_pingv4 file = set_pingv4_state file 1

unfoldable pub allow_pingv4 : Switch → Written
unfolding set_pingv4_state
allow_pingv4 file = set_pingv4_state file 0

-- What `atoi` has not read: it stops at the first byte that is no digit.
unfoldable pub behind_digits : List ℕ → List ℕ
behind_digits [] = []
behind_digits (c ∷ s) = if leb b'0' c && leb c b'9' then behind_digits s else c ∷ s

unfoldable pub behind_number : List ℕ → List ℕ
unfolding behind_digits
behind_number [] = []
behind_number (c ∷ s) =
    if is_space c
    then behind_number s
    else if c == b'-' || c == b'+'
    then behind_digits s
    else behind_digits (c ∷ s)

abbrev pub no_ping : ℤ → ℤ
no_ping (pos zero) = pos 1
no_ping (pos (suc n)) = pos 0
no_ping (negsuc n) = pos 0

-- `fread` fills the ten bytes of `buff` at most, which then have no terminator. `none` is an `atoi`
-- that runs over their end.
unfoldable pub is_allow_pingv4 : Option (List ℕ) → Option ℤ
unfolding behind_number
is_allow_pingv4 none = some (negsuc 0)
is_allow_pingv4 (some []) = some (negsuc 0)
is_allow_pingv4 (some (c ∷ file)) =
    let buff = take 10 (c ∷ file) in
    if length buff == 10 && length (behind_number buff) == 0
    then none
    else some (no_ping (atoi buff))
