-- ===== src/Net/Arp.antt =====
-- The iterators over the ARP table of src/myfcp/fcp_net.c. The table is a parameter: the bytes of
-- /proc/net/arp, with `none` for a file that does not open.
pub mod Laws
pub mod Rows
pub mod Hex
use commlib.Base.{
  ℕ, zero, suc, ◌<◌, Bool, true, false, not, Option, none, some, List, [], ◌∷◌, ◌==◌, ◌&&◌, ltb,
  if◌then◌else◌, length, get_or, bit_and, leb, ◌-◌, ◌^◌, ◌%◌,
}
use commlib.Proc.{to_int}
use commlib.Libc.{is_space, strtol, fgets, pos, ℤ, to_u32}

-- `entry->this`: NULL, a stream with the bytes that are left, or one that was closed and kept.
pub data Stream : Type 0 where
  null : Stream
  opened : List ℕ → Stream
  closed : Stream

-- What a line tells: `arp_ipv4`, `arp_hwaddr`, `arp_devname`, `arp_hwtype` and `arp_flag`.
pub record ArpEntry : Type 0 where
  pub ipv4 : List ℕ
  pub hwaddr : List ℕ
  pub devname : List ℕ
  pub hwtype : ℤ
  pub flag : ℤ

-- `struct fcp_one_item`.
pub record ArpItem : Type 0 where
  pub loop : ℕ
  pub this : Stream
  pub arp : ArpEntry

-- A call returns 0 or -1; `fault` is a use of a closed stream, or a word too long for its array.
pub data ArpStep : Type 0 where
  found : ArpItem → ArpStep
  ended : ArpItem → ArpStep
  fault : ArpStep

-- `%s`: the bytes up to white space, behind white space, and what is left.
pub word_at : List ℕ → List ℕ × List ℕ
word_at [] = ([], [])
word_at (c ∷ s) = elim (is_space c) [
  | true ↦ ([], c ∷ s)
  | false ↦ (c ∷ (word_at s).0, (word_at s).1)
]

pub next_word : List ℕ → List ℕ × List ℕ
unfolding word_at
next_word [] = ([], [])
next_word (c ∷ s) = elim (is_space c) [ true ↦ next_word s | false ↦ word_at (c ∷ s) ]

-- At most `n` words; the end of the text ends them.
pub scan_words : ℕ → List ℕ → List (List ℕ)
unfolding next_word
scan_words zero s = []
scan_words (suc n) s = elim (length (next_word s).0 == 0) [
  | true ↦ []
  | false ↦ (next_word s).0 ∷ scan_words n (next_word s).1
]

-- The words fit `arp_ipv4`, `strtype`, `strflag`, `arp_hwaddr`, `strmask` and `arp_devname`.
abbrev pub words_fit : List (List ℕ) → Bool
words_fit words =
    ltb (length (get_or words 0 [])) 16
    && (ltb (length (get_or words 1 [])) 20
        && (ltb (length (get_or words 2 [])) 20
            && (ltb (length (get_or words 3 [])) 32
                && (ltb (length (get_or words 4 [])) 16 && ltb (length (get_or words 5 [])) 256))))

-- `strtol` gives a `long`, the nearest one where the number does not fit; the `int` that it is stored
-- in keeps the low 32 bits.
abbrev pub int_of : List ℕ → ℤ
int_of s =
    let (minus, n) = strtol 16 s in
    if minus
    then to_int ((2 ^ 64 - (if leb (2 ^ 63) n then 2 ^ 63 else n)) % 2 ^ 32)
    else to_int ((if leb (2 ^ 63) n then 2 ^ 63 - 1 else n) % 2 ^ 32)

-- The three members that are cleared for each line and scanned again.
abbrev pub scanned : List (List ℕ) → ArpEntry → ArpEntry
scanned words e = record e {
  ipv4 = get_or words 0 [];
  hwaddr = get_or words 3 [];
  devname = get_or words 5 [];
}

abbrev pub has_bit : ℕ → ℤ → Bool
has_bit arpflag flag = not (bit_and (to_u32 flag) arpflag == 0)

-- From the label `next` on, with `strtype` and `strflag` as the line before left them, which words
-- that are missing do not change. `fault` is also a line more than the fuel.
pub arp_loop : ℕ → ℕ → List ℕ → List ℕ → List ℕ → ArpEntry → ArpStep
unfolding scan_words
arp_loop zero arpflag strtype strflag file e = fault
arp_loop (suc n) arpflag strtype strflag file e = elim (fgets 1024 file) [
  | none ↦ ended (record { loop = 1; this = closed; arp = e })
  | some (line, rest) ↦
      let words = scan_words 6 line in
      let strtype' = get_or words 1 strtype in
      let strflag' = get_or words 2 strflag in
      elim (words_fit words) [
        | false ↦ fault
        | true ↦ elim (has_bit arpflag (int_of strflag')) [
          | false ↦ arp_loop n arpflag strtype' strflag' rest (scanned words e)
          | true ↦ found (record {
            loop = 1;
            this = opened rest;
            arp = record (scanned words e) { hwtype = int_of strtype'; flag = int_of strflag' };
          })
        ]
      ]
]

-- As many lines as the file has bytes are enough.
next_arp : ℕ → List ℕ → ArpEntry → ArpStep
unfolding arp_loop
next_arp arpflag file e = arp_loop (suc (length file)) arpflag [] [] file e

-- LOOP_TYPE_START, behind `fopen`: the line of titles is read first.
start_arp : ℕ → Option (List ℕ) → ArpItem → ArpStep
unfolding next_arp
start_arp arpflag none item = ended item
start_arp arpflag (some file) item = elim (fgets 1024 file) [
  | none ↦ ended (record { loop = 1; this = closed; arp = item.arp })
  | some (titles, rest) ↦ next_arp arpflag rest item.arp
]

-- LOOP_TYPE_CON.
continue_arp : ℕ → Stream → ArpItem → ArpStep
unfolding next_arp
continue_arp arpflag null item = ended item
continue_arp arpflag closed item = fault
continue_arp arpflag (opened rest) item = next_arp arpflag rest item.arp

-- LOOP_TYPE_STOP, and every other value: the label `done`.
stop_arp : Stream → ArpItem → ArpStep
stop_arp null item = ended item
stop_arp closed item = fault
stop_arp (opened rest) item = ended (record item { this = closed })

-- fcp_foreach_comm_arp for an entry that is no NULL.
unfoldable pub foreach_comm_arp : ℕ → Option (List ℕ) → ArpItem → ArpStep
unfolding start_arp continue_arp stop_arp
foreach_comm_arp arpflag file item =
    if item.loop == 0
    then start_arp arpflag file item
    else if item.loop == 1
    then continue_arp arpflag item.this item
    else stop_arp item.this item

unfoldable pub foreach_permit_arp : Option (List ℕ) → ArpItem → ArpStep
foreach_permit_arp file item = foreach_comm_arp 4 file item

unfoldable pub foreach_complete_arp : Option (List ℕ) → ArpItem → ArpStep
foreach_complete_arp file item = foreach_comm_arp 2 file item

unfoldable pub foreach_publish_arp : Option (List ℕ) → ArpItem → ArpStep
foreach_publish_arp file item = foreach_comm_arp 8 file item

abbrev zero_entry : ArpEntry
zero_entry = record { ipv4 = []; hwaddr = []; devname = []; hwtype = pos 0; flag = pos 0 }

-- `memset`.
abbrev pub zero_item : ArpItem
zero_item = record { loop = 0; this = null; arp = zero_entry }

abbrev pub add_entry :
    ArpEntry → Option (List ArpEntry × ArpItem) → Option (List ArpEntry × ArpItem)
add_entry e none = none
add_entry e (some (entries, item)) = some (e ∷ entries, item)

-- The entries that the body of a loop over the table sees, and the item when the loop ends. `none`
-- is a fault, or more rounds than the fuel.
pub arp_rounds : ℕ → ℕ → Option (List ℕ) → ArpItem → Option (List ArpEntry × ArpItem)
unfolding foreach_comm_arp
arp_rounds zero arpflag file item = none
arp_rounds (suc n) arpflag file item = elim (foreach_comm_arp arpflag file item) [
  | found item' ↦ add_entry item'.arp (arp_rounds n arpflag file item')
  | ended item' ↦ some ([], item')
  | fault ↦ none
]
