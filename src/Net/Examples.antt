-- ===== src/Net/Examples.antt =====
-- The interfaces, the ARP table, the sockets and the switch of one machine.
use commlib.Base.{
  subst, ◌+◌, ◌<◌, ℕ, ◌≡◌, ◌↔◌, refl, true, false, Option, none, some, List, [], ◌∷◌, ◌++◌, arith,
  length, replicate,
}
use commlib.Libc.{
  ℤ, pos, negsuc, is_space, starts_with, inet_ntop, byte_text, strtol, atoi, decimal,
}
use commlib.Net.Local.{
  Interface, af_inet, returned, null_read, foreach_local_ipv4, local_loop, is_local_ipv4,
  is_local_loop,
}
use commlib.Net.Local.Laws.{StartsLocal, is_local_ipv4-StartsLocal}
use commlib.Net.Arp.{
  fault, ArpItem, zero_item, arp_rounds, foreach_comm_arp, foreach_complete_arp, foreach_permit_arp,
  foreach_publish_arp,
}
use commlib.Net.Arp.Rows.{Cell, Row, IsRow, rows_text}
use commlib.Net.Arp.Hex.{Digits, first_digit, hex_letter}
use commlib.Net.Arp.Laws.{entries_with, foreach_comm_arp-entries_with}
use commlib.Net.Ping.{Switch, forbid_pingv4, allow_pingv4, is_allow_pingv4}

-- 127.0.0.1, an interface of another family, and 10.0.0.7.
abbrev loopback : Interface
loopback = some (record { family = af_inet; address = 16777343 })

abbrev packets : Interface
packets = some (record { family = 17; address = 0 })

abbrev ethernet : Interface
ethernet = some (record { family = af_inet; address = 117440522 })

abbrev interfaces : List Interface
interfaces = packets ∷ loopback ∷ ethernet ∷ []

-- "10.0.0."
abbrev ten_net : List ℕ
ten_net = b'1' ∷ b'0' ∷ b'.' ∷ b'0' ∷ b'.' ∷ b'0' ∷ b'.' ∷ []

is_local_ipv4-StartsLocal_example :
    (is_local_ipv4 (some interfaces) (some (ten_net ++ b'7' ∷ b'5' ∷ [])) ≡ some true)
    ↔ StartsLocal interfaces (ten_net ++ b'7' ∷ b'5' ∷ [])
is_local_ipv4-StartsLocal_example =
    is_local_ipv4-StartsLocal interfaces b'1'
      (b'0' ∷ b'.' ∷ b'0' ∷ b'.' ∷ b'0' ∷ b'.' ∷ b'7' ∷ b'5' ∷ []) (tt, (tt, (tt, tt)))

-- 10.0.0.75 is taken for the address of the interface 10.0.0.7, and 10.0.0.8 is not.
longer_is_local : is_local_ipv4 (some interfaces) (some (ten_net ++ b'7' ∷ b'5' ∷ [])) ≡ some true
unfolding is_local_ipv4 is_local_loop starts_with inet_ntop byte_text
longer_is_local = refl

other_is_not : is_local_ipv4 (some interfaces) (some (ten_net ++ b'8' ∷ [])) ≡ some false
unfolding is_local_ipv4 is_local_loop starts_with inet_ntop byte_text
other_is_not = refl

-- A callback that keeps the addresses and goes on, or stops with a number of its own.
abbrev keep : ℤ → List ℕ → List (List ℕ) → List (List ℕ) × ℤ
keep answer ip seen = (ip ∷ seen, answer)

both_addresses :
    foreach_local_ipv4 (keep (pos 0)) (some interfaces) []
    ≡ returned
        ((ten_net ++ b'7' ∷ [])
          ∷ (b'1' ∷ b'2' ∷ b'7' ∷ b'.' ∷ b'0' ∷ b'.' ∷ b'0' ∷ b'.' ∷ b'1' ∷ [])
          ∷ [])
        (pos 0)
unfolding foreach_local_ipv4 local_loop inet_ntop byte_text
both_addresses = refl

no_address : foreach_local_ipv4 (keep (pos 5)) (some (none ∷ interfaces)) [] ≡ null_read
unfolding foreach_local_ipv4 local_loop
no_address = refl

abbrev cell : List ℕ → Cell
cell word = record { blanks = 3; word = word }

abbrev neighbour : ℕ → ℕ → Row
neighbour last flag = record {
  ipv4 = ten_net ++ last ∷ [];
  hwtype = cell (b'0' ∷ b'x' ∷ b'1' ∷ []);
  flag = cell (b'0' ∷ b'x' ∷ (b'0' + flag) ∷ []);
  hwaddr = cell (b'a' ∷ b':' ∷ b'b' ∷ []);
  mask = cell (b'*' ∷ []);
  devname = cell (b'e' ∷ b't' ∷ b'h' ∷ b'0' ∷ []);
  type_number = 1;
  flag_number = flag;
}

-- 10.0.0.1 has the flag of a complete entry, 10.0.0.2 has none, 10.0.0.3 has that of a permanent one
-- too.
abbrev neighbours : List Row
neighbours = neighbour b'1' 2 ∷ neighbour b'2' 0 ∷ neighbour b'3' 6 ∷ []

neighbour-IsRow : (last flag : ℕ) → is_space last ≡ false → flag < 10 → IsRow (neighbour last flag)
neighbour-IsRow last flag h k = record {
  ipv4 = (omega arith, (refl, (refl, (refl, (refl, (refl, (refl, (refl, (h, tt)))))))));
  cells = (
    (omega arith, (refl, (refl, (refl, tt)))),
    (
      (omega arith, (refl, (refl, (ground (arith, k), tt)))),
      (
        (omega arith, (refl, (refl, (refl, tt)))),
        ((omega arith, (refl, tt)), ((omega arith, (refl, (refl, (refl, (refl, tt))))), tt)),
      ),
    ),
  );
  fit = refl;
  line = omega arith;
  type_hex = record {
    digits = b'1' ∷ [];
    spelled = refl;
    value = first_digit 1 (omega arith);
    small = omega arith;
  };
  flag_hex = record {
    digits = (b'0' + flag) ∷ [];
    spelled = refl;
    value =
        (let e : hex_letter flag ≡ b'0' + flag = ground (arith, k) in
          subst (λ c. Digits (c ∷ []) flag) e (first_digit flag (omega (arith, k))));
    small = omega (arith, k);
  };
}

-- "IP"
abbrev titles : List ℕ
titles = b'I' ∷ b'P' ∷ []

abbrev arp_file : Option (List ℕ)
arp_file = some (titles ++ (b'\n' ∷ rows_text neighbours))

foreach_comm_arp-entries_with_example :
    (item : ArpItem) × (arp_rounds 4 2 arp_file zero_item ≡ some (entries_with 2 neighbours, item))
    × (foreach_comm_arp 2 arp_file item ≡ fault)
foreach_comm_arp-entries_with_example =
    foreach_comm_arp-entries_with 2 titles neighbours (omega arith) (refl, (refl, tt)) (omega arith)
      (
        neighbour-IsRow b'1' 2 refl (omega arith),
        (
          neighbour-IsRow b'2' 0 refl (omega arith),
          (neighbour-IsRow b'3' 6 refl (omega arith), tt),
        ),
      )

two_complete : length (entries_with 2 neighbours) ≡ 2
two_complete = refl

-- The three loops differ in their flag.
flags_of_loops :
    (foreach_permit_arp none zero_item ≡ foreach_comm_arp 4 none zero_item)
    × (foreach_complete_arp none zero_item ≡ foreach_comm_arp 2 none zero_item)
    × (foreach_publish_arp none zero_item ≡ foreach_comm_arp 8 none zero_item)
unfolding foreach_permit_arp foreach_complete_arp foreach_publish_arp
flags_of_loops = (refl, refl, refl)

abbrev free_switch : Switch
free_switch = record { opens = true; takes_byte = true }

switched :
    (forbid_pingv4 free_switch ≡ (some (b'1' ∷ []), pos 0))
    × (allow_pingv4 free_switch ≡ (some (b'0' ∷ []), pos 0))
unfolding forbid_pingv4 allow_pingv4 decimal
switched = (refl, refl)

-- The kernel's file has a newline behind the digit; a file of ten digits and more is read without end.
asked :
    (is_allow_pingv4 (some (b'1' ∷ b'\n' ∷ [])) ≡ some (pos 0))
    × (is_allow_pingv4 (some (b'0' ∷ b'\n' ∷ [])) ≡ some (pos 1))
    × (is_allow_pingv4 (some []) ≡ some (negsuc 0))
    × (is_allow_pingv4 (some (replicate 10 b'0')) ≡ none)
unfolding is_allow_pingv4 atoi strtol
asked = (refl, refl, refl, refl)
