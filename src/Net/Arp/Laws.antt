-- ===== src/Net/Arp/Laws.antt =====
-- The loops of src/myfcp/fcp_net.h over a table of the kernel's form.
use commlib.Base.{
  ℕ, zero, suc, ◌<◌, ◌≤◌, ◌≡◌, refl, ap, Bool, true, false, Option, none, some, List, [], ◌∷◌, ◌++◌,
  arith, All, length, length-append, inl, inr, Bool-cases, if◌then◌else◌, ap₂, ◌∙◌, not, bit_and,
  ◌==◌,
}
use commlib.Libc.{ℤ, pos, fgets}
use commlib.Net.Arp.Hex.{int_of-HexWord, has_bit-HexWord}
use commlib.Libc.Lines.{fgets_line, NotNewline}
use commlib.Net.Arp.{
  opened, closed, ArpEntry, ArpItem, ArpStep, found, ended, fault, zero_item, arp_rounds, add_entry,
  scanned, arp_loop, next_arp, start_arp, continue_arp, foreach_comm_arp,
}
use commlib.Net.Arp.Rows.{Row, IsRow, row_line, rows_text, row_words, fgets_row, scan_row}

-- What the entry holds for a line.
abbrev pub entry_of : Row → ArpEntry
entry_of r = record {
  ipv4 = r.ipv4;
  hwaddr = r.hwaddr.word;
  devname = r.devname.word;
  hwtype = pos r.type_number;
  flag = pos r.flag_number;
}

abbrev row_has : ℕ → Row → Bool
row_has arpflag r = not (bit_and r.flag_number arpflag == 0)

-- The first line that has the flag, and the lines behind it.
abbrev seek : ℕ → List Row → ArpEntry → ArpStep
seek arpflag [] e = ended (record { loop = 1; this = closed; arp = e })
seek arpflag (r ∷ rows) e = elim (row_has arpflag r) [
  | false ↦ seek arpflag rows (scanned (row_words r) e)
  | true ↦ found (record { loop = 1; this = opened (rows_text rows); arp = entry_of r })
]

abbrev found_row : Row → List ℕ → ℤ → ℤ → ArpStep
found_row r rest hwtype flag = found (record {
  loop = 1;
  this = opened rest;
  arp = record {
    ipv4 = r.ipv4;
    hwaddr = r.hwaddr.word;
    devname = r.devname.word;
    hwtype = hwtype;
    flag = flag;
  };
})

arp_loop-seek :
    (n arpflag : ℕ) (strtype strflag : List ℕ) (rows : List Row) (e : ArpEntry)
    → All IsRow rows
    → length rows < n
    → arp_loop n arpflag strtype strflag (rows_text rows) e ≡ seek arpflag rows e
unfolding arp_loop
arp_loop-seek zero arpflag strtype strflag rows e h enough = absurd (omega (arith, enough))
arp_loop-seek (suc n) arpflag strtype strflag [] e h enough = unfold fgets in refl
arp_loop-seek (suc n) arpflag strtype strflag (r ∷ rows) e h enough =
    elim (Bool-cases (row_has arpflag r)) [
      | inl has ↦
          rw
            (
              arp_loop,
              fgets_row r (rows_text rows) h.0,
              scan_row r h.0,
              h.0.fit,
              scan_row r h.0,
              has_bit-HexWord arpflag r.flag.word r.flag_number h.0.flag_hex ∙ has,
              scan_row r h.0,
              seek,
              has,
            )
            (ap₂ (found_row r (rows_text rows))
              (int_of-HexWord r.hwtype.word r.type_number h.0.type_hex)
              (int_of-HexWord r.flag.word r.flag_number h.0.flag_hex))
      | inr lacks ↦
          rw
            (
              arp_loop,
              fgets_row r (rows_text rows) h.0,
              scan_row r h.0,
              h.0.fit,
              scan_row r h.0,
              has_bit-HexWord arpflag r.flag.word r.flag_number h.0.flag_hex ∙ lacks,
              scan_row r h.0,
              seek,
              lacks,
            )
            (arp_loop-seek n arpflag r.hwtype.word r.flag.word rows (scanned (row_words r) e) h.1
              (omega arith))
    ]

-- The entries of the lines that have the flag, in order.
abbrev pub entries_with : ℕ → List Row → List ArpEntry
entries_with arpflag [] = []
entries_with arpflag (r ∷ rows) =
    if row_has arpflag r then entry_of r ∷ entries_with arpflag rows else entries_with arpflag rows

length-rows_text : (rows : List Row) → length rows ≤ length (rows_text rows)
length-rows_text [] = omega arith
length-rows_text (r ∷ rows) =
    let e = length-append (row_line r) (b'\n' ∷ rows_text rows) in
    omega (arith, e, length-rows_text rows)

next_arp-seek :
    (arpflag : ℕ) (rows : List Row) (e : ArpEntry)
    → All IsRow rows
    → next_arp arpflag (rows_text rows) e ≡ seek arpflag rows e
unfolding next_arp
next_arp-seek arpflag rows e h =
    arp_loop-seek (suc (length (rows_text rows))) arpflag [] [] rows e h
      (omega (arith, length-rows_text rows))

comm_opened :
    (arpflag : ℕ) (file : Option (List ℕ)) (rows : List Row) (e : ArpEntry)
    → All IsRow rows
    → foreach_comm_arp arpflag file (record { loop = 1; this = opened (rows_text rows); arp = e })
      ≡ seek arpflag rows e
unfolding foreach_comm_arp continue_arp
comm_opened arpflag file rows e h = next_arp-seek arpflag rows e h

comm_zero :
    (arpflag : ℕ) (titles : List ℕ) (rows : List Row)
    → 0 < length titles
    → All NotNewline titles
    → length titles < 1022
    → All IsRow rows
    → foreach_comm_arp arpflag (some (titles ++ (b'\n' ∷ rows_text rows))) zero_item
      ≡ seek arpflag rows zero_item.arp
unfolding foreach_comm_arp start_arp
comm_zero arpflag titles rows some_byte h fits good =
    rw
      (
        foreach_comm_arp,
        start_arp,
        fgets_line 1024 titles (rows_text rows) some_byte h (omega (arith, fits)),
      )
      (next_arp-seek arpflag rows zero_item.arp good)

-- The rounds from a step on.
abbrev after : ℕ → ℕ → Option (List ℕ) → ArpStep → Option (List ArpEntry × ArpItem)
after n arpflag file (found item) = add_entry item.arp (arp_rounds n arpflag file item)
after n arpflag file (ended item) = some ([], item)
after n arpflag file fault = none

rounds_after :
    (n arpflag : ℕ) (file : Option (List ℕ)) (item : ArpItem)
    → arp_rounds (suc n) arpflag file item
      ≡ after n arpflag file (foreach_comm_arp arpflag file item)
unfolding arp_rounds
rounds_after n arpflag file item =
    elim (foreach_comm_arp arpflag file item)
      as (λ step.
        elim step as (λ _. Option (List ArpEntry × ArpItem)) [
          | found item' ↦ add_entry item'.arp (arp_rounds n arpflag file item')
          | ended item' ↦ some ([], item')
          | fault ↦ none
        ]
        ≡ after n arpflag file step) [ found i ↦ refl | ended i ↦ refl | fault ↦ refl ]

-- The end of a loop that has delivered the entries.
abbrev Delivers : List ArpEntry → Option (List ArpEntry × ArpItem) → Type 0
Delivers entries result =
    (last : ArpEntry) × (result ≡ some (entries, record { loop = 1; this = closed; arp = last }))

add_Delivers :
    (e : ArpEntry) (entries : List ArpEntry) (result : Option (List ArpEntry × ArpItem))
    → Delivers entries result
    → Delivers (e ∷ entries) (add_entry e result)
add_Delivers e entries result d = (d.0, ap (add_entry e) d.1)

after-seek :
    (n arpflag : ℕ) (file : Option (List ℕ)) (rows : List Row) (e : ArpEntry)
    → All IsRow rows
    → length rows ≤ n
    → Delivers (entries_with arpflag rows) (after n arpflag file (seek arpflag rows e))
after-seek n arpflag file [] e h enough = (e, refl)
after-seek zero arpflag file (r ∷ rows) e h enough = absurd (omega (arith, enough))
after-seek (suc n) arpflag file (r ∷ rows) e h enough = elim (Bool-cases (row_has arpflag r)) [
  | inr lacks ↦
      rw (lacks, seek)
        (after-seek (suc n) arpflag file rows (scanned (row_words r) e) h.1 (omega arith))
  | inl has ↦
      rw (has, seek)
        (add_Delivers (entry_of r) (entries_with arpflag rows) _ (
          rw
            (rounds_after n arpflag file
              (record { loop = 1; this = opened (rows_text rows); arp = entry_of r }))
            (rw (comm_opened arpflag file rows (entry_of r) h.1)
              (after-seek n arpflag file rows (entry_of r) h.1 (omega arith)))))
]

-- A loop over a table of full lines, behind a line of titles that fits the buffer, delivers the
-- entries of exactly the lines that have the flag, in order, each with the numbers of its line, and ends, within one round more than
-- there are lines. It leaves the item with the closed stream, so that one more call with the item
-- uses that stream.
pub foreach_comm_arp-entries_with :
    (arpflag : ℕ) (titles : List ℕ) (rows : List Row)
    → 0 < length titles
    → All NotNewline titles
    → length titles < 1022
    → All IsRow rows
    → (item : ArpItem) × (arp_rounds
          (suc (length rows))
          arpflag
          (some (titles ++ (b'\n' ∷ rows_text rows)))
          zero_item
        ≡ some (entries_with arpflag rows, item))
      × (foreach_comm_arp arpflag (some (titles ++ (b'\n' ∷ rows_text rows))) item ≡ fault)
unfolding foreach_comm_arp continue_arp
foreach_comm_arp-entries_with arpflag titles rows some_byte h fits good =
    let file = some (titles ++ (b'\n' ∷ rows_text rows)) in
    let d : Delivers (entries_with arpflag rows)
        (arp_rounds (suc (length rows)) arpflag file zero_item) =
      rw
        (
          rounds_after (length rows) arpflag file zero_item,
          comm_zero arpflag titles rows some_byte h fits good,
        )
        (after-seek (length rows) arpflag file rows zero_item.arp good (omega arith)) in
    (record { loop = 1; this = closed; arp = d.0 }, d.1, refl)
