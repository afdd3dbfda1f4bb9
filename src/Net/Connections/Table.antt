-- ===== src/Net/Connections/Table.antt =====
-- com_foreach_net_info on a table of the kernel's form.
use commlib.Base.{
  ℕ, zero, suc, ◌<◌, ◌≤◌, ◌≡◌, refl, Bool, true, false, Option, none, some, List, [], ◌∷◌, ◌++◌,
  arith, All, length, replicate, ◌∙◌, Bool-cases, inl, inr,
}
use commlib.Libc.{fgets}
use commlib.Libc.Lines.{NotNewline, fgets_line}
use commlib.Directory.{Dirent}
use commlib.Directory.Laws.{no_failure}
use commlib.Directory.Procs.Numbered.{IsName}
use commlib.Net.Holder.{NetProcInfo, Links}
use commlib.Net.Holder.Laws.{IsShort, Search, parse_proc_info_by_inode-Search}
use commlib.Net.Connections.Laws.{Place, IsPlace, place_text}
use commlib.Net.Connections.Cut.{length-store_offsets}
use commlib.Net.Connections.Members.{column, IsSocketLine, Members, read_members-Members}
use commlib.Net.Connections.{
  Array, System, no_value, read_members, parse_net_field, store_offsets, net_loop, net_file,
  zero_info, com_foreach_net_info,
}
use commlib.Net.Connections.Rows.{Row, IsRow, row_fields, rows_text, length-rows_text}

-- What happens at a line: the record is filled with what its words say, over what the line before
-- left, and the process of the socket is searched.
pub record Told (links : Links) (dir : List Dirent) (info : NetProcInfo) (r : Row)
    (result : NetProcInfo) : Type 0 where
  pub source : Place
  pub place : IsPlace source
  pub source_text : column 1 r ≡ place_text source
  pub given : NetProcInfo
  pub members : Members r source info given
  pub searched : Search links given dir result

-- What the callback has been told for the lines, in order, up to the first for which it returned
-- something else than 0; each line starts from the record that the callback left at the one before.
pub data Reports {ℓ} {U : Type ℓ} (links : Links) (dir : List Dirent)
    (callback : NetProcInfo → U → (NetProcInfo × U) × Bool)
    : NetProcInfo → U → List Row → U → Type ℓ where
  over : {info : NetProcInfo} {u : U} → Reports links dir callback info u [] u
  stops :
      {info result : NetProcInfo} {u : U} {r : Row} {rows : List Row}
      → Told links dir info r result
      → (callback result u).1 ≡ true
      → Reports links dir callback info u (r ∷ rows) (callback result u).0.1
  goes :
      {info result : NetProcInfo} {u u' : U} {r : Row} {rows : List Row}
      → Told links dir info r result
      → (callback result u).1 ≡ false
      → Reports links dir callback (callback result u).0.0 (callback result u).0.1 rows u'
      → Reports links dir callback info u (r ∷ rows) u'

-- A line of a socket, in the kernel's form.
abbrev pub IsSocketRow : Row → Type 0
IsSocketRow r = IsRow r × ((source : Place) × IsSocketLine r source)

-- A system whose /proc opens and which has memory.
abbrev pub working : Links → List Dirent → ℕ → List ℕ → Option (List ℕ) → System
working links dir rounds tcp udp = record {
  tcp = some tcp;
  udp = udp;
  proc = some dir;
  rounds = suc rounds;
  links = links;
  memory = no_failure;
}

module _ {ℓ} {U : Type ℓ} (links : Links) (dir : List Dirent) (rounds : ℕ) (tcp : List ℕ)
    (udp : Option (List ℕ)) (callback : NetProcInfo → U → (NetProcInfo × U) × Bool)
    (names : All IsName dir) (ok : links.malloc_ok ≡ true)
    (short : (path : List ℕ) → IsShort (links.link path)) (enough : length dir ≤ rounds) where
  abbrev sys : System
  sys = working links dir rounds tcp udp

  parse_row :
      (array : Array) (buff : List ℕ) (info : NetProcInfo)
      → (result : NetProcInfo) × (parse_net_field sys array buff info ≡ some result)
        × Search links (read_members array buff info) dir result
  unfolding parse_net_field
  parse_row array buff info =
      let found =
        parse_proc_info_by_inode-Search links dir rounds (read_members array buff info) names ok
          short enough in
      (found.0, rw (parse_net_field, found.1), found.2)

  abbrev Loops : ℕ → Array → NetProcInfo → U → List Row → Type ℓ
  Loops n array info u rows =
      (u' : U) × (net_loop sys callback n (rows_text rows) array info u ≡ no_value u')
      × Reports links dir callback info u rows u'

  net_loop-Reports :
      (n : ℕ) (rows : List Row) (array : Array) (info : NetProcInfo) (u : U)
      → All IsSocketRow rows
      → length array ≡ 12
      → length rows < n
      → Loops n array info u rows
  unfolding net_loop
  net_loop-Reports zero rows array info u h room fuel = absurd (omega (arith, fuel))
  net_loop-Reports (suc n) [] array info u h room fuel = (u, unfold fgets in refl, over)
  net_loop-Reports (suc n) (r ∷ rows) array info u h room fuel =
      let (row, (source, socket)) = h.0 in
      let (buff, offsets, cut, words) = row_fields r row in
      let array' = store_offsets offsets array in
      let (result, parsed, searched) = parse_row array' buff info in
      let read =
        fgets_line 1024 r.body (rows_text rows) row.not_empty row.one_line
          (omega (arith, row.room)) in
      let told : Told links dir info r result = record {
        source = source;
        place = socket.place;
        source_text = socket.source_text;
        given = read_members array' buff info;
        members = read_members-Members r source socket offsets array buff words room info;
        searched = searched;
      } in
      elim (Bool-cases (callback result u).1) [
        | inl stop ↦
            ((callback result u).0.1, rw (net_loop, read, cut, parsed, stop), stops told stop)
        | inr go ↦
            let later =
              net_loop-Reports n rows array' (callback result u).0.0 (callback result u).0.1 h.1
                (length-store_offsets offsets array ∙ room) (omega (arith, fuel)) in
            (later.0, rw (net_loop, read, cut, parsed, go) later.1, goes told go later.2)
      ]

-- On a table of TCP sockets whose lines are at least twelve words behind spaces and fit the buffer,
-- with an IPv4 address and a port in hexadecimal digits as the second word and no colon in the words
-- for the state, the user, the inode, the references and the address of the socket, with a /proc that
-- opens and whose names have no slash and neither white space nor a sign in front, with memory and
-- with links shorter than 256 bytes, com_foreach_net_info reads to the end, or up to the first line
-- for which the callback does not return 0, without a fault, and ends there without a value. For each
-- of these lines, in order, the callback is given a record with the bucket, the source address in
-- dotted form and its port, the state, the user, the inode, the references and the address of the
-- socket that the words of the line say, and with the process that the search for the line's inode
-- finds; the process number and path of the line before are left where it finds none.
pub com_foreach_net_info-Reports {ℓ} :
    {U : Type ℓ} (links : Links) (dir : List Dirent) (rounds : ℕ) (titles : List ℕ)
    (rows : List Row) (udp : Option (List ℕ))
    (callback : NetProcInfo → U → (NetProcInfo × U) × Bool) (u : U)
    → All IsName dir
    → links.malloc_ok ≡ true
    → ((path : List ℕ) → IsShort (links.link path))
    → length dir ≤ rounds
    → 0 < length titles
    → All NotNewline titles
    → length titles < 1022
    → All IsSocketRow rows
    → (u' : U) × (com_foreach_net_info
          (working links dir rounds (titles ++ (b'\n' ∷ rows_text rows)) udp)
          callback
          0
          u
        ≡ no_value u')
      × Reports links dir callback zero_info u rows u'
unfolding com_foreach_net_info net_file
com_foreach_net_info-Reports links dir rounds titles rows udp callback u names ok short enough
      some_byte one_line fits good =
    let table : List ℕ = titles ++ (b'\n' ∷ rows_text rows) in
    let looped =
      net_loop-Reports links dir rounds table udp callback names ok short enough
        (suc (length (rows_text rows))) rows (replicate 12 none) zero_info u good refl
        (omega (arith, length-rows_text rows)) in
    (
      looped.0,
      rw
          (
            com_foreach_net_info,
            net_file,
            fgets_line 1024 titles (rows_text rows) some_byte one_line (omega (arith, fits)),
          )
          looped.1,
      looped.2,
    )
