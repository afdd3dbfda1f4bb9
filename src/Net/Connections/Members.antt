-- ===== src/Net/Connections/Members.antt =====
-- The members that a line of a table of sockets gives the record of parse_net_field.
use commlib.Base.{
  ℕ, zero, suc, ◌%◌, ◌^◌, ◌<◌, ◌≤◌, ◌≡◌, ◌∙◌, refl, ap, Option, none, some, List, [], ◌∷◌, arith,
  All, length, get_or, take, subst,
}
use commlib.Libc.{strtoul, atoi, to_u32, inet_ntop}
use commlib.Proc.{to_int}
use commlib.Words.{texts}
use commlib.Net.Holder.{NetProcInfo}
use commlib.Net.Connections.{
  Array, field_at, cut_field, store_offsets, before_colon, behind_colon, hex_or, set_bucket,
  set_source, set_target, set_state, set_bytes, set_uid, set_inode, set_skrefcnt, set_sockaddr,
  read_members,
}
use commlib.Net.Connections.Rows.{Row, row_words}
use commlib.Net.Connections.Laws.{Place, IsPlace, place_text, place_dotted, read_address, read_port}
use commlib.Net.Connections.Cut.{NoColon, Stored, store_offsets-Stored, field_at-Stored, cut-Stored}

-- A word of the line, from 0.
abbrev pub column : ℕ → Row → List ℕ
column i r = get_or (row_words r) i []

-- A line of a socket: at least twelve words, of which the second is a place, and the words for the
-- state, the user, the inode, the references and the address of the socket have no colon.
pub record IsSocketLine (r : Row) (source : Place) : Type 0 where
  pub twelve : 12 ≤ length (row_words r)
  pub place : IsPlace source
  pub source_text : column 1 r ≡ place_text source
  pub state_plain : All NoColon (column 3 r)
  pub uid_plain : All NoColon (column 7 r)
  pub inode_plain : All NoColon (column 9 r)
  pub references_plain : All NoColon (column 10 r)
  pub address_plain : All NoColon (column 11 r)

-- What the words of a line say, over a record in which the process and its path are kept.
pub record Members (r : Row) (source : Place) (before given : NetProcInfo) : Type 0 where
  pub bucket : given.bucket ≡ strtoul 16 (column 0 r) % 2 ^ 32
  pub srcaddr : given.srcaddr ≡ place_dotted source
  pub srcport : given.srcport ≡ source.port
  pub connstate : given.connstate ≡ to_int (strtoul 16 (column 3 r) % 2 ^ 32)
  pub uid : given.uid ≡ to_u32 (atoi (column 7 r))
  pub inode : given.inode ≡ to_u32 (atoi (column 9 r))
  pub skrefcnt : given.skrefcnt ≡ to_u32 (atoi (column 10 r))
  pub sockaddr : given.sockaddr ≡ strtoul 16 (column 11 r)
  pub pid : given.pid ≡ before.pid
  pub procpath : given.procpath ≡ before.procpath

abbrev filled :
    (w0 w1 w3 w7 w9 w10 w11 : List ℕ) (t2 t4 : Option (List ℕ)) → NetProcInfo → NetProcInfo
filled w0 w1 w3 w7 w9 w10 w11 t2 t4 info = set_sockaddr (some w11) (
    set_skrefcnt (some w10) (
      set_inode (some w9) (
        set_uid (some w7) (
          set_bytes t4 (
            set_state (some w3)
              (set_target t2 (set_source (some w1) (set_bucket (some w0) info))))))))

abbrev Fills : (w0 w1 w3 w7 w9 w10 w11 : List ℕ) → NetProcInfo → NetProcInfo → Type 0
Fills w0 w1 w3 w7 w9 w10 w11 info given =
    (given.bucket ≡ strtoul 16 w0 % 2 ^ 32)
    × (given.srcaddr ≡ inet_ntop (strtoul 16 (before_colon w1)))
    × (given.srcport ≡ hex_or info.srcport (behind_colon w1))
    × (given.connstate ≡ to_int (strtoul 16 w3 % 2 ^ 32))
    × (given.uid ≡ to_u32 (atoi w7))
    × (given.inode ≡ to_u32 (atoi w9))
    × (given.skrefcnt ≡ to_u32 (atoi w10))
    × (given.sockaddr ≡ strtoul 16 w11)
    × (given.pid ≡ info.pid)
    × (given.procpath ≡ info.procpath)

filled-Fills :
    (w0 w1 w3 w7 w9 w10 w11 : List ℕ) (t2 t4 : Option (List ℕ)) (info : NetProcInfo)
    → Fills w0 w1 w3 w7 w9 w10 w11 info (filled w0 w1 w3 w7 w9 w10 w11 t2 t4 info)
unfolding set_bucket set_source set_target set_state set_bytes set_uid set_inode set_skrefcnt
    set_sockaddr
filled-Fills w0 w1 w3 w7 w9 w10 w11 none none info =
    (refl, refl, refl, refl, refl, refl, refl, refl, refl, refl)
filled-Fills w0 w1 w3 w7 w9 w10 w11 none (some t) info =
    (refl, refl, refl, refl, refl, refl, refl, refl, refl, refl)
filled-Fills w0 w1 w3 w7 w9 w10 w11 (some t) none info =
    (refl, refl, refl, refl, refl, refl, refl, refl, refl, refl)
filled-Fills w0 w1 w3 w7 w9 w10 w11 (some t) (some t') info =
    (refl, refl, refl, refl, refl, refl, refl, refl, refl, refl)

get_or-take : (n i : ℕ) (ws : List (List ℕ)) → i < n → get_or (take n ws) i [] ≡ get_or ws i []
get_or-take zero i ws h = absurd (omega (arith, h))
get_or-take (suc n) i [] h = refl
get_or-take (suc n) zero (w ∷ ws) h = refl
get_or-take (suc n) (suc i) (w ∷ ws) h = get_or-take n i ws (omega (arith, h))

take-long : (n : ℕ) (ws : List (List ℕ)) → n ≤ length ws → length (take n ws) ≡ n
take-long zero ws h = refl
take-long (suc n) [] h = absurd (omega (arith, h))
take-long (suc n) (w ∷ ws) h = ap suc (take-long n ws (omega (arith, h)))

module _ (r : Row) (source : Place) (socket : IsSocketLine r source) (offsets : List ℕ)
    (array : Array) (buff : List ℕ) (cut : texts buff offsets ≡ take 12 (row_words r))
    (room : length array ≡ 12) where
  abbrev stored : Array
  stored = store_offsets offsets array

  at_column : (i : ℕ) → i < 12 → Stored stored buff i (column i r)
  at_column i h =
      let l = take-long 12 (row_words r) socket.twelve in
      subst (Stored stored buff i) (get_or-take 12 i (row_words r) h) (
        store_offsets-Stored offsets array buff (take 12 (row_words r)) i cut (omega (arith, h, l))
          (omega (arith, l, room)))

  abbrev once : List ℕ
  once = cut_field stored 1 buff

  abbrev twice : List ℕ
  twice = cut_field stored 2 once

  abbrev thrice : List ℕ
  thrice = cut_field stored 4 twice

  behind_two : (i : ℕ) → i < 12 → All NoColon (column i r) → Stored stored twice i (column i r)
  behind_two i h plain =
      cut-Stored stored 2 once i (column i r) plain
        (cut-Stored stored 1 buff i (column i r) plain (at_column i h))

  behind_three :
      (i : ℕ) → i < 12 → All NoColon (column i r) → field_at stored i thrice ≡ some (column i r)
  behind_three i h plain =
      field_at-Stored stored thrice i (column i r)
        (cut-Stored stored 4 twice i (column i r) plain (behind_two i h plain))

  read_members-filled :
      (info : NetProcInfo)
      → read_members stored buff info
        ≡ filled
            (column 0 r)
            (column 1 r)
            (column 3 r)
            (column 7 r)
            (column 9 r)
            (column 10 r)
            (column 11 r)
            (field_at stored 2 once)
            (field_at stored 4 twice)
            info
  unfolding read_members
  read_members-filled info =
      let e0 = field_at-Stored stored buff 0 (column 0 r) (at_column 0 (omega arith)) in
      let e1 = field_at-Stored stored buff 1 (column 1 r) (at_column 1 (omega arith)) in
      let e3 =
        field_at-Stored stored twice 3 (column 3 r)
          (behind_two 3 (omega arith) socket.state_plain) in
      let e7 = behind_three 7 (omega arith) socket.uid_plain in
      let e9 = behind_three 9 (omega arith) socket.inode_plain in
      let e10 = behind_three 10 (omega arith) socket.references_plain in
      let e11 = behind_three 11 (omega arith) socket.address_plain in
      rw (read_members, e0, e1, e3, e7, e9, e10, e11) refl

  pub read_members-Members :
      (info : NetProcInfo) → Members r source info (read_members stored buff info)
  read_members-Members info =
      let f =
        filled-Fills (column 0 r) (column 1 r) (column 3 r) (column 7 r) (column 9 r) (column 10 r)
          (column 11 r) (field_at stored 2 once) (field_at stored 4 twice) info in
      rw (read_members-filled info) (record {
        bucket = f.0;
        srcaddr =
            f.1
            ∙ ap (λ (w : List ℕ). inet_ntop (strtoul 16 (before_colon w))) socket.source_text
            ∙ read_address source socket.place;
        srcport =
            f.2
            ∙ ap (λ (w : List ℕ). hex_or info.srcport (behind_colon w)) socket.source_text
            ∙ read_port source info.srcport socket.place;
        connstate = f.3;
        uid = f.4;
        inode = f.5;
        skrefcnt = f.6;
        sockaddr = f.7;
        pid = f.8;
        procpath = f.9;
      })
