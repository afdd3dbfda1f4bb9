-- ===== src/Net/Connections/Laws.antt =====
-- The addresses and ports that a line of /proc/net/tcp leaves in the record.
use commlib.Base.{
  ℕ, ◌%◌, ◌^◌, ◌<◌, ◌≡◌, ◌∙◌, refl, ap, Option, none, some, List, ◌∷◌, ◌++◌, arith, ap₂,
}
use commlib.Libc.{inet_ntop, strtoul, strchr}
use commlib.Net.Holder.{NetProcInfo}
use commlib.Net.Connections.{
  Array, field_at, cut_field, before_colon, behind_colon, hex_or, set_bucket, set_source,
  set_target, set_state, set_bytes, set_uid, set_inode, set_skrefcnt, set_sockaddr, read_members,
}
use commlib.Net.Connections.Hex.{
  address_text, port_text, strtoul-address, strtoul-port, strchr-address, dotted, inet_ntop-address,
}

-- A place on the network: the four bytes of an address and a port.
pub record Place : Type 0 where
  pub a : ℕ
  pub b : ℕ
  pub c : ℕ
  pub d : ℕ
  pub port : ℕ

pub record IsPlace (p : Place) : Type 0 where
  pub a : p.a < 256
  pub b : p.b < 256
  pub c : p.c < 256
  pub d : p.d < 256
  pub port : p.port < 65536

-- The field for a place, as the kernel writes it.
abbrev pub place_text : Place → List ℕ
place_text p = address_text p.a p.b p.c p.d ++ (b':' ∷ port_text p.port)

abbrev pub place_dotted : Place → List ℕ
place_dotted p = dotted p.a p.b p.c p.d

abbrev pub addresses : NetProcInfo → (List ℕ × ℕ) × (List ℕ × ℕ)
addresses info = ((info.srcaddr, info.srcport), (info.dstaddr, info.dstport))

colon_split :
    (p : Place)
    → IsPlace p
    → strchr b':' (place_text p) ≡ some (address_text p.a p.b p.c p.d, port_text p.port)
colon_split p h = strchr-address p.a p.b p.c p.d (port_text p.port) h.a h.b h.c h.d

pub read_address :
    (p : Place) → IsPlace p → inet_ntop (strtoul 16 (before_colon (place_text p))) ≡ place_dotted p
read_address p h =
    let before : before_colon (place_text p) ≡ address_text p.a p.b p.c p.d =
      rw (before_colon, colon_split p h) in
    ap (λ (text : List ℕ). inet_ntop (strtoul 16 text)) before
    ∙ ap inet_ntop (strtoul-address p.a p.b p.c p.d h.a h.b h.c h.d)
    ∙ inet_ntop-address p.a p.b p.c p.d h.a h.b h.c h.d

small_port : (n : ℕ) → n < 65536 → n % 2 ^ 32 ≡ n
small_port n h = omega arith

pub read_port :
    (p : Place) (old : ℕ) → IsPlace p → hex_or old (behind_colon (place_text p)) ≡ p.port
read_port p old h =
    let behind : behind_colon (place_text p) ≡ some (port_text p.port) =
      rw (behind_colon, colon_split p h) in
    ap (hex_or old) behind
    ∙ ap (λ (n : ℕ). n % 2 ^ 32) (strtoul-port p.port h.port)
    ∙ small_port p.port h.port

abbrev Addresses : Type 0
Addresses = (List ℕ × ℕ) × (List ℕ × ℕ)

both_places :
    (source target : Place) (first second : Option (List ℕ)) (info : NetProcInfo)
    → IsPlace source
    → IsPlace target
    → first ≡ some (place_text source)
    → second ≡ some (place_text target)
    → addresses (set_target second (set_source first info))
      ≡ ((place_dotted source, source.port), (place_dotted target, target.port))
unfolding set_source set_target
both_places source target first second info hs ht es et =
    rw (es, et)
      (ap₂ (λ (x y : List ℕ × ℕ). (x, y))
        (ap₂ (λ (text : List ℕ) (n : ℕ). (text, n)) (read_address source hs)
          (read_port source info.srcport hs))
        (ap₂ (λ (text : List ℕ) (n : ℕ). (text, n)) (read_address target ht)
          (read_port target info.dstport ht)))

state_keeps :
    (text : Option (List ℕ)) (info : NetProcInfo) → addresses (set_state text info) ≡ addresses info
unfolding set_state
state_keeps none info = refl
state_keeps (some text) info = refl

bytes_keeps :
    (text : Option (List ℕ)) (info : NetProcInfo) → addresses (set_bytes text info) ≡ addresses info
unfolding set_bytes
bytes_keeps none info = refl
bytes_keeps (some text) info = refl

uid_keeps :
    (text : Option (List ℕ)) (info : NetProcInfo) → addresses (set_uid text info) ≡ addresses info
unfolding set_uid
uid_keeps none info = refl
uid_keeps (some text) info = refl

inode_keeps :
    (text : Option (List ℕ)) (info : NetProcInfo) → addresses (set_inode text info) ≡ addresses info
unfolding set_inode
inode_keeps none info = refl
inode_keeps (some text) info = refl

skrefcnt_keeps :
    (text : Option (List ℕ)) (info : NetProcInfo)
    → addresses (set_skrefcnt text info) ≡ addresses info
unfolding set_skrefcnt
skrefcnt_keeps none info = refl
skrefcnt_keeps (some text) info = refl

sockaddr_keeps :
    (text : Option (List ℕ)) (info : NetProcInfo)
    → addresses (set_sockaddr text info) ≡ addresses info
unfolding set_sockaddr
sockaddr_keeps none info = refl
sockaddr_keeps (some text) info = refl

others_keep :
    (state bytes uid inode skrefcnt sockaddr : Option (List ℕ)) (info : NetProcInfo)
    → addresses (
        set_sockaddr sockaddr (
          set_skrefcnt skrefcnt
            (set_inode inode (set_uid uid (set_bytes bytes (set_state state info))))))
      ≡ addresses info
others_keep state bytes uid inode skrefcnt sockaddr info =
    rw
      (
        sockaddr_keeps sockaddr _,
        skrefcnt_keeps skrefcnt _,
        inode_keeps inode _,
        uid_keeps uid _,
        bytes_keeps bytes _,
      )
      (state_keeps state info)

-- A line whose second and third field are places in the kernel's form leaves the two addresses, in
-- dotted form, and the two ports in the record, whatever the other fields are and whatever the
-- record held before. The third field is read after the first cut in the buffer.
pub read_members-place_dotted :
    (array : Array) (buff : List ℕ) (info : NetProcInfo) (source target : Place)
    → IsPlace source
    → IsPlace target
    → field_at array 1 buff ≡ some (place_text source)
    → field_at array 2 (cut_field array 1 buff) ≡ some (place_text target)
    → addresses (read_members array buff info)
      ≡ ((place_dotted source, source.port), (place_dotted target, target.port))
unfolding read_members
read_members-place_dotted array buff info source target hs ht es et =
    let first = cut_field array 1 buff in
    let second = cut_field array 2 first in
    let third = cut_field array 4 second in
    others_keep (field_at array 3 second) (field_at array 4 second) (field_at array 7 third)
      (field_at array 9 third) (field_at array 10 third) (field_at array 11 third)
      (set_target (field_at array 2 first)
        (set_source (field_at array 1 buff) (set_bucket (field_at array 0 buff) info)))
    ∙ both_places source target (field_at array 1 buff) (field_at array 2 first)
        (set_bucket (field_at array 0 buff) info) hs ht es et
