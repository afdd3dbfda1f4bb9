-- ===== src/Net/Connections/Examples.antt =====
-- A line of /proc/net/tcp.
use commlib.Base.{
  ℕ, suc, Bool, true, false, ◌≡◌, refl, none, some, List, [], ◌∷◌, ◌++◌, arith, replicate, All,
  ◌==◌,
}
use commlib.Libc.{pos, text_at, strchr}
use commlib.Net.Holder.{NetProcInfo, Links}
use commlib.Words.{is_blank}
use commlib.Words.Scan.{Word, IsWord, Inner}
use commlib.Net.Connections.Rows.{Row, IsRow, rows_text}
use commlib.Net.Connections.Table.{working, IsSocketRow, Reports, com_foreach_net_info-Reports}
use commlib.Net.Connections.{
  com_foreach_net_info, no_value, zero_info, Array, cut_field, field_at, read_members,
}
use commlib.Net.Connections.Laws.{
  Place, place_text, place_dotted, addresses, read_members-place_dotted,
}

-- 127.0.0.1:80 and 10.0.0.7:51234.
abbrev here : Place
here = record { a = 127; b = 0; c = 0; d = 1; port = 80 }

abbrev there : Place
there = record { a = 10; b = 0; c = 0; d = 7; port = 51234 }

-- The buffer with the two fields, as general_get_field has cut it, and a state behind them.
abbrev cut_line : List ℕ
cut_line =
    (b'0' ∷ 0 ∷ []) ++ (place_text here ++ (0 ∷ (place_text there ++ 0 ∷ b'0' ∷ b'1' ∷ 0 ∷ [])))

abbrev offsets : Array
offsets = some 0 ∷ some 2 ∷ some 16 ∷ some 30 ∷ replicate 8 none

abbrev empty_info : NetProcInfo
empty_info = record {
  bucket = 0;
  srcaddr = [];
  srcport = 0;
  dstaddr = [];
  dstport = 0;
  connstate = pos 0;
  sendbytes = 0;
  recvbytes = 0;
  uid = 0;
  inode = 0;
  skrefcnt = 0;
  sockaddr = 0;
  pid = pos 0;
  procpath = replicate 8 0;
}

first_field : field_at offsets 1 cut_line ≡ some (place_text here)
unfolding text_at
first_field = refl

second_field : field_at offsets 2 (cut_field offsets 1 cut_line) ≡ some (place_text there)
unfolding text_at strchr cut_field
second_field = refl

read_members-place_dotted_example :
    addresses (read_members offsets cut_line empty_info)
    ≡ ((place_dotted here, 80), (place_dotted there, 51234))
read_members-place_dotted_example =
    read_members-place_dotted offsets cut_line empty_info here there
      (record {
        a = omega arith;
        b = omega arith;
        c = omega arith;
        d = omega arith;
        port = omega arith;
      })
      (record {
        a = omega arith;
        b = omega arith;
        c = omega arith;
        d = omega arith;
        port = omega arith;
      })
      first_field second_field

abbrev byte_word : ℕ → List ℕ → Word
byte_word first rest = record { lead = []; first = first; rest = rest }

-- The twelve words of a line for the socket of 127.0.0.1:80, with the inode 9, and its newline.
abbrev socket_words : List Word
socket_words =
    byte_word b'0'
      (b'1' ∷ b'0' ∷ b'0' ∷ b'0' ∷ b'0' ∷ b'7' ∷ b'F' ∷ b':' ∷ b'0' ∷ b'0' ∷ b'5' ∷ b'0' ∷ [])
    ∷ byte_word b'0' (b':' ∷ b'0' ∷ [])
    ∷ byte_word b'A' []
    ∷ byte_word b'0' (b':' ∷ b'0' ∷ [])
    ∷ byte_word b'0' []
    ∷ byte_word b'0' []
    ∷ byte_word b'5' []
    ∷ byte_word b'0' []
    ∷ byte_word b'9' []
    ∷ byte_word b'1' []
    ∷ byte_word b'f' (b'\n' ∷ [])
    ∷ []

abbrev socket_row : Row
socket_row = record {
  lead = 1;
  first = b'0';
  rest = b':' ∷ [];
  words = socket_words;
  body =
      b' ' ∷ b' ' ∷ b'0' ∷ b':' ∷ b' ' ∷ b'0' ∷ b'1' ∷ b'0' ∷ b'0' ∷ b'0' ∷ b'0' ∷ b'7' ∷ b'F'
      ∷ b':' ∷ b'0' ∷ b'0' ∷ b'5' ∷ b'0' ∷ b' ' ∷ b'0' ∷ b':' ∷ b'0' ∷ b' ' ∷ b'A' ∷ b' ' ∷ b'0'
      ∷ b':' ∷ b'0' ∷ b' ' ∷ b'0' ∷ b' ' ∷ b'0' ∷ b' ' ∷ b'5' ∷ b' ' ∷ b'0' ∷ b' ' ∷ b'9' ∷ b' '
      ∷ b'1' ∷ b' ' ∷ b'f' ∷ [];
}

byte_word-IsWord :
    (first : ℕ) (rest : List ℕ)
    → is_blank first ≡ false
    → (first == 0) ≡ false
    → All (Inner b' ') rest
    → IsWord b' ' (byte_word first rest)
byte_word-IsWord first rest h k inside = record {
  blanks = tt;
  starts = h;
  first_byte = k;
  inner = inside;
}

colon_zero-Inner : All (Inner b' ') (b':' ∷ b'0' ∷ [])
colon_zero-Inner = ground arith

socket_row-IsRow : IsRow socket_row
socket_row-IsRow = record {
  line = record {
    some_key = refl;
    no_space = refl;
    first_word = ground arith;
    words = (
      byte_word-IsWord b'0' _ refl refl (ground arith),
      (
        byte_word-IsWord b'0' _ refl refl colon_zero-Inner,
        (
          byte_word-IsWord b'A' [] refl refl tt,
          (
            byte_word-IsWord b'0' _ refl refl colon_zero-Inner,
            (
              byte_word-IsWord b'0' [] refl refl tt,
              (
                byte_word-IsWord b'0' [] refl refl tt,
                (
                  byte_word-IsWord b'5' [] refl refl tt,
                  (
                    byte_word-IsWord b'0' [] refl refl tt,
                    (
                      byte_word-IsWord b'9' [] refl refl tt,
                      (
                        byte_word-IsWord b'1' [] refl refl tt,
                        (byte_word-IsWord b'f' (b'\n' ∷ []) refl refl (ground arith), tt),
                      ),
                    ),
                  ),
                ),
              ),
            ),
          ),
        ),
      ),
    );
  };
  text = refl;
  one_line = ground arith;
  not_empty = omega arith;
  room = omega arith;
}

socket_row-IsSocketRow : IsSocketRow socket_row
socket_row-IsSocketRow = (
  socket_row-IsRow,
  (
    here,
    record {
      twelve = omega arith;
      place = record {
        a = omega arith;
        b = omega arith;
        c = omega arith;
        d = omega arith;
        port = omega arith;
      };
      source_text = refl;
      state_plain = (refl, tt);
      uid_plain = (refl, tt);
      inode_plain = (refl, tt);
      references_plain = (refl, tt);
      address_plain = (refl, (refl, tt));
    },
  ),
)

-- No process shows its files.
abbrev closed_links : Links
closed_links = record { names = λ path. none; link = λ path. none; malloc_ok = true }

abbrev count : NetProcInfo → ℕ → (NetProcInfo × ℕ) × Bool
count info n = ((info, suc n), false)

com_foreach_net_info-Reports_example :
    (seen : ℕ) × (com_foreach_net_info
        (working closed_links [] 0
          ((b's' ∷ b'l' ∷ []) ++ (b'\n' ∷ rows_text (socket_row ∷ socket_row ∷ [])))
          none)
        count
        0
        0
      ≡ no_value seen)
    × Reports closed_links [] count zero_info 0 (socket_row ∷ socket_row ∷ []) seen
com_foreach_net_info-Reports_example =
    com_foreach_net_info-Reports closed_links [] 0 (b's' ∷ b'l' ∷ []) (socket_row ∷ socket_row ∷ [])
      none count 0 tt refl (λ path. tt) (omega arith) (omega arith) (refl, (refl, tt)) (omega arith)
      (socket_row-IsSocketRow, (socket_row-IsSocketRow, tt))
