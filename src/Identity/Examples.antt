-- ===== src/Identity/Examples.antt =====
-- Buffers for identifiers.
use commlib.Base.{ℕ, ◌≡◌, refl, true, false, some, none, List, [], ◌∷◌, ◌++◌, arith, replicate}
use commlib.Libc.{pos, negsuc, text_at, fgets}
use commlib.Identity.{
  UserEntry, os_info, os_info_uuid, os_info_bootid, os_info_machine_id, os_current_user, cut_last,
}
use commlib.Identity.Laws.{os_info-machine_id}

-- "a-1" with a newline, and a buffer of eight bytes.
abbrev identifier : List ℕ
identifier = b'a' ∷ b'-' ∷ b'1' ∷ []

os_info-machine_id_example :
    (cut : List ℕ) × (kept : List ℕ) × (os_info (some (identifier ++ b'\n' ∷ [])) (replicate 8 7)
      ≡ some (record { buff = cut; ret = pos 0; left_open = true }))
    × (text_at cut ≡ identifier)
    × (os_info_machine_id (some (identifier ++ b'\n' ∷ [])) (some (replicate 8 7))
        ≡ some (record { buff = kept; ret = pos 0; left_open = false }))
    × (text_at kept ≡ identifier ++ b'\n' ∷ [])
os_info-machine_id_example =
    os_info-machine_id b'a' 7 (b'-' ∷ b'1' ∷ []) [] (replicate 7 7) (refl, (refl, (refl, tt)))
      (refl, (refl, (refl, tt))) (omega arith)

-- A buffer of one byte has room for no text, and the byte in front of it is read.
one_byte : os_info_uuid (some identifier) (some (7 ∷ [])) ≡ none
unfolding os_info_uuid os_info cut_last text_at fgets
one_byte = refl

closed_file :
    os_info_bootid none (some (7 ∷ []))
    ≡ some (record { buff = 7 ∷ []; ret = negsuc 0; left_open = false })
unfolding os_info_bootid os_info
closed_file = refl

-- The name is cut to the buffer.
abbrev named : UserEntry
named = record { ret = pos 0; pw_name = some (b'r' ∷ b'o' ∷ b'o' ∷ b't' ∷ []) }

cut_name :
    os_current_user true named (some (replicate 3 7))
    ≡ record { buff = b'r' ∷ b'o' ∷ 0 ∷ []; ret = pos 0; left_open = false }
unfolding os_current_user
cut_name = refl
