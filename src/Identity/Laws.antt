-- ===== src/Identity/Laws.antt =====
-- What a line of a file leaves in the caller's buffer.
use commlib.Base.{
  ℕ, suc, ◌+◌, ◌<◌, ◌≡◌, ◌∙◌, refl, sym, ap, true, false, some, List, [], ◌∷◌, ◌++◌, ◌==◌, arith,
  All, All-append, length, get_or, set, drop, append-cons_one, append_assoc, length-append,
  if◌then◌else◌,
}
use commlib.Libc.{pos, text_at, put_line}
use commlib.Libc.Lines.{NotNewline, fgets-append}
use commlib.Words.Scan.{NotZero, text_at-append}
use commlib.Identity.{cut_last, os_info, os_info_machine_id}

get_or-append : (s t : List ℕ) (c d : ℕ) → get_or (s ++ (c ∷ t)) (length s) d ≡ c
get_or-append [] t c d = refl
get_or-append (a ∷ s) t c d = get_or-append s t c d

set-append : (s t : List ℕ) (c d : ℕ) → set (s ++ (c ∷ t)) (length s) d ≡ s ++ (d ∷ t)
set-append [] t c d = refl
set-append (a ∷ s) t c d = ap (◌∷◌ a) (set-append s t c d)

length_text :
    (s t : List ℕ) (c : ℕ)
    → All NotZero s
    → NotZero c
    → length (text_at (s ++ (c ∷ 0 ∷ t))) ≡ suc (length s)
length_text s t c h k =
    let joined : s ++ (c ∷ 0 ∷ t) ≡ (s ++ c ∷ []) ++ (0 ∷ t) =
      sym (append_assoc s (c ∷ []) (0 ∷ t)) in
    rw (joined, text_at-append (s ++ c ∷ []) t (All-append NotZero s (c ∷ []) h (k, tt)))
      (omega (arith, length-append s (c ∷ [])))

cut_last-append :
    (key c : ℕ) (s t : List ℕ)
    → All NotZero s
    → NotZero c
    → cut_last key (s ++ (c ∷ 0 ∷ t))
      ≡ some (if c == key then s ++ (0 ∷ 0 ∷ t) else s ++ (c ∷ 0 ∷ t))
unfolding cut_last
cut_last-append key c s t h k =
    rw (cut_last, length_text s t c h k, get_or-append s (0 ∷ t) c 0, set-append s (0 ∷ t) c 0) refl

put_full_line :
    (line buff : List ℕ)
    → put_line (line ++ b'\n' ∷ []) buff
      ≡ line ++ (b'\n' ∷ 0 ∷ drop (length (line ++ b'\n' ∷ []) + 1) buff)
put_full_line line buff = append_assoc line (b'\n' ∷ []) _

-- From a file whose first line fits the buffer and is not empty, the calls for the identifiers of the
-- system and of its start leave the line's text in the buffer, return 0 and leave the stream open,
-- while the call for the machine's identifier leaves the newline behind the text and closes it.
pub os_info-machine_id :
    (c b : ℕ) (line more buff : List ℕ)
    → All NotNewline (c ∷ line)
    → All NotZero (c ∷ line)
    → length line + 2 < length (b ∷ buff)
    → (cut : List ℕ) × (kept : List ℕ) × (os_info (some ((c ∷ line) ++ (b'\n' ∷ more))) (b ∷ buff)
        ≡ some (record { buff = cut; ret = pos 0; left_open = true }))
      × (text_at cut ≡ c ∷ line)
      × (os_info_machine_id (some ((c ∷ line) ++ (b'\n' ∷ more))) (some (b ∷ buff))
          ≡ some (record { buff = kept; ret = pos 0; left_open = false }))
      × (text_at kept ≡ (c ∷ line) ++ b'\n' ∷ [])
unfolding os_info os_info_machine_id
os_info-machine_id c b line more buff one_line text fits =
    let whole : List ℕ = c ∷ line in
    let tail : List ℕ = drop (length (whole ++ b'\n' ∷ []) + 1) (b ∷ buff) in
    let read = fgets-append (length (b ∷ buff)) c line more one_line fits in
    (
      whole ++ (0 ∷ 0 ∷ tail),
      whole ++ (b'\n' ∷ 0 ∷ tail),
      rw (
        os_info,
        read,
        put_full_line whole (b ∷ buff),
        cut_last-append b'\n' b'\n' whole tail text refl,
      ),
      text_at-append whole (0 ∷ tail) text,
      rw (
        os_info_machine_id,
        read,
        put_full_line whole (b ∷ buff),
        cut_last-append 0 b'\n' whole tail text refl,
      ),
      ap text_at (sym (append-cons_one whole (0 ∷ tail) b'\n'))
          ∙ text_at-append (whole ++ b'\n' ∷ []) tail
              (All-append NotZero whole (b'\n' ∷ []) text (refl, tt)),
    )
