-- ===== src/Proc/CpuTime/Line.antt =====
-- The line of a thread's schedstat file, as fgets and strtol read it.
use commlib.Base.{
  ℕ, suc, ◌+◌, ◌*◌, ◌<◌, ◌≡◌, ◌∙◌, refl, ap, true, false, some, List, [], ◌∷◌, ◌++◌, ◌==◌, arith,
  All, All-append, length, length-append, append_assoc, ltb,
}
use commlib.Libc.{strtol, digits_from, digit, is_space, without_0x, signed_digits, fgets}
use commlib.Libc.Lines.{NotNewline, fgets_line}

-- What a thread's file says: the digits of its nanoseconds, a space, and more numbers.
pub record Schedule : Type 0 where
  pub first : ℕ
  pub digits : List ℕ
  pub more : List ℕ

abbrev pub digit_texts : List ℕ → List ℕ
digit_texts [] = []
digit_texts (d ∷ ds) = (b'0' + d) ∷ digit_texts ds

abbrev pub schedule_text : Schedule → List ℕ
schedule_text t = digit_texts (t.first ∷ t.digits) ++ (b' ' ∷ (t.more ++ (b'\n' ∷ [])))

abbrev pub value_from : ℕ → List ℕ → ℕ
value_from n [] = n
value_from n (d ∷ ds) = value_from (n * 10 + d) ds

abbrev pub IsDigit : ℕ → Type 0
IsDigit d = d < 10

abbrev pub IsSchedule : Schedule → Type 0
IsSchedule t =
    All IsDigit (t.first ∷ t.digits)
    × All NotNewline t.more
    × (length t.digits + length t.more < 250)

digits_from-value_from :
    (n : ℕ) (ds rest : List ℕ)
    → All IsDigit ds
    → digits_from 10 n (digit_texts ds ++ (b' ' ∷ rest)) ≡ value_from n ds
unfolding digits_from
digits_from-value_from n [] rest h = refl
digits_from-value_from n (d ∷ ds) rest h =
    let less : ltb (digit (b'0' + d)) 10 ≡ true = ground (arith, h.0) in
    let at_d : digit (b'0' + d) ≡ d = ground (arith, h.0) in
    rw (digits_from, less, at_d) (digits_from-value_from (n * 10 + d) ds rest h.1)

without_0x-decimal : (s : List ℕ) → without_0x 10 s ≡ s
unfolding without_0x
without_0x-decimal [] = refl
without_0x-decimal (z ∷ []) = refl
without_0x-decimal (z ∷ x ∷ []) = refl
without_0x-decimal (z ∷ x ∷ d ∷ s) = refl

pub strtol-schedule_text :
    (t : Schedule)
    → IsSchedule t
    → strtol 10 (schedule_text t) ≡ (false, value_from 0 (t.first ∷ t.digits))
unfolding strtol signed_digits
strtol-schedule_text t h =
    let small : t.first < 10 = h.0.0 in
    let no_space : is_space (b'0' + t.first) ≡ false = ground (arith, small) in
    let no_minus : ((b'0' + t.first) == b'-') ≡ false = ground (arith, small) in
    let no_plus : ((b'0' + t.first) == b'+') ≡ false = ground (arith, small) in
    rw (strtol, no_space, signed_digits, no_minus, no_plus, without_0x-decimal (schedule_text t))
      (ap (λ (n : ℕ). (false, n))
        (digits_from-value_from 0 (t.first ∷ t.digits) (t.more ++ (b'\n' ∷ [])) h.0))

digit_texts-NotNewline : (ds : List ℕ) → All IsDigit ds → All NotNewline (digit_texts ds)
digit_texts-NotNewline [] h = tt
digit_texts-NotNewline (d ∷ ds) h = (ground (arith, h.0), digit_texts-NotNewline ds h.1)

length-digit_texts : (ds : List ℕ) → length (digit_texts ds) ≡ length ds
length-digit_texts [] = refl
length-digit_texts (d ∷ ds) = ap suc (length-digit_texts ds)

pub fgets-schedule_text :
    (t : Schedule) → IsSchedule t → fgets 256 (schedule_text t) ≡ some (schedule_text t, [])
fgets-schedule_text t h =
    let line = digit_texts (t.first ∷ t.digits) ++ (b' ' ∷ t.more) in
    let joined : line ++ (b'\n' ∷ []) ≡ schedule_text t =
      append_assoc (digit_texts (t.first ∷ t.digits)) (b' ' ∷ t.more) (b'\n' ∷ []) in
    let size : length line ≡ suc (length t.digits) + suc (length t.more) =
      length-append (digit_texts (t.first ∷ t.digits)) (b' ' ∷ t.more)
      ∙ ap (λ (n : ℕ). suc n + suc (length t.more)) (length-digit_texts t.digits) in
    let one_line =
      All-append NotNewline (digit_texts (t.first ∷ t.digits)) (b' ' ∷ t.more)
        (digit_texts-NotNewline (t.first ∷ t.digits) h.0) (refl, h.1) in
    let read = fgets_line 256 line [] (omega (arith, size)) one_line (omega (arith, size, h.2)) in
    rw joined at read
