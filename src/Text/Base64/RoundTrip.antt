-- ===== src/Text/Base64/RoundTrip.antt =====
-- What the decoder makes of an encoded string.
use commlib.Base.{
  ℕ, ◌+◌, ◌*◌, ◌/◌, ◌%◌, ◌<◌, ◌≤◌, ◌≡◌, ◌≢◌, ◌⊎◌, inl, inr, refl, ap, ◌∙◌, false, not, some, List,
  [], ◌∷◌, ◌++◌, arith, ◌==◌, ◌↔◌, All, length, get_elem?,
}
use commlib.Text.Base64.{
  table, pad, encode, has_pad, has_two_pads, decode_group, decode_loop, Decoded, decoded_size,
  decode, c_string,
}
use commlib.Text.Base64.Sextets.{group, encode_group-Group, decode_group_lem}

-- A character of the 7-bit set, and no terminator.
abbrev pub IsAscii : ℕ → Type 0
IsAscii c = (0 < c) × (c < 128)

record RoundTrip (beyond : ℕ) (s : List ℕ) : Type 0 where
  code : List ℕ
  stored : List ℕ
  encodes : encode beyond s ≡ some code
  decodes : decode_loop code ≡ some stored
  text : c_string stored ≡ s
  one_pad : has_pad code ≡ not (length s % 3 == 0)
  two_pads : has_two_pads code ≡ (length s % 3 == 1)
  code_length : length code ≡ (length s + 2) / 3 * 4
  stored_length : length stored ≡ (length s + 2) / 3 * 3

table-pad : get_elem? table pad ≡ some 0
unfolding table
table-pad = refl

ascii_ne_zero : (c : ℕ) → IsAscii c → (c == 0) ≡ false
ascii_ne_zero c h = ground arith

-- The size of the allocation, by the remainder of the encoded string's length.
size_cases :
    (n : ℕ) (code : List ℕ)
    → length code ≡ (n + 2) / 3 * 4
    → has_pad code ≡ not (n % 3 == 0)
    → has_two_pads code ≡ (n % 3 == 1)
    → ((n % 3 ≡ 1) × ((n + 2) / 3 * 3 ≡ decoded_size code + 1))
      ⊎ ((n % 3 ≢ 1) × ((n + 2) / 3 * 3 ≤ decoded_size code))
unfolding decoded_size
size_cases n code l p q = ground arith

module _ (beyond : ℕ) (hb : beyond < 128) where
  one_left : (a : ℕ) → IsAscii a → RoundTrip beyond (a ∷ [])
  one_left a h =
      let g = group a 0 beyond h.1 (omega arith) hb in
      record {
        code = g.first.char ∷ g.second.char ∷ pad ∷ pad ∷ [];
        stored = decode_group (a / 4) (a % 4 * 16 + 0 / 16) 0 0 ++ [];
        encodes = unfold encode in rw (encode_group-Group a 0 beyond h.1 (omega arith) hb);
        decodes = unfold decode_loop in rw (g.first.decodes, g.second.decodes, table-pad);
        text =
            rw (decode_group_lem a 0 0 h.1 (omega arith) (omega arith))
              (unfold c_string in rw (ascii_ne_zero a h));
        one_pad = unfold has_pad in rw (g.first.not_pad, g.second.not_pad);
        two_pads = unfold has_two_pads in rw (g.first.not_pad, g.second.not_pad);
        code_length = omega arith;
        stored_length = unfold decode_group in omega arith;
      }

  two_left : (a b : ℕ) → IsAscii a → IsAscii b → RoundTrip beyond (a ∷ b ∷ [])
  two_left a b h k =
      let g = group a b 0 h.1 k.1 (omega arith) in
      record {
        code = g.first.char ∷ g.second.char ∷ g.third.char ∷ pad ∷ [];
        stored = decode_group (a / 4) (a % 4 * 16 + b / 16) (b % 16 * 4 + 0 / 64) 0 ++ [];
        encodes = unfold encode in rw (encode_group-Group a b 0 h.1 k.1 (omega arith));
        decodes =
            unfold decode_loop in
            rw (g.first.decodes, g.second.decodes, g.third.decodes, table-pad);
        text =
            rw (decode_group_lem a b 0 h.1 k.1 (omega arith))
              (unfold c_string in rw (ascii_ne_zero a h, ascii_ne_zero b k));
        one_pad = unfold has_pad in rw (g.first.not_pad, g.second.not_pad, g.third.not_pad);
        two_pads = unfold has_two_pads in rw (g.first.not_pad, g.second.not_pad, g.third.not_pad);
        code_length = omega arith;
        stored_length = unfold decode_group in omega arith;
      }

  -- No digit is the padding, so the pads of a code are those of its last group.
  has_two_pads-skip :
      (w x y z : ℕ) (r : List ℕ)
      → (w == pad) ≡ false
      → (x == pad) ≡ false
      → (y == pad) ≡ false
      → (z == pad) ≡ false
      → has_two_pads (w ∷ x ∷ y ∷ z ∷ r) ≡ has_two_pads r
  unfolding has_two_pads
  has_two_pads-skip w x y z [] p q u v = rw (p, q, u)
  has_two_pads-skip w x y z (c ∷ r) p q u v = rw (p, q, u, v)

  three_more :
      (a b c : ℕ) (s : List ℕ)
      → IsAscii a
      → IsAscii b
      → IsAscii c
      → RoundTrip beyond s
      → RoundTrip beyond (a ∷ b ∷ c ∷ s)
  three_more a b c s h k l rest =
      let g = group a b c h.1 k.1 l.1 in
      record {
        code = g.first.char ∷ g.second.char ∷ g.third.char ∷ g.fourth.char ∷ rest.code;
        stored =
            decode_group (a / 4) (a % 4 * 16 + b / 16) (b % 16 * 4 + c / 64) (c % 64)
            ++ rest.stored;
        encodes = unfold encode in rw (encode_group-Group a b c h.1 k.1 l.1, rest.encodes);
        decodes =
            unfold decode_loop in
            rw (g.first.decodes, g.second.decodes, g.third.decodes, g.fourth.decodes, rest.decodes);
        text = rw (decode_group_lem a b c h.1 k.1 l.1) (
            unfold c_string in
            rw (ascii_ne_zero a h, ascii_ne_zero b k, ascii_ne_zero c l, rest.text));
        one_pad =
            unfold has_pad in
            rw (g.first.not_pad, g.second.not_pad, g.third.not_pad, g.fourth.not_pad, rest.one_pad)
              (ap (λ n. not (n == 0)) (omega arith));
        two_pads =
            has_two_pads-skip g.first.char g.second.char g.third.char g.fourth.char rest.code
              g.first.not_pad g.second.not_pad g.third.not_pad g.fourth.not_pad
            ∙ rest.two_pads
            ∙ ap (λ n. n == 1) (omega arith);
        code_length = omega (arith, rest.code_length);
        stored_length = unfold decode_group in omega (arith, rest.stored_length);
      }

  round_trip : (s : List ℕ) → All IsAscii s → RoundTrip beyond s
  round_trip [] h = record {
    code = [];
    stored = [];
    encodes = unfold encode in refl;
    decodes = unfold decode_loop in refl;
    text = unfold c_string in refl;
    one_pad = unfold has_pad in refl;
    two_pads = unfold has_two_pads in refl;
    code_length = omega arith;
    stored_length = omega arith;
  }
  round_trip (a ∷ []) h = one_left a h.0
  round_trip (a ∷ b ∷ []) h = two_left a b h.0 h.1.0
  round_trip (a ∷ b ∷ c ∷ s) h = three_more a b c s h.0 h.1.0 h.1.1.0 (round_trip s h.1.1.1)

  -- A string of 7-bit characters is encoded, the code is four characters for each three of the
  -- string, begun ones included, and is decoded, with no index outside either table, and the
  -- string in the decoder's memory is the one that was encoded. The byte behind the terminator,
  -- which the encoder may read, is taken to be below 128.
  pub decode-encode :
      (s : List ℕ)
      → All IsAscii s
      → (code : List ℕ) × (d : Decoded) × (encode beyond s ≡ some code)
        × (length code ≡ (length s + 2) / 3 * 4)
        × (decode code ≡ some d)
        × (c_string d.stored ≡ s)
  unfolding decode
  decode-encode s h =
      let r = round_trip s h in
      (
        r.code,
        record { size = decoded_size r.code; stored = r.stored },
        r.encodes,
        r.code_length,
        rw r.decodes,
        r.text,
      )

  overflow_cases :
      (s : List ℕ) (r : RoundTrip beyond s)
      → ((length s % 3 ≡ 1) ↔ (length r.stored ≡ decoded_size r.code + 1))
        × ((length s % 3 ≢ 1) ↔ (length r.stored ≤ decoded_size r.code))
  overflow_cases s r = elim (size_cases (length s) r.code r.code_length r.one_pad r.two_pads) [
    | inl (rem, size) ↦ (
      (λ _. omega (arith, r.stored_length), λ _. rem),
      (λ other. absurd (other rem), λ fits. absurd (omega (arith, r.stored_length))),
    )
    | inr (rem, size) ↦ (
      (λ one. absurd (rem one), λ over. absurd (omega (arith, r.stored_length))),
      (λ _. omega (arith, r.stored_length), λ _. rem),
    )
  ]

  -- For the code of a string of 7-bit characters the decoder stores past the end of its
  -- allocation exactly when the string's length leaves the remainder 1 by 3, and then by one byte.
  pub decode_overflow_iff :
      (s : List ℕ)
      → All IsAscii s
      → (code : List ℕ) × (d : Decoded) × (encode beyond s ≡ some code)
        × (decode code ≡ some d)
        × ((length s % 3 ≡ 1) ↔ (length d.stored ≡ d.size + 1))
        × ((length s % 3 ≢ 1) ↔ (length d.stored ≤ d.size))
  unfolding decode
  decode_overflow_iff s h =
      let r = round_trip s h in
      let (over, within) = overflow_cases s r in
      (
        r.code,
        record { size = decoded_size r.code; stored = r.stored },
        r.encodes,
        rw r.decodes,
        over,
        within,
      )
