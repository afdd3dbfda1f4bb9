-- ===== src/Md5/Update.antt =====
-- md5_update over the whole of what a context was fed.
use commlib.Base.{
  ℕ, suc, ◌+◌, ◌-◌, ◌*◌, ◌/◌, ◌%◌, ◌^◌, ◌≤◌, ◌<◌, ◌≡◌, refl, ap, ap₂, sym, ◌∙◌, inl, inr, List, [],
  ◌++◌, arith, leb, Bool-cases, length, take, drop, length-drop, length-take, length-append,
  append-nil, bit_and_mask, take-length, ◌>>>◌,
}
use commlib.Md5.Rounds.{Words}
use commlib.Md5.{Md5Ctx, md5_init, md5_transform, absorb, add_count, index_of, md5_update, memcpy}
use commlib.Md5.Spec.{compress, initial}
use commlib.Md5.Blocks.{
  take-append, drop-append, take-append_past, drop-append_past, drop-drop, drop-length,
  compress-add, compress-append, absorb_lem,
}

-- A context that was fed the bytes `m`: the count of bits, by 2 ^ 64; the words after the complete
-- blocks; and the begun block at the start of the buffer.
pub record Absorbed (ctx : Md5Ctx) (m : List ℕ) : Type 0 where
  pub low : ctx.count0 < 2 ^ 32
  pub count : ctx.count0 + ctx.count1 * 2 ^ 32 ≡ 8 * length m % 2 ^ 64
  pub state : ctx.state ≡ compress (length m / 64) initial m
  pub room : length ctx.buffer ≡ 64
  pub begun : take (length m % 64) ctx.buffer ≡ drop (64 * (length m / 64)) m

pub index_lem : {ctx : Md5Ctx} {m : List ℕ} → Absorbed ctx m → index_of ctx ≡ length m % 64
index_lem {ctx} {m} a = bit_and_mask 6 (ctx.count0 >>> 3) ∙ omega (arith, a.low, a.count)

add_count_lem :
    (ctx : Md5Ctx) (l n : ℕ)
    → ctx.count0 < 2 ^ 32
    → ctx.count0 + ctx.count1 * 2 ^ 32 ≡ 8 * l % 2 ^ 64
    → n < 2 ^ 32
    → ((add_count ctx n).count0 < 2 ^ 32)
      × ((add_count ctx n).count0 + (add_count ctx n).count1 * 2 ^ 32 ≡ 8 * (l + n) % 2 ^ 64)
unfolding add_count
add_count_lem ctx l n low count small = ground arith

add_count-state : (ctx : Md5Ctx) (n : ℕ) → (add_count ctx n).state ≡ ctx.state
unfolding add_count
add_count-state ctx n = refl

module _ (buf : List ℕ) where
  take-memcpy :
      (n i : ℕ) (x : List ℕ)
      → i ≤ length buf
      → n ≡ i + length x
      → take n (memcpy buf i x) ≡ take i buf ++ x
  take-memcpy n i x fits e =
      take-append_past n (length x) (take i buf) (x ++ drop (i + length x) buf)
        (omega (arith, length-take i buf))
      ∙ ap (λ l. take i buf ++ l)
          (take-append (length x) x (drop (i + length x) buf) (omega arith) ∙ take-length x)

  length-memcpy :
      (i : ℕ) (x : List ℕ) → i + length x ≤ length buf → length (memcpy buf i x) ≡ length buf
  length-memcpy i x fits = omega (
    arith,
    length-append (take i buf) (x ++ drop (i + length x) buf),
    length-append x (drop (i + length x) buf),
    length-take i buf,
    length-drop (i + length x) buf,
  )

  memcpy_full : (i : ℕ) (x : List ℕ) → i + length x ≡ length buf → memcpy buf i x ≡ take i buf ++ x
  memcpy_full i x e =
      ap (λ l. take i buf ++ (x ++ l)) (drop-length (i + length x) buf (omega arith))
      ∙ ap (λ l. take i buf ++ l) (append-nil x)

module _ {ctx : Md5Ctx} {m : List ℕ} (a : Absorbed ctx m) (x : List ℕ) where
  abbrev begun_block : List ℕ
  begun_block = drop (64 * (length m / 64)) m

  length-begun : length begun_block ≡ length m % 64
  length-begun = omega (arith, length-drop (64 * (length m / 64)) m)

  -- The input behind the begun block.
  tail_append : drop (64 * (length m / 64)) (m ++ x) ≡ begun_block ++ x
  tail_append = drop-append (64 * (length m / 64)) m x (omega arith)

  short_input :
      length x < 64 - length m % 64
      → length x < 2 ^ 32
      → Absorbed
          (record (add_count ctx (length x)) { buffer = memcpy ctx.buffer (length m % 64) x })
          (m ++ x)
  short_input short small =
      let counted = add_count_lem ctx (length m) (length x) a.low a.count small in
      let same : length (m ++ x) / 64 ≡ length m / 64 = omega (arith, length-append m x) in
      record {
        low = counted.0;
        count = rw (length-append m x) counted.1;
        state =
            add_count-state ctx (length x)
            ∙ a.state
            ∙ sym (
                ap (λ b. compress b initial (m ++ x)) same
                ∙ compress-append (length m / 64) initial m x (omega arith));
        room = length-memcpy ctx.buffer (length m % 64) x (omega (arith, a.room)) ∙ a.room;
        begun =
            take-memcpy ctx.buffer (length (m ++ x) % 64) (length m % 64) x (omega (arith, a.room))
              (omega (arith, length-append m x))
            ∙ ap (λ l. l ++ x) a.begun
            ∙ sym (ap (λ b. drop (64 * b) (m ++ x)) same ∙ tail_append);
      }

  -- The part of the input that fills the begun block, and what is left.
  abbrev part : ℕ
  part = 64 - length m % 64

  abbrev filled : List ℕ
  filled = memcpy ctx.buffer (length m % 64) (take part x)

  abbrev later : ℕ
  later = length (drop part x) / 64

  filled_lem : part ≤ length x → filled ≡ take 64 (begun_block ++ x)
  filled_lem long =
      memcpy_full ctx.buffer (length m % 64) (take part x)
        (omega (arith, a.room, length-take part x))
      ∙ ap (λ l. l ++ take part x) a.begun
      ∙ sym (take-append_past 64 part begun_block x (omega (arith, length-begun)))

  rest_lem : drop 64 (begun_block ++ x) ≡ drop part x
  rest_lem = drop-append_past 64 part begun_block x (omega (arith, length-begun))

  blocks_add : part ≤ length x → length (m ++ x) / 64 ≡ length m / 64 + suc later
  blocks_add long = omega (arith, length-append m x, length-drop part x)

  compress_all :
      part ≤ length x
      → compress (length (m ++ x) / 64) initial (m ++ x)
        ≡ compress later (md5_transform ctx.state filled) (drop part x)
  unfolding compress
  compress_all long =
      compress-add (length m / 64) (suc later) (length (m ++ x) / 64) initial (m ++ x)
        (blocks_add long)
      ∙ ap₂ (λ st r. compress (suc later) st r)
          (compress-append (length m / 64) initial m x (omega arith) ∙ sym a.state) tail_append
      ∙ ap₂ (λ b r. compress later (md5_transform ctx.state b) r) (sym (filled_lem long)) rest_lem

  left_over :
      part ≤ length x
      → drop (64 * (length (m ++ x) / 64)) (m ++ x) ≡ drop (64 * later) (drop part x)
  left_over long =
      ap (λ b. drop (64 * b) (m ++ x)) (blocks_add long)
      ∙ sym (
          drop-drop (64 * (length m / 64)) (64 * suc later) (64 * (length m / 64 + suc later))
            (m ++ x) (omega arith))
      ∙ ap (drop (64 * suc later)) tail_append
      ∙ sym (drop-drop 64 (64 * later) (64 * suc later) (begun_block ++ x) (omega arith))
      ∙ ap (drop (64 * later)) rest_lem

  long_input :
      (done : Words × List ℕ)
      → done ≡ absorb (length (drop part x)) (md5_transform ctx.state filled) (drop part x)
      → part ≤ length x
      → length x < 2 ^ 32
      → Absorbed
          (record (add_count ctx (length x)) { state = done.0; buffer = memcpy filled 0 done.1 })
          (m ++ x)
  long_input done e long small =
      let counted = add_count_lem ctx (length m) (length x) a.low a.count small in
      let full =
        length-memcpy ctx.buffer (length m % 64) (take part x)
          (omega (arith, a.room, length-take part x))
        ∙ a.room in
      let d =
        e
        ∙ absorb_lem (length (drop part x)) later (md5_transform ctx.state filled) (drop part x)
            (omega arith) refl in
      let left : done.1 ≡ drop (64 * later) (drop part x) = ap (λ t. t.1) d in
      let size : length done.1 ≡ length (m ++ x) % 64 =
        ap length left
        ∙ omega (
          arith,
          length-drop (64 * later) (drop part x),
          length-drop part x,
          length-append m x,
          ap length left,
        ) in
      record {
        low = counted.0;
        count = rw (length-append m x) counted.1;
        state = ap (λ t. t.0) d ∙ sym (compress_all long);
        room = length-memcpy filled 0 done.1 (omega (arith, size, full)) ∙ full;
        begun =
            take-memcpy filled (length (m ++ x) % 64) 0 done.1 (omega arith) (omega (arith, size))
            ∙ left
            ∙ sym (left_over long);
      }

-- md5_update, on a context that was fed `m`, leaves one that was fed `m` and then the input: the
-- digest does not depend on how a message is cut into pieces. An input has fewer than
-- 2 ^ 32 - 64 bytes.
pub md5_update-Absorbed :
    (ctx : Md5Ctx) (m x : List ℕ)
    → Absorbed ctx m
    → length x + 64 < 2 ^ 32
    → Absorbed (md5_update ctx x) (m ++ x)
unfolding md5_update
md5_update-Absorbed ctx m x a small = elim (Bool-cases (leb (64 - length m % 64) (length x))) [
  | inl long ↦ rw (index_lem a, long) (long_input a x _ refl (ground arith) (omega arith))
  | inr short ↦ rw (index_lem a, short) (short_input a x (ground arith) (omega arith))
]

-- md5_init gives a context that was fed nothing.
pub md5_init-Absorbed : (buffer : List ℕ) → length buffer ≡ 64 → Absorbed (md5_init buffer) []
unfolding md5_init compress
md5_init-Absorbed buffer h = record {
  low = omega arith;
  count = omega arith;
  state = refl;
  room = h;
  begun = refl;
}
