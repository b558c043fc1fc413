-- ===== src/Util/Words.antt =====
-- What the multi-byte reads of util.c deliver.
use ext2p.Prelude.{
  ℕ, ◌+◌, ◌*◌, ◌%◌, ◌^◌, ◌≤◌, ◌<◌, ◌≡◌, ◌∙◌, bit_or, Bool, true, false, arith, if◌then◌else◌,
}
use ext2p.Prelude.Bits.{bit_or-shift}
use ext2p.Machine.{Mem, State, ok, set_pos}
use ext2p.Util.{shf, join32, join64, util_read16, util_read32, util_read64}

-- the byte at an offset, as `uint8_t`
abbrev pub u8_at : Mem → ℕ → ℕ
u8_at m p = m.byte p % 256

-- little-endian words
abbrev pub le16 : Mem → ℕ → ℕ
le16 m p = u8_at m p + 2 ^ 8 * u8_at m (p + 1)

abbrev pub le32 : Mem → ℕ → ℕ
le32 m p = le16 m p + 2 ^ 16 * (u8_at m (p + 2) + 2 ^ 8 * u8_at m (p + 3))

join16_lem : (a b : ℕ) → b < 256 → bit_or (a * 2 ^ 8) b ≡ a * 2 ^ 8 + b
join16_lem a b h = bit_or-shift 8 a b h

pub join32_lem :
    (a b c d : ℕ) → join32 a b c d ≡ a % 256 * 2 ^ 24 + b % 256 * 2 ^ 16 + c % 256 * 2 ^ 8 + d % 256
join32_lem a b c d =
    let ab : bit_or (shf a 24) (shf b 16) ≡ (a % 256 * 2 ^ 8 + b % 256) * 2 ^ 16 =
      bit_or-shift 24 (a % 256) (shf b 16) (omega arith) ∙ omega arith in
    let abc : bit_or ((a % 256 * 2 ^ 8 + b % 256) * 2 ^ 16) (shf c 8)
        ≡ (a % 256 * 2 ^ 16 + b % 256 * 2 ^ 8 + c % 256) * 2 ^ 8 =
      bit_or-shift 16 (a % 256 * 2 ^ 8 + b % 256) (shf c 8) (omega arith) ∙ omega arith in
    rw (ab, abc)
      (bit_or-shift 8 (a % 256 * 2 ^ 16 + b % 256 * 2 ^ 8 + c % 256) (d % 256) (omega arith)
        ∙ omega arith)

abbrev pub be16 : Mem → ℕ → ℕ
be16 m p = u8_at m (p + 1) + 2 ^ 8 * u8_at m p

abbrev pub be32 : Mem → ℕ → ℕ
be32 m p = be16 m (p + 2) + 2 ^ 16 * be16 m p

abbrev pub le64 : Mem → ℕ → ℕ
le64 m p = le32 m p + 2 ^ 32 * le32 m (p + 4)

abbrev pub be64 : Mem → ℕ → ℕ
be64 m p = be32 m (p + 4) + 2 ^ 32 * be32 m p

-- five bytes joined below what stands above bit 40
join_low :
    (x d e f g h : ℕ)
    → bit_or
        (bit_or (bit_or (bit_or (bit_or (x * 2 ^ 40) (shf d 32)) (shf e 24)) (shf f 16)) (shf g 8))
        (h % 256)
      ≡ x * 2 ^ 40
        + d % 256 * 2 ^ 32
        + e % 256 * 2 ^ 24
        + f % 256 * 2 ^ 16
        + g % 256 * 2 ^ 8
        + h % 256
join_low x d e f g h =
    let d' = x * 2 ^ 8 + d % 256 in
    let e' = d' * 2 ^ 8 + e % 256 in
    let f' = e' * 2 ^ 8 + f % 256 in
    let g' = f' * 2 ^ 8 + g % 256 in
    let one : bit_or (x * 2 ^ 40) (shf d 32) ≡ d' * 2 ^ 32 =
      bit_or-shift 40 x (shf d 32) (omega arith) ∙ omega arith in
    let two : bit_or (d' * 2 ^ 32) (shf e 24) ≡ e' * 2 ^ 24 =
      bit_or-shift 32 d' (shf e 24) (omega arith) ∙ omega arith in
    let three : bit_or (e' * 2 ^ 24) (shf f 16) ≡ f' * 2 ^ 16 =
      bit_or-shift 24 e' (shf f 16) (omega arith) ∙ omega arith in
    let four : bit_or (f' * 2 ^ 16) (shf g 8) ≡ g' * 2 ^ 8 =
      bit_or-shift 16 f' (shf g 8) (omega arith) ∙ omega arith in
    rw (one, two, three, four) (bit_or-shift 8 g' (h % 256) (omega arith) ∙ omega arith)

-- the upper word of the eight joined bytes, and one lower byte after the other
join64_lem :
    (a b c d e f g h : ℕ)
    → join64 a b c d e f g h
      ≡ 2 ^ 32 * (a % 256 * 2 ^ 24 + b % 256 * 2 ^ 16 + c % 256 * 2 ^ 8 + d % 256)
        + (e % 256 * 2 ^ 24 + f % 256 * 2 ^ 16 + g % 256 * 2 ^ 8 + h % 256)
join64_lem a b c d e f g h =
    let ab : bit_or (shf a 56) (shf b 48) ≡ (a % 256 * 2 ^ 8 + b % 256) * 2 ^ 48 =
      bit_or-shift 56 (a % 256) (shf b 48) (omega arith) ∙ omega arith in
    let ac : bit_or ((a % 256 * 2 ^ 8 + b % 256) * 2 ^ 48) (shf c 40)
        ≡ (a % 256 * 2 ^ 16 + b % 256 * 2 ^ 8 + c % 256) * 2 ^ 40 =
      bit_or-shift 48 (a % 256 * 2 ^ 8 + b % 256) (shf c 40) (omega arith) ∙ omega arith in
    rw (ab, ac) (join_low (a % 256 * 2 ^ 16 + b % 256 * 2 ^ 8 + c % 256) d e f g h ∙ omega arith)

pub util_read16_lem :
    (le : Bool) (s : State)
    → s.fp.pos + 2 ≤ s.mem.size
    → util_read16 le s
      ≡ ok ((if le then le16 s.mem s.fp.pos else be16 s.mem s.fp.pos), set_pos (s.fp.pos + 2) s)
unfolding util_read16
util_read16_lem true s h =
    ground (arith, join16_lem (u8_at s.mem (s.fp.pos + 1)) (u8_at s.mem s.fp.pos))
util_read16_lem false s h =
    ground (arith, join16_lem (u8_at s.mem s.fp.pos) (u8_at s.mem (s.fp.pos + 1)))

pub util_read32_lem :
    (le : Bool) (s : State)
    → s.fp.pos + 4 ≤ s.mem.size
    → util_read32 le s
      ≡ ok ((if le then le32 s.mem s.fp.pos else be32 s.mem s.fp.pos), set_pos (s.fp.pos + 4) s)
unfolding util_read32
util_read32_lem true s h = ground (arith, join32_lem (byte 3) (byte 2) (byte 1) (byte 0))
  where
    byte : ℕ → ℕ
    byte i = u8_at s.mem (s.fp.pos + i)
util_read32_lem false s h = ground (arith, join32_lem (byte 0) (byte 1) (byte 2) (byte 3))
  where
    byte : ℕ → ℕ
    byte i = u8_at s.mem (s.fp.pos + i)

pub util_read64_lem :
    (le : Bool) (s : State)
    → s.fp.pos + 8 ≤ s.mem.size
    → util_read64 le s
      ≡ ok ((if le then le64 s.mem s.fp.pos else be64 s.mem s.fp.pos), set_pos (s.fp.pos + 8) s)
unfolding util_read64
util_read64_lem true s h =
    ground
      (arith, join64_lem (byte 7) (byte 6) (byte 5) (byte 4) (byte 3) (byte 2) (byte 1) (byte 0))
  where
    byte : ℕ → ℕ
    byte i = u8_at s.mem (s.fp.pos + i)
util_read64_lem false s h =
    ground
      (arith, join64_lem (byte 0) (byte 1) (byte 2) (byte 3) (byte 4) (byte 5) (byte 6) (byte 7))
  where
    byte : ℕ → ℕ
    byte i = u8_at s.mem (s.fp.pos + i)

-- Where eight bytes are left of the block, the reads of two, four and eight bytes deliver the word at
-- the position, little-endian or big-endian as asked, and move past it.
pub util_read_lem :
    (le : Bool) (s : State)
    → s.fp.pos + 8 ≤ s.mem.size
    → (util_read16 le s
        ≡ ok ((if le then le16 s.mem s.fp.pos else be16 s.mem s.fp.pos), set_pos (s.fp.pos + 2) s))
      × (util_read32 le s
          ≡ ok
              ((if le then le32 s.mem s.fp.pos else be32 s.mem s.fp.pos), set_pos (s.fp.pos + 4) s))
      × (util_read64 le s
          ≡ ok
              ((if le then le64 s.mem s.fp.pos else be64 s.mem s.fp.pos), set_pos (s.fp.pos + 8) s))
util_read_lem le s h =
    (util_read16_lem le s (omega arith), util_read32_lem le s (omega arith), util_read64_lem le s h)
