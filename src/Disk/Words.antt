-- ===== src/Disk/Words.antt =====
-- The writers of disk.c: the bytes that they leave, and that a read of the same width takes them
-- back.
use ext2p.Prelude.{
  ℕ, zero, suc, ◌+◌, ◌-◌, ◌/◌, ◌%◌, ◌^◌, ◌≤◌, ◌<◌, ◌≡◌, ◌≢◌, ap, ◌∙◌, refl, arith, List, [], ◌∷◌,
  length, if◌then◌else◌, ltb, leb, ◌&&◌, get_or,
}
use ext2p.Machine.{Mem, poke, State, ok, set_pos, ◌>>◌}
use ext2p.Util.Words.{u8_at, le16, le32, le64}
use ext2p.Disk.{
  disk_write8, disk_write16, disk_write32, disk_write64, disk_read16, disk_read32, disk_read64,
  disk_rewind,
}
use ext2p.Disk.Bounds.{IsValid, disk_read16_lem, disk_read32_lem, disk_read64_lem, disk_rewind_lem}

-- the block with bytes put at an offset and behind it
unfoldable pub store : Mem → ℕ → List ℕ → Mem
store m p [] = m
store m p (b ∷ bs) = store (poke m p (b % 256)) (p + 1) bs

-- the low `n` bytes of a word, lowest first
unfoldable pub le_bytes : ℕ → ℕ → List ℕ
le_bytes zero w = []
le_bytes (suc n) w = w % 256 ∷ le_bytes n (w / 256)

pub size-store : (m : Mem) (p : ℕ) (bs : List ℕ) → (store m p bs).size ≡ m.size
unfolding store
size-store m p [] = refl
size-store m p (b ∷ bs) = size-store (poke m p (b % 256)) (p + 1) bs

get_or-cons : (b : ℕ) (bs : List ℕ) (k : ℕ) → k ≢ 0 → get_or (b ∷ bs) k 0 ≡ get_or bs (k - 1) 0
get_or-cons b bs zero h = absurd (h refl)
get_or-cons b bs (suc k) h = ap (λ j. get_or bs j 0) (omega arith)

-- A store writes its own range and nothing else.
pub byte-store :
    (m : Mem) (p : ℕ) (bs : List ℕ) (q : ℕ)
    → (store m p bs).byte q
      ≡ (if leb p q && ltb q (p + length bs) then get_or bs (q - p) 0 % 256 else m.byte q)
unfolding store
byte-store m p [] q = ground arith
byte-store m p (b ∷ bs) q =
    ground (arith, byte-store (poke m p (b % 256)) (p + 1) bs q, get_or-cons b bs (q - p))

pub length-le_bytes : (n w : ℕ) → length (le_bytes n w) ≡ n
unfolding le_bytes
length-le_bytes zero w = refl
length-le_bytes (suc n) w = ap suc (length-le_bytes n (w / 256))

pub u8_at-store :
    (m : Mem) (p : ℕ) (bs : List ℕ) (q i : ℕ)
    → q ≡ p + i
    → i < length bs
    → u8_at (store m p bs) q ≡ get_or bs i 0 % 256
u8_at-store m p bs q i e h =
    let at : q - p ≡ i = omega arith in
    ground (arith, byte-store m p bs q, ap (λ j. get_or bs j 0) at)

-- Words written at a place are found there, cut to their width.
module _ (m : Mem) (p w : ℕ) where
  le16-store : le16 (store m p (le_bytes 2 w)) p ≡ w % 2 ^ 16
  unfolding store le_bytes
  le16-store = ground arith

  pub le32-store : le32 (store m p (le_bytes 4 w)) p ≡ w % 2 ^ 32
  unfolding store le_bytes
  le32-store = ground arith

  le64-store : le64 (store m p (le_bytes 8 w)) p ≡ w % 2 ^ 64
  unfolding store le_bytes
  le64-store =
      let at = u8_at-store m p (le_bytes 8 w) in
      omega (
        arith,
        at p 0 (omega arith) (omega arith),
        at (p + 1) 1 refl (omega arith),
        at (p + 2) 2 refl (omega arith),
        at (p + 3) 3 refl (omega arith),
        at (p + 4) 4 refl (omega arith),
        at (p + 4 + 1) 5 (omega arith) (omega arith),
        at (p + 4 + 2) 6 (omega arith) (omega arith),
        at (p + 4 + 3) 7 (omega arith) (omega arith),
      )

-- the state after `n` bytes of a word have been written at the position
abbrev pub written : ℕ → ℕ → State → State
written n w s = set_pos (s.fp.pos + n) (record s { mem = store s.mem s.fp.pos (le_bytes n w) })

module _ (w : ℕ) (s : State) where
  pub disk_write8_lem : s.fp.pos < s.mem.size → disk_write8 w s ≡ ok (tt, written 1 w s)
  unfolding disk_write8 store le_bytes
  disk_write8_lem h = ground arith

  pub disk_write16_lem : s.fp.pos + 2 ≤ s.mem.size → disk_write16 w s ≡ ok (tt, written 2 w s)
  unfolding disk_write16 store le_bytes
  disk_write16_lem h = ground arith

  pub disk_write32_lem : s.fp.pos + 4 ≤ s.mem.size → disk_write32 w s ≡ ok (tt, written 4 w s)
  unfolding disk_write32 store le_bytes
  disk_write32_lem h = ground arith

  pub disk_write64_lem : s.fp.pos + 8 ≤ s.mem.size → disk_write64 w s ≡ ok (tt, written 8 w s)
  unfolding disk_write64 store le_bytes
  disk_write64_lem h = ground arith

  written-IsValid : (n : ℕ) → IsValid s → s.fp.pos + n ≤ s.mem.size → IsValid (written n w s)
  written-IsValid n v h = omega (arith, size-store s.mem s.fp.pos (le_bytes n w))

  back-IsValid : (n : ℕ) → IsValid s → IsValid (set_pos s.fp.pos (written n w s))
  back-IsValid n v = omega (arith, size-store s.mem s.fp.pos (le_bytes n w))

  rewind-written :
      (n : ℕ)
      → IsValid s
      → s.fp.pos + n ≤ s.mem.size
      → disk_rewind n (written n w s) ≡ ok (tt, set_pos s.fp.pos (written n w s))
  rewind-written n v h =
      let back : s.fp.pos + n - n ≡ s.fp.pos = omega arith in
      disk_rewind_lem (written n w s) (written-IsValid n v h) n (omega arith)
      ∙ ap (λ p. ok (tt, set_pos p (written n w s))) back

  -- A word that is written where the checks let it be read back, and then read, is the word cut to
  -- its width, for each of the three widths; the disk stands behind it, and its block is the old one
  -- with the bytes of the word put in, lowest first.
  pub disk_read-disk_write :
      IsValid s
      → s.fp.pos + 64 < s.fp.start + s.fp.size
      → ((disk_write16 w >> disk_rewind 2 >> disk_read16) s ≡ ok (w % 2 ^ 16, written 2 w s))
        × ((disk_write32 w >> disk_rewind 4 >> disk_read32) s ≡ ok (w % 2 ^ 32, written 4 w s))
        × ((disk_write64 w >> disk_rewind 8 >> disk_read64) s ≡ ok (w % 2 ^ 64, written 8 w s))
  disk_read-disk_write v room = (
    ground (
      arith,
      disk_write16_lem,
      rewind-written 2 v,
      disk_read16_lem (set_pos s.fp.pos (written 2 w s)) (back-IsValid 2 v),
      le16-store s.mem s.fp.pos w,
    ),
    ground (
      arith,
      disk_write32_lem,
      rewind-written 4 v,
      disk_read32_lem (set_pos s.fp.pos (written 4 w s)) (back-IsValid 4 v),
      le32-store s.mem s.fp.pos w,
    ),
    ground (
      arith,
      disk_write64_lem,
      rewind-written 8 v,
      disk_read64_lem (set_pos s.fp.pos (written 8 w s)) (back-IsValid 8 v),
      le64-store s.mem s.fp.pos w,
    ),
  )
