-- ===== src/Disk/Bounds.antt =====
-- The bounds checks of disk.c: what they keep in range, and which part of the image they refuse.
use ext2p.Prelude.{
  ℕ, ◌+◌, ◌-◌, ◌^◌, ◌≤◌, ◌<◌, ◌≡◌, arith, ltb, if◌then◌else◌, true, zero, suc, length, ap, refl,
}
use ext2p.Machine.{State, Run, ok, fatal, set_pos, Mem}
use ext2p.Util.Words.{le16, le32, le64, util_read16_lem, util_read32_lem, util_read64_lem, u8_at}
use ext2p.Disk.{
  disk_check_bounds, require, disk_read8, disk_read16, disk_read32, disk_read64, disk_skip, fetch,
  disk_copy, disk_rewind, disk_seek, bytes_at,
}

-- The pointers of a disk lie in its block, which has room for a byte behind the image.
pub record IsValid (s : State) : Type 0 where
  pub started : s.fp.start ≤ s.fp.pos
  pub inside : s.fp.pos ≤ s.mem.size
  pub fits : s.fp.start + s.fp.size < s.mem.size
  pub small : s.mem.size ≤ 2 ^ 62

-- On a valid disk the check is a plain comparison.
pub disk_check_bounds_lem :
    (n : ℕ) (s : State)
    → IsValid s
    → n ≤ 2 ^ 62
    → disk_check_bounds n s ≡ ltb (s.fp.pos + n) (s.fp.start + s.fp.size)
unfolding disk_check_bounds
disk_check_bounds_lem n s v h = ground arith

-- What the check in front of a read lets through, and what it ends the program for.
abbrev pub checked : {A : Type 0} → ℕ → State → A → State → Run (A × State)
checked n s a s' = if ltb (s.fp.pos + n) (s.fp.start + s.fp.size) then ok (a, s') else fatal

require_lem : (n : ℕ) (s : State) → IsValid s → n ≤ 2 ^ 62 → require n s ≡ checked n s tt s
unfolding require
require_lem n s v h = rw (disk_check_bounds_lem n s v h)

module _ (s : State) (v : IsValid s) where
  pub disk_read8_lem : disk_read8 s ≡ checked 8 s (u8_at s.mem s.fp.pos) (set_pos (s.fp.pos + 1) s)
  unfolding disk_read8
  disk_read8_lem = rw (require_lem 8 s v (omega arith)) (ground arith)

  pub disk_read16_lem :
      disk_read16 s ≡ checked 16 s (le16 s.mem s.fp.pos) (set_pos (s.fp.pos + 2) s)
  unfolding disk_read16
  disk_read16_lem = rw (require_lem 16 s v (omega arith)) (ground (arith, util_read16_lem true s))

  pub disk_read32_lem :
      disk_read32 s ≡ checked 32 s (le32 s.mem s.fp.pos) (set_pos (s.fp.pos + 4) s)
  unfolding disk_read32
  disk_read32_lem = rw (require_lem 32 s v (omega arith)) (ground (arith, util_read32_lem true s))

  pub disk_read64_lem :
      disk_read64 s ≡ checked 64 s (le64 s.mem s.fp.pos) (set_pos (s.fp.pos + 8) s)
  unfolding disk_read64
  disk_read64_lem = rw (require_lem 64 s v (omega arith)) (ground (arith, util_read64_lem true s))

  -- On a valid disk each of the four reads ends the program unless more bytes than the word has
  -- bits are left of the image; otherwise it delivers the little-endian word at the position and
  -- moves past its one, two, four or eight bytes. No read faults.
  pub disk_read_lem :
      (disk_read8 s ≡ checked 8 s (u8_at s.mem s.fp.pos) (set_pos (s.fp.pos + 1) s))
      × (disk_read16 s ≡ checked 16 s (le16 s.mem s.fp.pos) (set_pos (s.fp.pos + 2) s))
      × (disk_read32 s ≡ checked 32 s (le32 s.mem s.fp.pos) (set_pos (s.fp.pos + 4) s))
      × (disk_read64 s ≡ checked 64 s (le64 s.mem s.fp.pos) (set_pos (s.fp.pos + 8) s))
  disk_read_lem = (disk_read8_lem, disk_read16_lem, disk_read32_lem, disk_read64_lem)

  pub disk_skip_lem :
      (n : ℕ) → n ≤ 2 ^ 62 → disk_skip n s ≡ checked n s tt (set_pos (s.fp.pos + n) s)
  unfolding disk_skip
  disk_skip_lem n h = rw (require_lem n s v h) (ground arith)

  pub disk_copy_lem :
      (n : ℕ)
      → n ≤ 2 ^ 62
      → disk_copy n s ≡ checked n s (bytes_at s.mem s.fp.pos n) (set_pos (s.fp.pos + n) s)
  unfolding disk_copy fetch
  disk_copy_lem n h =
      rw (require_lem n s v h) (ground (arith, require_lem n s v h, disk_skip_lem n h))

  pub disk_rewind_lem :
      (n : ℕ) → s.fp.start + n ≤ s.fp.pos → disk_rewind n s ≡ ok (tt, set_pos (s.fp.pos - n) s)
  unfolding disk_rewind
  disk_rewind_lem n h = ground arith

-- A seek is relative to the start of the disk, wherever the disk stands.
pub disk_seek_lem :
    (n : ℕ) (s : State)
    → IsValid s
    → n ≤ 2 ^ 62
    → disk_seek n s ≡ (if ltb n s.fp.size then ok (tt, set_pos (s.fp.start + n) s) else fatal)
unfolding disk_seek
disk_seek_lem n s v h =
    let v' : IsValid (set_pos s.fp.start s) = omega arith in
    ground (arith, disk_skip_lem (set_pos s.fp.start s) v' n h)

pub length-bytes_at : (m : Mem) (p n : ℕ) → length (bytes_at m p n) ≡ n
unfolding bytes_at
length-bytes_at m p zero = refl
length-bytes_at m p (suc n) = ap suc (length-bytes_at m (p + 1) n)
