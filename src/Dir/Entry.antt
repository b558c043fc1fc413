-- ===== src/Dir/Entry.antt =====
-- One entry of a directory block: what the reads of dir.c take from the image.
use ext2p.Prelude.{ℕ, zero, suc, ◌+◌, ◌≤◌, ◌<◌, ◌≡◌, arith}
use ext2p.Machine.{Mem, State, ok, set_pos}
use ext2p.Util.Words.{u8_at, le16, le32}
use ext2p.Disk.{bytes_at}
use ext2p.Disk.Bounds.{IsValid, disk_read8_lem, disk_read16_lem}
use ext2p.Dir.{Dir, read_name, read_entry}

-- the entry that stands at `p`, found at a distance `off` from the block's start
abbrev pub entry_of : Mem → ℕ → ℕ → Dir
entry_of m p off = record {
  offset = off;
  inode = le32 m p;
  next_entry = le16 m (p + 4);
  name_len = u8_at m (p + 6);
  filetype = u8_at m (p + 7);
  filename = bytes_at m (p + 8) (u8_at m (p + 6));
}

pub read_name_lem :
    (n : ℕ) (s : State)
    → IsValid s
    → s.fp.pos + n + 8 ≤ s.fp.start + s.fp.size
    → read_name n s ≡ ok (bytes_at s.mem s.fp.pos n, set_pos (s.fp.pos + n) s)
unfolding read_name bytes_at
read_name_lem zero s v h = ground arith
read_name_lem (suc n) s v h =
    let s' = set_pos (s.fp.pos + 1) s in
    let v' : IsValid s' = omega arith in
    ground (arith, disk_read8_lem s v, read_name_lem n s' v' (omega arith))

-- Behind the inode number the reads take the rest of the entry and stop at its name's end.
pub read_entry_lem :
    (p off : ℕ) (s : State)
    → IsValid s
    → s.fp.pos ≡ p + 4
    → p + 32 + u8_at s.mem (p + 6) < s.fp.start + s.fp.size
    → read_entry off (le32 s.mem p) s
      ≡ ok (entry_of s.mem p off, set_pos (p + 8 + u8_at s.mem (p + 6)) s)
unfolding read_entry
read_entry_lem p off s v e h =
    let v6 : IsValid (set_pos (p + 6) s) = omega arith in
    let v7 : IsValid (set_pos (p + 7) s) = omega arith in
    let v8 : IsValid (set_pos (p + 8) s) = omega arith in
    ground (
      arith,
      disk_read16_lem s v,
      disk_read8_lem (set_pos (p + 6) s) v6,
      disk_read8_lem (set_pos (p + 7) s) v7,
      read_name_lem (u8_at s.mem (p + 6)) (set_pos (p + 8) s) v8 (omega arith),
    )
