-- ===== src/Dir/Round.antt =====
-- One round of the loop of dir.c on any image.
use ext2p.Prelude.{
  ℕ, zero, suc, ◌+◌, ◌^◌, ◌≤◌, ◌<◌, ◌≡◌, ◌≢◌, ◌⊎◌, inl, inr, refl, arith, List, [], ◌∷◌, ◌∙◌, Bool,
  false, if◌then◌else◌, leb, ltb,
}
use ext2p.Machine.{Mem, State, Run, ok, fatal, fault, out_of_fuel, set_pos, and_then}
use ext2p.Util.Words.{u8_at, le16, le32}
use ext2p.Disk.{bytes_at}
use ext2p.Disk.Bounds.{
  IsValid, disk_read8_lem, disk_read16_lem, disk_read32_lem, disk_rewind_lem, disk_skip_lem,
}
use ext2p.Dir.{Dir, read_name, read_entry, dir_loop}
use ext2p.Dir.Entry.{entry_of}
use native.Mathlib.Decide.{dec_lt}

-- A read of a name ends the program or takes the bytes.
read_name_total :
    (n : ℕ) (s : State)
    → IsValid s
    → (read_name n s ≡ fatal)
      ⊎ ((read_name n s ≡ ok (bytes_at s.mem s.fp.pos n, set_pos (s.fp.pos + n) s))
          × (s.fp.pos + n ≤ s.mem.size))
unfolding read_name bytes_at
read_name_total zero s v = inr (ground arith, omega (arith, v))
read_name_total (suc n) s v = elim (dec_lt (s.fp.pos + 8) (s.fp.start + s.fp.size)) [
  | no h ↦ inl (ground (arith, disk_read8_lem s v))
  | yes h ↦
      let s' = set_pos (s.fp.pos + 1) s in
      let v' : IsValid s' = omega arith in
      elim (read_name_total n s' v') [
        | inl e ↦ inl (ground (arith, disk_read8_lem s v, e))
        | inr (e, room) ↦ inr (ground (arith, disk_read8_lem s v, e), omega arith)
      ]
]

-- the entry at `p` with its name still to come
abbrev headed : Mem → (p off ino : ℕ) → List ℕ → Dir
headed m p off ino name = record {
  offset = off;
  inode = ino;
  next_entry = le16 m (p + 4);
  name_len = u8_at m (p + 6);
  filetype = u8_at m (p + 7);
  filename = name;
}

read_entry-near_end :
    (p off ino : ℕ) (s : State)
    → IsValid s
    → s.fp.pos ≡ p + 4
    → ¬ (p + 20 < s.fp.start + s.fp.size)
    → read_entry off ino s ≡ fatal
unfolding read_entry
read_entry-near_end p off ino s v e h = ground (arith, disk_read16_lem s v)

read_entry-name :
    (p off ino : ℕ) (s : State)
    → IsValid s
    → s.fp.pos ≡ p + 4
    → p + 20 < s.fp.start + s.fp.size
    → read_entry off ino s
      ≡ and_then
          (read_name (u8_at s.mem (p + 6)) (set_pos (p + 8) s))
          λ (name, s'). ok (headed s.mem p off ino name, s')
unfolding read_entry
read_entry-name p off ino s v e h =
    let v6 : IsValid (set_pos (p + 6) s) = omega arith in
    let v7 : IsValid (set_pos (p + 7) s) = omega arith in
    ground (
      arith,
      disk_read16_lem s v,
      disk_read8_lem (set_pos (p + 6) s) v6,
      disk_read8_lem (set_pos (p + 7) s) v7,
    )

-- So does a read of an entry.
pub read_entry_total :
    (p off : ℕ) (s : State)
    → IsValid s
    → s.fp.pos ≡ p + 4
    → (read_entry off (le32 s.mem p) s ≡ fatal)
      ⊎ ((read_entry off (le32 s.mem p) s
            ≡ ok (entry_of s.mem p off, set_pos (p + 8 + u8_at s.mem (p + 6)) s))
          × (p + 8 + u8_at s.mem (p + 6) ≤ s.mem.size)
          × (p + 20 < s.fp.start + s.fp.size))
read_entry_total p off s v e = elim (dec_lt (p + 20) (s.fp.start + s.fp.size)) [
  | no h ↦ inl (read_entry-near_end p off (le32 s.mem p) s v e h)
  | yes h ↦ elim (read_name_total (u8_at s.mem (p + 6)) (set_pos (p + 8) s) (omega (arith, v))) [
    | inl f ↦ inl (read_entry-name p off (le32 s.mem p) s v e h ∙ rw f)
    | inr (f, room) ↦ inr (read_entry-name p off (le32 s.mem p) s v e h ∙ rw f, room, h)
  ]
]

-- An entry in use with a record length of zero is read for ever.
pub dir_loop-stuck :
    (fuel block_size off : ℕ) (first : Bool) (s : State)
    → IsValid s
    → off < block_size
    → block_size ≤ 2 ^ 32
    → s.fp.pos + 32 < s.fp.start + s.fp.size
    → le32 s.mem s.fp.pos ≢ 0
    → le16 s.mem (s.fp.pos + 4) ≡ 0
    → read_entry off (le32 s.mem s.fp.pos) (set_pos (s.fp.pos + 4) s)
      ≡ ok (entry_of s.mem s.fp.pos off, set_pos (s.fp.pos + 8 + u8_at s.mem (s.fp.pos + 6)) s)
    → s.fp.pos + 8 + u8_at s.mem (s.fp.pos + 6) ≤ s.mem.size
    → dir_loop fuel block_size off first s ≡ out_of_fuel
unfolding dir_loop
dir_loop-stuck zero block_size off first s v inside small room used empty entry fits = refl
dir_loop-stuck (suc fuel) block_size off first s v inside small room used empty entry fits =
    let q = s.fp.pos + 8 + u8_at s.mem (s.fp.pos + 6) in
    let v' : IsValid (set_pos q s) = omega arith in
    ground (
      arith,
      disk_read32_lem s v,
      entry,
      disk_rewind_lem (set_pos q s) v' (8 + u8_at s.mem (s.fp.pos + 6)),
      disk_skip_lem s v 0,
      dir_loop-stuck fuel block_size off false s v,
    )

abbrev pub put_in_front : Dir → Run (List Dir × State) → Run (List Dir × State)
put_in_front d r = and_then r λ (ds, s'). ok (d ∷ ds, s')

-- the loop behind an entry of positive length
pub dir_loop-next :
    (fuel block_size off : ℕ) (first : Bool) (s : State)
    → IsValid s
    → off < block_size
    → block_size ≤ 2 ^ 31
    → s.fp.pos + 32 < s.fp.start + s.fp.size
    → le32 s.mem s.fp.pos ≢ 0
    → read_entry off (le32 s.mem s.fp.pos) (set_pos (s.fp.pos + 4) s)
      ≡ ok (entry_of s.mem s.fp.pos off, set_pos (s.fp.pos + 8 + u8_at s.mem (s.fp.pos + 6)) s)
    → s.fp.pos + 8 + u8_at s.mem (s.fp.pos + 6) ≤ s.mem.size
    → let n = le16 s.mem (s.fp.pos + 4) in
      dir_loop (suc fuel) block_size off first s ≡ (
        if leb block_size (off + n)
        then ok (
          entry_of s.mem s.fp.pos off ∷ [],
          set_pos (s.fp.pos + 8 + u8_at s.mem (s.fp.pos + 6)) s,
        )
        else if ltb (s.fp.pos + n) (s.fp.start + s.fp.size)
        then put_in_front
            (entry_of s.mem s.fp.pos off)
            (dir_loop fuel block_size (off + n) false (set_pos (s.fp.pos + n) s))
        else fatal)
unfolding dir_loop
dir_loop-next fuel block_size off first s v inside small room used entry fits =
    let q = s.fp.pos + 8 + u8_at s.mem (s.fp.pos + 6) in
    let v' : IsValid (set_pos q s) = omega arith in
    ground (
      arith,
      disk_read32_lem s v,
      entry,
      disk_rewind_lem (set_pos q s) v' (8 + u8_at s.mem (s.fp.pos + 6)),
      disk_skip_lem s v (le16 s.mem (s.fp.pos + 4)),
    )

pub dir_loop-near_end :
    (fuel block_size off : ℕ) (first : Bool) (s : State)
    → IsValid s
    → ¬ (s.fp.pos + 32 < s.fp.start + s.fp.size)
    → dir_loop (suc fuel) block_size off first s ≡ fatal
unfolding dir_loop
dir_loop-near_end fuel block_size off first s v h = ground (arith, disk_read32_lem s v)

pub dir_loop-unused :
    (fuel block_size off : ℕ) (first : Bool) (s : State)
    → IsValid s
    → s.fp.pos + 32 < s.fp.start + s.fp.size
    → le32 s.mem s.fp.pos ≡ 0
    → dir_loop (suc fuel) block_size off first s
      ≡ (if first then fault else ok ([], set_pos (s.fp.pos + 4) s))
unfolding dir_loop
dir_loop-unused fuel block_size off first s v h z = ground (arith, disk_read32_lem s v)

pub dir_loop-broken :
    (fuel block_size off : ℕ) (first : Bool) (s : State)
    → IsValid s
    → s.fp.pos + 32 < s.fp.start + s.fp.size
    → le32 s.mem s.fp.pos ≢ 0
    → read_entry off (le32 s.mem s.fp.pos) (set_pos (s.fp.pos + 4) s) ≡ fatal
    → dir_loop (suc fuel) block_size off first s ≡ fatal
unfolding dir_loop
dir_loop-broken fuel block_size off first s v h used e = ground (arith, disk_read32_lem s v, e)
