-- ===== src/Ext2/Keeps.antt =====
-- The commands that read a block group leave the image, and a disk that stands inside it, as they are.
use native.Mathlib.Decide.{dec_lt}
use ext2p.Prelude.{
  leb, le→ltb, lt→ltb, ℕ, zero, suc, ◌+◌, ◌-◌, ◌*◌, ◌/◌, ◌%◌, ◌^◌, ◌≤◌, ◌<◌, ◌≡◌, refl, arith, ◌∙◌,
  Bool, true, false, ◌==◌, if◌then◌else◌,
}
use ext2p.Machine.{
  State, Run, ok, fatal, fault, out_of_fuel, and_then, Cmd, pure, lift, ◌>>=◌, u32, u64, set_pos,
}
use ext2p.Disk.{
  bytes_at, disk_check_bounds, require, fetch, disk_copy, disk_skip, disk_seek, disk_seek_start,
  disk_get_pos,
}
use ext2p.Inode.{inode_read}
use ext2p.Superblock.{superblock_of_bytes, ext2_super_magic, Superblock, sb_read}
use ext2p.Bg.{Tables, read_inodes, read_bg_table, group_of, bg_read, block_size}

-- A disk stands in front of the end of the image, in a block with a byte behind it.
pub record IsInside (s : State) : Type 0 where
  pub started : s.fp.start ≤ s.fp.pos
  pub before : s.fp.pos < s.fp.start + s.fp.size
  pub fits : s.fp.start + s.fp.size < s.mem.size
  pub small : s.mem.size ≤ 2 ^ 62

-- the second state has the first one's image and the disk's bounds, and its disk is still inside
abbrev pub Same : State → State → Type 0
Same s s' = (s'.mem ≡ s.mem) × (s'.fp.start ≡ s.fp.start) × (s'.fp.size ≡ s.fp.size) × IsInside s'

abbrev pub SameAfter : {A : Type 0} → State → Run (A × State) → Type 0
SameAfter s (ok (a, s')) = Same s s'
SameAfter s fatal = Unit
SameAfter s fault = Unit
SameAfter s out_of_fuel = Unit

-- the command keeps the image on every run that returns
abbrev pub Keeps : {A : Type 0} → Cmd A → Type 0
Keeps c = (s : State) → IsInside s → SameAfter s (c s)

SameAfter-trans :
    {B : Type 0} (s s' : State) (r : Run (B × State)) → Same s s' → SameAfter s' r → SameAfter s r
SameAfter-trans s s' (ok (b, s'')) h h' = (h'.0 ∙ h.0, h'.1 ∙ h.1, h'.2 ∙ h.2, h'.3)
SameAfter-trans s s' fatal h h' = tt
SameAfter-trans s s' fault h h' = tt
SameAfter-trans s s' out_of_fuel h h' = tt

SameAfter-and_then :
    {A B : Type 0} (s : State) (r : Run (A × State)) (k : A → Cmd B)
    → SameAfter s r
    → ((a : A) → Keeps (k a))
    → SameAfter s (and_then r λ (a, s'). k a s')
SameAfter-and_then s (ok (a, s')) k h kept = SameAfter-trans s s' (k a s') h (kept a s' h.3)
SameAfter-and_then s fatal k h kept = tt
SameAfter-and_then s fault k h kept = tt
SameAfter-and_then s out_of_fuel k h kept = tt

pub Keeps-bind :
    {A B : Type 0} (c : Cmd A) (k : A → Cmd B) → Keeps c → ((a : A) → Keeps (k a)) → Keeps (c >>= k)
Keeps-bind c k h kept s v = SameAfter-and_then s (c s) k (h s v) kept

Keeps-pure : {A : Type 0} (a : A) → Keeps (pure {S = State} a)
Keeps-pure a s v = (refl, refl, refl, v)

Keeps-lift : {A : Type 0} (r : Run A) → Keeps (lift {S = State} r)
Keeps-lift (ok a) s v = (refl, refl, refl, v)
Keeps-lift fatal s v = tt
Keeps-lift fault s v = tt
Keeps-lift out_of_fuel s v = tt

SameAfter-if :
    {A : Type 0} (b : Bool) (s : State) (r r' : Run (A × State))
    → SameAfter s r
    → SameAfter s r'
    → SameAfter s (if b then r else r')
SameAfter-if true s r r' h h' = h
SameAfter-if false s r r' h h' = h'

Keeps-if : {A : Type 0} (b : Bool) (c c' : Cmd A) → Keeps c → Keeps c' → Keeps (if b then c else c')
Keeps-if true c c' h h' = h
Keeps-if false c c' h h' = h'

require-Keeps : (n : ℕ) → Keeps (require n)
unfolding require
require-Keeps n s v =
    SameAfter-if (disk_check_bounds n s) s (ok (tt, s)) fatal (refl, refl, refl, v) tt

-- A skip keeps the disk inside even where the pointer's sum wraps around.
pub disk_skip-Keeps : (n : ℕ) → Keeps (disk_skip n)
unfolding disk_skip require disk_check_bounds
disk_skip-Keeps n s v = elim (dec_lt (((s.fp.pos + u64 - s.fp.start) % u64 + n) % u64) s.fp.size) [
  | no h ↦ rw (le→ltb (((s.fp.pos + u64 - s.fp.start) % u64 + n) % u64) s.fp.size (omega arith)) tt
  | yes h ↦
      rw (lt→ltb (((s.fp.pos + u64 - s.fp.start) % u64 + n) % u64) s.fp.size h)
        (refl, refl, refl, omega (arith, v))
]

fetch-Keeps : (n : ℕ) → Keeps (fetch n)
unfolding fetch
fetch-Keeps n s v =
    SameAfter-if (leb (s.fp.pos + n) s.mem.size) s (ok (bytes_at s.mem s.fp.pos n, s)) fault
      (refl, refl, refl, v) tt

disk_copy-Keeps : (n : ℕ) → Keeps (disk_copy n)
unfolding disk_copy
disk_copy-Keeps n = Keeps-bind (require n) _ (require-Keeps n) λ _.
    Keeps-bind (fetch n) _ (fetch-Keeps n)
      λ bytes. Keeps-bind (disk_skip n) _ (disk_skip-Keeps n) λ _. Keeps-pure bytes

disk_seek-Keeps : (n : ℕ) → Keeps (disk_seek n)
unfolding disk_seek disk_seek_start
disk_seek-Keeps n s v = disk_skip-Keeps n (set_pos s.fp.start s) (omega (arith, v))

sb_read-Keeps : Keeps sb_read
unfolding sb_read
sb_read-Keeps = Keeps-bind (disk_copy 264) _ (disk_copy-Keeps 264) λ bytes.
    Keeps-if ((superblock_of_bytes bytes).magic == ext2_super_magic) _ _
      (Keeps-bind (disk_skip 760) _ (disk_skip-Keeps 760) λ _. λ s v. (refl, refl, refl, v))
      (λ s v. (refl, refl, refl, v))

inode_read-Keeps : Keeps inode_read
unfolding inode_read
inode_read-Keeps =
    Keeps-bind (disk_copy 128) _ (disk_copy-Keeps 128) λ bytes. λ s v. (refl, refl, refl, v)

read_inodes-Keeps : (n inode_size : ℕ) → Keeps (read_inodes n inode_size)
unfolding read_inodes
read_inodes-Keeps zero inode_size = λ s v. (refl, refl, refl, v)
read_inodes-Keeps (suc n) inode_size = Keeps-bind inode_read _ inode_read-Keeps λ inode.
    Keeps-bind (disk_skip ((inode_size + u64 - 128) % u64)) _ (disk_skip-Keeps _) λ _.
      Keeps-bind (read_inodes n inode_size) _ (read_inodes-Keeps n inode_size)
        λ rest. λ s v. (refl, refl, refl, v)

read_bg_table-Keeps : (sb : Superblock) (size : ℕ) → Keeps (read_bg_table sb size)
unfolding read_bg_table
read_bg_table-Keeps sb size = Keeps-bind (disk_copy 32) _ (disk_copy-Keeps 32) λ bytes.
    Keeps-bind (disk_seek _) _ (disk_seek-Keeps _) λ _.
      Keeps-bind (disk_copy size) _ (disk_copy-Keeps size) λ block_bitmap.
        Keeps-bind (disk_seek _) _ (disk_seek-Keeps _) λ _.
          Keeps-bind (disk_copy size) _ (disk_copy-Keeps size) λ inode_bitmap.
            Keeps-bind (disk_seek _) _ (disk_seek-Keeps _) λ _.
              Keeps-bind (read_inodes sb.inodes_per_group sb.inode_size) _
                (read_inodes-Keeps sb.inodes_per_group sb.inode_size)
                λ inodes. λ s v. (refl, refl, refl, v)

group_of-Keeps : (sb : Superblock) (size : ℕ) (t : Tables) → Keeps (group_of sb size t)
unfolding group_of disk_get_pos
group_of-Keeps sb size t s v = (refl, refl, refl, v)

pub bg_read-Keeps : (num : ℕ) → Keeps (bg_read num)
unfolding bg_read
bg_read-Keeps num = Keeps-bind sb_read _ sb_read-Keeps λ (valid, sb, _).
    Keeps-if valid _ _
      (Keeps-bind (lift (block_size sb)) _ (Keeps-lift (block_size sb)) λ size.
        Keeps-bind (if size == 1024 then pure tt else disk_seek size) _
          (Keeps-if (size == 1024) _ _ (Keeps-pure tt) (disk_seek-Keeps size))
          λ _. Keeps-bind (disk_skip (num * (size / 32) % u32)) _ (disk_skip-Keeps _) λ _.
            Keeps-bind (read_bg_table sb size) _ (read_bg_table-Keeps sb size) λ t.
              Keeps-bind (group_of sb size t) _ (group_of-Keeps sb size t)
                λ bg. λ s v. (refl, refl, refl, v))
      (λ s v. (refl, refl, refl, v))
