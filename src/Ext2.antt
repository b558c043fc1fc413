-- ===== src/Ext2.antt =====
-- src/ext2.c and inc/ext2.h. `realloc` leaves every block group but the first uninitialised: `none`.
pub mod Groups
pub mod Keeps
pub mod Open
pub mod Dump
pub mod Dumped
pub mod Delete
pub mod Mounted
pub mod Blocks
use ext2p.Prelude.{
  ℕ, zero, suc, ◌+◌, ◌-◌, ◌/◌, ◌%◌, List, [], ◌∷◌, ◌==◌, if◌then◌else◌, Bool, true, false, Option,
  none, some, get_elem?, set, take, replicate,
}
use ext2p.Machine.{
  Mem, Fp, State, Run, ok, fatal, fault, out_of_fuel, and_then, Exec, Cmd, pure, lift, ◌>>=◌, ◌>>◌,
  u32,
}
use ext2p.Output.{Out, printed}
use ext2p.Util.{OpenFile, util_read_file_out}
use ext2p.Disk.{disk_open, disk_skip, disk_save}
use ext2p.Inode.{Inode}
use ext2p.Superblock.{Superblock, Warning, sb_read, sb_read_out}
use ext2p.Dir.{Dir}
use ext2p.Dir.Filetype.{ft_file, ft_dir}
use ext2p.Bg.{
  BlockGroup, Group, FileBuffer, bg_read, bg_get_inode, bg_get_inode_size, bg_get_dir,
  bg_get_dir_out, bg_read_file,
}
use ext2p.Bg.Deletion.{bg_delete_file}

pub record Ext2 : Type 0 where
  pub mem : Mem
  pub disk : Fp
  pub bgs : List (Option BlockGroup)

-- `(size_t)ceil((double)blockCount / (double)blocksPerGroup)`: a `double` is exact enough for the
-- quotient of 32-bit numbers to round up as the integers do. Without blocks per group the quotient
-- is infinite or no number, and its conversion undefined.
unfoldable pub group_count : Superblock → Run ℕ
group_count sb =
    if sb.blocks_per_group == 0
    then fault
    else ok ((sb.block_count + sb.blocks_per_group - 1) / sb.blocks_per_group)

-- what is printed of a superblock that has been read
abbrev pub read_out : Run ((Bool × Superblock × List Warning) × State) → Out
read_out (ok (r, s)) = sb_read_out r
read_out fatal = []
read_out fault = []
read_out out_of_fuel = []

-- `none` is a return of `NULL`.
unfoldable pub ext2_open : OpenFile → Run (Option Ext2)
ext2_open file = elim (disk_open file) [
  | none ↦ ok none
  | some s ↦ and_then ((disk_skip 1024 >> bg_read 0) s) λ (r, s'). elim r [
    | none ↦ ok none
    | some bg ↦ and_then (group_count bg.sb) λ n.
        ok (some (record { mem = s'.mem; disk = s'.fp; bgs = take n (some bg ∷ replicate n none) }))
  ]
]

-- What `ext2Open` of the file at `path` prints: the errors of `utilReadFile`, and what its `sbRead` does.
unfoldable pub ext2_open_out : (path : List ℕ) → OpenFile → Out
ext2_open_out path file = elim (disk_open file) [
  | none ↦ util_read_file_out path file
  | some s ↦ read_out ((disk_skip 1024 >> sb_read) s)
]

-- a block group that has been read; another is an access to memory that nothing has set
unfoldable pub group_at : List (Option BlockGroup) → ℕ → Run BlockGroup
group_at bgs k = elim (get_elem? bgs k) [
  | none ↦ fault
  | some r ↦ elim r [ none ↦ fault | some bg ↦ ok bg ]
]

-- a call on `&ext2->bgs[bg]`
unfoldable pub on_group : {A : Type 0} → ℕ → Exec Group A → Exec Ext2 A
on_group k c e = and_then (group_at e.bgs k) λ bg.
    and_then (c (record { mem = e.mem; bg = bg }))
      λ (a, g). ok (a, record e { mem = g.mem; bgs = set e.bgs k (some g.bg) })

unfoldable pub inode_to_bg : Ext2 → ℕ → Run ℕ
inode_to_bg e inodenum = and_then (group_at e.bgs 0) λ bg.
    (if bg.sb.inodes_per_group == 0
      then fault
      else ok ((inodenum + u32 - 1) % u32 / bg.sb.inodes_per_group))

unfoldable pub ext2_get_inode : ℕ → Exec Ext2 Inode
ext2_get_inode inodenum e =
    (do k ← lift (inode_to_bg e inodenum); on_group k λ g. lift (bg_get_inode g.bg inodenum) g) e

unfoldable pub ext2_get_inode_size : ℕ → Inode → Exec Ext2 ℕ
ext2_get_inode_size inodenum inode e =
    (do k ← lift (inode_to_bg e inodenum); on_group k λ g. ok (bg_get_inode_size g.bg inode, g)) e

-- what `ext2GetDir` prints
unfoldable pub ext2_get_dir_out : ℕ → Ext2 → Out
ext2_get_dir_out inodenum e = printed (
    and_then (inode_to_bg e inodenum)
      λ k. and_then (group_at e.bgs k) λ bg. ok (bg_get_dir_out bg inodenum))

-- The fuel is the directory loop's.
unfoldable pub ext2_get_dir : ℕ → ℕ → Exec Ext2 (Option (List Dir))
ext2_get_dir fuel inodenum e =
    (do k ← lift (inode_to_bg e inodenum); on_group k (bg_get_dir fuel inodenum)) e

unfoldable pub ext2_read_file : ℕ → Exec Ext2 (Option FileBuffer)
ext2_read_file inodenum e =
    (do k ← lift (inode_to_bg e inodenum); on_group k (bg_read_file inodenum)) e

-- `rest` are the nodes behind `file`, `now` the clock.
unfoldable pub ext2_delete_file : (now : ℕ) (root file : Dir) (rest : List Dir) → Exec Ext2 Bool
ext2_delete_file now root file rest e =
    (if file.filetype == ft_file
        then (do
          k ← lift (inode_to_bg e file.inode)
          on_group k (bg_delete_file now root file rest)
          pure true)
        else pure false)
      e

-- Nothing is deleted yet.
unfoldable pub ext2_delete_dir : Dir → Exec Ext2 Bool
ext2_delete_dir dir = pure (dir.filetype == ft_dir)

-- what `ext2SaveToFile` puts into the file
unfoldable pub ext2_save_to_file : Bool → Exec Ext2 (List ℕ)
ext2_save_to_file opened e =
    and_then (disk_save opened (record { mem = e.mem; fp = e.disk }))
      λ (bytes, s). ok (bytes, record e { mem = s.mem; disk = s.fp })

-- `bgFreeAll` without a heap, which Ext2/Blocks adds: each group's four pointers are freed, set or not, and
-- only the free of a pointer that nothing has set is seen.
unfoldable pub bg_free_all : List (Option BlockGroup) → Run (Unit {0})
bg_free_all [] = ok tt
bg_free_all (none ∷ bgs) = fault
bg_free_all (some bg ∷ bgs) = bg_free_all bgs

unfoldable pub ext2_free : Ext2 → Run (Unit {0})
ext2_free e = bg_free_all e.bgs
