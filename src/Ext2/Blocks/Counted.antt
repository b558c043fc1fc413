-- ===== src/Ext2/Blocks/Counted.antt =====
-- What `ext2Free` leaves for each number of block groups.
use ext2p.Prelude.{
  ℕ, zero, suc, ◌^◌, ◌<◌, ◌≡◌, refl, arith, List, ◌∷◌, length, Bool, true, false, ltb, ◌==◌, ◌&&◌,
  Option, none, some, sym, if◌then◌else◌, take, replicate,
}
use ext2p.Machine.{Run, ok, fatal, fault, out_of_fuel, and_then}
use ext2p.Util.{present}
use ext2p.Bg.{BlockGroup}
use ext2p.Ext2.{Ext2, ext2_open}
use ext2p.Ext2.Open.{ext2_open-Over}
use ext2p.Ext2.Blocks.{
  Block, file_system, disk, contents, filepath, groups, block_bitmap, inode_bitmap, inodes, clone,
  Heap, released, free, disk_open_blocks, bg_read_blocks, is_read, malloc, ext2_open_blocks,
  ext2_free_blocks, disk_close, util_free_file, bg_free, bg_free_all_blocks,
}
use ext2p.Ext2.Blocks.Freed.{IsFree, full, ext2_open_blocks-full, cleared, cleared-IsFree}

-- what the pointers of a block group lead to
abbrev pub is_of_group : Block → Bool
is_of_group file_system = false
is_of_group disk = false
is_of_group contents = false
is_of_group filepath = false
is_of_group groups = false
is_of_group block_bitmap = true
is_of_group inode_bitmap = true
is_of_group inodes = true
is_of_group clone = true

-- what a mount returns is what `ext2Open` returns
opened_by :
    (e : Ext2) (h1 : Heap) (r : Run (Option Ext2)) (q : Run (Bool × Heap))
    (k : Option Ext2 → Bool → Heap → Heap)
    → and_then {B = Option Ext2 × Heap} r (λ o. and_then q λ (opened, h). ok (o, k o opened h))
      ≡ ok (some e, h1)
    → r ≡ ok (some e)
opened_by e h1 (ok o) (ok (opened, h)) k run = cc
opened_by e h1 (ok o) fatal k run = cc
opened_by e h1 (ok o) fault k run = cc
opened_by e h1 (ok o) out_of_fuel k run = cc
opened_by e h1 fatal q k run = cc
opened_by e h1 fault q k run = cc
opened_by e h1 out_of_fuel q k run = cc

-- the heap behind `ext2Free` of no group
abbrev leaked : Heap → Heap
leaked h =
    released file_system
      (released groups (released disk (released contents (released filepath (full h)))))

abbrev left : Heap → ℕ → Heap
left h zero = leaked h
left h (suc n) = cleared h

leaked-is_of_group : (h : Heap) → IsFree h → (b : Block) → leaked h b ≡ is_of_group b
leaked-is_of_group h empty file_system = refl
leaked-is_of_group h empty disk = refl
leaked-is_of_group h empty contents = refl
leaked-is_of_group h empty filepath = refl
leaked-is_of_group h empty groups = refl
leaked-is_of_group h empty block_bitmap = refl
leaked-is_of_group h empty inode_bitmap = refl
leaked-is_of_group h empty inodes = refl
leaked-is_of_group h empty clone = refl

left-is_of_group :
    (h : Heap) → IsFree h → (n : ℕ) (b : Block) → left h n b ≡ (n == 0) && is_of_group b
left-is_of_group h empty zero b = leaked-is_of_group h empty b
left-is_of_group h empty (suc n) b =
    let some_group : (suc n == 0) ≡ false = ground arith in rw some_group (cleared-IsFree h b)

freed_groups :
    (bg : BlockGroup) (n : ℕ) (h : Heap)
    → (let bgs : List (Option BlockGroup) = take n (some bg ∷ replicate n none) in
        and_then
          (bg_free_all_blocks bgs (released disk (released contents (released filepath (full h)))))
          (free file_system)
        ≡ (if ltb (length bgs) 2 then ok (left h (length bgs)) else fault))
unfolding bg_free_all_blocks bg_free
freed_groups bg zero h = refl
freed_groups bg (suc zero) h = refl
freed_groups bg (suc (suc n)) h = ground arith

-- `ext2Free` after a mount, for each number of block groups: with one it frees every block that
-- `ext2Open` has allocated; with none, in a file system of no blocks, it frees all but the first group's
-- bitmaps, inodes and disk, which stay allocated; with two or more it frees pointers that
-- nothing has set. No block is allocated before the mount.
pub ext2_free_blocks-counted :
    (got : List ℕ) (h : Heap) {e : Ext2} {h1 : Heap}
    → length got < 2 ^ 62
    → IsFree h
    → ext2_open_blocks (present (length got) true got) h ≡ ok (some e, h1)
    → (h2 : Heap) × (ext2_free_blocks e h1 ≡ (if ltb (length e.bgs) 2 then ok h2 else fault))
      × ((b : Block) → h2 b ≡ (length e.bgs == 0) && is_of_group b)
unfolding ext2_free_blocks disk_close util_free_file ext2_open_blocks
ext2_free_blocks-counted got h {e} {h1} small empty opened =
    let file = present (length got) true got in
    let mounted : ext2_open file ≡ ok (some e) =
      opened_by e h1 (ext2_open file) (disk_open_blocks file (malloc file_system h))
        (λ r o h2. if o then bg_read_blocks (is_read r) (malloc groups h2) else h2) opened in
    let (_, _, (_, _, (bg, n, same))) = ext2_open-Over got e small mounted in
    (
      left h (length e.bgs),
      rw (sym (ext2_open_blocks-full file h e h1 opened), same) (freed_groups bg n h),
      left-is_of_group h empty (length e.bgs),
    )
