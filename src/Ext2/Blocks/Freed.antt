-- ===== src/Ext2/Blocks/Freed.antt =====
-- That `ext2Free` frees what a mount has allocated.
use ext2p.Prelude.{
  ℕ, ◌≡◌, refl, arith, List, [], ◌∷◌, length, Bool, true, false, Bool-cases, inl, inr, ltb, le→ltb,
  Option, none, some, ap, ◌∙◌, sym, if◌then◌else◌,
}
use ext2p.Machine.{Run, ok, fatal, fault, out_of_fuel, and_then}
use ext2p.Util.{OpenFile, absent, present, util_read_file}
use ext2p.Disk.{disk_open}
use ext2p.Bg.{BlockGroup}
use ext2p.Ext2.{Ext2, ext2_open, group_at}
use ext2p.Ext2.Mounted.{ImageAt, mounted, ext2_open-ImageAt}
use ext2p.Ext2.Mounted.Single.{IsSingle}
use ext2p.Ext2.Blocks.{
  Block, file_system, disk, contents, filepath, groups, block_bitmap, inode_bitmap, inodes, clone,
  Heap, malloc, released, free, util_read_file_blocks, disk_open_blocks, bg_read_blocks,
  read_bg_table_blocks, is_read, ext2_open_blocks, ext2_free_blocks, disk_close, util_free_file,
  bg_free, bg_free_all_blocks,
}

-- nothing is allocated
abbrev pub IsFree : Heap → Type 0
IsFree h = (b : Block) → h b ≡ false

-- the heap behind a mount
abbrev pub full : Heap → Heap
full h = malloc clone (
    malloc inodes (
      malloc inode_bitmap (
        malloc block_bitmap (
          malloc groups (malloc filepath (malloc contents (malloc disk (malloc file_system h))))))))

abbrev opened_blocks : OpenFile → Heap → Run (Option Ext2) → Run (Option Ext2 × Heap)
opened_blocks file h r0 = and_then r0 λ r.
    and_then (disk_open_blocks file (malloc file_system h))
      λ (opened, h1). ok (r, if opened then bg_read_blocks (is_read r) (malloc groups h1) else h1)

disk_open_blocks-read :
    (n : ℕ) (got : List ℕ) (h : Heap)
    → ltb (length got) n ≡ false
    → disk_open_blocks (present n true got) h
      ≡ ok (true, malloc filepath (malloc contents (malloc disk h)))
unfolding disk_open_blocks util_read_file_blocks
disk_open_blocks-read n got h long = rw long refl

same_heap :
    (file : OpenFile) (h : Heap) (e : Ext2) (h1 : Heap) (r : Run (Option Ext2))
    → disk_open_blocks file (malloc file_system h)
      ≡ ok (true, malloc filepath (malloc contents (malloc disk (malloc file_system h))))
    → opened_blocks file h r ≡ ok (some e, h1)
    → full h ≡ h1
unfolding bg_read_blocks read_bg_table_blocks
same_heap file h e h1 (ok none) read opened = cc
same_heap file h e h1 (ok (some e')) read opened =
    let all : ◌≡◌ {A = Run (Option Ext2 × Heap)} (ok (some e', full h)) (ok (some e, h1)) =
      sym (
        ap
          (λ r.
            and_then {B = Option Ext2 × Heap} r
              λ (o, h2). ok (some e', if o then bg_read_blocks true (malloc groups h2) else h2))
          read)
      ∙ opened in
    cc
same_heap file h e h1 fatal read opened = cc
same_heap file h e h1 fault read opened = cc
same_heap file h e h1 out_of_fuel read opened = cc

nothing_mounted :
    {X : Type 0} (e : Ext2) (h1 : Heap) (r : Run (Bool × Heap)) (k : Bool → Heap → Heap)
    → and_then {B = Option Ext2 × Heap} r (λ (o, h2). ok (none, k o h2)) ≡ ok (some e, h1)
    → X
nothing_mounted e h1 (ok (o, h2)) k opened = cc
nothing_mounted e h1 fatal k opened = cc
nothing_mounted e h1 fault k opened = cc
nothing_mounted e h1 out_of_fuel k opened = cc

ext2_open-short :
    (n : ℕ) (got : List ℕ) → ltb (length got) n ≡ true → ext2_open (present n true got) ≡ ok none
unfolding ext2_open disk_open util_read_file
ext2_open-short n got short = rw (ext2_open, short) refl

pub ext2_open_blocks-full :
    (file : OpenFile) (h : Heap) (e : Ext2) (h1 : Heap)
    → ext2_open_blocks file h ≡ ok (some e, h1)
    → full h ≡ h1
unfolding ext2_open_blocks ext2_open disk_open util_read_file disk_open_blocks util_read_file_blocks
ext2_open_blocks-full absent h e h1 opened = cc
ext2_open_blocks-full (present n false got) h e h1 opened = cc
ext2_open_blocks-full (present n true got) h e h1 opened = elim (Bool-cases (ltb (length got) n)) [
  | inl short ↦
      nothing_mounted e h1 (disk_open_blocks (present n true got) (malloc file_system h))
        (λ o h2. if o then bg_read_blocks false (malloc groups h2) else h2)
        (sym (ap (opened_blocks (present n true got) h) (ext2_open-short n got short)) ∙ opened)
  | inr long ↦
      same_heap (present n true got) h e h1 (ext2_open (present n true got))
        (disk_open_blocks-read n got (malloc file_system h) long) opened
]

pub ext2_open_blocks-mounted :
    (got : List ℕ) (h : Heap) (e : Ext2)
    → ext2_open (present (length got) true got) ≡ ok (some e)
    → ext2_open_blocks (present (length got) true got) h ≡ ok (some e, full h)
unfolding ext2_open_blocks bg_read_blocks read_bg_table_blocks
ext2_open_blocks-mounted got h e opened =
    rw
      (
        opened,
        disk_open_blocks-read (length got) got (malloc file_system h)
            (le→ltb (length got) (length got) (omega arith)),
      )
      refl

pub ext2_open_blocks-ImageAt :
    {got : List ℕ} {size : ℕ} (image : ImageAt got size) (h : Heap)
    → ext2_open_blocks (present (length got) true got) h ≡ ok (some (mounted image), full h)
ext2_open_blocks-ImageAt {got} image h =
    ext2_open_blocks-mounted got h (mounted image) (ext2_open-ImageAt image)

-- the heap behind `ext2Free`
abbrev pub cleared : Heap → Heap
cleared h = released file_system (
    released groups (
      released clone (
        released inodes (
          released inode_bitmap (
            released block_bitmap
              (released disk (released contents (released filepath (full h)))))))))

pub cleared-IsFree : (h : Heap) → IsFree (cleared h)
cleared-IsFree h file_system = refl
cleared-IsFree h disk = refl
cleared-IsFree h contents = refl
cleared-IsFree h filepath = refl
cleared-IsFree h groups = refl
cleared-IsFree h block_bitmap = refl
cleared-IsFree h inode_bitmap = refl
cleared-IsFree h inodes = refl
cleared-IsFree h clone = refl

free_groups :
    (bgs : List (Option BlockGroup)) {b : BlockGroup} (h : Heap)
    → length bgs ≡ 1
    → group_at bgs 0 ≡ ok b
    → and_then
        (bg_free_all_blocks bgs (released disk (released contents (released filepath (full h)))))
        (free file_system)
      ≡ ok (cleared h)
unfolding bg_free_all_blocks bg_free group_at
free_groups [] h one at_group = absurd (omega arith)
free_groups (none ∷ bgs) h one at_group = cc
free_groups (some b ∷ []) h one at_group = refl
free_groups (some b ∷ (c ∷ bgs)) h one at_group = absurd (omega arith)

-- `ext2Free` after a mount frees every block that `ext2Open` has allocated, none of them twice, where the
-- file system has one block group, which has been read: with no block allocated before the mount, the
-- heap is again as it was.
pub ext2_free_blocks-ext2_open_blocks :
    (file : OpenFile) (h : Heap) {e e' : Ext2} {h1 : Heap}
    → IsFree h
    → ext2_open_blocks file h ≡ ok (some e, h1)
    → IsSingle e'
    → (h2 : Heap) × (ext2_free_blocks e' h1 ≡ ok h2) × ((b : Block) → h2 b ≡ h b)
unfolding ext2_free_blocks disk_close util_free_file
ext2_free_blocks-ext2_open_blocks file h {e} {e'} {h1} empty opened single = (
  cleared h,
  rw (sym (ext2_open_blocks-full file h e h1 opened))
      (free_groups e'.bgs h single.one single.at_group),
  (λ b. cleared-IsFree h b ∙ sym (empty b)),
)
