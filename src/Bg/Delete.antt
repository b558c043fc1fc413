-- ===== src/Bg/Delete.antt =====
-- `bgDeleteFile`: what the directory lists after it, what it changes and what it leaves.
use ext2p.Prelude.{
  ℕ, zero, suc, ◌+◌, ◌-◌, ◌/◌, ◌%◌, ◌^◌, ◌≤◌, ◌<◌, ◌≡◌, ◌≢◌, arith, List, [], ◌∷◌, length, ◌∙◌, sym,
  bit_and, some, get_elem?, set, get_elem?-set_self, get_elem?-set_ne,
}
use ext2p.Machine.{Mem, ok, u32}
use ext2p.Disk.Bounds.{IsValid, disk_skip_lem}
use ext2p.Disk.Words.{store, le_bytes, disk_write32_lem}
use ext2p.Inode.{Inode, zero_inode}
use ext2p.Dir.{Dir}
use ext2p.Dir.Moved.{AllEntries}
use ext2p.Dir.Shift.{shifted, total}
use ext2p.Bg.{Group, inode_to_index}
use ext2p.Bg.Deletion.{clear_bit, bg_delete_file}
use ext2p.Bg.Lookup.{DirAt, disk_of, moved_to, seek_block}
use ext2p.Bg.Shift.{shift_down_lem}

-- the directory's inode with its size reduced
abbrev pub shrunk : Inode → Dir → Inode
shrunk node dir = record node { size_lo = (node.size_lo + u32 - (4 + dir.next_entry)) % u32 }

-- the inodes after the deletion of number `i` from the directory whose inode is number `r`
abbrev pub inodes_after : List Inode → (i r now : ℕ) → Inode → Dir → List Inode
inodes_after xs i r now node dir =
    set (set (set xs i zero_inode) r (shrunk node dir)) i
      (record zero_inode { delete_time = now % u32 })

abbrev pub bits_after : List ℕ → (i bits : ℕ) → List ℕ
bits_after bitmap i bits = set bitmap (i / 8) (bit_and bits (255 - 2 ^ (i % 8)))

abbrev pub group_after : Group → (m : Mem) (p : ℕ) (bitmap : List ℕ) (inodes : List Inode) → Group
group_after g m p bitmap inodes = record {
  mem = m;
  bg = record (g.bg) {
    data_disk = record { start = g.bg.data_disk.start; pos = p; size = g.bg.data_disk.size };
    inode_bitmap = bitmap;
    inodes = inodes;
  };
}

-- what is written into the directory's block
abbrev pub image_after : Mem → ℕ → List Dir → Mem
image_after m p [] = store m p (le_bytes 4 0)
image_after m p (d ∷ ds) = shifted m p (d ∷ ds)

-- A file `dir` in a directory: its inode number leads to another inode of the table than the
-- directory's, with a bit in the bitmap.
pub record FileOf (g : Group) (r : ℕ) (dir : Dir) : Type 0 where
  pub index : ℕ
  pub bits : ℕ
  pub at_index : inode_to_index g.bg dir.inode ≡ ok index
  pub other : index ≢ r
  pub node : Inode
  pub at_node : get_elem? g.bg.inodes index ≡ some node
  pub at_bits : get_elem? g.bg.inode_bitmap (index / 8) ≡ some bits

pub FileOf-moved_to :
    {g : Group} {r r' : ℕ} {dir : Dir} (p : ℕ)
    → r' ≡ r
    → FileOf g r dir
    → FileOf (moved_to p g) r' dir
unfolding inode_to_index
FileOf-moved_to p same file = record {
  index = file.index;
  bits = file.bits;
  at_index = file.at_index;
  other = λ e. file.other (e ∙ same);
  node = file.node;
  at_node = file.at_node;
  at_bits = file.at_bits;
}

pub lt-of-get_elem? {ℓ} :
    {A : Type ℓ} {x : A} (xs : List A) (i : ℕ) → get_elem? xs i ≡ some x → i < length xs
lt-of-get_elem? [] i h = cc
lt-of-get_elem? (x ∷ xs) zero h = omega arith
lt-of-get_elem? (x ∷ xs) (suc i) h = omega (arith, lt-of-get_elem? xs i h)

module _ {g : Group} {base size : ℕ} {ds : List Dir} (root dir : Dir)
    (at_dir : DirAt g root.inode base size ds) (file : FileOf g at_dir.index dir) (now : ℕ) where
  open file use {index, bits}

  abbrev cleared : List ℕ
  cleared = bits_after g.bg.inode_bitmap index bits

  abbrev inodes' : List Inode
  inodes' = inodes_after g.bg.inodes index at_dir.index now at_dir.node dir

  clear_bit-ok : clear_bit g.bg.inode_bitmap index ≡ ok cleared
  unfolding clear_bit
  clear_bit-ok = ground (arith, file.at_bits)

  pub root_kept : get_elem? (set g.bg.inodes index zero_inode) at_dir.index ≡ some at_dir.node
  root_kept = get_elem?-set_ne g.bg.inodes zero_inode file.other ∙ at_dir.at_node

  pub erased :
      get_elem? (set (set g.bg.inodes index zero_inode) at_dir.index (shrunk at_dir.node dir)) index
      ≡ some zero_inode
  erased =
      get_elem?-set_ne (set g.bg.inodes index zero_inode) (shrunk at_dir.node dir)
        (λ e. file.other (sym e))
      ∙ get_elem?-set_self g.bg.inodes index zero_inode
          (lt-of-get_elem? g.bg.inodes index file.at_node)

  base-IsValid : IsValid (disk_of (moved_to base g))
  base-IsValid = omega (arith, at_dir)

  there-IsValid : dir.offset ≤ size → IsValid (disk_of (moved_to (base + dir.offset) g))
  there-IsValid h = omega (arith, at_dir)

  -- The call runs to its end and leaves this group.
  pub delete_runs :
      (rest : List Dir)
      → dir.offset + total rest + 4 ≤ size
      → AllEntries rest
      → (p : ℕ) × (bg_delete_file now root dir rest g
          ≡ ok (tt, group_after g (image_after g.mem (base + dir.offset) rest) p cleared inodes'))
        × (base ≤ p)
        × (p ≤ base + size)
  unfolding bg_delete_file
  delete_runs [] room es = (
    base + dir.offset + 4,
    ground (
      arith,
      at_dir.at_index,
      file.at_index,
      file.at_node,
      clear_bit-ok,
      root_kept,
      erased,
      at_dir.at_block,
      at_dir.at_pos,
      seek_block at_dir,
      at_dir.room,
      at_dir.valid,
      disk_skip_lem (disk_of (moved_to base g)) base-IsValid dir.offset,
      disk_write32_lem 0 (disk_of (moved_to (base + dir.offset) g)),
    ),
    omega arith,
    omega arith,
  )
  delete_runs (d ∷ rest) room es = (
    base + dir.offset + total (d ∷ rest),
    ground (
      arith,
      at_dir.at_index,
      file.at_index,
      file.at_node,
      clear_bit-ok,
      root_kept,
      erased,
      at_dir.at_block,
      at_dir.at_pos,
      seek_block at_dir,
      at_dir.room,
      at_dir.valid,
      disk_skip_lem (disk_of (moved_to base g)) base-IsValid dir.offset,
      shift_down_lem (d ∷ rest) (disk_of (moved_to (base + dir.offset) g))
          (there-IsValid (omega arith)) es,
    ),
    omega arith,
    omega arith,
  )
