-- ===== src/Bg/Remove.antt =====
-- What a directory lists after `bgDeleteFile`, and what else the call changes.
use native.Mathlib.Decide.{ℕ_discrete}
use mathlib.Core.Path.{subst}
use ext2p.Prelude.{
  ℕ, ◌+◌, ◌%◌, ◌≤◌, ◌<◌, ◌≡◌, ◌⊎◌, inl, refl, arith, List, ◌∷◌, ◌++◌, length, ap, ◌∙◌, sym, ◌==◌,
  some, get_elem?, set, length-set, get_elem?-set_self, get_elem?-set_ne, ==_iff, ==-ne,
  if◌then◌else◌,
}
use ext2p.Machine.{Mem, ok, u32}
use ext2p.Disk.{bytes_at}
use ext2p.Inode.{zero_inode}
use ext2p.Dir.{Dir}
use ext2p.Dir.Listing.{Listing, Nonempty}
use ext2p.Dir.Moved.{AllEntries, Listing-AllEntries}
use ext2p.Dir.Shift.{bytes_at-Agree, moved, total, Listing-replace, Listing-drop, total-le}
use ext2p.Bg.{
  at, bg_get_inode, bg_get_dir_out, index_warning, Group, inode_to_index, bg_offset_block,
  bg_get_dir,
}
use ext2p.Bg.Deletion.{bg_delete_file}
use ext2p.Bg.Lookup.{bg_get_dir_out-node, DirAt, moved_to, bg_get_dir_lem}
use ext2p.Bg.Delete.{
  FileOf, shrunk, inodes_after, bits_after, group_after, image_after, delete_runs, lt-of-get_elem?,
}
use ext2p.Bg.After.{
  EndsInZero, size-image_after, byte-image_after, image_after-Listing, Nonempty-append,
}

module _ {g : Group} {base size : ℕ} (root dir : Dir) (pre rest : List Dir)
    (at_dir : DirAt g root.inode base size (pre ++ (dir ∷ rest))) (file : FileOf g at_dir.index dir)
    (before : Nonempty pre) (end : EndsInZero g.mem (base + (total pre + total rest)) rest)
    (now : ℕ) where
  suffix : Listing g.mem base size (total pre) (dir ∷ rest)
  suffix = Listing-drop g.mem base size 0 (total pre) pre (dir ∷ rest) (omega arith) at_dir.lists

  offset_of : dir.offset ≡ total pre
  offset_of = ap (λ (d : Dir). d.offset) suffix.1

  entries : AllEntries rest
  entries = (Listing-AllEntries g.mem base size (total pre) (dir ∷ rest) suffix).1

  room : total pre + dir.next_entry + total rest ≤ size
  room = total-le g.mem base size (total pre + dir.next_entry) rest suffix.5 suffix.4

  -- the image and the group after the call
  abbrev image' : Mem
  image' = image_after g.mem (base + dir.offset) rest

  new-Listing : Listing image' base size 0 (pre ++ moved dir.offset rest)
  new-Listing =
      Listing-replace g.mem image' base size 0 (total pre) pre (dir ∷ rest) (moved dir.offset rest)
        (omega arith) at_dir.lists
        (λ q low h.
          byte-image_after g.mem (base + dir.offset) q rest entries
            (inl (omega (arith, offset_of))))
        (subst
          (λ (x : ℕ).
            Listing (image_after g.mem (base + x) rest) base size (total pre) (moved x rest))
          (sym offset_of)
          (image_after-Listing g.mem base size (total pre) rest entries (omega (arith, room)) end))

  abbrev group' : ℕ → Group
  group' p =
      group_after g image' p (bits_after g.bg.inode_bitmap file.index file.bits)
        (inodes_after g.bg.inodes file.index at_dir.index now at_dir.node dir)

  root_after : (p : ℕ) → get_elem? (group' p).bg.inodes at_dir.index ≡ some (shrunk at_dir.node dir)
  root_after p =
      get_elem?-set_ne _ _ file.other
      ∙ get_elem?-set_self _ at_dir.index _ (
          omega (
            arith,
            length-set g.bg.inodes file.index zero_inode,
            lt-of-get_elem? g.bg.inodes at_dir.index at_dir.at_node,
          ))

  group'-DirAt :
      (p : ℕ)
      → base ≤ p
      → p ≤ base + size
      → DirAt (group' p) root.inode base size (pre ++ moved dir.offset rest)
  unfolding inode_to_index bg_offset_block
  group'-DirAt p low high = record {
    index = at_dir.index;
    node = shrunk at_dir.node dir;
    block = at_dir.block;
    pos = at_dir.pos;
    at_index = at_dir.at_index;
    at_node = root_after p;
    is_dir = at_dir.is_dir;
    at_block = at_dir.at_block;
    at_size = at_dir.at_size;
    at_pos = at_dir.at_pos;
    at_base = at_dir.at_base;
    valid = omega (arith, at_dir, size-image_after g.mem (base + dir.offset) rest);
    room = at_dir.room;
    positive = at_dir.positive;
    small = at_dir.small;
    some_entry = Nonempty-append pre (moved dir.offset rest) before;
    lists = new-Listing;
  }

  same_index : (p : ℕ) → inode_to_index (group' p).bg root.inode ≡ ok at_dir.index
  unfolding inode_to_index
  same_index p = at_dir.at_index

  node_after : (p : ℕ) → bg_get_inode (group' p).bg root.inode ≡ ok (shrunk at_dir.node dir)
  unfolding bg_get_inode
  node_after p = rw (same_index p, at, root_after p) refl

  file_after :
      (p : ℕ)
      → get_elem? (group' p).bg.inodes file.index
        ≡ some (record zero_inode { delete_time = now % u32 })
  file_after p = get_elem?-set_self _ file.index _ (
      omega (
        arith,
        length-set (set g.bg.inodes file.index zero_inode) at_dir.index (shrunk at_dir.node dir),
        length-set g.bg.inodes file.index zero_inode,
        lt-of-get_elem? g.bg.inodes file.index file.at_node,
      ))

  table_after :
      (p j : ℕ)
      → get_elem? (group' p).bg.inodes j ≡ (
          if j == file.index
          then some (record zero_inode { delete_time = now % u32 })
          else if j == at_dir.index
          then some (shrunk at_dir.node dir)
          else get_elem? g.bg.inodes j)
  table_after p j = elim (ℕ_discrete j file.index) [
    | yes e ↦ rw (e, (==_iff file.index file.index).1 refl) (file_after p)
    | no ne ↦ elim (ℕ_discrete j at_dir.index) [
      | yes e ↦
          rw (e, ==-ne (λ k. file.other (sym k)), (==_iff at_dir.index at_dir.index).1 refl)
            (root_after p)
      | no ne' ↦
          rw (==-ne ne, ==-ne ne')
            (get_elem?-set_ne _ _ (λ k. ne (sym k))
              ∙ (get_elem?-set_ne _ _ (λ k. ne' (sym k)) ∙ get_elem?-set_ne _ _ (λ k. ne (sym k))))
    ]
  ]

  runs :
      (p : ℕ) × (bg_delete_file now root dir rest g ≡ ok (tt, group' p))
      × (base ≤ p)
      × (p ≤ base + size)
  runs = delete_runs root dir at_dir file now rest (omega (arith, room, offset_of, suffix)) entries

  -- Deleting a file that a directory lists behind another entry succeeds. Afterwards the directory
  -- lists the entries before it, and those behind it moved into its place, provided that it was
  -- the last or that the block holds a zero where the moved ones end; the superblock is the same, and
  -- so is the warning that bgGetDir prints of an indexed directory.
  pub bg_delete_file-DirAt :
      (g' : Group) × (bg_delete_file now root dir rest g ≡ ok (tt, g'))
      × DirAt g' root.inode base size (pre ++ moved dir.offset rest)
      × (g'.bg.sb ≡ g.bg.sb)
      × (bg_get_dir_out g'.bg root.inode ≡ index_warning at_dir.node)
  bg_delete_file-DirAt =
      let (p, e, low, high) = runs in
      (
        group' p,
        e,
        group'-DirAt p low high,
        refl,
        bg_get_dir_out-node (group' p).bg root.inode (node_after p) at_dir.is_dir,
      )

  -- the image after the call: its size, what it lists, and what it keeps
  pub bg_delete_file_image :
      (g' : Group) × (bg_delete_file now root dir rest g ≡ ok (tt, g'))
      × (g'.mem ≡ image_after g.mem (base + dir.offset) rest)
      × (g'.mem.size ≡ g.mem.size)
      × Listing g'.mem base size 0 (pre ++ moved dir.offset rest)
      × ((q : ℕ) → (q < base) ⊎ (base + size ≤ q) → g'.mem.byte q ≡ g.mem.byte q)
  bg_delete_file_image =
      let (p, e, low, high) = runs in
      (
        group' p,
        e,
        refl,
        size-image_after g.mem (base + dir.offset) rest,
        new-Listing,
        λ q out.
            byte-image_after g.mem (base + dir.offset) q rest entries
              (omega (arith, room, offset_of, suffix)),
      )

  kept : (q : ℕ) → (q < base + dir.offset) ⊎ (base + size ≤ q) → image'.byte q ≡ g.mem.byte q
  kept q out =
      byte-image_after g.mem (base + dir.offset) q rest entries
        (omega (arith, room, offset_of, suffix))

  -- Deleting a file that a directory lists behind another entry, where the file is the last or the
  -- block holds a zero where the moved entries end, succeeds. The image keeps its size, and every
  -- region of the image that ends before the deleted entry or starts behind the directory's
  -- block keeps its bytes.
  pub bg_delete_file_frame :
      (start n : ℕ)
      → (start + n ≤ base + dir.offset) ⊎ (base + size ≤ start)
      → (g' : Group) × (bg_delete_file now root dir rest g ≡ ok (tt, g'))
        × (g'.mem.size ≡ g.mem.size)
        × (bytes_at g'.mem start n ≡ bytes_at g.mem start n)
  bg_delete_file_frame start n out =
      let (p, e, low, high) = runs in
      (
        group' p,
        e,
        size-image_after g.mem (base + dir.offset) rest,
        bytes_at-Agree g.mem image' start n (λ q low high. kept q (omega (arith, out))),
      )

  -- Deleting a file that a directory lists behind another entry succeeds, where the file is the last
  -- or the block holds a zero where the moved entries end; a listing of the directory then returns
  -- the entries before the file and those behind it moved into its place, with fuel for more rounds
  -- than there are.
  pub bg_get_dir-bg_delete_file :
      (fuel : ℕ)
      → length (pre ++ moved dir.offset rest) < fuel
      → (g' : Group) × (p : ℕ) × (bg_delete_file now root dir rest g ≡ ok (tt, g'))
        × (bg_get_dir fuel root.inode g' ≡ ok (some (pre ++ moved dir.offset rest), moved_to p g'))
  bg_get_dir-bg_delete_file fuel h =
      let (g', e, at', _, _) = bg_delete_file-DirAt in
      let (p, e') = bg_get_dir_lem at' fuel h in (g', p, e, e')

  -- Deleting a file that a directory lists behind another entry, where the file is the last or the
  -- block holds a zero where the moved entries end, succeeds; in the tables that the group keeps in
  -- memory it clears the file's inode but for its deletion time, takes four bytes and the entry's
  -- length off the directory's size, leaves every other inode as it is, and clears the file's bit in
  -- its byte of the inode bitmap.
  pub bg_delete_file_tables :
      (j : ℕ)
      → (g' : Group) × (bg_delete_file now root dir rest g ≡ ok (tt, g'))
        × (get_elem? g'.bg.inodes j ≡ (
            if j == file.index
            then some (record zero_inode { delete_time = now % u32 })
            else if j == at_dir.index
            then some (shrunk at_dir.node dir)
            else get_elem? g.bg.inodes j))
        × (g'.bg.inode_bitmap ≡ bits_after g.bg.inode_bitmap file.index file.bits)
  bg_delete_file_tables j = let (p, e, low, high) = runs in (group' p, e, table_after p j, refl)
