-- ===== src/Ext2/Mounted/Saved.antt =====
-- A mounted image whose directory block has changed, as it is written to a file and mounted again.
use mathlib.Core.Path.{subst}
use native.Mathlib.Nat.{mul-le-mul_right}
use ext2p.Bg.Read.Steps.{get_elem?-inodes_from}
use ext2p.Prelude.{
  ℕ, zero, suc, ◌+◌, ◌-◌, ◌*◌, ◌%◌, ◌≤◌, ◌<◌, ◌≡◌, ◌⊎◌, inl, arith, List, length, ap, ◌∙◌, sym,
  get_or, get_elem?, some, ◌==◌, bit_and,
}
use ext2p.Machine.{Mem, State}
use ext2p.Disk.{bytes_at}
use ext2p.Disk.Bounds.{length-bytes_at}
use ext2p.Inode.{Inode, inode_of_bytes, fm_dir}
use ext2p.Dir.{Dir}
use ext2p.Dir.Listing.{Listing, Nonempty}
use ext2p.Dir.Shift.{Listing-Agree, bytes_at-Agree, total-le}
use ext2p.Bg.Written.{OfBytes}
use ext2p.Bg.Read.{GroupAt, sb_at, desc_at, desc_pos, block_pos, table_end}
use ext2p.Bg.Read.Kept.{with_mem, sb-kept, desc-kept, GroupAt-kept, table_end-kept}
use ext2p.Ext2.Open.{loaded}
use ext2p.Ext2.Mounted.{ImageAt, node_at, bg}
use ext2p.Ext2.Mounted.Directory.{HasDir}

get_or-bytes_at : (m : Mem) (p n i : ℕ) → i < n → get_or (bytes_at m p n) i 0 ≡ m.byte (p + i) % 256
unfolding bytes_at
get_or-bytes_at m p zero i h = absurd (omega arith)
get_or-bytes_at m p (suc n) zero h = ap (λ q. m.byte q % 256) (omega arith)
get_or-bytes_at m p (suc n) (suc i) h =
    get_or-bytes_at m (p + 1) n i (omega arith) ∙ ap (λ q. m.byte q % 256) (omega arith)

-- What lies at `base` or behind it holds none of the superblock, the descriptor and the inode bitmap of
-- the first group.
pub record IsBehind (got : List ℕ) (size base : ℕ) : Type 0 where
  pub superblock : 1024 + 264 ≤ base
  pub descriptor : desc_pos (loaded got) 1024 0 size + 32 ≤ base
  pub bitmap :
      block_pos (loaded got) size (desc_at (loaded got) 1024 0 size).inode_bitmap + size ≤ base

module _ {got : List ℕ} {size : ℕ} (image : ImageAt got size) (m : Mem) (base : ℕ)
    (behind : IsBehind got size base) (of_bytes : OfBytes m) (inside : base < length got)
    (kept : (q : ℕ) → (q < base) ⊎ (base + size ≤ q) → m.byte q ≡ (loaded got).mem.byte q) where
  -- the file that the image is written to
  abbrev pub saved : List ℕ
  saved = bytes_at m 0 (length got)

  abbrev m' : Mem
  m' = (loaded saved).mem

  length-saved : length saved ≡ length got
  length-saved = length-bytes_at m 0 (length got)

  reloaded : (q : ℕ) → q < length got → m'.byte q ≡ m.byte q
  reloaded q h =
      let at : get_or saved q 0 ≡ m.byte q % 256 =
        get_or-bytes_at m 0 (length got) q h ∙ ap (λ p. m.byte p % 256) (omega arith) in
      ground (arith, at, of_bytes q, length-saved)

  before : (p n : ℕ) → p + n ≤ base → bytes_at m' p n ≡ bytes_at (loaded got).mem p n
  before p n h =
      bytes_at-Agree (loaded got).mem m' p n
        (λ q low high. reloaded q (omega arith) ∙ kept q (inl (omega arith)))

  as_large : m'.size ≡ (loaded got).mem.size
  as_large = omega (arith, length-saved)

  same_state : with_mem (loaded got) m' ≡ loaded saved
  same_state =
      ap
        (λ (n : ℕ).
          let s : State = record { mem = m'; fp = record { start = 0; pos = 0; size = n } } in s)
        (sym length-saved)

  same_sb : bytes_at m' 1024 264 ≡ bytes_at (loaded got).mem 1024 264
  same_sb = before 1024 264 behind.superblock

  same_desc :
      bytes_at m' (desc_pos (loaded got) 1024 0 size) 32
      ≡ bytes_at (loaded got).mem (desc_pos (loaded got) 1024 0 size) 32
  same_desc = before (desc_pos (loaded got) 1024 0 size) 32 behind.descriptor

  saved-sb : sb_at (loaded saved) 1024 ≡ sb_at (loaded got) 1024
  saved-sb = sb-kept image.at_group m' as_large same_sb same_desc

  saved-desc : desc_at (loaded saved) 1024 0 size ≡ desc_at (loaded got) 1024 0 size
  saved-desc = desc-kept image.at_group m' as_large same_sb same_desc

  saved-GroupAt : GroupAt (loaded saved) 1024 0 size
  saved-GroupAt =
      subst (λ s. GroupAt s 1024 0 size) same_state
        (GroupAt-kept image.at_group m' as_large same_sb same_desc)

  same_end : table_end saved-GroupAt ≡ table_end image.at_group
  same_end = table_end-kept image.at_group m' as_large same_sb same_desc

  pub saved-ImageAt : ImageAt saved size
  saved-ImageAt = record {
    at_group = saved-GroupAt;
    positive = image.positive;
    some_block = rw same_sb image.some_block;
    some_group = rw same_sb image.some_group;
    aligned = rw same_end image.aligned;
    small = rw length-saved image.small;
  }

  module _ (table : table_end image.at_group ≤ base) (i : ℕ)
      (last : i < (sb_at (loaded got) 1024).inodes_per_group) where
    saved-node : node_at saved size i ≡ node_at got size i
    saved-node =
        let p = block_pos (loaded got) size (desc_at (loaded got) 1024 0 size).inode_table in
        let n = (sb_at (loaded got) 1024).inode_size in
        let upto : (i + 1) * n ≤ (sb_at (loaded got) 1024).inodes_per_group * n =
          mul-le-mul_right n (omega arith) in
        rw (same_sb, same_desc)
          (ap inode_of_bytes (before (p + i * n) 128 (omega (arith, image.at_group.large))))

    saved-inode : get_elem? (bg saved-ImageAt).inodes i ≡ get_elem? (bg image).inodes i
    saved-inode =
        get_elem?-inodes_from (loaded saved) _ _ _ i (rw same_sb last)
        ∙ (ap some saved-node ∙ sym (get_elem?-inodes_from (loaded got) _ _ _ i last))

  -- The tables of the group are read as before.
  pub saved-tables :
      table_end image.at_group ≤ base
      → (i : ℕ) → i < (sb_at (loaded got) 1024).inodes_per_group
      → ((bg saved-ImageAt).inode_bitmap ≡ (bg image).inode_bitmap)
        × (get_elem? (bg saved-ImageAt).inodes i ≡ get_elem? (bg image).inodes i)
  saved-tables table i last = (
    rw same_desc (
        before (block_pos (loaded got) size (desc_at (loaded got) 1024 0 size).inode_bitmap) size
          behind.bitmap),
    saved-inode table i last,
  )

  -- What the directory's block lists in the image is listed in the file.
  pub saved-HasDir :
      {inodenum : ℕ} {ds : List Dir} (d : HasDir image inodenum ds) (ds' : List Dir)
      → base ≡ d.block * size
      → Nonempty ds'
      → Listing m base size 0 ds'
      → HasDir saved-ImageAt inodenum ds'
  saved-HasDir {inodenum} d ds' at_base some_entry lists =
      let same =
        saved-node (omega (arith, d.behind)) (inodenum - 1) (omega (arith, d.one, d.last)) in
      record {
        block = d.block;
        one = d.one;
        last = rw same_sb d.last;
        is_dir = ap (λ (node : Inode). bit_and node.mode fm_dir == 0) same ∙ d.is_dir;
        at_block = ap (λ (node : Inode). get_elem? node.block 0) same ∙ d.at_block;
        behind = rw same_end d.behind;
        room = rw length-saved d.room;
        some_entry = some_entry;
        lists =
            subst (λ b. Listing m' b size 0 ds') at_base
              (Listing-Agree m m' base size 0 ds' lists (λ q low high.
                reloaded q (omega (arith, d.room, total-le m base size 0 ds' lists))));
      }
