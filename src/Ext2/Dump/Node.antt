-- ===== src/Ext2/Dump/Node.antt =====
-- `_inoDump` of src/ext2dump.c.
pub mod Format
use ext2p.Prelude.{
  ℕ, zero, suc, ◌+◌, ◌*◌, ◌-◌, ◌^◌, List, [], ◌∷◌, ◌++◌, ltb, ◌==◌, if◌then◌else◌, bit_and, bit_or,
}
use ext2p.Machine.{Run, ok, fault, and_then}
use ext2p.Output.{Piece, lit, dec, sdec, str, date, Out, row, say, lines, yes_no}
use ext2p.Superblock.{rev_dynamic}
use ext2p.Inode.{Inode, fm_file, fm_dir, sext64}
use ext2p.Inode.Masks.{
  fm_sock, fm_symb, fm_block, fm_char, fm_fifo, fm_set_uid, fm_set_gid, fm_sticky, fl_secure_rm,
  fl_record_unrm, fl_compress, fl_sync, fl_immutable, fl_append, fl_no_dump, fl_no_atime, fl_dirty,
  fl_compblks, fl_rawdata, fl_comperr, fl_btree_dir, fl_imagic_dir, fl_journal_data, fl_reserved,
}
use ext2p.Bg.{at}
use ext2p.Ext2.Dump.Labels.{ino_user_dump, ino_group_dump, ino_other_dump}

abbrev pub ino_format : (mode : ℕ) → Out
ino_format mode = lines (
    say "│ └─┬─ Format:"
    ∷ row "│   ├─── Socket?......... " (yes_no mode fm_sock)
    ∷ row "│   ├─── Symlink?........ " (yes_no mode fm_symb)
    ∷ row "│   ├─── Regular file?... " (yes_no mode fm_file)
    ∷ row "│   ├─── Block device?... " (yes_no mode fm_block)
    ∷ row "│   ├─── Directory?...... " (yes_no mode fm_dir)
    ∷ row "│   ├─── Char. device?... " (yes_no mode fm_char)
    ∷ row "│   └─── FIFO?........... " (yes_no mode fm_fifo)
    ∷ say "│"
    ∷ [])

abbrev pub ino_mode : Inode → Out
ino_mode ino = lines (
    say "├─┬─ Mode:"
    ∷ row "│ ├─── User......... " (str (ino_user_dump ino.mode))
    ∷ row "│ ├─── Group........ " (str (ino_group_dump ino.mode))
    ∷ row "│ ├─── Others....... " (str (ino_other_dump ino.mode))
    ∷ say "│ │"
    ∷ row "│ ├─── Set UID...... " (yes_no ino.mode fm_set_uid)
    ∷ row "│ ├─── Set GID...... " (yes_no ino.mode fm_set_gid)
    ∷ row "│ ├─── Sticky bit... " (yes_no ino.mode fm_sticky)
    ∷ say "│ │"
    ∷ ino_format ino.mode
    ∷ [])

-- the bits of the `int64_t`: a `size_hi` from 2^31 on would be shifted into the sign
unfoldable pub ino_size : (revision : ℕ) → Inode → Run ℕ
ino_size revision ino =
    if revision == rev_dynamic
    then (if ltb ino.size_hi (2 ^ 31)
        then ok (bit_or (ino.size_hi * 2 ^ 32) (sext64 ino.size_lo))
        else fault)
    else ok (sext64 ino.size_lo)

abbrev pub ino_times : Inode → Out
ino_times ino = lines (
    row "├─ Access time......... " (date ino.access_time)
    ∷ row "├─ Creation time....... " (date ino.create_time)
    ∷ row "├─ Modification time... " (date ino.modify_time)
    ∷ row "├─ Deletion time....... " (date ino.delete_time)
    ∷ say "│"
    ∷ [])

abbrev pub ino_links : Inode → Out
ino_links ino = lines (
    row "├─ Group with access... " (dec ino.gid)
    ∷ (lit "├─ Linked to........... " ∷ dec ino.link_count ∷ lit " times\n" ∷ [])
    ∷ say "│"
    ∷ [])

abbrev pub ino_flags : Inode → Out
ino_flags ino = lines (
    lines (
      say "├─┬─ Flags:"
      ∷ row "│ ├─── Secure rm?..... " (yes_no ino.flags fl_secure_rm)
      ∷ row "│ ├─── Record unrm?... " (yes_no ino.flags fl_record_unrm)
      ∷ row "│ ├─── Compress?...... " (yes_no ino.flags fl_compress)
      ∷ row "│ ├─── Sync?.......... " (yes_no ino.flags fl_sync)
      ∷ row "│ ├─── Immutable?..... " (yes_no ino.flags fl_immutable)
      ∷ row "│ ├─── Append?........ " (yes_no ino.flags fl_append)
      ∷ row "│ ├─── No dump?....... " (yes_no ino.flags fl_no_dump)
      ∷ row "│ ├─── No atime?...... " (yes_no ino.flags fl_no_atime)
      ∷ say "│ │"
      ∷ [])
    ∷ (if bit_and ino.flags fl_compress == 0
        then say "│ ├─── Compression: not used"
        else lines (
            say "│ ├─┬─ Compression:"
            ∷ row "│ │ ├─── Dirty?............. " (yes_no ino.flags fl_dirty)
            ∷ row "│ │ ├─── Compress blocks?... " (yes_no ino.flags fl_compblks)
            ∷ row "│ │ ├─── Access raw data?... " (yes_no ino.flags fl_rawdata)
            ∷ row "│ │ └─── Compress error?.... " (yes_no ino.flags fl_comperr)
            ∷ []))
    ∷ lines (
        say "│ │"
        ∷ row "│ ├─── BTree/hash dir?... " (yes_no ino.flags fl_btree_dir)
        ∷ row "│ ├─── Imagic?........... " (yes_no ino.flags fl_imagic_dir)
        ∷ row "│ ├─── Journal data?..... " (yes_no ino.flags fl_journal_data)
        ∷ row "│ └─── Reserved?......... " (yes_no ino.flags fl_reserved)
        ∷ say "│"
        ∷ [])
    ∷ [])

-- the loop over the direct blocks
unfoldable pub ino_direct : (rounds i : ℕ) → List ℕ → Run Out
ino_direct zero i block = ok []
ino_direct (suc n) i block =
    and_then (at block i)
      λ b. and_then (ino_direct n (i + 1) block) λ rest. ok (row "│ │ ├─── Block #" (dec b) ++ rest)

abbrev pub ino_blocks : Inode → Run Out
ino_blocks ino = and_then (ino_direct 11 0 ino.block) λ direct. and_then (at ino.block 11) λ last.
    and_then (at ino.block 12) λ indirect. and_then (at ino.block 13) λ doubly.
      and_then (at ino.block 14) λ trebly. ok (
        lines (
          say "├─┬─ Blocks:"
          ∷ row "│ ├─── 512-byte blocks count... " (dec ino.blocks)
          ∷ say "│ ├─┬─ Direct blocks:"
          ∷ direct
          ∷ row "│ │ └─── Block #" (dec last)
          ∷ say "│ │"
          ∷ row "│ ├─── Indirect block.......... #" (dec indirect)
          ∷ row "│ ├─── Doubly-indirect block... #" (dec doubly)
          ∷ row "│ └─── Trebly-indirect block... #" (dec trebly)
          ∷ []))

unfoldable pub ino_dump : Inode → (revision i : ℕ) → Run Out
ino_dump ino revision i = and_then (ino_size revision ino) λ size.
    and_then (ino_blocks ino) λ blocks. ok (
      lines (
        (lit "* Inode (#" ∷ sdec i 32 ∷ lit ")\n" ∷ [])
        ∷ say "│"
        ∷ ino_mode ino
        ∷ row "├─ UID.... " (dec ino.uid)
        ∷ (lit "├─ Size... " ∷ sdec size 64 ∷ lit " bytes\n" ∷ [])
        ∷ say "│"
        ∷ ino_times ino
        ∷ ino_links ino
        ∷ ino_flags ino
        ∷ blocks
        ∷ []))
