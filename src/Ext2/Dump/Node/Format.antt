-- ===== src/Ext2/Dump/Node/Format.antt =====
-- What the dump of an inode says of its format and its size.
use ext2p.Prelude.{ℕ, ◌*◌, ◌/◌, ◌^◌, ◌<◌, ◌≡◌, refl, arith, [], ◌∷◌, bit_and, lt→ltb}
use ext2p.Prelude.Bits.{bit_and-shift}
use ext2p.Machine.{ok}
use ext2p.Output.{lit, row, say, lines}
use ext2p.Inode.{Inode}
use ext2p.Bg.{BlockGroup, bg_get_inode_size}
use ext2p.Ext2.Dump.Node.{ino_format, ino_size}

-- The dump calls a regular file a socket and a symbolic link as well: it tests single bits of the
-- format, and those of a file, a socket and a link overlap.
ino_format-file :
    (mode : ℕ)
    → mode / 2 ^ 12 ≡ 8
    → ino_format mode
      ≡ lines (
          say "│ └─┬─ Format:"
          ∷ row "│   ├─── Socket?......... " (lit "yes")
          ∷ row "│   ├─── Symlink?........ " (lit "yes")
          ∷ row "│   ├─── Regular file?... " (lit "yes")
          ∷ row "│   ├─── Block device?... " (lit "no")
          ∷ row "│   ├─── Directory?...... " (lit "no")
          ∷ row "│   ├─── Char. device?... " (lit "no")
          ∷ row "│   └─── FIFO?........... " (lit "no")
          ∷ say "│"
          ∷ [])
ino_format-file mode file =
    let nibble : (mask : ℕ) → bit_and mode (mask * 2 ^ 12) ≡ bit_and 8 mask * 2 ^ 12 =
      λ mask. rw (bit_and-shift 12 mode mask, file) refl in
    rw (nibble 12, nibble 10, nibble 8, nibble 6, nibble 4, nibble 2, nibble 1) refl

-- The size that the dump prints is the one that `bgGetInodeSize` reads a file by, in the revision of
-- the group's superblock. From 2^31 on the upper half would be shifted into the sign of an `int64_t`.
ino_size-bg_get_inode_size :
    (bg : BlockGroup) (inode : Inode)
    → inode.size_hi < 2 ^ 31
    → ino_size bg.sb.rev_level inode ≡ ok (bg_get_inode_size bg inode)
unfolding ino_size bg_get_inode_size
ino_size-bg_get_inode_size bg inode h = rw (lt→ltb inode.size_hi (2 ^ 31) h) (ground arith)
