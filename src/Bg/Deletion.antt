-- ===== src/Bg/Deletion.antt =====
-- src/bg.c: bgDeleteFile, bgDeleteDir and the writing of entries.
use ext2p.Prelude.{ℕ, zero, suc, ◌+◌, ◌-◌, ◌/◌, ◌%◌, ◌^◌, bit_and, List, [], ◌∷◌, set}
use ext2p.Machine.{Run, ok, fault, and_then, Exec, Cmd, pure, lift, ◌>>=◌, ◌>>◌, u32}
use ext2p.Disk.{disk_write8, disk_write16, disk_write32, disk_skip, disk_rewind, disk_seek}
use ext2p.Inode.{zero_inode}
use ext2p.Dir.{Dir}
use ext2p.Bg.{Group, on_data, inode_to_index, at, bg_offset_block}

-- `bitmap[i >> 3] &= ~(1 << (i % 8))`
unfoldable pub clear_bit : List ℕ → ℕ → Run (List ℕ)
clear_bit bitmap i =
    and_then (at bitmap (i / 8)) λ b. ok (set bitmap (i / 8) (bit_and b (255 - 2 ^ (i % 8))))

-- the loop over `filename[i]`
unfoldable pub write_name : ℕ → List ℕ → Cmd (Unit {0})
write_name zero name = pure tt
write_name (suc n) [] = λ _. fault
write_name (suc n) (b ∷ name) = disk_write8 b >> write_name n name

unfoldable pub write_entry : Dir → Cmd (Unit {0})
write_entry d = do
  disk_write32 d.inode
  disk_write16 d.next_entry
  disk_write8 d.name_len
  disk_write8 d.filetype
  write_name d.name_len d.filename

-- the loop that shifts the entries behind the deleted one down
unfoldable pub shift_down : List Dir → Cmd (Unit {0})
shift_down [] = pure tt
shift_down (d ∷ ds) = do
  write_entry d
  disk_rewind (8 + d.name_len)
  disk_skip d.next_entry
  shift_down ds

-- `root` is the first node of the listing, `rest` the nodes behind `dir`, `now` the clock. `sizeLo` is
-- signed: an overflow of its subtraction, which C leaves undefined, is taken to wrap.
unfoldable pub bg_delete_file : (now : ℕ) (root dir : Dir) (rest : List Dir) → Exec Group (Unit {0})
bg_delete_file now root dir rest g =
    (do
      i ← lift (inode_to_index g.bg dir.inode)
      bitmap ← lift (clear_bit g.bg.inode_bitmap i)
      _ ← lift (at g.bg.inodes i)
      let erased = set g.bg.inodes i zero_inode
      r ← lift (inode_to_index g.bg root.inode)
      root_inode ← lift (at erased r)
      block ← lift (at root_inode.block 0)
      pos ← lift (bg_offset_block g.bg block)
      on_data (disk_seek pos)
      on_data (disk_skip dir.offset)
      let shrunk = record root_inode {
        size_lo = (root_inode.size_lo + u32 - (4 + dir.next_entry)) % u32;
      }
      let shrunk_list = set erased r shrunk
      inode ← lift (at shrunk_list i)
      let inodes = set shrunk_list i (record inode { delete_time = now % u32 })
      (λ g'. ok (tt, record g' { bg = record (g'.bg) { inode_bitmap = bitmap; inodes = inodes } }))
      on_data (elim rest [ [] ↦ disk_write32 0 | d ∷ ds ↦ shift_down (d ∷ ds) ]))
      g

-- `bgDeleteDir` computes the address of the inode and leaves everything as it is.
unfoldable pub bg_delete_dir : Dir → Exec Group (Unit {0})
bg_delete_dir dir g = and_then (inode_to_index g.bg dir.inode) λ _. ok (tt, g)
