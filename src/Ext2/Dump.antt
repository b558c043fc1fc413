-- ===== src/Ext2/Dump.antt =====
-- `ext2Dump` of src/ext2dump.c: what it reads and prints.
pub mod Labels
pub mod Sb
pub mod Node
pub mod Total
pub mod Outcome
use ext2p.Prelude.{ℕ, zero, suc, ◌+◌, ◌/◌, ◌==◌, if◌then◌else◌, bit_and, [], ◌∷◌, ◌++◌}
use ext2p.Machine.{Run, ok, and_then}
use ext2p.Output.{Out, say}
use ext2p.Inode.{res_root_dir}
use ext2p.Bg.{block_size, at}
use ext2p.Ext2.{Ext2, group_at}
use ext2p.Ext2.Dump.Sb.{sb_dump, bg_dump}
use ext2p.Ext2.Dump.Node.{ino_dump}

-- DUMP_SUPERBLOCK and so on
abbrev pub dump_superblock : ℕ
dump_superblock = 0x1

abbrev pub dump_bgdescriptor : ℕ
dump_bgdescriptor = 0x2

abbrev pub dump_all_bgdescriptor : ℕ
dump_all_bgdescriptor = 0x4

abbrev pub dump_inode : ℕ
dump_inode = 0x8

abbrev pub dump_inode_all : ℕ
dump_inode_all = 0x10

abbrev pub dump_inode_root : ℕ
dump_inode_root = 0x20

-- a piece of the output and the rest of it
abbrev pub then_out : Run Out → Run Out → Run Out
then_out a b = and_then a λ out. and_then b λ rest. ok (out ++ rest)

-- `n` rounds of a loop that prints element `i` and on, and an empty line after each
unfoldable pub each : (ℕ → Run Out) → (n i : ℕ) → Run Out
each dump zero i = ok []
each dump (suc n) i =
    let rest = each dump n (i + 1) in then_out (dump i) (then_out (ok (say "")) rest)

abbrev pub when : (flags flag : ℕ) → Run Out → Run Out
when flags flag r = if bit_and flags flag == 0 then ok [] else r

abbrev pub dump_sb : (now : ℕ) → Ext2 → Run Out
dump_sb now e = and_then (group_at e.bgs 0) λ bg. sb_dump now bg.sb

abbrev pub dump_group : Ext2 → ℕ → Run Out
dump_group e i = and_then (group_at e.bgs i) λ bg. ok (bg_dump bg.desc i)

abbrev pub dump_node : Ext2 → ℕ → Run Out
dump_node e i =
    and_then (group_at e.bgs 0)
      λ bg. and_then (at bg.inodes i) λ ino. ino_dump ino bg.sb.rev_level i

-- `now` is the host's clock
unfoldable pub ext2_dump : (now : ℕ) → Ext2 → (flags : ℕ) → Run Out
ext2_dump now e flags =
    then_out (when flags dump_superblock (then_out (dump_sb now e) (ok (say "")))) (
      then_out (when flags dump_bgdescriptor (each (dump_group e) 32 0)) (
        then_out
          (when flags dump_all_bgdescriptor (
            and_then (group_at e.bgs 0)
              λ bg. and_then (block_size bg.sb) λ size. each (dump_group e) (size / 32) 0))
          (then_out (when flags dump_inode (each (dump_node e) 32 0)) (
            then_out
              (when flags dump_inode_all
                (and_then (group_at e.bgs 0) λ bg. each (dump_node e) bg.sb.inodes_per_group 0))
              (when flags dump_inode_root (dump_node e res_root_dir))))))
