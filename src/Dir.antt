-- ===== src/Dir.antt =====
-- src/dir.c and inc/dir.h. The linked list is a list; its nodes' allocation is not modelled, but a
-- free of the pointer that the caller's first node holds before it is set is a fault.
pub mod Entry
pub mod Listing
pub mod Round
pub mod Loop
pub mod Moved
pub mod Shift
pub mod Filetype
pub mod Free
use ext2p.Prelude.{
  ℕ, zero, suc, ◌+◌, ◌%◌, List, [], ◌∷◌, leb, ◌==◌, if◌then◌else◌, Bool, true, false,
}
use ext2p.Machine.{Cmd, out_of_fuel, fault, pure, ◌>>=◌, ◌>>◌, u32}
use ext2p.Disk.{disk_read8, disk_read16, disk_read32, disk_rewind, disk_skip}

pub record Dir : Type 0 where
  pub offset : ℕ
  pub inode : ℕ
  pub next_entry : ℕ
  pub name_len : ℕ
  pub filetype : ℕ
  pub filename : List ℕ

-- the loop over `filename[i]`
unfoldable pub read_name : ℕ → Cmd (List ℕ)
read_name zero = pure []
read_name (suc n) = do b ← disk_read8; bs ← read_name n; pure (b ∷ bs)

-- what the loop reads of an entry behind its inode number
unfoldable pub read_entry : ℕ → ℕ → Cmd Dir
read_entry sentinel ino = do
  next_entry ← disk_read16
  name_len ← disk_read8
  filetype ← disk_read8
  filename ← read_name name_len
  pure (record {
    offset = sentinel;
    inode = ino;
    next_entry = next_entry;
    name_len = name_len;
    filetype = filetype;
    filename = filename;
  })

-- One round of the loop for each unit of fuel. `first` says that `prev` is still the caller's node,
-- whose `next` nothing has set.
unfoldable pub dir_loop : ℕ → ℕ → ℕ → Bool → Cmd (List Dir)
dir_loop zero block_size sentinel first = λ _. out_of_fuel
dir_loop (suc fuel) block_size sentinel first = do
  ino ← disk_read32
  if ino == 0 then (if first then (λ _. fault) else pure []) else do
    d ← read_entry sentinel ino
    let sentinel' = (sentinel + d.next_entry) % u32
    if leb block_size sentinel' then pure (d ∷ []) else do
      disk_rewind (8 + d.name_len)
      disk_skip d.next_entry
      rest ← dir_loop fuel block_size sentinel' false
      pure (d ∷ rest)

unfoldable pub dir_read_linked_list : ℕ → ℕ → Cmd (List Dir)
unfolding dir_loop
dir_read_linked_list fuel block_size = dir_loop fuel block_size 0 true
