-- ===== src/Shell/Commands/Status.antt =====
-- `stat` in a mounted directory.
use ext2p.Prelude.{
  ℕ, ◌+◌, ◌-◌, ◌*◌, ◌/◌, ◌^◌, ◌<◌, ◌≡◌, refl, arith, List, [], ◌∷◌, ◌++◌, ap, length, ltb, ◌∙◌,
  false, some, ◌==◌, ◌&&◌, if◌then◌else◌, Bool-cases, inl, inr,
}
use ext2p.Machine.{ok, fault, shl}
use ext2p.Output.{Out}
use ext2p.Inode.{Inode}
use ext2p.Superblock.{rev_dynamic}
use ext2p.Dir.{Dir}
use ext2p.Bg.{index_warning, BlockGroup, bg_get_inode, bg_get_inode_size, inode_to_index}
use ext2p.Bg.Size.{bg_get_inode_size_lem}
use ext2p.Bg.Lookup.{DirAt, moved_to}
use ext2p.Ext2.{
  Ext2, group_at, on_group, inode_to_bg, ext2_get_dir, ext2_get_dir_out, ext2_get_inode,
  ext2_get_inode_size,
}
use ext2p.Ext2.Delete.{with_group, first_group, group_at-with_group, inode_to_bg-with_group}
use ext2p.Shell.{Shell, Host, on_fs, found_in}
use ext2p.Shell.Size.{humanize_size, humanize_size_lem}
use ext2p.Shell.Stat.{shell_stat, stat_out}
use ext2p.Shell.Commands.Enter.{listed_step}
use ext2p.Shell.Commands.Remove.{with_fs, get_file-ok}

-- The size of a file: its low word, with the high word above it in revision 1.
abbrev pub size_of : BlockGroup → Inode → ℕ
size_of bg node =
    node.size_lo + (if bg.sb.rev_level == rev_dynamic then node.size_hi * 2 ^ 32 else 0)

-- the largest unit of which a size has one, or bytes: the unit's index and how many it has
abbrev pub unit_of : ℕ → ℕ × ℕ
unit_of size =
    if ltb size (2 ^ 10)
    then (0, size)
    else if ltb size (2 ^ 20)
    then (1, size / 2 ^ 10)
    else if ltb size (2 ^ 30)
    then (2, size / 2 ^ 20)
    else if ltb size (2 ^ 40)
    then (3, size / 2 ^ 30)
    else (4, size / 2 ^ 40)

humanize_size-unit_of :
    (size : ℕ) → humanize_size size ≡ (if ltb size (2 ^ 50) then ok (unit_of size) else fault)
humanize_size-unit_of size = rw (humanize_size_lem size) (ground arith)

-- The size as a text: a signed low word that is negative makes it too large for every unit.
human_size :
    (bg : BlockGroup) (node : Inode)
    → node.size_lo < 2 ^ 32
    → node.size_hi < 2 ^ 32
    → humanize_size (bg_get_inode_size bg node) ≡ (
        if ltb node.size_lo (2 ^ 31) && ltb (size_of bg node) (2 ^ 50)
        then ok (unit_of (size_of bg node))
        else fault)
human_size bg node lo hi =
    ap humanize_size (bg_get_inode_size_lem bg node lo hi)
    ∙ elim (Bool-cases (ltb node.size_lo (2 ^ 31))) [
      | inl low ↦ rw low (humanize_size-unit_of (size_of bg node))
      | inr high ↦
          let large : ltb (node.size_lo + (2 ^ 64 - 2 ^ 32)) (2 ^ 50) ≡ false = ground arith in
          rw high (humanize_size-unit_of (node.size_lo + (2 ^ 64 - 2 ^ 32)) ∙ rw large refl)
    ]

module _ (host : Host) (cmd filename : List ℕ) (sh : Shell) (e e0 e1 e2 : Ext2) (bg : BlockGroup)
    (ds : List Dir) (root dir : Dir) (rest : List Dir) (node : Inode) (block : ℕ)
    (listed : ext2_get_dir host.fuel sh.cd e ≡ ok (some ds, e0))
    (found : found_in ds filename ≡ some (root, dir, rest))
    (got : ext2_get_inode dir.inode e0 ≡ ok (node, e1))
    (sized : ext2_get_inode_size dir.inode node e1 ≡ ok (bg_get_inode_size bg node, e2))
    (first : group_at e2.bgs 0 ≡ ok bg) (at_block : shl 30 2 bg.sb.log_block_size ≡ ok block) where
  shell_stat-ok :
      (size : ℕ × ℕ)
      → humanize_size (bg_get_inode_size bg node) ≡ ok size
      → shell_stat host (cmd ∷ (filename ∷ [])) (with_fs sh e)
        ≡ ok (
          (0, ext2_get_dir_out sh.cd e ++ stat_out dir node size (node.blocks / block)),
          with_fs sh e2,
        )
  unfolding shell_stat on_fs
  shell_stat-ok size human =
      rw (get_file-ok host filename sh e e0 ds listed, found, got, sized, human, first, at_block)
        refl

  shell_stat-fault :
      humanize_size (bg_get_inode_size bg node) ≡ fault
      → shell_stat host (cmd ∷ (filename ∷ [])) (with_fs sh e) ≡ fault
  unfolding shell_stat on_fs
  shell_stat-fault human =
      rw (get_file-ok host filename sh e e0 ds listed, found, got, sized, human) refl

-- The inode of the first group and its size: the file system is written back as it was.
inode_step :
    (e : Ext2) (bg : BlockGroup) (inodenum : ℕ) (node : Inode)
    → group_at e.bgs 0 ≡ ok bg
    → inode_to_bg e inodenum ≡ ok 0
    → bg_get_inode bg inodenum ≡ ok node
    → (let g = first_group e bg in
        (ext2_get_inode inodenum e ≡ ok (node, with_group e g))
        × (ext2_get_inode_size inodenum node (with_group e g)
            ≡ ok (bg_get_inode_size bg node, with_group (with_group e g) g))
        × (group_at (with_group (with_group e g) g).bgs 0 ≡ ok bg))
unfolding ext2_get_inode ext2_get_inode_size on_group
inode_step e bg inodenum node first here got =
    let g = first_group e bg in
    let first1 : group_at (with_group e g).bgs 0 ≡ ok bg = group_at-with_group e bg g first in
    let here1 : inode_to_bg (with_group e g) inodenum ≡ ok 0 =
      inode_to_bg-with_group e bg first g inodenum refl ∙ here in
    (
      rw (here, first, got) refl,
      rw (here1, first1) refl,
      group_at-with_group (with_group e g) bg g first1,
    )

module _ (host : Host) (sh : Shell) (e : Ext2) (bg : BlockGroup) {base size : ℕ}
    (first : group_at e.bgs 0 ≡ ok bg) (ds : List Dir)
    (at_dir : DirAt (first_group e bg) sh.cd base size ds) where
  -- `stat` of a name that the current directory lists prints, behind the warning on an indexed
  -- directory where the directory is one, the entry's name and type, the values of its inode, its blocks
  -- of the file system, and its size as the whole part in the largest unit of which the size has
  -- one; it ends with the status of a success and leaves the image as it was. From 2^31 on in the low word
  -- of the size, or from 2^50 bytes on, it reads behind the table of suffixes instead. The directory
  -- and the entry's inode lie in the first block group, the entry is the first of its name, the
  -- words of the size have 32 bits, the sectors of a block fit an `int`, and the fuel is for more rounds
  -- than the directory has entries.
  pub shell_stat_lem :
      (cmd filename : List ℕ) (root dir : Dir) (rest : List Dir) (node : Inode) (sectors : ℕ)
      → inode_to_bg e sh.cd ≡ ok 0
      → inode_to_bg e dir.inode ≡ ok 0
      → found_in ds filename ≡ some (root, dir, rest)
      → bg_get_inode bg dir.inode ≡ ok node
      → node.size_lo < 2 ^ 32
      → node.size_hi < 2 ^ 32
      → shl 30 2 bg.sb.log_block_size ≡ ok sectors
      → length ds < host.fuel
      → (e1 : Ext2) × (shell_stat host (cmd ∷ (filename ∷ [])) (with_fs sh e) ≡ (
          if ltb node.size_lo (2 ^ 31) && ltb (size_of bg node) (2 ^ 50)
          then ok (
            (
              0,
              index_warning at_dir.node
                  ++ stat_out dir node (unit_of (size_of bg node)) (node.blocks / sectors),
            ),
            with_fs sh e1,
          )
          else fault))
        × (e1.mem ≡ e.mem)
  unfolding bg_get_inode inode_to_index bg_get_inode_size
  shell_stat_lem cmd filename root dir rest node sectors cd_group dir_group found got lo hi at_block
        enough =
      let (p, (listed, told, first0, same, _)) =
        listed_step host.fuel sh.cd e bg first at_dir cd_group enough in
      let g0 = moved_to p (first_group e bg) in
      let e0 = with_group e g0 in
      let e2 = with_group (with_group e0 g0) g0 in
      let (node_got, node_sized, first2) =
        inode_step e0 g0.bg dir.inode node first0 (same dir.inode ∙ dir_group) got in
      let print : ℕ × ℕ → Out = λ size. stat_out dir node size (node.blocks / sectors) in
      (
        e2,
        elim (Bool-cases (ltb node.size_lo (2 ^ 31) && ltb (size_of bg node) (2 ^ 50))) [
          | inl fits ↦ rw fits (
              shell_stat-ok host cmd filename sh e e0 (with_group e0 g0) e2 g0.bg ds root dir rest
                node sectors listed found node_got node_sized first2 at_block
                (unit_of (size_of bg node)) (human_size bg node lo hi ∙ rw fits refl)
              ∙ ap (λ out. ok ((0, out ++ print (unit_of (size_of bg node))), with_fs sh e2)) told)
          | inr large ↦ rw large (
              shell_stat-fault host cmd filename sh e e0 (with_group e0 g0) e2 g0.bg ds root dir
                rest node sectors listed found node_got node_sized first2 at_block
                (human_size bg node lo hi ∙ rw large refl))
        ],
        refl,
      )
