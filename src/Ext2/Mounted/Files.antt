-- ===== src/Ext2/Mounted/Files.antt =====
-- A file of a mounted image, stated on the image: its bytes are those of the blocks that its inode
-- names.
use ext2p.Prelude.{
  ℕ, zero, suc, ◌+◌, ◌-◌, ◌*◌, ◌/◌, ◌%◌, ◌^◌, ◌≤◌, ◌<◌, ◌≡◌, refl, arith, List, [], ◌∷◌, ◌++◌,
  length, false, ◌==◌, bit_and, some, get_elem?, get_or, map, take, drop, ◌∙◌, ap, sym, ltb,
  if◌then◌else◌,
}
use ext2p.Machine.{ok, shl}
use ext2p.Disk.{bytes_at}
use ext2p.Inode.{Inode, fm_file}
use ext2p.Bg.{bg_get_inode}
use ext2p.Bg.Read.{sb_at, table_end}
use ext2p.Bg.Size.{bg_get_inode_size_lem}
use ext2p.Bg.Content.{whole, Placed}
use ext2p.Bg.ReadFile.{FileAt}
use ext2p.Ext2.Delete.{first_group}
use ext2p.Ext2.Open.{loaded, Bytes}
use ext2p.Ext2.Mounted.{
  ImageAt, node_at, bg, mounted, at_own_place, at_node, at_index, at_end, data_disk-IsValid,
}

-- the bytes of block `b` of an image
abbrev pub block_bytes : List ℕ → (size b : ℕ) → List ℕ
block_bytes got size b = take size (drop (b * size) got)

-- the bytes of a list of blocks, in order
abbrev pub blocks_bytes : List ℕ → ℕ → List ℕ → List ℕ
blocks_bytes got size [] = []
blocks_bytes got size (b ∷ blocks) = block_bytes got size b ++ blocks_bytes got size blocks

-- An inode names `blocks` from its place `i` on; each lies behind the inode table and 8 bytes from the
-- end of the image at most.
abbrev pub BlocksAt :
    {got : List ℕ} {size : ℕ} → ImageAt got size → Inode → (i : ℕ) → List ℕ → Type 0
BlocksAt image node i [] = Unit
BlocksAt {got} {size} image node i (b ∷ blocks) =
    (get_elem? node.block i ≡ some b)
    × (table_end image.at_group ≤ b * size)
    × (b * size + size + 8 ≤ length got)
    × BlocksAt image node (i + 1) blocks

-- The inode `inodenum` is a file of the group of less than 2 GiB, and has as many blocks, by its count
-- of sectors, as `blocks` has members.
pub record HasFile {got : List ℕ} {size : ℕ} (image : ImageAt got size) (inodenum : ℕ)
    (blocks : List ℕ) : Type 0 where
  pub sectors : ℕ
  pub one : 0 < inodenum
  pub last : inodenum ≤ (sb_at (loaded got) 1024).inodes_per_group
  pub is_file : (bit_and (node_at got size (inodenum - 1)).mode fm_file == 0) ≡ false
  pub low : (node_at got size (inodenum - 1)).size_lo < 2 ^ 31
  pub no_high : (node_at got size (inodenum - 1)).size_hi ≡ 0
  pub at_sectors : shl 30 2 (sb_at (loaded got) 1024).log_block_size ≡ ok sectors
  pub count : (node_at got size (inodenum - 1)).blocks / sectors ≡ length blocks
  pub placed : BlocksAt image (node_at got size (inodenum - 1)) 0 blocks

-- where blocks start
abbrev pub bases : ℕ → List ℕ → List ℕ
bases size = map (λ b. b * size)

pub length-bases : (size : ℕ) (blocks : List ℕ) → length (bases size blocks) ≡ length blocks
length-bases size [] = refl
length-bases size (b ∷ blocks) = ap suc (length-bases size blocks)

module _ {got : List ℕ} {size : ℕ} (image : ImageAt got size) where
  BlocksAt-Placed :
      (node : Inode) (i : ℕ) (blocks : List ℕ)
      → BlocksAt image node i blocks
      → Placed (first_group (mounted image) (bg image)) node size i (bases size blocks)
  BlocksAt-Placed node i [] h = tt
  BlocksAt-Placed node i (b ∷ blocks) h =
      let (pos, sought, at_pos) = at_own_place image b h.1 (omega (arith, h.2, image.positive)) in
      (
        record {
          block = b;
          pos = pos;
          at_block = h.0;
          at_pos = sought;
          at_base = at_pos;
          room = omega (arith, at_end image, h.2);
        },
        BlocksAt-Placed node (i + 1) blocks h.3,
      )

  pub HasFile-FileAt :
      {inodenum : ℕ} {blocks : List ℕ}
      → HasFile image inodenum blocks
      → FileAt
          (first_group (mounted image) (bg image))
          inodenum
          (node_at got size (inodenum - 1)).size_lo
          size
          (bases size blocks)
  unfolding bg_get_inode
  HasFile-FileAt {inodenum} {blocks} f = record {
    node = node_at got size (inodenum - 1);
    sectors = f.sectors;
    at_node =
        ground (arith, at_index image inodenum f.one f.last, at_node image inodenum f.one f.last);
    is_file = f.is_file;
    at_file =
        bg_get_inode_size_lem (bg image) (node_at got size (inodenum - 1)) (omega (arith, f.low))
          (omega (arith, f.no_high))
        ∙ ground (arith, f.low, f.no_high);
    at_size = image.at_group.at_size;
    positive = image.positive;
    at_sectors = f.at_sectors;
    count = f.count ∙ sym (length-bases size blocks);
    valid = data_disk-IsValid image;
    placed = BlocksAt-Placed (node_at got size (inodenum - 1)) 0 blocks f.placed;
  }

drop-get_or : (p : ℕ) (bs : List ℕ) → p < length bs → drop p bs ≡ get_or bs p 0 ∷ drop (suc p) bs
drop-get_or p [] h = absurd (omega arith)
drop-get_or zero (b ∷ bs) h = refl
drop-get_or (suc p) (b ∷ bs) h = drop-get_or p bs (omega arith)

pub get_or-Bytes : (p : ℕ) (bs : List ℕ) → Bytes bs → p < length bs → get_or bs p 0 < 256
get_or-Bytes p [] h k = absurd (omega arith)
get_or-Bytes zero (b ∷ bs) h k = h.0
get_or-Bytes (suc p) (b ∷ bs) h k = get_or-Bytes p bs h.1 (omega arith)

-- what is read of a loaded file is what the file holds
bytes_at-loaded :
    (got : List ℕ)
    → Bytes got
    → (p n : ℕ) → p + n ≤ length got
    → bytes_at (loaded got).mem p n ≡ take n (drop p got)
unfolding bytes_at
bytes_at-loaded got small p zero inside = refl
bytes_at-loaded got small p (suc n) inside =
    let b = get_or got p 0 in
    let byte : (if ltb p (length got) then b else 0) % 256 ≡ b =
      ground (arith, get_or-Bytes p got small) in
    let here : p < length got = omega arith in
    rw (drop-get_or p got here, byte)
      (ap (λ bs. b ∷ bs)
        (bytes_at-loaded got small (p + 1) n (omega arith)
          ∙ ap (λ q. take n (drop q got)) {y = suc p} (omega arith)))

pub whole-bases :
    {got : List ℕ} {size : ℕ} (image : ImageAt got size) (node : Inode)
    → Bytes got
    → (i : ℕ) (blocks : List ℕ) → BlocksAt image node i blocks
    → whole (loaded got).mem size (bases size blocks) ≡ blocks_bytes got size blocks
unfolding whole
whole-bases image node small i [] h = refl
whole-bases {got} {size} image node small i (b ∷ blocks) h =
    rw (bytes_at-loaded got small (b * size) size (omega (arith, h.2)))
      (ap (λ bs. block_bytes got size b ++ bs) (whole-bases image node small (i + 1) blocks h.3))
