-- ===== src/Bg/Content.antt =====
-- `bgReadFile`: the bytes that it delivers, and the store behind its buffer.
use native.Mathlib.Decide.{dec_lt}
use ext2p.Prelude.{
  ℕ, zero, suc, ◌+◌, ◌-◌, ◌≤◌, ◌<◌, ◌≡◌, refl, arith, List, [], ◌∷◌, ◌++◌, length, ap, sym, some,
  get_elem?, take, min, ◌%◌,
}
use ext2p.Machine.{Mem, State, ok, set_pos}
use ext2p.Disk.{bytes_at}
use ext2p.Disk.Bounds.{IsValid, disk_seek_lem, disk_read8_lem, length-bytes_at}
use ext2p.Inode.{Inode}
use ext2p.Bg.{Group, block_size, bg_offset_block, copy_block, copy_blocks}
use ext2p.Bg.Lookup.{disk_of, moved_to}

-- A block is read byte by byte, to its end or to the end of the file.
pub copy_block_lem :
    (rounds size got : ℕ) (s : State)
    → IsValid s
    → got < size
    → s.fp.pos + rounds + 8 ≤ s.fp.start + s.fp.size
    → copy_block rounds size got s
      ≡ ok (
        bytes_at s.mem s.fp.pos (min rounds (size - got)),
        set_pos (s.fp.pos + min rounds (size - got)) s,
      )
unfolding copy_block bytes_at
copy_block_lem zero size got s v more room = ground arith
copy_block_lem (suc k) size got s v more room = elim (dec_lt (got + 1) size) [
  | yes h ↦
      let s' = set_pos (s.fp.pos + 1) s in
      let v' : IsValid s' = omega (arith, v) in
      let n : min (suc k) (size - got) ≡ suc (min k (size - (got + 1))) = omega arith in
      rw n (ground (arith, disk_read8_lem s v, copy_block_lem k size (got + 1) s' v' h))
  | no h ↦
      let n : min (suc k) (size - got) ≡ suc zero = omega arith in
      rw n (ground (arith, disk_read8_lem s v))
]

-- all the bytes of the blocks that start at `bases`, in order
unfoldable pub whole : Mem → ℕ → List ℕ → List ℕ
whole m size [] = []
whole m size (b ∷ bases) = bytes_at m b size ++ whole m size bases

take-bytes_at :
    (m : Mem) (p k n : ℕ) (ys : List ℕ)
    → take n (bytes_at m p k ++ ys) ≡ bytes_at m p (min k n) ++ take (n - k) ys
unfolding bytes_at
take-bytes_at m p zero n ys = ground arith
take-bytes_at m p (suc k) zero ys = ground arith
take-bytes_at m p (suc k) (suc n) ys =
    let e : min (suc k) (suc n) ≡ suc (min k n) = omega arith in
    let e' : suc n - suc k ≡ n - k = omega arith in
    rw (e, e') (ap (λ bs. m.byte p % 256 ∷ bs) (take-bytes_at m (p + 1) k n ys))

take-nil : (n : ℕ) → take {A = ℕ} n [] ≡ []
take-nil zero = refl
take-nil (suc n) = refl

-- Block `i` of an inode starts at `base`, and lies 8 bytes from the end of the image at most.
pub record BlockAt (g : Group) (inode : Inode) (size i base : ℕ) : Type 0 where
  pub block : ℕ
  pub pos : ℕ
  pub at_block : get_elem? inode.block i ≡ some block
  pub at_pos : bg_offset_block g.bg block ≡ ok pos
  pub at_base : base ≡ g.bg.data_disk.start + pos
  pub room : base + size + 8 ≤ g.bg.data_disk.start + g.bg.data_disk.size

abbrev pub Placed : Group → Inode → (size i : ℕ) → List ℕ → Type 0
Placed g inode size i [] = Unit
Placed g inode size i (b ∷ bases) = BlockAt g inode size i b × Placed g inode size (i + 1) bases

-- Each block starts before the end of the file.
abbrev pub Needed : (file size got : ℕ) → List ℕ → Type 0
Needed file size got [] = Unit
Needed file size got (b ∷ bases) =
    (got < file) × Needed file size (got + min size (file - got)) bases

BlockAt-moved_to :
    {g : Group} {inode : Inode} {size i base : ℕ} (p : ℕ)
    → BlockAt g inode size i base
    → BlockAt (moved_to p g) inode size i base
unfolding bg_offset_block
BlockAt-moved_to p b = record {
  block = b.block;
  pos = b.pos;
  at_block = b.at_block;
  at_pos = b.at_pos;
  at_base = b.at_base;
  room = b.room;
}

pub Placed-moved_to :
    (g : Group) (inode : Inode) (size i p : ℕ) (bases : List ℕ)
    → Placed g inode size i bases
    → Placed (moved_to p g) inode size i bases
Placed-moved_to g inode size i p [] h = tt
Placed-moved_to g inode size i p (b ∷ bases) h =
    (BlockAt-moved_to p h.0, Placed-moved_to g inode size (i + 1) p bases h.1)

module _ (inode : Inode) (file size : ℕ) where
  pub copy_blocks_lem :
      (i got : ℕ) (bases : List ℕ) (g : Group)
      → IsValid (disk_of g)
      → block_size g.bg.sb ≡ ok size
      → Placed g inode size i bases
      → Needed file size got bases
      → (p : ℕ) × (copy_blocks (length bases) i inode file got g
          ≡ ok (take (file - got) (whole g.mem size bases), moved_to p g))
        × IsValid (disk_of (moved_to p g))
  unfolding copy_blocks whole
  copy_blocks_lem i got [] g v at_size placed needed =
      (g.bg.data_disk.pos, ap (λ bs. ok (bs, g)) (sym (take-nil (file - got))), v)
  copy_blocks_lem i got (b ∷ bases) g v at_size placed needed =
      let n = min size (file - got) in
      let rest : file - (got + n) ≡ file - got - size = omega arith in
      let g1 = moved_to (b + n) g in
      let v0 : IsValid (disk_of (moved_to b g)) = omega (arith, v, placed.0) in
      let v1 : IsValid (disk_of g1) = omega (arith, v, placed.0) in
      let (p, e, v2) =
        copy_blocks_lem (i + 1) (got + n) bases g1 v1 at_size
          (Placed-moved_to g inode size (i + 1) (b + n) bases placed.1) needed.1 in
      (
        p,
        ground (
          arith,
          placed.0.at_block,
          placed.0.at_pos,
          placed.0.at_base,
          placed.0.room,
          disk_seek_lem placed.0.pos (disk_of g) v,
          at_size,
          copy_block_lem size file got (disk_of (moved_to b g)) v0 needed.0,
          length-bytes_at g.mem b n,
          e,
          take-bytes_at g.mem b size (file - got) (whole g.mem size bases),
          ap (λ k. take k (whole g.mem size bases)) rest,
        ),
        v2,
      )
