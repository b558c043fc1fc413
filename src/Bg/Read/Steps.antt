-- ===== src/Bg/Read/Steps.antt =====
-- The steps of `bgRead` on a disk that stands in the image.
use ext2p.Prelude.{
  ℕ, zero, suc, ◌+◌, ◌*◌, ◌-◌, ◌%◌, ◌≤◌, ◌<◌, ◌≡◌, arith, ◌∙◌, ap, List, [], ◌∷◌, some, get_elem?,
  lt→ltb,
}
use ext2p.Machine.{State, ok, and_then-ok, u32, u64, set_pos}
use ext2p.Disk.{bytes_at, disk_copy, disk_skip, disk_seek}
use ext2p.Disk.Bounds.{IsValid, disk_copy_lem, disk_skip_lem, disk_seek_lem}
use ext2p.Inode.{Inode, inode_of_bytes, inode_read}
use ext2p.Bg.{read_inodes}

-- the inodes that stand in a row from `p` on
abbrev pub inodes_from : (s : State) → (inode_size n p : ℕ) → List Inode
inodes_from s inode_size zero p = []
inodes_from s inode_size (suc n) p =
    inode_of_bytes (bytes_at s.mem p 128) ∷ inodes_from s inode_size n (p + inode_size)

pub get_elem?-inodes_from :
    (s : State) (inode_size n p i : ℕ)
    → i < n
    → get_elem? (inodes_from s inode_size n p) i
      ≡ some (inode_of_bytes (bytes_at s.mem (p + i * inode_size) 128))
get_elem?-inodes_from s inode_size zero p i h = absurd (omega arith)
get_elem?-inodes_from s inode_size (suc n) p zero h =
    let here : p ≡ p + 0 * inode_size = omega arith in
    ap (λ q. some (inode_of_bytes (bytes_at s.mem q 128))) here
get_elem?-inodes_from s inode_size (suc n) p (suc i) h =
    let there : p + inode_size + i * inode_size ≡ p + suc i * inode_size = omega arith in
    get_elem?-inodes_from s inode_size n (p + inode_size) i (omega arith)
    ∙ ap (λ q. some (inode_of_bytes (bytes_at s.mem q 128))) there

module _ (s : State) (v : IsValid s) where
  IsValid-at : (p : ℕ) → s.fp.start ≤ p → p < s.fp.start + s.fp.size → IsValid (set_pos p s)
  IsValid-at p h k = omega (arith, v)

  pub copy-ok :
      (p n : ℕ)
      → s.fp.start ≤ p
      → p + n < s.fp.start + s.fp.size
      → disk_copy n (set_pos p s) ≡ ok (bytes_at s.mem p n, set_pos (p + n) s)
  copy-ok p n h k =
      disk_copy_lem (set_pos p s) (IsValid-at p h (omega arith)) n (omega (arith, v))
      ∙ rw (lt→ltb (p + n) (s.fp.start + s.fp.size) k)

  pub skip-ok :
      (p n : ℕ)
      → s.fp.start ≤ p
      → p + n < s.fp.start + s.fp.size
      → disk_skip n (set_pos p s) ≡ ok (tt, set_pos (p + n) s)
  skip-ok p n h k =
      disk_skip_lem (set_pos p s) (IsValid-at p h (omega arith)) n (omega (arith, v))
      ∙ rw (lt→ltb (p + n) (s.fp.start + s.fp.size) k)

  pub seek-ok :
      (p n : ℕ)
      → s.fp.start ≤ p
      → p < s.fp.start + s.fp.size
      → n < s.fp.size
      → disk_seek n (set_pos p s) ≡ ok (tt, set_pos (s.fp.start + n) s)
  seek-ok p n h k small =
      disk_seek_lem n (set_pos p s) (IsValid-at p h k) (omega (arith, v))
      ∙ rw (lt→ltb n s.fp.size small)

  pub read_inodes-ok :
      (inode_size n p : ℕ)
      → 128 ≤ inode_size
      → inode_size < u32
      → s.fp.start ≤ p
      → p + n * inode_size < s.fp.start + s.fp.size
      → read_inodes n inode_size (set_pos p s)
        ≡ ok (inodes_from s inode_size n p, set_pos (p + n * inode_size) s)
  unfolding read_inodes inode_read
  read_inodes-ok inode_size zero p large small h k =
      let none : p ≡ p + 0 * inode_size = omega arith in ap (λ q. ok ([], set_pos q s)) none
  read_inodes-ok inode_size (suc n) p large small h k =
      let skipped : (inode_size + u64 - 128) % u64 ≡ inode_size - 128 = omega arith in
      let next : p + 128 + (inode_size - 128) ≡ p + inode_size = omega arith in
      let last : p + inode_size + n * inode_size ≡ p + suc n * inode_size = omega arith in
      let node : inode_read (set_pos p s)
          ≡ ok (inode_of_bytes (bytes_at s.mem p 128), set_pos (p + 128) s) =
        and_then-ok _ (copy-ok p 128 h (omega arith)) in
      let gap : disk_skip ((inode_size + u64 - 128) % u64) (set_pos (p + 128) s)
          ≡ ok (tt, set_pos (p + inode_size) s) =
        ap (λ n. disk_skip n (set_pos (p + 128) s)) skipped
        ∙ skip-ok (p + 128) (inode_size - 128) (omega arith) (omega arith)
        ∙ ap (λ q. ok (tt, set_pos q s)) next in
      and_then-ok _ node
      ∙ and_then-ok _ gap
      ∙ and_then-ok _
          (read_inodes-ok inode_size n (p + inode_size) large small (omega arith) (omega arith))
      ∙ ap (λ q. ok (inodes_from s inode_size (suc n) p, set_pos q s)) last
