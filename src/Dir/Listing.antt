-- ===== src/Dir/Listing.antt =====
-- What a directory block lists, stated on its bytes, and that the loop of dir.c reads just that.
use mathlib.Core.Path.{subst}
use native.Mathlib.Decide.{dec_lt}
use ext2p.Prelude.{
  ℕ, zero, suc, ◌+◌, ◌^◌, ◌≤◌, ◌<◌, ◌≡◌, ◌≢◌, ◌⊎◌, inl, inr, refl, arith, List, [], ◌∷◌, length, ap,
  Bool, true, false, if◌then◌else◌, leb, sym,
}
use ext2p.Machine.{Mem, State, Run, ok, set_pos, and_then}
use ext2p.Util.Words.{u8_at, le32}
use ext2p.Disk.Bounds.{IsValid, disk_read32_lem, disk_rewind_lem, disk_skip_lem}
use ext2p.Dir.{Dir, dir_loop, dir_read_linked_list}
use ext2p.Dir.Entry.{entry_of, read_entry_lem}

-- The block of `size` bytes at `base` lists `ds` from the distance `off` on: each entry is decoded
-- where the record lengths before it lead, is in use, holds its own name and ends in the block; the
-- list ends with the block or at an entry whose inode number is zero.
abbrev pub Listing : Mem → (base size off : ℕ) → List Dir → Type 0
Listing m base size off [] = (size ≤ off) ⊎ (le32 m (base + off) ≡ 0)
Listing m base size off (d ∷ ds) =
    (off < size)
    × (d ≡ entry_of m (base + off) off)
    × (d.inode ≢ 0)
    × (8 + d.name_len ≤ d.next_entry)
    × (off + d.next_entry ≤ size)
    × Listing m base size (off + d.next_entry) ds

abbrev pub Nonempty : List Dir → Type 0
Nonempty [] = ⊥
Nonempty (d ∷ ds) = Unit

abbrev pub Started : Bool → List Dir → Type 0
Started true ds = Nonempty ds
Started false ds = Unit

-- The disk stands at the distance `off` of a block that lies in the image with 40 bytes to spare.
abbrev pub InBlock : (base size off : ℕ) → State → Type 0
InBlock base size off s =
    IsValid s
    × (s.fp.start ≤ base)
    × (s.fp.pos ≡ base + off)
    × (base + size + 40 ≤ s.fp.start + s.fp.size)
    × (size ≤ 2 ^ 31)

-- The loop stops at an entry that is not in use.
dir_loop-end :
    (fuel base size off : ℕ) (s : State)
    → InBlock base size off s
    → off < size
    → le32 s.mem (base + off) ≡ 0
    → dir_loop (suc fuel) size off false s ≡ ok ([], set_pos (base + off + 4) s)
unfolding dir_loop
dir_loop-end fuel base size off s at inside unused =
    ground (arith, disk_read32_lem s at.0, ap (λ p. le32 s.mem p) at.2)

-- The loop over an entry in use: it is taken, and the loop goes on where its length leads.
abbrev go_on : (fuel base size off : ℕ) → State → Dir → Run (List Dir × State)
go_on fuel base size off s d =
    if leb size (off + d.next_entry)
    then ok (d ∷ [], set_pos (base + off + 8 + d.name_len) s)
    else and_then
        (dir_loop fuel size (off + d.next_entry) false (set_pos (base + off + d.next_entry) s))
        λ (ds, s'). ok (d ∷ ds, s')

dir_loop-step :
    (fuel base size off : ℕ) (first : Bool) (s : State)
    → InBlock base size off s
    → off < size
    → (let d = entry_of s.mem (base + off) off in
        (d.inode ≢ 0)
        → (8 + d.name_len ≤ d.next_entry)
        → (off + d.next_entry ≤ size)
        → dir_loop (suc fuel) size off first s ≡ go_on fuel base size off s d)
unfolding dir_loop
dir_loop-step fuel base size off first s at inside used fits room =
    let p = base + off in
    let d = entry_of s.mem p off in
    let v' : IsValid (set_pos (p + 4) s) = omega (arith, at) in
    let q = p + 8 + u8_at s.mem (p + 6) in
    let v'' : IsValid (set_pos q s) = omega (arith, at) in
    let v3 : IsValid (set_pos p s) = omega (arith, at) in
    let wide : p + 32 + u8_at s.mem (p + 6) < s.fp.start + s.fp.size = omega (arith, at) in
    ground (
      arith,
      disk_read32_lem s at.0,
      at.2,
      read_entry_lem p off (set_pos (p + 4) s) v' refl wide,
      disk_rewind_lem (set_pos q s) v'' (8 + d.name_len),
      disk_skip_lem (set_pos p s) v3 d.next_entry,
    )

dir_loop-cons :
    (fuel base size off : ℕ) (first : Bool) (d : Dir) (ds : List Dir) (s : State)
    → InBlock base size off s
    → Listing s.mem base size off (d ∷ ds)
    → dir_loop (suc fuel) size off first s ≡ go_on fuel base size off s d
dir_loop-cons fuel base size off first d ds s at (inside, here, used, fits, room, l) =
    subst
      (λ (x : Dir).
        (x.inode ≢ 0)
        → (8 + x.name_len ≤ x.next_entry)
        → (off + x.next_entry ≤ size)
        → dir_loop (suc fuel) size off first s ≡ go_on fuel base size off s x)
      (sym here) (dir_loop-step fuel base size off first s at inside) used fits room

-- A block that is full lists nothing more.
Listing-full :
    (m : Mem) (base size off : ℕ) (ds : List Dir)
    → Listing m base size off ds
    → size ≤ off
    → ds ≡ []
Listing-full m base size off [] l full = refl
Listing-full m base size off (d ∷ ds) l full = absurd (omega (arith, l.0))

-- where the loop leaves the disk, which is in the block or just behind it
abbrev pub Reads : (base size : ℕ) → State → List Dir → Run (List Dir × State) → Type 0
Reads base size s ds r = (p : ℕ) × (r ≡ ok (ds, set_pos p s)) × (base ≤ p) × (p ≤ base + size + 4)

module _ (base size : ℕ) where
  dir_loop-Listing :
      (fuel off : ℕ) (first : Bool) (ds : List Dir) (s : State)
      → InBlock base size off s
      → off < size
      → length ds < fuel
      → Started first ds
      → Listing s.mem base size off ds
      → Reads base size s ds (dir_loop fuel size off first s)
  dir_loop-Listing zero off first ds s at inside enough started l = absurd (omega arith)
  dir_loop-Listing (suc fuel) off true [] s at inside enough started l = absurd started
  dir_loop-Listing (suc fuel) off false [] s at inside enough started (inl full) =
      absurd (omega arith)
  dir_loop-Listing (suc fuel) off false [] s at inside enough started (inr unused) =
      (base + off + 4, dir_loop-end fuel base size off s at inside unused, omega arith, omega arith)
  dir_loop-Listing (suc fuel) off first (d ∷ ds) s at inside enough started l =
      elim (dec_lt (off + d.next_entry) size) [
        | no full ↦ (
          base + off + 8 + d.name_len,
          ground (
            arith,
            dir_loop-cons fuel base size off first d ds s at l,
            Listing-full s.mem base size (off + d.next_entry) ds l.5,
          ),
          omega (arith, l),
          omega (arith, l),
        )
        | yes more ↦
            let s' = set_pos (base + off + d.next_entry) s in
            let at' : InBlock base size (off + d.next_entry) s' = omega (arith, at, l) in
            let (p, e, low, high) =
              dir_loop-Listing fuel (off + d.next_entry) false ds s' at' more (omega arith) tt
                l.5 in
            (p, ground (arith, dir_loop-cons fuel base size off first d ds s at l, e), low, high)
      ]

-- A block that lists `ds`, one entry at least, with its records in the block and the block 40 bytes
-- from the end of the image at most, is read as `ds` when the fuel is more than their number; the
-- image is as before, and the disk stands in the block or at most four bytes behind it.
pub dir_read_linked_list-Listing :
    (base size fuel : ℕ) (ds : List Dir) (s : State)
    → InBlock base size 0 s
    → 0 < size
    → length ds < fuel
    → Nonempty ds
    → Listing s.mem base size 0 ds
    → Reads base size s ds (dir_read_linked_list fuel size s)
unfolding dir_read_linked_list
dir_read_linked_list-Listing base size fuel ds s at inside enough some_entry l =
    dir_loop-Listing base size fuel 0 true ds s at inside enough some_entry l
