-- ===== src/Dir/Loop.antt =====
-- How the loop of dir.c can end on any image, and when it does not end.
use ext2p.Prelude.{
  ℕ, zero, suc, ◌+◌, ◌^◌, ◌≤◌, ◌<◌, ◌≡◌, ◌≢◌, inl, inr, refl, arith, List, Bool, true, false,
  le→leb, lt→leb, le→ltb, lt→ltb,
}
use ext2p.Machine.{Mem, State, Run, ok, fatal, fault, out_of_fuel, set_pos}
use ext2p.Util.Words.{u8_at, le16, le32}
use ext2p.Disk.Bounds.{IsValid}
use ext2p.Dir.{Dir, read_entry, dir_loop, dir_read_linked_list}
use ext2p.Dir.Entry.{entry_of, read_entry_lem}
use native.Mathlib.Decide.{dec_lt, ℕ_discrete}
use ext2p.Dir.Round.{
  put_in_front, read_entry_total, dir_loop-stuck, dir_loop-next, dir_loop-near_end, dir_loop-unused,
  dir_loop-broken,
}

-- From the entry at `p`, record lengths lead over entries in use to one whose record length is zero: it
-- starts before `end`, the end of the block, and its head lies before `limit`, the end of the disk.
pub data LeadsToEmpty (m : Mem) (end limit : ℕ) : ℕ → Type 0 where
  empty_here :
      {p : ℕ}
      → p < end
      → p + 32 < limit
      → le32 m p ≢ 0
      → le16 m (p + 4) ≡ 0
      → LeadsToEmpty m end limit p
  empty_behind :
      {p : ℕ}
      → le32 m p ≢ 0
      → LeadsToEmpty m end limit (p + le16 m (p + 4))
      → LeadsToEmpty m end limit p

-- How a call of the loop can end that starts at a valid state, in a block that ends at `end`.
abbrev pub Explained : State → (end : ℕ) → Bool → Run (List Dir × State) → Type 0
Explained s end first (ok (ds, s')) = (s'.mem ≡ s.mem) × IsValid s'
Explained s end first fatal = Unit
Explained s end first fault = (first ≡ true) × (le32 s.mem s.fp.pos ≡ 0)
Explained s end first out_of_fuel = LeadsToEmpty s.mem end (s.fp.start + s.fp.size) s.fp.pos

Explained-cons :
    (s : State) (end : ℕ) (first : Bool) (d : Dir) (r : Run (List Dir × State))
    → le32 s.mem s.fp.pos ≢ 0
    → Explained (set_pos (s.fp.pos + le16 s.mem (s.fp.pos + 4)) s) end false r
    → Explained s end first (put_in_front d r)
Explained-cons s end first d (ok x) used h = h
Explained-cons s end first d fatal used h = h
Explained-cons s end first d fault used h = cc
Explained-cons s end first d out_of_fuel used h = empty_behind used h

Explained-unused :
    (fuel block_size off end : ℕ) (first : Bool) (s : State)
    → IsValid s
    → s.fp.pos + 32 < s.fp.start + s.fp.size
    → le32 s.mem s.fp.pos ≡ 0
    → Explained s end first (dir_loop (suc fuel) block_size off first s)
Explained-unused fuel block_size off end true s v h z =
    rw (dir_loop-unused fuel block_size off true s v h z) (refl, z)
Explained-unused fuel block_size off end false s v h z =
    rw (dir_loop-unused fuel block_size off false s v h z) (refl, omega (arith, v))

-- a round that takes an entry, given what the rest of the loop does
Explained-next :
    (fuel block_size off end : ℕ) (first : Bool) (s : State)
    → IsValid s
    → off < block_size
    → block_size ≤ 2 ^ 31
    → s.fp.pos + 32 < s.fp.start + s.fp.size
    → le32 s.mem s.fp.pos ≢ 0
    → read_entry off (le32 s.mem s.fp.pos) (set_pos (s.fp.pos + 4) s)
      ≡ ok (entry_of s.mem s.fp.pos off, set_pos (s.fp.pos + 8 + u8_at s.mem (s.fp.pos + 6)) s)
    → s.fp.pos + 8 + u8_at s.mem (s.fp.pos + 6) ≤ s.mem.size
    → (let n = le16 s.mem (s.fp.pos + 4) in
        (off + n < block_size
          → s.fp.pos + n < s.fp.start + s.fp.size
          → Explained
              (set_pos (s.fp.pos + n) s)
              end
              false
              (dir_loop fuel block_size (off + n) false (set_pos (s.fp.pos + n) s)))
        → Explained s end first (dir_loop (suc fuel) block_size off first s))
Explained-next fuel block_size off end first s v inside small room used e fits rest =
    let n = le16 s.mem (s.fp.pos + 4) in
    rw (dir_loop-next fuel block_size off first s v inside small room used e fits)
      (elim (dec_lt (off + n) block_size) [
        | no full ↦ rw (le→leb block_size (off + n) (omega arith)) (refl, omega (arith, v))
        | yes more ↦
            rw (lt→leb block_size (off + n) more)
              (elim (dec_lt (s.fp.pos + n) (s.fp.start + s.fp.size)) [
                | no far ↦ rw (le→ltb (s.fp.pos + n) (s.fp.start + s.fp.size) (omega arith)) tt
                | yes near ↦ rw (lt→ltb (s.fp.pos + n) (s.fp.start + s.fp.size) near) (
                    Explained-cons s end first (entry_of s.mem s.fp.pos off) _ used
                      (rest more near))
              ])
      ])

dir_loop-Explained :
    (fuel block_size off end : ℕ) (first : Bool) (s : State)
    → IsValid s
    → s.fp.pos + block_size ≡ end + off
    → off < block_size
    → block_size ≤ 2 ^ 31
    → block_size < fuel + off
    → Explained s end first (dir_loop fuel block_size off first s)
dir_loop-Explained zero block_size off end first s v ends inside small enough = absurd (omega arith)
dir_loop-Explained (suc fuel) block_size off end first s v ends inside small enough =
    elim (dec_lt (s.fp.pos + 32) (s.fp.start + s.fp.size)) [
      | no h ↦ rw (dir_loop-near_end fuel block_size off first s v h) tt
      | yes h ↦ elim (ℕ_discrete (le32 s.mem s.fp.pos) 0) [
        | yes z ↦ Explained-unused fuel block_size off end first s v h z
        | no used ↦
            elim (read_entry_total s.fp.pos off (set_pos (s.fp.pos + 4) s) (omega (arith, v))
              refl) [
                | inl f ↦ rw (dir_loop-broken fuel block_size off first s v h used f) tt
                | inr (e, fits, _) ↦ elim (ℕ_discrete (le16 s.mem (s.fp.pos + 4)) 0) [
                  | yes empty ↦
                      rw
                        (dir_loop-stuck (suc fuel) block_size off first s v inside (omega arith) h
                          used empty e fits)
                        (empty_here (omega arith) h used empty)
                  | no long ↦
                      Explained-next fuel block_size off end first s v inside small h used e fits
                        (λ more near.
                          dir_loop-Explained fuel block_size (off + le16 s.mem (s.fp.pos + 4)) end
                            false (set_pos (s.fp.pos + le16 s.mem (s.fp.pos + 4)) s)
                            (omega (arith, v)) (omega (arith, ends)) more small (omega arith))
                ]
              ]
      ]
    ]

-- On every image, with fuel for one round more than the block has bytes, a reading of a directory
-- block from a valid position ends in one of these ways: it returns a list, with the image
-- unchanged and the disk valid; it ends the program; it frees a wild pointer, and then the block's
-- first entry is unused; or it runs on, and then the record lengths lead from the block's first entry, over
-- entries in use, to one in use that starts in the block, lies in the image and has a record length of
-- zero.
pub dir_read_linked_list-Explained :
    (fuel block_size : ℕ) (s : State)
    → IsValid s
    → 0 < block_size
    → block_size ≤ 2 ^ 31
    → block_size < fuel
    → Explained s (s.fp.pos + block_size) true (dir_read_linked_list fuel block_size s)
unfolding dir_read_linked_list
dir_read_linked_list-Explained fuel block_size s v positive small enough =
    dir_loop-Explained fuel block_size 0 (s.fp.pos + block_size) true s v (omega arith) positive
      small (omega arith)

-- A block, of 2^31 bytes at most, whose first entry is in use and has record length zero is never read to
-- the end from a valid position: whatever the fuel, it runs out. More than 24 bytes of the image must be left behind the entry's name.
pub dir_read_linked_list-stuck :
    (fuel block_size : ℕ) (s : State)
    → IsValid s
    → 0 < block_size
    → block_size ≤ 2 ^ 31
    → s.fp.pos + 32 + u8_at s.mem (s.fp.pos + 6) < s.fp.start + s.fp.size
    → le32 s.mem s.fp.pos ≢ 0
    → le16 s.mem (s.fp.pos + 4) ≡ 0
    → dir_read_linked_list fuel block_size s ≡ out_of_fuel
unfolding dir_read_linked_list
dir_read_linked_list-stuck fuel block_size s v positive small room used empty =
    dir_loop-stuck fuel block_size 0 true s v positive (omega arith) (omega arith) used empty
      (read_entry_lem s.fp.pos 0 (set_pos (s.fp.pos + 4) s) (omega (arith, v)) refl (omega arith))
      (omega (arith, v))
