-- ===== src/Dir/Shift.antt =====
-- Entries put into a block one behind the other: what is then listed, and what stays as it was.
use mathlib.Core.Path.{subst}
use native.Mathlib.Nat.{add-zero, add_assoc}
use ext2p.Prelude.{
  ℕ, zero, suc, ◌+◌, ◌≤◌, ◌<◌, ◌≡◌, ◌⊎◌, inl, inr, refl, arith, List, [], ◌∷◌, ◌++◌, ap, ◌∙◌, sym,
  ◌%◌,
}
use ext2p.Machine.{Mem}
use ext2p.Util.Words.{u8_at, le16, le32}
use ext2p.Disk.{bytes_at}
use ext2p.Disk.Words.{store, byte-store, size-store}
use ext2p.Dir.{Dir}
use ext2p.Dir.Entry.{entry_of}
use ext2p.Dir.Listing.{Listing}
use ext2p.Dir.Moved.{IsEntry, AllEntries, bytes_of, length-bytes_of, entry_of-store}

-- the image with the entries put at `p` and where their lengths lead
unfoldable pub shifted : Mem → ℕ → List Dir → Mem
shifted m p [] = m
shifted m p (d ∷ ds) = shifted (store m p (bytes_of d)) (p + d.next_entry) ds

-- the same entries with the distances at which they then stand
unfoldable pub moved : ℕ → List Dir → List Dir
moved off [] = []
moved off (d ∷ ds) = record d { offset = off } ∷ moved (off + d.next_entry) ds

-- the length of their records
abbrev pub total : List Dir → ℕ
total [] = 0
total (d ∷ ds) = d.next_entry + total ds

-- Two images agree on a range.
abbrev pub Agree : (lo hi : ℕ) → Mem → Mem → Type 0
Agree lo hi m m' = (q : ℕ) → lo ≤ q → q < hi → m'.byte q ≡ m.byte q

pub bytes_at-Agree :
    (m m' : Mem) (p n : ℕ) → Agree p (p + n) m m' → bytes_at m' p n ≡ bytes_at m p n
unfolding bytes_at
bytes_at-Agree m m' p zero a = refl
bytes_at-Agree m m' p (suc n) a = rw (
  a p (omega arith) (omega arith),
  bytes_at-Agree m m' (p + 1) n (λ q l h. a q (omega arith) (omega arith)),
)

pub le32-Agree : (m m' : Mem) (p : ℕ) → Agree p (p + 4) m m' → le32 m' p ≡ le32 m p
le32-Agree m m' p a = ground (arith, a p, a (p + 1), a (p + 2), a (p + 2 + 1), a (p + 3))

-- An entry is the same in images that agree on it.
pub entry_of-Agree :
    (m m' : Mem) (p off : ℕ)
    → Agree p (p + 8 + u8_at m (p + 6)) m m'
    → entry_of m' p off ≡ entry_of m p off
entry_of-Agree m m' p off a =
    let at : (i : ℕ) → i < 8 → m'.byte (p + i) ≡ m.byte (p + i) =
      λ i h. a (p + i) (omega arith) (omega arith) in
    let len : u8_at m' (p + 6) ≡ u8_at m (p + 6) = ap (λ b. b % 256) (at 6 (omega arith)) in
    let name : bytes_at m' (p + 8) (u8_at m' (p + 6)) ≡ bytes_at m (p + 8) (u8_at m (p + 6)) =
      ap (λ n. bytes_at m' (p + 8) n) len
      ∙ bytes_at-Agree m m' (p + 8) (u8_at m (p + 6)) (λ q l h. a q (omega arith) h) in
    let i = le32-Agree m m' p (λ q l h. a q l (omega arith)) in
    let n : le16 m' (p + 4) ≡ le16 m (p + 4) =
      omega (arith, at 4, a (p + 4 + 1) (omega arith) (omega arith)) in
    let t : u8_at m' (p + 7) ≡ u8_at m (p + 7) = ap (λ b. b % 256) (at 7 (omega arith)) in cc

-- A listing is the same in images that agree on it and on the number that may end it.
pub Listing-Agree :
    (m m' : Mem) (base size off : ℕ) (ds : List Dir)
    → Listing m base size off ds
    → Agree (base + off) (base + off + total ds + 4) m m'
    → Listing m' base size off ds
Listing-Agree m m' base size off [] (inl full) a = inl full
Listing-Agree m m' base size off [] (inr unused) a =
    inr (le32-Agree m m' (base + off) (λ q l h. a q l (omega arith)) ∙ unused)
Listing-Agree m m' base size off (d ∷ ds) (inside, here, used, fits, room, l) a = (
  inside,
  here
      ∙ sym (
          entry_of-Agree m m' (base + off) off
            (λ q low h. a q low (omega (arith, ap (λ (x : Dir). x.name_len) here)))),
  used,
  fits,
  room,
  Listing-Agree m m' base size (off + d.next_entry) ds l
      (λ q low h. a q (omega arith) (omega arith)),
)

module _ (m : Mem) where
  byte-store_entry :
      (p q : ℕ) (d : Dir)
      → IsEntry d
      → (q < p) ⊎ (p + d.next_entry ≤ q)
      → (store m p (bytes_of d)).byte q ≡ m.byte q
  byte-store_entry p q d v out = ground (arith, byte-store m p (bytes_of d) q, length-bytes_of d)

pub byte-shifted :
    (m : Mem) (p q : ℕ) (ds : List Dir)
    → AllEntries ds
    → (q < p) ⊎ (p + total ds ≤ q)
    → (shifted m p ds).byte q ≡ m.byte q
unfolding shifted
byte-shifted m p q [] v out = refl
byte-shifted m p q (d ∷ ds) v out =
    byte-shifted (store m p (bytes_of d)) (p + d.next_entry) q ds v.1 (omega (arith, v.0))
    ∙ byte-store_entry m p q d v.0 (omega arith)

-- Entries put into a block from `off` on are listed there, if a zero follows them.
pub shifted-Listing :
    (m : Mem) (base size off : ℕ) (ds : List Dir)
    → AllEntries ds
    → off + total ds ≤ size
    → le32 m (base + (off + total ds)) ≡ 0
    → Listing (shifted m (base + off) ds) base size off (moved off ds)
unfolding shifted moved
shifted-Listing m base size off [] v room end =
    inr (ap (λ n. le32 m (base + n)) (sym (add-zero off)) ∙ end)
shifted-Listing m base size off (d ∷ ds) v room end =
    let p = base + off in
    let m1 = store m p (bytes_of d) in
    let m' = shifted m1 (p + d.next_entry) ds in
    let there = entry_of-store m p d v.0 off in
    let kept = entry_of-Agree m1 m' p off (λ q low h.
      byte-shifted m1 (p + d.next_entry) q ds v.1
        (inl (omega (arith, v.0, ap (λ (x : Dir). x.name_len) there)))) in
    let end' : le32 m1 (base + (off + d.next_entry + total ds)) ≡ 0 =
      ap (λ n. le32 m1 (base + n)) (omega arith)
      ∙ (le32-Agree m m1 (base + (off + (d.next_entry + total ds)))
            (λ q low h. byte-store_entry m p q d v.0 (omega arith))
          ∙ end) in
    let rest = shifted-Listing m1 base size (off + d.next_entry) ds v.1 (omega arith) end' in
    (
      omega (arith, v.0),
      sym (kept ∙ there),
      v.0.used,
      v.0.holds,
      omega arith,
      subst
          (λ (x : ℕ).
            Listing (shifted m1 x ds) base size (off + d.next_entry)
              (moved (off + d.next_entry) ds))
          (sym (add_assoc base off d.next_entry)) rest,
    )

-- What a block lists behind some entries may be replaced where those entries are left alone.
pub Listing-replace :
    (m m' : Mem) (base size off k : ℕ) (pre old new : List Dir)
    → k ≡ off + total pre
    → Listing m base size off (pre ++ old)
    → Agree (base + off) (base + k) m m'
    → Listing m' base size k new
    → Listing m' base size off (pre ++ new)
Listing-replace m m' base size off k [] old new e l a r =
    subst (λ (x : ℕ). Listing m' base size x new) (e ∙ add-zero off) r
Listing-replace m m' base size off k (d ∷ pre) old new e (inside, here, used, fits, room, l) a r = (
  inside,
  here
      ∙ sym (
          entry_of-Agree m m' (base + off) off
            (λ q low h. a q low (omega (arith, ap (λ (x : Dir). x.name_len) here)))),
  used,
  fits,
  room,
  Listing-replace m m' base size (off + d.next_entry) k pre old new (omega arith) l
      (λ q low h. a q (omega arith) h) r,
)

-- The entries that a listing holds behind some others, and where they stand.
pub Listing-drop :
    (m : Mem) (base size off k : ℕ) (pre rest : List Dir)
    → k ≡ off + total pre
    → Listing m base size off (pre ++ rest)
    → Listing m base size k rest
Listing-drop m base size off k [] rest e l =
    subst (λ (x : ℕ). Listing m base size x rest) (sym (e ∙ add-zero off)) l
Listing-drop m base size off k (d ∷ pre) rest e l =
    Listing-drop m base size (off + d.next_entry) k pre rest (omega arith) l.5

-- The records of a listing lie in its block.
pub total-le :
    (m : Mem) (base size off : ℕ) (ds : List Dir)
    → Listing m base size off ds
    → off ≤ size
    → off + total ds ≤ size
total-le m base size off [] l h = omega arith
total-le m base size off (d ∷ ds) l h =
    omega (arith, total-le m base size (off + d.next_entry) ds l.5 l.4)

pub size-shifted : (m : Mem) (p : ℕ) (ds : List Dir) → (shifted m p ds).size ≡ m.size
unfolding shifted
size-shifted m p [] = refl
size-shifted m p (d ∷ ds) =
    size-shifted (store m p (bytes_of d)) (p + d.next_entry) ds ∙ size-store m p (bytes_of d)
