-- ===== src/Dir/Moved.antt =====
-- Entries as values that were read from a block, as bytes that go back into one, and as the list
-- that stands there when they are put one behind the other.
use ext2p.Disk.Bounds.{length-bytes_at}
use native.Mathlib.Nat.{add-zero}
use mathlib.Core.Path.{subst}
use ext2p.Prelude.{
  ℕ, zero, suc, ◌+◌, ◌^◌, ◌≤◌, ◌<◌, ◌≡◌, ◌≢◌, refl, arith, List, [], ◌∷◌, ◌++◌, length, ap, ◌∙◌,
  sym, get_or, ◌%◌,
}
use ext2p.Machine.{Mem}
use ext2p.Util.Words.{u8_at, le16, le32}
use ext2p.Disk.{bytes_at}
use ext2p.Disk.Words.{store, le_bytes, u8_at-store}
use ext2p.Dir.{Dir}
use ext2p.Dir.Entry.{entry_of}
use ext2p.Dir.Listing.{Listing}

abbrev pub AllBytes : List ℕ → Type 0
AllBytes [] = Unit
AllBytes (b ∷ bs) = (b < 256) × AllBytes bs

-- An entry in use whose fields fit their widths and whose record holds its name.
pub record IsEntry (d : Dir) : Type 0 where
  pub inode_fits : d.inode < 2 ^ 32
  pub used : d.inode ≢ 0
  pub next_fits : d.next_entry < 2 ^ 16
  pub len_fits : d.name_len < 256
  pub type_fits : d.filetype < 256
  pub name_length : length d.filename ≡ d.name_len
  pub name_bytes : AllBytes d.filename
  pub holds : 8 + d.name_len ≤ d.next_entry

abbrev pub AllEntries : List Dir → Type 0
AllEntries [] = Unit
AllEntries (d ∷ ds) = IsEntry d × AllEntries ds

AllBytes-bytes_at : (m : Mem) (p n : ℕ) → AllBytes (bytes_at m p n)
unfolding bytes_at
AllBytes-bytes_at m p zero = tt
AllBytes-bytes_at m p (suc n) = (omega arith, AllBytes-bytes_at m (p + 1) n)

entry_of-IsEntry :
    (m : Mem) (p off : ℕ)
    → le32 m p ≢ 0
    → 8 + u8_at m (p + 6) ≤ le16 m (p + 4)
    → IsEntry (entry_of m p off)
entry_of-IsEntry m p off used holds = record {
  inode_fits = omega arith;
  used = used;
  next_fits = omega arith;
  len_fits = omega arith;
  type_fits = omega arith;
  name_length = length-bytes_at m (p + 8) (u8_at m (p + 6));
  name_bytes = AllBytes-bytes_at m (p + 8) (u8_at m (p + 6));
  holds = holds;
}

-- What a block lists are entries.
pub Listing-AllEntries :
    (m : Mem) (base size off : ℕ) (ds : List Dir) → Listing m base size off ds → AllEntries ds
Listing-AllEntries m base size off [] l = tt
Listing-AllEntries m base size off (d ∷ ds) (inside, here, used, fits, room, l) = (
  subst (λ (x : Dir). (x.inode ≢ 0) → (8 + x.name_len ≤ x.next_entry) → IsEntry x) (sym here)
      (entry_of-IsEntry m (base + off) off) used fits,
  Listing-AllEntries m base size (off + d.next_entry) ds l,
)

-- the bytes of an entry, its padding aside
unfoldable pub bytes_of : Dir → List ℕ
bytes_of d =
    le_bytes 4 d.inode ++ (le_bytes 2 d.next_entry ++ (d.name_len ∷ d.filetype ∷ d.filename))

pub length-bytes_of : (d : Dir) → length (bytes_of d) ≡ 8 + length d.filename
unfolding bytes_of le_bytes
length-bytes_of d = omega arith

-- The bytes of a text are found where it was stored.
bytes_at-eq :
    (m : Mem) (p : ℕ) (bs : List ℕ)
    → AllBytes bs
    → ((i : ℕ) → i < length bs → u8_at m (p + i) ≡ get_or bs i 0)
    → bytes_at m p (length bs) ≡ bs
unfolding bytes_at
bytes_at-eq m p [] h e = refl
bytes_at-eq m p (b ∷ bs) h e =
    let head : u8_at m p ≡ b =
      ground (arith, e 0 (omega arith), ap (λ q. u8_at m q) (add-zero p)) in
    let tail : bytes_at m (p + 1) (length bs) ≡ bs =
      bytes_at-eq m (p + 1) bs h.1
        (λ i k. ap (λ q. u8_at m q) (omega arith) ∙ e (suc i) (omega arith)) in
    rw (head, tail)

get_or-lt : (bs : List ℕ) (i : ℕ) → AllBytes bs → get_or bs i 0 < 256
get_or-lt [] i h = omega arith
get_or-lt (b ∷ bs) zero h = h.0
get_or-lt (b ∷ bs) (suc i) h = get_or-lt bs i h.1

get_or-name : (d : Dir) (i : ℕ) → get_or (bytes_of d) (8 + i) 0 ≡ get_or d.filename i 0
unfolding bytes_of le_bytes
get_or-name d i =
    let e : 8 + i ≡ suc (suc (suc (suc (suc (suc (suc (suc i))))))) = omega arith in rw e

module _ (m : Mem) (p : ℕ) (d : Dir) (v : IsEntry d) where
  at_field :
      (q i : ℕ)
      → q ≡ p + i
      → i < 8
      → u8_at (store m p (bytes_of d)) q ≡ get_or (bytes_of d) i 0 % 256
  at_field q i e h = u8_at-store m p (bytes_of d) q i e (omega (arith, length-bytes_of d))

  at_name :
      (i : ℕ)
      → i < length d.filename
      → u8_at (store m p (bytes_of d)) (p + 8 + i) ≡ get_or d.filename i 0
  at_name i h = omega (
    arith,
    u8_at-store m p (bytes_of d) (p + 8 + i) (8 + i) (omega arith)
        (omega (arith, length-bytes_of d)),
    get_or-name d i,
    get_or-lt d.filename i v.name_bytes,
  )

  store_inode : le32 (store m p (bytes_of d)) p ≡ d.inode
  unfolding bytes_of le_bytes
  store_inode = omega (
    arith,
    at_field p 0 (omega arith) (omega arith),
    at_field (p + 1) 1 refl (omega arith),
    at_field (p + 2) 2 refl (omega arith),
    at_field (p + 3) 3 refl (omega arith),
    v.inode_fits,
  )

  store_next : le16 (store m p (bytes_of d)) (p + 4) ≡ d.next_entry
  unfolding bytes_of le_bytes
  store_next = omega (
    arith,
    at_field (p + 4) 4 refl (omega arith),
    at_field (p + 4 + 1) 5 (omega arith) (omega arith),
    v.next_fits,
  )

  store_len : u8_at (store m p (bytes_of d)) (p + 6) ≡ d.name_len
  unfolding bytes_of le_bytes
  store_len = omega (arith, at_field (p + 6) 6 refl (omega arith), v.len_fits)

  store_type : u8_at (store m p (bytes_of d)) (p + 7) ≡ d.filetype
  unfolding bytes_of le_bytes
  store_type = omega (arith, at_field (p + 7) 7 refl (omega arith), v.type_fits)

  store_name :
      bytes_at (store m p (bytes_of d)) (p + 8) (u8_at (store m p (bytes_of d)) (p + 6))
      ≡ d.filename
  store_name =
      ap (λ n. bytes_at (store m p (bytes_of d)) (p + 8) n) (store_len ∙ sym v.name_length)
      ∙ bytes_at-eq (store m p (bytes_of d)) (p + 8) d.filename v.name_bytes at_name

  -- An entry put into the image is the entry that is then found there.
  pub entry_of-store :
      (off : ℕ) → entry_of (store m p (bytes_of d)) p off ≡ record d { offset = off }
  entry_of-store off = cc (store_inode, store_next, store_len, store_type, store_name)
