-- ===== src/Bg/Shift.antt =====
-- The writes of `bgDeleteFile`: an entry, and the entries behind a deleted one.
use mathlib.Core.Path.{ap₂}
use ext2p.Prelude.{
  ℕ, zero, suc, ◌+◌, ◌≤◌, ◌<◌, ◌≡◌, arith, List, [], ◌∷◌, ◌++◌, length, ap, ◌∙◌, sym, ◌%◌,
}
use ext2p.Machine.{Mem, State, ok, set_pos, poke}
use ext2p.Disk.Bounds.{IsValid, disk_rewind_lem, disk_skip_lem}
use ext2p.Disk.Words.{
  store, le_bytes, written, size-store, disk_write8_lem, disk_write16_lem, disk_write32_lem,
  length-le_bytes,
}
use ext2p.Dir.{Dir}
use ext2p.Dir.Moved.{IsEntry, AllEntries, bytes_of, length-bytes_of}
use ext2p.Dir.Shift.{shifted, total}
use ext2p.Bg.Deletion.{write_name, write_entry, shift_down}

store-append :
    (m : Mem) (p : ℕ) (xs ys : List ℕ)
    → store m p (xs ++ ys) ≡ store (store m p xs) (p + length xs) ys
unfolding store
store-append m p [] ys = ap (λ q. store m q ys) (omega arith)
store-append m p (x ∷ xs) ys =
    store-append (poke m p (x % 256)) (p + 1) xs ys
    ∙ ap (λ q. store (store m p (x ∷ xs)) q ys) (omega arith)

-- the state after a text has been written at the position
abbrev pub stored : List ℕ → State → State
stored bs s = set_pos (s.fp.pos + length bs) (record s { mem = store s.mem s.fp.pos bs })

write_name_lem :
    (n : ℕ) (name : List ℕ) (s : State)
    → length name ≡ n
    → s.fp.pos + n ≤ s.mem.size
    → write_name n name s ≡ ok (tt, stored name s)
unfolding write_name store le_bytes
write_name_lem zero [] s e h = ground arith
write_name_lem zero (b ∷ name) s e h = absurd (omega arith)
write_name_lem (suc n) [] s e h = absurd (omega arith)
write_name_lem (suc n) (b ∷ name) s e h =
    let s1 = written 1 b s in
    let z = size-store s.mem s.fp.pos (le_bytes 1 b) in
    let once : store s.mem s.fp.pos (le_bytes 1 b) ≡ poke s.mem s.fp.pos (b % 256) =
      ap (λ v. poke s.mem s.fp.pos v) (omega arith) in
    ground (
      arith,
      disk_write8_lem b s,
      write_name_lem n name s1,
      z,
      ap (λ m. store m (s.fp.pos + 1) name) once,
    )

-- two bytes in front of a text, written on their own
store_two :
    (m : Mem) (p a b : ℕ) (bs : List ℕ)
    → store m p (a ∷ b ∷ bs)
      ≡ store (store (store m p (le_bytes 1 a)) (p + 1) (le_bytes 1 b)) (p + 1 + 1) bs
unfolding store le_bytes
store_two m p a b bs =
    ap₂ (λ x y. store (poke (poke m p x) (p + 1) y) (p + 1 + 1) bs) (omega arith) (omega arith)

-- the five writes of an entry make up its bytes
write_entry_mem :
    (d : Dir) (s : State)
    → (stored d.filename (
        written 1 d.filetype
          (written 1 d.name_len (written 2 d.next_entry (written 4 d.inode s))))).mem
      ≡ store s.mem s.fp.pos (bytes_of d)
unfolding bytes_of
write_entry_mem d s =
    let m = s.mem in
    let p = s.fp.pos in
    let a = le_bytes 4 d.inode in
    let b = le_bytes 2 d.next_entry in
    let c = d.name_len ∷ d.filetype ∷ d.filename in
    let m2 = store (store m p a) (p + 4) b in
    let four : store m p (a ++ (b ++ c)) ≡ store (store m p a) (p + 4) (b ++ c) =
      store-append m p a (b ++ c)
      ∙ ap (λ n. store (store m p a) (p + n) (b ++ c)) (length-le_bytes 4 d.inode) in
    let two : store (store m p a) (p + 4) (b ++ c) ≡ store m2 (p + 4 + 2) c =
      store-append (store m p a) (p + 4) b c
      ∙ ap (λ n. store m2 (p + 4 + n) c) (length-le_bytes 2 d.next_entry) in
    sym (four ∙ (two ∙ store_two m2 (p + 4 + 2) d.name_len d.filetype d.filename))

write_entry_lem :
    (d : Dir) (s : State)
    → IsEntry d
    → s.fp.pos + 8 + d.name_len ≤ s.mem.size
    → write_entry d s ≡ ok (tt, stored (bytes_of d) s)
unfolding write_entry
write_entry_lem d s v h =
    let s1 = written 4 d.inode s in
    let s2 = written 2 d.next_entry s1 in
    let s3 = written 1 d.name_len s2 in
    let s4 = written 1 d.filetype s3 in
    ground (
      arith,
      v,
      size-store s.mem s.fp.pos (le_bytes 4 d.inode),
      size-store s1.mem s1.fp.pos (le_bytes 2 d.next_entry),
      size-store s2.mem s2.fp.pos (le_bytes 1 d.name_len),
      size-store s3.mem s3.fp.pos (le_bytes 1 d.filetype),
      disk_write32_lem d.inode s,
      disk_write16_lem d.next_entry s1,
      disk_write8_lem d.name_len s2,
      disk_write8_lem d.filetype s3,
      write_name_lem d.name_len d.filename s4,
      length-bytes_of d,
      write_entry_mem d s,
    )

-- Entries are written one behind the other, each at the end of the record before it.
pub shift_down_lem :
    (ds : List Dir) (s : State)
    → IsValid s
    → AllEntries ds
    → s.fp.pos + total ds < s.fp.start + s.fp.size
    → shift_down ds s
      ≡ ok (tt, set_pos (s.fp.pos + total ds) (record s { mem = shifted s.mem s.fp.pos ds }))
unfolding shift_down shifted
shift_down_lem [] s v es room = ground arith
shift_down_lem (d ∷ ds) s v es room =
    let s1 = stored (bytes_of d) s in
    let v1 : IsValid s1 =
      omega (arith, length-bytes_of d, size-store s.mem s.fp.pos (bytes_of d), es.0) in
    let s2 = set_pos s.fp.pos s1 in
    let v2 : IsValid s2 = omega (arith, size-store s.mem s.fp.pos (bytes_of d)) in
    let s3 = set_pos (s.fp.pos + d.next_entry) s1 in
    let v3 : IsValid s3 = omega (arith, size-store s.mem s.fp.pos (bytes_of d)) in
    ground (
      arith,
      es.0,
      length-bytes_of d,
      write_entry_lem d s es.0 (omega (arith, es.0)),
      disk_rewind_lem s1 v1 (8 + d.name_len),
      disk_skip_lem s2 v2 d.next_entry,
      shift_down_lem ds s3 v3 es.1,
    )
