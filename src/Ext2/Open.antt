-- ===== src/Ext2/Open.antt =====
-- What `ext2Open` leaves behind: the image as the file has it, and one usable block group.
use mathlib.Core.Path.{subst}
use ext2p.Prelude.{
  ℕ, zero, suc, ◌+◌, ◌%◌, ◌^◌, ◌<◌, ◌≡◌, refl, arith, List, [], ◌∷◌, ap, ◌∙◌, sym, true, ltb,
  le→ltb, if◌then◌else◌, Option, none, some, get_or, length, take, replicate,
}
use ext2p.Machine.{Mem, State, Run, ok, fatal, fault, out_of_fuel, and_then, Cmd, ◌>>◌}
use ext2p.Util.{present, util_read_file}
use ext2p.Disk.{
  require, disk_check_bounds, bytes_at, disk_open, disk_save, disk_seek, disk_seek_start, disk_skip,
  disk_get_pos, fetch,
}
use ext2p.Dir.{Dir}
use ext2p.Bg.{BlockGroup, bg_read}
use ext2p.Dir.Filetype.{ft_file}
use ext2p.Ext2.{
  Ext2, group_count, group_at, on_group, inode_to_bg, ext2_open, ext2_get_inode, ext2_get_dir,
  ext2_read_file, ext2_delete_file, ext2_save_to_file,
}
use ext2p.Ext2.Keeps.{IsInside, Same, SameAfter, Keeps, bg_read-Keeps, disk_skip-Keeps, Keeps-bind}

-- the list of groups that `ext2Open` leaves: the first one read, the others as `realloc` left them
abbrev pub Opened : Ext2 → Type 0
Opened e = (bg : BlockGroup) × (n : ℕ) × (e.bgs ≡ take n (some bg ∷ replicate n none))

-- what follows the two reads of `ext2Open`
abbrev pub finish : Option BlockGroup × State → Run (Option Ext2)
finish (r, s') = elim r [
  | none ↦ ok none
  | some bg ↦ and_then (group_count bg.sb) λ n.
      ok (some (record { mem = s'.mem; disk = s'.fp; bgs = take n (some bg ∷ replicate n none) }))
]

-- the file system that `finish` returns is over the state that it is given
abbrev pub Over : State → Ext2 → Type 0
Over s e = (e.mem ≡ s.mem) × (e.disk ≡ s.fp) × Opened e

with_count-Over :
    (bg : BlockGroup) (s : State) (e : Ext2) (r : Run ℕ)
    → and_then r (λ n.
      ok (some (record { mem = s.mem; disk = s.fp; bgs = take n (some bg ∷ replicate n none) })))
      ≡ ok (some e)
    → Over s e
with_count-Over bg s e (ok n) h = (cc, cc, (bg, n, cc))
with_count-Over bg s e fatal h = cc
with_count-Over bg s e fault h = cc
with_count-Over bg s e out_of_fuel h = cc

finish-Over :
    (r : Option BlockGroup) (s : State) (e : Ext2) → finish (r, s) ≡ ok (some e) → Over s e
finish-Over none s e h = cc
finish-Over (some bg) s e h = with_count-Over bg s e (group_count bg.sb) h

abbrev pub first_read : Cmd (Option BlockGroup)
first_read = disk_skip 1024 >> bg_read 0

run-Over :
    (s : State) (e : Ext2) (r : Run (Option BlockGroup × State))
    → SameAfter s r
    → and_then r finish ≡ ok (some e)
    → (s' : State) × Same s s' × Over s' e
run-Over s e (ok (r, s')) same h = (s', same, finish-Over r s' e h)
run-Over s e fatal same h = cc
run-Over s e fault same h = cc
run-Over s e out_of_fuel same h = cc

first_read-Keeps : Keeps first_read
first_read-Keeps = Keeps-bind (disk_skip 1024) _ (disk_skip-Keeps 1024) λ _. bg_read-Keeps 0

-- the state that the loaded file is read from
abbrev pub loaded : List ℕ → State
loaded got = record {
  mem = record {
    size = length got + 1;
    byte = λ p. if ltb p (length got) then get_or got p 0 else 0;
  };
  fp = record { start = 0; pos = 0; size = length got };
}

pub disk_open_lem : (got : List ℕ) → disk_open (present (length got) true got) ≡ some (loaded got)
unfolding disk_open util_read_file
disk_open_lem got = rw (le→ltb (length got) (length got) (omega arith)) refl

pub ext2_open_lem :
    (got : List ℕ)
    → ext2_open (present (length got) true got) ≡ and_then (first_read (loaded got)) finish
unfolding ext2_open
ext2_open_lem got = rw (ext2_open, disk_open_lem got) refl

nothing_loaded : and_then (first_read (loaded [])) finish ≡ fatal
unfolding disk_skip require disk_check_bounds
nothing_loaded = refl

pub ext2_open-Over :
    (got : List ℕ) (e : Ext2)
    → length got < 2 ^ 62
    → ext2_open (present (length got) true got) ≡ ok (some e)
    → (s' : State) × Same (loaded got) s' × Over s' e
ext2_open-Over [] e small h = absurd (fatal-ok (sym nothing_loaded ∙ (sym (ext2_open_lem []) ∙ h)))
  where
    fatal-ok : fatal ≡ ok (some e) → ⊥
    fatal-ok k = cc
ext2_open-Over (b ∷ got) e small h =
    run-Over (loaded (b ∷ got)) e (first_read (loaded (b ∷ got)))
      (first_read-Keeps (loaded (b ∷ got)) (omega arith)) (sym (ext2_open_lem (b ∷ got)) ∙ h)

-- all members are bytes
abbrev pub Bytes : List ℕ → Type 0
Bytes [] = Unit
Bytes (b ∷ bs) = (b < 256) × Bytes bs

bytes_at-get_or :
    (m : Mem) (p : ℕ) (bs : List ℕ)
    → Bytes bs
    → ((i : ℕ) → i < length bs → m.byte (p + i) ≡ get_or bs i 0)
    → bytes_at m p (length bs) ≡ bs
unfolding bytes_at
bytes_at-get_or m p [] small same = refl
bytes_at-get_or m p (b ∷ bs) small same =
    let here : m.byte p ≡ b = ap m.byte (omega arith) ∙ same 0 (omega arith) in
    let low : b % 256 ≡ b = omega arith in
    rw (here, low)
      (ap (λ xs. b ∷ xs)
        (bytes_at-get_or m (p + 1) bs small.1
          (λ i h. ap m.byte (omega arith) ∙ same (suc i) (omega arith))))

disk_save_lem :
    (s : State) → IsInside s → disk_save true s ≡ ok (bytes_at s.mem s.fp.start s.fp.size, s)
unfolding disk_save disk_get_pos disk_seek_start fetch disk_seek disk_skip require disk_check_bounds
disk_save_lem s v = ground (arith, v.started, v.before, v.fits, v.small)

pub ext2_save_to_file_lem :
    (e : Ext2) (s : State)
    → IsInside s
    → e.mem ≡ s.mem
    → e.disk ≡ s.fp
    → ext2_save_to_file true e ≡ ok (bytes_at s.mem s.fp.start s.fp.size, e)
unfolding ext2_save_to_file
ext2_save_to_file_lem e s v mem disk =
    let st : State = record { mem = e.mem; fp = e.disk } in
    let same : st ≡ s = cc in
    let v' : IsInside st = subst IsInside (sym same) v in
    rw (disk_save_lem st v') (ap (λ (x : State). ok (bytes_at x.mem x.fp.start x.fp.size, e)) same)

-- A file of bytes that `ext2Open` mounts is written back by `ext2SaveToFile` as it was, and the file
-- system stays as it is: no read in between has changed the image.
pub ext2_save_to_file-ext2_open :
    (got : List ℕ) (e : Ext2)
    → Bytes got
    → length got < 2 ^ 62
    → ext2_open (present (length got) true got) ≡ ok (some e)
    → ext2_save_to_file true e ≡ ok (got, e)
ext2_save_to_file-ext2_open got e bytes small h =
    let (s', (same_mem, same_start, same_size, v), (mem, disk, _)) = ext2_open-Over got e small h in
    let whole : bytes_at s'.mem s'.fp.start s'.fp.size ≡ got =
      rw (same_mem, same_start, same_size)
        (bytes_at-get_or (loaded got).mem 0 got bytes (λ i k. ground arith)) in
    ext2_save_to_file_lem e s' v mem disk ∙ ap (λ bs. ok (bs, e)) whole

length-unset : (n : ℕ) → length (replicate {A = Option BlockGroup} n none) ≡ n
length-unset zero = refl
length-unset (suc n) = ap suc (length-unset n)

group_at-unset : (n m k : ℕ) → group_at (take m (replicate n none)) k ≡ fault
unfolding group_at
group_at-unset zero zero k = refl
group_at-unset zero (suc m) k = refl
group_at-unset (suc n) zero k = refl
group_at-unset (suc n) (suc m) zero = refl
group_at-unset (suc n) (suc m) (suc k) = group_at-unset n m k

pub group_at-Opened : (e : Ext2) (k : ℕ) → Opened e → 0 < k → group_at e.bgs k ≡ fault
unfolding group_at
group_at-Opened e k (bg, n, same) later =
    ap (λ (bgs : List (Option BlockGroup)). group_at bgs k) same ∙ at_take n k later
  where
    at_take : (n k : ℕ) → 0 < k → group_at (take n (some bg ∷ replicate n none)) k ≡ fault
    at_take zero k h = refl
    at_take (suc n) zero h = absurd (omega arith)
    at_take (suc n) (suc k) h = group_at-unset (suc n) n k

-- After `ext2Open` only the first block group can be used: for an inode of another group, each of
-- ext2GetInode, ext2GetDir, ext2ReadFile and ext2DeleteFile reads memory that nothing has set.
pub ext2_open-one_group :
    (got : List ℕ) (e : Ext2) (inodenum k fuel now : ℕ) (root file : Dir) (rest : List Dir)
    → length got < 2 ^ 62
    → ext2_open (present (length got) true got) ≡ ok (some e)
    → inode_to_bg e inodenum ≡ ok k
    → 0 < k
    → file.inode ≡ inodenum
    → file.filetype ≡ ft_file
    → (ext2_get_inode inodenum e ≡ fault)
      × (ext2_get_dir fuel inodenum e ≡ fault)
      × (ext2_read_file inodenum e ≡ fault)
      × (ext2_delete_file now root file rest e ≡ fault)
unfolding ext2_get_inode ext2_get_dir ext2_read_file ext2_delete_file on_group
ext2_open-one_group got e inodenum k fuel now root file rest small h at_group later same is_file =
    let (_, _, (_, _, opened)) = ext2_open-Over got e small h in
    let wild = group_at-Opened e k opened later in
    (
      rw (at_group, wild),
      rw (at_group, wild),
      rw (at_group, wild),
      rw (is_file, same, at_group, wild),
    )
