-- ===== src/Util.antt =====
-- src/util.c and inc/util.h: raw reads through an `FP`, and the writers to a `FILE`. An `FP` here is
-- the pointers of `Machine.State`. The distance of two texts is in Util/Levenshtein.antt.
pub mod Words
pub mod Levenshtein
use ext2p.Prelude.{
  ℕ, ◌+◌, ◌-◌, ◌*◌, ◌/◌, ◌%◌, ◌^◌, bit_or, ltb, if◌then◌else◌, Bool, false, true, Option, none,
  some, List, [], ◌∷◌, ◌++◌, length, get_or, not, ◌||◌,
}
use ext2p.Output.{Out, lit, str, report}
use ext2p.Machine.{Fp, State, Cmd, fault, ok, pure, ◌>>=◌, set_pos, u64}

-- UTIL_SHF: `((B) & 0xFF) << (N)`, used where the result fits the type of `B`
abbrev pub shf : ℕ → ℕ → ℕ
shf b n = b % 256 * 2 ^ n

-- UTIL_SHFR: `((B) >> (N)) & 0xFF`
abbrev pub shfr : ℕ → ℕ → ℕ
shfr b n = b / 2 ^ n % 256

-- What the host answers when a file is opened for reading: it may be absent, the allocation may
-- fail, and `fread` may return fewer bytes than `ftell` promised.
pub data OpenFile : Type 0 where
  absent : OpenFile
  present : (size : ℕ) (allocated : Bool) (got : List ℕ) → OpenFile

-- `none` is a return of `false`. The block has one byte more than the file, a NUL.
unfoldable pub util_read_file : OpenFile → Option State
util_read_file absent = none
util_read_file (present n allocated got) =
    if not allocated || ltb (length got) n
    then none
    else some (record {
      mem = record { size = n + 1; byte = λ p. if ltb p n then get_or got p 0 else 0 };
      fp = record { start = 0; pos = 0; size = n };
    })

-- what `utilReadFile` prints for a file at `path`
unfoldable pub util_read_file_out : (path : List ℕ) → OpenFile → Out
util_read_file_out path absent =
    report (lit "couldn't open the file at '" ∷ str path ∷ lit "'\n" ∷ [])
util_read_file_out path (present n allocated got) =
    if not allocated
    then report (lit "failed to allocate buffer for file at '" ∷ str path ∷ lit "'\n" ∷ [])
    else if ltb (length got) n
    then report (lit "couldn't read the file at '" ∷ str path ∷ lit "'\n" ∷ [])
    else []

-- The clone starts where the original stands, and shares its block.
unfoldable pub util_clone_file : Fp → Fp
util_clone_file fp = record {
  start = fp.pos;
  pos = fp.pos;
  size = (fp.size + u64 - (fp.pos + u64 - fp.start) % u64) % u64;
}

-- `*fp->data++`, converted from `char` to `uint8_t`
unfoldable pub util_read8 : Cmd ℕ
util_read8 s =
    if ltb s.fp.pos s.mem.size
    then ok (s.mem.byte s.fp.pos % 256, set_pos (s.fp.pos + 1) s)
    else fault

-- The bytes are named in the order of the reads; `le` says which end is which.
unfoldable pub util_read16 : Bool → Cmd ℕ
unfolding util_read8
util_read16 le = do
  x ← util_read8
  y ← util_read8
  pure (if le then bit_or (y * 2 ^ 8) x else bit_or (x * 2 ^ 8) y)

abbrev pub join32 : ℕ → ℕ → ℕ → ℕ → ℕ
join32 a b c d = bit_or (bit_or (bit_or (shf a 24) (shf b 16)) (shf c 8)) (d % 256)

unfoldable pub util_read32 : Bool → Cmd ℕ
unfolding util_read8
util_read32 le = do
  x ← util_read8
  y ← util_read8
  z ← util_read8
  w ← util_read8
  pure (if le then join32 w z y x else join32 x y z w)

abbrev pub join64 : ℕ → ℕ → ℕ → ℕ → ℕ → ℕ → ℕ → ℕ → ℕ
join64 a b c d e f g h =
    bit_or
      (bit_or
        (bit_or
          (bit_or (bit_or (bit_or (bit_or (shf a 56) (shf b 48)) (shf c 40)) (shf d 32)) (shf e 24))
          (shf f 16))
        (shf g 8))
      (h % 256)

unfoldable pub util_read64 : Bool → Cmd ℕ
unfolding util_read8
util_read64 le = do
  b0 ← util_read8
  b1 ← util_read8
  b2 ← util_read8
  b3 ← util_read8
  b4 ← util_read8
  b5 ← util_read8
  b6 ← util_read8
  b7 ← util_read8
  pure (if le then join64 b7 b6 b5 b4 b3 b2 b1 b0 else join64 b0 b1 b2 b3 b4 b5 b6 b7)

-- A `FILE` open for writing is the list of the bytes put into it so far.
unfoldable pub util_write8 : List ℕ → ℕ → List ℕ
util_write8 file b = file ++ (b % 256 ∷ [])

unfoldable pub util_write16 : List ℕ → ℕ → List ℕ
unfolding util_write8
util_write16 file w = util_write8 (util_write8 file (shfr w 0)) (shfr w 8)

unfoldable pub util_write32 : List ℕ → ℕ → List ℕ
unfolding util_write8
util_write32 file w = util_write8 (util_write8 (util_write8 file (shfr w 0)) (shfr w 8)) (shfr w 16)

unfoldable pub util_write64 : List ℕ → ℕ → List ℕ
unfolding util_write8
util_write64 file w =
    util_write8 (util_write8 (util_write8 (util_write8 file (shfr w 0)) (shfr w 8)) (shfr w 16))
      (shfr w 24)
