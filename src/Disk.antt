-- ===== src/Disk.antt =====
-- src/disk.c and inc/disk.h. A `Disk` is its `FP`: the path that it also holds is read by
-- `diskOpenAsFile` alone, which nothing calls; Ext2/Blocks has `diskClose`. A function on a `Disk *`
-- is a command over the image, which clones share, and the pointers of that disk.
pub mod Bounds
pub mod Words
use ext2p.Prelude.{
  ℕ, zero, suc, ◌+◌, ◌-◌, ◌%◌, ltb, leb, if◌then◌else◌, Bool, true, false, Option, none, some, List,
  [], ◌∷◌,
}
use ext2p.Machine.{Mem, poke, Fp, State, Cmd, fault, fatal, ok, pure, ◌>>=◌, ◌>>◌, set_pos, u64}
use ext2p.Util.{
  shfr, OpenFile, util_read_file, util_clone_file, util_read8, util_read16, util_read32,
  util_read64,
}

-- `none` is a return of `NULL`.
unfoldable pub disk_open : OpenFile → Option State
unfolding util_read_file
disk_open file = util_read_file file

unfoldable pub disk_clone : Fp → Fp
unfolding util_clone_file
disk_clone fp = util_clone_file fp

-- `disk->fp.data - disk->fp._start`, as `size_t`
abbrev pub offset : Fp → ℕ
offset fp = (fp.pos + u64 - fp.start) % u64

unfoldable pub disk_check_bounds : ℕ → State → Bool
disk_check_bounds n s = ltb ((offset s.fp + n) % u64) s.fp.size

-- `if( !diskCheckBounds(disk, size) ) FATAL(…)`
unfoldable pub require : ℕ → Cmd (Unit {0})
unfolding disk_check_bounds
require n s = if disk_check_bounds n s then ok (tt, s) else fatal

-- The checks ask for as many bytes as the word has bits.
unfoldable pub disk_read8 : Cmd ℕ
unfolding require util_read8
disk_read8 = require 8 >> util_read8

unfoldable pub disk_read16 : Cmd ℕ
unfolding require util_read16
disk_read16 = require 16 >> util_read16 true

unfoldable pub disk_read32 : Cmd ℕ
unfolding require util_read32
disk_read32 = require 32 >> util_read32 true

unfoldable pub disk_read64 : Cmd ℕ
unfolding require util_read64
disk_read64 = require 64 >> util_read64 true

-- There is no check but the block's own end.
unfoldable pub disk_write8 : ℕ → Cmd (Unit {0})
disk_write8 b s =
    if ltb s.fp.pos s.mem.size
    then ok (tt, set_pos (s.fp.pos + 1) (record s { mem = poke s.mem s.fp.pos (b % 256) }))
    else fault

unfoldable pub disk_write16 : ℕ → Cmd (Unit {0})
unfolding disk_write8
disk_write16 w = disk_write8 (shfr w 0) >> disk_write8 (shfr w 8)

unfoldable pub disk_write32 : ℕ → Cmd (Unit {0})
unfolding disk_write8
disk_write32 w = do
  disk_write8 (shfr w 0)
  disk_write8 (shfr w 8)
  disk_write8 (shfr w 16)
  disk_write8 (shfr w 24)

unfoldable pub disk_write64 : ℕ → Cmd (Unit {0})
unfolding disk_write8
disk_write64 w = do
  disk_write8 (shfr w 0)
  disk_write8 (shfr w 8)
  disk_write8 (shfr w 16)
  disk_write8 (shfr w 24)
  disk_write8 (shfr w 32)
  disk_write8 (shfr w 40)
  disk_write8 (shfr w 48)
  disk_write8 (shfr w 56)

-- The pointer moves modulo the address space, so a huge `skip` moves it back.
unfoldable pub disk_skip : ℕ → Cmd (Unit {0})
unfolding require
disk_skip n = require n >> λ s. ok (tt, set_pos ((s.fp.pos + n) % u64) s)

-- `n` bytes of the block from an offset on
unfoldable pub bytes_at : Mem → ℕ → ℕ → List ℕ
bytes_at m p zero = []
bytes_at m p (suc n) = m.byte p % 256 ∷ bytes_at m (p + 1) n

-- `memcpy` out of the block
unfoldable pub fetch : ℕ → Cmd (List ℕ)
fetch n s = if leb (s.fp.pos + n) s.mem.size then ok (bytes_at s.mem s.fp.pos n, s) else fault

unfoldable pub disk_copy : ℕ → Cmd (List ℕ)
unfolding require fetch disk_skip
disk_copy n = do require n; bytes ← fetch n; disk_skip n; pure bytes

-- Callers rewind by at most 263 bytes, so `data - pos` does not leave the address space.
unfoldable pub disk_rewind : ℕ → Cmd (Unit {0})
disk_rewind n s = if ltb s.fp.pos (s.fp.start + n) then fatal else ok (tt, set_pos (s.fp.pos - n) s)

unfoldable pub disk_seek_start : Cmd (Unit {0})
disk_seek_start s = ok (tt, set_pos s.fp.start s)

unfoldable pub disk_seek : ℕ → Cmd (Unit {0})
unfolding disk_seek_start disk_skip
disk_seek n = disk_seek_start >> disk_skip n

unfoldable pub disk_get_pos : Cmd ℕ
disk_get_pos s = ok (offset s.fp, s)

-- `opened` says whether the host could open the file; the result is what `fwrite` puts into it.
unfoldable pub disk_save : Bool → Cmd (List ℕ)
unfolding disk_get_pos disk_seek_start fetch disk_seek
disk_save opened = do
  pos ← disk_get_pos
  disk_seek_start
  bytes ← (λ s. if opened then fetch s.fp.size s else fatal)
  disk_seek pos
  pure bytes
