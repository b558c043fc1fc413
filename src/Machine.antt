-- ===== src/Machine.antt =====
-- The machine under the program: a heap block of bytes, pointers into it, and how a run can end.
use mathlib.Core.Path.{◌≡◌}
use ext2p.Prelude.{ℕ, ◌*◌, ◌^◌, ltb, ◌==◌, if◌then◌else◌}

-- How a call ends. `fatal` is `exit(EXIT_FAILURE)` of the FATAL macro. `fault` is an action that C
-- leaves undefined: an access outside an object or to memory that nothing has initialised, a free
-- of a wild pointer, a division by zero, a shift out of range.
pub data Run (A : Type 0) : Type 0 where
  ok : A → Run A
  fatal : Run A
  fault : Run A
  out_of_fuel : Run A

abbrev pub and_then : {A B : Type 0} → Run A → (A → Run B) → Run B
and_then (ok a) k = k a
and_then fatal k = fatal
and_then fault k = fault
and_then out_of_fuel k = out_of_fuel

-- A block from `malloc`: its size and its bytes by offset.
pub record Mem : Type 0 where
  pub size : ℕ
  pub byte : ℕ → ℕ

abbrev pub poke : Mem → ℕ → ℕ → Mem
poke m p v = record m { byte = λ q. if q == p then v else m.byte q }

-- `FP`: pointers are offsets into the block that holds the image.
pub record Fp : Type 0 where
  pub start : ℕ
  pub pos : ℕ
  pub size : ℕ

-- What a function sees that is given a `Disk *`: the image and the disk's own pointers into it.
pub record State : Type 0 where
  pub mem : Mem
  pub fp : Fp

-- A call that may change a state.
abbrev pub Exec : Type 0 → Type 0 → Type 0
Exec S A = S → Run (A × S)

abbrev pub Cmd : Type 0 → Type 0
Cmd = Exec State

abbrev pub pure : {S A : Type 0} → A → Exec S A
pure a s = ok (a, s)

-- a call that reads no state
abbrev pub lift : {S A : Type 0} → Run A → Exec S A
lift r s = and_then r λ a. ok (a, s)

infixl 5 ◌>>=◌ ◌>>◌
abbrev pub ◌>>=◌ : {S A B : Type 0} → Exec S A → (A → Exec S B) → Exec S B
◌>>=◌ m k s = and_then (m s) λ (a, s'). k a s'

abbrev pub ◌>>◌ : {S B : Type 0} → Exec S (Unit {0}) → Exec S B → Exec S B
m >> k = m >>= λ _. k

-- `size_t` and pointers have 64 bits
abbrev pub u64 : ℕ
u64 = 2 ^ 64

abbrev pub u32 : ℕ
u32 = 2 ^ 32

abbrev pub set_pos : ℕ → State → State
set_pos p s = record s { fp = record { start = s.fp.start; pos = p; size = s.fp.size } }

-- `1024 << k` and `2 << k` of an `int`: undefined from the bit on that would change the sign
abbrev pub shl : ℕ → ℕ → ℕ → Run ℕ
shl limit a k = if ltb k limit then ok (a * 2 ^ k) else fault

pub ok_injective : {A : Type 0} {a b : A} → ok a ≡ ok b → a ≡ b
ok_injective e = cc

pub and_then-ok : {A B : Type 0} {r : Run A} {a : A} (k : A → Run B) → r ≡ ok a → and_then r k ≡ k a
and_then-ok k same = rw same
