-- ===== src/Ext2/Dump/Total.antt =====
-- Dumps end or meet what C leaves undefined: none ends the program.
use ext2p.Prelude.{
  ℕ, List, [], ◌∷◌, ◌≡◌, refl, Bool, true, false, if◌then◌else◌, ltb, ◌==◌, bit_and, Option, none,
  some,
}
use ext2p.Machine.{Run, ok, fatal, fault, out_of_fuel, and_then}
use ext2p.Output.{Out, text_field, terminated}
use ext2p.Superblock.{Superblock}
use ext2p.Superblock.Masks.{fc_dir_indexing}
use ext2p.Bg.{block_size}
use ext2p.Ext2.Dump.{then_out}
use ext2p.Ext2.Dump.Labels.{sb_time_check_dump, sb_mount_check_dump, biased}
use ext2p.Ext2.Dump.Sb.{sb_needs_check, sb_seeds, sb_dump}

abbrev pub OrFault : {A : Type 0} → Run A → Type 0
OrFault (ok a) = Unit
OrFault fatal = ⊥
OrFault fault = Unit
OrFault out_of_fuel = ⊥

pub and_then-OrFault :
    {A B : Type 0} (r : Run A) (k : A → Run B)
    → OrFault r
    → ((a : A) → OrFault (k a))
    → OrFault (and_then r k)
and_then-OrFault (ok a) k h kept = kept a
and_then-OrFault fatal k h kept = elim h [ ]
and_then-OrFault fault k h kept = tt
and_then-OrFault out_of_fuel k h kept = elim h [ ]

pub if-OrFault :
    {A : Type 0} (b : Bool) (r r' : Run A) → OrFault r → OrFault r' → OrFault (if b then r else r')
if-OrFault true r r' h h' = h
if-OrFault false r r' h h' = h'

needs_check-OrFault : (text : Option Out) → OrFault (sb_needs_check text)
needs_check-OrFault none = tt
needs_check-OrFault (some text) = tt

time_check-OrFault : (now check interval : ℕ) → OrFault (sb_time_check_dump now check interval)
unfolding sb_time_check_dump
time_check-OrFault now check interval =
    if-OrFault (interval == 0) _ _ tt (if-OrFault (ltb (biased check) now) _ _ tt tt)

block_size-OrFault : (sb : Superblock) → OrFault (block_size sb)
unfolding block_size
block_size-OrFault sb = if-OrFault (ltb sb.log_block_size 21) _ _ tt tt

text_field-OrFault : (field : List ℕ) → OrFault (text_field field)
text_field-OrFault [] = tt
text_field-OrFault (c ∷ cs) =
    if-OrFault (c == 0) _ _ tt (if-OrFault (terminated (c ∷ cs)) _ _ tt tt)

seeds-OrFault : (seeds : List ℕ) → OrFault (sb_seeds seeds)
seeds-OrFault [] = tt
seeds-OrFault (a ∷ []) = tt
seeds-OrFault (a ∷ (b ∷ [])) = tt
seeds-OrFault (a ∷ (b ∷ (c ∷ []))) = tt
seeds-OrFault (a ∷ (b ∷ (c ∷ (d ∷ [])))) = tt
seeds-OrFault (a ∷ (b ∷ (c ∷ (d ∷ (e ∷ seeds))))) = tt

pub sb_dump-OrFault : (now : ℕ) (sb : Superblock) → OrFault (sb_dump now sb)
unfolding sb_dump
sb_dump-OrFault now sb =
    and_then-OrFault _ _
      (and_then-OrFault _ _
        (needs_check-OrFault (sb_mount_check_dump sb.mount_count sb.max_mount_count)) λ _. tt)
      λ mounts.
        and_then-OrFault _ _
          (and_then-OrFault _ _ (time_check-OrFault now sb.last_check sb.check_interval) λ _. tt)
          λ times.
            and_then-OrFault _ _
              (and_then-OrFault _ _ (block_size-OrFault sb) λ size.
                and_then-OrFault _ _
                  (if-OrFault (ltb 0 sb.log_block_size) _ _
                    (if-OrFault (ltb sb.log_block_size 21) _ _ tt tt) tt)
                  λ _. tt)
              λ blocks.
                and_then-OrFault _ _
                  (and_then-OrFault _ _ (text_field-OrFault sb.volume_name)
                    λ name. and_then-OrFault _ _ (text_field-OrFault sb.mount_path) λ _. tt)
                  λ volume.
                    and_then-OrFault _ _
                      (if-OrFault (bit_and sb.features_compat fc_dir_indexing == 0) _ _ tt
                        (and_then-OrFault _ _ (seeds-OrFault sb.dir_hash_seeds) λ _. tt))
                      λ _. tt

-- what comes before an undefined step does not matter
pub then_out-OrFault : (r rest : Run Out) → OrFault r → rest ≡ fault → then_out r rest ≡ fault
then_out-OrFault (ok out) rest h broken = rw broken refl
then_out-OrFault fatal rest h broken = elim h [ ]
then_out-OrFault fault rest h broken = refl
then_out-OrFault out_of_fuel rest h broken = elim h [ ]
