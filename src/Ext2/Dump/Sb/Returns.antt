-- ===== src/Ext2/Dump/Sb/Returns.antt =====
-- Which superblocks can be dumped.
use ext2p.Prelude.{
  ◌⊎◌, inl, inr, ℕ, ◌≡◌, refl, List, [], ◌∷◌, length, Bool, true, false, not, ◌&&◌, ◌||◌,
  if◌then◌else◌, ltb, ◌==◌, bit_and, none, some, arith, ap, ◌∙◌, sym,
}
use ext2p.Machine.{Run, ok, fatal, fault, out_of_fuel, and_then, shl}
use ext2p.Output.{Out, text_field, terminated}
use ext2p.Superblock.{Superblock}
use ext2p.Superblock.Masks.{fc_dir_indexing}
use ext2p.Bg.{block_size}
use ext2p.Ext2.Dump.Labels.{sb_time_check_dump, sb_mount_check_dump, biased}
use ext2p.Ext2.Dump.Sb.{
  sb_needs_check, sb_seeds, sb_mounts, sb_times, sb_blocks, sb_volume, sb_dir_indexing, sb_dump,
}
use ext2p.Ext2.Dump.Total.{OrFault, sb_dump-OrFault}

abbrev returns : {A : Type 0} → Run A → Bool
returns (ok a) = true
returns fatal = false
returns fault = false
returns out_of_fuel = false

returns-and_then :
    {A B : Type 0} (r : Run A) (k : A → Run B) (b : Bool)
    → ((a : A) → returns (k a) ≡ b)
    → returns (and_then r k) ≡ returns r && b
returns-and_then (ok a) k b same = same a
returns-and_then fatal k b same = refl
returns-and_then fault k b same = refl
returns-and_then out_of_fuel k b same = refl

-- the last step of a printing function returns
returns-pure :
    {A B : Type 0} (r : Run A) (k : A → B) → returns (and_then r λ a. ok (k a)) ≡ returns r
returns-pure (ok a) k = refl
returns-pure fatal k = refl
returns-pure fault k = refl
returns-pure out_of_fuel k = refl

mount_check-returns :
    (count max : ℕ) → returns (sb_needs_check (sb_mount_check_dump count max)) ≡ not (count == max)
unfolding sb_mount_check_dump
mount_check-returns count max = by_cases (count == max) (ltb max count) _ _
  where
    by_cases :
        (b c : Bool) (x y : Out)
        → returns (sb_needs_check (if b then none else if c then some x else some y)) ≡ not b
    by_cases true c x y = refl
    by_cases false true x y = refl
    by_cases false false x y = refl

time_check-returns :
    (now check interval : ℕ)
    → returns (sb_time_check_dump now check interval)
      ≡ (interval == 0) || not (ltb (biased check) now)
unfolding sb_time_check_dump
time_check-returns now check interval = by_cases (interval == 0) (ltb (biased check) now) _ _
  where
    by_cases :
        (b c : Bool) (x y : Out)
        → returns (if b then ok x else if c then fault else ok y) ≡ b || not c
    by_cases true c x y = refl
    by_cases false true x y = refl
    by_cases false false x y = refl

mounts-returns :
    (sb : Superblock) → returns (sb_mounts sb) ≡ not (sb.mount_count == sb.max_mount_count)
mounts-returns sb = returns-pure _ _ ∙ mount_check-returns sb.mount_count sb.max_mount_count

times-returns :
    (now : ℕ) (sb : Superblock)
    → returns (sb_times now sb) ≡ (sb.check_interval == 0) || not (ltb (biased sb.last_check) now)
times-returns now sb =
    returns-pure (sb_time_check_dump now sb.last_check sb.check_interval) _
    ∙ time_check-returns now sb.last_check sb.check_interval

blocks-returns : (sb : Superblock) → returns (sb_blocks sb) ≡ ltb sb.log_block_size 21
unfolding block_size
blocks-returns sb =
    returns-and_then (shl 21 1024 sb.log_block_size) _
      (returns (if ltb 0 sb.log_block_size then shl 21 1024 sb.log_block_size else ok 1024))
      (λ size. returns-pure _ _)
    ∙ by_cases (ltb sb.log_block_size 21) (ltb 0 sb.log_block_size) _
  where
    by_cases :
        (b c : Bool) (x : ℕ)
        → returns (if b then ok x else fault)
            && returns (if c then (if b then ok x else fault) else ok 1024)
          ≡ b
    by_cases true true x = refl
    by_cases true false x = refl
    by_cases false c x = refl

text_field-returns : (field : List ℕ) → returns (text_field field) ≡ terminated field
text_field-returns [] = refl
text_field-returns (c ∷ cs) = by_cases (c == 0) (terminated cs) _ _
  where
    by_cases :
        {A : Type 0} (b t : Bool) (x y : A)
        → returns (if b then ok x else if (if b then true else t) then ok y else fault)
          ≡ (if b then true else t)
    by_cases true t x y = refl
    by_cases false true x y = refl
    by_cases false false x y = refl

volume-returns :
    (sb : Superblock)
    → returns (sb_volume sb) ≡ terminated sb.volume_name && terminated sb.mount_path
volume-returns sb =
    returns-and_then (text_field sb.volume_name) _ (returns (text_field sb.mount_path))
      (λ name. returns-pure _ _)
    ∙ ap (λ b. b && returns (text_field sb.mount_path)) (text_field-returns sb.volume_name)
    ∙ ap (λ b. terminated sb.volume_name && b) (text_field-returns sb.mount_path)

seeds-returns : (seeds : List ℕ) → returns (sb_seeds seeds) ≡ (length seeds == 4)
seeds-returns [] = refl
seeds-returns (a ∷ []) = refl
seeds-returns (a ∷ (b ∷ [])) = refl
seeds-returns (a ∷ (b ∷ (c ∷ []))) = refl
seeds-returns (a ∷ (b ∷ (c ∷ (d ∷ [])))) = refl
seeds-returns (a ∷ (b ∷ (c ∷ (d ∷ (e ∷ seeds))))) = ground arith

indexing-returns :
    (sb : Superblock)
    → returns (sb_dir_indexing sb)
      ≡ (bit_and sb.features_compat fc_dir_indexing == 0) || (length sb.dir_hash_seeds == 4)
indexing-returns sb =
    by_cases (bit_and sb.features_compat fc_dir_indexing == 0) _ _
    ∙ ap (λ b. (bit_and sb.features_compat fc_dir_indexing == 0) || b)
        (returns-pure (sb_seeds sb.dir_hash_seeds) _ ∙ seeds-returns sb.dir_hash_seeds)
  where
    by_cases :
        {A : Type 0} (b : Bool) (x : A) (r : Run A)
        → returns (if b then ok x else r) ≡ b || returns r
    by_cases true x r = refl
    by_cases false x r = refl

-- the conditions of `sb_dump_lem`, in the order in which the dump meets them
abbrev pub is_printable : (now : ℕ) → Superblock → Bool
is_printable now sb =
    not (sb.mount_count == sb.max_mount_count)
    && (((sb.check_interval == 0) || not (ltb (biased sb.last_check) now))
        && (ltb sb.log_block_size 21
            && ((terminated sb.volume_name && terminated sb.mount_path)
                && ((bit_and sb.features_compat fc_dir_indexing == 0)
                    || (length sb.dir_hash_seeds == 4)))))

returns-is_printable : (now : ℕ) (sb : Superblock) → returns (sb_dump now sb) ≡ is_printable now sb
unfolding sb_dump
returns-is_printable now sb =
    returns-and_then (sb_mounts sb) _ _ (λ mounts. returns-and_then (sb_times now sb) _ _ (λ times.
      returns-and_then (sb_blocks sb) _ _ (λ blocks.
        returns-and_then (sb_volume sb) _ _ (λ volume. returns-pure (sb_dir_indexing sb) _))))
    ∙ together (mounts-returns sb) (times-returns now sb) (blocks-returns sb) (volume-returns sb)
        (indexing-returns sb)
  where
    together :
        {a a' b b' c c' d d' e e' : Bool}
        → a ≡ a'
        → b ≡ b'
        → c ≡ c'
        → d ≡ d'
        → e ≡ e'
        → a && (b && (c && (d && e))) ≡ a' && (b' && (c' && (d' && e')))
    together p q r t u = rw (p, q, r, t, u) refl

outcome :
    {A : Type 0} (r : Run A) (b : Bool)
    → OrFault r
    → returns r ≡ b
    → ((b ≡ true) × ((a : A) × (r ≡ ok a))) ⊎ ((b ≡ false) × (r ≡ fault))
outcome (ok a) b h same = inl (sym same, (a, refl))
outcome fatal b h same = elim h [ ]
outcome fault b h same = inr (sym same, refl)
outcome out_of_fuel b h same = elim h [ ]

-- The dump of a superblock is printed if the file system has not been mounted exactly as often as it
-- may be, the clock is at most 2^31 seconds past the last check where an interval asks for a
-- comparison, the block size fits an `int`, both names end in their fields, and there are four seeds
-- where directories are indexed. Otherwise the dump does what C leaves undefined.
pub sb_dump_lem :
    (now : ℕ) (sb : Superblock)
    → ((is_printable now sb ≡ true) × ((out : Out) × (sb_dump now sb ≡ ok out)))
      ⊎ ((is_printable now sb ≡ false) × (sb_dump now sb ≡ fault))
sb_dump_lem now sb =
    outcome (sb_dump now sb) (is_printable now sb) (sb_dump-OrFault now sb)
      (returns-is_printable now sb)
