-- ===== src/Shell/Fsdump.antt =====
-- `fsdump` of src/shell.c: the flags that its format asks for.
pub mod Flags
pub mod Dumped
use ext2p.Prelude.{
  ℕ, ◌-◌, List, [], ◌∷◌, ◌++◌, ◌==◌, if◌then◌else◌, Option, none, some, bit_or, bit_and,
}
use ext2p.Machine.{Run, ok, and_then, Exec, pure, ◌>>=◌, u32}
use ext2p.Output.{Out, say, lines, lit, str, report}
use ext2p.Ext2.Dump.{
  ext2_dump, dump_superblock, dump_bgdescriptor, dump_all_bgdescriptor, dump_inode, dump_inode_all,
  dump_inode_root,
}
use ext2p.Shell.{Shell, Host, Action, on_fs, one_arg, exit_success, exit_failure}

-- `flags &= ~mask`
abbrev pub without : (flags mask : ℕ) → ℕ
without flags mask = bit_and flags (u32 - 1 - mask)

-- one character of the format of `fsdump`: `a`, `b`, `B`, `i`, `I`, `r` or `s`
unfoldable pub fsdump_flag : (c flags : ℕ) → Option ℕ
fsdump_flag c flags =
    if c == 97
    then some (bit_or (bit_or dump_superblock dump_bgdescriptor) dump_inode)
    else if c == 98
    then some (without (bit_or flags dump_bgdescriptor) dump_all_bgdescriptor)
    else if c == 66
    then some (without (bit_or flags dump_all_bgdescriptor) dump_bgdescriptor)
    else if c == 105
    then some (without (bit_or flags dump_inode) (bit_or dump_inode_all dump_inode_root))
    else if c == 73
    then some (without (bit_or flags dump_inode_all) (bit_or dump_inode dump_inode_root))
    else if c == 114
    then some (without (bit_or flags dump_inode_root) (bit_or dump_inode dump_inode_all))
    else if c == 115
    then some (bit_or flags dump_superblock)
    else none

abbrev pub fsdump_flags : List ℕ → ℕ → Option ℕ
fsdump_flags [] flags = some flags
fsdump_flags (c ∷ fmt) flags = elim (fsdump_flag c flags) [
  | none ↦ none
  | some flags' ↦ fsdump_flags fmt flags'
]

abbrev pub fsdump_usage : Out
fsdump_usage = lines (
    say "usage: fsdump [dump-format-string]"
    ∷ say "  a               dumps all"
    ∷ say "  b               dumps the first 32 block group descriptors"
    ∷ say "  B               dumps all block group descriptors"
    ∷ say "  i               dumps the first 32 inodes"
    ∷ say "  i               dumps all inodes"
    ∷ say "  r               dumps the root inode"
    ∷ say "  s               dumps the Superblock"
    ∷ say ""
    ∷ say "example:"
    ∷ say "  fsdump a       dumps all"
    ∷ say "  fsdump si      dumps Superblock and inodes"
    ∷ [])

-- the first character that the format may not have
abbrev unknown_flag : List ℕ → List ℕ
unknown_flag [] = []
unknown_flag (c ∷ fmt) = elim (fsdump_flag c 0) [ none ↦ c ∷ [] | some flags ↦ unknown_flag fmt ]

abbrev pub bad_format : List ℕ → Out
bad_format fmt =
    report (lit "unknown character in format string '" ∷ str (unknown_flag fmt) ∷ lit "'\n\n" ∷ [])
    ++ fsdump_usage

-- the usage for a bad format, or the dump
abbrev pub dump_asked : Host → (fmt : List ℕ) → Option ℕ → Action
dump_asked host fmt none sh = ok ((exit_failure, bad_format fmt), sh)
dump_asked host fmt (some flags) sh =
    (do
      out ← on_fs (λ e. and_then (ext2_dump host.now e flags) λ out. ok (out, e))
      pure (exit_success, out))
      sh

unfoldable pub shell_fsdump : Host → List (List ℕ) → Action
shell_fsdump host argv sh = elim (one_arg argv) [
  | none ↦ ok ((exit_failure, fsdump_usage), sh)
  | some fmt ↦ dump_asked host fmt (fsdump_flags fmt 0) sh
]
