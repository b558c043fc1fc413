-- ===== src/Dir/Filetype.antt =====
-- The types of a directory's entries in inc/dir.h, and `dirGetFiletype` of src/dir.c.
use Prim.Native.String.{String}
use ext2p.Prelude.{ℕ, ◌==◌, if◌then◌else◌}

-- DIR_FT_UNKNOWN and so on
abbrev pub ft_unknown : ℕ
ft_unknown = 0

abbrev pub ft_file : ℕ
ft_file = 1

abbrev pub ft_dir : ℕ
ft_dir = 2

abbrev pub ft_char_dev : ℕ
ft_char_dev = 3

abbrev pub ft_block_dev : ℕ
ft_block_dev = 4

abbrev pub ft_fifo : ℕ
ft_fifo = 5

abbrev pub ft_socket : ℕ
ft_socket = 6

abbrev pub ft_symlink : ℕ
ft_symlink = 7

-- of an entry's `filetype`
unfoldable pub dir_get_filetype : ℕ → String
dir_get_filetype filetype =
    if filetype == ft_unknown
    then "unknown"
    else if filetype == ft_file
    then "file"
    else if filetype == ft_dir
    then "dir"
    else if filetype == ft_char_dev
    then "chrdev"
    else if filetype == ft_block_dev
    then "blkdev"
    else if filetype == ft_fifo
    then "buffer"
    else if filetype == ft_socket
    then "socket"
    else if filetype == ft_symlink
    then "symlink"
    else "invalid"
