-- ===== src/Superblock/Masks.antt =====
-- The bit masks and values of inc/superblock.h.
use ext2p.Prelude.{ℕ}

abbrev pub fc_dir_prealloc : ℕ
fc_dir_prealloc = 0x1

abbrev pub fc_imagic_inodes : ℕ
fc_imagic_inodes = 0x2

abbrev pub fc_has_journal : ℕ
fc_has_journal = 0x4

abbrev pub fc_ext_attr : ℕ
fc_ext_attr = 0x8

abbrev pub fc_resized_inode : ℕ
fc_resized_inode = 0x10

abbrev pub fc_dir_indexing : ℕ
fc_dir_indexing = 0x20

abbrev pub fi_compression : ℕ
fi_compression = 0x1

abbrev pub fi_filetype : ℕ
fi_filetype = 0x2

abbrev pub fi_recover : ℕ
fi_recover = 0x4

abbrev pub fi_journal_dev : ℕ
fi_journal_dev = 0x8

abbrev pub fi_meta_bg : ℕ
fi_meta_bg = 0x10

abbrev pub fro_sparse_sb : ℕ
fro_sparse_sb = 0x1

abbrev pub fro_large_file : ℕ
fro_large_file = 0x2

abbrev pub fro_btree_dir : ℕ
fro_btree_dir = 0x4

abbrev pub comp_lzv1 : ℕ
comp_lzv1 = 0x1

abbrev pub comp_lzrw3_a : ℕ
comp_lzrw3_a = 0x2

abbrev pub comp_gzip : ℕ
comp_gzip = 0x4

abbrev pub comp_bzip2 : ℕ
comp_bzip2 = 0x8

abbrev pub comp_lzo : ℕ
comp_lzo = 0x10

abbrev pub st_valid : ℕ
st_valid = 1

abbrev pub st_error : ℕ
st_error = 2

abbrev pub err_continue : ℕ
err_continue = 1

abbrev pub err_readonly : ℕ
err_readonly = 2

abbrev pub err_panic : ℕ
err_panic = 3

abbrev pub os_linux : ℕ
os_linux = 0

abbrev pub os_hurd : ℕ
os_hurd = 1

abbrev pub os_masix : ℕ
os_masix = 2

abbrev pub os_freebsd : ℕ
os_freebsd = 3

abbrev pub os_lites : ℕ
os_lites = 4

abbrev pub rev_old : ℕ
rev_old = 0
