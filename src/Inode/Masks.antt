-- ===== src/Inode/Masks.antt =====
-- The bit masks of inc/inode.h that the dumps test.
use ext2p.Prelude.{ℕ}

abbrev pub fm_sock : ℕ
fm_sock = 0xc000

abbrev pub fm_symb : ℕ
fm_symb = 0xa000

abbrev pub fm_block : ℕ
fm_block = 0x6000

abbrev pub fm_char : ℕ
fm_char = 0x2000

abbrev pub fm_fifo : ℕ
fm_fifo = 0x1000

abbrev pub fm_set_uid : ℕ
fm_set_uid = 0x0800

abbrev pub fm_set_gid : ℕ
fm_set_gid = 0x0400

abbrev pub fm_sticky : ℕ
fm_sticky = 0x0200

abbrev pub fm_user_r : ℕ
fm_user_r = 0x0100

abbrev pub fm_user_w : ℕ
fm_user_w = 0x0080

abbrev pub fm_user_x : ℕ
fm_user_x = 0x0040

abbrev pub fm_group_r : ℕ
fm_group_r = 0x0020

abbrev pub fm_group_w : ℕ
fm_group_w = 0x0010

abbrev pub fm_group_x : ℕ
fm_group_x = 0x0008

abbrev pub fm_other_r : ℕ
fm_other_r = 0x0004

abbrev pub fm_other_w : ℕ
fm_other_w = 0x0002

abbrev pub fm_other_x : ℕ
fm_other_x = 0x0001

abbrev pub fl_secure_rm : ℕ
fl_secure_rm = 0x00000001

abbrev pub fl_record_unrm : ℕ
fl_record_unrm = 0x00000002

abbrev pub fl_compress : ℕ
fl_compress = 0x00000004

abbrev pub fl_sync : ℕ
fl_sync = 0x00000008

abbrev pub fl_immutable : ℕ
fl_immutable = 0x00000010

abbrev pub fl_append : ℕ
fl_append = 0x00000020

abbrev pub fl_no_dump : ℕ
fl_no_dump = 0x00000040

abbrev pub fl_no_atime : ℕ
fl_no_atime = 0x00000080

abbrev pub fl_dirty : ℕ
fl_dirty = 0x00000100

abbrev pub fl_compblks : ℕ
fl_compblks = 0x00000200

abbrev pub fl_rawdata : ℕ
fl_rawdata = 0x00000400

abbrev pub fl_comperr : ℕ
fl_comperr = 0x00000800

abbrev pub fl_btree_dir : ℕ
fl_btree_dir = 0x00001000

abbrev pub fl_imagic_dir : ℕ
fl_imagic_dir = 0x00002000

abbrev pub fl_journal_data : ℕ
fl_journal_data = 0x00004000

abbrev pub fl_reserved : ℕ
fl_reserved = 0x80000000
