-- ===== src/Lib.antt =====
-- ext2p, a shell over ext2 images, in antt.
--
-- The program reads a whole image into memory (src/util.c) and walks it through a `Disk`, a block
-- with a start, a position and a size and checks in front of each read (src/disk.c). A block group
-- holds copies of its superblock, its descriptor, its bitmaps and its inodes, and a second disk that
-- starts behind the inode table (src/bg.c, src/superblock.c, src/inode.c). A directory is the block of
-- its inode, read as a linked list of entries (src/dir.c). A file system is the image and the list of
-- its groups (src/ext2.c), of which the program reads the first. The shell holds a file system, or none,
-- and a current directory, and runs the command that a line names (src/shell.c).
--
-- Prelude.antt     shared names and lemmas on tests, lists and bits
-- Machine.antt     how a call ends (`Run`), memory blocks, `FP`, and state passing with do blocks
-- Output.antt      what is printed: the pieces of the formats, with the values that they place
-- Util.antt        src/util.c: utilRead8 to utilRead64, utilReadFile, utilCloneFile, the writers
--   Util/Words       what the reads deliver, in both byte orders; Util/Levenshtein the distance
-- Disk.antt        src/disk.c: diskRead8 is disk_read8 and so on
--   Disk/Bounds      the checks; Disk/Words the writers and the round trip
-- Struct.antt      fields of a C structure over bytes
-- Inode.antt       src/inode.c, inc/inode.h; Inode/Masks the modes and the flags
-- Superblock.antt  src/superblock.c, inc/superblock.h; Superblock/Masks the features and the other constants
-- Dir.antt         src/dir.c: dirReadLinkedList is dir_read_linked_list; Dir/Filetype dirGetFiletype;
--                    Dir/Free dirFreeLinkedList, on a heap of its own, and Free/Freed what it frees
--   Dir/Entry        one entry; Dir/Listing a block's list, stated on its bytes
--   Dir/Round, Loop  how the loop can end; Dir/Moved, Dir/Shift entries that are moved down
-- Bg.antt          src/bg.c: bgRead, bgGetInode, bgGetDir, bgReadFile and their helpers
--   Bg/Deletion      bgDeleteFile, bgDeleteDir and the writing of entries
--   Bg/Read          what bgRead delivers, and Read/Kept while the image changes elsewhere; Bg/Lookup
--                    bgGetDir; Bg/Address bgOffsetBlock; Bg/Size bgGetInodeSize
--   Bg/Content, Bg/ReadFile  bgReadFile; Bg/Shift, Bg/Delete, After, Remove, Written  bgDeleteFile
-- Ext2.antt        src/ext2.c: ext2Open, ext2GetDir, ext2DeleteFile and the others; bgFreeAll of src/bg.c
--   Ext2/Keeps       the reads of a group keep the image; Ext2/Open what ext2Open leaves; Ext2/Groups
--                    which groups the array has set
--   Ext2/Delete      a deletion and the listing after it
--   Ext2/Dump        src/ext2dump.c: ext2Dump; Dump/Sb _sbDump and _bgDump, Dump/Node _inoDump, Dump/Labels
--                    the texts of single fields, Dump/Total and Outcome how a dump ends
--   Dump/Labels/Warned, Perms, Uuid, Checks and Dump/Node/Format  what these texts say; Dump/Sb/Returns which
--                    superblocks can be dumped; Ext2/Dumped a dump of what ext2Open leaves
--   Ext2/Mounted     what ext2Open makes of an image, stated on its bytes; Mounted/Directory
--                    and Files its directories and files, Single an image of one group, Saved an
--                    image that is written and mounted again
--   Ext2/Blocks      the blocks that ext2Open allocates, down to utilReadFile, and that ext2Free frees, and
--                    Blocks/Freed and Counted how these match
-- Shell.antt       src/shell.c: its state and its commands; Shell/Args _getArgs, Shell/Size _humanizeSize
--   Shell/Directory  cd and ls; Shell/Fsdump, Stat, Help  the commands of these names; Fsdump/Flags the
--                    flags of a format, and Fsdump/Dumped which formats can be dumped
--   Shell/Commands   the table, _checkCommands, _tryLevenshtein and a round of shellRun
--   Shell/Loop       shellRun; Loop/Ended how it ends; Loop/Cut its lines
--   Shell/Commands/Kept, Cd, Calls, Reach  what the commands keep and the states that the shell
--                    reaches; Suggest the name it asks about; Remove `rm` and `ls`; Cat `cat`; Missing a name
--                    that is not there; Stored `rm` and a save; Mounts `mount` and `umount`; Enter `cd`,
--                    `ls` and `cd ..`; Status `stat`; Rmdir `rmdir` and `ls`; Unfit an entry of another type;
--                    Typed, and Loop/Lines, a line that the user types
--   Shell/Refused    a start on a file that is no image
-- Main.antt        src/main.c; Main/Rounds and Session a run of the program on an image
-- Tests.antt       a sample image, and each theorem of the list below at a concrete input
--
-- A function on a `Disk *` or a `BlockGroup *` is a command over the memory block of the image and
-- the fields that it may change: it returns (`ok`), ends the program (`fatal`, the FATAL macro),
-- does what C leaves undefined (`fault`), or runs on (`out_of_fuel`). Pointers are offsets into the
-- block. Machine integers keep their wrap-around: `% u32` and `% u64`; a signed field is kept as its
-- bits, and a conversion that copies its sign is written out.
--
-- The loops over names, blocks and inodes are structural. The loop of dirReadLinkedList takes fuel, a
-- unit for each round: more than the number of entries is enough for a block that lists them, and
-- more than the block's size is enough for every block with no entry of length zero.
--
-- The main loop takes a unit for each line, and a line takes a character at least: one more than the
-- number of characters typed is enough. `printf` is left to the host but for the values it is given.
--
-- Not modelled: the allocator (malloc is taken to succeed; outside Dir/Free and Ext2/Blocks the frees are left
-- out but for those that meet a pointer that nothing has set, in dirReadLinkedList, ext2Free and the
-- shell), the overflow of the signed sizeLo in bgDeleteFile, which C leaves undefined and which is
-- taken to wrap, diskOpenAsFile and bgReadAll, which nothing calls, the host's
-- files beyond what utilReadFile sees of them, the place in the source that LOC prints without NDEBUG, and
-- what is printed in a run that then ends by FATAL or does what C leaves undefined.
pub mod Prelude
pub mod Machine
pub mod Output
pub mod Util
pub mod Disk
pub mod Struct
pub mod Inode
pub mod Superblock
pub mod Dir
pub mod Bg
pub mod Ext2
pub mod Shell
pub mod Main
pub mod Tests
