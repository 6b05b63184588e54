-- ===== src/Fs.antt =====
-- operating_system_engineering/labs/kernel/fs.c: the file system's layers on the log. A block is read
-- and changed in the buffer cache of `Disk`, and `log_write` of `Log` records it; `brelse` is left
-- out, as in `Log`. A `uint` of a block is a word of it; the arithmetic on block numbers does not
-- wrap, since a disk has fewer than 2 ^ 31 blocks. `sb` is the super block, and `dev` the one device.
pub mod Bits
pub mod Store
pub mod Bitmap
pub mod Inode
pub mod Table
mod Tests
