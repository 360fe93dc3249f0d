-- ===== src/Fs.antt =====
-- The stacked file system: dazukofs_fs.h, inode.c, dentry.c, file.c, mmap.c and super.c.
pub mod Kernel
pub mod State
pub mod Interpose
pub mod Create
pub mod Lookup
pub mod Attributes
pub mod Balance
pub mod Interposing
pub mod Creating
pub mod Making
pub mod Removing
pub mod Looking
pub mod Files
pub mod Pages
pub mod Super
pub mod Opening
pub mod Marking
pub mod Comparing
pub mod Paging
pub mod Following
pub mod Mounting
pub mod Lifetimes
pub mod Refreshing
pub mod Writing
pub mod Checked
pub mod Older
mod Sample
mod Examples
