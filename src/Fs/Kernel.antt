-- ===== src/Fs/Kernel.antt =====
-- What the stacked file system calls of the kernel: the lower file system, whose state is a type
-- that is not looked into, and the copying of attributes. A pointer is an address.
use dazukofs_linux.Base.{ℕ, Bool, Option, List}
use dazukofs_linux.Events.State.{Errno, Ret}

-- What `i_mode` says that an inode is.
pub data Kind : Type 0 where
  regular lnk dir special : Kind

-- The answer of `iget5_locked`: no memory, an inode that is there, or a new one.
pub data Iget : Type 0 where
  no_inode : Iget
  cached fresh : ℕ → Iget

-- A pointer that may be an error.
pub data Pointer : Type 0 where
  to : ℕ → Pointer
  is_err : Errno → Pointer

-- The answer of `kern_path`: a dentry and a mount, or an error.
pub data Location : Type 0 where
  found : (dentry mnt : ℕ) → Location
  not_found : Errno → Location

-- `struct iattr` as far as it is looked at: three bits of `ia_valid`, and the rest.
pub record Iattr : Type 0 where
  pub kill_suid : Bool
  pub kill_sgid : Bool
  pub mode : Bool
  pub others : ℕ

-- A call about extended attributes, with its arguments.
pub data Xattr : Type 0 where
  setxattr : (name value : List ℕ) → (flags : ℕ) → Xattr
  getxattr : (name : List ℕ) → (size : ℕ) → Xattr
  listxattr : (size : ℕ) → Xattr
  removexattr : (name : List ℕ) → Xattr

-- The fields of a lower `struct file` that are shared with the upper one.
pub record LowerFile : Type 0 where
  pub inode : ℕ
  pub f_pos : ℕ
  pub f_version : ℕ
  pub f_ra : ℕ

-- What comes of reading, writing or seeking in a lower file.
pub record Io : Type 0 where
  pub ret : Ret
  pub bytes : List ℕ
  pub pos : ℕ
  pub file : LowerFile

-- The operations that a table of the lower file system may lack.
pub data FileOp : Type 0 where
  llseek_op read_op write_op unlocked_ioctl_op compat_ioctl_op flush_op fsync_op fasync_op mmap_op :
      FileOp

pub record Kernel : Type 1 where
  pub World : Type 0
  -- The fields of an inode that are copied between the layers.
  pub Attr : Type 0
  pub Stat : Type 0
  pub blank : Attr
  pub copy_attr_all : Attr → Attr → Attr
  pub copy_attr_times : Attr → Attr → Attr
  pub copy_attr_atime : Attr → Attr → Attr
  pub copy_inode_size : Attr → Attr → Attr
  pub copy_nlink : Attr → Attr → Attr
  pub copy_blocks : Attr → Attr → Attr
  pub copy_size : Attr → Attr → Attr
  -- What is read through pointers into the lower file system.
  pub d_parent : ℕ → World → ℕ
  pub d_inode : ℕ → World → Option ℕ
  pub d_sb : ℕ → World → ℕ
  pub i_sb : ℕ → World → ℕ
  pub i_ino : ℕ → World → ℕ
  pub i_kind : ℕ → World → Kind
  pub attr : ℕ → World → Attr
  -- Calls.
  pub igrab : ℕ → World → Bool × World
  -- With the callback that tests an inode of the cache; the one that sets a new inode up is run by
  -- the caller of this function on a fresh inode.
  pub iget5_locked : (test : ℕ → Bool) → (sb lower_inode : ℕ) → World → Iget × World
  pub kmem_cache_zalloc : World → Bool × World
  pub lookup_one_len : (name : List ℕ) → (parent : ℕ) → World → Pointer × World
  pub vfs_mknod : (dir dentry mode dev : ℕ) → World → Ret × World
  pub vfs_mkdir : (dir dentry mode : ℕ) → World → Ret × World
  pub vfs_create : (dir dentry mode : ℕ) → (excl : Bool) → World → Ret × World
  pub vfs_symlink : (dir dentry : ℕ) → List ℕ → World → Ret × World
  pub vfs_link : (old_dentry dir new_dentry : ℕ) → World → Ret × World
  pub vfs_unlink : (dir dentry : ℕ) → World → Ret × World
  pub vfs_rmdir : (dir dentry : ℕ) → World → Ret × World
  pub vfs_rename : (old_dir old_dentry new_dir new_dentry : ℕ) → World → Ret × World
  pub has_readlink : ℕ → World → Bool
  pub readlink : (dentry bufsiz : ℕ) → World → (Ret × List ℕ) × World
  pub kmalloc : World → Bool × World
  pub inode_permission : (inode mask : ℕ) → World → Ret × World
  pub generic_fillattr : Attr → Stat
  pub has_getattr : ℕ → World → Bool
  pub getattr : (mnt dentry : ℕ) → World → (Ret × Stat) × World
  pub notify_change : (dentry : ℕ) → Iattr → World → Ret × World
  pub has_xattr : Xattr → ℕ → World → Bool
  pub xattr : Xattr → (dentry : ℕ) → World → (Ret × List ℕ) × World
  pub has_revalidate : ℕ → World → Bool
  pub vfs_path_lookup : (dentry mnt : ℕ) → List ℕ → World → Option (ℕ × ℕ) × World
  pub d_revalidate : ℕ → World → Ret × World
  pub has_hash : ℕ → World → Bool
  pub d_hash : ℕ → List ℕ → World → Ret × World
  pub kern_path : List ℕ → World → Location × World
  pub d_alloc : World → Option ℕ × World
  pub has_statfs : ℕ → World → Bool
  pub statfs : ℕ → World → Ret × World
  pub has_file_op : FileOp → (file : ℕ) → World → Bool
  -- What a lower file offers to seek in it, or `generic_file_llseek`.
  pub llseek : (file offset origin : ℕ) → LowerFile → World → Io × World
  pub generic_file_llseek : (file offset origin : ℕ) → LowerFile → World → Io × World
  pub vfs_read : (file count pos : ℕ) → LowerFile → World → Io × World
  pub vfs_write : (file : ℕ) → List ℕ → (pos : ℕ) → LowerFile → World → Io × World
  pub vfs_readdir : (file : ℕ) → LowerFile → World → Io × World
  -- A call that is handed on with its arguments.
  pub file_call : FileOp → (file arg : ℕ) → World → Ret × World
  pub dentry_open : (dentry mnt flags : ℕ) → World → Pointer × World
  pub lower_file : ℕ → World → LowerFile
  -- The page caches of the lower inodes; a page has its contents.
  pub read_cache_page : (inode index : ℕ) → World → Pointer × World
  pub grab_cache_page : (inode index : ℕ) → World → Option ℕ × World
  pub kmap : ℕ → World → Bool × World
  pub page_data : ℕ → World → List ℕ
  pub write_page : ℕ → List ℕ → World → World
  pub set_page_dirty : ℕ → World → World
