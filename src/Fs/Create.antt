-- ===== src/Fs/Create.antt =====
-- What inode.c does to make and remove entries: mknod, mkdir, create, symlink, link, unlink, rmdir
-- and rename, as they are compiled for a kernel of version 3.6.
use dazukofs_linux.Base.{ℕ, Bool, false, Option, none, some, List, ◌==◌, if◌then◌else◌}
use dazukofs_linux.Events.State.{Ret, err, enoent}
use dazukofs_linux.Fs.Kernel.{Kernel}
use dazukofs_linux.Fs.State.{
  M, ◌>>=◌, ◌>>◌, return, need, asks, call, dget, dput, mntput, mutex_lock, mutex_unlock, set_inode,
  copy_from, get_lower_dentry, get_lower_mnt, get_lower_inode, d_drop, if_zero,
}
use dazukofs_linux.Fs.Interpose.{dazukofs_interpose}

module _ {k : Kernel} where
  -- What the functions have in common: the parent of the lower dentry is held and its inode locked
  -- around the work, which is given that inode.
  unfoldable pub in_parent : (lower_dentry : ℕ) → (ℕ → M k Ret) → M k Ret
  in_parent lower_dentry work = do
    parent ← asks (λ s. k.d_parent lower_dentry s.world)
    dget parent
    inode ← asks (λ s. k.d_inode parent s.world)
    inode ← need inode
    mutex_lock inode
    e ← work inode
    mutex_unlock inode
    dput parent
    return e

  -- A new lower entry gets its upper inode, and the directory its attributes.
  unfoldable pub link_in : (dir dentry lower_dentry parent_inode : ℕ) → Ret → M k Ret
  link_in dir dentry lower_dentry parent_inode e = if_zero e (do
    sb ← asks (λ s. (s.inodes dir).i_sb)
    e ← dazukofs_interpose lower_dentry dentry sb false
    if_zero e (do
      copy_from k.copy_attr_times dir parent_inode
      copy_from k.copy_inode_size dir parent_inode
      return e))

  unfoldable pub dazukofs_mknod : (dir dentry mode dev : ℕ) → M k Ret
  dazukofs_mknod dir dentry mode dev = do
    lower_dentry ← get_lower_dentry dentry
    in_parent lower_dentry (λ parent_inode. do
      e ← call (k.vfs_mknod parent_inode lower_dentry mode dev)
      link_in dir dentry lower_dentry parent_inode e)

  unfoldable pub dazukofs_mkdir : (dir dentry mode : ℕ) → M k Ret
  dazukofs_mkdir dir dentry mode = do
    lower_dentry ← get_lower_dentry dentry
    in_parent lower_dentry (λ parent_inode. do
      e ← call (k.vfs_mkdir parent_inode lower_dentry mode)
      e ← link_in dir dentry lower_dentry parent_inode e
      if_zero e (do copy_from k.copy_nlink dir parent_inode; return e))

  -- `mntput` and `dput` are of the earlier kernels too, which take the references before.
  unfoldable pub dazukofs_create : (dir dentry mode : ℕ) → (excl : Bool) → M k Ret
  dazukofs_create dir dentry mode excl = do
    lower_mnt ← get_lower_mnt dentry
    lower_dentry ← get_lower_dentry dentry
    in_parent lower_dentry (λ parent_inode. do
      e ← call (k.vfs_create parent_inode lower_dentry mode excl)
      mntput lower_mnt
      dput lower_dentry
      link_in dir dentry lower_dentry parent_inode e)

  unfoldable pub dazukofs_symlink : (dir dentry : ℕ) → (symname : List ℕ) → M k Ret
  dazukofs_symlink dir dentry symname = do
    lower_dentry ← get_lower_dentry dentry
    in_parent lower_dentry (λ parent_inode. do
      e ← call (k.vfs_symlink parent_inode lower_dentry symname)
      link_in dir dentry lower_dentry parent_inode e)

  unfoldable pub dazukofs_link : (old_dentry dir new_dentry : ℕ) → M k Ret
  dazukofs_link old_dentry dir new_dentry = do
    lower_old_dentry ← get_lower_dentry old_dentry
    lower_new_dentry ← get_lower_dentry new_dentry
    in_parent lower_new_dentry (λ parent_inode. do
      e ← call (k.vfs_link lower_old_dentry parent_inode lower_new_dentry)
      link_in dir new_dentry lower_new_dentry parent_inode e)

  -- `fsstack_copy_attr_times` between two upper inodes.
  abbrev pub copy_times_upper : (dest source : ℕ) → M k (Unit {0})
  copy_times_upper dest source s =
      set_inode dest (λ i. record i { attr = k.copy_attr_times i.attr (s.inodes source).attr }) s

  abbrev pub copy_own_nlink : ℕ → M k (Unit {0})
  copy_own_nlink i = do lower ← get_lower_inode i; copy_from k.copy_nlink i lower

  unfoldable pub dazukofs_unlink : (dir dentry : ℕ) → M k Ret
  dazukofs_unlink dir dentry = do
    lower_dentry ← get_lower_dentry dentry
    in_parent lower_dentry (λ parent_inode. do
      e ← call (k.vfs_unlink parent_inode lower_dentry)
      if_zero e (do
        copy_from k.copy_attr_times dir parent_inode
        inode ← asks (λ s. (s.dentries dentry).inode)
        inode ← need inode
        copy_own_nlink inode
        copy_times_upper inode dir
        return e))

  unfoldable pub dazukofs_rmdir : (dir dentry : ℕ) → M k Ret
  dazukofs_rmdir dir dentry = do
    lower_dentry ← get_lower_dentry dentry
    e ← in_parent lower_dentry (λ parent_inode. do
      e ← call (k.vfs_rmdir parent_inode lower_dentry)
      if_zero e (do
        copy_from k.copy_attr_times dir parent_inode
        copy_from k.copy_nlink dir parent_inode
        inode ← asks (λ s. (s.dentries dentry).inode)
        inode ← need inode
        copy_own_nlink inode
        return e))
    if_zero e (do d_drop dentry; return e)

  -- Between the two inodes of the parents, when both are there; `lock_rename` locks both.
  unfoldable pub rename_in :
      Option ℕ
      → Option ℕ
      → (old_dir old_dentry new_dir new_dentry : ℕ) → (lower_old lower_new : ℕ) → M k Ret
  rename_in none new_parent old_dir old_dentry new_dir new_dentry lower_old lower_new = do
    d_drop old_dentry
    return (err enoent)
  rename_in (some o) none old_dir old_dentry new_dir new_dentry lower_old lower_new = do
    d_drop new_dentry
    return (err enoent)
  rename_in (some o) (some n) old_dir old_dentry new_dir new_dentry lower_old lower_new = do
    mutex_lock o
    (if o == n then return tt else mutex_lock n)
    e ← call (k.vfs_rename o lower_old n lower_new)
    (if o == n then return tt else mutex_unlock n)
    mutex_unlock o
    if_zero e (do
      copy_from k.copy_attr_all new_dir n
      (if new_dir == old_dir then return tt else copy_from k.copy_attr_all old_dir o)
      return e)

  unfoldable pub dazukofs_rename : (old_dir old_dentry new_dir new_dentry : ℕ) → M k Ret
  dazukofs_rename old_dir old_dentry new_dir new_dentry = do
    lower_old ← get_lower_dentry old_dentry
    lower_new ← get_lower_dentry new_dentry
    old_parent ← asks (λ s. k.d_parent lower_old s.world)
    new_parent ← asks (λ s. k.d_parent lower_new s.world)
    dget old_parent
    dget new_parent
    o ← asks (λ s. k.d_inode old_parent s.world)
    n ← asks (λ s. k.d_inode new_parent s.world)
    e ← rename_in o n old_dir old_dentry new_dir new_dentry lower_old lower_new
    dput old_parent
    dput new_parent
    return e
