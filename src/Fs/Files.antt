-- ===== src/Fs/Files.antt =====
-- The operations on open files of file.c, as they are compiled for a kernel of version 3.6.
use dazukofs_linux.Base.{
  ℕ, zero, suc, ◌+◌, ◌-◌, ◌/◌, Bool, true, false, Option, none, some, List, [], ◌==◌, if◌then◌else◌,
}
use dazukofs_linux.Events.State.{Ret, ok, err, einval, enotty, enoioctlcmd, enodev, enomem}
use dazukofs_linux.Fs.Kernel.{
  Kernel, LowerFile, Io, Pointer, to, is_err, FileOp, llseek_op, read_op, write_op,
  unlocked_ioctl_op, compat_ioctl_op, flush_op, fsync_op, fasync_op, mmap_op,
}
use dazukofs_linux.Fs.State.{
  get, put, file_ref, file_info, page_ref, page_lock, Fs, M, ◌>>=◌, ◌>>◌, return, asks, record_call,
  call, dget, dput, mntget, mntput, mutex_lock, mutex_unlock, set_file, set_lower_file, set_page,
  copy_from, get_lower_dentry, get_lower_mnt, get_lower_inode, get_lower_file, inode_of,
}
use dazukofs_linux.Fs.Attributes.{page_size}

module _ {k : Kernel} where
  -- Whether the table of the lower file is there and has the operation.
  abbrev pub has_op : FileOp → (lower : ℕ) → M k Bool
  has_op op lower = asks (λ s. k.has_file_op op lower s.world)

  -- A call on a lower file, which may change its fields.
  abbrev pub io : (lower : ℕ) → (LowerFile → k.World → Io × k.World) → M k Io
  io lower f = do
    file ← asks (λ s. s.lower_files lower)
    r ← call (f file)
    set_lower_file lower (λ _. r.file)
    return r

  abbrev pub copy_position : Ret → (file lower : ℕ) → M k (Unit {0})
  copy_position (err e) file lower = return tt
  copy_position (ok n) file lower = do
    l ← asks (λ s. s.lower_files lower)
    set_file file (λ f. record f { f_pos = l.f_pos; f_version = l.f_version })

  unfoldable pub dazukofs_llseek : (file offset origin : ℕ) → M k Ret
  dazukofs_llseek file offset origin = do
    lower ← get_lower_file file
    f ← asks (λ s. s.files file)
    set_lower_file lower (λ l. record l { f_pos = f.f_pos; f_ra = f.f_ra })
    has ← has_op llseek_op lower
    r ←
        (if has
          then io lower (k.llseek lower offset origin)
          else io lower (k.generic_file_llseek lower offset origin))
    copy_position r.ret file lower
    return r.ret

  -- The file's inode gets the access time of the lower file's, after a call that has succeeded.
  abbrev pub copy_atime : Ret → (file lower_inode : ℕ) → M k (Unit {0})
  copy_atime (err e) file lower_inode = return tt
  copy_atime (ok n) file lower_inode = do
    f ← asks (λ s. s.files file)
    inode ← inode_of f.dentry
    copy_from k.copy_attr_atime inode lower_inode

  abbrev pub copy_ra : (file lower : ℕ) → M k (Unit {0})
  copy_ra file lower = do
    l ← asks (λ s. s.lower_files lower)
    set_file file (λ f. record f { f_ra = l.f_ra })

  -- The result with what was read and the new position.
  unfoldable pub dazukofs_read : (file count pos : ℕ) → M k (Ret × List ℕ × ℕ)
  dazukofs_read file count pos = do
    lower ← get_lower_file file
    has ← has_op read_op lower
    (if has
        then (do
          r ← io lower (k.vfs_read lower count pos)
          set_lower_file lower (λ l. record l { f_pos = r.pos })
          l ← asks (λ s. s.lower_files lower)
          copy_atime r.ret file l.inode
          copy_ra file lower
          return (r.ret, r.bytes, r.pos))
        else return (err einval, [], pos))

  -- `find_lock_page` returns a page with a reference, and locked.
  abbrev pub mark_found : Option ℕ → M k (Unit {0})
  mark_found none = return tt
  mark_found (some p) = do
    record_call (get (page_ref p))
    record_call (get (page_lock p))
    set_page p (λ q. record q { uptodate = false })
    record_call (put (page_lock p))

  -- The loop from the page `i` on, for as many pages as the second argument says.
  unfoldable pub mark_pages : (inode n i : ℕ) → M k (Unit {0})
  mark_pages inode zero i = return tt
  mark_pages inode (suc n) i = do
    found ← asks (λ s. s.page_at inode i)
    mark_found found
    mark_pages inode n (i + 1)

  -- `file->f_mapping` is that of the inode.
  unfoldable pub mark_pages_outdated : (inode count pos : ℕ) → M k (Unit {0})
  mark_pages_outdated inode count pos =
      let start = pos / page_size in
      let end = (pos + count) / page_size in
      if count == 0 then return tt else mark_pages inode (end + 1 - start) start

  abbrev pub after_write : Ret → (inode lower_inode pos : ℕ) → M k (Unit {0})
  after_write (err e) inode lower_inode pos = return tt
  after_write (ok n) inode lower_inode pos = do
    mark_pages_outdated inode n (pos - n)
    copy_from k.copy_attr_atime inode lower_inode

  -- With the inode at hand: the part under its mutex.
  unfoldable pub write_locked : (file lower inode lower_inode : ℕ) → List ℕ → ℕ → M k (Ret × ℕ)
  write_locked file lower inode lower_inode buf pos = do
    mutex_lock inode
    r ← io lower (k.vfs_write lower buf pos)
    set_lower_file lower (λ l. record l { f_pos = r.pos })
    after_write r.ret inode lower_inode r.pos
    copy_ra file lower
    copy_from k.copy_size inode lower_inode
    mutex_unlock inode
    return (r.ret, r.pos)

  unfoldable pub dazukofs_write : (file : ℕ) → (buf : List ℕ) → (pos : ℕ) → M k (Ret × ℕ)
  dazukofs_write file buf pos = do
    lower ← get_lower_file file
    f ← asks (λ s. s.files file)
    inode ← inode_of f.dentry
    lower_inode ← get_lower_inode inode
    has ← has_op write_op lower
    (if has then write_locked file lower inode lower_inode buf pos else return (err einval, pos))

  unfoldable pub dazukofs_readdir : (file : ℕ) → M k (Ret × List ℕ)
  dazukofs_readdir file = do
    lower ← get_lower_file file
    f ← asks (λ s. s.files file)
    set_lower_file lower (λ l. record l { f_pos = f.f_pos })
    r ← io lower (k.vfs_readdir lower)
    l ← asks (λ s. s.lower_files lower)
    set_file file (λ f. record f { f_pos = l.f_pos })
    copy_atime r.ret file l.inode
    return (r.ret, r.bytes)

  -- What the functions have in common that hand a call on, or return `other` when the lower table
  -- lacks it.
  unfoldable pub hand_on : FileOp → (other : Ret) → (file arg : ℕ) → M k Ret
  hand_on op other file arg = do
    lower ← get_lower_file file
    has ← has_op op lower
    (if has then call (k.file_call op lower arg) else return other)

  unfoldable pub dazukofs_unlocked_ioctl : (file arg : ℕ) → M k Ret
  dazukofs_unlocked_ioctl = hand_on unlocked_ioctl_op (err enotty)

  unfoldable pub dazukofs_compat_ioctl : (file arg : ℕ) → M k Ret
  dazukofs_compat_ioctl = hand_on compat_ioctl_op (err enoioctlcmd)

  unfoldable pub dazukofs_flush : (file arg : ℕ) → M k Ret
  dazukofs_flush = hand_on flush_op (ok 0)

  unfoldable pub dazukofs_fsync : (file arg : ℕ) → M k Ret
  dazukofs_fsync = hand_on fsync_op (err einval)

  unfoldable pub dazukofs_fasync : (file arg : ℕ) → M k Ret
  dazukofs_fasync = hand_on fasync_op (ok 0)

  -- `generic_file_mmap` is a call on the upper file.
  unfoldable pub dazukofs_mmap :
      (generic_file_mmap : k.World → Ret × k.World) → (file : ℕ) → M k Ret
  dazukofs_mmap generic_file_mmap file = do
    lower ← get_lower_file file
    has ← has_op mmap_op lower
    (if has then call generic_file_mmap else return (err enodev))

  -- The label `error_out1`.
  abbrev pub open_out : (lower_dentry lower_mnt : ℕ) → Ret → M k Ret
  open_out lower_dentry lower_mnt e = do dput lower_dentry; mntput lower_mnt; return e

  abbrev pub set_opened : (file : ℕ) → Pointer → M k Ret
  set_opened file (is_err e) = return (err e)
  set_opened file (to lower) = do
    record_call (get (file_ref lower))
    l ← asks (λ s. k.lower_file lower s.world)
    set_lower_file lower (λ _. l)
    set_file file (λ f. record f { private_data = some (some lower) })
    return (ok 0)

  unfoldable pub open_allocated : Bool → (file lower_dentry lower_mnt : ℕ) → M k Ret
  open_allocated false file lower_dentry lower_mnt = do
    set_file file (λ f. record f { private_data = none })
    open_out lower_dentry lower_mnt (err enomem)
  open_allocated true file lower_dentry lower_mnt = do
    record_call (get (file_info file))
    set_file file (λ f. record f { private_data = some none })
    f ← asks (λ s. s.files file)
    opened ← call (k.dentry_open lower_dentry lower_mnt f.f_flags)
    set_opened file opened

  -- By the result of `dazukofs_check_access`.
  unfoldable pub open_checked : Ret → (file lower_dentry lower_mnt : ℕ) → M k Ret
  open_checked (err e) file lower_dentry lower_mnt = open_out lower_dentry lower_mnt (err e)
  open_checked (ok n) file lower_dentry lower_mnt =
      if n == 0
      then (do
        allocated ← call k.kmem_cache_zalloc
        open_allocated allocated file lower_dentry lower_mnt)
      else open_out lower_dentry lower_mnt (ok n)

  -- `access` is what `dazukofs_check_access` comes to for the file's dentry and mount: the access
  -- waits in there, and other processes run meanwhile.
  unfoldable pub dazukofs_open : (access : Fs k → Ret × Fs k) → (file : ℕ) → M k Ret
  dazukofs_open access file = do
    f ← asks (λ s. s.files file)
    lower_dentry ← get_lower_dentry f.dentry
    dget lower_dentry
    lower_mnt ← get_lower_mnt f.dentry
    mntget lower_mnt
    e ← (λ s. some (access s))
    open_checked e file lower_dentry lower_mnt

  unfoldable pub dazukofs_release : (inode file : ℕ) → M k Ret
  dazukofs_release inode file = do
    lower_inode ← get_lower_inode inode
    lower ← get_lower_file file
    record_call (put (file_ref lower))
    copy_from k.copy_blocks inode lower_inode
    record_call (put (file_info file))
    return (ok 0)
