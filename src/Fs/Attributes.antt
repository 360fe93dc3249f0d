-- ===== src/Fs/Attributes.antt =====
-- What inode.c does about symbolic links, permissions, attributes and extended attributes.
use dazukofs_linux.Base.{
  ℕ, false, ◌||◌, Option, none, some, List, [], ◌∷◌, ◌++◌, ◌==◌, if◌then◌else◌, ltb, take,
}
use dazukofs_linux.Events.State.{Ret, ok, err, enoent, einval, enomem, eopnotsupp}
use dazukofs_linux.Fs.Kernel.{Kernel, Iattr, Xattr, setxattr, getxattr, listxattr, removexattr}
use dazukofs_linux.Fs.State.{
  get, put, link_buffer, M, ◌>>=◌, ◌>>◌, return, asks, record_call, call, mntget, mntput,
  mutex_lock, mutex_unlock, copy_from, get_lower_dentry, get_lower_mnt, get_lower_inode, inode_of,
  d_drop,
}

abbrev pub page_size : ℕ
page_size = 4096

module _ {k : Kernel} where
  abbrev pub after_readlink : Ret × List ℕ → (dentry lower_inode : ℕ) → M k (Ret × List ℕ)
  after_readlink (err e, bytes) dentry lower_inode = return (err e, bytes)
  after_readlink (ok n, bytes) dentry lower_inode =
      if n == 0
      then (do i ← inode_of dentry; copy_from k.copy_attr_times i lower_inode; return (ok n, bytes))
      else return (ok n, bytes)

  unfoldable pub readlink_inode : Option ℕ → (dentry lower_dentry bufsiz : ℕ) → M k (Ret × List ℕ)
  readlink_inode none dentry lower_dentry bufsiz = do d_drop dentry; return (err enoent, [])
  readlink_inode (some i) dentry lower_dentry bufsiz = do
    has ← asks (λ s. k.has_readlink i s.world)
    (if has
        then (do r ← call (k.readlink lower_dentry bufsiz); after_readlink r dentry i)
        else return (err einval, []))

  -- The result, with the bytes that are in the buffer.
  unfoldable pub dazukofs_readlink : (dentry bufsiz : ℕ) → M k (Ret × List ℕ)
  dazukofs_readlink dentry bufsiz = do
    lower_dentry ← get_lower_dentry dentry
    i ← asks (λ s. k.d_inode lower_dentry s.world)
    readlink_inode i dentry lower_dentry bufsiz

  -- `buf[rc] = 0`: beyond the end of the buffer it is a fault.
  abbrev pub terminate : ℕ → List ℕ → M k (List ℕ)
  terminate rc bytes = if ltb rc page_size then return (take rc bytes ++ 0 ∷ []) else (λ s. none)

  unfoldable pub follow_read : (dentry : ℕ) → Ret × List ℕ → M k (Ret × List ℕ)
  follow_read dentry (err e, bytes) = do record_call (put (link_buffer dentry)); return (err e, [])
  follow_read dentry (ok rc, bytes) = do text ← terminate rc bytes; return (ok 0, text)

  -- The result, with the text that `nd_set_link` is given; the buffer stays allocated for it.
  unfoldable pub dazukofs_follow_link : (dentry : ℕ) → M k (Ret × List ℕ)
  dazukofs_follow_link dentry = do
    allocated ← call k.kmalloc
    (if allocated
        then (do
          record_call (get (link_buffer dentry))
          r ← dazukofs_readlink dentry page_size
          follow_read dentry r)
        else return (err enomem, []))

  unfoldable pub dazukofs_put_link : (dentry : ℕ) → M k (Unit {0})
  dazukofs_put_link dentry = record_call (put (link_buffer dentry))

  unfoldable pub dazukofs_permission : (inode mask : ℕ) → M k Ret
  dazukofs_permission inode mask = do
    lower ← get_lower_inode inode
    call (k.inode_permission lower mask)

  unfoldable pub dazukofs_getattr : (dentry : ℕ) → M k (Ret × k.Stat)
  dazukofs_getattr dentry = do
    inode ← inode_of dentry
    lower ← get_lower_inode inode
    has ← asks (λ s. k.has_getattr lower s.world)
    own ← asks (λ s. k.generic_fillattr (s.inodes inode).attr)
    (if has
        then (do
          mnt ← get_lower_mnt dentry
          mntget mnt
          lower_dentry ← get_lower_dentry dentry
          r ← call (k.getattr mnt lower_dentry)
          mntput mnt
          return r)
        else return (ok 0, own))

  unfoldable pub dazukofs_setattr : (dentry : ℕ) → Iattr → M k Ret
  dazukofs_setattr dentry ia = do
    lower_dentry ← get_lower_dentry dentry
    inode ← inode_of dentry
    lower ← get_lower_inode inode
    let ia = record ia { mode = if ia.kill_suid || ia.kill_sgid then false else ia.mode }
    mutex_lock lower
    e ← call (k.notify_change lower_dentry ia)
    mutex_unlock lower
    copy_from k.copy_attr_all inode lower
    copy_from k.copy_inode_size inode lower
    return e

  -- What the four functions on extended attributes have in common: the lower inode has to be there
  -- and to have the operation. `work` is given the lower dentry and its inode.
  unfoldable pub xattr_inode :
      Xattr → Option ℕ → (dentry : ℕ) → (ℕ → M k (Ret × List ℕ)) → M k (Ret × List ℕ)
  xattr_inode x none dentry work = do d_drop dentry; return (err enoent, [])
  xattr_inode x (some i) dentry work = do
    has ← asks (λ s. k.has_xattr x i s.world)
    (if has then work i else return (err eopnotsupp, []))

  unfoldable pub on_xattr : Xattr → (dentry : ℕ) → (ℕ → ℕ → M k (Ret × List ℕ)) → M k (Ret × List ℕ)
  on_xattr x dentry work = do
    lower_dentry ← get_lower_dentry dentry
    i ← asks (λ s. k.d_inode lower_dentry s.world)
    xattr_inode x i dentry (work lower_dentry)

  unfoldable pub dazukofs_setxattr :
      (dentry : ℕ) → (name value : List ℕ) → (flags : ℕ) → M k (Ret × List ℕ)
  dazukofs_setxattr dentry name value flags =
      let x = setxattr name value flags in
      on_xattr x dentry (λ lower_dentry i. do
        mutex_lock i
        r ← call (k.xattr x lower_dentry)
        mutex_unlock i
        inode ← inode_of dentry
        copy_from k.copy_attr_all inode i
        copy_from k.copy_inode_size inode i
        return r)

  unfoldable pub dazukofs_getxattr :
      (dentry : ℕ) → (name : List ℕ) → (size : ℕ) → M k (Ret × List ℕ)
  dazukofs_getxattr dentry name size =
      on_xattr (getxattr name size) dentry
        (λ lower_dentry i. call (k.xattr (getxattr name size) lower_dentry))

  unfoldable pub dazukofs_listxattr : (dentry size : ℕ) → M k (Ret × List ℕ)
  dazukofs_listxattr dentry size =
      on_xattr (listxattr size) dentry
        (λ lower_dentry i. call (k.xattr (listxattr size) lower_dentry))

  unfoldable pub dazukofs_removexattr : (dentry : ℕ) → (name : List ℕ) → M k (Ret × List ℕ)
  dazukofs_removexattr dentry name = on_xattr (removexattr name) dentry (λ lower_dentry i. do
    mutex_lock i
    r ← call (k.xattr (removexattr name) lower_dentry)
    mutex_unlock i
    return r)
