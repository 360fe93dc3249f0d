-- ===== src/Fs/Lookup.antt =====
-- dazukofs_lookup of inode.c, and dentry.c, as they are compiled for a kernel of version 3.6.
use dazukofs_linux.Base.{
  ℕ, Bool, true, false, not, ◌&&◌, ◌||◌, Option, none, some, List, [], ◌∷◌, ◌==◌, if◌then◌else◌,
  length,
}
use dazukofs_linux.Events.State.{Ret, ok, err, enomem, einval}
use dazukofs_linux.Fs.Kernel.{Kernel, Pointer, to, is_err}
use dazukofs_linux.Fs.State.{
  get, put, dentry_ref, dentry_info, DentryInfo, M, ◌>>=◌, ◌>>◌, return, need, asks, record_call,
  call, dput, mntget, mntput, mutex_lock, mutex_unlock, set_dentry, copy_from, get_lower_dentry,
  get_lower_mnt, get_lower_inode, set_lower_dentry, d_drop, d_add, dget,
}
use dazukofs_linux.Fs.Interpose.{dazukofs_interpose}

-- "." and "..".
abbrev pub is_dots : List ℕ → Bool
is_dots (a ∷ []) = a == b'.'
is_dots (a ∷ b ∷ []) = a == b'.' && b == b'.'
is_dots _ = false

module _ {k : Kernel} where
  -- The label `out_dput`.
  abbrev pub out_dput : (lower_dentry dentry : ℕ) → Ret → M k Ret
  out_dput lower_dentry dentry e = do dput lower_dentry; d_drop dentry; return e

  abbrev pub lookup_done : (lower_dentry dentry : ℕ) → Ret → M k Ret
  lookup_done lower_dentry dentry (err e) = out_dput lower_dentry dentry (err e)
  lookup_done lower_dentry dentry (ok n) =
      if n == 0 then return (ok n) else out_dput lower_dentry dentry (ok n)

  -- By the inode of the lower dentry: a name that is not there, or one that is.
  unfoldable pub lookup_inode : Option ℕ → (dir dentry lower_dentry : ℕ) → M k Ret
  lookup_inode none dir dentry lower_dentry = do d_add dentry none; return (ok 0)
  lookup_inode (some i) dir dentry lower_dentry = do
    sb ← asks (λ s. (s.inodes dir).i_sb)
    e ← dazukofs_interpose lower_dentry dentry sb true
    lookup_done lower_dentry dentry e

  unfoldable pub lookup_allocated :
      Bool → (dir dentry parent parent_inode lower_dentry : ℕ) → M k Ret
  lookup_allocated false dir dentry parent parent_inode lower_dentry = do
    set_dentry dentry (λ d. record d { private_data = none })
    out_dput lower_dentry dentry (err enomem)
  lookup_allocated true dir dentry parent parent_inode lower_dentry = do
    record_call (get (dentry_info dentry))
    set_dentry dentry
        (λ d. record d { private_data = some (record { lower_dentry = none; lower_mnt = none }) })
    copy_from k.copy_attr_atime dir parent_inode
    mnt ← get_lower_mnt parent
    mntget mnt
    set_lower_dentry dentry lower_dentry mnt
    i ← asks (λ s. k.d_inode lower_dentry s.world)
    lookup_inode i dir dentry lower_dentry

  -- `lookup_one_len` returns a dentry with a reference.
  unfoldable pub lookup_found : Pointer → (dir dentry parent parent_inode : ℕ) → M k Ret
  lookup_found (is_err e) dir dentry parent parent_inode = do d_drop dentry; return (err e)
  lookup_found (to lower_dentry) dir dentry parent parent_inode = do
    record_call (get (dentry_ref lower_dentry))
    allocated ← call k.kmem_cache_zalloc
    lookup_allocated allocated dir dentry parent parent_inode lower_dentry

  -- In the parent that the dentry names.
  unfoldable pub lookup_in : (parent : ℕ) → List ℕ → (dir dentry : ℕ) → M k Ret
  lookup_in parent name dir dentry = do
    lower_parent ← get_lower_dentry parent
    inode ← asks (λ s. k.d_inode lower_parent s.world)
    inode ← need inode
    mutex_lock inode
    found ← call (k.lookup_one_len name lower_parent)
    mutex_unlock inode
    lookup_found found dir dentry parent inode

  unfoldable pub lookup_name : List ℕ → (dir dentry : ℕ) → M k Ret
  lookup_name name dir dentry = do
    set_dentry dentry (λ d. record d { has_dops = true })
    parent ← asks (λ s. (s.dentries dentry).parent)
    lookup_in parent name dir dentry

  unfoldable pub dazukofs_lookup : (dir dentry : ℕ) → M k Ret
  dazukofs_lookup dir dentry = do
    name ← asks (λ s. (s.dentries dentry).name)
    (if is_dots name then (do d_drop dentry; return (ok 0)) else lookup_name name dir dentry)

  -- `dput` and `mntput` take a NULL pointer.
  abbrev pub dput_any : Option ℕ → M k (Unit {0})
  dput_any none = return tt
  dput_any (some d) = dput d

  abbrev pub mntput_any : Option ℕ → M k (Unit {0})
  mntput_any none = return tt
  mntput_any (some m) = mntput m

  abbrev pub put_info : ℕ → DentryInfo → M k (Unit {0})
  put_info dentry info = do
    dput_any info.lower_dentry
    mntput_any info.lower_mnt
    record_call (put (dentry_info dentry))

  abbrev pub release_info : ℕ → Option DentryInfo → M k (Unit {0})
  release_info dentry none = return tt
  release_info dentry (some info) = put_info dentry info

  -- Called when a dentry is deallocated.
  unfoldable pub dazukofs_d_release : ℕ → M k (Unit {0})
  dazukofs_d_release dentry = do
    info ← asks (λ s. (s.dentries dentry).private_data)
    release_info dentry info

  abbrev pub copy_own_attr : Option ℕ → M k (Unit {0})
  copy_own_attr none = return tt
  copy_own_attr (some i) = do lower ← get_lower_inode i; copy_from k.copy_attr_all i lower

  -- `vfs_path_lookup` takes the references that `path_put` drops.
  unfoldable pub revalidate_path : Option (ℕ × ℕ) → (dentry lower_dentry : ℕ) → M k Ret
  revalidate_path none dentry lower_dentry = return (err einval)
  revalidate_path (some (d, m)) dentry lower_dentry = do
    dget d
    mntget m
    valid ← call (k.d_revalidate lower_dentry)
    dput d
    mntput m
    i ← asks (λ s. (s.dentries dentry).inode)
    copy_own_attr i
    return valid

  unfoldable pub revalidate_lower : (dentry lower_dentry : ℕ) → M k Ret
  revalidate_lower dentry lower_dentry = do
    parent ← asks (λ s. (s.dentries dentry).parent)
    lower_mnt_parent ← get_lower_mnt parent
    lower_parent ← get_lower_dentry parent
    name ← asks (λ s. (s.dentries dentry).name)
    path ← call (k.vfs_path_lookup lower_parent lower_mnt_parent name)
    revalidate_path path dentry lower_dentry

  unfoldable pub dazukofs_d_revalidate : ℕ → M k Ret
  dazukofs_d_revalidate dentry = do
    lower_dentry ← get_lower_dentry dentry
    has ← asks (λ s. k.has_revalidate lower_dentry s.world)
    (if has then revalidate_lower dentry lower_dentry else return (ok 1))

  unfoldable pub dazukofs_d_hash : (dentry : ℕ) → (name : List ℕ) → M k Ret
  dazukofs_d_hash dentry name = do
    lower_dentry ← get_lower_dentry dentry
    has ← asks (λ s. k.has_hash lower_dentry s.world)
    (if has then call (k.d_hash lower_dentry name) else return (ok 0))

-- `memcmp` over the length of the first, when the lengths are the same: whether two bytes differ.
unfoldable pub memcmp : List ℕ → List ℕ → Bool
memcmp [] t = false
memcmp (x ∷ s) [] = true
memcmp (x ∷ s) (y ∷ t) = not (x == y) || memcmp s t

-- 0 for the same names.
unfoldable pub dazukofs_d_compare : (str name : List ℕ) → ℕ
dazukofs_d_compare str name = if not (length str == length name) || memcmp str name then 1 else 0
