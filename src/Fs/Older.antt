-- ===== src/Fs/Older.antt =====
-- Functions of dentry.c and inode.c as they are compiled for kernels before 3.6, which are given a
-- nameidata. What the lower file system does with it is a parameter.
pub mod Proofs
mod Examples
use dazukofs_linux.Base.{
  ℕ, Bool, true, false, Option, none, some, List, ◌≡◌, refl, ap, ◌⊎◌, inl, inr, ◌∷◌, ◌==◌, ==_refl,
  arith, if◌then◌else◌,
}
use dazukofs_linux.Events.State.{Ret, ok, err, einval}
use dazukofs_linux.Fs.Kernel.{Kernel}
use dazukofs_linux.Fs.State.{
  M, Ref, Fs, get, put, dentry_ref, mnt_ref, lock, ◌>>=◌, ◌>>◌, return, need, asks, call, dget,
  dput, mntget, mntput, get_lower_dentry, get_lower_mnt,
}
use dazukofs_linux.Fs.Create.{in_parent, link_in}
use dazukofs_linux.Fs.Lookup.{copy_own_attr, dazukofs_d_compare}

-- The path of a nameidata.
pub record NdPath : Type 0 where
  pub mnt : ℕ
  pub dentry : ℕ

module _ {k : Kernel} where
  -- The path of the nameidata is the lower one in the meantime, and is put back after.
  unfoldable pub create_before_36 :
      (vfs_create : (dir dentry mode : ℕ) → NdPath → k.World → Ret × k.World)
      → (dir dentry mode : ℕ) → M k Ret
  create_before_36 vfs_create dir dentry mode = do
    lower_mnt ← get_lower_mnt dentry
    lower_dentry ← get_lower_dentry dentry
    in_parent lower_dentry (λ parent_inode. do
      mntget lower_mnt
      dget lower_dentry
      e ← call (
          vfs_create parent_inode lower_dentry mode
            (record { mnt = lower_mnt; dentry = lower_dentry }))
      mntput lower_mnt
      dput lower_dentry
      link_in dir dentry lower_dentry parent_inode e)

  unfoldable pub update_inode : (dentry : ℕ) → Ret → M k Ret
  update_inode dentry valid = do
    i ← asks (λ s. (s.dentries dentry).inode)
    copy_own_attr i
    return valid

  -- Without a nameidata: a new one, for the name in the lower parent.
  unfoldable pub revalidate_looked_up :
      (d_revalidate : ℕ → NdPath → k.World → Ret × k.World)
      → Option (ℕ × ℕ)
      → (dentry lower_dentry : ℕ) → M k Ret
  unfolding update_inode
  revalidate_looked_up d_revalidate none dentry lower_dentry = return (err einval)
  revalidate_looked_up d_revalidate (some (d, m)) dentry lower_dentry = do
    dget d
    mntget m
    valid ← call (d_revalidate lower_dentry (record { mnt = m; dentry = d }))
    dput d
    mntput m
    update_inode dentry valid

  unfoldable pub revalidate_without :
      (d_revalidate : ℕ → NdPath → k.World → Ret × k.World) → (dentry lower_dentry : ℕ) → M k Ret
  revalidate_without d_revalidate dentry lower_dentry = do
    parent ← asks (λ s. (s.dentries dentry).parent)
    lower_mnt_parent ← get_lower_mnt parent
    lower_parent ← get_lower_dentry parent
    name ← asks (λ s. (s.dentries dentry).name)
    path ← call (k.vfs_path_lookup lower_parent lower_mnt_parent name)
    revalidate_looked_up d_revalidate path dentry lower_dentry

  -- With the caller's, whose path is the lower one in the meantime.
  unfoldable pub revalidate_with :
      (d_revalidate : ℕ → NdPath → k.World → Ret × k.World) → (dentry lower_dentry : ℕ) → M k Ret
  revalidate_with d_revalidate dentry lower_dentry = do
    lower_mnt ← get_lower_mnt dentry
    mntget lower_mnt
    dget lower_dentry
    valid ← call (d_revalidate lower_dentry (record { mnt = lower_mnt; dentry = lower_dentry }))
    mntput lower_mnt
    dput lower_dentry
    update_inode dentry valid

  unfoldable pub revalidate_before_36 :
      (d_revalidate : ℕ → NdPath → k.World → Ret × k.World) → (dentry : ℕ) → (nd : Bool) → M k Ret
  revalidate_before_36 d_revalidate dentry nd = do
    lower_dentry ← get_lower_dentry dentry
    has ← asks (λ s. k.has_revalidate lower_dentry s.world)
    let revalidate =
        (if nd
          then revalidate_with d_revalidate dentry lower_dentry
          else revalidate_without d_revalidate dentry lower_dentry)
    (if has then revalidate else return (ok 1))

  -- `compare` is the lower dentry's operation, if it has one.
  unfoldable pub compare_before_36 :
      (compare : ℕ → k.World → Option (List ℕ → List ℕ → Ret))
      → (dentry : ℕ) → (a b : List ℕ) → M k Ret
  compare_before_36 compare dentry a b = do
    lower_dentry ← get_lower_dentry dentry
    operation ← asks (λ s. compare lower_dentry s.world)
    return (elim operation [ none ↦ ok (dazukofs_d_compare a b) | some d_compare ↦ d_compare a b ])
