-- ===== src/Fs/Refreshing.antt =====
-- Attributes that are taken over from the lower layer: dazukofs_setattr of inode.c and
-- dazukofs_d_revalidate of dentry.c.
use dazukofs_linux.Base.{ℕ, ◌≡◌, ◌⊎◌, true, false, ◌||◌, some}
use dazukofs_linux.Events.State.{Ret, ok, err, einval}
use dazukofs_linux.Fs.Kernel.{Kernel, Iattr}
use dazukofs_linux.Fs.State.{Fs}
use dazukofs_linux.Fs.Balance.{Balanced}

module _ {k : Kernel} where
  -- The lower dentry is asked for the change, without a mode when it is about the set-id bits;
  -- whatever it answers, the inode has the attributes and the size of its lower one, and the lock
  -- is given back.
  abbrev pub Changed : (ld inode : ℕ) → Iattr → Fs k → Ret → Fs k → Type 0
  Changed ld inode ia s r s' =
      (asked : Iattr) × ((ia.kill_suid || ia.kill_sgid) ≡ true → asked.mode ≡ false)
      × ((ia.kill_suid || ia.kill_sgid) ≡ false → asked ≡ ia)
      × (r ≡ (k.notify_change ld asked s.world).0)
      × (let low = k.attr (s.inodes inode).lower_inode s'.world in
          (s'.inodes inode).attr
          ≡ k.copy_inode_size (k.copy_attr_all (s.inodes inode).attr low) low)
      × Balanced s.trace s'.trace

  -- How revalidating a dentry ends, all references given back. The lower file system has no such
  -- operation: 1, and no inode has changed. The lower name is not found: EINVAL. Otherwise the
  -- lower answer, and an inode of the dentry has the attributes of its lower one.
  abbrev pub Revalidated : (d ld : ℕ) → Fs k → Ret → Fs k → Type 0
  Revalidated d ld s r s' =
      Balanced s.trace s'.trace
      × (((r ≡ ok 1) × (s'.inodes ≡ s.inodes))
          ⊎ ((r ≡ err einval) × (s'.inodes ≡ s.inodes))
          ⊎ ((w : k.World) × (r ≡ (k.d_revalidate ld w).0)
              × ((i : ℕ)
                  → (s.dentries d).inode ≡ some i
                  → (s'.inodes i).attr
                    ≡ k.copy_attr_all (s.inodes i).attr
                        (k.attr (s.inodes i).lower_inode s'.world))))
