-- ===== src/Fs/Older/Proofs.antt =====
-- What the functions for kernels before 3.6 keep and answer.
use dazukofs_linux.Base.{ℕ, ◌≡◌, ◌⊎◌, Bool, true, false, some}
use dazukofs_linux.Events.State.{Ret, ok, err, einval}
use dazukofs_linux.Fs.Kernel.{Kernel}
use dazukofs_linux.Fs.State.{Fs}
use dazukofs_linux.Fs.Balance.{Balanced}
use dazukofs_linux.Fs.Older.{NdPath}

module _ {k : Kernel} where
  -- The inode of a dentry has the attributes of its lower one.
  abbrev pub Updated : (dentry : ℕ) → Fs k → Fs k → Type 0
  Updated dentry s s' =
      (i : ℕ)
      → (s.dentries dentry).inode ≡ some i
      → (s'.inodes i).attr
        ≡ k.copy_attr_all (s.inodes i).attr (k.attr (s.inodes i).lower_inode s'.world)

  module _ (d_revalidate : ℕ → NdPath → k.World → Ret × k.World) (d ld m lp pm : ℕ) (nd : Bool)
      (s : Fs k) where
    -- How revalidating ends, with all references given back. The lower file system has no such
    -- operation: 1, and no inode has changed. There is no nameidata and the lower name is not
    -- found: EINVAL, and no inode has changed. Otherwise the lower answer for a path, which is the
    -- lower dentry's own if there is a nameidata, and an inode of the dentry has the attributes of
    -- its lower one.
    abbrev pub RevalidatedOlder : Ret → Fs k → Type 0
    RevalidatedOlder r s' =
        Balanced s.trace s'.trace
        × (((r ≡ ok 1) × (k.has_revalidate ld s.world ≡ false) × (s'.inodes ≡ s.inodes))
            ⊎ ((r ≡ err einval) × (nd ≡ false) × (s'.inodes ≡ s.inodes))
            ⊎ ((path : NdPath) × (w : k.World) × (nd ≡ true
                  → path ≡ record { mnt = m; dentry = ld })
                × (r ≡ (d_revalidate ld path w).0)
                × Updated d s s'))
