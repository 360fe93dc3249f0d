-- ===== src/Fs/Making.antt =====
-- mkdir and create of inode.c: what they keep, and what they make of the layers.
use dazukofs_linux.Base.{ℕ, refl, inl, inr, Bool, Option, ◌∷◌, arith}
use dazukofs_linux.Events.State.{Ret}
use dazukofs_linux.Fs.Kernel.{Kernel}
use dazukofs_linux.Fs.State.{Ref, Fs, get, put, dentry_ref, mnt_ref, lock, ◌>>◌}
use dazukofs_linux.Fs.Create.{link_in, dazukofs_create}
use dazukofs_linux.Fs.Balance.{Returns, Ensures-map}
use dazukofs_linux.Fs.Creating.{
  as_is, MakesPositive, Ready, Created, Returns-lower_dentry, Returns-lower_mnt, in_parent-Returns,
  link_in-Created,
}

module _ {k : Kernel} where
  overdrawn :
      (dir d p : ℕ) (made : Option ℕ) (x y u v : Ref) (s s' : Fs k) (r : Ret)
      → Created as_is dir d p made
          (record s { trace = put v ∷ put u ∷ get y ∷ get x ∷ s.trace })
          r
          s'
      → Created as_is dir d p made
          (record s { trace = put v ∷ put u ∷ s.trace })
          r
          (record s' { trace = put x ∷ put y ∷ s'.trace })
  overdrawn dir d p made x y u v s s' r (inl (a, l, new, done, there, linked, lower, mirror, net)) =
      inl (a, l, new, done, there, linked, lower, mirror, λ z. omega (arith, net z))
  overdrawn dir d p made x y u v s s' r (inr (failed, net)) =
      inr (failed, λ z. omega (arith, net z))

  -- For a dentry that is set up, when a lower create that succeeds leaves an inode at the lower
  -- dentry, dazukofs_create returns with `Created`, counted from a trace in which a reference to
  -- the lower dentry and one to the lower mount have been given back: whatever comes of it, it
  -- gives back two more than it takes. The directory's super block is set up and the lower parent
  -- has an inode.
  -- An inode that iget5_locked finds in the cache is taken to be one that its callback accepts.
  pub dazukofs_create-overdraws :
      (dir d ld m p mode : ℕ) (excl : Bool) (s : Fs k)
      → Ready s dir d ld m p
      → MakesPositive k ld (k.vfs_create p ld mode excl)
      → Returns (dazukofs_create dir d mode excl) s (
          Created as_is dir d p
            (k.d_inode ld (k.vfs_create p ld mode excl s.world).1)
            (record s { trace = put (dentry_ref ld) ∷ put (mnt_ref m) ∷ s.trace }))
  unfolding dazukofs_create
  dazukofs_create-overdraws dir d ld m p mode excl s h positive =
      let x = dentry_ref (k.d_parent ld s.world) in
      let Q =
        Created as_is dir d p (k.d_inode ld (k.vfs_create p ld mode excl s.world).1)
          (record s { trace = put (dentry_ref ld) ∷ put (mnt_ref m) ∷ s.trace }) in
      let s1 : Fs k = record s {
        trace = put (dentry_ref ld) ∷ put (mnt_ref m) ∷ get (lock p) ∷ get x ∷ s.trace;
      } in
      let made = k.vfs_create p ld mode excl s.world in
      let s2 : Fs k = record s1 { world = made.1 } in
      Returns-lower_mnt d ld m _ s Q h.backed (
        Returns-lower_dentry d ld m _ s Q h.backed (
          in_parent-Returns ld p _ s Q h.parent_there (
            Ensures-map (link_in dir d ld p made.0 s2)
              (Created as_is dir d p (k.d_inode ld (k.vfs_create p ld mode excl s.world).1) s1) _
              (λ r s' c.
                overdrawn dir d p (k.d_inode ld (k.vfs_create p ld mode excl s.world).1) x (lock p)
                  (mnt_ref m) (dentry_ref ld) s s' r c)
              (link_in-Created dir d ld p made.0 h.sb_info s1 s2 (positive s.world) h.set_up
                h.agrees refl))))
