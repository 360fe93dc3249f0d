-- ===== src/Fs/Removing.antt =====
-- unlink, rmdir and rename of inode.c: what they take, they give back.
use dazukofs_linux.Base.{
  ℕ, ◌≡◌, refl, sym, ◌≢◌, ◌⊎◌, inl, inr, false, some, ◌∷◌, ◌==◌, if◌then◌else◌, ==_refl, Bool-cases,
  arith,
}
use dazukofs_linux.Events.State.{Ret, ok}
use dazukofs_linux.Fs.Kernel.{Kernel}
use dazukofs_linux.Fs.State.{
  Ref, Fs, get, put, dentry_ref, lock, ◌>>◌, return, copy_from, d_drop, if_zero,
}
use dazukofs_linux.Fs.Create.{
  in_parent, dazukofs_unlink, dazukofs_rmdir, dazukofs_rename, rename_in,
}
use dazukofs_linux.Fs.Balance.{Balanced, Returns, Returns-need, Returns-bind, Returns-if_zero}
use dazukofs_linux.Fs.Creating.{Ready, Returns-lower_dentry, in_parent-Returns}

differ : (a b : ℕ) → a ≢ b → (a == b) ≡ false
differ a b h = ground arith

module _ {k : Kernel} where
  -- The result is the lower call's. A success gives the directory the lower times, and the removed
  -- inode the lower link count and the directory's times; a failure changes no inode.
  abbrev pub Unlinked : (dir i p : ℕ) → Fs k → Ret × k.World → Ret → Fs k → Type 0
  Unlinked dir i p s made r s' =
      (r ≡ made.0)
      × Balanced s.trace s'.trace
      × (((r ≢ ok 0) × (s'.inodes ≡ s.inodes))
          ⊎ ((r ≡ ok 0)
              × ((s'.inodes dir).attr ≡ k.copy_attr_times (s.inodes dir).attr (k.attr p made.1))
              × ((s'.inodes i).attr
                  ≡ k.copy_attr_times
                      (k.copy_nlink (s.inodes i).attr (k.attr (s.inodes i).lower_inode made.1))
                      (s'.inodes dir).attr)))

  -- What is to hold before a lock and a reference are given back.
  abbrev After : (p parent : ℕ) → (Ret → Fs k → Type 0) → Ret → Fs k → Type 0
  After p parent Q r s = Q r (record s { trace = put (dentry_ref parent) ∷ put (lock p) ∷ s.trace })

  -- For a dentry that is set up and has an inode other than the directory's, dazukofs_unlink
  -- returns with `Unlinked`.
  pub dazukofs_unlink-Unlinked :
      (dir d ld m p i : ℕ) (s : Fs k)
      → Ready s dir d ld m p
      → (s.dentries d).inode ≡ some i
      → i ≢ dir
      → Returns (dazukofs_unlink dir d) s (Unlinked dir i p s (k.vfs_unlink p ld s.world))
  unfolding dazukofs_unlink
  dazukofs_unlink-Unlinked dir d ld m p i s h there apart =
      let made = k.vfs_unlink p ld s.world in
      let Q = Unlinked dir i p s made in
      let R = After p (k.d_parent ld s.world) Q in
      Returns-lower_dentry d ld m _ s Q h.backed (
        in_parent-Returns ld p _ s Q h.parent_there (
          Returns-if_zero made.0 _ _ R
            (λ z. Returns-need (s.dentries d).inode i _ _ R there (
              refl,
              (λ r. omega arith),
              inr (
                z,
                rw (differ i dir apart, ==_refl dir) refl,
                rw (differ i dir apart, differ dir i (λ e. apart (sym e)), ==_refl dir, ==_refl i)
                    refl,
              ),
            ))
            (λ nz. (refl, (λ r. omega arith), inl (nz, refl)))))

  -- As above, for a directory: the parent gets the lower link count, and only a success drops the
  -- dentry from the hash.
  abbrev pub RemovedDir : (dir d i p : ℕ) → Fs k → Ret × k.World → Ret → Fs k → Type 0
  RemovedDir dir d i p s made r s' =
      (r ≡ made.0)
      × Balanced s.trace s'.trace
      × (((r ≢ ok 0) × (s'.inodes ≡ s.inodes) × (s'.dentries ≡ s.dentries))
          ⊎ ((r ≡ ok 0)
              × ((s'.dentries d).hashed ≡ false)
              × ((s'.inodes dir).attr
                  ≡ k.copy_nlink (k.copy_attr_times (s.inodes dir).attr (k.attr p made.1))
                      (k.attr p made.1))
              × ((s'.inodes i).attr
                  ≡ k.copy_nlink (s.inodes i).attr (k.attr (s.inodes i).lower_inode made.1))))

  -- Before the dentry is dropped.
  abbrev Emptied : (dir i p : ℕ) → Fs k → Ret × k.World → Ret → Fs k → Type 0
  Emptied dir i p s made r s' =
      (r ≡ made.0)
      × Balanced s.trace s'.trace
      × (s'.dentries ≡ s.dentries)
      × (((r ≢ ok 0) × (s'.inodes ≡ s.inodes))
          ⊎ ((r ≡ ok 0)
              × ((s'.inodes dir).attr
                  ≡ k.copy_nlink (k.copy_attr_times (s.inodes dir).attr (k.attr p made.1))
                      (k.attr p made.1))
              × ((s'.inodes i).attr
                  ≡ k.copy_nlink (s.inodes i).attr (k.attr (s.inodes i).lower_inode made.1))))

  dropped_dir :
      (dir d i p : ℕ) (s : Fs k) (made : Ret × k.World) (r : Ret) (s2 : Fs k)
      → Emptied dir i p s made r s2
      → Returns (if_zero r (do d_drop d; return r)) s2 (RemovedDir dir d i p s made)
  dropped_dir dir d i p s made r s2 (same, net, ds, inl (failed, is)) =
      Returns-if_zero r _ s2 _ (λ z. absurd (failed z)) (λ _. (same, net, inl (failed, is, ds)))
  dropped_dir dir d i p s made r s2 (same, net, ds, inr (done, at_dir, at_i)) =
      Returns-if_zero r _ s2 _ (λ z. (same, net, inr (done, rw (==_refl d) refl, at_dir, at_i)))
        (λ nz. absurd (nz done))

  -- For a dentry that is set up and has an inode other than the directory's, dazukofs_rmdir returns
  -- with `RemovedDir`.
  pub dazukofs_rmdir-RemovedDir :
      (dir d ld m p i : ℕ) (s : Fs k)
      → Ready s dir d ld m p
      → (s.dentries d).inode ≡ some i
      → i ≢ dir
      → Returns (dazukofs_rmdir dir d) s (RemovedDir dir d i p s (k.vfs_rmdir p ld s.world))
  unfolding dazukofs_rmdir
  dazukofs_rmdir-RemovedDir dir d ld m p i s h there apart =
      let made = k.vfs_rmdir p ld s.world in
      let E = Emptied dir i p s made in
      let R = After p (k.d_parent ld s.world) E in
      Returns-lower_dentry d ld m _ s (RemovedDir dir d i p s made) h.backed (
        Returns-bind (in_parent ld _) _ s E _
          (in_parent-Returns ld p _ s E h.parent_there (
            Returns-if_zero made.0 _ _ R
              (λ z. Returns-need (s.dentries d).inode i _ _ R there (
                refl,
                (λ r. omega arith),
                refl,
                inr (
                  z,
                  rw (differ i dir apart, ==_refl dir) refl,
                  rw (differ dir i (λ e. apart (sym e)), ==_refl i) refl,
                ),
              ))
              (λ nz. (refl, (λ r. omega arith), refl, inl (nz, refl)))))
          (λ r s2 e. dropped_dir dir d i p s made r s2 e))

  -- With both lower parents there, dazukofs_rename returns the lower call's result and gives back
  -- what it takes, locks included; a failure changes no inode and no dentry.
  abbrev pub Renamed : (new_dir n : ℕ) → Fs k → Ret × k.World → Ret → Fs k → Type 0
  Renamed new_dir n s made r s' =
      (r ≡ made.0)
      × Balanced s.trace s'.trace
      × (s'.dentries ≡ s.dentries)
      × (((r ≢ ok 0) × (s'.inodes ≡ s.inodes))
          ⊎ ((r ≡ ok 0)
              × ((old : k.Attr) × ((s'.inodes new_dir).attr
                    ≡ k.copy_attr_all old (k.attr n made.1)))))

  copied_dirs :
      (od nd o n : ℕ) (s s1 : Fs k) (made : Ret × k.World)
      → s1.dentries ≡ s.dentries
      → s1.inodes ≡ s.inodes
      → s1.world ≡ made.1
      → Balanced s.trace s1.trace
      → Returns
          (if_zero made.0 (do
            copy_from k.copy_attr_all nd n
            (if nd == od then return tt else copy_from k.copy_attr_all od o)
            return made.0))
          s1
          (Renamed nd n s made)
  copied_dirs od nd o n s s1 made ds is w net =
      Returns-if_zero made.0 _ s1 (Renamed nd n s made)
        (λ z. elim (Bool-cases (nd == od)) [
          | inl e ↦ rw e (refl, net, ds, inr (z, ((s1.inodes nd).attr, rw (==_refl nd, w) refl)))
          | inr e ↦ rw e (
            refl,
            net,
            ds,
            inr (
              z,
              (
                (s1.inodes nd).attr,
                rw (differ od nd (λ h. unequal nd od e (sym h)), ==_refl nd, w) refl,
              ),
            ),
          )
        ])
        (λ nz. (refl, net, ds, inl (nz, is)))
    where
      unequal : (a b : ℕ) → (a == b) ≡ false → a ≢ b
      unequal a b e h = ground arith

  rename_in-Renamed :
      (od ol nd nl lo ln o n : ℕ) (s : Fs k)
      → Returns
          (rename_in (some o) (some n) od ol nd nl lo ln)
          s
          (Renamed nd n s (k.vfs_rename o lo n ln s.world))
  unfolding rename_in
  rename_in-Renamed od ol nd nl lo ln o n s = elim (Bool-cases (o == n)) [
    | inl e ↦ rw e (
        copied_dirs od nd o n s _ (k.vfs_rename o lo n ln s.world) refl refl refl
          (λ r. omega arith))
    | inr e ↦ rw e (
        copied_dirs od nd o n s _ (k.vfs_rename o lo n ln s.world) refl refl refl
          (λ r. omega arith))
  ]

  rename_gap :
      (nd n : ℕ) (x y : Ref) (s s' : Fs k) (made : Ret × k.World) (r : Ret)
      → Renamed nd n (record s { trace = get y ∷ get x ∷ s.trace }) made r s'
      → Renamed nd n s made r (record s' { trace = put y ∷ put x ∷ s'.trace })
  rename_gap nd n x y s s' made r (same, net, ds, q) = (same, (λ z. omega (arith, net z)), ds, q)

  -- For two dentries that are set up, whose lower parents have inodes, dazukofs_rename returns with
  -- `Renamed`.
  pub dazukofs_rename-Renamed :
      (od ol nd nl lo om ln nm o n : ℕ) (s : Fs k)
      → (s.dentries ol).private_data ≡ some (record { lower_dentry = some lo; lower_mnt = some om })
      → (s.dentries nl).private_data ≡ some (record { lower_dentry = some ln; lower_mnt = some nm })
      → k.d_inode (k.d_parent lo s.world) s.world ≡ some o
      → k.d_inode (k.d_parent ln s.world) s.world ≡ some n
      → Returns (dazukofs_rename od ol nd nl) s (Renamed nd n s (k.vfs_rename o lo n ln s.world))
  unfolding dazukofs_rename
  dazukofs_rename-Renamed od ol nd nl lo om ln nm o n s old new at_o at_n =
      let made = k.vfs_rename o lo n ln s.world in
      let x = dentry_ref (k.d_parent lo s.world) in
      let y = dentry_ref (k.d_parent ln s.world) in
      let s1 : Fs k = record s { trace = get y ∷ get x ∷ s.trace } in
      Returns-lower_dentry ol lo om _ s (Renamed nd n s made) old (
        Returns-lower_dentry nl ln nm _ s (Renamed nd n s made) new (
          Returns-bind (rename_in _ _ od ol nd nl lo ln) _ s1 (Renamed nd n s1 made) _
            (rw (at_o, at_n) (rename_in-Renamed od ol nd nl lo ln o n s1))
            (λ r s' q. rename_gap nd n x y s s' made r q)))
