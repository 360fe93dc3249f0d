-- ===== src/Fs/Mounting.antt =====
-- Mounting, in super.c: what a super block and its root keep.
use dazukofs_linux.Base.{
  ℕ, ◌+◌, ◌≡◌, refl, ap, ◌∙◌, ◌≢◌, ◌⊎◌, inl, inr, Bool, true, false, Option, none, some, List, ◌∷◌,
  ==_refl, arith,
}
use dazukofs_linux.Events.State.{Ret, ok, err, enomem, update}
use dazukofs_linux.Fs.Kernel.{Kernel, Location, found, not_found}
use dazukofs_linux.Fs.State.{
  Ref, Fs, DentryInfo, get, put, dentry_ref, mnt_ref, sb_info, dentry_info, M, ◌>>=◌, need,
  set_lower_dentry, set_info, get_lower_dentry,
}
use dazukofs_linux.Fs.Interpose.{dazukofs_interpose}
use dazukofs_linux.Fs.Super.{
  dazukofs_statfs, dazukofs_fill_super, fill_allocated, fill_root, fill_info, dazukofs_get_sb,
  dazukofs_read_super, read_super_path, read_super_inode, read_super_done, is_dir, set_lower_sb,
  set_sb_private,
}
use dazukofs_linux.Fs.Balance.{
  Net, Balanced, nothing, one, kept, Returns, Ensures-map, Returns-if, Returns-bind, Returns-run,
  Returns-need,
}
use dazukofs_linux.Fs.Interposing.{Interposed, CacheAgrees, Mirrors, dazukofs_interpose-Interposed}
use dazukofs_linux.Fs.Creating.{Returns-lower_dentry}

-- What a super block and its root hold when they have been set up.
abbrev pub super_refs : (sb root : ℕ) → Ref → ℕ
super_refs sb root x = one (sb_info sb) x + one (dentry_ref root) x + one (dentry_info root) x

module _ {k : Kernel} where
  -- Each call for the statistics of a dentry that is set up returns, and keeps a reference to its
  -- lower dentry, whether the lower file system has the operation or not.
  pub dazukofs_statfs-keeps :
      (d ld m : ℕ) (s : Fs k)
      → (s.dentries d).private_data ≡ some (record { lower_dentry = some ld; lower_mnt = some m })
      → Returns (dazukofs_statfs d) s (λ r s'. Net (one (dentry_ref ld)) nothing s.trace s'.trace)
  unfolding dazukofs_statfs
  dazukofs_statfs-keeps d ld m s backed =
      Returns-lower_dentry d ld m _ s (λ r s'. Net (one (dentry_ref ld)) nothing s.trace s'.trace)
        backed
        (Returns-if (k.has_statfs (k.d_sb ld s.world) s.world) _ _ _ _ (λ _ x. omega arith)
          (λ _ x. omega arith))

  -- How setting up a super block ends. Success: it has its private data, and a root without an
  -- inode, whose private data names no lower dentry. Failure: there is no memory, nothing is kept,
  -- and the private data of the super block is as before.
  abbrev pub Filled : (sb : ℕ) → Fs k → Ret → Fs k → Type 0
  Filled sb s r s' =
      ((root : ℕ) × (r ≡ ok 0)
        × (s'.s_root sb ≡ some root)
        × (s'.sb_private sb ≡ some none)
        × ((s'.dentries root).inode ≡ none)
        × ((s'.dentries root).private_data
            ≡ some (record { lower_dentry = none; lower_mnt = none }))
        × Net (super_refs sb root) nothing s.trace s'.trace)
      ⊎ ((r ≡ err enomem) × (s'.sb_private ≡ s.sb_private) × Balanced s.trace s'.trace)

  fill_info-Filled :
      (b : Bool) (sb root : ℕ) (s s1 : Fs k)
      → s1.sb_private ≡ s.sb_private
      → s1.s_root sb ≡ some root
      → (s1.dentries root).inode ≡ none
      → Net (λ x. one (sb_info sb) x + one (dentry_ref root) x) nothing s.trace s1.trace
      → Returns (fill_info b sb root) s1 (Filled sb s)
  unfolding fill_info
  fill_info-Filled false sb root s s1 same rooted bare net =
      inr (refl, same, λ x. omega (arith, net x))
  fill_info-Filled true sb root s s1 same rooted bare net = inl (
    root,
    refl,
    rooted,
    rw (==_refl sb) refl,
    rw (==_refl root) bare,
    rw (==_refl root) refl,
    λ x. omega (arith, net x),
  )

  fill_root-Filled :
      (o : Option ℕ) (sb : ℕ) (s s1 : Fs k)
      → s1.sb_private ≡ s.sb_private
      → Net (one (sb_info sb)) nothing s.trace s1.trace
      → Returns (fill_root o sb) s1 (Filled sb s)
  unfolding fill_root
  fill_root-Filled none sb s s1 same net = inr (refl, same, λ x. omega (arith, net x))
  fill_root-Filled (some root) sb s s1 same net =
      fill_info-Filled (k.kmem_cache_zalloc s1.world).0 sb root s _ same (rw (==_refl sb) refl)
        (rw (==_refl root) refl) (λ x. omega (arith, net x))

  fill_allocated-Filled :
      (b : Bool) (sb : ℕ) (s s1 : Fs k)
      → s1.sb_private ≡ s.sb_private
      → s1.trace ≡ s.trace
      → Returns (fill_allocated b sb) s1 (Filled sb s)
  unfolding fill_allocated
  fill_allocated-Filled false sb s s1 same t = inr (refl, same, λ x. rw t (omega arith))
  fill_allocated-Filled true sb s s1 same t =
      fill_root-Filled (k.d_alloc s1.world).0 sb s _ same (λ x. rw t (omega arith))

  -- dazukofs_fill_super returns with `Filled`.
  pub dazukofs_fill_super-Filled :
      (sb : ℕ) (s : Fs k) → Returns (dazukofs_fill_super sb) s (Filled sb s)
  unfolding dazukofs_fill_super
  dazukofs_fill_super-Filled sb s =
      fill_allocated-Filled (k.kmem_cache_zalloc s.world).0 sb s _ refl refl

  faults-lower_dentry :
      {B : Type 0} (d : ℕ) (f : ℕ → M k B) (s : Fs k)
      → (s.dentries d).private_data ≡ some (record { lower_dentry = none; lower_mnt = none })
      → (get_lower_dentry d >>= f) s ≡ none
  faults-lower_dentry {B} d f s bare =
      ap (λ (o : Option DentryInfo). (need o >>= (λ info. need {k = k} info.lower_dentry) >>= f) s)
        bare

  statfs-faults :
      (d : ℕ) (s : Fs k)
      → (s.dentries d).private_data ≡ some (record { lower_dentry = none; lower_mnt = none })
      → dazukofs_statfs d s ≡ none
  unfolding dazukofs_statfs
  statfs-faults d s bare = faults-lower_dentry d _ s bare

  -- A mount does not read the directory that it is told: after its success the root `s_root` of
  -- the super block has no inode, and at it the call for statistics follows a NULL pointer.
  pub dazukofs_get_sb-unusable :
      (sb : ℕ) (dev_name : List ℕ) (s : Fs k)
      → Returns (dazukofs_get_sb sb dev_name) s (λ r s'.
        r ≡ ok 0
        → (root : ℕ) × (s'.s_root sb ≡ some root)
          × ((s'.dentries root).inode ≡ none)
          × (dazukofs_statfs root s' ≡ none))
  unfolding dazukofs_get_sb
  dazukofs_get_sb-unusable sb dev_name s =
      Ensures-map (dazukofs_fill_super sb s) (Filled sb s) _
        (λ r s' filled. λ good. bare_root r s' filled good) (dazukofs_fill_super-Filled sb s)
    where
      bare_root :
          (r : Ret) (s' : Fs k)
          → Filled sb s r s'
          → r ≡ ok 0
          → (root : ℕ) × (s'.s_root sb ≡ some root)
            × ((s'.dentries root).inode ≡ none)
            × (dazukofs_statfs root s' ≡ none)
      bare_root r s' (inl (root, _, rooted, _, bare, private, _)) good =
          (root, rooted, bare, statfs-faults root s' private)
      bare_root r s' (inr (failed, _, _)) good = cc

  -- How reading the super block ends, when `extra` is held meanwhile. Success: the root has the
  -- lower root `d` and its mount, and an inode that stands for that of the lower root in the world
  -- `w`, and the references to both are kept with that of a new inode. Failure: nothing is kept.
  abbrev pub SuperRead :
      (sb root d m : ℕ) → k.World → (extra : Ref → ℕ) → Fs k → Ret → Fs k → Type 0
  SuperRead sb root d m w extra s r s' =
      ((a l : ℕ) × (new : Bool) × (r ≡ ok 0)
        × (k.d_inode d w ≡ some l)
        × ((s'.dentries root).private_data
            ≡ some (record { lower_dentry = some d; lower_mnt = some m }))
        × ((s'.dentries root).inode ≡ some a)
        × Mirrors a l s'
        × Net (λ x. one (dentry_ref d) x + one (mnt_ref m) x + kept new l x + extra x) nothing
            s.trace s'.trace)
      ⊎ ((r ≢ ok 0) × Net extra nothing s.trace s'.trace)

  read_super_done-SuperRead :
      (sb root d m i : ℕ) (w : k.World) (extra : Ref → ℕ) (r : Ret) (s s1 s2 : Fs k)
      → k.d_inode d w ≡ some i
      → (s1.dentries root).private_data
        ≡ some (record { lower_dentry = some d; lower_mnt = some m })
      → Net (λ x. one (dentry_ref d) x + one (mnt_ref m) x + extra x) nothing s.trace s1.trace
      → Interposed i root s1 r s2
      → Returns (read_super_done d m r) s2 (SuperRead sb root d m w extra s)
  read_super_done-SuperRead sb root d m i w extra r s s1 s2 there backed net
        (inl (a, new, done, linked, private, mirror, more)) =
      rw done (
        inl (
          a,
          i,
          new,
          refl,
          there,
          private ∙ backed,
          linked,
          mirror,
          λ x. omega (arith, net x, more x),
        ))
  read_super_done-SuperRead sb root d m i w extra r s s1 s2 there backed net
        (inr (e, failed, ds, is, more)) =
      rw failed (inr ((λ h. cc), λ x. omega (arith, net x, more x)))

  read_super_inode-SuperRead :
      (o : Option ℕ) (sb root d m : ℕ) (extra : Ref → ℕ) (mine : Option ℕ) (info : DentryInfo)
      (s s1 : Fs k)
      → k.d_inode d s1.world ≡ o
      → s1.sb_private sb ≡ some mine
      → s1.s_root sb ≡ some root
      → (s1.dentries root).private_data ≡ some info
      → CacheAgrees k
      → Net (λ x. one (dentry_ref d) x + one (mnt_ref m) x + extra x) nothing s.trace s1.trace
      → Returns (read_super_inode o sb d m) s1 (SuperRead sb root d m s1.world extra s)
  unfolding read_super_inode
  read_super_inode-SuperRead none sb root d m extra mine info s s1 there set_up rooted private
        agrees net =
      inr ((λ h. cc), λ x. omega (arith, net x))
  read_super_inode-SuperRead (some i) sb root d m extra mine info s s1 there set_up rooted private
        agrees net =
      Returns-if (is_dir (k.i_kind i s1.world)) _ _ s1 (SuperRead sb root d m s1.world extra s)
        (λ _.
          let sb' = update s1.sb_private sb (some (some (k.d_sb d s1.world))) in
          let s2 : Fs k = record s1 {
            sb_private = sb';
            dentries = update s1.dentries root (record (s1.dentries root) {
              private_data = some (record { lower_dentry = some d; lower_mnt = some m });
            });
          } in
          Returns-run (set_lower_sb {k = k} sb (k.d_sb d s1.world)) tt _ s1
            (record s1 { sb_private = sb' }) (SuperRead sb root d m s1.world extra s)
            (ap
              (λ (o : Option (Option ℕ)).
                (need o >>= λ _. set_sb_private sb (some (k.d_sb d s1.world))) s1)
              set_up)
            (Returns-need (s1.s_root sb) root _ _ (SuperRead sb root d m s1.world extra s) rooted (
              Returns-run (set_lower_dentry {k = k} root d m) tt _ (record s1 { sb_private = sb' })
                s2 (SuperRead sb root d m s1.world extra s)
                (ap
                  (λ (o : Option DentryInfo). set_info root d m o (record s1 { sb_private = sb' }))
                  private)
                (Returns-bind (dazukofs_interpose d root sb false) _ s2 (Interposed i root s2)
                  (SuperRead sb root d m s1.world extra s)
                  (dazukofs_interpose-Interposed d root sb i (some (k.d_sb d s1.world)) false s2
                    there (rw (==_refl sb) refl) agrees)
                  (λ r s3.
                    read_super_done-SuperRead sb root d m i s1.world extra r s s2 s3 there
                      (rw (==_refl root) refl) net)))))
        (λ _. inr ((λ h. cc), λ x. omega (arith, net x)))

  -- What is found at a path: after success its dentry and mount are the lower root and its mount.
  abbrev pub Rooted : (sb root : ℕ) → Location → k.World → Fs k → Ret → Fs k → Type 0
  Rooted sb root path w s r s' =
      (d m : ℕ) × (r ≡ ok 0 → path ≡ found d m) × SuperRead sb root d m w nothing s r s'

  read_super_path-SuperRead :
      (path : Location) (sb root : ℕ) (mine : Option ℕ) (info : DentryInfo) (s s1 : Fs k)
      → s1.trace ≡ s.trace
      → s1.sb_private sb ≡ some mine
      → s1.s_root sb ≡ some root
      → (s1.dentries root).private_data ≡ some info
      → CacheAgrees k
      → Returns (read_super_path path sb) s1 (Rooted sb root path s1.world s)
  unfolding read_super_path
  read_super_path-SuperRead (not_found e) sb root mine info s s1 same set_up rooted private agrees =
      (0, 0, (λ h. cc), inr ((λ h. cc), λ x. rw same (omega arith)))
  read_super_path-SuperRead (found d m) sb root mine info s s1 same set_up rooted private agrees =
      let s2 : Fs k = record s1 {
        trace =
            get (mnt_ref m) ∷ get (dentry_ref d) ∷ get (mnt_ref m) ∷ get (dentry_ref d) ∷ s1.trace;
      } in
      let extra : Ref → ℕ = λ x. one (dentry_ref d) x + one (mnt_ref m) x in
      Returns-bind (read_super_inode (k.d_inode d s1.world) sb d m) _ s2
        (SuperRead sb root d m s1.world extra s) (Rooted sb root (found d m) s1.world s)
        (read_super_inode-SuperRead (k.d_inode d s1.world) sb root d m extra mine info s s2 refl
          set_up rooted private agrees (λ x. rw same (omega arith)))
        (λ r s3 h. (d, m, (λ _. refl), put_path d m s1.world r s s3 h))
    where
      put_path :
          (d m : ℕ) (w : k.World) (r : Ret) (s s3 : Fs k)
          → SuperRead sb root d m w (λ x. one (dentry_ref d) x + one (mnt_ref m) x) s r s3
          → SuperRead sb root d m w nothing s r
              (record s3 { trace = put (mnt_ref m) ∷ put (dentry_ref d) ∷ s3.trace })
      put_path d m w r s s3 (inl (a, l, new, done, there, private, linked, mirror, net)) =
          inl (a, l, new, done, there, private, linked, mirror, λ x. omega (arith, net x))
      put_path d m w r s s3 (inr (failed, net)) = inr (failed, λ x. omega (arith, net x))

  -- For a super block that has been set up, and whose root `s_root` is a dentry with private data,
  -- dazukofs_read_super returns with `Rooted` for what the path of the device's name leads to.
  -- An inode that iget5_locked finds in the cache is taken to be one that its callback accepts.
  pub dazukofs_read_super-SuperRead :
      (sb root : ℕ) (dev_name : List ℕ) (mine : Option ℕ) (info : DentryInfo) (s : Fs k)
      → s.sb_private sb ≡ some mine
      → s.s_root sb ≡ some root
      → (s.dentries root).private_data ≡ some info
      → CacheAgrees k
      → Returns
          (dazukofs_read_super sb dev_name)
          s
          (Rooted sb root (k.kern_path dev_name s.world).0 (k.kern_path dev_name s.world).1 s)
  unfolding dazukofs_read_super
  dazukofs_read_super-SuperRead sb root dev_name mine info s set_up rooted private agrees =
      read_super_path-SuperRead (k.kern_path dev_name s.world).0 sb root mine info s _ refl set_up
        rooted private agrees
