-- ===== src/Fs/Creating.antt =====
-- mknod, symlink and link of inode.c: what they keep, and what they make of the layers.
use dazukofs_linux.Base.{
  ℕ, ◌≡◌, refl, ap, ◌∙◌, ◌≢◌, ◌⊎◌, inl, inr, Bool, false, Option, some, List, ◌∷◌, ◌==◌, ==_refl,
  ==_iff, Bool-cases, arith,
}
use dazukofs_linux.Events.State.{Ret, ok, err, update}
use dazukofs_linux.Fs.Kernel.{Kernel}
use dazukofs_linux.Fs.State.{
  Ref, Fs, get, put, dentry_ref, get_lower_mnt, lock, M, ◌>>=◌, need, DentryInfo, get_lower_dentry,
  Inode, if_zero, copy_from, return, call, ◌>>◌,
}
use dazukofs_linux.Fs.Interpose.{dazukofs_interpose}
use dazukofs_linux.Fs.Create.{in_parent, link_in, dazukofs_mknod, dazukofs_symlink, dazukofs_link}
use dazukofs_linux.Fs.Balance.{
  Net, Balanced, nothing, kept, Returns, Ensures-map, Returns-need, Returns-if, Returns-bind,
  Returns-run,
}
use dazukofs_linux.Fs.Interposing.{Interposed, CacheAgrees, dazukofs_interpose-Interposed}

abbrev pub as_is : {A : Type 0} → A → A → A
as_is a b = a

-- What a call that makes an entry guarantees: the lower dentry then has an inode.
abbrev pub MakesPositive : (k : Kernel) → (ld : ℕ) → (k.World → Ret × k.World) → Type 0
MakesPositive k ld make =
    (w : k.World) → (make w).0 ≡ ok 0 → (l : ℕ) × (k.d_inode ld (make w).1 ≡ some l)

module _ {k : Kernel} where
  -- An upper dentry `d` in an upper directory `dir` over a lower dentry `ld`, whose parent has the
  -- inode `p`.
  pub record Ready (s : Fs k) (dir d ld m p : ℕ) : Type 0 where
    pub backed :
        (s.dentries d).private_data ≡ some (record { lower_dentry = some ld; lower_mnt = some m })
    pub parent_there : k.d_inode (k.d_parent ld s.world) s.world ≡ some p
    pub sb_info : Option ℕ
    pub set_up : s.sb_private (s.inodes dir).i_sb ≡ some sb_info
    pub agrees : CacheAgrees k

  -- `made` is the inode of the lower dentry after the lower call. Success: the dentry has an inode
  -- that stands for it, the directory mirrors the lower directory, and at most a new inode's
  -- reference is kept. Failure: nothing is kept.
  abbrev pub Created :
      (finish : k.Attr → k.Attr → k.Attr)
      → (dir d p : ℕ) → (made : Option ℕ) → Fs k
      → Ret
      → Fs k
      → Type 0
  Created finish dir d p made s r s' =
      ((a l : ℕ) × (new : Bool) × (r ≡ ok 0)
        × (made ≡ some l)
        × ((s'.dentries d).inode ≡ some a)
        × ((s'.inodes a).lower_inode ≡ l)
        × ((old : k.Attr) × ((s'.inodes dir).attr
              ≡ finish
                  (k.copy_inode_size (k.copy_attr_times old (k.attr p s'.world))
                    (k.attr p s'.world))
                  (k.attr p s'.world)))
        × Net (kept new l) nothing s.trace s'.trace)
      ⊎ ((r ≢ ok 0) × Balanced s.trace s'.trace)

  pub Returns-lower_dentry :
      {B : Type 0} (d ld m : ℕ) (f : ℕ → M k B) (s : Fs k) (Q : B → Fs k → Type 0)
      → (s.dentries d).private_data ≡ some (record { lower_dentry = some ld; lower_mnt = some m })
      → Returns (f ld) s Q
      → Returns (get_lower_dentry d >>= f) s Q
  Returns-lower_dentry d ld m f s Q e h =
      Returns-run (get_lower_dentry d) ld f s s Q
        (ap (λ (o : Option DentryInfo). (need o >>= λ info. need info.lower_dentry) s) e) h

  pub Returns-lower_mnt :
      {B : Type 0} (d ld m : ℕ) (f : ℕ → M k B) (s : Fs k) (Q : B → Fs k → Type 0)
      → (s.dentries d).private_data ≡ some (record { lower_dentry = some ld; lower_mnt = some m })
      → Returns (f m) s Q
      → Returns (get_lower_mnt d >>= f) s Q
  Returns-lower_mnt d ld m f s Q e h =
      Returns-run (get_lower_mnt d) m f s s Q
        (ap (λ (o : Option DentryInfo). (need o >>= λ info. need info.lower_mnt) s) e) h

  -- Around the work stand a reference to the parent and its inode's lock.
  pub in_parent-Returns :
      (ld p : ℕ) (work : ℕ → M k Ret) (s : Fs k) (Q : Ret → Fs k → Type 0)
      → k.d_inode (k.d_parent ld s.world) s.world ≡ some p
      → Returns
          (work p)
          (record s { trace = get (lock p) ∷ get (dentry_ref (k.d_parent ld s.world)) ∷ s.trace })
          (λ r s'. Q r (record s' {
            trace = put (dentry_ref (k.d_parent ld s.world)) ∷ put (lock p) ∷ s'.trace;
          }))
      → Returns (in_parent ld work) s Q
  unfolding in_parent
  in_parent-Returns ld p work s Q there h =
      Returns-need (k.d_inode (k.d_parent ld s.world) s.world) p _ _ Q there
        (Returns-bind (work p) _ _ _ Q h (λ r s' q. q))

  pub keeps_lower :
      (f : ℕ → Inode k) (dir a : ℕ) (attr : k.Attr)
      → (update f dir (record (f dir) { attr = attr }) a).lower_inode ≡ (f a).lower_inode
  keeps_lower f dir a attr = elim (Bool-cases (dir == a)) [
    | inl e ↦ rw (e, (==_iff dir a).0 e) refl
    | inr e ↦ rw e refl
  ]

  copied-Created :
      (dir d ld p : ℕ) (made : Option ℕ) (s s1 s2 : Fs k) (l : ℕ) (r : Ret)
      → made ≡ some l
      → Interposed l d s1 r s2
      → s1.trace ≡ s.trace
      → Returns
          (if_zero r
            (do copy_from k.copy_attr_times dir p; copy_from k.copy_inode_size dir p; return r))
          s2
          (Created as_is dir d p made s)
  copied-Created dir d ld p made s s1 s2 l r there (inr (e, is_err, ds, is, net)) same =
      rw is_err (inr ((λ h. cc), λ x. rw (← same) (net x)))
  copied-Created dir d ld p made s s1 s2 l r there
        (inl (a, new, done, linked, private, mirror, net)) same =
      let times = k.copy_attr_times (s2.inodes dir).attr (k.attr p s2.world) in
      let f = update s2.inodes dir (record (s2.inodes dir) { attr = times }) in
      rw done (
        inl (
          a,
          l,
          new,
          refl,
          there,
          linked,
          keeps_lower f dir a (k.copy_inode_size (f dir).attr (k.attr p s2.world))
              ∙ keeps_lower s2.inodes dir a times
              ∙ mirror.2,
          ((s2.inodes dir).attr, rw (==_refl dir) refl),
          λ x. rw (← same) (net x),
        ))

  -- After the call that makes the lower entry: a success gives a lower dentry that has an inode.
  pub link_in-Created :
      (dir d ld p : ℕ) (e : Ret) (sb_info : Option ℕ) (s s1 : Fs k)
      → (e ≡ ok 0 → (l : ℕ) × (k.d_inode ld s1.world ≡ some l))
      → s1.sb_private (s1.inodes dir).i_sb ≡ some sb_info
      → CacheAgrees k
      → s1.trace ≡ s.trace
      → Returns (link_in dir d ld p e) s1 (Created as_is dir d p (k.d_inode ld s1.world) s)
  unfolding link_in
  link_in-Created dir d ld p (err e) sb_info s s1 positive mounted agrees same =
      inr ((λ h. cc), λ x. rw same (omega arith))
  link_in-Created dir d ld p (ok n) sb_info s s1 positive mounted agrees same =
      Returns-if (n == 0) _ _ s1 (Created as_is dir d p (k.d_inode ld s1.world) s)
        (λ z.
          let (l, there) = positive (ap ok ((==_iff n 0).0 z)) in
          Returns-bind (dazukofs_interpose ld d (s1.inodes dir).i_sb false) _ s1 (Interposed l d s1)
            (Created as_is dir d p (k.d_inode ld s1.world) s)
            (dazukofs_interpose-Interposed ld d (s1.inodes dir).i_sb l sb_info false s1 there
              mounted agrees)
            (λ r s2 i. copied-Created dir d ld p (k.d_inode ld s1.world) s s1 s2 l r there i same))
        (λ z. inr ((λ h. not_zero n z h), λ x. rw same (omega arith)))
    where
      not_zero : (n : ℕ) → (n == 0) ≡ false → ok n ≢ ok 0
      not_zero n z h = ground arith

  pub settled :
      (finish : k.Attr → k.Attr → k.Attr) (dir d p : ℕ) (made : Option ℕ) (x y : Ref) (s s' : Fs k)
      (r : Ret)
      → Created finish dir d p made (record s { trace = get y ∷ get x ∷ s.trace }) r s'
      → Created finish dir d p made s r (record s' { trace = put x ∷ put y ∷ s'.trace })
  settled finish dir d p made x y s s' r
        (inl (a, l, new, done, there, linked, lower, mirror, net)) =
      inl (a, l, new, done, there, linked, lower, mirror, λ z. omega (arith, net z))
  settled finish dir d p made x y s s' r (inr (failed, net)) =
      inr (failed, λ z. omega (arith, net z))

  -- The shape that mknod, symlink and link share.
  make_in : (dir d ld : ℕ) → (ℕ → k.World → Ret × k.World) → M k Ret
  make_in dir d ld make =
      in_parent ld
        (λ parent_inode. do e ← call (make parent_inode); link_in dir d ld parent_inode e)

  make_in-Created :
      (dir d ld m p : ℕ) (make : ℕ → k.World → Ret × k.World) (s : Fs k)
      → Ready s dir d ld m p
      → MakesPositive k ld (make p)
      → Returns
          (make_in dir d ld make)
          s
          (Created as_is dir d p (k.d_inode ld (make p s.world).1) s)
  unfolding make_in
  make_in-Created dir d ld m p make s h positive =
      let x = dentry_ref (k.d_parent ld s.world) in
      let s1 : Fs k = record s { trace = get (lock p) ∷ get x ∷ s.trace } in
      let s2 : Fs k = record s1 { world = (make p s.world).1 } in
      in_parent-Returns ld p _ s (Created as_is dir d p (k.d_inode ld (make p s.world).1) s)
        h.parent_there
        (Ensures-map (link_in dir d ld p (make p s.world).0 s2)
          (Created as_is dir d p (k.d_inode ld (make p s.world).1) s1)
          (λ r s'.
            Created as_is dir d p (k.d_inode ld (make p s.world).1) s r
              (record s' { trace = put x ∷ put (lock p) ∷ s'.trace }))
          (λ r s' c. settled as_is dir d p (k.d_inode ld (make p s.world).1) x (lock p) s s' r c)
          (link_in-Created dir d ld p (make p s.world).0 h.sb_info s1 s2 (positive s.world) h.set_up
            h.agrees refl))

  -- For a dentry that is set up, when a lower mknod that succeeds leaves an inode at the lower
  -- dentry, dazukofs_mknod returns with `Created`.
  pub dazukofs_mknod-Created :
      (dir d ld m p mode dev : ℕ) (s : Fs k)
      → Ready s dir d ld m p
      → MakesPositive k ld (k.vfs_mknod p ld mode dev)
      → Returns
          (dazukofs_mknod dir d mode dev)
          s
          (Created as_is dir d p (k.d_inode ld (k.vfs_mknod p ld mode dev s.world).1) s)
  unfolding dazukofs_mknod make_in
  dazukofs_mknod-Created dir d ld m p mode dev s h positive =
      Returns-lower_dentry d ld m _ s
        (Created as_is dir d p (k.d_inode ld (k.vfs_mknod p ld mode dev s.world).1) s) h.backed
        (make_in-Created dir d ld m p (λ p. k.vfs_mknod p ld mode dev) s h positive)

  -- For a dentry that is set up, when a lower symlink that succeeds leaves an inode at the lower
  -- dentry, dazukofs_symlink returns with `Created`.
  pub dazukofs_symlink-Created :
      (dir d ld m p : ℕ) (symname : List ℕ) (s : Fs k)
      → Ready s dir d ld m p
      → MakesPositive k ld (k.vfs_symlink p ld symname)
      → Returns
          (dazukofs_symlink dir d symname)
          s
          (Created as_is dir d p (k.d_inode ld (k.vfs_symlink p ld symname s.world).1) s)
  unfolding dazukofs_symlink make_in
  dazukofs_symlink-Created dir d ld m p symname s h positive =
      Returns-lower_dentry d ld m _ s
        (Created as_is dir d p (k.d_inode ld (k.vfs_symlink p ld symname s.world).1) s) h.backed
        (make_in-Created dir d ld m p (λ p. k.vfs_symlink p ld symname) s h positive)

  -- For two dentries that are set up, when a lower link that succeeds leaves an inode at the new
  -- lower dentry, dazukofs_link returns with `Created`.
  pub dazukofs_link-Created :
      (old lo om dir d ld m p : ℕ) (s : Fs k)
      → (s.dentries old).private_data
        ≡ some (record { lower_dentry = some lo; lower_mnt = some om })
      → Ready s dir d ld m p
      → MakesPositive k ld (k.vfs_link lo p ld)
      → Returns
          (dazukofs_link old dir d)
          s
          (Created as_is dir d p (k.d_inode ld (k.vfs_link lo p ld s.world).1) s)
  unfolding dazukofs_link make_in
  dazukofs_link-Created old lo om dir d ld m p s e h positive =
      Returns-lower_dentry old lo om _ s
        (Created as_is dir d p (k.d_inode ld (k.vfs_link lo p ld s.world).1) s) e
        (Returns-lower_dentry d ld m _ s
          (Created as_is dir d p (k.d_inode ld (k.vfs_link lo p ld s.world).1) s) h.backed
          (make_in-Created dir d ld m p (λ p. k.vfs_link lo p ld) s h positive))
