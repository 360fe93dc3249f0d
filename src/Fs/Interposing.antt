-- ===== src/Fs/Interposing.antt =====
-- dazukofs_interpose of inode.c: what it keeps, and what it makes of the dentry and the inode.
use dazukofs_linux.Base.{
  ==_iff, ℕ, ◌≡◌, refl, ap, ◌∙◌, ◌⊎◌, inl, inr, Bool, true, false, Option, some, ◌∷◌, ==_refl,
  arith,
}
use dazukofs_linux.Events.State.{Errno, Ret, ok, err, eacces, estale, exdev}
use dazukofs_linux.Fs.Kernel.{Kernel, Kind, Iget, no_inode, cached, fresh}
use dazukofs_linux.Fs.State.{Fs, Dentry, Inode, get, inode_ref}
use dazukofs_linux.Fs.Interpose.{
  dazukofs_inode_test, dazukofs_interpose, interpose_grabbed, interpose_got, interpose_inode, is_sb,
  set_ops,
}
use dazukofs_linux.Fs.Balance.{
  Net, Balanced, nothing, kept, Returns, Ensures-map, Returns-need, Returns-if,
}

-- What iget5_locked is documented to do: an inode that it finds in the cache is one that the callback
-- has accepted.
abbrev pub CacheAgrees : Kernel → Type 0
CacheAgrees k =
    (test : ℕ → Bool) (sb l a : ℕ) (w : k.World)
    → (k.iget5_locked test sb l w).0 ≡ cached a
    → test a ≡ true

module _ {k : Kernel} where
  -- An upper inode that stands for a lower one, with its attributes.
  abbrev pub Mirrors : (a l : ℕ) → Fs k → Type 0
  Mirrors a l s =
      (old : k.Attr) × ((s.inodes a).attr
        ≡ k.copy_inode_size (k.copy_attr_all old (k.attr l s.world)) (k.attr l s.world))
      × ((s.inodes a).lower_inode ≡ l)

  -- After success the dentry has an inode that mirrors the lower one; a new inode keeps a
  -- reference. After a failure nothing has changed.
  abbrev pub Interposed : (l d : ℕ) → Fs k → Ret → Fs k → Type 0
  Interposed l d s r s' =
      ((a : ℕ) × (new : Bool) × (r ≡ ok 0)
        × ((s'.dentries d).inode ≡ some a)
        × ((s'.dentries d).private_data ≡ (s.dentries d).private_data)
        × Mirrors a l s'
        × Net (kept new l) nothing s.trace s'.trace)
      ⊎ ((e : Errno) × (r ≡ err e)
          × (s'.dentries ≡ s.dentries)
          × (s'.inodes ≡ s.inodes)
          × Balanced s.trace s'.trace)

  set_ops-lower : (kind : Kind) (i : Inode k) → (set_ops kind i).lower_inode ≡ i.lower_inode
  set_ops-lower Kind.regular i = refl
  set_ops-lower Kind.lnk i = refl
  set_ops-lower Kind.dir i = refl
  set_ops-lower Kind.special i = refl

  interpose_inode-Mirrors :
      (a l d : ℕ) (hashed : Bool) (s : Fs k)
      → (s.inodes a).lower_inode ≡ l
      → Returns (interpose_inode a l d hashed) s (λ r s'.
        (r ≡ ok 0)
        × ((s'.dentries d).inode ≡ some a)
        × ((s'.dentries d).private_data ≡ (s.dentries d).private_data)
        × Mirrors a l s'
        × (s'.trace ≡ s.trace))
  unfolding interpose_inode
  interpose_inode-Mirrors a l d true s e = (
    refl,
    rw (==_refl d) refl,
    rw (==_refl d) refl,
    (
      (set_ops (k.i_kind l s.world) (s.inodes a)).attr,
      rw (==_refl a) refl,
      rw (==_refl a) (set_ops-lower (k.i_kind l s.world) (s.inodes a) ∙ e),
    ),
    refl,
  )
  interpose_inode-Mirrors a l d false s e = (
    refl,
    rw (==_refl d) refl,
    rw (==_refl d) refl,
    (
      (set_ops (k.i_kind l s.world) (s.inodes a)).attr,
      rw (==_refl a) refl,
      rw (==_refl a) (set_ops-lower (k.i_kind l s.world) (s.inodes a) ∙ e),
    ),
    refl,
  )

  interpose_inode-Interposed :
      (new : Bool) (a l d : ℕ) (hashed : Bool) (s s2 : Fs k)
      → (s2.inodes a).lower_inode ≡ l
      → s2.dentries ≡ s.dentries
      → Net (kept new l) nothing s.trace s2.trace
      → Returns (interpose_inode a l d hashed) s2 (Interposed l d s)
  interpose_inode-Interposed new a l d hashed s s2 lower ds net =
      Ensures-map (interpose_inode a l d hashed s2)
        (λ r s'.
          (r ≡ ok 0)
          × ((s'.dentries d).inode ≡ some a)
          × ((s'.dentries d).private_data ≡ (s2.dentries d).private_data)
          × Mirrors a l s'
          × (s'.trace ≡ s2.trace))
        (Interposed l d s)
        (λ r s' p. inl (
          a,
          new,
          p.0,
          p.1,
          p.2 ∙ ap (λ (f : ℕ → Dentry). (f d).private_data) ds,
          p.3,
          λ x. rw p.4 (net x),
        ))
        (interpose_inode-Mirrors a l d hashed s2 lower)

  interpose_got-Interposed :
      (got : Iget) (sb l d : ℕ) (hashed : Bool) (s s1 : Fs k)
      → s1.trace ≡ get (inode_ref l) ∷ s.trace
      → s1.inodes ≡ s.inodes
      → s1.dentries ≡ s.dentries
      → ((a : ℕ) → got ≡ cached a → (s1.inodes a).lower_inode ≡ l)
      → Returns (interpose_got got sb l d hashed) s1 (Interposed l d s)
  unfolding interpose_got
  interpose_got-Interposed no_inode sb l d hashed s s1 t i e agrees =
      inr (eacces, refl, e, i, λ r. rw t (omega arith))
  interpose_got-Interposed (fresh a) sb l d hashed s s1 t i e agrees =
      interpose_inode-Interposed true a l d hashed s _ (rw (==_refl a) refl) e
        (λ x. rw t (omega arith))
  interpose_got-Interposed (cached a) sb l d hashed s s1 t i e agrees =
      interpose_inode-Interposed false a l d hashed s _ (agrees a refl) e (λ x. rw t (omega arith))

  interpose_grabbed-Interposed :
      (d sb l : ℕ) (mine : Option ℕ) (hashed : Bool) (s : Fs k) (w : k.World)
      → s.sb_private sb ≡ some mine
      → CacheAgrees k
      → Returns (interpose_grabbed l d sb hashed) (record s { world = w }) (Interposed l d s)
  unfolding interpose_grabbed
  interpose_grabbed-Interposed d sb l mine hashed s w known agrees =
      Returns-need (s.sb_private sb) mine _ _ (Interposed l d s) known (
        Returns-if (is_sb (k.i_sb l w) mine) _ _ _ (Interposed l d s)
          (λ _.
            let test : ℕ → Bool = λ a. dazukofs_inode_test (s.inodes a) l in
            interpose_got-Interposed (k.iget5_locked test sb l w).0 sb l d hashed s _ refl refl refl
              (λ a e. (==_iff (s.inodes a).lower_inode l).0 (agrees test sb l a w e)))
          (λ _. inr (exdev, refl, refl, refl, λ r. omega arith)))

  -- With a lower dentry that has an inode, and a super block that is set up, dazukofs_interpose
  -- returns with `Interposed`.
  -- An inode that iget5_locked finds in the cache is taken to be one that its callback accepts.
  pub dazukofs_interpose-Interposed :
      (ld d sb l : ℕ) (mine : Option ℕ) (hashed : Bool) (s : Fs k)
      → k.d_inode ld s.world ≡ some l
      → s.sb_private sb ≡ some mine
      → CacheAgrees k
      → Returns (dazukofs_interpose ld d sb hashed) s (Interposed l d s)
  unfolding dazukofs_interpose
  dazukofs_interpose-Interposed ld d sb l mine hashed s there known agrees =
      Returns-need (k.d_inode ld s.world) l _ _ (Interposed l d s) there (
        Returns-if (k.igrab l s.world).0 _ _ _ (Interposed l d s)
          (λ _.
            interpose_grabbed-Interposed d sb l mine hashed s (k.igrab l s.world).1 known agrees)
          (λ _. inr (estale, refl, refl, refl, λ r. omega arith)))
