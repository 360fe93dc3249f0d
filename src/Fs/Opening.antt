-- ===== src/Fs/Opening.antt =====
-- dazukofs_open and dazukofs_release of file.c: what an open file keeps.
use dazukofs_linux.Base.{
  ℕ, ◌+◌, ◌≡◌, refl, ap, ◌≢◌, ◌⊎◌, inl, inr, Bool, true, false, Option, none, some, ◌∷◌, ◌==◌,
  ==_refl, ==_iff, arith,
}
use dazukofs_linux.Events.State.{Errno, Ret, ok, err, enomem}
use dazukofs_linux.Fs.Kernel.{Kernel, Pointer, to, is_err}
use dazukofs_linux.Fs.State.{
  Ref, Fs, get, dentry_ref, mnt_ref, file_ref, file_info, ◌>>=◌, need, get_lower_file,
}
use dazukofs_linux.Fs.Files.{
  set_opened, dazukofs_open, open_checked, open_allocated, dazukofs_release,
}
use dazukofs_linux.Fs.Balance.{
  Net, Balanced, nothing, one, Returns, Returns-if, Returns-run, not_zero,
}
use dazukofs_linux.Fs.Creating.{Returns-lower_dentry, Returns-lower_mnt}

-- The references to the lower dentry and the lower mount that an opening begins with.
abbrev pub path_refs : (ld m : ℕ) → Ref → ℕ
path_refs ld m r = one (dentry_ref ld) r + one (mnt_ref m) r

module _ {k : Kernel} where
  -- The state in which the access is checked.
  abbrev pub at_check : (ld m : ℕ) → Fs k → Fs k
  at_check ld m s = record s { trace = get (mnt_ref m) ∷ get (dentry_ref ld) ∷ s.trace }

  -- How an opening ends, when the check has come to `e` in the state `s1`. Denied: the answer is
  -- that of the check, no file of either layer has changed, and all is given back. No memory: all
  -- is given back. The lower file system refuses: the private data and the references are kept.
  -- Success: the file has the lower one, and the references are kept with it.
  abbrev pub Opened : (file ld m : ℕ) → (e : Ret) → Fs k → Fs k → Ret → Fs k → Type 0
  Opened file ld m e s s1 r s' =
      ((e ≢ ok 0)
        × (r ≡ e)
        × (s'.world ≡ s1.world)
        × (s'.files ≡ s1.files)
        × (s'.lower_files ≡ s1.lower_files)
        × Balanced s.trace s'.trace)
      ⊎ ((e ≡ ok 0)
          × (r ≡ err enomem)
          × ((s'.files file).private_data ≡ none)
          × Balanced s.trace s'.trace)
      ⊎ ((n : Errno) × (e ≡ ok 0)
          × (r ≡ err n)
          × ((s'.files file).private_data ≡ some none)
          × Net (λ x. path_refs ld m x + one (file_info file) x) nothing s.trace s'.trace)
      ⊎ ((lower : ℕ) × (e ≡ ok 0)
          × (r ≡ ok 0)
          × ((s'.files file).private_data ≡ some (some lower))
          × ((s'.lower_files lower) ≡ k.lower_file lower s'.world)
          × Net (λ x. path_refs ld m x + one (file_info file) x + one (file_ref lower) x) nothing
              s.trace s'.trace)

  set_opened-Opened :
      (opened : Pointer) (file ld m : ℕ) (s s1 s2 : Fs k)
      → (s2.files file).private_data ≡ some none
      → Net (λ x. path_refs ld m x + one (file_info file) x) nothing s.trace s2.trace
      → Returns (set_opened file opened) s2 (Opened file ld m (ok 0) s s1)
  set_opened-Opened (is_err n) file ld m s s1 s2 private net =
      inr (inr (inl (n, refl, refl, private, net)))
  set_opened-Opened (to lower) file ld m s s1 s2 private net = inr (
      inr (
        inr (
          lower,
          refl,
          refl,
          rw (==_refl file) refl,
          rw (==_refl lower) refl,
          λ x. omega (arith, net x),
        )))

  open_allocated-Opened :
      (b : Bool) (file ld m : ℕ) (s s1 s2 : Fs k)
      → Net (path_refs ld m) nothing s.trace s2.trace
      → Returns (open_allocated b file ld m) s2 (Opened file ld m (ok 0) s s1)
  unfolding open_allocated
  open_allocated-Opened false file ld m s s1 s2 net =
      inr (inl (refl, refl, rw (==_refl file) refl, λ x. omega (arith, net x)))
  open_allocated-Opened true file ld m s s1 s2 net =
      set_opened-Opened _ file ld m s s1 _ (rw (==_refl file) refl) (λ x. omega (arith, net x))

  open_checked-Opened :
      (e : Ret) (file ld m : ℕ) (s s1 : Fs k)
      → Net (path_refs ld m) nothing s.trace s1.trace
      → Returns (open_checked e file ld m) s1 (Opened file ld m e s s1)
  unfolding open_checked
  open_checked-Opened (err n) file ld m s s1 net =
      inl ((λ h. cc), refl, refl, refl, refl, λ x. omega (arith, net x))
  open_checked-Opened (ok n) file ld m s s1 net =
      Returns-if (n == 0) _ _ s1 (Opened file ld m (ok n) s s1)
        (λ z.
          rw ((==_iff n 0).0 z)
            (open_allocated-Opened (k.kmem_cache_zalloc s1.world).0 file ld m s s1 _ net))
        (λ z. inl (not_zero n z, refl, refl, refl, refl, λ x. omega (arith, net x)))

  pub dazukofs_open-Opened :
      (access : Fs k → Ret × Fs k) (file ld m : ℕ) (s : Fs k)
      → (s.dentries (s.files file).dentry).private_data
        ≡ some (record { lower_dentry = some ld; lower_mnt = some m })
      → ((s1 : Fs k) → Balanced s1.trace (access s1).1.trace)
      → Returns
          (dazukofs_open access file)
          s
          (Opened file ld m (access (at_check ld m s)).0 s (access (at_check ld m s)).1)
  unfolding dazukofs_open
  dazukofs_open-Opened access file ld m s backed quiet =
      let Q = Opened file ld m (access (at_check ld m s)).0 s (access (at_check ld m s)).1 in
      Returns-lower_dentry (s.files file).dentry ld m _ s Q backed (
        Returns-lower_mnt (s.files file).dentry ld m _
          (record s { trace = get (dentry_ref ld) ∷ s.trace }) Q backed
          (open_checked-Opened (access (at_check ld m s)).0 file ld m s (access (at_check ld m s)).1
            (λ x. omega (arith, quiet (at_check ld m s) x))))

  -- The release of an open file returns 0, and gives back the lower file and the private data; the
  -- inode has the number of blocks of its lower one.
  pub dazukofs_release-gives :
      (inode file lower : ℕ) (s : Fs k)
      → (s.files file).private_data ≡ some (some lower)
      → Returns (dazukofs_release inode file) s (λ r s'.
        (r ≡ ok 0)
        × ((s'.inodes inode).attr
            ≡ k.copy_blocks (s.inodes inode).attr (k.attr (s.inodes inode).lower_inode s'.world))
        × Net nothing (λ x. one (file_ref lower) x + one (file_info file) x) s.trace s'.trace)
  unfolding dazukofs_release
  dazukofs_release-gives inode file lower s opened =
      Returns-run (get_lower_file {k = k} file) lower _ s s _
        (ap (λ (o : Option (Option ℕ)). (need o >>= λ l. need l) s) opened)
        (refl, rw (==_refl inode) refl, λ x. omega arith)
