-- ===== src/Fs/Looking.antt =====
-- dazukofs_lookup of inode.c and dazukofs_d_release of dentry.c: what a dentry keeps.
use dazukofs_linux.Base.{
  ℕ, ◌+◌, ◌≡◌, refl, sym, ap, ◌∙◌, ◌≢◌, ◌⊎◌, inl, inr, Bool, true, false, Option, none, some, List,
  ◌∷◌, ◌==◌, ==_refl, arith,
}
use dazukofs_linux.Events.State.{Errno, Ret, ok, err, enomem, update}
use mathlib.Core.Path.{subst}
use dazukofs_linux.Fs.Kernel.{Kernel, Pointer, to, is_err}
use dazukofs_linux.Fs.State.{
  Ref, Fs, get, dentry_ref, mnt_ref, dentry_info, Dentry, DentryInfo, set_lower_dentry, set_info,
}
use dazukofs_linux.Fs.Lookup.{
  dazukofs_lookup, lookup_name, lookup_in, lookup_found, lookup_allocated, lookup_inode,
  lookup_done, put_info, release_info, is_dots, dazukofs_d_release,
}
use dazukofs_linux.Fs.Interpose.{dazukofs_interpose}
use dazukofs_linux.Fs.Balance.{
  Net, Balanced, nothing, kept, one, Returns, Returns-need, Returns-if, Returns-bind, Returns-run,
}
use dazukofs_linux.Fs.Interposing.{Interposed, CacheAgrees, dazukofs_interpose-Interposed}
use dazukofs_linux.Fs.Creating.{Returns-lower_dentry, Returns-lower_mnt}

-- What a dentry holds through its private data, besides the structure itself.
abbrev pub owned_dentry : Option ℕ → Ref → ℕ
owned_dentry none r = 0
owned_dentry (some d) r = one (dentry_ref d) r

abbrev pub owned_mnt : Option ℕ → Ref → ℕ
owned_mnt none r = 0
owned_mnt (some m) r = one (mnt_ref m) r

abbrev pub owned : (d : ℕ) → Option DentryInfo → Ref → ℕ
owned d none r = 0
owned d (some i) r = owned_dentry i.lower_dentry r + owned_mnt i.lower_mnt r + one (dentry_info d) r

unequal : (a b : ℕ) → a ≢ b → (a == b) ≡ false
unequal a b h = ground arith

module _ {k : Kernel} where
  put_info-gives :
      (d : ℕ) (ld lm : Option ℕ) (s : Fs k)
      → Returns (put_info d (record { lower_dentry = ld; lower_mnt = lm })) s (λ _ s'.
        Net nothing
          (owned d (some (record { lower_dentry = ld; lower_mnt = lm })))
          s.trace
          s'.trace)
  put_info-gives d none none s = λ r. omega arith
  put_info-gives d none (some m) s = λ r. omega arith
  put_info-gives d (some l) none s = λ r. omega arith
  put_info-gives d (some l) (some m) s = λ r. omega arith

  release_info-gives :
      (d : ℕ) (info : Option DentryInfo) (s : Fs k)
      → Returns (release_info d info) s (λ _ s'. Net nothing (owned d info) s.trace s'.trace)
  release_info-gives d none s = λ r. omega arith
  release_info-gives d (some i) s = put_info-gives d i.lower_dentry i.lower_mnt s

  -- When a dentry goes, exactly what its private data holds is given back.
  pub dazukofs_d_release-gives :
      (d : ℕ) (s : Fs k)
      → Returns
          (dazukofs_d_release d)
          s
          (λ _ s'. Net nothing (owned d (s.dentries d).private_data) s.trace s'.trace)
  unfolding dazukofs_d_release
  dazukofs_d_release-gives d s = release_info-gives d (s.dentries d).private_data s

  -- How a lookup ends. Success: what is held more is what the dentry's private data holds, and the
  -- reference of a new inode. A failure before the private data: nothing is held. A failure behind
  -- it: the private data says that it holds a lower dentry, whose reference has been dropped.
  abbrev pub LookedUp : (d : ℕ) → Fs k → Ret → Fs k → Type 0
  LookedUp d s r s' =
      ((new : Bool) × (l : ℕ) × (r ≡ ok 0)
        × Net (λ x. owned d (s'.dentries d).private_data x + kept new l x) nothing s.trace s'.trace)
      ⊎ ((e : Errno) × (r ≡ err e)
          × ((s'.dentries d).private_data ≡ none)
          × Balanced s.trace s'.trace)
      ⊎ ((e : Errno) × (ld : ℕ) × (m : ℕ) × (r ≡ err e)
          × ((s'.dentries d).private_data
              ≡ some (record { lower_dentry = some ld; lower_mnt = some m }))
          × Net (owned d (s'.dentries d).private_data) (one (dentry_ref ld)) s.trace s'.trace)

  -- With the private data in place, which has taken what it holds.
  lookup_inode-LookedUp :
      (dir d ld m : ℕ) (i mine : Option ℕ) (s s1 : Fs k)
      → k.d_inode ld s1.world ≡ i
      → s1.sb_private (s1.inodes dir).i_sb ≡ some mine
      → CacheAgrees k
      → (s1.dentries d).private_data ≡ some (record { lower_dentry = some ld; lower_mnt = some m })
      → Net
          (owned d (some (record { lower_dentry = some ld; lower_mnt = some m })))
          nothing
          s.trace
          s1.trace
      → Returns (lookup_inode i dir d ld) s1 (LookedUp d s)
  unfolding lookup_inode
  lookup_inode-LookedUp dir d ld m none mine s s1 at_i mounted agrees backed net =
      inl (false, 0, refl, λ x. rw (==_refl d, backed) (omega (arith, net x)))
  lookup_inode-LookedUp dir d ld m (some i) mine s s1 at_i mounted agrees backed net =
      Returns-bind (dazukofs_interpose ld d (s1.inodes dir).i_sb true) _ s1 (Interposed i d s1)
        (LookedUp d s)
        (dazukofs_interpose-Interposed ld d (s1.inodes dir).i_sb i mine true s1 at_i mounted agrees)
        ended
    where
      ended :
          (r : Ret) (s2 : Fs k)
          → Interposed i d s1 r s2
          → Returns (lookup_done ld d r) s2 (LookedUp d s)
      ended r s2 (inl (a, new, done, linked, private, mirror, more)) =
          rw done (inl (new, i, refl, λ x. rw (private, backed) (omega (arith, net x, more x))))
      ended r s2 (inr (e, failed, ds, is, more)) = rw failed (
          inr (
            inr (
              e,
              ld,
              m,
              refl,
              rw (==_refl d) (ap (λ (f : ℕ → Dentry). (f d).private_data) ds ∙ backed),
              λ x. rw (==_refl d, ds, backed) (omega (arith, net x, more x)),
            )))

  -- The directory `dir` of the dentry `d`, whose parent is set up over a lower directory.
  pub record Searchable (s : Fs k) (dir d parent lp m li : ℕ) : Type 0 where
    pub child : (s.dentries d).parent ≡ parent
    pub apart : d ≢ parent
    pub unset : (s.dentries d).private_data ≡ none
    pub backed :
        (s.dentries parent).private_data
        ≡ some (record { lower_dentry = some lp; lower_mnt = some m })
    pub lower_dir : k.d_inode lp s.world ≡ some li
    pub sb_info : Option ℕ
    pub set_up : s.sb_private (s.inodes dir).i_sb ≡ some sb_info
    pub agrees : CacheAgrees k

  set_info-run :
      (d ld m : ℕ) (o : Option DentryInfo) (info : DentryInfo) (s : Fs k)
      → o ≡ some info
      → set_info {k = k} d ld m o s
        ≡ some (
          tt,
          record s {
            dentries = update s.dentries d (record (s.dentries d) {
              private_data = some (record { lower_dentry = some ld; lower_mnt = some m });
            });
          },
        )
  set_info-run d ld m o info s e = ap (λ (o : Option DentryInfo). set_info d ld m o s) e

  lookup_allocated-LookedUp :
      (b : Bool) (dir d parent lp m li ld : ℕ) (mine : Option ℕ) (s s1 : Fs k)
      → d ≢ parent
      → (s1.dentries parent).private_data
        ≡ some (record { lower_dentry = some lp; lower_mnt = some m })
      → s1.sb_private (s1.inodes dir).i_sb ≡ some mine
      → CacheAgrees k
      → Net (one (dentry_ref ld)) nothing s.trace s1.trace
      → Returns (lookup_allocated b dir d parent li ld) s1 (LookedUp d s)
  unfolding lookup_allocated
  lookup_allocated-LookedUp false dir d parent lp m li ld mine s s1 apart backed mounted agrees
        net =
      inr (inl (enomem, refl, rw (==_refl d) refl, λ x. omega (arith, net x)))
  lookup_allocated-LookedUp true dir d parent lp m li ld mine s s1 apart backed mounted agrees net =
      let atime = k.copy_attr_atime (s1.inodes dir).attr (k.attr li s1.world) in
      let s2 : Fs k = record s1 {
        trace = get (dentry_info d) ∷ s1.trace;
        dentries = update s1.dentries d (record (s1.dentries d) {
          private_data = some (record { lower_dentry = none; lower_mnt = none });
        });
        inodes = update s1.inodes dir (record (s1.inodes dir) { attr = atime });
      } in
      let s3 : Fs k = record s2 { trace = get (mnt_ref m) ∷ s2.trace } in
      let s4 : Fs k = record s3 {
        dentries = update s3.dentries d (record (s3.dentries d) {
          private_data = some (record { lower_dentry = some ld; lower_mnt = some m });
        });
      } in
      Returns-lower_mnt parent lp m _ s2 (LookedUp d s) (rw (unequal d parent apart) backed) (
        Returns-run (set_lower_dentry {k = k} d ld m) tt _ s3 s4 (LookedUp d s)
          (set_info-run d ld m _ (record { lower_dentry = none; lower_mnt = none }) s3
            (rw (==_refl d) refl))
          (lookup_inode-LookedUp dir d ld m (k.d_inode ld s1.world) mine s s4 refl
            (rw (==_refl dir) mounted) agrees (rw (==_refl d) refl) (λ x. omega (arith, net x))))

  lookup_found-LookedUp :
      (found : Pointer) (dir d parent lp m li : ℕ) (mine : Option ℕ) (s s1 : Fs k)
      → d ≢ parent
      → (s1.dentries d).private_data ≡ none
      → (s1.dentries parent).private_data
        ≡ some (record { lower_dentry = some lp; lower_mnt = some m })
      → s1.sb_private (s1.inodes dir).i_sb ≡ some mine
      → CacheAgrees k
      → Balanced s.trace s1.trace
      → Returns (lookup_found found dir d parent li) s1 (LookedUp d s)
  unfolding lookup_found
  lookup_found-LookedUp (is_err e) dir d parent lp m li mine s s1 apart unset backed mounted agrees
        net =
      inr (inl (e, refl, rw (==_refl d) unset, λ x. net x))
  lookup_found-LookedUp (to ld) dir d parent lp m li mine s s1 apart unset backed mounted agrees
        net =
      lookup_allocated-LookedUp (k.kmem_cache_zalloc s1.world).0 dir d parent lp m li ld mine s _
        apart backed mounted agrees (λ x. omega (arith, net x))

  lookup_in-LookedUp :
      (name : List ℕ) (dir d parent lp m li : ℕ) (s s1 : Fs k)
      → d ≢ parent
      → (s1.dentries d).private_data ≡ none
      → (s1.dentries parent).private_data
        ≡ some (record { lower_dentry = some lp; lower_mnt = some m })
      → k.d_inode lp s1.world ≡ some li
      → (mine : Option ℕ) → s1.sb_private (s1.inodes dir).i_sb ≡ some mine
      → CacheAgrees k
      → s1.trace ≡ s.trace
      → Returns (lookup_in parent name dir d) s1 (LookedUp d s)
  unfolding lookup_in
  lookup_in-LookedUp name dir d parent lp m li s s1 apart unset backed lower_dir mine mounted agrees
        same =
      Returns-lower_dentry parent lp m _ s1 (LookedUp d s) backed (
        Returns-need (k.d_inode lp s1.world) li _ s1 (LookedUp d s) lower_dir (
          lookup_found-LookedUp (k.lookup_one_len name lp s1.world).0 dir d parent lp m li mine s _
            apart unset backed mounted agrees (λ x. rw same (omega arith))))

  -- For a dentry without private data in a directory that is set up, dazukofs_lookup returns with
  -- `LookedUp`.
  pub dazukofs_lookup-LookedUp :
      (dir d parent lp m li : ℕ) (s : Fs k)
      → Searchable s dir d parent lp m li
      → Returns (dazukofs_lookup dir d) s (LookedUp d s)
  unfolding dazukofs_lookup lookup_name
  dazukofs_lookup-LookedUp dir d parent lp m li s h =
      Returns-if (is_dots (s.dentries d).name) _ _ s (LookedUp d s)
        (λ _. inl (false, 0, refl, λ x. rw (==_refl d, h.unset) (omega arith)))
        (λ _.
          let s1 : Fs k = record s {
            dentries = update s.dentries d (record (s.dentries d) { has_dops = true });
          } in
          subst (λ q. Returns (lookup_in q (s.dentries d).name dir d) s1 (LookedUp d s))
            (rw (==_refl d) (sym h.child))
            (lookup_in-LookedUp (s.dentries d).name dir d parent lp m li s s1 h.apart
              (rw (==_refl d) h.unset) (rw (unequal d parent h.apart) h.backed) h.lower_dir
              h.sb_info h.set_up h.agrees refl))
