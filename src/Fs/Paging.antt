-- ===== src/Fs/Paging.antt =====
-- dazukofs_readpage and dazukofs_writepage of mmap.c: what is copied, and what is held afterwards.
use dazukofs_linux.Base.{
  ℕ, ◌+◌, ◌≡◌, refl, ap, ◌⊎◌, inl, inr, Bool, true, false, Option, some, ◌∷◌, if◌then◌else◌,
  ==_refl, arith,
}
use dazukofs_linux.Events.State.{Errno, Ret, ok, err, enomem}
use dazukofs_linux.Fs.Kernel.{Kernel, Pointer, to, is_err}
use dazukofs_linux.Fs.State.{
  Fs, get, put, page_ref, page_lock, mapping, M, ◌>>=◌, ◌>>◌, need, return, record_call,
  get_lower_file,
}
use dazukofs_linux.Fs.Pages.{
  map_page, dazukofs_readpage, read_lower, read_mapped, copy_up, finish_read,
}
use dazukofs_linux.Fs.Balance.{
  Net, nothing, one, Returns, Returns-run, Returns-assoc, Returns-inode_of,
}

module _ {k : Kernel} where
  -- The lower page that is asked for, by the lower inode and the index of the page.
  abbrev pub asked : (li p : ℕ) → Fs k → Pointer
  asked li p s = (k.read_cache_page li (s.pages p).index s.world).0

  abbrev pub grabbed : (p : ℕ) → Fs k → Option ℕ
  grabbed p s =
      (k.grab_cache_page (s.inodes (s.pages p).inode).lower_inode (s.pages p).index s.world).0

  -- How reading the page `p` ends; the lock that it came with is given back. Success: it has what
  -- the page of the same index of the lower inode has, and counts as uptodate. Failure: it does
  -- not, and at most its mapping is kept, when the lower page cannot be mapped.
  abbrev pub PageRead : (li p : ℕ) → Fs k → Ret → Fs k → Type 0
  PageRead li p s r s' =
      ((l : ℕ) × (r ≡ ok 0)
        × (asked li p s ≡ to l)
        × ((s'.pages p).uptodate ≡ true)
        × ((s'.pages p).contents ≡ k.page_data l s'.world)
        × Net nothing (one (page_lock p)) s.trace s'.trace)
      ⊎ ((e : Errno) × (r ≡ err e)
          × ((s'.pages p).uptodate ≡ false)
          × Net nothing (one (page_lock p)) s.trace s'.trace)
      ⊎ ((r ≡ err enomem)
          × ((s'.pages p).uptodate ≡ false)
          × Net (one (mapping p)) (one (page_lock p)) s.trace s'.trace)

  -- By whether the mapping of a page is granted.
  Returns-map_page :
      {B : Type 0} (p : ℕ) (f : Bool → M k B) (s : Fs k) (Q : B → Fs k → Type 0)
      → Returns
          (f true)
          (record s { world = (k.kmap p s.world).1; trace = get (mapping p) ∷ s.trace })
          Q
      → Returns (f false) (record s { world = (k.kmap p s.world).1 }) Q
      → Returns (map_page p >>= f) s Q
  Returns-map_page p f s Q granted refused = by_answer (k.kmap p s.world).0
    where
      by_answer :
          (b : Bool)
          → Returns
              ((if b then (record_call (get (mapping p)) >>= λ _. return true) else return false)
                >>= f)
              (record s { world = (k.kmap p s.world).1 })
              Q
      by_answer true = granted
      by_answer false = refused

  -- With the upper page mapped, or not, and a reference to the lower one.
  read_mapped-PageRead :
      (b : Bool) (li p l : ℕ) (s s1 : Fs k)
      → asked li p s ≡ to l
      → Net
          (λ x. one (page_ref l) x + (if b then one (mapping p) x else 0))
          nothing
          s.trace
          s1.trace
      → Returns (read_mapped p l b >>= λ e. finish_read p (some l) e) s1 (PageRead li p s)
  unfolding read_mapped copy_up finish_read
  read_mapped-PageRead false li p l s s1 at_l net =
      inr (inl (enomem, refl, rw (==_refl p) refl, λ x. omega (arith, net x)))
  read_mapped-PageRead true li p l s s1 at_l net =
      Returns-assoc (map_page l) _ (λ e. finish_read p (some l) e) s1 (PageRead li p s)
        (Returns-map_page l _ s1 (PageRead li p s)
          (inl (l, refl, at_l, rw (==_refl p) refl, rw (==_refl p) refl, λ x. omega (arith, net x)))
          (inr (inr (refl, rw (==_refl p) refl, λ x. omega (arith, net x)))))

  read_lower-PageRead :
      (lower : Pointer) (li p : ℕ) (s s1 : Fs k)
      → asked li p s ≡ lower
      → s1.trace ≡ s.trace
      → Returns (read_lower p lower) s1 (PageRead li p s)
  unfolding read_lower finish_read
  read_lower-PageRead (is_err e) li p s s1 at_l same =
      inr (inl (e, refl, rw (==_refl p) refl, λ x. rw same (omega arith)))
  read_lower-PageRead (to l) li p s s1 at_l same =
      Returns-map_page p _ (record s1 { trace = get (page_ref l) ∷ s1.trace }) (PageRead li p s)
        (read_mapped-PageRead true li p l s _ at_l (λ x. rw same (omega arith)))
        (read_mapped-PageRead false li p l s _ at_l (λ x. rw same (omega arith)))

  -- With an open file whose dentry has an inode, dazukofs_readpage returns with `PageRead`.
  pub dazukofs_readpage-PageRead :
      (file p inode lower : ℕ) (s : Fs k)
      → (s.files file).private_data ≡ some (some lower)
      → (s.dentries (s.files file).dentry).inode ≡ some inode
      → Returns (dazukofs_readpage file p) s (PageRead (s.inodes inode).lower_inode p s)
  unfolding dazukofs_readpage
  dazukofs_readpage-PageRead file p inode lower s opened there =
      Returns-run (get_lower_file {k = k} file) lower _ s s
        (PageRead (s.inodes inode).lower_inode p s)
        (ap (λ (o : Option (Option ℕ)). (need o >>= λ l. need l) s) opened)
        (Returns-inode_of (s.files file).dentry inode _ s
          (PageRead (s.inodes inode).lower_inode p s) there
          (read_lower-PageRead
            (k.read_cache_page (s.inodes inode).lower_inode (s.pages p).index s.world).0
            (s.inodes inode).lower_inode p s _ refl refl))

  -- How writing the page `p` ends; the lock that it came with is given back. Success: the lower
  -- page of the same index has been given the contents of the page and is dirty, and a reference to
  -- it is kept. Failure: the page is as before, and the reference is kept when there is a lower
  -- page.
  abbrev pub PageWritten : (p : ℕ) → Fs k → Ret → Fs k → Type 0
  PageWritten p s r s' =
      ((l : ℕ) × (w : k.World) × (r ≡ ok 0)
        × (grabbed p s ≡ some l)
        × ((s'.pages p).uptodate ≡ true)
        × (s'.world ≡ k.set_page_dirty l (k.write_page l (s.pages p).contents w))
        × Net (one (page_ref l)) (one (page_lock p)) s.trace s'.trace)
      ⊎ ((r ≡ err enomem) × (s'.pages ≡ s.pages) × Net nothing (one (page_lock p)) s.trace s'.trace)
      ⊎ ((l : ℕ) × (r ≡ err enomem)
          × (grabbed p s ≡ some l)
          × (s'.pages ≡ s.pages)
          × Net (one (page_ref l)) (one (page_lock p)) s.trace s'.trace)

  abbrev unlocking : ℕ → Ret → M k Ret
  unlocking p e = do record_call (put (page_lock p)); return e
