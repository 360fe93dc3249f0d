-- ===== src/Fs/Following.antt =====
-- Symbolic links in inode.c: dazukofs_readlink, dazukofs_follow_link and dazukofs_put_link.
use dazukofs_linux.Base.{
  ℕ, ◌<◌, ◌≡◌, refl, sym, ap, ◌∙◌, ◌⊎◌, inl, inr, Bool, true, false, Option, none, some, List, [],
  ◌∷◌, ◌++◌, ◌==◌, if◌then◌else◌, ltb, take, arith, ==_refl,
}
use dazukofs_linux.Events.State.{Errno, Ret, ok, err, enoent, einval, enomem}
use mathlib.Core.Path.{subst}
use dazukofs_linux.Fs.Kernel.{Kernel}
use dazukofs_linux.Fs.State.{Fs, get, link_buffer, M, ◌>>=◌, Inode}
use dazukofs_linux.Fs.Attributes.{
  page_size, readlink_inode, after_readlink, follow_read, dazukofs_readlink, dazukofs_follow_link,
}
use dazukofs_linux.Fs.Balance.{
  Net, Balanced, nothing, one, Returns, Ensures-inv, Returns-if, Returns-bind, Returns-inode_of,
}
use dazukofs_linux.Fs.Creating.{Returns-lower_dentry}

nonzero : (n : ℕ) → (n == 0) ≡ false → n ≡ 0 → ⊥
nonzero n h e = ground arith

fits : (n : ℕ) → n < 4096 → ltb n 4096 ≡ true
fits n h = ground arith

module _ {k : Kernel} where
  -- A link `d` whose lower dentry is `ld`.
  pub record Link (s : Fs k) (d ld m i : ℕ) : Type 0 where
    pub backed :
        (s.dentries d).private_data ≡ some (record { lower_dentry = some ld; lower_mnt = some m })
    pub own_inode : (s.dentries d).inode ≡ some i

  -- Reading a link takes nothing. It fails, or the answer is the lower file system's; after the
  -- answer 0 the inode has the times of the lower inode `li`.
  abbrev pub ReadLink : (ld n i : ℕ) → Fs k → Ret × List ℕ → Fs k → Type 0
  ReadLink ld n i s r s' =
      (s'.trace ≡ s.trace)
      × (((e : Errno) × (bytes : List ℕ) × (r ≡ (err e, bytes)))
          ⊎ ((li c : ℕ) × (bytes : List ℕ) × (r ≡ (ok c, bytes))
              × ((k.readlink ld n s.world).0 ≡ (ok c, bytes))
              × (c ≡ 0
                  → (s'.inodes i).attr ≡ k.copy_attr_times (s.inodes i).attr (k.attr li s'.world))))

  after_readlink-ReadLink :
      (r : Ret × List ℕ) (d ld n i li : ℕ) (s s1 : Fs k)
      → s1.trace ≡ s.trace
      → s1.inodes ≡ s.inodes
      → (s1.dentries d).inode ≡ some i
      → (k.readlink ld n s.world).0 ≡ r
      → Returns (after_readlink r d li) s1 (ReadLink ld n i s)
  after_readlink-ReadLink (err e, bytes) d ld n i li s s1 same inodes own answer =
      (same, inl (e, bytes, refl))
  after_readlink-ReadLink (ok c, bytes) d ld n i li s s1 same inodes own answer =
      Returns-if (c == 0) _ _ s1 (ReadLink ld n i s)
        (λ _. Returns-inode_of d i _ s1 (ReadLink ld n i s) own (
          same,
          inr (
            li,
            c,
            bytes,
            refl,
            answer,
            λ _. rw (==_refl i) (
                ap (λ (f : ℕ → Inode k). k.copy_attr_times (f i).attr (k.attr li s1.world)) inodes),
          ),
        ))
        (λ z. (same, inr (li, c, bytes, refl, answer, λ e. absurd (nonzero c z e))))

  readlink_inode-ReadLink :
      (o : Option ℕ) (d ld n i : ℕ) (s : Fs k)
      → (s.dentries d).inode ≡ some i
      → Returns (readlink_inode o d ld n) s (ReadLink ld n i s)
  unfolding readlink_inode
  readlink_inode-ReadLink none d ld n i s own = (refl, inl (enoent, [], refl))
  readlink_inode-ReadLink (some li) d ld n i s own =
      Returns-if (k.has_readlink li s.world) _ _ s (ReadLink ld n i s)
        (λ _.
          after_readlink-ReadLink (k.readlink ld n s.world).0 d ld n i li s _ refl refl own refl)
        (λ _. (refl, inl (einval, [], refl)))

  dazukofs_readlink-ReadLink :
      (d ld m i n : ℕ) (s : Fs k)
      → Link s d ld m i
      → Returns (dazukofs_readlink d n) s (ReadLink ld n i s)
  unfolding dazukofs_readlink
  dazukofs_readlink-ReadLink d ld m i n s h =
      Returns-lower_dentry d ld m _ s (ReadLink ld n i s) h.backed
        (readlink_inode-ReadLink (k.d_inode ld s.world) d ld n i s h.own_inode)

  -- How following a link ends. Failure: nothing is kept. Success: the text is what the lower file
  -- system has read with a NUL, and the buffer is kept, which dazukofs_put_link gives back.
  abbrev pub Followed : (d ld : ℕ) → Fs k → Ret × List ℕ → Fs k → Type 0
  Followed d ld s r s' =
      ((e : Errno) × (r ≡ (err e, [])) × Balanced s.trace s'.trace)
      ⊎ ((c : ℕ) × (bytes : List ℕ) × (w : k.World) × ((k.readlink ld page_size w).0
            ≡ (ok c, bytes))
          × (r ≡ (ok 0, take c bytes ++ 0 ∷ []))
          × Net (one (link_buffer d)) nothing s.trace s'.trace)

  follow_read-Followed :
      (r : Ret × List ℕ) (d ld i : ℕ) (s s1 s2 : Fs k)
      → s1.trace ≡ get (link_buffer d) ∷ s.trace
      → ((w : k.World) (c : ℕ) (bytes : List ℕ)
          → (k.readlink ld page_size w).0 ≡ (ok c, bytes)
          → c < page_size)
      → ReadLink ld page_size i s1 r s2
      → Returns (follow_read d r) s2 (Followed d ld s)
  unfolding follow_read
  follow_read-Followed (err e, bytes) d ld i s s1 s2 t short (same, _) =
      inl (e, refl, λ x. rw (same, t) (omega arith))
  follow_read-Followed (ok n, bytes) d ld i s s1 s2 t short (same, inl (e, b, failed)) = cc
  follow_read-Followed (ok n, bytes) d ld i s s1 s2 t short
        (same, inr (li, c, b, eq, answer, times)) =
      let read : (k.readlink ld page_size s1.world).0 ≡ (ok n, bytes) = answer ∙ sym eq in
      rw (fits n (short s1.world n bytes read))
        (inr (n, bytes, s1.world, read, refl, λ x. rw (same, t) (omega arith)))

  -- For a link whose lower file system leaves room for the NUL, dazukofs_follow_link returns with
  -- `Followed`.
  pub dazukofs_follow_link-Followed :
      (d ld m i : ℕ) (s : Fs k)
      → Link s d ld m i
      → ((w : k.World) (c : ℕ) (bytes : List ℕ)
          → (k.readlink ld page_size w).0 ≡ (ok c, bytes)
          → c < page_size)
      → Returns (dazukofs_follow_link d) s (Followed d ld s)
  unfolding dazukofs_follow_link
  dazukofs_follow_link-Followed d ld m i s h short =
      Returns-if (k.kmalloc s.world).0 _ _ _ (Followed d ld s)
        (λ _.
          let s1 : Fs k = record s {
            world = (k.kmalloc s.world).1;
            trace = get (link_buffer d) ∷ s.trace;
          } in
          Returns-bind (dazukofs_readlink d page_size) _ s1 (ReadLink ld page_size i s1)
            (Followed d ld s)
            (dazukofs_readlink-ReadLink d ld m i page_size s1
              (record { backed = h.backed; own_inode = h.own_inode }))
            (λ r s2. follow_read-Followed r d ld i s s1 s2 refl short))
        (λ _. inl (enomem, refl, λ x. omega arith))

  given : {A : Type 0} (b : Bool) (m n : M k A) (s : Fs k) → b ≡ true → (if b then m else n) s ≡ m s
  given true m n s e = refl
  given false m n s e = cc

  behind :
      {A B : Type 0} (m : M k A) (a : A) (f : A → M k B) (s s' : Fs k)
      → m s ≡ some (a, s')
      → (m >>= f) s ≡ f a s'
  behind m a f s s' e = rw (◌>>=◌, e) refl

  readlink-filled :
      (d ld m li : ℕ) (bytes : List ℕ) (s : Fs k)
      → (s.dentries d).private_data ≡ some (record { lower_dentry = some ld; lower_mnt = some m })
      → k.d_inode ld s.world ≡ some li
      → k.has_readlink li s.world ≡ true
      → (k.readlink ld page_size s.world).0 ≡ (ok page_size, bytes)
      → Returns (dazukofs_readlink d page_size) s (λ r _. r ≡ (ok page_size, bytes))
  unfolding dazukofs_readlink readlink_inode
  readlink-filled d ld m li bytes s backed there has filled =
      Returns-lower_dentry d ld m _ s (λ r _. r ≡ (ok page_size, bytes)) backed
        (subst (λ o. Returns (readlink_inode o d ld page_size) s (λ r _. r ≡ (ok page_size, bytes)))
          (sym there)
          (Returns-if (k.has_readlink li s.world) _ _ s _
            (λ _.
              subst
                (λ r.
                  Returns (after_readlink r d li)
                    (record s { world = (k.readlink ld page_size s.world).1 })
                    (λ r _. r ≡ (ok page_size, bytes)))
                (sym filled) refl)
            (λ lacks. cc)))

  -- A link whose target fills the buffer: when the lower file system answers with the size of a
  -- page, the NUL is written behind the buffer.
  pub dazukofs_follow_link-overflows :
      (d ld m li : ℕ) (bytes : List ℕ) (s : Fs k)
      → (s.dentries d).private_data ≡ some (record { lower_dentry = some ld; lower_mnt = some m })
      → (k.kmalloc s.world).0 ≡ true
      → k.d_inode ld (k.kmalloc s.world).1 ≡ some li
      → k.has_readlink li (k.kmalloc s.world).1 ≡ true
      → (k.readlink ld page_size (k.kmalloc s.world).1).0 ≡ (ok page_size, bytes)
      → dazukofs_follow_link d s ≡ none
  unfolding dazukofs_follow_link follow_read
  dazukofs_follow_link-overflows d ld m li bytes s backed allocated there has filled =
      let s1 : Fs k = record s {
        world = (k.kmalloc s.world).1;
        trace = get (link_buffer d) ∷ s.trace;
      } in
      let (r, s2, runs, is) =
        Ensures-inv (dazukofs_readlink d page_size s1) (λ r _. r ≡ (ok page_size, bytes))
          (readlink-filled d ld m li bytes s1 backed there has filled) in
      given (k.kmalloc s.world).0 _ _ (record s { world = (k.kmalloc s.world).1 }) allocated
      ∙ behind (dazukofs_readlink d page_size) r (λ r. follow_read d r) s1 s2 runs
      ∙ ap (λ r. follow_read d r s2) is
