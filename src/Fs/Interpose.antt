-- ===== src/Fs/Interpose.antt =====
-- dazukofs_interpose of inode.c: an inode of the upper layer for one of the lower.
use dazukofs_linux.Base.{ℕ, ◌+◌, Bool, true, false, Option, none, some, ◌==◌, if◌then◌else◌}
use dazukofs_linux.Events.State.{Ret, ok, err, estale, exdev, eacces}
use dazukofs_linux.Fs.Kernel.{Kernel, Kind, Iget, no_inode, cached, fresh}
use dazukofs_linux.Fs.State.{
  get, inode_ref, Inode, Iops, Fops, M, ◌>>=◌, ◌>>◌, return, need, asks, record_call, call, iput,
  set_dentry, set_inode, copy_from, get_lower_sb, d_add, d_instantiate,
}

abbrev pub is_sb : ℕ → Option ℕ → Bool
is_sb sb none = false
is_sb sb (some lower) = sb == lower

module _ {k : Kernel} where
  abbrev pub dazukofs_inode_test : Inode k → ℕ → Bool
  dazukofs_inode_test i candidate_lower_inode = i.lower_inode == candidate_lower_inode

  abbrev pub dazukofs_init_inode : (lower_inode ino : ℕ) → Inode k → Inode k
  dazukofs_init_inode lower_inode ino i = record i {
    lower_inode = lower_inode;
    i_ino = ino;
    i_version = i.i_version + 1;
    i_op = Iops.main_iops;
    i_fop = Fops.main_fops;
    has_aops = true;
  }

  abbrev pub dazukofs_inode_set : (sb a lower_inode : ℕ) → M k (Unit {0})
  dazukofs_inode_set sb a lower_inode s =
      set_inode a
        (λ i.
          dazukofs_init_inode lower_inode (k.i_ino lower_inode s.world)
            (record i { i_sb = sb; attr = k.blank }))
        s

  -- The tables by the kind of the lower inode.
  abbrev pub set_ops : Kind → Inode k → Inode k
  set_ops Kind.regular i = i
  set_ops Kind.lnk i = record i { i_op = Iops.symlink_iops }
  set_ops Kind.dir i = record i { i_op = Iops.dir_iops; i_fop = Fops.dir_fops }
  set_ops Kind.special i = record i { i_fop = Fops.special_fops }

  -- With the inode at hand.
  unfoldable pub interpose_inode : (a lower_inode dentry : ℕ) → (already_hashed : Bool) → M k Ret
  interpose_inode a lower_inode dentry already_hashed = do
    kind ← asks (λ s. k.i_kind lower_inode s.world)
    set_inode a (set_ops kind)
    set_dentry dentry (λ d. record d { has_dops = true })
    if already_hashed then d_add dentry (some a) else d_instantiate dentry a
    copy_from k.copy_attr_all a lower_inode
    copy_from k.copy_inode_size a lower_inode
    return (ok 0)

  -- By the answer of `iget5_locked`; `I_NEW` is the case of a fresh inode.
  unfoldable pub interpose_got :
      Iget → (sb lower_inode dentry : ℕ) → (already_hashed : Bool) → M k Ret
  interpose_got no_inode sb lower_inode dentry already_hashed = do
    iput lower_inode
    return (err eacces)
  interpose_got (fresh a) sb lower_inode dentry already_hashed = do
    dazukofs_inode_set sb a lower_inode
    interpose_inode a lower_inode dentry already_hashed
  interpose_got (cached a) sb lower_inode dentry already_hashed = do
    iput lower_inode
    interpose_inode a lower_inode dentry already_hashed

  unfoldable pub interpose_grabbed : (lower_inode dentry sb : ℕ) → (already_hashed : Bool) → M k Ret
  interpose_grabbed lower_inode dentry sb already_hashed = do
    record_call (get (inode_ref lower_inode))
    lower_sb ← asks (λ s. k.i_sb lower_inode s.world)
    mine ← get_lower_sb sb
    (if is_sb lower_sb mine
        then (do
          test ← asks (λ s a. dazukofs_inode_test (s.inodes a) lower_inode)
          got ← call (k.iget5_locked test sb lower_inode)
          interpose_got got sb lower_inode dentry already_hashed)
        else (do iput lower_inode; return (err exdev)))

  unfoldable pub dazukofs_interpose :
      (lower_dentry dentry sb : ℕ) → (already_hashed : Bool) → M k Ret
  dazukofs_interpose lower_dentry dentry sb already_hashed = do
    found ← asks (λ s. k.d_inode lower_dentry s.world)
    lower_inode ← need found
    grabbed ← call (k.igrab lower_inode)
    (if grabbed
        then interpose_grabbed lower_inode dentry sb already_hashed
        else return (err estale))
