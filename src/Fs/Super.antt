-- ===== src/Fs/Super.antt =====
-- Super blocks and mounting, in super.c.
use dazukofs_linux.Base.{ℕ, Bool, true, false, Option, none, some, List, ◌==◌, if◌then◌else◌}
use dazukofs_linux.Events.State.{Ret, ok, err, enomem, enoent, einval, enosys, update}
use dazukofs_linux.Fs.Kernel.{Kernel, Kind, Location, found, not_found}
use dazukofs_linux.Fs.State.{
  get, put, dentry_ref, mnt_ref, inode_info, sb_info, dentry_info, M, ◌>>=◌, ◌>>◌, return, asks,
  record_call, call, dget, dput, mntget, mntput, iput, set_dentry, get_lower_dentry,
  get_lower_inode, get_lower_sb, set_lower_dentry, root_of, set_root,
}
use dazukofs_linux.Fs.Interpose.{dazukofs_interpose}

abbrev pub is_dir : Kind → Bool
is_dir Kind.dir = true
is_dir _ = false

module _ {k : Kernel} where
  -- `mem` is the address of the structure that embeds the inode, if there is memory.
  unfoldable pub dazukofs_alloc_inode : (mem : Option ℕ) → M k (Option ℕ)
  dazukofs_alloc_inode none = return none
  dazukofs_alloc_inode (some i) = do record_call (get (inode_info i)); return (some i)

  unfoldable pub dazukofs_destroy_inode : ℕ → M k (Unit {0})
  dazukofs_destroy_inode i = record_call (put (inode_info i))

  unfoldable pub dazukofs_statfs : ℕ → M k Ret
  dazukofs_statfs dentry = do
    lower ← get_lower_dentry dentry
    dget lower
    has ← asks (λ s. k.has_statfs (k.d_sb lower s.world) s.world)
    (if has then call (k.statfs lower) else return (err enosys))

  -- The pages of the inode are dropped by the kernel before.
  unfoldable pub dazukofs_evict_inode : ℕ → M k (Unit {0})
  dazukofs_evict_inode i = do lower ← get_lower_inode i; iput lower

  abbrev pub put_super_info : ℕ → Option (Option ℕ) → M k (Unit {0})
  put_super_info sb none = return tt
  put_super_info sb (some info) = record_call (put (sb_info sb))

  unfoldable pub dazukofs_put_super : ℕ → M k (Unit {0})
  dazukofs_put_super sb = do info ← asks (λ s. s.sb_private sb); put_super_info sb info

  abbrev pub set_sb_private : ℕ → Option ℕ → M k (Unit {0})
  set_sb_private sb info s = some (tt, record s { sb_private = update s.sb_private sb (some info) })

  abbrev pub set_lower_sb : (sb lower : ℕ) → M k (Unit {0})
  set_lower_sb sb lower = do info ← get_lower_sb sb; set_sb_private sb (some lower)

  -- The label `out_put`.
  abbrev pub out_put : (lower_root lower_mnt : ℕ) → Ret → M k Ret
  out_put lower_root lower_mnt e = do dput lower_root; mntput lower_mnt; return e

  abbrev pub read_super_done : (lower_root lower_mnt : ℕ) → Ret → M k Ret
  read_super_done lower_root lower_mnt (ok n) =
      if n == 0 then return (ok n) else out_put lower_root lower_mnt (ok n)
  read_super_done lower_root lower_mnt (err e) = out_put lower_root lower_mnt (err e)

  unfoldable pub read_super_inode : Option ℕ → (sb lower_root lower_mnt : ℕ) → M k Ret
  read_super_inode none sb lower_root lower_mnt = out_put lower_root lower_mnt (err enoent)
  read_super_inode (some i) sb lower_root lower_mnt = do
    kind ← asks (λ s. k.i_kind i s.world)
    lower_sb ← asks (λ s. k.d_sb lower_root s.world)
    (if is_dir kind
        then (do
          set_lower_sb sb lower_sb
          root ← root_of sb
          set_lower_dentry root lower_root lower_mnt
          e ← dazukofs_interpose lower_root root sb false
          read_super_done lower_root lower_mnt e)
        else out_put lower_root lower_mnt (err einval))

  -- `kern_path` takes the references that `path_put` drops.
  unfoldable pub read_super_path : Location → (sb : ℕ) → M k Ret
  read_super_path (not_found e) sb = return (err e)
  read_super_path (found d m) sb = do
    record_call (get (dentry_ref d))
    record_call (get (mnt_ref m))
    dget d
    mntget m
    i ← asks (λ s. k.d_inode d s.world)
    r ← read_super_inode i sb d m
    dput d
    mntput m
    return r

  unfoldable pub dazukofs_read_super : (sb : ℕ) → (dev_name : List ℕ) → M k Ret
  dazukofs_read_super sb dev_name = do path ← call (k.kern_path dev_name); read_super_path path sb

  unfoldable pub fill_info : Bool → (sb root : ℕ) → M k Ret
  fill_info false sb root = do record_call (put (sb_info sb)); dput root; return (err enomem)
  fill_info true sb root = do
    record_call (get (dentry_info root))
    set_dentry root
        (λ d. record d { private_data = some (record { lower_dentry = none; lower_mnt = none }) })
    set_sb_private sb none
    return (ok 0)

  -- `d_alloc` returns a dentry, without an inode, with a reference.
  unfoldable pub fill_root : Option ℕ → (sb : ℕ) → M k Ret
  fill_root none sb = do record_call (put (sb_info sb)); return (err enomem)
  fill_root (some root) sb = do
    record_call (get (dentry_ref root))
    set_root sb root
    set_dentry root
        (λ d. record d { parent = root; private_data = none; inode = none; has_dops = true })
    allocated ← call k.kmem_cache_zalloc
    fill_info allocated sb root

  unfoldable pub fill_allocated : Bool → (sb : ℕ) → M k Ret
  fill_allocated false sb = return (err enomem)
  fill_allocated true sb = do
    record_call (get (sb_info sb))
    root ← call k.d_alloc
    fill_root root sb

  unfoldable pub dazukofs_fill_super : (sb : ℕ) → M k Ret
  dazukofs_fill_super sb = do allocated ← call k.kmem_cache_zalloc; fill_allocated allocated sb

  -- `mount_nodev` calls `dazukofs_fill_super` on a new super block; the name of the device is not
  -- used.
  unfoldable pub dazukofs_get_sb : (sb : ℕ) → (dev_name : List ℕ) → M k Ret
  dazukofs_get_sb sb dev_name = dazukofs_fill_super sb
