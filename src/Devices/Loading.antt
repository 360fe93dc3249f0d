-- ===== src/Devices/Loading.antt =====
-- Loading and unloading the module: the caches of the file system and its registration, in super.c.
use dazukofs_linux.Base.{ℕ, Option, some, List, [], ◌∷◌}
use dazukofs_linux.Events.State.{State, ◌>>=◌}
use dazukofs_linux.Devices.{
  Resource, Held, Kernel, Result, release, release_all, obtain, cache_kernel, done, or_undo, behind,
  dazukofs_dev_init, dazukofs_dev_destroy,
}

abbrev pub caches : List Resource
caches =
    Resource.inode_info_cache ∷ Resource.sb_info_cache ∷ Resource.dentry_info_cache
    ∷ Resource.file_info_cache ∷ []

-- Called where all four caches are there.
unfoldable pub destroy_caches : Held → Option Held
destroy_caches = release_all caches

-- On a failure `destroy_caches` finds the caches before the one that failed.
unfoldable pub init_caches : Kernel → Held → Result
init_caches k = obtain (cache_kernel k) Resource.inode_info_cache [] (
    obtain (cache_kernel k) Resource.sb_info_cache (Resource.inode_info_cache ∷ []) (
      obtain (cache_kernel k) Resource.dentry_info_cache
        (Resource.inode_info_cache ∷ Resource.sb_info_cache ∷ [])
        (obtain (cache_kernel k) Resource.file_info_cache
          (Resource.inode_info_cache ∷ Resource.sb_info_cache ∷ Resource.dentry_info_cache ∷ [])
          done)))

abbrev pub undo_devices : ℕ → State → Held → Option Held
undo_devices minor s h = do r ← dazukofs_dev_destroy minor s h; some r.0

unfoldable pub init_dazukofs_fs : Kernel → (minor : ℕ) → State → Held → Result
init_dazukofs_fs k minor s h = or_undo (dazukofs_dev_init k minor s h) some (λ h.
    or_undo (init_caches k h) (undo_devices minor s) (λ h.
      or_undo (obtain k Resource.filesystem [] done h)
        (behind destroy_caches (undo_devices minor s)) done))

unfoldable pub exit_dazukofs_fs : (minor : ℕ) → State → Held → Option (Held × State)
exit_dazukofs_fs minor s h = do
  h ← release Resource.filesystem h
  h ← destroy_caches h
  dazukofs_dev_destroy minor s h
