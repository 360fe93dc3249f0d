-- ===== src/Devices/Unloading.antt =====
-- The unwinding of init_dazukofs_fs, and exit_dazukofs_fs, in super.c.
use dazukofs_linux.Base.{◌≡◌, refl, ◌∙◌, some, List, [], ◌∷◌}
use dazukofs_linux.Events.State.{State}
use dazukofs_linux.Devices.{Resource, Held, Kernel, give, release, cache_kernel, behind}
use dazukofs_linux.Devices.Loading.{
  caches, destroy_caches, init_caches, undo_devices, init_dazukofs_fs, exit_dazukofs_fs,
}
use dazukofs_linux.Devices.Stages.{
  Ends, release_all-give_all, obtain-Ends, or_undo-Ends, done-Ends, all_held,
}
use dazukofs_linux.Devices.Proofs.{
  behind-left, release_one, one_more, dazukofs_dev_init-Ends, dazukofs_dev_destroy-all_held,
}

abbrev caches_held : List Resource
caches_held =
    Resource.file_info_cache ∷ Resource.dentry_info_cache ∷ Resource.sb_info_cache
    ∷ Resource.inode_info_cache ∷ all_held

-- All that the loaded module holds.
abbrev pub loaded : List Resource
loaded = Resource.filesystem ∷ caches_held

init_caches-Ends :
    (k : Kernel) (h : Held) → h.resources ≡ all_held → Ends all_held caches_held (init_caches k h)
unfolding init_caches give
init_caches-Ends k h e =
    obtain-Ends (cache_kernel k) Resource.inode_info_cache [] _ h e refl (λ h e.
      obtain-Ends (cache_kernel k) Resource.sb_info_cache (Resource.inode_info_cache ∷ []) _ h e
        refl
        (λ h e.
          obtain-Ends (cache_kernel k) Resource.dentry_info_cache
            (Resource.inode_info_cache ∷ Resource.sb_info_cache ∷ []) _ h e refl
            (λ h e.
              obtain-Ends (cache_kernel k) Resource.file_info_cache
                (Resource.inode_info_cache ∷ Resource.sb_info_cache ∷ Resource.dentry_info_cache
                  ∷ [])
                _ h e refl (λ h e. done-Ends h e))))

devices_down :
    (s : State) (h : Held)
    → s.group_list ≡ []
    → h.resources ≡ all_held
    → (h' : Held) × (undo_devices 0 s h ≡ some h') × (h'.resources ≡ [])
devices_down s h e x =
    let (h', eq, l) = dazukofs_dev_destroy-all_held s h e x in (h', rw eq refl, l)

caches_down :
    (s : State) (h : Held)
    → s.group_list ≡ []
    → h.resources ≡ caches_held
    → (h' : Held) × (behind destroy_caches (undo_devices 0 s) h ≡ some h') × (h'.resources ≡ [])
unfolding destroy_caches give
caches_down s h e x =
    behind-left destroy_caches (undo_devices 0 s) caches h (λ h. refl) x refl
      (λ h x. devices_down s h e x)

-- Whatever the kernel answers, from minor number 0 on and with no groups, loading the module either
-- succeeds and holds the devices, the caches and the registration, or fails with an error and holds
-- nothing.
pub init_dazukofs_fs-Ends :
    (k : Kernel) (s : State) (h : Held)
    → s.group_list ≡ []
    → h.resources ≡ []
    → Ends [] loaded (init_dazukofs_fs k 0 s h)
unfolding init_dazukofs_fs
init_dazukofs_fs-Ends k s h e x =
    or_undo-Ends _ some _ (dazukofs_dev_init-Ends k s h e x)
      (λ h x.
        or_undo-Ends _ (undo_devices 0 s) _ (init_caches-Ends k h x)
          (λ h x.
            or_undo-Ends _ (behind destroy_caches (undo_devices 0 s)) _
              (one_more k Resource.filesystem h caches_held x) (λ h x. done-Ends h x)
              (λ h x. caches_down s h e x))
          (λ h x. devices_down s h e x))
      (λ h x. (h, refl, x))

-- Unloading the module that holds all of it, with no groups left, gives everything back and nothing
-- that is not held.
pub exit_dazukofs_fs-loaded :
    (s : State) (h : Held)
    → s.group_list ≡ []
    → h.resources ≡ loaded
    → (h' : Held) × (exit_dazukofs_fs 0 s h ≡ some (h', s)) × (h'.resources ≡ [])
unfolding exit_dazukofs_fs destroy_caches give
exit_dazukofs_fs-loaded s h e x =
    let (h1, e1, x1) = release_all-give_all (Resource.filesystem ∷ []) h x refl in
    let (h2, e2, x2) = release_all-give_all caches h1 x1 refl in
    let (h3, e3, x3) = dazukofs_dev_destroy-all_held s h2 e x2 in
    let f1 : release Resource.filesystem h ≡ some h1 = release_one Resource.filesystem h ∙ e1 in
    (h3, rw (f1, e2) e3, x3)
