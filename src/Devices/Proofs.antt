-- ===== src/Devices/Proofs.antt =====
-- The unwinding of dazukofs_dev_init in dev.c, and dazukofs_dev_destroy.
use dazukofs_linux.Base.{◌≡◌, refl, ◌∙◌, inl, inr, Option, some, List, [], ◌∷◌, ◌++◌, Option-cases}
use dazukofs_linux.Events.State.{Group, State}
use dazukofs_linux.Devices.{
  Resource, Held, Kernel, give, release, release_all, obtain, done, range,
  dazukofs_ctrl_dev_destroy, dazukofs_ign_dev_destroy, dazukofs_destroy_events, destroy_groups,
  undo_events, undo_region, undo_class, undo_ctrl, undo_ign, behind, dazukofs_dev_init,
  dazukofs_dev_destroy, dazukofs_group_dev_destroy,
}
use dazukofs_linux.Devices.Stages.{
  Ends, give_all, release_all-give_all, obtain-Ends, or_undo-Ends, done-Ends, event_caches,
  dazukofs_init_events-Ends, ctrl_held, dazukofs_ctrl_dev_init-Ends, ign_held,
  dazukofs_ign_dev_init-Ends, dazukofs_group_dev_init-Ends, all_held,
}

-- With no groups, the events are taken down: the caches alone are given back.
events_down :
    (s : State) (h : Held) {xs base : List Resource}
    → s.group_list ≡ []
    → h.resources ≡ xs
    → give_all (Resource.group_cache ∷ Resource.container_cache ∷ Resource.event_cache ∷ []) xs
      ≡ some base
    → (h' : Held) × (undo_events s h ≡ some h') × (h'.resources ≡ base)
unfolding dazukofs_destroy_events destroy_groups
events_down s h e x g =
    let (h', eq, l) =
      release_all-give_all
        (Resource.group_cache ∷ Resource.container_cache ∷ Resource.event_cache ∷ []) h x g in
    (h', rw (e, eq) refl, l)

-- One more label of the unwinding.
pub behind-left :
    (f g : Held → Option Held) (rs : List Resource) (h : Held) {xs ys base : List Resource}
    → ((h : Held) → f h ≡ release_all rs h)
    → h.resources ≡ xs
    → give_all rs xs ≡ some ys
    → ((h : Held) → h.resources ≡ ys → (h' : Held) × (g h ≡ some h') × (h'.resources ≡ base))
    → (h' : Held) × (behind f g h ≡ some h') × (h'.resources ≡ base)
behind-left f g rs h same x give_ys rest =
    let (h1, e1, l1) = release_all-give_all rs h x give_ys in
    let (h2, e2, l2) = rest h1 l1 in (h2, rw (same h, e1) e2, l2)

pub release_one : (r : Resource) (h : Held) → release r h ≡ release_all (r ∷ []) h
unfolding release_all
release_one r h = elim (Option-cases (release r h)) [ inl e ↦ rw e refl | inr (x, e) ↦ rw e refl ]

region_down :
    (s : State) (h : Held)
    → s.group_list ≡ []
    → h.resources ≡ Resource.chrdev_region ∷ event_caches
    → (h' : Held) × (undo_region s h ≡ some h') × (h'.resources ≡ [])
unfolding give
region_down s h e x =
    behind-left (release Resource.chrdev_region) (undo_events s) (Resource.chrdev_region ∷ []) h
      (release_one Resource.chrdev_region) x refl (λ h x. events_down s h e x refl)

abbrev class_held : List Resource
class_held = Resource.device_class ∷ Resource.chrdev_region ∷ event_caches

class_down :
    (s : State) (h : Held)
    → s.group_list ≡ []
    → h.resources ≡ class_held
    → (h' : Held) × (undo_class s h ≡ some h') × (h'.resources ≡ [])
unfolding give
class_down s h e x =
    behind-left (release Resource.device_class) (undo_region s) (Resource.device_class ∷ []) h
      (release_one Resource.device_class) x refl (λ h x. region_down s h e x)

ctrl_down :
    (s : State) (h : Held)
    → s.group_list ≡ []
    → h.resources ≡ ctrl_held class_held
    → (h' : Held) × (undo_ctrl s 0 h ≡ some h') × (h'.resources ≡ [])
unfolding give dazukofs_ctrl_dev_destroy
ctrl_down s h e x =
    behind-left (dazukofs_ctrl_dev_destroy 0) (undo_class s)
      (Resource.device 0 ∷ Resource.cdev 0 ∷ []) h (λ h. refl) x refl (λ h x. class_down s h e x)

ign_down :
    (s : State) (h : Held)
    → s.group_list ≡ []
    → h.resources ≡ ign_held (ctrl_held class_held)
    → (h' : Held) × (undo_ign s 0 h ≡ some h') × (h'.resources ≡ [])
unfolding give dazukofs_ign_dev_destroy
ign_down s h e x =
    behind-left (dazukofs_ign_dev_destroy 1) (undo_ctrl s 0)
      (Resource.device 1 ∷ Resource.cdev 1 ∷ Resource.ign_cache ∷ []) h (λ h. refl) x refl
      (λ h x. ctrl_down s h e x)

pub one_more :
    (k : Kernel) (r : Resource) (h : Held) (xs : List Resource)
    → h.resources ≡ xs
    → Ends xs (r ∷ xs) (obtain k r [] done h)
one_more k r h xs e = obtain-Ends k r [] done h e refl (λ h e. done-Ends h e)

destroy_groups-none : (gs : List Group) (s : State) → gs ≡ [] → destroy_groups gs s ≡ some s
unfolding destroy_groups
destroy_groups-none [] s e = refl
destroy_groups-none (g ∷ gs) s e = cc

caches_down :
    (s : State) (h : Held)
    → s.group_list ≡ []
    → h.resources ≡ event_caches
    → (h' : Held) × (dazukofs_destroy_events h s ≡ some (h', s)) × (h'.resources ≡ [])
unfolding dazukofs_destroy_events give
caches_down s h e x =
    let (h', eq, l) =
      release_all-give_all
        (Resource.group_cache ∷ Resource.container_cache ∷ Resource.event_cache ∷ []) h x refl in
    (h', rw (destroy_groups-none s.group_list s e, eq) refl, l)

-- Whatever the kernel answers to the calls of the setup, from minor number 0 on and with no groups,
-- dazukofs_dev_init either succeeds and holds every cache, number, class and device, or it fails
-- with an error and holds nothing.
pub dazukofs_dev_init-Ends :
    (k : Kernel) (s : State) (h : Held)
    → s.group_list ≡ []
    → h.resources ≡ []
    → Ends [] all_held (dazukofs_dev_init k 0 s h)
unfolding dazukofs_dev_init give
dazukofs_dev_init-Ends k s h e x =
    or_undo-Ends _ some _ (dazukofs_init_events-Ends k h x)
      (λ h x.
        or_undo-Ends _ (undo_events s) _ (one_more k Resource.chrdev_region h event_caches x)
          (λ h x.
            or_undo-Ends _ (undo_region s) _
              (one_more k Resource.device_class h (Resource.chrdev_region ∷ event_caches) x)
              (λ h x.
                or_undo-Ends _ (undo_class s) _ (dazukofs_ctrl_dev_init-Ends k h class_held x)
                  (λ h x.
                    or_undo-Ends _ (undo_ctrl s 0) _
                      (dazukofs_ign_dev_init-Ends k h (ctrl_held class_held) x)
                      (λ h x.
                        or_undo-Ends _ (undo_ign s 0) _
                          (dazukofs_group_dev_init-Ends k h (ign_held (ctrl_held class_held)) x)
                          (λ h x. done-Ends h x) (λ h x. ign_down s h e x))
                      (λ h x. ctrl_down s h e x))
                  (λ h x. class_down s h e x))
              (λ h x. region_down s h e x))
          (λ h x. events_down s h e x refl))
      (λ h x. (h, refl, x))

-- From everything that the setup holds at minor number 0, and with no groups left,
-- dazukofs_dev_destroy gives each resource back that is held, nothing that is not, and ends with
-- nothing.
pub dazukofs_dev_destroy-all_held :
    (s : State) (h : Held)
    → s.group_list ≡ []
    → h.resources ≡ all_held
    → (h' : Held) × (dazukofs_dev_destroy 0 s h ≡ some (h', s)) × (h'.resources ≡ [])
unfolding dazukofs_dev_destroy dazukofs_group_dev_destroy dazukofs_ign_dev_destroy
    dazukofs_ctrl_dev_destroy give range
dazukofs_dev_destroy-all_held s h e x =
    let (h1, e1, x1) =
      release_all-give_all (range Resource.device 2 10 ++ range Resource.cdev 2 10) h x refl in
    let (h2, e2, x2) =
      release_all-give_all (Resource.device 1 ∷ Resource.cdev 1 ∷ Resource.ign_cache ∷ []) h1 x1
        refl in
    let (h3, e3, x3) = release_all-give_all (Resource.device 0 ∷ Resource.cdev 0 ∷ []) h2 x2 refl in
    let (h4, e4, x4) = release_all-give_all (Resource.device_class ∷ []) h3 x3 refl in
    let (h5, e5, x5) = release_all-give_all (Resource.chrdev_region ∷ []) h4 x4 refl in
    let (h6, e6, x6) = caches_down s h5 e x5 in
    let f4 : release Resource.device_class h3 ≡ some h4 =
      release_one Resource.device_class h3 ∙ e4 in
    let f5 : release Resource.chrdev_region h4 ≡ some h5 =
      release_one Resource.chrdev_region h4 ∙ e5 in
    (h6, rw (e1, e2, e3, f4, f5) e6, x6)
