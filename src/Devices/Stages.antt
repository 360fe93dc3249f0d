-- ===== src/Devices/Stages.antt =====
-- How the stages of the setup in dev.c, ctrl_dev.c, ign_dev.c and group_dev.c end.
use dazukofs_linux.Base.{
  ℕ, zero, suc, ◌+◌, ◌≡◌, refl, ap, ◌⊎◌, inl, inr, Option, none, some, List, [], ◌∷◌, ◌++◌,
  Option-cases,
}
use dazukofs_linux.Events.State.{Errno, ◌>>=◌, >>=-eq-some}
use dazukofs_linux.Devices.{
  Resource, Held, Kernel, Result, give, release, release_all, obtain, acquire, refused, or_undo,
  done, cache_kernel, dazukofs_init_events, dazukofs_ctrl_dev_init, dazukofs_ign_dev_init, range,
  add_cdevs, create_devices, dazukofs_group_dev_init,
}

-- How a stage ends: with all of `full` held, or with an error and all of `base`.
abbrev pub Ends : (base full : List Resource) → Result → Type 0
Ends base full x =
    ((h : Held) × (x ≡ some (none, h)) × (h.resources ≡ full))
    ⊎ ((e : Errno) × (h : Held) × (x ≡ some (some e, h)) × (h.resources ≡ base))

-- The resources that a release leaves.
abbrev pub give_all : List Resource → List Resource → Option (List Resource)
give_all [] xs = some xs
give_all (r ∷ rs) xs = give r xs >>= give_all rs

pub release_all-give_all :
    (rs : List Resource) (h : Held) {xs base : List Resource}
    → h.resources ≡ xs
    → give_all rs xs ≡ some base
    → (h' : Held) × (release_all rs h ≡ some h') × (h'.resources ≡ base)
unfolding release_all release
release_all-give_all [] h e g = (h, refl, cc)
release_all-give_all (r ∷ rs) h {xs} e g =
    let (ys, first, rest) = >>=-eq-some (give r xs) (give_all rs) g in
    let (h', eq, left) = release_all-give_all rs (record h { resources = ys }) refl rest in
    (h', rw (e, first) eq, left)

pub obtain-Ends :
    (k : Kernel) (r : Resource) (undo : List Resource) (more : Held → Result) (h : Held)
    {xs base full : List Resource}
    → h.resources ≡ xs
    → give_all undo xs ≡ some base
    → ((h' : Held) → h'.resources ≡ r ∷ xs → Ends base full (more h'))
    → Ends base full (obtain k r undo more h)
unfolding obtain
obtain-Ends k r undo more h e g f = elim (Option-cases (k h.calls)) [
  | inl n ↦ rw (obtain, n) (f (acquire r h) (ap (λ ys. r ∷ ys) e))
  | inr (x, n) ↦
      let (h', eq, left) = release_all-give_all undo (refused h) e g in
      rw (obtain, n, eq) (inr (x, h', refl, left))
]

-- A stage behind another, with what its failure undoes.
pub or_undo-Ends :
    (x : Result) (undo : Held → Option Held) (more : Held → Result)
    {base mid bottom full : List Resource}
    → Ends base mid x
    → ((h : Held) → h.resources ≡ mid → Ends bottom full (more h))
    → ((h : Held) → h.resources ≡ base → (h' : Held) × (undo h ≡ some h') × (h'.resources ≡ bottom))
    → Ends bottom full (or_undo x undo more)
or_undo-Ends x undo more (inl (h, e, left)) f u = rw e (f h left)
or_undo-Ends x undo more (inr (y, h, e, left)) f u =
    let (h', eq, l) = u h left in rw (e, eq) (inr (y, h', refl, l))

pub done-Ends : (h : Held) {xs base : List Resource} → h.resources ≡ xs → Ends base xs (done h)
done-Ends h e = inl (h, refl, e)

abbrev pub event_caches : List Resource
event_caches = Resource.event_cache ∷ Resource.container_cache ∷ Resource.group_cache ∷ []

pub dazukofs_init_events-Ends :
    (k : Kernel) (h : Held) → h.resources ≡ [] → Ends [] event_caches (dazukofs_init_events k h)
unfolding dazukofs_init_events give
dazukofs_init_events-Ends k h e =
    obtain-Ends (cache_kernel k) Resource.group_cache [] _ h e refl (λ h e.
      obtain-Ends (cache_kernel k) Resource.container_cache (Resource.group_cache ∷ []) _ h e refl
        (λ h e.
          obtain-Ends (cache_kernel k) Resource.event_cache
            (Resource.group_cache ∷ Resource.container_cache ∷ []) _ h e refl
            (λ h e. done-Ends h e)))

abbrev pub ctrl_held : List Resource → List Resource
ctrl_held xs = Resource.device 0 ∷ Resource.cdev 0 ∷ xs

pub dazukofs_ctrl_dev_init-Ends :
    (k : Kernel) (h : Held) (xs : List Resource)
    → h.resources ≡ xs
    → Ends xs (ctrl_held xs) (dazukofs_ctrl_dev_init k 0 h)
unfolding dazukofs_ctrl_dev_init give
dazukofs_ctrl_dev_init-Ends k h xs e = obtain-Ends k (Resource.cdev 0) [] _ h e refl (λ h e.
    obtain-Ends k (Resource.device 0) (Resource.cdev 0 ∷ []) _ h e refl (λ h e. done-Ends h e))

abbrev pub ign_held : List Resource → List Resource
ign_held xs = Resource.device 1 ∷ Resource.cdev 1 ∷ Resource.ign_cache ∷ xs

pub dazukofs_ign_dev_init-Ends :
    (k : Kernel) (h : Held) (xs : List Resource)
    → h.resources ≡ xs
    → Ends xs (ign_held xs) (dazukofs_ign_dev_init k 1 h)
unfolding dazukofs_ign_dev_init give
dazukofs_ign_dev_init-Ends k h xs e =
    obtain-Ends (cache_kernel k) Resource.ign_cache [] _ h e refl (λ h e.
      obtain-Ends k (Resource.cdev 1) (Resource.ign_cache ∷ []) _ h e refl (λ h e.
        obtain-Ends k (Resource.device 1) (Resource.cdev 1 ∷ Resource.ign_cache ∷ []) _ h e refl
          (λ h e. done-Ends h e)))

-- `count` resources from `minor` on, newest first.
abbrev pub down : (ℕ → Resource) → (minor count : ℕ) → List Resource → List Resource
down r minor zero xs = xs
down r minor (suc n) xs = r (minor + n) ∷ down r minor n xs

abbrev pub group_held : List Resource → List Resource
group_held xs = down Resource.device 2 10 (down Resource.cdev 2 10 xs)

pub dazukofs_group_dev_init-Ends :
    (k : Kernel) (h : Held) (xs : List Resource)
    → h.resources ≡ xs
    → Ends xs (group_held xs) (dazukofs_group_dev_init k 2 h)
unfolding dazukofs_group_dev_init add_cdevs create_devices range give
dazukofs_group_dev_init-Ends k h xs e =
    obtain-Ends k (Resource.cdev 2) (range Resource.cdev 2 0) _ h e refl (λ h e.
      obtain-Ends k (Resource.cdev 3) (range Resource.cdev 2 1) _ h e refl (λ h e.
        obtain-Ends k (Resource.cdev 4) (range Resource.cdev 2 2) _ h e refl (λ h e.
          obtain-Ends k (Resource.cdev 5) (range Resource.cdev 2 3) _ h e refl (λ h e.
            obtain-Ends k (Resource.cdev 6) (range Resource.cdev 2 4) _ h e refl (λ h e.
              obtain-Ends k (Resource.cdev 7) (range Resource.cdev 2 5) _ h e refl (λ h e.
                obtain-Ends k (Resource.cdev 8) (range Resource.cdev 2 6) _ h e refl (λ h e.
                  obtain-Ends k (Resource.cdev 9) (range Resource.cdev 2 7) _ h e refl (λ h e.
                    obtain-Ends k (Resource.cdev 10) (range Resource.cdev 2 8) _ h e refl (λ h e.
                      obtain-Ends k (Resource.cdev 11) (range Resource.cdev 2 9) _ h e refl (λ h e.
                        obtain-Ends k (Resource.device 2)
                          (range Resource.device 2 0 ++ range Resource.cdev 2 10) _ h e refl
                          (λ h e.
                            obtain-Ends k (Resource.device 3)
                              (range Resource.device 2 1 ++ range Resource.cdev 2 10) _ h e refl
                              (λ h e.
                                obtain-Ends k (Resource.device 4)
                                  (range Resource.device 2 2 ++ range Resource.cdev 2 10) _ h e refl
                                  (λ h e.
                                    obtain-Ends k (Resource.device 5)
                                      (range Resource.device 2 3 ++ range Resource.cdev 2 10) _ h e
                                      refl
                                      (λ h e.
                                        obtain-Ends k (Resource.device 6)
                                          (range Resource.device 2 4 ++ range Resource.cdev 2 10) _
                                          h e refl
                                          (λ h e.
                                            obtain-Ends k (Resource.device 7)
                                              (range Resource.device 2 5
                                                ++ range Resource.cdev 2 10)
                                              _ h e refl
                                              (λ h e.
                                                obtain-Ends k (Resource.device 8)
                                                  (range Resource.device 2 6
                                                    ++ range Resource.cdev 2 10)
                                                  _ h e refl
                                                  (λ h e.
                                                    obtain-Ends k (Resource.device 9)
                                                      (range Resource.device 2 7
                                                        ++ range Resource.cdev 2 10)
                                                      _ h e refl
                                                      (λ h e.
                                                        obtain-Ends k (Resource.device 10)
                                                          (range Resource.device 2 8
                                                            ++ range Resource.cdev 2 10)
                                                          _ h e refl
                                                          (λ h e.
                                                            obtain-Ends k (Resource.device 11)
                                                            (range Resource.device 2 9
                                                            ++ range Resource.cdev 2 10)
                                                            _ h e refl
                                                            (λ h e.
                                                            done-Ends h e))))))))))))))))))))

abbrev pub all_held : List Resource
all_held =
    group_held
      (ign_held (ctrl_held (Resource.device_class ∷ Resource.chrdev_region ∷ event_caches)))
