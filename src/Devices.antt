-- ===== src/Devices.antt =====
-- Setting up and taking down the devices and caches: dazukofs_init_events and
-- dazukofs_destroy_events of event.c, and dev.c with what it calls in ctrl_dev.c, ign_dev.c and
-- group_dev.c. The kernel's answers are a function of how many calls have been answered.
use dazukofs_linux.Base.{
  ℕ, zero, suc, ◌+◌, Bool, true, false, Option, none, some, List, [], ◌∷◌, ◌++◌, ◌==◌,
  if◌then◌else◌,
}
use dazukofs_linux.Events.State.{Errno, enomem, Group, free_group, State, ◌>>=◌, emit}
use dazukofs_linux.Events.Release.{remove_group}
pub mod Loading
pub mod Stages
pub mod Proofs
pub mod Unloading
mod Examples

-- What is held of the kernel; a device and its `cdev` are named by their minor number.
pub data Resource : Type 0 where
  group_cache container_cache event_cache ign_cache chrdev_region device_class : Resource
  inode_info_cache sb_info_cache dentry_info_cache file_info_cache filesystem : Resource
  cdev device : ℕ → Resource

-- The resources held, newest first, and the calls of the kernel so far.
pub record Held : Type 0 where
  pub resources : List Resource
  pub calls : ℕ

-- What a call of the kernel answers: none for success.
abbrev pub Kernel : Type 0
Kernel = ℕ → Option Errno

abbrev pub acquire : Resource → Held → Held
acquire r h = record { resources = r ∷ h.resources; calls = h.calls + 1 }

abbrev pub refused : Held → Held
refused h = record h { calls = h.calls + 1 }

abbrev pub same : Resource → Resource → Bool
same Resource.group_cache Resource.group_cache = true
same Resource.container_cache Resource.container_cache = true
same Resource.event_cache Resource.event_cache = true
same Resource.ign_cache Resource.ign_cache = true
same Resource.chrdev_region Resource.chrdev_region = true
same Resource.device_class Resource.device_class = true
same Resource.inode_info_cache Resource.inode_info_cache = true
same Resource.sb_info_cache Resource.sb_info_cache = true
same Resource.dentry_info_cache Resource.dentry_info_cache = true
same Resource.file_info_cache Resource.file_info_cache = true
same Resource.filesystem Resource.filesystem = true
same (Resource.cdev m) (Resource.cdev n) = m == n
same (Resource.device m) (Resource.device n) = m == n
same _ _ = false

-- A resource given back, wherever it stands; one that is not held is a fault.
unfoldable pub give : Resource → List Resource → Option (List Resource)
give r [] = none
give r (x ∷ xs) =
    let rest = (do ys ← give r xs; some (x ∷ ys)) in if same r x then some xs else rest

unfoldable pub release : Resource → Held → Option Held
release r h = do xs ← give r h.resources; some (record h { resources = xs })

unfoldable pub release_all : List Resource → Held → Option Held
release_all [] h = some h
release_all (r ∷ rs) h = do h ← release r h; release_all rs h

-- A stage of the setup: `none` for success, or the error.
abbrev pub Result : Type 0
Result = Option (Option Errno × Held)

-- One call of the kernel; on success the stages behind it, on failure what has to be undone.
unfoldable pub obtain : Kernel → Resource → List Resource → (Held → Result) → Held → Result
obtain k r undo more h = elim (k h.calls) [
  | none ↦ more (acquire r h)
  | some e ↦ do h ← release_all undo (refused h); some (some e, h)
]

-- A cache that is not created is a lack of memory.
abbrev pub cache_kernel : Kernel → Kernel
cache_kernel k n = elim (k n) [ none ↦ none | some e ↦ some Errno.enomem ]

abbrev pub done : Held → Result
done h = some (none, h)

unfoldable pub dazukofs_init_events : Kernel → Held → Result
dazukofs_init_events k = obtain (cache_kernel k) Resource.group_cache [] (
    obtain (cache_kernel k) Resource.container_cache (Resource.group_cache ∷ []) (
      obtain (cache_kernel k) Resource.event_cache
        (Resource.group_cache ∷ Resource.container_cache ∷ []) done))

-- Each group is taken off the list, then removed, then freed.
unfoldable pub destroy_groups : List Group → State → Option State
destroy_groups [] s = some s
destroy_groups (g ∷ gs) s = do
  s ← remove_group g (record s { group_list = gs })
  destroy_groups gs (emit (free_group g.address) s)

unfoldable pub dazukofs_destroy_events : Held → State → Option (Held × State)
dazukofs_destroy_events h s = do
  s ← destroy_groups s.group_list s
  h ← release_all (Resource.group_cache ∷ Resource.container_cache ∷ Resource.event_cache ∷ []) h
  some (h, s)

unfoldable pub dazukofs_ctrl_dev_init : Kernel → ℕ → Held → Result
dazukofs_ctrl_dev_init k minor =
    obtain k (Resource.cdev minor) []
      (obtain k (Resource.device minor) (Resource.cdev minor ∷ []) done)

unfoldable pub dazukofs_ctrl_dev_destroy : ℕ → Held → Option Held
dazukofs_ctrl_dev_destroy minor = release_all (Resource.device minor ∷ Resource.cdev minor ∷ [])

unfoldable pub dazukofs_ign_dev_init : Kernel → ℕ → Held → Result
dazukofs_ign_dev_init k minor = obtain (cache_kernel k) Resource.ign_cache [] (
    obtain k (Resource.cdev minor) (Resource.ign_cache ∷ [])
      (obtain k (Resource.device minor) (Resource.cdev minor ∷ Resource.ign_cache ∷ []) done))

unfoldable pub dazukofs_ign_dev_destroy : ℕ → Held → Option Held
dazukofs_ign_dev_destroy minor =
    release_all (Resource.device minor ∷ Resource.cdev minor ∷ Resource.ign_cache ∷ [])

-- The resources of `count` minor numbers from `minor` on.
unfoldable pub range : (ℕ → Resource) → (minor count : ℕ) → List Resource
range r minor zero = []
range r minor (suc n) = r minor ∷ range r (minor + 1) n

-- The first loop, with `added` behind it and `n` still to do.
unfoldable pub add_cdevs : Kernel → ℕ → ℕ → ℕ → (Held → Result) → Held → Result
add_cdevs k minor added zero more = more
add_cdevs k minor added (suc n) more =
    obtain k (Resource.cdev (minor + added)) (range Resource.cdev minor added)
      (add_cdevs k minor (added + 1) n more)

unfoldable pub create_devices : Kernel → ℕ → ℕ → ℕ → (Held → Result) → Held → Result
create_devices k minor created zero more = more
create_devices k minor created (suc n) more =
    obtain k (Resource.device (minor + created))
      (range Resource.device minor created ++ range Resource.cdev minor 10)
      (create_devices k minor (created + 1) n more)

-- `GROUP_COUNT` is ten.
unfoldable pub dazukofs_group_dev_init : Kernel → ℕ → Held → Result
dazukofs_group_dev_init k minor = add_cdevs k minor 0 10 (create_devices k minor 0 10 done)

unfoldable pub dazukofs_group_dev_destroy : ℕ → Held → Option Held
dazukofs_group_dev_destroy minor =
    release_all (range Resource.device minor 10 ++ range Resource.cdev minor 10)

-- After a failure what was set up before is taken down, and the error is passed on.
abbrev pub or_undo : Result → (Held → Option Held) → (Held → Result) → Result
or_undo none undo more = none
or_undo (some (none, h)) undo more = more h
or_undo (some (some e, h)) undo more = do h ← undo h; some (some e, h)

-- A label of the unwinding, with the labels behind it.
abbrev pub behind : (Held → Option Held) → (Held → Option Held) → Held → Option Held
behind f g h = do h ← f h; g h

abbrev pub undo_events : State → Held → Option Held
undo_events s h = do r ← dazukofs_destroy_events h s; some r.0

abbrev pub undo_region : State → Held → Option Held
undo_region s = behind (release Resource.chrdev_region) (undo_events s)

abbrev pub undo_class : State → Held → Option Held
undo_class s = behind (release Resource.device_class) (undo_region s)

abbrev pub undo_ctrl : State → ℕ → Held → Option Held
undo_ctrl s minor = behind (dazukofs_ctrl_dev_destroy minor) (undo_class s)

abbrev pub undo_ign : State → ℕ → Held → Option Held
undo_ign s minor = behind (dazukofs_ign_dev_destroy (minor + 1)) (undo_ctrl s minor)

-- `minor` is `dev_minor_start`, and `s` the state of event.c, which the setup finds without groups.
unfoldable pub dazukofs_dev_init : Kernel → ℕ → State → Held → Result
dazukofs_dev_init k minor s h = or_undo (dazukofs_init_events k h) some (λ h.
    or_undo (obtain k Resource.chrdev_region [] done h) (undo_events s) (λ h.
      or_undo (obtain k Resource.device_class [] done h) (undo_region s) (λ h.
        or_undo (dazukofs_ctrl_dev_init k minor h) (undo_class s) (λ h.
          or_undo (dazukofs_ign_dev_init k (minor + 1) h) (undo_ctrl s minor)
            (λ h. or_undo (dazukofs_group_dev_init k (minor + 2) h) (undo_ign s minor) done)))))

unfoldable pub dazukofs_dev_destroy : ℕ → State → Held → Option (Held × State)
dazukofs_dev_destroy minor s h = do
  h ← dazukofs_group_dev_destroy (minor + 2) h
  h ← dazukofs_ign_dev_destroy (minor + 1) h
  h ← dazukofs_ctrl_dev_destroy minor h
  h ← release Resource.device_class h
  h ← release Resource.chrdev_region h
  dazukofs_destroy_events h s
