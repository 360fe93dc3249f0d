-- ===== src/Events/State.antt =====
-- The structures and static variables of event.c, and the fault monad of its functions. A pointer
-- is an address. `events` is the heap of events: a freed address holds `none`. A container is live
-- exactly while it stands on a list of a group or in the array of a running
-- `dazukofs_check_access`. Reference counts of the kernel, wake-ups, allocations and frees are
-- recorded in `trace`, newest first.
use dazukofs_linux.Base.{
  ℕ, ◌≡◌, refl, Bool, Option, none, some, List, [], ◌∷◌, ◌++◌, ◌==◌, if◌then◌else◌,
}

pub data Errno : Type 0 where
  eperm eintr eio enomem efault einval enfile erestartsys : Errno
  estale exdev eacces enoent eopnotsupp enodev enotty enoioctlcmd enosys : Errno
  other : ℕ → Errno

-- An `int` result: a count or handle, or a negated error number.
pub data Ret : Type 0 where
  ok : ℕ → Ret
  err : Errno → Ret

pub data Response : Type 0 where
  allow deny repost : Response

pub record Proc : Type 0 where
  pub address : ℕ
  pub proc_id : ℕ

pub record Event : Type 0 where
  pub event_id : ℕ
  pub dentry : ℕ
  pub mnt : ℕ
  pub proc_id : ℕ
  pub deny : Bool
  pub deprecated : Bool
  pub assigned : ℕ

pub record Container : Type 0 where
  pub address : ℕ
  pub event : ℕ
  pub file : Ret
  pub fd : Ret

pub record Group : Type 0 where
  pub address : ℕ
  pub name : List ℕ
  pub name_length : ℕ
  pub group_id : ℕ
  pub todo_list : List Container
  pub working_list : List Container
  pub use_count : ℕ
  pub tracking : Bool
  pub track_count : ℕ
  pub deprecated : Bool

pub data Effect : Type 0 where
  get_pid put_pid dget dput mntget mntput : ℕ → Effect
  wake_event wake_group wake_poll wake_group_all wake_poll_all poll_wait : ℕ → Effect
  alloc_event free_event alloc_container free_container free_group : ℕ → Effect
  put_unused_fd : Ret → Effect
  fd_install : Ret → Ret → Effect

pub record State : Type 0 where
  pub group_list : List Group
  pub group_count : ℕ
  pub last_event_id : ℕ
  pub proc_list : List Proc
  pub within_list : ℕ → Bool
  pub events : ℕ → Option Event
  pub trace : List Effect

abbrev pub max_groups : ℕ
max_groups = 10

-- `none` is a fault: a read or write through a pointer to freed memory.
infixl 5 ◌>>=◌
abbrev pub ◌>>=◌ {ℓ κ} : {A : Type ℓ} {B : Type κ} → Option A → (A → Option B) → Option B
none >>= f = none
some a >>= f = f a

pub >>=-eq-some {ℓ κ} :
    {A : Type ℓ} {B : Type κ} (m : Option A) (f : A → Option B) {b : B}
    → (m >>= f) ≡ some b
    → (a : A) × (m ≡ some a) × (f a ≡ some b)
>>=-eq-some none f h = cc
>>=-eq-some (some a) f h = (a, refl, h)

unfoldable pub emit : Effect → State → State
emit x s = record s { trace = x ∷ s.trace }

unfoldable pub emit_all : List Effect → State → State
emit_all xs s = record s { trace = xs ++ s.trace }

abbrev pub update {ℓ} : {A : Type ℓ} → (ℕ → A) → ℕ → A → ℕ → A
update f p v q = if p == q then v else f q

unfoldable pub put_event : ℕ → Option Event → State → State
put_event a e s = record s { events = update s.events a e }

-- The group at an address; `none` when it has been freed.
unfoldable pub find_address : ℕ → List Group → Option Group
find_address a [] = none
find_address a (g ∷ gs) = if g.address == a then some g else find_address a gs

-- A write through a pointer to a group.
unfoldable pub modify_group : ℕ → (Group → Group) → List Group → List Group
modify_group a f [] = []
modify_group a f (g ∷ gs) = if g.address == a then f g ∷ gs else g ∷ modify_group a f gs

unfoldable pub modify : ℕ → (Group → Group) → State → State
unfolding modify_group
modify a f s = record s { group_list = modify_group a f s.group_list }
