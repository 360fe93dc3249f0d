-- ===== src/Events/Deliver.antt =====
-- open_file, dazukofs_poll and dazukofs_get_event of event.c.
use dazukofs_linux.Base.{ℕ, Bool, Option, none, some, List, [], ◌∷◌, ◌==◌, if◌then◌else◌}
use dazukofs_linux.Events.State.{
  Errno, einval, Ret, ok, err, Container, Group, dget, mntget, poll_wait, put_unused_fd, fd_install,
  State, ◌>>=◌, emit, emit_all, find_address, modify,
}
use dazukofs_linux.Events.Access.{check_recursion, mask_proc}
use dazukofs_linux.Events.Serve.{
  find_active, hold, let_group_go, find_container, unclaim_event, claim_event, is_event_available,
}

-- What the kernel does for the thread that opens a file: its answers, and the open itself, which
-- may come back into this file system. `proc` is the address of the structure on the thread's
-- stack.
pub record Files : Type 0 where
  pub proc : ℕ
  pub unused_fd : Ret
  pub dentry_open : (dentry mnt : ℕ) → State → Option (Ret × State)
  pub pid_vnr : ℕ → ℕ

-- A container of a group, read through a pointer: a freed one is on neither list.
unfoldable pub read_container : ℕ → Group → Option Container
read_container a g = elim (find_container a g.working_list) [
  | none ↦ find_container a g.todo_list
  | some c ↦ some c
]

abbrev pub write_containers : ℕ → (Container → Container) → List Container → List Container
write_containers a f [] = []
write_containers a f (c ∷ cs) = if c.address == a then f c ∷ cs else c ∷ write_containers a f cs

abbrev pub write_in : ℕ → (Container → Container) → Group → Group
write_in a f g = record g {
  working_list = write_containers a f g.working_list;
  todo_list = write_containers a f g.todo_list;
}

unfoldable pub load_container : ℕ → ℕ → State → Option Container
load_container grp ec s = do g ← find_address grp s.group_list; read_container ec g

unfoldable pub store_container : ℕ → ℕ → (Container → Container) → State → Option State
store_container grp ec f s = do c ← load_container grp ec s; some (modify grp (write_in ec f) s)

-- If the open did not take the thread off the list of masked processes, it does so itself.
unfoldable pub unmask_self : ℕ → ℕ → State → State
unmask_self proc pid s = if s.within_list proc then (check_recursion pid s).1 else s

unfoldable pub install : Ret → Ret → State → Ret × State
install fd (err e) s = (err e, emit (put_unused_fd fd) s)
install fd (ok file) s = (ok 0, emit (fd_install fd (ok file)) s)

-- The masked part of `open_file`.
unfoldable pub open_masked : Files → ℕ → ℕ → ℕ → ℕ → State → Option (Ret × State)
open_masked k grp ec pid evt s = do
  e ← s.events evt
  (file, s) ←
      k.dentry_open e.dentry e.mnt
        (emit_all (mntget e.mnt ∷ dget e.dentry ∷ []) (mask_proc k.proc pid s))
  s ← store_container grp ec (λ c. record c { file = file }) s
  some (install k.unused_fd file (unmask_self k.proc pid s))

abbrev pub open_with : Ret → Option (Ret × State) → State → Option (Ret × State)
open_with (err e) rest s = some (err e, s)
open_with (ok n) rest s = rest

unfoldable pub open_file : Files → ℕ → ℕ → ℕ → State → Option (Ret × State)
open_file k grp ec pid s = do
  c ← load_container grp ec s
  s ← store_container grp ec (λ c. record c { fd = k.unused_fd }) s
  open_with k.unused_fd (open_masked k grp ec pid c.event s) s

-- The result of a poll: an error, or whether there is something to read.
pub data Poll : Type 0 where
  pollerr : Poll
  readable : Bool → Poll

unfoldable pub poll_group : Option Group → State → Option (Poll × State)
poll_group none s = some (pollerr, s)
poll_group (some g) s = do
  let s = emit (poll_wait g.address) (modify g.address hold s)
  available ← is_event_available g.address s
  s ← let_group_go g.address s
  some (readable available, s)

unfoldable pub dazukofs_poll : ℕ → State → Option (Poll × State)
dazukofs_poll gid s = poll_group (find_active gid s.group_list) s

-- How the freezable wait for an event ends.
pub data Wakeup : Type 0 where
  interrupted : Errno → Wakeup
  woken : Wakeup

-- What `dazukofs_get_event` comes to: still waiting, an error, or an event with its id, the opened
-- descriptor and the accessing process.
pub data Delivery : Type 0 where
  blocked : Delivery
  failed : Errno → Delivery
  delivers : (event_id : ℕ) → Ret → (pid : ℕ) → Delivery

unfoldable pub hand_out : Files → ℕ → ℕ → Ret × State → Option (Delivery × State)
hand_out k grp ec (ok n, s) = do
  c ← load_container grp ec s
  e ← s.events c.event
  some (delivers e.event_id c.fd (k.pid_vnr e.proc_id), s)
hand_out k grp ec (err e, s) = do s ← unclaim_event grp ec s; some (failed e, s)

-- One round of the loop after a wake-up, with the rounds that follow it.
unfoldable pub claim_and_open :
    (State → Option (Delivery × State))
    → Files
    → ℕ
    → ℕ
    → Option Container × State
    → Option (Delivery × State)
claim_and_open more k grp pid (none, s) = more s
claim_and_open more k grp pid (some c, s) = do
  r ← open_file k grp c.address pid s
  hand_out k grp c.address r

unfoldable pub after_wait :
    (State → Option (Delivery × State)) → Files → ℕ → ℕ → State → Option (Delivery × State)
after_wait more k grp pid s = do
  g ← find_address grp s.group_list
  let claimed = (do r ← claim_event grp s; claim_and_open more k grp pid r)
  if g.deprecated then some (failed einval, s) else claimed

-- The loop over the wake-ups that the thread gets; `blocked` when it waits for one more.
unfoldable pub get_event_loop : List Wakeup → Files → ℕ → ℕ → State → Option (Delivery × State)
get_event_loop [] k grp pid s = some (blocked, s)
get_event_loop (interrupted e ∷ ws) k grp pid s = some (failed e, s)
get_event_loop (woken ∷ ws) k grp pid s = after_wait (get_event_loop ws k grp pid) k grp pid s

-- A thread that still waits keeps its use of the group.
unfoldable pub let_go : ℕ → Delivery × State → Option (Delivery × State)
let_go grp (blocked, s) = some (blocked, s)
let_go grp (failed e, s) = do s ← let_group_go grp s; some (failed e, s)
let_go grp (delivers id fd pid, s) = do s ← let_group_go grp s; some (delivers id fd pid, s)

unfoldable pub get_event_from :
    Option Group → List Wakeup → Files → ℕ → State → Option (Delivery × State)
get_event_from none ws k pid s = some (failed einval, s)
get_event_from (some g) ws k pid s = do
  r ← get_event_loop ws k g.address pid (modify g.address hold s)
  let_go g.address r

unfoldable pub dazukofs_get_event : ℕ → List Wakeup → Files → ℕ → State → Option (Delivery × State)
dazukofs_get_event gid ws k pid s = get_event_from (find_active gid s.group_list) ws k pid s
