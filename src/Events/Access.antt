-- ===== src/Events/Access.antt =====
-- The side of the process that accesses a file: check_recursion, mask_proc, check_access_precheck,
-- allocate_event_and_containers, assign_event_to_groups and dazukofs_check_access of event.c.
use mathlib.Core.List.{reverse}
use dazukofs_linux.Base.{
  ℕ, zero, suc, Bool, true, false, not, Option, none, some, List, [], ◌∷◌, ◌++◌, map, ◌⊎◌, inl, inr,
  ◌==◌, if◌then◌else◌, inc32, sign_extend,
}
use dazukofs_linux.Events.State.{
  Ret, ok, err, enomem, eperm, Proc, Event, Container, Group, Effect, get_pid, put_pid, dget,
  mntget, wake_group, wake_poll, alloc_event, alloc_container, free_event, free_container, State,
  ◌>>=◌, emit, emit_all, put_event, update,
}
use dazukofs_linux.Events.Release.{release_event}

abbrev pub find_proc : ℕ → List Proc → Option Proc
find_proc pid [] = none
find_proc pid (p ∷ ps) = if p.proc_id == pid then some p else find_proc pid ps

-- `list_del` of the first entry for a process.
abbrev pub delete_proc : ℕ → List Proc → List Proc
delete_proc pid [] = []
delete_proc pid (p ∷ ps) = if p.proc_id == pid then ps else p ∷ delete_proc pid ps

unfoldable pub unmask : Option Proc → ℕ → State → Bool × State
unfolding emit_all
unmask none pid s = (true, emit_all (put_pid pid ∷ get_pid pid ∷ []) s)
unmask (some p) pid s = (
  false,
  emit_all (put_pid pid ∷ put_pid p.proc_id ∷ get_pid pid ∷ []) (record s {
    proc_list = delete_proc pid s.proc_list;
    within_list = update s.within_list p.address false;
  }),
)

-- True is the non-zero result: no recursion.
unfoldable pub check_recursion : ℕ → State → Bool × State
unfolding unmask
check_recursion pid s = unmask (find_proc pid s.proc_list) pid s

-- `proc` is the address of the caller's structure on its stack.
unfoldable pub mask_proc : ℕ → ℕ → State → State
unfolding emit
mask_proc proc pid s = emit (get_pid pid) (record s {
  proc_list = record { address = proc; proc_id = pid } ∷ s.proc_list;
  within_list = update s.within_list proc true;
})

-- True is the result 0: an event should be generated. `ignored` is the ignore device's answer, its
-- `dazukofs_check_ignore_process` being zero.
unfoldable pub check_access_precheck : ℕ → ℕ → Bool → State → Bool × State
unfolding check_recursion
check_access_precheck grp_count pid ignored s =
    if grp_count == 0
    then (false, s)
    else let (plain, s') = check_recursion pid s in (if plain then not ignored else false, s')

abbrev pub add_container : ℕ → List ℕ ⊎ List ℕ → List ℕ ⊎ List ℕ
add_container c (inl cs) = inl (cs ++ c ∷ [])
add_container c (inr cs) = inr (c ∷ cs)

-- The loop over the containers from index `i`; `mem i` is the answer of the allocation. `inl` holds
-- the containers to free, the last first; `inr` the array.
unfoldable pub alloc_containers : (ℕ → Option ℕ) → ℕ → ℕ → List ℕ ⊎ List ℕ
alloc_containers mem i zero = inr []
alloc_containers mem i (suc left) = elim (mem i) [
  | none ↦ inl []
  | some c ↦ add_container c (alloc_containers mem (suc i) left)
]

abbrev pub zeroed : Event
zeroed = record {
  event_id = 0;
  dentry = 0;
  mnt = 0;
  proc_id = 0;
  deny = false;
  deprecated = false;
  assigned = 0;
}

unfoldable pub alloc_result : ℕ → State → List ℕ ⊎ List ℕ → Option (ℕ × List ℕ) × State
unfolding emit_all put_event
alloc_result a s (inl cs) = (
  none,
  emit_all
      (free_event a ∷ map free_container (reverse cs)
        ++ map alloc_container cs
        ++ alloc_event a ∷ [])
      s,
)
alloc_result a s (inr cs) = (
  some (a, cs),
  emit_all (map alloc_container (reverse cs) ++ alloc_event a ∷ []) (put_event a (some zeroed) s),
)

-- The event's address with the array, or nothing for -1.
unfoldable pub allocate_event_and_containers :
    Option ℕ → (ℕ → Option ℕ) → ℕ → State → Option (ℕ × List ℕ) × State
unfolding alloc_result
allocate_event_and_containers none mem grp_count s = (none, s)
allocate_event_and_containers (some a) mem grp_count s =
    alloc_result a s (alloc_containers mem 0 grp_count)

pub record Posting : Type 0 where
  pub groups : List Group
  pub event : Event
  pub unused : List ℕ
  pub woken : List Effect

abbrev pub queued : ℕ → ℕ → Container
queued c a = record { address = c; event = a; file = ok 0; fd = ok 0 }

abbrev pub post_to : ℕ → ℕ → Group → Posting → Posting
post_to a c g p = record p {
  groups = record g { todo_list = g.todo_list ++ queued c a ∷ [] } ∷ p.groups;
  woken = p.woken ++ wake_poll g.address ∷ wake_group g.address ∷ [];
}

-- One round of the loop, at a group that is not deprecated: `ec_array[i]` goes to its todo list. An
-- array that is too short is read beyond its end.
unfoldable pub post_group :
    (Event → List ℕ → Option Posting) → ℕ → Event → Group → List ℕ → Option Posting
unfolding inc32
post_group rest a e g [] = none
post_group rest a e g (c ∷ cs) = do
  p ← rest (record e { assigned = inc32 e.assigned }) cs
  some (post_to a c g p)

unfoldable pub post_groups : List Group → ℕ → Event → List ℕ → Option Posting
unfolding post_group
post_groups [] a e cs = some (record { groups = []; event = e; unused = cs; woken = [] })
post_groups (g ∷ gs) a e cs =
    let skipped = (do p ← post_groups gs a e cs; some (record p { groups = g ∷ p.groups })) in
    if g.deprecated then skipped else post_group (post_groups gs a) a e g cs

unfoldable pub assign_event_to_groups : ℕ → List ℕ → State → Option State
unfolding post_groups emit_all put_event inc32 sign_extend
assign_event_to_groups a cs s = do
  evt ← s.events a
  let id = inc32 s.last_event_id
  p ← post_groups s.group_list a (record evt { event_id = sign_extend id }) cs
  some (
      emit_all p.woken
        (put_event a (some p.event) (record s { group_list = p.groups; last_event_id = id })))

-- `dazukofs_check_access` up to its wait: it is done at once, or it waits on an event.
pub data Begun : Type 0 where
  done : Ret → Begun
  waits : ℕ → Begun

abbrev pub Kernel : Type 0
Kernel = Option ℕ × (ℕ → Option ℕ)

unfoldable pub post_event : ℕ → ℕ → ℕ → Option (ℕ × List ℕ) → State → Option (Begun × State)
unfolding put_event emit_all
post_event pid dentry mnt none s = some (done (err enomem), s)
post_event pid dentry mnt (some (a, cs)) s = do
  e ← s.events a
  s ← assign_event_to_groups a cs (
      emit_all (get_pid pid ∷ mntget mnt ∷ dget dentry ∷ [])
        (put_event a (some (record e { dentry = dentry; mnt = mnt; proc_id = pid })) s))
  some (waits a, s)

unfoldable pub begin_access : Kernel → ℕ → Bool → ℕ → ℕ → State → Option (Begun × State)
begin_access (evt_mem, ec_mem) pid ignored dentry mnt s =
    let (handle, s) = check_access_precheck s.group_count pid ignored s in
    let (got, s') = allocate_event_and_containers evt_mem ec_mem s.group_count s in
    if handle then post_event pid dentry mnt got s' else some (done (ok 0), s)

-- `dazukofs_check_access` after its wait: the verdict, and the anonymous release.
unfoldable pub finish_access : ℕ → State → Option (Ret × State)
finish_access a s = do
  e ← s.events a
  s' ← release_event a false false s
  some (if e.deny then err eperm else ok 0, s')
