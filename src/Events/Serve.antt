-- ===== src/Events/Serve.antt =====
-- The side of the registered processes: tracking, dazukofs_return_event, dazukofs_poll and
-- dazukofs_get_event of event.c with their helpers. A function that gives up `work_mutex` between
-- two critical sections is a composition of one definition for each.
use dazukofs_linux.Base.{
  ℕ, Bool, true, false, not, ◌&&◌, Option, none, some, List, [], ◌∷◌, ◌==◌, if◌then◌else◌, inc32,
  dec32,
}
use dazukofs_linux.Events.State.{
  Ret, ok, err, einval, Response, deny, repost, Container, Group, wake_group, wake_poll,
  free_container, State, ◌>>=◌, emit, emit_all, find_address, modify,
}
use dazukofs_linux.Events.Release.{release_event, remove_group}

-- The loop that six functions share: the first group that is not deprecated and has the id.
unfoldable pub find_active : ℕ → List Group → Option Group
find_active id [] = none
find_active id (g ∷ gs) = if not g.deprecated && g.group_id == id then some g else find_active id gs

abbrev pub hold : Group → Group
hold g = record g { use_count = inc32 g.use_count }

abbrev pub unhold : Group → Group
unhold g = record g { use_count = dec32 g.use_count }

abbrev pub open_track : Group → Group
open_track g = record g { use_count = inc32 g.use_count; track_count = inc32 g.track_count }

abbrev pub close_track : Group → Group
close_track g = record g { use_count = dec32 g.use_count; track_count = dec32 g.track_count }

unfoldable pub open_found : Option Group → State → Bool × State
unfolding modify inc32
open_found none s = (false, s)
open_found (some g) s = if g.tracking then (true, modify g.address open_track s) else (false, s)

-- True is the non-zero result: the process is tracked.
unfoldable pub dazukofs_group_open_tracking : ℕ → State → Bool × State
dazukofs_group_open_tracking id s = open_found (find_active id s.group_list) s

unfoldable pub release_found : Option Group → State → Option State
unfolding modify dec32
release_found none s = some s
release_found (some g) s =
    let s' = modify g.address close_track s in
    if g.tracking
    then (if dec32 g.track_count == 0 then remove_group (close_track g) s' else some s')
    else some s

unfoldable pub dazukofs_group_release_tracking : ℕ → State → Option State
dazukofs_group_release_tracking id s = release_found (find_active id s.group_list) s

-- The container at an address on a list of a group.
unfoldable pub find_container : ℕ → List Container → Option Container
find_container a [] = none
find_container a (c ∷ cs) = if c.address == a then some c else find_container a cs

unfoldable pub remove_container : ℕ → List Container → List Container
remove_container a [] = []
remove_container a (c ∷ cs) = if c.address == a then cs else c ∷ remove_container a cs

-- `list_del` of a container: it leaves the list it stands on, which is one of its group's.
unfoldable pub unlink : ℕ → Group → Option (Container × Group)
unfolding find_container remove_container
unlink a g = elim (find_container a g.working_list) [
  | some c ↦ some (c, record g { working_list = remove_container a g.working_list })
  | none ↦ elim (find_container a g.todo_list) [
    | some c ↦ some (c, record g { todo_list = remove_container a g.todo_list })
    | none ↦ none
  ]
]

abbrev pub set_lists : List Container → List Container → Group → Group
set_lists working todo g = record g { working_list = working; todo_list = todo }

-- It is given pointers: a group or a container that has been freed is a fault.
unfoldable pub unclaim_event : ℕ → ℕ → State → Option State
unfolding find_address modify emit_all
unclaim_event grp ec s = do
  g ← find_address grp s.group_list
  (c, g') ← unlink ec g
  some (
      emit_all (wake_poll grp ∷ wake_group grp ∷ [])
        (modify grp (set_lists g'.working_list (c ∷ g'.todo_list)) s))

abbrev pub skip_working :
    Container → Option (Container × List Container) → Option (Container × List Container)
skip_working c none = none
skip_working c (some (d, ds)) = some (d, c ∷ ds)

-- The scan of a working list for an event id, with the list as it is without what it finds. It
-- reads each event on the way.
unfoldable pub find_working :
    ℕ → List Container → State → Option (Option (Container × List Container))
find_working id [] s = some none
find_working id (c ∷ cs) s =
    let rest = (do r ← find_working id cs s; some (skip_working c r)) in
    (do e ← s.events c.event; if e.event_id == id then some (some (c, cs)) else rest)

abbrev pub set_working : List Container → Group → Group
set_working rest g = record g { working_list = rest }

abbrev pub is_repost : Response → Bool
is_repost repost = true
is_repost _ = false

abbrev pub is_deny : Response → Bool
is_deny deny = true
is_deny _ = false

-- What the first critical section of `dazukofs_return_event` leaves to be done.
pub data Lookup : Type 0 where
  no_group : Lookup
  no_event : ℕ → Lookup
  found : ℕ → Container → Lookup

unfoldable pub take_found :
    Group → Option (Container × List Container) → Response → State → Lookup × State
unfolding modify emit
take_found g none r s = (no_event g.address, s)
take_found g (some (c, rest)) r s = (
  found g.address c,
  if is_repost r
      then s
      else emit (free_container c.address) (modify g.address (set_working rest) s),
)

unfoldable pub take_event_from : Option Group → ℕ → Response → State → Option (Lookup × State)
unfolding take_found modify inc32
take_event_from none eid r s = some (no_group, s)
take_event_from (some g) eid r s = do
  c ← find_working eid g.working_list s
  some (take_found g c r (modify g.address hold s))

unfoldable pub take_event : ℕ → ℕ → Response → State → Option (Lookup × State)
take_event gid eid r s = take_event_from (find_active gid s.group_list) eid r s

-- `atomic_dec` of the use count through a pointer: at a group that has been freed it is a fault.
unfoldable pub let_group_go : ℕ → State → Option State
unfolding find_address modify dec32
let_group_go grp s = do g ← find_address grp s.group_list; some (modify grp unhold s)

-- After the first section: the event is put back or released, and the group let go.
unfoldable pub settle_event : Response → Lookup → State → Option (Ret × State)
unfolding let_group_go
settle_event r no_group s = some (err einval, s)
settle_event r (no_event grp) s = do s ← let_group_go grp s; some (err einval, s)
settle_event r (found grp c) s = do
  s' ←
      (if is_repost r
        then unclaim_event grp c.address s
        else release_event c.event true (is_deny r) s)
  s' ← let_group_go grp s'
  some (ok 0, s')

unfoldable pub dazukofs_return_event : ℕ → ℕ → Response → State → Option (Ret × State)
dazukofs_return_event gid eid r s = do (l, s') ← take_event gid eid r s; settle_event r l s'

-- The first entry of the todo list moves to the front of the working list.
unfoldable pub claim_first : ℕ → Group → List Container → State → Option Container × State
unfolding modify
claim_first grp g [] s = (none, s)
claim_first grp g (c ∷ cs) s = (some c, modify grp (set_lists (c ∷ g.working_list) cs) s)

unfoldable pub claim_event : ℕ → State → Option (Option Container × State)
unfolding find_address claim_first
claim_event grp s = do g ← find_address grp s.group_list; some (claim_first grp g g.todo_list s)

abbrev pub is_empty {ℓ} : {A : Type ℓ} → List A → Bool
is_empty [] = true
is_empty (x ∷ xs) = false

unfoldable pub is_event_available : ℕ → State → Option Bool
unfolding find_address
is_event_available grp s = do g ← find_address grp s.group_list; some (not (is_empty g.todo_list))
