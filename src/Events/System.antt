-- ===== src/Events/System.antt =====
-- All processes together: the critical sections of event.c as the steps of one system. `preparing`
-- holds the accesses between the allocation and the posting of their event, `waiting` the events
-- that an access waits for, `releasing` the answers between the two sections of
-- dazukofs_return_event. An access that prepares holds `group_count_sem` for reading, so that a
-- call that takes it for writing has `preparing ≡ []` as its guard. `adding` is the call of
-- dazukofs_add_group that is between its two sections, which holds the semaphore for writing.
use dazukofs_linux.Base.{
  ℕ, ◌<◌, ◌≡◌, Bool, false, Option, none, some, List, [], ◌∷◌, ◌++◌, count, erase, length, ◌+◌,
  if◌then◌else◌,
}
use dazukofs_linux.Events.State.{Ret, Response, Container, Group, State, modify}
use dazukofs_linux.Events.Release.{event_assigned}
use dazukofs_linux.Events.Groups.{Choice, choose_id, add_chosen, dazukofs_remove_group}
use dazukofs_linux.Events.Access.{
  check_recursion, mask_proc, check_access_precheck, allocate_event_and_containers, waits,
  post_event, finish_access,
}
use dazukofs_linux.Events.Serve.{
  dazukofs_group_open_tracking, dazukofs_group_release_tracking, find_active, hold, let_group_go,
  is_repost, found, take_event, settle_event, unclaim_event, claim_event,
}
use dazukofs_linux.Events.Pointers.{addresses}

pub record Prepared : Type 0 where
  pub event : ℕ
  pub containers : List ℕ
  pub pid : ℕ
  pub dentry : ℕ
  pub mnt : ℕ

pub record Answer : Type 0 where
  pub group : ℕ
  pub container : Container
  pub response : Response

-- A call of dazukofs_add_group between its two sections, with the id that it has chosen.
pub record Adding : Type 0 where
  pub name : List ℕ
  pub track : Bool
  pub id : ℕ

pub record System : Type 0 where
  pub state : State
  pub open state use *
  pub preparing : List Prepared
  pub waiting : List ℕ
  pub releasing : List Answer
  pub adding : Option Adding

abbrev pub prepared_events : List Prepared → List ℕ
prepared_events [] = []
prepared_events (p ∷ ps) = p.event ∷ prepared_events ps

abbrev pub released_events : List Answer → List ℕ
released_events [] = []
released_events (r ∷ rs) = r.container.event ∷ released_events rs

-- The call goes on when the name is new.
abbrev pub goes_on : List ℕ → Bool → Choice → Option Adding
goes_on name track c =
    if c.already_exists then none else some (record { name = name; track = track; id = c.id })

-- The choice that the call has made, at the second section.
abbrev pub chosen : Adding → State → Choice
chosen p s = record { state = s; id = p.id; already_exists = false }

abbrev pub with_state : State → System → System
with_state s y = record y { state = s }

-- The memory allocator returns an address that is not in use. A step takes the first entry
-- of a list; the two turns let any thread's entry come first.
pub data Step (y : System) : System → Type 0 where
  recurse : (pid : ℕ) → Step y (with_state (check_recursion pid y.state).1 y)
  mask : (proc pid : ℕ) → Step y (with_state (mask_proc proc pid y.state) y)
  refuse :
      (pid : ℕ) (ignored : Bool)
      → Step y (with_state (check_access_precheck y.group_count pid ignored y.state).1 y)
  starve :
      {s : State} (evt_mem : Option ℕ) (ec_mem : ℕ → Option ℕ)
      → allocate_event_and_containers evt_mem ec_mem y.group_count y.state ≡ (none, s)
      → Step y (with_state s y)
  prepare :
      {s : State} (p : Prepared) (ec_mem : ℕ → Option ℕ)
      → y.adding ≡ none
      → y.events p.event ≡ none
      → allocate_event_and_containers (some p.event) ec_mem y.group_count y.state
        ≡ (some (p.event, p.containers), s)
      → Step y (record y { state = s; preparing = p ∷ y.preparing })
  post :
      {s : State} (p : Prepared) (ps : List Prepared)
      → y.preparing ≡ p ∷ ps
      → post_event p.pid p.dentry p.mnt (some (p.event, p.containers)) y.state
        ≡ some (waits p.event, s)
      → Step y (record y { state = s; preparing = ps; waiting = p.event ∷ y.waiting })
  turn_preparing :
      (p : Prepared) (ps : List Prepared)
      → y.preparing ≡ p ∷ ps
      → Step y (record y { preparing = ps ++ p ∷ [] })
  turn_releasing :
      (r : Answer) (rs : List Answer)
      → y.releasing ≡ r ∷ rs
      → Step y (record y { releasing = rs ++ r ∷ [] })
  finish :
      {s : State} {r : Ret} (a : ℕ)
      → 0 < count a y.waiting
      → event_assigned a y.state ≡ some 0
      → finish_access a y.state ≡ some (r, s)
      → Step y (record y { state = s; waiting = erase a y.waiting })
  take :
      {s : State} (gid eid : ℕ) (r : Response) (grp : ℕ) (c : Container)
      → is_repost r ≡ false
      → take_event gid eid r y.state ≡ some (found grp c, s)
      → Step y (record y {
        state = s;
        releasing = record { group = grp; container = c; response = r } ∷ y.releasing;
      })
  settle :
      {s : State} {v : Ret} (r : Answer) (rs : List Answer)
      → y.releasing ≡ r ∷ rs
      → is_repost r.response ≡ false
      → settle_event r.response (found r.group r.container) y.state ≡ some (v, s)
      → Step y (record y { state = s; releasing = rs })
  unclaim :
      {s : State} (grp ec : ℕ) → unclaim_event grp ec y.state ≡ some s → Step y (with_state s y)
  claim :
      {s : State} {c : Option Container} (grp : ℕ)
      → claim_event grp y.state ≡ some (c, s)
      → Step y (with_state s y)
  enter :
      {g : Group} (gid : ℕ)
      → find_active gid y.group_list ≡ some g
      → Step y (with_state (modify g.address hold y.state) y)
  leave : {s : State} (grp : ℕ) → let_group_go grp y.state ≡ some s → Step y (with_state s y)
  -- The first section of dazukofs_add_group.
  choose :
      {c : Choice} (name : List ℕ) (track : Bool)
      → y.preparing ≡ []
      → y.adding ≡ none
      → choose_id (length y.group_list + 1) name 0 track y.state ≡ some c
      → Step y (record y { state = c.state; adding = goes_on name track c })
  -- The comparison of `group_count`, the second section, and the increment.
  link :
      (p : Adding) (grp_mem : Option ℕ) (name_mem : Bool)
      → y.preparing ≡ []
      → y.adding ≡ some p
      → ((a : ℕ) → grp_mem ≡ some a → count a (addresses y.group_list) ≡ 0)
      → Step y (record y {
        state = (add_chosen grp_mem name_mem p.name p.track (chosen p y.state)).1;
        adding = none;
      })
  remove :
      {s : State} {v : Ret} (name : List ℕ)
      → y.preparing ≡ []
      → y.adding ≡ none
      → dazukofs_remove_group name y.state ≡ some (v, s)
      → Step y (with_state s y)
  open_device : (gid : ℕ) → Step y (with_state (dazukofs_group_open_tracking gid y.state).1 y)
  -- The last condition leaves runs out: while a group is being added, the code lets a close remove
  -- another.
  close_device :
      {s : State} (gid : ℕ)
      → dazukofs_group_release_tracking gid y.state ≡ some s
      → ((p : Adding) → y.adding ≡ some p → s.group_count ≡ y.group_count)
      → Step y (with_state s y)

pub data Reach (y : System) : System → Type 0 where
  here : Reach y y
  next : {z w : System} → Reach y z → Step z w → Reach y w

-- The module after dazukofs_init_events.
abbrev pub start : System
start = record {
  state = record {
    group_list = [];
    group_count = 0;
    last_event_id = 0;
    proc_list = [];
    within_list = λ _. false;
    events = λ _. none;
    trace = [];
  };
  preparing = [];
  waiting = [];
  releasing = [];
  adding = none;
}
