-- ===== src/Events/Examples.antt =====
-- Concrete runs of the event functions, and the theorems at their states.
pub mod Runs
use dazukofs_linux.Base.{
  ℕ, ◌≤◌, ◌≡◌, refl, true, false, Option, none, some, List, [], ◌∷◌, arith, count, inc32, text_eq,
  sign_extend, if◌then◌else◌,
}
use dazukofs_linux.Events.State.{
  Group, Ret, ok, err, eperm, deny, Event, wake_event, Container, State, max_groups, emit, emit_all,
  put_event, find_address, modify_group, modify,
}
use dazukofs_linux.Events.Groups.{
  dazukofs_add_group, add_chosen, dazukofs_remove_group, check_for_group, create_group, choose_id,
  link_group,
}
use dazukofs_linux.Events.Access.{
  post_event, finish_access, waits, assign_event_to_groups, post_groups, post_group,
  allocate_event_and_containers, alloc_containers,
}
use dazukofs_linux.Events.Serve.{
  claim_event, claim_first, take_event, take_event_from, take_found, find_active, find_working,
  settle_event, found, dazukofs_group_release_tracking,
}
use dazukofs_linux.Events.Tally.{listed}
use dazukofs_linux.Events.System.{
  System, Prepared, Answer, Reach, here, next, start, prepare, post, claim, take, choose, link,
  with_state,
}
use dazukofs_linux.Events.Invariant.{Inv, active}
use dazukofs_linux.Events.Invariant.Steps.{reachable-Inv}
use dazukofs_linux.Events.Invariant.Removal.{
  dazukofs_remove_group-Inv, dazukofs_group_release_tracking-Inv,
}
use dazukofs_linux.Events.Invariant.Outcomes.{Adds, dazukofs_add_group-Adds}
use dazukofs_linux.Events.Verdict.{answer_all, any, verdict}
use dazukofs_linux.Events.Release.{event_assigned}
use dazukofs_linux.Events.Safety.{listed_live, post_total, settle_total}

abbrev scan_name : List ℕ
scan_name = b'a' ∷ b'v' ∷ []

abbrev pub state_of {ℓ} : {A : Type ℓ} → Option (A × State) → State → State
state_of none s = s
state_of (some (a, s)) t = s

-- One group, whose structure is at address 1.
abbrev grouped : State
grouped = state_of (dazukofs_add_group (some 1) true scan_name false start.state) start.state

abbrev access : Prepared
access = record { event = 100; containers = 200 ∷ []; pid = 7; dentry = 8; mnt = 9 }

abbrev allocated : State
allocated = (allocate_event_and_containers (some 100) (λ _. some 200) grouped.group_count grouped).1

abbrev pub posted : State
posted = state_of (post_event 7 8 9 (some (100, 200 ∷ [])) allocated) allocated

abbrev pub claimed : State
claimed = state_of (claim_event 1 posted) posted

abbrev pub first : Container
first = record { address = 200; event = 100; file = ok 0; fd = ok 0 }

abbrev pub taken : State
taken = state_of (take_event 0 1 deny claimed) claimed

abbrev prepared_system : System
prepared_system = record {
  state = allocated;
  preparing = access ∷ [];
  waiting = [];
  releasing = [];
  adding = none;
}

abbrev pub posted_system : System
posted_system = record {
  state = posted;
  preparing = [];
  waiting = 100 ∷ [];
  releasing = [];
  adding = none;
}

abbrev pub claimed_system : System
claimed_system = record {
  state = claimed;
  preparing = [];
  waiting = 100 ∷ [];
  releasing = [];
  adding = none;
}

abbrev pub answer : Answer
answer = record { group = 1; container = first; response = deny }

abbrev pub taken_system : System
taken_system = record {
  state = taken;
  preparing = [];
  waiting = 100 ∷ [];
  releasing = answer ∷ [];
  adding = none;
}

prepared-Reach : Reach start prepared_system
unfolding dazukofs_add_group add_chosen choose_id check_for_group create_group link_group
    allocate_event_and_containers alloc_containers text_eq count inc32 put_event emit_all post_event
    assign_event_to_groups post_groups post_group sign_extend claim_event claim_first find_address
    modify modify_group take_event take_event_from take_found find_active find_working emit
prepared-Reach =
    next
      (next (next here (choose scan_name false refl refl refl)) (
        link (record { name = scan_name; track = false; id = 0 }) (some 1) true refl refl
          (λ a h. refl)))
      (prepare access (λ _. some 200) refl refl refl)

pub posted-Reach : Reach start posted_system
unfolding dazukofs_add_group add_chosen choose_id check_for_group create_group link_group
    allocate_event_and_containers alloc_containers text_eq count inc32 put_event emit_all post_event
    assign_event_to_groups post_groups post_group sign_extend claim_event claim_first find_address
    modify modify_group take_event take_event_from take_found find_active find_working emit
posted-Reach = next prepared-Reach (post access [] refl refl)

pub claimed-Reach : Reach start claimed_system
unfolding dazukofs_add_group add_chosen choose_id check_for_group create_group link_group
    allocate_event_and_containers alloc_containers text_eq count inc32 put_event emit_all post_event
    assign_event_to_groups post_groups post_group sign_extend claim_event claim_first find_address
    modify modify_group take_event take_event_from take_found find_active find_working emit
claimed-Reach = next posted-Reach (claim {c = some first} 1 refl)

pub taken-Reach : Reach start taken_system
unfolding dazukofs_add_group add_chosen choose_id check_for_group create_group link_group
    allocate_event_and_containers alloc_containers text_eq count inc32 put_event emit_all post_event
    assign_event_to_groups post_groups post_group sign_extend claim_event claim_first find_address
    modify modify_group take_event take_event_from take_found find_active find_working emit
taken-Reach = next claimed-Reach (take 0 1 deny 1 first refl refl)

reachable-Inv_example : Inv taken_system
reachable-Inv_example = reachable-Inv taken-Reach

listed_live_example :
    (e : Event) × (claimed_system.events 100 ≡ some e)
    × (listed 100 claimed_system.group_list ≤ e.assigned)
    × (e.assigned ≤ max_groups)
unfolding dazukofs_add_group add_chosen choose_id check_for_group create_group link_group
    allocate_event_and_containers alloc_containers text_eq count inc32 put_event emit_all post_event
    assign_event_to_groups post_groups post_group sign_extend claim_event claim_first find_address
    modify modify_group take_event take_event_from take_found find_active find_working emit
listed_live_example = listed_live 100 claimed-Reach (omega arith)

post_total_example :
    (s : State) × (post_event 7 8 9 (some (100, 200 ∷ [])) prepared_system.state
      ≡ some (waits 100, s))
    × (active prepared_system.group_list ≤ 1)
post_total_example = post_total access [] prepared-Reach refl

settle_total_example :
    ((e : Event) × (taken_system.events 100 ≡ some e))
    × ((g : Group)
        → find_address 1 taken_system.group_list ≡ some g
        → (s : State) × (settle_event deny (found 1 first) taken_system.state ≡ some (ok 0, s)))
    × ((u : Ret) (t : State)
        → settle_event deny (found 1 first) taken_system.state ≡ some (u, t)
        → (g : Group) × (find_address 1 taken_system.group_list ≡ some g))
settle_total_example = settle_total answer [] taken-Reach refl refl

verdict_example :
    (s1 : State) × (s2 : State) × (answer_all 100 (true ∷ []) posted ≡ some s1)
    × (event_assigned 100 s1 ≡ some 0)
    × (s1.trace ≡ wake_event 100 ∷ posted.trace)
    × (finish_access 100 s1 ≡ some (if any (true ∷ []) then err eperm else ok 0, s2))
    × (s2.events 100 ≡ none)
unfolding dazukofs_add_group add_chosen choose_id check_for_group create_group link_group
    allocate_event_and_containers alloc_containers text_eq count inc32 put_event emit_all post_event
    assign_event_to_groups post_groups post_group sign_extend
verdict_example = verdict 100 true [] posted (omega arith) (
  record {
    event_id = 1;
    dentry = 8;
    mnt = 9;
    proc_id = 7;
    deny = false;
    deprecated = false;
    assigned = 1;
  },
  refl,
  (refl, refl, refl),
)

dazukofs_remove_group-Inv_example :
    (s : State) × (dazukofs_remove_group scan_name claimed_system.state ≡ some (ok 0, s))
    × Inv (with_state s claimed_system)
dazukofs_remove_group-Inv_example =
    dazukofs_remove_group-Inv claimed_system (reachable-Inv claimed-Reach) scan_name

dazukofs_add_group-Adds_example :
    (r : Ret) × (s : State) × (dazukofs_add_group none true (b'x' ∷ []) true claimed_system.state
      ≡ some (r, s))
    × Inv (with_state s claimed_system)
    × Adds (b'x' ∷ []) claimed_system.state r s
dazukofs_add_group-Adds_example =
    dazukofs_add_group-Adds claimed_system (reachable-Inv claimed-Reach) refl (b'x' ∷ []) true none
      true (λ a h. absurd cc)
