-- ===== src/Events/Examples/Runs.antt =====
-- A run of an access that is denied, and the theorems on runs at its states.
use dazukofs_linux.Base.{none, refl, [], ◌∷◌, count, inc32, dec32, text_eq, sign_extend}
use dazukofs_linux.Events.State.{
  deny, State, emit, emit_all, put_event, find_address, modify_group, modify,
}
use dazukofs_linux.Events.Groups.{
  dazukofs_add_group, add_chosen, check_for_group, create_group, choose_id, link_group,
}
use dazukofs_linux.Events.Access.{
  post_event, assign_event_to_groups, post_groups, post_group, allocate_event_and_containers,
  alloc_containers,
}
use dazukofs_linux.Events.Serve.{
  claim_event, claim_first, take_event, take_event_from, take_found, find_active, find_working,
  settle_event, let_group_go, found,
}
use dazukofs_linux.Events.Release.{release_event, release_assigned}
use dazukofs_linux.Events.Phase.{phase}
use dazukofs_linux.Events.System.{System, Reach, next, start, settle}
use dazukofs_linux.Events.Refinement.{Move}
use dazukofs_linux.Events.Refinement.Steps.{reachable-Move}
use dazukofs_linux.Events.Registry.{Registered}
use dazukofs_linux.Events.Registry.Reached.{reachable-Registered}
use dazukofs_linux.Events.Examples.{state_of, taken, first, answer, taken_system, taken-Reach}

abbrev pub settled : State
settled = state_of (settle_event deny (found 1 first) taken) taken

abbrev pub settled_system : System
settled_system = record {
  state = settled;
  preparing = [];
  waiting = 100 ∷ [];
  releasing = [];
  adding = none;
}

pub settled-Reach : Reach start settled_system
unfolding dazukofs_add_group add_chosen choose_id check_for_group create_group link_group
    allocate_event_and_containers alloc_containers text_eq count inc32 dec32 put_event emit_all
    post_event assign_event_to_groups post_groups post_group sign_extend claim_event claim_first
    find_address modify modify_group take_event take_event_from take_found find_active find_working
    emit settle_event let_group_go release_event release_assigned
settled-Reach = next taken-Reach (settle answer [] refl refl refl)

reachable-Move_example : Move (phase 100 taken_system.state) (phase 100 settled_system.state)
unfolding dazukofs_add_group add_chosen choose_id check_for_group create_group link_group
    allocate_event_and_containers alloc_containers text_eq count inc32 dec32 put_event emit_all
    post_event assign_event_to_groups post_groups post_group sign_extend claim_event claim_first
    find_address modify modify_group take_event take_event_from take_found find_active find_working
    emit settle_event let_group_go release_event release_assigned
reachable-Move_example = reachable-Move 100 taken-Reach (settle answer [] refl refl refl)

reachable-Registered_example : Registered taken_system.group_list
reachable-Registered_example = reachable-Registered taken-Reach
