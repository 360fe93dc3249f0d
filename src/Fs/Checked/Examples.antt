-- ===== src/Fs/Checked/Examples.antt =====
-- A denied access to the file at address 4.
use dazukofs_linux.Base.{◌≡◌, refl, some, count, arith, inc32, dec32, text_eq, sign_extend}
use dazukofs_linux.Events.State.{
  State, Ret, emit, emit_all, put_event, find_address, modify_group, modify,
}
use dazukofs_linux.Events.Groups.{
  dazukofs_add_group, check_for_group, create_group, choose_id, link_group,
}
use dazukofs_linux.Events.Access.{
  post_event, finish_access, assign_event_to_groups, post_groups, post_group,
  allocate_event_and_containers, alloc_containers,
}
use dazukofs_linux.Events.Serve.{
  claim_event, claim_first, take_event, take_event_from, take_found, find_active, find_working,
  settle_event, let_group_go,
}
use dazukofs_linux.Events.Release.{release_event, release_assigned, event_assigned}
use dazukofs_linux.Events.System.{here}
use dazukofs_linux.Events.Examples.Runs.{settled_system, settled-Reach}
use dazukofs_linux.Fs.Files.{dazukofs_open}
use dazukofs_linux.Fs.Balance.{Returns}
use dazukofs_linux.Fs.Sample.{lower, stacked}
use dazukofs_linux.Fs.Checked.{checked, Refused, open_after_denial}

open_after_denial_example :
    (e : Ret) × (after : State) × (finish_access 100 settled_system.state ≡ some (e, after))
    × Returns (dazukofs_open {k = lower 0} (checked e) 4) (stacked 0) (Refused (stacked 0))
unfolding dazukofs_add_group choose_id check_for_group create_group link_group
    allocate_event_and_containers alloc_containers text_eq count inc32 dec32 put_event emit_all
    post_event assign_event_to_groups post_groups post_group sign_extend claim_event claim_first
    find_address modify modify_group take_event take_event_from take_found find_active find_working
    emit settle_event let_group_go release_event release_assigned event_assigned
open_after_denial_example =
    open_after_denial 100 here 4 23 8 (stacked 0) settled-Reach tt refl (omega arith) refl refl
