-- ===== src/Events/Registry/Reached.antt =====
-- The registered groups in every reachable state.
use dazukofs_linux.Base.{refl, arith, count}
use dazukofs_linux.Events.State.{emit, modify}
use dazukofs_linux.Events.Access.{allocate_event_and_containers}
use dazukofs_linux.Events.Serve.{found, hold, find_active, dazukofs_group_open_tracking}
use dazukofs_linux.Events.System.{System, Step}
use dazukofs_linux.Events.Invariant.{Inv}
use dazukofs_linux.Events.Invariant.Steps.{reachable-Inv}
use dazukofs_linux.Events.Invariant.Small.{
  check_recursion-SameEvents, check_access_precheck-SameEvents, allocate_failed,
}
use dazukofs_linux.Events.Invariant.Withdrawing.{
  dazukofs_remove_group-Withdraws, dazukofs_group_release_tracking-Withdraws,
}
use dazukofs_linux.Events.Invariant.Small.{alloc_result-some}
use dazukofs_linux.Events.System.{
  recurse, mask, refuse, starve, prepare, post, turn_preparing, turn_releasing, finish, take,
  settle, unclaim, claim, enter, leave, choose, link, remove, open_device, close_device, Reach,
  start,
}
use dazukofs_linux.Events.Access.{mask_proc}
use dazukofs_linux.Events.Registry.{
  Registered, Shrinks-Registered, Shrinks-same, Shrinks-modify, Keeps-Shrinks,
}
use dazukofs_linux.Events.Registry.Fitting.{AllFit, Fits-Chosen, Step-AllFit}
use dazukofs_linux.Events.Invariant.Outcomes.{choose_id-Inv, Thinned-Keeps}
use dazukofs_linux.Events.System.{here, next}
use dazukofs_linux.Events.Registry.Calls.{
  claim-Shrinks, unclaim-Shrinks, take-Shrinks, open-Shrinks, post-Shrinks, finish-Shrinks,
  settle-Shrinks, leave-Shrinks, add_chosen-Registered,
}

-- Each step of a system with the invariant.
Step-Registered :
    {y z : System} → Inv y → AllFit y → Step y z → Registered y.group_list → Registered z.group_list
unfolding mask_proc emit modify allocate_event_and_containers dazukofs_group_open_tracking
Step-Registered {y} v f (recurse pid) h =
    Shrinks-Registered _ _ (Shrinks-same _ _ (check_recursion-SameEvents pid y.state).2) h
Step-Registered {y} v f (mask proc pid) h = h
Step-Registered {y} v f (refuse pid ignored) h =
    Shrinks-Registered _ _
      (Shrinks-same _ _ (check_access_precheck-SameEvents y.group_count pid ignored y.state).2) h
Step-Registered {y} v f (starve {s} evt_mem mem e) h =
    Shrinks-Registered _ _
      (Shrinks-same _ _ (allocate_failed mem y.group_count y.state evt_mem s e).2) h
Step-Registered {y} v f (prepare {s} p mem idle unused e) h =
    let groups = (alloc_result-some p.event y.state s p.containers _ e).3 in
    Shrinks-Registered _ _ (Shrinks-same _ _ groups) h
Step-Registered {y} v f (post {s} p ps first e) h =
    Shrinks-Registered _ _ (post-Shrinks y v s p ps first e) h
Step-Registered {y} v f (turn_preparing p ps first) h = h
Step-Registered {y} v f (turn_releasing r rs first) h = h
Step-Registered {y} v f (finish {s} {r} b waited idle e) h =
    Shrinks-Registered _ _ (finish-Shrinks y v s r b waited idle e) h
Step-Registered {y} v f (take {s} gid eid r grp c real e) h =
    Shrinks-Registered _ _ (take-Shrinks gid eid r (found grp c) y.state s e) h
Step-Registered {y} v f (settle {s} {v = u} r rs first real e) h =
    Shrinks-Registered _ _ (settle-Shrinks y v s u r rs first real e) h
Step-Registered {y} v f (unclaim {s} grp ec e) h =
    Shrinks-Registered _ _ (unclaim-Shrinks grp ec y.state s e) h
Step-Registered {y} v f (claim {s} {c} grp e) h =
    Shrinks-Registered _ _ (claim-Shrinks grp c y.state s e) h
Step-Registered {y} v f (enter {g} gid e) h =
    Shrinks-Registered _ _ (Shrinks-modify g.address hold y.group_list (λ g. (refl, refl, λ h. h)))
      h
Step-Registered {y} v f (leave {s} grp e) h =
    Shrinks-Registered _ _ (leave-Shrinks grp y.state s e) h
Step-Registered {y} v f (choose {c} name track quiet idle e) h =
    Shrinks-Registered _ _
      (Keeps-Shrinks _ _ (Thinned-Keeps _ _ (choose_id-Inv y v quiet name track c e).1.thinned)) h
Step-Registered {y} v f (link p grp_mem name_mem quiet held unused) h =
    add_chosen-Registered y v p grp_mem name_mem quiet unused (Fits-Chosen y p v (f p held)) h
Step-Registered {y} v f (remove {s} {v = u} name quiet idle e) h =
    Shrinks-Registered _ _ (dazukofs_remove_group-Withdraws y v name u s e).1 h
Step-Registered {y} v f (open_device gid) h =
    Shrinks-Registered _ _ (open-Shrinks (find_active gid y.group_list) y.state) h
Step-Registered {y} v f (close_device {s} gid e stays) h =
    Shrinks-Registered _ _ (dazukofs_group_release_tracking-Withdraws y v gid s e).1 h

reachable-AllFit : {y : System} → Reach start y → AllFit y
reachable-AllFit here = λ p e. absurd cc
reachable-AllFit (next r st) = Step-AllFit (reachable-Inv r) st (reachable-AllFit r)

-- In every reachable state no two groups that are not deprecated have the same id or the same name,
-- and the id of each is below 10, so that the group device with this minor number is its own.
-- The runs leave out that, between the choice of an id and the increment of `group_count` by
-- dazukofs_add_group, a close by the last tracked process of a group removes this group.
pub reachable-Registered : {y : System} → Reach start y → Registered y.group_list
unfolding count
reachable-Registered here = record {
  unique_ids = λ id. omega arith;
  devices = λ id more. absurd (omega arith);
  unique_names = λ name. omega arith;
}
reachable-Registered (next r st) =
    Step-Registered (reachable-Inv r) (reachable-AllFit r) st (reachable-Registered r)
