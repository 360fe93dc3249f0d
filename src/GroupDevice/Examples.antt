-- ===== src/GroupDevice/Examples.antt =====
-- An answer to event 1 of group 0, when there is no group, and a read that takes event 1 of group
-- 0.
use dazukofs_linux.Base.{
  ◌≡◌, refl, some, [], ◌∷◌, length, true, false, arith, digits, inc32, dec32, sign_extend, text_eq,
  count,
}
use dazukofs_linux.Events.State.{
  State, ok, ◌>>=◌, emit, emit_all, put_event, find_address, modify_group, modify,
}
use dazukofs_linux.Events.Serve.{dazukofs_return_event}
use dazukofs_linux.Events.System.{start}
use dazukofs_linux.Events.Examples.{state_of, posted}
use dazukofs_linux.Events.Groups.{
  dazukofs_add_group, check_for_group, create_group, choose_id, link_group,
}
use dazukofs_linux.Events.Access.{
  post_event, assign_event_to_groups, post_groups, post_group, allocate_event_and_containers,
  alloc_containers, mask_proc, check_recursion, unmask,
}
use dazukofs_linux.Events.Serve.{
  claim_event, claim_first, find_active, find_container, let_group_go,
}
use dazukofs_linux.Events.Deliver.{
  Files, woken, dazukofs_get_event, get_event_from, get_event_loop, after_wait, claim_and_open,
  open_file, load_container, read_container, store_container, open_masked, install, unmask_self,
  hand_out, let_go,
}
use dazukofs_linux.Library.{Handle, dazukofs_get_access, response_text}
use dazukofs_linux.GroupDevice.{
  Reading, dazukofs_group_read, event_text, dazukofs_group_write, write_ret,
}
use dazukofs_linux.GroupDevice.Delivered.{read-get_access}
use dazukofs_linux.GroupDevice.Proofs.{response_of, write-response_text}

write-response_text_example : dazukofs_group_write 0 true (response_text 1 true) 0 start.state ≡ (
    dazukofs_return_event 0 1 (response_of true) start.state >>= λ r.
    some (write_ret (length (response_text 1 true)) 0 r))
write-response_text_example = write-response_text 0 1 0 true start.state (omega arith)

abbrev files : Files
files = record {
  proc = 50;
  unused_fd = ok 3;
  dentry_open = λ dentry mnt s. some (ok 9, s);
  pid_vnr = λ pid. pid;
}

abbrev handed_out : State
handed_out = state_of (dazukofs_get_event 0 (woken ∷ []) files 11 posted) posted

abbrev handle : Handle
handle = record { dev_fd = 5; event_id = 0; group_name = [] }

read-get_access_example :
    (r : Reading) × (dazukofs_group_read 0 (woken ∷ []) files true 11 64 0 posted ≡ some (some r))
    × (r.ret ≡ ok (length r.text))
    × (r.state ≡ handed_out)
    × (dazukofs_get_access (some r.text) handle
        ≡ (some (record { deny = false; fd = 3; pid = 7 }), record handle { event_id = 1 }))
unfolding dazukofs_add_group choose_id check_for_group create_group link_group
    allocate_event_and_containers alloc_containers text_eq count inc32 dec32 put_event emit_all
    post_event assign_event_to_groups post_groups post_group sign_extend claim_event claim_first
    find_address modify modify_group find_active emit dazukofs_get_event get_event_from
    get_event_loop after_wait claim_and_open open_file load_container read_container store_container
    open_masked mask_proc install unmask_self check_recursion unmask hand_out let_go let_group_go
    find_container event_text digits
read-get_access_example =
    read-get_access 0 11 64 1 3 7 (woken ∷ []) files posted handed_out handle refl (omega arith)
      (omega arith) (omega arith) (omega arith) (omega arith)
