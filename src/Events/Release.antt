-- ===== src/Events/Release.antt =====
-- release_event, __clear_group_event_list, __remove_group and event_assigned of event.c.
use dazukofs_linux.Base.{
  ℕ, Bool, true, false, not, Option, none, some, List, [], ◌∷◌, ◌==◌, if◌then◌else◌, dec32,
}
use dazukofs_linux.Events.State.{
  Event, Container, Group, dput, mntput, put_pid, wake_event, wake_group_all, wake_poll_all,
  free_event, free_container, State, ◌>>=◌, emit, emit_all, put_event, modify,
}

-- The references are dropped, and the memory goes back to its cache.
unfoldable pub drop_event : ℕ → Event → State → State
unfolding emit_all put_event
drop_event a e s =
    emit_all (free_event a ∷ put_pid e.proc_id ∷ mntput e.mnt ∷ dput e.dentry ∷ [])
      (put_event a none s)

-- The branch for a registered process. The waiting accessor is woken by the last answer.
unfoldable pub release_assigned : ℕ → Event → State → State
unfolding drop_event put_event emit dec32
release_assigned a evt s =
    let e = record evt { assigned = dec32 evt.assigned } in
    if e.assigned == 0
    then (if not e.deprecated
        then emit (wake_event a) (put_event a (some e) s)
        else drop_event a e s)
    else put_event a (some e) s

-- The branch for the anonymous process that accesses the file.
unfoldable pub release_anonymous : ℕ → Event → State → State
unfolding drop_event put_event
release_anonymous a evt s =
    if evt.assigned == 0
    then drop_event a evt s
    else put_event a (some (record evt { deprecated = true })) s

abbrev pub mark_deny : Bool → Event → Event
mark_deny deny e = record e { deny = if deny then true else e.deny }

unfoldable pub release_event : ℕ → Bool → Bool → State → Option State
unfolding release_assigned release_anonymous
release_event a decrement_assigned deny s = do
  evt ← s.events a
  some (
      if decrement_assigned
      then release_assigned a (mark_deny deny evt) s
      else release_anonymous a (mark_deny deny evt) s)

-- The loop releases each event and frees its container. It runs under `work_mutex`, so that the
-- caller empties the list field in one write.
unfoldable pub clear_group_event_list : List Container → State → Option State
unfolding release_event emit
clear_group_event_list [] s = some s
clear_group_event_list (ec ∷ q) s = do
  s' ← release_event ec.event true false s
  clear_group_event_list q (emit (free_container ec.address) s')

abbrev pub retire : Group → Group
retire g = record g { deprecated = true }

abbrev pub no_working : Group → Group
no_working g = record g { working_list = [] }

abbrev pub no_todo : Group → Group
no_todo g = record g { todo_list = [] }

-- `__remove_group`, at a group that the caller has found.
unfoldable pub remove_group : Group → State → Option State
unfolding modify emit_all dec32
remove_group g s = do
  s ←
      clear_group_event_list g.working_list
        (modify g.address retire (record s { group_count = dec32 s.group_count }))
  s ← clear_group_event_list g.todo_list (modify g.address no_working s)
  some (
      emit_all (wake_poll_all g.address ∷ wake_group_all g.address ∷ [])
        (modify g.address no_todo s))

unfoldable pub event_assigned : ℕ → State → Option ℕ
event_assigned a s = do e ← s.events a; some e.assigned
