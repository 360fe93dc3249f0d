-- ===== src/Events/Refinement/Steps.antt =====
-- The system of processes refines the specification of an access at every address.
use mathlib.Core.Path.{subst}
use dazukofs_linux.Base.{
  ap, sym, ℕ, zero, suc, ◌<◌, ◌≡◌, refl, false, Option, none, some, List, ◌∷◌, arith, ==_refl,
  count,
}
use dazukofs_linux.Events.State.{State, Ret, emit, modify}
use dazukofs_linux.Events.Release.{release_assigned, mark_deny, event_assigned, drop_event}
use dazukofs_linux.Events.Access.{
  post_event, finish_access, check_recursion, check_access_precheck, waits,
  allocate_event_and_containers,
}
use dazukofs_linux.Events.Invariant.Outcomes.{choose_id-Inv}
use dazukofs_linux.Events.Settling.{settle-released, let_group_go-modify}
use dazukofs_linux.Events.Serve.{
  settle_event, found, is_deny, is_repost, unhold, dazukofs_group_open_tracking,
}
use dazukofs_linux.Events.Phase.{phase}
use dazukofs_linux.Events.System.{System, Step, Prepared, Answer}
use dazukofs_linux.Events.Invariant.{Inv}
use dazukofs_linux.Events.Invariant.Steps.{reachable-Inv}
use dazukofs_linux.Events.Invariant.Small.{
  check_recursion-SameEvents, check_access_precheck-SameEvents, allocate_failed,
}
use dazukofs_linux.Events.Invariant.Access.{
  finish_access-eq, prepared_live, prepared_zero, prepared_free,
}
use dazukofs_linux.Events.Invariant.Withdrawing.{
  dazukofs_remove_group-Withdraws, dazukofs_group_release_tracking-Withdraws,
}
use dazukofs_linux.Events.Groups.{add_chosen}
use dazukofs_linux.Events.Quiet.{
  add_chosen-events, take-events, claim-events, unclaim-events, open_tracking-events,
}
use dazukofs_linux.Events.Invariant.Small.{alloc_result-some}
use dazukofs_linux.Events.Invariant.Posting.{post_event-Assigned}
use dazukofs_linux.Events.System.{
  recurse, mask, refuse, starve, prepare, post, turn_preparing, turn_releasing, finish, take,
  settle, unclaim, claim, enter, leave, choose, link, chosen, remove, open_device, close_device,
  Reach, start,
}
use dazukofs_linux.Events.Access.{mask_proc}
use dazukofs_linux.Events.Invariant.{active, holders}
use dazukofs_linux.Events.Invariant.Access.{waiting_live}
use dazukofs_linux.Events.Tally.{Tally, live_of_held, release_event-eq}
use dazukofs_linux.Events.Refinement.{
  Move, stay, Fewer-Move, unchanged, allocated-Move, posted-Move, finished-Move, answered-Move,
}

module _ (y : System) (v : Inv y) (b : ℕ) where
  prepare-Move :
      (s : State) (p : Prepared) (mem : ℕ → Option ℕ)
      → y.events p.event ≡ none
      → allocate_event_and_containers (some p.event) mem y.group_count y.state
        ≡ (some (p.event, p.containers), s)
      → Move (phase b y.state) (phase b s)
  unfolding allocate_event_and_containers
  prepare-Move s p mem unused e =
      allocated-Move p.event b y.state s unused
        (alloc_result-some p.event y.state s p.containers _ e).1

  post-Move :
      (s : State) (p : Prepared) (ps : List Prepared)
      → y.preparing ≡ p ∷ ps
      → post_event p.pid p.dentry p.mnt (some (p.event, p.containers)) y.state
        ≡ some (waits p.event, s)
      → Move (phase b y.state) (phase b s)
  post-Move s p ps first e =
      let (evt, live) = prepared_live y v p ps first in
      let idle = prepared_zero y v p ps first evt live in
      let (t, eq, h) =
        post_event-Assigned p.pid p.dentry p.mnt p.event p.containers y.state evt live idle v.few
          (prepared_free y v p ps first).0.1 in
      let same : t ≡ s = ground arith in
      subst (λ u. Move (phase b y.state) (phase b u)) same
        (posted-Move p.event b (active y.group_list) evt _ y.state t live idle v.few refl refl
          (h.stored b))

  finish-Move :
      (s : State) (r : Ret) (a : ℕ)
      → 0 < count a y.waiting
      → event_assigned a y.state ≡ some 0
      → finish_access a y.state ≡ some (r, s)
      → Move (phase b y.state) (phase b s)
  unfolding event_assigned
  finish-Move s r a waited idle e =
      let (evt, live) = waiting_live y v a waited in
      let none_left : evt.assigned ≡ 0 = ground arith in
      let done = finish_access-eq a y.state evt live none_left in
      let same : drop_event a evt y.state ≡ s = ground arith in
      subst (λ u. Move (phase b y.state) (phase b u)) same
        (finished-Move a b evt y.state (drop_event a evt y.state) live none_left
          (unfold drop_event in refl))

  settle-Move :
      (s : State) (u : Ret) (r : Answer) (rs : List Answer)
      → y.releasing ≡ r ∷ rs
      → is_repost r.response ≡ false
      → settle_event r.response (found r.group r.container) y.state ≡ some (u, s)
      → Move (phase b y.state) (phase b s)
  unfolding count
  settle-Move s u r rs first real e =
      let t = v.tallied r.container.event in
      let more : 0 < holders y r.container.event =
        rw first (ground (arith, ==_refl r.container.event)) in
      let (evt, live) = live_of_held (y.events r.container.event) _ _ t more in
      let tally : Tally (some evt) (holders y r.container.event) _ = rw live at t in
      let (n, number) = pred evt.assigned (omega (arith, tally.0, more)) in
      let done = release_event-eq r.container.event (is_deny r.response) y.state evt live in
      let at_end : modify r.group unhold
            (release_assigned r.container.event (mark_deny (is_deny r.response) evt) y.state)
          ≡ s =
        (settle-released r.group r.container r.response real y.state _ done u s e).0 in
      subst (λ x. Move (phase b y.state) (phase b x)) at_end
        (unfold modify in
          answered-Move r.container.event b n (is_deny r.response) evt y.state live tally.2 number
            (omega (arith, number, tally.0, tally.1)))
    where
      pred : (n : ℕ) → 0 < n → (m : ℕ) × (n ≡ suc m)
      pred zero h = absurd (omega arith)
      pred (suc n) h = (n, refl)

-- Each step of a system with the invariant is a move of the specification, at every address.
pub Step-Move : {y z : System} (a : ℕ) → Inv y → Step y z → Move (phase a y.state) (phase a z.state)
unfolding mask_proc emit modify
Step-Move {y} a v (recurse pid) =
    unchanged a y.state (check_recursion pid y.state).1 (check_recursion-SameEvents pid y.state).0
Step-Move {y} a v (mask proc pid) = stay
Step-Move {y} a v (refuse pid ignored) =
    unchanged a y.state (check_access_precheck y.group_count pid ignored y.state).1
      (check_access_precheck-SameEvents y.group_count pid ignored y.state).0
Step-Move {y} a v (starve {s} evt_mem mem e) =
    unchanged a y.state s (allocate_failed mem y.group_count y.state evt_mem s e).0
Step-Move {y} a v (prepare {s} p mem idle unused e) = prepare-Move y v a s p mem unused e
Step-Move {y} a v (post {s} p ps first e) = post-Move y v a s p ps first e
Step-Move {y} a v (turn_preparing p ps first) = stay
Step-Move {y} a v (turn_releasing r rs first) = stay
Step-Move {y} a v (finish {s} {r} b waited idle e) = finish-Move y v a s r b waited idle e
Step-Move {y} a v (take {s} gid eid r grp c real e) =
    unchanged a y.state s (take-events gid eid r (found grp c) y.state s e)
Step-Move {y} a v (settle {s} {v = u} r rs first real e) = settle-Move y v a s u r rs first real e
Step-Move {y} a v (unclaim {s} grp ec e) = unchanged a y.state s (unclaim-events grp ec y.state s e)
Step-Move {y} a v (claim {s} {c} grp e) = unchanged a y.state s (claim-events grp c y.state s e)
Step-Move {y} a v (enter {g} gid e) = stay
Step-Move {y} a v (leave {s} grp e) =
    unchanged a y.state s (ap (λ t. t.events) (sym (let_group_go-modify grp y.state s e)))
Step-Move {y} a v (choose {c} name track quiet idle e) =
    unchanged a y.state c.state (choose_id-Inv y v quiet name track c e).1.same_events
Step-Move {y} a v (link p grp_mem name_mem quiet held unused) =
    unchanged a y.state (add_chosen grp_mem name_mem p.name p.track (chosen p y.state)).1
      (add_chosen-events grp_mem name_mem p.name p.track (chosen p y.state))
Step-Move {y} a v (remove {s} {v = u} name quiet idle e) =
    Fewer-Move (phase a y.state) (phase a s) ((dazukofs_remove_group-Withdraws y v name u s e).0 a)
Step-Move {y} a v (open_device gid) =
    unchanged a y.state (dazukofs_group_open_tracking gid y.state).1
      (open_tracking-events gid y.state)
Step-Move {y} a v (close_device {s} gid e stays) =
    Fewer-Move (phase a y.state) (phase a s)
      ((dazukofs_group_release_tracking-Withdraws y v gid s e).0 a)

-- In every reachable state, whatever step comes next, each address makes a move of the
-- specification: answers come one by one or are withdrawn, a denial is never taken back, and an
-- access ends only when no answer is missing.
-- The runs leave out that, between the choice of an id and the increment of `group_count` by
-- dazukofs_add_group, a close by the last tracked process of a group removes this group.
pub reachable-Move :
    {y z : System} (a : ℕ) → Reach start y → Step y z → Move (phase a y.state) (phase a z.state)
reachable-Move a r st = Step-Move a (reachable-Inv r) st
