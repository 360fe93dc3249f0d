-- ===== src/Events/Registry/Fitting.antt =====
-- What a call of dazukofs_add_group has chosen still fits at its second section.
use mathlib.Core.Path.{subst}
use dazukofs_linux.Base.{
  Bool, ap, ◌∙◌, ℕ, ◌≤◌, ◌≡◌, refl, some, List, arith, count, inl, inr, Bool-cases,
}
use dazukofs_linux.Events.State.{State, emit, modify}
use dazukofs_linux.Events.Groups.{Choice}
use dazukofs_linux.Events.Access.{mask_proc, allocate_event_and_containers}
use dazukofs_linux.Events.Serve.{found, hold, find_active, dazukofs_group_open_tracking}
use dazukofs_linux.Events.System.{
  System, Adding, goes_on, chosen, Step, recurse, mask, refuse, starve, prepare, post,
  turn_preparing, turn_releasing, finish, take, settle, unclaim, claim, enter, leave, choose, link,
  remove, open_device, close_device,
}
use dazukofs_linux.Events.Invariant.{Inv}
use dazukofs_linux.Events.Invariant.Thinning.{active_ids, named, Thinned-refl}
use dazukofs_linux.Events.Invariant.Adding.{Chosen}
use dazukofs_linux.Events.Invariant.Outcomes.{choose_id-Inv}
use dazukofs_linux.Events.Invariant.Small.{
  check_recursion-SameEvents, check_access_precheck-SameEvents, allocate_failed,
}
use dazukofs_linux.Events.Invariant.Withdrawing.{dazukofs_group_release_tracking-Withdraws}
use dazukofs_linux.Events.Registry.{Shrinks, Shrinks-same, Shrinks-modify}
use dazukofs_linux.Events.Registry.Calls.{
  claim-Shrinks, unclaim-Shrinks, take-Shrinks, open-Shrinks, post-Shrinks, finish-Shrinks,
  settle-Shrinks, leave-Shrinks,
}
use dazukofs_linux.Events.Registry.Counts.{
  take-count, claim-count, unclaim-count, open-count, post-count, finish-count, settle-count,
  leave-count,
}

-- Its name and its id are new, and the id is no more than the number of groups.
pub record Fits (p : Adding) (s : State) : Type 0 where
  pub new_name : named p.name s.group_list ≡ 0
  pub new_id : count p.id (active_ids s.group_list) ≡ 0
  pub low : p.id ≤ s.group_count

abbrev pub AllFit : System → Type 0
AllFit y = (p : Adding) → y.adding ≡ some p → Fits p y.state

Shrinks-Fits :
    (p : Adding) (s t : State)
    → Shrinks s.group_list t.group_list
    → t.group_count ≡ s.group_count
    → Fits p s
    → Fits p t
Shrinks-Fits p s t less number f = record {
  new_name = omega (arith, less.names p.name, f.new_name);
  new_id = omega (arith, less.ids p.id, f.new_id);
  low = omega (arith, f.low, number);
}

goes_on-Fits :
    (y : System) (name : List ℕ) (track : Bool) (c : Choice) (p : Adding)
    → Inv y
    → Chosen name y.state c
    → goes_on name track c ≡ some p
    → Fits p c.state
goes_on-Fits y name track c p v h e = elim (Bool-cases c.already_exists) [
  | inl old ↦ absurd (ground arith)
  | inr new ↦
      (let same : record { name = name; track = track; id = c.id } ≡ p = ground arith in
        let (no_name, no_id) = rw new at h.outcome in
        subst (λ p. Fits p c.state) same
          (record {
            new_name = h.thinned.same_names name ∙ no_name;
            new_id = ap (count c.id) h.thinned.same_ids ∙ no_id;
            low = omega (arith, h.low, h.same_count, v.counted);
          }))
]

-- In a system with the invariant, a fitting choice is one as the scan makes it.
pub Fits-Chosen :
    (y : System) (p : Adding) → Inv y → Fits p y.state → Chosen p.name y.state (chosen p y.state)
Fits-Chosen y p v f = record {
  same_events = refl;
  same_count = refl;
  thinned = Thinned-refl y.group_list v.retired;
  low = omega (arith, f.low, v.counted);
  outcome = (f.new_name, f.new_id);
}

-- Each step of a system with the invariant.
pub Step-AllFit : {y z : System} → Inv y → Step y z → AllFit y → AllFit z
unfolding mask_proc emit modify allocate_event_and_containers dazukofs_group_open_tracking
Step-AllFit {y} v (recurse pid) h p e =
    let (_, number, groups) = check_recursion-SameEvents pid y.state in
    Shrinks-Fits p y.state _ (Shrinks-same _ _ groups) number (h p e)
Step-AllFit {y} v (mask proc pid) h p e =
    Shrinks-Fits p y.state _ (Shrinks-same _ _ refl) refl (h p e)
Step-AllFit {y} v (refuse pid ignored) h p e =
    let (_, number, groups) = check_access_precheck-SameEvents y.group_count pid ignored y.state in
    Shrinks-Fits p y.state _ (Shrinks-same _ _ groups) number (h p e)
Step-AllFit {y} v (starve {s} evt_mem mem eq) h p e =
    let (_, number, groups) = allocate_failed mem y.group_count y.state evt_mem s eq in
    Shrinks-Fits p y.state _ (Shrinks-same _ _ groups) number (h p e)
Step-AllFit {y} v (prepare q mem idle unused eq) h p e = absurd (cc)
Step-AllFit {y} v (post {s} q qs first eq) h p e =
    Shrinks-Fits p y.state s (post-Shrinks y v s q qs first eq) (post-count y v s q qs first eq)
      (h p e)
Step-AllFit {y} v (turn_preparing q qs first) h p e = h p e
Step-AllFit {y} v (turn_releasing r rs first) h p e = h p e
Step-AllFit {y} v (finish {s} {r} b waited idle eq) h p e =
    Shrinks-Fits p y.state s (finish-Shrinks y v s r b waited idle eq)
      (finish-count y v s r b waited idle eq) (h p e)
Step-AllFit {y} v (take {s} gid eid r grp c real eq) h p e =
    Shrinks-Fits p y.state s (take-Shrinks gid eid r (found grp c) y.state s eq)
      (take-count gid eid r (found grp c) y.state s eq) (h p e)
Step-AllFit {y} v (settle {s} {v = u} r rs first real eq) h p e =
    Shrinks-Fits p y.state s (settle-Shrinks y v s u r rs first real eq)
      (settle-count y v s u r rs first real eq) (h p e)
Step-AllFit {y} v (unclaim {s} grp ec eq) h p e =
    Shrinks-Fits p y.state s (unclaim-Shrinks grp ec y.state s eq)
      (unclaim-count grp ec y.state s eq) (h p e)
Step-AllFit {y} v (claim {s} {c} grp eq) h p e =
    Shrinks-Fits p y.state s (claim-Shrinks grp c y.state s eq) (claim-count grp c y.state s eq)
      (h p e)
Step-AllFit {y} v (enter {g} gid eq) h p e =
    Shrinks-Fits p y.state _
      (Shrinks-modify g.address hold y.group_list (λ g. (refl, refl, λ h. h))) refl (h p e)
Step-AllFit {y} v (leave {s} grp eq) h p e =
    Shrinks-Fits p y.state s (leave-Shrinks grp y.state s eq) (leave-count grp y.state s eq) (h p e)
Step-AllFit {y} v (choose {c} name track quiet idle eq) h p e =
    goes_on-Fits y name track c p v (choose_id-Inv y v quiet name track c eq).1 e
Step-AllFit {y} v (link q grp_mem name_mem quiet held unused) h p e = absurd (cc)
Step-AllFit {y} v (remove name quiet idle eq) h p e = absurd (cc)
Step-AllFit {y} v (open_device gid) h p e =
    Shrinks-Fits p y.state _ (open-Shrinks (find_active gid y.group_list) y.state)
      (open-count (find_active gid y.group_list) y.state) (h p e)
Step-AllFit {y} v (close_device {s} gid eq stays) h p e =
    Shrinks-Fits p y.state s (dazukofs_group_release_tracking-Withdraws y v gid s eq).1 (stays p e)
      (h p e)
