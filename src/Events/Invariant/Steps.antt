-- ===== src/Events/Invariant/Steps.antt =====
-- Every step of the system keeps the memory invariant, so that it holds in every reachable state.
use mathlib.Core.Path.{subst}
use dazukofs_linux.Base.{erase, ℕ, ◌≡◌, refl, Option, none, some, ◌∷◌, arith}
use dazukofs_linux.Events.State.{Group, State, emit, modify}
use dazukofs_linux.Events.Access.{mask_proc}
use dazukofs_linux.Events.Serve.{hold, unhold}
use dazukofs_linux.Events.System.{
  System, with_state, Step, recurse, mask, refuse, starve, prepare, post, turn_preparing,
  turn_releasing, finish, take, settle, unclaim, claim, enter, leave, choose, link, Adding, goes_on,
  remove, open_device, close_device, Reach, here, next, start,
}
use dazukofs_linux.Events.Invariant.{Inv, Inv-touch, start-Inv}
use dazukofs_linux.Events.Invariant.Small.{
  SameEvents-Inv, check_recursion-SameEvents, check_access_precheck-SameEvents, allocate_failed,
  prepare-Inv, turn_preparing-Inv, turn_releasing-Inv,
}
use dazukofs_linux.Events.Invariant.Access.{post-Inv, finish-Inv}
use dazukofs_linux.Events.Settling.{settle-released, let_group_go-modify}
use dazukofs_linux.Events.Invariant.Answers.{claim-Inv, unclaim-Inv, take-Inv, settle-Inv}
use dazukofs_linux.Events.Invariant.Removal.{
  dazukofs_remove_group-Inv, dazukofs_group_open_tracking-Inv, dazukofs_group_release_tracking-Inv,
}
use dazukofs_linux.Events.Invariant.Outcomes.{choose_id-Inv, add_chosen-Inv}

-- Two results of one call are the same state.
same_state {ℓ} :
    {A : Type 0} (P : State → Type ℓ) {o : Option (A × State)} {a b : A} {s t : State}
    → o ≡ some (a, s)
    → o ≡ some (b, t)
    → P s
    → P t
same_state P {s} {t} e f w = let same : s ≡ t = ground arith in subst P same w

same_plain_state {ℓ} :
    (P : State → Type ℓ) {o : Option State} {s t : State} → o ≡ some s → o ≡ some t → P s → P t
same_plain_state P {s} {t} e f w = let same : s ≡ t = ground arith in subst P same w

touched-Inv :
    (y : System) (p : ℕ) (f : Group → Group)
    → Inv y
    → ((g : Group)
        → ((f g).address ≡ g.address)
          × ((f g).deprecated ≡ g.deprecated)
          × ((f g).working_list ≡ g.working_list)
          × ((f g).todo_list ≡ g.todo_list))
    → Inv (with_state (modify p f y.state) y)
unfolding modify
touched-Inv y p f v plain = Inv-touch y (modify p f y.state) p f v refl refl refl plain

Inv-adding : (y : System) (o : Option Adding) → Inv y → Inv (record y { adding = o })
Inv-adding y o v = record {
  tallied = v.tallied;
  placed = v.placed;
  retired = v.retired;
  counted = v.counted;
  few = v.few;
  ready = v.ready;
}

-- Every step keeps the memory invariant, whichever process runs it.
pub Step-Inv : {y z : System} → Step y z → Inv y → Inv z
unfolding mask_proc emit
Step-Inv {y} (recurse pid) v = SameEvents-Inv y _ v (check_recursion-SameEvents pid y.state)
Step-Inv {y} (mask proc pid) v = SameEvents-Inv y _ v (refl, refl, refl)
Step-Inv {y} (refuse pid ignored) v =
    SameEvents-Inv y _ v (check_access_precheck-SameEvents y.group_count pid ignored y.state)
Step-Inv {y} (starve evt_mem mem e) v =
    SameEvents-Inv y _ v (allocate_failed mem y.group_count y.state evt_mem _ e)
Step-Inv {y} (prepare p mem idle unused e) v = prepare-Inv y v _ p mem unused e
Step-Inv {y} (post p ps first e) v =
    let (s, eq, w) = post-Inv y v p ps first in
    same_state (λ t. Inv (record y { state = t; preparing = ps; waiting = p.event ∷ y.waiting })) eq
      e w
Step-Inv {y} (turn_preparing p ps first) v = turn_preparing-Inv y p ps v first
Step-Inv {y} (turn_releasing r rs first) v = turn_releasing-Inv y r rs v first
Step-Inv {y} (finish a waited idle e) v =
    let (evt, s, _, eq, _, w) = finish-Inv y v a waited idle in
    same_state (λ t. Inv (record y { state = t; waiting = erase a y.waiting })) eq e w
Step-Inv {y} (take gid eid r grp c real e) v = take-Inv y gid eid r grp c _ v real e
Step-Inv {y} (settle r rs first real e) v =
    let (s, eq, _, w) = settle-Inv y v r rs first in
    let (at_end, _, _) = settle-released r.group r.container r.response real y.state s eq _ _ e in
    subst (λ t. Inv (record y { state = t; releasing = rs })) at_end w
Step-Inv {y} (unclaim grp ec e) v = unclaim-Inv y grp ec _ v e
Step-Inv {y} (claim grp e) v = claim-Inv y grp _ _ v e
Step-Inv {y} (enter {g} gid e) v = touched-Inv y g.address hold v (λ g. (refl, refl, refl, refl))
Step-Inv {y} (leave {s} grp e) v =
    subst (λ t. Inv (with_state t y)) (let_group_go-modify grp y.state s e)
      (touched-Inv y grp unhold v (λ g. (refl, refl, refl, refl)))
Step-Inv {y} (choose {c} name track quiet idle e) v =
    Inv-adding _ (goes_on name track c) (choose_id-Inv y v quiet name track c e).0
Step-Inv {y} (link p grp_mem name_mem quiet held unused) v =
    Inv-adding _ none (add_chosen-Inv y v quiet p.name p.track p.id grp_mem name_mem unused)
Step-Inv {y} (remove name quiet idle e) v =
    let (s, eq, w) = dazukofs_remove_group-Inv y v name in
    same_state (λ t. Inv (with_state t y)) eq e w
Step-Inv {y} (open_device gid) v = dazukofs_group_open_tracking-Inv y v gid
Step-Inv {y} (close_device gid e stays) v =
    let (s, eq, w) = dazukofs_group_release_tracking-Inv y v gid in
    same_plain_state (λ t. Inv (with_state t y)) eq e w

pub Reach-Inv : {y z : System} → Inv y → Reach y z → Inv z
Reach-Inv v here = v
Reach-Inv v (next r st) = Step-Inv st (Reach-Inv v r)

-- In every state that the steps of System reach from the start of the module, each event's assigned
-- count is the number of its holders, freed events have none, deprecated groups are empty,
-- `group_count` counts the active groups and is at most 10.
-- The runs leave out that, between the choice of an id and the increment of `group_count` by
-- dazukofs_add_group, a close by the last tracked process of a group removes this group.
pub reachable-Inv : {y : System} → Reach start y → Inv y
reachable-Inv r = Reach-Inv start-Inv r
