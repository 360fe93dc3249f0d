-- ===== src/Events/Quiet.antt =====
-- The calls of event.c that leave every event as it is.
use mathlib.Core.Path.{subst}
use dazukofs_linux.Base.{
  ℕ, ◌≡◌, refl, inl, inr, Bool, Option, none, some, List, [], ◌∷◌, arith, Option-cases,
}
use dazukofs_linux.Events.State.{
  Group, Container, Response, Effect, State, >>=-eq-some, emit, emit_all, modify, find_address,
}
use dazukofs_linux.Events.Groups.{add_chosen, link_group, create_group, Choice}
use dazukofs_linux.Events.Serve.{
  take_event, take_event_from, take_found, claim_event, claim_first, unclaim_event, Lookup,
  find_working, hold, unlink, find_active, dazukofs_group_open_tracking, open_found,
}

pub some_inj : {A : Type 0} {x y : A} → some x ≡ some y → x ≡ y
some_inj h = cc

link_group-events :
    (o : Option Group × List Effect) (s : State) → (link_group o s).1.events ≡ s.events
unfolding link_group emit_all
link_group-events (none, xs) s = refl
link_group-events (some g, xs) s = refl

pub add_chosen-events :
    (grp_mem : Option ℕ) (name_mem : Bool) (name : List ℕ) (track : Bool) (c : Choice)
    → (add_chosen grp_mem name_mem name track c).1.events ≡ c.state.events
unfolding add_chosen
add_chosen-events grp_mem name_mem name track c =
    ground (arith, link_group-events (create_group grp_mem name_mem name c.id track) c.state)

take_found-events :
    (g : Group) (o : Option (Container × List Container)) (r : Response) (s : State)
    → (take_found g o r s).1.events ≡ s.events
unfolding take_found emit modify
take_found-events g none r s = refl
take_found-events g (some (c, rest)) r s = ground arith

pub take-events :
    (gid eid : ℕ) (r : Response) (x : Lookup) (s t : State)
    → take_event gid eid r s ≡ some (x, t)
    → t.events ≡ s.events
unfolding take_event take_event_from modify
take-events gid eid r x s t e = elim (Option-cases (find_active gid s.group_list)) [
  | inl missing ↦ (let e1 = rw missing at e in ground arith)
  | inr (g, hit) ↦
      (let (o, e2, e3) = >>=-eq-some (find_working eid g.working_list s) _ (rw hit at e) in
        let at_end : (take_found g o r (modify g.address hold s)).1 ≡ t = ground arith in
        subst (λ u. u.events ≡ s.events) at_end (take_found-events g o r (modify g.address hold s)))
]

claim_first-events :
    (grp : ℕ) (g : Group) (cs : List Container) (s : State)
    → (claim_first grp g cs s).1.events ≡ s.events
unfolding claim_first modify
claim_first-events grp g [] s = refl
claim_first-events grp g (c ∷ cs) s = refl

pub claim-events :
    (grp : ℕ) (c : Option Container) (s t : State)
    → claim_event grp s ≡ some (c, t)
    → t.events ≡ s.events
unfolding claim_event
claim-events grp c s t e =
    let (g, here, e1) = >>=-eq-some (find_address grp s.group_list) _ e in
    let at_end : (claim_first grp g g.todo_list s).1 ≡ t = ground arith in
    subst (λ u. u.events ≡ s.events) at_end (claim_first-events grp g g.todo_list s)

pub unclaim-events :
    (grp ec : ℕ) (s t : State) → unclaim_event grp ec s ≡ some t → t.events ≡ s.events
unfolding unclaim_event emit_all modify
unclaim-events grp ec s t e =
    let (g, here, e1) = >>=-eq-some (find_address grp s.group_list) _ e in
    let ((c, h), e2, e3) = >>=-eq-some (unlink ec g) _ e1 in ground arith

open_found-events : (o : Option Group) (s : State) → (open_found o s).1.events ≡ s.events
unfolding open_found modify
open_found-events none s = refl
open_found-events (some g) s = ground arith

pub open_tracking-events :
    (gid : ℕ) (s : State) → (dazukofs_group_open_tracking gid s).1.events ≡ s.events
unfolding dazukofs_group_open_tracking
open_tracking-events gid s = open_found-events (find_active gid s.group_list) s
