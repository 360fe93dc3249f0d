-- ===== src/Events/Registry/Calls.antt =====
-- The calls of event.c make no group active that was not, but for the one that dazukofs_add_group
-- appends.
use mathlib.Core.Path.{subst}
use dazukofs_linux.Base.{
  ℕ, ◌<◌, ◌≡◌, refl, sym, ap, inl, inr, Bool, false, Option, none, some, List, [], ◌∷◌, arith,
  Bool-cases, ==_refl, count, Option-cases,
}
use dazukofs_linux.Events.State.{
  Group, Container, Response, State, Ret, >>=-eq-some, emit, emit_all, modify, find_address,
}
use dazukofs_linux.Events.Release.{release_assigned, mark_deny, event_assigned, drop_event}
use dazukofs_linux.Events.Groups.{add_chosen}
use dazukofs_linux.Events.Access.{post_event, finish_access, waits}
use dazukofs_linux.Events.Settling.{settle-released, let_group_go-modify}
use dazukofs_linux.Events.Serve.{
  let_group_go, settle_event, take_event, take_event_from, take_found, claim_event, claim_first,
  unclaim_event, found, is_deny, is_repost, Lookup, find_working, hold, unhold, unlink, find_active,
  open_found,
}
use dazukofs_linux.Events.Pointers.{addresses}
use dazukofs_linux.Events.System.{System, Prepared, Answer, Adding, chosen}
use dazukofs_linux.Events.Invariant.{Inv}
use dazukofs_linux.Events.Invariant.Access.{
  finish_access-eq, prepared_live, prepared_zero, prepared_free,
}
use dazukofs_linux.Events.Invariant.Posting.{post_event-Assigned}
use dazukofs_linux.Events.Invariant.{holders}
use dazukofs_linux.Events.Invariant.Access.{waiting_live}
use dazukofs_linux.Events.Tally.{Tally, live_of_held, release_event-eq}
use dazukofs_linux.Events.State.{modify_group}
use dazukofs_linux.Events.Settling.{settle-released}
use dazukofs_linux.Events.Serve.{set_working, set_lists, open_track, unlink}
use dazukofs_linux.Events.Invariant.Outcomes.{
  Adds, existing, no_room, no_memory, appended, add_chosen-Adds,
}
use dazukofs_linux.Events.Invariant.Adding.{Chosen}
use dazukofs_linux.Events.Tally.{release_assigned-groups}
use dazukofs_linux.Events.Registry.{
  Registered, Shrinks, Shrinks-Registered, Shrinks-refl, Shrinks-same, Shrinks-trans,
  Shrinks-modify, Keeps-Shrinks, Appends-Registered,
}

-- The outcomes of dazukofs_add_group.
pub Adds-Registered :
    (name : List ℕ) (s t : State) (r : Ret)
    → Adds name s r t
    → Registered s.group_list
    → Registered t.group_list
Adds-Registered name s t r (existing there k) h = Shrinks-Registered _ _ (Keeps-Shrinks _ _ k) h
Adds-Registered name s t r (no_room new full k) h = Shrinks-Registered _ _ (Keeps-Shrinks _ _ k) h
Adds-Registered name s t r (no_memory new room k) h = Shrinks-Registered _ _ (Keeps-Shrinks _ _ k) h
Adds-Registered name s t r (appended id more) h = Appends-Registered name _ _ id more h

pub claim-Shrinks :
    (grp : ℕ) (c : Option Container) (s t : State)
    → claim_event grp s ≡ some (c, t)
    → Shrinks s.group_list t.group_list
unfolding claim_event
claim-Shrinks grp c s t e =
    let (g, here, e1) = >>=-eq-some (find_address grp s.group_list) _ e in
    let at_end : (claim_first grp g g.todo_list s).1 ≡ t = ground arith in
    subst (λ u. Shrinks s.group_list u.group_list) at_end (first g g.todo_list)
  where
    first :
        (g : Group) (cs : List Container)
        → Shrinks s.group_list (claim_first grp g cs s).1.group_list
    first g [] = unfold claim_first in Shrinks-refl s.group_list
    first g (c ∷ cs) =
        unfold claim_first modify in
        Shrinks-modify grp (set_lists (c ∷ g.working_list) cs) s.group_list
          (λ g. (refl, refl, λ h. h))

pub unclaim-Shrinks :
    (grp ec : ℕ) (s t : State) → unclaim_event grp ec s ≡ some t → Shrinks s.group_list t.group_list
unfolding unclaim_event emit_all modify
unclaim-Shrinks grp ec s t e =
    let (g, here, e1) = >>=-eq-some (find_address grp s.group_list) _ e in
    let ((c, h), e2, e3) = >>=-eq-some (unlink ec g) _ e1 in
    let groups : modify_group grp (set_lists h.working_list (c ∷ h.todo_list)) s.group_list
        ≡ t.group_list =
      ground arith in
    subst (Shrinks s.group_list) groups (
      Shrinks-modify grp (set_lists h.working_list (c ∷ h.todo_list)) s.group_list
        (λ g. (refl, refl, λ h. h)))

pub take-Shrinks :
    (gid eid : ℕ) (r : Response) (x : Lookup) (s t : State)
    → take_event gid eid r s ≡ some (x, t)
    → Shrinks s.group_list t.group_list
unfolding take_event take_event_from modify
take-Shrinks gid eid r x s t e = elim (Option-cases (find_active gid s.group_list)) [
  | inl missing ↦ (let e1 = rw missing at e in Shrinks-same _ _ (ground arith))
  | inr (g, hit) ↦
      (let (o, e2, e3) = >>=-eq-some (find_working eid g.working_list s) _ (rw hit at e) in
        let at_end : (take_found g o r (modify g.address hold s)).1 ≡ t = ground arith in
        subst (λ u. Shrinks s.group_list u.group_list) at_end (taken g o))
]
  where
    taken :
        (g : Group) (o : Option (Container × List Container))
        → Shrinks s.group_list (take_found g o r (modify g.address hold s)).1.group_list
    taken g none =
        unfold take_found modify in
        Shrinks-modify g.address hold s.group_list (λ g. (refl, refl, λ h. h))
    taken g (some (c, rest)) =
        unfold take_found modify emit in
        elim (Bool-cases (is_repost r)) [
          | inl back ↦
              rw back (Shrinks-modify g.address hold s.group_list (λ g. (refl, refl, λ h. h)))
          | inr real ↦ rw real (
              Shrinks-trans _ _ _
                (Shrinks-modify g.address hold s.group_list (λ g. (refl, refl, λ h. h)))
                (Shrinks-modify g.address (set_working rest)
                  (modify_group g.address hold s.group_list) (λ g. (refl, refl, λ h. h))))
        ]

pub leave-Shrinks :
    (grp : ℕ) (s t : State) → let_group_go grp s ≡ some t → Shrinks s.group_list t.group_list
unfolding modify
leave-Shrinks grp s t e =
    subst (λ u. Shrinks s.group_list u.group_list) (let_group_go-modify grp s t e)
      (Shrinks-modify grp unhold s.group_list (λ g. (refl, refl, λ h. h)))

pub open-Shrinks :
    (o : Option Group) (s : State) → Shrinks s.group_list (open_found o s).1.group_list
unfolding open_found modify
open-Shrinks none s = Shrinks-refl s.group_list
open-Shrinks (some g) s = elim (Bool-cases g.tracking) [
  | inl on ↦ rw on (Shrinks-modify g.address open_track s.group_list (λ g. (refl, refl, λ h. h)))
  | inr off ↦ rw off (Shrinks-refl s.group_list)
]

module _ (y : System) (v : Inv y) where
  pub post-Shrinks :
      (s : State) (p : Prepared) (ps : List Prepared)
      → y.preparing ≡ p ∷ ps
      → post_event p.pid p.dentry p.mnt (some (p.event, p.containers)) y.state
        ≡ some (waits p.event, s)
      → Shrinks y.group_list s.group_list
  post-Shrinks s p ps first e =
      let (evt, live) = prepared_live y v p ps first in
      let idle = prepared_zero y v p ps first evt live in
      let (t, eq, h) =
        post_event-Assigned p.pid p.dentry p.mnt p.event p.containers y.state evt live idle v.few
          (prepared_free y v p ps first).0.1 in
      let same : t ≡ s = ground arith in
      subst (λ u. Shrinks y.group_list u.group_list) same
        (Keeps-Shrinks y.group_list t.group_list
          (record { ids = h.same_ids; names = h.same_names }))

  pub finish-Shrinks :
      (s : State) (r : Ret) (a : ℕ)
      → 0 < count a y.waiting
      → event_assigned a y.state ≡ some 0
      → finish_access a y.state ≡ some (r, s)
      → Shrinks y.group_list s.group_list
  unfolding event_assigned drop_event emit_all
  finish-Shrinks s r a waited idle e =
      let (evt, live) = waiting_live y v a waited in
      let none_left : evt.assigned ≡ 0 = ground arith in
      let done = finish_access-eq a y.state evt live none_left in
      let same : drop_event a evt y.state ≡ s = ground arith in
      Shrinks-same _ _ (ap (λ u. u.group_list) (sym same))

  pub settle-Shrinks :
      (s : State) (u : Ret) (r : Answer) (rs : List Answer)
      → y.releasing ≡ r ∷ rs
      → is_repost r.response ≡ false
      → settle_event r.response (found r.group r.container) y.state ≡ some (u, s)
      → Shrinks y.group_list s.group_list
  unfolding count
  settle-Shrinks s u r rs first real e =
      let t = v.tallied r.container.event in
      let more : 0 < holders y r.container.event =
        rw first (ground (arith, ==_refl r.container.event)) in
      let (evt, live) = live_of_held (y.events r.container.event) _ _ t more in
      let tally : Tally (some evt) (holders y r.container.event) _ = rw live at t in
      let done = release_event-eq r.container.event (is_deny r.response) y.state evt live in
      let released =
        release_assigned r.container.event (mark_deny (is_deny r.response) evt) y.state in
      let groups =
        (release_assigned-groups r.container.event (is_deny r.response) y.state evt tally.2).0 in
      let at_end : modify r.group unhold released ≡ s =
        (settle-released r.group r.container r.response real y.state released done u s e).0 in
      subst (λ x. Shrinks y.group_list x.group_list) at_end
        (unfold modify in
          Shrinks-trans _ _ _ (Shrinks-same y.group_list released.group_list groups)
            (Shrinks-modify r.group unhold released.group_list (λ g. (refl, refl, λ h. h))))

  pub add_chosen-Registered :
      (p : Adding) (grp_mem : Option ℕ) (name_mem : Bool)
      → y.preparing ≡ []
      → ((a : ℕ) → grp_mem ≡ some a → count a (addresses y.group_list) ≡ 0)
      → Chosen p.name y.state (chosen p y.state)
      → Registered y.group_list
      → Registered (add_chosen grp_mem name_mem p.name p.track (chosen p y.state)).1.group_list
  add_chosen-Registered p grp_mem name_mem quiet unused c h =
      Adds-Registered p.name y.state _ _
        (add_chosen-Adds y v quiet p.name p.track (chosen p y.state) grp_mem name_mem c refl unused)
        h
