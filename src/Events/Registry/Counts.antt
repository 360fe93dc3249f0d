-- ===== src/Events/Registry/Counts.antt =====
-- The calls of event.c that leave `group_count` as it is.
use mathlib.Core.Path.{subst}
use dazukofs_linux.Base.{
  ℕ, ◌<◌, ◌≡◌, refl, sym, ap, inl, inr, false, Option, none, some, List, [], ◌∷◌, arith,
  Option-cases, count, ==_refl,
}
use dazukofs_linux.Events.State.{
  Group, Container, Response, State, Ret, >>=-eq-some, emit, emit_all, modify, find_address,
}
use dazukofs_linux.Events.Release.{release_assigned, mark_deny, event_assigned, drop_event}
use dazukofs_linux.Events.Access.{post_event, finish_access, waits}
use dazukofs_linux.Events.Settling.{settle-released, let_group_go-modify}
use dazukofs_linux.Events.Serve.{
  let_group_go, settle_event, take_event, take_event_from, take_found, claim_event, claim_first,
  unclaim_event, found, is_deny, is_repost, Lookup, find_working, hold, unhold, unlink, find_active,
  open_found,
}
use dazukofs_linux.Events.System.{System, Prepared, Answer}
use dazukofs_linux.Events.Invariant.{Inv, holders}
use dazukofs_linux.Events.Invariant.Access.{
  finish_access-eq, prepared_live, prepared_zero, prepared_free, waiting_live,
}
use dazukofs_linux.Events.Invariant.Posting.{post_event-Assigned}
use dazukofs_linux.Events.Tally.{Tally, live_of_held, release_event-eq, release_assigned-groups}

take_found-count :
    (g : Group) (o : Option (Container × List Container)) (r : Response) (s : State)
    → (take_found g o r s).1.group_count ≡ s.group_count
unfolding take_found emit modify
take_found-count g none r s = refl
take_found-count g (some (c, rest)) r s = ground arith

pub take-count :
    (gid eid : ℕ) (r : Response) (x : Lookup) (s t : State)
    → take_event gid eid r s ≡ some (x, t)
    → t.group_count ≡ s.group_count
unfolding take_event take_event_from modify
take-count gid eid r x s t e = elim (Option-cases (find_active gid s.group_list)) [
  | inl missing ↦ (let e1 = rw missing at e in ground arith)
  | inr (g, hit) ↦
      (let (o, e2, e3) = >>=-eq-some (find_working eid g.working_list s) _ (rw hit at e) in
        let at_end : (take_found g o r (modify g.address hold s)).1 ≡ t = ground arith in
        subst (λ u. u.group_count ≡ s.group_count) at_end
          (take_found-count g o r (modify g.address hold s)))
]

claim_first-count :
    (grp : ℕ) (g : Group) (cs : List Container) (s : State)
    → (claim_first grp g cs s).1.group_count ≡ s.group_count
unfolding claim_first modify
claim_first-count grp g [] s = refl
claim_first-count grp g (c ∷ cs) s = refl

pub claim-count :
    (grp : ℕ) (c : Option Container) (s t : State)
    → claim_event grp s ≡ some (c, t)
    → t.group_count ≡ s.group_count
unfolding claim_event
claim-count grp c s t e =
    let (g, here, e1) = >>=-eq-some (find_address grp s.group_list) _ e in
    let at_end : (claim_first grp g g.todo_list s).1 ≡ t = ground arith in
    subst (λ u. u.group_count ≡ s.group_count) at_end (claim_first-count grp g g.todo_list s)

pub unclaim-count :
    (grp ec : ℕ) (s t : State) → unclaim_event grp ec s ≡ some t → t.group_count ≡ s.group_count
unfolding unclaim_event emit_all modify
unclaim-count grp ec s t e =
    let (g, here, e1) = >>=-eq-some (find_address grp s.group_list) _ e in
    let ((c, h), e2, e3) = >>=-eq-some (unlink ec g) _ e1 in ground arith

pub leave-count :
    (grp : ℕ) (s t : State) → let_group_go grp s ≡ some t → t.group_count ≡ s.group_count
unfolding modify
leave-count grp s t e = ap (λ u. u.group_count) (sym (let_group_go-modify grp s t e))

pub open-count : (o : Option Group) (s : State) → (open_found o s).1.group_count ≡ s.group_count
unfolding open_found modify
open-count none s = refl
open-count (some g) s = ground arith

module _ (y : System) (v : Inv y) where
  pub post-count :
      (s : State) (p : Prepared) (ps : List Prepared)
      → y.preparing ≡ p ∷ ps
      → post_event p.pid p.dentry p.mnt (some (p.event, p.containers)) y.state
        ≡ some (waits p.event, s)
      → s.group_count ≡ y.group_count
  post-count s p ps first e =
      let (evt, live) = prepared_live y v p ps first in
      let idle = prepared_zero y v p ps first evt live in
      let (t, eq, h) =
        post_event-Assigned p.pid p.dentry p.mnt p.event p.containers y.state evt live idle v.few
          (prepared_free y v p ps first).0.1 in
      let same : t ≡ s = ground arith in
      subst (λ u. u.group_count ≡ y.group_count) same h.same_count

  pub finish-count :
      (s : State) (r : Ret) (a : ℕ)
      → 0 < count a y.waiting
      → event_assigned a y.state ≡ some 0
      → finish_access a y.state ≡ some (r, s)
      → s.group_count ≡ y.group_count
  unfolding event_assigned drop_event emit_all
  finish-count s r a waited idle e =
      let (evt, live) = waiting_live y v a waited in
      let none_left : evt.assigned ≡ 0 = ground arith in
      let done = finish_access-eq a y.state evt live none_left in
      let same : drop_event a evt y.state ≡ s = ground arith in ap (λ u. u.group_count) (sym same)

  pub settle-count :
      (s : State) (u : Ret) (r : Answer) (rs : List Answer)
      → y.releasing ≡ r ∷ rs
      → is_repost r.response ≡ false
      → settle_event r.response (found r.group r.container) y.state ≡ some (u, s)
      → s.group_count ≡ y.group_count
  unfolding count
  settle-count s u r rs first real e =
      let t = v.tallied r.container.event in
      let more : 0 < holders y r.container.event =
        rw first (ground (arith, ==_refl r.container.event)) in
      let (evt, live) = live_of_held (y.events r.container.event) _ _ t more in
      let tally : Tally (some evt) (holders y r.container.event) _ = rw live at t in
      let done = release_event-eq r.container.event (is_deny r.response) y.state evt live in
      let at_end : modify r.group unhold
            (release_assigned r.container.event (mark_deny (is_deny r.response) evt) y.state)
          ≡ s =
        (settle-released r.group r.container r.response real y.state _ done u s e).0 in
      subst (λ x. x.group_count ≡ y.group_count) at_end
        (unfold modify in
          (release_assigned-groups r.container.event (is_deny r.response) y.state evt tally.2).1)
