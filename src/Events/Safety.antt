-- ===== src/Events/Safety.antt =====
-- What the memory invariant means: no dangling event, and no container array that is too short.
use dazukofs_linux.Base.{
  ℕ, ◌+◌, ◌≤◌, ◌<◌, ◌≡◌, false, Option, none, some, List, ◌∷◌, arith, length, count,
}
use dazukofs_linux.Events.State.{Event, State, ok, max_groups}
use dazukofs_linux.Events.Access.{waits, post_event}
use dazukofs_linux.Events.Serve.{found, is_repost, settle_event}
use dazukofs_linux.Events.Tally.{listed, Tally}
use dazukofs_linux.Events.State.{Ret, Group, find_address, >>=-eq-some}
use dazukofs_linux.Events.Release.{release_event}
use dazukofs_linux.Events.Settling.{settle-released, settle-total}
use dazukofs_linux.Events.System.{System, Prepared, Answer, Reach, start, released_events}
use dazukofs_linux.Events.Invariant.{active}
use dazukofs_linux.Events.Invariant.Steps.{reachable-Inv}
use dazukofs_linux.Events.Invariant.Access.{post-Inv, prepared_free}
use dazukofs_linux.Events.Invariant.Answers.{settle-Inv}

live_of_listed :
    (o : Option Event) (n w h : ℕ)
    → Tally o (n + h) w
    → 0 < n
    → (e : Event) × (o ≡ some e) × (n ≤ e.assigned) × (e.assigned ≤ max_groups)
live_of_listed none n w h t more = absurd (omega arith)
live_of_listed (some e) n w h t more = (e, ground arith, ground arith, ground arith)

-- In every reachable state an event that stands in a container of a group is live, and its
-- `assigned` field, at most 10, is at least the number of containers that hold it.
-- The runs leave out that, between the choice of an id and the increment of `group_count` by
-- dazukofs_add_group, a close by the last tracked process of a group removes this group.
pub listed_live :
    {y : System} (a : ℕ)
    → Reach start y
    → 0 < listed a y.group_list
    → (e : Event) × (y.events a ≡ some e)
      × (listed a y.group_list ≤ e.assigned)
      × (e.assigned ≤ max_groups)
listed_live {y} a r more =
    live_of_listed (y.events a) (listed a y.group_list) _ (count a (released_events y.releasing))
      ((reachable-Inv r).tallied a) more

-- In every reachable state an access that has its containers can post its event: the array is long
-- enough for the groups that there are by then.
-- The runs leave out that, between the choice of an id and the increment of `group_count` by
-- dazukofs_add_group, a close by the last tracked process of a group removes this group.
pub post_total :
    {y : System} (p : Prepared) (ps : List Prepared)
    → Reach start y
    → y.preparing ≡ p ∷ ps
    → (s : State) × (post_event p.pid p.dentry p.mnt (some (p.event, p.containers)) y.state
        ≡ some (waits p.event, s))
      × (active y.group_list ≤ length p.containers)
post_total {y} p ps r first =
    let v = reachable-Inv r in
    let (s, eq, _) = post-Inv y v p ps first in (s, eq, (prepared_free y v p ps first).0.1)

-- In every reachable state the event of an answer that is no repost is live at its second section,
-- whatever happened since the first, group removal included; if the group has not been freed since,
-- the section returns 0, and one that returns has found its group.
-- The runs leave out that, between the choice of an id and the increment of `group_count` by
-- dazukofs_add_group, a close by the last tracked process of a group removes this group.
pub settle_total :
    {y : System} (r : Answer) (rs : List Answer)
    → Reach start y
    → y.releasing ≡ r ∷ rs
    → is_repost r.response ≡ false
    → ((e : Event) × (y.events r.container.event ≡ some e))
      × ((g : Group)
          → find_address r.group y.group_list ≡ some g
          → (s : State) × (settle_event r.response (found r.group r.container) y.state
              ≡ some (ok 0, s)))
      × ((u : Ret) (t : State)
          → settle_event r.response (found r.group r.container) y.state ≡ some (u, t)
          → (g : Group) × (find_address r.group y.group_list ≡ some g))
unfolding release_event
settle_total {y} r rs reach first real =
    let (s, eq, same, _) = settle-Inv y (reachable-Inv reach) r rs first in
    let (e, live, _) = >>=-eq-some (y.events r.container.event) _ eq in
    (
      (e, live),
      (λ g there.
          (_, settle-total r.group r.container r.response real y.state s eq g (rw same there))),
      λ u t returned.
          (let (_, g, there) =
              settle-released r.group r.container r.response real y.state s eq u t returned in
            (g, rw same at there)),
    )
