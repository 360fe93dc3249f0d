-- ===== src/Events/Settling.antt =====
-- The second section of dazukofs_return_event for an answer that is no repost: the event is released,
-- and then the group let go.
use dazukofs_linux.Base.{◌≡◌, refl, ℕ, true, false, some, arith}
use dazukofs_linux.Events.State.{
  Group, Container, Response, State, Ret, ok, ◌>>=◌, >>=-eq-some, modify, find_address,
}
use dazukofs_linux.Events.Release.{release_event}
use dazukofs_linux.Events.Serve.{settle_event, let_group_go, found, unhold, is_deny, is_repost}

pub let_group_go-modify :
    (grp : ℕ) (s t : State) → let_group_go grp s ≡ some t → modify grp unhold s ≡ t
unfolding let_group_go
let_group_go-modify grp s t e =
    let (g, there, e1) = >>=-eq-some (find_address grp s.group_list) _ e in ground arith

module _ (grp : ℕ) (c : Container) (r : Response) (real : is_repost r ≡ false) (s s1 : State)
    (released : release_event c.event true (is_deny r) s ≡ some s1) where
  -- A section that returns has found its group.
  pub settle-released :
      (u : Ret) (t : State)
      → settle_event r (found grp c) s ≡ some (u, t)
      → (modify grp unhold s1 ≡ t) × (g : Group) × (find_address grp s1.group_list ≡ some g)
  unfolding settle_event let_group_go
  settle-released u t e =
      let (t1, e1, e2) = >>=-eq-some (let_group_go grp s1) _ (rw (real, released, ◌>>=◌) at e) in
      let (g, there, e3) = >>=-eq-some (find_address grp s1.group_list) _ e1 in
      (ground arith, g, there)

  -- With its group there, it returns.
  pub settle-total :
      (g : Group)
      → find_address grp s1.group_list ≡ some g
      → settle_event r (found grp c) s ≡ some (ok 0, modify grp unhold s1)
  unfolding settle_event let_group_go
  settle-total g there = rw (real, released, ◌>>=◌, there) refl
