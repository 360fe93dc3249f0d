-- ===== src/Events/Invariant/Posting.antt =====
-- What posting an event does to the groups, and that it keeps the memory invariant.
use dazukofs_linux.Base.{
  ℕ, ◌+◌, ◌≤◌, ◌<◌, ◌≡◌, refl, true, false, some, List, [], ◌∷◌, ◌++◌, arith, ◌==◌, if◌then◌else◌,
  length, count, inc32, inc32_lem, Bool-cases, inl, inr, sign_extend, ==_refl,
}
use dazukofs_linux.Events.State.{
  Event, Container, Group, State, max_groups, ◌>>=◌, update, emit_all, put_event, get_pid, dget,
  mntget,
}
use dazukofs_linux.Events.Access.{
  Posting, post_groups, post_to, queued, assign_event_to_groups, post_event, waits,
}
use dazukofs_linux.Events.Tally.{refs, held, listed}
use dazukofs_linux.Events.Pointers.{addresses, All}
use dazukofs_linux.Events.Invariant.{Retired, active}
use dazukofs_linux.Events.Invariant.Thinning.{active_ids, named}

pub refs-append : (a : ℕ) (xs ys : List Container) → refs a (xs ++ ys) ≡ refs a xs + refs a ys
refs-append a [] ys = omega arith
refs-append a (x ∷ xs) ys = omega (arith, refs-append a xs ys)

-- Every group that is not deprecated has one container more, and the event counts them all.
pub record Posts (a : ℕ) (e : Event) (gs : List Group) (cs : List ℕ) (p : Posting) : Type 0 where
  pub assigned : p.event ≡ record e { assigned = e.assigned + active gs }
  pub listed_more : (b : ℕ) → listed b p.groups ≡ listed b gs + (if a == b then active gs else 0)
  pub same_addresses : addresses p.groups ≡ addresses gs
  pub same_active : active p.groups ≡ active gs
  pub same_ids : active_ids p.groups ≡ active_ids gs
  pub same_names : (name : List ℕ) → named name p.groups ≡ named name gs
  pub still_retired : All Retired gs → All Retired p.groups
  pub left_over : length p.unused + active gs ≡ length cs

held-post :
    (a b c : ℕ) (g : Group)
    → held b (record g { todo_list = g.todo_list ++ queued c a ∷ [] })
      ≡ held b g + (if a == b then 1 else 0)
unfolding count
held-post a b c g = ground (arith, refs-append b g.todo_list (queued c a ∷ []))

module _ (a : ℕ) (e : Event) (g : Group) (gs : List Group) where
  Posts-skip :
      (cs : List ℕ) (p : Posting)
      → g.deprecated ≡ true
      → Posts a e gs cs p
      → Posts a e (g ∷ gs) cs (record p { groups = g ∷ p.groups })
  Posts-skip cs p old h = record {
    assigned = ground (arith, h.assigned);
    listed_more = λ b. ground (arith, h.listed_more b);
    same_addresses = ground (arith, h.same_addresses);
    same_active = ground (arith, h.same_active);
    same_ids = ground (arith, h.same_ids);
    same_names = λ name. ground (arith, h.same_names name);
    still_retired = λ r. (r.0, h.still_retired r.1);
    left_over = ground (arith, h.left_over);
  }

  Posts-post :
      (c : ℕ) (cs : List ℕ) (p : Posting)
      → g.deprecated ≡ false
      → e.assigned < max_groups
      → Posts a (record e { assigned = inc32 e.assigned }) gs cs p
      → Posts a e (g ∷ gs) (c ∷ cs) (post_to a c g p)
  Posts-post c cs p new small h = record {
    assigned = ground (arith, h.assigned, inc32_lem e.assigned);
    listed_more = λ b. ground (arith, h.listed_more b, held-post a b c g);
    same_addresses = ground (arith, h.same_addresses);
    same_active = ground (arith, h.same_active);
    same_ids = ground (arith, h.same_ids);
    same_names = λ name. ground (arith, h.same_names name);
    still_retired = λ r. ((λ old. cc), h.still_retired r.1);
    left_over = ground (arith, h.left_over);
  }

pub post_groups-Posts :
    (gs : List Group) (a : ℕ) (e : Event) (cs : List ℕ)
    → e.assigned + active gs ≤ max_groups
    → active gs ≤ length cs
    → (p : Posting) × (post_groups gs a e cs ≡ some p) × Posts a e gs cs p
unfolding post_groups
post_groups-Posts [] a e cs small enough = (
  _,
  refl,
  record {
    assigned = ground arith;
    listed_more = λ b. ground arith;
    same_addresses = refl;
    same_active = refl;
    same_ids = refl;
    same_names = λ name. refl;
    still_retired = λ h. h;
    left_over = omega arith;
  },
)
post_groups-Posts (g ∷ gs) a e [] small enough = elim (Bool-cases g.deprecated) [
  | inl old ↦
      let (p, eq, h) = post_groups-Posts gs a e [] (ground arith) (ground arith) in
      (record p { groups = g ∷ p.groups }, rw (old, eq, ◌>>=◌), Posts-skip a e g gs [] p old h)
  | inr new ↦ absurd (ground arith)
]
post_groups-Posts (g ∷ gs) a e (c ∷ cs) small enough = elim (Bool-cases g.deprecated) [
  | inl old ↦
      let (p, eq, h) = post_groups-Posts gs a e (c ∷ cs) (ground arith) (ground arith) in
      (
        record p { groups = g ∷ p.groups },
        rw (old, eq, ◌>>=◌),
        Posts-skip a e g gs (c ∷ cs) p old h,
      )
  | inr new ↦
      let (p, eq, h) =
        post_groups-Posts gs a (record e { assigned = inc32 e.assigned }) cs
          (ground (arith, inc32_lem e.assigned)) (ground arith) in
      (post_to a c g p, rw (new, eq, ◌>>=◌), Posts-post a e g gs c cs p new (ground arith) h)
]

-- The event after assign_event_to_groups, and what has changed with it.
pub record Assigned (a : ℕ) (e : Event) (s s' : State) : Type 0 where
  pub id : ℕ
  pub stored :
      (b : ℕ)
      → s'.events b
        ≡ update s.events a (some (record e { event_id = id; assigned = active s.group_list })) b
  pub listed_more :
      (b : ℕ)
      → listed b s'.group_list ≡ listed b s.group_list + (if a == b then active s.group_list else 0)
  pub same_addresses : addresses s'.group_list ≡ addresses s.group_list
  pub same_active : active s'.group_list ≡ active s.group_list
  pub same_ids : active_ids s'.group_list ≡ active_ids s.group_list
  pub same_names : (name : List ℕ) → named name s'.group_list ≡ named name s.group_list
  pub still_retired : All Retired s.group_list → All Retired s'.group_list
  pub same_count : s'.group_count ≡ s.group_count

assign_event_to_groups-Assigned :
    (a : ℕ) (cs : List ℕ) (s : State) (e : Event)
    → s.events a ≡ some e
    → e.assigned ≡ 0
    → active s.group_list ≤ max_groups
    → active s.group_list ≤ length cs
    → (s' : State) × (assign_event_to_groups a cs s ≡ some s') × Assigned a e s s'
unfolding assign_event_to_groups
assign_event_to_groups-Assigned a cs s e live zero_assigned few enough =
    let (p, eq, h) =
      post_groups-Posts s.group_list a (record e { event_id = sign_extend (inc32 s.last_event_id) })
        cs (omega arith) enough in
    let s' = emit_all p.woken (
      put_event a (some p.event)
        (record s { group_list = p.groups; last_event_id = inc32 s.last_event_id })) in
    (
      s',
      rw (live, ◌>>=◌, eq),
      record {
        id = sign_extend (inc32 s.last_event_id);
        stored = λ b. ground (arith, h.assigned);
        listed_more = h.listed_more;
        same_addresses = h.same_addresses;
        same_active = h.same_active;
        same_ids = h.same_ids;
        same_names = h.same_names;
        still_retired = h.still_retired;
        same_count = refl;
      },
    )

pub post_event-Assigned :
    (pid dentry mnt a : ℕ) (cs : List ℕ) (s : State) (e : Event)
    → s.events a ≡ some e
    → e.assigned ≡ 0
    → active s.group_list ≤ max_groups
    → active s.group_list ≤ length cs
    → (s' : State) × (post_event pid dentry mnt (some (a, cs)) s ≡ some (waits a, s'))
      × Assigned a (record e { dentry = dentry; mnt = mnt; proc_id = pid }) s s'
unfolding post_event
post_event-Assigned pid dentry mnt a cs s e live zero_assigned few enough =
    let filled = record e { dentry = dentry; mnt = mnt; proc_id = pid } in
    let s1 = emit_all (get_pid pid ∷ mntget mnt ∷ dget dentry ∷ []) (put_event a (some filled) s) in
    let (s', eq, h) =
      assign_event_to_groups-Assigned a cs s1 filled (rw (==_refl a)) zero_assigned few enough in
    (
      s',
      rw (live, ◌>>=◌, eq),
      record {
        id = h.id;
        stored = λ b. ground (arith, h.stored b);
        listed_more = h.listed_more;
        same_addresses = h.same_addresses;
        same_active = h.same_active;
        same_ids = h.same_ids;
        same_names = h.same_names;
        still_retired = h.still_retired;
        same_count = h.same_count;
      },
    )
