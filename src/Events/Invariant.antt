-- ===== src/Events/Invariant.antt =====
-- The memory invariant of the system of processes.
pub mod Posting
pub mod Access
pub mod Answers
pub mod Removal
pub mod Withdrawing
pub mod Thinning
pub mod Scanning
pub mod Adding
pub mod Outcomes
pub mod Small
pub mod Steps
use dazukofs_linux.Base.{
  ℕ, ◌+◌, ◌≤◌, ◌<◌, ◌≡◌, refl, Bool, true, false, Option, none, some, List, [], ◌∷◌, ◌++◌, arith,
  ◌==◌, if◌then◌else◌, length, count, count-append, Distinct,
}
use dazukofs_linux.Events.State.{
  Container, Group, State, max_groups, find_address, modify_group, emit_all, Effect,
}
use dazukofs_linux.Events.Tally.{refs, held, listed, Tally, Tallied}
use dazukofs_linux.Events.Serve.{set_lists, set_working}
use dazukofs_linux.Events.Pointers.{
  addresses, All, listed-modify_group, listed-modify_group_same, addresses-modify_group,
  modify_group-All, modify_group-All_at,
}
use dazukofs_linux.Events.System.{
  Prepared, Answer, System, prepared_events, released_events, start, with_state,
}

abbrev pub Retired : Group → Type 0
Retired g = g.deprecated ≡ true → (g.working_list ≡ []) × (g.todo_list ≡ [])

-- The number of groups that are not deprecated.
abbrev pub active : List Group → ℕ
active [] = 0
active (g ∷ gs) = (if g.deprecated then 0 else 1) + active gs

-- An access that has its containers: nobody holds its event yet, and every group can get one.
abbrev pub AllReady : List Group → List ℕ → List Prepared → Type 0
AllReady gs rs [] = Unit {0}
AllReady gs rs (p ∷ ps) =
    ((listed p.event gs + count p.event rs ≡ 0) × (active gs ≤ length p.containers))
    × AllReady gs rs ps

abbrev pub holders : System → ℕ → ℕ
holders y a = listed a y.group_list + count a (released_events y.releasing)

abbrev pub waiters : System → ℕ → ℕ
waiters y a = count a y.waiting + count a (prepared_events y.preparing)

pub record Inv (y : System) : Type 0 where
  pub tallied : Tallied y.state (holders y) (waiters y)
  pub placed : Distinct (addresses y.group_list)
  pub retired : All Retired y.group_list
  pub counted : y.group_count ≡ active y.group_list
  pub few : active y.group_list ≤ max_groups
  pub ready : AllReady y.group_list (released_events y.releasing) y.preparing

pub AllReady-mono :
    (gs hs : List Group) (rs qs : List ℕ) (ps : List Prepared)
    → ((a : ℕ) → listed a hs + count a qs ≤ listed a gs + count a rs)
    → active hs ≤ active gs
    → AllReady gs rs ps
    → AllReady hs qs ps
AllReady-mono gs hs rs qs [] less few r = tt
AllReady-mono gs hs rs qs (p ∷ ps) less few r =
    ((omega (arith, less p.event), omega arith), AllReady-mono gs hs rs qs ps less few r.1)

pub start-Inv : Inv start
unfolding count
start-Inv = record {
  tallied = λ a. (refl, refl);
  placed = tt;
  retired = tt;
  counted = refl;
  few = omega arith;
  ready = tt;
}

-- A step that leaves the events alone, moves no container in or out and keeps the group list's
-- shape.
pub Inv-regroup :
    (y : System) (s : State)
    → Inv y
    → s.events ≡ y.events
    → s.group_count ≡ y.group_count
    → ((a : ℕ) → listed a s.group_list ≡ listed a y.group_list)
    → addresses s.group_list ≡ addresses y.group_list
    → active s.group_list ≡ active y.group_list
    → All Retired s.group_list
    → Inv (with_state s y)
Inv-regroup y s v events number same places busy retired = record {
  tallied = λ a. rw (events, same a) (v.tallied a);
  placed = rw places v.placed;
  retired = retired;
  counted = omega (arith, number, busy, v.counted);
  few = omega (arith, busy, v.few);
  ready =
      AllReady-mono y.group_list s.group_list _ _ y.preparing (λ a. omega (arith, same a))
        (omega (arith, busy)) v.ready;
}

pub active-modify_group :
    (p : ℕ) (f : Group → Group) (gs : List Group)
    → ((g : Group) → (f g).deprecated ≡ g.deprecated)
    → active (modify_group p f gs) ≡ active gs
unfolding modify_group
active-modify_group p f [] same = refl
active-modify_group p f (g ∷ gs) same = ground (arith, same g, active-modify_group p f gs same)

-- A write to any group that leaves its lists, its address and its mark alone.
pub Inv-touch :
    (y : System) (s : State) (p : ℕ) (f : Group → Group)
    → Inv y
    → s.events ≡ y.events
    → s.group_count ≡ y.group_count
    → s.group_list ≡ modify_group p f y.group_list
    → ((g : Group)
        → ((f g).address ≡ g.address)
          × ((f g).deprecated ≡ g.deprecated)
          × ((f g).working_list ≡ g.working_list)
          × ((f g).todo_list ≡ g.todo_list))
    → Inv (with_state s y)
Inv-touch y s p f v events number groups plain =
    Inv-regroup y s v events number
      (λ a. rw groups (listed-modify_group_same p a f y.group_list (λ g. ground (arith, plain g))))
      (rw groups (addresses-modify_group p f y.group_list (λ g. (plain g).0)))
      (rw groups (active-modify_group p f y.group_list (λ g. (plain g).1)))
      (rw groups (
        modify_group-All Retired p f y.group_list
          (λ g r d. ground (arith, plain g, r (ground (arith, plain g)))) v.retired))

-- A write to one group that moves its containers about.
pub Inv-shuffle :
    (y : System) (s : State) (p : ℕ) (g : Group) (working todo : List Container)
    → Inv y
    → s.events ≡ y.events
    → s.group_count ≡ y.group_count
    → s.group_list ≡ modify_group p (set_lists working todo) y.group_list
    → find_address p y.group_list ≡ some g
    → ((a : ℕ) → refs a working + refs a todo ≡ held a g)
    → Retired (set_lists working todo g)
    → Inv (with_state s y)
Inv-shuffle y s p g working todo v events number groups here same retired =
    let f = set_lists working todo in
    Inv-regroup y s v events number
      (λ a. rw groups (omega (arith, listed-modify_group p a f g y.group_list here, same a)))
      (rw groups (addresses-modify_group p f y.group_list (λ g. refl)))
      (rw groups (active-modify_group p f y.group_list (λ g. refl)))
      (rw groups (modify_group-All_at Retired p f g y.group_list here retired v.retired))

-- The trace does not matter.
pub Inv-emit_all :
    (y : System) (s : State) (xs : List Effect)
    → Inv (with_state s y)
    → Inv (with_state (emit_all xs s) y)
unfolding emit_all
Inv-emit_all y s xs v = record {
  tallied = v.tallied;
  placed = v.placed;
  retired = v.retired;
  counted = v.counted;
  few = v.few;
  ready = v.ready;
}

-- An event on its way from the working list to its release.
pub Inv-take :
    (y : System) (s : State) (p : ℕ) (g : Group) (r : Answer) (rest : List Container)
    → Inv y
    → s.events ≡ y.events
    → s.group_count ≡ y.group_count
    → s.group_list ≡ modify_group p (set_working rest) y.group_list
    → find_address p y.group_list ≡ some g
    → ((a : ℕ) → refs a rest + count a (r.container.event ∷ []) ≡ refs a g.working_list)
    → Retired (set_working rest g)
    → Inv (record y { state = s; releasing = r ∷ y.releasing })
unfolding count
Inv-take y s p g r rest v events number groups here same retired =
    let f = set_working rest in
    let moved : (a : ℕ)
        → listed a s.group_list + count a (r.container.event ∷ []) ≡ listed a y.group_list =
      λ a. rw groups (ground (arith, listed-modify_group p a f g y.group_list here, same a)) in
    record {
      tallied = λ a. rw (events) (ground (arith, moved a, v.tallied a));
      placed = rw groups (rw (addresses-modify_group p f y.group_list (λ g. refl)) v.placed);
      retired = rw groups (modify_group-All_at Retired p f g y.group_list here retired v.retired);
      counted = rw (groups, active-modify_group p f y.group_list (λ g. refl), number) v.counted;
      few = rw (groups, active-modify_group p f y.group_list (λ g. refl)) v.few;
      ready =
          AllReady-mono y.group_list s.group_list (released_events y.releasing)
            (r.container.event ∷ released_events y.releasing) y.preparing
            (λ a. ground (arith, moved a))
            (rw (groups, active-modify_group p f y.group_list (λ g. refl)) (omega arith)) v.ready;
    }
