-- ===== src/Events/Invariant/Answers.antt =====
-- The registered side keeps the memory invariant: claims, answers and reposts.
use dazukofs_linux.Base.{
  true, ℕ, ◌+◌, ◌≡◌, refl, false, Option, none, some, List, [], ◌∷◌, arith, ◌==◌, count,
  Option-cases, Bool-cases, inl, inr, ap, ◌∙◌,
}
use dazukofs_linux.Events.Release.{release_event}
use dazukofs_linux.Events.State.{
  Container, Group, Effect, State, >>=-eq-some, find_address, modify, emit_all, wake_poll,
  wake_group, Response, emit, free_container,
}
use dazukofs_linux.Events.Serve.{
  find_container, remove_container, unlink, find_working, skip_working, unclaim_event, claim_event,
  claim_first, take_event, take_event_from, take_found, find_active, set_working, set_lists, hold,
  unhold, found, is_repost, is_deny,
}
use dazukofs_linux.Events.Tally.{release_event-Settles, Settles, refs, held, listed}
use dazukofs_linux.Events.Pointers.{
  find_address-All, find_address-modify_group, find_active-find_address, find_active_lem,
}
use dazukofs_linux.Events.System.{Answer, System, released_events, with_state}
use dazukofs_linux.Events.Invariant.{
  Retired, AllReady-mono, holders, waiters, Inv, Inv-shuffle, Inv-touch, Inv-emit_all, Inv-take,
}

refs-remove_container :
    (a b : ℕ) (c : Container) (cs : List Container)
    → find_container a cs ≡ some c
    → refs b (remove_container a cs) + count b (c.event ∷ []) ≡ refs b cs
unfolding find_container remove_container
refs-remove_container a b c [] e = cc
refs-remove_container a b c (x ∷ cs) e = ground (arith, refs-remove_container a b c cs)

-- An unlinked container is the one holder that its group loses.
held-unlink :
    (a b : ℕ) (c : Container) (g h : Group)
    → unlink a g ≡ some (c, h)
    → held b h + count b (c.event ∷ []) ≡ held b g
unfolding unlink
held-unlink a b c g h e =
    ground
      (arith, refs-remove_container a b c g.working_list, refs-remove_container a b c g.todo_list)

refs-skip :
    (b : ℕ) (c x : Container) (rest cs : List Container) (r : Option (Container × List Container))
    → ((ds : List Container) → r ≡ some (c, ds) → refs b ds + count b (c.event ∷ []) ≡ refs b cs)
    → skip_working x r ≡ some (c, rest)
    → refs b rest + count b (c.event ∷ []) ≡ refs b (x ∷ cs)
refs-skip b c x rest cs none h e = cc
refs-skip b c x rest cs (some (d, ds)) h e = ground (arith, h ds)

refs-find_working :
    (id b : ℕ) (s : State) (c : Container) (rest cs : List Container)
    → find_working id cs s ≡ some (some (c, rest))
    → refs b rest + count b (c.event ∷ []) ≡ refs b cs
unfolding find_working
refs-find_working id b s c rest [] e = cc
refs-find_working id b s c rest (x ∷ cs) e =
    let (evt, live, e1) = >>=-eq-some (s.events x.event) _ e in
    elim (Bool-cases (evt.event_id == id)) [
      | inl hit ↦ (let e2 = rw hit at e1 in ground arith)
      | inr miss ↦
          (let (r, e2, e3) = >>=-eq-some (find_working id cs s) _ (rw miss at e1) in
            refs-skip b c x rest cs r (λ ds h. refs-find_working id b s c ds cs (e2 ∙ ap some h))
              (ground arith))
    ]

module _ (y : System) (v : Inv y) (grp : ℕ) (g : Group)
    (here : find_address grp y.group_list ≡ some g) where
  group-Retired : Retired g
  group-Retired = find_address-All Retired grp g y.group_list here v.retired

  claim_first-Inv :
      (todo : List Container)
      → g.todo_list ≡ todo
      → Inv (with_state (claim_first grp g todo y.state).1 y)
  unfolding claim_first count
  claim_first-Inv [] e = v
  claim_first-Inv (c ∷ cs) e =
      Inv-shuffle y (modify grp (set_lists (c ∷ g.working_list) cs) y.state) grp g
        (c ∷ g.working_list) cs v refl refl refl here (λ a. rw e (omega arith))
        (λ old. absurd (ground (arith, group-Retired old)))

  unlink-Inv :
      (ec : ℕ) (c : Container) (h : Group)
      → unlink ec g ≡ some (c, h)
      → Inv (with_state (modify grp (set_lists h.working_list (c ∷ h.todo_list)) y.state) y)
  unfolding modify unlink find_container
  unlink-Inv ec c h e =
      Inv-shuffle y (modify grp (set_lists h.working_list (c ∷ h.todo_list)) y.state) grp g
        h.working_list (c ∷ h.todo_list) v refl refl refl here
        (λ a. omega (arith, held-unlink ec a c g h e))
        (λ old. absurd (ground (arith, group-Retired old)))

-- Claiming an event moves it to the working list and keeps the invariant.
pub claim-Inv :
    (y : System) (grp : ℕ) (c : Option Container) (s : State)
    → Inv y
    → claim_event grp y.state ≡ some (c, s)
    → Inv (with_state s y)
unfolding claim_event
claim-Inv y grp c s v e =
    let (g, here, e1) = >>=-eq-some (find_address grp y.group_list) _ e in
    let same : s ≡ (claim_first grp g g.todo_list y.state).1 = ground arith in
    rw same (claim_first-Inv y v grp g here g.todo_list refl)

-- Putting an event back keeps the invariant, when the pointers that it is given are good.
pub unclaim-Inv :
    (y : System) (grp ec : ℕ) (s : State)
    → Inv y
    → unclaim_event grp ec y.state ≡ some s
    → Inv (with_state s y)
unfolding unclaim_event emit_all
unclaim-Inv y grp ec s v e =
    let (g, here, e1) = >>=-eq-some (find_address grp y.group_list) _ e in
    let ((c, h), e2, e3) = >>=-eq-some (unlink ec g) _ e1 in
    let moved = modify grp (set_lists h.working_list (c ∷ h.todo_list)) y.state in
    let xs = wake_poll grp ∷ wake_group grp ∷ [] in
    let same : emit_all xs moved ≡ s = ground arith in
    rw (← same) (Inv-emit_all y moved xs (unlink-Inv y v grp g here ec c h e2))

-- The first section of an answer that is no repost: the container leaves its list, and the thread
-- that answers holds the event in its place.
module _ (y : System) (v : Inv y) (grp : ℕ) (g : Group)
    (here : find_address grp y.group_list ≡ some g) where
  held_system : System
  held_system = with_state (modify grp hold y.state) y

  held-Inv : Inv held_system
  unfolding held_system modify
  held-Inv =
      Inv-touch y (modify grp hold y.state) grp hold v refl refl refl
        (λ g. (refl, refl, refl, refl))

  take_found-Inv :
      (c : Container) (rest : List Container) (r : Response) (xs : List Effect)
      → g.deprecated ≡ false
      → ((a : ℕ) → refs a rest + count a (c.event ∷ []) ≡ refs a g.working_list)
      → Inv (record y {
        state = emit_all xs (modify grp (set_working rest) (modify grp hold y.state));
        releasing = record { group = grp; container = c; response = r } ∷ y.releasing;
      })
  unfolding modify emit_all count held_system
  take_found-Inv c rest r xs plain same =
      Inv-take held_system (emit_all xs (modify grp (set_working rest) (modify grp hold y.state)))
        grp (hold g) (record { group = grp; container = c; response = r }) rest held-Inv refl refl
        refl (find_address-modify_group grp hold g y.group_list (λ g. refl) here) same (λ old. cc)

take_hit-Inv :
    (y : System) (gid eid : ℕ) (r : Response) (grp : ℕ) (c : Container) (s : State)
    → Inv y
    → is_repost r ≡ false
    → (g : Group) → find_active gid y.group_list ≡ some g
    → (o : Option (Container × List Container)) → find_working eid g.working_list y.state ≡ some o
    → take_found g o r (modify g.address hold y.state) ≡ (found grp c, s)
    → Inv (record y {
      state = s;
      releasing = record { group = grp; container = c; response = r } ∷ y.releasing;
    })
unfolding take_found emit emit_all
take_hit-Inv y gid eid r grp c s v real g hit none scanned e = absurd (ground arith)
take_hit-Inv y gid eid r grp c s v real g hit (some (d, rest)) scanned e =
    let at_grp : g.address ≡ grp = ground arith in
    let taken : d ≡ c = ground arith in
    let freed = free_container d.address ∷ [] in
    let moved : emit_all freed (modify g.address (set_working rest) (modify g.address hold y.state))
        ≡ s =
      ground arith in
    rw (← moved, ← at_grp, ← taken)
      (take_found-Inv y v g.address g (find_active-find_address gid g y.group_list v.placed hit) d
        rest r freed (find_active_lem gid g y.group_list hit).0
        (λ a. refs-find_working eid a y.state d rest g.working_list scanned))

-- An answer that is no repost takes the container off its list, and keeps the invariant.
pub take-Inv :
    (y : System) (gid eid : ℕ) (r : Response) (grp : ℕ) (c : Container) (s : State)
    → Inv y
    → is_repost r ≡ false
    → take_event gid eid r y.state ≡ some (found grp c, s)
    → Inv (record y {
      state = s;
      releasing = record { group = grp; container = c; response = r } ∷ y.releasing;
    })
unfolding take_event take_event_from
take-Inv y gid eid r grp c s v real e = elim (Option-cases (find_active gid y.group_list)) [
  | inl missing ↦ (let e1 = rw missing at e in ground arith)
  | inr (g, hit) ↦
      (let e1 = rw hit at e in
        let (o, e2, e3) = >>=-eq-some (find_working eid g.working_list y.state) _ e1 in
        take_hit-Inv y gid eid r grp c s v real g hit o e2 (ground arith))
]

module _ (y : System) (v : Inv y) (r : Answer) (rs : List Answer)
    (next : y.releasing ≡ r ∷ rs) where
  released-Inv :
      (s : State)
      → Settles y.state s (λ b. listed b y.group_list + count b (released_events rs)) (waiters y)
      → Inv (record y { state = s; releasing = rs })
  unfolding count
  released-Inv s (tallied, groups, number) = record {
    tallied = λ b. rw groups (tallied b);
    placed = rw groups v.placed;
    retired = rw groups v.retired;
    counted = rw (groups, number) v.counted;
    few = rw groups v.few;
    ready = rw groups (
        AllReady-mono y.group_list y.group_list (released_events y.releasing) (released_events rs)
          y.preparing (λ b. rw next (ground arith)) (omega arith) v.ready);
  }

  -- The event of such an answer can be released, and letting the group go keeps the invariant.
  pub settle-Inv :
      (s : State) × (release_event r.container.event true (is_deny r.response) y.state ≡ some s)
      × (s.group_list ≡ y.group_list)
      × Inv (record y { state = modify r.group unhold s; releasing = rs })
  unfolding modify count
  settle-Inv =
      let (s1, eq, h) =
        release_event-Settles r.container.event (is_deny r.response) y.state
          (λ b. listed b y.group_list + count b (released_events rs)) (holders y) (waiters y)
          (λ b. rw next (ground arith)) v.tallied in
      (
        s1,
        eq,
        h.1,
        Inv-touch (record y { state = s1; releasing = rs }) (modify r.group unhold s1) r.group
            unhold (released-Inv s1 h) refl refl refl (λ g. (refl, refl, refl, refl)),
      )
