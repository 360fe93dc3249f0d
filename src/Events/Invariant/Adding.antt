-- ===== src/Events/Invariant/Adding.antt =====
-- The search for a free id ends, finds what it should, and adding a group keeps the memory
-- invariant.
use dazukofs_linux.Base.{
  ℕ, zero, suc, ◌+◌, ◌≤◌, ◌<◌, ◌≡◌, refl, Bool, true, false, some, List, [], ◌∷◌, ◌++◌, arith,
  if◌then◌else◌, length, count, ap, ◌∙◌, inc32_lem, pigeonhole, Distinct-append_one,
}
use dazukofs_linux.Events.State.{Group, Effect, State, max_groups, emit_all}
use dazukofs_linux.Events.Groups.{
  Verdict, exists, taken, free, check_for_group, Choice, choose_id, link_group,
}
use dazukofs_linux.Events.Tally.{listed}
use dazukofs_linux.Events.Pointers.{addresses, All}
use dazukofs_linux.Events.System.{System, with_state}
use dazukofs_linux.Events.Invariant.Scanning.{Finds, Finds-Thinned, check_for_group-Scanned}
use dazukofs_linux.Events.Invariant.Thinning.{active_ids, length-active_ids, Thinned, Thinned-trans}
use dazukofs_linux.Events.Invariant.{Retired, active, Inv}

-- What the loop over ids of dazukofs_add_group ends with.
pub record Chosen (name : List ℕ) (s : State) (c : Choice) : Type 0 where
  pub same_events : c.state.events ≡ s.events
  pub same_count : c.state.group_count ≡ s.group_count
  pub thinned : Thinned s.group_list c.state.group_list
  pub low : c.id ≤ active s.group_list
  pub outcome : Finds name c.id s.group_list (if c.already_exists then exists else free)

module _ (name : List ℕ) (track : Bool) where
  -- The state after one scan.
  scanned : ℕ → State → State
  scanned id s =
      let r = check_for_group name id track s.group_list in
      emit_all r.freed (record s { group_list = r.groups })

  module _ (fuel id : ℕ) (s : State) where
    choose_taken :
        (check_for_group name id track s.group_list).verdict ≡ taken
        → choose_id (suc fuel) name id track s ≡ choose_id fuel name (id + 1) track (scanned id s)
    unfolding choose_id scanned
    choose_taken e = rw (e, choose_id)

    choose_exists :
        (check_for_group name id track s.group_list).verdict ≡ exists
        → choose_id (suc fuel) name id track s
          ≡ some (record { state = scanned id s; id = id; already_exists = true })
    unfolding choose_id scanned
    choose_exists e = rw (e, choose_id)

    choose_free :
        (check_for_group name id track s.group_list).verdict ≡ free
        → choose_id (suc fuel) name id track s
          ≡ some (record { state = scanned id s; id = id; already_exists = false })
    unfolding choose_id scanned
    choose_free e = rw (e, choose_id)

  abbrev pub Chooses : ℕ → ℕ → State → Type 0
  Chooses fuel id s = (c : Choice) × (choose_id fuel name id track s ≡ some c) × Chosen name s c

  -- One round, when the rounds after it end well.
  choose_round :
      (fuel id : ℕ) (s : State) (r : Verdict)
      → All Retired s.group_list
      → (check_for_group name id track s.group_list).verdict ≡ r
      → id ≤ active s.group_list
      → (0 < count id (active_ids s.group_list)
          → All Retired (scanned id s).group_list
          → active_ids (scanned id s).group_list ≡ active_ids s.group_list
          → Chooses fuel (id + 1) (scanned id s))
      → Chooses (suc fuel) id s
  unfolding scanned emit_all
  choose_round fuel id s exists old e small more =
      let (t, f) = check_for_group-Scanned name id track s.group_list old in
      (
        _,
        choose_exists fuel id s e,
        record {
          same_events = refl;
          same_count = refl;
          thinned = t;
          low = small;
          outcome = rw e at f;
        },
      )
  choose_round fuel id s free old e small more =
      let (t, f) = check_for_group-Scanned name id track s.group_list old in
      (
        _,
        choose_free fuel id s e,
        record {
          same_events = refl;
          same_count = refl;
          thinned = t;
          low = small;
          outcome = rw e at f;
        },
      )
  choose_round fuel id s taken old e small more =
      let (t, f) = check_for_group-Scanned name id track s.group_list old in
      let (c, eq, h) = more (rw e at f) t.retired t.same_ids in
      (
        c,
        choose_taken fuel id s e ∙ eq,
        record {
          same_events = h.same_events;
          same_count = h.same_count;
          thinned = Thinned-trans s.group_list _ c.state.group_list t h.thinned;
          low = omega (arith, h.low, t.same_active);
          outcome = Finds-Thinned name c.id s.group_list _ _ t h.outcome;
        },
      )

  -- With all smaller ids taken, one round for each other id and one more are enough.
  pub choose_id-Chosen :
      (fuel id : ℕ) (s : State)
      → All Retired s.group_list
      → ((j : ℕ) → j < id → 0 < count j (active_ids s.group_list))
      → active s.group_list < fuel + id
      → Chooses fuel id s
  choose_id-Chosen zero id s old below enough =
      absurd (
        omega
          (arith, pigeonhole id (active_ids s.group_list) below, length-active_ids s.group_list))
  choose_id-Chosen (suc fuel) id s old below enough =
      choose_round fuel id s (check_for_group name id track s.group_list).verdict old refl
        (omega
          (arith, pigeonhole id (active_ids s.group_list) below, length-active_ids s.group_list))
        (λ hit old' same.
          choose_id-Chosen fuel (id + 1) (scanned id s) old'
            (λ j h. rw same (ground (arith, below j, hit)))
            (omega (
              arith,
              length-active_ids s.group_list,
              length-active_ids (scanned id s).group_list,
              ap length same,
            )))

-- A new group at the tail.
module _ (g : Group) (fresh : g.deprecated ≡ false)
    (nothing : (g.working_list ≡ []) × (g.todo_list ≡ [])) where
  listed-link : (a : ℕ) (gs : List Group) → listed a (gs ++ g ∷ []) ≡ listed a gs
  listed-link a [] = ground arith
  listed-link a (x ∷ gs) = omega (arith, listed-link a gs)

  active-link : (gs : List Group) → active (gs ++ g ∷ []) ≡ active gs + 1
  active-link [] = ground arith
  active-link (x ∷ gs) = ground (arith, active-link gs)

  All-link : (gs : List Group) → All Retired gs → All Retired (gs ++ g ∷ [])
  All-link [] r = ((λ old. cc), tt)
  All-link (x ∷ gs) r = (r.0, All-link gs r.1)

addresses-link :
    (g : Group) (gs : List Group) → addresses (gs ++ g ∷ []) ≡ addresses gs ++ g.address ∷ []
addresses-link g [] = refl
addresses-link g (x ∷ gs) = ap (◌∷◌ x.address) (addresses-link g gs)

module _ (y : System) (v : Inv y) (quiet : y.preparing ≡ []) where
  pub Thinned-Inv :
      (s : State)
      → s.events ≡ y.events
      → s.group_count ≡ y.group_count
      → Thinned y.group_list s.group_list
      → Inv (with_state s y)
  Thinned-Inv s events number t = record {
    tallied = λ b. rw (events, t.same_listed b) (v.tallied b);
    placed = t.distinct v.placed;
    retired = t.retired;
    counted = rw (number, t.same_active) v.counted;
    few = rw t.same_active v.few;
    ready = rw quiet tt;
  }

  pub link-Inv :
      (s : State) (g : Group) (xs : List Effect)
      → Inv (with_state s y)
      → g.deprecated ≡ false
      → (g.working_list ≡ []) × (g.todo_list ≡ [])
      → active s.group_list < max_groups
      → count g.address (addresses s.group_list) ≡ 0
      → Inv (with_state (link_group (some g, xs) s).1 y)
  unfolding link_group emit_all
  link-Inv s g xs w fresh nothing room unused = record {
    tallied = λ b. rw (listed-link g fresh nothing b s.group_list) (w.tallied b);
    placed = rw (addresses-link g s.group_list) (Distinct-append_one g.address _ w.placed unused);
    retired = All-link g fresh nothing s.group_list w.retired;
    counted =
        rw (active-link g fresh nothing s.group_list)
          (omega (arith, inc32_lem s.group_count, w.counted));
    few = omega (arith, active-link g fresh nothing s.group_list);
    ready = rw quiet tt;
  }
