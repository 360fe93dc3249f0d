-- ===== src/Events/Invariant/Removal.antt =====
-- Removing a group, by name or with its last tracked process, keeps the memory invariant.
use dazukofs_linux.Base.{
  ℕ, ◌+◌, ◌≡◌, refl, true, false, Option, none, some, List, [], ◌∷◌, arith, ◌==◌, count, Bool-cases,
  inl, inr, ap, ◌∙◌, dec32, dec32_lem,
}
use dazukofs_linux.Events.State.{
  Group, State, ◌>>=◌, find_address, modify_group, modify, emit_all, ok, wake_group_all,
  wake_poll_all,
}
use dazukofs_linux.Events.Serve.{
  dazukofs_group_open_tracking, dazukofs_group_release_tracking, open_found, release_found,
  open_track, close_track, find_active,
}
use dazukofs_linux.Events.Groups.{dazukofs_remove_group, find_named, remove_found}
use dazukofs_linux.Events.Release.{
  remove_group, clear_group_event_list, retire, no_working, no_todo,
}
use dazukofs_linux.Events.Tally.{refs, listed, Tallied, clear_group_event_list-Settles}
use dazukofs_linux.Events.Phase.{phase, Fewer, Fewer-trans, clear_group_event_list-Fewer}
use dazukofs_linux.Events.Pointers.{
  modify_group-All, addresses-modify_group, listed-modify_group, listed-modify_group_same,
  find_address-modify_group, find_active-find_address, find_active_lem, find_named-find_address,
  find_named_lem, modify_group-modify_group,
}
use dazukofs_linux.Events.System.{System, released_events, with_state}
use dazukofs_linux.Events.Invariant.{
  Retired, active, AllReady-mono, holders, waiters, Inv, Inv-touch,
}

abbrev pub emptied : Group → Group
emptied g = no_todo (no_working (retire g))

pub active-retire :
    (p : ℕ) (g : Group) (gs : List Group)
    → find_address p gs ≡ some g
    → g.deprecated ≡ false
    → active (modify_group p emptied gs) + 1 ≡ active gs
unfolding find_address modify_group
active-retire p g [] here plain = cc
active-retire p g (x ∷ gs) here plain = ground (arith, active-retire p g gs)

module _ (y : System) (v : Inv y) (g : Group)
    (here : find_address g.address y.group_list ≡ some g) where
  groups0 : List Group
  groups0 = modify_group g.address retire y.group_list

  groups1 : List Group
  unfolding groups0
  groups1 = modify_group g.address no_working groups0

  groups2 : List Group
  unfolding groups1
  groups2 = modify_group g.address no_todo groups1

  here0 : find_address g.address groups0 ≡ some (retire g)
  unfolding groups0
  here0 = find_address-modify_group g.address retire g y.group_list (λ g. refl) here

  here1 : find_address g.address groups1 ≡ some (no_working (retire g))
  unfolding groups1
  here1 = find_address-modify_group g.address no_working (retire g) groups0 (λ g. refl) here0

  groups2-emptied : groups2 ≡ modify_group g.address emptied y.group_list
  unfolding groups2
  groups2-emptied =
      modify_group-modify_group g.address no_todo no_working groups0 (λ g. refl)
      ∙ modify_group-modify_group g.address (λ g. no_todo (no_working g)) retire y.group_list
          (λ g. refl)

  -- The holders that each of the two lists gives up.
  listed0 : (b : ℕ) → listed b groups0 ≡ listed b y.group_list
  unfolding groups0
  listed0 b = listed-modify_group_same g.address b retire y.group_list (λ g. refl)

  listed1 : (b : ℕ) → listed b groups1 + refs b g.working_list ≡ listed b y.group_list
  unfolding groups1
  listed1 b =
      omega (arith, listed0 b, listed-modify_group g.address b no_working (retire g) groups0 here0)

  listed2 : (b : ℕ) → listed b groups2 + refs b g.todo_list ≡ listed b groups1
  unfolding groups2
  listed2 b =
      omega (arith, listed-modify_group g.address b no_todo (no_working (retire g)) groups1 here1)

  -- The release of what the group holds, list by list.
  cleared :
      (s1 : State) × (s2 : State) × (clear_group_event_list g.working_list
          (modify g.address retire (record y.state { group_count = dec32 y.group_count }))
        ≡ some s1)
      × (clear_group_event_list g.todo_list (modify g.address no_working s1) ≡ some s2)
      × Tallied s2 (λ b. listed b groups2 + count b (released_events y.releasing)) (waiters y)
      × (s2.group_list ≡ groups1)
      × (s2.group_count ≡ dec32 y.group_count)
      × ((b : ℕ) → Fewer (phase b y.state) (phase b s2))
  unfolding modify groups0 groups1
  cleared =
      let others = λ (b : ℕ). count b (released_events y.releasing) in
      let (s1, e1, (t1, g1, c1)) =
        clear_group_event_list-Settles g.working_list
          (modify g.address retire (record y.state { group_count = dec32 y.group_count }))
          (λ b. listed b groups1 + others b) (holders y) (waiters y) (λ b. omega (arith, listed1 b))
          v.tallied in
      let (s2, e2, (t2, g2, c2)) =
        clear_group_event_list-Settles g.todo_list (modify g.address no_working s1)
          (λ b. listed b groups2 + others b) (λ b. listed b groups1 + others b) (waiters y)
          (λ b. omega (arith, listed2 b)) t1 in
      (
        s1,
        s2,
        e1,
        e2,
        t2,
        g2 ∙ ap (modify_group g.address no_working) g1,
        c2 ∙ c1,
        λ b.
            Fewer-trans (phase b y.state) (phase b s1) (phase b s2)
              (clear_group_event_list-Fewer g.working_list
                (modify g.address retire (record y.state { group_count = dec32 y.group_count })) s1
                (λ b. listed b groups1 + others b) (holders y) (waiters y)
                (λ b. omega (arith, listed1 b)) v.tallied e1 b)
              (clear_group_event_list-Fewer g.todo_list (modify g.address no_working s1) s2
                (λ b. listed b groups2 + others b) (λ b. listed b groups1 + others b) (waiters y)
                (λ b. omega (arith, listed2 b)) t1 e2 b),
      )

  -- `__remove_group` never meets a freed event, empties and marks the group, and keeps the
  -- invariant.
  pub remove_group-Inv :
      g.deprecated ≡ false
      → (s : State) × (remove_group g y.state ≡ some s)
        × Inv (with_state s y)
        × (s.group_list
            ≡ modify_group g.address (λ g. no_todo (no_working (retire g))) y.group_list)
        × ((b : ℕ) → Fewer (phase b y.state) (phase b s))
  unfolding remove_group modify emit_all groups2
  remove_group-Inv plain =
      let (s1, s2, e1, e2, t2, g2, c2, fewer_answers) = cleared in
      let final = ap (modify_group g.address no_todo) g2 ∙ groups2-eq in
      let fewer = active-retire g.address g y.group_list here plain in
      let xs = wake_poll_all g.address ∷ wake_group_all g.address ∷ [] in
      (
        emit_all xs (modify g.address no_todo s2),
        rw (e1, ◌>>=◌, e2),
        record {
          tallied = λ b. rw (final, ← groups2-emptied) (t2 b);
          placed =
              rw (final, addresses-modify_group g.address emptied y.group_list (λ g. refl))
                v.placed;
          retired = rw final (
              modify_group-All Retired g.address emptied y.group_list (λ g r old. (refl, refl))
                v.retired);
          counted =
              rw (final, c2) (omega (arith, dec32_lem y.group_count, fewer, v.counted, v.few));
          few = rw final (omega (arith, fewer, v.few));
          ready =
              AllReady-mono y.group_list (modify_group g.address no_todo s2.group_list)
                (released_events y.releasing) (released_events y.releasing) y.preparing
                (λ b. rw (final, ← groups2-emptied) (omega (arith, listed1 b, listed2 b)))
                (rw final (omega (arith, fewer))) v.ready;
        },
        final,
        fewer_answers,
      )
    where
      groups2-eq :
          modify_group g.address no_todo groups1 ≡ modify_group g.address emptied y.group_list
      groups2-eq = groups2-emptied

pub release_found-last :
    (g : Group) (s s' : State)
    → g.tracking ≡ true
    → (dec32 g.track_count == 0) ≡ true
    → remove_group (close_track g) (modify g.address close_track s) ≡ some s'
    → release_found (some g) s ≡ some s'
unfolding release_found
release_found-last g s s' on last eq = ground arith

module _ (y : System) (v : Inv y) where
  remove_found-Inv :
      (name : List ℕ) (o : Option Group)
      → find_named name y.group_list ≡ o
      → (s : State) × (remove_found o y.state ≡ some s) × Inv (with_state s y)
  unfolding remove_found
  remove_found-Inv name none e = (y.state, refl, v)
  remove_found-Inv name (some g) e =
      let (s, eq, w, _, _) =
        remove_group-Inv y v g (find_named-find_address name g y.group_list v.placed e)
          (find_named_lem name g y.group_list e).0 in
      (s, eq, w)

  -- From a state with the invariant, `dazukofs_remove_group` always succeeds, never faults, and
  -- keeps the invariant.
  pub dazukofs_remove_group-Inv :
      (name : List ℕ)
      → (s : State) × (dazukofs_remove_group name y.state ≡ some (ok 0, s)) × Inv (with_state s y)
  unfolding dazukofs_remove_group
  dazukofs_remove_group-Inv name = elim (Bool-cases (y.group_count == 0)) [
    | inl none_there ↦ (y.state, rw none_there, v)
    | inr some_there ↦
        (let (s, eq, w) = remove_found-Inv name (find_named name y.group_list) refl in
          (s, rw (some_there, eq, ◌>>=◌), w))
  ]

  open_found-Inv : (o : Option Group) → Inv (with_state (open_found o y.state).1 y)
  unfolding open_found
  open_found-Inv none = v
  open_found-Inv (some g) = elim (Bool-cases g.tracking) [
    | inl on ↦ rw on (
        unfold modify in
        Inv-touch y (modify g.address open_track y.state) g.address open_track v refl refl refl
          (λ g. (refl, refl, refl, refl)))
    | inr off ↦ rw off v
  ]

  pub dazukofs_group_open_tracking-Inv :
      (gid : ℕ) → Inv (with_state (dazukofs_group_open_tracking gid y.state).1 y)
  unfolding dazukofs_group_open_tracking
  dazukofs_group_open_tracking-Inv gid = open_found-Inv (find_active gid y.group_list)

  unfoldable pub closed_system : Group → System
  closed_system g = with_state (modify g.address close_track y.state) y

  pub closed-Inv : (g : Group) → Inv (closed_system g)
  unfolding closed_system modify
  closed-Inv g =
      Inv-touch y (modify g.address close_track y.state) g.address close_track v refl refl refl
        (λ g. (refl, refl, refl, refl))

  pub last_closed-Inv :
      (gid : ℕ) (g : Group)
      → find_active gid y.group_list ≡ some g
      → (s : State) × (remove_group (close_track g) (modify g.address close_track y.state) ≡ some s)
        × Inv (with_state s y)
  unfolding closed_system modify
  last_closed-Inv gid g e =
      let (s, eq, w, _, _) =
        remove_group-Inv (closed_system g) (closed-Inv g) (close_track g)
          (find_address-modify_group g.address close_track g y.group_list (λ g. refl)
            (find_active-find_address gid g y.group_list v.placed e))
          (find_active_lem gid g y.group_list e).0 in
      (s, eq, w)

  release_found-Inv :
      (gid : ℕ) (o : Option Group)
      → find_active gid y.group_list ≡ o
      → (s : State) × (release_found o y.state ≡ some s) × Inv (with_state s y)
  unfolding release_found
  release_found-Inv gid none e = (y.state, refl, v)
  release_found-Inv gid (some g) e = elim (Bool-cases g.tracking) [
    | inr off ↦ (y.state, rw off, v)
    | inl on ↦ elim (Bool-cases (dec32 g.track_count == 0)) [
      | inr more ↦ (
        modify g.address close_track y.state,
        rw (on, more),
        unfold closed_system in closed-Inv g,
      )
      | inl last ↦
          (let (s, eq, w) = last_closed-Inv gid g e in
            (s, release_found-last g y.state s on last eq, w))
    ]
  ]

  -- From a state with the invariant, closing a tracked group's device never faults, also when the
  -- group goes with it, and keeps the invariant.
  pub dazukofs_group_release_tracking-Inv :
      (gid : ℕ)
      → (s : State) × (dazukofs_group_release_tracking gid y.state ≡ some s) × Inv (with_state s y)
  unfolding dazukofs_group_release_tracking
  dazukofs_group_release_tracking-Inv gid =
      release_found-Inv gid (find_active gid y.group_list) refl
