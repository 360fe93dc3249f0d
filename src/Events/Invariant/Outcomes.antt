-- ===== src/Events/Invariant/Outcomes.antt =====
-- Every outcome of dazukofs_add_group.
use mathlib.Core.Path.{subst}
use dazukofs_linux.Base.{
  ℕ, ◌+◌, ◌≤◌, ◌<◌, ◌≡◌, refl, Bool, true, false, Option, none, some, List, [], ◌∷◌, ◌++◌, arith,
  ◌==◌, if◌then◌else◌, length, count, Bool-cases, inl, inr, ◌∙◌, text_eq,
}
use dazukofs_linux.Events.State.{
  Group, Effect, State, max_groups, ◌>>=◌, Ret, ok, err, eperm, enomem, free_group, emit_all,
}
use dazukofs_linux.Events.Groups.{
  Choice, add_chosen, choose_id, dazukofs_add_group, create_group, link_group,
}
use dazukofs_linux.Events.Pointers.{addresses}
use dazukofs_linux.Events.System.{System, with_state}
use dazukofs_linux.Events.Invariant.{active, Inv, Inv-emit_all}
use dazukofs_linux.Events.Invariant.Thinning.{active_ids, named, Thinned}
use dazukofs_linux.Events.Invariant.Adding.{Chosen, choose_id-Chosen, Thinned-Inv, link-Inv}

-- The group that a successful call appends.
pub record Appends (name : List ℕ) (gs hs : List Group) (id : ℕ) : Type 0 where
  pub new_name : named name gs ≡ 0
  pub new_id : count id (active_ids gs) ≡ 0
  pub has_device : id < max_groups
  pub ids : active_ids hs ≡ active_ids gs ++ id ∷ []
  pub names :
      (other : List ℕ) → named other hs ≡ named other gs + (if text_eq other name then 1 else 0)

-- The same groups are active, with the same ids and names.
pub record Keeps (gs hs : List Group) : Type 0 where
  pub ids : active_ids hs ≡ active_ids gs
  pub names : (name : List ℕ) → named name hs ≡ named name gs

-- The outcomes of `add=` and `addtrack=`.
pub data Adds (name : List ℕ) (s : State) : Ret → State → Type 0 where
  existing :
      {s' : State}
      → 0 < named name s.group_list
      → Keeps s.group_list s'.group_list
      → Adds name s (ok 0) s'
  no_room :
      {s' : State}
      → named name s.group_list ≡ 0
      → active s.group_list ≡ max_groups
      → Keeps s.group_list s'.group_list
      → Adds name s (err eperm) s'
  no_memory :
      {s' : State}
      → named name s.group_list ≡ 0
      → active s.group_list < max_groups
      → Keeps s.group_list s'.group_list
      → Adds name s (err enomem) s'
  appended :
      {s' : State} (id : ℕ) → Appends name s.group_list s'.group_list id → Adds name s (ok 0) s'

pub active-le-length : (gs : List Group) → active gs ≤ length gs
active-le-length [] = omega arith
active-le-length (g ∷ gs) = ground (arith, active-le-length gs)

active_ids-link :
    (g : Group) (gs : List Group)
    → g.deprecated ≡ false
    → active_ids (gs ++ g ∷ []) ≡ active_ids gs ++ g.group_id ∷ []
active_ids-link g [] fresh = ground arith
active_ids-link g (x ∷ gs) fresh = ground (arith, active_ids-link g gs fresh)

named-link :
    (other : List ℕ) (g : Group) (gs : List Group)
    → g.deprecated ≡ false
    → named other (gs ++ g ∷ []) ≡ named other gs + (if text_eq other g.name then 1 else 0)
named-link other g [] fresh = ground arith
named-link other g (x ∷ gs) fresh = ground (arith, named-link other g gs fresh)

pub Thinned-Keeps : (gs hs : List Group) → Thinned gs hs → Keeps gs hs
Thinned-Keeps gs hs t = record { ids = t.same_ids; names = t.same_names }

module _ (y : System) (v : Inv y) (quiet : y.preparing ≡ []) (name : List ℕ) (track : Bool) where
  Result : Option (Ret × State) → Type 0
  Result o =
      (r : Ret) × (s : State) × (o ≡ some (r, s)) × Inv (with_state s y) × Adds name y.state r s

  -- What follows the choice of an id.
  after : Option ℕ → Bool → Choice → Option (Ret × State)
  after grp_mem name_mem c = some (
      if c.already_exists
      then (ok 0, c.state)
      else if c.state.group_count == max_groups
      then (err eperm, c.state)
      else link_group (create_group grp_mem name_mem name c.id track) c.state)

  module _ (c : Choice) (h : Chosen name y.state c) where
    chosen-Inv : Inv (with_state c.state y)
    chosen-Inv = Thinned-Inv y v quiet c.state h.same_events h.same_count h.thinned

    chosen-Keeps : Keeps y.group_list c.state.group_list
    chosen-Keeps = Thinned-Keeps _ _ h.thinned

    after-exists :
        (grp_mem : Option ℕ) (name_mem : Bool)
        → c.already_exists ≡ true
        → Result (after grp_mem name_mem c)
    unfolding Result after
    after-exists grp_mem name_mem there =
        (ok 0, c.state, ground arith, chosen-Inv, existing (ground (arith, h.outcome)) chosen-Keeps)

    after-full :
        (grp_mem : Option ℕ) (name_mem : Bool)
        → c.already_exists ≡ false
        → (c.state.group_count == max_groups) ≡ true
        → Result (after grp_mem name_mem c)
    unfolding Result after
    after-full grp_mem name_mem new full = (
      err eperm,
      c.state,
      ground arith,
      chosen-Inv,
      no_room (ground (arith, h.outcome)) (ground (arith, h.same_count, v.counted)) chosen-Keeps,
    )

    module _ (new : c.already_exists ≡ false)
        (room : (c.state.group_count == max_groups) ≡ false) where
      roomy : active y.group_list < max_groups
      roomy = ground (arith, h.same_count, v.counted, v.few)

      linked : Group → Ret × State
      linked g = link_group (some g, []) c.state

      after-link :
          (g : Group)
          → (g.deprecated ≡ false) × (g.working_list ≡ []) × (g.todo_list ≡ [])
          → (g.name ≡ name) × (g.group_id ≡ c.id)
          → count g.address (addresses y.group_list) ≡ 0
          → Inv (with_state (linked g).1 y) × Adds name y.state (ok 0) (linked g).1
      unfolding linked link_group emit_all
      after-link g (plain, working, todo) (same_name, same_id) unused = (
        link-Inv y v quiet c.state g [] chosen-Inv plain (working, todo)
            (omega (arith, roomy, h.thinned.same_active))
            (omega (arith, h.thinned.fewer g.address)),
        appended c.id (record {
          new_name = ground (arith, h.outcome);
          new_id = ground (arith, h.outcome);
          has_device = omega (arith, h.low, roomy);
          ids = active_ids-link g c.state.group_list plain ∙ ground (arith, h.thinned.same_ids);
          names = λ other.
              named-link other g c.state.group_list plain
              ∙ ground (arith, h.thinned.same_names other);
        }),
      )

      after-starved :
          (grp_mem : Option ℕ) (name_mem : Bool) (xs : List Effect)
          → create_group grp_mem name_mem name c.id track ≡ (none, xs)
          → Result (after grp_mem name_mem c)
      unfolding Result after link_group
      after-starved grp_mem name_mem xs e = (
        err enomem,
        emit_all xs c.state,
        ground arith,
        Inv-emit_all y c.state xs chosen-Inv,
        unfold emit_all in no_memory (ground (arith, h.outcome)) roomy chosen-Keeps,
      )

      after-new :
          (grp_mem : Option ℕ) (name_mem : Bool)
          → ((a : ℕ) → grp_mem ≡ some a → count a (addresses y.group_list) ≡ 0)
          → Result (after grp_mem name_mem c)
      unfolding create_group
      after-new none name_mem unused = after-starved none name_mem [] refl
      after-new (some a) false unused = after-starved (some a) false (free_group a ∷ []) refl
      after-new (some a) true unused =
          let g : Group = record {
            address = a;
            name = name;
            name_length = length name;
            group_id = c.id;
            todo_list = [];
            working_list = [];
            use_count = 0;
            tracking = track;
            track_count = 0;
            deprecated = false;
          } in
          let (w, adds) = after-link g (refl, refl, refl) (refl, refl) (unused a refl) in
          unfold Result after linked link_group in
          (ok 0, (link_group (some g, []) c.state).1, ground arith, w, adds)

  -- The first section, and what it has chosen.
  pub choose_id-Inv :
      (c : Choice)
      → choose_id (length y.group_list + 1) name 0 track y.state ≡ some c
      → Inv (with_state c.state y) × Chosen name y.state c
  choose_id-Inv c e =
      let (d, eq, h) =
        choose_id-Chosen name track (length y.group_list + 1) 0 y.state v.retired
          (λ j below. absurd (omega arith)) (omega (arith, active-le-length y.group_list)) in
      let same : d ≡ c = ground arith in
      subst (λ c. Inv (with_state c.state y) × Chosen name y.state c) same (chosen-Inv d h, h)

  -- The second section, after any choice of a new name.
  pub add_chosen-Inv :
      (id : ℕ) (grp_mem : Option ℕ) (name_mem : Bool)
      → ((a : ℕ) → grp_mem ≡ some a → count a (addresses y.group_list) ≡ 0)
      → Inv (
          with_state
            (add_chosen grp_mem name_mem name track
              (record { state = y.state; id = id; already_exists = false })).1
            y)
  unfolding add_chosen create_group
  add_chosen-Inv id grp_mem name_mem unused = elim (Bool-cases (y.group_count == max_groups)) [
    | inl full ↦ rw full v
    | inr room ↦ rw room (linked_in grp_mem name_mem unused room)
  ]
    where
      linked_in :
          (grp_mem : Option ℕ) (name_mem : Bool)
          → ((a : ℕ) → grp_mem ≡ some a → count a (addresses y.group_list) ≡ 0)
          → (y.group_count == max_groups) ≡ false
          → Inv (with_state (link_group (create_group grp_mem name_mem name id track) y.state).1 y)
      linked_in none name_mem unused room = unfold link_group in Inv-emit_all y y.state [] v
      linked_in (some a) false unused room =
          unfold link_group in Inv-emit_all y y.state (free_group a ∷ []) v
      linked_in (some a) true unused room =
          link-Inv y v quiet y.state _ [] v refl (refl, refl) (ground (arith, v.counted, v.few))
            (unused a refl)

  -- What it comes to.
  pub add_chosen-Adds :
      (c : Choice) (grp_mem : Option ℕ) (name_mem : Bool)
      → Chosen name y.state c
      → c.already_exists ≡ false
      → ((a : ℕ) → grp_mem ≡ some a → count a (addresses y.group_list) ≡ 0)
      → Adds name y.state
          (add_chosen grp_mem name_mem name track c).0
          (add_chosen grp_mem name_mem name track c).1
  unfolding add_chosen Result after
  add_chosen-Adds c grp_mem name_mem h new unused =
      elim (Bool-cases (c.state.group_count == max_groups)) [
        | inl full ↦ adds_of (after-full c h grp_mem name_mem new full)
        | inr room ↦ adds_of (after-new c h new room grp_mem name_mem unused)
      ]
    where
      adds_of :
          {x : Ret × State}
          → (r : Ret) × (s : State) × (some x ≡ some (r, s))
            × Inv (with_state s y)
            × Adds name y.state r s
          → Adds name y.state x.0 x.1
      adds_of {x} (r, s, e, _, adds) =
          let same : (r, s) ≡ x = ground arith in
          subst (λ (x : Ret × State). Adds name y.state x.0 x.1) same adds

  -- From a state with the invariant in which no access stands between its allocation and its
  -- posting, `dazukofs_add_group` returns, keeps the invariant, and has one of the outcomes that
  -- `Adds` lists, whichever memory it is given at an address that no group has.
  pub dazukofs_add_group-Adds :
      (grp_mem : Option ℕ) (name_mem : Bool)
      → ((a : ℕ) → grp_mem ≡ some a → count a (addresses y.group_list) ≡ 0)
      → (r : Ret) × (s : State) × (dazukofs_add_group grp_mem name_mem name track y.state
          ≡ some (r, s))
        × Inv (with_state s y)
        × Adds name y.state r s
  unfolding dazukofs_add_group add_chosen Result after
  dazukofs_add_group-Adds grp_mem name_mem unused =
      let (c, eq, h) =
        choose_id-Chosen name track (length y.group_list + 1) 0 y.state v.retired
          (λ j below. absurd (omega arith)) (omega (arith, active-le-length y.group_list)) in
      rw (eq, ◌>>=◌)
        (elim (Bool-cases c.already_exists) [
          | inl there ↦ after-exists c h grp_mem name_mem there
          | inr new ↦ elim (Bool-cases (c.state.group_count == max_groups)) [
            | inl full ↦ after-full c h grp_mem name_mem new full
            | inr room ↦ after-new c h new room grp_mem name_mem unused
          ]
        ])
