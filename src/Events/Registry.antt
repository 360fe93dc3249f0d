-- ===== src/Events/Registry.antt =====
-- The registered groups: at most one active group for an id and for a name, and a device for each.
pub mod Calls
pub mod Counts
pub mod Fitting
pub mod Reached
use mathlib.Core.Path.{subst}
use dazukofs_linux.Base.{
  ℕ, zero, suc, ◌+◌, ◌≤◌, ◌<◌, ◌≡◌, refl, sym, ap, ◌∙◌, inl, inr, Bool, true, false, not, ◌&&◌,
  Option, none, some, List, [], ◌∷◌, ◌++◌, arith, ◌==◌, if◌then◌else◌, Bool-cases, Option-cases,
  count, count-append, text_eq, text_eq_refl, text_eq_sound,
}
use dazukofs_linux.Events.State.{
  Event, Group, State, Ret, ok, ◌>>=◌, >>=-eq-some, modify_group, modify, emit, emit_all,
  max_groups, Response, Container, find_address,
}
use dazukofs_linux.Events.Invariant.Thinning.{active_ids, named}
use dazukofs_linux.Events.Invariant.Outcomes.{
  Appends, Keeps, Adds, existing, no_room, no_memory, appended,
}

-- What holds of the active groups.
pub record Registered (gs : List Group) : Type 0 where
  pub unique_ids : (id : ℕ) → count id (active_ids gs) ≤ 1
  pub devices : (id : ℕ) → 0 < count id (active_ids gs) → id < max_groups
  pub unique_names : (name : List ℕ) → named name gs ≤ 1

-- No active group is new.
pub record Shrinks (gs hs : List Group) : Type 0 where
  pub ids : (id : ℕ) → count id (active_ids hs) ≤ count id (active_ids gs)
  pub names : (name : List ℕ) → named name hs ≤ named name gs

pub Shrinks-Registered : (gs hs : List Group) → Shrinks gs hs → Registered gs → Registered hs
Shrinks-Registered gs hs s r = record {
  unique_ids = λ id. omega (arith, s.ids id, r.unique_ids id);
  devices = λ id more. r.devices id (omega (arith, s.ids id));
  unique_names = λ name. omega (arith, s.names name, r.unique_names name);
}

pub Shrinks-refl : (gs : List Group) → Shrinks gs gs
Shrinks-refl gs = record { ids = λ id. omega arith; names = λ name. omega arith }

pub Shrinks-same : (gs hs : List Group) → hs ≡ gs → Shrinks gs hs
Shrinks-same gs hs e = subst (Shrinks gs) (sym e) (Shrinks-refl gs)

pub Shrinks-trans : (gs hs is : List Group) → Shrinks gs hs → Shrinks hs is → Shrinks gs is
Shrinks-trans gs hs is p q = record {
  ids = λ id. omega (arith, p.ids id, q.ids id);
  names = λ name. omega (arith, p.names name, q.names name);
}

-- A write that keeps id and name, and makes no group active again.
abbrev pub Plain : (Group → Group) → Type 0
Plain f =
    (g : Group)
    → ((f g).name ≡ g.name)
      × ((f g).group_id ≡ g.group_id)
      × (g.deprecated ≡ true → (f g).deprecated ≡ true)

Shrinks-cons :
    (f : Group → Group) (g : Group) (gs hs : List Group)
    → Plain f
    → Shrinks gs hs
    → Shrinks (g ∷ gs) (f g ∷ hs)
unfolding count
Shrinks-cons f g gs hs plain s = record {
  ids = λ id. grind (arith, s.ids id, plain g);
  names = λ name. grind (arith, s.names name, plain g);
}

pub Shrinks-modify :
    (p : ℕ) (f : Group → Group) (gs : List Group) → Plain f → Shrinks gs (modify_group p f gs)
unfolding modify_group
Shrinks-modify p f [] plain = Shrinks-refl []
Shrinks-modify p f (g ∷ gs) plain = elim (Bool-cases (g.address == p)) [
  | inl hit ↦ rw hit (Shrinks-cons f g gs gs plain (Shrinks-refl gs))
  | inr miss ↦ rw miss (
      Shrinks-cons (λ g. g) g gs (modify_group p f gs) (λ g. (refl, refl, λ h. h))
        (Shrinks-modify p f gs plain))
]

pub Keeps-Shrinks : (gs hs : List Group) → Keeps gs hs → Shrinks gs hs
Keeps-Shrinks gs hs k = record {
  ids = λ id. rw k.ids (omega arith);
  names = λ name. omega (arith, k.names name);
}

-- A group that is appended with a new id that has a device, and a new name.
pub Appends-Registered :
    (name : List ℕ) (gs hs : List Group) (id : ℕ)
    → Appends name gs hs id
    → Registered gs
    → Registered hs
unfolding count
Appends-Registered name gs hs id h r = record {
  unique_ids = λ j.
      rw h.ids (ground (arith, count-append j (active_ids gs) (id ∷ []), r.unique_ids j, h.new_id));
  devices = λ j more. device j (rw h.ids at more);
  unique_names = λ other. elim (Bool-cases (text_eq other name)) [
    | inl same ↦
        (let e = text_eq_sound other name same in
          rw (h.names other, same, e) (omega (arith, h.new_name)))
    | inr differs ↦ rw (h.names other, differs) (omega (arith, r.unique_names other))
  ];
}
  where
    device : (j : ℕ) → 0 < count j (active_ids gs ++ id ∷ []) → j < max_groups
    device j more =
        ground (arith, count-append j (active_ids gs) (id ∷ []), r.devices j, h.has_device)
