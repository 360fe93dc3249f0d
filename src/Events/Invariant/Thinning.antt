-- ===== src/Events/Invariant/Thinning.antt =====
-- Group lists that differ by retired groups only, as the clean-up of __check_for_group makes them.
use dazukofs_linux.Base.{
  ℕ, ◌+◌, ◌≤◌, ◌≡◌, refl, true, List, [], ◌∷◌, arith, if◌then◌else◌, length, count, Distinct, ◌∙◌,
  text_eq, not, ◌&&◌,
}
use dazukofs_linux.Events.State.{Group}
use dazukofs_linux.Events.Tally.{listed}
use dazukofs_linux.Events.Pointers.{addresses, All}
use dazukofs_linux.Events.Invariant.{Retired, active}

-- The ids of the groups that are not deprecated, and how many of these groups have a name.
abbrev pub active_ids : List Group → List ℕ
active_ids [] = []
active_ids (g ∷ gs) = if g.deprecated then active_ids gs else g.group_id ∷ active_ids gs

abbrev pub named : List ℕ → List Group → ℕ
named name [] = 0
named name (g ∷ gs) = (if not g.deprecated && text_eq name g.name then 1 else 0) + named name gs

pub length-active_ids : (gs : List Group) → length (active_ids gs) ≡ active gs
length-active_ids [] = refl
length-active_ids (g ∷ gs) = ground (arith, length-active_ids gs)

-- A list of groups less some that are retired.
pub record Thinned (gs hs : List Group) : Type 0 where
  pub same_listed : (a : ℕ) → listed a hs ≡ listed a gs
  pub same_active : active hs ≡ active gs
  pub same_ids : active_ids hs ≡ active_ids gs
  pub same_names : (name : List ℕ) → named name hs ≡ named name gs
  pub fewer : (a : ℕ) → count a (addresses hs) ≤ count a (addresses gs)
  pub distinct : Distinct (addresses gs) → Distinct (addresses hs)
  pub retired : All Retired hs

pub Thinned-refl : (gs : List Group) → All Retired gs → Thinned gs gs
Thinned-refl gs r = record {
  same_listed = λ a. refl;
  same_active = refl;
  same_ids = refl;
  same_names = λ name. refl;
  fewer = λ a. omega arith;
  distinct = λ d. d;
  retired = r;
}

pub Thinned-trans : (gs hs is : List Group) → Thinned gs hs → Thinned hs is → Thinned gs is
Thinned-trans gs hs is p q = record {
  same_listed = λ a. q.same_listed a ∙ p.same_listed a;
  same_active = q.same_active ∙ p.same_active;
  same_ids = q.same_ids ∙ p.same_ids;
  same_names = λ name. q.same_names name ∙ p.same_names name;
  fewer = λ a. omega (arith, p.fewer a, q.fewer a);
  distinct = λ d. q.distinct (p.distinct d);
  retired = q.retired;
}

-- A group that stays, perhaps with tracking switched on.
pub Thinned-keep :
    (g h : Group) (gs hs : List Group)
    → (h.address ≡ g.address)
      × (h.deprecated ≡ g.deprecated)
      × (h.group_id ≡ g.group_id)
      × (h.name ≡ g.name)
      × (h.working_list ≡ g.working_list)
      × (h.todo_list ≡ g.todo_list)
    → Retired g
    → Thinned gs hs
    → Thinned (g ∷ gs) (h ∷ hs)
unfolding count
Thinned-keep g h gs hs same r t = record {
  same_listed = λ a. ground (arith, t.same_listed a);
  same_active = ground (arith, t.same_active);
  same_ids = ground (arith, t.same_ids);
  same_names = λ name. ground (arith, t.same_names name);
  fewer = λ a. ground (arith, t.fewer a);
  distinct = λ d. ground (arith, t.fewer g.address, t.distinct d.1);
  retired = ((λ old. ground (arith, r (ground arith))), t.retired);
}

pub Thinned-discard :
    (g : Group) (gs hs : List Group)
    → g.deprecated ≡ true
    → Retired g
    → Thinned gs hs
    → Thinned (g ∷ gs) hs
unfolding count
Thinned-discard g gs hs old r t = record {
  same_listed = λ a. ground (arith, t.same_listed a, r old);
  same_active = ground (arith, t.same_active);
  same_ids = ground (arith, t.same_ids);
  same_names = λ name. ground (arith, t.same_names name);
  fewer = λ a. ground (arith, t.fewer a);
  distinct = λ d. t.distinct d.1;
  retired = t.retired;
}
