-- ===== src/Events/Pointers.antt =====
-- Pointers into the group list: what a search finds, and what a write through a pointer changes.
use dazukofs_linux.Base.{
  ℕ, ◌+◌, ◌<◌, ◌≡◌, refl, true, false, some, List, [], ◌∷◌, arith, count, Distinct, text_eq,
}
use dazukofs_linux.Events.State.{Group, find_address, modify_group}
use dazukofs_linux.Events.Groups.{find_named}
use dazukofs_linux.Events.Serve.{find_active}
use dazukofs_linux.Events.Tally.{held, listed}

abbrev pub addresses : List Group → List ℕ
addresses [] = []
addresses (g ∷ gs) = g.address ∷ addresses gs

-- A property of every group of a list.
abbrev pub All {ℓ} : (Group → Type ℓ) → List Group → Type ℓ
All P [] = Unit
All P (g ∷ gs) = P g × All P gs

pub find_address-All {ℓ} :
    (P : Group → Type ℓ) (p : ℕ) (g : Group) (gs : List Group)
    → find_address p gs ≡ some g
    → All P gs
    → P g
unfolding find_address
find_address-All P p g [] e h = cc
find_address-All P p g (x ∷ gs) e h = ground (arith, find_address-All P p g gs)

pub modify_group-All {ℓ} :
    (P : Group → Type ℓ) (p : ℕ) (f : Group → Group) (gs : List Group)
    → ((g : Group) → P g → P (f g))
    → All P gs
    → All P (modify_group p f gs)
unfolding modify_group
modify_group-All P p f [] keeps h = h
modify_group-All P p f (g ∷ gs) keeps h = ground (arith, keeps g, modify_group-All P p f gs keeps)

module _ (p : ℕ) where
  pub address-find_address :
      (g : Group) (gs : List Group) → find_address p gs ≡ some g → g.address ≡ p
  unfolding find_address
  address-find_address g [] e = cc
  address-find_address g (x ∷ gs) e = ground (arith, address-find_address g gs)

  pub find_address-count :
      (g : Group) (gs : List Group) → find_address p gs ≡ some g → 0 < count p (addresses gs)
  unfolding find_address count
  find_address-count g [] e = cc
  find_address-count g (x ∷ gs) e = ground (arith, find_address-count g gs)

  pub addresses-modify_group :
      (f : Group → Group) (gs : List Group)
      → ((g : Group) → (f g).address ≡ g.address)
      → addresses (modify_group p f gs) ≡ addresses gs
  unfolding modify_group
  addresses-modify_group f [] same = refl
  addresses-modify_group f (g ∷ gs) same = ground (arith, same g, addresses-modify_group f gs same)

  pub find_address-modify_group :
      (f : Group → Group) (g : Group) (gs : List Group)
      → ((g : Group) → (f g).address ≡ g.address)
      → find_address p gs ≡ some g
      → find_address p (modify_group p f gs) ≡ some (f g)
  unfolding find_address modify_group
  find_address-modify_group f g [] same e = cc
  find_address-modify_group f g (x ∷ gs) same e =
      ground (arith, same x, find_address-modify_group f g gs same)

  -- A write that moves no container changes no count of holders.
  pub listed-modify_group_same :
      (a : ℕ) (f : Group → Group) (gs : List Group)
      → ((g : Group) → held a (f g) ≡ held a g)
      → listed a (modify_group p f gs) ≡ listed a gs
  unfolding modify_group
  listed-modify_group_same a f [] same = refl
  listed-modify_group_same a f (g ∷ gs) same =
      ground (arith, same g, listed-modify_group_same a f gs same)

  -- Any other write changes it by what it does at the group.
  pub listed-modify_group :
      (a : ℕ) (f : Group → Group) (g : Group) (gs : List Group)
      → find_address p gs ≡ some g
      → listed a (modify_group p f gs) + held a g ≡ listed a gs + held a (f g)
  unfolding find_address modify_group
  listed-modify_group a f g [] e = cc
  listed-modify_group a f g (x ∷ gs) e = ground (arith, listed-modify_group a f g gs)

module _ (id : ℕ) where
  pub find_active-count :
      (g : Group) (gs : List Group)
      → find_active id gs ≡ some g
      → 0 < count g.address (addresses gs)
  unfolding find_active count
  find_active-count g [] e = cc
  find_active-count g (x ∷ gs) e = ground (arith, find_active-count g gs)

  -- With distinct addresses a group that a search finds is the one at its address.
  pub find_active-find_address :
      (g : Group) (gs : List Group)
      → Distinct (addresses gs)
      → find_active id gs ≡ some g
      → find_address g.address gs ≡ some g
  unfolding find_active find_address
  find_active-find_address g [] d e = cc
  find_active-find_address g (x ∷ gs) d e =
      ground (arith, find_active-find_address g gs, find_active-count g gs)

  pub find_active_lem :
      (g : Group) (gs : List Group)
      → find_active id gs ≡ some g
      → (g.deprecated ≡ false) × (g.group_id ≡ id)
  unfolding find_active
  find_active_lem g [] e = cc
  find_active_lem g (x ∷ gs) e = ground (arith, find_active_lem g gs)

module _ (name : List ℕ) where
  find_named-count :
      (g : Group) (gs : List Group)
      → find_named name gs ≡ some g
      → 0 < count g.address (addresses gs)
  unfolding find_named count
  find_named-count g [] e = cc
  find_named-count g (x ∷ gs) e = ground (arith, find_named-count g gs)

  pub find_named-find_address :
      (g : Group) (gs : List Group)
      → Distinct (addresses gs)
      → find_named name gs ≡ some g
      → find_address g.address gs ≡ some g
  unfolding find_named find_address
  find_named-find_address g [] d e = cc
  find_named-find_address g (x ∷ gs) d e =
      ground (arith, find_named-find_address g gs, find_named-count g gs)

  pub find_named_lem :
      (g : Group) (gs : List Group)
      → find_named name gs ≡ some g
      → (g.deprecated ≡ false) × (text_eq name g.name ≡ true)
  unfolding find_named
  find_named_lem g [] e = cc
  find_named_lem g (x ∷ gs) e = ground (arith, find_named_lem g gs)

pub modify_group-All_at {ℓ} :
    (P : Group → Type ℓ) (p : ℕ) (f : Group → Group) (g : Group) (gs : List Group)
    → find_address p gs ≡ some g
    → P (f g)
    → All P gs
    → All P (modify_group p f gs)
unfolding find_address modify_group
modify_group-All_at P p f g [] e at_g h = h
modify_group-All_at P p f g (x ∷ gs) e at_g h = ground (arith, modify_group-All_at P p f g gs)

pub modify_group-modify_group :
    (p : ℕ) (f h : Group → Group) (gs : List Group)
    → ((g : Group) → (h g).address ≡ g.address)
    → modify_group p f (modify_group p h gs) ≡ modify_group p (λ g. f (h g)) gs
unfolding modify_group
modify_group-modify_group p f h [] same = refl
modify_group-modify_group p f h (g ∷ gs) same =
    ground (arith, same g, modify_group-modify_group p f h gs same)
