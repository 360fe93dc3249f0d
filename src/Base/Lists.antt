-- ===== src/Base/Lists.antt =====
-- Lists of numbers: membership and multiplicity as computed values, and byte strings.
use Prim.Native.Nat.{ℕ, zero, suc, ◌+◌, ◌≤◌, ◌<◌}
use mathlib.Core.Path.{◌≡◌, refl}
use mathlib.Core.Logic.{◌≢◌}
use mathlib.Core.Bool.{Bool, true, false, ◌&&◌}
use mathlib.Core.List.{List, [], ◌∷◌, ◌++◌}
use mathlib.Core.Option.{Option, none, some}
use native.Mathlib.Omega.{arith}
use dazukofs_linux.Base.Tests.{◌==◌, if◌then◌else◌}

module _ {ℓ} {A : Type ℓ} where
  abbrev pub length : List A → ℕ
  length [] = 0
  length (x ∷ xs) = suc (length xs)

  abbrev pub get_elem? : List A → ℕ → Option A
  get_elem? [] i = none
  get_elem? (x ∷ xs) zero = some x
  get_elem? (x ∷ xs) (suc i) = get_elem? xs i

  -- A write out of bounds changes nothing.
  abbrev pub set : List A → ℕ → A → List A
  set [] i v = []
  set (x ∷ xs) zero v = v ∷ xs
  set (x ∷ xs) (suc i) v = x ∷ set xs i v

  abbrev pub take : ℕ → List A → List A
  take zero xs = []
  take (suc n) [] = []
  take (suc n) (x ∷ xs) = x ∷ take n xs

  abbrev pub drop : ℕ → List A → List A
  drop zero xs = xs
  drop (suc n) [] = []
  drop (suc n) (x ∷ xs) = drop n xs

  abbrev pub replicate : ℕ → A → List A
  replicate zero a = []
  replicate (suc n) a = a ∷ replicate n a

  pub length-append : (xs ys : List A) → length (xs ++ ys) ≡ length xs + length ys
  length-append [] ys = omega arith
  length-append (x ∷ xs) ys = omega (arith, length-append xs ys)

-- How often a number stands in a list.
unfoldable pub count : ℕ → List ℕ → ℕ
count a [] = 0
count a (x ∷ xs) = let rest = count a xs in if x == a then suc rest else rest

-- A list of numbers without repetition.
abbrev pub Distinct : List ℕ → Type 0
Distinct [] = Unit {0}
Distinct (x ∷ xs) = (count x xs ≡ 0) × Distinct xs

pub count-append : (a : ℕ) (xs ys : List ℕ) → count a (xs ++ ys) ≡ count a xs + count a ys
unfolding count
count-append a [] ys = omega arith
count-append a (x ∷ xs) ys = ground (arith, count-append a xs ys)

pub Distinct-append_one :
    (a : ℕ) (xs : List ℕ) → Distinct xs → count a xs ≡ 0 → Distinct (xs ++ a ∷ [])
unfolding count
Distinct-append_one a [] d h = (refl, tt)
Distinct-append_one a (x ∷ xs) d h =
    ground (arith, count-append x xs (a ∷ []), Distinct-append_one a xs d.1)

-- The first occurrence taken out.
unfoldable pub erase : ℕ → List ℕ → List ℕ
erase a [] = []
erase a (x ∷ xs) = if x == a then xs else x ∷ erase a xs

pub count-erase_ne : (a b : ℕ) (xs : List ℕ) → a ≢ b → count b (erase a xs) ≡ count b xs
unfolding count erase
count-erase_ne a b [] h = refl
count-erase_ne a b (x ∷ xs) h = ground (arith, count-erase_ne a b xs h)

pub count-erase_self :
    (a : ℕ) (xs : List ℕ) → 0 < count a xs → count a (erase a xs) + 1 ≡ count a xs
unfolding count erase
count-erase_self a [] h = absurd (omega arith)
count-erase_self a (x ∷ xs) h = ground (arith, count-erase_self a xs)

pub length-erase : (a : ℕ) (xs : List ℕ) → 0 < count a xs → length (erase a xs) + 1 ≡ length xs
unfolding count erase
length-erase a [] h = absurd (omega arith)
length-erase a (x ∷ xs) h = ground (arith, length-erase a xs)

-- The pigeonhole principle: a list that holds every number below `n` has at least `n` members.
pub pigeonhole : (n : ℕ) (xs : List ℕ) → ((k : ℕ) → k < n → 0 < count k xs) → n ≤ length xs
pigeonhole zero xs all = omega arith
pigeonhole (suc n) xs all =
    let shorter = length-erase n xs (all n (omega arith)) in
    let rest = pigeonhole n (erase n xs) (λ k h. still k h) in omega arith
  where
    still : (k : ℕ) → k < n → 0 < count k (erase n xs)
    still k h =
        let differs : n ≢ k = omega arith in
        omega (arith, count-erase_ne n k xs differs, all k (omega arith))

-- Equality of byte strings: `strcmp(s, t) == 0`.
unfoldable pub text_eq : List ℕ → List ℕ → Bool
text_eq [] [] = true
text_eq [] (y ∷ t) = false
text_eq (x ∷ s) [] = false
text_eq (x ∷ s) (y ∷ t) = x == y && text_eq s t

pub text_eq_sound : (s t : List ℕ) → text_eq s t ≡ true → s ≡ t
unfolding text_eq
text_eq_sound [] [] h = refl
text_eq_sound [] (y ∷ t) h = cc
text_eq_sound (x ∷ s) [] h = cc
text_eq_sound (x ∷ s) (y ∷ t) h = ground (arith, text_eq_sound s t)

pub text_eq_refl : (s : List ℕ) → text_eq s s ≡ true
unfolding text_eq
text_eq_refl [] = refl
text_eq_refl (x ∷ s) = ground (arith, text_eq_refl s)
