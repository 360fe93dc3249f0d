-- ===== src/Events/Listing/Buffers.antt =====
-- Writes of bytes in a buffer.
use dazukofs_linux.Base.{
  ℕ, zero, suc, ◌+◌, ◌≤◌, ◌≡◌, refl, sym, ap, ◌∙◌, false, some, List, [], ◌∷◌, ◌++◌, arith, ltb,
  length, length-append, take, drop,
}
use mathlib.Core.List.{append_assoc}
use dazukofs_linux.Events.Quiet.{some_inj}
use dazukofs_linux.Events.Listing.{write_at}

pub fits : {m n : ℕ} → m ≤ n → ltb n m ≡ false
fits h = ground arith

-- A write from the start.
unfolded_write :
    (off : ℕ) (xs p : List ℕ) (j : ℕ)
    → j ≡ off + length xs
    → j ≤ length p
    → write_at off xs p ≡ some (take off p ++ xs ++ drop j p)
unfolding write_at
unfolded_write off xs p j e h = rw (← e, fits h) refl

pub write_at-start :
    (xs p : List ℕ) → length xs ≤ length p → write_at 0 xs p ≡ some (xs ++ drop (length xs) p)
write_at-start xs p h = unfolded_write 0 xs p (length xs) (omega arith) h

length-take : (k : ℕ) (p : List ℕ) → k ≤ length p → length (take k p) ≡ k
length-take zero p h = refl
length-take (suc k) [] h = absurd (omega arith)
length-take (suc k) (x ∷ p) h = omega (arith, length-take k p (omega arith))

pub length-drop : (k : ℕ) (p : List ℕ) → k ≤ length p → length (drop k p) + k ≡ length p
length-drop zero p h = omega arith
length-drop (suc k) [] h = absurd (omega arith)
length-drop (suc k) (x ∷ p) h = omega (arith, length-drop k p (omega arith))

-- A write that stays in the buffer.
pub write_at-total :
    (off : ℕ) (xs p : List ℕ)
    → off + length xs ≤ length p
    → (q : List ℕ) × (write_at off xs p ≡ some q) × (length q ≡ length p)
write_at-total off xs p h = (
  take off p ++ xs ++ drop (off + length xs) p,
  unfolded_write off xs p (off + length xs) refl h,
  omega (
    arith,
    length-append (take off p ++ xs) (drop (off + length xs) p),
    length-append (take off p) xs,
    length-take off p (omega arith),
    length-drop (off + length xs) p h,
  ),
)

take-behind : (xs p : List ℕ) (j k : ℕ) → j ≡ length xs + k → take j (xs ++ p) ≡ xs ++ take k p
take-behind [] p j k e = ap (λ i. take i p) (omega arith)
take-behind (x ∷ xs) p zero k e = absurd (omega arith)
take-behind (x ∷ xs) p (suc j) k e = ap (λ ys. x ∷ ys) (take-behind xs p j k (omega arith))

drop-behind : (xs p : List ℕ) (j k : ℕ) → j ≡ length xs + k → drop j (xs ++ p) ≡ drop k p
drop-behind [] p j k e = ap (λ i. drop i p) (omega arith)
drop-behind (x ∷ xs) p zero k e = absurd (omega arith)
drop-behind (x ∷ xs) p (suc j) k e = drop-behind xs p j k (omega arith)

-- A write behind bytes that stay.
pub write_at-behind :
    (xs ys p q : List ℕ) (j k : ℕ)
    → j ≡ length xs + k
    → k + length ys ≤ length p
    → write_at k ys p ≡ some q
    → write_at j ys (xs ++ p) ≡ some (xs ++ q)
write_at-behind xs ys p q j k e h done =
    unfolded_write j ys (xs ++ p) (j + length ys) refl (omega (arith, length-append xs p))
    ∙ ap some (
        rw
          (
            take-behind xs p j k e,
            drop-behind xs p (j + length ys) (k + length ys) (omega arith),
            append_assoc xs (take k p) ys,
            append_assoc xs (take k p ++ ys) (drop (k + length ys) p),
          )
          (ap (λ r. xs ++ r)
            (some_inj (sym (unfolded_write k ys p (k + length ys) refl h) ∙ done))))
