-- ===== src/Base/Text.antt =====
-- C strings as lists of bytes without the NUL, and the library functions on them.
use Prim.Native.Nat.{ℕ, zero, suc, ◌+◌, ◌-◌, ◌*◌, ◌/◌, ◌%◌, ◌^◌, ◌≤◌, ◌<◌}
use mathlib.Core.Path.{◌≡◌, refl, ap, ◌∙◌}
use mathlib.Core.Bool.{Bool, true, false, ◌&&◌}
use mathlib.Core.List.{List, [], ◌∷◌, ◌++◌}
use mathlib.Core.Option.{Option, none, some}
use mathlib.Core.Logic.{inl, inr}
use native.Mathlib.Omega.{arith}
use native.Mathlib.Nat.{pow-suc}
use dazukofs_linux.Base.Tests.{ltb, leb, ◌==◌, if◌then◌else◌, Bool-cases}
use dazukofs_linux.Base.Lists.{length}

-- `%lu`: the decimal digits of a number; a 64-bit number has at most twenty.
unfoldable pub digits : ℕ → ℕ → List ℕ → List ℕ
digits zero n out = out
digits (suc k) n out =
    let out' = (b'0' + n % 10) ∷ out in
    let rest = digits k (n / 10) out' in if ltb n 10 then out' else rest

abbrev pub decimal : ℕ → List ℕ
decimal n = digits 20 n []

-- The bytes before the first NUL.
abbrev pub c_string : List ℕ → List ℕ
c_string [] = []
c_string (c ∷ s) = if c == 0 then [] else c ∷ c_string s

abbrev pub starts_with : List ℕ → List ℕ → Bool
starts_with [] s = true
starts_with (k ∷ key) [] = false
starts_with (k ∷ key) (c ∷ s) = k == c && starts_with key s

-- The rest of the text from the first occurrence of a key on.
unfoldable pub strstr : List ℕ → List ℕ → Option (List ℕ)
strstr key [] = if starts_with key [] then some [] else none
strstr key (c ∷ s) = if starts_with key (c ∷ s) then some (c ∷ s) else strstr key s

abbrev pub is_digit : ℕ → Bool
is_digit c = leb b'0' c && leb c b'9'

-- `strtoul` in base ten as it is used here, at a digit: the number, modulo 2^64, and the rest.
unfoldable pub strtoul : ℕ → List ℕ → ℕ × List ℕ
strtoul n [] = (n, [])
strtoul n (c ∷ s) =
    let more = strtoul ((n * 10 + (c - b'0')) % 2 ^ 64) s in if is_digit c then more else (n, c ∷ s)

-- The number that digits stand for, behind those that were read before.
abbrev pub value : ℕ → List ℕ → ℕ
value n [] = n
value n (c ∷ s) = value (n * 10 + (c - b'0')) s

abbrev pub AllDigits : List ℕ → Type 0
AllDigits [] = Unit {0}
AllDigits (c ∷ s) = (is_digit c ≡ true) × AllDigits s

-- A text whose first byte, if there is one, is no digit.
abbrev pub EndsNumber : List ℕ → Type 0
EndsNumber [] = Unit {0}
EndsNumber (c ∷ s) = is_digit c ≡ false

value-le : (n : ℕ) (xs : List ℕ) → n ≤ value n xs
value-le n [] = omega arith
value-le n (c ∷ s) = omega (arith, value-le (n * 10 + (c - b'0')) s)

strtoul-value :
    (n : ℕ) (xs rest : List ℕ)
    → AllDigits xs
    → EndsNumber rest
    → value n xs < 2 ^ 64
    → strtoul n (xs ++ rest) ≡ (value n xs, rest)
unfolding strtoul
strtoul-value n [] [] d e h = refl
strtoul-value n [] (c ∷ s) d e h = rw e
strtoul-value n (x ∷ xs) rest d e h =
    let m = n * 10 + (x - b'0') in
    let small : m % 2 ^ 64 ≡ m = omega (arith, value-le m xs) in
    rw (d.0, small) (strtoul-value m xs rest d.1 e h)

two_digits : (n : ℕ) → ltb n 10 ≡ false → 10 ≤ n
two_digits n e = ground arith

-- A number of two digits or more without its last.
shorter : (k n : ℕ) → n < 10 ^ suc k → ltb n 10 ≡ false → (n / 10 < 10 ^ k) × (0 < k)
shorter zero n h e = absurd (omega (arith, pow-suc 10 0, two_digits n e))
shorter (suc k) n h e =
    (bound (10 ^ suc k) n (omega (arith, pow-suc 10 (suc k))), omega (arith, two_digits n e))
  where
    bound : (m n : ℕ) → n < 10 * m → n / 10 < m
    bound m n h = omega arith

last_digit : (n : ℕ) → n / 10 * 10 + (b'0' + n % 10 - b'0') ≡ n
last_digit n = omega arith

one_digit : (n : ℕ) → ltb n 10 ≡ true → 0 * 10 + (b'0' + n % 10 - b'0') ≡ n
one_digit n e = ground arith

value-digits :
    (k n : ℕ) (out : List ℕ) → n < 10 ^ k → 0 < k → value 0 (digits k n out) ≡ value n out
unfolding digits
value-digits zero n out h p = absurd (omega arith)
value-digits (suc k) n out h p = elim (Bool-cases (ltb n 10)) [
  | inl e ↦ rw e (ap (λ m. value m out) (one_digit n e))
  | inr e ↦
      let l = shorter k n h e in
      rw e (
        value-digits k (n / 10) ((b'0' + n % 10) ∷ out) l.0 l.1
        ∙ ap (λ m. value m out) (last_digit n))
]

is_digit_lem : (n : ℕ) → is_digit (b'0' + n % 10) ≡ true
is_digit_lem n = ground arith

pub AllDigits-digits : (k n : ℕ) (out : List ℕ) → AllDigits out → AllDigits (digits k n out)
unfolding digits
AllDigits-digits zero n out h = h
AllDigits-digits (suc k) n out h = elim (Bool-cases (ltb n 10)) [
  | inl e ↦ rw e (is_digit_lem n, h)
  | inr e ↦ rw e (AllDigits-digits k (n / 10) ((b'0' + n % 10) ∷ out) (is_digit_lem n, h))
]

-- The digits of a number stand for it.
pub value-decimal : (n : ℕ) → n < 2 ^ 64 → value 0 (decimal n) ≡ n
value-decimal n h = value-digits 20 n [] (omega arith) (omega arith)

-- What `%lu` prints, `strtoul` reads.
pub strtoul-decimal :
    (n : ℕ) (rest : List ℕ)
    → n < 2 ^ 64
    → EndsNumber rest
    → strtoul 0 (decimal n ++ rest) ≡ (n, rest)
strtoul-decimal n rest h e =
    let v = value-decimal n h in
    strtoul-value 0 (decimal n) rest (AllDigits-digits 20 n [] tt) e (rw v h)
    ∙ ap (λ m. (m, rest)) v

-- A number below a power of ten has at most as many digits.
pub length-digits :
    (k j n : ℕ) (out : List ℕ) → n < 10 ^ suc j → length (digits k n out) ≤ suc j + length out
unfolding digits
length-digits zero j n out h = omega arith
length-digits (suc k) j n out h = elim (Bool-cases (ltb n 10)) [
  | inl e ↦ rw e (omega arith)
  | inr e ↦ rw e (longer j n out h e (λ j h. length-digits k j (n / 10) ((b'0' + n % 10) ∷ out) h))
]
  where
    longer :
        (j n : ℕ) (out : List ℕ)
        → n < 10 ^ suc j
        → ltb n 10 ≡ false
        → {m : ℕ} → ((j : ℕ) → n / 10 < 10 ^ suc j → m ≤ suc j + suc (length out))
        → m ≤ suc j + length out
    longer zero n out h e f = absurd (omega (arith, (shorter 0 n h e).1))
    longer (suc j) n out h e f = omega (arith, f j (shorter (suc j) n h e).0)
