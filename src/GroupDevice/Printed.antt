-- ===== src/GroupDevice/Printed.antt =====
-- The text of an event as dazukofs_group_read prints it, under the parser of test/lib/dazukofs.c.
use dazukofs_linux.Base.{
  ℕ, zero, suc, ◌+◌, ◌/◌, ◌-◌, ◌*◌, ◌%◌, ◌^◌, ◌<◌, ◌≡◌, refl, ap, ◌∙◌, inl, inr, Bool, true, false,
  some, List, [], ◌∷◌, ◌++◌, ltb, ◌==◌, decimal, c_string, strstr, is_digit, AllDigits,
  AllDigits-digits, EndsNumber, digits, value, value-decimal, arith, Bool-cases,
}
use mathlib.Core.List.{append_assoc}
use dazukofs_linux.Library.{
  convert, number, int_value, unsigned_value, Handle, Access, access_at, parse_access, is_space,
}
use dazukofs_linux.GroupDevice.{id_key}
use dazukofs_linux.GroupDevice.Proofs.{c_string-digits}

number-value :
    (n : ℕ) (xs rest : List ℕ)
    → AllDigits xs
    → EndsNumber rest
    → number (some n) (xs ++ rest) ≡ (some (value n xs), rest)
unfolding number
number-value n [] [] d e = refl
number-value n [] (c ∷ s) d e = rw e refl
number-value n (x ∷ xs) rest d e = rw d.0 (number-value (n * 10 + (x - b'0')) xs rest d.1 e)

plain_digit :
    (x : ℕ)
    → is_digit x ≡ true
    → (is_space x ≡ false) × ((x == b'-') ≡ false) × ((x == b'+') ≡ false)
plain_digit x h = ground arith

-- A number at the start of a text, without a sign.
convert-number :
    (f : Bool → ℕ → ℕ) (x : ℕ) (xs rest : List ℕ)
    → is_digit x ≡ true
    → AllDigits xs
    → EndsNumber rest
    → convert f (x ∷ xs ++ rest) ≡ (f false (value (0 * 10 + (x - b'0')) xs), rest)
unfolding convert number
convert-number f x xs rest h d e =
    let (space, minus, plus) = plain_digit x h in
    rw (space, minus, plus, h, number-value (0 * 10 + (x - b'0')) xs rest d e) refl

digits-head : (k n y : ℕ) (out : List ℕ) → (x : ℕ) × (xs : List ℕ) × (digits k n (y ∷ out) ≡ x ∷ xs)
unfolding digits
digits-head zero n y out = (y, out, refl)
digits-head (suc k) n y out = elim (Bool-cases (ltb n 10)) [
  | inl small ↦ (b'0' + n % 10, y ∷ out, rw small refl)
  | inr large ↦ rw large (digits-head k (n / 10) (b'0' + n % 10) (y ∷ out))
]

decimal-head : (n : ℕ) → (x : ℕ) × (xs : List ℕ) × (decimal n ≡ x ∷ xs)
unfolding digits
decimal-head n = elim (Bool-cases (ltb n 10)) [
  | inl small ↦ (b'0' + n % 10, [], rw small refl)
  | inr large ↦ rw large (digits-head 19 (n / 10) (b'0' + n % 10) [])
]

convert-decimal :
    (f : Bool → ℕ → ℕ) (n : ℕ) (rest : List ℕ)
    → n < 2 ^ 64
    → EndsNumber rest
    → convert f (decimal n ++ rest) ≡ (f false n, rest)
convert-decimal f n rest h e =
    let (x, xs, eq) = decimal-head n in
    let d : AllDigits (x ∷ xs) = rw eq at (AllDigits-digits 20 n [] tt) in
    let v : value 0 (x ∷ xs) ≡ n = rw eq at (value-decimal n h) in
    rw eq (convert-number f x xs rest d.0 d.1 e ∙ ap (λ m. (f false m, rest)) v)

-- The printed text, with the end that it has.
abbrev pub pid_text : (pid : ℕ) → List ℕ → List ℕ
pid_text pid t = b'\n' ∷ b'p' ∷ b'i' ∷ b'd' ∷ b'=' ∷ (decimal pid ++ t)

abbrev pub fd_text : (fd : ℕ) → List ℕ → List ℕ
fd_text fd t = b'\n' ∷ b'f' ∷ b'd' ∷ b'=' ∷ (decimal fd ++ t)

abbrev pub printed : (n fd pid : ℕ) → List ℕ → List ℕ
printed n fd pid t = b'i' ∷ b'd' ∷ b'=' ∷ (decimal n ++ fd_text fd (pid_text pid t))

abbrev pub seen : (fd pid : ℕ) → Access
seen fd pid = record { deny = false; fd = fd; pid = pid }

int_value_lem : (n : ℕ) → n < 2 ^ 31 → int_value false n ≡ n
int_value_lem n h = ground arith

unsigned_value_lem : (n : ℕ) → n < 2 ^ 64 → unsigned_value false n ≡ n
unsigned_value_lem n h = ground arith

module _ (n fd pid : ℕ) (hn : n < 2 ^ 64) (hf : fd < 2 ^ 31) (hp : pid < 2 ^ 31) (t : List ℕ)
    (ends : EndsNumber t) where
  parse_access-printed : parse_access (fd_text fd (pid_text pid t)) ≡ some (seen fd pid)
  unfolding parse_access strstr
  parse_access-printed =
      rw
        (
          convert-decimal int_value fd (pid_text pid t) (omega arith) refl,
          convert-decimal unsigned_value pid t (omega arith) ends,
          int_value_lem fd hf,
          unsigned_value_lem pid (omega arith),
        )
        refl

  pub access_at-printed :
      (h : Handle)
      → access_at (strstr id_key (printed n fd pid t)) h
        ≡ (some (seen fd pid), record h { event_id = n })
  unfolding strstr
  access_at-printed h =
      rw
        (
          convert-decimal unsigned_value n (fd_text fd (pid_text pid t)) hn refl,
          parse_access-printed,
          unsigned_value_lem n hn,
        )
        refl

-- A text that ends in a NUL, or not.
pub c_string-printed :
    (n fd pid : ℕ) (t : List ℕ) → c_string (printed n fd pid t) ≡ printed n fd pid (c_string t)
c_string-printed n fd pid t =
    rw
      (
        c_string-digits (decimal n) (fd_text fd (pid_text pid t)) (AllDigits-digits 20 n [] tt),
        c_string-digits (decimal fd) (pid_text pid t) (AllDigits-digits 20 fd [] tt),
        c_string-digits (decimal pid) t (AllDigits-digits 20 pid [] tt),
      )
      refl

pub printed-append : (n fd pid : ℕ) (t : List ℕ) → printed n fd pid [] ++ t ≡ printed n fd pid t
printed-append n fd pid t =
    rw
      (
        append_assoc (decimal n) (fd_text fd (pid_text pid [])) t,
        append_assoc (decimal fd) (pid_text pid []) t,
        append_assoc (decimal pid) [] t,
      )
      refl
