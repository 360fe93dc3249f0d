-- ===== src/GroupDevice/Proofs.antt =====
-- The answers that the library of test/lib writes, read by dazukofs_group_write of group_dev.c.
use dazukofs_linux.Base.{
  ℕ, zero, suc, ◌^◌, ◌≤◌, ◌<◌, ◌≡◌, refl, ap, Bool, true, false, some, List, [], ◌∷◌, ◌++◌, ◌==◌,
  if◌then◌else◌, leb, length, length-append, take, decimal, c_string, strstr, is_digit, AllDigits,
  AllDigits-digits, length-digits, strtoul-decimal, arith,
}
use dazukofs_linux.Events.State.{Response, allow, deny, State, ◌>>=◌}
use dazukofs_linux.Events.Serve.{dazukofs_return_event}
use dazukofs_linux.GroupDevice.{dazukofs_group_write, parse_response, write_ret, id_key, r_key}
use dazukofs_linux.Library.{response_text}

pub take-all {ℓ} : {A : Type ℓ} (k : ℕ) (xs : List A) → length xs ≤ k → take k xs ≡ xs
take-all zero [] h = refl
take-all zero (x ∷ xs) h = absurd (omega arith)
take-all (suc k) [] h = refl
take-all (suc k) (x ∷ xs) h = ap (λ ys. x ∷ ys) (take-all k xs (omega arith))

digit_lem : (c : ℕ) → is_digit c ≡ true → (c == 0) ≡ false
digit_lem c h = ground arith

pub c_string-digits : (xs ys : List ℕ) → AllDigits xs → c_string (xs ++ ys) ≡ xs ++ c_string ys
c_string-digits [] ys h = refl
c_string-digits (x ∷ xs) ys h = rw (digit_lem x h.0) (ap (λ zs. x ∷ zs) (c_string-digits xs ys h.1))

abbrev tail : Bool → List ℕ
tail d = b' ' ∷ r_key ++ (if d then b'1' else b'0') ∷ []

abbrev uncut : ℕ → Bool → List ℕ
uncut n d = id_key ++ (decimal n ++ tail d)

length-uncut : (n : ℕ) (d : Bool) → n < 10 ^ 11 → length (uncut n d) ≤ 18
length-uncut n d h = omega (arith, length-append (decimal n) (tail d), length-digits 20 10 n [] h)

response_text-uncut : (n : ℕ) (d : Bool) → n < 10 ^ 11 → response_text n d ≡ uncut n d
unfolding response_text
response_text-uncut n d h = take-all 46 (uncut n d) (omega (arith, length-uncut n d h))

c_string-uncut : (n : ℕ) (d : Bool) → c_string (uncut n d) ≡ uncut n d
c_string-uncut n true =
    ap (λ zs. b'i' ∷ b'd' ∷ b'=' ∷ zs)
      (c_string-digits (decimal n) (tail true) (AllDigits-digits 20 n [] tt))
c_string-uncut n false =
    ap (λ zs. b'i' ∷ b'd' ∷ b'=' ∷ zs)
      (c_string-digits (decimal n) (tail false) (AllDigits-digits 20 n [] tt))

abbrev pub response_of : Bool → Response
response_of d = if d then deny else allow

parse_response-uncut :
    (n : ℕ) (d : Bool) → n < 10 ^ 11 → parse_response (uncut n d) ≡ some (n, response_of d)
unfolding parse_response strstr
parse_response-uncut n true h = rw (strtoul-decimal n (tail true) (omega arith) refl) refl
parse_response-uncut n false h = rw (strtoul-decimal n (tail false) (omega arith) refl) refl

pub parse_response-response_text :
    (n : ℕ) (d : Bool)
    → n < 10 ^ 11
    → parse_response (c_string (response_text n d)) ≡ some (n, response_of d)
parse_response-response_text n d h =
    rw (response_text-uncut n d h, c_string-uncut n d) (parse_response-uncut n d h)

clip : (m : ℕ) → m ≤ 18 → (if leb 19 m then 18 else m) ≡ m
clip m h = ground arith

write-parsed :
    (gid n pos : ℕ) (r : Response) (xs : List ℕ) (s : State)
    → length xs ≤ 18
    → c_string xs ≡ xs
    → parse_response xs ≡ some (n, r)
    → dazukofs_group_write gid true xs pos s
      ≡ (dazukofs_return_event gid n r s >>= λ a. some (write_ret (length xs) pos a))
unfolding dazukofs_group_write
write-parsed gid n pos r xs s h c p =
    rw (clip (length xs) h, take-all (length xs) xs (omega arith), c, p) refl

-- An answer that the library writes for an event id of at most eleven digits reaches
-- dazukofs_return_event whole: with the same id, and with a denial or a permission as it was meant.
-- The number of bytes that the write takes is then all of them.
pub write-response_text :
    (gid n pos : ℕ) (d : Bool) (s : State)
    → n < 10 ^ 11
    → dazukofs_group_write gid true (response_text n d) pos s ≡ (
        dazukofs_return_event gid n (response_of d) s >>= λ r.
        some (write_ret (length (response_text n d)) pos r))
write-response_text gid n pos d s h = rw (response_text-uncut n d h) (
    write-parsed gid n pos (response_of d) (uncut n d) s (length-uncut n d h) (c_string-uncut n d)
      (parse_response-uncut n d h))
