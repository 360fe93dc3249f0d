-- ===== src/Control/Proofs.antt =====
-- The commands of ctrl_dev.c: how a name ends, and what the handler is given.
use dazukofs_linux.Base.{
  ℕ, suc, ◌+◌, ◌≡◌, refl, ap, true, false, Option, none, some, List, [], ◌∷◌, ◌++◌, ◌==◌, ==_refl,
  length, length-append, drop, starts_with, c_string, arith,
}
use dazukofs_linux.Events.State.{Ret, State, ◌>>=◌}
use dazukofs_linux.Control.{
  is_name_char, write_byte, is_valid_char, scan_name, process_command, run_command, find_key,
}

-- Every byte is a letter, a digit, a line, a dash or the NUL.
abbrev pub AllValid : List ℕ → Type 0
AllValid [] = Unit {0}
AllValid (c ∷ s) = (is_valid_char c ≡ true) × AllValid s

scan_name-AllValid : (s : List ℕ) → AllValid s → scan_name s ≡ none
unfolding scan_name
scan_name-AllValid [] h = refl
scan_name-AllValid (c ∷ s) h = rw (h.0, scan_name-AllValid s h.1) refl

abbrev pub AllName : List ℕ → Type 0
AllName [] = Unit {0}
AllName (c ∷ s) = (is_name_char c ≡ true) × AllName s

is_valid_char-is_name_char : (c : ℕ) → is_name_char c ≡ true → is_valid_char c ≡ true
unfolding is_valid_char
is_valid_char-is_name_char c h = rw h refl

name_char-ne_nul : (c : ℕ) → is_name_char c ≡ true → (c == 0) ≡ false
name_char-ne_nul c h = ground arith

-- A scan stops at the first byte after the name.
scan_name-AllName :
    (name rest : List ℕ) (stop : ℕ)
    → AllName name
    → is_valid_char stop ≡ false
    → scan_name (name ++ stop ∷ rest) ≡ some (length name)
unfolding scan_name
scan_name-AllName [] rest stop h e = rw e refl
scan_name-AllName (c ∷ name) rest stop h e =
    rw (is_valid_char-is_name_char c h.0, scan_name-AllName name rest stop h.1 e)
      (ap some (omega arith))

c_string-AllName : (name rest : List ℕ) → AllName name → c_string (name ++ 0 ∷ rest) ≡ name
c_string-AllName [] rest h = refl
c_string-AllName (c ∷ name) rest h =
    rw (name_char-ne_nul c h.0) (ap (λ s. c ∷ s) (c_string-AllName name rest h.1))

suc_plus : (n : ℕ) → suc n + 1 ≡ suc (n + 1)
suc_plus n = omega arith

write_byte-behind :
    (xs rest : List ℕ) (old new : ℕ)
    → write_byte (length xs) new (xs ++ old ∷ rest) ≡ xs ++ new ∷ rest
write_byte-behind [] rest old new = refl
write_byte-behind (x ∷ xs) rest old new =
    rw (suc_plus (length xs)) (ap (λ ys. x ∷ ys) (write_byte-behind xs rest old new))

drop-append : (xs ys : List ℕ) → drop (length xs) (xs ++ ys) ≡ ys
drop-append [] ys = refl
drop-append (x ∷ xs) ys = drop-append xs ys

starts_with-append : (xs ys : List ℕ) → starts_with xs (xs ++ ys) ≡ true
starts_with-append [] ys = refl
starts_with-append (x ∷ xs) ys = rw (==_refl x) (starts_with-append xs ys)

find_key-append : (k : ℕ) (ks ys : List ℕ) → find_key (k ∷ ks) ((k ∷ ks) ++ ys) ≡ some 0
unfolding find_key
find_key-append k ks ys = rw (==_refl k, starts_with-append ks ys) refl

append_assoc : (xs ys zs : List ℕ) → xs ++ (ys ++ zs) ≡ (xs ++ ys) ++ zs
append_assoc [] ys zs = refl
append_assoc (x ∷ xs) ys zs = ap (λ ws. x ∷ ws) (append_assoc xs ys zs)

write_byte-end :
    (key name rest : List ℕ) (stop new : ℕ)
    → write_byte (length key + length name) new (key ++ (name ++ stop ∷ rest))
      ≡ key ++ (name ++ new ∷ rest)
write_byte-end key name rest stop new =
    rw
      (
        append_assoc key name (stop ∷ rest),
        append_assoc key name (new ∷ rest),
        ← length-append key name,
      )
      (write_byte-behind (key ++ name) rest stop new)

differ : (n m : ℕ) → (n == n + suc m) ≡ false
differ n m = ground arith

run_command-name :
    (func : List ℕ → State → Option (Ret × State)) (key name rest : List ℕ) (stop : ℕ) (s : State)
    → AllName name
    → (length key == length key + length name) ≡ false
    → run_command func (key ++ (name ++ stop ∷ rest)) (length key) (length key + length name) s ≡ (
        func name s >>= λ r.
        some (record { buf = key ++ (name ++ b' ' ∷ rest); state = r.1; retcode = some r.0 }))
unfolding run_command
run_command-name func key name rest stop s h e =
    rw
      (
        write_byte-end key name rest stop 0,
        write_byte-end key name rest stop b' ',
        e,
        drop-append key (name ++ 0 ∷ rest),
        c_string-AllName name rest h,
      )
      refl

-- A command whose key starts the buffer, and whose name, of at least one letter, digit, line or
-- dash, is ended by another byte that is not the NUL: its handler is run once, on that name, the
-- result is the handler's, and the byte that ended the name is a space.
pub process_command-name :
    (func : List ℕ → State → Option (Ret × State)) (k : ℕ) (ks : List ℕ) (c : ℕ)
    (name rest : List ℕ) (stop : ℕ) (s : State)
    → AllName (c ∷ name)
    → is_valid_char stop ≡ false
    → process_command (k ∷ ks) func ((k ∷ ks) ++ ((c ∷ name) ++ stop ∷ rest)) s ≡ (
        func (c ∷ name) s >>= λ r.
        some (record {
          buf = (k ∷ ks) ++ ((c ∷ name) ++ b' ' ∷ rest);
          state = r.1;
          retcode = some r.0;
        }))
unfolding process_command
process_command-name func k ks c name rest stop s h e =
    found_at (k ∷ ks) (c ∷ name) (find_key-append k ks ((c ∷ name) ++ stop ∷ rest)) h
      (differ (length (k ∷ ks)) (length name))
  where
    zero_plus : (n : ℕ) → 0 + n ≡ n
    zero_plus n = omega arith

    found_at :
        (key name : List ℕ)
        → find_key key (key ++ (name ++ stop ∷ rest)) ≡ some 0
        → AllName name
        → (length key == length key + length name) ≡ false
        → process_command key func (key ++ (name ++ stop ∷ rest)) s ≡ (
            func name s >>= λ r.
            some (record { buf = key ++ (name ++ b' ' ∷ rest); state = r.1; retcode = some r.0 }))
    found_at key name f h d =
        rw
          (
            f,
            zero_plus (length key),
            drop-append key (name ++ stop ∷ rest),
            scan_name-AllName name rest stop h e,
          )
          (run_command-name func key name rest stop s h d)

-- If the key stands in the buffer and every byte behind it, up to the end of the buffer, is a byte
-- of a name or the NUL, then the command runs off the end of the buffer, for any handler.
pub process_command-fault :
    (key buf : List ℕ) (i : ℕ) (func : List ℕ → State → Option (Ret × State)) (s : State)
    → find_key key buf ≡ some i
    → AllValid (drop (i + length key) buf)
    → process_command key func buf s ≡ none
unfolding process_command
process_command-fault key buf i func s e h =
    rw (e, scan_name-AllValid (drop (i + length key) buf) h) refl
