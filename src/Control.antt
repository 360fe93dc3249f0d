-- ===== src/Control.antt =====
-- The control device of ctrl_dev.c. The buffer on the stack is its bytes, the terminating NUL among
-- them: a scan that runs off its end reads what no definition here knows, a fault.
use dazukofs_linux.Base.{
  ℕ, zero, suc, ◌+◌, ◌-◌, ◌≡◌, Bool, true, false, not, ◌||◌, ◌&&◌, Option, none, some, List, [],
  ◌∷◌, ◌++◌, ◌==◌, if◌then◌else◌, ltb, leb, length, take, drop, starts_with, c_string,
}
use dazukofs_linux.Events.State.{Errno, Ret, ok, err, einval, efault, enomem, State, ◌>>=◌}
use dazukofs_linux.Events.Groups.{dazukofs_add_group, dazukofs_remove_group}
use dazukofs_linux.Events.Listing.{
  Listing, dazukofs_get_groups, out_of_fuel, fault, failed, listing,
}
pub mod Proofs
mod Examples

-- An open file: the text that it reads from, once there is one, and its position.
pub record ControlFile : Type 0 where
  pub private_data : Option (List ℕ)
  pub pos : ℕ

unfoldable pub dazukofs_ctrl_open : ControlFile → Ret × ControlFile
dazukofs_ctrl_open f = (ok 0, record f { private_data = none })

-- What a release frees.
unfoldable pub dazukofs_ctrl_release : ControlFile → Ret × Option (List ℕ)
dazukofs_ctrl_release f = (ok 0, f.private_data)

abbrev pub strlen : List ℕ → ℕ
strlen buf = length (c_string buf)

-- The part of a read that has the text: the result, the bytes for the reader, and the file. `copy`
-- says whether the copy to the reader succeeds.
unfoldable pub read_text : Bool → ℕ → List ℕ → ControlFile → Ret × List ℕ × ControlFile
read_text copy count buf f =
    let left = strlen buf - f.pos in
    let n = if ltb left count then left else count in
    if leb (strlen buf) f.pos
    then (ok 0, [], f)
    else if copy
    then (ok n, take n (drop f.pos buf), record f { pos = f.pos + n })
    else (err efault, [], f)

abbrev pub read_listed : Bool → ℕ → Listing → ControlFile → Option (Ret × List ℕ × ControlFile)
read_listed copy count out_of_fuel f = none
read_listed copy count fault f = none
read_listed copy count (failed e) f = some (err e, [], f)
read_listed copy count (listing buf) f =
    some (read_text copy count buf (record f { private_data = some buf }))

abbrev pub read_from :
    Option (List ℕ)
    → (ℕ → Bool)
    → Bool
    → ℕ
    → ControlFile
    → State
    → Option (Ret × List ℕ × ControlFile)
read_from none mem copy count f s = read_listed copy count (dazukofs_get_groups mem s.group_list) f
read_from (some buf) mem copy count f s = some (read_text copy count buf f)

unfoldable pub dazukofs_ctrl_read :
    (ℕ → Bool) → Bool → ℕ → ControlFile → State → Option (Ret × List ℕ × ControlFile)
unfolding read_text
dazukofs_ctrl_read mem copy count f s = read_from f.private_data mem copy count f s

abbrev pub is_name_char : ℕ → Bool
is_name_char c =
    leb b'a' c && leb c b'z'
    || leb b'A' c && leb c b'Z'
    || leb b'0' c && leb c b'9'
    || c == b'_'
    || c == b'-'

-- `strchr` also finds the NUL that ends the set.
unfoldable pub is_valid_char : ℕ → Bool
is_valid_char c = is_name_char c || c == 0

-- `strstr` on the buffer: the offset of the key before the first NUL.
unfoldable pub find_key : List ℕ → List ℕ → Option ℕ
find_key key [] = none
find_key key (c ∷ buf) =
    let later = (do i ← find_key key buf; some (i + 1)) in
    if starts_with key (c ∷ buf) then some 0 else if c == 0 then none else later

-- The loop over the name: the offset of the first byte that is not valid.
unfoldable pub scan_name : List ℕ → Option ℕ
unfolding is_valid_char
scan_name [] = none
scan_name (c ∷ buf) =
    let more = (do i ← scan_name buf; some (i + 1)) in if is_valid_char c then more else some 0

-- What becomes of a command: the buffer, the state, and the return code if the key is there.
pub record Command : Type 0 where
  pub buf : List ℕ
  pub state : State
  pub retcode : Option Ret

abbrev pub write_byte : ℕ → ℕ → List ℕ → List ℕ
write_byte i c buf = take i buf ++ c ∷ drop (i + 1) buf

-- The name ends at `p2`, an offset into the buffer; it is handed over with a NUL there, and then
-- with a space.
unfoldable pub run_command :
    (List ℕ → State → Option (Ret × State)) → List ℕ → (p p2 : ℕ) → State → Option Command
run_command func buf p p2 s =
    let called = (do
      let name = c_string (drop p (write_byte p2 0 buf))
      (r, s) ← func name s
      some (record { buf = write_byte p2 b' ' buf; state = s; retcode = some r })) in
    if p == p2 then some (record { buf = buf; state = s; retcode = some (err einval) }) else called

abbrev pub process_at :
    Option ℕ → ℕ → (List ℕ → State → Option (Ret × State)) → List ℕ → State → Option Command
process_at none key_length func buf s = some (record { buf = buf; state = s; retcode = none })
process_at (some i) key_length func buf s = do
  let p = i + key_length
  n ← scan_name (drop p buf)
  run_command func buf p (p + n) s

unfoldable pub process_command :
    List ℕ → (List ℕ → State → Option (Ret × State)) → List ℕ → State → Option Command
process_command key func buf s = process_at (find_key key buf) (length key) func buf s

abbrev pub del_key : List ℕ
del_key = b'd' ∷ b'e' ∷ b'l' ∷ b'=' ∷ []

abbrev pub add_key : List ℕ
add_key = b'a' ∷ b'd' ∷ b'd' ∷ b'=' ∷ []

abbrev pub addtrack_key : List ℕ
addtrack_key = b'a' ∷ b'd' ∷ b'd' ∷ b't' ∷ b'r' ∷ b'a' ∷ b'c' ∷ b'k' ∷ b'=' ∷ []

-- `match` and `ret` of the handler.
pub record Progress : Type 0 where
  pub buf : List ℕ
  pub state : State
  pub matched : Bool
  pub ret : Ret

abbrev pub is_ok : Ret → Bool
is_ok (ok n) = true
is_ok (err e) = false

abbrev pub record_result : Option Ret → Command → Progress → Progress
record_result none r p = record p { buf = r.buf; state = r.state }
record_result (some ret) r p = record { buf = r.buf; state = r.state; matched = true; ret = ret }

-- One of the three `if` blocks.
unfoldable pub try_command :
    List ℕ → (List ℕ → State → Option (Ret × State)) → Progress → Option Progress
try_command key func p =
    let run = (do r ← process_command key func p.buf p.state; some (record_result r.retcode r p)) in
    if not p.matched || p.matched && is_ok p.ret then run else some p

-- What the allocator answers to the two calls that may add a group.
pub record Memory : Type 0 where
  pub add_mem : Option ℕ
  pub add_name : Bool
  pub track_mem : Option ℕ
  pub track_name : Bool

unfoldable pub run_commands : Memory → List ℕ → State → Option Progress
run_commands m tmp s = do
  p ←
      try_command del_key dazukofs_remove_group
        (record { buf = tmp; state = s; matched = false; ret = err einval })
  p ← try_command add_key (λ name. dazukofs_add_group m.add_mem m.add_name name false) p
  try_command addtrack_key (λ name. dazukofs_add_group m.track_mem m.track_name name true) p

abbrev pub write_result : ℕ → ControlFile → Progress → Ret × ControlFile × State
write_result count f p =
    if is_ok p.ret
    then (ok count, record f { pos = f.pos + count }, p.state)
    else (p.ret, f, p.state)

-- `user` are the bytes of the writer, `stack` what the rest of the 32-byte buffer holds: the buffer
-- is `tmp[0..31]`. `copy` says whether the copy from the writer succeeds.
unfoldable pub dazukofs_ctrl_write :
    Memory → Bool → (user stack : List ℕ) → ControlFile → State → Option (Ret × ControlFile × State)
dazukofs_ctrl_write m copy user stack f s =
    let cp_len = if leb 32 (length user) then 31 else length user in
    let tmp = take 32 (take cp_len user ++ 0 ∷ drop (cp_len + 1) stack) in
    let done = (do p ← run_commands m tmp s; some (write_result (length user) f p)) in
    if copy then done else some (err efault, f, s)
