-- ===== src/Library.antt =====
-- The library for registered processes, test/lib/dazukofs.c. What the system calls and the
-- allocator answer is a parameter, and the calls that a function made are part of its result.
pub mod Filename
pub mod Listed
mod Examples
use dazukofs_linux.Base.{
  ℕ, ◌+◌, ◌-◌, ◌*◌, ◌%◌, ◌^◌, Bool, true, false, ◌&&◌, ◌||◌, Option, none, some, List, [], ◌∷◌,
  ◌++◌, ◌==◌, if◌then◌else◌, leb, length, take, drop, decimal, c_string, starts_with, strstr,
  is_digit,
}
use dazukofs_linux.Events.State.{◌>>=◌}
use dazukofs_linux.Control.{is_name_char, del_key, add_key, addtrack_key}
use dazukofs_linux.GroupDevice.{id_key, r_key}

pub record Handle : Type 0 where
  pub dev_fd : ℕ
  pub event_id : ℕ
  pub group_name : List ℕ

-- `fd` is its 32 bits.
pub record Access : Type 0 where
  pub deny : Bool
  pub fd : ℕ
  pub pid : ℕ

pub data Call : Type 0 where
  write : (fd : ℕ) → List ℕ → Call
  rewind close : ℕ → Call
  free_handle free_name : Call

-- Names are NUL-free; a byte of the set is one that `strchr` finds.
unfoldable pub all_name_chars : List ℕ → Bool
all_name_chars [] = true
all_name_chars (c ∷ s) = is_name_char c && all_name_chars s

unfoldable pub check_group_name : List ℕ → Bool
unfolding all_name_chars
check_group_name gname = leb (length gname) 20 && all_name_chars gname

-- The answers to the calls of `dazukofs_open`.
pub record OpenAnswers : Type 0 where
  pub ctrl_rdwr : Option ℕ
  pub ctrl_rdonly : Option ℕ
  pub write_succeeds : Bool
  pub read : Option (List ℕ)
  pub malloc_succeeds : Bool
  pub strdup_succeeds : Bool
  pub open_group : ℕ → Option ℕ

unfoldable pub open_command : Bool → List ℕ → List ℕ
open_command track gname = take 254 ((if track then addtrack_key else add_key) ++ gname)

-- The byte before the first occurrence of the key, `none` inside at the start of the text.
unfoldable pub find_after : Option ℕ → List ℕ → List ℕ → Option (Option ℕ)
find_after before key [] = none
find_after before key (c ∷ s) =
    let later = find_after (some c) key s in if starts_with key (c ∷ s) then some before else later

unfoldable pub group_key : List ℕ → List ℕ
group_key gname = take 23 (b':' ∷ gname ++ b'\n' ∷ [])

-- The id of a group in the list of the control device.
unfoldable pub find_gid : List ℕ → List ℕ → Option ℕ
unfolding find_after group_key
find_gid gname text = do
  before ← find_after none (group_key gname) text
  c ← before
  if is_digit c then some (c - b'0') else none

-- The label `error_out_free`, which falls through to `error_out_close`.
unfoldable pub open_handle : OpenAnswers → (fd : ℕ) → List ℕ → (gid : ℕ) → Option Handle × List Call
open_handle a fd gname gid =
    if a.malloc_succeeds
    then (if a.strdup_succeeds
        then elim (a.open_group gid) [
          | none ↦ (none, free_name ∷ free_handle ∷ close fd ∷ [])
          | some dev_fd ↦
              (some (record { dev_fd = dev_fd; event_id = 0; group_name = gname }), close fd ∷ [])
        ]
        else (none, free_handle ∷ close fd ∷ []))
    else (none, close fd ∷ [])

unfoldable pub open_listed :
    OpenAnswers → (fd : ℕ) → List ℕ → Option (List ℕ) → Option Handle × List Call
unfolding find_gid open_handle
open_listed a fd gname none = (none, close fd ∷ [])
open_listed a fd gname (some text) = elim (find_gid gname (c_string (take 255 text))) [
  | none ↦ (none, close fd ∷ [])
  | some gid ↦ open_handle a fd gname gid
]

abbrev pub after : List Call → Option Handle × List Call → Option Handle × List Call
after cs (h, ds) = (h, cs ++ ds)

unfoldable pub open_read_only : OpenAnswers → List ℕ → Option Handle × List Call
open_read_only a gname = elim a.ctrl_rdonly [
  | none ↦ (none, [])
  | some fd ↦ open_listed a fd gname a.read
]

unfoldable pub open_read_write :
    OpenAnswers → (track : Bool) → List ℕ → (fd : ℕ) → Option Handle × List Call
open_read_write a track gname fd =
    let command = write fd (open_command track gname) in
    if a.write_succeeds
    then after (command ∷ rewind fd ∷ []) (open_listed a fd gname a.read)
    else (none, command ∷ close fd ∷ [])

unfoldable pub dazukofs_open : OpenAnswers → (track : Bool) → List ℕ → Option Handle × List Call
dazukofs_open a track gname =
    if check_group_name gname
    then elim a.ctrl_rdwr [
      | none ↦ open_read_only a gname
      | some fd ↦ open_read_write a track gname fd
    ]
    else (none, [])

pub record CloseAnswers : Type 0 where
  pub ctrl_wronly : Option ℕ
  pub write_succeeds : Bool
  pub close_succeeds : Bool

abbrev pub close_device : CloseAnswers → Handle → List Call → Bool × List Call
close_device a h calls =
    if a.close_succeeds
    then (true, calls ++ close h.dev_fd ∷ free_name ∷ free_handle ∷ [])
    else (false, calls ++ close h.dev_fd ∷ [])

-- True is the result 0.
unfoldable pub dazukofs_close : CloseAnswers → (remove : Bool) → Handle → Bool × List Call
dazukofs_close a remove h =
    let removed : Bool × List Call = elim a.ctrl_wronly [
      | none ↦ (false, [])
      | some fd ↦
          let calls = write fd (take 46 (del_key ++ h.group_name)) ∷ close fd ∷ [] in
          if a.write_succeeds then close_device a h calls else (false, calls)
    ] in
    if remove then removed else close_device a h []

abbrev pub is_space : ℕ → Bool
is_space c = c == b' ' || leb 9 c && leb c 13

abbrev pub skip_spaces : List ℕ → List ℕ
skip_spaces [] = []
skip_spaces (c ∷ s) = if is_space c then skip_spaces s else c ∷ s

abbrev pub sign : List ℕ → Bool × List ℕ
sign [] = (false, [])
sign (c ∷ s) = if c == b'-' then (true, s) else if c == b'+' then (false, s) else (false, c ∷ s)

abbrev pub so_far : Option ℕ → ℕ
so_far none = 0
so_far (some n) = n

-- The digits at the start of a text; `none` when there are none.
unfoldable pub number : Option ℕ → List ℕ → Option ℕ × List ℕ
number n [] = (n, [])
number n (c ∷ s) =
    let more = number (some (so_far n * 10 + (c - b'0'))) s in
    if is_digit c then more else (n, c ∷ s)

abbrev pub bounded : ℕ → ℕ → ℕ
bounded top n = if leb top n then top else n

-- `strtoul` in base ten: a value out of range is the greatest, and a sign negates modulo 2^64.
abbrev pub unsigned_value : Bool → ℕ → ℕ
unsigned_value neg n =
    if leb (2 ^ 64) n then 2 ^ 64 - 1 else if neg then (2 ^ 64 - n) % 2 ^ 64 else n

-- `(int)strtol`: the low 32 bits of the bounded value.
abbrev pub int_value : Bool → ℕ → ℕ
int_value neg n =
    if neg then (2 ^ 64 - bounded (2 ^ 63) n) % 2 ^ 32 else bounded (2 ^ 63 - 1) n % 2 ^ 32

-- A text without a number is not advanced over.
abbrev pub converted : (Bool → ℕ → ℕ) → Bool → Option ℕ × List ℕ → List ℕ → ℕ × List ℕ
converted f neg (none, rest) s = (0, s)
converted f neg (some n, rest) s = (f neg n, rest)

unfoldable pub convert : (Bool → ℕ → ℕ) → List ℕ → ℕ × List ℕ
unfolding number
convert f s = let (neg, t) = sign (skip_spaces s) in converted f neg (number none t) s

abbrev pub fd_key : List ℕ
fd_key = b'f' ∷ b'd' ∷ b'=' ∷ []

abbrev pub pid_key : List ℕ
pid_key = b'p' ∷ b'i' ∷ b'd' ∷ b'=' ∷ []

-- What follows the event id: the descriptor and the process.
unfoldable pub parse_access : List ℕ → Option Access
parse_access p = do
  p ← strstr fd_key p
  let (fd, p) = convert int_value (drop 3 p)
  p ← strstr pid_key p
  let (pid, p) = convert unsigned_value (drop 4 p)
  some (record { deny = false; fd = fd; pid = pid })

abbrev pub access_at : Option (List ℕ) → Handle → Option Access × Handle
access_at none h = (none, h)
access_at (some p) h =
    let (event_id, p) = convert unsigned_value (drop 3 p) in
    (parse_access p, record h { event_id = event_id })

-- `read` is what the read of the group's device gives; no access is the result -1, and what it
-- leaves in the caller's structure is not part of the model.
unfoldable pub dazukofs_get_access : Option (List ℕ) → Handle → Option Access × Handle
unfolding convert parse_access
dazukofs_get_access none h = (none, h)
dazukofs_get_access (some text) h = access_at (strstr id_key (c_string (take 47 text))) h

-- `"id=%lu r=%d"`.
unfoldable pub response_text : (event_id : ℕ) → (deny : Bool) → List ℕ
response_text event_id deny =
    take 46 (id_key ++ (decimal event_id ++ (b' ' ∷ r_key ++ (if deny then b'1' else b'0') ∷ [])))

pub record ReturnAnswers : Type 0 where
  pub close_succeeds : Bool
  pub write_succeeds : Bool

unfoldable pub dazukofs_return_access : ReturnAnswers → Handle → Access → Bool × List Call
unfolding response_text
dazukofs_return_access a h access =
    let answer = write h.dev_fd (response_text h.event_id access.deny) in
    if a.close_succeeds
    then (if a.write_succeeds
        then (true, close access.fd ∷ answer ∷ rewind h.dev_fd ∷ [])
        else (false, close access.fd ∷ answer ∷ []))
    else (false, close access.fd ∷ [])
