-- ===== src/GroupDevice.antt =====
-- The device of a group in group_dev.c: how registered processes take events and answer them.
use dazukofs_linux.Base.{
  ℕ, zero, suc, ◌+◌, ◌-◌, ◌*◌, ◌%◌, ◌^◌, Bool, true, false, not, Option, none, some, List, [], ◌∷◌,
  ◌++◌, ◌==◌, if◌then◌else◌, ltb, leb, length, take, decimal, c_string, strstr, strtoul, get_elem?,
  replicate,
}
use dazukofs_linux.Events.State.{
  Errno, eintr, eio, enfile, erestartsys, Ret, ok, err, einval, efault, Response, allow, deny,
  repost, State, ◌>>=◌,
}
use dazukofs_linux.Events.Serve.{
  dazukofs_group_open_tracking, dazukofs_group_release_tracking, dazukofs_return_event,
}
use dazukofs_linux.Events.Deliver.{
  Files, Wakeup, Delivery, blocked, failed, delivers, dazukofs_get_event, Poll, dazukofs_poll,
}
pub mod Proofs
pub mod Printed
pub mod Delivered
mod Examples

-- The result of opening a group: `private_data` is set for a tracked process.
unfoldable pub dazukofs_group_open : ℕ → State → Ret × Bool × State
dazukofs_group_open gid s = let r = dazukofs_group_open_tracking gid s in (ok 0, r.0, r.1)

unfoldable pub dazukofs_group_release : ℕ → (private_data : Bool) → State → Option (Ret × State)
dazukofs_group_release gid private_data s =
    let tracked = (do s ← dazukofs_group_release_tracking gid s; some (ok 0, s)) in
    if private_data then tracked else some (ok 0, s)

abbrev pub read_errno : Errno → Errno
read_errno Errno.erestartsys = Errno.eintr
read_errno Errno.enfile = Errno.eio
read_errno e = e

-- `%d`.
abbrev pub signed_decimal : ℕ → List ℕ
signed_decimal n = if ltb n (2 ^ 31) then decimal n else b'-' ∷ decimal (2 ^ 32 - n)

-- What `fd` is as an `int`: an error is negative.
abbrev pub fd_value : Ret → ℕ
fd_value (ok n) = n % 2 ^ 32
fd_value (err e) = 2 ^ 32 - 1

-- `"id=%lu\nfd=%d\npid=%d\n"`.
unfoldable pub event_text : (event_id fd pid : ℕ) → List ℕ
event_text event_id fd pid =
    b'i'
    ∷ b'd'
    ∷ b'='
    ∷ (decimal event_id
        ++ (b'\n'
            ∷ b'f'
            ∷ b'd'
            ∷ b'='
            ∷ (signed_decimal fd
                ++ (b'\n' ∷ b'p' ∷ b'i' ∷ b'd' ∷ b'=' ∷ (signed_decimal pid ++ b'\n' ∷ [])))))

-- What a read comes to. `closed` is the descriptor that it has closed again.
pub record Reading : Type 0 where
  pub ret : Ret
  pub text : List ℕ
  pub pos : ℕ
  pub closed : Option Ret
  pub state : State

-- The descriptor is closed and the event goes back to the group.
unfoldable pub give_back : ℕ → ℕ → Ret → Errno → State → Option Reading
give_back gid event_id fd e s = do
  (r, s) ← dazukofs_return_event gid event_id repost s
  some (record { ret = err e; text = []; pos = 0; closed = some fd; state = s })

-- The buffer has 43 bytes, and `snprintf` is told 42, of which the last is for the NUL. The
-- one byte that is copied beyond what was printed is the NUL.
unfoldable pub deliver_printed : ℕ → Bool → ℕ → Ret → List ℕ → State → Option Reading
deliver_printed gid copy event_id fd text s =
    let tmp_used = length text in
    let tmp = take 41 text ++ replicate (tmp_used - 41) 0 in
    if leb 43 tmp_used
    then give_back gid event_id fd Errno.einval s
    else if copy
    then some (record { ret = ok tmp_used; text = tmp; pos = tmp_used; closed = none; state = s })
    else give_back gid event_id fd Errno.efault s

unfoldable pub deliver_text : ℕ → Bool → ℕ → Ret → ℕ → State → Option Reading
deliver_text gid copy event_id fd pid s =
    deliver_printed gid copy event_id fd (event_text event_id (fd_value fd) pid) s

abbrev pub read_delivery : ℕ → Bool → Delivery × State → Option (Option Reading)
read_delivery gid copy (blocked, s) = some none
read_delivery gid copy (failed e, s) =
    some (some (record { ret = err (read_errno e); text = []; pos = 0; closed = none; state = s }))
read_delivery gid copy (delivers event_id fd pid, s) = do
  r ← deliver_text gid copy event_id fd pid s
  some (some r)

-- `none` inside is a reader that still waits.
unfoldable pub dazukofs_group_read :
    ℕ → List Wakeup → Files → Bool → (self count pos : ℕ) → State → Option (Option Reading)
dazukofs_group_read gid ws k copy self count pos s =
    let got = (do r ← dazukofs_get_event gid ws k self s; read_delivery gid copy r) in
    if ltb 0 pos
    then some (some (record { ret = ok 0; text = []; pos = pos; closed = none; state = s }))
    else if ltb count 43
    then some
        (some (record { ret = err Errno.einval; text = []; pos = pos; closed = none; state = s }))
    else got

-- The byte behind `r=`: at the end of the string it is the NUL.
abbrev pub byte_at : ℕ → List ℕ → ℕ
byte_at i [] = 0
byte_at zero (c ∷ s) = c
byte_at (suc i) (c ∷ s) = byte_at i s

abbrev pub skip : ℕ → List ℕ → List ℕ
skip zero s = s
skip (suc i) [] = []
skip (suc i) (c ∷ s) = skip i s

abbrev pub read_response : List ℕ → Response
read_response p = if byte_at 2 p == b'0' then allow else deny

abbrev pub id_key : List ℕ
id_key = b'i' ∷ b'd' ∷ b'=' ∷ []

abbrev pub r_key : List ℕ
r_key = b'r' ∷ b'=' ∷ []

-- The number and the response in an answer.
unfoldable pub parse_response : List ℕ → Option (ℕ × Response)
unfolding strstr strtoul
parse_response tmp = do
  p ← strstr id_key tmp
  let (event_id, p2) = strtoul 0 (skip 3 p)
  p ← strstr r_key p2
  some (event_id, read_response p)

abbrev pub write_ret : ℕ → ℕ → Ret × State → Ret × ℕ × State
write_ret count pos (ok n, s) =
    (if n == 0 then ok count else ok n, if n == 0 then pos + count else pos, s)
write_ret count pos (err e, s) = (err (interrupted_errno e), pos, s)
  where
    interrupted_errno : Errno → Errno
    interrupted_errno Errno.erestartsys = Errno.eintr
    interrupted_errno e = e

abbrev pub answer_parsed : ℕ → Option (ℕ × Response) → ℕ → ℕ → State → Option (Ret × ℕ × State)
answer_parsed gid none count pos s = some (err Errno.einval, pos, s)
answer_parsed gid (some (event_id, response)) count pos s = do
  r ← dazukofs_return_event gid event_id response s
  some (write_ret count pos r)

-- The buffer takes 18 bytes of what is written.
unfoldable pub dazukofs_group_write :
    ℕ → Bool → (user : List ℕ) → (pos : ℕ) → State → Option (Ret × ℕ × State)
dazukofs_group_write gid copy user pos s =
    let count = if leb 19 (length user) then 18 else length user in
    let tmp = c_string (take count user) in
    if copy
    then answer_parsed gid (parse_response tmp) count pos s
    else some (err Errno.efault, pos, s)

unfoldable pub dazukofs_group_poll : ℕ → State → Option (Poll × State)
dazukofs_group_poll gid s = dazukofs_poll gid s
