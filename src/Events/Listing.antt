-- ===== src/Events/Listing.antt =====
-- dazukofs_get_groups of event.c: the list of active groups as one text.
pub mod Buffers
pub mod Printed
use dazukofs_linux.Base.{
  ℕ, zero, suc, ◌+◌, ◌-◌, ◌*◌, ◌%◌, ◌^◌, Bool, Option, none, some, List, [], ◌∷◌, ◌++◌, ◌==◌,
  if◌then◌else◌, ltb, length, take, drop, replicate, decimal,
}
use dazukofs_linux.Events.State.{Errno, enomem, Group, ◌>>=◌}

-- `"%lu:%s\n"`.
abbrev pub group_line : Group → List ℕ
group_line g = decimal g.group_id ++ b':' ∷ g.name ++ b'\n' ∷ []

-- A write of bytes at an offset; beyond the end of the buffer it is a fault.
unfoldable pub write_at : ℕ → List ℕ → List ℕ → Option (List ℕ)
write_at off xs buf =
    if ltb (length buf) (off + length xs)
    then none
    else some (take off buf ++ xs ++ drop (off + length xs) buf)

-- `snprintf` cuts the text to one byte less than the size, and adds a NUL.
unfoldable pub snprintf : ℕ → ℕ → List ℕ → List ℕ → Option (List ℕ)
snprintf off size text buf =
    if size == 0 then some buf else write_at off (take (size - 1) text ++ 0 ∷ []) buf

abbrev pub needed : List Group → ℕ
needed [] = 1
needed (g ∷ gs) = (if g.deprecated then 0 else g.name_length + 3) + needed gs

-- The second loop: `off` is `tmp - *buf`. The size is a `size_t`.
unfoldable pub print_groups : ℕ → List Group → ℕ → List ℕ → Option (List ℕ)
print_groups allocsize [] off buf = some buf
print_groups allocsize (g ∷ gs) off buf =
    let printed = (do
      buf ← snprintf off ((allocsize - 1 + 2 ^ 64 - off) % 2 ^ 64) (group_line g) buf
      print_groups allocsize gs (off + (g.name_length + 3)) buf) in
    let skipped = print_groups allocsize gs off buf in if g.deprecated then skipped else printed

pub data Listing : Type 0 where
  out_of_fuel : Listing
  fault : Listing
  failed : Errno → Listing
  listing : List ℕ → Listing

abbrev pub to_listing : Option (List ℕ) → Listing
to_listing none = fault
to_listing (some buf) = listing buf

-- The loop of the label `tryagain`; `mem i` says whether allocation `i` succeeds.
unfoldable pub try_groups : ℕ → (ℕ → Bool) → ℕ → ℕ → List Group → Listing
try_groups zero mem i allocsize gs = out_of_fuel
try_groups (suc fuel) mem i allocsize gs =
    let again = try_groups fuel mem (suc i) (allocsize * 2) gs in
    if mem i
    then (if ltb (needed gs) allocsize
        then to_listing (print_groups allocsize gs 0 (replicate allocsize 0))
        else again)
    else failed enomem

-- One round for each doubling, and the length bounds their number.
unfoldable pub dazukofs_get_groups : (ℕ → Bool) → List Group → Listing
dazukofs_get_groups mem gs = try_groups (needed gs + 1) mem 0 256 gs
