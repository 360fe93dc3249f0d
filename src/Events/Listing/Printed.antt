-- ===== src/Events/Listing/Printed.antt =====
-- What dazukofs_get_groups prints: a line for each active group, and then the NUL.
use mathlib.Core.List.{append_assoc, append-nil}
use dazukofs_linux.Base.{
  ℕ, zero, suc, ◌+◌, ◌-◌, ◌*◌, ◌%◌, ◌^◌, ◌≤◌, ◌<◌, ◌≡◌, refl, sym, ap, ◌∙◌, inl, inr, Bool, true,
  false, some, List, [], ◌∷◌, ◌++◌, arith, if◌then◌else◌, ltb, ◌==◌, Bool-cases, length,
  length-append, drop, replicate, decimal, digits,
}
use dazukofs_linux.Events.State.{Group, enomem, ◌>>=◌}
use dazukofs_linux.Events.Listing.{
  snprintf, group_line, print_groups, needed, try_groups, dazukofs_get_groups, Listing, listing,
  failed, to_listing,
}
use dazukofs_linux.Events.Listing.Buffers.{write_at-start, write_at-behind, fits}
use dazukofs_linux.GroupDevice.Proofs.{take-all}

-- The lines of the active groups, in their order.
abbrev pub active_lines : List Group → List ℕ
active_lines [] = []
active_lines (g ∷ gs) = if g.deprecated then active_lines gs else group_line g ++ active_lines gs

-- An id is one digit, and the length of a name is the one that is recorded.
abbrev pub Printable : List Group → Type 0
Printable [] = Unit
Printable (g ∷ gs) =
    (g.deprecated ≡ false → (g.group_id < 10) × (g.name_length ≡ length g.name)) × Printable gs

abbrev pub zeros : ℕ → List ℕ
zeros n = replicate n 0

length-decimal : (n : ℕ) → n < 10 → length (decimal n) ≡ 1
unfolding digits
length-decimal n h = rw (small h) refl
  where
    small : n < 10 → ltb n 10 ≡ true
    small h = ground arith

length-group_line :
    (g : Group)
    → g.group_id < 10
    → g.name_length ≡ length g.name
    → length (group_line g) ≡ g.name_length + 3
length-group_line g h e = omega (
  arith,
  e,
  length-decimal g.group_id h,
  length-append (decimal g.group_id ++ b':' ∷ g.name) (b'\n' ∷ []),
  length-append (decimal g.group_id) (b':' ∷ g.name),
)

zeros-eq : {m n : ℕ} → m ≡ n → zeros m ≡ zeros n
zeros-eq e = ap zeros e

drop-replicate : (j k : ℕ) → drop j (zeros k) ≡ zeros (k - j)
drop-replicate zero k = ap (λ m. zeros m) (omega arith)
drop-replicate (suc j) zero = zeros-eq {m = 0} {n = 0 - suc j} (omega arith)
drop-replicate (suc j) (suc k) = drop-replicate j k ∙ ap (λ m. zeros m) (omega arith)

length-replicate : (k : ℕ) → length (zeros k) ≡ k
length-replicate zero = refl
length-replicate (suc k) = ap suc (length-replicate k)

-- A text that fits is printed with a NUL, which the zeroed buffer has there already.
snprintf-zeroed :
    (off size k : ℕ) (before text : List ℕ)
    → off ≡ length before
    → length text < size
    → length text < k
    → snprintf off size text (before ++ zeros k)
      ≡ some ((before ++ text) ++ zeros (k - length text))
unfolding snprintf
snprintf-zeroed off size k before text e room large =
    rw (some_room room, take-all (size - 1) text (omega arith))
      (write_at-behind before (text ++ 0 ∷ []) (zeros k) (text ++ zeros (k - length text)) off 0
          (omega arith) (omega (arith, length-append text (0 ∷ []), length-replicate k))
          (write_at-start (text ++ 0 ∷ []) (zeros k)
              (omega (arith, length-append text (0 ∷ []), length-replicate k))
            ∙ ap some behind)
        ∙ ap some (sym (append_assoc before text (zeros (k - length text)))))
  where
    some_room : {m n : ℕ} → m < n → (n == 0) ≡ false
    some_room h = ground arith

    one_more : (m : ℕ) → 0 < m → zeros m ≡ 0 ∷ zeros (m - 1)
    one_more zero h = absurd (omega arith)
    one_more (suc m) h = ap (λ i. 0 ∷ zeros i) (omega arith)

    behind :
        (text ++ 0 ∷ []) ++ drop (length (text ++ 0 ∷ [])) (zeros k)
        ≡ text ++ zeros (k - length text)
    behind =
        rw
          (
            drop-replicate (length (text ++ 0 ∷ [])) k,
            append_assoc text (0 ∷ []) (zeros (k - length (text ++ 0 ∷ []))),
            one_more (k - length text) (omega arith),
          )
          (ap (λ i. text ++ 0 ∷ zeros i) (omega (arith, length-append text (0 ∷ []))))

needed-positive : (gs : List Group) → 0 < needed gs
needed-positive [] = omega arith
needed-positive (g ∷ gs) = omega (arith, needed-positive gs)

print_plain :
    (g : Group) (gs : List Group) (allocsize off k left : ℕ) (before : List ℕ)
    → g.deprecated ≡ false
    → snprintf off ((allocsize - 1 + 2 ^ 64 - off) % 2 ^ 64) (group_line g) (before ++ zeros k)
      ≡ some ((before ++ group_line g) ++ zeros (k - length (group_line g)))
    → print_groups allocsize gs
        (off + (g.name_length + 3))
        ((before ++ group_line g) ++ zeros (k - length (group_line g)))
      ≡ some (((before ++ group_line g) ++ active_lines gs) ++ zeros (suc left))
    → print_groups allocsize (g ∷ gs) off (before ++ zeros k)
      ≡ some ((before ++ active_lines (g ∷ gs)) ++ zeros (suc left))
unfolding print_groups
print_plain g gs allocsize off k left before plain first rest =
    rw (plain, first, ◌>>=◌, rest, append_assoc before (group_line g) (active_lines gs)) refl

-- The second loop, with enough room and at the end of what has been printed.
print_groups_lem :
    (gs : List Group) (allocsize off k : ℕ) (before : List ℕ)
    → Printable gs
    → off ≡ length before
    → off + k ≡ allocsize
    → needed gs + off < allocsize
    → allocsize < 2 ^ 64
    → (left : ℕ) × (print_groups allocsize gs off (before ++ zeros k)
        ≡ some ((before ++ active_lines gs) ++ zeros (suc left)))
unfolding print_groups
print_groups_lem [] allocsize off zero before ok e total room small = absurd (omega arith)
print_groups_lem [] allocsize off (suc k) before ok e total room small =
    (k, ap some (ap (λ xs. xs ++ zeros (suc k)) (sym (append-nil before))))
print_groups_lem (g ∷ gs) allocsize off k before ok e total room small =
    elim (Bool-cases g.deprecated) [
      | inl old ↦ rw old (
          print_groups_lem gs allocsize off k before ok.1 e total (omega (arith, rw old at room))
            small)
      | inr plain ↦
          (let (low, size) = ok.0 plain in
            let line = length-group_line g low size in
            let more : g.name_length + 3 + needed gs + off < allocsize = rw plain at room in
            let room_left : length (group_line g) < (allocsize - 1 + 2 ^ 64 - off) % 2 ^ 64 =
              omega (arith, line, more, needed-positive gs) in
            let first =
              snprintf-zeroed off ((allocsize - 1 + 2 ^ 64 - off) % 2 ^ 64) k before (group_line g)
                e room_left (omega (arith, line, more)) in
            let (left, rest) =
              print_groups_lem gs allocsize (off + (g.name_length + 3)) (k - length (group_line g))
                (before ++ group_line g) ok.1
                (omega (arith, e, line, length-append before (group_line g)))
                (omega (arith, line, more)) (omega (arith, more)) small in
            (left, print_plain g gs allocsize off k left before plain first rest))
    ]

-- How the call ends: a round has no memory, or the lines are printed and followed by a NUL.
pub data Ends (mem : ℕ → Bool) (gs : List Group) : Listing → Type 0 where
  out_of_memory : (i : ℕ) → mem i ≡ false → Ends mem gs (failed enomem)
  printed : (left : ℕ) → Ends mem gs (listing (active_lines gs ++ zeros (suc left)))

print-Ends :
    (mem : ℕ → Bool) (gs : List Group) (allocsize : ℕ)
    → Printable gs
    → needed gs < allocsize
    → allocsize < 2 ^ 64
    → Ends mem gs (to_listing (print_groups allocsize gs 0 (zeros allocsize)))
print-Ends mem gs allocsize ok room small =
    let (left, eq) =
      print_groups_lem gs allocsize 0 allocsize [] ok (omega arith) (omega arith)
        (omega (arith, room)) small in
    rw eq (printed left)

-- A round that is not enough doubles the size, so that there are enough rounds.
try_groups-Ends :
    (fuel : ℕ) (mem : ℕ → Bool) (i allocsize : ℕ) (gs : List Group)
    → Printable gs
    → needed gs < 2 ^ 62
    → 0 < fuel
    → 0 < allocsize
    → needed gs + 1 < allocsize + fuel
    → allocsize ≤ 256 + 2 * needed gs
    → Ends mem gs (try_groups fuel mem i allocsize gs)
unfolding try_groups
try_groups-Ends zero mem i allocsize gs ok few rounds some_size enough size = absurd (omega arith)
try_groups-Ends (suc fuel) mem i allocsize gs ok few rounds some_size enough size =
    elim (Bool-cases (mem i)) [
      | inr refused ↦ rw refused (out_of_memory i refused)
      | inl given ↦ elim (Bool-cases (ltb (needed gs) allocsize)) [
        | inl fits ↦
            rw (given, fits)
              (print-Ends mem gs allocsize ok (ground arith) (omega (arith, few, size)))
        | inr tight ↦
            (let more : allocsize ≤ needed gs = ground arith in
              rw (given, tight)
                (try_groups-Ends fuel mem (suc i) (allocsize * 2) gs ok few
                  (omega (arith, enough, more)) (omega (arith, some_size))
                  (omega (arith, enough, some_size)) (omega (arith, more))))
      ]
    ]

-- When the id of each active group is one digit and its recorded length is that of its name, and
-- the lines have less than 2^62 bytes, dazukofs_get_groups returns, whichever allocations succeed:
-- out of memory when one was refused, or the line `id:name` of each active group, in the order of
-- the list, followed by NULs up to the end of the buffer, of which there is at least one.
pub dazukofs_get_groups-Ends :
    (mem : ℕ → Bool) (gs : List Group)
    → Printable gs
    → needed gs < 2 ^ 62
    → Ends mem gs (dazukofs_get_groups mem gs)
unfolding dazukofs_get_groups
dazukofs_get_groups-Ends mem gs ok few =
    try_groups-Ends (needed gs + 1) mem 0 256 gs ok few (omega arith) (omega arith) (omega arith)
      (omega arith)
