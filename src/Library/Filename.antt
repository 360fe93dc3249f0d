-- ===== src/Library/Filename.antt =====
-- dazukofs_get_filename of test/lib/dazukofs.c, over what readlink answers. The result is the value
-- of the call, none for -1, with the caller's buffer as it is then.
use dazukofs_linux.Base.{
  ℕ, suc, ◌+◌, ◌-◌, ◌%◌, ◌^◌, ◌≤◌, ◌<◌, ◌≡◌, refl, ◌∙◌, true, Option, none, some, List, [], ◌∷◌,
  ◌++◌, arith, if◌then◌else◌, ltb, length, length-append, take, drop,
}
use dazukofs_linux.Events.State.{◌>>=◌}
use dazukofs_linux.Events.Listing.{write_at}
use dazukofs_linux.Events.Listing.Buffers.{
  write_at-start, write_at-behind, write_at-total, length-drop,
}
use dazukofs_linux.GroupDevice.{signed_decimal}

-- `/proc/self/fd/`.
abbrev pub fd_directory : List ℕ
fd_directory =
    b'/' ∷ b'p' ∷ b'r' ∷ b'o' ∷ b'c' ∷ b'/' ∷ b's' ∷ b'e' ∷ b'l' ∷ b'f' ∷ b'/' ∷ b'f' ∷ b'd' ∷ b'/'
    ∷ []

unfoldable pub link_path : (fd : ℕ) → List ℕ
link_path fd = take 46 (fd_directory ++ signed_decimal fd)

-- `bufsiz - 1`, as a `size_t`.
abbrev pub last_index : List ℕ → ℕ
last_index buf = (length buf + (2 ^ 64 - 1)) % 2 ^ 64

-- After `readlink`, which has written the bytes that it answers with; their number fits an `int`.
unfoldable pub fill_filename : Option (List ℕ) → List ℕ → Option (Option ℕ × List ℕ)
unfolding write_at
fill_filename none buf = do buf ← write_at (last_index buf) (0 ∷ []) buf; some (none, buf)
fill_filename (some xs) buf = do
  let last = last_index buf
  buf ← write_at 0 xs buf
  buf ← write_at last (0 ∷ []) buf
  buf ← (if ltb 0 (length xs) then write_at (length xs) (0 ∷ []) buf else some buf)
  some (some (length xs), buf)

unfoldable pub dazukofs_get_filename :
    (readlink : List ℕ → (room : ℕ) → Option (List ℕ))
    → (fd : ℕ) → (buf : List ℕ) → Option (Option ℕ × List ℕ)
unfolding fill_filename link_path
dazukofs_get_filename readlink fd buf = fill_filename (readlink (link_path fd) (last_index buf)) buf

-- The result of the call, by what readlink has answered, and the buffer: behind a name stands a
-- NUL.
pub data Filename : Option (List ℕ) → Option ℕ → List ℕ → Type 0 where
  failed : {buf : List ℕ} → Filename none none buf
  empty : {buf : List ℕ} → Filename (some []) (some 0) buf
  named :
      (c : ℕ) (xs rest : List ℕ)
      → Filename (some (c ∷ xs)) (some (suc (length xs))) ((c ∷ xs) ++ 0 ∷ rest)

last_lem : (buf : List ℕ) → 0 < length buf → length buf < 2 ^ 64 → last_index buf ≡ length buf - 1
last_lem buf some_room small = omega arith

-- The three writes, of which the second changes nothing before the room that readlink was given.
module _ (xs p : List ℕ) (i : ℕ) (room : length p ≡ i + 1) where
  last_written :
      (off : ℕ)
      → off ≡ length xs + i
      → (q : List ℕ) × (write_at off (0 ∷ []) (xs ++ p) ≡ some (xs ++ q)) × (length q ≡ i + 1)
  last_written off e =
      let (q, eq, size) = write_at-total i (0 ∷ []) p (omega (arith, room)) in
      (q, write_at-behind xs (0 ∷ []) p q off i e (omega (arith, room)) eq, size ∙ room)

  ended :
      (q : List ℕ)
      → length q ≡ i + 1
      → (rest : List ℕ) × (write_at (length xs) (0 ∷ []) (xs ++ q) ≡ some (xs ++ 0 ∷ rest))
        × (length rest ≡ i)
  ended [] size = absurd (omega arith)
  ended (x ∷ q) size = (
    q,
    write_at-behind xs (0 ∷ []) (x ∷ q) (0 ∷ q) (length xs) 0 (omega arith) (omega arith)
        (write_at-start (0 ∷ []) (x ∷ q) (omega arith)),
    omega arith,
  )

three_writes :
    (c : ℕ) (xs b1 b2 b3 buf : List ℕ)
    → write_at 0 (c ∷ xs) buf ≡ some b1
    → write_at (last_index buf) (0 ∷ []) b1 ≡ some b2
    → write_at (suc (length xs)) (0 ∷ []) b2 ≡ some b3
    → fill_filename (some (c ∷ xs)) buf ≡ some (some (suc (length xs)), b3)
unfolding fill_filename
three_writes c xs b1 b2 b3 buf e1 e2 e3 = rw (e1, ◌>>=◌, e2, some_letter (length xs), e3) refl
  where
    some_letter : (n : ℕ) → ltb 0 (suc n) ≡ true
    some_letter n = ground arith

fill_filename-Filename :
    (answer : Option (List ℕ)) (buf : List ℕ)
    → 0 < length buf
    → length buf < 2 ^ 64
    → ((xs : List ℕ) → answer ≡ some xs → length xs < length buf)
    → (r : Option ℕ) × (buf' : List ℕ) × (fill_filename answer buf ≡ some (r, buf'))
      × (length buf' ≡ length buf)
      × Filename answer r buf'
unfolding fill_filename
fill_filename-Filename none buf some_room small fitting =
    let (q, eq, size) =
      write_at-total (last_index buf) (0 ∷ []) buf (omega (arith, last_lem buf some_room small)) in
    (none, q, rw (eq, ◌>>=◌) refl, size, failed)
fill_filename-Filename (some []) buf some_room small fitting =
    let (q, eq, size) =
      write_at-total (last_index buf) (0 ∷ []) buf (omega (arith, last_lem buf some_room small)) in
    (some 0, q, rw (write_at-start [] buf (omega arith), ◌>>=◌, eq) refl, size, empty)
fill_filename-Filename (some (c ∷ xs)) buf some_room small fitting =
    let ys : List ℕ = c ∷ xs in
    let below : length ys < length buf = fitting ys refl in
    let p = drop (length ys) buf in
    let i = length buf - 1 - length ys in
    let room : length p ≡ i + 1 =
      omega (arith, length-drop (length ys) buf (omega (arith, below)), below) in
    let (q, eq, size) =
      last_written ys p i room (last_index buf)
        (omega (arith, last_lem buf some_room small, below)) in
    let (rest, done, left) = ended ys p i room q size in
    (
      some (length ys),
      ys ++ 0 ∷ rest,
      three_writes c xs _ _ _ buf (write_at-start ys buf (omega (arith, below))) eq done,
      omega (arith, length-append ys (0 ∷ rest), left, below),
      named c xs rest,
    )

-- For a buffer of at least one byte, and of less than 2^31, when readlink answers with at most the
-- bytes that it is asked for: dazukofs_get_filename writes no byte outside the buffer and keeps its
-- length; it answers with -1 exactly when readlink has failed, and otherwise with the number of
-- bytes of the link's target as readlink has answered it, which stands at the start of the buffer
-- followed by a NUL, unless it is empty.
pub dazukofs_get_filename-Filename :
    (readlink : List ℕ → (room : ℕ) → Option (List ℕ)) (fd : ℕ) (buf : List ℕ)
    → ((path : List ℕ) (room : ℕ) (xs : List ℕ) → readlink path room ≡ some xs → length xs ≤ room)
    → 0 < length buf
    → length buf < 2 ^ 31
    → (r : Option ℕ) × (buf' : List ℕ) × (dazukofs_get_filename readlink fd buf ≡ some (r, buf'))
      × (length buf' ≡ length buf)
      × Filename (readlink (link_path fd) (last_index buf)) r buf'
unfolding dazukofs_get_filename
dazukofs_get_filename-Filename readlink fd buf asked some_room few =
    let small : length buf < 2 ^ 64 = omega (arith, few) in
    fill_filename-Filename (readlink (link_path fd) (last_index buf)) buf some_room small (λ xs e.
      omega (arith, asked (link_path fd) (last_index buf) xs e, last_lem buf some_room small))
