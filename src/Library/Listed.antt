-- ===== src/Library/Listed.antt =====
-- dazukofs_open of test/lib/dazukofs.c finds its group in what dazukofs_get_groups of event.c
-- lists.
use mathlib.Core.List.{append_assoc}
use dazukofs_linux.Base.{
  ℕ, ◌+◌, ◌-◌, ◌%◌, ◌≤◌, ◌<◌, ◌≡◌, refl, ap, ◌∙◌, inl, inr, Bool, true, false, ◌&&◌, Option, none,
  some, List, [], ◌∷◌, ◌++◌, arith, if◌then◌else◌, ltb, ◌==◌, Bool-cases, length, length-append,
  take, decimal, digits, c_string, starts_with, is_digit, text_eq,
}
use dazukofs_linux.Events.State.{Group, ◌>>=◌}
use dazukofs_linux.Events.Groups.{find_named}
use dazukofs_linux.Events.Listing.{group_line}
use dazukofs_linux.Events.Listing.Printed.{active_lines, Printable}
use dazukofs_linux.GroupDevice.Proofs.{take-all}
use dazukofs_linux.Control.{is_name_char}
use dazukofs_linux.Library.{
  all_name_chars, check_group_name, dazukofs_open, find_after, find_gid, group_key, open_listed,
  open_handle, OpenAnswers, open_read_write, open_command, after, write, rewind,
}

-- A name without a colon, a line feed and a NUL.
abbrev pub Letters : List ℕ → Type 0
Letters [] = Unit
Letters (c ∷ s) = ((c == b':') ≡ false) × ((c == b'\n') ≡ false) × ((c == 0) ≡ false) × Letters s

==_comm : (m n : ℕ) → (m == n) ≡ (n == m)
==_comm m n = ground arith

-- Two names, each with its line feed.
starts_with-names :
    (xs ys rest : List ℕ)
    → Letters xs
    → Letters ys
    → starts_with (xs ++ b'\n' ∷ []) (ys ++ b'\n' ∷ rest) ≡ text_eq xs ys
unfolding text_eq
starts_with-names [] [] rest h k = refl
starts_with-names [] (y ∷ ys) rest h k = rw (==_comm b'\n' y, k.1) refl
starts_with-names (x ∷ xs) [] rest h k = rw h.1 refl
starts_with-names (x ∷ xs) (y ∷ ys) rest h k = rw (starts_with-names xs ys rest h.3 k.3) refl

-- A key that begins with a colon is not found in a name.
find_after-name :
    (before : Option ℕ) (key ys rest : List ℕ)
    → Letters ys
    → find_after before (b':' ∷ key) (ys ++ b'\n' ∷ rest)
      ≡ find_after (some b'\n') (b':' ∷ key) rest
unfolding find_after
find_after-name before key [] rest h = refl
find_after-name before key (y ∷ ys) rest h =
    rw (==_comm b':' y, h.0) (find_after-name (some y) key ys rest h.3)

Letters-name_chars : (s : List ℕ) → all_name_chars s ≡ true → Letters s
unfolding all_name_chars
Letters-name_chars [] h = tt
Letters-name_chars (c ∷ s) h =
    let (first, others) = both (is_name_char c) (all_name_chars s) h in
    let (colon, feed, nul) = letter c first in (colon, feed, nul, Letters-name_chars s others)
  where
    both : (a b : Bool) → (a && b) ≡ true → (a ≡ true) × (b ≡ true)
    both a b h = ground arith

    letter :
        (c : ℕ)
        → is_name_char c ≡ true
        → ((c == b':') ≡ false) × ((c == b'\n') ≡ false) × ((c == 0) ≡ false)
    letter c h = ground arith

-- The names of the active groups are made of the letters that the library allows.
abbrev pub NamedAsAllowed : List Group → Type 0
NamedAsAllowed [] = Unit
NamedAsAllowed (g ∷ gs) = (g.deprecated ≡ false → all_name_chars g.name ≡ true) × NamedAsAllowed gs

abbrev digit : ℕ → ℕ
digit n = b'0' + n % 10

decimal-digit : (n : ℕ) → n < 10 → decimal n ≡ digit n ∷ []
unfolding digits
decimal-digit n h = rw (small h) refl
  where
    small : n < 10 → ltb n 10 ≡ true
    small h = ground arith

line_eq :
    (g : Group) (rest : List ℕ)
    → g.group_id < 10
    → group_line g ++ rest ≡ digit g.group_id ∷ b':' ∷ (g.name ++ b'\n' ∷ rest)
line_eq g rest low =
    rw (decimal-digit g.group_id low)
      (ap (λ xs. digit g.group_id ∷ b':' ∷ xs) (append_assoc g.name (b'\n' ∷ []) rest))

module _ (name : List ℕ) (plain : Letters name) where
  abbrev key : List ℕ
  key = name ++ b'\n' ∷ []

  -- One line of the list.
  find_after-text :
      (before : Option ℕ) (id : ℕ) (other rest : List ℕ)
      → Letters other
      → find_after before (b':' ∷ key) (digit id ∷ b':' ∷ (other ++ b'\n' ∷ rest)) ≡ (
          if text_eq name other
          then some (some (digit id))
          else find_after (some b'\n') (b':' ∷ key) rest)
  unfolding find_after
  find_after-text before id other rest h =
      rw
        (
          no_colon id,
          starts_with-names name other rest plain h,
          find_after-name (some b':') key other rest h,
        )
        refl
    where
      no_colon : (id : ℕ) → (b':' == digit id) ≡ false
      no_colon id = ground arith

  find_after-line :
      (before : Option ℕ) (g : Group) (rest : List ℕ)
      → g.group_id < 10
      → Letters g.name
      → find_after before (b':' ∷ key) (group_line g ++ rest) ≡ (
          if text_eq name g.name
          then some (some (digit g.group_id))
          else find_after (some b'\n') (b':' ∷ key) rest)
  find_after-line before g rest low h =
      ap (find_after before (b':' ∷ key)) (line_eq g rest low)
      ∙ find_after-text before g.group_id g.name rest h

  -- The library finds the group that the kernel finds by this name.
  find_after-lines :
      (before : Option ℕ) (gs : List Group) (g : Group)
      → Printable gs
      → NamedAsAllowed gs
      → find_named name gs ≡ some g
      → (find_after before (b':' ∷ key) (active_lines gs) ≡ some (some (digit g.group_id)))
        × (g.group_id < 10)
  unfolding find_named
  find_after-lines before [] g ok names e = cc
  find_after-lines before (x ∷ gs) g ok names e = elim (Bool-cases x.deprecated) [
    | inl old ↦ rw old (find_after-lines before gs g ok.1 names.1 (rw old at e))
    | inr live ↦
        (let line =
            find_after-line before x (active_lines gs) (ok.0 live).0
              (Letters-name_chars x.name (names.0 live)) in
          let e1 = rw live at e in
          elim (Bool-cases (text_eq name x.name)) [
            | inl same ↦ (
              rw (live, line, same) (ap (λ i. some (some (digit i))) (ground arith)),
              ground (arith, ok.0 live),
            )
            | inr differs ↦
                (let (eq, low) =
                    find_after-lines (some b'\n') gs g ok.1 names.1 (rw differs at e1) in
                  (rw (live, line, differs) eq, low))
          ])
  ]

c_string-name : (ys rest : List ℕ) → Letters ys → c_string (ys ++ rest) ≡ ys ++ c_string rest
c_string-name [] rest h = refl
c_string-name (y ∷ ys) rest h = rw h.2 (ap (λ xs. y ∷ xs) (c_string-name ys rest h.3))

-- The list is a text without a NUL.
c_string-lines :
    (gs : List Group)
    → Printable gs
    → NamedAsAllowed gs
    → c_string (active_lines gs) ≡ active_lines gs
c_string-lines [] ok names = refl
c_string-lines (g ∷ gs) ok names = elim (Bool-cases g.deprecated) [
  | inl old ↦ rw old (c_string-lines gs ok.1 names.1)
  | inr live ↦
      rw
        (
          live,
          line_eq g (active_lines gs) (ok.0 live).0,
          no_nul g.group_id,
          c_string-name g.name (b'\n' ∷ active_lines gs) (Letters-name_chars g.name (names.0 live)),
          c_string-lines gs ok.1 names.1,
        )
        refl
]
  where
    no_nul : (id : ℕ) → (digit id == 0) ≡ false
    no_nul id = ground arith

allowed : (name : List ℕ) → check_group_name name ≡ true → (length name ≤ 20) × Letters name
unfolding check_group_name
allowed name h = (ground arith, Letters-name_chars name (ground arith))

find_gid-lines :
    (name : List ℕ) (gs : List Group) (g : Group)
    → check_group_name name ≡ true
    → Printable gs
    → NamedAsAllowed gs
    → find_named name gs ≡ some g
    → find_gid name (active_lines gs) ≡ some g.group_id
unfolding find_gid group_key
find_gid-lines name gs g h ok names e =
    let (short, plain) = allowed name h in
    let (found, low) = find_after-lines name plain none gs g ok names e in
    rw
      (
        take-all 22 (name ++ b'\n' ∷ []) (omega (arith, short, length-append name (b'\n' ∷ []))),
        found,
        ◌>>=◌,
        (digit_lem g.group_id low).0,
        (digit_lem g.group_id low).1,
      )
      refl
  where
    digit_lem : (id : ℕ) → id < 10 → (is_digit (digit id) ≡ true) × (digit id - b'0' ≡ id)
    digit_lem id h = ground arith

read_gid :
    (a : OpenAnswers) (fd : ℕ) (name text : List ℕ) (gid : ℕ)
    → take 255 text ≡ text
    → c_string text ≡ text
    → find_gid name text ≡ some gid
    → open_listed a fd name (some text) ≡ open_handle a fd name gid
unfolding open_listed
read_gid a fd name text gid whole clean found = ground arith

open_listed-lines :
    (a : OpenAnswers) (fd : ℕ) (name : List ℕ) (gs : List Group) (g : Group)
    → check_group_name name ≡ true
    → length (active_lines gs) ≤ 255
    → Printable gs
    → NamedAsAllowed gs
    → find_named name gs ≡ some g
    → open_listed a fd name (some (active_lines gs)) ≡ open_handle a fd name g.group_id
open_listed-lines a fd name gs g h short ok names e =
    read_gid a fd name (active_lines gs) g.group_id (take-all 255 (active_lines gs) short)
      (c_string-lines gs ok names) (find_gid-lines name gs g h ok names e)

opened :
    (a : OpenAnswers) (track : Bool) (fd : ℕ) (name : List ℕ)
    → check_group_name name ≡ true
    → a.ctrl_rdwr ≡ some fd
    → dazukofs_open a track name ≡ open_read_write a track name fd
unfolding dazukofs_open
opened a track fd name h device = ground arith

commanded :
    (a : OpenAnswers) (track : Bool) (fd : ℕ) (name : List ℕ)
    → a.write_succeeds ≡ true
    → open_read_write a track name fd
      ≡ after (write fd (open_command track name) ∷ rewind fd ∷ []) (open_listed a fd name a.read)
unfolding open_read_write
commanded a track fd name written = ground arith

-- When the list of groups that dazukofs_get_groups prints has at most 255 bytes, and is what the
-- read of the control device answers after the write of the command, with names that the library
-- allows and ids of one digit: dazukofs_open of the library with a name that it allows goes on with
-- the id of the group that the kernel finds by this name.
pub dazukofs_open-listed :
    (a : OpenAnswers) (track : Bool) (fd : ℕ) (name : List ℕ) (gs : List Group) (g : Group)
    → check_group_name name ≡ true
    → a.ctrl_rdwr ≡ some fd
    → a.write_succeeds ≡ true
    → a.read ≡ some (active_lines gs)
    → length (active_lines gs) ≤ 255
    → Printable gs
    → NamedAsAllowed gs
    → find_named name gs ≡ some g
    → dazukofs_open a track name
      ≡ after
          (write fd (open_command track name) ∷ rewind fd ∷ [])
          (open_handle a fd name g.group_id)
dazukofs_open-listed a track fd name gs g h device written listed short ok names e =
    opened a track fd name h device
    ∙ commanded a track fd name written
    ∙ ap
        (λ o. after (write fd (open_command track name) ∷ rewind fd ∷ []) (open_listed a fd name o))
        listed
    ∙ ap (after (write fd (open_command track name) ∷ rewind fd ∷ []))
        (open_listed-lines a fd name gs g h short ok names e)
