-- ===== src/ShowFiles.antt =====
-- The example program test/showfiles.c: it prints each access to a file and lets it go on. What the
-- system calls answer is a parameter, as it is for the library; messages on stderr are left out.
use dazukofs_linux.Base.{
  ℕ, zero, suc, ◌+◌, ◌-◌, Bool, true, false, Option, none, some, List, [], ◌∷◌, ◌++◌, if◌then◌else◌,
  length, replicate, decimal, c_string,
}
use dazukofs_linux.Events.State.{◌>>=◌}
use dazukofs_linux.Library.{
  Handle, Access, Call, OpenAnswers, CloseAnswers, ReturnAnswers, dazukofs_open, dazukofs_close,
  dazukofs_get_access, dazukofs_return_access,
}
use dazukofs_linux.Library.Filename.{dazukofs_get_filename}
pub mod Proofs
mod Examples

-- `"pid:%05lu file:%s\n"`.
unfoldable pub access_line : (pid : ℕ) → List ℕ → List ℕ
access_line pid name =
    b'p'
    ∷ b'i'
    ∷ b'd'
    ∷ b':'
    ∷ (replicate (5 - length (decimal pid)) b'0'
        ++ (decimal pid ++ (b' ' ∷ b'f' ∷ b'i' ∷ b'l' ∷ b'e' ∷ b':' ∷ (name ++ b'\n' ∷ []))))

abbrev pub unknown : List ℕ
unknown = b'?' ∷ b'?' ∷ b'?' ∷ []

-- What a lookup of the name comes to.
unfoldable pub line_of : (pid : ℕ) → Option ℕ × List ℕ → List ℕ
unfolding access_line
line_of pid (none, filename) = access_line pid unknown
line_of pid (some zero, filename) = access_line pid unknown
line_of pid (some (suc n), filename) = access_line pid (c_string filename)

-- `filename` is the array of 1024 bytes on the stack.
unfoldable pub print_access :
    (readlink : List ℕ → ℕ → Option (List ℕ)) → (filename : List ℕ) → Access → Option (List ℕ)
unfolding line_of
print_access readlink filename acc = do
  r ← dazukofs_get_filename readlink acc.fd filename
  some (line_of acc.pid r)

-- One turn of the loop: whether `running` is still set, what the read of the group's device gives,
-- the array as it stands on the stack, and the answers to the calls of dazukofs_return_access.
pub record Round : Type 0 where
  pub running : Bool
  pub read : Option (List ℕ)
  pub filename : List ℕ
  pub returned : ReturnAnswers

-- What the loop has printed, the calls of the library in it, and the handle.
pub record Shown : Type 0 where
  pub lines : List (List ℕ)
  pub calls : List Call
  pub handle : Handle

abbrev pub shows : List ℕ → List Call → Shown → Shown
shows line calls r = record r { lines = line ∷ r.lines; calls = calls ++ r.calls }

abbrev pub stop : Handle → Shown
stop h = record { lines = []; calls = []; handle = h }

unfoldable pub after_return : List ℕ → Bool × List Call → Handle → Option Shown → Option Shown
after_return line (true, calls) h rest = do r ← rest; some (shows line calls r)
after_return line (false, calls) h rest = some (shows line calls (stop h))

unfoldable pub show_access :
    (readlink : List ℕ → ℕ → Option (List ℕ))
    → Round
    → Option Access
    → Handle
    → Option Shown
    → Option Shown
unfolding after_return
show_access readlink r none h rest = some (stop h)
show_access readlink r (some acc) h rest = do
  line ← print_access readlink r.filename acc
  after_return line (dazukofs_return_access r.returned h acc) h rest

-- The loop of `main`, over the turns up to the one in which it ends.
unfoldable pub show_accesses :
    (readlink : List ℕ → ℕ → Option (List ℕ)) → List Round → Handle → Option Shown
unfolding show_access
show_accesses readlink [] h = some (stop h)
show_accesses readlink (r ∷ rs) h =
    let got = dazukofs_get_access r.read h in
    let rest = show_accesses readlink rs got.1 in
    let shown = show_access readlink r got.0 got.1 rest in
    if r.running then shown else some (stop h)

-- `dazukofs_example`.
abbrev pub example_group : List ℕ
example_group =
    b'd' ∷ b'a' ∷ b'z' ∷ b'u' ∷ b'k' ∷ b'o' ∷ b'f' ∷ b's' ∷ b'_' ∷ b'e' ∷ b'x' ∷ b'a' ∷ b'm' ∷ b'p'
    ∷ b'l' ∷ b'e' ∷ []

unfoldable pub run :
    CloseAnswers
    → (readlink : List ℕ → ℕ → Option (List ℕ)) → List Round
    → Option Handle × List Call
    → Option (Bool × List (List ℕ) × List Call)
unfolding show_accesses
run close readlink rounds (none, calls) = some (false, [], calls)
run close readlink rounds (some h, calls) = do
  r ← show_accesses readlink rounds h
  some (true, r.lines, calls ++ (r.calls ++ (dazukofs_close close true r.handle).1))

-- True is the result 0, after the goodbye; false the result -1 without a handle.
unfoldable pub main :
    OpenAnswers
    → CloseAnswers
    → (readlink : List ℕ → ℕ → Option (List ℕ)) → List Round
    → Option (Bool × List (List ℕ) × List Call)
unfolding run
main a close readlink rounds = run close readlink rounds (dazukofs_open a true example_group)
