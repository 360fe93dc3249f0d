-- ===== src/Ignore/Proofs.antt =====
-- Opening and releasing the ignore device of ign_dev.c.
use dazukofs_linux.Base.{
  ℕ, suc, ◌≡◌, refl, inl, inr, Bool, true, false, not, Option, none, some, List, [], ◌∷◌, ◌==◌,
  if◌then◌else◌, ==_refl, Bool-cases, arith,
}
use dazukofs_linux.Events.State.{Proc, ok, get_pid, put_pid, update}
use dazukofs_linux.Ignore.{
  Ignore, ignores, dazukofs_check_ignore_process, dazukofs_ign_open, dazukofs_ign_release,
  dazukofs_add_ign, dazukofs_remove_ign, cut_out,
}

-- How many entries of the list are for a process.
unfoldable pub entries : ℕ → List Proc → ℕ
entries pid [] = 0
entries pid (p ∷ ps) = let n = entries pid ps in if p.proc_id == pid then suc n else n

some_entries : (n : ℕ) → true ≡ not (suc n == 0)
some_entries n = ground arith

entries-ignores : (pid : ℕ) (ps : List Proc) → ignores pid ps ≡ not (entries pid ps == 0)
unfolding ignores entries
entries-ignores pid [] = refl
entries-ignores pid (p ∷ ps) = elim (Bool-cases (p.proc_id == pid)) [
  | inl e ↦ rw e (some_entries (entries pid ps))
  | inr e ↦ rw e (entries-ignores pid ps)
]

-- A process is checked exactly when `ign_list` has no entry for it, and the check leaves the list
-- as it is.
pub check_ignore_lem :
    (pid : ℕ) (s : Ignore)
    → ((dazukofs_check_ignore_process pid s).0 ≡ (entries pid s.ign_list == 0))
      × ((dazukofs_check_ignore_process pid s).1.ign_list ≡ s.ign_list)
unfolding dazukofs_check_ignore_process
check_ignore_lem pid s =
    (rw (entries-ignores pid s.ign_list) (not-not (entries pid s.ign_list == 0)), refl)
  where
    not-not : (b : Bool) → not (not b) ≡ b
    not-not true = refl
    not-not false = refl

update_self : (f : ℕ → Option Proc) (p : ℕ) (v : Option Proc) → update f p v p ≡ v
update_self f p v = rw (==_refl p) refl

-- Opening the device with memory at hand and releasing it again, with no other call between,
-- succeeds, leaves the list as it was, clears the file's pointer, gives the structure back and
-- drops the reference to the process that the opening took; in between the process is not checked.
pub release-open :
    (a file pid : ℕ) (s : Ignore)
    → let opened = dazukofs_ign_open (some a) file pid s in
      let closed = dazukofs_ign_release file opened.1 in
      (opened.0 ≡ ok 0)
      × ((dazukofs_check_ignore_process pid opened.1).0 ≡ false)
      × (closed.1.ign_list ≡ s.ign_list)
      × (closed.1.private_data file ≡ none)
      × (closed.1.freed ≡ a ∷ s.freed)
      × (closed.1.trace ≡ put_pid pid ∷ get_pid pid ∷ s.trace)
unfolding dazukofs_ign_open dazukofs_add_ign dazukofs_ign_release dazukofs_remove_ign
    dazukofs_check_ignore_process ignores cut_out
release-open a file pid s =
    let p : Proc = record { address = a; proc_id = pid } in
    rw (==_refl file, ==_refl pid)
      (refl, refl, refl, update_self (update s.private_data file (some p)) file none, refl, refl)
