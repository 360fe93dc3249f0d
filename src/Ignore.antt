-- ===== src/Ignore.antt =====
-- The ignore device of ign_dev.c: a process that holds it open is not asked for its accesses.
use dazukofs_linux.Base.{
  ℕ, Bool, true, false, not, Option, none, some, List, [], ◌∷◌, ◌==◌, if◌then◌else◌,
}
use dazukofs_linux.Events.State.{Ret, ok, err, enomem, Effect, get_pid, put_pid, Proc, update}
pub mod Proofs
mod Examples

-- `ign_list`, `private_data` of the open files, the addresses of the structures that the cache has
-- given back, and the calls that count the references to processes, newest first.
pub record Ignore : Type 0 where
  pub ign_list : List Proc
  pub private_data : ℕ → Option Proc
  pub freed : List ℕ
  pub trace : List Effect

-- The scan of `ign_list` for a process.
unfoldable pub ignores : ℕ → List Proc → Bool
ignores pid [] = false
ignores pid (p ∷ ps) = if p.proc_id == pid then true else ignores pid ps

-- True for a process whose accesses are to be checked.
unfoldable pub dazukofs_check_ignore_process : ℕ → Ignore → Bool × Ignore
unfolding ignores
dazukofs_check_ignore_process pid s =
    (not (ignores pid s.ign_list), record s { trace = put_pid pid ∷ get_pid pid ∷ s.trace })

-- `mem` is the answer of the allocation, `file` the opened file.
unfoldable pub dazukofs_add_ign : Option ℕ → (file pid : ℕ) → Ignore → Ret × Ignore
dazukofs_add_ign none file pid s =
    (err enomem, record s { private_data = update s.private_data file none })
dazukofs_add_ign (some a) file pid s =
    let p : Proc = record { address = a; proc_id = pid } in
    (
      ok 0,
      record s {
        ign_list = p ∷ s.ign_list;
        private_data = update s.private_data file (some p);
        trace = get_pid pid ∷ s.trace;
      },
    )

-- The first entry for a process, and the list without it.
unfoldable pub cut_out : ℕ → List Proc → Option (Proc × List Proc)
cut_out pid [] = none
cut_out pid (p ∷ ps) =
    let rest = cut_out pid ps in
    if p.proc_id == pid
    then some (p, ps)
    else elim rest [ none ↦ none | some r ↦ some (r.0, p ∷ r.1) ]

abbrev pub release_cut : ℕ → Option (Proc × List Proc) → Ignore → Ignore
release_cut file none s = s
release_cut file (some (p, ps)) s = record s {
  ign_list = ps;
  private_data = update s.private_data file none;
  freed = p.address ∷ s.freed;
  trace = put_pid p.proc_id ∷ s.trace;
}

abbrev pub remove_checked : ℕ → Option Proc → Ignore → Ignore
remove_checked file none s = s
remove_checked file (some p) s = release_cut file (cut_out p.proc_id s.ign_list) s

unfoldable pub dazukofs_remove_ign : (file : ℕ) → Ignore → Ignore
unfolding cut_out
dazukofs_remove_ign file s = remove_checked file (s.private_data file) s

unfoldable pub dazukofs_ign_open : Option ℕ → (file pid : ℕ) → Ignore → Ret × Ignore
unfolding dazukofs_add_ign
dazukofs_ign_open mem file pid s = dazukofs_add_ign mem file pid s

unfoldable pub dazukofs_ign_release : (file : ℕ) → Ignore → Ret × Ignore
unfolding dazukofs_remove_ign
dazukofs_ign_release file s = (ok 0, dazukofs_remove_ign file s)

-- The entries are freed, their processes are not put.
unfoldable pub destroy_list : List Proc → List ℕ → List ℕ
destroy_list [] freed = freed
destroy_list (p ∷ ps) freed = destroy_list ps (p.address ∷ freed)

unfoldable pub dazukofs_destroy_ignlist : Ignore → Ignore
unfolding destroy_list
dazukofs_destroy_ignlist s = record s { ign_list = []; freed = destroy_list s.ign_list s.freed }
