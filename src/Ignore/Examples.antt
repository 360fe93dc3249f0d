-- ===== src/Ignore/Examples.antt =====
-- The theorems on ign_dev.c at a list of one process.
use dazukofs_linux.Base.{◌≡◌, false, none, some, [], ◌∷◌}
use dazukofs_linux.Events.State.{Proc, ok, get_pid, put_pid}
use dazukofs_linux.Ignore.{
  Ignore, dazukofs_check_ignore_process, dazukofs_ign_open, dazukofs_ign_release,
}
use dazukofs_linux.Ignore.Proofs.{release-open}

abbrev other : Proc
other = record { address = 40; proc_id = 4 }

abbrev one_ignored : Ignore
one_ignored = record { ign_list = other ∷ []; private_data = λ f. none; freed = []; trace = [] }

release-open_example :
    let opened = dazukofs_ign_open (some 50) 3 7 one_ignored in
    let closed = dazukofs_ign_release 3 opened.1 in
    (opened.0 ≡ ok 0)
    × ((dazukofs_check_ignore_process 7 opened.1).0 ≡ false)
    × (closed.1.ign_list ≡ one_ignored.ign_list)
    × (closed.1.private_data 3 ≡ none)
    × (closed.1.freed ≡ 50 ∷ one_ignored.freed)
    × (closed.1.trace ≡ put_pid 7 ∷ get_pid 7 ∷ one_ignored.trace)
release-open_example = release-open 50 3 7 one_ignored
