-- ===== src/ShowFiles/Examples.antt =====
-- One access that is shown and let go on, and the name of the file of a descriptor.
use dazukofs_linux.Base.{
  ℕ, zero, suc, ◌≤◌, ◌≡◌, refl, true, Option, none, some, List, [], ◌∷◌, arith, length, replicate,
}
use dazukofs_linux.GroupDevice.{event_text}
use dazukofs_linux.Library.{Handle}
use dazukofs_linux.Library.Filename.{
  dazukofs_get_filename, dazukofs_get_filename-Filename, Filename, link_path, last_index,
}
use dazukofs_linux.ShowFiles.{Round, Shown, show_accesses}
use dazukofs_linux.ShowFiles.Proofs.{Allows, writes, show_accesses-Allows}

-- A link to `/` whatever the path, when there is room for a byte.
abbrev to_root : List ℕ → ℕ → Option (List ℕ)
to_root path zero = none
to_root path (suc room) = some (b'/' ∷ [])

to_root_lem :
    (path : List ℕ) (room : ℕ) (xs : List ℕ) → to_root path room ≡ some xs → length xs ≤ room
to_root_lem path zero xs e = cc
to_root_lem path (suc room) xs e = ground arith

abbrev handle : Handle
handle = record { dev_fd = 5; event_id = 0; group_name = [] }

abbrev round : Round
round = record {
  running = true;
  read = some (event_text 1 3 7);
  filename = replicate 1024 0;
  returned = record { close_succeeds = true; write_succeeds = true };
}

show_accesses-Allows_example :
    (r : Shown) × (show_accesses to_root (round ∷ []) handle ≡ some r)
    × Allows (round ∷ []) handle (writes r.calls)
show_accesses-Allows_example =
    show_accesses-Allows to_root to_root_lem (round ∷ []) handle (refl, tt)

dazukofs_get_filename-Filename_example :
    (r : Option ℕ) × (buf : List ℕ) × (dazukofs_get_filename to_root 3 (replicate 8 0)
      ≡ some (r, buf))
    × (length buf ≡ 8)
    × Filename (to_root (link_path 3) (last_index (replicate 8 0))) r buf
dazukofs_get_filename-Filename_example =
    dazukofs_get_filename-Filename to_root 3 (replicate 8 0) to_root_lem (omega arith) (omega arith)
