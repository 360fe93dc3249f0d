-- ===== src/Control/Examples.antt =====
-- A command ended by a line feed, and one that has no byte after its name but the NUL.
use dazukofs_linux.Base.{ℕ, ◌≡◌, ◌++◌, refl, none, some, List, [], ◌∷◌}
use dazukofs_linux.Events.Groups.{dazukofs_remove_group}
use dazukofs_linux.Events.State.{◌>>=◌}
use dazukofs_linux.Events.System.{start}
use dazukofs_linux.Control.{process_command, del_key, find_key, is_valid_char}
use dazukofs_linux.Control.Proofs.{process_command-fault, process_command-name}

abbrev unlucky : List ℕ
unlucky = b'd' ∷ b'e' ∷ b'l' ∷ b'=' ∷ b'a' ∷ 0 ∷ b'7' ∷ []

process_command-fault_example :
    process_command del_key dazukofs_remove_group unlucky start.state ≡ none
unfolding find_key is_valid_char
process_command-fault_example =
    process_command-fault del_key unlucky 0 dazukofs_remove_group start.state refl
      (refl, (refl, (refl, tt)))

process_command-name_example :
    process_command del_key dazukofs_remove_group
      (del_key ++ ((b'a' ∷ b'v' ∷ []) ++ b'\n' ∷ 0 ∷ []))
      start.state
    ≡ (dazukofs_remove_group (b'a' ∷ b'v' ∷ []) start.state >>= λ r. some (record {
      buf = del_key ++ ((b'a' ∷ b'v' ∷ []) ++ b' ' ∷ 0 ∷ []);
      state = r.1;
      retcode = some r.0;
    }))
unfolding is_valid_char
process_command-name_example =
    process_command-name dazukofs_remove_group b'd' (b'e' ∷ b'l' ∷ b'=' ∷ []) b'a' (b'v' ∷ [])
      (0 ∷ []) b'\n' start.state (refl, (refl, tt)) refl
