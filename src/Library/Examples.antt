-- ===== src/Library/Examples.antt =====
-- A list with one active group and one that is deprecated, printed and read by the library.
use dazukofs_linux.Base.{
  ℕ, ◌≡◌, refl, Bool, true, false, none, some, List, [], ◌∷◌, arith, digits, text_eq,
}
use dazukofs_linux.Events.State.{Group}
use dazukofs_linux.Events.Groups.{find_named}
use dazukofs_linux.Events.Listing.{dazukofs_get_groups}
use dazukofs_linux.Events.Listing.Printed.{Ends, dazukofs_get_groups-Ends, active_lines}
use dazukofs_linux.Library.{
  OpenAnswers, dazukofs_open, open_handle, open_command, check_group_name, all_name_chars, after,
  write, rewind,
}
use dazukofs_linux.Library.Listed.{dazukofs_open-listed}

abbrev scan_name : List ℕ
scan_name = b'a' ∷ b'v' ∷ []

abbrev scanner : Group
scanner = record {
  address = 1;
  name = scan_name;
  name_length = 2;
  group_id = 3;
  todo_list = [];
  working_list = [];
  use_count = 0;
  tracking = true;
  track_count = 1;
  deprecated = false;
}

abbrev groups : List Group
groups = record scanner { address = 2; group_id = 3; deprecated = true } ∷ scanner ∷ []

-- The first allocation succeeds.
abbrev memory : ℕ → Bool
memory i = true

abbrev answers : OpenAnswers
answers = record {
  ctrl_rdwr = some 4;
  ctrl_rdonly = none;
  write_succeeds = true;
  read = some (active_lines groups);
  malloc_succeeds = true;
  strdup_succeeds = true;
  open_group = λ gid. some 6;
}

dazukofs_get_groups-Ends_example : Ends memory groups (dazukofs_get_groups memory groups)
dazukofs_get_groups-Ends_example =
    dazukofs_get_groups-Ends memory groups ((λ h. cc), ((λ h. (omega arith, refl)), tt))
      (omega arith)

dazukofs_open-listed_example :
    dazukofs_open answers true scan_name
    ≡ after
        (write 4 (open_command true scan_name) ∷ rewind 4 ∷ [])
        (open_handle answers 4 scan_name 3)
unfolding check_group_name all_name_chars find_named text_eq digits
dazukofs_open-listed_example =
    dazukofs_open-listed answers true 4 scan_name groups scanner refl refl refl refl (omega arith)
      ((λ h. cc), ((λ h. (omega arith, refl)), tt)) ((λ h. refl), ((λ h. refl), tt)) refl
