-- ===== src/Events/Groups.antt =====
-- Adding and removing groups: __check_for_group, __create_group, dazukofs_add_group and
-- dazukofs_remove_group of event.c. A name is the list of its bytes, with no NUL.
use dazukofs_linux.Base.{
  ℕ, zero, suc, ◌+◌, Bool, true, false, not, ◌&&◌, Option, none, some, List, [], ◌∷◌, ◌++◌, ◌==◌,
  if◌then◌else◌, length, text_eq, inc32,
}
use dazukofs_linux.Events.State.{
  Ret, ok, err, enomem, eperm, Group, Effect, free_group, State, max_groups, ◌>>=◌, emit_all,
}
use dazukofs_linux.Events.Release.{remove_group}

-- How the scan of `__check_for_group` ends: the name exists, the id is taken, or neither.
pub data Verdict : Type 0 where
  exists taken free : Verdict

pub record Scan : Type 0 where
  pub groups : List Group
  pub freed : List Effect
  pub verdict : Verdict

abbrev pub track_group : Bool → Group → Group
track_group track g = record g { tracking = if track then true else g.tracking }

abbrev pub keep : Group → Scan → Scan
keep g r = record r { groups = g ∷ r.groups }

abbrev pub discard : Group → Scan → Scan
discard g r = record r { freed = r.freed ++ free_group g.address ∷ [] }

-- Deprecated groups that nobody uses are freed on the way; the loop breaks at a match.
unfoldable pub check_for_group : List ℕ → ℕ → Bool → List Group → Scan
unfolding text_eq
check_for_group name id track [] = record { groups = []; freed = []; verdict = free }
check_for_group name id track (g ∷ gs) =
    let rest = check_for_group name id track gs in
    if g.deprecated
    then (if g.use_count == 0 then discard g rest else keep g rest)
    else if text_eq name g.name
    then record { groups = track_group track g ∷ gs; freed = []; verdict = exists }
    else if g.group_id == id
    then record { groups = g ∷ gs; freed = []; verdict = taken }
    else keep g rest

-- `grp_mem` and `name_mem` are the answers of the two allocations.
unfoldable pub create_group : Option ℕ → Bool → List ℕ → ℕ → Bool → Option Group × List Effect
create_group none name_mem name id track = (none, [])
create_group (some a) false name id track = (none, free_group a ∷ [])
create_group (some a) true name id track = (
  some (record {
    address = a;
    name = name;
    name_length = length name;
    group_id = id;
    todo_list = [];
    working_list = [];
    use_count = 0;
    tracking = track;
    track_count = 0;
    deprecated = false;
  }),
  [],
)

pub record Choice : Type 0 where
  pub state : State
  pub id : ℕ
  pub already_exists : Bool

-- The loop over ids of `dazukofs_add_group`; `none` means that the fuel ran out.
unfoldable pub choose_id : ℕ → List ℕ → ℕ → Bool → State → Option Choice
unfolding emit_all
choose_id zero name id track s = none
choose_id (suc fuel) name id track s =
    let r = check_for_group name id track s.group_list in
    let s' = emit_all r.freed (record s { group_list = r.groups }) in
    elim r.verdict [
      | Verdict.exists ↦ some (record { state = s'; id = id; already_exists = true })
      | Verdict.taken ↦ choose_id fuel name (id + 1) track s'
      | Verdict.free ↦ some (record { state = s'; id = id; already_exists = false })
    ]

unfoldable pub link_group : Option Group × List Effect → State → Ret × State
unfolding emit_all inc32
link_group (none, xs) s = (err enomem, emit_all xs s)
link_group (some g, xs) s = (
  ok 0,
  emit_all xs (record s { group_list = s.group_list ++ g ∷ []; group_count = inc32 s.group_count }),
)

-- What follows the choice of an id: the second section, and `group_count`.
unfoldable pub add_chosen : Option ℕ → Bool → List ℕ → Bool → Choice → Ret × State
unfolding create_group link_group
add_chosen grp_mem name_mem name track c =
    if c.already_exists
    then (ok 0, c.state)
    else if c.state.group_count == max_groups
    then (err eperm, c.state)
    else link_group (create_group grp_mem name_mem name c.id track) c.state

-- Each round of the loop that goes on has met an active group with its id, so that one round more
-- than there are groups is enough.
unfoldable pub dazukofs_add_group : Option ℕ → Bool → List ℕ → Bool → State → Option (Ret × State)
unfolding add_chosen
dazukofs_add_group grp_mem name_mem name track s = do
  c ← choose_id (length s.group_list + 1) name 0 track s
  some (add_chosen grp_mem name_mem name track c)

unfoldable pub find_named : List ℕ → List Group → Option Group
unfolding text_eq
find_named name [] = none
find_named name (g ∷ gs) =
    if not g.deprecated && text_eq name g.name then some g else find_named name gs

unfoldable pub remove_found : Option Group → State → Option State
remove_found none s = some s
remove_found (some g) s = remove_group g s

unfoldable pub dazukofs_remove_group : List ℕ → State → Option (Ret × State)
dazukofs_remove_group name s =
    if s.group_count == 0
    then some (ok 0, s)
    else (do s' ← remove_found (find_named name s.group_list) s; some (ok 0, s'))
