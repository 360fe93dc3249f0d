-- ===== src/Events/Verdict.antt =====
-- The verdict of an access: what all the answers for one event come to.
use mathlib.Core.Path.{subst}
use dazukofs_linux.Base.{
  ℕ, suc, ◌<◌, ◌≡◌, refl, Bool, true, false, ◌||◌, Option, none, some, List, [], ◌∷◌, arith,
  if◌then◌else◌, length, dec32, dec32_lem, ==_refl, ◌∙◌, ap,
}
use dazukofs_linux.Events.State.{
  Event, State, max_groups, ◌>>=◌, update, ok, err, eperm, wake_event, emit, put_event,
}
use dazukofs_linux.Events.Release.{release_event, release_assigned, drop_event, event_assigned}
use dazukofs_linux.Events.Access.{finish_access}
use dazukofs_linux.Events.Invariant.Access.{finish_access-eq}

-- The registered processes answer one after the other.
unfoldable pub answer_all : ℕ → List Bool → State → Option State
answer_all a [] s = some s
answer_all a (deny ∷ ds) s = do s' ← release_event a true deny s; answer_all a ds s'

abbrev pub any : List Bool → Bool
any [] = false
any (b ∷ bs) = b || any bs

-- An event of a waiting access that `n` processes still have to answer for.
abbrev pub Awaits : ℕ → State → Bool → ℕ → Type 0
Awaits a s denied n =
    (e : Event) × (s.events a ≡ some e)
    × ((e.assigned ≡ n) × (e.deny ≡ denied) × (e.deprecated ≡ false))

-- An answer before the last: it is recorded, and nobody is woken.
module _ (a n : ℕ) (denied deny : Bool) (s : State) (e : Event) (live : s.events a ≡ some e) where
  answered : Event
  answered = record e { deny = if deny then true else e.deny; assigned = dec32 e.assigned }

  answered-Awaits :
      (s' : State)
      → n < max_groups
      → (e.assigned ≡ suc n) × (e.deny ≡ denied) × (e.deprecated ≡ false)
      → s'.events ≡ update s.events a (some answered)
      → Awaits a s' (denied || deny) n
  unfolding answered
  answered-Awaits s' small (number, mark, plain) stored = (
    answered,
    rw stored (ground (arith, ==_refl a)),
    (ground (arith, dec32_lem e.assigned), ground arith, plain),
  )

  release_more :
      n < max_groups
      → 0 < n
      → (e.assigned ≡ suc n) × (e.deny ≡ denied) × (e.deprecated ≡ false)
      → release_event a true deny s ≡ some (put_event a (some answered) s)
  unfolding release_event release_assigned answered
  release_more small more (number, mark, plain) =
      rw (live, ◌>>=◌) (ground (arith, dec32_lem e.assigned))

  release_last :
      n ≡ 0
      → (e.assigned ≡ suc n) × (e.deny ≡ denied) × (e.deprecated ≡ false)
      → release_event a true deny s ≡ some (emit (wake_event a) (put_event a (some answered) s))
  unfolding release_event release_assigned answered
  release_last last (number, mark, plain) = rw (live, ◌>>=◌) (ground (arith, dec32_lem e.assigned))

or_last : (b c : Bool) → (b || c) ≡ (b || any (c ∷ []))
or_last b c = ground arith

or_regroup : (b c d : Bool) → ((b || c) || d) ≡ (b || (c || d))
or_regroup b c d = ground arith

-- All the answers that an event waits for: each can be given, the last one and no other wakes the
-- accessor, and the event is marked exactly if one of them denies.
answer_all_lem :
    (a : ℕ) (ds : List Bool) (denied deny : Bool) (s : State)
    → length ds < max_groups
    → Awaits a s denied (suc (length ds))
    → (s' : State) × (answer_all a (deny ∷ ds) s ≡ some s')
      × (s'.trace ≡ wake_event a ∷ s.trace)
      × Awaits a s' (denied || any (deny ∷ ds)) 0
unfolding answer_all emit put_event
answer_all_lem a [] denied deny s small (e, live, facts) =
    let s' = emit (wake_event a) (put_event a (some (answered a 0 denied deny s e live)) s) in
    (
      s',
      rw (release_last a 0 denied deny s e live refl facts, ◌>>=◌),
      refl,
      subst (λ b. Awaits a s' b 0) (or_last denied deny)
          (answered-Awaits a 0 denied deny s e live s' small facts refl),
    )
answer_all_lem a (d ∷ ds) denied deny s small (e, live, facts) =
    let n = suc (length ds) in
    let s1 = put_event a (some (answered a n denied deny s e live)) s in
    let (s', eq, trace, waits) =
      answer_all_lem a ds (denied || deny) d s1 (omega arith)
        (answered-Awaits a n denied deny s e live s1 (omega arith) facts refl) in
    (
      s',
      rw (release_more a n denied deny s e live (omega arith) (omega arith) facts, ◌>>=◌, eq),
      trace,
      subst (λ b. Awaits a s' b 0) (or_regroup denied deny (any (d ∷ ds))) waits,
    )

-- An event that has as many answers still to come as there are groups with it, at most ten, and no
-- denial so far: after those answers the count is zero and only the last has woken the access. The
-- access ends with -EPERM exactly if one of the answers denied it, whatever the others were and in
-- whichever order they came, and its event is freed.
pub verdict :
    (a : ℕ) (deny : Bool) (ds : List Bool) (s : State)
    → length ds < max_groups
    → Awaits a s false (suc (length ds))
    → (s1 : State) × (s2 : State) × (answer_all a (deny ∷ ds) s ≡ some s1)
      × (event_assigned a s1 ≡ some 0)
      × (s1.trace ≡ wake_event a ∷ s.trace)
      × (finish_access a s1 ≡ some (if any (deny ∷ ds) then err eperm else ok 0, s2))
      × (s2.events a ≡ none)
unfolding event_assigned
verdict a deny ds s small first =
    let (s1, eq, trace, (e, live, (number, mark, plain))) =
      answer_all_lem a ds false deny s small first in
    (
      s1,
      drop_event a e s1,
      eq,
      rw (live, ◌>>=◌) (ground arith),
      trace,
      finish_access-eq a s1 e live number
          ∙ ap (λ b. some (if b then err eperm else ok 0, drop_event a e s1)) mark,
      (unfold drop_event in rw (==_refl a)),
    )
