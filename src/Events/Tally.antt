-- ===== src/Events/Tally.antt =====
-- The reference count of events: an event's `assigned` field is the number of containers and of
-- answers on their way that hold it. Its laws for release_event and __clear_group_event_list.
use dazukofs_linux.Base.{
  ℕ, ◌+◌, ◌≤◌, ◌<◌, ◌≡◌, refl, Bool, true, false, Option, none, some, List, [], ◌∷◌, arith, ◌==◌,
  if◌then◌else◌, count, dec32, dec32_lem,
}
use dazukofs_linux.Events.State.{
  emit, free_container, Event, Container, Group, State, max_groups, ◌>>=◌, update,
}
use dazukofs_linux.Events.Release.{
  release_event, release_assigned, mark_deny, clear_group_event_list,
}

-- How often an event stands in a list of containers, in a group, and in the group list.
abbrev pub refs : ℕ → List Container → ℕ
refs a [] = 0
refs a (c ∷ cs) = count a (c.event ∷ []) + refs a cs

abbrev pub held : ℕ → Group → ℕ
held a g = refs a g.working_list + refs a g.todo_list

abbrev pub listed : ℕ → List Group → ℕ
listed a [] = 0
listed a (g ∷ gs) = held a g + listed a gs

-- A freed event has no holder. A live one counts its holders, and one accessor waits for it.
abbrev pub Tally : Option Event → ℕ → ℕ → Type 0
Tally none n w = (n ≡ 0) × (w ≡ 0)
Tally (some e) n w = (e.assigned ≡ n) × (n ≤ max_groups) × (e.deprecated ≡ false) × (w ≡ 1)

abbrev pub Tallied : State → (ℕ → ℕ) → (ℕ → ℕ) → Type 0
Tallied s n w = (a : ℕ) → Tally (s.events a) (n a) (w a)

-- A held event is live.
pub live_of_held : (o : Option Event) (n w : ℕ) → Tally o n w → 0 < n → (e : Event) × (o ≡ some e)
live_of_held none n w t h = absurd (omega arith)
live_of_held (some e) n w t h = (e, refl)

-- What a release leaves at the event itself.
abbrev answered : Bool → Event → Event
answered deny e = record e { deny = if deny then true else e.deny; assigned = dec32 e.assigned }

-- While nobody has given the event up, an answer changes this event and nothing of the groups.
module _ (a : ℕ) (deny : Bool) (s : State) (e : Event) (plain : e.deprecated ≡ false) where
  release_assigned-events :
      (release_assigned a (mark_deny deny e) s).events ≡ update s.events a (some (answered deny e))
  unfolding release_assigned
  release_assigned-events = ground arith

  pub release_assigned-groups :
      ((release_assigned a (mark_deny deny e) s).group_list ≡ s.group_list)
      × ((release_assigned a (mark_deny deny e) s).group_count ≡ s.group_count)
  unfolding release_assigned
  release_assigned-groups = ground arith

pub release_event-eq :
    (a : ℕ) (deny : Bool) (s : State) (e : Event)
    → s.events a ≡ some e
    → release_event a true deny s ≡ some (release_assigned a (mark_deny deny e) s)
unfolding release_event
release_event-eq a deny s e live = rw (live, ◌>>=◌)

-- One answer: the event's tally falls by one, and all else stays.
Tally-release :
    (a b : ℕ) (deny : Bool) (e : Event) (o : Option Event) (m n w : ℕ)
    → (a ≡ b → o ≡ some e)
    → n ≡ m + count b (a ∷ [])
    → Tally o n w
    → Tally (if a == b then some (answered deny e) else o) m w
unfolding count
Tally-release a b deny e none m n w here sum t = ground (arith, here)
Tally-release a b deny e (some x) m n w here sum t = ground (arith, here, dec32_lem e.assigned)

-- A state with other tallies and the same groups.
abbrev pub Settles : State → State → (ℕ → ℕ) → (ℕ → ℕ) → Type 0
Settles s s' m w =
    Tallied s' m w × (s'.group_list ≡ s.group_list) × (s'.group_count ≡ s.group_count)

-- A registered process can always answer for an event that is held, and takes one holder away.
pub release_event-Settles :
    (a : ℕ) (deny : Bool) (s : State) (m n w : ℕ → ℕ)
    → ((b : ℕ) → n b ≡ m b + count b (a ∷ []))
    → Tallied s n w
    → (s' : State) × (release_event a true deny s ≡ some s') × Settles s s' m w
unfolding count
release_event-Settles a deny s m n w sum t =
    let (e, live) = live_of_held (s.events a) (n a) (w a) (t a) (ground (arith, sum a)) in
    let plain : e.deprecated ≡ false = ground (arith, t a) in
    let (groups, number) = release_assigned-groups a deny s e plain in
    let tally : Tallied (release_assigned a (mark_deny deny e) s) m w = λ b.
      rw (release_assigned-events a deny s e plain) (
        Tally-release a b deny e (s.events b) (m b) (n b) (w b) (λ eq. rw (← eq) live) (sum b)
          (t b)) in
    (
      release_assigned a (mark_deny deny e) s,
      release_event-eq a deny s e live,
      (tally, groups, number),
    )

-- Clearing a list gives up exactly the holders that stand in it, and never meets a freed event.
pub clear_group_event_list-Settles :
    (cs : List Container) (s : State) (m n w : ℕ → ℕ)
    → ((b : ℕ) → n b ≡ m b + refs b cs)
    → Tallied s n w
    → (s' : State) × (clear_group_event_list cs s ≡ some s') × Settles s s' m w
unfolding clear_group_event_list emit
clear_group_event_list-Settles [] s m n w sum t =
    (s, refl, ((λ b. rw (same b) at (t b)), refl, refl))
  where
    same : (b : ℕ) → n b ≡ m b
    same b = omega (arith, sum b)
clear_group_event_list-Settles (ec ∷ cs) s m n w sum t =
    let (s1, e1, (t1, g1, c1)) =
      release_event-Settles ec.event false s (λ b. m b + refs b cs) n w (λ b. omega (arith, sum b))
        t in
    let (s2, e2, (t2, g2, c2)) =
      clear_group_event_list-Settles cs (emit (free_container ec.address) s1) m
        (λ b. m b + refs b cs) w (λ b. refl) t1 in
    (s2, rw e1 e2, (t2, ground (arith, g1, g2), ground (arith, c1, c2)))
