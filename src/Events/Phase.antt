-- ===== src/Events/Phase.antt =====
-- What an access looks like from outside: how many processes still have to answer for its event,
-- and whether one has denied it. Clearing a group's lists withdraws answers and forgets no denial.
use dazukofs_linux.Base.{
  ℕ, ◌+◌, ◌≤◌, ◌<◌, ◌≡◌, refl, sym, ◌∙◌, inl, inr, Bool, true, false, Option, none, some, List, [],
  ◌∷◌, arith, ◌==◌, if◌then◌else◌, Bool-cases, ==_iff, ==_refl, count, dec32, dec32_lem,
}
use mathlib.Core.Path.{subst}
use dazukofs_linux.Events.State.{Event, Container, State, emit, free_container}
use dazukofs_linux.Events.Release.{
  release_event, release_assigned, mark_deny, clear_group_event_list,
}
use dazukofs_linux.Events.Tally.{
  refs, Tally, Tallied, live_of_held, release_event-Settles, release_event-eq,
}

-- What an access is: nothing, or an event that so many processes have to answer for, and that may
-- have been denied.
pub data Phase : Type 0 where
  absent : Phase
  pending : (answers : ℕ) → (denied : Bool) → Phase

abbrev pub phase_of : Option Event → Phase
phase_of none = absent
phase_of (some e) = pending e.assigned e.deny

abbrev pub phase : ℕ → State → Phase
phase a s = phase_of (s.events a)

-- Some answers fall away, none of them a denial.
abbrev pub Fewer : Phase → Phase → Type 0
Fewer absent absent = Unit
Fewer absent (pending m d) = ⊥
Fewer (pending n d) absent = ⊥
Fewer (pending n d) (pending m c) = (m ≤ n) × (c ≡ d)

pub Fewer-refl : (p : Phase) → Fewer p p
Fewer-refl absent = tt
Fewer-refl (pending n d) = (omega arith, refl)

pub Fewer-trans : (p q r : Phase) → Fewer p q → Fewer q r → Fewer p r
Fewer-trans absent absent r f g = g
Fewer-trans absent (pending n d) r f g = absurd f
Fewer-trans (pending n d) absent r f g = absurd f
Fewer-trans (pending n d) (pending m c) absent f g = g
Fewer-trans (pending n d) (pending m c) (pending l b) f g = (omega arith, g.1 ∙ f.1)

-- An answer for `a`, seen at `b`.
pub release_assigned-phase :
    (a b : ℕ) (deny : Bool) (s : State) (e : Event)
    → s.events a ≡ some e
    → e.deprecated ≡ false
    → phase b (release_assigned a (mark_deny deny e) s)
      ≡ (if a == b then pending (dec32 e.assigned) (if deny then true else e.deny) else phase b s)
unfolding release_assigned
release_assigned-phase a b deny s e live plain = ground arith

release_event-Fewer :
    (a b : ℕ) (s s' : State) (n w : ℕ)
    → Tally (s.events a) n w
    → 0 < n
    → release_event a true false s ≡ some s'
    → Fewer (phase b s) (phase b s')
release_event-Fewer a b s s' n w t held eq =
    let (e, live) = live_of_held (s.events a) n w t held in
    let tally : Tally (some e) n w = rw live at t in
    let done : release_assigned a (mark_deny false e) s ≡ s' =
      some_inj (sym (release_event-eq a false s e live) ∙ eq) in
    subst (λ x. Fewer (phase b s) (phase b x)) done
      (rw (release_assigned-phase a b false s e live tally.2) (at_event e live tally))
  where
    some_inj : {A : Type 0} {x y : A} → some x ≡ some y → x ≡ y
    some_inj h = cc

    at_event :
        (e : Event)
        → s.events a ≡ some e
        → Tally (some e) n w
        → Fewer (phase b s) (if a == b then pending (dec32 e.assigned) e.deny else phase b s)
    at_event e live tally = elim (Bool-cases (a == b)) [
      | inl here ↦ rw (here, ← (==_iff a b).0 here, live) (ground (arith, dec32_lem e.assigned))
      | inr away ↦ rw away (Fewer-refl (phase b s))
    ]

-- Clearing a list withdraws answers, and touches no mark of a denial.
pub clear_group_event_list-Fewer :
    (cs : List Container) (s s' : State) (m n w : ℕ → ℕ)
    → ((b : ℕ) → n b ≡ m b + refs b cs)
    → Tallied s n w
    → clear_group_event_list cs s ≡ some s'
    → (b : ℕ) → Fewer (phase b s) (phase b s')
unfolding clear_group_event_list emit count
clear_group_event_list-Fewer [] s s' m n w sum t e b =
    let same : s ≡ s' = ground arith in
    subst (λ x. Fewer (phase b s) (phase b x)) same (Fewer-refl (phase b s))
clear_group_event_list-Fewer (ec ∷ cs) s s' m n w sum t e b =
    let more = λ (b : ℕ). m b + refs b cs in
    let (s1, e1, (t1, g1, c1)) =
      release_event-Settles ec.event false s more n w (λ b. omega (arith, sum b)) t in
    let rest =
      clear_group_event_list-Fewer cs (emit (free_container ec.address) s1) s' m more w (λ b. refl)
        t1 (rw e1 at e) b in
    Fewer-trans (phase b s) (phase b s1) (phase b s')
      (release_event-Fewer ec.event b s s1 (n ec.event) (w ec.event) (t ec.event)
        (held_now (sum ec.event)) e1)
      rest
  where
    held_now :
        n ec.event ≡ m ec.event + (count ec.event (ec.event ∷ []) + refs ec.event cs)
        → 0 < n ec.event
    held_now h = ground (arith, ==_refl ec.event)
