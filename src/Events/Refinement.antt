-- ===== src/Events/Refinement.antt =====
-- The specification of an access as a transition system of its own, and the writes of an event as
-- its moves.
pub mod Steps
use mathlib.Core.Path.{subst}
use dazukofs_linux.Base.{
  ℕ, zero, suc, ◌≤◌, ◌<◌, ◌≡◌, refl, sym, inl, inr, Bool, true, false, ◌||◌, Option, none, some,
  List, ◌∷◌, arith, ◌==◌, if◌then◌else◌, Bool-cases, ==_iff, ==_refl, count, dec32, dec32_lem,
}
use dazukofs_linux.Events.State.{Event, State, Ret, max_groups, ◌>>=◌, update, emit, modify}
use dazukofs_linux.Events.Release.{release_assigned, mark_deny, event_assigned, drop_event}
use dazukofs_linux.Events.Access.{
  post_event, finish_access, check_recursion, check_access_precheck, waits, zeroed,
  allocate_event_and_containers,
}
use dazukofs_linux.Events.Serve.{
  settle_event, found, is_deny, is_repost, unhold, dazukofs_group_open_tracking,
}
use dazukofs_linux.Events.Phase.{
  Phase, absent, pending, phase, phase_of, Fewer, release_assigned-phase,
}
use dazukofs_linux.Events.System.{System, Step, Prepared, Answer}
use dazukofs_linux.Events.Invariant.{Inv}
use dazukofs_linux.Events.Invariant.Steps.{reachable-Inv}
use dazukofs_linux.Events.Invariant.Small.{
  check_recursion-SameEvents, check_access_precheck-SameEvents, allocate_failed,
}
use dazukofs_linux.Events.Invariant.Access.{
  finish_access-eq, prepared_live, prepared_zero, prepared_free,
}
use dazukofs_linux.Events.Invariant.Withdrawing.{
  dazukofs_remove_group-Withdraws, dazukofs_group_release_tracking-Withdraws,
}
use dazukofs_linux.Events.Quiet.{take-events, claim-events, unclaim-events, open_tracking-events}
use dazukofs_linux.Events.Invariant.Small.{alloc_result-some}
use dazukofs_linux.Events.Invariant.Posting.{post_event-Assigned}
use dazukofs_linux.Events.System.{
  recurse, mask, refuse, starve, prepare, post, turn_preparing, turn_releasing, finish, take,
  settle, unclaim, claim, enter, leave, choose, link, remove, open_device, close_device, Reach,
  start,
}
use dazukofs_linux.Events.Access.{mask_proc}
use dazukofs_linux.Events.Invariant.{active, holders}
use dazukofs_linux.Events.Invariant.Access.{waiting_live}
use dazukofs_linux.Events.Tally.{Tally, live_of_held, release_event-eq}

-- What may happen to it in one step.
pub data Move : Phase → Phase → Type 0 where
  stay : {p : Phase} → Move p p
  allocated : Move absent (pending 0 false)
  posted : {d : Bool} (n : ℕ) → n ≤ max_groups → Move (pending 0 d) (pending n d)
  answered : {n : ℕ} {d : Bool} (deny : Bool) → Move (pending (suc n) d) (pending n (deny || d))
  withdrawn : {m n : ℕ} {d : Bool} → m ≤ n → Move (pending n d) (pending m d)
  finished : {d : Bool} → Move (pending 0 d) absent

pub Fewer-Move : (p q : Phase) → Fewer p q → Move p q
Fewer-Move absent absent f = stay
Fewer-Move absent (pending m d) f = absurd f
Fewer-Move (pending n d) absent f = absurd f
Fewer-Move (pending n d) (pending m c) (less, same) = rw same (withdrawn less)

-- Steps that leave the events alone.
pub unchanged : (a : ℕ) (s t : State) → t.events ≡ s.events → Move (phase a s) (phase a t)
unchanged a s t e = subst (λ p. Move (phase a s) (phase_of (p a))) (sym e) stay

pub allocated-Move :
    (a b : ℕ) (s t : State)
    → s.events a ≡ none
    → t.events ≡ update s.events a (some zeroed)
    → Move (phase b s) (phase b t)
allocated-Move a b s t unused stored =
    subst (λ f. Move (phase b s) (phase_of (f b))) (sym stored)
      (elim (Bool-cases (a == b)) [
        | inl here ↦ rw (here, ← (==_iff a b).0 here, unused) allocated
        | inr away ↦ rw away stay
      ])

pub posted-Move :
    (a b n : ℕ) (e f : Event) (s t : State)
    → s.events a ≡ some e
    → e.assigned ≡ 0
    → n ≤ max_groups
    → f.assigned ≡ n
    → f.deny ≡ e.deny
    → t.events b ≡ update s.events a (some f) b
    → Move (phase b s) (phase b t)
posted-Move a b n e f s t live idle few number mark stored =
    subst (λ o. Move (phase b s) (phase_of o)) (sym stored)
      (elim (Bool-cases (a == b)) [
        | inl here ↦ rw (here, ← (==_iff a b).0 here, live, idle, number, mark) (posted n few)
        | inr away ↦ rw away stay
      ])

pub finished-Move :
    (a b : ℕ) (e : Event) (s t : State)
    → s.events a ≡ some e
    → e.assigned ≡ 0
    → t.events ≡ update s.events a none
    → Move (phase b s) (phase b t)
finished-Move a b e s t live idle dropped =
    subst (λ f. Move (phase b s) (phase_of (f b))) (sym dropped)
      (elim (Bool-cases (a == b)) [
        | inl here ↦ rw (here, ← (==_iff a b).0 here, live, idle) finished
        | inr away ↦ rw away stay
      ])

pub answered-Move :
    (a b n : ℕ) (deny : Bool) (e : Event) (s : State)
    → s.events a ≡ some e
    → e.deprecated ≡ false
    → e.assigned ≡ suc n
    → n < max_groups
    → Move (phase b s) (phase b (release_assigned a (mark_deny deny e) s))
answered-Move a b n deny e s live plain number small =
    rw (release_assigned-phase a b deny s e live plain) (elim (Bool-cases (a == b)) [
      | inl here ↦ rw (here, ← (==_iff a b).0 here, live, number, dec) (at_event deny e.deny)
      | inr away ↦ rw away stay
    ])
  where
    dec : dec32 (suc n) ≡ n
    dec = omega (arith, dec32_lem (suc n))

    at_event : (deny d : Bool) → Move (pending (suc n) d) (pending n (if deny then true else d))
    at_event true d = answered true
    at_event false d = answered false
