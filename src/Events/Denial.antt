-- ===== src/Events/Denial.antt =====
-- A denial lasts: once an event has been denied, every access that waits for it is denied, whatever
-- the processes do in the meantime.
use dazukofs_linux.Base.{
  ℕ, ◌<◌, ◌≡◌, refl, ap, ◌⊎◌, inl, inr, Bool, true, ◌||◌, none, some, arith, count,
}
use dazukofs_linux.Events.State.{State, err, eperm}
use dazukofs_linux.Events.Release.{event_assigned}
use dazukofs_linux.Events.Access.{finish_access}
use dazukofs_linux.Events.Phase.{Phase, absent, pending, phase}
use dazukofs_linux.Events.System.{System, Reach, here, next, start}
use dazukofs_linux.Events.Invariant.{Inv}
use dazukofs_linux.Events.Invariant.Steps.{reachable-Inv, Reach-Inv}
use dazukofs_linux.Events.Invariant.Access.{finish-Inv}
use dazukofs_linux.Events.Refinement.{Move, stay, allocated, posted, answered, withdrawn, finished}
use dazukofs_linux.Events.Refinement.Steps.{Step-Move}

-- Pending and denied.
abbrev pub Denied : Phase → Type 0
Denied absent = ⊥
Denied (pending n d) = d ≡ true

-- A move from a denied access keeps the denial or ends the access.
Move-Denied : (p q : Phase) → Move p q → Denied p → Denied q ⊎ ((p ≡ pending 0 true) × (q ≡ absent))
Move-Denied p q stay h = inl h
Move-Denied p q (posted {d} n few) h = inl h
Move-Denied p q (answered {n} {d} deny) h = inl (either deny d h)
  where
    either : (a b : Bool) → b ≡ true → (a || b) ≡ true
    either a b h = ground arith
Move-Denied p q (withdrawn {m} {n} {d} less) h = inl h
Move-Denied p q (finished {d}) h = inr (ap (pending 0) h, refl)
Move-Denied p q allocated h = absurd h

-- The access of the event at `a` has not ended on the way.
abbrev pub Ongoing : {y z : System} → ℕ → Reach y z → Type 0
Ongoing a here = Unit
Ongoing a (next {z} {w} r st) = Ongoing a r × ((phase a w.state ≡ absent) → ⊥)

Reach-Denied :
    {y z : System} (a : ℕ) (r : Reach y z)
    → Inv y
    → Ongoing a r
    → Denied (phase a y.state)
    → Denied (phase a z.state)
Reach-Denied a here v on h = h
Reach-Denied a (next {z} {w} r st) v on h =
    elim (Move-Denied (phase a z.state) (phase a w.state) (Step-Move a (Reach-Inv v r) st)
      (Reach-Denied a r v on.0 h)) [ inl still ↦ still | inr ended ↦ absurd (on.1 ended.1) ]

-- Between two reachable states, the second of which is reached while the access of an event has not
-- ended: if the event was denied in the first, and no answer is missing in the second, an access
-- that waits for it then ends with -EPERM.
pub denial_lasts :
    {y z : System} (a : ℕ) (r : Reach y z)
    → Reach start y
    → Ongoing a r
    → Denied (phase a y.state)
    → 0 < count a z.waiting
    → event_assigned a z.state ≡ some 0
    → (s : State) × (finish_access a z.state ≡ some (err eperm, s)) × (s.events a ≡ none)
denial_lasts {y} {z} a r reach on h waited idle =
    let v = reachable-Inv reach in
    let (e, s, live, eq, gone, w) = finish-Inv z (Reach-Inv v r) a waited idle in
    let still : Denied (phase a z.state) = Reach-Denied a r v on h in
    let marked : e.deny ≡ true = rw live at still in (s, rw marked at eq, gone)
