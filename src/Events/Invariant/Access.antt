-- ===== src/Events/Invariant/Access.antt =====
-- The accessing side keeps the memory invariant, and never faults.
use dazukofs_linux.Base.{
  ℕ, ◌+◌, ◌<◌, ◌≡◌, refl, Option, none, some, List, [], ◌∷◌, arith, ◌==◌, if◌then◌else◌, count,
  erase, count-erase_self, count-erase_ne,
}
use dazukofs_linux.Events.State.{Event, Group, State, ◌>>=◌, ok, err, eperm}
use dazukofs_linux.Events.Release.{release_event, release_anonymous, drop_event, event_assigned}
use dazukofs_linux.Events.Access.{post_event, finish_access, waits}
use dazukofs_linux.Events.Tally.{listed, Tally}
use dazukofs_linux.Events.System.{Prepared, System, prepared_events, released_events}
use dazukofs_linux.Events.Invariant.{active, AllReady, Inv}
use dazukofs_linux.Events.Invariant.Posting.{Assigned, post_event-Assigned}

-- An event that an access waits for, or prepares, is live.
live_of_waited : (o : Option Event) (n w : ℕ) → Tally o n w → 0 < w → (e : Event) × (o ≡ some e)
live_of_waited none n w t h = absurd (omega arith)
live_of_waited (some e) n w t h = (e, refl)

AllReady-post :
    (a : ℕ) (gs hs : List Group) (rs : List ℕ) (ps : List Prepared)
    → count a (prepared_events ps) ≡ 0
    → active hs ≡ active gs
    → ((b : ℕ) → listed b hs ≡ listed b gs + (if a == b then active gs else 0))
    → AllReady gs rs ps
    → AllReady hs rs ps
unfolding count
AllReady-post a gs hs rs [] other same more r = tt
AllReady-post a gs hs rs (p ∷ ps) other same more r =
    (ground (arith, more p.event), AllReady-post a gs hs rs ps (ground arith) same more r.1)

module _ (y : System) (v : Inv y) (p : Prepared) (ps : List Prepared)
    (next : y.preparing ≡ p ∷ ps) where
  pub prepared_live : (e : Event) × (y.events p.event ≡ some e)
  unfolding count
  prepared_live = live_of_waited _ _ _ (v.tallied p.event) (ground arith)

  pub prepared_free : AllReady y.group_list (released_events y.releasing) (p ∷ ps)
  prepared_free = rw next at v.ready

  prepared_once : count p.event (prepared_events ps) ≡ 0
  unfolding count
  prepared_once = ground (arith, v.tallied p.event, prepared_live)

  pub prepared_zero : (e : Event) → y.events p.event ≡ some e → e.assigned ≡ 0
  prepared_zero e live = ground (arith, v.tallied p.event, prepared_free)

  posted : State → System
  posted s = record y { state = s; preparing = ps; waiting = p.event ∷ y.waiting }

  Assigned-Inv :
      (e : Event) (s : State)
      → y.events p.event ≡ some e
      → Assigned p.event (record e { dentry = p.dentry; mnt = p.mnt; proc_id = p.pid }) y.state s
      → Inv (posted s)
  unfolding posted count
  Assigned-Inv e s live h = record {
    tallied = λ b. ground (
      arith,
      h.stored b,
      h.listed_more b,
      v.tallied b,
      v.few,
      prepared_free,
      prepared_zero e live,
      v.tallied p.event,
    );
    placed = rw h.same_addresses v.placed;
    retired = h.still_retired v.retired;
    counted = omega (arith, h.same_active, h.same_count, v.counted);
    few = omega (arith, h.same_active, v.few);
    ready =
        AllReady-post p.event y.group_list s.group_list _ ps prepared_once h.same_active
          h.listed_more prepared_free.1;
  }

  -- The posting of a prepared event never faults, and keeps the invariant.
  pub post-Inv :
      (s : State) × (post_event p.pid p.dentry p.mnt (some (p.event, p.containers)) y.state
        ≡ some (waits p.event, s))
      × Inv (record y { state = s; preparing = ps; waiting = p.event ∷ y.waiting })
  unfolding posted
  post-Inv =
      let (e, live) = prepared_live in
      let (s, eq, h) =
        post_event-Assigned p.pid p.dentry p.mnt p.event p.containers y.state e live
          (prepared_zero e live) v.few prepared_free.0.1 in
      (s, eq, Assigned-Inv e s live h)

-- The end of an access whose event nobody holds: the verdict, and a freed event.
pub finish_access-eq :
    (a : ℕ) (s : State) (e : Event)
    → s.events a ≡ some e
    → e.assigned ≡ 0
    → finish_access a s ≡ some (if e.deny then err eperm else ok 0, drop_event a e s)
unfolding finish_access release_event release_anonymous
finish_access-eq a s e live none_left = rw (live, ◌>>=◌) (ground arith)

module _ (y : System) (v : Inv y) (a : ℕ) (waited : 0 < count a y.waiting) where
  pub waiting_live : (e : Event) × (y.events a ≡ some e)
  waiting_live = live_of_waited _ _ _ (v.tallied a) (omega arith)

  drop-Inv :
      (e : Event)
      → y.events a ≡ some e
      → e.assigned ≡ 0
      → Inv (record y { state = drop_event a e y.state; waiting = erase a y.waiting })
  unfolding drop_event count
  drop-Inv e live none_left = record {
    tallied = λ b.
        ground
          (arith, v.tallied b, count-erase_self a y.waiting waited, count-erase_ne a b y.waiting);
    placed = v.placed;
    retired = v.retired;
    counted = v.counted;
    few = v.few;
    ready = v.ready;
  }

  -- An access whose event nobody holds any more ends without a fault: it is denied exactly if the
  -- event was marked, the event is freed and the invariant kept.
  pub finish-Inv :
      event_assigned a y.state ≡ some 0
      → (e : Event) × (s : State) × (y.events a ≡ some e)
        × (finish_access a y.state ≡ some (if e.deny then err eperm else ok 0, s))
        × (s.events a ≡ none)
        × Inv (record y { state = s; waiting = erase a y.waiting })
  unfolding event_assigned
  finish-Inv idle =
      let (e, live) = waiting_live in
      let none_left : e.assigned ≡ 0 = ground arith in
      (
        e,
        drop_event a e y.state,
        live,
        finish_access-eq a y.state e live none_left,
        (unfold drop_event in ground arith),
        drop-Inv e live none_left,
      )
