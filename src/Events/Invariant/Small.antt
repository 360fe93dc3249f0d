-- ===== src/Events/Invariant/Small.antt =====
-- The steps that allocate, mask or reorder keep the memory invariant.
use dazukofs_linux.Base.{
  ℕ, zero, suc, ◌≡◌, refl, Bool, Option, none, some, List, [], ◌∷◌, ◌++◌, arith, length, count,
  count-append, Option-cases, inl, inr, ap, ◌⊎◌,
}
use dazukofs_linux.Events.State.{Group, State, emit_all, update}
use dazukofs_linux.Events.Access.{
  check_recursion, check_access_precheck, alloc_containers, add_container, alloc_result,
  allocate_event_and_containers, zeroed,
}
use dazukofs_linux.Events.System.{
  Prepared, Answer, System, prepared_events, released_events, with_state,
}
use dazukofs_linux.Events.Invariant.{AllReady, AllReady-mono, Inv}

-- Two states that differ in the list of masked processes and the trace at most.
abbrev pub SameEvents : State → State → Type 0
SameEvents s s' =
    (s'.events ≡ s.events) × (s'.group_count ≡ s.group_count) × (s'.group_list ≡ s.group_list)

pub SameEvents-Inv : (y : System) (s : State) → Inv y → SameEvents y.state s → Inv (with_state s y)
SameEvents-Inv y s v (events, number, groups) = record {
  tallied = λ b. rw (events, groups) (v.tallied b);
  placed = rw groups v.placed;
  retired = rw groups v.retired;
  counted = rw (number, groups) v.counted;
  few = rw groups v.few;
  ready = rw groups v.ready;
}

pub check_recursion-SameEvents : (pid : ℕ) (s : State) → SameEvents s (check_recursion pid s).1
unfolding check_recursion emit_all
check_recursion-SameEvents pid s = ground arith

pub check_access_precheck-SameEvents :
    (n pid : ℕ) (ignored : Bool) (s : State)
    → SameEvents s (check_access_precheck n pid ignored s).1
unfolding check_access_precheck
check_access_precheck-SameEvents n pid ignored s = ground (arith, check_recursion-SameEvents pid s)

add_container-length :
    (c n : ℕ) (cs : List ℕ) (r : List ℕ ⊎ List ℕ)
    → ((ds : List ℕ) → r ≡ inr ds → length ds ≡ n)
    → add_container c r ≡ inr cs
    → length cs ≡ suc n
add_container-length c n cs (inl ds) h e = cc
add_container-length c n cs (inr ds) h e = ground (arith, h ds)

-- A success has as many containers as there were groups.
length-alloc_containers :
    (mem : ℕ → Option ℕ) (i left : ℕ) (cs : List ℕ)
    → alloc_containers mem i left ≡ inr cs
    → length cs ≡ left
unfolding alloc_containers
length-alloc_containers mem i zero cs e = ground arith
length-alloc_containers mem i (suc left) cs e = elim (Option-cases (mem i)) [
  | inl full ↦ (let e1 = rw (full, alloc_containers) at e in cc)
  | inr (c, got) ↦
      add_container-length c left cs (alloc_containers mem (suc i) left)
        (λ ds h. length-alloc_containers mem (suc i) left ds h) (rw (got, alloc_containers) at e)
]

alloc_result-none :
    (a : ℕ) (s s' : State) (r : List ℕ ⊎ List ℕ) → alloc_result a s r ≡ (none, s') → SameEvents s s'
unfolding alloc_result
alloc_result-none a s s' (inl cs) e = ground arith
alloc_result-none a s s' (inr cs) e = absurd (ground arith)

pub allocate_failed :
    (mem : ℕ → Option ℕ) (n : ℕ) (s : State) (evt_mem : Option ℕ) (s' : State)
    → allocate_event_and_containers evt_mem mem n s ≡ (none, s')
    → SameEvents s s'
unfolding allocate_event_and_containers
allocate_failed mem n s none s' e = ground arith
allocate_failed mem n s (some a) s' e = alloc_result-none a s s' (alloc_containers mem 0 n) e

pub alloc_result-some :
    (a : ℕ) (s s' : State) (cs : List ℕ) (r : List ℕ ⊎ List ℕ)
    → alloc_result a s r ≡ (some (a, cs), s')
    → (r ≡ inr cs)
      × (s'.events ≡ update s.events a (some zeroed))
      × (s'.group_count ≡ s.group_count)
      × (s'.group_list ≡ s.group_list)
unfolding alloc_result
alloc_result-some a s s' cs (inl ds) e = absurd (ground arith)
alloc_result-some a s s' cs (inr ds) e = ground arith

module _ (y : System) (v : Inv y) where
  -- A prepared event is new, held by nobody, and has a container for each group.
  pub prepare-Inv :
      (s : State) (p : Prepared) (mem : ℕ → Option ℕ)
      → y.events p.event ≡ none
      → allocate_event_and_containers (some p.event) mem y.group_count y.state
        ≡ (some (p.event, p.containers), s)
      → Inv (record y { state = s; preparing = p ∷ y.preparing })
  unfolding allocate_event_and_containers count
  prepare-Inv s p mem unused e =
      let (r, events, number, groups) = alloc_result-some p.event y.state s p.containers _ e in
      let size = length-alloc_containers mem 0 y.group_count p.containers r in
      record {
        tallied = λ b. rw (events, groups) (ground (arith, v.tallied b, v.tallied p.event));
        placed = rw groups v.placed;
        retired = rw groups v.retired;
        counted = rw (number, groups) v.counted;
        few = rw groups v.few;
        ready = (
          rw groups (ground (arith, v.tallied p.event), omega (arith, size, v.counted)),
          AllReady-mono y.group_list s.group_list (released_events y.releasing)
              (released_events y.releasing) y.preparing (λ a. rw groups (omega arith))
              (rw groups (omega arith)) v.ready,
        );
      }

count-rotate : (a b : ℕ) (xs : List ℕ) → count a (xs ++ b ∷ []) ≡ count a (b ∷ xs)
unfolding count
count-rotate a b xs = ground (arith, count-append a xs (b ∷ []))

prepared_events-append :
    (p : Prepared) (ps : List Prepared)
    → prepared_events (ps ++ p ∷ []) ≡ prepared_events ps ++ p.event ∷ []
prepared_events-append p [] = refl
prepared_events-append p (q ∷ ps) = ap (◌∷◌ q.event) (prepared_events-append p ps)

released_events-append :
    (r : Answer) (rs : List Answer)
    → released_events (rs ++ r ∷ []) ≡ released_events rs ++ r.container.event ∷ []
released_events-append r [] = refl
released_events-append r (q ∷ rs) = ap (◌∷◌ q.container.event) (released_events-append r rs)

AllReady-rotate :
    (gs : List Group) (rs : List ℕ) (p : Prepared) (ps : List Prepared)
    → AllReady gs rs (p ∷ ps)
    → AllReady gs rs (ps ++ p ∷ [])
AllReady-rotate gs rs p [] r = r
AllReady-rotate gs rs p (q ∷ ps) r = (r.1.0, AllReady-rotate gs rs p ps (r.0, r.1.1))

pub turn_preparing-Inv :
    (y : System) (p : Prepared) (ps : List Prepared)
    → Inv y
    → y.preparing ≡ p ∷ ps
    → Inv (record y { preparing = ps ++ p ∷ [] })
turn_preparing-Inv y p ps v e = record {
  tallied = λ b.
      rw (prepared_events-append p ps, count-rotate b p.event (prepared_events ps))
        (rw e at (v.tallied b));
  placed = v.placed;
  retired = v.retired;
  counted = v.counted;
  few = v.few;
  ready = AllReady-rotate _ _ p ps (rw e at v.ready);
}

pub turn_releasing-Inv :
    (y : System) (r : Answer) (rs : List Answer)
    → Inv y
    → y.releasing ≡ r ∷ rs
    → Inv (record y { releasing = rs ++ r ∷ [] })
turn_releasing-Inv y r rs v e =
    let same : (b : ℕ)
        → count b (released_events (rs ++ r ∷ [])) ≡ count b (released_events y.releasing) =
      λ b.
        rw
          (released_events-append r rs, count-rotate b r.container.event (released_events rs), e) in
    record {
      tallied = λ b. rw (same b) (v.tallied b);
      placed = v.placed;
      retired = v.retired;
      counted = v.counted;
      few = v.few;
      ready =
          AllReady-mono y.group_list y.group_list (released_events y.releasing)
            (released_events (rs ++ r ∷ [])) y.preparing (λ b. omega (arith, same b)) (omega arith)
            v.ready;
    }
