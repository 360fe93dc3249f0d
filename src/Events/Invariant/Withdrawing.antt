-- ===== src/Events/Invariant/Withdrawing.antt =====
-- What removing a group, by name or with its last tracked process, does to the accesses.
use mathlib.Core.Path.{subst}
use dazukofs_linux.Base.{
  ℕ, ◌≡◌, refl, sym, ◌∙◌, false, Option, none, some, List, arith, ◌==◌, Bool-cases, inl, inr, dec32,
}
use dazukofs_linux.Events.State.{Group, State, Ret, >>=-eq-some, find_address, modify}
use dazukofs_linux.Events.Serve.{
  dazukofs_group_release_tracking, release_found, close_track, find_active,
}
use dazukofs_linux.Events.Groups.{dazukofs_remove_group, find_named, remove_found}
use dazukofs_linux.Events.Release.{remove_group}
use dazukofs_linux.Events.Phase.{phase, Fewer, Fewer-refl}
use dazukofs_linux.Events.Pointers.{
  find_address-modify_group, find_active-find_address, find_active_lem, find_named-find_address,
  find_named_lem,
}
use dazukofs_linux.Events.System.{System}
use dazukofs_linux.Events.Invariant.{Inv}
use dazukofs_linux.Events.Registry.{Shrinks, Shrinks-refl, Shrinks-trans, Shrinks-modify}
use dazukofs_linux.Events.Invariant.Removal.{
  emptied, remove_group-Inv, closed_system, closed-Inv, last_closed-Inv, release_found-last,
}

-- At every address answers have been withdrawn at most, and no active group is new.
abbrev pub Withdraws : State → State → Type 0
Withdraws s s' = ((b : ℕ) → Fewer (phase b s) (phase b s')) × Shrinks s.group_list s'.group_list

Withdraws-refl : (s : State) → Withdraws s s
Withdraws-refl s = ((λ b. Fewer-refl (phase b s)), Shrinks-refl s.group_list)

some_inj : {A : Type 0} {x y : A} → some x ≡ some y → x ≡ y
some_inj h = cc

module _ (y : System) (v : Inv y) where
  remove_group-Withdraws :
      (g : Group) (s : State)
      → find_address g.address y.group_list ≡ some g
      → g.deprecated ≡ false
      → remove_group g y.state ≡ some s
      → Withdraws y.state s
  remove_group-Withdraws g s here plain e =
      let (s1, e1, w, groups, less) = remove_group-Inv y v g here plain in
      let same : s1 ≡ s = ground arith in
      subst (Withdraws y.state) same (
        less,
        subst (Shrinks y.group_list) (sym groups)
            (Shrinks-modify g.address emptied y.group_list (λ g. (refl, refl, λ h. refl))),
      )

  remove_found-Withdraws :
      (name : List ℕ) (o : Option Group) (s : State)
      → find_named name y.group_list ≡ o
      → remove_found o y.state ≡ some s
      → Withdraws y.state s
  unfolding remove_found
  remove_found-Withdraws name none s here e =
      let same : y.state ≡ s = ground arith in
      subst (Withdraws y.state) same (Withdraws-refl y.state)
  remove_found-Withdraws name (some g) s here e =
      remove_group-Withdraws g s (find_named-find_address name g y.group_list v.placed here)
        (find_named_lem name g y.group_list here).0 e

  -- A removal by name withdraws answers, and changes no access otherwise.
  pub dazukofs_remove_group-Withdraws :
      (name : List ℕ) (r : Ret) (s : State)
      → dazukofs_remove_group name y.state ≡ some (r, s)
      → Withdraws y.state s
  unfolding dazukofs_remove_group
  dazukofs_remove_group-Withdraws name r s e = elim (Bool-cases (y.group_count == 0)) [
    | inl none_there ↦
        (let e1 = rw none_there at e in
          let same : y.state ≡ s = ground arith in
          subst (Withdraws y.state) same (Withdraws-refl y.state))
    | inr some_there ↦
        (let (s1, e1, e2) =
            >>=-eq-some (remove_found (find_named name y.group_list) y.state) _
              (rw some_there at e) in
          let same : s1 ≡ s = ground arith in
          subst (Withdraws y.state) same
            (remove_found-Withdraws name (find_named name y.group_list) s1 refl e1))
  ]

module _ (y : System) (v : Inv y) (gid : ℕ) where
  closed : (g : Group) → Withdraws y.state (modify g.address close_track y.state)
  unfolding modify
  closed g = (
    (λ b. Fewer-refl (phase b y.state)),
    Shrinks-modify g.address close_track y.group_list (λ g. (refl, refl, λ h. h)),
  )

  last_closed-Withdraws :
      (g : Group) (s : State)
      → find_active gid y.group_list ≡ some g
      → remove_group (close_track g) (modify g.address close_track y.state) ≡ some s
      → Withdraws y.state s
  unfolding closed_system modify
  last_closed-Withdraws g s here e =
      let (less, shrinks) =
        remove_group-Withdraws (closed_system y v g) (closed-Inv y v g) (close_track g) s
          (find_address-modify_group g.address close_track g y.group_list (λ g. refl)
            (find_active-find_address gid g y.group_list v.placed here))
          (find_active_lem gid g y.group_list here).0 e in
      (less, Shrinks-trans _ _ _ (closed g).1 shrinks)

  release_found-Withdraws :
      (o : Option Group) (s : State)
      → find_active gid y.group_list ≡ o
      → release_found o y.state ≡ some s
      → Withdraws y.state s
  unfolding release_found
  release_found-Withdraws none s here e =
      let same : y.state ≡ s = ground arith in
      subst (Withdraws y.state) same (Withdraws-refl y.state)
  release_found-Withdraws (some g) s here e = elim (Bool-cases g.tracking) [
    | inr off ↦
        (let e1 = rw off at e in
          let same : y.state ≡ s = ground arith in
          subst (Withdraws y.state) same (Withdraws-refl y.state))
    | inl on ↦ elim (Bool-cases (dec32 g.track_count == 0)) [
      | inr more ↦
          (let e1 = rw (on, more) at e in
            let same : modify g.address close_track y.state ≡ s = ground arith in
            subst (Withdraws y.state) same (closed g))
      | inl last ↦
          (let (s1, e1, w) = last_closed-Inv y v gid g here in
            let e2 = release_found-last g y.state s1 on last e1 in
            let same : s1 ≡ s = some_inj (sym e2 ∙ e) in
            subst (Withdraws y.state) same (last_closed-Withdraws g s1 here e1))
    ]
  ]

  -- The close of a tracked device withdraws answers at most.
  pub dazukofs_group_release_tracking-Withdraws :
      (s : State) → dazukofs_group_release_tracking gid y.state ≡ some s → Withdraws y.state s
  unfolding dazukofs_group_release_tracking
  dazukofs_group_release_tracking-Withdraws s e =
      release_found-Withdraws (find_active gid y.group_list) s refl e
