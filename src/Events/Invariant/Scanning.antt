-- ===== src/Events/Invariant/Scanning.antt =====
-- What __check_for_group finds and what it drops.
use dazukofs_linux.Base.{
  ℕ, ◌<◌, ◌≡◌, refl, Bool, true, false, List, [], ◌∷◌, arith, ◌==◌, count, Bool-cases, inl, inr,
  text_eq,
}
use dazukofs_linux.Events.State.{Group}
use dazukofs_linux.Events.Groups.{
  Scan, Verdict, exists, taken, free, check_for_group, track_group, keep, discard,
}
use dazukofs_linux.Events.Pointers.{All}
use dazukofs_linux.Events.Invariant.Thinning.{
  active_ids, named, Thinned, Thinned-refl, Thinned-keep, Thinned-discard,
}
use dazukofs_linux.Events.Invariant.{Retired}

-- What a verdict says of the groups that were scanned.
abbrev pub Finds : List ℕ → ℕ → List Group → Verdict → Type 0
Finds name id gs Verdict.exists = 0 < named name gs
Finds name id gs Verdict.taken = 0 < count id (active_ids gs)
Finds name id gs Verdict.free = (named name gs ≡ 0) × (count id (active_ids gs) ≡ 0)

module _ (name : List ℕ) (id : ℕ) (track : Bool) where
  Finds-old :
      (g : Group) (gs : List Group) (r : Verdict)
      → g.deprecated ≡ true
      → Finds name id gs r
      → Finds name id (g ∷ gs) r
  Finds-old g gs r old f = ground arith

  Finds-other :
      (g : Group) (gs : List Group) (r : Verdict)
      → g.deprecated ≡ false
      → text_eq name g.name ≡ false
      → (g.group_id == id) ≡ false
      → Finds name id gs r
      → Finds name id (g ∷ gs) r
  unfolding count
  Finds-other g gs r plain differs elsewhere f = ground arith

  module _ (g : Group) (gs : List Group) where
    scan_unused :
        g.deprecated ≡ true
        → (g.use_count == 0) ≡ true
        → check_for_group name id track (g ∷ gs) ≡ discard g (check_for_group name id track gs)
    unfolding check_for_group
    scan_unused old unused = ground arith

    scan_used :
        g.deprecated ≡ true
        → (g.use_count == 0) ≡ false
        → check_for_group name id track (g ∷ gs) ≡ keep g (check_for_group name id track gs)
    unfolding check_for_group
    scan_used old used = ground arith

    scan_same :
        g.deprecated ≡ false
        → text_eq name g.name ≡ true
        → check_for_group name id track (g ∷ gs)
          ≡ record { groups = track_group track g ∷ gs; freed = []; verdict = exists }
    unfolding check_for_group
    scan_same new same = ground arith

    scan_hit :
        g.deprecated ≡ false
        → text_eq name g.name ≡ false
        → (g.group_id == id) ≡ true
        → check_for_group name id track (g ∷ gs)
          ≡ record { groups = g ∷ gs; freed = []; verdict = taken }
    unfolding check_for_group
    scan_hit new differs hit = ground arith

    scan_other :
        g.deprecated ≡ false
        → text_eq name g.name ≡ false
        → (g.group_id == id) ≡ false
        → check_for_group name id track (g ∷ gs) ≡ keep g (check_for_group name id track gs)
    unfolding check_for_group
    scan_other new differs elsewhere = ground arith

  abbrev Scanned : List Group → Scan → Type 0
  Scanned gs r = Thinned gs r.groups × Finds name id gs r.verdict

  Scanned-hit :
      (g : Group) (gs : List Group)
      → g.deprecated ≡ false
      → (g.group_id == id) ≡ true
      → Finds name id (g ∷ gs) taken
  unfolding count
  Scanned-hit g gs new hit = ground arith

  -- The scan drops retired groups only, and its verdict is right.
  pub check_for_group-Scanned :
      (gs : List Group) → All Retired gs → Scanned gs (check_for_group name id track gs)
  check_for_group-Scanned [] r = unfold check_for_group count in (Thinned-refl [] tt, (refl, refl))
  check_for_group-Scanned (g ∷ gs) r =
      let (t, f) = check_for_group-Scanned gs r.1 in
      elim (Bool-cases g.deprecated) [
        | inl old ↦ elim (Bool-cases (g.use_count == 0)) [
          | inl unused ↦
              rw (scan_unused g gs old unused)
                (Thinned-discard g gs _ old r.0 t, Finds-old g gs _ old f)
          | inr used ↦ rw (scan_used g gs old used) (
            Thinned-keep g g gs _ (refl, refl, refl, refl, refl, refl) r.0 t,
            Finds-old g gs _ old f,
          )
        ]
        | inr new ↦ elim (Bool-cases (text_eq name g.name)) [
          | inl same ↦ rw (scan_same g gs new same) (
            Thinned-keep g (track_group track g) gs gs (refl, refl, refl, refl, refl, refl) r.0
                (Thinned-refl gs r.1),
            ground arith,
          )
          | inr differs ↦ elim (Bool-cases (g.group_id == id)) [
            | inl hit ↦
                rw (scan_hit g gs new differs hit)
                  (Thinned-refl (g ∷ gs) r, Scanned-hit g gs new hit)
            | inr elsewhere ↦ rw (scan_other g gs new differs elsewhere) (
              Thinned-keep g g gs _ (refl, refl, refl, refl, refl, refl) r.0 t,
              Finds-other g gs _ new differs elsewhere f,
            )
          ]
        ]
      ]

-- Dropping retired groups changes no verdict.
pub Finds-Thinned :
    (name : List ℕ) (id : ℕ) (gs hs : List Group) (r : Verdict)
    → Thinned gs hs
    → Finds name id hs r
    → Finds name id gs r
Finds-Thinned name id gs hs exists t f = omega (arith, t.same_names name)
Finds-Thinned name id gs hs taken t f = rw t.same_ids at f
Finds-Thinned name id gs hs free t f = (omega (arith, t.same_names name), rw t.same_ids at (f.1))
