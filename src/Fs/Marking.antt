-- ===== src/Fs/Marking.antt =====
-- mark_pages_outdated of file.c: which pages it marks, and which references it keeps.
use dazukofs_linux.Base.{
  ℕ, zero, suc, ◌+◌, ◌-◌, ◌/◌, ◌≤◌, ◌<◌, ◌≡◌, refl, sym, ◌∙◌, true, false, Option, none, some, ◌==◌,
  inl, inr, Bool-cases, ==_refl, arith,
}
use dazukofs_linux.Events.State.{update}
use dazukofs_linux.Fs.Kernel.{Kernel}
use dazukofs_linux.Fs.State.{Ref, Fs, Page, page_ref}
use dazukofs_linux.Fs.Attributes.{page_size}
use dazukofs_linux.Fs.Files.{mark_pages, mark_found, mark_pages_outdated}
use dazukofs_linux.Fs.Balance.{Net, nothing, one, Returns, Ensures-map, Returns-bind, Returns-if}

-- A reference to the page that is found, if there is one.
abbrev pub found_ref : Option ℕ → Ref → ℕ
found_ref none r = 0
found_ref (some p) r = one (page_ref p) r

cleared :
    (f : ℕ → Page) (p q : ℕ)
    → (f q).uptodate ≡ false
    → (update f p (record (f p) { uptodate = false }) q).uptodate ≡ false
cleared f p q h = elim (Bool-cases (p == q)) [ inl e ↦ rw e refl | inr e ↦ rw e h ]

module _ {k : Kernel} where
  -- A reference to each page that the cache has among the `n` from `i` on.
  abbrev pub found_refs : (inode n i : ℕ) → Fs k → Ref → ℕ
  found_refs inode zero i s r = 0
  found_refs inode (suc n) i s r = found_ref (s.page_at inode i) r + found_refs inode n (i + 1) s r

  -- The cache of pages is the same, and a page that is not uptodate stays so.
  abbrev pub Marks : (inode n i : ℕ) → Fs k → Fs k → Type 0
  Marks inode n i s s' =
      (s'.page_at ≡ s.page_at)
      × ((p : ℕ) → (s.pages p).uptodate ≡ false → (s'.pages p).uptodate ≡ false)
      × ((j p : ℕ) → i ≤ j → j < i + n → s.page_at inode j ≡ some p → (s'.pages p).uptodate ≡ false)
      × Net (found_refs inode n i s) nothing s.trace s'.trace

  found_refs-cong :
      (inode n i : ℕ) (s s' : Fs k) (r : Ref)
      → s'.page_at ≡ s.page_at
      → found_refs inode n i s' r ≡ found_refs inode n i s r
  found_refs-cong inode zero i s s' r e = refl
  found_refs-cong inode (suc n) i s s' r e = rw (found_refs-cong inode n (i + 1) s s' r e, e) refl

  mark_found-marks :
      (o : Option ℕ) (s : Fs k)
      → Returns (mark_found o) s (λ _ s'.
        (s'.page_at ≡ s.page_at)
        × ((p : ℕ) → (s.pages p).uptodate ≡ false → (s'.pages p).uptodate ≡ false)
        × ((p : ℕ) → o ≡ some p → (s'.pages p).uptodate ≡ false)
        × Net (found_ref o) nothing s.trace s'.trace)
  mark_found-marks none s = (refl, (λ p h. h), (λ p e. cc), λ r. omega arith)
  mark_found-marks (some q) s = (refl, cleared s.pages q, (λ p e. at_page p e), λ r. omega arith)
    where
      at_page :
          (p : ℕ)
          → some q ≡ some p
          → (update s.pages q (record (s.pages q) { uptodate = false }) p).uptodate ≡ false
      at_page p e = let same : q ≡ p = cc in rw (sym same, ==_refl q) refl

  mark_pages-Marks :
      (inode n i : ℕ) (s : Fs k) → Returns (mark_pages inode n i) s (λ _ s'. Marks inode n i s s')
  unfolding mark_pages
  mark_pages-Marks inode zero i s =
      (refl, (λ p h. h), (λ j p lo hi e. absurd (omega arith)), λ r. omega arith)
  mark_pages-Marks inode (suc n) i s =
      Returns-bind (mark_found (s.page_at inode i)) _ s _ (λ _ s'. Marks inode (suc n) i s s')
        (mark_found-marks (s.page_at inode i) s)
        (λ _ s1 first.
          Ensures-map (mark_pages inode n (i + 1) s1) _ _
            (λ _ s' rest. (
              rest.0 ∙ first.0,
              (λ p h. rest.1 p (first.1 p h)),
              (λ j p lo hi e. elim (Bool-cases (i == j)) [
                | inl here ↦ rest.1 p (first.2 p (rw (same i j here) e))
                | inr away ↦ rest.2 j p (later i j lo away) (omega arith) (rw first.0 e)
              ]),
              λ r.
                  omega
                    (arith, first.3 r, rest.3 r, found_refs-cong inode n (i + 1) s s1 r first.0),
            ))
            (mark_pages-Marks inode n (i + 1) s1))
    where
      same : (i j : ℕ) → (i == j) ≡ true → i ≡ j
      same i j h = ground arith

      later : (i j : ℕ) → i ≤ j → (i == j) ≡ false → i + 1 ≤ j
      later i j lo h = ground arith

  -- After a write of `count` bytes at `pos`, each cached page that holds one of them is not
  -- uptodate.
  pub mark_pages_outdated-marks :
      (inode count pos : ℕ) (s : Fs k)
      → Returns (mark_pages_outdated inode count pos) s (λ _ s'.
        (b p : ℕ)
        → pos ≤ b
        → b < pos + count
        → s.page_at inode (b / page_size) ≡ some p
        → (s'.pages p).uptodate ≡ false)
  unfolding mark_pages_outdated
  mark_pages_outdated-marks inode count pos s =
      Returns-if (count == 0) _ _ s _ (λ z b p lo hi e. absurd (empty b z lo hi))
        (λ _.
          Ensures-map (mark_pages inode ((pos + count) / 4096 + 1 - pos / 4096) (pos / 4096) s) _ _
            (λ _ s' h b p lo hi e. h.2 (b / 4096) p (omega arith) (omega arith) e)
            (mark_pages-Marks inode ((pos + count) / 4096 + 1 - pos / 4096) (pos / 4096) s))
    where
      empty : (b : ℕ) → (count == 0) ≡ true → pos ≤ b → b < pos + count → ⊥
      empty b z lo hi = ground arith

  -- A call for at least one byte keeps a reference to each cached page from the first to the last.
  pub mark_pages_outdated-keeps :
      (inode count pos : ℕ) (s : Fs k)
      → 0 < count
      → Returns (mark_pages_outdated inode count pos) s (λ _ s'.
        Net
          (found_refs inode ((pos + count) / page_size + 1 - pos / page_size) (pos / page_size) s)
          nothing
          s.trace
          s'.trace)
  unfolding mark_pages_outdated
  mark_pages_outdated-keeps inode count pos s some_bytes =
      Returns-if (count == 0) _ _ s _ (λ z. absurd (none_left z))
        (λ _.
          Ensures-map (mark_pages inode ((pos + count) / 4096 + 1 - pos / 4096) (pos / 4096) s) _ _
            (λ _ s' h. h.3)
            (mark_pages-Marks inode ((pos + count) / 4096 + 1 - pos / 4096) (pos / 4096) s))
    where
      none_left : (count == 0) ≡ true → ⊥
      none_left z = ground arith
