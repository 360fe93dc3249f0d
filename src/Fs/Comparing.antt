-- ===== src/Fs/Comparing.antt =====
-- dazukofs_d_compare of dentry.c, against equality of names.
use dazukofs_linux.Base.{
  ℕ, ◌≡◌, refl, sym, ap, ◌∙◌, ◌↔◌, Bool, true, false, not, ◌||◌, List, [], ◌∷◌, ◌==◌, if◌then◌else◌,
  length, text_eq, text_eq_sound, text_eq_refl, arith,
}
use dazukofs_linux.Fs.Lookup.{memcmp, dazukofs_d_compare}

compare-text_eq : (s t : List ℕ) → (not (length s == length t) || memcmp s t) ≡ not (text_eq s t)
unfolding memcmp text_eq
compare-text_eq [] [] = refl
compare-text_eq [] (y ∷ t) = ground arith
compare-text_eq (x ∷ s) [] = ground arith
compare-text_eq (x ∷ s) (y ∷ t) = ground (arith, compare-text_eq s t)

abbrev answer : Bool → ℕ
answer b = if not b then 1 else 0

bit_of : (b : Bool) → (answer b ≡ 0) ↔ (b ≡ true)
bit_of true = ((λ _. refl), (λ _. refl))
bit_of false = ((λ h. absurd (omega arith)), (λ h. cc))

-- The result is 0 for the same names, and for no others.
pub dazukofs_d_compare-equal : (s t : List ℕ) → (dazukofs_d_compare s t ≡ 0) ↔ (s ≡ t)
unfolding dazukofs_d_compare
dazukofs_d_compare-equal s t = rw (compare-text_eq s t) (
  (λ h. text_eq_sound s t ((bit_of (text_eq s t)).0 h)),
  (λ h. (bit_of (text_eq s t)).1 (ap (text_eq s) (sym h) ∙ text_eq_refl s)),
)
