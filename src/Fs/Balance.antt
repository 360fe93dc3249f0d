-- ===== src/Fs/Balance.antt =====
-- What a trace of the file system has taken and given back.
use dazukofs_linux.Base.{
  ℕ, ◌+◌, ◌≡◌, refl, sym, ap, ◌≢◌, ==_iff, Bool, true, false, Option, none, some, List, [], ◌∷◌,
  ◌==◌, if◌then◌else◌, arith,
}
use dazukofs_linux.Events.State.{Ret, ok, err}
use mathlib.Core.Path.{subst}
use dazukofs_linux.Fs.Kernel.{Kernel}
use dazukofs_linux.Fs.State.{
  Ref, dentry_ref, mnt_ref, inode_ref, file_ref, page_ref, lock, page_lock, mapping, dentry_info,
  file_info, sb_info, inode_info, link_buffer, Call, get, put, Fs, M, ◌>>=◌, need, return, if_zero,
  inode_of,
}

abbrev pub same_ref : Ref → Ref → Bool
same_ref (dentry_ref m) (dentry_ref n) = m == n
same_ref (mnt_ref m) (mnt_ref n) = m == n
same_ref (inode_ref m) (inode_ref n) = m == n
same_ref (file_ref m) (file_ref n) = m == n
same_ref (page_ref m) (page_ref n) = m == n
same_ref (lock m) (lock n) = m == n
same_ref (page_lock m) (page_lock n) = m == n
same_ref (mapping m) (mapping n) = m == n
same_ref (dentry_info m) (dentry_info n) = m == n
same_ref (file_info m) (file_info n) = m == n
same_ref (sb_info m) (sb_info n) = m == n
same_ref (inode_info m) (inode_info n) = m == n
same_ref (link_buffer m) (link_buffer n) = m == n
same_ref _ _ = false

abbrev pub bit : Bool → ℕ
bit true = 1
bit false = 0

-- 1 at the reference itself, and 0 elsewhere.
abbrev pub one : Ref → Ref → ℕ
one x r = bit (same_ref x r)

-- How often a reference is taken, and how often it is given back.
abbrev pub taken : Ref → List Call → ℕ
taken r [] = 0
taken r (get x ∷ tr) = one x r + taken r tr
taken r (put x ∷ tr) = taken r tr

abbrev pub dropped : Ref → List Call → ℕ
dropped r [] = 0
dropped r (get x ∷ tr) = dropped r tr
dropped r (put x ∷ tr) = one x r + dropped r tr

-- From the one trace to the other, `more` references of a kind are held more, and `less` less.
abbrev pub Net : (Ref → ℕ) → (Ref → ℕ) → List Call → List Call → Type 0
Net more less tr tr' =
    (r : Ref) → taken r tr' + dropped r tr + less r ≡ taken r tr + dropped r tr' + more r

abbrev pub nothing : Ref → ℕ
nothing r = 0

-- All that is taken is given back.
abbrev pub Balanced : List Call → List Call → Type 0
Balanced = Net nothing nothing

-- A computation returns, and what is then the case.
abbrev pub Ensures : {k : Kernel} {A : Type 0} → Option (A × Fs k) → (A → Fs k → Type 0) → Type 0
Ensures none P = ⊥
Ensures (some (a, s)) P = P a s

abbrev pub Returns : {k : Kernel} {A : Type 0} → M k A → Fs k → (A → Fs k → Type 0) → Type 0
Returns m s P = Ensures (m s) P

pub Ensures-inv :
    {k : Kernel} {A : Type 0} (r : Option (A × Fs k)) (P : A → Fs k → Type 0)
    → Ensures r P
    → (a : A) × (s : Fs k) × (r ≡ some (a, s)) × P a s
Ensures-inv none P h = absurd h
Ensures-inv (some (a, s)) P h = (a, s, refl, h)

pub Ensures-map :
    {k : Kernel} {A : Type 0} (r : Option (A × Fs k)) (P Q : A → Fs k → Type 0)
    → ((a : A) (s : Fs k) → P a s → Q a s)
    → Ensures r P
    → Ensures r Q
Ensures-map none P Q f h = h
Ensures-map (some (a, s)) P Q f h = f a s h

-- One computation behind another.
pub Returns-bind :
    {k : Kernel} {A B : Type 0} (m : M k A) (f : A → M k B) (s : Fs k) (P : A → Fs k → Type 0)
    (Q : B → Fs k → Type 0)
    → Returns m s P
    → ((a : A) (s' : Fs k) → P a s' → Returns (f a) s' Q)
    → Returns (m >>= f) s Q
Returns-bind m f s P Q h next =
    let (a, s', eq, p) = Ensures-inv (m s) P h in rw (◌>>=◌, eq) (next a s' p)

-- Behind a computation whose end is known.
pub Returns-run :
    {k : Kernel} {A B : Type 0} (m : M k A) (a : A) (f : A → M k B) (s s' : Fs k)
    (Q : B → Fs k → Type 0)
    → m s ≡ some (a, s')
    → Returns (f a) s' Q
    → Returns (m >>= f) s Q
Returns-run m a f s s' Q e h = rw (◌>>=◌, e) h

pub Returns-need :
    {k : Kernel} {A B : Type 0} (o : Option A) (a : A) (f : A → M k B) (s : Fs k)
    (Q : B → Fs k → Type 0)
    → o ≡ some a
    → Returns (f a) s Q
    → Returns (need o >>= f) s Q
Returns-need o a f s Q e h = subst (λ o. Returns (need o >>= f) s Q) (sym e) h

pub Returns-if :
    {k : Kernel} {A : Type 0} (b : Bool) (m n : M k A) (s : Fs k) (Q : A → Fs k → Type 0)
    → (b ≡ true → Returns m s Q)
    → (b ≡ false → Returns n s Q)
    → Returns (if b then m else n) s Q
Returns-if true m n s Q t f = t refl
Returns-if false m n s Q t f = f refl

pub not_zero : (n : ℕ) → (n == 0) ≡ false → ok n ≢ ok 0
not_zero n z h = ground arith

pub Returns-if_zero :
    {k : Kernel} (e : Ret) (m : M k Ret) (s : Fs k) (Q : Ret → Fs k → Type 0)
    → (e ≡ ok 0 → Returns m s Q)
    → (e ≢ ok 0 → Q e s)
    → Returns (if_zero e m) s Q
Returns-if_zero (err e) m s Q zero other = other (λ h. cc)
Returns-if_zero (ok n) m s Q zero other =
    Returns-if (n == 0) m (return (ok n)) s Q (λ z. zero (ap ok ((==_iff n 0).0 z)))
      (λ z. other (not_zero n z))

pub Returns-inode_of :
    {k : Kernel} {B : Type 0} (d i : ℕ) (f : ℕ → M k B) (s : Fs k) (Q : B → Fs k → Type 0)
    → (s.dentries d).inode ≡ some i
    → Returns (f i) s Q
    → Returns (inode_of d >>= f) s Q
Returns-inode_of {k} d i f s Q e h =
    Returns-run (inode_of {k = k} d) i f s s Q (ap (λ (o : Option ℕ). need {k = k} o s) e) h

-- The reference that a new upper inode keeps to its lower inode.
abbrev pub kept : Bool → ℕ → Ref → ℕ
kept new l r = if new then one (inode_ref l) r else 0

-- A computation within a computation.
pub Returns-assoc :
    {k : Kernel} {A B C : Type 0} (m : M k A) (f : A → M k B) (g : B → M k C) (s : Fs k)
    (Q : C → Fs k → Type 0)
    → Returns (m >>= λ a. f a >>= g) s Q
    → Returns (m >>= f >>= g) s Q
Returns-assoc {k = k} {A = A} m f g s Q h = along (m s) h
  where
    along :
        (o : Option (A × Fs k))
        → Returns ((λ _. o) >>= λ a. f a >>= g) s Q
        → Returns ((λ _. o) >>= f >>= g) s Q
    along none h = h
    along (some (a, s')) h = h
