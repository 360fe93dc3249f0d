-- ===== src/Fs/Lifetimes.antt =====
-- The lives of dentries and open files: dazukofs_lookup with dazukofs_d_release, and dazukofs_open
-- with dazukofs_release.
use dazukofs_linux.Base.{ℕ, ◌+◌, ◌≡◌, ◌≢◌, ◌⊎◌, Bool}
use dazukofs_linux.Events.State.{Errno, Ret, ok, err}
use dazukofs_linux.Fs.Kernel.{Kernel}
use dazukofs_linux.Fs.State.{Fs, dentry_ref, file_info, M, ◌>>=◌, ◌>>◌, return, if_zero}
use dazukofs_linux.Fs.Lookup.{dazukofs_lookup, dazukofs_d_release}
use dazukofs_linux.Fs.Files.{dazukofs_open, dazukofs_release}
use dazukofs_linux.Fs.Balance.{Net, Balanced, nothing, one, kept}
use dazukofs_linux.Fs.Opening.{path_refs}

module _ {k : Kernel} where
  -- A dentry that is looked up and later released, whatever comes of the lookup.
  abbrev pub looked_up_and_released : (dir d : ℕ) → M k Ret
  looked_up_and_released dir d = do r ← dazukofs_lookup dir d; dazukofs_d_release d; return r

  -- What is left. Success: at most the reference of a new inode. A failure: nothing, or the
  -- reference to a lower dentry has been given back once too often.
  abbrev pub DentryGone : Fs k → Ret → Fs k → Type 0
  DentryGone s r s' =
      ((new : Bool) × (l : ℕ) × (r ≡ ok 0) × Net (kept new l) nothing s.trace s'.trace)
      ⊎ ((e : Errno) × (r ≡ err e) × Balanced s.trace s'.trace)
      ⊎ ((e : Errno) × (ld : ℕ) × (r ≡ err e) × Net nothing (one (dentry_ref ld)) s.trace s'.trace)

  -- A file that is opened, and released when the opening has succeeded.
  abbrev pub opened_and_released : (access : Fs k → Ret × Fs k) → (inode file : ℕ) → M k Ret
  opened_and_released access inode file = do
    r ← dazukofs_open access file
    if_zero r (dazukofs_release inode file)

  -- What is left of the opening and the release of a file: nothing when the access is denied or
  -- there is no memory, the references to the lower dentry and mount after success, and these and
  -- the private data when the lower file system refuses.
  abbrev pub FileGone : (file ld m : ℕ) → Ret → Fs k → Ret → Fs k → Type 0
  FileGone file ld m e s r s' =
      ((r ≢ ok 0) × Balanced s.trace s'.trace)
      ⊎ ((e ≡ ok 0) × (r ≡ ok 0) × Net (path_refs ld m) nothing s.trace s'.trace)
      ⊎ ((e ≡ ok 0)
          × (r ≢ ok 0)
          × Net (λ x. path_refs ld m x + one (file_info file) x) nothing s.trace s'.trace)
