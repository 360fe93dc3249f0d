-- ===== src/Fs/Examples.antt =====
-- The operations of the stacked file system on the sample.
use dazukofs_linux.Base.{
  Bool-cases, inl, inr, ℕ, ◌≡◌, refl, true, false, none, some, [], ◌∷◌, arith,
}
use dazukofs_linux.Events.State.{Ret, ok}
use dazukofs_linux.Fs.State.{Fs, put, dentry_ref, mnt_ref}
use dazukofs_linux.Fs.Interpose.{dazukofs_interpose}
use dazukofs_linux.Fs.Create.{dazukofs_create, dazukofs_rename}
use dazukofs_linux.Fs.Attributes.{dazukofs_follow_link}
use dazukofs_linux.Fs.Files.{dazukofs_write}
use dazukofs_linux.Fs.Pages.{dazukofs_readpage}
use dazukofs_linux.Fs.Super.{dazukofs_statfs, dazukofs_get_sb, dazukofs_read_super}
use dazukofs_linux.Fs.Balance.{Returns}
use dazukofs_linux.Fs.Interposing.{Interposed, CacheAgrees, dazukofs_interpose-Interposed}
use dazukofs_linux.Fs.Creating.{Ready, Created, as_is, MakesPositive}
use dazukofs_linux.Fs.Removing.{Renamed, dazukofs_rename-Renamed}
use dazukofs_linux.Fs.Paging.{PageRead, dazukofs_readpage-PageRead}
use dazukofs_linux.Fs.Following.{
  Link, Followed, dazukofs_follow_link-Followed, dazukofs_follow_link-overflows,
}
use dazukofs_linux.Fs.Mounting.{dazukofs_get_sb-unusable, dazukofs_read_super-SuperRead}
use dazukofs_linux.Fs.Writing.{Outdated, dazukofs_write-Outdated}
use dazukofs_linux.Fs.Kernel.{found, Iattr}
use dazukofs_linux.Fs.Mounting.{Rooted}
use dazukofs_linux.Fs.Making.{dazukofs_create-overdraws}
use dazukofs_linux.Fs.Sample.{lower, stacked}

agreeing : (n : ℕ) → CacheAgrees (lower n)
agreeing n test sb l a w e = elim (Bool-cases (test l)) [
  | inl hit ↦ (let same : l ≡ a = ground arith in rw same at hit)
  | inr missing ↦ absurd (ground arith)
]

ready : Ready (stacked 0) 202 3 23 8 101
ready = record {
  backed = refl;
  parent_there = refl;
  sb_info = some 6;
  set_up = refl;
  agrees = agreeing 0;
}

makes : MakesPositive (lower 0) 23 (λ w. (ok 0, w))
makes = λ w e. (123, refl)

dazukofs_create-overdraws_example :
    Returns (dazukofs_create {k = lower 0} 202 3 0 true) (stacked 0) (
      Created as_is 202 3 101
        (some 123)
        (record (stacked 0) { trace = put (dentry_ref 23) ∷ put (mnt_ref 8) ∷ [] }))
dazukofs_create-overdraws_example =
    dazukofs_create-overdraws {k = lower 0} 202 3 23 8 101 0 true (stacked 0) ready makes

dazukofs_rename-Renamed_example :
    Returns
      (dazukofs_rename {k = lower 0} 202 3 204 5)
      (stacked 0)
      (Renamed 204 101 (stacked 0) (ok 0, b'n' ∷ []))
dazukofs_rename-Renamed_example =
    dazukofs_rename-Renamed {k = lower 0} 202 3 204 5 23 8 25 8 101 101 (stacked 0) refl refl refl
      refl

dazukofs_interpose-Interposed_example :
    Returns
      (dazukofs_interpose {k = lower 0} 23 3 7 true)
      (stacked 0)
      (Interposed 123 3 (stacked 0))
dazukofs_interpose-Interposed_example =
    dazukofs_interpose-Interposed {k = lower 0} 23 3 7 123 (some 6) true (stacked 0) refl refl
      (agreeing 0)

abbrev set_id : Iattr
set_id = record { kill_suid = true; kill_sgid = false; mode = true; others = 0 }

-- The check of an access that is permitted.
abbrev permitted : Fs (lower 0) → Ret × Fs (lower 0)
permitted s = (ok 0, s)

dazukofs_write-Outdated_example :
    Returns
      (dazukofs_write {k = lower 0} 4 [] 0)
      (stacked 0)
      (λ r s'. Outdated 203 r.1 (stacked 0) r.0 s')
dazukofs_write-Outdated_example =
    dazukofs_write-Outdated {k = lower 0} 4 203 9 [] 0 (stacked 0) refl refl

dazukofs_readpage-PageRead_example :
    Returns (dazukofs_readpage {k = lower 0} 4 0) (stacked 0) (PageRead 203 0 (stacked 0))
dazukofs_readpage-PageRead_example =
    dazukofs_readpage-PageRead {k = lower 0} 4 0 203 9 (stacked 0) refl refl

link : (n : ℕ) → Link (stacked n) 3 23 8 203
link n = record { backed = refl; own_inode = refl }

dazukofs_follow_link-Followed_example :
    Returns (dazukofs_follow_link {k = lower 0} 3) (stacked 0) (Followed 3 23 (stacked 0))
dazukofs_follow_link-Followed_example =
    dazukofs_follow_link-Followed {k = lower 0} 3 23 8 203 (stacked 0) (link 0)
      (λ w c bytes e. let z : 0 ≡ c = cc in omega arith)

dazukofs_follow_link-overflows_example :
    dazukofs_follow_link {k = lower 4096} 3 (stacked 4096) ≡ none
dazukofs_follow_link-overflows_example =
    dazukofs_follow_link-overflows {k = lower 4096} 3 23 8 123 [] (stacked 4096) refl refl refl refl
      refl

dazukofs_get_sb-unusable_example : Returns (dazukofs_get_sb {k = lower 0} 7 []) (stacked 0) (λ r s'.
    r ≡ ok 0
    → (root : ℕ) × (s'.s_root 7 ≡ some root)
      × ((s'.dentries root).inode ≡ none)
      × (dazukofs_statfs root s' ≡ none))
dazukofs_get_sb-unusable_example = dazukofs_get_sb-unusable {k = lower 0} 7 [] (stacked 0)

dazukofs_read_super-SuperRead_example :
    Returns
      (dazukofs_read_super {k = lower 0} 7 [])
      (stacked 0)
      (Rooted 7 2 (found 3 8) (b'n' ∷ []) (stacked 0))
dazukofs_read_super-SuperRead_example =
    dazukofs_read_super-SuperRead {k = lower 0} 7 2 [] (some 6)
      (record { lower_dentry = some 22; lower_mnt = some 8 }) (stacked 0) refl refl refl
      (agreeing 0)
