-- ===== src/Fs/Checked.antt =====
-- dazukofs_open of file.c, when its check of the access is dazukofs_check_access of event.c, which
-- waits for the answers of the registered processes.
mod Examples
use dazukofs_linux.Base.{ℕ, ◌<◌, ◌≡◌, refl, ◌⊎◌, inl, inr, some, none, arith, count}
use dazukofs_linux.Events.State.{State, Ret, ok, err, eperm}
use dazukofs_linux.Events.Release.{event_assigned}
use dazukofs_linux.Events.Access.{finish_access}
use dazukofs_linux.Events.Phase.{phase}
use dazukofs_linux.Events.System.{System, Reach, start}
use dazukofs_linux.Events.Denial.{Denied, Ongoing, denial_lasts}
use dazukofs_linux.Fs.Kernel.{Kernel}
use dazukofs_linux.Fs.State.{Fs, M}
use dazukofs_linux.Fs.Files.{dazukofs_open}
use dazukofs_linux.Fs.Balance.{Balanced, Returns, Ensures-inv}
use dazukofs_linux.Fs.Opening.{Opened, at_check, dazukofs_open-Opened}

Returns-weaken :
    {k : Kernel} {A : Type 0} (m : M k A) (s : Fs k) (P Q : A → Fs k → Type 0)
    → Returns m s P
    → ((a : A) (s' : Fs k) → P a s' → Q a s')
    → Returns m s Q
Returns-weaken m s P Q h weaker =
    let (a, s', eq, p) = Ensures-inv (m s) P h in rw eq (weaker a s' p)

module _ {k : Kernel} where
  -- The check comes to the end of the access of the event at `a`.
  abbrev pub checked : Ret → Fs k → Ret × Fs k
  checked e s = (e, s)

  -- No file of either layer has been touched, and all is given back.
  abbrev pub Refused : Fs k → Ret → Fs k → Type 0
  Refused s r s' =
      (r ≡ err eperm)
      × (s'.world ≡ s.world)
      × (s'.files ≡ s.files)
      × (s'.lower_files ≡ s.lower_files)
      × Balanced s.trace s'.trace

  Opened-Refused :
      (file ld m : ℕ) (s s' : Fs k) (r : Ret)
      → Opened file ld m (err eperm) s (at_check ld m s) r s'
      → Refused s r s'
  Opened-Refused file ld m s s' r (inl (_, e, world, files, lower_files, net)) =
      (e, world, files, lower_files, net)
  Opened-Refused file ld m s s' r (inr (inl h)) = (let e = h.0 in cc)
  Opened-Refused file ld m s s' r (inr (inr (inl h))) = (let e = h.1 in cc)
  Opened-Refused file ld m s s' r (inr (inr (inr h))) = (let e = h.1 in cc)

  -- An access whose event has been denied in a reachable state, and no answer to which is missing
  -- in a later one, that is reached while the access has not ended: it ends there, and with the
  -- result that it comes to the opening of a file, whose dentry is set up, returns -EPERM, touches
  -- no file of either layer, and gives back what it takes.
  -- The runs leave out that, between the choice of an id and the increment of `group_count` by
  -- dazukofs_add_group, a close by the last tracked process of a group removes this group.
  pub open_after_denial :
      {y z : System} (a : ℕ) (r : Reach y z) (file ld m : ℕ) (s : Fs k)
      → Reach start y
      → Ongoing a r
      → Denied (phase a y.state)
      → 0 < count a z.waiting
      → event_assigned a z.state ≡ some 0
      → (s.dentries (s.files file).dentry).private_data
        ≡ some (record { lower_dentry = some ld; lower_mnt = some m })
      → (e : Ret) × (after : State) × (finish_access a z.state ≡ some (e, after))
        × Returns (dazukofs_open (checked e) file) s (Refused s)
  open_after_denial a r file ld m s reach on h waited idle backed =
      let (after, eq, _) = denial_lasts a r reach on h waited idle in
      (
        err eperm,
        after,
        eq,
        Returns-weaken (dazukofs_open (checked (err eperm)) file) s _ (Refused s)
            (dazukofs_open-Opened (checked (err eperm)) file ld m s backed (λ s1 x. refl))
            (λ e s'. Opened-Refused file ld m s s' e),
      )
