-- ===== src/Fs/Writing.antt =====
-- dazukofs_write of file.c: what a write makes of the page cache and the inode, and what it holds.
use dazukofs_linux.Base.{ℕ, ◌+◌, ◌-◌, ◌/◌, ◌≤◌, ◌<◌, ◌≡◌, ap, false, Option, some, List, ◌∷◌, arith}
use dazukofs_linux.Events.State.{Ret, ok, err, update}
use dazukofs_linux.Fs.Kernel.{Kernel, write_op}
use dazukofs_linux.Fs.State.{Fs, get, lock, ◌>>=◌, need, get_lower_file}
use dazukofs_linux.Fs.Attributes.{page_size}
use dazukofs_linux.Fs.Files.{dazukofs_write, write_locked, after_write, mark_pages_outdated}
use dazukofs_linux.Fs.Balance.{Returns, Returns-bind, Returns-if, Returns-run, Returns-inode_of}
use dazukofs_linux.Fs.Marking.{mark_pages_outdated-marks}

module _ {k : Kernel} where
  -- After a write that has answered `r`, and left the position `pos`: the bytes that were written
  -- are those before it, and each cached page that holds one of them is not uptodate.
  abbrev pub Outdated : (inode pos : ℕ) → Fs k → Ret → Fs k → Type 0
  Outdated inode pos s r s' =
      (n b p : ℕ)
      → r ≡ ok n
      → pos - n ≤ b
      → b < pos - n + n
      → s.page_at inode (b / page_size) ≡ some p
      → (s'.pages p).uptodate ≡ false

  after_write-Outdated :
      (r : Ret) (inode li pos : ℕ) (s : Fs k)
      → Returns (after_write r inode li pos) s (λ _ s'. Outdated inode pos s r s')
  after_write-Outdated (err e) inode li pos s = λ n b p no. cc
  after_write-Outdated (ok n) inode li pos s =
      Returns-bind (mark_pages_outdated inode n (pos - n)) _ s _
        (λ _ s'. Outdated inode pos s (ok n) s') (mark_pages_outdated-marks inode n (pos - n) s)
        (λ _ s1 marked m b p same lo hi there.
          let e : n ≡ m = cc in marked b p (omega arith) (omega arith) there)

  write_locked-Outdated :
      (file lower inode li : ℕ) (buf : List ℕ) (pos : ℕ) (s : Fs k)
      → Returns (write_locked file lower inode li buf pos) s (λ r s'. Outdated inode r.1 s r.0 s')
  unfolding write_locked
  write_locked-Outdated file lower inode li buf pos s =
      let out = (k.vfs_write lower buf pos (s.lower_files lower) s.world).0 in
      let written = update s.lower_files lower out.file in
      let s1 : Fs k = record s {
        world = (k.vfs_write lower buf pos (s.lower_files lower) s.world).1;
        trace = get (lock inode) ∷ s.trace;
        lower_files = update written lower (record (written lower) { f_pos = out.pos });
      } in
      Returns-bind (after_write out.ret inode li out.pos) _ s1
        (λ _ s'. Outdated inode out.pos s out.ret s') (λ r s'. Outdated inode r.1 s r.0 s')
        (after_write-Outdated out.ret inode li out.pos s1) (λ _ s2 h. h)

  -- For an open file, whose dentry has an inode, dazukofs_write returns, and leaves the cache
  -- `Outdated`.
  pub dazukofs_write-Outdated :
      (file inode lower : ℕ) (buf : List ℕ) (pos : ℕ) (s : Fs k)
      → (s.files file).private_data ≡ some (some lower)
      → (s.dentries (s.files file).dentry).inode ≡ some inode
      → Returns (dazukofs_write file buf pos) s (λ r s'. Outdated inode r.1 s r.0 s')
  unfolding dazukofs_write
  dazukofs_write-Outdated file inode lower buf pos s opened there =
      Returns-run (get_lower_file {k = k} file) lower _ s s (λ r s'. Outdated inode r.1 s r.0 s')
        (ap (λ (o : Option (Option ℕ)). (need o >>= λ l. need l) s) opened)
        (Returns-inode_of (s.files file).dentry inode _ s _ there (
          Returns-if (k.has_file_op write_op lower s.world) _ _ s
            (λ r s'. Outdated inode r.1 s r.0 s')
            (λ _. write_locked-Outdated file lower inode (s.inodes inode).lower_inode buf pos s)
            (λ _ n b p no. cc)))
