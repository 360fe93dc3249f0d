-- ===== src/Fs/Pages.antt =====
-- The page cache of mmap.c: reading and writing a page of the upper inode through the lower
-- inode's.
use dazukofs_linux.Base.{ℕ, Bool, true, false, Option, none, some, ◌==◌, if◌then◌else◌}
use dazukofs_linux.Events.State.{Ret, ok, err, enomem}
use dazukofs_linux.Fs.Kernel.{Kernel, Pointer, to, is_err}
use dazukofs_linux.Fs.State.{
  get, put, page_ref, page_lock, mapping, M, ◌>>=◌, ◌>>◌, return, asks, record_call, call, set_page,
  set_world, get_lower_file, get_lower_inode, inode_of,
}

abbrev pub is_zero : Ret → Bool
is_zero (ok n) = n == 0
is_zero (err e) = false

module _ {k : Kernel} where
  -- `kmap` and `kunmap`; a mapping may be refused.
  abbrev pub map_page : ℕ → M k Bool
  map_page p = do
    mapped ← call (k.kmap p)
    (if mapped then (do record_call (get (mapping p)); return true) else return false)

  abbrev pub kunmap : ℕ → M k (Unit {0})
  kunmap p = record_call (put (mapping p))

  abbrev pub put_page : Option ℕ → M k (Unit {0})
  put_page none = return tt
  put_page (some l) = record_call (put (page_ref l))

  -- The label `out` of dazukofs_readpage. The VM has locked the page.
  unfoldable pub finish_read : (page : ℕ) → Option ℕ → Ret → M k Ret
  finish_read page lower e = do
    put_page lower
    set_page page (λ p. record p { uptodate = is_zero e })
    record_call (put (page_lock page))
    return e

  -- With both pages mapped.
  unfoldable pub copy_up : (page lower : ℕ) → M k Ret
  copy_up page lower = do
    bytes ← asks (λ s. k.page_data lower s.world)
    set_page page (λ p. record p { contents = bytes })
    kunmap lower
    kunmap page
    return (ok 0)

  unfoldable pub read_mapped : (page lower : ℕ) → Bool → M k Ret
  read_mapped page lower false = return (err enomem)
  read_mapped page lower true = do
    mapped ← map_page lower
    (if mapped then copy_up page lower else return (err enomem))

  -- `read_cache_page` returns a page with a reference.
  unfoldable pub read_lower : (page : ℕ) → Pointer → M k Ret
  read_lower page (is_err e) = finish_read page none (err e)
  read_lower page (to lower) = do
    record_call (get (page_ref lower))
    mapped ← map_page page
    e ← read_mapped page lower mapped
    finish_read page (some lower) e

  -- The lower file is passed on to the lower `readpage`.
  unfoldable pub dazukofs_readpage : (file page : ℕ) → M k Ret
  dazukofs_readpage file page = do
    f ← asks (λ s. s.files file)
    lower_file ← get_lower_file file
    inode ← inode_of f.dentry
    lower_inode ← get_lower_inode inode
    p ← asks (λ s. s.pages page)
    lower ← call (k.read_cache_page lower_inode p.index)
    read_lower page lower

  -- With both pages mapped.
  unfoldable pub copy_down : (page lower : ℕ) → M k Ret
  copy_down page lower = do
    p ← asks (λ s. s.pages page)
    set_world (k.write_page lower p.contents)
    kunmap page
    kunmap lower
    set_world (k.set_page_dirty lower)
    record_call (put (page_lock lower))
    set_page page (λ p. record p { uptodate = true })
    return (ok 0)

  unfoldable pub write_mapped : (page lower : ℕ) → Bool → M k Ret
  write_mapped page lower false = do record_call (put (page_lock lower)); return (err enomem)
  write_mapped page lower true = do
    mapped ← map_page lower
    (if mapped
        then copy_down page lower
        else (do kunmap page; record_call (put (page_lock lower)); return (err enomem)))

  -- `grab_cache_page` returns a page with a reference, and locked.
  unfoldable pub write_lower : (page : ℕ) → Option ℕ → M k Ret
  write_lower page none = return (err enomem)
  write_lower page (some lower) = do
    record_call (get (page_ref lower))
    record_call (get (page_lock lower))
    mapped ← map_page page
    write_mapped page lower mapped

  unfoldable pub dazukofs_writepage : (page : ℕ) → M k Ret
  dazukofs_writepage page = do
    p ← asks (λ s. s.pages page)
    lower_inode ← get_lower_inode p.inode
    lower ← call (k.grab_cache_page lower_inode p.index)
    e ← write_lower page lower
    record_call (put (page_lock page))
    return e
