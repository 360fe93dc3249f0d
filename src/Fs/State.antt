-- ===== src/Fs/State.antt =====
-- The objects of the upper layer, with the accessors of dazukofs_fs.h, and the monad of the file
-- system's functions: a state, and faults. References, locks and structures that the code takes and
-- gives back are recorded in `trace`, newest first.
use dazukofs_linux.Base.{ℕ, Bool, true, false, Option, none, some, List, ◌∷◌, ◌==◌, if◌then◌else◌}
use dazukofs_linux.Events.State.{Ret, ok, err, update}
use dazukofs_linux.Fs.Kernel.{Kernel, LowerFile}

-- What can be held: a reference to a dentry, a mount, an inode, a file or a page, a lock, the
-- mapping of a page, and memory, which is named by its owner.
pub data Ref : Type 0 where
  dentry_ref mnt_ref inode_ref file_ref page_ref lock page_lock mapping : ℕ → Ref
  dentry_info file_info sb_info inode_info link_buffer : ℕ → Ref

pub data Call : Type 0 where
  get put : Ref → Call

-- `struct dazukofs_dentry_info`; it is zeroed at first.
pub record DentryInfo : Type 0 where
  pub lower_dentry : Option ℕ
  pub lower_mnt : Option ℕ

pub record Dentry : Type 0 where
  pub parent : ℕ
  pub name : List ℕ
  pub private_data : Option DentryInfo
  pub inode : Option ℕ
  pub has_dops : Bool
  pub hashed : Bool

-- The tables of operations that an inode can have.
pub data Iops : Type 0 where
  main_iops symlink_iops dir_iops : Iops

pub data Fops : Type 0 where
  main_fops dir_fops special_fops : Fops

-- `struct dazukofs_inode_info` with the inode that it embeds.
pub record Inode (k : Kernel) : Type 0 where
  pub lower_inode : ℕ
  pub i_sb : ℕ
  pub i_ino : ℕ
  pub i_version : ℕ
  pub i_op : Iops
  pub i_fop : Fops
  pub has_aops : Bool
  pub attr : k.Attr

-- An open file; `private_data` is `struct dazukofs_file_info`, zeroed at first.
pub record File : Type 0 where
  pub dentry : ℕ
  pub private_data : Option (Option ℕ)
  pub f_flags : ℕ
  pub f_pos : ℕ
  pub f_version : ℕ
  pub f_ra : ℕ

pub record Page : Type 0 where
  pub inode : ℕ
  pub index : ℕ
  pub contents : List ℕ
  pub uptodate : Bool

-- `sb_private` is `struct dazukofs_sb_info` of a super block, zeroed at first.
pub record Fs (k : Kernel) : Type 0 where
  pub world : k.World
  pub dentries : ℕ → Dentry
  pub inodes : ℕ → Inode k
  pub files : ℕ → File
  pub lower_files : ℕ → LowerFile
  pub page_at : (inode index : ℕ) → Option ℕ
  pub pages : ℕ → Page
  pub sb_private : ℕ → Option (Option ℕ)
  pub s_root : ℕ → Option ℕ
  pub trace : List Call

abbrev pub M : Kernel → Type 0 → Type 0
M k A = Fs k → Option (A × Fs k)

infixl 5 ◌>>=◌ ◌>>◌
abbrev pub ◌>>=◌ : {k : Kernel} {A B : Type 0} → M k A → (A → M k B) → M k B
◌>>=◌ m f s = elim (m s) [ none ↦ none | some (a, s') ↦ f a s' ]

abbrev pub ◌>>◌ : {k : Kernel} {A B : Type 0} → M k A → M k B → M k B
m >> n = m >>= λ _. n

abbrev pub return : {k : Kernel} {A : Type 0} → A → M k A
return a s = some (a, s)

-- A NULL pointer that is followed is a fault.
abbrev pub need : {k : Kernel} {A : Type 0} → Option A → M k A
need none s = none
need (some a) s = some (a, s)

module _ {k : Kernel} where
  abbrev pub asks : {A : Type 0} → (Fs k → A) → M k A
  asks f s = some (f s, s)

  abbrev pub record_call : Call → M k (Unit {0})
  record_call c s = some (tt, record s { trace = c ∷ s.trace })

  -- A call of the kernel that changes its world.
  abbrev pub call : {A : Type 0} → (k.World → A × k.World) → M k A
  call f s = some ((f s.world).0, record s { world = (f s.world).1 })

  abbrev pub dget : ℕ → M k (Unit {0})
  dget d = record_call (get (dentry_ref d))

  abbrev pub dput : ℕ → M k (Unit {0})
  dput d = record_call (put (dentry_ref d))

  abbrev pub mntget : ℕ → M k (Unit {0})
  mntget m = record_call (get (mnt_ref m))

  abbrev pub mntput : ℕ → M k (Unit {0})
  mntput m = record_call (put (mnt_ref m))

  abbrev pub iput : ℕ → M k (Unit {0})
  iput i = record_call (put (inode_ref i))

  abbrev pub mutex_lock : ℕ → M k (Unit {0})
  mutex_lock i = record_call (get (lock i))

  abbrev pub mutex_unlock : ℕ → M k (Unit {0})
  mutex_unlock i = record_call (put (lock i))

  abbrev pub set_dentry : ℕ → (Dentry → Dentry) → M k (Unit {0})
  set_dentry d f s = some (tt, record s { dentries = update s.dentries d (f (s.dentries d)) })

  abbrev pub set_inode : ℕ → (Inode k → Inode k) → M k (Unit {0})
  set_inode i f s = some (tt, record s { inodes = update s.inodes i (f (s.inodes i)) })

  -- `dest` becomes what copying from the lower inode makes of it.
  abbrev pub copy_from : (k.Attr → k.Attr → k.Attr) → (dest source : ℕ) → M k (Unit {0})
  copy_from copy dest source s =
      set_inode dest (λ i. record i { attr = copy i.attr (k.attr source s.world) }) s

  abbrev pub set_file : ℕ → (File → File) → M k (Unit {0})
  set_file f g s = some (tt, record s { files = update s.files f (g (s.files f)) })

  abbrev pub set_lower_file : ℕ → (LowerFile → LowerFile) → M k (Unit {0})
  set_lower_file f g s =
      some (tt, record s { lower_files = update s.lower_files f (g (s.lower_files f)) })

  abbrev pub set_page : ℕ → (Page → Page) → M k (Unit {0})
  set_page p f s = some (tt, record s { pages = update s.pages p (f (s.pages p)) })

  abbrev pub set_world : (k.World → k.World) → M k (Unit {0})
  set_world f s = some (tt, record s { world = f s.world })

  -- Both pointers are followed by every caller.
  abbrev pub get_lower_dentry : ℕ → M k ℕ
  get_lower_dentry d = do
    info ← asks (λ s. (s.dentries d).private_data)
    info ← need info
    need info.lower_dentry

  abbrev pub get_lower_mnt : ℕ → M k ℕ
  get_lower_mnt d = do
    info ← asks (λ s. (s.dentries d).private_data)
    info ← need info
    need info.lower_mnt

  abbrev pub get_lower_inode : ℕ → M k ℕ
  get_lower_inode i = asks (λ s. (s.inodes i).lower_inode)

  abbrev pub get_lower_file : ℕ → M k ℕ
  get_lower_file f = do info ← asks (λ s. (s.files f).private_data); lower ← need info; need lower

  -- The inode of an upper dentry that is there.
  abbrev pub inode_of : ℕ → M k ℕ
  inode_of d = do i ← asks (λ s. (s.dentries d).inode); need i

  -- The pointer is compared, not followed.
  abbrev pub get_lower_sb : ℕ → M k (Option ℕ)
  get_lower_sb sb = do info ← asks (λ s. s.sb_private sb); need info

  -- The two fields of the private data, whose pointer is followed.
  abbrev pub set_info : (d lower mnt : ℕ) → Option DentryInfo → M k (Unit {0})
  set_info d lower mnt info = do
    info ← need info
    set_dentry d (λ e. record e {
      private_data = some (record info { lower_dentry = some lower; lower_mnt = some mnt });
    })

  abbrev pub set_lower_dentry : (d lower mnt : ℕ) → M k (Unit {0})
  set_lower_dentry d lower mnt = do
    info ← asks (λ s. (s.dentries d).private_data)
    set_info d lower mnt info

  -- `sb->s_root`, which is followed.
  abbrev pub root_of : ℕ → M k ℕ
  root_of sb = do root ← asks (λ s. s.s_root sb); need root

  abbrev pub set_root : (sb root : ℕ) → M k (Unit {0})
  set_root sb root s = some (tt, record s { s_root = update s.s_root sb (some root) })

  abbrev pub d_drop : ℕ → M k (Unit {0})
  d_drop d = set_dentry d (λ e. record e { hashed = false })

  abbrev pub d_add : ℕ → Option ℕ → M k (Unit {0})
  d_add d i = set_dentry d (λ e. record e { inode = i; hashed = true })

  abbrev pub d_instantiate : ℕ → ℕ → M k (Unit {0})
  d_instantiate d i = set_dentry d (λ e. record e { inode = some i })

  -- `if (err) goto out`, where what follows is the rest up to the label.
  abbrev pub if_zero : Ret → M k Ret → M k Ret
  if_zero (ok n) m = if n == 0 then m else return (ok n)
  if_zero (err e) m = return (err e)
