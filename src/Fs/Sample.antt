-- ===== src/Fs/Sample.antt =====
-- A small lower file system, and a state of the stacked one on it.
use dazukofs_linux.Base.{if◌then◌else◌, ℕ, ◌+◌, true, false, none, some, List, [], ◌∷◌, ◌==◌}
use dazukofs_linux.Events.State.{ok}
use dazukofs_linux.Fs.Kernel.{Kernel, Kind, cached, fresh, to, found, LowerFile, Io}
use dazukofs_linux.Fs.State.{Fs, Dentry, Inode, Iops, Fops, File, Page}

abbrev closed_file : LowerFile
closed_file = record { inode = 104; f_pos = 0; f_version = 0; f_ra = 0 }

abbrev answer : (n : ℕ) → List ℕ → LowerFile → Io
answer n bytes file = record { ret = ok n; bytes = bytes; pos = 4100; file = file }

-- The dentry `n` has the inode `n + 100`, the parent of each is 1, links answer with `n` bytes, and
-- the world is the contents of the one page.
abbrev pub lower : (n : ℕ) → Kernel
lower n = record {
  World = List ℕ;
  Attr = ℕ;
  Stat = ℕ;
  blank = 0;
  copy_attr_all = λ a b. b;
  copy_attr_times = λ a b. b;
  copy_attr_atime = λ a b. b;
  copy_inode_size = λ a b. b;
  copy_nlink = λ a b. b;
  copy_blocks = λ a b. b;
  copy_size = λ a b. b;
  d_parent = λ d w. 1;
  d_inode = λ d w. some (d + 100);
  d_sb = λ d w. 6;
  i_sb = λ i w. 6;
  i_ino = λ i w. i;
  i_kind = λ i w. Kind.dir;
  attr = λ i w. i;
  igrab = λ i w. (true, w);
  iget5_locked = λ test sb l w. (if test l then cached l else fresh l, w);
  kmem_cache_zalloc = λ w. (true, w);
  lookup_one_len = λ name p w. (to 4, w);
  vfs_mknod = λ p d mode dev w. (ok 0, w);
  vfs_mkdir = λ p d mode w. (ok 0, w);
  vfs_create = λ p d mode excl w. (ok 0, w);
  vfs_symlink = λ p d name w. (ok 0, w);
  vfs_link = λ old p d w. (ok 0, w);
  vfs_unlink = λ p d w. (ok 0, w);
  vfs_rmdir = λ p d w. (ok 0, w);
  vfs_rename = λ a b c d w. (ok 0, w);
  has_readlink = λ i w. true;
  readlink = λ d size w. ((ok n, []), w);
  kmalloc = λ w. (true, w);
  inode_permission = λ i mask w. (ok 0, w);
  generic_fillattr = λ a. a;
  has_getattr = λ i w. true;
  getattr = λ m d w. ((ok 0, 0), w);
  notify_change = λ d ia w. (ok 0, w);
  has_xattr = λ x i w. true;
  xattr = λ x d w. ((ok 0, []), w);
  has_revalidate = λ d w. true;
  vfs_path_lookup = λ d m name w. (some (23, 8), w);
  d_revalidate = λ d w. (ok 1, w);
  has_hash = λ d w. false;
  d_hash = λ d name w. (ok 0, w);
  kern_path = λ name w. (found 3 8, w);
  d_alloc = λ w. (some 2, w);
  has_statfs = λ sb w. true;
  statfs = λ d w. (ok 0, w);
  has_file_op = λ op f w. true;
  llseek = λ f o p file w. (answer 0 [] file, w);
  generic_file_llseek = λ f o p file w. (answer 0 [] file, w);
  vfs_read = λ f c p file w. (answer 0 [] file, w);
  vfs_write = λ f buf p file w. (answer 100 [] file, w);
  vfs_readdir = λ f file w. (answer 0 [] file, w);
  file_call = λ op f a w. (ok 0, w);
  dentry_open = λ d m flags w. (to 9, w);
  lower_file = λ f w. closed_file;
  read_cache_page = λ i j w. (to 5, w);
  grab_cache_page = λ i j w. (some 5, w);
  kmap = λ p w. (true, w);
  page_data = λ p w. w;
  write_page = λ p bytes w. bytes;
  set_page_dirty = λ p w. w;
}

-- The dentry 10 is bare, the others stand over the dentry `n + 20`; the root is 2.
abbrev dentry : ℕ → Dentry
dentry d = record {
  parent = 2;
  name = b'f' ∷ [];
  private_data =
      if d == 10 then none else some (record { lower_dentry = some (d + 20); lower_mnt = some 8 });
  inode = some (d + 200);
  has_dops = true;
  hashed = true;
}

abbrev inode : (n i : ℕ) → Inode (lower n)
inode n i = record {
  lower_inode = i;
  i_sb = 7;
  i_ino = i;
  i_version = 1;
  i_op = Iops.main_iops;
  i_fop = Fops.main_fops;
  has_aops = true;
  attr = 0;
}

abbrev file : ℕ → File
file f = record {
  dentry = 3;
  private_data = some (some 9);
  f_flags = 0;
  f_pos = 0;
  f_version = 0;
  f_ra = 0;
}

abbrev page : ℕ → Page
page p = record { inode = 203; index = p; contents = b'o' ∷ []; uptodate = true }

-- The cache has each page of each inode.
abbrev pub stacked : (n : ℕ) → Fs (lower n)
stacked n = record {
  world = b'n' ∷ [];
  dentries = dentry;
  inodes = inode n;
  files = file;
  lower_files = λ f. closed_file;
  page_at = λ i j. some j;
  pages = page;
  sb_private = λ sb. some (some 6);
  s_root = λ sb. some 2;
  trace = [];
}
