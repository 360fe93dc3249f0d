-- ===== src/Fs/Older/Examples.antt =====
-- Runs of the older functions over the concrete lower file system.
use dazukofs_linux.Base.{ℕ}
use dazukofs_linux.Events.State.{Ret, ok}
use dazukofs_linux.Fs.Sample.{lower}
use dazukofs_linux.Fs.Older.{NdPath}

-- The lower file system answers 0 whatever the path.
abbrev accepts : (dir dentry mode : ℕ) → NdPath → (lower 0).World → Ret × (lower 0).World
accepts dir dentry mode path w = (ok 0, w)

abbrev still_valid : ℕ → NdPath → (lower 0).World → Ret × (lower 0).World
still_valid dentry path w = (ok 1, w)
