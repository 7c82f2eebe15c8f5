-- ===== src/Lock/Protocol.antt =====
-- How processes share the lock file of one workspace: `WorkspaceLockStore::lock_digest` and
-- `WorkspaceLock::guard` of src/lock.rs on the one side, `cleanup_lock_file_status` and
-- `remove_cleanup_lock_file` on the other. A file is named by the number of its inode, which the
-- system gives to no second file while a process has the first one open. A lock is exclusive, belongs
-- to the file and not to its path, and ends when its holder closes the file.
pub mod Exclusion
pub mod Race
use agentbox_nix.Shared.{ℕ, Bool, true, false, Option, none, some, ◌≡◌, ◌≢◌, eqb, if◌then◌else◌}

-- Where a process is in the code.
pub data Stage : Type 0 where
  -- it has the file neither open nor locked
  idle : Stage
  -- `lock_digest` has opened the file
  opened : (file : ℕ) → Stage
  -- `self.lock.write()` has returned in `guard`
  locked : (file : ℕ) → Stage
  -- `guard` has returned a guard
  guarded : (file : ℕ) → Stage
  -- `open_existing_workspace_lock_file` has opened the file, for a look or for a removal
  found : (file : ℕ) → Stage
  -- `try_write` has returned in `cleanup_lock_file_status`
  looking : (file : ℕ) → Stage
  -- `try_write` has returned in `remove_cleanup_lock_file`
  removing : (file : ℕ) → Stage

pub record World : Type 0 where
  -- the file that stands at the path of the lock
  pub at_path : Option ℕ
  pub stage : ℕ → Stage

-- The file that a process has locked.
abbrev pub held : Stage → Option ℕ
held idle = none
held (opened file) = none
held (locked file) = some file
held (guarded file) = some file
held (found file) = none
held (looking file) = some file
held (removing file) = some file

-- The file that a process has open.
abbrev pub open_file : Stage → Option ℕ
open_file idle = none
open_file (opened file) = some file
open_file (locked file) = some file
open_file (guarded file) = some file
open_file (found file) = some file
open_file (looking file) = some file
open_file (removing file) = some file

abbrev same_file : ℕ → Option ℕ → Bool
same_file file none = false
same_file file (some other) = eqb file other

unfoldable pub lock_file_still_at_path : ℕ → Option ℕ → Bool
lock_file_still_at_path file at_path = same_file file at_path

-- The end of `guard`: without its file at the path, the lock is dropped with an error.
unfoldable pub checked : ℕ → Option ℕ → Stage
unfolding lock_file_still_at_path
checked file at_path = if lock_file_still_at_path file at_path then guarded file else idle

abbrev pub set_stage : ℕ → Stage → (ℕ → Stage) → ℕ → Stage
set_stage process stage stages q = if eqb process q then stage else stages q

abbrev pub move : ℕ → Stage → World → World
move process stage w = record w { stage = set_stage process stage w.stage }

-- No process has the file locked.
abbrev pub IsFree : World → ℕ → Type 0
IsFree w file = (q : ℕ) → held (w.stage q) ≢ some file

abbrev pub IsUnopened : World → ℕ → Type 0
IsUnopened w file = (q : ℕ) → open_file (w.stage q) ≢ some file

-- What the processes may do, if those that the test accepts may remove files.
pub data Step (may_clean : ℕ → Bool) (w : World) : World → Type 0 where
  -- `open_lock_file` creates the file
  create :
      (p file : ℕ)
      → w.stage p ≡ idle
      → w.at_path ≡ none
      → IsUnopened w file
      → Step may_clean w (record { at_path = some file; stage = set_stage p (opened file) w.stage })
  -- `open_lock_file` opens the file that is there
  open_there :
      (p file : ℕ)
      → w.stage p ≡ idle
      → w.at_path ≡ some file
      → Step may_clean w (move p (opened file) w)
  -- `self.lock.write()` returns
  acquire :
      (p file : ℕ)
      → w.stage p ≡ opened file
      → IsFree w file
      → Step may_clean w (move p (locked file) w)
  -- `lock_file_still_at_path` decides
  check :
      (p file : ℕ) → w.stage p ≡ locked file → Step may_clean w (move p (checked file w.at_path) w)
  -- `open_existing_workspace_lock_file`
  find_existing :
      (p file : ℕ)
      → w.stage p ≡ idle
      → w.at_path ≡ some file
      → Step may_clean w (move p (found file) w)
  -- `try_write` of a look
  look :
      (p file : ℕ)
      → w.stage p ≡ found file
      → IsFree w file
      → Step may_clean w (move p (looking file) w)
  -- `try_write` of a removal
  try_remove :
      (p file : ℕ)
      → may_clean p ≡ true
      → w.stage p ≡ found file
      → IsFree w file
      → Step may_clean w (move p (removing file) w)
  -- `remove_file` takes away what stands at the path, and the lock is dropped
  remove_file :
      (p file : ℕ)
      → w.stage p ≡ removing file
      → Step may_clean w (record { at_path = none; stage = set_stage p idle w.stage })
  -- a guard is dropped, a call returns an error, `try_write` would block, or the process ends
  leave : (p : ℕ) → Step may_clean w (move p idle w)

-- What the processes reach.
pub data Reach (may_clean : ℕ → Bool) (start : World) : World → Type 0 where
  here : Reach may_clean start start
  next : {w v : World} → Reach may_clean start w → Step may_clean w v → Reach may_clean start v

-- Nobody has the file open; it is there, or it is not.
abbrev pub quiet : Option ℕ → World
quiet at_path = record { at_path = at_path; stage = λ _. idle }
