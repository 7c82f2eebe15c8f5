-- ===== src/Lock/Files.antt =====
-- The names of the lock files, their listing for `agentbox clean`, and one removal as its calls, from
-- src/lock.rs. The file system is a parameter.
pub mod Laws
use Prim.Native.String.{◌++◌ as ◌<>◌}
use agentbox_nix.Shared.{
  ℕ, Char, code, String, Bool, true, false, not, ◌&&◌, ◌||◌, Option, none, some, List, [], ◌∷◌, leb,
  eqb, all, length, map, map_option, Ordering, push_some, Result, ok, err, ◌>>=◌, if◌then◌else◌,
}
use agentbox_nix.Text.{chars, is_ascii_digit}
use agentbox_nix.Errors.{Error}
use agentbox_nix.Paths.{FilePath, path_compare}
use agentbox_nix.Clean.Plan.{WorkspaceLockFileStatus, available, locked}
use agentbox_nix.Clean.Apply.{WorkspaceLockFileRemoval, removed, missing, still_locked}

abbrev pub lock_file_extension : String
lock_file_extension = ".lock"

-- `lock_path_for_digest`, the name in the lock directory.
abbrev pub lock_file_name : String → String
lock_file_name digest64 = digest64 <> lock_file_extension

abbrev same_chars : List Char → List Char → Bool
same_chars [] [] = true
same_chars [] (d ∷ ds) = false
same_chars (c ∷ cs) [] = false
same_chars (c ∷ cs) (d ∷ ds) = eqb (code c) (code d) && same_chars cs ds

abbrev pub strip_suffix : List Char → List Char → Option (List Char)
strip_suffix suffix [] = if same_chars [] suffix then some [] else none
strip_suffix suffix (c ∷ cs) =
    let rest = strip_suffix suffix cs in
    if same_chars (c ∷ cs) suffix then some [] else map_option (λ r. c ∷ r) rest

-- `'0'..='9' | 'a'..='f'`
abbrev pub is_lower_hexdigit : Char → Bool
is_lower_hexdigit c = is_ascii_digit (code c) || leb b'a' (code c) && leb (code c) b'f'

abbrev is_digest : Option (List Char) → Bool
is_digest none = false
is_digest (some digest) = eqb (length digest) 64 && all is_lower_hexdigit digest

-- A name that is not UTF-8 is `none`.
unfoldable pub is_workspace_lock_file_name : Option String → Bool
is_workspace_lock_file_name none = false
is_workspace_lock_file_name (some name) =
    is_digest (strip_suffix (chars lock_file_extension) (chars name))

pub record Entry : Type 0 where
  pub path : FilePath
  pub name : Option String
  -- `file_type()?.is_file()`
  pub is_file : Result Error Bool

-- What opening a file and trying its lock come to.
pub data Trial : Type 0 where
  not_there acquired would_block : Trial

pub record LockDirectory : Type 0 where
  -- the entries, or `none` when there is no directory
  pub read_dir : Result Error (Option (List (Result Error Entry)))
  pub open_and_try : FilePath → Result Error Trial

abbrev status_of : FilePath → Trial → Option WorkspaceLockFileStatus
status_of path not_there = none
status_of path acquired = some (available path)
status_of path would_block = some (locked path)

unfoldable pub cleanup_lock_file_status :
    LockDirectory → FilePath → Result Error (Option WorkspaceLockFileStatus)
cleanup_lock_file_status directory path = do
  trial ← directory.open_and_try path
  ok (status_of path trial)

-- One round of the loop over the entries, `none` for `continue`.
unfoldable pub entry_status :
    LockDirectory → Result Error Entry → Result Error (Option WorkspaceLockFileStatus)
unfolding is_workspace_lock_file_name cleanup_lock_file_status
entry_status directory read = do
  entry ← read
  is_file ← entry.is_file
  if not is_file || not (is_workspace_lock_file_name entry.name)
      then ok none
      else cleanup_lock_file_status directory entry.path

unfoldable pub statuses_of :
    LockDirectory → List (Result Error Entry) → Result Error (List WorkspaceLockFileStatus)
unfolding entry_status
statuses_of directory [] = ok []
statuses_of directory (entry ∷ entries) = do
  status ← entry_status directory entry
  rest ← statuses_of directory entries
  ok (push_some status rest)

abbrev pub status_path : WorkspaceLockFileStatus → FilePath
status_path (available path) = path
status_path (locked path) = path

abbrev pub insert_status :
    WorkspaceLockFileStatus → List WorkspaceLockFileStatus → List WorkspaceLockFileStatus
insert_status status [] = status ∷ []
insert_status status (other ∷ others) =
    let rest = insert_status status others in
    elim (path_compare (status_path status) (status_path other)) [
      | Ordering.gt ↦ other ∷ rest
      | _ ↦ status ∷ other ∷ others
    ]

-- `sort_by`, which is stable.
abbrev pub sort_statuses : List WorkspaceLockFileStatus → List WorkspaceLockFileStatus
sort_statuses [] = []
sort_statuses (status ∷ statuses) = insert_status status (sort_statuses statuses)

abbrev listed :
    LockDirectory → Option (List (Result Error Entry)) → Result Error (List WorkspaceLockFileStatus)
listed directory none = ok []
listed directory (some entries) = do
  statuses ← statuses_of directory entries
  ok (sort_statuses statuses)

unfoldable pub cleanup_lock_files : LockDirectory → Result Error (List WorkspaceLockFileStatus)
unfolding statuses_of
cleanup_lock_files directory = do entries ← directory.read_dir; listed directory entries

module _ (State : Type 0) where
  -- The calls of a removal: `remove_file` says whether there was a file at the path.
  pub record RemovalHost : Type 0 where
    pub open_and_try : FilePath → State → Result Error Trial × State
    pub remove_file : FilePath → State → Result Error Bool × State

  abbrev removal_of : Bool → WorkspaceLockFileRemoval
  removal_of true = removed
  removal_of false = missing

  abbrev after_trial :
      RemovalHost
      → FilePath
      → Result Error Trial
      → State
      → Result Error WorkspaceLockFileRemoval × State
  after_trial host path (err error) state = (err error, state)
  after_trial host path (ok not_there) state = (ok missing, state)
  after_trial host path (ok would_block) state = (ok still_locked, state)
  after_trial host path (ok acquired) state =
      let (result, next) = host.remove_file path state in
      (result >>= λ there. ok (removal_of there), next)

  unfoldable pub remove_cleanup_lock_file :
      RemovalHost → FilePath → State → Result Error WorkspaceLockFileRemoval × State
  remove_cleanup_lock_file host path state =
      let (trial, next) = host.open_and_try path state in after_trial host path trial next
