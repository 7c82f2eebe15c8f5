-- ===== src/Lock/Files/Laws.antt =====
-- What `agentbox clean` takes for a lock file, and what it lists.
use Prim.Native.String.append
use Prim.Native.String.{◌++◌ as ◌<>◌}
use agentbox_nix.Shared.{
  ℕ, Char, String, Bool, true, false, not, ◌||◌, ◌≡◌, refl, ap, sym, ◌∙◌, ◌⊎◌, inl, inr, Option,
  none, some, List, [], ◌∷◌, ◌++◌, length, length-append, All, Result, ok, err, >>=-eq-ok,
  push_some, ok_injective, Ordering, subst, if◌then◌else◌, arith,
}
use agentbox_nix.Text.{chars, from_chars}
use agentbox_nix.Errors.{Error}
use agentbox_nix.Paths.{FilePath, path_compare}
use agentbox_nix.Digest.{hex_lower}
use agentbox_nix.Digest.Laws.{hex_lower-digits, length-hex_lower}
use agentbox_nix.Clean.Plan.{WorkspaceLockFileStatus, available, locked}
use agentbox_nix.Lock.Files.{
  lock_file_extension, lock_file_name, same_chars, strip_suffix, is_lower_hexdigit,
  is_workspace_lock_file_name, Entry, LockDirectory, entry_status, statuses_of, status_path,
  insert_status, sort_statuses, cleanup_lock_files, cleanup_lock_file_status, status_of, Trial,
  not_there, acquired, would_block,
}

chars-append : (cs : List Char) (s : String) → chars (from_chars cs <> s) ≡ cs ++ chars s
chars-append [] s = ap chars (append.nil s)
chars-append (c ∷ cs) s =
    ap chars (append.cons c (from_chars cs) s) ∙ ap (λ r. c ∷ r) (chars-append cs s)

same_chars_refl : (cs : List Char) → same_chars cs cs ≡ true
same_chars_refl [] = refl
same_chars_refl (c ∷ cs) = ground (arith, same_chars_refl cs)

same_chars-length : (cs ds : List Char) → same_chars cs ds ≡ true → length cs ≡ length ds
same_chars-length [] [] h = refl
same_chars-length [] (d ∷ ds) h = cc
same_chars-length (c ∷ cs) [] h = cc
same_chars-length (c ∷ cs) (d ∷ ds) h = ground (arith, same_chars-length cs ds)

strip_suffix-append :
    (digest : List Char) (d : Char) (suffix : List Char)
    → strip_suffix (d ∷ suffix) (digest ++ (d ∷ suffix)) ≡ some digest
strip_suffix-append [] d suffix = ground (arith, same_chars_refl suffix)
strip_suffix-append (c ∷ cs) d suffix = ground (
  arith,
  same_chars-length (c ∷ (cs ++ (d ∷ suffix))) (d ∷ suffix),
  length-append cs (d ∷ suffix),
  strip_suffix-append cs d suffix,
)

-- Cleanup recognises the lock file of every git root, whose name is its digest of 32 bytes.
pub lock_file_name-recognised :
    (bytes : List ℕ)
    → length bytes ≡ 32
    → is_workspace_lock_file_name (some (lock_file_name (from_chars (hex_lower bytes)))) ≡ true
unfolding is_workspace_lock_file_name
lock_file_name-recognised bytes h = rw (chars-append (hex_lower bytes) lock_file_extension) (
    rw (strip_suffix-append (hex_lower bytes) "." (chars "lock"))
      (ground (arith, length-hex_lower bytes, hex_lower-digits is_lower_hexdigit refl bytes)))

-- The entry that a status was made for.
abbrev pub IsLockEntry : Result Error Entry → WorkspaceLockFileStatus → Type 0
IsLockEntry (err error) status = ⊥
IsLockEntry (ok entry) status =
    (status_path status ≡ entry.path)
    × (entry.is_file ≡ ok true)
    × (is_workspace_lock_file_name entry.name ≡ true)

abbrev pub ForEntry : List (Result Error Entry) → WorkspaceLockFileStatus → Type 0
ForEntry [] status = ⊥
ForEntry (entry ∷ entries) status = IsLockEntry entry status ⊎ ForEntry entries status

-- `available` when the lock could be taken at once, `locked` when another process had it.
abbrev pub SaysTrial : LockDirectory → WorkspaceLockFileStatus → Type 0
SaysTrial directory (available path) = directory.open_and_try path ≡ ok acquired
SaysTrial directory (locked path) = directory.open_and_try path ≡ ok would_block

status_of_lem :
    (directory : LockDirectory) (path : FilePath) (trial : Trial) (status : WorkspaceLockFileStatus)
    → directory.open_and_try path ≡ ok trial
    → status_of path trial ≡ some status
    → (status_path status ≡ path) × SaysTrial directory status
status_of_lem directory path not_there status t h = cc
status_of_lem directory path acquired (available p) t h =
    let same : path ≡ p = ground arith in
    (sym same, subst (λ q. directory.open_and_try q ≡ ok acquired) same t)
status_of_lem directory path acquired (locked p) t h = cc
status_of_lem directory path would_block (available p) t h = cc
status_of_lem directory path would_block (locked p) t h =
    let same : path ≡ p = ground arith in
    (sym same, subst (λ q. directory.open_and_try q ≡ ok would_block) same t)

accepted :
    (directory : LockDirectory) (path : FilePath) (is_file recognised : Bool)
    (status : WorkspaceLockFileStatus)
    → (if not is_file || not recognised then ok none else cleanup_lock_file_status directory path)
      ≡ ok (some status)
    → (is_file ≡ true)
      × (recognised ≡ true)
      × (status_path status ≡ path)
      × SaysTrial directory status
unfolding cleanup_lock_file_status
accepted directory path false recognised status h = cc
accepted directory path true false status h = cc
accepted directory path true true status h =
    let (trial, tried, made) = >>=-eq-ok (directory.open_and_try path) _ h in
    let (place, says) =
      status_of_lem directory path trial status tried
        (ok_injective Error (status_of path trial) (some status) made) in
    (refl, refl, place, says)

entry_status_lem :
    (directory : LockDirectory) (read : Result Error Entry) (status : WorkspaceLockFileStatus)
    → entry_status directory read ≡ ok (some status)
    → IsLockEntry read status × SaysTrial directory status
unfolding entry_status
entry_status_lem directory (err error) status h = cc
entry_status_lem directory (ok entry) status h =
    let (is_file, file_eq, next) = >>=-eq-ok entry.is_file _ h in
    let (file, name, place, says) =
      accepted directory entry.path is_file (is_workspace_lock_file_name entry.name) status next in
    ((place, file_eq ∙ ap ok file, name), says)

All-map {ℓ} :
    {A : Type ℓ} (P Q : A → Type 0) (xs : List A) → ((x : A) → P x → Q x) → All P xs → All Q xs
All-map P Q [] f h = tt
All-map P Q (x ∷ xs) f (p, h) = (f x p, All-map P Q xs f h)

abbrev pub Listed : LockDirectory → List (Result Error Entry) → WorkspaceLockFileStatus → Type 0
Listed directory entries status = ForEntry entries status × SaysTrial directory status

later :
    (directory : LockDirectory) (entry : Result Error Entry) (entries : List (Result Error Entry))
    (rest : List WorkspaceLockFileStatus)
    → All (Listed directory entries) rest
    → All (Listed directory (entry ∷ entries)) rest
later directory entry entries rest =
    All-map (Listed directory entries) (Listed directory (entry ∷ entries)) rest
      (λ s (for, says). (inr for, says))

push_status :
    (directory : LockDirectory) (entry : Result Error Entry) (entries : List (Result Error Entry))
    (status : Option WorkspaceLockFileStatus) (rest : List WorkspaceLockFileStatus)
    → entry_status directory entry ≡ ok status
    → All (Listed directory entries) rest
    → All (Listed directory (entry ∷ entries)) (push_some status rest)
push_status directory entry entries none rest made listed =
    later directory entry entries rest listed
push_status directory entry entries (some status) rest made listed =
    let (is_entry, says) = entry_status_lem directory entry status made in
    ((inl is_entry, says), later directory entry entries rest listed)

statuses_of_lem :
    (directory : LockDirectory) (entries : List (Result Error Entry))
    (statuses : List WorkspaceLockFileStatus)
    → statuses_of directory entries ≡ ok statuses
    → All (Listed directory entries) statuses
unfolding statuses_of
statuses_of_lem directory [] statuses h =
    subst (All (Listed directory [])) (ok_injective Error [] statuses h) tt
statuses_of_lem directory (entry ∷ entries) statuses h =
    let (status, made, next) = >>=-eq-ok (entry_status directory entry) _ h in
    let (rest, rest_made, end) = >>=-eq-ok (statuses_of directory entries) _ next in
    subst (All (Listed directory (entry ∷ entries)))
      (ok_injective Error (push_some status rest) statuses end)
      (push_status directory entry entries status rest made
        (statuses_of_lem directory entries rest rest_made))

insert_status-All :
    (P : WorkspaceLockFileStatus → Type 0) (status : WorkspaceLockFileStatus)
    (statuses : List WorkspaceLockFileStatus)
    → P status
    → All P statuses
    → All P (insert_status status statuses)
insert_status-All P status [] p ps = (p, tt)
insert_status-All P status (other ∷ others) p (q, qs) =
    elim (path_compare (status_path status) (status_path other))
      as (λ o. All P (elim o [
        | Ordering.gt ↦ other ∷ insert_status status others
        | _ ↦ status ∷ other ∷ others
      ])) [
        | Ordering.lt ↦ (p, (q, qs))
        | Ordering.eq ↦ (p, (q, qs))
        | Ordering.gt ↦ (q, insert_status-All P status others p qs)
      ]

sort_statuses-All :
    (P : WorkspaceLockFileStatus → Type 0) (statuses : List WorkspaceLockFileStatus)
    → All P statuses
    → All P (sort_statuses statuses)
sort_statuses-All P [] ps = tt
sort_statuses-All P (status ∷ statuses) (p, ps) =
    insert_status-All P status (sort_statuses statuses) p (sort_statuses-All P statuses ps)

-- Each lock file that a clean lists stands in the lock directory as a regular file with the name of
-- a digest, and is listed as available only if its lock could be taken, and as locked only if
-- another process had it.
pub cleanup_lock_files_lem :
    (directory : LockDirectory) (entries : List (Result Error Entry))
    (statuses : List WorkspaceLockFileStatus)
    → directory.read_dir ≡ ok (some entries)
    → cleanup_lock_files directory ≡ ok statuses
    → All (Listed directory entries) statuses
unfolding cleanup_lock_files
cleanup_lock_files_lem directory entries statuses read h =
    let (found, made, end) = >>=-eq-ok (statuses_of directory entries) _ (rw read at h) in
    subst (All (Listed directory entries)) (ok_injective Error (sort_statuses found) statuses end) (
      sort_statuses-All (Listed directory entries) found
        (statuses_of_lem directory entries found made))
