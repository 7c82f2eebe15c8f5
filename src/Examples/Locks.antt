-- ===== src/Examples/Locks.antt =====
-- The lock file of one workspace with concrete processes, and a lock directory.
use agentbox_nix.Shared.{
  string_discrete, ℕ, String, ◌==◌, string_eq, if◌then◌else◌, ◌≡◌, ◌≢◌, refl, Bool, true, none,
  some, List, [], ◌∷◌, All, eqb, Result, ok, arith,
}
use agentbox_nix.Errors.{Error}
use agentbox_nix.Text.{from_chars}
use agentbox_nix.Paths.{path_compare, components}
use agentbox_nix.Digest.{hex_lower}
use agentbox_nix.Clean.Plan.{WorkspaceLockFileStatus, available, locked}
use agentbox_nix.Lock.Protocol.{
  World, Step, create, acquire, check, find_existing, look, Reach, here, next, quiet, guarded,
  opened, found, idle, checked, lock_file_still_at_path, set_stage, move,
}
use agentbox_nix.Lock.Protocol
use agentbox_nix.Lock.Protocol.Exclusion.{one_guard}
use agentbox_nix.Lock.Protocol.Race.{two_guards}
use agentbox_nix.Lock.Files.{
  Entry, LockDirectory, cleanup_lock_files, lock_file_name, Trial, acquired, would_block,
}
use agentbox_nix.Lock.Files.Laws.{cleanup_lock_files_lem, Listed}
use agentbox_nix.Examples.Data.{digest}

-- Process 0 may remove files.
abbrev cleans : ℕ → Bool
cleans p = eqb p 0

only_first : (p : ℕ) → cleans p ≡ true → p ≡ 0
only_first p h = ground arith

-- Process 1 takes the guard of a new file, while process 0 has the file open to look at it.
abbrev one_guarded : World
one_guarded = move 1 (checked 7 (some 7)) (
    move 0 (found 7) (
      move 1 (Protocol.locked 7)
        (record { at_path = some 7; stage = set_stage 1 (opened 7) (λ _. idle) })))

reaches_guard : Reach cleans (quiet none) one_guarded
reaches_guard =
    next
      (next
        (next (next here (create 1 7 refl refl (λ q h. cc)))
          (acquire 1 7 refl (λ q h. ground arith)))
        (find_existing 0 7 refl refl))
      (check 1 7 refl)

has_guard : one_guarded.stage 1 ≡ guarded 7
unfolding checked lock_file_still_at_path
has_guard = refl

one_guard_example : ◌≡◌ {A = ℕ} 1 1
one_guard_example =
    one_guard cleans 0 only_first none one_guarded 1 1 7 7 reaches_guard has_guard has_guard

abbrev all_clean : ℕ → Bool
all_clean p = true

zero-ne-one : ◌≢◌ {A = ℕ} 0 1
zero-ne-one h = absurd (ground arith)

two_guards_example :
    (w : World) × Reach all_clean (quiet (some 7)) w
    × (w.stage 0 ≡ guarded 7)
    × (w.stage 1 ≡ guarded 8)
two_guards_example = two_guards all_clean 0 1 zero-ne-one refl refl 7

abbrev digest_name : String
digest_name = lock_file_name (from_chars (hex_lower (digest "/w")))

abbrev entries : List (Result Error Entry)
entries =
    ok (record { path = "/locks/b.lock"; name = some digest_name; is_file = ok true })
    ∷ ok (record { path = "/locks/notes"; name = some "notes"; is_file = ok true })
    ∷ ok (record { path = "/locks/a.lock"; name = some digest_name; is_file = ok true })
    ∷ []

abbrev trial : String → Trial
trial path = if path == "/locks/a.lock" then would_block else acquired

abbrev directory : LockDirectory
directory = record { read_dir = ok (some entries); open_and_try = λ path. ok (trial path) }

abbrev listed_files : List WorkspaceLockFileStatus
listed_files = locked "/locks/a.lock" ∷ available "/locks/b.lock" ∷ []

lists : cleanup_lock_files directory ≡ ok listed_files
unfolding cleanup_lock_files hex_lower string_discrete path_compare components
lists = refl

cleanup_lock_files_lem_example : All (Listed directory entries) listed_files
cleanup_lock_files_lem_example = cleanup_lock_files_lem directory entries listed_files refl lists
