-- ===== src/Examples/Commands.antt =====
-- `agentbox clean` and the cleanup of `agentbox stop` at concrete inputs.
use agentbox_nix.Shared.{filter}
use agentbox_nix.Clean.Plan.Volumes.{volume_names, is_unused_volume, removed_volumes}
use agentbox_nix.Shared.{zero}
use agentbox_nix.Shared.{ℕ, suc, ◌≡◌, refl, ◌↔◌, false, List, [], ◌∷◌, All, Result, ok, err}
use agentbox_nix.Errors.{Error, io_error, codex}
use agentbox_nix.Session.Record.{SessionRecord, running}
use agentbox_nix.Session.Target.Input.{System, SessionTargetInput, by_stable_id}
use agentbox_nix.Clean.Scope.{CleanScope, image, volume, lock_file}
use agentbox_nix.Clean.Usage.{volume_resource}
use agentbox_nix.Clean.Plan.{
  CleanInventory, CleanCandidate, CleanPlan, from_inventory, available, locked, cache_volume,
}
use agentbox_nix.Clean.Plan.Laws.{IsRemovable, Spares, candidates-IsRemovable, candidates_spare}
use agentbox_nix.Clean.Inventory.{Podman, from_podman, image_candidates}
use agentbox_nix.Clean.Apply.{apply_clean_plan_with, apply_clean_plan_lem, final_state, AllRemoved}
use agentbox_nix.Stop.Cleanup
use agentbox_nix.Stop.Cleanup.{cleanup_managed_containers, cleanup_managed_containers_iff, AllGone}
use agentbox_nix.Stop.Command.{Services, stop_targets}
use agentbox_nix.Stop.Whole.{stop_targets_iff, AllStopped}
use agentbox_nix.Examples.Data.{digest, host, managed_inspect, session}

abbrev inventory : CleanInventory
inventory = record {
  containers = managed_inspect ∷ [];
  default_runtime_images =
      record { runtime = codex; image_name = "localhost/agentbox-codex:latest" }
      ∷ record { runtime = codex; image_name = "localhost/agentbox-codex:ctx-0123456789abcdef" }
      ∷ [];
  volumes = "agentbox-_w-020000000000" ∷ "agentbox-_v-030000000000" ∷ [];
  lock_files = available "/run/a.lock" ∷ locked "/run/b.lock" ∷ [];
}

abbrev everything : CleanScope
everything = image ∷ volume ∷ lock_file ∷ []

candidates-IsRemovable_example :
    All
      (IsRemovable everything inventory.containers)
      (from_inventory "fedcba9876543210" everything inventory).candidates
candidates-IsRemovable_example = candidates-IsRemovable "fedcba9876543210" everything inventory

candidates_spare_example :
    All
      (Spares "fedcba9876543210")
      (from_inventory "fedcba9876543210" everything inventory).candidates
candidates_spare_example = candidates_spare "fedcba9876543210" everything inventory

abbrev podman : Podman
podman = record {
  ps_all = ok [];
  inspect_one = λ id. ok managed_inspect;
  images_with_label = ok [];
  volumes = ok inventory.volumes;
  cleanup_lock_files = ok inventory.lock_files;
}

abbrev found : CleanInventory
found = record inventory { containers = []; default_runtime_images = [] }

inventory_found : from_podman podman everything ≡ ok found
unfolding from_podman image_candidates
inventory_found = refl

-- The state counts the attempts; every second removal fails.
abbrev remove : CleanCandidate → ℕ → Result Error (Unit {0}) × ℕ
remove candidate zero = (ok tt, 1)
remove candidate (suc n) = (err (io_error "busy"), suc (suc n))

abbrev plan : CleanPlan
plan = record {
  candidates =
      cache_volume (volume_resource "agentbox-_v-030000000000")
      ∷ cache_volume (volume_resource "agentbox-_u-040000000000")
      ∷ [];
  skipped = [];
}

apply_clean_plan_lem_example :
    ((apply_clean_plan_with ℕ (λ failures. io_error "partial clean failed") remove plan 0).1.state
      ≡ final_state ℕ remove plan.candidates 0)
    × (((apply_clean_plan_with ℕ (λ failures. io_error "partial clean failed") remove plan 0).0
          ≡ ok tt)
        ↔ AllRemoved ℕ remove plan.candidates 0)
apply_clean_plan_lem_example =
    apply_clean_plan_lem ℕ (λ failures. io_error "partial clean failed") remove plan 0

-- The state counts the containers that were stopped; each is gone after its stop.
abbrev stopping : Cleanup.Host ℕ
stopping = record {
  stop_ignore = λ name n. (ok tt, suc n);
  container_exists = λ name n. (ok false, n);
  remove_attach_token = λ s n. n;
}

abbrev sessions : List SessionRecord
sessions =
    session "0a0000000000" "/w" "agentbox-a" running
    ∷ session "1b0000000000" "/v" "agentbox-b" running
    ∷ []

cleanup_managed_containers_iff_example :
    ((cleanup_managed_containers ℕ stopping sessions 0).0 ≡ []) ↔ AllGone ℕ stopping sessions 0
cleanup_managed_containers_iff_example = cleanup_managed_containers_iff ℕ stopping sessions 0

abbrev system : System
system = record { sha256 = digest; host = host; exists = λ path. false }

abbrev services : Services ℕ
services = record {
  system = system;
  host = stopping;
  acquire_lock = λ root n. (ok tt, n);
  release_lock = λ root n. n;
  discover_sessions = λ root n. (ok sessions, n);
  discover_agentbox_containers = λ n. (ok sessions, n);
  stop_failed = λ failures. io_error "partial stop failed";
  targets_failed = λ failures. io_error "failed to stop";
}

abbrev targets : List SessionTargetInput
targets = by_stable_id "0a" ∷ by_stable_id "1b" ∷ []

stop_targets_iff_example :
    ((stop_targets ℕ services targets false 0).0 ≡ ok tt) ↔ AllStopped ℕ services false targets 0
stop_targets_iff_example = stop_targets_iff ℕ services false targets 0

removed_volumes_example :
    volume_names (from_inventory "fedcba9876543210" everything inventory).candidates
    ≡ filter (is_unused_volume inventory.containers) inventory.volumes
removed_volumes_example = removed_volumes "fedcba9876543210" everything inventory
