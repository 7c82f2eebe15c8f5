-- ===== src/Examples/Starts.antt =====
-- Starts at concrete inputs: one that is interrupted on a machine where the container runs, one whose
-- workspace has no container, and the development environment of a nested directory.
use agentbox_nix.Shared.{
  ◌++◌, ◌≡◌, ◌↔◌, ◌⊎◌, inl, refl, sym, String, Bool, true, false, some, List, [], ◌∷◌, Result, ok,
  ok_injective,
}
use agentbox_nix.Errors.{Error}
use agentbox_nix.Paths.{root_dir, normal}
use agentbox_nix.Podman.{PodmanContainerInspect}
use agentbox_nix.Session.Record.{SessionRecord}
use agentbox_nix.Stop.Cleanup.{stop_and_verify}
use agentbox_nix.Launch.Existing.{
  ExistingResourceScope, agentbox_containers, require_absent, allow_existing,
  ensure_required_resources_absent, ensure_required_resources_absent_iff,
}
use agentbox_nix.Launch.Interrupted.{InterruptHost, interrupted_error, removed_new_volume}
use agentbox_nix.Launch.Interrupted.Laws.{
  IsHonest, IsReport, stop_failures, later_failures, interrupted_error-Says,
  interrupted_error-keeps_volume,
}
use agentbox_nix.DevEnv.{Surroundings, nearest_file, same_directory}
use agentbox_nix.DevEnv.Nearest.{IsNearest, nearest_file-IsNearest}
use agentbox_nix.Examples.Data.{digest, workspace, managed_inspect}

record Machine : Type 0 where
  container : Bool
  volume : Bool

abbrev has_container : Machine → Bool
has_container m = m.container

abbrev has_volume : Machine → Bool
has_volume m = m.volume

abbrev host : InterruptHost Machine
host = record {
  podman = record {
    stop_ignore = λ name m. (ok tt, record m { container = false });
    container_exists = λ name m. (ok m.container, m);
    remove_attach_token = λ session m. m;
  };
  remove_volume = λ name m. (ok tt, record m { volume = false });
  is_interrupted = λ m. (true, m);
}

honest : IsHonest host workspace has_container has_volume
honest = record {
  stop_keeps = λ s. refl;
  exists_tells = λ s b h. sym (stated s.container b h);
  exists_keeps_container = λ s. refl;
  exists_keeps_volume = λ s. refl;
  removal_keeps = λ s. refl;
  removal_removes = λ s u h. refl;
}
  where
    stated : (a b : Bool) → ◌≡◌ {A = Result String Bool} (ok a) (ok b) → a ≡ b
    stated a b h = ok_injective String a b h

abbrev running : Machine
running = record { container = true; volume = true }

interrupted_error-Says_example :
    IsReport host workspace has_container has_volume
      (interrupted_error Machine host workspace false running).0
      (stop_failures host workspace has_container has_volume (ok tt)
        ++ later_failures host workspace has_container has_volume false (ok false) (ok tt))
      running
      (interrupted_error Machine host workspace false running).1
interrupted_error-Says_example =
    interrupted_error-Says host workspace has_container has_volume honest false running

is_removed : (interrupted_error Machine host workspace false running).0 ≡ removed_new_volume
unfolding interrupted_error stop_and_verify
is_removed = refl

interrupted_error-keeps_volume_example :
    has_volume (interrupted_error Machine host workspace true running).1 ≡ has_volume running
interrupted_error-keeps_volume_example =
    interrupted_error-keeps_volume host workspace has_container has_volume honest true running
      (inl refl)

abbrev discover : ExistingResourceScope → Result Error (List SessionRecord)
discover scope = ok []

abbrev inspect_one : String → Result Error PodmanContainerInspect
inspect_one name = ok managed_inspect

ensure_required_resources_absent_iff_example :
    (ensure_required_resources_absent digest inspect_one discover workspace
        (require_absent agentbox_containers)
      ≡ ok tt)
    ↔ ((require_absent agentbox_containers ≡ allow_existing)
        ⊎ ((scope : ExistingResourceScope) × (require_absent agentbox_containers
              ≡ require_absent scope)
            × (discover scope ≡ ok [])))
ensure_required_resources_absent_iff_example =
    ensure_required_resources_absent_iff digest inspect_one discover workspace
      (require_absent agentbox_containers)

-- Only /w/app has files.
abbrev surroundings : Surroundings
surroundings = record {
  is_file = λ d name. same_directory d (normal "app" ∷ normal "w" ∷ root_dir ∷ []);
  dev_shell_exists = λ d attr. ok false;
}

nearest_file-IsNearest_example :
    IsNearest
      (λ d. surroundings.is_file d "devenv.nix")
      (normal "w" ∷ root_dir ∷ [])
      (normal "api" ∷ normal "app" ∷ [])
      (nearest_file surroundings
        (normal "api" ∷ normal "app" ∷ normal "w" ∷ root_dir ∷ [])
        (normal "w" ∷ root_dir ∷ [])
        "devenv.nix")
nearest_file-IsNearest_example =
    nearest_file-IsNearest surroundings (normal "api" ∷ normal "app" ∷ []) (normal "w")
      (root_dir ∷ []) "devenv.nix"

is_nearest :
    nearest_file surroundings
      (normal "api" ∷ normal "app" ∷ normal "w" ∷ root_dir ∷ [])
      (normal "w" ∷ root_dir ∷ [])
      "flake.nix"
    ≡ some (normal "app" ∷ normal "w" ∷ root_dir ∷ [])
unfolding nearest_file
is_nearest = refl
