-- ===== src/Clean/Plan.antt =====
-- src/commands/clean/plan.rs: which resources of the inventory are removed, and which are skipped.
-- A plan is filled from the front to the back, as the source pushes.
pub mod Laws
pub mod Volumes
use agentbox_nix.Shared.{
  String, Bool, true, false, not, ◌&&◌, Option, none, some, List, [], ◌∷◌, ◌++◌, any, if◌then◌else◌,
  ◌==◌, string_eq,
}
use agentbox_nix.Errors.{RuntimeKind}
use agentbox_nix.Podman.{PodmanContainerInspect}
use agentbox_nix.Workspace.{is_agentbox_workspace_resource_name}
use agentbox_nix.Clean.Scope.{
  ResourceKind, CleanResource, CleanScope, image, volume, lock_file, includes,
}
use agentbox_nix.Clean.Image.{default_image}
use agentbox_nix.Clean.Usage.{
  ResourceUsage, user, image_resource, volume_resource, lock_file_resource, usage_from_containers,
}

pub record DefaultRuntimeImageCandidate : Type 0 where
  pub runtime : RuntimeKind
  pub image_name : String

-- `WorkspaceLockFileStatus` of src/lock.rs; a lock file is its path.
pub data WorkspaceLockFileStatus : Type 0 where
  available locked : (path : String) → WorkspaceLockFileStatus

pub record CleanInventory : Type 0 where
  pub containers : List PodmanContainerInspect
  pub default_runtime_images : List DefaultRuntimeImageCandidate
  pub volumes : List String
  pub lock_files : List WorkspaceLockFileStatus

pub data CleanCandidate : Type 0 where
  default_runtime_image : RuntimeKind → CleanResource → CleanCandidate
  cache_volume : CleanResource → CleanCandidate
  workspace_lock_file : (path : String) → CleanResource → CleanCandidate

abbrev pub resource_of : CleanCandidate → CleanResource
resource_of (default_runtime_image _ resource) = resource
resource_of (cache_volume resource) = resource
resource_of (workspace_lock_file _ resource) = resource

pub data SkipReason : Type 0 where
  used_by_container mounted_by_container : (id : String) → SkipReason
  current_default_image locked_by_another_process : SkipReason

pub record SkippedResource : Type 0 where
  pub resource : CleanResource
  pub reason : SkipReason

pub record CleanPlan : Type 0 where
  pub candidates : List CleanCandidate
  pub skipped : List SkippedResource

abbrev pub empty_plan : CleanPlan
empty_plan = record { candidates = []; skipped = [] }

abbrev pub push_candidate : CleanCandidate → CleanPlan → CleanPlan
push_candidate candidate plan = record plan { candidates = plan.candidates ++ candidate ∷ [] }

abbrev pub push_skipped : CleanResource → SkipReason → CleanPlan → CleanPlan
push_skipped resource reason plan = record plan {
  skipped = plan.skipped ++ record { resource = resource; reason = reason } ∷ [];
}

abbrev pub image_candidate_or_skip :
    Option String → Bool → RuntimeKind → CleanResource → CleanPlan → CleanPlan
image_candidate_or_skip (some id) current runtime resource plan =
    push_skipped resource (used_by_container id) plan
image_candidate_or_skip none true runtime resource plan =
    push_skipped resource current_default_image plan
image_candidate_or_skip none false runtime resource plan =
    push_candidate (default_runtime_image runtime resource) plan

abbrev pub add_default_runtime_image_candidate :
    String → RuntimeKind → String → ResourceUsage → CleanPlan → CleanPlan
add_default_runtime_image_candidate context_hash runtime name usage plan =
    image_candidate_or_skip (user usage (image_resource name))
      (name == default_image context_hash runtime) runtime (image_resource name) plan

-- The loop over the images; `seen` holds the images of the earlier turns.
unfoldable pub add_images :
    String
    → List DefaultRuntimeImageCandidate
    → (seen : List String) → ResourceUsage
    → CleanPlan
    → CleanPlan
add_images context_hash [] seen usage plan = plan
add_images context_hash (candidate ∷ candidates) seen usage plan =
    let name = candidate.image_name in
    if any (λ other. other == name) seen
    then add_images context_hash candidates seen usage plan
    else add_images context_hash candidates (name ∷ seen) usage
        (add_default_runtime_image_candidate context_hash candidate.runtime name usage plan)

abbrev pub volume_candidate_or_skip : Option String → CleanResource → CleanPlan → CleanPlan
volume_candidate_or_skip (some id) resource plan =
    push_skipped resource (mounted_by_container id) plan
volume_candidate_or_skip none resource plan = push_candidate (cache_volume resource) plan

abbrev pub add_volume : Bool → String → ResourceUsage → CleanPlan → CleanPlan
add_volume true name usage plan =
    volume_candidate_or_skip (user usage (volume_resource name)) (volume_resource name) plan
add_volume false name usage plan = plan

-- The loop over the volumes.
unfoldable pub add_volumes : List String → ResourceUsage → CleanPlan → CleanPlan
add_volumes [] usage plan = plan
add_volumes (name ∷ names) usage plan =
    add_volumes names usage (add_volume (is_agentbox_workspace_resource_name name) name usage plan)

abbrev pub add_lock_file : WorkspaceLockFileStatus → CleanPlan → CleanPlan
add_lock_file (available path) plan =
    push_candidate (workspace_lock_file path (lock_file_resource path)) plan
add_lock_file (locked path) plan =
    push_skipped (lock_file_resource path) locked_by_another_process plan

-- The loop over the lock files.
unfoldable pub add_lock_files : List WorkspaceLockFileStatus → CleanPlan → CleanPlan
add_lock_files [] plan = plan
add_lock_files (file ∷ files) plan = add_lock_files files (add_lock_file file plan)

abbrev pub with_images : String → CleanScope → CleanInventory → CleanPlan → CleanPlan
with_images context_hash scope inventory plan =
    if includes scope image
    then add_images context_hash inventory.default_runtime_images []
        (usage_from_containers inventory.containers) plan
    else plan

abbrev pub with_volumes : CleanScope → CleanInventory → CleanPlan → CleanPlan
with_volumes scope inventory plan =
    if includes scope volume
    then add_volumes inventory.volumes (usage_from_containers inventory.containers) plan
    else plan

abbrev pub with_lock_files : CleanScope → CleanInventory → CleanPlan → CleanPlan
with_lock_files scope inventory plan =
    if includes scope lock_file then add_lock_files inventory.lock_files plan else plan

-- `CleanPlan::from_inventory`
unfoldable pub from_inventory : String → CleanScope → CleanInventory → CleanPlan
from_inventory context_hash scope inventory =
    with_lock_files scope inventory
      (with_volumes scope inventory (with_images context_hash scope inventory empty_plan))
