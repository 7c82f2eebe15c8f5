-- ===== src/Clean/Usage.antt =====
-- src/commands/clean/usage.rs: which containers use which images and volumes.
pub mod Laws
use agentbox_nix.Shared.{
  String, ◌≡◌, Bool, true, false, ◌&&◌, ◌||◌, Option, none, some, List, [], ◌∷◌, any, if◌then◌else◌,
  ◌==◌, string_eq,
}
use agentbox_nix.Podman.{PodmanContainerInspect, PodmanContainerMount, named_volume_name}
use agentbox_nix.Clean.Scope.{ResourceKind, CleanResource, image, volume, lock_file, resource_eq}

-- A `BTreeMap` from resources to ids of containers; only lookups depend on it, so its order is not
-- kept.
abbrev pub ResourceUsage : Type 0
ResourceUsage = List (CleanResource × String)

-- `ResourceUsage::user`
unfoldable pub user : ResourceUsage → CleanResource → Option String
user [] resource = none
user ((used, id) ∷ users) resource =
    let rest = user users resource in if resource_eq used resource then some id else rest

-- `entry(resource).or_insert_with(id)`
abbrev pub or_insert : Option String → CleanResource → String → ResourceUsage → ResourceUsage
or_insert none resource id usage = (resource, id) ∷ usage
or_insert (some _) resource id usage = usage

unfoldable pub mark_used : CleanResource → String → ResourceUsage → ResourceUsage
mark_used resource id usage = or_insert (user usage resource) resource id usage

abbrev pub image_resource : String → CleanResource
image_resource name = record { kind = image; name = name }

abbrev pub volume_resource : String → CleanResource
volume_resource name = record { kind = volume; name = name }

abbrev pub lock_file_resource : String → CleanResource
lock_file_resource name = record { kind = lock_file; name = name }

abbrev pub mark_volume : Option String → String → ResourceUsage → ResourceUsage
mark_volume none id usage = usage
mark_volume (some name) id usage = mark_used (volume_resource name) id usage

unfoldable pub mark_mounts : List PodmanContainerMount → String → ResourceUsage → ResourceUsage
mark_mounts [] id usage = usage
mark_mounts (mount ∷ mounts) id usage =
    mark_mounts mounts id (mark_volume (named_volume_name mount) id usage)

-- The loop of `ResourceUsage::from_containers`.
unfoldable pub mark_containers : List PodmanContainerInspect → ResourceUsage → ResourceUsage
mark_containers [] usage = usage
mark_containers (container ∷ containers) usage = mark_containers containers (
    mark_mounts container.mounts container.id
      (mark_used (image_resource container.image_name) container.id usage))

abbrev pub usage_from_containers : List PodmanContainerInspect → ResourceUsage
usage_from_containers containers = mark_containers containers []
