-- ===== src/Clean/Usage/Laws.antt =====
-- A resource without a user is one that no container uses.
use agentbox_nix.Clean.Usage.{or_insert}
use agentbox_nix.Shared.{
  String, ◌≡◌, refl, sym, ap, ◌∙◌, Bool, true, false, ◌&&◌, ◌||◌, Option, none, some, List, [], ◌∷◌,
  any, is_some, ◌==◌, string_eq, ==_sound, Bool-cases, inl, inr, arith,
}
use agentbox_nix.Podman.{PodmanContainerInspect, PodmanContainerMount, named_volume_name}
use agentbox_nix.Clean.Scope.{
  ResourceKind, CleanResource, image, volume, lock_file, resource_eq, kind_eq,
}
use agentbox_nix.Clean.Usage.{
  ResourceUsage, user, mark_used, image_resource, volume_resource, mark_volume, mark_mounts,
  mark_containers, usage_from_containers,
}

abbrev pub mounts_volume : String → Option String → Bool
mounts_volume name none = false
mounts_volume name (some other) = other == name

abbrev pub mount_uses : CleanResource → PodmanContainerMount → Bool
mount_uses resource mount =
    kind_eq volume resource.kind && mounts_volume resource.name (named_volume_name mount)

-- Does the container use the resource? Its image by the name that it was created with, its volumes
-- by name.
abbrev pub uses : CleanResource → PodmanContainerInspect → Bool
uses resource container =
    resource_eq (image_resource container.image_name) resource
    || any (mount_uses resource) container.mounts

kind_eq_sound : (a b : ResourceKind) → kind_eq a b ≡ true → a ≡ b
kind_eq_sound image image h = refl
kind_eq_sound volume volume h = refl
kind_eq_sound lock_file lock_file h = refl
kind_eq_sound image volume h = cc
kind_eq_sound image lock_file h = cc
kind_eq_sound volume image h = cc
kind_eq_sound volume lock_file h = cc
kind_eq_sound lock_file image h = cc
kind_eq_sound lock_file volume h = cc

resource_eq_sound : (a b : CleanResource) → resource_eq a b ≡ true → a ≡ b
resource_eq_sound a b h =
    let kinds : kind_eq a.kind b.kind ≡ true = ground arith in
    let names : (a.name == b.name) ≡ true = ground arith in
    ground (arith, kind_eq_sound a.kind b.kind kinds, ==_sound a.name b.name names)

or_assoc : (a b c : Bool) → ((a || b) || c) ≡ (a || (b || c))
or_assoc a b c = ground arith

mark_used_lem :
    (resource used : CleanResource) (id : String) (usage : ResourceUsage)
    → is_some (user (mark_used used id usage) resource)
      ≡ (is_some (user usage resource) || resource_eq used resource)
unfolding mark_used user
mark_used_lem resource used id usage = by_user (user usage used) refl
  where
    by_user :
        (o : Option String)
        → user usage used ≡ o
        → is_some (user (or_insert o used id usage) resource)
          ≡ (is_some (user usage resource) || resource_eq used resource)
    by_user none e = ground arith
    by_user (some other) e = elim (Bool-cases (resource_eq used resource)) [
      | inr b ↦ ground arith
      | inl b ↦
          let same : user usage resource ≡ some other =
            ap (user usage) (sym (resource_eq_sound used resource b)) ∙ e in
          ground arith
    ]

mark_volume_lem :
    (resource : CleanResource) (o : Option String) (id : String) (usage : ResourceUsage)
    → is_some (user (mark_volume o id usage) resource) ≡ (
        is_some (user usage resource)
        || (kind_eq volume resource.kind && mounts_volume resource.name o))
mark_volume_lem resource none id usage = ground arith
mark_volume_lem resource (some name) id usage =
    mark_used_lem resource (volume_resource name) id usage

mark_mounts_lem :
    (resource : CleanResource) (mounts : List PodmanContainerMount) (id : String)
    (usage : ResourceUsage)
    → is_some (user (mark_mounts mounts id usage) resource)
      ≡ (is_some (user usage resource) || any (mount_uses resource) mounts)
unfolding mark_mounts
mark_mounts_lem resource [] id usage = ground arith
mark_mounts_lem resource (mount ∷ mounts) id usage =
    mark_mounts_lem resource mounts id (mark_volume (named_volume_name mount) id usage)
    ∙ ap (λ b. b || any (mount_uses resource) mounts)
        (mark_volume_lem resource (named_volume_name mount) id usage)
    ∙ or_assoc (is_some (user usage resource)) (mount_uses resource mount)
        (any (mount_uses resource) mounts)

mark_containers_lem :
    (resource : CleanResource) (containers : List PodmanContainerInspect) (usage : ResourceUsage)
    → is_some (user (mark_containers containers usage) resource)
      ≡ (is_some (user usage resource) || any (uses resource) containers)
unfolding mark_containers
mark_containers_lem resource [] usage = ground arith
mark_containers_lem resource (c ∷ containers) usage =
    let image_used = mark_used (image_resource c.image_name) c.id usage in
    let here = resource_eq (image_resource c.image_name) resource in
    mark_containers_lem resource containers (mark_mounts c.mounts c.id image_used)
    ∙ ap (λ b. b || any (uses resource) containers)
        (mark_mounts_lem resource c.mounts c.id image_used
          ∙ ap (λ b. b || any (mount_uses resource) c.mounts)
              (mark_used_lem resource (image_resource c.image_name) c.id usage)
          ∙ or_assoc (is_some (user usage resource)) here (any (mount_uses resource) c.mounts))
    ∙ or_assoc (is_some (user usage resource)) (uses resource c) (any (uses resource) containers)

-- A resource has a user in the usage that is collected from the containers exactly when some
-- container uses it.
pub usage_from_containers_lem :
    (resource : CleanResource) (containers : List PodmanContainerInspect)
    → is_some (user (usage_from_containers containers) resource) ≡ any (uses resource) containers
unfolding user
usage_from_containers_lem resource containers = mark_containers_lem resource containers []
