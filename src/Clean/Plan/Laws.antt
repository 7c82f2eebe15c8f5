-- ===== src/Clean/Plan/Laws.antt =====
-- What can be a candidate: resources in scope that no container uses, and no current image.
use agentbox_nix.Clean.Plan.{add_volume}
use agentbox_nix.Podman.{PodmanContainerMount}
use agentbox_nix.Clean.Usage.Laws.{mount_uses}
use agentbox_nix.Shared.{
  String, ◌≡◌, ◌≢◌, refl, sym, ap, ◌∙◌, Bool, true, false, Option, none, some, List, [], ◌∷◌, All,
  All-append, any, is_some, ◌==◌, string_eq, ==_refl, arith, Bool-cases, inl, inr,
}
use agentbox_nix.Errors.{RuntimeKind}
use agentbox_nix.Podman.{PodmanContainerInspect}
use agentbox_nix.Workspace.{is_agentbox_workspace_resource_name}
use agentbox_nix.Clean.Scope.{CleanResource, CleanScope, image, volume, lock_file, includes}
use agentbox_nix.Clean.Image.{default_image}
use agentbox_nix.Clean.Usage.{
  ResourceUsage, user, image_resource, volume_resource, lock_file_resource, usage_from_containers,
}
use agentbox_nix.Clean.Usage.Laws.{uses, usage_from_containers_lem}
use agentbox_nix.Clean.Plan.{
  DefaultRuntimeImageCandidate, WorkspaceLockFileStatus, available, locked, CleanInventory,
  CleanCandidate, default_runtime_image, cache_volume, workspace_lock_file, resource_of, CleanPlan,
  empty_plan, image_candidate_or_skip, add_images, volume_candidate_or_skip, add_volumes,
  add_lock_files, with_images, with_volumes, with_lock_files, from_inventory,
}

-- Each loop keeps a property of the candidates, when it holds of what a turn can push.
module _ (P : CleanCandidate → Type 0) where
  abbrev Holds : CleanPlan → Type 0
  Holds plan = All P plan.candidates

  abbrev ForImages : String → ResourceUsage → Type 0
  ForImages context_hash usage =
      (runtime : RuntimeKind) (name : String)
      → user usage (image_resource name) ≡ none
      → (name == default_image context_hash runtime) ≡ false
      → P (default_runtime_image runtime (image_resource name))

  abbrev ForVolumes : ResourceUsage → Type 0
  ForVolumes usage =
      (name : String)
      → user usage (volume_resource name) ≡ none
      → is_agentbox_workspace_resource_name name ≡ true
      → P (cache_volume (volume_resource name))

  abbrev ForLockFiles : Type 0
  ForLockFiles = (path : String) → P (workspace_lock_file path (lock_file_resource path))

  image_step :
      (context_hash : String) (usage : ResourceUsage)
      → ForImages context_hash usage
      → (runtime : RuntimeKind) (name : String) (plan : CleanPlan) (o : Option String) (b : Bool)
      → user usage (image_resource name) ≡ o
      → (name == default_image context_hash runtime) ≡ b
      → Holds plan
      → Holds (image_candidate_or_skip o b runtime (image_resource name) plan)
  image_step context_hash usage p runtime name plan (some id) b e t h = h
  image_step context_hash usage p runtime name plan none true e t h = h
  image_step context_hash usage p runtime name plan none false e t h =
      All-append P plan.candidates _ h (p runtime name e t, tt)

  images_hold :
      (context_hash : String) (usage : ResourceUsage)
      → ForImages context_hash usage
      → (images : List DefaultRuntimeImageCandidate) (seen : List String) (plan : CleanPlan)
      → Holds plan
      → Holds (add_images context_hash images seen usage plan)
  unfolding add_images
  images_hold context_hash usage p [] seen plan h = h
  images_hold context_hash usage p (c ∷ images) seen plan h =
      elim (Bool-cases (any (λ other. other == c.image_name) seen)) [
        | inl e ↦ rw e (images_hold context_hash usage p images seen plan h)
        | inr e ↦ rw e (
            images_hold context_hash usage p images (c.image_name ∷ seen) _
              (image_step context_hash usage p c.runtime c.image_name plan _ _ refl refl h))
      ]

  volume_step :
      (usage : ResourceUsage)
      → ForVolumes usage
      → (name : String) (plan : CleanPlan) (o : Option String)
      → user usage (volume_resource name) ≡ o
      → is_agentbox_workspace_resource_name name ≡ true
      → Holds plan
      → Holds (volume_candidate_or_skip o (volume_resource name) plan)
  volume_step usage p name plan (some id) e n h = h
  volume_step usage p name plan none e n h = All-append P plan.candidates _ h (p name e n, tt)

  volume_turn :
      (usage : ResourceUsage)
      → ForVolumes usage
      → (name : String) (plan : CleanPlan) (b : Bool) → is_agentbox_workspace_resource_name name ≡ b
      → Holds plan
      → Holds (add_volume b name usage plan)
  volume_turn usage p name plan true e h =
      volume_step usage p name plan (user usage (volume_resource name)) refl e h
  volume_turn usage p name plan false e h = h

  volumes_hold :
      (usage : ResourceUsage)
      → ForVolumes usage
      → (names : List String) (plan : CleanPlan) → Holds plan
      → Holds (add_volumes names usage plan)
  unfolding add_volumes
  volumes_hold usage p [] plan h = h
  volumes_hold usage p (name ∷ names) plan h =
      volumes_hold usage p names _
        (volume_turn usage p name plan (is_agentbox_workspace_resource_name name) refl h)

  lock_files_hold :
      ForLockFiles
      → (files : List WorkspaceLockFileStatus) (plan : CleanPlan) → Holds plan
      → Holds (add_lock_files files plan)
  unfolding add_lock_files
  lock_files_hold p [] plan h = h
  lock_files_hold p (available path ∷ files) plan h =
      lock_files_hold p files _ (All-append P plan.candidates _ h (p path, tt))
  lock_files_hold p (locked path ∷ files) plan h = lock_files_hold p files _ h

  plan-Holds :
      (context_hash : String) (scope : CleanScope) (inventory : CleanInventory)
      → (includes scope image ≡ true
          → ForImages context_hash (usage_from_containers inventory.containers))
      → (includes scope volume ≡ true → ForVolumes (usage_from_containers inventory.containers))
      → (includes scope lock_file ≡ true → ForLockFiles)
      → Holds (from_inventory context_hash scope inventory)
  unfolding from_inventory
  plan-Holds context_hash scope inventory images volumes files =
      locked_part _ (volume_part _ image_part)
    where
      usage : ResourceUsage
      usage = usage_from_containers inventory.containers

      image_part : Holds (with_images context_hash scope inventory empty_plan)
      image_part = elim (Bool-cases (includes scope image)) [
        | inl e ↦ rw e (
            images_hold context_hash (usage_from_containers inventory.containers) (images e)
              inventory.default_runtime_images [] empty_plan tt)
        | inr e ↦ rw e tt
      ]

      volume_part : (plan : CleanPlan) → Holds plan → Holds (with_volumes scope inventory plan)
      volume_part plan h = elim (Bool-cases (includes scope volume)) [
        | inl e ↦ rw e (
            volumes_hold (usage_from_containers inventory.containers) (volumes e) inventory.volumes
              plan h)
        | inr e ↦ rw e h
      ]

      locked_part : (plan : CleanPlan) → Holds plan → Holds (with_lock_files scope inventory plan)
      locked_part plan h = elim (Bool-cases (includes scope lock_file)) [
        | inl e ↦ rw e (lock_files_hold (files e) inventory.lock_files plan h)
        | inr e ↦ rw e h
      ]

-- What is promised of a candidate.
pub record IsRemovable (scope : CleanScope) (containers : List PodmanContainerInspect)
    (candidate : CleanCandidate) : Type 0 where
  pub in_scope : includes scope (resource_of candidate).kind ≡ true
  pub unused : any (uses (resource_of candidate)) containers ≡ false

unused_of_none :
    (resource : CleanResource) (containers : List PodmanContainerInspect)
    → user (usage_from_containers containers) resource ≡ none
    → any (uses resource) containers ≡ false
unused_of_none resource containers h =
    sym (usage_from_containers_lem resource containers) ∙ ap is_some h

lock_file_unused :
    (path : String) (containers : List PodmanContainerInspect)
    → any (uses (lock_file_resource path)) containers ≡ false
lock_file_unused path [] = refl
lock_file_unused path (c ∷ containers) =
    ground (arith, lock_file_unused path containers, no_mount c.mounts)
  where
    no_mount :
        (mounts : List PodmanContainerMount)
        → any (mount_uses (lock_file_resource path)) mounts ≡ false
    no_mount [] = refl
    no_mount (m ∷ mounts) = no_mount mounts

-- Every candidate of a clean is of a kind in the clean's scope, and no container of the inventory,
-- running or not, uses it.
pub candidates-IsRemovable :
    (context_hash : String) (scope : CleanScope) (inventory : CleanInventory)
    → All
        (IsRemovable scope inventory.containers)
        (from_inventory context_hash scope inventory).candidates
candidates-IsRemovable context_hash scope inventory =
    plan-Holds (IsRemovable scope inventory.containers) context_hash scope inventory
      (λ s runtime name free other. record {
        in_scope = s;
        unused = unused_of_none (image_resource name) inventory.containers free;
      })
      (λ s name free known. record {
        in_scope = s;
        unused = unused_of_none (volume_resource name) inventory.containers free;
      })
      (λ s path. record { in_scope = s; unused = lock_file_unused path inventory.containers })

-- Does the candidate spare what is still wanted? An image is not the current default image of its
-- runtime, and a volume has the name of an agentbox workspace.
abbrev pub Spares : String → CleanCandidate → Type 0
Spares context_hash (default_runtime_image runtime resource) =
    resource.name ≢ default_image context_hash runtime
Spares context_hash (cache_volume resource) =
    is_agentbox_workspace_resource_name resource.name ≡ true
Spares context_hash (workspace_lock_file path resource) = resource.name ≡ path

-- No candidate is the current default image of its runtime, every candidate volume is named like a
-- workspace's, and every candidate lock file by its path.
pub candidates_spare :
    (context_hash : String) (scope : CleanScope) (inventory : CleanInventory)
    → All (Spares context_hash) (from_inventory context_hash scope inventory).candidates
candidates_spare context_hash scope inventory =
    plan-Holds (Spares context_hash) context_hash scope inventory
      (λ s runtime name free other e. absurd (cc (other, e, ==_refl name)))
      (λ s name free known. known) (λ s path. refl)
