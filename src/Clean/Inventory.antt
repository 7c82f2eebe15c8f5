-- ===== src/Clean/Inventory.antt =====
-- src/commands/clean/inventory.rs: what Podman and the lock directory hold, as far as the scope asks.
use agentbox_nix.Shared.{
  String, ◌≡◌, Bool, true, false, ◌&&◌, ◌||◌, Option, none, some, List, [], ◌∷◌, ◌++◌, All,
  All-append, filter, map, Result, ok, ◌>>=◌, >>=-eq-ok, arith, subst, Bool-cases, inl, inr,
}
use agentbox_nix.Errors.{Error}
use agentbox_nix.Podman.{PodmanPsContainer, PodmanContainerInspect}
use agentbox_nix.Clean.Scope.{CleanScope, image, volume, lock_file, includes}
use agentbox_nix.Clean.Image.{
  PodmanImage, references, DefaultRuntimeImageMetadata, metadata_from_labels,
  is_content_hash_default_image_ref, ends_with,
}
use agentbox_nix.Clean.Plan.{DefaultRuntimeImageCandidate, WorkspaceLockFileStatus, CleanInventory}

-- What Podman answers, and what a walk of the lock directory finds.
pub record Podman : Type 0 where
  pub ps_all : Result Error (List PodmanPsContainer)
  pub inspect_one : String → Result Error PodmanContainerInspect
  pub images_with_label : Result Error (List PodmanImage)
  pub volumes : Result Error (List String)
  pub cleanup_lock_files : Result Error (List WorkspaceLockFileStatus)

-- `map(inspect).collect()`: the first error ends it.
abbrev pub inspect_each :
    (String → Result Error PodmanContainerInspect)
    → List PodmanPsContainer
    → Result Error (List PodmanContainerInspect)
inspect_each inspect [] = ok []
inspect_each inspect (container ∷ containers) = do
  here ← inspect container.id
  rest ← inspect_each inspect containers
  ok (here ∷ rest)

abbrev pub inspect_all_containers : Podman → Result Error (List PodmanContainerInspect)
inspect_all_containers podman = do
  containers ← podman.ps_all
  inspect_each podman.inspect_one containers

abbrev is_default_reference : DefaultRuntimeImageMetadata → String → Bool
is_default_reference metadata reference =
    is_content_hash_default_image_ref metadata.runtime reference
    && ends_with reference metadata.image_context_hash

abbrev candidates_of :
    PodmanImage → Option DefaultRuntimeImageMetadata → List DefaultRuntimeImageCandidate
candidates_of i none = []
candidates_of i (some metadata) =
    map (λ name. record { runtime = metadata.runtime; image_name = name })
      (filter (is_default_reference metadata) (references i))

unfoldable pub labeled_default_runtime_image_candidates :
    PodmanImage → List DefaultRuntimeImageCandidate
labeled_default_runtime_image_candidates i = candidates_of i (metadata_from_labels i.labels)

-- `flat_map`
unfoldable pub image_candidates : List PodmanImage → List DefaultRuntimeImageCandidate
image_candidates [] = []
image_candidates (i ∷ images) =
    labeled_default_runtime_image_candidates i ++ image_candidates images

abbrev pub labeled_default_runtime_images :
    Podman → Result Error (List DefaultRuntimeImageCandidate)
labeled_default_runtime_images podman = do
  images ← podman.images_with_label
  ok (image_candidates images)

abbrev pub fetch_if {ℓ} : {A : Type ℓ} → Bool → Result Error (List A) → Result Error (List A)
fetch_if true fetched = fetched
fetch_if false fetched = ok []

-- `CleanInventory::from_podman`
unfoldable pub from_podman : Podman → CleanScope → Result Error CleanInventory
from_podman podman scope = do
  containers ←
      fetch_if (includes scope image || includes scope volume) (inspect_all_containers podman)
  images ← fetch_if (includes scope image) (labeled_default_runtime_images podman)
  volumes ← fetch_if (includes scope volume) podman.volumes
  files ← fetch_if (includes scope lock_file) podman.cleanup_lock_files
  ok (record {
    containers = containers;
    default_runtime_images = images;
    volumes = volumes;
    lock_files = files;
  })

abbrev pub IsDefaultImage : DefaultRuntimeImageCandidate → Type 0
IsDefaultImage candidate =
    is_content_hash_default_image_ref candidate.runtime candidate.image_name ≡ true

references_default :
    (metadata : DefaultRuntimeImageMetadata) (names : List String)
    → All IsDefaultImage (
        map
          (λ name. record { runtime = metadata.runtime; image_name = name })
          (filter (is_default_reference metadata) names))
references_default metadata [] = tt
references_default metadata (name ∷ names) =
    elim (Bool-cases (is_default_reference metadata name)) [
      | inl e ↦ rw e (ground arith, references_default metadata names)
      | inr e ↦ rw e (references_default metadata names)
    ]

candidates_default :
    (i : PodmanImage) (metadata : Option DefaultRuntimeImageMetadata)
    → All IsDefaultImage (candidates_of i metadata)
candidates_default i none = tt
candidates_default i (some metadata) = references_default metadata (references i)

image_candidates_default :
    (images : List PodmanImage) → All IsDefaultImage (image_candidates images)
unfolding image_candidates labeled_default_runtime_image_candidates
image_candidates_default [] = tt
image_candidates_default (i ∷ images) =
    All-append IsDefaultImage (labeled_default_runtime_image_candidates i) (image_candidates images)
      (candidates_default i (metadata_from_labels i.labels)) (image_candidates_default images)

-- Every image of an inventory is a reference to a default image of its runtime: it is of the form
-- `localhost/agentbox-RUNTIME:ctx-HASH`.
pub from_podman_images :
    (podman : Podman) (scope : CleanScope) (inventory : CleanInventory)
    → from_podman podman scope ≡ ok inventory
    → All IsDefaultImage inventory.default_runtime_images
unfolding from_podman
from_podman_images podman scope inventory h =
    let (_, _, k) =
      >>=-eq-ok
        (fetch_if (includes scope image || includes scope volume) (inspect_all_containers podman)) _
        h in
    let (images, e, l) =
      >>=-eq-ok (fetch_if (includes scope image) (labeled_default_runtime_images podman)) _ k in
    let (_, _, m) = >>=-eq-ok (fetch_if (includes scope volume) podman.volumes) _ l in
    let (_, _, n) = >>=-eq-ok (fetch_if (includes scope lock_file) podman.cleanup_lock_files) _ m in
    let same : images ≡ inventory.default_runtime_images = ground arith in
    subst (All IsDefaultImage) same (fetched (includes scope image) images e)
  where
    fetched :
        (b : Bool) (images : List DefaultRuntimeImageCandidate)
        → fetch_if b (labeled_default_runtime_images podman) ≡ ok images
        → All IsDefaultImage images
    fetched false images e =
        let same : [] ≡ images = ground arith in subst (All IsDefaultImage) same tt
    fetched true images e =
        let (found, _, p) = >>=-eq-ok podman.images_with_label _ e in
        let same : image_candidates found ≡ images = ground arith in
        subst (All IsDefaultImage) same (image_candidates_default found)
