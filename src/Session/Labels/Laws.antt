-- ===== src/Session/Labels/Laws.antt =====
-- What a container's labels must hold, label by label.
use agentbox_nix.Shared.{
  ℕ, String, ◌≡◌, refl, ◌↔◌, ◌⊎◌, inl, inr, true, Option, none, some, List, Result, ok, string_eq,
  arith,
}
use agentbox_nix.Text.{parse_unsigned, u16_max}
use agentbox_nix.Errors.{RuntimeKind, AgentboxContainerKind, managed, run, SessionFailure}
use agentbox_nix.Runtime.{attach_spec, parse_runtime_kind}
use agentbox_nix.Paths.{FilePath, is_absolute, path_is_or_descendant}
use agentbox_nix.Workspace.{git_root_hash12}
use agentbox_nix.Metadata.{
  Labels, required_label_value, agentbox_container_kind_from_labels, schema_value,
}
use agentbox_nix.Metadata.Label
use agentbox_nix.Session.Labels.{
  SessionIdentityLabels, RequiredSessionLabels, AttachLabels, validated, from_validated_identity,
  from_metadata, require_agentbox_container_marker, require_marker,
}

-- The container is marked as agentbox's: by the managed marker with the schema that is understood, or
-- as a transient run.
abbrev pub IsMarked : Labels → Type 0
IsMarked labels =
    ((agentbox_container_kind_from_labels labels ≡ some managed)
      × (required_label_value labels Label.schema ≡ some schema_value))
    ⊎ (agentbox_container_kind_from_labels labels ≡ some run)

-- The identity of the workspace stands in the labels, and its hash is that of its root.
pub record HasIdentity (sha256 : String → List ℕ) (labels : Labels) (root : FilePath) : Type 0 where
  pub marked : IsMarked labels
  pub root_label : required_label_value labels Label.git_root ≡ some root
  pub hash_label :
      required_label_value labels Label.git_root_hash ≡ some (git_root_hash12 sha256 root)

-- Besides the identity: an image, a logical name, and an absolute launch directory in the root.
pub record HasRequired (sha256 : String → List ℕ) (labels : Labels) (root directory : FilePath)
    : Type 0 where
  pub identity : HasIdentity sha256 labels root
  pub image : (v : String) × (required_label_value labels Label.image ≡ some v)
  pub logical_name : (v : String) × (required_label_value labels Label.logical_name ≡ some v)
  pub directory_label : required_label_value labels Label.launch_directory ≡ some directory
  pub absolute : is_absolute directory ≡ true
  pub inside : path_is_or_descendant directory root ≡ true

-- The attach labels are those of the runtime's profile.
pub record HasAttach (labels : Labels) (kind : RuntimeKind) : Type 0 where
  pub runtime :
      (v : String) × (required_label_value labels Label.runtime ≡ some v)
      × (parse_runtime_kind v ≡ ok kind)
  pub scheme : required_label_value labels Label.attach_scheme ≡ some (attach_spec kind).scheme
  pub port :
      (v : String) × (required_label_value labels Label.container_port ≡ some v)
      × (parse_unsigned v u16_max ≡ some (attach_spec kind).container_port)
  pub listen_ip :
      required_label_value labels Label.container_listen_ip
      ≡ some (attach_spec kind).container_listen_ip

module _ (sha256 : String → List ℕ) (labels : Labels) where
  marker_sound : require_agentbox_container_marker labels ≡ ok tt → IsMarked labels
  unfolding require_agentbox_container_marker
  marker_sound h = by_kind (agentbox_container_kind_from_labels labels) refl h
    where
      by_kind :
          (k : Option AgentboxContainerKind)
          → agentbox_container_kind_from_labels labels ≡ k
          → require_marker labels k ≡ ok tt
          → IsMarked labels
      by_kind none e h = cc
      by_kind (some managed) e h = inl (e, ground arith)
      by_kind (some run) e h = inr e

  marker_complete : IsMarked labels → require_agentbox_container_marker labels ≡ ok tt
  unfolding require_agentbox_container_marker agentbox_container_kind_from_labels
  marker_complete (inl (k, s)) = ground arith
  marker_complete (inr k) = ground arith

  validated_sound :
      (id : SessionIdentityLabels)
      → validated sha256 labels ≡ ok id
      → HasIdentity sha256 labels id.canonical_git_root
  unfolding validated
  validated_sound id h = ground arith

  validated_complete :
      (root : FilePath)
      → HasIdentity sha256 labels root
      → validated sha256 labels
        ≡ ok (record { canonical_git_root = root; git_root_hash = git_root_hash12 sha256 root })
  unfolding validated
  validated_complete root h = ground (arith, marker_complete h.marked)

  abbrev pub accepted : FilePath → FilePath → RequiredSessionLabels
  accepted root directory = record {
    identity = record { canonical_git_root = root; git_root_hash = git_root_hash12 sha256 root };
    launch_directory = directory;
  }

  identity_of_required :
      (v : Result SessionFailure SessionIdentityLabels) (r : RequiredSessionLabels)
      → from_validated_identity sha256 labels v ≡ ok r
      → v ≡ ok r.identity
  unfolding from_validated_identity
  identity_of_required v r h = ground arith

  required_sound :
      (v : Result SessionFailure SessionIdentityLabels) (r : RequiredSessionLabels)
      → HasIdentity sha256 labels r.identity.canonical_git_root
      → from_validated_identity sha256 labels v ≡ ok r
      → HasRequired sha256 labels r.identity.canonical_git_root r.launch_directory
  unfolding from_validated_identity
  required_sound v r i h = ground arith

  required_complete :
      (root directory : FilePath)
      → HasRequired sha256 labels root directory
      → from_validated_identity sha256 labels
          (ok (record { canonical_git_root = root; git_root_hash = git_root_hash12 sha256 root }))
        ≡ ok (accepted root directory)
  unfolding from_validated_identity
  required_complete root directory h = ground arith

  -- The required labels are accepted, with their root and launch directory, exactly when each of
  -- them is there and valid.
  pub required_iff :
      (root directory : FilePath)
      → ((from_metadata sha256 labels).required ≡ ok (accepted root directory))
        ↔ HasRequired sha256 labels root directory
  required_iff root directory = (
    λ h.
        let e = report_required h in
        required_sound (validated sha256 labels) (accepted root directory)
          (validated_sound _ (identity_of_required (validated sha256 labels) _ e)) e,
    λ h.
        report_required'
          (rw (validated_complete root h.identity) (required_complete root directory h)),
  )
    where
      report_required :
          (from_metadata sha256 labels).required ≡ ok (accepted root directory)
          → from_validated_identity sha256 labels (validated sha256 labels)
            ≡ ok (accepted root directory)
      report_required h = unfold from_metadata in h

      report_required' :
          from_validated_identity sha256 labels (validated sha256 labels)
            ≡ ok (accepted root directory)
          → (from_metadata sha256 labels).required ≡ ok (accepted root directory)
      report_required' h = unfold from_metadata in h

  -- The labels of any accepted report are there and valid.
  pub required_holds :
      (r : RequiredSessionLabels)
      → (from_metadata sha256 labels).required ≡ ok r
      → HasRequired sha256 labels r.identity.canonical_git_root r.launch_directory
  required_holds r h =
      let v = validated sha256 labels in
      let e : from_validated_identity sha256 labels v ≡ ok r = unfold from_metadata in h in
      required_sound v r (validated_sound r.identity (identity_of_required v r e)) e

  pub attach_sound :
      (a : AttachLabels)
      → (from_metadata sha256 labels).attach ≡ ok a
      → HasAttach labels a.runtime × (a.attach ≡ attach_spec a.runtime)
  unfolding from_metadata
  attach_sound a h = ground arith

  pub attach_complete :
      (kind : RuntimeKind)
      → HasAttach labels kind
      → (from_metadata sha256 labels).attach
        ≡ ok (record { runtime = kind; attach = attach_spec kind })
  unfolding from_metadata
  attach_complete kind h = ground arith
