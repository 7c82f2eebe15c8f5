-- ===== src/Session/Labels.antt =====
-- src/session/labels.rs with its children identity.rs and attach.rs: what a container's labels must
-- hold. `sha256` is the digest that src/digest.rs takes from the crate sha2.
pub mod Laws
use agentbox_nix.Shared.{
  ℕ, String, Bool, true, false, ◌&&◌, Option, none, some, List, [], ◌∷◌, Result, ok, err, ◌>>=◌,
  ◌>>◌, require, ok_or, map_err, error_of, eqb, ◌==◌, string_eq, if◌then◌else◌,
}
use agentbox_nix.Text.{decimal, parse_unsigned, u16_max}
use agentbox_nix.Errors.{
  Error, attach_label, AttachLabelError, missing_label, runtime_error, malformed_container_port,
  attach_scheme_mismatch, container_port_mismatch, container_listen_ip_mismatch, RuntimeKind,
  AgentboxContainerKind, managed, run, SessionFailure, missing_required_labels,
  drifted_git_root_hash, unsupported_runtime_label, malformed_launch_directory,
  malformed_endpoint_labels,
}
use agentbox_nix.Runtime.{RuntimeAttachSpec, parse_runtime_kind, attach_spec}
use agentbox_nix.Paths.{FilePath, is_absolute, path_is_or_descendant}
use agentbox_nix.Workspace.{git_root_hash12}
use agentbox_nix.Metadata.{
  Labels, holds, required_label_value, agentbox_container_kind_from_labels, managed_value,
  schema_value, transient_run_value, required_workspace_identity_labels, required_metadata_labels,
}
use agentbox_nix.Metadata.Label

pub record SessionIdentityLabels : Type 0 where
  pub canonical_git_root : FilePath
  pub git_root_hash : String

pub record RequiredSessionLabels : Type 0 where
  pub identity : SessionIdentityLabels
  pub launch_directory : FilePath

pub record AttachLabels : Type 0 where
  pub runtime : RuntimeKind
  pub attach : RuntimeAttachSpec

pub record SessionLabelReport : Type 0 where
  pub identity : Result SessionFailure SessionIdentityLabels
  pub required : Result SessionFailure RequiredSessionLabels
  pub attach : Result AttachLabelError AttachLabels

-- `AttachLabelError::session_failure`
abbrev pub session_failure : AttachLabelError → SessionFailure
session_failure (missing_label _) = missing_required_labels
session_failure (runtime_error _) = unsupported_runtime_label
session_failure (malformed_container_port _) = malformed_endpoint_labels
session_failure (attach_scheme_mismatch _ _ _) = malformed_endpoint_labels
session_failure (container_port_mismatch _ _ _) = malformed_endpoint_labels
session_failure (container_listen_ip_mismatch _ _ _) = malformed_endpoint_labels

-- `AttachLabelError::into_error`
abbrev pub into_error : AttachLabelError → Error
into_error (runtime_error error) = error
into_error error = attach_label error

require_session_label : Labels → String → Result SessionFailure String
require_session_label labels name = ok_or (required_label_value labels name) missing_required_labels

require_session_label_value : Labels → String → String → Result SessionFailure (Unit {0})
require_session_label_value labels name expected =
    require (holds (required_label_value labels name) expected) missing_required_labels

require_session_labels : Labels → List String → Result SessionFailure (Unit {0})
require_session_labels labels [] = ok tt
require_session_labels labels (name ∷ names) = do
  ok_or (required_label_value labels name) missing_required_labels
  require_session_labels labels names

require_marker : Labels → Option AgentboxContainerKind → Result SessionFailure (Unit {0})
unfolding require_session_label_value
require_marker labels (some managed) = do
  require_session_label_value labels Label.managed managed_value
  require_session_label_value labels Label.schema schema_value
require_marker labels (some run) =
    require_session_label_value labels Label.container_kind transient_run_value
require_marker labels none = err missing_required_labels

require_agentbox_container_marker : Labels → Result SessionFailure (Unit {0})
unfolding require_marker
require_agentbox_container_marker labels =
    require_marker labels (agentbox_container_kind_from_labels labels)

-- `SessionIdentityLabels::from_session_labels`
identity_from_session_labels : Labels → Result SessionFailure SessionIdentityLabels
unfolding require_agentbox_container_marker require_session_labels require_session_label
identity_from_session_labels labels = do
  require_agentbox_container_marker labels
  require_session_labels labels required_workspace_identity_labels
  root ← require_session_label labels Label.git_root
  hash ← require_session_label labels Label.git_root_hash
  ok (record { canonical_git_root = root; git_root_hash = hash })

-- `AttachLabels::from_session_labels`, with the checks of its helpers.
require_attach_label : Labels → String → Result AttachLabelError String
require_attach_label labels name = ok_or (required_label_value labels name) (missing_label name)

require_runtime_kind : Labels → Result AttachLabelError RuntimeKind
unfolding require_attach_label
require_runtime_kind labels = do
  value ← require_attach_label labels Label.runtime
  map_err runtime_error (parse_runtime_kind value)

require_matching_attach_label :
    Labels → String → String → (String → AttachLabelError) → Result AttachLabelError (Unit {0})
unfolding require_attach_label
require_matching_attach_label labels name expected mismatch = do
  actual ← require_attach_label labels name
  if actual == expected then ok tt else err (mismatch actual)

check_container_port : RuntimeKind → ℕ → String → Option ℕ → Result AttachLabelError (Unit {0})
check_container_port runtime expected value none = err (malformed_container_port value)
check_container_port runtime expected value (some actual) =
    if eqb actual expected then ok tt else err (container_port_mismatch runtime actual expected)

require_matching_container_port : Labels → RuntimeKind → ℕ → Result AttachLabelError (Unit {0})
unfolding require_attach_label check_container_port
require_matching_container_port labels runtime expected = do
  value ← require_attach_label labels Label.container_port
  check_container_port runtime expected value (parse_unsigned value u16_max)

unfoldable pub attach_from_session_labels : Labels → Result AttachLabelError AttachLabels
unfolding require_runtime_kind require_matching_attach_label require_matching_container_port
attach_from_session_labels labels = do
  runtime ← require_runtime_kind labels
  let attach = attach_spec runtime
  require_matching_attach_label labels Label.attach_scheme attach.scheme
      (λ actual. attach_scheme_mismatch runtime actual attach.scheme)
  require_matching_container_port labels runtime attach.container_port
  require_matching_attach_label labels Label.container_listen_ip attach.container_listen_ip
      (λ actual. container_listen_ip_mismatch runtime actual attach.container_listen_ip)
  ok (record { runtime = runtime; attach = attach })

module _ (sha256 : String → List ℕ) where
  -- `SessionIdentityLabels::validated`
  unfoldable pub validated : Labels → Result SessionFailure SessionIdentityLabels
  unfolding identity_from_session_labels
  validated labels = do
    identity ← identity_from_session_labels labels
    require (identity.git_root_hash == git_root_hash12 sha256 identity.canonical_git_root)
        drifted_git_root_hash
    ok identity

  -- `RequiredSessionLabels::from_validated_identity`
  unfoldable pub from_validated_identity :
      Labels
      → Result SessionFailure SessionIdentityLabels
      → Result SessionFailure RequiredSessionLabels
  unfolding require_session_labels require_session_label
  from_validated_identity labels validated_identity = do
    identity ← validated_identity
    require_session_labels labels required_metadata_labels
    directory ← require_session_label labels Label.launch_directory
    require (is_absolute directory && path_is_or_descendant directory identity.canonical_git_root)
        malformed_launch_directory
    ok (record { identity = identity; launch_directory = directory })

  -- `SessionLabelReport::from_metadata`
  unfoldable pub from_metadata : Labels → SessionLabelReport
  unfolding validated from_validated_identity attach_from_session_labels
  from_metadata labels =
      let identity = validated labels in
      record {
        identity = identity;
        required = from_validated_identity labels identity;
        attach = attach_from_session_labels labels;
      }

-- `SessionLabelReport::attach_labels`
abbrev pub report_attach_labels : SessionLabelReport → Result SessionFailure AttachLabels
report_attach_labels report = map_err session_failure report.attach
