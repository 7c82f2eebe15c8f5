-- ===== src/Metadata.antt =====
-- src/metadata/mod.rs and src/metadata/session.rs: the container labels. A `BTreeMap` of labels is an
-- association list in which `insert` replaces; no modelled code depends on the order of its keys.
-- JSON is the crate serde_json's and a parameter.
pub mod Label
pub mod Laws
pub mod Written
use agentbox_nix.Shared.{
  String, Bool, true, false, not, Option, none, some, List, [], ◌∷◌, is_empty, filter_option, ◌==◌,
  string_eq, if◌then◌else◌,
}
use agentbox_nix.Text.{is_blank, decimal}
use agentbox_nix.Errors.{RuntimeKind, AgentboxContainerKind, managed, run}
use agentbox_nix.Runtime.{as_str, attach_spec}
use agentbox_nix.Workspace.{WorkspaceIdentity}

abbrev pub Labels : Type 0
Labels = List (String × String)

-- `BTreeMap::get`
unfoldable pub get : Labels → String → Option String
get [] name = none
get ((key, value) ∷ labels) name = if key == name then some value else get labels name

-- `BTreeMap::insert`
unfoldable pub insert : String → String → Labels → Labels
insert name v [] = (name, v) ∷ []
insert name v ((key, value) ∷ labels) =
    if key == name then (name, v) ∷ labels else (key, value) ∷ insert name v labels

abbrev pub managed_value : String
managed_value = "true"

abbrev pub managed_session_value : String
managed_session_value = "managed-session"

abbrev pub transient_run_value : String
transient_run_value = "transient-run"

abbrev pub schema_value : String
schema_value = "1"

abbrev pub required_workspace_identity_labels : List String
required_workspace_identity_labels = Label.git_root ∷ Label.git_root_hash ∷ []

abbrev pub required_metadata_labels : List String
required_metadata_labels = Label.image ∷ Label.launch_directory ∷ Label.logical_name ∷ []

-- A label that is missing or blank counts as absent.
unfoldable pub required_label_value : Labels → String → Option String
unfolding get
required_label_value labels name = filter_option (λ value. not (is_blank value)) (get labels name)

abbrev pub holds : Option String → String → Bool
holds none expected = false
holds (some actual) expected = actual == expected

unfoldable pub agentbox_container_kind_from_labels : Labels → Option AgentboxContainerKind
unfolding required_label_value
agentbox_container_kind_from_labels labels =
    if holds (required_label_value labels Label.managed) managed_value
    then some managed
    else if holds (required_label_value labels Label.container_kind) transient_run_value
    then some run
    else none

pub record ManagedSessionLabelInput : Type 0 where
  pub canonical_git_root : String
  pub git_root_hash : String
  pub runtime : RuntimeKind
  pub image : String
  pub launch_directory : String
  pub logical_name : String
  pub server_args : List String

-- `ManagedSessionLabelInput::from_workspace`
abbrev pub label_input :
    WorkspaceIdentity → String → RuntimeKind → List String → ManagedSessionLabelInput
label_input workspace image runtime server_args = record {
  canonical_git_root = workspace.canonical_git_root;
  git_root_hash = workspace.hash12;
  runtime = runtime;
  image = image;
  launch_directory = workspace.canonical_target;
  logical_name = workspace.container_name;
  server_args = server_args;
}

-- The nine keys differ, so the literal map is this list.
unfoldable pub runtime_server_container_labels : ManagedSessionLabelInput → Labels
unfolding decimal
runtime_server_container_labels input =
    let attach = attach_spec input.runtime in
    (Label.git_root, input.canonical_git_root)
    ∷ (Label.git_root_hash, input.git_root_hash)
    ∷ (Label.runtime, as_str input.runtime)
    ∷ (Label.image, input.image)
    ∷ (Label.launch_directory, input.launch_directory)
    ∷ (Label.logical_name, input.logical_name)
    ∷ (Label.attach_scheme, attach.scheme)
    ∷ (Label.container_port, decimal attach.container_port)
    ∷ (Label.container_listen_ip, attach.container_listen_ip)
    ∷ []

-- `serde_json::to_string` and `serde_json::from_str` for a list of texts.
pub record Json : Type 0 where
  pub serialize : List String → String
  pub deserialize : String → Option (List String)

unfoldable pub managed_session_labels : Json → ManagedSessionLabelInput → Labels
unfolding insert runtime_server_container_labels
managed_session_labels json input =
    let labels = insert Label.managed managed_value (runtime_server_container_labels input) in
    let labels = insert Label.container_kind managed_session_value labels in
    let labels = insert Label.schema schema_value labels in
    if not (is_empty input.server_args)
    then insert Label.server_args (json.serialize input.server_args) labels
    else labels

unfoldable pub transient_run_labels : ManagedSessionLabelInput → Labels
unfolding insert runtime_server_container_labels
transient_run_labels input =
    insert Label.container_kind transient_run_value (runtime_server_container_labels input)
