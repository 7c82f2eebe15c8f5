-- ===== src/Metadata/Written.antt =====
-- What stands in the labels that a launch writes.
use agentbox_nix.Shared.{
  String, ◌≡◌, refl, ◌∙◌, Bool, true, false, not, some, is_empty, ◌==◌, string_eq, string_discrete,
  if◌then◌else◌, arith,
}
use agentbox_nix.Text.{is_blank, decimal}
use agentbox_nix.Errors.{managed, run}
use agentbox_nix.Runtime.{as_str, attach_spec}
use agentbox_nix.Metadata.{
  Labels, Json, get, insert, required_label_value, managed_session_labels, transient_run_labels,
  runtime_server_container_labels, ManagedSessionLabelInput, agentbox_container_kind_from_labels,
  schema_value, managed_value, managed_session_value,
}
use agentbox_nix.Metadata.Laws.{get-insert}
use agentbox_nix.Metadata.Label

-- The labels that both kinds of container get.
pub record HasWritten (labels : Labels) (input : ManagedSessionLabelInput) : Type 0 where
  pub root : get labels Label.git_root ≡ some input.canonical_git_root
  pub hash : get labels Label.git_root_hash ≡ some input.git_root_hash
  pub runtime : get labels Label.runtime ≡ some (as_str input.runtime)
  pub image : get labels Label.image ≡ some input.image
  pub directory : get labels Label.launch_directory ≡ some input.launch_directory
  pub logical_name : get labels Label.logical_name ≡ some input.logical_name
  pub scheme : get labels Label.attach_scheme ≡ some (attach_spec input.runtime).scheme
  pub port :
      get labels Label.container_port ≡ some (decimal (attach_spec input.runtime).container_port)
  pub listen_ip :
      get labels Label.container_listen_ip ≡ some (attach_spec input.runtime).container_listen_ip

get-unless :
    (b : Bool) (k v j : String) (labels : Labels)
    → (k == j) ≡ false
    → get (if b then insert k v labels else labels) j ≡ get labels j
get-unless true k v j labels h = ground (arith, get-insert j k v labels)
get-unless false k v j labels h = refl

abbrev marked_labels : ManagedSessionLabelInput → Labels
marked_labels input = insert Label.schema schema_value (
    insert Label.container_kind managed_session_value
      (insert Label.managed managed_value (runtime_server_container_labels input)))

written :
    (json : Json) (input : ManagedSessionLabelInput) (j v : String)
    → (Label.server_args == j) ≡ false
    → get (marked_labels input) j ≡ some v
    → get (managed_session_labels json input) j ≡ some v
unfolding managed_session_labels
written json input j v d h =
    get-unless (not (is_empty input.server_args)) Label.server_args
      (json.serialize input.server_args) j (marked_labels input) d
    ∙ h

pub managed_session_labels-HasWritten :
    (json : Json) (input : ManagedSessionLabelInput)
    → HasWritten (managed_session_labels json input) input
unfolding get insert runtime_server_container_labels string_discrete
managed_session_labels-HasWritten json input = record {
  root = written json input Label.git_root _ refl refl;
  hash = written json input Label.git_root_hash _ refl refl;
  runtime = written json input Label.runtime _ refl refl;
  image = written json input Label.image _ refl refl;
  directory = written json input Label.launch_directory _ refl refl;
  logical_name = written json input Label.logical_name _ refl refl;
  scheme = written json input Label.attach_scheme _ refl refl;
  port = written json input Label.container_port _ refl refl;
  listen_ip = written json input Label.container_listen_ip _ refl refl;
}

pub transient_run_labels-HasWritten :
    (input : ManagedSessionLabelInput) → HasWritten (transient_run_labels input) input
unfolding get transient_run_labels string_discrete
transient_run_labels-HasWritten input = record {
  root = refl;
  hash = refl;
  runtime = refl;
  image = refl;
  directory = refl;
  logical_name = refl;
  scheme = refl;
  port = refl;
  listen_ip = refl;
}

pub kind_managed :
    (labels : Labels)
    → required_label_value labels Label.managed ≡ some managed_value
    → agentbox_container_kind_from_labels labels ≡ some managed
unfolding agentbox_container_kind_from_labels
kind_managed labels h = ground arith

pub marker_values :
    (json : Json) (input : ManagedSessionLabelInput)
    → (get (managed_session_labels json input) Label.managed ≡ some managed_value)
      × (get (managed_session_labels json input) Label.schema ≡ some schema_value)
unfolding get insert runtime_server_container_labels string_discrete
marker_values json input = (
  written json input Label.managed managed_value refl refl,
  written json input Label.schema schema_value refl refl,
)

-- The labels of a transient run mark it as one, and never as a managed session.
pub transient_run_labels_marked :
    (input : ManagedSessionLabelInput)
    → agentbox_container_kind_from_labels (transient_run_labels input) ≡ some run
unfolding agentbox_container_kind_from_labels get transient_run_labels string_discrete is_blank
transient_run_labels_marked input = refl
