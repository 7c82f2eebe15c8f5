-- ===== src/Session/Record.antt =====
-- src/session/record.rs and the status type of src/session/status.rs: what is known of a container
-- that agentbox owns. `SessionMetadata` is its labels.
use agentbox_nix.Shared.{
  String, Bool, true, false, not, ◌&&◌, Option, none, some, List, [], is_some, to_option, unwrap_or,
  Result, ok, err, ◌>>=◌, string_eq,
}
use agentbox_nix.Errors.{
  Error, malformed_server_args, RuntimeKind, AgentboxContainerKind, managed, run, SessionFailure,
}
use agentbox_nix.Runtime.{AttachEndpoint, parse_runtime_kind}
use agentbox_nix.Paths.{FilePath}
use agentbox_nix.Config.{Floats, ResourceLimits, parse_cpu_limit, parse_memory_limit}
use agentbox_nix.Metadata.{Labels, Json, required_label_value}
use agentbox_nix.Metadata.Label

pub data SessionStatus : Type 0 where
  running orphaned duplicate : SessionStatus
  failed : Option SessionFailure → SessionStatus

abbrev pub is_failed : SessionStatus → Bool
is_failed (failed _) = true
is_failed running = false
is_failed orphaned = false
is_failed duplicate = false

abbrev pub status_is_running : SessionStatus → Bool
status_is_running running = true
status_is_running orphaned = false
status_is_running duplicate = false
status_is_running (failed _) = false

-- `SessionStatus::failure`
abbrev pub failure_of : SessionStatus → Option SessionFailure
failure_of (failed failure) = failure
failure_of running = none
failure_of orphaned = none
failure_of duplicate = none

pub record SessionRecord : Type 0 where
  pub container_id : String
  pub container_name : String
  pub container_kind : AgentboxContainerKind
  pub metadata : Labels
  pub attach_endpoint : Option AttachEndpoint
  pub container_running : Bool
  pub status : SessionStatus

abbrev pub canonical_git_root : SessionRecord → Option FilePath
canonical_git_root session = required_label_value session.metadata Label.git_root

abbrev pub git_root_hash : SessionRecord → Option String
git_root_hash session = required_label_value session.metadata Label.git_root_hash

abbrev pub stable_id : SessionRecord → Option String
stable_id session = git_root_hash session

abbrev pub runtime : SessionRecord → Option String
runtime session = required_label_value session.metadata Label.runtime

abbrev pub launch_directory : SessionRecord → Option FilePath
launch_directory session = required_label_value session.metadata Label.launch_directory

abbrev pub kind_of_runtime : Option String → Option RuntimeKind
kind_of_runtime none = none
kind_of_runtime (some value) = to_option (parse_runtime_kind value)

abbrev pub runtime_kind : SessionRecord → Option RuntimeKind
runtime_kind session = kind_of_runtime (runtime session)

abbrev pub logical_name_or : Labels → String → String
logical_name_or labels fallback =
    unwrap_or (required_label_value labels Label.logical_name) fallback

abbrev pub kind_is_managed : AgentboxContainerKind → Bool
kind_is_managed managed = true
kind_is_managed run = false

abbrev pub is_managed_session : SessionRecord → Bool
is_managed_session session = kind_is_managed session.container_kind

abbrev pub is_transient_run : SessionRecord → Bool
is_transient_run session = not (kind_is_managed session.container_kind)

abbrev pub is_running : SessionRecord → Bool
is_running session = status_is_running session.status

abbrev pub mark_duplicate : SessionRecord → SessionRecord
mark_duplicate session = record session { status = duplicate }

abbrev pub has_stable_id : SessionRecord → Bool
has_stable_id session = is_some (stable_id session)

unfoldable pub is_connectable_candidate : SessionRecord → Bool
is_connectable_candidate session =
    is_managed_session session
    && is_running session
    && is_some session.attach_endpoint
    && is_some (canonical_git_root session)

unfoldable pub is_restartable_candidate : SessionRecord → Bool
is_restartable_candidate session =
    is_managed_session session
    && is_running session
    && is_some (stable_id session)
    && is_some (runtime_kind session)
    && is_some (launch_directory session)
    && is_some (canonical_git_root session)

abbrev parsed_args : String → Option (List String) → Result Error (List String)
parsed_args value none = err (malformed_server_args value)
parsed_args value (some args) = ok args

abbrev stored_args : Json → Option String → Result Error (List String)
stored_args json none = ok []
stored_args json (some value) = parsed_args value (json.deserialize value)

unfoldable pub server_args : Json → Labels → Result Error (List String)
server_args json labels = stored_args json (required_label_value labels Label.server_args)

-- `map(str::parse).transpose()`
abbrev pub transpose {ℓ} :
    {A : Type ℓ} → (String → Result Error A) → Option String → Result Error (Option A)
transpose parse none = ok none
transpose parse (some value) = do a ← parse value; ok (some a)

unfoldable pub stored_resource_limits : Floats → Labels → Result Error ResourceLimits
stored_resource_limits floats labels = do
  cpus ← transpose (parse_cpu_limit floats) (required_label_value labels Label.cpus)
  memory ← transpose parse_memory_limit (required_label_value labels Label.memory)
  ok (record { cpus = cpus; memory = memory })
