-- ===== src/Session/Connectable.antt =====
-- src/session/connectable.rs: the check that a session can be connected to, and
-- `run_command_hint` of src/session/selection.rs as far as it chooses a runtime.
use agentbox_nix.Shared.{ap}
use agentbox_nix.Shared.{◌∙◌}
use agentbox_nix.Shared.{ok_or-eq-ok}
use agentbox_nix.Shared.{
  String, ◌≡◌, refl, ◌↔◌, Option, none, some, is_some, to_option, filter_option, Result, ok, err,
  ◌>>=◌, >>=-eq-ok, ok_or, arith,
}
use agentbox_nix.Errors.{
  Error, agentbox_container_requires_action, orphaned_managed_session, failed_managed_session,
  duplicate_managed_sessions, not_running_session, RuntimeKind, managed, SessionFailure,
  unsupported_runtime_label, malformed_endpoint_labels, malformed_launch_directory, not_running,
}
use agentbox_nix.Runtime.{AttachEndpoint, parse_runtime_kind}
use agentbox_nix.Paths.{FilePath}
use agentbox_nix.Workspace.{WorkspaceIdentity}
use agentbox_nix.Session.Record.{
  SessionStatus, running, orphaned, duplicate, failed, SessionRecord, runtime, runtime_kind,
  launch_directory,
}

pub record ConnectableSession : Type 0 where
  pub session : SessionRecord
  pub runtime : RuntimeKind
  pub endpoint : AttachEndpoint
  pub launch_directory : FilePath

-- The runtime that the hint names; without one it names all of them.
abbrev pub run_command_hint : Option String → Option String
run_command_hint value =
    filter_option (λ runtime. is_some (to_option (parse_runtime_kind runtime))) value

abbrev pub not_running_session_error : WorkspaceIdentity → SessionRecord → Error
not_running_session_error workspace session =
    not_running_session workspace.canonical_git_root session.container_name
      (run_command_hint (runtime session)) workspace.requested_target

abbrev pub session_failure_error : WorkspaceIdentity → SessionRecord → SessionFailure → Error
session_failure_error workspace session failure =
    agentbox_container_requires_action managed workspace.canonical_git_root session.container_name
      failure

abbrev failed_error : WorkspaceIdentity → SessionRecord → Option SessionFailure → Error
failed_error workspace session none =
    failed_managed_session workspace.canonical_git_root session.container_name
failed_error workspace session (some not_running) = not_running_session_error workspace session
failed_error workspace session (some failure) = session_failure_error workspace session failure

abbrev pub validate_status :
    WorkspaceIdentity → SessionRecord → SessionStatus → Result Error (Unit {0})
validate_status workspace session running = ok tt
validate_status workspace session orphaned =
    err (orphaned_managed_session workspace.canonical_git_root session.container_name)
validate_status workspace session (failed failure) = err (failed_error workspace session failure)
validate_status workspace session duplicate =
    err (duplicate_managed_sessions workspace.canonical_git_root)

unfoldable pub prepare_connect_session :
    WorkspaceIdentity → SessionRecord → Result Error ConnectableSession
prepare_connect_session workspace session = do
  _ ← validate_status workspace session session.status
  kind ←
      ok_or (runtime_kind session)
        (session_failure_error workspace session unsupported_runtime_label)
  endpoint ←
      ok_or session.attach_endpoint
        (session_failure_error workspace session malformed_endpoint_labels)
  directory ←
      ok_or (launch_directory session)
        (session_failure_error workspace session malformed_launch_directory)
  ok (record {
    session = session;
    runtime = kind;
    endpoint = endpoint;
    launch_directory = directory;
  })

session_is_running :
    (workspace : WorkspaceIdentity) (session : SessionRecord) (status : SessionStatus)
    {u : Unit {0}}
    → validate_status workspace session status ≡ ok u
    → status ≡ running
session_is_running workspace session running h = refl
session_is_running workspace session orphaned h = cc
session_is_running workspace session (failed failure) h = cc
session_is_running workspace session duplicate h = cc

-- A session is prepared for connecting exactly when it is running and has a runtime, an endpoint
-- and a launch directory; and these and the session are what is returned.
pub prepare_connect_session_iff :
    (workspace : WorkspaceIdentity) (session : SessionRecord) (c : ConnectableSession)
    → (prepare_connect_session workspace session ≡ ok c) ↔ (
        (session.status ≡ running)
        × (runtime_kind session ≡ some c.runtime)
        × (session.attach_endpoint ≡ some c.endpoint)
        × (launch_directory session ≡ some c.launch_directory)
        × (session ≡ c.session))
unfolding prepare_connect_session
prepare_connect_session_iff workspace session c = (
  λ h. inverted h,
  λ (s, r, e, d, p). simp (s, r, e, d) (ap (λ x. ok (record c { session = x })) p),
)
  where
    inverted :
        prepare_connect_session workspace session ≡ ok c
        → (session.status ≡ running)
          × (runtime_kind session ≡ some c.runtime)
          × (session.attach_endpoint ≡ some c.endpoint)
          × (launch_directory session ≡ some c.launch_directory)
          × (session ≡ c.session)
    inverted h =
        let (_, s, h1) = >>=-eq-ok (validate_status workspace session session.status) _ h in
        let (k, r, h2) = >>=-eq-ok (ok_or (runtime_kind session) _) _ h1 in
        let (e, p, h3) = >>=-eq-ok (ok_or session.attach_endpoint _) _ h2 in
        let (d, q, h4) = >>=-eq-ok (ok_or (launch_directory session) _) _ h3 in
        (
          session_is_running workspace session session.status s,
          ok_or-eq-ok (runtime_kind session) _ r ∙ ground arith,
          ok_or-eq-ok session.attach_endpoint _ p ∙ ground arith,
          ok_or-eq-ok (launch_directory session) _ q ∙ ground arith,
          ground arith,
        )
