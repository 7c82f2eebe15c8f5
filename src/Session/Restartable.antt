-- ===== src/Session/Restartable.antt =====
-- src/session/restartable.rs: the check that a session can be restarted, and what a restart takes
-- from it.
use agentbox_nix.Shared.{ap}
use agentbox_nix.Shared.{
  String, ◌≡◌, refl, ◌↔◌, ◌∙◌, Option, none, some, List, unwrap_or, Result, ok, err, ◌>>=◌,
  >>=-eq-ok, ok_or, ok_or-eq-ok, map_err, arith,
}
use agentbox_nix.Errors.{
  Error, agentbox_container_requires_action, orphaned_managed_session, failed_managed_session,
  duplicate_managed_sessions, transient_not_restartable, restart_without_git_root,
  restart_without_runtime, restart_without_launch_directory, restart_malformed_server_args,
  RuntimeKind, AgentboxContainerKind, managed, run, SessionFailure,
}
use agentbox_nix.Paths.{FilePath}
use agentbox_nix.Metadata.{Json}
use agentbox_nix.Session.Record.{
  SessionStatus, running, orphaned, duplicate, failed, SessionRecord, canonical_git_root, stable_id,
  runtime_kind, launch_directory, server_args,
}

pub record RestartableSession : Type 0 where
  pub session : SessionRecord
  pub runtime : RuntimeKind
  pub launch_directory : FilePath
  pub server_args : List String

abbrev pub restart_session_git_root : SessionRecord → Result Error FilePath
restart_session_git_root session =
    ok_or (canonical_git_root session) (restart_without_git_root session.container_name)

abbrev failed_error : SessionRecord → Option SessionFailure → FilePath → Error
failed_error session none root = failed_managed_session root session.container_name
failed_error session (some failure) root =
    agentbox_container_requires_action managed root session.container_name failure

abbrev validate_managed_status : SessionRecord → SessionStatus → Result Error (Unit {0})
validate_managed_status session running = ok tt
validate_managed_status session orphaned = do
  root ← restart_session_git_root session
  err (orphaned_managed_session root session.container_name)
validate_managed_status session duplicate = do
  root ← restart_session_git_root session
  err (duplicate_managed_sessions root)
validate_managed_status session (failed failure) = do
  root ← restart_session_git_root session
  err (failed_error session failure root)

-- A session is transient or managed, so the second test of the source never fails.
abbrev pub validate_restartable_status :
    SessionRecord → AgentboxContainerKind → Result Error (Unit {0})
validate_restartable_status session run = err (
    transient_not_restartable session.container_name
      (unwrap_or (stable_id session) session.container_name))
validate_restartable_status session managed = validate_managed_status session session.status

unfoldable pub prepare_restart_session : Json → SessionRecord → Result Error RestartableSession
prepare_restart_session json session = do
  _ ← validate_restartable_status session session.container_kind
  kind ← ok_or (runtime_kind session) (restart_without_runtime session.container_name)
  directory ←
      ok_or (launch_directory session) (restart_without_launch_directory session.container_name)
  args ←
      map_err (λ _. restart_malformed_server_args session.container_name)
        (server_args json session.metadata)
  ok (record {
    session = session;
    runtime = kind;
    launch_directory = directory;
    server_args = args;
  })

managed_and_running :
    (session : SessionRecord) (kind : AgentboxContainerKind) (status : SessionStatus) {u : Unit {0}}
    → session.container_kind ≡ kind
    → session.status ≡ status
    → validate_restartable_status session session.container_kind ≡ ok u
    → (session.container_kind ≡ managed) × (session.status ≡ running)
managed_and_running session run status k s h = absurd (ground arith)
managed_and_running session managed running k s h = (k, s)
managed_and_running session managed orphaned k s h = absurd (ground arith)
managed_and_running session managed duplicate k s h = absurd (ground arith)
managed_and_running session managed (failed f) k s h = absurd (ground arith)

map_err-eq-ok :
    {A : Type 0} (f : Error → Error) (m : Result Error A) {a : A} → map_err f m ≡ ok a → m ≡ ok a
map_err-eq-ok f (ok b) h = cc
map_err-eq-ok f (err e) h = cc

-- A session is prepared for a restart exactly when it is managed and running, has a runtime and a
-- launch directory, and its server arguments can be read; and these and the session are what is
-- returned.
pub prepare_restart_session_iff :
    (json : Json) (session : SessionRecord) (r : RestartableSession)
    → (prepare_restart_session json session ≡ ok r) ↔ (
        (session.container_kind ≡ managed)
        × (session.status ≡ running)
        × (runtime_kind session ≡ some r.runtime)
        × (launch_directory session ≡ some r.launch_directory)
        × (server_args json session.metadata ≡ ok r.server_args)
        × (session ≡ r.session))
unfolding prepare_restart_session
prepare_restart_session_iff json session r = (
  λ h. inverted h,
  λ (k, s, p, d, a, e). simp (k, s, p, d, a) (ap (λ x. ok (record r { session = x })) e),
)
  where
    inverted :
        prepare_restart_session json session ≡ ok r
        → (session.container_kind ≡ managed)
          × (session.status ≡ running)
          × (runtime_kind session ≡ some r.runtime)
          × (launch_directory session ≡ some r.launch_directory)
          × (server_args json session.metadata ≡ ok r.server_args)
          × (session ≡ r.session)
    inverted h =
        let (_, s, h1) =
          >>=-eq-ok (validate_restartable_status session session.container_kind) _ h in
        let (k, p, h2) = >>=-eq-ok (ok_or (runtime_kind session) _) _ h1 in
        let (d, q, h3) = >>=-eq-ok (ok_or (launch_directory session) _) _ h2 in
        let (a, t, h4) = >>=-eq-ok (map_err _ (server_args json session.metadata)) _ h3 in
        let (m, u) =
          managed_and_running session session.container_kind session.status refl refl s in
        (
          m,
          u,
          ok_or-eq-ok (runtime_kind session) _ p ∙ ground arith,
          ok_or-eq-ok (launch_directory session) _ q ∙ ground arith,
          map_err-eq-ok _ (server_args json session.metadata) t ∙ ground arith,
          ground arith,
        )
