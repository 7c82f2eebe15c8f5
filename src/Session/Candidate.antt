-- ===== src/Session/Candidate.antt =====
-- src/session/target_candidate.rs: the sessions that a command's target can name.
use agentbox_nix.Shared.{ok}
use agentbox_nix.Session.Record.{
  server_args, kind_is_managed, status_is_running, orphaned, duplicate, failed,
}
use agentbox_nix.Session.Restartable.{
  RestartableSession, prepare_restart_session, prepare_restart_session_iff,
}
use agentbox_nix.Shared.{
  String, ◌≡◌, refl, Bool, true, false, Option, none, some, List, filter_map, map_option, is_some,
  unwrap_or, if◌then◌else◌, arith,
}
use agentbox_nix.Errors.{managed, run, AgentboxContainerKind}
use agentbox_nix.Metadata.{Json}
use agentbox_nix.Paths.{FilePath}
use agentbox_nix.Session.Record.{
  SessionStatus, running, SessionRecord, canonical_git_root, stable_id, runtime, runtime_kind,
  launch_directory, has_stable_id, is_connectable_candidate, is_restartable_candidate,
}

pub data SessionTargetKind : Type 0 where
  connect_root restart_stable_id stable_id_target : SessionTargetKind

pub record SessionTargetCandidate : Type 0 where
  pub value : String
  pub canonical_git_root : Option FilePath
  pub runtime : Option String
  pub status : SessionStatus

abbrev guarded : Bool → Option String → Option String
guarded test value = if test then value else none

unfoldable pub candidate_value : SessionTargetKind → SessionRecord → Option String
candidate_value connect_root session =
    guarded (is_connectable_candidate session) (canonical_git_root session)
candidate_value restart_stable_id session =
    guarded (is_restartable_candidate session) (stable_id session)
candidate_value stable_id_target session = guarded (has_stable_id session) (stable_id session)

abbrev pub candidate : SessionTargetKind → SessionRecord → Option SessionTargetCandidate
candidate kind session =
    map_option
      (λ value. record {
        value = value;
        canonical_git_root = canonical_git_root session;
        runtime = runtime session;
        status = session.status;
      })
      (candidate_value kind session)

abbrev pub candidates : SessionTargetKind → List SessionRecord → List SessionTargetCandidate
candidates kind sessions = filter_map (candidate kind) sessions

abbrev pub matches : SessionTargetKind → SessionRecord → Bool
matches kind session = is_some (candidate kind session)

abbrev pub canonical_git_root_or_unknown : SessionTargetCandidate → String
canonical_git_root_or_unknown c = unwrap_or c.canonical_git_root "unknown"

abbrev pub runtime_or_unknown : SessionTargetCandidate → String
runtime_or_unknown c = unwrap_or c.runtime "unknown"

is_some_value : {A : Type 0} (o : Option A) → is_some o ≡ true → (a : A) × (o ≡ some a)
is_some_value none h = cc
is_some_value (some a) h = (a, refl)

managed_kind : (kind : AgentboxContainerKind) → kind_is_managed kind ≡ true → kind ≡ managed
managed_kind managed h = refl
managed_kind run h = cc

running_status : (status : SessionStatus) → status_is_running status ≡ true → status ≡ running
running_status running h = refl
running_status orphaned h = cc
running_status duplicate h = cc
running_status (failed failure) h = cc

guarded_holds :
    (test : Bool) (value : Option String) (id : String)
    → guarded test value ≡ some id
    → (test ≡ true) × (value ≡ some id)
guarded_holds true value id h = (refl, h)
guarded_holds false value id h = cc

record IsRestartable (session : SessionRecord) : Type 0 where
  kind : kind_is_managed session.container_kind ≡ true
  status : status_is_running session.status ≡ true
  runtime : is_some (runtime_kind session) ≡ true
  directory : is_some (launch_directory session) ≡ true

IsRestartable-parts :
    (session : SessionRecord) → is_restartable_candidate session ≡ true → IsRestartable session
unfolding is_restartable_candidate
IsRestartable-parts session h = record {
  kind = ground arith;
  status = ground arith;
  runtime = ground arith;
  directory = ground arith;
}

-- A session that is offered as a restart target, and whose server arguments can be read, is one
-- that a restart accepts: it is prepared, with those arguments, under the id that was offered.
pub restart_candidate_prepared :
    (json : Json) (session : SessionRecord) (id : String) (args : List String)
    → candidate_value restart_stable_id session ≡ some id
    → server_args json session.metadata ≡ ok args
    → (r : RestartableSession) × (prepare_restart_session json session ≡ ok r)
      × (stable_id r.session ≡ some id)
      × (r.server_args ≡ args)
unfolding candidate_value
restart_candidate_prepared json session id args h a =
    let (test, same_id) =
      guarded_holds (is_restartable_candidate session) (stable_id session) id h in
    let parts = IsRestartable-parts session test in
    let (kind, k) = is_some_value (runtime_kind session) parts.runtime in
    let (directory, d) = is_some_value (launch_directory session) parts.directory in
    let r : RestartableSession = record {
      session = session;
      runtime = kind;
      launch_directory = directory;
      server_args = args;
    } in
    let (_, prepared) = prepare_restart_session_iff json session r in
    (
      r,
      prepared (
        managed_kind session.container_kind parts.kind,
        running_status session.status parts.status,
        k,
        d,
        a,
        refl,
      ),
      same_id,
      refl,
    )
