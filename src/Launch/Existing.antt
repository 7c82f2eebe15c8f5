-- ===== src/Launch/Existing.antt =====
-- src/commands/container_launch/policy.rs and existing_resources.rs: what a kind of launch asks for, and
-- which containers of the workspace stand in its way. The discovery is a parameter.
use agentbox_nix.Shared.{
  String, Bool, true, false, ◌≡◌, ◌↔◌, ◌⊎◌, inl, inr, refl, Option, none, some, List, [], ◌∷◌,
  Result, ok, err, ◌>>=◌, >>=-eq-ok, ℕ, ap, subst, sym, ◌∙◌,
}
use agentbox_nix.Errors.{Error, duplicate_agentbox_containers}
use agentbox_nix.Podman.{PodmanContainerInspect}
use agentbox_nix.Workspace.{WorkspaceIdentity}
use agentbox_nix.Session.Record.{SessionRecord}
use agentbox_nix.Session.Selection.{select_single_session}
use agentbox_nix.Session.Conflict.{existing_session_error}
use agentbox_nix.Launch.Spec.{RuntimeRunMode, managed_session, transient_server, foreground}

pub data HostClientRequirement : Type 0 where
  required not_required : HostClientRequirement

pub data ExistingResourceScope : Type 0 where
  managed_sessions agentbox_containers : ExistingResourceScope

pub data ExistingResourceCheck : Type 0 where
  require_absent : ExistingResourceScope → ExistingResourceCheck
  allow_existing : ExistingResourceCheck

pub record RuntimeLaunchPolicy : Type 0 where
  pub run_mode : RuntimeRunMode
  pub host_client : HostClientRequirement
  pub existing_check : ExistingResourceCheck
  pub record_runtime_image_version : Bool

abbrev pub host_client_for_connect : Bool → HostClientRequirement
host_client_for_connect true = required
host_client_for_connect false = not_required

abbrev pub managed_server : Bool → RuntimeLaunchPolicy
managed_server connect_after_start = record {
  run_mode = managed_session;
  host_client = host_client_for_connect connect_after_start;
  existing_check = require_absent agentbox_containers;
  record_runtime_image_version = true;
}

abbrev pub transient_policy : RuntimeLaunchPolicy
transient_policy = record {
  run_mode = transient_server;
  host_client = required;
  existing_check = require_absent agentbox_containers;
  record_runtime_image_version = false;
}

abbrev pub foreground_policy : RuntimeLaunchPolicy
foreground_policy = record {
  run_mode = foreground;
  host_client = not_required;
  existing_check = require_absent managed_sessions;
  record_runtime_image_version = false;
}

abbrev pub replacement_server : Bool → RuntimeLaunchPolicy
replacement_server connect_after_start = record {
  run_mode = managed_session;
  host_client = host_client_for_connect connect_after_start;
  existing_check = allow_existing;
  record_runtime_image_version = true;
}

abbrev several :
    WorkspaceIdentity
    → List SessionRecord
    → ExistingResourceScope
    → Result Error (Option SessionRecord)
several workspace sessions agentbox_containers =
    err (duplicate_agentbox_containers workspace.canonical_git_root)
several workspace sessions managed_sessions = select_single_session sessions workspace

unfoldable pub select_existing_resource :
    List SessionRecord
    → WorkspaceIdentity
    → ExistingResourceScope
    → Result Error (Option SessionRecord)
unfolding select_single_session
select_existing_resource [] workspace scope = ok none
select_existing_resource (session ∷ []) workspace scope = ok (some session)
select_existing_resource (first ∷ second ∷ rest) workspace scope =
    several workspace (first ∷ second ∷ rest) scope

module _ (sha256 : String → List ℕ) (inspect_one : String → Result Error PodmanContainerInspect)
    (discover : ExistingResourceScope → Result Error (List SessionRecord)) where
  abbrev refuse_existing : WorkspaceIdentity → Option SessionRecord → Result Error (Unit {0})
  refuse_existing workspace none = ok tt
  refuse_existing workspace (some session) =
      err (existing_session_error sha256 inspect_one workspace session)

  unfoldable pub ensure_required_resources_absent :
      WorkspaceIdentity → ExistingResourceCheck → Result Error (Unit {0})
  unfolding select_existing_resource
  ensure_required_resources_absent workspace allow_existing = ok tt
  ensure_required_resources_absent workspace (require_absent scope) = do
    sessions ← discover scope
    existing ← select_existing_resource sessions workspace scope
    refuse_existing workspace existing

  abbrev scope_of : ExistingResourceCheck → ExistingResourceScope → ExistingResourceScope
  scope_of allow_existing scope = scope
  scope_of (require_absent own) scope = own

  refused_iff :
      (workspace : WorkspaceIdentity) (scope : ExistingResourceScope) (found : List SessionRecord)
      → ((select_existing_resource found workspace scope >>= refuse_existing workspace) ≡ ok tt)
        ↔ (found ≡ [])
  unfolding select_existing_resource select_single_session
  refused_iff workspace scope [] = (λ h. refl, λ h. refl)
  refused_iff workspace scope (session ∷ []) = (λ h. cc, λ h. cc)
  refused_iff workspace agentbox_containers (first ∷ second ∷ rest) = (λ h. cc, λ h. cc)
  refused_iff workspace managed_sessions (first ∷ second ∷ rest) = (λ h. cc, λ h. cc)

  -- A launch goes on past the check of existing containers exactly when it replaces one, or when the
  -- discovery in the scope of its policy succeeds and finds nothing.
  pub ensure_required_resources_absent_iff :
      (workspace : WorkspaceIdentity) (check : ExistingResourceCheck)
      → (ensure_required_resources_absent workspace check ≡ ok tt) ↔ (
          (check ≡ allow_existing)
          ⊎ ((scope : ExistingResourceScope) × (check ≡ require_absent scope)
              × (discover scope ≡ ok [])))
  unfolding ensure_required_resources_absent
  ensure_required_resources_absent_iff workspace allow_existing = (λ h. inl refl, λ h. refl)
  ensure_required_resources_absent_iff workspace (require_absent scope) = (
    λ h.
        let (found, discovered, next) = >>=-eq-ok (discover scope) _ h in
        inr (scope, refl, discovered ∙ ap ok ((refused_iff workspace scope found).0 next)),
    λ t. elim t [
      | inl allowed ↦ cc
      | inr (other, same, nothing) ↦
          let here : discover scope ≡ ok [] =
            subst (λ c. discover (scope_of c scope) ≡ ok []) (sym same) nothing in
          rw here refl
    ],
  )
