-- ===== src/Session/Discovery/Live.antt =====
-- A discovered container is a running session exactly when its labels, port, mounts and root are
-- sound; and the containers that agentbox launches are.
use agentbox_nix.Shared.{to_option}
use agentbox_nix.Session.Labels.Laws.{required_holds}
use agentbox_nix.Errors.{AttachLabelError}
use agentbox_nix.Shared.{
  ℕ, String, ◌≡◌, refl, sym, ◌∙◌, ap, ◌↔◌, true, false, some, List, Result, ok, err, arith,
}
use agentbox_nix.Errors.{RuntimeKind, AgentboxContainerKind}
use agentbox_nix.Runtime.{AttachEndpoint, attach_spec}
use agentbox_nix.Paths.{FilePath}
use agentbox_nix.Podman.{PodmanPsContainer, PodmanContainerInspect, published_attach_endpoint}
use agentbox_nix.Session.Record.{SessionRecord, running}
use agentbox_nix.Session.Labels.{
  RequiredSessionLabels, SessionLabelReport, AttachLabels, from_metadata,
}
use agentbox_nix.Session.Labels.Laws.{
  HasRequired, HasAttach, required_iff, attach_sound, attach_complete, accepted,
}
use agentbox_nix.Session.Status.{
  GitRootProbe, SessionStatusInput, derive_status, endpoint_report, git_root_is_orphaned,
  has_volume_mount_destination, required_nix_cache_mount_destination,
}
use agentbox_nix.Session.Status.Laws.{derive_status_running_iff, IsServing}
use agentbox_nix.Session.Discovery.{build_session_record}

-- A container that serves a workspace: its labels are complete and valid, the port of its runtime is
-- published, its cache volume is mounted, it runs, and its git root still stands.
pub record IsLive (sha256 : String → List ℕ) (probe : GitRootProbe)
    (inspect : PodmanContainerInspect) (root directory : FilePath) (kind : RuntimeKind)
    (endpoint : AttachEndpoint) : Type 0 where
  pub required : HasRequired sha256 inspect.labels root directory
  pub attach : HasAttach inspect.labels kind
  pub published : published_attach_endpoint inspect.ports (attach_spec kind) ≡ ok (some endpoint)
  pub mounted :
      has_volume_mount_destination inspect.mounts required_nix_cache_mount_destination ≡ true
  pub up : inspect.running ≡ true
  pub rooted : git_root_is_orphaned root probe ≡ false

endpoint_sound :
    (report : SessionLabelReport) (inspect : PodmanContainerInspect) (e : AttachEndpoint)
    → endpoint_report report inspect ≡ ok e
    → (a : AttachLabels) × (report.attach ≡ ok a)
      × (published_attach_endpoint inspect.ports a.attach ≡ ok (some e))
unfolding endpoint_report
endpoint_sound report inspect e h = by_attach report.attach refl
  where
    by_attach :
        (r : Result AttachLabelError AttachLabels)
        → report.attach ≡ r
        → (a : AttachLabels) × (report.attach ≡ ok a)
          × (published_attach_endpoint inspect.ports a.attach ≡ ok (some e))
    by_attach (ok a) q = (a, q, ground arith)
    by_attach (err f) q = absurd (ground arith)

endpoint_complete :
    (report : SessionLabelReport) (inspect : PodmanContainerInspect) (a : AttachLabels)
    (e : AttachEndpoint)
    → report.attach ≡ ok a
    → published_attach_endpoint inspect.ports a.attach ≡ ok (some e)
    → endpoint_report report inspect ≡ ok e
unfolding endpoint_report
endpoint_complete report inspect a e h p = ground arith

module _ (sha256 : String → List ℕ) (probe : GitRootProbe) (container : PodmanPsContainer)
    (inspect : PodmanContainerInspect) (owner : AgentboxContainerKind) where
  -- The record that is built for the container.
  abbrev built : SessionRecord
  built = build_session_record sha256 probe container inspect owner

  abbrev status_input : SessionStatusInput
  status_input = record {
    label_report = from_metadata sha256 inspect.labels;
    attach_endpoint = endpoint_report (from_metadata sha256 inspect.labels) inspect;
    container_running = inspect.running;
    mounts = inspect.mounts;
    git_root_probe = probe;
  }

  built_status : built.status ≡ derive_status status_input
  unfolding build_session_record
  built_status = refl

  built_endpoint : built.attach_endpoint ≡ to_option status_input.attach_endpoint
  unfolding build_session_record
  built_endpoint = refl

  published_report :
      (root directory : FilePath) (kind : RuntimeKind) (endpoint : AttachEndpoint)
      → IsLive sha256 probe inspect root directory kind endpoint
      → status_input.attach_endpoint ≡ ok endpoint
  published_report root directory kind endpoint live =
      endpoint_complete (from_metadata sha256 inspect.labels) inspect
        (record { runtime = kind; attach = attach_spec kind }) endpoint
        (attach_complete sha256 inspect.labels kind live.attach) live.published

  -- A live container is recorded as running, with the endpoint that is published.
  pub build_session_record_live :
      (root directory : FilePath) (kind : RuntimeKind) (endpoint : AttachEndpoint)
      → IsLive sha256 probe inspect root directory kind endpoint
      → (built.status ≡ running) × (built.attach_endpoint ≡ some endpoint)
  build_session_record_live root directory kind endpoint live =
      let e = published_report root directory kind endpoint live in
      (
        built_status
            ∙ (derive_status_running_iff status_input).1 (
              accepted sha256 inspect.labels root directory,
              (required_iff sha256 inspect.labels root directory).1 live.required,
              record {
                endpoint = (endpoint, e);
                mounted = live.mounted;
                up = live.up;
                rooted = live.rooted;
              },
            ),
        built_endpoint ∙ ap to_option e,
      )

  IsLive-from :
      (r : RequiredSessionLabels)
      → (from_metadata sha256 inspect.labels).required ≡ ok r
      → IsServing status_input r
      → (root directory : FilePath) × (kind : RuntimeKind) × (endpoint : AttachEndpoint) × IsLive
          sha256 probe inspect root directory kind endpoint
  IsLive-from r e s =
      let (endpoint, p) = s.endpoint in
      let (a, q, published) =
        endpoint_sound (from_metadata sha256 inspect.labels) inspect endpoint p in
      let (attach, spec) = attach_sound sha256 inspect.labels a q in
      (
        r.identity.canonical_git_root,
        r.launch_directory,
        a.runtime,
        endpoint,
        record {
          required = required_holds sha256 inspect.labels r e;
          attach = attach;
          published = ap (published_attach_endpoint inspect.ports) (sym spec) ∙ published;
          mounted = s.mounted;
          up = s.up;
          rooted = s.rooted;
        },
      )

  -- A container is recorded as running exactly when it is live, for some root, launch directory,
  -- runtime and endpoint.
  pub build_session_record_running_iff : (built.status ≡ running) ↔ (
      (root directory : FilePath) × (kind : RuntimeKind) × (endpoint : AttachEndpoint) × IsLive
        sha256 probe inspect root directory kind endpoint)
  build_session_record_running_iff = (
    λ h.
        let (r, e, s) = (derive_status_running_iff status_input).0 (sym built_status ∙ h) in
        IsLive-from r e s,
    λ (root, directory, kind, endpoint, live).
        (build_session_record_live root directory kind endpoint live).0,
  )
