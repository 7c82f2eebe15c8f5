-- ===== src/Preflight/Check/Laws.antt =====
-- Exactly when the checks before a launch pass on a host, whose snapshot they look at.
use agentbox_nix.Shared.{
  String, Bool, true, false, ◌&&◌, ◌||◌, ◌≡◌, refl, ap, subst, ◌↔◌, ◌⊎◌, inl, inr, Option, none,
  some, List, [], ◌∷◌, All, ok, err, ok_or, Succeeds, Succeeds-require, Succeeds-bind, ok_injective,
  one_value, string_discrete, if◌then◌else◌,
}
use agentbox_nix.Errors.{Error, RuntimeKind, opencode, codex, relative_environment_path}
use agentbox_nix.Paths.{FilePath, is_absolute}
use agentbox_nix.Launch.Spec.{RuntimeRunMode, managed_session, transient_server, foreground}
use agentbox_nix.Preflight.HostState.{
  RuntimeHostStateMount, RuntimeHostStateDestination, fixed, source_path_when_environment,
  is_variable, resolve_destination, snapshot_key, host_state_mounts, codex_server_mount,
  codex_foreground_mount, opencode_config_mount, opencode_data_mount,
}
use agentbox_nix.Preflight.Snapshot.{
  PreflightHost, HostPathStatus, HostDirectoryPreflightSnapshot, SnapshotMap, get_snapshot,
  detect_with, mount_snapshot, detect_runtime_state, resolve_nix_client_source,
  nix_daemon_socket_path, etc_nix, detect_nix_config,
}
use agentbox_nix.Preflight.Check.{
  accessible, validate, no_error, mounts_from, runtime_mounts, RuntimeHostStatePreflight,
  custom_conf_fine, check_host_prerequisites,
}

-- A directory that is mounted at its own path must have an absolute one.
abbrev pub IsMountable : RuntimeHostStateDestination → FilePath → Option String → Type 0
IsMountable (fixed destination) source from = Unit
IsMountable (source_path_when_environment variable fallback) source from =
    (is_variable from variable ≡ false) ⊎ (is_absolute source ≡ true)

destination_iff :
    (destination : RuntimeHostStateDestination) (source : FilePath) (from : Option String)
    → Succeeds (resolve_destination destination source from) ↔ IsMountable destination source from
unfolding resolve_destination
destination_iff (fixed destination) source from = (λ h. tt, λ h. (destination, refl))
destination_iff (source_path_when_environment variable fallback) source from =
    go (is_variable from variable) (is_absolute source)
  where
    go :
        (named absolute : Bool)
        → Succeeds (
            if named
            then (if absolute then ok source else err (relative_environment_path variable source))
            else ok fallback)
          ↔ ((named ≡ false) ⊎ (absolute ≡ true))
    go false absolute = (λ h. inl refl, λ h. (fallback, refl))
    go true true = (λ h. inr refl, λ h. (source, refl))
    go true false = (λ (a, h). cc, λ h. elim h [ inl p ↦ cc | inr p ↦ cc ])

-- A directory that can be read, written and searched.
abbrev pub IsUsable : HostPathStatus → Type 0
IsUsable status =
    (status.exists ≡ true)
    × (status.is_directory ≡ true)
    × (status.readable ≡ true)
    × (status.writable ≡ true)
    × (status.searchable ≡ true)

-- The state that a mount needs.
abbrev IsGiven : RuntimeHostStateMount → HostDirectoryPreflightSnapshot → Type 0
IsGiven spec state =
    (state.source_error ≡ none)
    × (source : FilePath) × (state.source ≡ some source)
    × IsMountable spec.destination source state.source_environment_variable
    × IsUsable state.status

no_error_iff : (error : Option Error) → Succeeds (no_error error) ↔ (error ≡ none)
no_error_iff none = (λ h. refl, λ h. (tt, refl))
no_error_iff (some e) = (λ (a, h). cc, λ h. cc)

accessible_iff : (r w s : Bool) → (r && w && s ≡ true) ↔ ((r ≡ true) × (w ≡ true) × (s ≡ true))
accessible_iff true true s = (λ h. (refl, refl, h), λ (a, b, c). c)
accessible_iff true false s = (λ h. cc, λ (a, b, c). cc)
accessible_iff false w s = (λ h. cc, λ (a, b, c). cc)

ok_or_iff {ℓ} :
    {A : Type ℓ} (o : Option A) (error : Error) (a : A) → (ok_or o error ≡ ok a) ↔ (o ≡ some a)
ok_or_iff none error a = (λ h. cc, λ h. cc)
ok_or_iff (some b) error a =
    (λ h. ap some (ok_injective Error b a h), λ h. ap ok (one_value refl h))

validate_iff :
    (runtime : RuntimeKind) (spec : RuntimeHostStateMount) (state : HostDirectoryPreflightSnapshot)
    → Succeeds (validate runtime spec state) ↔ IsGiven spec state
unfolding validate
validate_iff runtime spec state = (to, from)
  where
    to : Succeeds (validate runtime spec state) → IsGiven spec state
    to h =
        let (u, fine, h1) = (Succeeds-bind (no_error state.source_error) _).0 h in
        let (source, found, h2) = (Succeeds-bind (ok_or state.source _) _).0 h1 in
        let (destination, resolved, h3) =
          (Succeeds-bind
              (resolve_destination spec.destination source state.source_environment_variable) _).0
            h2 in
        let (exists, h4) = (Succeeds-require state.status.exists _ _).0 h3 in
        let (directory, h5) = (Succeeds-require state.status.is_directory _ _).0 h4 in
        let (access, h6) = (Succeeds-require (accessible state.status) _ _).0 h5 in
        let (r, w, s) =
          (accessible_iff state.status.readable state.status.writable state.status.searchable).0
            access in
        (
          (no_error_iff state.source_error).0 (u, fine),
          source,
          (ok_or_iff state.source _ source).0 found,
          (destination_iff spec.destination source state.source_environment_variable).0
              (destination, resolved),
          (exists, directory, r, w, s),
        )

    from : IsGiven spec state → Succeeds (validate runtime spec state)
    from (fine, source, found, mountable, (exists, directory, r, w, s)) =
        let (u, fine') = (no_error_iff state.source_error).1 fine in
        let (destination, resolved) =
          (destination_iff spec.destination source state.source_environment_variable).1 mountable in
        (Succeeds-bind (no_error state.source_error) _).1 (
          u,
          fine',
          (Succeeds-bind (ok_or state.source _) _).1 (
            source,
            (ok_or_iff state.source _ source).1 found,
            (Succeeds-bind
                  (resolve_destination spec.destination source state.source_environment_variable)
                  _).1
                (
                  destination,
                  resolved,
                  (Succeeds-require state.status.exists _ _).1 (
                    exists,
                    (Succeeds-require state.status.is_directory _ _).1 (
                      directory,
                      (Succeeds-require (accessible state.status) _ _).1 (
                        (accessible_iff state.status.readable state.status.writable
                              state.status.searchable).1
                            (r, w, s),
                        (_, refl),
                      ),
                    ),
                  ),
                ),
          ),
        )

-- Every mount finds its state in the map, and the state is as it needs it.
abbrev AllGiven : SnapshotMap → List RuntimeHostStateMount → Type 0
AllGiven states = All (λ spec.
    (state : HostDirectoryPreflightSnapshot) × (get_snapshot states (snapshot_key spec.destination)
      ≡ some state)
    × IsGiven spec state)

-- One round of the loop, when the rest of it is known.
mounts_round_iff :
    (runtime : RuntimeKind) (states : SnapshotMap) (spec : RuntimeHostStateMount)
    (specs : List RuntimeHostStateMount)
    → ((p : RuntimeHostStatePreflight)
        → Succeeds (mounts_from runtime states specs p) ↔ AllGiven states specs)
    → (preflight : RuntimeHostStatePreflight)
    → Succeeds (mounts_from runtime states (spec ∷ specs) preflight)
      ↔ AllGiven states (spec ∷ specs)
unfolding mounts_from
mounts_round_iff runtime states spec specs later preflight = (to, from)
  where
    found : Option HostDirectoryPreflightSnapshot
    found = get_snapshot states (snapshot_key spec.destination)

    to :
        Succeeds (mounts_from runtime states (spec ∷ specs) preflight)
        → AllGiven states (spec ∷ specs)
    to h =
        let (state, there, h1) = (Succeeds-bind (ok_or found _) _).0 h in
        let (valid, v, h2) = (Succeeds-bind (validate runtime spec state) _).0 h1 in
        (
          (
            state,
            (ok_or_iff found _ state).0 there,
            (validate_iff runtime spec state).0 (valid, v),
          ),
          (later _).0 h2,
        )

    from :
        AllGiven states (spec ∷ specs)
        → Succeeds (mounts_from runtime states (spec ∷ specs) preflight)
    from ((state, there, given), rest) =
        let (valid, v) = (validate_iff runtime spec state).1 given in
        (Succeeds-bind (ok_or found _) _).1 (
          state,
          (ok_or_iff found _ state).1 there,
          (Succeeds-bind (validate runtime spec state) _).1 (valid, v, (later _).1 rest),
        )

mounts_from_iff :
    (runtime : RuntimeKind) (states : SnapshotMap) (specs : List RuntimeHostStateMount)
    (preflight : RuntimeHostStatePreflight)
    → Succeeds (mounts_from runtime states specs preflight) ↔ AllGiven states specs
unfolding mounts_from
mounts_from_iff runtime states [] preflight = (λ h. tt, λ h. (preflight, refl))
mounts_from_iff runtime states (spec ∷ specs) preflight =
    mounts_round_iff runtime states spec specs (λ p. mounts_from_iff runtime states specs p)
      preflight

-- Each mount's own state is as the mount needs it.
abbrev pub AllReady : PreflightHost → List RuntimeHostStateMount → Type 0
AllReady host = All (λ spec. IsGiven spec (mount_snapshot host spec))

found_state_iff :
    (spec : RuntimeHostStateMount) (states : SnapshotMap) (state : HostDirectoryPreflightSnapshot)
    → get_snapshot states (snapshot_key spec.destination) ≡ some state
    → ((found : HostDirectoryPreflightSnapshot) × (get_snapshot states
            (snapshot_key spec.destination)
          ≡ some found)
        × IsGiven spec found)
      ↔ IsGiven spec state
found_state_iff spec states state there = (
  λ (found, p, given). subst (λ s. IsGiven spec s) (one_value p there) given,
  λ given. (state, there, given),
)

one_mount_iff :
    (spec : RuntimeHostStateMount) (states : SnapshotMap) (state : HostDirectoryPreflightSnapshot)
    → get_snapshot states (snapshot_key spec.destination) ≡ some state
    → AllGiven states (spec ∷ []) ↔ (IsGiven spec state × Unit {0})
one_mount_iff spec states state there = (
  λ (given, u). ((found_state_iff spec states state there).0 given, u),
  λ (given, u). ((found_state_iff spec states state there).1 given, u),
)

two_mounts_iff :
    (spec other : RuntimeHostStateMount) (states : SnapshotMap)
    (state found : HostDirectoryPreflightSnapshot)
    → get_snapshot states (snapshot_key spec.destination) ≡ some state
    → get_snapshot states (snapshot_key other.destination) ≡ some found
    → AllGiven states (spec ∷ other ∷ []) ↔ (IsGiven spec state × (IsGiven other found × Unit {0}))
two_mounts_iff spec other states state found there also = (
  λ (given, rest). (
    (found_state_iff spec states state there).0 given,
    (one_mount_iff other states found also).0 rest,
  ),
  λ (given, rest). (
    (found_state_iff spec states state there).1 given,
    (one_mount_iff other states found also).1 rest,
  ),
)

-- What was looked up for a mount is found under its key: the keys of a runtime's mounts differ.
detected_mounts_iff :
    (host : PreflightHost) (runtime : RuntimeKind) (mode : RuntimeRunMode)
    → AllGiven
        (detect_runtime_state host (host_state_mounts runtime mode))
        (host_state_mounts runtime mode)
      ↔ AllReady host (host_state_mounts runtime mode)
unfolding get_snapshot string_discrete
detected_mounts_iff host codex foreground =
    one_mount_iff codex_foreground_mount
      (detect_runtime_state host (host_state_mounts codex foreground))
      (mount_snapshot host codex_foreground_mount) refl
detected_mounts_iff host codex managed_session =
    one_mount_iff codex_server_mount
      (detect_runtime_state host (host_state_mounts codex managed_session))
      (mount_snapshot host codex_server_mount) refl
detected_mounts_iff host codex transient_server =
    one_mount_iff codex_server_mount
      (detect_runtime_state host (host_state_mounts codex transient_server))
      (mount_snapshot host codex_server_mount) refl
detected_mounts_iff host opencode mode =
    two_mounts_iff opencode_config_mount opencode_data_mount
      (detect_runtime_state host (host_state_mounts opencode mode))
      (mount_snapshot host opencode_config_mount) (mount_snapshot host opencode_data_mount) refl
      refl

-- What a launch of the runtime needs of the host.
abbrev pub IsReadyHost : RuntimeKind → RuntimeRunMode → PreflightHost → Type 0
IsReadyHost runtime mode host =
    (host.test_fixtures_enabled || host.command_exists "git" ≡ true)
    × (host.command_exists "podman" ≡ true)
    × (host.test_fixtures_enabled || host.unix_socket_exists nix_daemon_socket_path ≡ true)
    × (client : FilePath) × (resolve_nix_client_source host ≡ some client)
    × (host.test_fixtures_enabled || host.symlink_or_path_exists etc_nix ≡ true)
    × (host.test_fixtures_enabled || host.file_is_readable "/etc/nix/nix.conf" ≡ true)
    × (custom_conf_fine (detect_nix_config host) ≡ true)
    × AllReady host (host_state_mounts runtime mode)

-- For every runtime, every mode and every host: the prerequisites that are detected pass the check
-- exactly when git, podman, the Nix daemon's socket, the Nix client, /etc/nix and a readable nix.conf are
-- there, the custom configuration is not a broken link, and each directory that the runtime mounts in the mode
-- has a source that resolves, is mountable and is a directory that can be read, written and searched.
pub check_host_prerequisites_iff :
    (runtime : RuntimeKind) (mode : RuntimeRunMode) (host : PreflightHost)
    → Succeeds (check_host_prerequisites (detect_with runtime mode host) runtime mode)
      ↔ IsReadyHost runtime mode host
unfolding check_host_prerequisites runtime_mounts detect_with
check_host_prerequisites_iff runtime mode host = (to, from)
  where
    mounts : List RuntimeHostStateMount
    mounts = host_state_mounts runtime mode

    states : SnapshotMap
    states = detect_runtime_state host mounts

    start : RuntimeHostStatePreflight
    start = record { mounts = []; environment = [] }

    to :
        Succeeds (check_host_prerequisites (detect_with runtime mode host) runtime mode)
        → IsReadyHost runtime mode host
    to h =
        let (git, h1) =
          (Succeeds-require (host.test_fixtures_enabled || host.command_exists "git") _ _).0 h in
        let (podman, h2) = (Succeeds-require (host.command_exists "podman") _ _).0 h1 in
        let (socket, h3) =
          (Succeeds-require
              (host.test_fixtures_enabled || host.unix_socket_exists nix_daemon_socket_path) _ _).0
            h2 in
        let (client, found, h4) =
          (Succeeds-bind (ok_or (resolve_nix_client_source host) _) _).0 h3 in
        let (etc, h5) =
          (Succeeds-require (host.test_fixtures_enabled || host.symlink_or_path_exists etc_nix) _
              _).0
            h4 in
        let (conf, h6) =
          (Succeeds-require
              (host.test_fixtures_enabled || host.file_is_readable "/etc/nix/nix.conf") _ _).0
            h5 in
        let (custom, h7) =
          (Succeeds-require (custom_conf_fine (detect_nix_config host)) _ _).0 h6 in
        let (state, mounted, h8) =
          (Succeeds-bind (mounts_from runtime states mounts start) _).0 h7 in
        (
          git,
          podman,
          socket,
          client,
          (ok_or_iff (resolve_nix_client_source host) _ client).0 found,
          etc,
          conf,
          custom,
          (detected_mounts_iff host runtime mode).0
              ((mounts_from_iff runtime states mounts start).0 (state, mounted)),
        )

    from :
        IsReadyHost runtime mode host
        → Succeeds (check_host_prerequisites (detect_with runtime mode host) runtime mode)
    from (git, podman, socket, client, found, etc, conf, custom, ready) =
        let (state, mounted) =
          (mounts_from_iff runtime states mounts start).1
            ((detected_mounts_iff host runtime mode).1 ready) in
        (Succeeds-require (host.test_fixtures_enabled || host.command_exists "git") _ _).1 (
          git,
          (Succeeds-require (host.command_exists "podman") _ _).1 (
            podman,
            (Succeeds-require
                  (host.test_fixtures_enabled || host.unix_socket_exists nix_daemon_socket_path) _
                  _).1
                (
                  socket,
                  (Succeeds-bind (ok_or (resolve_nix_client_source host) _) _).1 (
                    client,
                    (ok_or_iff (resolve_nix_client_source host) _ client).1 found,
                    (Succeeds-require
                          (host.test_fixtures_enabled || host.symlink_or_path_exists etc_nix) _ _).1
                        (
                          etc,
                          (Succeeds-require
                                (host.test_fixtures_enabled
                                  || host.file_is_readable "/etc/nix/nix.conf")
                                _ _).1
                              (
                                conf,
                                (Succeeds-require (custom_conf_fine (detect_nix_config host)) _ _).1
                                    (
                                      custom,
                                      (Succeeds-bind (mounts_from runtime states mounts start) _).1
                                          (state, mounted, (_, refl)),
                                    ),
                              ),
                        ),
                  ),
                ),
          ),
        )
