-- ===== src/Session/Status/Laws.antt =====
-- When a container counts as a running session.
use agentbox_nix.Session.Status.{toplevel_moved, resolves_elsewhere, root_is_orphaned}
use agentbox_nix.Shared.{
  ◌≡◌, ◌⊎◌, inl, inr, Bool-cases, refl, ◌↔◌, true, false, Option, none, some, Result, ok, err,
  arith, error_of,
}
use agentbox_nix.Errors.{SessionFailure}
use agentbox_nix.Runtime.{AttachEndpoint}
use agentbox_nix.Paths.{FilePath, path_eq}
use agentbox_nix.Session.Record.{running}
use agentbox_nix.Session.Labels.{RequiredSessionLabels}
use agentbox_nix.Session.Status.{
  GitRootProbe, SessionStatusInput, AttachEndpointReport, derive_status, labelled_status,
  endpoint_status, git_root_is_orphaned, has_volume_mount_destination,
  required_nix_cache_mount_destination,
}

-- What makes a container a running session, besides its required labels.
pub record IsServing (input : SessionStatusInput) (required : RequiredSessionLabels) : Type 0 where
  pub endpoint : (e : AttachEndpoint) × (input.attach_endpoint ≡ ok e)
  pub mounted :
      has_volume_mount_destination input.mounts required_nix_cache_mount_destination ≡ true
  pub up : input.container_running ≡ true
  pub rooted :
      git_root_is_orphaned required.identity.canonical_git_root input.git_root_probe ≡ false

-- A session is running exactly when its required labels are valid, its endpoint is published, its
-- cache volume is mounted, its container runs and its git root still stands.
pub derive_status_running_iff :
    (input : SessionStatusInput)
    → (derive_status input ≡ running) ↔ (
        (required : RequiredSessionLabels) × (input.label_report.required ≡ ok required)
        × IsServing input required)
unfolding derive_status
derive_status_running_iff input =
    (λ h. labelled input.label_report.required refl h, λ (r, e, s). rw e (ground arith))
  where
    labelled :
        (l : Result SessionFailure RequiredSessionLabels)
        → input.label_report.required ≡ l
        → labelled_status input l ≡ running
        → (required : RequiredSessionLabels) × (input.label_report.required ≡ ok required)
          × IsServing input required
    labelled (err failure) e h = cc
    labelled (ok required) e h = (required, e, served input.attach_endpoint refl h)
      where
        served :
            (a : AttachEndpointReport)
            → input.attach_endpoint ≡ a
            → endpoint_status input required (error_of a) ≡ running
            → IsServing input required
        served (err failure) e h = cc
        served (ok endpoint) e h = record {
          endpoint = (endpoint, e);
          mounted = ground arith;
          up = ground arith;
          rooted = ground arith;
        }

-- Git reports a toplevel whose canonical path is the root.
abbrev pub IsToplevel : GitRootProbe → FilePath → Type 0
IsToplevel probe root =
    (toplevel resolved : FilePath) × (probe.rev_parse_show_toplevel root ≡ some toplevel)
    × (probe.canonicalize toplevel ≡ some resolved)
    × (path_eq resolved root ≡ true)

-- The root is its own canonical path, is a directory, and has a `.git` or is what git reports.
abbrev pub IsStanding : GitRootProbe → FilePath → Type 0
IsStanding probe root =
    (canonical : FilePath) × (probe.canonicalize root ≡ some canonical)
    × (path_eq canonical root ≡ true)
    × (probe.is_directory canonical ≡ true)
    × ((probe.has_git_marker canonical ≡ true) ⊎ IsToplevel probe canonical)

IsToplevel-found :
    (probe : GitRootProbe) (root : FilePath) (top : Option FilePath)
    → probe.rev_parse_show_toplevel root ≡ top
    → toplevel_moved probe root top ≡ false
    → IsToplevel probe root
IsToplevel-found probe root none e h = cc
IsToplevel-found probe root (some t) e h = resolved (probe.canonicalize t) refl h
  where
    resolved :
        (c : Option FilePath)
        → probe.canonicalize t ≡ c
        → resolves_elsewhere root c ≡ false
        → IsToplevel probe root
    resolved none f h = cc
    resolved (some r) f h = (t, r, e, f, ground arith)

standing :
    (probe : GitRootProbe) (root : FilePath) (canonical : Option FilePath)
    → probe.canonicalize root ≡ canonical
    → root_is_orphaned probe root canonical ≡ false
    → IsStanding probe root
standing probe root none e h = cc
standing probe root (some c) e h = (
  c,
  e,
  ground arith,
  ground arith,
  elim (Bool-cases (probe.has_git_marker c)) [
    | inl m ↦ inl m
    | inr m ↦ inr (IsToplevel-found probe c (probe.rev_parse_show_toplevel c) refl (ground arith))
  ],
)

-- A git root counts as orphaned unless it is its own canonical path, is a directory, and has a `.git`
-- or is the toplevel that git reports there.
pub git_root_is_orphaned_iff :
    (root : FilePath) (probe : GitRootProbe)
    → (git_root_is_orphaned root probe ≡ false) ↔ IsStanding probe root
unfolding git_root_is_orphaned
git_root_is_orphaned_iff root probe = (
  standing probe root (probe.canonicalize root) refl,
  λ (c, e, same, directory, marked). rw e (by_mark c same directory marked),
)
  where
    by_mark :
        (c : FilePath)
        → path_eq c root ≡ true
        → probe.is_directory c ≡ true
        → (probe.has_git_marker c ≡ true) ⊎ IsToplevel probe c
        → root_is_orphaned probe root (some c) ≡ false
    by_mark c same directory (inl m) = ground arith
    by_mark c same directory (inr (t, r, e, f, g)) = ground arith
