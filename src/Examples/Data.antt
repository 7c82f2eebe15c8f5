-- ===== src/Examples/Data.antt =====
-- A host with one workspace, and containers on it.
use agentbox_nix.Shared.{subst}
use agentbox_nix.Shared.{
  ℕ, ◌%◌, String, ◌≡◌, refl, true, none, some, List, [], ◌∷◌, length, Result, ok, err,
  if◌then◌else◌, ◌==◌, string_eq, arith, Bool-cases, inl, inr,
}
use agentbox_nix.Text.{codes, from_chars}
use agentbox_nix.Errors.{Error, io_error, codex, managed}
use agentbox_nix.Digest.{hex_lower}
use agentbox_nix.Paths.{FilePath, is_absolute}
use agentbox_nix.Workspace.{
  WorkspaceIdentity, Host, git_root_hash12, hash12_chars,
  container_name_from_canonical_root_and_hash,
}
use agentbox_nix.Runtime.{AttachEndpoint}
use agentbox_nix.Podman.{PodmanPsContainer, PodmanContainerInspect, volume}
use agentbox_nix.Metadata.{
  Labels, Json, ManagedSessionLabelInput, label_input, managed_session_labels, transient_run_labels,
}
use agentbox_nix.Metadata.Label
use agentbox_nix.Session.Record.{SessionRecord, SessionStatus}
use agentbox_nix.Session.Status.{GitRootProbe}

-- A digest that tells texts of different lengths apart.
abbrev pub digest : String → List ℕ
digest s =
    length (codes s) % 256
    ∷ 0
    ∷ 0
    ∷ 0
    ∷ 0
    ∷ 0
    ∷ 0
    ∷ 0
    ∷ 0
    ∷ 0
    ∷ 0
    ∷ 0
    ∷ 0
    ∷ 0
    ∷ 0
    ∷ 0
    ∷ 0
    ∷ 0
    ∷ 0
    ∷ 0
    ∷ 0
    ∷ 0
    ∷ 0
    ∷ 0
    ∷ 0
    ∷ 0
    ∷ 0
    ∷ 0
    ∷ 0
    ∷ 0
    ∷ 0
    ∷ 0
    ∷ []

pub length-digest : (s : String) → length (digest s) ≡ 32
length-digest s = refl

-- Every absolute path is canonical.
abbrev canonical : FilePath → Result Error FilePath
canonical path = if is_absolute path then ok path else err (io_error "not absolute")

abbrev pub host : Host
host = record {
  absolute_path = λ path. ok path;
  resolve_toplevel = λ path. ok "/w";
  canonicalize = canonical;
}

pub host_absolute : (p q : FilePath) → host.canonicalize p ≡ ok q → is_absolute q ≡ true
host_absolute p q h = elim (Bool-cases (is_absolute p)) [
  | inl e ↦ let same : p ≡ q = ground arith in subst (λ r. is_absolute r ≡ true) same e
  | inr e ↦ absurd (ground arith)
]

abbrev pub workspace : WorkspaceIdentity
workspace = record {
  requested_target = "/w/app";
  absolute_target = "/w/app";
  canonical_target = "/w/app";
  canonical_git_root = "/w";
  digest64 = from_chars (hex_lower (digest "/w"));
  hash12 = git_root_hash12 digest "/w";
  container_name = container_name_from_canonical_root_and_hash "/w" (hash12_chars digest "/w");
}

abbrev pub probe : GitRootProbe
probe = record {
  canonicalize = λ path. some path;
  is_directory = λ path. true;
  has_git_marker = λ path. true;
  rev_parse_show_toplevel = λ path. some path;
}

-- One text stands for one list of arguments.
abbrev pub json : Json
json = record {
  serialize = λ args. "[]";
  deserialize = λ text. if text == "[]" then some [] else none;
}

abbrev pub input : ManagedSessionLabelInput
input = label_input workspace "localhost/agentbox-codex:latest" codex []

abbrev pub endpoint : AttachEndpoint
endpoint = record { scheme = "ws"; host_ip = "127.0.0.1"; host_port = 32768 }

abbrev pub container : PodmanPsContainer
container = record { id = "c1"; names = some (workspace.container_name ∷ []); labels = [] }

abbrev pub inspect_of : Labels → PodmanContainerInspect
inspect_of labels = record {
  id = "c1";
  image_name = "localhost/agentbox-codex:latest";
  running = true;
  labels = labels;
  mounts =
      record {
        kind = volume;
        name = some "agentbox-_w-020000000000";
        source = "";
        destination = "/home/user";
      }
      ∷ [];
  ports =
      ("1455/tcp", some (record { host_ip = some "127.0.0.1"; host_port = some "32768" } ∷ []))
      ∷ [];
}

abbrev pub managed_inspect : PodmanContainerInspect
managed_inspect = inspect_of (managed_session_labels json input)

abbrev pub run_inspect : PodmanContainerInspect
run_inspect = inspect_of (transient_run_labels input)

-- A session with a root, an id, a runtime and a launch directory.
abbrev pub session : String → String → String → SessionStatus → SessionRecord
session id root name status = record {
  container_id = name;
  container_name = name;
  container_kind = managed;
  metadata =
      (Label.git_root, root)
      ∷ (Label.git_root_hash, id)
      ∷ (Label.runtime, "codex")
      ∷ (Label.launch_directory, "/w/app")
      ∷ [];
  attach_endpoint = some endpoint;
  container_running = true;
  status = status;
}
