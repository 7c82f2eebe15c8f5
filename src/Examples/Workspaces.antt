-- ===== src/Examples/Workspaces.antt =====
-- Names, identities and limits at concrete inputs.
use agentbox_nix.Shared.{ap}
use agentbox_nix.Text.{is_blank}
use agentbox_nix.Config.{parse_cpu_limit}
use agentbox_nix.Shared.{arith, [], ◌∷◌}
use agentbox_nix.Config.{parse_cpu_limit}
use agentbox_nix.Shared.{
  ℕ, String, ◌≡◌, ◌≢◌, refl, Bool, true, length, ok, ◌↔◌, string_discrete, Char, List, none, some,
}
use agentbox_nix.Text.{chars, codes, parse_unsigned}
use agentbox_nix.Workspace.{
  resolve_workspace_identity_with_git, container_name_from_canonical_root_and_hash,
  is_agentbox_workspace_resource_name,
}
use agentbox_nix.Workspace.Laws.{container_name-recognised}
use agentbox_nix.Config.{parse_memory_limit, Floats, overlay}
use agentbox_nix.Config.Laws.{parse_memory_limit_iff, IsMemoryText}
use agentbox_nix.Paths.{path_eq, components, path_is_or_descendant, is_absolute}
use agentbox_nix.Session.Record.{SessionRecord, running, stored_resource_limits}
use agentbox_nix.Metadata.{get, required_label_value}
use agentbox_nix.Metadata.Label
use agentbox_nix.Restart.{restart_resource_limits, restart_keeps_limits}
use agentbox_nix.Examples.Data.{digest, host, workspace, session}

abbrev hash : List Char
hash = chars "0123456789ab"

abbrev root : String
root = "/home/me/work"

a_root : root ≢ ""
a_root e = omega (arith, ap (λ s. length (codes s)) e)

container_name-recognised_example :
    is_agentbox_workspace_resource_name
      (container_name_from_canonical_root_and_hash "/home/me/work" hash)
    ≡ true
container_name-recognised_example = container_name-recognised "/home/me/work" hash a_root refl refl

pub workspace_resolves : resolve_workspace_identity_with_git digest host "/w/app" ≡ ok workspace
unfolding resolve_workspace_identity_with_git path_is_or_descendant path_eq components is_absolute
workspace_resolves = refl

parse_memory_limit_iff_example :
    (parse_memory_limit "512m" ≡ ok (record { text = "512m" })) ↔ IsMemoryText (codes "512m")
parse_memory_limit_iff_example = parse_memory_limit_iff "512m"

-- Numbers of a CPU limit, as far as a whole number is one.
abbrev pub floats : Floats
floats = record {
  F64 = ℕ;
  parse = λ text. parse_unsigned text 1000;
  is_finite = λ n. true;
  is_negative = λ n. Bool.false;
}

abbrev limited : SessionRecord
limited = record (session "020000000000" "/w" "agentbox-a" running) {
  metadata = (Label.cpus, "2") ∷ (Label.memory, "512m") ∷ [];
}

limits_stored :
    stored_resource_limits floats limited.metadata
    ≡ ok (record { cpus = some (record { text = "2" }); memory = some (record { text = "512m" }) })
unfolding stored_resource_limits required_label_value get string_discrete is_blank parse_cpu_limit
    parse_unsigned parse_memory_limit
limits_stored = refl

restart_keeps_limits_example :
    restart_resource_limits floats
      (record { cpus = none; memory = none })
      limited
      (record { cpus = some (record { text = "4" }); memory = none })
    ≡ ok (
        overlay
          (record { cpus = some (record { text = "2" }); memory = some (record { text = "512m" }) })
          (record { cpus = some (record { text = "4" }); memory = none }))
restart_keeps_limits_example =
    restart_keeps_limits floats (record { cpus = none; memory = none }) limited
      (record { cpus = some (record { text = "4" }); memory = none }) (record { text = "2" })
      (record { text = "512m" }) limits_stored
