-- ===== src/Runtime/Laws.antt =====
-- The profile table is complete, and names are parsed back.
use agentbox_nix.Shared.{◌≡◌, refl, some, find, ◌==◌, Eq, string_discrete, ok}
use agentbox_nix.Text.{is_blank}
use agentbox_nix.Errors.{RuntimeKind, opencode, codex}
use agentbox_nix.Runtime.{runtime_profiles, runtime_profile, as_str, parse_runtime_kind}

RuntimeKind-discrete : Discrete RuntimeKind
RuntimeKind-discrete = hlevel

instance abbrev kind_eq : Eq RuntimeKind
kind_eq = record { dec = RuntimeKind-discrete }

-- The search of `runtime_profile` in the table finds the profile of each kind.
pub find_profile :
    (kind : RuntimeKind) → find (λ p. p.kind == kind) runtime_profiles ≡ some (runtime_profile kind)
unfolding RuntimeKind-discrete
find_profile opencode = refl
find_profile codex = refl

-- The name that a label stores is parsed back to the kind.
pub parse_runtime_kind-as_str : (kind : RuntimeKind) → parse_runtime_kind (as_str kind) ≡ ok kind
unfolding parse_runtime_kind is_blank string_discrete
parse_runtime_kind-as_str opencode = refl
parse_runtime_kind-as_str codex = refl
