-- ===== src/Config.antt =====
-- src/config.rs: the resource limits and the checks of the user configuration. Reading the file, the
-- JSON and the backup of an invalid file are left out.
pub mod Laws
use agentbox_nix.Shared.{
  ℕ, String, Bool, true, false, not, ◌&&◌, ◌||◌, Option, none, some, List, [], ◌∷◌, eqb, all,
  is_empty, or_option, unwrap_or, map_option, Result, ok, err, ◌>>=◌, ◌>>◌, require, ◌==◌,
  string_eq, if◌then◌else◌,
}
use agentbox_nix.Text.{codes, is_whitespace, is_blank, is_ascii_digit}
use agentbox_nix.Errors.{Error, malformed_cpu_limit, malformed_memory_limit}

-- `CpuLimit` and `MemoryLimit` keep the text that was parsed.
pub record CpuLimit : Type 0 where
  pub text : String

pub record MemoryLimit : Type 0 where
  pub text : String

pub record ResourceLimits : Type 0 where
  pub cpus : Option CpuLimit
  pub memory : Option MemoryLimit

-- `ResourceLimitOverrides` has the fields of `ResourceLimits`.
abbrev pub ResourceLimitOverrides : Type 0
ResourceLimitOverrides = ResourceLimits

pub record StoredResourceLimitLabels : Type 0 where
  pub cpus : String
  pub memory : String

unfoldable pub overlay : ResourceLimits → ResourceLimitOverrides → ResourceLimits
overlay limits overrides = record {
  cpus = or_option overrides.cpus limits.cpus;
  memory = or_option overrides.memory limits.memory;
}

unfoldable pub stored_or_zero : ResourceLimits → StoredResourceLimitLabels
stored_or_zero limits = record {
  cpus = unwrap_or (map_option (λ limit. limit.text) limits.cpus) "0";
  memory = unwrap_or (map_option (λ limit. limit.text) limits.memory) "0";
}

-- What the parser of CPU limits asks of `f64`: the value of a text, and whether it is finite and not
-- below zero.
pub record Floats : Type 1 where
  pub F64 : Type 0
  pub parse : String → Option F64
  pub is_finite : F64 → Bool
  pub is_negative : F64 → Bool

abbrev ends_blank : List ℕ → Bool
ends_blank [] = false
ends_blank (c ∷ []) = is_whitespace c
ends_blank (c ∷ d ∷ cs) = ends_blank (d ∷ cs)

abbrev starts_blank : List ℕ → Bool
starts_blank [] = false
starts_blank (c ∷ cs) = is_whitespace c

-- `value.trim() == value && !value.is_empty()`
unfoldable pub is_trimmed : List ℕ → Bool
unfolding is_whitespace
is_trimmed cs = not (is_empty cs) && not (starts_blank cs) && not (ends_blank cs)

abbrev check_cpus : (floats : Floats) → String → Option floats.F64 → Result Error CpuLimit
check_cpus floats value none = err malformed_cpu_limit
check_cpus floats value (some parsed) =
    if not (floats.is_finite parsed) || floats.is_negative parsed
    then err malformed_cpu_limit
    else ok (record { text = value })

-- `FromStr for CpuLimit`
unfoldable pub parse_cpu_limit : Floats → String → Result Error CpuLimit
unfolding is_trimmed
parse_cpu_limit floats value = do
  require (is_trimmed (codes value)) malformed_cpu_limit
  check_cpus floats value (floats.parse value)

abbrev pub is_unit : ℕ → Bool
is_unit c = eqb c b'b' || eqb c b'k' || eqb c b'm' || eqb c b'g'

-- `strip_suffix(['b', 'k', 'm', 'g']).unwrap_or(..)`: one unit at the end is taken off.
abbrev pub strip_unit : List ℕ → List ℕ
strip_unit [] = []
strip_unit (c ∷ []) = if is_unit c then [] else c ∷ []
strip_unit (c ∷ d ∷ cs) = c ∷ strip_unit (d ∷ cs)

abbrev pub is_memory_limit : List ℕ → Bool
is_memory_limit cs =
    is_trimmed cs && not (is_empty (strip_unit cs)) && all is_ascii_digit (strip_unit cs)

-- `FromStr for MemoryLimit`
unfoldable pub parse_memory_limit : String → Result Error MemoryLimit
unfolding is_trimmed
parse_memory_limit value =
    if is_memory_limit (codes value)
    then ok (record { text = value })
    else err malformed_memory_limit

pub data KnownHostsError : Type 0 where
  blank_entry multiline_entry : KnownHostsError

-- The loop of `parse_config` over the known hosts: the first bad entry is reported.
unfoldable pub check_known_hosts : List String → Result KnownHostsError (Unit {0})
check_known_hosts [] = ok tt
check_known_hosts (entry ∷ entries) =
    if is_blank entry
    then err blank_entry
    else if not (all (λ c. not (eqb c 10 || eqb c 13)) (codes entry))
    then err multiline_entry
    else check_known_hosts entries
