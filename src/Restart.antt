-- ===== src/Restart.antt =====
-- `restart_resource_limits` of src/commands/restart.rs: the limits of a replacement container.
pub mod Replace
use agentbox_nix.Shared.{◌≡◌, refl, Option, none, some, or_option, Result, ok, ◌>>=◌, arith}
use agentbox_nix.Errors.{Error}
use agentbox_nix.Config.{
  Floats, ResourceLimits, ResourceLimitOverrides, CpuLimit, MemoryLimit, overlay,
}
use agentbox_nix.Session.Record.{SessionRecord, stored_resource_limits}

-- The command line, then the labels of the old container, then the configuration's defaults.
unfoldable pub restart_resource_limits :
    Floats
    → (defaults : ResourceLimits) → SessionRecord
    → ResourceLimitOverrides
    → Result Error ResourceLimits
restart_resource_limits floats defaults session overrides = do
  stored ← stored_resource_limits floats session.metadata
  ok (record {
    cpus = or_option (or_option overrides.cpus stored.cpus) defaults.cpus;
    memory = or_option (or_option overrides.memory stored.memory) defaults.memory;
  })

stored_wins :
    {A : Type 0} (a : Option A) (x : A) (c : Option A)
    → or_option (or_option a (some x)) c ≡ or_option a (some x)
stored_wins none x c = refl
stored_wins (some y) x c = refl

-- When the labels of a session store both limits, a restart keeps them but for what the command
-- line overrides, whatever the configuration's defaults are.
pub restart_keeps_limits :
    (floats : Floats) (defaults : ResourceLimits) (session : SessionRecord)
    (overrides : ResourceLimitOverrides) (cpus : CpuLimit) (memory : MemoryLimit)
    → stored_resource_limits floats session.metadata
      ≡ ok (record { cpus = some cpus; memory = some memory })
    → restart_resource_limits floats defaults session overrides
      ≡ ok (overlay (record { cpus = some cpus; memory = some memory }) overrides)
unfolding restart_resource_limits overlay
restart_keeps_limits floats defaults session overrides cpus memory h = ground (
  arith,
  h,
  stored_wins overrides.cpus cpus defaults.cpus,
  stored_wins overrides.memory memory defaults.memory,
)
