-- ===== src/Metadata/Label.antt =====
-- The label names of src/metadata/mod.rs.
use agentbox_nix.Shared.{String}

abbrev pub managed : String
managed = "io.agentbox.managed"

abbrev pub container_kind : String
container_kind = "io.agentbox.container_kind"

abbrev pub schema : String
schema = "io.agentbox.schema"

abbrev pub git_root : String
git_root = "io.agentbox.git_root"

abbrev pub git_root_hash : String
git_root_hash = "io.agentbox.git_root_hash"

abbrev pub runtime : String
runtime = "io.agentbox.runtime"

abbrev pub image : String
image = "io.agentbox.image"

abbrev pub launch_directory : String
launch_directory = "io.agentbox.launch_directory"

abbrev pub logical_name : String
logical_name = "io.agentbox.logical_name"

abbrev pub attach_scheme : String
attach_scheme = "io.agentbox.attach_scheme"

abbrev pub container_port : String
container_port = "io.agentbox.container_port"

abbrev pub container_listen_ip : String
container_listen_ip = "io.agentbox.container_listen_ip"

abbrev pub server_args : String
server_args = "io.agentbox.server_args"

abbrev pub cpus : String
cpus = "io.agentbox.resource_limits.cpus"

abbrev pub memory : String
memory = "io.agentbox.resource_limits.memory"
