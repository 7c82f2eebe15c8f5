-- ===== src/Lib.antt =====
-- agentbox runs coding agents in Podman containers, one managed session for a git root. This library
-- models the part of it that decides: what a workspace is called, which containers are sessions and
-- in which state, what a target on the command line stands for, what a stop, a restart or a clean
-- touches, what a launch checks and passes to Podman, how it waits for a server and cleans up, when a
-- default image is built again, and how processes share a lock. Paths are from the repository's root.
--
-- How the parts interact. A directory resolves to a workspace identity (Workspace). A launch writes
-- its labels (Metadata). Discovery inspects the containers that Podman lists, checks their labels,
-- derives a status for each, and marks duplicates (Session.Discovery, over Session.Labels and
-- Session.Status). Commands turn a target into a plan over the discovered sessions (Session.Target,
-- over Session.Selection and Session.Collection), check the session that they act on
-- (Session.Connectable, Session.Restartable), and act: Stop removes containers under the lock of
-- their git root (Lock), Restart chooses the limits of the replacement, Clean removes what no container
-- uses. A launch checks its host (Preflight), ensures the image (RuntimeImage), prepares a
-- specification with its labels (Launch.Spec, Launch.Prepared), makes the arguments of Podman from it
-- (Launch.Args), and waits for the server (Server.Waiter, over Server.Health); a transient run removes its container at its end (Launch.Transient).
--
-- Files:
--   Shared, Text, Paths    results and `?`, lists over the native numbers, orders; `str`, `char` and
--                          `Path` of the standard library as far as they are used, with paths.rs
--   Errors                 src/error.rs and the error values of all modules: one constructor for a
--                          message, with the message's arguments
--   Digest, Workspace      src/digest.rs, src/workspace.rs (`resolve_workspace_identity_with_git`,
--                          `container_name_from_canonical_root_and_hash`)
--   Runtime, Podman        src/runtime/kind.rs and profile/, src/podman/model: kinds, attach contracts,
--                          inspected containers, published ports
--   Metadata, Config       src/metadata, src/config.rs: labels, limits
--   Session                src/session: Record, Labels, Status, Discovery (Scope), Selection,
--                          Collection, Connectable, Restartable, Candidate, Conflict, and Target
--                          (Input, Selected for target/stable_id.rs, Stop, Restart, Health)
--   Stop                   src/commands/container_cleanup.rs, stop.rs, stop/cleanup.rs
--   Lock                   src/lock.rs: Protocol (`lock_digest`, `guard`, the steps of a removal), Files
--   Server                 src/runtime/health.rs and src/commands/server_readiness
--   Launch                 Spec and Args (src/runtime/spec.rs, src/podman/run.rs), Detached and Transient
--                          (src/commands/detached_server.rs, transient_run.rs, exit_status.rs), Existing
--                          (container_launch/policy.rs, existing_resources.rs), Interrupted
--                          (start/interrupt.rs), Prepared (container_launch/mod.rs: the specification with the
--                          labels of a launch)
--   DevEnv                 src/dev_env
--   Preflight              src/preflight and src/runtime/host_state.rs
--   RuntimeImage           src/commands/runtime: image_state.rs, image_plan.rs, image_lifecycle.rs
--   Restart                src/commands/restart.rs: limits, and Replace for the operation under the lock
--   Clean                  src/commands/clean, with the image names of src/runtime/default_image.rs
--   Http                   src/runtime/http_probe/response.rs
--   Examples               the theorems at concrete inputs
--
-- How code becomes definitions. A function keeps its name; a method is a function of its receiver. A
-- `Result` is `Result`, with `?` as bind in a do block. A `BTreeMap` is an association list in the
-- order of its keys where the order is seen, and in the order of insertion where only lookups are. A
-- loop that pushes into a vector is a recursion that appends. Commands that change the host take the
-- host's state and return it (Stop.Command, Clean.Apply); the state's type is a parameter.
--
-- Parameters, since they are not code of the repository: SHA-256, git, the file system, Podman, npm, the
-- network, the clock, the interrupt flag, locks on files, the JSON of a label, floating-point parsing,
-- the decoding of UTF-8, and the hash of the embedded image context. What a discovery returns is an
-- argument of the plans that call it.
--
-- Bounds and fuel. Ports are parsed up to 65535 and lengths up to the `usize` of 64 bits. The reader of
-- health responses runs on fuel. Each read of data adds a byte at least, and a response of more than
-- 65536 bytes is an error, so that 65537 rounds of each loop are enough. The wait for a server looks
-- every 200 ms for 90 s: 451 rounds are enough where a sleep lasts as long as it is asked to.
--
-- Not modelled: the texts of messages, prompts, rendering, the deserializers of Podman's answers, the
-- managed launch that composes the parts of Launch, the probes of the host, attach tokens and SSH
-- signing: what the detection of Wayland and of SSH signing finds is an argument of the preparation. A
-- target that is not UTF-8 is not represented.
pub mod Shared
pub mod Text
pub mod Paths
pub mod Errors
pub mod Digest
pub mod Runtime
pub mod Workspace
pub mod Metadata
pub mod Config
pub mod Podman
pub mod Session
pub mod Clean
pub mod Stop
pub mod Server
pub mod Launch
pub mod Preflight
pub mod RuntimeImage
pub mod DevEnv
pub mod Http
pub mod Lock
pub mod Restart
pub mod Examples
