-- ===== src/Launch/Args/RoundTrip.antt =====
-- The arguments of a detached run, read back.
use mathlib.Core.List.{append-nil}
use agentbox_nix.Shared.{
  ℕ, String, false, ◌≡◌, refl, ap, ◌∙◌, some, List, [], ◌∷◌, ◌++◌, map, drop, string_eq,
}
use agentbox_nix.Launch.Spec.{RuntimeCreateSpec, RuntimeRunSpec}
use agentbox_nix.Launch.Args.{
  key_value, options_of, render_mount, by_key, network_args, common_run_args, run_detached_args,
}
use agentbox_nix.Launch.Args.Reading.{
  is_option, prepend, read_run, pairs_of, prepend-prepend, Takes, read-options_of, identity_options,
  cpus_options, memory_options, read-cpus, read-memory, read-network, read-image, read-identity,
}

Takes-label : Takes "--label"
unfolding read_run
Takes-label value rest = refl

Takes-mount : Takes "--mount"
unfolding read_run
Takes-mount value rest = refl

Takes-env : Takes "--env"
unfolding read_run
Takes-env value rest = refl

Takes-publish : Takes "--publish"
unfolding read_run
Takes-publish value rest = refl

-- The options that a specification stands for.
abbrev pub spec_options : RuntimeCreateSpec → List (String × String)
spec_options create =
    map (λ label. ("--label", key_value label)) (by_key create.labels)
    ++ (map (λ mount. ("--mount", render_mount mount)) create.mounts
        ++ (map (λ entry. ("--env", key_value entry)) (by_key create.default_env)
            ++ (cpus_options create.resource_limits.cpus
                ++ (memory_options create.resource_limits.memory
                    ++ map (λ port. ("--publish", port)) create.published_ports))))

read-network_ports :
    (create : RuntimeCreateSpec)
    → is_option create.image ≡ false
    → read_run (
        network_args create.network_enabled
        ++ (options_of "--publish" (λ port. port) create.published_ports
            ++ (create.image ∷ create.command)))
      ≡ some (record {
        switches = network_args create.network_enabled;
        options = map (λ port. ("--publish", port)) create.published_ports;
        image = create.image;
        command = create.command;
      })
read-network_ports create h =
    read-network create.network_enabled _
    ∙ ap (prepend (network_args create.network_enabled) []) (
        read-options_of "--publish" (λ port. port) create.published_ports
          (create.image ∷ create.command) Takes-publish
        ∙ ap (prepend [] (pairs_of "--publish" (λ port. port) create.published_ports))
            (read-image create.image create.command h))
    ∙ (λ i. some (record {
      switches = append-nil (network_args create.network_enabled) i;
      options = append-nil (pairs_of "--publish" (λ port. port) create.published_ports) i;
      image = create.image;
      command = create.command;
    }))

read_common :
    (name : String) (spec : RuntimeRunSpec) (gid : ℕ)
    → is_option spec.create.image ≡ false
    → read_run (common_run_args name spec gid)
      ≡ some (record {
        switches = network_args spec.create.network_enabled;
        options = identity_options name spec gid ++ spec_options spec.create;
        image = spec.create.image;
        command = spec.create.command;
      })
unfolding common_run_args
read_common name spec gid h =
    read-identity name spec gid _
    ∙ ap (prepend [] (identity_options name spec gid)) (
        read-options_of "--label" key_value (by_key spec.create.labels) _ Takes-label
        ∙ ap (prepend [] (pairs_of "--label" key_value (by_key spec.create.labels))) (
            read-options_of "--mount" render_mount spec.create.mounts _ Takes-mount
            ∙ ap (prepend [] (pairs_of "--mount" render_mount spec.create.mounts)) (
                read-options_of "--env" key_value (by_key spec.create.default_env) _ Takes-env
                ∙ ap (prepend [] (pairs_of "--env" key_value (by_key spec.create.default_env))) (
                    read-cpus spec.create.resource_limits.cpus _
                    ∙ ap (prepend [] (cpus_options spec.create.resource_limits.cpus)) (
                        read-memory spec.create.resource_limits.memory _
                        ∙ ap (prepend [] (memory_options spec.create.resource_limits.memory))
                            (read-network_ports spec.create h))))))

two_switches :
    (rest : List String)
    → read_run ("--detach" ∷ "--rm" ∷ rest) ≡ prepend ("--detach" ∷ "--rm" ∷ []) [] (read_run rest)
unfolding read_run
two_switches [] = refl
two_switches (arg ∷ rest) =
    prepend-prepend ("--detach" ∷ []) ("--rm" ∷ []) [] [] (read_run (arg ∷ rest))

pub read-run_detached_args :
    (name : String) (spec : RuntimeRunSpec) (gid : ℕ)
    → is_option spec.create.image ≡ false
    → read_run (drop 1 (run_detached_args name spec gid))
      ≡ some (record {
        switches = "--detach" ∷ "--rm" ∷ network_args spec.create.network_enabled;
        options = identity_options name spec gid ++ spec_options spec.create;
        image = spec.create.image;
        command = spec.create.command;
      })
unfolding run_detached_args
read-run_detached_args name spec gid h =
    two_switches (common_run_args name spec gid)
    ∙ ap (prepend ("--detach" ∷ "--rm" ∷ []) []) (read_common name spec gid h)
