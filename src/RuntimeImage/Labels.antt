-- ===== src/RuntimeImage/Labels.antt =====
-- `default_runtime_image_labels` of src/metadata/default_image.rs: the labels of a default image, and
-- what is read from them.
use Prim.Native.String.{◌++◌ as ◌<>◌}
use agentbox_nix.Shared.{
  String, Bool, true, false, not, ◌≡◌, refl, filter_option, none, some, [], ◌∷◌, string_eq,
  string_discrete,
}
use agentbox_nix.Text.{codes, is_blank}
use agentbox_nix.Errors.{RuntimeKind, opencode, codex}
use agentbox_nix.Runtime.{as_str, parse_runtime_kind}
use agentbox_nix.Metadata.{Labels, get, required_label_value}
use agentbox_nix.Metadata.Label
use agentbox_nix.Metadata.Laws.{required_label_value-some}
use agentbox_nix.Clean.Image.{
  metadata_from_labels, metadata_of, kind_label, default_runtime_image_label,
  default_runtime_image_value, is_default_image_context_hash,
}
use agentbox_nix.RuntimeImage.{package_spec}

abbrev pub runtime_package_metadata_label : RuntimeKind → String → String
runtime_package_metadata_label runtime name = "io.agentbox." <> (as_str runtime <> ("." <> name))

pub record DefaultRuntimeImageLabelInput : Type 0 where
  pub runtime : RuntimeKind
  pub image : String
  pub image_context_hash : String
  pub version : String
  pub resolved_at : String

-- The keys differ for every runtime.
unfoldable pub default_runtime_image_labels : DefaultRuntimeImageLabelInput → Labels
default_runtime_image_labels input =
    let spec = package_spec input.runtime in
    (default_runtime_image_label, default_runtime_image_value)
    ∷ (Label.runtime, as_str input.runtime)
    ∷ (Label.image, input.image)
    ∷ ("io.agentbox.image_context_hash", input.image_context_hash)
    ∷ (runtime_package_metadata_label input.runtime "package", spec.name)
    ∷ (runtime_package_metadata_label input.runtime "version", input.version)
    ∷ (runtime_package_metadata_label input.runtime "install_source", spec.install_source)
    ∷ (runtime_package_metadata_label input.runtime "resolved_at", input.resolved_at)
    ∷ []

read_hash :
    (input : DefaultRuntimeImageLabelInput)
    → is_blank input.image_context_hash ≡ false
    → required_label_value (default_runtime_image_labels input) "io.agentbox.image_context_hash"
      ≡ some input.image_context_hash
unfolding default_runtime_image_labels get string_discrete
read_hash input h = required_label_value-some (default_runtime_image_labels input) _ _ refl h

read_marker :
    (input : DefaultRuntimeImageLabelInput)
    → required_label_value (default_runtime_image_labels input) default_runtime_image_label
      ≡ some "true"
unfolding default_runtime_image_labels get string_discrete is_blank required_label_value
read_marker input = refl

read_runtime :
    (input : DefaultRuntimeImageLabelInput)
    → required_label_value (default_runtime_image_labels input) Label.runtime
      ≡ some (as_str input.runtime)
unfolding default_runtime_image_labels get string_discrete is_blank required_label_value
read_runtime input = by_runtime input.runtime
  where
    by_runtime :
        (runtime : RuntimeKind)
        → filter_option (λ value. not (is_blank value)) (some (as_str runtime))
          ≡ some (as_str runtime)
    by_runtime opencode = refl
    by_runtime codex = refl

read_metadata :
    (runtime : RuntimeKind) (hash : String) (fits : Bool)
    → fits ≡ true
    → metadata_of
        (kind_label (some (as_str runtime)))
        (elim fits [ false ↦ none | true ↦ some hash ])
      ≡ some (record { runtime = runtime; image_context_hash = hash })
unfolding parse_runtime_kind string_discrete is_blank
read_metadata opencode hash true h = refl
read_metadata codex hash true h = refl
read_metadata runtime hash false h = cc

-- The labels of a default image are read back as its runtime and its context hash, if the hash has the form of
-- one and is not blank.
pub metadata-default_runtime_image_labels :
    (input : DefaultRuntimeImageLabelInput)
    → is_default_image_context_hash (codes input.image_context_hash) ≡ true
    → is_blank input.image_context_hash ≡ false
    → metadata_from_labels (default_runtime_image_labels input)
      ≡ some (record { runtime = input.runtime; image_context_hash = input.image_context_hash })
unfolding metadata_from_labels string_discrete
metadata-default_runtime_image_labels input h b =
    rw (read_marker input, read_runtime input, read_hash input b)
      (read_metadata input.runtime input.image_context_hash
        (is_default_image_context_hash (codes input.image_context_hash)) h)
