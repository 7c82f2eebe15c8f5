-- ===== src/Clean/Image.antt =====
-- src/runtime/default_image.rs, as far as the names of the default images go, src/podman/model/image.rs,
-- and the metadata of src/metadata/default_image.rs. The hash of the embedded image context, which
-- the build fixes, is a parameter.
use agentbox_nix.Shared.{
  ℕ, ◌-◌, String, Bool, true, false, not, ◌&&◌, Option, none, some, List, [], ◌∷◌, ◌++◌, all, drop,
  length, leb, eqb, filter, filter_option, to_option, unwrap_or, if◌then◌else◌, ◌==◌, string_eq,
  Ordering, compare,
}
use agentbox_nix.Shared.Order.{lex}
use agentbox_nix.Text.{codes, chars, from_chars, is_ascii_hexdigit}
use agentbox_nix.Errors.{RuntimeKind}
use agentbox_nix.Runtime.{as_str, parse_runtime_kind}
use agentbox_nix.Metadata.{Labels, required_label_value}
use agentbox_nix.Metadata.Label
use agentbox_nix.Session.Discovery.Scope.{sort_dedup}

abbrev append : String → String → String
append s t = from_chars (chars s ++ chars t)

abbrev pub image_context_hash_len : ℕ
image_context_hash_len = 16

abbrev image_context_hash_tag_prefix : String
image_context_hash_tag_prefix = "ctx-"

abbrev pub image_prefix : RuntimeKind → String
image_prefix runtime =
    append "localhost/agentbox-"
      (append (as_str runtime) (append ":" image_context_hash_tag_prefix))

-- `default_image`
unfoldable pub default_image : String → RuntimeKind → String
default_image context_hash runtime = append (image_prefix runtime) context_hash

-- `str::strip_prefix`
abbrev pub strip_prefix : List ℕ → List ℕ → Option (List ℕ)
strip_prefix [] value = some value
strip_prefix (c ∷ prefix) [] = none
strip_prefix (c ∷ prefix) (d ∷ value) =
    let rest = strip_prefix prefix value in if eqb c d then rest else none

-- A text of hexadecimal digits has as many bytes as characters.
abbrev pub is_default_image_context_hash : List ℕ → Bool
is_default_image_context_hash value =
    eqb (length value) image_context_hash_len && all is_ascii_hexdigit value

abbrev is_some_and : Option (List ℕ) → Bool
is_some_and none = false
is_some_and (some value) = is_default_image_context_hash value

unfoldable pub is_content_hash_default_image_ref : RuntimeKind → String → Bool
is_content_hash_default_image_ref runtime image =
    is_some_and (strip_prefix (codes (image_prefix runtime)) (codes image))

abbrev same_codes : List ℕ → List ℕ → Bool
same_codes xs ys = elim (lex compare xs ys) [ Ordering.eq ↦ true | _ ↦ false ]

-- `str::ends_with`
abbrev pub ends_with : String → String → Bool
ends_with s suffix =
    leb (length (codes suffix)) (length (codes s))
    && same_codes (drop (length (codes s) - length (codes suffix)) (codes s)) (codes suffix)

pub record PodmanImage : Type 0 where
  pub names : Option (List String)
  pub repository : String
  pub tag : String
  pub labels : Labels

abbrev is_name : String → Bool
is_name text = not (text == "") && not (text == "<none>")

abbrev tagged : PodmanImage → List String
tagged i =
    if is_name i.repository && is_name i.tag
    then append i.repository (append ":" i.tag) ∷ []
    else []

unfoldable pub references : PodmanImage → List String
references i = sort_dedup (filter is_name (unwrap_or i.names [] ++ tagged i))

abbrev pub default_runtime_image_label : String
default_runtime_image_label = "io.agentbox.default_runtime_image"

abbrev pub default_runtime_image_value : String
default_runtime_image_value = "true"

pub record DefaultRuntimeImageMetadata : Type 0 where
  pub runtime : RuntimeKind
  pub image_context_hash : String

abbrev marked : Option String → Bool
marked none = false
marked (some value) = value == default_runtime_image_value

abbrev pub kind_label : Option String → Option RuntimeKind
kind_label none = none
kind_label (some value) = to_option (parse_runtime_kind value)

abbrev pub metadata_of : Option RuntimeKind → Option String → Option DefaultRuntimeImageMetadata
metadata_of none hash = none
metadata_of (some runtime) none = none
metadata_of (some runtime) (some hash) =
    some (record { runtime = runtime; image_context_hash = hash })

unfoldable pub metadata_from_labels : Labels → Option DefaultRuntimeImageMetadata
metadata_from_labels labels =
    if not (marked (required_label_value labels default_runtime_image_label))
    then none
    else metadata_of (kind_label (required_label_value labels Label.runtime)) (
        filter_option (λ hash. is_default_image_context_hash (codes hash))
          (required_label_value labels "io.agentbox.image_context_hash"))
