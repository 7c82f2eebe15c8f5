-- ===== src/Workspace.antt =====
-- src/workspace.rs: the identity of a workspace, and the names that are derived from it. The digest
-- is a parameter (the crate sha2); so are the working directory, git and the file system.
mod Names
pub mod Laws
unfoldable pub use Names.{
  container_name_from_canonical_root_and_hash, is_agentbox_workspace_resource_name,
}
use agentbox_nix.Shared.{ℕ, String, Char, List, Bool, Result, ok, err, ◌>>=◌, if◌then◌else◌}
use agentbox_nix.Text.{from_chars}
use agentbox_nix.Errors.{Error, escaped_git_target}
use agentbox_nix.Digest.{hex_lower, hex_prefix}
use agentbox_nix.Paths.{FilePath, path_is_or_descendant}

pub record WorkspaceIdentity : Type 0 where
  pub requested_target : FilePath
  pub absolute_target : FilePath
  pub canonical_target : FilePath
  pub canonical_git_root : FilePath
  pub digest64 : String
  pub hash12 : String
  pub container_name : String

abbrev pub git_root_hash_len : ℕ
git_root_hash_len = 12

-- What the host answers: `absolute_utf8_path`, `Git::resolve_toplevel` with its error for the user,
-- and `canonicalize_utf8_path`.
pub record Host : Type 0 where
  pub absolute_path : String → Result Error FilePath
  pub resolve_toplevel : FilePath → Result Error FilePath
  pub canonicalize : FilePath → Result Error FilePath

module _ (sha256 : String → List ℕ) where
  -- The characters of `git_root_hash12`.
  abbrev pub hash12_chars : FilePath → List Char
  hash12_chars root = hex_prefix (sha256 root) git_root_hash_len

  unfoldable pub git_root_hash12 : FilePath → String
  git_root_hash12 root = from_chars (hash12_chars root)

  unfoldable pub resolve_workspace_identity_with_git :
      Host → String → Result Error WorkspaceIdentity
  unfolding git_root_hash12
  resolve_workspace_identity_with_git host directory = do
    requested_target ← host.absolute_path directory
    git_root ← host.resolve_toplevel requested_target
    canonical_git_root ← host.canonicalize git_root
    canonical_target ← host.canonicalize requested_target
    if path_is_or_descendant canonical_target canonical_git_root
        then ok (record {
          requested_target = requested_target;
          absolute_target = requested_target;
          canonical_target = canonical_target;
          canonical_git_root = canonical_git_root;
          digest64 = from_chars (hex_lower (sha256 canonical_git_root));
          hash12 = git_root_hash12 canonical_git_root;
          container_name =
              container_name_from_canonical_root_and_hash canonical_git_root
                (hash12_chars canonical_git_root);
        })
        else err (escaped_git_target requested_target canonical_git_root)
