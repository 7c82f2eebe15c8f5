-- ===== src/Workspace/Laws.antt =====
-- The names are short enough for Podman, and cleanup recognises them.
use agentbox_nix.Shared.{>>=-eq-ok}
use agentbox_nix.Text.{is_blank}
use agentbox_nix.Workspace.{
  WorkspaceIdentity, Host, git_root_hash12, hash12_chars, resolve_workspace_identity_with_git,
}
use agentbox_nix.Shared.{
  ℕ, zero, suc, ◌+◌, ◌-◌, ◌≤◌, ◌<◌, ◌≡◌, ◌≢◌, refl, ap, sym, ◌∙◌, Char, code, String, true, false,
  none, some, List, [], ◌∷◌, ◌++◌, length, length-append, all, drop, map, arith, ok,
}
use agentbox_nix.Text.{chars, is_ascii_hexdigit}
use agentbox_nix.Text.Laws.{chars-from_chars}
use agentbox_nix.Digest.Laws.{hex_prefix_digits}
use agentbox_nix.Paths.{path_is_or_descendant, FilePath}
use agentbox_nix.Workspace.Names.{
  container_prefix, max_container_name_len, escape_root, name_suffix, name_chars, rsplit_dash,
  recognised, container_name_from_canonical_root_and_hash, is_agentbox_workspace_resource_name,
}

length-map : (f : Char → Char) (cs : List Char) → length (map f cs) ≡ length cs
length-map f [] = refl
length-map f (c ∷ cs) = omega (arith, length-map f cs)

length-drop : (n : ℕ) (cs : List Char) → length (drop n cs) ≡ length cs - n
length-drop zero cs = omega arith
length-drop (suc n) [] = omega arith
length-drop (suc n) (c ∷ cs) = omega (arith, length-drop n cs)

length-name_suffix :
    (escaped : List Char) (m : ℕ)
    → (length (name_suffix escaped m) ≤ m)
      × (0 < m → 0 < length escaped → 0 < length (name_suffix escaped m))
length-name_suffix escaped m = (
  ground (arith, length-drop (length escaped - m) escaped),
  λ p q. ground (arith, length-drop (length escaped - m) escaped),
)

-- A container name takes at most 63 characters, whatever the root, for a hash of 12 characters.
pub length-container_name :
    (root : String) (hash : List Char)
    → length hash ≡ 12
    → length (chars (container_name_from_canonical_root_and_hash root hash))
      ≤ max_container_name_len
unfolding container_name_from_canonical_root_and_hash
length-container_name root hash h = rw chars-from_chars (
    omega (
      arith,
      h,
      length-name_suffix (escape_root (chars root)) (54 - (1 + length hash)),
      length-append (name_suffix (escape_root (chars root)) (54 - (1 + length hash))) ("-" ∷ hash),
    ))

-- The split at the last dash of a text whose end has none.
no_dash : (cs : List Char) → all (λ c. is_ascii_hexdigit (code c)) cs ≡ true → rsplit_dash cs ≡ none
no_dash [] h = refl
no_dash (c ∷ cs) h = ground (arith, no_dash cs)

rsplit_dash-append :
    (prefix suffix : List Char)
    → all (λ c. is_ascii_hexdigit (code c)) suffix ≡ true
    → rsplit_dash (prefix ++ ("-" ∷ suffix)) ≡ some (prefix, suffix)
rsplit_dash-append [] suffix h = ground (arith, no_dash suffix)
rsplit_dash-append (c ∷ prefix) suffix h = ground (arith, rsplit_dash-append prefix suffix)

append_assoc : (xs ys zs : List Char) → (xs ++ ys) ++ zs ≡ xs ++ (ys ++ zs)
append_assoc [] ys zs = refl
append_assoc (x ∷ xs) ys zs = ap (λ r. x ∷ r) (append_assoc xs ys zs)

recognised-name :
    (suffix hash : List Char)
    → 0 < length suffix
    → length hash ≡ 12
    → all (λ c. is_ascii_hexdigit (code c)) hash ≡ true
    → recognised (some (container_prefix ++ suffix, hash)) ≡ true
recognised-name suffix hash p h d = ground arith

suffix_pos :
    (escaped hash : List Char)
    → 0 < length escaped
    → length hash ≡ 12
    → 0 < length (name_suffix escaped (54 - (1 + length hash)))
suffix_pos escaped hash p h =
    (length-name_suffix escaped (54 - (1 + length hash))).1 (omega arith) p

nonempty_chars : (root : String) → root ≢ "" → 0 < length (escape_root (chars root))
nonempty_chars String.[] h = absurd (h refl)
nonempty_chars (String.◌∷◌ c s) h = omega arith

-- Cleanup recognises the name of every workspace: the name that is derived from a root that is not
-- empty and from a hash of 12 hexadecimal characters is an agentbox resource name.
pub container_name-recognised :
    (root : String) (hash : List Char)
    → root ≢ ""
    → length hash ≡ 12
    → all (λ c. is_ascii_hexdigit (code c)) hash ≡ true
    → is_agentbox_workspace_resource_name (container_name_from_canonical_root_and_hash root hash)
      ≡ true
unfolding container_name_from_canonical_root_and_hash is_agentbox_workspace_resource_name
container_name-recognised root hash n h d =
    let suffix = name_suffix (escape_root (chars root)) (54 - (1 + length hash)) in
    ap recognised (
      ap rsplit_dash (
        chars-from_chars (name_chars (chars root) hash)
        ∙ sym (append_assoc container_prefix suffix ("-" ∷ hash)))
      ∙ rsplit_dash-append (container_prefix ++ suffix) hash d)
    ∙ recognised-name suffix hash
        (suffix_pos (escape_root (chars root)) hash (nonempty_chars root n) h) h d

-- What a resolved identity is made of.
pub record IsResolved (sha256 : String → List ℕ) (host : Host) (workspace : WorkspaceIdentity)
    : Type 0 where
  pub git_root : FilePath
  pub toplevel : host.resolve_toplevel workspace.requested_target ≡ ok git_root
  pub root : host.canonicalize git_root ≡ ok workspace.canonical_git_root
  pub target : host.canonicalize workspace.requested_target ≡ ok workspace.canonical_target
  pub inside : path_is_or_descendant workspace.canonical_target workspace.canonical_git_root ≡ true
  pub hash : workspace.hash12 ≡ git_root_hash12 sha256 workspace.canonical_git_root
  pub name :
      workspace.container_name
      ≡ container_name_from_canonical_root_and_hash workspace.canonical_git_root
          (hash12_chars sha256 workspace.canonical_git_root)

-- A directory that resolves lies in its git root, after links are resolved, and the hash and the
-- container name of its identity are functions of the canonical git root alone.
pub resolve-IsResolved :
    (sha256 : String → List ℕ) (host : Host) (directory : String) (workspace : WorkspaceIdentity)
    → resolve_workspace_identity_with_git sha256 host directory ≡ ok workspace
    → IsResolved sha256 host workspace
unfolding resolve_workspace_identity_with_git
resolve-IsResolved sha256 host directory workspace h =
    let (requested, a, h₁) = >>=-eq-ok (host.absolute_path directory) _ h in
    let (git_root, b, h₂) = >>=-eq-ok (host.resolve_toplevel requested) _ h₁ in
    let (root, c, h₃) = >>=-eq-ok (host.canonicalize git_root) _ h₂ in
    let (target, d, h₄) = >>=-eq-ok (host.canonicalize requested) _ h₃ in
    record {
      git_root = git_root;
      toplevel = ground arith;
      root = ground arith;
      target = ground arith;
      inside = ground arith;
      hash = ground arith;
      name = ground arith;
    }

-- The hash in an identity has 12 hexadecimal digits, for a digest of 32 bytes.
pub hash12_chars_digits :
    (sha256 : String → List ℕ) (root : FilePath)
    → length (sha256 root) ≡ 32
    → (length (hash12_chars sha256 root) ≡ 12)
      × (all (λ c. is_ascii_hexdigit (code c)) (hash12_chars sha256 root) ≡ true)
hash12_chars_digits sha256 root h = hex_prefix_digits (sha256 root) 12 (omega arith)

-- A container name is never blank.
pub container_name_not_blank :
    (root : String) (hash : List Char)
    → is_blank (container_name_from_canonical_root_and_hash root hash) ≡ false
unfolding container_name_from_canonical_root_and_hash is_blank
container_name_not_blank root hash = refl
