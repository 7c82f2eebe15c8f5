-- ===== src/Workspace/Names.antt =====
-- The container names of src/workspace.rs, over the characters of a text. The names are ASCII, so the
-- source's byte lengths are numbers of characters.
use agentbox_nix.Shared.{
  ℕ, ◌+◌, ◌-◌, Char, code, String, Bool, false, ◌&&◌, ◌||◌, Option, none, some, List, [], ◌∷◌, ◌++◌,
  leb, ltb, eqb, all, drop, length, map, if◌then◌else◌,
}
use agentbox_nix.Text.{chars, from_chars, is_ascii_alphanumeric, is_ascii_hexdigit, is_prefix}

abbrev pub container_prefix : List Char
container_prefix = chars "agentbox-"

abbrev hash_len : ℕ
hash_len = 12

abbrev pub max_container_name_len : ℕ
max_container_name_len = 63

abbrev pub escape_char : Char → Char
escape_char c =
    if eqb (code c) b'/'
    then "_"
    else if is_ascii_alphanumeric (code c)
        || eqb (code c) b'.'
        || eqb (code c) b'_'
        || eqb (code c) b'-'
    then c
    else "-"

abbrev pub escape_root : List Char → List Char
escape_root = map escape_char

-- The end of the escaped root that still fits.
abbrev pub name_suffix : List Char → ℕ → List Char
name_suffix escaped max_suffix_len =
    if leb (length escaped) max_suffix_len
    then escaped
    else drop (length escaped - max_suffix_len) escaped

abbrev pub name_chars : List Char → List Char → List Char
name_chars root hash =
    let separator_len = 1 + length hash in
    let max_suffix_len = max_container_name_len - length container_prefix - separator_len in
    container_prefix ++ (name_suffix (escape_root root) max_suffix_len ++ ("-" ∷ hash))

unfoldable pub container_name_from_canonical_root_and_hash : String → List Char → String
container_name_from_canonical_root_and_hash root hash = from_chars (name_chars (chars root) hash)

-- `rsplit_once('-')`
abbrev pub rsplit_dash : List Char → Option (List Char × List Char)
rsplit_dash [] = none
rsplit_dash (c ∷ cs) = elim (rsplit_dash cs) [
  | none ↦ if eqb (code c) b'-' then some ([], cs) else none
  | some (prefix, suffix) ↦ some (c ∷ prefix, suffix)
]

abbrev pub recognised : Option (List Char × List Char) → Bool
recognised none = false
recognised (some (prefix, suffix)) =
    is_prefix (map code container_prefix) (map code prefix)
    && ltb (length container_prefix) (length prefix)
    && eqb (length suffix) hash_len
    && all (λ c. is_ascii_hexdigit (code c)) suffix

unfoldable pub is_agentbox_workspace_resource_name : String → Bool
is_agentbox_workspace_resource_name name = recognised (rsplit_dash (chars name))
