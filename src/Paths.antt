-- ===== src/Paths.antt =====
-- src/paths.rs, and what it and its callers use of `std::path::Path` (through camino): paths are
-- compared by their components, so `/a//b/.` and `/a/b` are one path.
pub mod Laws
use Prim.Native.String
use agentbox_nix.Shared.{
  ℕ, Char, code, String, Bool, true, false, ◌||◌, Option, none, some, List, [], ◌∷◌, compare,
  Ordering, eqb, map, filter_map, if◌then◌else◌, ◌==◌, string_eq, string_discrete,
}
use agentbox_nix.Shared.Order.{lex}
use agentbox_nix.Text.{codes}

-- A `Utf8PathBuf`, as text.
abbrev pub FilePath : Type 0
FilePath = String

-- `std::path::Component`, without the prefix of Windows.
pub data Component : Type 0 where
  root_dir cur_dir parent_dir : Component
  normal : String → Component

abbrev push_front : Char → List String → List String
push_front c [] = String.◌∷◌ c String.[] ∷ []
push_front c (part ∷ parts) = String.◌∷◌ c part ∷ parts

abbrev split_slash : String → List String
split_slash String.[] = "" ∷ []
split_slash (String.◌∷◌ c s) =
    let rest = split_slash s in if eqb (code c) b'/' then "" ∷ rest else push_front c rest

abbrev segment : String → Option Component
segment s =
    if s == "" || s == "." then none else if s == ".." then some parent_dir else some (normal s)

-- `Path::is_absolute`: on Unix, the path has a root.
unfoldable pub is_absolute : FilePath → Bool
is_absolute String.[] = false
is_absolute (String.◌∷◌ c s) = eqb (code c) b'/'

-- A leading `.` of a relative path is kept.
abbrev leading_dot : List String → Bool
leading_dot [] = false
leading_dot (part ∷ parts) = part == "."

-- `Path::components`: empty segments and inner `.` segments are dropped.
unfoldable pub components : FilePath → List Component
unfolding is_absolute string_discrete
components path =
    let parts = split_slash path in
    let rest = filter_map segment parts in
    if is_absolute path then root_dir ∷ rest else if leading_dot parts then cur_dir ∷ rest else rest

-- The derived `Ord` of `Component`: the variant first, then the text by its bytes.
abbrev pub component_key : Component → List ℕ
component_key root_dir = 0 ∷ []
component_key cur_dir = 1 ∷ []
component_key parent_dir = 2 ∷ []
component_key (normal s) = 3 ∷ codes s

abbrev pub path_key : List Component → List (List ℕ)
path_key = map component_key

-- `Ord for Path`
unfoldable pub path_compare : FilePath → FilePath → Ordering
path_compare p q = lex (lex compare) (path_key (components p)) (path_key (components q))

-- `PartialEq for Path`
unfoldable pub path_eq : FilePath → FilePath → Bool
unfolding path_compare
path_eq p q = elim (path_compare p q) [ Ordering.eq ↦ true | _ ↦ false ]

abbrev is_component_prefix : List Component → List Component → Bool
is_component_prefix [] ys = true
is_component_prefix (x ∷ xs) [] = false
is_component_prefix (x ∷ xs) (y ∷ ys) =
    let rest = is_component_prefix xs ys in
    elim (lex compare (component_key x) (component_key y)) [ Ordering.eq ↦ rest | _ ↦ false ]

-- `Path::starts_with`: whole components only.
unfoldable pub path_starts_with : FilePath → FilePath → Bool
path_starts_with path base = is_component_prefix (components base) (components path)

unfoldable pub path_is_or_descendant : FilePath → FilePath → Bool
unfolding path_eq path_starts_with
path_is_or_descendant path root = path_eq path root || path_starts_with path root
