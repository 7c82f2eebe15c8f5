-- ===== src/Clean/Scope.antt =====
-- src/commands/clean/scope.rs and resource.rs: which kinds of resources a clean is limited to.
use agentbox_nix.Shared.{
  String, ◌≡◌, Bool, true, false, not, ◌&&◌, ◌||◌, List, [], ◌∷◌, ◌++◌, any, if◌then◌else◌, arith,
  ◌==◌, string_eq,
}

pub data ResourceKind : Type 0 where
  image volume lock_file : ResourceKind

pub record CleanResource : Type 0 where
  pub kind : ResourceKind
  pub name : String

abbrev pub kind_eq : ResourceKind → ResourceKind → Bool
kind_eq image image = true
kind_eq volume volume = true
kind_eq lock_file lock_file = true
kind_eq image volume = false
kind_eq image lock_file = false
kind_eq volume image = false
kind_eq volume lock_file = false
kind_eq lock_file image = false
kind_eq lock_file volume = false

abbrev pub resource_eq : CleanResource → CleanResource → Bool
resource_eq a b = kind_eq a.kind b.kind && a.name == b.name

abbrev only : Bool → ResourceKind → List ResourceKind
only test kind = if test then kind ∷ [] else []

-- A set of kinds.
abbrev pub CleanScope : Type 0
CleanScope = List ResourceKind

abbrev selected_resources : (images volumes locks : Bool) → CleanScope
selected_resources images volumes locks =
    only images image ++ only volumes volume ++ only locks lock_file

unfoldable pub from_flags : (images volumes locks : Bool) → CleanScope
from_flags images volumes locks =
    if not images && not volumes && not locks
    then image ∷ volume ∷ lock_file ∷ []
    else selected_resources images volumes locks

abbrev pub includes : CleanScope → ResourceKind → Bool
includes scope kind = any (kind_eq kind) scope

abbrev pub flag_of : (images volumes locks : Bool) → ResourceKind → Bool
flag_of images volumes locks image = images
flag_of images volumes locks volume = volumes
flag_of images volumes locks lock_file = locks

-- A clean includes a kind exactly when the kind's flag is given or no flag is.
pub from_flags_lem :
    (images volumes locks : Bool) (kind : ResourceKind)
    → includes (from_flags images volumes locks) kind
      ≡ (flag_of images volumes locks kind || not (images || volumes || locks))
unfolding from_flags
from_flags_lem images volumes locks image = ground arith
from_flags_lem images volumes locks volume = ground arith
from_flags_lem images volumes locks lock_file = ground arith
