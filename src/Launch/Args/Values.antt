-- ===== src/Launch/Args/Values.antt =====
-- The values of options as Podman reads them: a mount is a list of fields between commas, and a label, a
-- variable or a field is a name and, after the first `=`, its value.
use Prim.Native.String.append
use Prim.Native.String.{◌++◌ as ◌<>◌}
use agentbox_nix.Shared.{
  ℕ, String, Char, code, Bool, true, false, not, ◌≡◌, refl, ap, ◌∙◌, Option, none, some, List, [],
  ◌∷◌, ◌++◌, eqb, all, ◌==◌, string_eq, string_discrete, if◌then◌else◌, arith,
}
use agentbox_nix.Text.{chars, from_chars}
use agentbox_nix.Launch.Spec.{RuntimeMountKind, bind, volume, RuntimeMount}
use agentbox_nix.Launch.Args.{key_value, render_mount}

abbrev put : Char → List (List Char) → List (List Char)
put c [] = (c ∷ []) ∷ []
put c (field ∷ fields) = (c ∷ field) ∷ fields

abbrev comma : ℕ
comma = 44

abbrev equals : ℕ
equals = 61

-- The fields between commas.
unfoldable pub fields : List Char → List (List Char)
fields [] = [] ∷ []
fields (c ∷ cs) = let rest = fields cs in if eqb (code c) comma then [] ∷ rest else put c rest

abbrev put_name : Char → List Char × Option (List Char) → List Char × Option (List Char)
put_name c (name, value) = (c ∷ name, value)

-- The name before the first `=`, and the value after it.
unfoldable pub cut : List Char → List Char × Option (List Char)
cut [] = ([], none)
cut (c ∷ cs) = let rest = cut cs in if eqb (code c) equals then ([], some cs) else put_name c rest

abbrev texts : List Char × Option (List Char) → String × Option String
texts (name, none) = (from_chars name, none)
texts (name, some value) = (from_chars name, some (from_chars value))

-- A label or a variable.
unfoldable pub read_key_value : String → String × Option String
unfolding cut
read_key_value text = texts (cut (chars text))

-- A mount as Podman makes it.
pub record PodmanMount : Type 0 where
  pub kind : String
  pub source : String
  pub destination : String
  pub read_only : Bool
  pub chown : Bool

abbrev assign : String × Option String → PodmanMount → PodmanMount
assign (name, none) mount =
    if name == "ro"
    then record mount { read_only = true }
    else if name == "U"
    then record mount { chown = true }
    else mount
assign (name, some value) mount =
    if name == "type"
    then record mount { kind = value }
    else if name == "src"
    then record mount { source = value }
    else if name == "dst"
    then record mount { destination = value }
    else mount

abbrev assign_all : List (List Char) → PodmanMount → PodmanMount
assign_all [] mount = mount
assign_all (field ∷ fields) mount = assign_all fields (assign (texts (cut field)) mount)

abbrev no_mount : PodmanMount
no_mount = record { kind = ""; source = ""; destination = ""; read_only = false; chown = false }

unfoldable pub read_mount : String → PodmanMount
unfolding fields cut
read_mount text = assign_all (fields (chars text)) no_mount

abbrev pub Lacks : ℕ → String → Type 0
Lacks separator s = all (λ c. not (eqb (code c) separator)) (chars s) ≡ true

pub from_chars-chars : (s : String) → from_chars (chars s) ≡ s
from_chars-chars String.[] = refl
from_chars-chars (String.◌∷◌ c s) = ap (λ r. String.◌∷◌ c r) (from_chars-chars s)

chars-append : (s t : String) → chars (s <> t) ≡ chars s ++ chars t
chars-append String.[] t = ap chars (append.nil t)
chars-append (String.◌∷◌ c s) t = ap chars (append.cons c s t) ∙ ap (λ r. c ∷ r) (chars-append s t)

fields-next :
    (s t : List Char)
    → all (λ c. not (eqb (code c) comma)) s ≡ true
    → fields (s ++ (chars "," ++ t)) ≡ s ∷ fields t
unfolding fields
fields-next [] t h = refl
fields-next (c ∷ cs) t h =
    let rest : fields (cs ++ (chars "," ++ t)) ≡ cs ∷ fields t = fields-next cs t (ground arith) in
    let other : eqb (code c) comma ≡ false = ground arith in rw other (ap (put c) rest)

fields-last :
    (s : List Char) → all (λ c. not (eqb (code c) comma)) s ≡ true → fields (s ++ []) ≡ s ∷ []
unfolding fields
fields-last [] h = refl
fields-last (c ∷ cs) h =
    let rest : fields (cs ++ []) ≡ cs ∷ [] = fields-last cs (ground arith) in
    let other : eqb (code c) comma ≡ false = ground arith in rw other (ap (put c) rest)

cut-equals :
    (name value : List Char)
    → all (λ c. not (eqb (code c) equals)) name ≡ true
    → cut (name ++ (chars "=" ++ value)) ≡ (name, some value)
unfolding cut
cut-equals [] value h = refl
cut-equals (c ∷ name) value h =
    let rest : cut (name ++ (chars "=" ++ value)) ≡ (name, some value) =
      cut-equals name value (ground arith) in
    let other : eqb (code c) equals ≡ false = ground arith in rw other (ap (put_name c) rest)

-- A name without `=` and its value are read as they are.
pub read-key_value :
    (name value : String)
    → Lacks equals name
    → read_key_value (key_value (name, value)) ≡ (name, some value)
unfolding read_key_value
read-key_value name value h =
    ap (λ cs. texts (cut cs))
      (chars-append name ("=" <> value) ∙ ap (λ r. chars name ++ r) (chars-append "=" value))
    ∙ ap texts (cut-equals (chars name) (chars value) h)
    ∙ (λ i. (from_chars-chars name i, some (from_chars-chars value i)))

-- What a mount of a specification asks of Podman: a volume is to be owned by the user.
abbrev pub asked_of : RuntimeMount → PodmanMount
asked_of mount = record {
  kind = elim mount.kind [ bind ↦ "bind" | volume ↦ "volume" ];
  source = mount.source;
  destination = mount.destination;
  read_only = mount.read_only;
  chown = elim mount.kind [ bind ↦ false | volume ↦ true ];
}

-- Neither path has a comma.
abbrev pub IsPlain : RuntimeMount → Type 0
IsPlain mount = Lacks comma mount.source × Lacks comma mount.destination

-- The characters of a rendered mount, of a kind and with the flags' fields.
rendered :
    (kind source destination flags : String)
    → chars ("type=" <> (kind <> (",src=" <> (source <> (",dst=" <> (destination <> flags))))))
      ≡ chars "type="
        ++ (chars kind
            ++ (chars ",src="
                ++ (chars source ++ (chars ",dst=" ++ (chars destination ++ chars flags)))))
rendered kind source destination flags =
    chars-append "type=" _
    ∙ ap (λ r. chars "type=" ++ r)
        (chars-append kind _
          ∙ ap (λ r. chars kind ++ r)
              (chars-append ",src=" _
                ∙ ap (λ r. chars ",src=" ++ r)
                    (chars-append source _
                      ∙ ap (λ r. chars source ++ r)
                          (chars-append ",dst=" _
                            ∙ ap (λ r. chars ",dst=" ++ r) (chars-append destination flags)))))

-- The fields of a mount's characters, by what its kind and flags are.
path_fields :
    (head : List Char) (source destination : String) (flags : List Char) (last : List (List Char))
    → all (λ c. not (eqb (code c) comma)) head ≡ true
    → Lacks comma source
    → fields (chars "dst=" ++ (chars destination ++ flags)) ≡ last
    → fields (
        head
        ++ (chars ",src=" ++ (chars source ++ (chars ",dst=" ++ (chars destination ++ flags)))))
      ≡ head ∷ (chars "src=" ++ chars source) ∷ last
path_fields head source destination flags last h k e =
    fields-next head _ h
    ∙ ap (λ r. head ∷ r)
        (fields-next (chars "src=" ++ chars source) _ k
          ∙ ap (λ r. (chars "src=" ++ chars source) ∷ r) e)

abbrev dst_field : String → List Char
dst_field destination = chars "dst=" ++ chars destination

-- A rendered mount without commas in its paths, by its fields.
read_fields :
    (kind source destination flags : String) (last : List (List Char)) (mount : PodmanMount)
    → all (λ c. not (eqb (code c) comma)) (chars "type=" ++ chars kind) ≡ true
    → chars "type="
        ++ (chars kind
            ++ (chars ",src="
                ++ (chars source ++ (chars ",dst=" ++ (chars destination ++ chars flags)))))
      ≡ (chars "type=" ++ chars kind)
        ++ (chars ",src="
            ++ (chars source ++ (chars ",dst=" ++ (chars destination ++ chars flags))))
    → Lacks comma source
    → fields (chars "dst=" ++ (chars destination ++ chars flags)) ≡ last
    → assign_all ((chars "type=" ++ chars kind) ∷ (chars "src=" ++ chars source) ∷ last) no_mount
      ≡ mount
    → read_mount ("type=" <> (kind <> (",src=" <> (source <> (",dst=" <> (destination <> flags))))))
      ≡ mount
unfolding read_mount
read_fields kind source destination flags last mount h shape plain e result =
    ap (λ cs. assign_all (fields cs) no_mount) (rendered kind source destination flags ∙ shape)
    ∙ ap (λ fs. assign_all fs no_mount)
        (path_fields (chars "type=" ++ chars kind) source destination (chars flags) last h plain e)
    ∙ result

-- A rendered mount without commas in its paths is read as what it asks for.
pub read-render_mount :
    (mount : RuntimeMount) → IsPlain mount → read_mount (render_mount mount) ≡ asked_of mount
unfolding render_mount string_discrete cut fields
read-render_mount mount (plain_source, plain_destination) = by_kind mount.kind mount.read_only
  where
    asked : String → Bool → Bool → (i : 𝕀) → PodmanMount
    asked kind ro chown i = record {
      kind = kind;
      source = from_chars-chars mount.source i;
      destination = from_chars-chars mount.destination i;
      read_only = ro;
      chown = chown;
    }

    by_kind :
        (kind : RuntimeMountKind) (ro : Bool)
        → read_mount (render_mount (record mount { kind = kind; read_only = ro }))
          ≡ asked_of (record mount { kind = kind; read_only = ro })
    by_kind bind false =
        read_fields "bind" mount.source mount.destination "" (dst_field mount.destination ∷ []) _
          refl refl plain_source (fields-last (dst_field mount.destination) plain_destination)
          (λ i. asked "bind" false false i)
    by_kind bind true =
        read_fields "bind" mount.source mount.destination ",ro"
          (dst_field mount.destination ∷ chars "ro" ∷ []) _ refl refl plain_source
          (fields-next (dst_field mount.destination) (chars "ro") plain_destination)
          (λ i. asked "bind" true false i)
    by_kind volume false =
        read_fields "volume" mount.source mount.destination ",U"
          (dst_field mount.destination ∷ chars "U" ∷ []) _ refl refl plain_source
          (fields-next (dst_field mount.destination) (chars "U") plain_destination)
          (λ i. asked "volume" false true i)
    by_kind volume true =
        read_fields "volume" mount.source mount.destination ",ro,U"
          (dst_field mount.destination ∷ chars "ro" ∷ chars "U" ∷ []) _ refl refl plain_source
          (fields-next (dst_field mount.destination) (chars "ro,U") plain_destination)
          (λ i. asked "volume" true true i)
