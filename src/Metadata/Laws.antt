-- ===== src/Metadata/Laws.antt =====
-- Reading the labels back.
use agentbox_nix.Shared.{
  String, ◌≡◌, refl, some, [], ◌∷◌, arith, ◌==◌, string_eq, if◌then◌else◌, false,
}
use agentbox_nix.Text.{is_blank}
use agentbox_nix.Metadata.{Labels, get, insert, required_label_value}

pub get-insert :
    (j k v : String) (labels : Labels)
    → get (insert k v labels) j ≡ (if k == j then some v else get labels j)
unfolding get insert
get-insert j k v [] = refl
get-insert j k v ((i, w) ∷ labels) = ground (arith, get-insert j k v labels)

pub required_label_value-some :
    (labels : Labels) (name v : String)
    → get labels name ≡ some v
    → is_blank v ≡ false
    → required_label_value labels name ≡ some v
unfolding required_label_value
required_label_value-some labels name v h b = ground arith
