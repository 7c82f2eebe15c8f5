-- ===== src/Examples/Images.antt =====
-- The default image of codex, on a host whose npm knows version 1.2.3.
use agentbox_nix.Shared.{
  ℕ, ◌+◌, subst, ◌≡◌, refl, ap, sym, ◌↔◌, String, Bool, true, false, Option, none, some, Result, ok,
  ok_injective,
}
use agentbox_nix.Errors.{Error, RuntimeKind, opencode, codex}
use agentbox_nix.Text.{is_blank}
use agentbox_nix.Clean.Image.{default_image, metadata_from_labels}
use agentbox_nix.RuntimeImage.{RuntimeImageState, new_state, plan_runtime_image_update}
use agentbox_nix.RuntimeImage.Labels.{
  DefaultRuntimeImageLabelInput, default_runtime_image_labels,
  metadata-default_runtime_image_labels,
}
use agentbox_nix.RuntimeImage.Lifecycle.{
  RuntimeImageEnvironment, rebuilt, update_default_runtime_image_with, ensure_default_runtime_image,
}
use agentbox_nix.Shared.Effects.{Yields}
use agentbox_nix.RuntimeImage.Lifecycle.Laws.{
  Images, Same, IsTruthful, IsCurrent, IsRecordTrue, update_IsCurrent, update_rebuilds_iff,
}
use agentbox_nix.RuntimeImage.Lifecycle.Ensured.{ensure_image_exists, ensure_missing-IsCurrent}

abbrev hash : String
hash = "0123456789abcdef"

pub record Machine : Type 0 where
  pub images : Images
  pub opencode_state : Option RuntimeImageState
  pub codex_state : Option RuntimeImageState

abbrev images : Machine → Images
images m = m.images

-- The machine has the images of one name or of none.
abbrev images_with : Bool → String → ℕ → Images
images_with b version count = record {
  there = λ image. b;
  version_in = λ image. version;
  builds = count;
}

abbrev recorded : Machine → RuntimeKind → Option RuntimeImageState
recorded m opencode = m.opencode_state
recorded m codex = m.codex_state

abbrev write : RuntimeKind → RuntimeImageState → Machine → Machine
write opencode state m = record m { opencode_state = some state }
write codex state m = record m { codex_state = some state }

abbrev environment : RuntimeImageEnvironment Machine
environment = record {
  image_exists = λ image m. (ok (m.images.there image), m);
  read_state = λ runtime m. (ok (recorded m runtime), m);
  write_state = λ runtime state m. (ok tt, write runtime state m);
  resolve_latest_version = λ name m. (ok "1.2.3", m);
  build_image = λ runtime version m.
      (ok tt, record m { images = images_with true version (m.images.builds + 1) });
  now_unix_seconds = λ m. (ok 42, m);
}

write_records :
    (runtime : RuntimeKind) (state : RuntimeImageState) (m : Machine)
    → (recorded (write runtime state m) runtime ≡ some state)
      × (images (write runtime state m) ≡ images m)
write_records opencode state m = (refl, refl)
write_records codex state m = (refl, refl)

-- An answer in the same state.
machine-Same :
    {A : Type 0} (answer : Result Error A) (s t : Machine) (a : A)
    → ◌≡◌ {A = Result Error A × Machine} (answer, s) (ok a, t)
    → Same images recorded s t
machine-Same answer s t a h = (ap (λ o. images o.1) (sym h), λ r. ap (λ o. recorded o.1 r) (sym h))

truthful : IsTruthful images recorded hash environment
truthful = record {
  image_exists_tells = λ image s b t h. (
    sym (ok_injective Error (s.images.there image) b (ap (λ o. o.0) h)),
    machine-Same (ok (s.images.there image)) s t b h,
  );
  read_state_tells = λ runtime s o t h. (
    sym (ok_injective Error (recorded s runtime) o (ap (λ p. p.0) h)),
    machine-Same (ok (recorded s runtime)) s t o h,
  );
  resolve_keeps = λ name s v t h. machine-Same (ok "1.2.3") s t v h;
  now_keeps = λ s n t h. machine-Same (ok 42) s t n h;
  build_makes = λ runtime version s u t h.
      let last : images_with true version (s.images.builds + 1) ≡ t.images =
        ap (λ o. o.1.images) h in
      (
        ap (λ i. i.there (default_image hash runtime)) (sym last),
        ap (λ i. i.version_in (default_image hash runtime)) (sym last),
        ap (λ i. i.builds) (sym last),
      );
  write_records = λ runtime state s u t h.
      let last : write runtime state s ≡ t = ap (λ o. o.1) h in
      subst (λ m. (recorded m runtime ≡ some state) × (images m ≡ images s)) last
        (write_records runtime state s);
}

abbrev fresh : Machine
fresh = record { images = images_with false "" 0; opencode_state = none; codex_state = none }

abbrev built : Machine
built = record {
  images = images_with true "1.2.3" 1;
  opencode_state = none;
  codex_state = some (new_state hash codex "1.2.3" 42 42);
}

abbrev image : String
image = default_image hash codex

updates :
    Yields
      (update_default_runtime_image_with hash environment codex)
      fresh
      (rebuilt image "1.2.3")
      built
unfolding update_default_runtime_image_with plan_runtime_image_update
updates = refl

fresh-IsRecordTrue : IsRecordTrue images recorded hash codex fresh
fresh-IsRecordTrue version (there, _, _, _, _, _) = cc

update_IsCurrent_example :
    IsCurrent images recorded hash codex "1.2.3" built
    × ((images built).version_in (default_image hash codex) ≡ "1.2.3")
update_IsCurrent_example =
    update_IsCurrent images recorded hash environment truthful codex fresh (rebuilt image "1.2.3")
      built fresh-IsRecordTrue updates

update_rebuilds_iff_example :
    (((images built).builds ≡ (images fresh).builds)
      ↔ IsCurrent images recorded hash codex "1.2.3" fresh)
    × ((◌≡◌ {A = Bool} true true) ↔ ((images built).builds ≡ (images fresh).builds + 1))
update_rebuilds_iff_example =
    update_rebuilds_iff images recorded hash environment truthful codex fresh
      (rebuilt image "1.2.3") built updates

ensures :
    Yields (ensure_default_runtime_image hash environment codex "/w") fresh (some "1.2.3") built
unfolding ensure_default_runtime_image
ensures = refl

ensure_image_exists_example : ◌≡◌ {A = Bool} ((images built).there image) true
ensure_image_exists_example =
    ensure_image_exists images recorded hash environment truthful codex "/w" fresh (some "1.2.3")
      built ensures

ensure_missing-IsCurrent_example :
    (version : String) × (some version ≡ some "1.2.3")
    × IsCurrent images recorded hash codex version built
ensure_missing-IsCurrent_example =
    ensure_missing-IsCurrent images recorded hash environment truthful codex "/w" fresh
      (some "1.2.3") built refl ensures

abbrev label_input : DefaultRuntimeImageLabelInput
label_input = record {
  runtime = codex;
  image = image;
  image_context_hash = hash;
  version = "1.2.3";
  resolved_at = "12345";
}

metadata-default_runtime_image_labels_example :
    metadata_from_labels (default_runtime_image_labels label_input)
    ≡ some (record { runtime = codex; image_context_hash = hash })
unfolding is_blank
metadata-default_runtime_image_labels_example =
    metadata-default_runtime_image_labels label_input refl refl
