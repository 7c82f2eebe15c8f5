-- ===== src/RuntimeImage/Lifecycle/Ensured.antt =====
-- What a launch can rely on after `ensure_default_runtime_image`.
use agentbox_nix.Shared.{
  ◌≡◌, sym, ap, subst, ◌∙◌, String, Bool, true, false, Option, some, Result, ok, err, map_err,
}
use agentbox_nix.Errors.{Error, RuntimeKind}
use agentbox_nix.Paths.{FilePath}
use agentbox_nix.Clean.Image.{default_image}
use agentbox_nix.RuntimeImage.{RuntimeImageState, package_spec}
use agentbox_nix.RuntimeImage.Lifecycle.{
  RuntimeImageEnvironment, failing_as, build_runtime_image_and_record_state,
  build_default_runtime_image, installed_version_if_known, ensured,
  ensure_default_runtime_image_with, ensure_default_runtime_image,
}
use agentbox_nix.Shared.Effects.{Yields, bind-Yields, return-Yields}
use agentbox_nix.RuntimeImage.Lifecycle.Laws.{Images, IsTruthful, IsCurrent, build-Built}

unfailed :
    {State A : Type 0} (f : Error → Error) (outcome : Result Error A × State) (a : A) (t : State)
    → ◌≡◌ {A = Result Error A × State} (map_err f outcome.0, outcome.1) (ok a, t)
    → outcome ≡ (ok a, t)
unfailed f (ok b, s) a t h = h
unfailed f (err e, s) a t h = cc

module _ {State : Type 0} (images : State → Images)
    (recorded : State → RuntimeKind → Option RuntimeImageState) (context_hash : String)
    (environment : RuntimeImageEnvironment State)
    (truthful : IsTruthful images recorded context_hash environment) (runtime : RuntimeKind) where
  abbrev image : String
  image = default_image context_hash runtime

  built :
      (s : State) (version : String) (t : State)
      → Yields (build_default_runtime_image context_hash environment runtime) s version t
      → IsCurrent images recorded context_hash runtime version t
  unfolding build_default_runtime_image
  built s version t h =
      let (latest, a, r, h1) =
        bind-Yields (environment.resolve_latest_version (package_spec runtime).name) _ s version t
          h in
      let (u, b, made, h2) =
        bind-Yields (build_runtime_image_and_record_state context_hash environment runtime latest) _
          a version t h1 in
      let (same, last) = return-Yields latest b version t h2 in
      subst (λ v. IsCurrent images recorded context_hash runtime v t) same
        (subst (IsCurrent images recorded context_hash runtime latest) last (
          (build-Built images recorded context_hash environment truthful runtime latest a u b
            made).0))

  ensured_missing :
      (root : FilePath) (s : State) (result : Option String) (t : State)
      → Yields (ensured context_hash environment runtime root image false) s result t
      → (version : String) × (some version ≡ result)
        × IsCurrent images recorded context_hash runtime version t
  ensured_missing root s result t h =
      let (version, a, made, h1) =
        bind-Yields (failing_as _ (build_default_runtime_image context_hash environment runtime)) _
          s result t h in
      let (same, last) = return-Yields (some version) a result t h1 in
      (
        version,
        same,
        subst (IsCurrent images recorded context_hash runtime version) last (
            built s version a (
              unfailed _ (build_default_runtime_image context_hash environment runtime s) version a
                made)),
      )

  ensured_present :
      (root : FilePath) (s : State) (result : Option String) (t : State)
      → Yields (ensured context_hash environment runtime root image true) s result t
      → (images t).there image ≡ (images s).there image
  unfolding installed_version_if_known
  ensured_present root s result t h =
      let (state, a, read, h1) = bind-Yields (environment.read_state runtime) _ s result t h in
      let (_, (keeps, _)) = truthful.read_state_tells runtime s state a read in
      let (_, last) = return-Yields _ a result t h1 in
      ap (λ u. (images u).there image) (sym last) ∙ ap (λ k. k.there image) keeps

  ensured_exists :
      (root : FilePath) (found : Bool) (s : State) (result : Option String) (t : State)
      → found ≡ (images s).there image
      → Yields (ensured context_hash environment runtime root image found) s result t
      → (images t).there image ≡ true
  ensured_exists root true s result t looked h = ensured_present root s result t h ∙ sym looked
  ensured_exists root false s result t looked h = (ensured_missing root s result t h).2.0

  -- After the default image was ensured without an error, it exists.
  pub ensure_image_exists :
      (root : FilePath) (s : State) (result : Option String) (t : State)
      → Yields (ensure_default_runtime_image context_hash environment runtime root) s result t
      → (images t).there image ≡ true
  unfolding ensure_default_runtime_image ensure_default_runtime_image_with
  ensure_image_exists root s result t h =
      let (found, a, looked, h1) = bind-Yields (environment.image_exists image) _ s result t h in
      let (tells, (keeps, _)) = truthful.image_exists_tells image s found a looked in
      ensured_exists root found a result t (tells ∙ sym (ap (λ k. k.there image) keeps)) h1

  -- If the default image did not exist, then after it was ensured without an error, the returned version
  -- is that of the image's record, which is of the embedded context, and the image exists.
  pub ensure_missing-IsCurrent :
      (root : FilePath) (s : State) (result : Option String) (t : State)
      → (images s).there image ≡ false
      → Yields (ensure_default_runtime_image context_hash environment runtime root) s result t
      → (version : String) × (some version ≡ result)
        × IsCurrent images recorded context_hash runtime version t
  unfolding ensure_default_runtime_image ensure_default_runtime_image_with
  ensure_missing-IsCurrent root s result t missing h =
      let (found, a, looked, h1) = bind-Yields (environment.image_exists image) _ s result t h in
      let (tells, _) = truthful.image_exists_tells image s found a looked in
      ensured_missing root a result t (
        subst (λ b. Yields (ensured context_hash environment runtime root image b) a result t)
          (tells ∙ missing) h1)
