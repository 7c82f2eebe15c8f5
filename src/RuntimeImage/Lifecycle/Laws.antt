-- ===== src/RuntimeImage/Lifecycle/Laws.antt =====
-- What an update of a default image leaves: the image, the version in it, its record, and the number of
-- builds.
use agentbox_nix.Shared.{
  ℕ, ◌+◌, ◌≡◌, refl, sym, ap, ◌∙◌, ◌↔◌, ◌⊎◌, inl, inr, String, Bool, true, false, Option, none,
  some, string_eq, ==_sound, arith, one_value, subst,
}
use agentbox_nix.Shared.Effects.{Yields, bind-Yields, return-Yields}
use agentbox_nix.Errors.{RuntimeKind}
use agentbox_nix.Clean.Image.{default_image}
use agentbox_nix.RuntimeImage.{
  RuntimeImageState, package_spec, with_latest_check, new_state, refresh_state, rebuild, is_current,
  plan_of, plan_runtime_image_update,
}
use agentbox_nix.RuntimeImage.Lifecycle.{
  RuntimeImageEnvironment, RuntimeImageUpdateOutcome, already_up_to_date, rebuilt,
  build_runtime_image_and_record_state, carry_out, update_default_runtime_image_with,
}

abbrev pub version_of : RuntimeImageUpdateOutcome → String
version_of (already_up_to_date image version) = version
version_of (rebuilt image version) = version

abbrev pub is_rebuilt : RuntimeImageUpdateOutcome → Bool
is_rebuilt (already_up_to_date image version) = false
is_rebuilt (rebuilt image version) = true

-- The images of a machine: which are there, the agent version that each contains, and how often one was
-- built.
pub record Images : Type 0 where
  pub there : String → Bool
  pub version_in : String → String
  pub builds : ℕ

module _ {State : Type 0} (images : State → Images)
    (recorded : State → RuntimeKind → Option RuntimeImageState) where
  -- Neither the images nor the records changed.
  abbrev pub Same : State → State → Type 0
  Same s t =
      (images t ≡ images s) × ((runtime : RuntimeKind) → recorded t runtime ≡ recorded s runtime)

  -- What the lifecycle relies on: calls that ask change nothing and answer truly, a build makes the
  -- image with the version that it is asked for and counts as one, and a write records the state and
  -- leaves the images alone.
  pub record IsTruthful (context_hash : String) (environment : RuntimeImageEnvironment State)
      : Type 0 where
    pub image_exists_tells :
        (image : String) (s : State) (b : Bool) (t : State)
        → Yields (environment.image_exists image) s b t
        → (b ≡ (images s).there image) × Same s t
    pub read_state_tells :
        (runtime : RuntimeKind) (s : State) (o : Option RuntimeImageState) (t : State)
        → Yields (environment.read_state runtime) s o t
        → (o ≡ recorded s runtime) × Same s t
    pub resolve_keeps :
        (name : String) (s : State) (v : String) (t : State)
        → Yields (environment.resolve_latest_version name) s v t
        → Same s t
    pub now_keeps :
        (s : State) (n : ℕ) (t : State) → Yields environment.now_unix_seconds s n t → Same s t
    pub build_makes :
        (runtime : RuntimeKind) (version : String) (s : State) (u : Unit {0}) (t : State)
        → Yields (environment.build_image runtime version) s u t
        → ((images t).there (default_image context_hash runtime) ≡ true)
          × ((images t).version_in (default_image context_hash runtime) ≡ version)
          × ((images t).builds ≡ (images s).builds + 1)
    pub write_records :
        (runtime : RuntimeKind) (state : RuntimeImageState) (s : State) (u : Unit {0}) (t : State)
        → Yields (environment.write_state runtime state) s u t
        → (recorded t runtime ≡ some state) × (images t ≡ images s)

  -- The image is there, and the record says that it was built from this context with this version.
  abbrev pub IsCurrent : String → RuntimeKind → String → State → Type 0
  IsCurrent context_hash runtime version s =
      ((images s).there (default_image context_hash runtime) ≡ true)
      × (state : RuntimeImageState) × (recorded s runtime ≡ some state)
      × (state.installed_version ≡ version)
      × (state.image ≡ default_image context_hash runtime)
      × (state.image_context_hash ≡ context_hash)

  -- A record of the present image of this context names the version that the image contains.
  abbrev pub IsRecordTrue : String → RuntimeKind → State → Type 0
  IsRecordTrue context_hash runtime s =
      (version : String)
      → IsCurrent context_hash runtime version s
      → (images s).version_in (default_image context_hash runtime) ≡ version

  module _ (context_hash : String) (environment : RuntimeImageEnvironment State)
      (truthful : IsTruthful context_hash environment) (runtime : RuntimeKind) where
    abbrev image : String
    image = default_image context_hash runtime

    -- What a build that is recorded leaves.
    abbrev pub Built : String → State → State → Type 0
    Built version s t =
        IsCurrent context_hash runtime version t
        × ((images t).version_in image ≡ version)
        × ((images t).builds ≡ (images s).builds + 1)

    pub build-Built :
        (version : String) (s : State) (u : Unit {0}) (t : State)
        → Yields
            (build_runtime_image_and_record_state context_hash environment runtime version)
            s
            u
            t
        → Built version s t
    unfolding build_runtime_image_and_record_state new_state
    build-Built version s u t h =
        let (_, built, b, h1) = bind-Yields (environment.build_image runtime version) _ s u t h in
        let (now, read, n, w) = bind-Yields environment.now_unix_seconds _ built u t h1 in
        let (same, _) = truthful.now_keeps built now read n in
        let (record_eq, keeps) =
          truthful.write_records runtime (new_state context_hash runtime version now now) read u t
            w in
        let (there, version_eq, count) = truthful.build_makes runtime version s _ built b in
        let kept : images t ≡ images built = keeps ∙ same in
        (
          (
            ap (λ i. i.there image) kept ∙ there,
            new_state context_hash runtime version now now,
            record_eq,
            refl,
            refl,
            refl,
          ),
          ap (λ i. i.version_in image) kept ∙ version_eq,
          ap (λ i. i.builds) kept ∙ count,
        )

    -- The plan's test is the condition on the world.
    is_current_iff :
        (version : String) (exists_now : Bool) (state : RuntimeImageState)
        → (is_current context_hash runtime version exists_now state ≡ true) ↔ (
            (exists_now ≡ true)
            × (state.installed_version ≡ version)
            × (state.image ≡ image)
            × (state.image_context_hash ≡ context_hash))
    is_current_iff version exists_now state = (
      λ h. (
        ground arith,
        ==_sound _ _ (ground arith),
        ==_sound _ _ (ground arith),
        ==_sound _ _ (ground arith),
      ),
      λ (a, b, c, d). ground arith,
    )

    -- What the prior state makes of the plan.
    planned :
        (version : String) (exists_now : Bool) (prior : Option RuntimeImageState)
        → ((state : RuntimeImageState) × (plan_runtime_image_update context_hash runtime version
                exists_now prior
              ≡ refresh_state state version)
            × (prior ≡ some state)
            × (is_current context_hash runtime version exists_now state ≡ true))
          ⊎ ((plan_runtime_image_update context_hash runtime version exists_now prior
                ≡ rebuild version)
              × ((state : RuntimeImageState)
                  → prior ≡ some state
                  → is_current context_hash runtime version exists_now state ≡ false))
    unfolding plan_runtime_image_update
    planned version exists_now none = inr (refl, λ state p. cc)
    planned version exists_now (some state) =
        by_test (is_current context_hash runtime version exists_now state) refl
      where
        by_test :
            (passes : Bool)
            → is_current context_hash runtime version exists_now state ≡ passes
            → ((st : RuntimeImageState) × (plan_of version
                    (elim passes [ true ↦ some state | false ↦ none ])
                  ≡ refresh_state st version)
                × (some state ≡ some st)
                × (is_current context_hash runtime version exists_now st ≡ true))
              ⊎ ((plan_of version (elim passes [ true ↦ some state | false ↦ none ])
                    ≡ rebuild version)
                  × ((st : RuntimeImageState)
                      → some state ≡ some st
                      → is_current context_hash runtime version exists_now st ≡ false))
        by_test true e = inl (state, refl, refl, e)
        by_test false e = inr (
          refl,
          λ st p.
              subst (λ s. is_current context_hash runtime version exists_now s ≡ false)
                (one_value refl p) e,
        )

    -- Where the plan only refreshes the record.
    refreshed :
        (state : RuntimeImageState) (version : String) (s : State) (o : RuntimeImageUpdateOutcome)
        (t : State)
        → Yields (carry_out context_hash environment runtime (refresh_state state version)) s o t
        → (already_up_to_date image version ≡ o)
          × (now : ℕ) × (recorded t runtime ≡ some (with_latest_check state version now))
          × (images t ≡ images s)
    refreshed state version s o t h =
        let (now, read, n, h1) = bind-Yields environment.now_unix_seconds _ s o t h in
        let (_, written, w, h2) =
          bind-Yields (environment.write_state runtime (with_latest_check state version now)) _ read
            o t h1 in
        let (unchanged, _) = truthful.now_keeps s now read n in
        let (record_eq, keeps) =
          truthful.write_records runtime (with_latest_check state version now) read _ written w in
        let (same, last) = return-Yields (already_up_to_date image version) written o t h2 in
        (
          same,
          now,
          ap (λ u. recorded u runtime) (sym last) ∙ record_eq,
          ap images (sym last) ∙ keeps ∙ unchanged,
        )

    -- Where it builds.
    again-Built :
        (version : String) (s : State) (o : RuntimeImageUpdateOutcome) (t : State)
        → Yields (carry_out context_hash environment runtime (rebuild version)) s o t
        → (rebuilt image version ≡ o) × Built version s t
    again-Built version s o t h =
        let (u, built, b, h1) =
          bind-Yields
            (build_runtime_image_and_record_state context_hash environment runtime version) _ s o t
            h in
        let (same, last) = return-Yields (rebuilt image version) built o t h1 in
        (same, subst (Built version s) last (build-Built version s u built b))

    -- Either the image was current, nothing is built and only the record's check is new; or it was not
    -- current, and one build made it.
    abbrev Updated : RuntimeImageUpdateOutcome → State → State → Type 0
    Updated o s t =
        IsCurrent context_hash runtime (version_of o) t
        × (((images t ≡ images s)
              × (is_rebuilt o ≡ false)
              × IsCurrent context_hash runtime (version_of o) s)
            ⊎ (((images t).version_in image ≡ version_of o)
                × ((images t).builds ≡ (images s).builds + 1)
                × (is_rebuilt o ≡ true)
                × (IsCurrent context_hash runtime (version_of o) s → ⊥)))

    carried :
        (version : String) (exists_now : Bool) (prior : Option RuntimeImageState) (start s : State)
        (o : RuntimeImageUpdateOutcome) (t : State)
        → exists_now ≡ (images start).there image
        → prior ≡ recorded start runtime
        → images s ≡ images start
        → Yields
            (carry_out context_hash environment runtime
              (plan_runtime_image_update context_hash runtime version exists_now prior))
            s
            o
            t
        → Updated o start t
    unfolding with_latest_check
    carried version exists_now prior start s o t looked read kept h =
        elim (planned version exists_now prior) [
          | inl (state, plan, found, current) ↦
              let (same, now, record_eq, unchanged) =
                refreshed state version s o t (
                  subst (λ p. Yields (carry_out context_hash environment runtime p) s o t) plan
                    h) in
              let (exists_true, v, i, c) = (is_current_iff version exists_now state).0 current in
              let at_start : IsCurrent context_hash runtime version start =
                (sym looked ∙ exists_true, state, sym read ∙ found, v, i, c) in
              let all_same : images t ≡ images start = unchanged ∙ kept in
              subst (λ r. Updated r start t) same
                (
                  (
                    ap (λ k. k.there image) all_same ∙ sym looked ∙ exists_true,
                    with_latest_check state version now,
                    record_eq,
                    v,
                    i,
                    c,
                  ),
                  inl (all_same, refl, at_start),
                )
          | inr (plan, stale) ↦
              let (same, (current, version_eq, count)) =
                again-Built version s o t (
                  subst (λ p. Yields (carry_out context_hash environment runtime p) s o t) plan
                    h) in
              subst (λ r. Updated r start t) same
                (
                  current,
                  inr (
                    version_eq,
                    count ∙ ap (λ k. k.builds + 1) kept,
                    refl,
                    λ (there, state, found, v, i, c).
                        let passes =
                          (is_current_iff version exists_now state).1 (looked ∙ there, v, i, c) in
                        let fails = stale state (read ∙ found) in cc,
                  ),
                )
        ]

    updated :
        (s : State) (o : RuntimeImageUpdateOutcome) (t : State)
        → Yields (update_default_runtime_image_with context_hash environment runtime) s o t
        → Updated o s t
    unfolding update_default_runtime_image_with
    updated s o t h =
        let (version, a, r, h1) =
          bind-Yields (environment.resolve_latest_version (package_spec runtime).name) _ s o t h in
        let (exists_now, b, e, h2) = bind-Yields (environment.image_exists image) _ a o t h1 in
        let (prior, c, p, h3) = bind-Yields (environment.read_state runtime) _ b o t h2 in
        let (images_a, records_a) =
          truthful.resolve_keeps (package_spec runtime).name s version a r in
        let (looked, (images_b, records_b)) = truthful.image_exists_tells image a exists_now b e in
        let (read, (images_c, records_c)) = truthful.read_state_tells runtime b prior c p in
        carried version exists_now prior s c o t (looked ∙ ap (λ k. k.there image) images_a)
          (read ∙ records_b runtime ∙ records_a runtime) (images_c ∙ images_b ∙ images_a) h3

    -- If a record of the present default image names the version that the image contains, then after an
    -- update that succeeds the default image exists, its record is of the embedded context and of the
    -- version that the update reports, and the image contains that version.
    pub update_IsCurrent :
        (s : State) (o : RuntimeImageUpdateOutcome) (t : State)
        → IsRecordTrue context_hash runtime s
        → Yields (update_default_runtime_image_with context_hash environment runtime) s o t
        → IsCurrent context_hash runtime (version_of o) t
          × ((images t).version_in (default_image context_hash runtime) ≡ version_of o)
    update_IsCurrent s o t record_true h =
        let (current, how) = updated s o t h in
        (
          current,
          elim how [
            | inl (same, _, before) ↦
                ap (λ k. k.version_in image) same ∙ record_true (version_of o) before
            | inr (version_eq, _, _, _) ↦ version_eq
          ],
        )

    -- An update that succeeds builds no image exactly when, before it, the default image existed and its
    -- record was of the embedded context and of the version that the update reports; and it builds
    -- exactly one image when it reports that it built.
    pub update_rebuilds_iff :
        (s : State) (o : RuntimeImageUpdateOutcome) (t : State)
        → Yields (update_default_runtime_image_with context_hash environment runtime) s o t
        → (((images t).builds ≡ (images s).builds)
            ↔ IsCurrent context_hash runtime (version_of o) s)
          × ((is_rebuilt o ≡ true) ↔ ((images t).builds ≡ (images s).builds + 1))
    update_rebuilds_iff s o t h = elim (updated s o t h).1 [
      | inl (same, none_built, before) ↦
          let count : (images t).builds ≡ (images s).builds = ap (λ k. k.builds) same in
          ((λ _. before, λ _. count), (λ e. cc, λ e. absurd (omega arith)))
      | inr (_, count, built, not_before) ↦ (
        (λ e. absurd (omega arith), λ before. absurd (not_before before)),
        (λ _. count, λ _. built),
      )
    ]
