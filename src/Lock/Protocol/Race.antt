-- ===== src/Lock/Protocol/Race.antt =====
-- Where two processes remove files, both can have a guard: `remove_cleanup_lock_file` does not ask
-- whether the file that it has locked still stands at the path.
use mathlib.Core.Path.{fun_ext}
use agentbox_nix.Shared.{
  ℕ, suc, Bool, true, false, Option, none, some, ◌≡◌, ◌≢◌, refl, subst, sym, eqb, arith,
  if◌then◌else◌,
}
use agentbox_nix.Lock.Protocol.{
  Stage, idle, opened, locked, guarded, found, removing, World, held, open_file,
  lock_file_still_at_path, checked, set_stage, move, Step, create, acquire, check, find_existing,
  try_remove, remove_file, Reach, here, next, quiet,
}

-- The stages of two processes, where all others are idle.
abbrev pair : ℕ → ℕ → Stage → Stage → ℕ → Stage
pair c d sc sd q = if eqb c q then sc else if eqb d q then sd else idle

module _ (may_clean : ℕ → Bool) (c d : ℕ) (differ : c ≢ d) where
  abbrev world : Option ℕ → Stage → Stage → World
  world at_path sc sd = record { at_path = at_path; stage = pair c d sc sd }

  at_c : (sc sd : Stage) → pair c d sc sd c ≡ sc
  at_c sc sd = ground arith

  at_d : (sc sd : Stage) → pair c d sc sd d ≡ sd
  at_d sc sd = ground arith

  set_c : (s sc sd : Stage) → set_stage c s (pair c d sc sd) ≡ pair c d s sd
  set_c s sc sd = fun_ext (λ q. ground arith)

  set_d : (s sc sd : Stage) → set_stage d s (pair c d sc sd) ≡ pair c d sc s
  set_d s sc sd = fun_ext (λ q. ground arith)

  -- A property of the two stages and of `idle` holds of every stage.
  every {ℓ} :
      (P : Stage → Type ℓ) (sc sd : Stage) → P idle → P sc → P sd → (q : ℕ) → P (pair c d sc sd q)
  every P sc sd pi pc pd q =
      elim (eqb c q) as (λ b. P (if b then sc else if eqb d q then sd else idle)) [
        | true ↦ pc
        | false ↦ elim (eqb d q) as (λ b. P (if b then sd else idle)) [ true ↦ pd | false ↦ pi ]
      ]

  abbrev Goes : World → World → Type 0
  Goes = Step may_clean

  by_c :
      (at_path at_path' : Option ℕ) (sc sd s : Stage)
      → Goes
          (world at_path sc sd)
          (record { at_path = at_path'; stage = set_stage c s (pair c d sc sd) })
      → Goes (world at_path sc sd) (world at_path' s sd)
  by_c at_path at_path' sc sd s step =
      subst (λ st. Goes (world at_path sc sd) (record { at_path = at_path'; stage = st }))
        (set_c s sc sd) step

  by_d :
      (at_path at_path' : Option ℕ) (sc sd s : Stage)
      → Goes
          (world at_path sc sd)
          (record { at_path = at_path'; stage = set_stage d s (pair c d sc sd) })
      → Goes (world at_path sc sd) (world at_path' sc s)
  by_d at_path at_path' sc sd s step =
      subst (λ st. Goes (world at_path sc sd) (record { at_path = at_path'; stage = st }))
        (set_d s sc sd) step

  start_world : (at_path : Option ℕ) → quiet at_path ≡ world at_path idle idle
  start_world at_path = λ i. record {
    at_path = at_path;
    stage = fun_ext {f = λ _. idle} {g = pair c d idle idle} (λ q. ground arith) i;
  }

  suc-ne : (f : ℕ) → ◌≢◌ {A = Option ℕ} (some (suc f)) (some f)
  suc-ne f h = absurd (ground arith)

  checked_self : (f : ℕ) → checked f (some f) ≡ guarded f
  unfolding checked lock_file_still_at_path
  checked_self f = ground arith

  c_checks :
      (f : ℕ) (sd : Stage) → Goes (world (some f) (locked f) sd) (world (some f) (guarded f) sd)
  c_checks f sd = by_c (some f) (some f) (locked f) sd (guarded f) (
      subst (λ s. Goes (world (some f) (locked f) sd) (move c s (world (some f) (locked f) sd)))
        (checked_self f) (check c f (at_c (locked f) sd)))

  d_checks :
      (f : ℕ) (sc : Stage) → Goes (world (some f) sc (locked f)) (world (some f) sc (guarded f))
  d_checks f sc = by_d (some f) (some f) sc (locked f) (guarded f) (
      subst (λ s. Goes (world (some f) sc (locked f)) (move d s (world (some f) sc (locked f))))
        (checked_self f) (check d f (at_d sc (locked f))))

  module _ (c_may : may_clean c ≡ true) (d_may : may_clean d ≡ true) (f : ℕ) where
    -- Both find the file; one removes it, creates another, and gets a guard.
    first_guard :
        Reach may_clean (quiet (some f)) (world (some (suc f)) (found f) (guarded (suc f)))
    first_guard =
        next
          (next (next (next (next (next (next start c_finds) d_finds) d_locks) d_removes) d_creates)
            d_acquires)
          (d_checks (suc f) (found f))
      where
        start : Reach may_clean (quiet (some f)) (world (some f) idle idle)
        start = subst (Reach may_clean (quiet (some f))) (start_world (some f)) here

        c_finds : Goes (world (some f) idle idle) (world (some f) (found f) idle)
        c_finds = by_c _ _ _ _ (found f) (find_existing c f (at_c idle idle) refl)

        d_finds : Goes (world (some f) (found f) idle) (world (some f) (found f) (found f))
        d_finds = by_d _ _ _ _ (found f) (find_existing d f (at_d (found f) idle) refl)

        d_locks : Goes (world (some f) (found f) (found f)) (world (some f) (found f) (removing f))
        d_locks = by_d _ _ _ _ (removing f) (
            try_remove d f d_may (at_d (found f) (found f))
              (every (λ s. held s ≢ some f) (found f) (found f) (λ h. cc) (λ h. cc) (λ h. cc)))

        d_removes : Goes (world (some f) (found f) (removing f)) (world none (found f) idle)
        d_removes = by_d _ _ _ _ idle (remove_file d f (at_d (found f) (removing f)))

        d_creates :
            Goes (world none (found f) idle) (world (some (suc f)) (found f) (opened (suc f)))
        d_creates = by_d _ _ _ _ (opened (suc f)) (
            create d (suc f) (at_d (found f) idle) refl (
              every (λ s. open_file s ≢ some (suc f)) (found f) idle (λ h. cc)
                (λ h. suc-ne f (sym h)) (λ h. cc)))

        d_acquires :
            Goes
              (world (some (suc f)) (found f) (opened (suc f)))
              (world (some (suc f)) (found f) (locked (suc f)))
        d_acquires = by_d _ _ _ _ (locked (suc f)) (
            acquire d (suc f) (at_d (found f) (opened (suc f))) (
              every (λ s. held s ≢ some (suc f)) (found f) (opened (suc f)) (λ h. cc) (λ h. cc)
                (λ h. cc)))

    -- The other then removes the new file under the guard, and gets a guard of its own.
    both_guards : Reach may_clean (quiet (some f)) (world (some f) (guarded f) (guarded (suc f)))
    both_guards =
        next (next (next (next (next first_guard c_locks) c_removes) c_creates) c_acquires)
          (c_checks f (guarded (suc f)))
      where
        c_locks :
            Goes
              (world (some (suc f)) (found f) (guarded (suc f)))
              (world (some (suc f)) (removing f) (guarded (suc f)))
        c_locks = by_c _ _ _ _ (removing f) (
            try_remove c f c_may (at_c (found f) (guarded (suc f))) (
              every (λ s. held s ≢ some f) (found f) (guarded (suc f)) (λ h. cc) (λ h. cc)
                (suc-ne f)))

        c_removes :
            Goes
              (world (some (suc f)) (removing f) (guarded (suc f)))
              (world none idle (guarded (suc f)))
        c_removes = by_c _ _ _ _ idle (remove_file c f (at_c (removing f) (guarded (suc f))))

        c_creates :
            Goes (world none idle (guarded (suc f))) (world (some f) (opened f) (guarded (suc f)))
        c_creates = by_c _ _ _ _ (opened f) (
            create c f (at_c idle (guarded (suc f))) refl (
              every (λ s. open_file s ≢ some f) idle (guarded (suc f)) (λ h. cc) (λ h. cc)
                (suc-ne f)))

        c_acquires :
            Goes
              (world (some f) (opened f) (guarded (suc f)))
              (world (some f) (locked f) (guarded (suc f)))
        c_acquires = by_c _ _ _ _ (locked f) (
            acquire c f (at_c (opened f) (guarded (suc f))) (
              every (λ s. held s ≢ some f) (opened f) (guarded (suc f)) (λ h. cc) (λ h. cc)
                (suc-ne f)))

    -- If two different processes may remove lock files, then from a lock file that nobody has open a
    -- world is reached in which both of them have a guard of the one workspace.
    pub two_guards :
        (w : World) × Reach may_clean (quiet (some f)) w
        × (w.stage c ≡ guarded f)
        × (w.stage d ≡ guarded (suc f))
    two_guards = (
      world (some f) (guarded f) (guarded (suc f)),
      both_guards,
      at_c (guarded f) (guarded (suc f)),
      at_d (guarded f) (guarded (suc f)),
    )
