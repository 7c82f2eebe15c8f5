-- ===== src/Lock/Protocol/Exclusion.antt =====
-- Two processes never hold the guard of one workspace, as long as at most one process removes files.
use agentbox_nix.Shared.{
  ℕ, Bool, true, false, Option, none, some, ◌≡◌, ◌≢◌, ◌⊎◌, inl, inr, refl, sym, ◌∙◌, ap, eqb, arith,
  Bool-cases,
}
use agentbox_nix.Lock.Protocol.{
  Stage, idle, opened, locked, guarded, found, looking, removing, World, held,
  lock_file_still_at_path, checked, set_stage, move, Step, create, open_there, acquire, check,
  find_existing, look, try_remove, remove_file, leave, Reach, here, next, quiet,
}

-- A stage that a process is in only while its file is at the path: it has a guard, or it is the one
-- that removes files.
abbrev anchored : (may_clean : Bool) → Stage → Option ℕ
anchored may_clean idle = none
anchored may_clean (opened file) = none
anchored may_clean (locked file) = none
anchored may_clean (guarded file) = some file
anchored true (found file) = some file
anchored false (found file) = none
anchored may_clean (looking file) = none
anchored may_clean (removing file) = some file

-- No two processes hold one file.
abbrev OneHolder : (ℕ → Stage) → Type 0
OneHolder stages =
    (p q file : ℕ) → held (stages p) ≡ some file → held (stages q) ≡ some file → p ≡ q

abbrev InPlace : (ℕ → Bool) → World → Type 0
InPlace may_clean w =
    (p file : ℕ) → anchored (may_clean p) (w.stage p) ≡ some file → w.at_path ≡ some file

abbrev Removers : (ℕ → Bool) → (ℕ → Stage) → Type 0
Removers may_clean stages = (p file : ℕ) → stages p ≡ removing file → may_clean p ≡ true

record IsSafe (may_clean : ℕ → Bool) (w : World) : Type 0 where
  one_holder : OneHolder w.stage
  in_place : InPlace may_clean w
  removers : Removers may_clean w.stage

eqb_sound : (p q : ℕ) → eqb p q ≡ true → p ≡ q
eqb_sound p q h = ground arith

-- A process may take a stage whose lock, if it has one, is held by no other process.
set_stage-OneHolder :
    (stages : ℕ → Stage) (p : ℕ) (stage : Stage)
    → OneHolder stages
    → ((q file : ℕ) → held stage ≡ some file → held (stages q) ≡ some file → q ≡ p)
    → OneHolder (set_stage p stage stages)
set_stage-OneHolder stages p stage one free q r file h k =
    ground (arith, one q r file, free q file, free r file)

set_stage-Removers :
    (may_clean : ℕ → Bool) (stages : ℕ → Stage) (p : ℕ) (stage : Stage)
    → Removers may_clean stages
    → ((file : ℕ) → stage ≡ removing file → may_clean p ≡ true)
    → Removers may_clean (set_stage p stage stages)
set_stage-Removers may_clean stages p stage all_may may q file h =
    ground (arith, all_may q file, may file)

-- A move leaves the path alone.
move-InPlace :
    (may_clean : ℕ → Bool) (w : World) (p : ℕ) (stage : Stage)
    → InPlace may_clean w
    → ((file : ℕ) → anchored (may_clean p) stage ≡ some file → w.at_path ≡ some file)
    → InPlace may_clean (move p stage w)
move-InPlace may_clean w p stage placed place q file h = elim (Bool-cases (eqb p q)) [
  | inl same ↦ place file (ground arith)
  | inr other ↦ placed q file (ground arith)
]

move-IsSafe :
    (may_clean : ℕ → Bool) (w : World) (p : ℕ) (stage : Stage)
    → IsSafe may_clean w
    → ((q file : ℕ) → held stage ≡ some file → held (w.stage q) ≡ some file → q ≡ p)
    → ((file : ℕ) → anchored (may_clean p) stage ≡ some file → w.at_path ≡ some file)
    → ((file : ℕ) → stage ≡ removing file → may_clean p ≡ true)
    → IsSafe may_clean (move p stage w)
move-IsSafe may_clean w p stage safe free place may = record {
  one_holder = set_stage-OneHolder w.stage p stage safe.one_holder free;
  in_place = move-InPlace may_clean w p stage safe.in_place place;
  removers = set_stage-Removers may_clean w.stage p stage safe.removers may;
}

checked-held :
    (file : ℕ) (at_path : Option ℕ) (other : ℕ)
    → held (checked file at_path) ≡ some other
    → file ≡ other
unfolding checked lock_file_still_at_path
checked-held file none other h = cc
checked-held file (some f) other h = ground arith

checked-anchored :
    (may : Bool) (file : ℕ) (at_path : Option ℕ) (other : ℕ)
    → anchored may (checked file at_path) ≡ some other
    → at_path ≡ some other
unfolding checked lock_file_still_at_path
checked-anchored may file none other h = cc
checked-anchored may file (some f) other h = ground arith

checked-ne-removing :
    (file : ℕ) (at_path : Option ℕ) (other : ℕ) → checked file at_path ≢ removing other
unfolding checked lock_file_still_at_path
checked-ne-removing file none other h = cc
checked-ne-removing file (some f) other h = ground arith

anchored-found :
    (may : Bool) (file other : ℕ) → anchored may (found file) ≡ some other → file ≡ other
anchored-found true file other h = cc
anchored-found false file other h = cc

-- An anchored process holds its file, or may remove files.
anchored-cases :
    (may : Bool) (stage : Stage) (file : ℕ)
    → anchored may stage ≡ some file
    → (held stage ≡ some file) ⊎ (may ≡ true)
anchored-cases may idle file h = cc
anchored-cases may (opened f) file h = cc
anchored-cases may (locked f) file h = cc
anchored-cases may (guarded f) file h = inl h
anchored-cases true (found f) file h = inr refl
anchored-cases false (found f) file h = cc
anchored-cases may (looking f) file h = cc
anchored-cases may (removing f) file h = inl h

-- A guard stands for a lock that the process already has, on the file at the path.
check-IsSafe :
    (may_clean : ℕ → Bool) (w : World) (p file : ℕ)
    → IsSafe may_clean w
    → w.stage p ≡ locked file
    → IsSafe may_clean (move p (checked file w.at_path) w)
unfolding checked lock_file_still_at_path
check-IsSafe may_clean w p file safe at =
    move-IsSafe may_clean w p (checked file w.at_path) safe
      (λ q other h k.
        safe.one_holder q p other k (ap held at ∙ ap some (checked-held file w.at_path other h)))
      (λ other h. checked-anchored (may_clean p) file w.at_path other h)
      (λ other h. absurd (checked-ne-removing file w.at_path other h))

quiet-IsSafe : (may_clean : ℕ → Bool) (at_path : Option ℕ) → IsSafe may_clean (quiet at_path)
quiet-IsSafe may_clean at_path = record {
  one_holder = λ p q file h k. cc;
  in_place = λ p file h. cc;
  removers = λ p file h. cc;
}

module _ (may_clean : ℕ → Bool) (cleaner : ℕ)
    (only : (p : ℕ) → may_clean p ≡ true → p ≡ cleaner) where
  -- While a process is about to remove a file, no other process is anchored.
  lone :
      (w : World) (p q file other : ℕ)
      → IsSafe may_clean w
      → w.stage p ≡ removing file
      → anchored (may_clean q) (w.stage q) ≡ some other
      → q ≡ p
  lone w p q file other safe at h = elim (anchored-cases (may_clean q) (w.stage q) other h) [
    | inl holds ↦
        let mine : w.at_path ≡ some file = safe.in_place p file (ap (anchored (may_clean p)) at) in
        let same : some other ≡ some file = sym (safe.in_place q other h) ∙ mine in
        safe.one_holder q p file (holds ∙ same) (ap held at)
    | inr may ↦ only q may ∙ sym (only p (safe.removers p file at))
  ]

  create-IsSafe :
      (w : World) (p file : ℕ)
      → IsSafe may_clean w
      → w.at_path ≡ none
      → IsSafe may_clean (record { at_path = some file; stage = set_stage p (opened file) w.stage })
  create-IsSafe w p file safe gone = record {
    one_holder = set_stage-OneHolder w.stage p (opened file) safe.one_holder (λ q other h k. cc);
    in_place = λ q other h. elim (Bool-cases (eqb p q)) [
      | inl same ↦ ground arith
      | inr differ ↦ ground (arith, safe.in_place q other)
    ];
    removers = set_stage-Removers may_clean w.stage p (opened file) safe.removers (λ other h. cc);
  }

  remove-IsSafe :
      (w : World) (p file : ℕ)
      → IsSafe may_clean w
      → w.stage p ≡ removing file
      → IsSafe may_clean (record { at_path = none; stage = set_stage p idle w.stage })
  remove-IsSafe w p file safe at = record {
    one_holder = set_stage-OneHolder w.stage p idle safe.one_holder (λ q other h k. cc);
    in_place = λ q other h. elim (Bool-cases (eqb p q)) [
      | inl same ↦ cc
      | inr differ ↦ absurd (ground (arith, lone w p q file other safe at (ground arith)))
    ];
    removers = set_stage-Removers may_clean w.stage p idle safe.removers (λ other h. cc);
  }

  Step-IsSafe : {w v : World} → Step may_clean w v → IsSafe may_clean w → IsSafe may_clean v
  Step-IsSafe {w} (create p file at gone fresh) safe = create-IsSafe w p file safe gone
  Step-IsSafe {w} (open_there p file at there) safe =
      move-IsSafe may_clean w p (opened file) safe (λ q other h k. cc) (λ other h. cc)
        (λ other h. cc)
  Step-IsSafe {w} (acquire p file at free) safe =
      move-IsSafe may_clean w p (locked file) safe (λ q other h k. absurd (free q (k ∙ sym h)))
        (λ other h. cc) (λ other h. cc)
  Step-IsSafe {w} (check p file at) safe = check-IsSafe may_clean w p file safe at
  Step-IsSafe {w} (find_existing p file at there) safe =
      move-IsSafe may_clean w p (found file) safe (λ q other h k. cc)
        (λ other h. there ∙ ap some (anchored-found (may_clean p) file other h)) (λ other h. cc)
  Step-IsSafe {w} (look p file at free) safe =
      move-IsSafe may_clean w p (looking file) safe (λ q other h k. absurd (free q (k ∙ sym h)))
        (λ other h. cc) (λ other h. cc)
  Step-IsSafe {w} (try_remove p file may at free) safe =
      move-IsSafe may_clean w p (removing file) safe (λ q other h k. absurd (free q (k ∙ sym h)))
        (λ other h. safe.in_place p other (rw (at, may) h)) (λ other h. may)
  Step-IsSafe {w} (remove_file p file at) safe = remove-IsSafe w p file safe at
  Step-IsSafe {w} (leave p) safe =
      move-IsSafe may_clean w p idle safe (λ q other h k. cc) (λ other h. cc) (λ other h. cc)

  Reach-IsSafe :
      {start w : World} → IsSafe may_clean start → Reach may_clean start w → IsSafe may_clean w
  Reach-IsSafe safe here = safe
  Reach-IsSafe safe (next reached step) = Step-IsSafe step (Reach-IsSafe safe reached)

  -- If at most one process removes lock files, then whatever the processes do from a world where none
  -- has the file open, and in whatever order, no two processes have a guard at once.
  pub one_guard :
      (at_path : Option ℕ) (w : World) (p q f g : ℕ)
      → Reach may_clean (quiet at_path) w
      → w.stage p ≡ guarded f
      → w.stage q ≡ guarded g
      → p ≡ q
  one_guard at_path w p q f g reached at_p at_q =
      let safe = Reach-IsSafe (quiet-IsSafe may_clean at_path) reached in
      let place_p = safe.in_place p f (ap (anchored (may_clean p)) at_p) in
      let place_q = safe.in_place q g (ap (anchored (may_clean q)) at_q) in
      safe.one_holder p q f (ap held at_p) (ap held at_q ∙ sym place_q ∙ place_p)
