-- ===== src/DevEnv/Nearest.antt =====
-- The search for a file looks at the directories from the target up to the git root, and no further.
use mathlib.Core.List.{append_assoc}
use agentbox_nix.Shared.{
  ◌≡◌, ◌≢◌, refl, sym, ap, subst, ◌∙◌, String, Bool, true, false, Option, none, some, List, [], ◌∷◌,
  ◌++◌, length, length-append, find, All, arith, Bool-cases, inl, inr, >>=-eq-ok, Result, ok,
  if◌then◌else◌,
}
use agentbox_nix.Errors.{Error}
use agentbox_nix.Paths.{Component, root_dir, cur_dir, parent_dir, normal, path_key}
use agentbox_nix.Paths.Laws.{key_order, path_key_injective}
use agentbox_nix.DevEnv.{
  Directory, same_directory, is_root, ancestors, until_root, ancestor_directories, Surroundings,
  nearest_file, detect, resolve_with_probe, by_envrc, by_flake, try_attrs, first_shell,
  nix_develop_candidate_attrs, DevEnvironment, devenv, resolve_nix_develop,
}

same_directory_refl : (d : Directory) → same_directory d d ≡ true
same_directory_refl d = ground (arith, key_order.same (path_key d))

same_directory_sound : (d e : Directory) → same_directory d e ≡ true → d ≡ e
same_directory_sound d e h =
    path_key_injective d e (key_order.eq_sound (path_key d) (path_key e) (ground arith))

longer_differs :
    (x : Component) (xs git_root : Directory)
    → same_directory (x ∷ (xs ++ git_root)) git_root ≡ false
longer_differs x xs git_root = elim (Bool-cases (same_directory (x ∷ (xs ++ git_root)) git_root)) [
  | inl same ↦
      let equal : (x ∷ (xs ++ git_root)) ≡ git_root =
        same_directory_sound (x ∷ (xs ++ git_root)) git_root same in
      absurd (omega (arith, ap length equal, length-append xs git_root))
  | inr differ ↦ differ
]

inner-ne-root :
    (x : Component) (xs : Directory) (c : Component) (cs : Directory)
    → is_root x (xs ++ (c ∷ cs)) ≡ false
inner-ne-root root_dir [] c cs = refl
inner-ne-root root_dir (y ∷ ys) c cs = refl
inner-ne-root cur_dir xs c cs = refl
inner-ne-root parent_dir xs c cs = refl
inner-ne-root (normal s) xs c cs = refl

-- The directories from one below the git root up to the git root.
abbrev pub up_to_root : Directory → Directory → List Directory
up_to_root [] git_root = git_root ∷ []
up_to_root (x ∷ xs) git_root = (x ∷ (xs ++ git_root)) ∷ up_to_root xs git_root

-- The directories below another one, which it leaves out.
abbrev pub nearer : Directory → Directory → List Directory
nearer [] above = []
nearer (x ∷ xs) above = (x ∷ (xs ++ above)) ∷ nearer xs above

ancestor_directories_lem :
    (xs : Directory) (c : Component) (cs : Directory)
    → ancestor_directories (xs ++ (c ∷ cs)) (c ∷ cs) ≡ up_to_root xs (c ∷ cs)
unfolding ancestor_directories ancestors until_root
ancestor_directories_lem [] c cs = rw (same_directory_refl (c ∷ cs)) refl
ancestor_directories_lem (x ∷ xs) c cs = rw (inner-ne-root x xs c cs) (
    rw (longer_differs x xs (c ∷ cs))
      (ap (λ ds. (x ∷ (xs ++ (c ∷ cs))) ∷ ds) (ancestor_directories_lem xs c cs)))

module _ (has : Directory → Bool) (git_root : Directory) where
  -- Nothing was found between the target and the git root, or the first that there is.
  abbrev pub IsNearest : Directory → Option Directory → Type 0
  IsNearest xs none = All (λ e. has e ≡ false) (up_to_root xs git_root)
  IsNearest xs (some d) =
      (below above : Directory) × (xs ≡ below ++ above)
      × (d ≡ above ++ git_root)
      × (has d ≡ true)
      × All (λ e. has e ≡ false) (nearer below (above ++ git_root))

  abbrev searched : Directory → Option Directory
  searched xs = find has (up_to_root xs git_root)

  further :
      (x : Component) (xs : Directory) (o : Option Directory)
      → has (x ∷ (xs ++ git_root)) ≡ false
      → IsNearest xs o
      → IsNearest (x ∷ xs) o
  further x xs none h nothing = (h, nothing)
  further x xs (some d) h (below, above, split, place, there, passed) =
      let deeper : xs ++ git_root ≡ below ++ (above ++ git_root) =
        ap (λ ys. ys ++ git_root) split ∙ append_assoc below above git_root in
      (
        x ∷ below,
        above,
        ap (λ ys. x ∷ ys) split,
        place,
        there,
        (ap (λ ys. has (x ∷ ys)) (sym deeper) ∙ h, passed),
      )

  find-IsNearest : (xs : Directory) → IsNearest xs (searched xs)
  find-IsNearest [] = at_root (has git_root) refl
    where
      at_root : (b : Bool) → has git_root ≡ b → IsNearest [] (if b then some git_root else none)
      at_root true e = ([], [], refl, refl, e, tt)
      at_root false e = (e, tt)
  find-IsNearest (x ∷ xs) = step (has (x ∷ (xs ++ git_root))) refl (searched xs) (find-IsNearest xs)
    where
      step :
          (b : Bool)
          → has (x ∷ (xs ++ git_root)) ≡ b
          → (o : Option Directory) → IsNearest xs o
          → IsNearest (x ∷ xs) (if b then some (x ∷ (xs ++ git_root)) else o)
      step true e o later = ([], x ∷ xs, refl, refl, e, tt)
      step false e o later = further x xs o e later

-- For a target at or below a git root that is not empty: the search for a file finds the directory that is
-- nearest to the target among those from the target up to the git root that have the file, and finds
-- none only when none of these has it.
pub nearest_file-IsNearest :
    (host : Surroundings) (xs : Directory) (c : Component) (cs : Directory) (filename : String)
    → IsNearest
        (λ d. host.is_file d filename)
        (c ∷ cs)
        xs
        (nearest_file host (xs ++ (c ∷ cs)) (c ∷ cs) filename)
unfolding nearest_file
nearest_file-IsNearest host xs c cs filename =
    subst
      (λ ds.
        IsNearest (λ d. host.is_file d filename) (c ∷ cs) xs
          (find (λ d. host.is_file d filename) ds))
      (sym (ancestor_directories_lem xs c cs))
      (find-IsNearest (λ d. host.is_file d filename) (c ∷ cs) xs)

module _ (host : Surroundings) where
  first_shell-ne-devenv :
      (flake_root : Directory) (attr : String) (there : Bool) (rest : Result Error DevEnvironment)
      (d : Directory)
      → rest ≢ ok (devenv d)
      → first_shell host flake_root attr there rest ≢ ok (devenv d)
  first_shell-ne-devenv flake_root attr true rest d later h = cc
  first_shell-ne-devenv flake_root attr false rest d later h = later h

  try_attrs-ne-devenv :
      (flake_root : Directory) (attrs : List String) (d : Directory)
      → try_attrs host flake_root attrs ≢ ok (devenv d)
  unfolding try_attrs
  try_attrs-ne-devenv flake_root [] d h = cc
  try_attrs-ne-devenv flake_root (attr ∷ attrs) d h =
      let (there, probed, next) = >>=-eq-ok (host.dev_shell_exists flake_root attr) _ h in
      first_shell-ne-devenv flake_root attr there (try_attrs host flake_root attrs) d
        (try_attrs-ne-devenv flake_root attrs d) next

  by_flake-ne-devenv :
      (target : Directory) (flake : Option Directory) (d : Directory)
      → by_flake host target flake ≢ ok (devenv d)
  unfolding resolve_nix_develop
  by_flake-ne-devenv target none d h = cc
  by_flake-ne-devenv target (some flake_root) d h =
      try_attrs-ne-devenv flake_root (nix_develop_candidate_attrs target flake_root) d h

-- A devenv environment is taken from the nearest devenv.nix from the target up to the git root, and only
-- where none of these directories has an .envrc, for a target at or below a git root that is not empty.
pub resolve-devenv :
    (host : Surroundings) (xs : Directory) (c : Component) (cs : Directory) (d : Directory)
    → resolve_with_probe host (detect host (xs ++ (c ∷ cs)) (c ∷ cs)) (xs ++ (c ∷ cs))
      ≡ ok (devenv d)
    → All (λ e. host.is_file e ".envrc" ≡ false) (up_to_root xs (c ∷ cs))
      × IsNearest (λ e. host.is_file e "devenv.nix") (c ∷ cs) xs (some d)
unfolding resolve_with_probe detect
resolve-devenv host xs c cs d h =
    by_files (nearest_file host (xs ++ (c ∷ cs)) (c ∷ cs) ".envrc")
      (nearest_file host (xs ++ (c ∷ cs)) (c ∷ cs) "devenv.nix")
      (nearest_file-IsNearest host xs c cs ".envrc")
      (nearest_file-IsNearest host xs c cs "devenv.nix") h
  where
    by_files :
        (envrc root : Option Directory)
        → IsNearest (λ e. host.is_file e ".envrc") (c ∷ cs) xs envrc
        → IsNearest (λ e. host.is_file e "devenv.nix") (c ∷ cs) xs root
        → by_envrc host
            (xs ++ (c ∷ cs))
            envrc
            root
            (nearest_file host (xs ++ (c ∷ cs)) (c ∷ cs) "flake.nix")
          ≡ ok (devenv d)
        → All (λ e. host.is_file e ".envrc" ≡ false) (up_to_root xs (c ∷ cs))
          × IsNearest (λ e. host.is_file e "devenv.nix") (c ∷ cs) xs (some d)
    by_files (some e) root n m k = cc
    by_files none (some e) n m k = (
      n,
      subst (λ r. IsNearest (λ f. host.is_file f "devenv.nix") (c ∷ cs) xs (some r)) (ground arith)
          m,
    )
    by_files none none n m k = absurd (
        by_flake-ne-devenv host (xs ++ (c ∷ cs))
          (nearest_file host (xs ++ (c ∷ cs)) (c ∷ cs) "flake.nix") d k)
