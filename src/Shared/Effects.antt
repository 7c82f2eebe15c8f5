-- ===== src/Shared/Effects.antt =====
-- Code that changes a state and may fail, for do blocks. An error keeps the state that it leaves.
use mathlib.Core.Path.{◌≡◌, refl, ap}
use agentbox_nix.Shared.Results.{Result, ok, err, ok_injective}

abbrev pub Run : (Failure State A : Type 0) → Type 0
Run Failure State A = State → Result Failure A × State

abbrev pub continue_with :
    {Failure State A B : Type 0}
    → Result Failure A × State
    → (A → Run Failure State B)
    → Result Failure B × State
continue_with (ok a, s) f = f a s
continue_with (err e, s) f = (err e, s)

infixl 5 ◌>>=◌ ◌>>◌
abbrev pub ◌>>=◌ :
    {Failure State A B : Type 0}
    → Run Failure State A
    → (A → Run Failure State B)
    → Run Failure State B
◌>>=◌ m f s = continue_with (m s) f

abbrev pub ◌>>◌ :
    {Failure State A B : Type 0} → Run Failure State A → Run Failure State B → Run Failure State B
m >> k = m >>= λ _. k

abbrev pub return : {Failure State A : Type 0} → A → Run Failure State A
return a s = (ok a, s)

-- `Err(error)`
abbrev pub raise : {Failure State A : Type 0} → Failure → Run Failure State A
raise e s = (err e, s)

-- A pure result.
abbrev pub lift : {Failure State A : Type 0} → Result Failure A → Run Failure State A
lift result s = (result, s)

-- `match` on a result: neither case ends the function by itself.
abbrev pub inspect_result :
    {Failure State A B : Type 0}
    → Result Failure A × State
    → (Failure → Run Failure State B)
    → (A → Run Failure State B)
    → Result Failure B × State
inspect_result (ok a, s) failed succeeded = succeeded a s
inspect_result (err e, s) failed succeeded = failed e s

abbrev pub attempt :
    {Failure State A B : Type 0}
    → Run Failure State A
    → (Failure → Run Failure State B)
    → (A → Run Failure State B)
    → Run Failure State B
attempt m failed succeeded s = inspect_result (m s) failed succeeded

-- The code returns a value in a last state.
abbrev pub Yields : {Failure State A : Type 0} → Run Failure State A → State → A → State → Type 0
Yields m s a t = m s ≡ (ok a, t)

continue-Yields :
    {Failure State A B : Type 0} (outcome : Result Failure A × State) (f : A → Run Failure State B)
    (b : B) (t : State)
    → continue_with outcome f ≡ (ok b, t)
    → (a : A) × (u : State) × (outcome ≡ (ok a, u)) × Yields (f a) u b t
continue-Yields (ok a, u) f b t h = (a, u, refl, h)
continue-Yields (err e, u) f b t h = cc

pub bind-Yields :
    {Failure State A B : Type 0} (m : Run Failure State A) (f : A → Run Failure State B) (s : State)
    (b : B) (t : State)
    → Yields (m >>= f) s b t
    → (a : A) × (u : State) × Yields m s a u × Yields (f a) u b t
bind-Yields m f s b t h = continue-Yields (m s) f b t h

pub return-Yields :
    {Failure State A : Type 0} (a : A) (s : State) (b : A) (t : State)
    → Yields {Failure = Failure} (return a) s b t
    → (a ≡ b) × (s ≡ t)
return-Yields {Failure} a s b t h = (ok_injective Failure a b (ap (λ o. o.0) h), ap (λ o. o.1) h)
