-- ===== src/Shared/Results.antt =====
-- Rust's `Result`, its `?` as a monad, and the combinators on `Option` that the source calls.
use mathlib.Core.Path.{◌≡◌, refl, sym, subst}
use mathlib.Core.Logic.{◌↔◌}
use mathlib.Core.Bool.{Bool, true, false}
use mathlib.Core.Option.{Option, none, some}

pub data Result {ℓ κ} (E : Type ℓ) (A : Type κ) : Type (ℓ ⊔ κ) where
  ok : A → Result E A
  err : E → Result E A

infixl 5 ◌>>=◌ ◌>>◌
abbrev pub ◌>>=◌ {ℓ κ μ} :
    {Failure : Type ℓ} {A : Type κ} {B : Type μ}
    → Result Failure A
    → (A → Result Failure B)
    → Result Failure B
err failure >>= continue = err failure
ok value >>= continue = continue value

-- `Option::ok_or`
abbrev pub ok_or {ℓ κ} : {E : Type ℓ} {A : Type κ} → Option A → E → Result E A
ok_or none e = err e
ok_or (some a) e = ok a

-- An early return with an error where the test fails.
abbrev pub require {ℓ} : {Failure : Type ℓ} → Bool → Failure → Result Failure (Unit {0})
require false failure = err failure
require true failure = ok tt

-- A statement whose value is dropped.
abbrev pub ◌>>◌ {ℓ κ μ} :
    {Failure : Type ℓ} {A : Type κ} {B : Type μ}
    → Result Failure A
    → Result Failure B
    → Result Failure B
first >> second = first >>= λ _. second

-- `Result::map_err`
abbrev pub map_err {ℓ κ μ} :
    {E : Type ℓ} {F : Type κ} {A : Type μ} → (E → F) → Result E A → Result F A
map_err f (ok a) = ok a
map_err f (err e) = err (f e)

-- `Result::ok`
abbrev pub to_option {ℓ κ} : {E : Type ℓ} {A : Type κ} → Result E A → Option A
to_option (ok a) = some a
to_option (err e) = none

-- `Result::err`
abbrev pub error_of {ℓ κ} : {E : Type ℓ} {A : Type κ} → Result E A → Option E
error_of (ok a) = none
error_of (err e) = some e

-- `Option::unwrap_or`
abbrev pub unwrap_or {ℓ} : {A : Type ℓ} → Option A → A → A
unwrap_or none a = a
unwrap_or (some b) a = b

-- `Option::or`
abbrev pub or_option {ℓ} : {A : Type ℓ} → Option A → Option A → Option A
or_option none b = b
or_option (some a) b = some a

-- `Option::map`
abbrev pub map_option {ℓ κ} : {A : Type ℓ} {B : Type κ} → (A → B) → Option A → Option B
map_option f none = none
map_option f (some a) = some (f a)

-- `Option::filter`
abbrev pub filter_option {ℓ} : {A : Type ℓ} → (A → Bool) → Option A → Option A
filter_option p none = none
filter_option p (some a) = elim (p a) [ true ↦ some a | false ↦ none ]

-- A chain that ends in a value went on from a value.
pub >>=-eq-ok {ℓ κ μ} :
    {Failure : Type ℓ} {A : Type κ} {B : Type μ} (first : Result Failure A)
    (next : A → Result Failure B) {last : B}
    → (first >>= next) ≡ ok last
    → (value : A) × (first ≡ ok value) × (next value ≡ ok last)
>>=-eq-ok (err failure) next h = cc
>>=-eq-ok (ok value) next h = (value, refl, h)

pub ok_or-eq-ok {ℓ κ} :
    {E : Type ℓ} {A : Type κ} (o : Option A) (e : E) {a : A} → ok_or o e ≡ ok a → o ≡ some a
ok_or-eq-ok none e h = cc
ok_or-eq-ok (some b) e h = cc

pub ok_injective {ℓ κ} :
    (Failure : Type ℓ) {A : Type κ} (a b : A) → ◌≡◌ {A = Result Failure A} (ok a) (ok b) → a ≡ b
ok_injective Failure a b h = cc

-- A result that is a value, whichever.
abbrev pub Succeeds {ℓ κ} : {Failure : Type ℓ} {A : Type κ} → Result Failure A → Type (ℓ ⊔ κ)
Succeeds {A} result = (value : A) × (result ≡ ok value)

pub Succeeds-require {ℓ κ} :
    {Failure : Type ℓ} {A : Type κ} (test : Bool) (failure : Failure) (rest : Result Failure A)
    → Succeeds (require test failure >> rest) ↔ ((test ≡ true) × Succeeds rest)
Succeeds-require true failure rest = (λ h. (refl, h), λ (t, h). h)
Succeeds-require false failure rest = (λ (a, h). cc, λ (t, h). cc)

pub Succeeds-bind {ℓ κ μ} :
    {Failure : Type ℓ} {A : Type κ} {B : Type μ} (first : Result Failure A)
    (next : A → Result Failure B)
    → Succeeds (first >>= next) ↔ ((value : A) × (first ≡ ok value) × Succeeds (next value))
Succeeds-bind (err failure) next = (λ (b, h). cc, λ (a, h, k). cc)
Succeeds-bind (ok value) next = (
  λ h. (value, refl, h),
  λ (other, same, h). subst (λ v. Succeeds (next v)) (ok_injective _ other value (sym same)) h,
)
