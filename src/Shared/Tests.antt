-- ===== src/Shared/Tests.antt =====
-- Boolean tests on numbers and texts, the conditional, and the case splits that proofs make.
use Prim.Native.Nat.{ℕ, compare, Ordering}
use Prim.Native.String.{String}
use mathlib.Core.Path.{◌≡◌, refl}
use mathlib.Core.Logic.{◌⊎◌, inl, inr, ite, dite}
use mathlib.Core.Bool.{Bool, true, false, cond, Bool-discrete}
use mathlib.Core.Option.{Option, none, some}
use native.Mathlib.Omega.{arith}
use text.Mathlib.Text
use text.Mathlib.TextEquality.{eq_iff}

infix 1 if◌then◌else◌
abbrev pub if◌then◌else◌ {ℓ} : {A : Type ℓ} → Bool → A → A → A
if b then x else y = cond b x y

abbrev pub ltb : ℕ → ℕ → Bool
ltb a b = elim (compare a b) [ Ordering.lt ↦ true | _ ↦ false ]

abbrev pub leb : ℕ → ℕ → Bool
leb a b = elim (compare a b) [ Ordering.gt ↦ false | _ ↦ true ]

abbrev pub eqb : ℕ → ℕ → Bool
eqb a b = elim (compare a b) [ Ordering.eq ↦ true | _ ↦ false ]

-- Shut in proofs, where a split on `s == t` gives the equation or its negation.
unfoldable pub string_discrete : Discrete String
string_discrete s t =
    dite (Bool-discrete (Text.◌==◌ s t) true) (λ same. yes ((eq_iff s t).0 same))
      (λ differ. no (λ p. differ ((eq_iff s t).1 p)))

-- `==` of every type whose equality is decided by an instance.
pub record Eq {ℓ} (A : Type ℓ) : Type ℓ where
  pub dec : Discrete A

instance abbrev pub string_eq : Eq String
string_eq = record { dec = string_discrete }

module _ {ℓ} {A : Type ℓ} ⦃e : Eq A⦄ where
  infix 50 ◌==◌
  abbrev pub ◌==◌ : A → A → Bool
  a == b = ite (e.dec a b) true false

  pub ==_refl : (a : A) → (a == a) ≡ true
  ==_refl a = ground arith

  pub ==_sound : (a b : A) → (a == b) ≡ true → a ≡ b
  ==_sound a b h = ground arith

pub Bool-cases : (b : Bool) → (b ≡ true) ⊎ (b ≡ false)
Bool-cases true = inl refl
Bool-cases false = inr refl

pub Option-cases {ℓ} : {A : Type ℓ} (o : Option A) → (o ≡ none) ⊎ ((a : A) × (o ≡ some a))
Option-cases none = inl refl
Option-cases (some a) = inr (a, refl)

abbrev pub is_some {ℓ} : {A : Type ℓ} → Option A → Bool
is_some none = false
is_some (some _) = true

-- An option has one value.
pub one_value {ℓ} : {A : Type ℓ} {o : Option A} {a b : A} → o ≡ some a → o ≡ some b → a ≡ b
one_value p q = cc
