-- ===== src/Digest/Laws.antt =====
-- Hexadecimal texts have two digits for each byte, and only digits.
use agentbox_nix.Shared.{
  ℕ, zero, suc, ◌*◌, ◌≤◌, ◌/◌, ◌%◌, ◌≡◌, refl, Char, code, true, Bool, List, [], ◌∷◌, take, length,
  all, arith,
}
use agentbox_nix.Text.{chars, is_ascii_hexdigit}
use agentbox_nix.Digest.{nth, hex_char, hex_lower, hex_prefix}

all-cons :
    (P : Char → Bool) (c : Char) (cs : List Char)
    → P c ≡ true
    → all P cs ≡ true
    → all P (c ∷ cs) ≡ true
all-cons P c cs h k = ground arith

-- A test that the sixteen digits pass, all characters of a hexadecimal text pass.
module _ (P : Char → Bool) (digits : all P (chars "0123456789abcdef") ≡ true) where
  nth-all : (cs : List Char) (i : ℕ) → all P cs ≡ true → P (nth cs i) ≡ true
  nth-all [] i h = ground arith
  nth-all (c ∷ cs) zero h = ground arith
  nth-all (c ∷ cs) (suc i) h = nth-all cs i (ground arith)

  hex_char-digit : (n : ℕ) → P (hex_char n) ≡ true
  unfolding hex_char
  hex_char-digit n = nth-all (chars "0123456789abcdef") n digits

  pub hex_lower-digits : (bytes : List ℕ) → all P (hex_lower bytes) ≡ true
  unfolding hex_lower
  hex_lower-digits [] = refl
  hex_lower-digits (b ∷ bytes) =
      all-cons P (hex_char (b / 16)) (hex_char (b % 16) ∷ hex_lower bytes) (hex_char-digit (b / 16))
        (all-cons P (hex_char (b % 16)) (hex_lower bytes) (hex_char-digit (b % 16))
          (hex_lower-digits bytes))

pub length-hex_lower : (bytes : List ℕ) → length (hex_lower bytes) ≡ 2 * length bytes
unfolding hex_lower
length-hex_lower [] = omega arith
length-hex_lower (b ∷ bytes) = omega (arith, length-hex_lower bytes)

length-take : (n : ℕ) (cs : List Char) → n ≤ length cs → length (take n cs) ≡ n
length-take zero cs h = refl
length-take (suc n) [] h = absurd (omega arith)
length-take (suc n) (c ∷ cs) h = omega (arith, length-take n cs)

take-all :
    (n : ℕ) (cs : List Char)
    → all (λ c. is_ascii_hexdigit (code c)) cs ≡ true
    → all (λ c. is_ascii_hexdigit (code c)) (take n cs) ≡ true
take-all zero cs h = refl
take-all (suc n) [] h = refl
take-all (suc n) (c ∷ cs) h = ground (arith, take-all n cs)

-- A prefix no longer than the digest's text has exactly that many digits, all of them hexadecimal.
pub hex_prefix_digits :
    (bytes : List ℕ) (n : ℕ)
    → n ≤ 2 * length bytes
    → (length (hex_prefix bytes n) ≡ n)
      × (all (λ c. is_ascii_hexdigit (code c)) (hex_prefix bytes n) ≡ true)
unfolding hex_prefix
hex_prefix_digits bytes n h = (
  length-take n (hex_lower bytes) (omega (arith, length-hex_lower bytes)),
  take-all n (hex_lower bytes) (hex_lower-digits (λ c. is_ascii_hexdigit (code c)) refl bytes),
)
