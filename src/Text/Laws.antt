-- ===== src/Text/Laws.antt =====
-- Laws of the texts: code points determine a text, and a text is its list of characters.
use text.Mathlib.TextEquality.{Char-path}
use agentbox_nix.Shared.{ℕ, Char, String, ◌≡◌, refl, ap, List, [], ◌∷◌, arith, true}
use agentbox_nix.Text.{codes, chars, from_chars, is_prefix}

head_of : List ℕ → ℕ
head_of [] = 0
head_of (x ∷ xs) = x

tail_of : List ℕ → List ℕ
tail_of [] = []
tail_of (x ∷ xs) = xs

cons_path : {c d : Char} {s t : String} → c ≡ d → s ≡ t → String.◌∷◌ c s ≡ String.◌∷◌ d t
cons_path p q = λ i. String.◌∷◌ (p i) (q i)

pub codes_injective : (s t : String) → codes s ≡ codes t → s ≡ t
unfolding head_of tail_of
codes_injective String.[] String.[] h = refl
codes_injective String.[] (String.◌∷◌ d t) h = cc
codes_injective (String.◌∷◌ c s) String.[] h = cc
codes_injective (String.◌∷◌ c s) (String.◌∷◌ d t) h =
    cons_path (Char-path c d (ap head_of h)) (codes_injective s t (ap tail_of h))

pub chars-from_chars : (cs : List Char) → chars (from_chars cs) ≡ cs
chars-from_chars [] = refl
chars-from_chars (c ∷ cs) = ap (λ r. c ∷ r) (chars-from_chars cs)

pub is_prefix_refl : (xs : List ℕ) → is_prefix xs xs ≡ true
is_prefix_refl [] = refl
is_prefix_refl (x ∷ xs) = ground (arith, is_prefix_refl xs)
