-- ===== src/Digest.antt =====
-- src/digest.rs. The hash itself is the crate sha2's and a parameter where it is used; a byte is a
-- number.
pub mod Laws
use agentbox_nix.Shared.{ℕ, zero, suc, ◌/◌, ◌%◌, Char, String, List, [], ◌∷◌, take, ◌++◌}
use agentbox_nix.Text.{chars, from_chars}

-- An index into a list of characters, which the source never leaves.
abbrev nth : List Char → ℕ → Char
nth [] i = "0"
nth (c ∷ cs) zero = c
nth (c ∷ cs) (suc i) = nth cs i

hex_char : ℕ → Char
hex_char n = nth (chars "0123456789abcdef") n

unfoldable pub hex_lower : List ℕ → List Char
unfolding hex_char
hex_lower [] = []
hex_lower (byte ∷ bytes) = hex_char (byte / 16) ∷ hex_char (byte % 16) ∷ hex_lower bytes

unfoldable pub hex_prefix : List ℕ → ℕ → List Char
unfolding hex_lower
hex_prefix bytes len = take len (hex_lower bytes)
