-- ===== src/Config/Laws.antt =====
-- The format of memory limits, and what survives as a label.
use agentbox_nix.Shared.{
  ℕ, String, ◌≡◌, ◌≢◌, refl, ap, ◌⊎◌, inl, inr, true, false, List, [], ◌∷◌, ◌++◌, all, is_empty, ok,
  arith, ◌↔◌, Bool-cases,
}
use agentbox_nix.Text.{codes, is_whitespace, is_ascii_digit}
use agentbox_nix.Config.{
  MemoryLimit, is_unit, strip_unit, is_memory_limit, parse_memory_limit, is_trimmed, ends_blank,
  starts_blank,
}

-- The documented format `<number>[b|k|m|g]`.
abbrev pub IsMemoryText : List ℕ → Type 0
IsMemoryText cs =
    (number : List ℕ) × (number ≢ [])
    × (all is_ascii_digit number ≡ true)
    × ((cs ≡ number) ⊎ ((u : ℕ) × (is_unit u ≡ true) × (cs ≡ number ++ u ∷ [])))

strip_unit_split :
    (cs : List ℕ)
    → (cs ≡ strip_unit cs) ⊎ ((u : ℕ) × (is_unit u ≡ true) × (cs ≡ strip_unit cs ++ u ∷ []))
strip_unit_split [] = inl refl
strip_unit_split (c ∷ []) = elim (Bool-cases (is_unit c)) [
  | inl e ↦ inr (c, e, rw e refl)
  | inr e ↦ inl (rw e refl)
]
strip_unit_split (c ∷ d ∷ cs) = elim (strip_unit_split (d ∷ cs)) [
  | inl e ↦ inl (ap (λ r. c ∷ r) e)
  | inr (u, h, e) ↦ inr (u, h, ap (λ r. c ∷ r) e)
]

strip_unit-digits : (cs : List ℕ) → all is_ascii_digit cs ≡ true → strip_unit cs ≡ cs
strip_unit-digits [] h = refl
strip_unit-digits (c ∷ []) h = ground arith
strip_unit-digits (c ∷ d ∷ cs) h = ap (λ r. c ∷ r) (strip_unit-digits (d ∷ cs) (ground arith))

strip_unit-append : (cs : List ℕ) (u : ℕ) → is_unit u ≡ true → strip_unit (cs ++ u ∷ []) ≡ cs
strip_unit-append [] u h = rw h refl
strip_unit-append (c ∷ []) u h = rw h refl
strip_unit-append (c ∷ d ∷ cs) u h = ap (λ r. c ∷ r) (strip_unit-append (d ∷ cs) u h)

ends_blank-digits : (cs : List ℕ) → all is_ascii_digit cs ≡ true → ends_blank cs ≡ false
unfolding is_whitespace
ends_blank-digits [] h = refl
ends_blank-digits (c ∷ []) h = ground arith
ends_blank-digits (c ∷ d ∷ cs) h = ends_blank-digits (d ∷ cs) (ground arith)

ends_blank-append : (cs : List ℕ) (u : ℕ) → is_unit u ≡ true → ends_blank (cs ++ u ∷ []) ≡ false
unfolding is_whitespace
ends_blank-append [] u h = ground arith
ends_blank-append (c ∷ []) u h = ends_blank-append [] u h
ends_blank-append (c ∷ d ∷ cs) u h = ends_blank-append (d ∷ cs) u h

starts_blank-digits :
    (cs rest : List ℕ) → cs ≢ [] → all is_ascii_digit cs ≡ true → starts_blank (cs ++ rest) ≡ false
unfolding is_whitespace
starts_blank-digits [] rest n h = absurd (n refl)
starts_blank-digits (c ∷ cs) rest n h = ground arith

starts_blank-number : (cs : List ℕ) → all is_ascii_digit cs ≡ true → starts_blank cs ≡ false
unfolding is_whitespace
starts_blank-number [] h = refl
starts_blank-number (c ∷ cs) h = ground arith

is_empty-ne : (cs : List ℕ) → cs ≢ [] → is_empty cs ≡ false
is_empty-ne [] n = absurd (n refl)
is_empty-ne (c ∷ cs) n = refl

is_empty-append : (cs : List ℕ) (u : ℕ) → is_empty (cs ++ u ∷ []) ≡ false
is_empty-append [] u = refl
is_empty-append (c ∷ cs) u = refl

is_memory_limit_sound : (cs : List ℕ) → is_memory_limit cs ≡ true → IsMemoryText cs
is_memory_limit_sound cs h =
    (strip_unit cs, λ e. ground (arith, ap is_empty e), ground arith, strip_unit_split cs)

is_memory_limit_complete : (cs : List ℕ) → IsMemoryText cs → is_memory_limit cs ≡ true
unfolding is_trimmed
is_memory_limit_complete cs (number, n, d, inl e) = rw e (
    ground (
      arith,
      strip_unit-digits number d,
      ends_blank-digits number d,
      starts_blank-number number d,
      is_empty-ne number n,
    ))
is_memory_limit_complete cs (number, n, d, inr (u, h, e)) = rw e (
    ground (
      arith,
      strip_unit-append number u h,
      ends_blank-append number u h,
      starts_blank-digits number (u ∷ []) n d,
      is_empty-ne number n,
      is_empty-append number u,
    ))

-- A memory limit is accepted, and kept as it was written, exactly when the text is a number of one
-- ASCII digit or more, with at most one unit `b`, `k`, `m` or `g` behind it.
pub parse_memory_limit_iff :
    (value : String)
    → (parse_memory_limit value ≡ ok (record { text = value })) ↔ IsMemoryText (codes value)
unfolding parse_memory_limit
parse_memory_limit_iff value = (
  λ h. is_memory_limit_sound (codes value) (ground arith),
  λ h. ground (arith, is_memory_limit_complete (codes value) h),
)

-- A limit that was accepted is accepted again when its text is read back.
pub parse_memory_limit_text :
    (value : String) (limit : MemoryLimit)
    → parse_memory_limit value ≡ ok limit
    → parse_memory_limit limit.text ≡ ok limit
unfolding parse_memory_limit
parse_memory_limit_text value limit h = ground arith
