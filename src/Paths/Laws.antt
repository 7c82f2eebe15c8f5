-- ===== src/Paths/Laws.antt =====
-- Equality of paths is equality of components; the order of paths is total.
use agentbox_nix.Paths.{path_compare}
use agentbox_nix.Shared.{Bool-cases, inl, inr, false}
use agentbox_nix.Shared.{
  ℕ, ◌≡◌, refl, sym, ◌∙◌, ap, ◌↔◌, true, false, List, [], ◌∷◌, arith, compare, Ordering,
}
use agentbox_nix.Shared.Order.{lex, IsOrder, compare-IsOrder, lex-IsOrder}
use agentbox_nix.Text.Laws.{codes_injective}
use agentbox_nix.Paths.{
  FilePath, Component, root_dir, cur_dir, parent_dir, normal, components, component_key, path_key,
  path_eq, path_is_or_descendant,
}

abbrev pub key_order : IsOrder (lex (lex compare))
key_order = lex-IsOrder (lex compare) (lex-IsOrder compare compare-IsOrder)

tail_of : List ℕ → List ℕ
tail_of [] = []
tail_of (x ∷ xs) = xs

component_key_injective : (c d : Component) → component_key c ≡ component_key d → c ≡ d
unfolding tail_of
component_key_injective (normal s) (normal t) h = ap normal (codes_injective s t (ap tail_of h))
component_key_injective (normal s) root_dir h = absurd (ground arith)
component_key_injective (normal s) cur_dir h = absurd (ground arith)
component_key_injective (normal s) parent_dir h = absurd (ground arith)
component_key_injective root_dir root_dir h = refl
component_key_injective root_dir _ h = absurd (ground arith)
component_key_injective cur_dir cur_dir h = refl
component_key_injective cur_dir _ h = absurd (ground arith)
component_key_injective parent_dir parent_dir h = refl
component_key_injective parent_dir _ h = absurd (ground arith)

pub path_key_injective : (xs ys : List Component) → path_key xs ≡ path_key ys → xs ≡ ys
path_key_injective [] [] h = refl
path_key_injective [] (y ∷ ys) h = cc
path_key_injective (x ∷ xs) [] h = cc
path_key_injective (x ∷ xs) (y ∷ ys) h =
    ground (arith, component_key_injective x y, path_key_injective xs ys)

-- Two paths are equal exactly when they have the same components.
pub path_eq_iff : (p q : FilePath) → (path_eq p q ≡ true) ↔ (components p ≡ components q)
unfolding path_eq
path_eq_iff p q = (
  λ h. path_key_injective _ _ (key_order.eq_sound _ _ (ground arith)),
  λ h. ground (
    arith,
    ap (λ c. lex (lex compare) (path_key c) (path_key (components q))) h,
    key_order.same (path_key (components q)),
  ),
)

pub path_eq_refl : (p : FilePath) → path_eq p p ≡ true
path_eq_refl p = (path_eq_iff p p).1 refl

pub path_eq_sym : (p q : FilePath) → path_eq p q ≡ true → path_eq q p ≡ true
path_eq_sym p q h = (path_eq_iff q p).1 (sym ((path_eq_iff p q).0 h))

pub path_eq_trans :
    (p q r : FilePath) → path_eq p q ≡ true → path_eq q r ≡ true → path_eq p r ≡ true
path_eq_trans p q r h k = (path_eq_iff p r).1 ((path_eq_iff p q).0 h ∙ (path_eq_iff q r).0 k)

pub path_is_or_descendant_refl : (p : FilePath) → path_is_or_descendant p p ≡ true
unfolding path_is_or_descendant
path_is_or_descendant_refl p = ground (arith, path_eq_refl p)

pub path_eq_congr : (p q r : FilePath) → path_eq p q ≡ true → path_eq p r ≡ path_eq q r
unfolding path_eq
path_eq_congr p q r h =
    ap
      (λ c. elim (lex (lex compare) (path_key c) (path_key (components r))) [
        | Ordering.eq ↦ true
        | _ ↦ false
      ])
      ((path_eq_iff p q).0 h)

pub path_compare_flip :
    (p q : FilePath) → path_compare p q ≡ Ordering.gt → path_compare q p ≡ Ordering.lt
unfolding path_compare
path_compare_flip p q h = key_order.flip (path_key (components p)) (path_key (components q)) h

pub path_compare_lt_trans :
    (p q r : FilePath)
    → path_compare p q ≡ Ordering.lt
    → path_compare q r ≡ Ordering.lt
    → path_compare p r ≡ Ordering.lt
unfolding path_compare
path_compare_lt_trans p q r h k =
    key_order.lt_trans (path_key (components p)) (path_key (components q)) (path_key (components r))
      h k

pub path_compare_eq : (p q : FilePath) → path_compare p q ≡ Ordering.eq → path_eq p q ≡ true
unfolding path_eq path_compare
path_compare_eq p q h = ground arith

-- A path that is greater than an equal of `q` is not `q`.
pub path_eq_not_lt :
    (p q r : FilePath) → path_eq p q ≡ true → path_compare p r ≡ Ordering.lt → path_eq r q ≡ false
unfolding path_eq path_compare
path_eq_not_lt p q r h k = elim (Bool-cases (path_eq r q)) [
  | inr e ↦ e
  | inl e ↦ absurd (ground (arith, less_not_eq p r k, path_eq_trans p q r h (path_eq_sym r q e)))
]
  where
    less_not_eq : (p r : FilePath) → path_compare p r ≡ Ordering.lt → path_eq p r ≡ false
    less_not_eq p r h = ground arith
