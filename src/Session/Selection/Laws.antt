-- ===== src/Session/Selection/Laws.antt =====
-- A selected id is the only id with the prefix, and all its sessions are selected, in their order.
use agentbox_nix.Shared.{subst}
use agentbox_nix.Shared.{length, ◌≤◌}
use agentbox_nix.Shared.{
  String, ◌≡◌, ◌≢◌, refl, sym, ap, ◌∙◌, inl, inr, Bool, true, false, Option, none, some, List, [],
  ◌∷◌, ◌++◌, All, filter, string_eq, string_discrete, Ordering, compare, arith, Bool-cases,
}
use agentbox_nix.Shared.Order.{lex, lex-IsOrder, compare-IsOrder}
use agentbox_nix.Text.{codes, is_prefix}
use agentbox_nix.Text.Laws.{codes_injective}
use agentbox_nix.Session.Record.{SessionRecord, stable_id}
use agentbox_nix.Session.Selection.{Matches, push_match, lower, collect_match, collect_matches}

-- Does the session have an id with the prefix, whatever the case of their letters?
abbrev pub has_prefix : String → Option String → Bool
has_prefix prefix none = false
has_prefix prefix (some id) = is_prefix (lower prefix) (lower id)

abbrev pub matches_prefix : String → SessionRecord → Bool
matches_prefix prefix session = has_prefix prefix (stable_id session)

abbrev text_compare : String → String → Ordering
text_compare s t = lex compare (codes s) (codes t)

text_same : (s : String) → text_compare s s ≡ Ordering.eq
text_same s = (lex-IsOrder compare compare-IsOrder).same (codes s)

text_eq : (s t : String) → text_compare s t ≡ Ordering.eq → s ≡ t
text_eq s t h =
    codes_injective s t ((lex-IsOrder compare compare-IsOrder).eq_sound (codes s) (codes t) h)

-- A session that matches has the id.
abbrev pub HasId : String → String → SessionRecord → Type 0
HasId prefix id session = matches_prefix prefix session ≡ true → stable_id session ≡ some id

push_match_grows :
    (id : String) (session : SessionRecord) (m : Matches)
    → length m ≤ length (push_match id session m)
push_match_grows id session [] = omega arith
push_match_grows id session ((other, sessions) ∷ m) = ground (arith, push_match_grows id session m)

collect_match_grows :
    (prefix : String) (o : Option String) (session : SessionRecord) (m : Matches)
    → length m ≤ length (collect_match prefix o session m)
collect_match_grows prefix none session m = omega arith
collect_match_grows prefix (some id) session m = ground (arith, push_match_grows id session m)

collect_matches_grows :
    (prefix : String) (sessions : List SessionRecord) (m : Matches)
    → length m ≤ length (collect_matches prefix sessions m)
unfolding collect_matches
collect_matches_grows prefix [] m = omega arith
collect_matches_grows prefix (s ∷ sessions) m = omega (
  arith,
  collect_match_grows prefix (stable_id s) s m,
  collect_matches_grows prefix sessions (collect_match prefix (stable_id s) s m),
)

-- A second id leaves two entries at least.
push_other :
    (id other : String) (session : SessionRecord) (ms : List SessionRecord)
    → id ≢ other
    → length (push_match id session ((other, ms) ∷ [])) ≡ 2
push_other id other session ms h = ground (arith, text_eq id other)

pub push_same :
    (id : String) (session : SessionRecord) (ms : List SessionRecord)
    → push_match id session ((id, ms) ∷ []) ≡ (id, ms ++ session ∷ []) ∷ []
push_same id session ms = ground (arith, text_same id)

pub append_assoc : (xs ys zs : List SessionRecord) → (xs ++ ys) ++ zs ≡ xs ++ (ys ++ zs)
append_assoc [] ys zs = refl
append_assoc (x ∷ xs) ys zs = ap (λ r. x ∷ r) (append_assoc xs ys zs)

pub append_nil : (xs : List SessionRecord) → xs ++ [] ≡ xs
append_nil [] = refl
append_nil (x ∷ xs) = ap (λ r. x ∷ r) (append_nil xs)

-- What is known of the map's only entry after the loop.
record Only (prefix id : String) (before sessions out : List SessionRecord) : Type 0 where
  all_here : out ≡ before ++ filter (matches_prefix prefix) sessions
  one_id : All (HasId prefix id) sessions

skip-Only :
    (prefix id : String) (s : SessionRecord) (sessions ms out : List SessionRecord)
    → matches_prefix prefix s ≡ false
    → Only prefix id ms sessions out
    → Only prefix id ms (s ∷ sessions) out
skip-Only prefix id s sessions ms out e o = record {
  all_here = rw e o.all_here;
  one_id = (λ m. cc, o.one_id);
}

take-Only :
    (prefix id : String) (s : SessionRecord) (sessions ms out : List SessionRecord)
    → matches_prefix prefix s ≡ true
    → stable_id s ≡ some id
    → Only prefix id (ms ++ s ∷ []) sessions out
    → Only prefix id ms (s ∷ sessions) out
take-Only prefix id s sessions ms out e i o = record {
  all_here = rw e (o.all_here ∙ append_assoc ms (s ∷ []) (filter (matches_prefix prefix) sessions));
  one_id = (λ _. i, o.one_id);
}

abbrev OnlyAfter : String → String → String → List SessionRecord → Type 0
OnlyAfter prefix id id' sessions =
    (ms out : List SessionRecord)
    → collect_matches prefix sessions ((id, ms) ∷ []) ≡ (id', out) ∷ []
    → (id ≡ id') × Only prefix id ms sessions out

not_two :
    (prefix i id id' : String) (s : SessionRecord) (sessions ms out : List SessionRecord)
    → i ≢ id
    → collect_matches prefix sessions (push_match i s ((id, ms) ∷ [])) ≡ (id', out) ∷ []
    → ⊥
not_two prefix i id id' s sessions ms out ne h = omega (
  arith,
  ap length h,
  push_other i id s ms ne,
  collect_matches_grows prefix sessions (push_match i s ((id, ms) ∷ [])),
)

collect_step :
    (prefix id id' : String) (s : SessionRecord) (sessions ms out : List SessionRecord)
    (o : Option String)
    → stable_id s ≡ o
    → OnlyAfter prefix id id' sessions
    → collect_matches prefix sessions (collect_match prefix o s ((id, ms) ∷ [])) ≡ (id', out) ∷ []
    → (id ≡ id') × Only prefix id ms (s ∷ sessions) out
collect_step prefix id id' s sessions ms out none e ih h =
    let (p, o) = ih ms out h in
    (p, skip-Only prefix id s sessions ms out (ap (has_prefix prefix) e) o)
collect_step prefix id id' s sessions ms out (some i) e ih h =
    elim (Bool-cases (is_prefix (lower prefix) (lower i))) [
      | inr b ↦
          let (p, o) = ih ms out (rw b at h) in
          (p, skip-Only prefix id s sessions ms out (ap (has_prefix prefix) e ∙ b) o)
      | inl b ↦ elim (string_discrete i id) [
        | no ne ↦ absurd (not_two prefix i id id' s sessions ms out ne (rw b at h))
        | yes same ↦
            let pushed : collect_matches prefix sessions ((id, ms ++ s ∷ []) ∷ [])
                ≡ (id', out) ∷ [] =
              sym (
                ap (collect_matches prefix sessions)
                  (ap (λ j. push_match j s ((id, ms) ∷ [])) same ∙ push_same id s ms))
              ∙ (rw b at h) in
            let (p, o) = ih (ms ++ s ∷ []) out pushed in
            (
              p,
              take-Only prefix id s sessions ms out (ap (has_prefix prefix) e ∙ b)
                  (e ∙ ap some same) o,
            )
      ]
    ]

collect_only :
    (prefix id id' : String) (sessions : List SessionRecord) → OnlyAfter prefix id id' sessions
unfolding collect_matches
collect_only prefix id id' [] ms out h =
    (ground arith, record { all_here = ground (arith, append_nil ms); one_id = tt })
collect_only prefix id id' (s ∷ sessions) ms out h =
    collect_step prefix id id' s sessions ms out (stable_id s) refl
      (collect_only prefix id id' sessions) h

-- What the only entry of the final map holds.
pub record Chosen (prefix id : String) (sessions out : List SessionRecord) : Type 0 where
  pub all_here : out ≡ filter (matches_prefix prefix) sessions
  pub one_id : All (HasId prefix id) sessions
  pub some_here : out ≢ []

skip-Chosen :
    (prefix id : String) (s : SessionRecord) (sessions out : List SessionRecord)
    → matches_prefix prefix s ≡ false
    → Chosen prefix id sessions out
    → Chosen prefix id (s ∷ sessions) out
skip-Chosen prefix id s sessions out e c = record {
  all_here = rw e c.all_here;
  one_id = (λ m. cc, c.one_id);
  some_here = c.some_here;
}

first-Chosen :
    (prefix i id : String) (s : SessionRecord) (sessions out : List SessionRecord)
    → matches_prefix prefix s ≡ true
    → stable_id s ≡ some i
    → (i ≡ id) × Only prefix i (s ∷ []) sessions out
    → Chosen prefix id (s ∷ sessions) out
first-Chosen prefix i id s sessions out e h (p, o) = record {
  all_here = rw e o.all_here;
  one_id = (λ _. h ∙ ap some p, subst (λ j. All (HasId prefix j) sessions) p o.one_id);
  some_here = λ n. cc (o.all_here, n);
}

-- From the empty map the first match makes the only entry.
pub collect_first :
    (prefix id : String) (sessions out : List SessionRecord)
    → collect_matches prefix sessions [] ≡ (id, out) ∷ []
    → Chosen prefix id sessions out
unfolding collect_matches
collect_first prefix id [] out h = cc
collect_first prefix id (s ∷ sessions) out h =
    by_id (stable_id s) refl h (collect_first prefix id sessions out)
  where
    by_id :
        (o : Option String)
        → stable_id s ≡ o
        → collect_matches prefix sessions (collect_match prefix o s []) ≡ (id, out) ∷ []
        → (collect_matches prefix sessions [] ≡ (id, out) ∷ [] → Chosen prefix id sessions out)
        → Chosen prefix id (s ∷ sessions) out
    by_id none e h ih = skip-Chosen prefix id s sessions out (ap (has_prefix prefix) e) (ih h)
    by_id (some i) e h ih = elim (Bool-cases (is_prefix (lower prefix) (lower i))) [
      | inr b ↦ skip-Chosen prefix id s sessions out (ap (has_prefix prefix) e ∙ b) (ih (rw b at h))
      | inl b ↦
          first-Chosen prefix i id s sessions out (ap (has_prefix prefix) e ∙ b) e
            (collect_only prefix i id sessions (s ∷ []) out (rw b at h))
    ]
