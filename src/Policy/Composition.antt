-- ===== src/Policy/Composition.antt =====
-- The order in which the layers of a policy are consulted.
use doc_chat_template_scc.Common.{
  ℕ, ◌≤◌, ◌<◌, ◌≡◌, refl, ap, ◌∙◌, Bool, true, false, some, List, [], ◌∷◌, ◌++◌, arith, String, All,
  All-append, All-mono, select, select-append, Bool-cases, inl, inr, ◌==◌, map, if◌then◌else◌,
}
use doc_chat_template_scc.Common.Sort.{
  sorted, key_is, IsSorted, select-sorted, sorted-IsSorted, All-sorted_inv,
}
use doc_chat_template_scc.Policy.{
  Rule, CallOption, Layers, Policy, tag_rules, extend_layers, compose_policy, rule_matches,
  match_policy,
}

select-tag_rules_self :
    (k j : ℕ) (rules : List Rule)
    → (j == k) ≡ true
    → select (key_is k) (tag_rules j rules) ≡ tag_rules j rules
unfolding select
select-tag_rules_self k j [] e = refl
select-tag_rules_self k j (r ∷ rs) e = rw e (ap (λ z. (j, r) ∷ z) (select-tag_rules_self k j rs e))

select-tag_rules_ne :
    (k j : ℕ) (rules : List Rule) → (j == k) ≡ false → select (key_is k) (tag_rules j rules) ≡ []
unfolding select
select-tag_rules_ne k j [] e = refl
select-tag_rules_ne k j (r ∷ rs) e = rw e (select-tag_rules_ne k j rs e)

select-extend_layers :
    (k : ℕ) (layers : Layers)
    → select (key_is k) (extend_layers layers) ≡ extend_layers (select (key_is k) layers)
unfolding extend_layers select
select-extend_layers k [] = refl
select-extend_layers k ((j, rules) ∷ layers) = elim (Bool-cases (j == k)) [
  | inl e ↦ rw e (
      select-append (key_is k) (tag_rules j rules) (extend_layers layers)
      ∙ rw (select-tag_rules_self k j rules e, select-extend_layers k layers))
  | inr e ↦ rw e (
      select-append (key_is k) (tag_rules j rules) (extend_layers layers)
      ∙ rw (select-tag_rules_ne k j rules e, select-extend_layers k layers))
]

All-tag_rules {κ} :
    (P : ℕ × Rule → Type κ) (j : ℕ) (rules : List Rule)
    → ((r : Rule) → P (j, r))
    → All P (tag_rules j rules)
All-tag_rules P j [] h = tt
All-tag_rules P j (r ∷ rs) h = (h r, All-tag_rules P j rs h)

All-extend_layers :
    (n : ℕ) (layers : Layers)
    → All (λ y. n ≤ y.0) layers
    → All (λ y. n ≤ y.0) (extend_layers layers)
unfolding extend_layers
All-extend_layers n [] a = tt
All-extend_layers n ((j, rules) ∷ layers) a =
    All-append (λ y. n ≤ y.0) (tag_rules j rules) (extend_layers layers)
      (All-tag_rules (λ y. n ≤ y.0) j rules (λ r. a.0)) (All-extend_layers n layers a.1)

tag_rules-IsSorted :
    (j : ℕ) (rules : List Rule) (rest : Policy)
    → All (λ y. j ≤ y.0) rest
    → IsSorted rest
    → IsSorted (tag_rules j rules ++ rest)
tag_rules-IsSorted j [] rest a s = s
tag_rules-IsSorted j (r ∷ rs) rest a s = (
  All-append (λ y. j ≤ y.0) (tag_rules j rs) rest
      (All-tag_rules (λ y. j ≤ y.0) j rs (λ _. omega arith)) a,
  tag_rules-IsSorted j rs rest a s,
)

extend_layers-IsSorted : (layers : Layers) → IsSorted layers → IsSorted (extend_layers layers)
unfolding extend_layers
extend_layers-IsSorted [] s = tt
extend_layers-IsSorted ((j, rules) ∷ layers) s =
    tag_rules-IsSorted j rules (extend_layers layers) (All-extend_layers j layers s.0)
      (extend_layers-IsSorted layers s.1)

-- the rules of the layers with the id `k`, layer after layer
abbrev pub rules_given : ℕ → Layers → List Rule
rules_given k [] = []
rules_given k ((j, rules) ∷ layers) =
    let rest = rules_given k layers in if j == k then rules ++ rest else rest

map-tag_rules :
    (j : ℕ) (rules : List Rule) (rest : Policy)
    → map (λ y. y.1) (tag_rules j rules ++ rest) ≡ rules ++ map (λ y. y.1) rest
map-tag_rules j [] rest = refl
map-tag_rules j (r ∷ rs) rest = ap (λ z. r ∷ z) (map-tag_rules j rs rest)

map-extend_layers :
    (k : ℕ) (layers : Layers)
    → map (λ y. y.1) (extend_layers (select (key_is k) layers)) ≡ rules_given k layers
unfolding extend_layers select
map-extend_layers k [] = refl
map-extend_layers k ((j, rules) ∷ layers) = elim (Bool-cases (j == k)) [
  | inl e ↦ rw e (
      map-tag_rules j rules (extend_layers (select (key_is k) layers))
      ∙ ap (λ z. rules ++ z) (map-extend_layers k layers))
  | inr e ↦ rw e (map-extend_layers k layers)
]

-- A composed policy lists its rules by ascending id of their layers, and its rules under the id `k`
-- are all the rules of the given layers with that id, each layer's in their own order, and the layers
-- in the order in which they were given.
pub compose_policy-IsSorted :
    (layers : Layers) (k : ℕ)
    → IsSorted (compose_policy layers)
      × (map (λ y. y.1) (select (key_is k) (compose_policy layers)) ≡ rules_given k layers)
unfolding compose_policy
compose_policy-IsSorted layers k = (
  extend_layers-IsSorted (sorted layers) (sorted-IsSorted layers),
  ap (map (λ y. y.1))
        (select-extend_layers k (sorted layers) ∙ ap extend_layers (select-sorted k layers))
      ∙ map-extend_layers k layers,
)

module _ (search : String → String → Bool) where
  -- no rule of the layers below `l` matches
  match_policy-below :
      (composed : Policy) (args : List String) (options : List CallOption) (cwd : String)
      (x : ℕ × Rule)
      → IsSorted composed
      → match_policy search composed args options cwd ≡ some x
      → All (λ y. y.0 < x.0 → rule_matches search y.1 args options cwd ≡ false) composed
  unfolding match_policy
  match_policy-below [] args options cwd x s h = tt
  match_policy-below (y ∷ ys) args options cwd x s h =
      elim (Bool-cases (rule_matches search y.1 args options cwd)) [
        | inl e ↦
            let q : y ≡ x = ground arith in
            let same : y.0 ≡ x.0 = ap (λ z. z.0) q in
            (
              λ below. absurd (omega arith),
              All-mono (λ z. y.0 ≤ z.0)
                  (λ z. z.0 < x.0 → rule_matches search z.1 args options cwd ≡ false) ys
                  (λ z le below. absurd (omega arith)) s.0,
            )
        | inr e ↦ ((λ below. e), match_policy-below ys args options cwd x s.1 (ground arith))
      ]

  All-tag_rules_inv {κ} :
      (P : ℕ × Rule → Type κ) (j : ℕ) (rules : List Rule) (rest : Policy)
      → All P (tag_rules j rules ++ rest)
      → All (λ r. P (j, r)) rules × All P rest
  All-tag_rules_inv P j [] rest a = (tt, a)
  All-tag_rules_inv P j (r ∷ rs) rest a =
      let (b, c) = All-tag_rules_inv P j rs rest a.1 in ((a.0, b), c)

  All-extend_layers_inv {κ} :
      (P : ℕ × Rule → Type κ) (layers : Layers)
      → All P (extend_layers layers)
      → All (λ layer. All (λ r. P (layer.0, r)) layer.1) layers
  unfolding extend_layers
  All-extend_layers_inv P [] a = tt
  All-extend_layers_inv P ((j, rules) ∷ layers) a =
      let (b, c) = All-tag_rules_inv P j rules (extend_layers layers) a in
      (b, All-extend_layers_inv P layers c)

  -- The layer with the smallest id decides: where a composed policy answers with a rule of the
  -- layer `x.0`, no rule of any given layer with a smaller id matches the call, in whatever order
  -- the layers were given.
  pub match_policy-compose_policy :
      (layers : Layers) (args : List String) (options : List CallOption) (cwd : String)
      (x : ℕ × Rule)
      → match_policy search (compose_policy layers) args options cwd ≡ some x
      → All
          (λ layer.
            All (λ r. layer.0 < x.0 → rule_matches search r args options cwd ≡ false) layer.1)
          layers
  unfolding compose_policy
  match_policy-compose_policy layers args options cwd x h =
      All-sorted_inv
        (λ layer. All (λ r. layer.0 < x.0 → rule_matches search r args options cwd ≡ false) layer.1)
        layers
        (All-extend_layers_inv (λ y. y.0 < x.0 → rule_matches search y.1 args options cwd ≡ false)
          (sorted layers)
          (match_policy-below (extend_layers (sorted layers)) args options cwd x
            (extend_layers-IsSorted (sorted layers) (sorted-IsSorted layers)) h))
