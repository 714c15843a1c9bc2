-- ===== src/Service/Places.antt =====
-- What the loop of a reorder makes of a layer's rules.
use doc_chat_template_scc.Common.{
  ℕ, suc, ◌+◌, ◌≡◌, refl, sym, ap, ◌∙◌, subst, true, false, List, [], ◌∷◌, map, if◌then◌else◌, ◌==◌,
  ==_iff, select, update, exists, arith, Bool-cases, inl, inr,
}
use doc_chat_template_scc.Common.Distinct.{contains, Distinct}
use doc_chat_template_scc.Policy.{Rule}
use doc_chat_template_scc.Service.Data.{RuleRow}
use doc_chat_template_scc.Service.Layers.{rules_of, has_id, set_position, place_rules}

-- one round of the loop on one rule, and all of them
abbrev place_one : ℕ → ℕ → Rule → Rule
place_one k i r = if r.id == i then record r { position = k } else r

unfoldable pub placed : ℕ → List ℕ → Rule → Rule
placed k [] r = r
placed k (i ∷ is) r = placed (suc k) is (place_one k i r)

rules_of-update :
    (layer k i : ℕ) (rows : List RuleRow)
    → rules_of layer (update (has_id i) (set_position k) rows)
      ≡ map (place_one k i) (rules_of layer rows)
unfolding select update
rules_of-update layer k i [] = refl
rules_of-update layer k i (r ∷ rows) =
    let rest = rules_of-update layer k i rows in
    elim (Bool-cases (r.rule.id == i)) [
      | inl e ↦ elim (Bool-cases (r.policy_layer_id == layer)) [
        | inl f ↦
            rw e (
              rw f
                (rw e (ap (λ xs. (let rule = r.rule in record rule { position = k }) ∷ xs) rest)))
        | inr f ↦ rw e (rw f rest)
      ]
      | inr e ↦ elim (Bool-cases (r.policy_layer_id == layer)) [
        | inl f ↦ rw e (rw f (rw e (ap (λ xs. r.rule ∷ xs) rest)))
        | inr f ↦ rw e (rw f rest)
      ]
    ]

pub map-map {ℓ} :
    {A B C : Type ℓ} (g : B → C) (f : A → B) (xs : List A)
    → map g (map f xs) ≡ map (λ x. g (f x)) xs
map-map g f [] = refl
map-map g f (x ∷ xs) = ap (λ ys. g (f x) ∷ ys) (map-map g f xs)

map-same {ℓ} : {A : Type ℓ} (xs : List A) → map (λ x. x) xs ≡ xs
map-same [] = refl
map-same (x ∷ xs) = ap (λ ys. x ∷ ys) (map-same xs)

-- The loop changes each rule of a layer by itself.
pub rules_of-place_rules :
    (layer k : ℕ) (ids : List ℕ) (rows : List RuleRow)
    → rules_of layer (place_rules k ids rows) ≡ map (placed k ids) (rules_of layer rows)
unfolding place_rules placed
rules_of-place_rules layer k [] rows = sym (map-same (rules_of layer rows))
rules_of-place_rules layer k (i ∷ is) rows =
    rules_of-place_rules layer (suc k) is (update (has_id i) (set_position k) rows)
    ∙ ap (map (placed (suc k) is)) (rules_of-update layer k i rows)
    ∙ map-map (placed (suc k) is) (place_one k i) (rules_of layer rows)

place_one-id : (k i : ℕ) (r : Rule) → (place_one k i r).id ≡ r.id
place_one-id k i r = elim (Bool-cases (r.id == i)) [ inl e ↦ rw e refl | inr e ↦ rw e refl ]

pub placed-id : (k : ℕ) (ids : List ℕ) (r : Rule) → (placed k ids r).id ≡ r.id
unfolding placed
placed-id k [] r = refl
placed-id k (i ∷ is) r = placed-id (suc k) is (place_one k i r) ∙ place_one-id k i r

pub placed-absent :
    (k : ℕ) (ids : List ℕ) (r : Rule) → contains ids r.id ≡ false → placed k ids r ≡ r
unfolding placed exists
placed-absent k [] r h = refl
placed-absent k (i ∷ is) r h = elim (Bool-cases (r.id == i)) [
  | inl e ↦
      absurd (let f : (i == r.id) ≡ true = ground arith in let t : true ≡ false = rw f at h in cc)
  | inr e ↦
      let f : (i == r.id) ≡ false = ground arith in rw e (placed-absent (suc k) is r (rw f at h))
]

-- the place of an id in a list that has it
unfoldable pub index_in : List ℕ → ℕ → ℕ
index_in [] id = 0
index_in (i ∷ is) id = if i == id then 0 else suc (index_in is id)

-- A rule that is in the list gets its place in it.
pub placed-position :
    (k : ℕ) (ids : List ℕ) (r : Rule)
    → Distinct ids
    → contains ids r.id ≡ true
    → (placed k ids r).position ≡ k + index_in ids r.id
unfolding placed index_in exists
placed-position k [] r d h = absurd (cc)
placed-position k (i ∷ is) r (n, d) h = elim (Bool-cases (r.id == i)) [
  | inl e ↦
      let same : r.id ≡ i = (==_iff r.id i).0 e in
      let f : (i == r.id) ≡ true = ground arith in
      let absent : contains is r.id ≡ false = subst (λ j. contains is j ≡ false) (sym same) n in
      let p = placed-absent (suc k) is (record r { position = k }) absent in
      rw (e, placed) (rw f (rw p (omega arith)))
  | inr e ↦
      let f : (i == r.id) ≡ false = ground arith in
      let p = placed-position (suc k) is r d (rw f at h) in rw (e, placed) (rw f (omega (arith, p)))
]
