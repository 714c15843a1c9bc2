-- ===== src/Service/Reorder.antt =====
-- A reorder of a layer's rules: afterwards they are listed as the request has them.
use doc_chat_template_scc.Common.{
  ℕ, suc, ◌≤◌, ◌≡◌, ◌≢◌, refl, sym, ap, ◌∙◌, subst, true, false, List, [], ◌∷◌, map, ◌==◌, ==_iff,
  ==_refl, some, String, length, exists, All, arith, Bool-cases, inl, inr, and-left, and-right,
}
use doc_chat_template_scc.Common.Distinct.{
  contains, Distinct, IsWithin, IsAscending, Distinct-of_within, ascending_is_unique,
}
use doc_chat_template_scc.Common.Sort.{
  sorted, IsSorted, Pairwise, sorted-IsSorted, All-sorted, Pairwise-sorted, exists-sorted,
}
use doc_chat_template_scc.Policy.{Rule}
use doc_chat_template_scc.Service.Data.{RuleRow, Store, returned}
use doc_chat_template_scc.Service.Accounts.{resolve_user_id, signed_in}
use doc_chat_template_scc.Service.Layers.{
  rules_of, by_position, policy_layer_rules, place_rules, covers, is_permutation, ids_of, LayerInfo,
  policy_layer_info, user_owns_policy_layer,
}
use doc_chat_template_scc.Service.Requests.{reorder_policy_layer_rules}
use doc_chat_template_scc.Service.Places.{
  map-map, rules_of-place_rules, placed, placed-id, placed-position, index_in,
}

pub covers-IsWithin : (ids xs : List ℕ) → covers ids xs ≡ true → IsWithin xs ids
unfolding exists
covers-IsWithin ids [] h z k = absurd (cc)
covers-IsWithin ids (x ∷ xs) h z k = elim (Bool-cases (x == z)) [
  | inl e ↦
      subst (λ j. contains ids j ≡ true) ((==_iff x z).0 e)
        (and-left (contains ids x) (covers ids xs) h)
  | inr e ↦ covers-IsWithin ids xs (and-right (contains ids x) (covers ids xs) h) z (rw e at k)
]

index_in-injective :
    (ids : List ℕ) (a b : ℕ)
    → contains ids a ≡ true
    → contains ids b ≡ true
    → index_in ids a ≡ index_in ids b
    → a ≡ b
unfolding index_in exists
index_in-injective [] a b h k e = absurd (cc)
index_in-injective (i ∷ is) a b h k e = elim (Bool-cases (i == a)) [
  | inl f ↦ elim (Bool-cases (i == b)) [
    | inl g ↦ sym ((==_iff i a).0 f) ∙ (==_iff i b).0 g
    | inr g ↦ absurd (let t : 0 ≡ suc (index_in is b) = rw g at (rw f at e) in omega arith)
  ]
  | inr f ↦ elim (Bool-cases (i == b)) [
    | inl g ↦ absurd (let t : suc (index_in is a) ≡ 0 = rw g at (rw f at e) in omega arith)
    | inr g ↦
        let t : suc (index_in is a) ≡ suc (index_in is b) = rw g at (rw f at e) in
        index_in-injective is a b (rw f at h) (rw g at k) (omega arith)
  ]
]

IsAscending-shift :
    (f g : ℕ → ℕ) (xs : List ℕ)
    → ((z : ℕ) → contains xs z ≡ true → g z ≡ suc (f z))
    → IsAscending f xs
    → IsAscending g xs
unfolding exists
IsAscending-shift f g [] h a = tt
IsAscending-shift f g (x ∷ xs) h (low, a) =
    let hx = h x (rw (==_refl x) refl) in
    let more : (z : ℕ) → contains xs z ≡ true → g z ≡ suc (f z) = λ z m. h z (ground (arith, m)) in
    (
      λ z m. let l = low z m in let hz = more z m in omega (arith, l, hx, hz),
      IsAscending-shift f g xs more a,
    )

index_in-IsAscending : (ids : List ℕ) → Distinct ids → IsAscending (index_in ids) ids
unfolding index_in exists
index_in-IsAscending [] d = tt
index_in-IsAscending (i ∷ is) (n, d) = (
  λ z m. rw (apart z m) (rw (==_refl i) (omega arith)),
  IsAscending-shift (index_in is) (index_in (i ∷ is)) is (λ z m. rw (apart z m) refl)
      (index_in-IsAscending is d),
)
  where
    apart : (z : ℕ) → contains is z ≡ true → (i == z) ≡ false
    apart z m = elim (Bool-cases (i == z)) [
      | inl e ↦ absurd (
          let k = subst (λ j. contains is j ≡ true) (sym ((==_iff i z).0 e)) m in
          let t : true ≡ false = sym k ∙ n in cc)
      | inr e ↦ e
    ]

module _ (ids : List ℕ) where
  -- a pair of a rule's position and the rule, where the position is the rule's place in the request
  abbrev Placed : ℕ × Rule → Type 0
  Placed p = (p.0 ≡ index_in ids p.1.id) × (contains ids p.1.id ≡ true)

  abbrev Apart : ℕ × Rule → ℕ × Rule → Type 0
  Apart p q = p.1.id ≢ q.1.id

  abbrev pair_of : Rule → ℕ × Rule
  pair_of r = (r.position, r)

  abbrev pairs : List Rule → List (ℕ × Rule)
  pairs rs = map pair_of (map (placed 0 ids) rs)

  pairs-Placed : (rs : List Rule) → Distinct ids → IsWithin (ids_of rs) ids → All Placed (pairs rs)
  unfolding exists
  pairs-Placed [] d w = tt
  pairs-Placed (r ∷ rs) d w =
      let there = w r.id (rw (==_refl r.id) refl) in
      let same = placed-id 0 ids r in
      let place = placed-position 0 ids r d there in
      (
        (rw same (omega (arith, place)), rw same there),
        pairs-Placed rs d (λ z m. w z (ground (arith, m))),
      )

  pairs-Apart_from :
      (x : Rule) (rs : List Rule)
      → contains (ids_of rs) x.id ≡ false
      → All (Apart (pair_of (placed 0 ids x))) (pairs rs)
  unfolding exists
  pairs-Apart_from x [] h = tt
  pairs-Apart_from x (r ∷ rs) h = (
    λ e.
        let q : x.id ≡ r.id = sym (placed-id 0 ids x) ∙ e ∙ placed-id 0 ids r in
        let k : (r.id == x.id) ≡ true = (==_iff r.id x.id).1 (sym q) in
        let t : true ≡ false = rw k at h in absurd (cc),
    pairs-Apart_from x rs (ground (arith, h)),
  )

  pairs-Apart : (rs : List Rule) → Distinct (ids_of rs) → Pairwise Apart (pairs rs)
  pairs-Apart [] d = tt
  pairs-Apart (r ∷ rs) (n, d) = (pairs-Apart_from r rs n, pairs-Apart rs d)

  exists-pairs :
      (z : ℕ) (rs : List Rule)
      → exists (λ (p : ℕ × Rule). p.1.id == z) (pairs rs) ≡ contains (ids_of rs) z
  unfolding exists
  exists-pairs z [] = refl
  exists-pairs z (r ∷ rs) = rw (placed-id 0 ids r) (rw (exists-pairs z rs) refl)

  -- the ids of a list of pairs
  abbrev listed : List (ℕ × Rule) → List ℕ
  listed ps = map (λ (p : ℕ × Rule). p.1.id) ps

  exists-listed :
      (z : ℕ) (ps : List (ℕ × Rule))
      → contains (listed ps) z ≡ exists (λ (p : ℕ × Rule). p.1.id == z) ps
  unfolding exists
  exists-listed z [] = refl
  exists-listed z (p ∷ ps) = rw (exists-listed z ps) refl

  lower_than :
      (p : ℕ × Rule) (ps : List (ℕ × Rule)) (z : ℕ)
      → Placed p
      → All Placed ps
      → All (Apart p) ps
      → All (λ q. p.0 ≤ q.0) ps
      → contains (listed ps) z ≡ true
      → suc (index_in ids p.1.id) ≤ index_in ids z
  unfolding exists
  lower_than p [] z c a b l m = absurd (cc)
  lower_than p (q ∷ ps) z c a b l m = elim (Bool-cases (q.1.id == z)) [
    | inl e ↦
        let same : q.1.id ≡ z = (==_iff q.1.id z).0 e in
        let no : index_in ids p.1.id ≢ index_in ids q.1.id =
          λ k. b.0 (index_in-injective ids p.1.id q.1.id c.1 a.0.1 k) in
        let low : p.0 ≤ q.0 = l.0 in
        let ep = c.0 in
        let eq = a.0.0 in
        subst (λ j. suc (index_in ids p.1.id) ≤ index_in ids j) same
          (omega (arith, no, low, ep, eq))
    | inr e ↦ lower_than p ps z c a.1 b.1 l.1 (rw e at m)
  ]

  listed-IsAscending :
      (ps : List (ℕ × Rule))
      → IsSorted ps
      → All Placed ps
      → Pairwise Apart ps
      → IsAscending (index_in ids) (listed ps)
  listed-IsAscending [] s a b = tt
  listed-IsAscending (p ∷ ps) s a b =
      (λ z m. lower_than p ps z a.0 a.1 b.0 s.0 m, listed-IsAscending ps s.1 a.1 b.1)

  -- Where the ids of a request are those of the rules, sorting by the new positions lists them.
  listed-sorted :
      (rs : List Rule)
      → Distinct (ids_of rs)
      → is_permutation ids (ids_of rs) ≡ true
      → listed (sorted (pairs rs)) ≡ ids
  unfolding is_permutation
  listed-sorted rs d h =
      let both = and-right (length ids == length (ids_of rs)) _ h in
      let size =
        (==_iff (length ids) (length (ids_of rs))).0
          (and-left (length ids == length (ids_of rs)) _ h) in
      let back = covers-IsWithin (ids_of rs) ids (and-left (covers (ids_of rs) ids) _ both) in
      let forth = covers-IsWithin ids (ids_of rs) (and-right (covers (ids_of rs) ids) _ both) in
      let d' = Distinct-of_within (ids_of rs) ids d forth (omega (arith, size)) in
      let found : (z : ℕ) → contains (listed (sorted (pairs rs))) z ≡ contains (ids_of rs) z =
        λ z. exists-listed z (sorted (pairs rs)) ∙ exists-sorted _ (pairs rs) ∙ exists-pairs z rs in
      ascending_is_unique (index_in ids) (listed (sorted (pairs rs))) ids
        (listed-IsAscending (sorted (pairs rs)) (sorted-IsSorted (pairs rs))
          (All-sorted Placed (pairs rs) (pairs-Placed rs d' forth))
          (Pairwise-sorted Apart (pairs rs) (λ p q n e. n (sym e)) (pairs-Apart rs d)))
        (index_in-IsAscending ids d') (λ z m. forth z (sym (found z) ∙ m))
        (λ z m. found z ∙ back z m)

  listed-rules :
      (layer : ℕ) (rows : List RuleRow)
      → ids_of (map (λ p. p.1) (by_position (rules_of layer (place_rules 0 ids rows))))
        ≡ listed (sorted (pairs (rules_of layer rows)))
  listed-rules layer rows =
      map-map (λ (r : Rule). r.id) (λ p. p.1)
        (by_position (rules_of layer (place_rules 0 ids rows)))
      ∙ ap (λ rs. listed (by_position rs)) (rules_of-place_rules layer 0 ids rows)

-- A reorder by the user who owns the layer, with the ids of the layer's rules, each once, returns, and
-- then the layer's rules are listed as the request has them. The ids of the layer's rules are distinct.
pub reorder_policy_layer_rules-lists :
    (hash_token : List ℕ → String) (authorization : List ℕ) (layer : ℕ) (rule_ids : List ℕ)
    (db : Store) (user_id : ℕ)
    → Distinct (ids_of (rules_of layer db.rules))
    → resolve_user_id hash_token authorization db ≡ some user_id
    → user_owns_policy_layer user_id layer db ≡ true
    → is_permutation rule_ids (ids_of (rules_of layer db.rules)) ≡ true
    → (info : LayerInfo) × (db' : Store) × (reorder_policy_layer_rules hash_token authorization
          layer rule_ids db
        ≡ returned (info, db'))
      × (ids_of info.rules ≡ rule_ids)
      × (ids_of (policy_layer_rules layer db') ≡ rule_ids)
unfolding reorder_policy_layer_rules signed_in policy_layer_info policy_layer_rules
reorder_policy_layer_rules-lists hash_token authorization layer rule_ids db user_id d known owned
      p =
    let db' : Store = record db { rules = place_rules 0 rule_ids db.rules } in
    let e : ids_of (policy_layer_rules layer db') ≡ rule_ids =
      listed-rules rule_ids layer db.rules ∙ listed-sorted rule_ids (rules_of layer db.rules) d p in
    (policy_layer_info layer db', db', rw known (rw owned (rw p refl)), e, e)
