-- ===== src/Service/Spared.antt =====
-- What requests on one policy layer leave of the rules of another.
use doc_chat_template_scc.Common.{
  ℕ, ◌≡◌, ◌≢◌, refl, sym, ap, ◌∙◌, subst, ◌&&◌, Bool, true, false, not, List, [], ◌∷◌, ◌++◌, map,
  ◌==◌, ==_iff, ==_refl, length, select, update, exists, arith, Bool-cases, inl, inr, and-left,
  and-right, select-append, append-nil,
}
use doc_chat_template_scc.Common.Distinct.{contains}
use doc_chat_template_scc.Common.Rows.{Elem, exists_found}
use doc_chat_template_scc.Policy.{Rule}
use doc_chat_template_scc.Service.Data.{PolicyLayer, RuleRow, Store}
use doc_chat_template_scc.Service.Layers.{
  in_layer, has_id, rules_of, ids_of, user_owns_policy_layer, place_rules, covers, is_permutation,
}
use doc_chat_template_scc.Service.Layers.{RuleBody}
use doc_chat_template_scc.Service.RuleUpdates.{set_rule}
use doc_chat_template_scc.Service.Places.{placed, placed-absent, rules_of-place_rules}
use doc_chat_template_scc.Service.Reorder.{covers-IsWithin}

-- `id` is the primary key of `policy_layers` and of `policy_layer_rules`.
pub record IsKeyed (db : Store) : Type 0 where
  pub layers :
      (l m : PolicyLayer) → Elem l db.policy_layers → Elem m db.policy_layers → l.id ≡ m.id → l ≡ m
  pub rules : (x y : RuleRow) → Elem x db.rules → Elem y db.rules → x.rule.id ≡ y.rule.id → x ≡ y

pub layers_apart :
    (a b l m : ℕ) (db : Store)
    → IsKeyed db
    → a ≢ b
    → user_owns_policy_layer a l db ≡ true
    → user_owns_policy_layer b m db ≡ true
    → (m == l) ≡ false
unfolding user_owns_policy_layer
layers_apart a b l m db keyed n h k = elim (Bool-cases (m == l)) [
  | inr e ↦ e
  | inl e ↦
      let (x, p, i) = exists_found _ db.policy_layers h in
      let (y, q, j) = exists_found _ db.policy_layers k in
      let ml : m ≡ l = (==_iff m l).0 e in
      let xl = (==_iff x.id l).0 (and-left (x.id == l) (x.user_id == a) p) in
      let ym = (==_iff y.id m).0 (and-left (y.id == m) (y.user_id == b) q) in
      let same = keyed.layers x y i j (xl ∙ sym ml ∙ sym ym) in
      let xa = (==_iff x.user_id a).0 (and-right (x.id == l) (x.user_id == a) p) in
      let yb = (==_iff y.user_id b).0 (and-right (y.id == m) (y.user_id == b) q) in
      absurd (n (sym xa ∙ ap (λ z. z.user_id) same ∙ yb))
]

-- Rows that a deletion spares are still selected.
select-spared :
    (p q : RuleRow → Bool) (rows : List RuleRow)
    → ((x : RuleRow) → Elem x rows → p x ≡ true → q x ≡ false)
    → select p (select (λ x. not (q x)) rows) ≡ select p rows
unfolding select
select-spared p q [] h = refl
select-spared p q (x ∷ rows) h =
    let rest = select-spared p q rows (λ y m. h y (inr m)) in
    elim (Bool-cases (p x)) [
      | inl e ↦ rw (h x (inl refl) e) (rw e (ap (λ ys. x ∷ ys) rest))
      | inr e ↦ elim (Bool-cases (q x)) [ inl f ↦ rw f (rw e rest) | inr f ↦ rw f (rw e rest) ]
    ]

-- Rows that an update leaves alone are still selected, and no other.
select-unmoved :
    (p q : RuleRow → Bool) (f : RuleRow → RuleRow) (rows : List RuleRow)
    → ((x : RuleRow) → Elem x rows → p x ≡ true → q x ≡ false)
    → ((x : RuleRow) → p (f x) ≡ p x)
    → select p (update q f rows) ≡ select p rows
unfolding select update
select-unmoved p q f [] h same = refl
select-unmoved p q f (x ∷ rows) h same =
    let rest = select-unmoved p q f rows (λ y m. h y (inr m)) same in
    elim (Bool-cases (p x)) [
      | inl e ↦ rw (h x (inl refl) e) (rw e (ap (λ ys. x ∷ ys) rest))
      | inr e ↦ elim (Bool-cases (q x)) [
        | inl g ↦ rw g (rw (same x) (rw e rest))
        | inr g ↦ rw g (rw e rest)
      ]
    ]

in_layer-apart :
    (l m : ℕ) (x : RuleRow) → (m == l) ≡ false → in_layer l x ≡ true → in_layer m x ≡ false
in_layer-apart l m x n h = ground arith

Elem-rules_of :
    (l id : ℕ) (rows : List RuleRow)
    → contains (ids_of (rules_of l rows)) id ≡ true
    → (x : RuleRow) × Elem x rows × (in_layer l x ≡ true) × (x.rule.id ≡ id)
unfolding select exists
Elem-rules_of l id [] h = absurd (cc)
Elem-rules_of l id (x ∷ rows) h = elim (Bool-cases (in_layer l x)) [
  | inl e ↦
      let k : contains (x.rule.id ∷ ids_of (rules_of l rows)) id ≡ true = rw e at h in
      elim (Bool-cases (x.rule.id == id)) [
        | inl f ↦ (x, inl refl, e, (==_iff x.rule.id id).0 f)
        | inr f ↦ let (y, m, i, s) = Elem-rules_of l id rows (rw f at k) in (y, inr m, i, s)
      ]
  | inr e ↦ let (y, m, i, s) = Elem-rules_of l id rows (rw e at h) in (y, inr m, i, s)
]

map-placed :
    (ids : List ℕ) (rs : List Rule)
    → ((z : ℕ) → contains (ids_of rs) z ≡ true → contains ids z ≡ false)
    → map (placed 0 ids) rs ≡ rs
unfolding exists
map-placed ids [] h = refl
map-placed ids (r ∷ rs) h =
    let absent = h r.id (rw (==_refl r.id) refl) in
    rw (placed-absent 0 ids r absent)
      (ap (λ xs. r ∷ xs) (map-placed ids rs (λ z m. h z (ground (arith, m)))))

-- Where a layer owned by one user differs from that of a request, deletions and orders of the latter's
-- rules spare the former's.
module _ (l m : ℕ) (db : Store) (keyed : IsKeyed db) (apart : (m == l) ≡ false) where
  pub deleted_layer : rules_of l (select (λ r. not (in_layer m r)) db.rules) ≡ rules_of l db.rules
  deleted_layer =
      ap (map (λ r. r.rule))
        (select-spared (in_layer l) (in_layer m) db.rules (λ x i h. in_layer-apart l m x apart h))

  pub inserted_rule :
      (r : Rule)
      → rules_of l (db.rules ++ (record { policy_layer_id = m; rule = r }) ∷ [])
        ≡ rules_of l db.rules
  unfolding select
  inserted_rule r = ap (map (λ x. x.rule)) (
      select-append (in_layer l) db.rules ((record { policy_layer_id = m; rule = r }) ∷ [])
      ∙ rw apart (append-nil (select (in_layer l) db.rules)))

  elsewhere :
      (x y : RuleRow)
      → Elem x db.rules
      → Elem y db.rules
      → in_layer l x ≡ true
      → in_layer m y ≡ true
      → x.rule.id ≢ y.rule.id
  elsewhere x y i j h k e =
      let same = keyed.rules x y i j e in
      let f : in_layer m x ≡ false = in_layer-apart l m x apart h in
      let g : in_layer m x ≡ true = subst (λ z. in_layer m z ≡ true) (sym same) k in
      absurd (let t : true ≡ false = sym g ∙ f in cc)

  -- a rule of one of the layers has an id that no rule of the other has
  id_elsewhere :
      (r : ℕ)
      → exists (λ (x : RuleRow). x.rule.id == r && x.policy_layer_id == m) db.rules ≡ true
      → (x : RuleRow) → Elem x db.rules
      → in_layer l x ≡ true
      → has_id r x ≡ false
  id_elsewhere r h x i k =
      let (y, p, j) = exists_found _ db.rules h in
      let yr = (==_iff y.rule.id r).0 (and-left (y.rule.id == r) (in_layer m y) p) in
      let ym = and-right (y.rule.id == r) (in_layer m y) p in
      elim (Bool-cases (has_id r x)) [
        | inl e ↦ absurd (elsewhere x y i j k ym ((==_iff x.rule.id r).0 e ∙ sym yr))
        | inr e ↦ e
      ]

  pub deleted_rule :
      (r : ℕ)
      → exists (λ (x : RuleRow). x.rule.id == r && x.policy_layer_id == m) db.rules ≡ true
      → rules_of l (select (λ x. not (has_id r x)) db.rules) ≡ rules_of l db.rules
  deleted_rule r h =
      ap (map (λ x. x.rule)) (select-spared (in_layer l) (has_id r) db.rules (id_elsewhere r h))

  pub updated_rule :
      (r : ℕ) (body : RuleBody)
      → exists (λ (x : RuleRow). x.rule.id == r && x.policy_layer_id == m) db.rules ≡ true
      → rules_of l (update (has_id r) (set_rule body) db.rules) ≡ rules_of l db.rules
  updated_rule r body h = ap (map (λ x. x.rule)) (
      select-unmoved (in_layer l) (has_id r) (set_rule body) db.rules (id_elsewhere r h)
        (λ x. refl))

  pub reordered :
      (ids : List ℕ)
      → is_permutation ids (ids_of (rules_of m db.rules)) ≡ true
      → rules_of l (place_rules 0 ids db.rules) ≡ rules_of l db.rules
  unfolding is_permutation
  reordered ids h =
      let both = and-right (length ids == length (ids_of (rules_of m db.rules))) _ h in
      let back =
        covers-IsWithin (ids_of (rules_of m db.rules)) ids
          (and-left (covers (ids_of (rules_of m db.rules)) ids) _ both) in
      rules_of-place_rules l 0 ids db.rules
      ∙ map-placed ids (rules_of l db.rules) λ z k. elim (Bool-cases (contains ids z)) [
        | inl e ↦
            let (y, j, ym, yz) = Elem-rules_of m z db.rules (back z e) in
            let (x, i, xl, xz) = Elem-rules_of l z db.rules k in
            absurd (elsewhere x y i j xl ym (xz ∙ sym yz))
        | inr e ↦ e
      ]
