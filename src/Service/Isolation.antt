-- ===== src/Service/Isolation.antt =====
-- No request of one user touches the rules of another user's policy layer.
use doc_chat_template_scc.Common.{
  ℕ, ◌≡◌, ◌≢◌, refl, ap, ◌&&◌, true, false, not, some, List, String, ◌==◌, exists, Bool-cases,
  Option-cases, Bool, first, inl, inr,
}
use doc_chat_template_scc.Service.Data.{
  PolicyLayer, LayerHost, RuleRow, Store, Reply, returned, raised,
}
use doc_chat_template_scc.Service.Accounts.{resolve_user_id, signed_in}
use doc_chat_template_scc.Service.Layers.{
  rules_of, ids_of, RuleBody, user_owns_policy_layer, user_owns_policy_layer_rule, user_owns_host,
  is_permutation, named_layer, has_id,
}
use doc_chat_template_scc.Service.Requests.{
  create_policy_layer, rename_policy_layer, delete_policy_layer, add_policy_layer_to_host,
  remove_policy_layer_from_host, create_policy_layer_rule, delete_policy_layer_rule,
  reorder_policy_layer_rules,
}
use doc_chat_template_scc.Service.RuleUpdates.{RuleUpdate, revalidated, update_policy_layer_rule}
use doc_chat_template_scc.Service.Spared.{
  IsKeyed, layers_apart, deleted_layer, inserted_rule, updated_rule, deleted_rule, reordered,
}

-- a request on policy layers
pub data LayerRequest : Type 0 where
  create_layer : String → LayerRequest
  rename_layer : ℕ → String → LayerRequest
  delete_layer : ℕ → LayerRequest
  attach detach : (layer_id host_id : ℕ) → LayerRequest
  create_rule : ℕ → RuleBody → LayerRequest
  update_rule : (layer_id rule_id : ℕ) → RuleUpdate → LayerRequest
  delete_rule : (layer_id rule_id : ℕ) → LayerRequest
  reorder_rules : ℕ → List ℕ → LayerRequest

-- the tables after a request, which stay where it raised
abbrev stored_by : {A : Type 0} → Reply (A × Store) → Store → Store
stored_by (returned (a, db')) db = db'
stored_by (raised e) db = db

module _ (compiles : String → Bool) (hash_token : List ℕ → String) (authorization : List ℕ) where
  unfoldable pub serve : LayerRequest → Store → Store
  serve (create_layer name) db = stored_by (create_policy_layer hash_token authorization name db) db
  serve (rename_layer l name) db =
      stored_by (rename_policy_layer hash_token authorization l name db) db
  serve (delete_layer l) db = stored_by (delete_policy_layer hash_token authorization l db) db
  serve (attach l h) db = stored_by (add_policy_layer_to_host hash_token authorization l h db) db
  serve (detach l h) db =
      stored_by (remove_policy_layer_from_host hash_token authorization l h db) db
  serve (create_rule l body) db =
      stored_by (create_policy_layer_rule hash_token authorization l body db) db
  serve (update_rule l r body) db =
      stored_by (update_policy_layer_rule compiles hash_token authorization l r body db) db
  serve (delete_rule l r) db =
      stored_by (delete_policy_layer_rule hash_token authorization l r db) db
  serve (reorder_rules l ids) db =
      stored_by (reorder_policy_layer_rules hash_token authorization l ids db) db

module _ (compiles : String → Bool) (hash_token : List ℕ → String) (authorization : List ℕ)
    (a b l : ℕ) (db : Store) (keyed : IsKeyed db) (n : a ≢ b)
    (owned : user_owns_policy_layer a l db ≡ true)
    (known : resolve_user_id hash_token authorization db ≡ some b) where
  -- What a request leaves, by whether its user owns the layer that it names.
  by_owner :
      (m : ℕ) (q : LayerRequest)
      → (user_owns_policy_layer b m db ≡ false
          → (serve compiles hash_token authorization q db).rules ≡ db.rules)
      → ((m == l) ≡ false
          → user_owns_policy_layer b m db ≡ true
          → rules_of l (serve compiles hash_token authorization q db).rules ≡ rules_of l db.rules)
      → rules_of l (serve compiles hash_token authorization q db).rules ≡ rules_of l db.rules
  by_owner m q refused done = elim (Bool-cases (user_owns_policy_layer b m db)) [
    | inl e ↦ done (layers_apart a b l m db keyed n owned e) e
    | inr e ↦ ap (rules_of l) (refused e)
  ]

  -- A request on policy layers by a signed-in user leaves the rules of every layer that another user
  -- owns, with their positions, as they were, whether it returns or raises. The ids of layers and of
  -- rules are unique.
  pub serve-isolates :
      (q : LayerRequest)
      → rules_of l (serve compiles hash_token authorization q db).rules ≡ rules_of l db.rules
  unfolding serve signed_in create_policy_layer rename_policy_layer delete_policy_layer
      add_policy_layer_to_host remove_policy_layer_from_host create_policy_layer_rule
      delete_policy_layer_rule reorder_policy_layer_rules user_owns_policy_layer_rule
      update_policy_layer_rule
  serve-isolates (create_layer name) =
      elim (Bool-cases (exists (named_layer b name) db.policy_layers)) [
        | inl e ↦ rw known (rw e refl)
        | inr e ↦ rw known (rw e refl)
      ]
  serve-isolates (rename_layer m name) =
      by_owner m (rename_layer m name) (λ e. rw known (rw e refl))
        λ apart e.
          elim (Bool-cases (
            exists (λ (x : PolicyLayer). not (x.id == m) && named_layer b name x)
              db.policy_layers)) [
                | inl f ↦ rw known (rw e (rw f refl))
                | inr f ↦ rw known (rw e (rw f refl))
              ]
  serve-isolates (delete_layer m) =
      by_owner m (delete_layer m) (λ e. rw known (rw e refl))
        λ apart e. rw known (rw e (deleted_layer l m db keyed apart))
  serve-isolates (attach m h) =
      elim (Bool-cases (user_owns_policy_layer b m db && user_owns_host b h db)) [
        | inl e ↦
            elim (Bool-cases (
              exists (λ (x : LayerHost). x.policy_layer_id == m && x.host_id == h)
                db.layer_hosts)) [
                  | inl f ↦ rw known (rw e (rw f refl))
                  | inr f ↦ rw known (rw e (rw f refl))
                ]
        | inr e ↦ rw known (rw e refl)
      ]
  serve-isolates (detach m h) =
      by_owner m (detach m h) (λ e. rw known (rw e refl)) λ apart e. rw known (rw e refl)
  serve-isolates (create_rule m body) =
      by_owner m (create_rule m body) (λ e. rw known (rw e refl))
        λ apart e. rw known (rw e (inserted_rule l m db keyed apart _))
  serve-isolates (update_rule m r body) =
      elim (Bool-cases
        (exists (λ (x : RuleRow). x.rule.id == r && x.policy_layer_id == m) db.rules)) [
          | inl f ↦
              by_owner m (update_rule m r body) (λ e. rw known (rw f (rw e refl)))
                λ apart e. elim (Option-cases (first (has_id r) db.rules)) [
                  | inl g ↦ rw known (rw f (rw e (rw g refl)))
                  | inr (c, g) ↦ elim (Option-cases (revalidated compiles c.rule body)) [
                    | inl k ↦ rw known (rw f (rw e (rw g (rw k refl))))
                    | inr (v, k) ↦
                        rw known (rw f (rw e (rw g (rw k (updated_rule l m db keyed apart r v f)))))
                  ]
                ]
          | inr f ↦ rw known (rw f refl)
        ]
  serve-isolates (delete_rule m r) =
      elim (Bool-cases
        (exists (λ (x : RuleRow). x.rule.id == r && x.policy_layer_id == m) db.rules)) [
          | inl f ↦
              by_owner m (delete_rule m r) (λ e. rw known (rw f (rw e refl)))
                λ apart e. rw known (rw f (rw e (deleted_rule l m db keyed apart r f)))
          | inr f ↦ rw known (rw f refl)
        ]
  serve-isolates (reorder_rules m ids) =
      by_owner m (reorder_rules m ids) (λ e. rw known (rw e refl))
        λ apart e. elim (Bool-cases (is_permutation ids (ids_of (rules_of m db.rules)))) [
          | inl p ↦ rw known (rw e (rw p (reordered l m db keyed apart ids p)))
          | inr p ↦ rw known (rw e (rw p refl))
        ]
