-- ===== src/Service/Requests.antt =====
-- casper_service/main.py: the endpoints for policy layers and their rules.
use doc_chat_template_scc.Common.{ℕ, not, ◌&&◌, List, String, ◌==◌, select, update, exists}
use doc_chat_template_scc.Policy.{Rule}
use doc_chat_template_scc.Service.Data.{
  PolicyLayer, LayerHost, RuleRow, no_layer, no_layer_or_host, layer_exists, no_rule,
  not_a_permutation, integrity_error, Request, ◌>>=◌, ◌>>◌, gets, modify, raise_if,
}
use doc_chat_template_scc.Service.Accounts.{signed_in}
use doc_chat_template_scc.Service.Layers.{
  user_owns_host, user_owns_policy_layer, user_owns_policy_layer_rule, in_layer, rules_of,
  LayerInfo, policy_layer_info, next_position, RuleBody, rule_from, insert_rule, has_id,
  place_rules, is_permutation, ids_of, named_layer, insert_layer, add_layer_host,
}

module _ (hash_token : List ℕ → String) (authorization : List ℕ) where
  unfoldable pub create_policy_layer : String → Request LayerInfo
  unfolding signed_in policy_layer_info
  create_policy_layer name = do
    user_id ← signed_in hash_token authorization
    existing ← gets (λ db. exists (named_layer user_id name) db.policy_layers)
    raise_if existing layer_exists
    modify (insert_layer user_id name)
    gets (λ db. policy_layer_info db.policy_layer_seq db)

  -- where another layer of the user has the name, the unique index refuses the UPDATE
  unfoldable pub rename_policy_layer : ℕ → String → Request LayerInfo
  unfolding signed_in user_owns_policy_layer policy_layer_info
  rename_policy_layer layer_id name = do
    user_id ← signed_in hash_token authorization
    owned ← gets (user_owns_policy_layer user_id layer_id)
    raise_if (not owned) no_layer
    clash ← gets λ db.
        exists (λ (l : PolicyLayer). not (l.id == layer_id) && named_layer user_id name l)
          db.policy_layers
    raise_if clash integrity_error
    modify λ db. record db {
      policy_layers =
          update (λ (l : PolicyLayer). l.id == layer_id)
            (λ (l : PolicyLayer). record l { name = name }) db.policy_layers;
    }
    gets (policy_layer_info layer_id)

  unfoldable pub delete_policy_layer : ℕ → Request Unit
  unfolding signed_in user_owns_policy_layer
  delete_policy_layer layer_id = do
    user_id ← signed_in hash_token authorization
    owned ← gets (user_owns_policy_layer user_id layer_id)
    raise_if (not owned) no_layer
    modify λ db. record db {
      layer_hosts = select (λ (h : LayerHost). not (h.policy_layer_id == layer_id)) db.layer_hosts;
      rules = select (λ (r : RuleRow). not (in_layer layer_id r)) db.rules;
      policy_layers = select (λ (l : PolicyLayer). not (l.id == layer_id)) db.policy_layers;
    }

  unfoldable pub add_policy_layer_to_host : ℕ → ℕ → Request LayerInfo
  unfolding signed_in user_owns_policy_layer user_owns_host policy_layer_info
  add_policy_layer_to_host layer_id host_id = do
    user_id ← signed_in hash_token authorization
    owned ←
        gets (λ db. user_owns_policy_layer user_id layer_id db && user_owns_host user_id host_id db)
    raise_if (not owned) no_layer_or_host
    modify (add_layer_host layer_id host_id)
    gets (policy_layer_info layer_id)

  unfoldable pub remove_policy_layer_from_host : ℕ → ℕ → Request LayerInfo
  unfolding signed_in user_owns_policy_layer policy_layer_info
  remove_policy_layer_from_host layer_id host_id = do
    user_id ← signed_in hash_token authorization
    owned ← gets (user_owns_policy_layer user_id layer_id)
    raise_if (not owned) no_layer
    modify λ db. record db {
      layer_hosts =
          select (λ (h : LayerHost). not (h.policy_layer_id == layer_id && h.host_id == host_id))
            db.layer_hosts;
    }
    gets (policy_layer_info layer_id)

  -- the rule that it returns is the row that it inserted
  unfoldable pub create_policy_layer_rule : ℕ → RuleBody → Request Rule
  unfolding signed_in user_owns_policy_layer next_position
  create_policy_layer_rule layer_id body = do
    user_id ← signed_in hash_token authorization
    owned ← gets (user_owns_policy_layer user_id layer_id)
    raise_if (not owned) no_layer
    position ← gets (λ db. next_position (rules_of layer_id db.rules))
    modify (insert_rule layer_id body)
    gets (λ db. rule_from db.rule_seq position body)

  unfoldable pub delete_policy_layer_rule : ℕ → ℕ → Request Unit
  unfolding signed_in user_owns_policy_layer_rule
  delete_policy_layer_rule layer_id rule_id = do
    user_id ← signed_in hash_token authorization
    owned ← gets (user_owns_policy_layer_rule user_id layer_id rule_id)
    raise_if (not owned) no_rule
    modify (λ db. record db { rules = select (λ r. not (has_id rule_id r)) db.rules })

  unfoldable pub reorder_policy_layer_rules : ℕ → List ℕ → Request LayerInfo
  unfolding signed_in user_owns_policy_layer is_permutation place_rules policy_layer_info
  reorder_policy_layer_rules layer_id rule_ids = do
    user_id ← signed_in hash_token authorization
    owned ← gets (user_owns_policy_layer user_id layer_id)
    raise_if (not owned) no_layer
    current_ids ← gets (λ db. ids_of (rules_of layer_id db.rules))
    raise_if (not (is_permutation rule_ids current_ids)) not_a_permutation
    modify (λ db. record db { rules = place_rules 0 rule_ids db.rules })
    gets (policy_layer_info layer_id)
